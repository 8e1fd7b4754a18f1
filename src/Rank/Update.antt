-- ===== src/Rank/Update.antt =====
-- `updateHeroDailyRank` of gameserver/RankManager.cpp: the ranking after a score is entered.
use dream_heroes.Base.{
  ==_iff, Bool-cases, Bytes, List, Option, [], arith, false, if◌then◌else◌, inl, inr, none, refl,
  some, sym, true, ℕ, ◌++◌, ◌==◌, ◌||◌, ◌∙◌, ◌∷◌, ◌≡◌,
}
use dream_heroes.Base.Int.{ltb_ℤ, pos, ℤ, ◌<ℤ◌}
use dream_heroes.Base.Map.{find, nat_key}
use dream_heroes.Rank.{
  DailyGameRank, RankManager, add_entry, enter_found, enter_rank, enter_score, number_ranks, rerank,
  rescore, sort_by_rank, update_hero_daily_rank,
}
use dream_heroes.Rank.Numbered.{
  entry_of-number_ranks, find-rank_map, found_rank, found_rank-present, has_acc-number_ranks,
  number_ranks-IsNumbered, number_ranks-IsOneEach, number_ranks-IsRanked, rank_of-found_rank,
}
use dream_heroes.Rank.Order.{
  IsNumbered, IsOneEach, IsRanked, entry_of, entry_of-sort_by_rank, has_acc, has_acc-sort_by_rank,
  sort_by_rank-IsOneEach, sort_by_rank-IsRanked,
}
use mathlib.Core.Option

-- What the loop over the list has found: no entry of the account, or the list with its entry rescored.
abbrev Rescored : ℕ → ℕ → Bytes → ℤ → List DailyGameRank → Option (List DailyGameRank) → Type 0
Rescored a acc name score xs none = has_acc acc xs ≡ false
Rescored a acc name score xs (some ys) =
    (has_acc acc xs ≡ true)
    × (has_acc a ys ≡ has_acc a xs)
    × (entry_of a ys ≡ (if acc == a then some (name, score) else entry_of a xs))

rescore-Rescored :
    (a acc : ℕ) (name : Bytes) (score : ℤ) (xs : List DailyGameRank)
    → Rescored a acc name score xs (rescore acc name score xs)
unfolding rescore
rescore-Rescored a acc name score [] = refl
rescore-Rescored a acc name score (x ∷ xs) = elim (Bool-cases (x.acc == acc)) [
  | inl e ↦ rw e (ground (arith, ==_iff x.acc acc, ==_iff x.acc a, ==_iff acc a))
  | inr e ↦ rw e (later (rescore acc name score xs) (rescore-Rescored a acc name score xs) e)
]
  where
    later :
        (o : Option (List DailyGameRank))
        → Rescored a acc name score xs o
        → (x.acc == acc) ≡ false
        → Rescored a acc name score (x ∷ xs) (Option.map (λ rest. x ∷ rest) o)
    later none h e = ground arith
    later (some ys) h e = ground (arith, ==_iff x.acc acc, ==_iff x.acc a, ==_iff acc a)

abbrev OneEachIn : Option (List DailyGameRank) → Type 0
OneEachIn none = Unit
OneEachIn (some ys) = IsOneEach ys

rescored-IsOneEach :
    (acc : ℕ) (name : Bytes) (score : ℤ) (xs : List DailyGameRank)
    → IsOneEach xs
    → OneEachIn (rescore acc name score xs)
unfolding rescore
rescored-IsOneEach acc name score [] d = tt
rescored-IsOneEach acc name score (x ∷ xs) d = elim (Bool-cases (x.acc == acc)) [
  | inl e ↦ rw e d
  | inr e ↦ rw e (
      later (rescore acc name score xs) (rescore-Rescored x.acc acc name score xs)
        (rescored-IsOneEach acc name score xs d.1))
]
  where
    later :
        (o : Option (List DailyGameRank))
        → Rescored x.acc acc name score xs o
        → OneEachIn o
        → OneEachIn (Option.map (λ rest. x ∷ rest) o)
    later none h k = tt
    later (some ys) h k = (h.1 ∙ d.0, k)

has_acc-append_one :
    (a : ℕ) (xs : List DailyGameRank) (y : DailyGameRank)
    → has_acc a (xs ++ y ∷ []) ≡ has_acc a xs || (y.acc == a)
has_acc-append_one a [] y = ground arith
has_acc-append_one a (x ∷ xs) y = ground (arith, has_acc-append_one a xs y)

append_one-IsOneEach :
    (xs : List DailyGameRank) (y : DailyGameRank)
    → has_acc y.acc xs ≡ false
    → IsOneEach xs
    → IsOneEach (xs ++ y ∷ [])
append_one-IsOneEach [] y h d = (refl, tt)
append_one-IsOneEach (x ∷ xs) y h d = ground (
  arith,
  has_acc-append_one x.acc xs y,
  append_one-IsOneEach xs y,
  ==_iff x.acc y.acc,
  ==_iff y.acc x.acc,
)

entry_of-append_one :
    (a : ℕ) (xs : List DailyGameRank) (y : DailyGameRank)
    → has_acc y.acc xs ≡ false
    → entry_of a (xs ++ y ∷ []) ≡ (if y.acc == a then some (y.name, y.score) else entry_of a xs)
entry_of-append_one a [] y h = refl
entry_of-append_one a (x ∷ xs) y h =
    ground (arith, entry_of-append_one a xs y, ==_iff x.acc y.acc, ==_iff x.acc a, ==_iff y.acc a)

-- The list after the score is entered, when the score is above the least.
enter_found_lem :
    (m : RankManager) (now acc : ℕ) (name : Bytes) (score : ℤ) (a : ℕ)
    (o : Option (List DailyGameRank))
    → IsOneEach m.heroes_daily_rank
    → Rescored a acc name score m.heroes_daily_rank o
    → Rescored acc acc name score m.heroes_daily_rank o
    → OneEachIn o
    → let l = (enter_found m now acc name score true o).heroes_daily_rank in
      IsOneEach l
      × (has_acc acc l ≡ true)
      × (entry_of a l ≡ (if acc == a then some (name, score) else entry_of a m.heroes_daily_rank))
unfolding enter_found add_entry
enter_found_lem m now acc name score a none d h k o =
    let xs = m.heroes_daily_rank in
    (
      append_one-IsOneEach xs _ h d,
      has_acc-append_one acc xs _ ∙ ground (arith, ==_iff acc acc),
      entry_of-append_one a xs _ h,
    )
enter_found_lem m now acc name score a (some ys) d h k o = (o, k.1 ∙ k.0, h.2)

enter_score_lem :
    (m : RankManager) (now acc : ℕ) (name : Bytes) (score : ℤ) (a : ℕ)
    → IsOneEach m.heroes_daily_rank
    → ltb_ℤ m.min_daily_score score ≡ true
    → let l = (enter_score m now acc name score).heroes_daily_rank in
      IsOneEach l
      × (has_acc acc l ≡ true)
      × (entry_of a l ≡ (if acc == a then some (name, score) else entry_of a m.heroes_daily_rank))
unfolding enter_score
enter_score_lem m now acc name score a d p =
    let xs = m.heroes_daily_rank in
    rw p (
      enter_found_lem m now acc name score a (rescore acc name score xs) d
        (rescore-Rescored a acc name score xs) (rescore-Rescored acc acc name score xs)
        (rescored-IsOneEach acc name score xs d))

-- What the numbering makes of a list in which no account has two entries.
abbrev Reranked : RankManager → RankManager → ℕ → Type 0
Reranked m m' a =
    IsOneEach m'.heroes_daily_rank
    × IsRanked m'.heroes_daily_rank
    × IsNumbered (pos 1) m'.heroes_daily_rank
    × (has_acc a m'.heroes_daily_rank ≡ has_acc a m.heroes_daily_rank)
    × (entry_of a m'.heroes_daily_rank ≡ entry_of a m.heroes_daily_rank)
    × (find a m'.heroes_rank ≡ found_rank a m'.heroes_daily_rank none)

rerank-Reranked :
    (m : RankManager) (a : ℕ) → IsOneEach m.heroes_daily_rank → Reranked m (rerank m) a
unfolding rerank find
rerank-Reranked m a d =
    let xs = m.heroes_daily_rank in
    let sorted = sort_by_rank xs in
    let one_each = number_ranks-IsOneEach (pos 1) sorted (sort_by_rank-IsOneEach xs d) in
    (
      one_each,
      number_ranks-IsRanked (pos 1) sorted (sort_by_rank-IsRanked xs),
      number_ranks-IsNumbered (pos 1) sorted,
      has_acc-number_ranks a (pos 1) sorted ∙ has_acc-sort_by_rank a xs,
      entry_of-number_ranks a (pos 1) sorted ∙ entry_of-sort_by_rank a xs d,
      find-rank_map a (number_ranks (pos 1) sorted) [] one_each,
    )

-- Entering a score above the least into a ranking without two entries of one account leaves such a ranking,
-- in which no entry stands behind one that it comes before, the ranks count up from 1, and the map of ranks
-- answers every account `a` as the list does. The account has the new name and score, every other account
-- keeps its own, and the rank that is reported is the one that the map has for the account.
pub update_hero_daily_rank-IsRanked :
    (m : RankManager) (now acc : ℕ) (name : Bytes) (score : ℤ) (a : ℕ)
    → IsOneEach m.heroes_daily_rank
    → m.min_daily_score <ℤ score
    → let (m', rank) = update_hero_daily_rank m now acc name score in
      IsOneEach m'.heroes_daily_rank
      × IsRanked m'.heroes_daily_rank
      × IsNumbered (pos 1) m'.heroes_daily_rank
      × (find a m'.heroes_rank ≡ found_rank a m'.heroes_daily_rank none)
      × (entry_of a m'.heroes_daily_rank
          ≡ (if acc == a then some (name, score) else entry_of a m.heroes_daily_rank))
      × (find acc m'.heroes_rank ≡ some rank)
unfolding update_hero_daily_rank
update_hero_daily_rank-IsRanked m now acc name score a d p =
    let above = lt_true m.min_daily_score score p in
    let e = enter_score m now acc name score in
    let s = enter_score_lem m now acc name score a d above in
    let r = rerank-Reranked e a s.0 in
    let own = rerank-Reranked e acc s.0 in
    let l = (rerank e).heroes_daily_rank in
    let reported = enter_rank m acc name score in
    rw above (
      r.0,
      r.1,
      r.2,
      r.5,
      r.4 ∙ s.2,
      own.5
          ∙ found_rank-present acc l none (some reported) (own.3 ∙ s.1)
          ∙ sym (rank_of-found_rank acc l reported r.0),
    )
  where
    lt_true : (x y : ℤ) → x <ℤ y → ltb_ℤ x y ≡ true
    lt_true x y h = ground arith
