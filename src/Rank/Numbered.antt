-- ===== src/Rank/Numbered.antt =====
-- The loop that numbers the list and fills the map, in gameserver/RankManager.cpp.
use dream_heroes.Base.{
  ==_iff, Bool-cases, List, Option, [], ap, arith, false, if◌then◌else◌, inl, inr, refl, some, true,
  ℕ, ◌==◌, ◌||◌, ◌∙◌, ◌∷◌, ◌≡◌,
}
use dream_heroes.Base.Int.{pos, ℤ, ◌+ℤ◌}
use dream_heroes.Base.Map.{Map, assign, find, find-assign_ne, find-assign_self, nat_key}
use dream_heroes.Rank.{DailyGameRank, daily_rank, number_ranks, rank_map, rank_of}
use dream_heroes.Rank.Order.{IsNumbered, IsOneEach, IsRanked, NoneBefore, entry_of, has_acc}

-- The rank of the account in the list, or else `o`.
abbrev pub found_rank : ℕ → List DailyGameRank → Option ℤ → Option ℤ
found_rank a [] o = o
found_rank a (x ∷ xs) o = if x.acc == a then some x.rank else found_rank a xs o

pub number_ranks-IsNumbered : (n : ℤ) (xs : List DailyGameRank) → IsNumbered n (number_ranks n xs)
unfolding number_ranks
number_ranks-IsNumbered n [] = tt
number_ranks-IsNumbered n (x ∷ xs) = (refl, number_ranks-IsNumbered (n +ℤ pos 1) xs)

pub has_acc-number_ranks :
    (a : ℕ) (n : ℤ) (xs : List DailyGameRank) → has_acc a (number_ranks n xs) ≡ has_acc a xs
unfolding number_ranks
has_acc-number_ranks a n [] = refl
has_acc-number_ranks a n (x ∷ xs) =
    ap (λ b. (x.acc == a) || b) (has_acc-number_ranks a (n +ℤ pos 1) xs)

pub number_ranks-IsOneEach :
    (n : ℤ) (xs : List DailyGameRank) → IsOneEach xs → IsOneEach (number_ranks n xs)
unfolding number_ranks
number_ranks-IsOneEach n [] d = tt
number_ranks-IsOneEach n (x ∷ xs) d =
    (has_acc-number_ranks x.acc (n +ℤ pos 1) xs ∙ d.0, number_ranks-IsOneEach (n +ℤ pos 1) xs d.1)

pub entry_of-number_ranks :
    (a : ℕ) (n : ℤ) (xs : List DailyGameRank) → entry_of a (number_ranks n xs) ≡ entry_of a xs
unfolding number_ranks
entry_of-number_ranks a n [] = refl
entry_of-number_ranks a n (x ∷ xs) =
    ap (λ o. if x.acc == a then some (x.name, x.score) else o)
      (entry_of-number_ranks a (n +ℤ pos 1) xs)

NoneBefore-number_ranks :
    (x : DailyGameRank) (r n : ℤ) (ys : List DailyGameRank)
    → NoneBefore x ys
    → NoneBefore (record x { rank = r }) (number_ranks n ys)
unfolding number_ranks daily_rank
NoneBefore-number_ranks x r n [] h = tt
NoneBefore-number_ranks x r n (y ∷ ys) h = (h.0, NoneBefore-number_ranks x r (n +ℤ pos 1) ys h.1)

pub number_ranks-IsRanked :
    (n : ℤ) (xs : List DailyGameRank) → IsRanked xs → IsRanked (number_ranks n xs)
unfolding number_ranks
number_ranks-IsRanked n [] h = tt
number_ranks-IsRanked n (x ∷ xs) h =
    (NoneBefore-number_ranks x n (n +ℤ pos 1) xs h.0, number_ranks-IsRanked (n +ℤ pos 1) xs h.1)

pub found_rank-absent :
    (a : ℕ) (xs : List DailyGameRank) (o : Option ℤ) → has_acc a xs ≡ false → found_rank a xs o ≡ o
found_rank-absent a [] o h = refl
found_rank-absent a (x ∷ xs) o h = ground (arith, found_rank-absent a xs o)

pub found_rank-present :
    (a : ℕ) (xs : List DailyGameRank) (o p : Option ℤ)
    → has_acc a xs ≡ true
    → found_rank a xs o ≡ found_rank a xs p
found_rank-present a [] o p h = ground arith
found_rank-present a (x ∷ xs) o p h = ground (arith, found_rank-present a xs o p)

-- The map agrees with the list.
pub find-rank_map :
    (a : ℕ) (xs : List DailyGameRank) (m : Map ℕ ℤ)
    → IsOneEach xs
    → find a (rank_map xs m) ≡ found_rank a xs (find a m)
unfolding rank_map
find-rank_map a [] m d = refl
find-rank_map a (x ∷ xs) m d = elim (Bool-cases (x.acc == a)) [
  | inl e ↦
      find-rank_map a xs (assign x.acc x.rank m) d.1
      ∙ rw e (found_here a x xs m ((==_iff x.acc a).0 e) d.0)
  | inr e ↦
      find-rank_map a xs (assign x.acc x.rank m) d.1
      ∙ rw e (
          ap (found_rank a xs)
            (find-assign_ne x.acc a x.rank m (λ p. ground (arith, ==_iff x.acc a))))
]
  where
    found_here :
        (a : ℕ) (x : DailyGameRank) (xs : List DailyGameRank) (m : Map ℕ ℤ)
        → x.acc ≡ a
        → has_acc x.acc xs ≡ false
        → found_rank a xs (find a (assign x.acc x.rank m)) ≡ some x.rank
    found_here a x xs m e h =
        rw (← e) (found_rank-absent x.acc xs _ h ∙ find-assign_self x.acc x.rank m)

-- The rank that the loop reports is the rank of the account's entry.
pub rank_of-found_rank :
    (a : ℕ) (xs : List DailyGameRank) (r : ℤ)
    → IsOneEach xs
    → some (rank_of a xs r) ≡ found_rank a xs (some r)
unfolding rank_of
rank_of-found_rank a [] r d = refl
rank_of-found_rank a (x ∷ xs) r d = elim (Bool-cases (x.acc == a)) [
  | inl e ↦ rw e (
      rank_of-found_rank a xs x.rank d.1
      ∙ found_rank-absent a xs (some x.rank) (ground (arith, ==_iff x.acc a)))
  | inr e ↦ rw e (rank_of-found_rank a xs r d.1)
]
