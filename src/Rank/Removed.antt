-- ===== src/Rank/Removed.antt =====
-- `removeHero` of gameserver/RankManager.cpp: what is left of the list and of the map.
use dream_heroes.Base.{
  ==_iff, Bool, Bool-cases, List, Option, [], ap, arith, false, if◌then◌else◌, inl, inr, none, refl,
  some, true, ℕ, ◌==◌, ◌∙◌, ◌∷◌, ◌≡◌, ◌≢◌,
}
use dream_heroes.Base.Int.{pos, ℤ, ◌+ℤ◌}
use dream_heroes.Base.Map.{Map, assign, find, find-assign_ne, find-assign_self, nat_key}
use dream_heroes.Rank.{DailyGameRank, RankManager, number_ranks, remove_from, remove_hero}
use dream_heroes.Rank.Numbered.{
  entry_of-number_ranks, found_rank, found_rank-absent, has_acc-number_ranks,
}
use dream_heroes.Rank.Order.{IsOneEach, entry_of, has_acc}
use mathlib.Core.Option

-- Whether the last entry is the account's.
abbrev pub ends_with : ℕ → List DailyGameRank → Bool
ends_with acc [] = false
ends_with acc (x ∷ []) = x.acc == acc
ends_with acc (x ∷ y ∷ xs) = ends_with acc (y ∷ xs)

ends_with-has_acc :
    (acc : ℕ) (xs : List DailyGameRank) → has_acc acc xs ≡ false → ends_with acc xs ≡ false
ends_with-has_acc acc [] h = refl
ends_with-has_acc acc (x ∷ []) h = ground arith
ends_with-has_acc acc (x ∷ y ∷ xs) h = ends_with-has_acc acc (y ∷ xs) (ground arith)

-- The map that the loop fills where it erases nothing.
shifted : ℤ → List DailyGameRank → Map ℕ ℤ → Map ℕ ℤ
shifted n [] m = m
shifted n (x ∷ xs) m = shifted (n +ℤ pos 1) xs (assign x.acc (n +ℤ pos 1) (assign x.acc n m))

remove_from-absent :
    (acc : ℕ) (n : ℤ) (xs : List DailyGameRank) (m : Map ℕ ℤ)
    → has_acc acc xs ≡ false
    → remove_from acc n xs m ≡ some (number_ranks n xs, shifted n xs m)
unfolding remove_from number_ranks shifted
remove_from-absent acc n [] m h = refl
remove_from-absent acc n (x ∷ []) m h = ground arith
remove_from-absent acc n (x ∷ y ∷ xs) m h =
    let ih =
      remove_from-absent acc (n +ℤ pos 1) (y ∷ xs) (assign x.acc (n +ℤ pos 1) (assign x.acc n m))
        (ground arith) in
    let other : (x.acc == acc) ≡ false = ground arith in
    rw other (ap (Option.map (λ (l, m). (record x { rank = n } ∷ l, m))) ih)

find-shifted :
    (a : ℕ) (n : ℤ) (xs : List DailyGameRank) (m : Map ℕ ℤ)
    → IsOneEach xs
    → find a (shifted n xs m) ≡ found_rank a (number_ranks (n +ℤ pos 1) xs) (find a m)
unfolding shifted number_ranks
find-shifted a n [] m d = refl
find-shifted a n (x ∷ xs) m d =
    let m' = assign x.acc n m in
    elim (Bool-cases (x.acc == a)) [
      | inl e ↦
          find-shifted a (n +ℤ pos 1) xs (assign x.acc (n +ℤ pos 1) m') d.1
          ∙ rw e (here m' ((==_iff x.acc a).0 e))
      | inr e ↦
          let ne : a ≢ x.acc = (λ p. ground (arith, ==_iff x.acc a)) in
          find-shifted a (n +ℤ pos 1) xs (assign x.acc (n +ℤ pos 1) m') d.1
          ∙ rw e (
              ap (found_rank a (number_ranks (n +ℤ pos 1 +ℤ pos 1) xs))
                (find-assign_ne x.acc a (n +ℤ pos 1) m' ne ∙ find-assign_ne x.acc a n m ne))
    ]
  where
    here :
        (m' : Map ℕ ℤ)
        → x.acc ≡ a
        → found_rank a
            (number_ranks (n +ℤ pos 1 +ℤ pos 1) xs)
            (find a (assign x.acc (n +ℤ pos 1) m'))
          ≡ some (n +ℤ pos 1)
    here m' e = rw (← e) (
        found_rank-absent x.acc _ _ (has_acc-number_ranks x.acc _ xs ∙ d.0)
        ∙ find-assign_self x.acc (n +ℤ pos 1) m')

-- What is left of the list.
abbrev Left : ℕ → ℕ → List DailyGameRank → Option (List DailyGameRank × Map ℕ ℤ) → Type 0
Left a acc xs none = ends_with acc xs ≡ true
Left a acc xs (some (ys, m)) =
    (ends_with acc xs ≡ false) × (entry_of a ys ≡ (if acc == a then none else entry_of a xs))

entry_of-absent : (a : ℕ) (xs : List DailyGameRank) → has_acc a xs ≡ false → entry_of a xs ≡ none
entry_of-absent a [] h = refl
entry_of-absent a (x ∷ xs) h = ground (arith, entry_of-absent a xs)

erased_here :
    (a acc : ℕ) (n : ℤ) (x y : DailyGameRank) (xs : List DailyGameRank) (m : Map ℕ ℤ)
    → x.acc ≡ acc
    → has_acc acc (y ∷ xs) ≡ false
    → Left a acc (x ∷ y ∷ xs) (Option.map (λ (l, m). (y ∷ l, m)) (remove_from acc n xs m))
erased_here a acc n x y xs m e h = rw (remove_from-absent acc n xs m (ground arith)) (
  ends_with-has_acc acc (y ∷ xs) h,
  ground (
    arith,
    entry_of-number_ranks a n xs,
    entry_of-absent acc (y ∷ xs) h,
    ==_iff acc a,
    ==_iff x.acc a,
  ),
)

kept_here :
    (a acc : ℕ) (n : ℤ) (x y : DailyGameRank) (xs : List DailyGameRank)
    (o : Option (List DailyGameRank × Map ℕ ℤ))
    → (x.acc == acc) ≡ false
    → Left a acc (y ∷ xs) o
    → Left a acc (x ∷ y ∷ xs) (Option.map (λ (l, m). (record x { rank = n } ∷ l, m)) o)
kept_here a acc n x y xs none e h = h
kept_here a acc n x y xs (some (ys, m)) e h =
    (h.0, ground (arith, ==_iff acc a, ==_iff x.acc a, ==_iff x.acc acc))

remove_from-Left :
    (a acc : ℕ) (n : ℤ) (xs : List DailyGameRank) (m : Map ℕ ℤ)
    → IsOneEach xs
    → Left a acc xs (remove_from acc n xs m)
unfolding remove_from
remove_from-Left a acc n [] m d = (refl, ground arith)
remove_from-Left a acc n (x ∷ []) m d =
    ground (arith, ==_iff x.acc acc, ==_iff x.acc a, ==_iff acc a)
remove_from-Left a acc n (x ∷ y ∷ xs) m d = elim (Bool-cases (x.acc == acc)) [
  | inl e ↦ rw e (
      erased_here a acc n x y xs (assign x.acc n m) ((==_iff x.acc acc).0 e)
        (ground (arith, ==_iff x.acc acc)))
  | inr e ↦ rw e (kept_here a acc n x y xs _ e (remove_from-Left a acc (n +ℤ pos 1) (y ∷ xs) _ d.1))
]

-- What `removeHero` leaves; `none` is the step past the end of the list.
abbrev pub Removal : ℕ → ℕ → RankManager → Option RankManager → Type 0
Removal a acc m none = ends_with acc m.heroes_daily_rank ≡ true
Removal a acc m (some m') =
    (ends_with acc m.heroes_daily_rank ≡ false)
    × (entry_of a m'.heroes_daily_rank
        ≡ (if acc == a then none else entry_of a m.heroes_daily_rank))

-- Removing an account from a list without two entries of one account steps past the end exactly where its
-- entry is the last one. Everywhere else the list loses the account's entry, and every other account `a`
-- keeps its name and score.
pub remove_hero_outcome :
    (a acc : ℕ) (m : RankManager)
    → IsOneEach m.heroes_daily_rank
    → Removal a acc m (remove_hero m acc)
unfolding remove_hero
remove_hero_outcome a acc m d =
    by_case (remove_from acc (pos 1) m.heroes_daily_rank [])
      (remove_from-Left a acc (pos 1) m.heroes_daily_rank [] d)
  where
    by_case :
        (o : Option (List DailyGameRank × Map ℕ ℤ))
        → Left a acc m.heroes_daily_rank o
        → Removal a acc m
            (Option.map (λ (l, ranks). record m { heroes_daily_rank = l; heroes_rank = ranks }) o)
    by_case none h = h
    by_case (some (l, ranks)) h = h

-- The list, and the rank that the map has for an account.
abbrev pub shown : ℕ → RankManager → List DailyGameRank × Option ℤ
shown a m = (m.heroes_daily_rank, find a m.heroes_rank)

-- Removing an account that has no entry numbers the list from 1, but the map of ranks then answers every
-- account as if the list were numbered from 2: each rank in the map is one too high.
pub remove_hero_ranks_off :
    (a acc : ℕ) (m : RankManager)
    → IsOneEach m.heroes_daily_rank
    → has_acc acc m.heroes_daily_rank ≡ false
    → let l = m.heroes_daily_rank in
      Option.map (shown a) (remove_hero m acc)
      ≡ some (number_ranks (pos 1) l, found_rank a (number_ranks (pos 2) l) none)
unfolding remove_hero find ◌+ℤ◌
remove_hero_ranks_off a acc m d h =
    let l = m.heroes_daily_rank in
    rw (remove_from-absent acc (pos 1) l [] h)
      (ap (λ o. some (number_ranks (pos 1) l, o)) (find-shifted a (pos 1) l [] d))
