-- ===== src/Rank/Order.antt =====
-- The sort of gameserver/RankManager.cpp, and the predicates on a ranking.
use dream_heroes.Base.{
  ==_iff, Bool, Bool-cases, Bytes, List, Option, [], ap, arith, false, has, if◌then◌else◌, inl, inr,
  none, refl, some, true, ℕ, ◌==◌, ◌||◌, ◌∙◌, ◌∷◌, ◌≡◌,
}
use dream_heroes.Base.Int.{pos, ℤ, ◌+ℤ◌}
use dream_heroes.Rank.{DailyGameRank, daily_rank, insert_by_rank, sort_by_rank}

-- Whether the list has an entry of the account.
abbrev pub has_acc : ℕ → List DailyGameRank → Bool
has_acc a = has λ x. x.acc == a

-- No account has two entries.
abbrev pub IsOneEach : List DailyGameRank → Type 0
IsOneEach [] = Unit
IsOneEach (x ∷ xs) = (has_acc x.acc xs ≡ false) × IsOneEach xs

-- The name and the score of an account: the view that forgets the order and the ranks.
abbrev pub entry_of : ℕ → List DailyGameRank → Option (Bytes × ℤ)
entry_of a [] = none
entry_of a (x ∷ xs) = if x.acc == a then some (x.name, x.score) else entry_of a xs

-- None of the entries comes before `x`.
abbrev pub NoneBefore : DailyGameRank → List DailyGameRank → Type 0
NoneBefore x [] = Unit
NoneBefore x (y ∷ ys) = (daily_rank y x ≡ false) × NoneBefore x ys

-- No entry comes before an earlier one.
abbrev pub IsRanked : List DailyGameRank → Type 0
IsRanked [] = Unit
IsRanked (x ∷ xs) = NoneBefore x xs × IsRanked xs

-- The ranks count up from the given one.
abbrev pub IsNumbered : ℤ → List DailyGameRank → Type 0
IsNumbered n [] = Unit
IsNumbered n (x ∷ xs) = (x.rank ≡ n) × IsNumbered (n +ℤ pos 1) xs

daily_rank_asym : (x y : DailyGameRank) → daily_rank x y ≡ true → daily_rank y x ≡ false
unfolding daily_rank
daily_rank_asym x y h = ground arith

daily_rank_trans :
    (x y z : DailyGameRank)
    → daily_rank y x ≡ false
    → daily_rank z y ≡ false
    → daily_rank z x ≡ false
unfolding daily_rank
daily_rank_trans x y z h k = ground arith

NoneBefore-trans :
    (x y : DailyGameRank) (zs : List DailyGameRank)
    → daily_rank y x ≡ false
    → NoneBefore y zs
    → NoneBefore x zs
NoneBefore-trans x y [] h n = tt
NoneBefore-trans x y (z ∷ zs) h n = (daily_rank_trans x y z h n.0, NoneBefore-trans x y zs h n.1)

NoneBefore-insert_by_rank :
    (y x : DailyGameRank) (ys : List DailyGameRank)
    → daily_rank x y ≡ false
    → NoneBefore y ys
    → NoneBefore y (insert_by_rank x ys)
unfolding insert_by_rank
NoneBefore-insert_by_rank y x [] h n = (h, tt)
NoneBefore-insert_by_rank y x (z ∷ zs) h n = ground (arith, NoneBefore-insert_by_rank y x zs h n.1)

insert_by_rank-IsRanked :
    (x : DailyGameRank) (ys : List DailyGameRank) → IsRanked ys → IsRanked (insert_by_rank x ys)
unfolding insert_by_rank
insert_by_rank-IsRanked x [] r = (tt, tt)
insert_by_rank-IsRanked x (y ∷ ys) r = elim (Bool-cases (daily_rank y x)) [
  | inl e ↦ rw e (
    NoneBefore-insert_by_rank y x ys (daily_rank_asym y x e) r.0,
    insert_by_rank-IsRanked x ys r.1,
  )
  | inr e ↦ rw e ((e, NoneBefore-trans x y ys e r.0), r)
]

pub sort_by_rank-IsRanked : (xs : List DailyGameRank) → IsRanked (sort_by_rank xs)
unfolding sort_by_rank
sort_by_rank-IsRanked [] = tt
sort_by_rank-IsRanked (x ∷ xs) =
    insert_by_rank-IsRanked x (sort_by_rank xs) (sort_by_rank-IsRanked xs)

has_acc-insert_by_rank :
    (a : ℕ) (x : DailyGameRank) (ys : List DailyGameRank)
    → has_acc a (insert_by_rank x ys) ≡ (x.acc == a) || has_acc a ys
unfolding insert_by_rank
has_acc-insert_by_rank a x [] = refl
has_acc-insert_by_rank a x (y ∷ ys) = ground (arith, has_acc-insert_by_rank a x ys)

pub has_acc-sort_by_rank :
    (a : ℕ) (xs : List DailyGameRank) → has_acc a (sort_by_rank xs) ≡ has_acc a xs
unfolding sort_by_rank
has_acc-sort_by_rank a [] = refl
has_acc-sort_by_rank a (x ∷ xs) =
    ground (arith, has_acc-insert_by_rank a x (sort_by_rank xs), has_acc-sort_by_rank a xs)

insert_by_rank-IsOneEach :
    (x : DailyGameRank) (ys : List DailyGameRank)
    → has_acc x.acc ys ≡ false
    → IsOneEach ys
    → IsOneEach (insert_by_rank x ys)
unfolding insert_by_rank
insert_by_rank-IsOneEach x [] h d = (refl, tt)
insert_by_rank-IsOneEach x (y ∷ ys) h d = ground (
  arith,
  has_acc-insert_by_rank y.acc x ys,
  insert_by_rank-IsOneEach x ys,
  ==_iff x.acc y.acc,
  ==_iff y.acc x.acc,
)

pub sort_by_rank-IsOneEach : (xs : List DailyGameRank) → IsOneEach xs → IsOneEach (sort_by_rank xs)
unfolding sort_by_rank
sort_by_rank-IsOneEach [] d = tt
sort_by_rank-IsOneEach (x ∷ xs) d =
    insert_by_rank-IsOneEach x (sort_by_rank xs) (has_acc-sort_by_rank x.acc xs ∙ d.0)
      (sort_by_rank-IsOneEach xs d.1)

entry_of-insert_by_rank :
    (a : ℕ) (x : DailyGameRank) (ys : List DailyGameRank)
    → has_acc x.acc ys ≡ false
    → entry_of a (insert_by_rank x ys) ≡ entry_of a (x ∷ ys)
unfolding insert_by_rank
entry_of-insert_by_rank a x [] h = refl
entry_of-insert_by_rank a x (y ∷ ys) h =
    ground
      (arith, entry_of-insert_by_rank a x ys, ==_iff y.acc x.acc, ==_iff y.acc a, ==_iff x.acc a)

pub entry_of-sort_by_rank :
    (a : ℕ) (xs : List DailyGameRank) → IsOneEach xs → entry_of a (sort_by_rank xs) ≡ entry_of a xs
unfolding sort_by_rank
entry_of-sort_by_rank a [] d = refl
entry_of-sort_by_rank a (x ∷ xs) d =
    entry_of-insert_by_rank a x (sort_by_rank xs) (has_acc-sort_by_rank x.acc xs ∙ d.0)
    ∙ ap (λ o. if x.acc == a then some (x.name, x.score) else o) (entry_of-sort_by_rank a xs d.1)
