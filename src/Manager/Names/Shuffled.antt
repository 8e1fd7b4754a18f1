-- ===== src/Manager/Names/Shuffled.antt =====
-- The table that `refreshDayNumber` of gameserver/DreamHeroManager.cpp shuffles.
use dream_heroes.Base.{
  All, Bool-cases, List, [], ap, arith, false, inl, inr, length, ltb, refl, suc, zero, ℕ, ◌+◌, ◌==◌,
  ◌∙◌, ◌∷◌, ◌≡◌, ◌≤◌,
}
use dream_heroes.Manager.Names.{
  DreamHeroManager, refresh_day_number, refresh_hero_title, shuffle_rows,
}
use mathlib.Core.List.{Permᴰ}
use mathlib.Core.Path.{subst}

-- No element stands twice.
abbrev pub HasNoTwice : List ℕ → Type 0
HasNoTwice [] = Unit
HasNoTwice (x ∷ xs) = All (λ y. (x == y) ≡ false) xs × HasNoTwice xs

-- Ten different digits.
abbrev pub IsDayRow : List ℕ → Type 0
IsDayRow row = (length row ≡ 10) × All (λ d. d ≤ 9) row × HasNoTwice row

-- Six rows of ten different digits.
abbrev pub IsDayTable : List (List ℕ) → Type 0
IsDayTable table = (length table ≡ 6) × All IsDayRow table

-- `random_shuffle` permutes.
abbrev pub Permutes : (ℕ → List ℕ → List ℕ) → Type 0
Permutes shuffle = (i : ℕ) (xs : List ℕ) → Permᴰ xs (shuffle i xs)

All-perm {κ} : (P : ℕ → Type κ) {xs ys : List ℕ} → Permᴰ xs ys → All P xs → All P ys
All-perm P Permᴰ.nil h = h
All-perm P (Permᴰ.cons e d) h = (subst P e h.0, All-perm P d h.1)
All-perm P (Permᴰ.swap e f) h = (subst P f h.1.0, (subst P e h.0, h.1.1))
All-perm P (Permᴰ.trans d e) h = All-perm P e (All-perm P d h)

differ_sym : (x y : ℕ) → (x == y) ≡ false → (y == x) ≡ false
differ_sym x y h = ground arith

HasNoTwice-perm : {xs ys : List ℕ} → Permᴰ xs ys → HasNoTwice xs → HasNoTwice ys
HasNoTwice-perm Permᴰ.nil h = h
HasNoTwice-perm (Permᴰ.cons {l₁ = l₁} e d) h =
    (All-perm _ d (subst (λ t. All (λ y. (t == y) ≡ false) l₁) e h.0), HasNoTwice-perm d h.1)
HasNoTwice-perm (Permᴰ.swap {a = a} {b = b} {b' = b'} {l = l} e f) h =
    let swapped : HasNoTwice (b ∷ a ∷ l) = ((differ_sym a b h.0.0, h.1.0), (h.0.1, h.1.1)) in
    subst (λ t. HasNoTwice (t ∷ b' ∷ l)) f (subst (λ t. HasNoTwice (b ∷ t ∷ l)) e swapped)
HasNoTwice-perm (Permᴰ.trans d e) h = HasNoTwice-perm e (HasNoTwice-perm d h)

length-perm : {xs ys : List ℕ} → Permᴰ xs ys → length ys ≡ length xs
length-perm Permᴰ.nil = refl
length-perm (Permᴰ.cons e d) = ap suc (length-perm d)
length-perm (Permᴰ.swap e f) = refl
length-perm (Permᴰ.trans d e) = length-perm e ∙ length-perm d

IsDayRow-perm : {xs ys : List ℕ} → Permᴰ xs ys → IsDayRow xs → IsDayRow ys
IsDayRow-perm d (l, s, u) = (length-perm d ∙ l, All-perm _ d s, HasNoTwice-perm d u)

shuffle_rows-IsDayRow :
    (shuffle : ℕ → List ℕ → List ℕ)
    → Permutes shuffle
    → (left i : ℕ) (xs : List ℕ) → IsDayRow xs
    → (length (shuffle_rows shuffle left i xs) ≡ left)
      × All IsDayRow (shuffle_rows shuffle left i xs)
unfolding shuffle_rows
shuffle_rows-IsDayRow shuffle p zero i xs h = (refl, tt)
shuffle_rows-IsDayRow shuffle p (suc left) i xs h =
    let here = IsDayRow-perm (p i xs) h in
    let rest = shuffle_rows-IsDayRow shuffle p left (i + 1) (shuffle i xs) here in
    (ap suc rest.0, (here, rest.1))

-- The table of a new day has six rows of ten different digits.
pub refresh_day_number-IsDayTable :
    (shuffle : ℕ → List ℕ → List ℕ) (server_time server_open_time day_spawn : ℕ)
    (m : DreamHeroManager)
    → Permutes shuffle
    → IsDayTable (refresh_day_number shuffle server_time server_open_time day_spawn m).day_number
unfolding refresh_day_number refresh_hero_title
refresh_day_number-IsDayTable shuffle server_time server_open_time day_spawn m p =
    let table =
      shuffle_rows-IsDayRow shuffle p 6 0 (0 ∷ 1 ∷ 2 ∷ 3 ∷ 4 ∷ 5 ∷ 6 ∷ 7 ∷ 8 ∷ 9 ∷ [])
        (refl, ground arith, ground arith) in
    elim (Bool-cases (ltb server_open_time server_time)) [ inl e ↦ rw e table | inr e ↦ rw e table ]
