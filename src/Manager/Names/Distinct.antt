-- ===== src/Manager/Names/Distinct.antt =====
-- `generateStr` of gameserver/DreamHeroManager.cpp over the counts of one day.
use dream_heroes.Base.{
  All, Bytes, List, [], ap, arith, false, length, refl, suc, sym, zero, ℕ, ◌%◌, ◌*◌, ◌++◌, ◌+◌, ◌/◌,
  ◌<◌, ◌==◌, ◌^◌, ◌∙◌, ◌∷◌, ◌≡◌, ◌≢◌, ◌≤◌,
}
use dream_heroes.Manager.Names.{
  DreamHeroManager, at, c_str, generate_str, numbers, print_numbers, refresh_day_number,
}
use dream_heroes.Manager.Names.Shuffled.{
  HasNoTwice, IsDayRow, Permutes, refresh_day_number-IsDayTable,
}
use dream_heroes.Text.Number.{print_int-digit}
use mathlib.Core.List.{append_cancel_left}

at-All : (row : List ℕ) (i : ℕ) → All (λ d. d ≤ 9) row → i < length row → at 0 row i ≤ 9
unfolding at
at-All [] i h l = absurd (omega (arith, l))
at-All (x ∷ row) zero h l = h.0
at-All (x ∷ row) (suc i) h l = at-All row i h.1 (omega (arith, l))

at-row :
    (table : List (List ℕ)) (i : ℕ)
    → All IsDayRow table
    → i < length table
    → IsDayRow (at [] table i)
unfolding at
at-row [] i h l = absurd (omega (arith, l))
at-row (x ∷ table) zero h l = h.0
at-row (x ∷ table) (suc i) h l = at-row table i h.1 (omega (arith, l))

at-other :
    (x : ℕ) (row : List ℕ) (i : ℕ)
    → All (λ y. (x == y) ≡ false) row
    → i < length row
    → x ≢ at 0 row i
unfolding at
at-other x [] i h l = absurd (omega (arith, l))
at-other x (y ∷ row) zero h l = λ q. absurd (ground (arith, h.0, q))
at-other x (y ∷ row) (suc i) h l = at-other x row i h.1 (omega (arith, l))

-- Two places of a row with the same digit are the same.
at-injective :
    (row : List ℕ) (i j : ℕ)
    → HasNoTwice row
    → i < length row
    → j < length row
    → at 0 row i ≡ at 0 row j
    → i ≡ j
unfolding at
at-injective [] i j h li lj e = absurd (omega (arith, li))
at-injective (x ∷ row) zero zero h li lj e = refl
at-injective (x ∷ row) zero (suc j) h li lj e = absurd (at-other x row j h.0 (omega (arith, lj)) e)
at-injective (x ∷ row) (suc i) zero h li lj e =
    absurd (at-other x row i h.0 (omega (arith, li)) (sym e))
at-injective (x ∷ row) (suc i) (suc j) h li lj e =
    ap suc (at-injective row i j h.1 (omega (arith, li)) (omega (arith, lj)) e)

-- Numbers that are digits are recovered from their print.
print_numbers-injective :
    (ns ks : List ℕ) (argu : Bytes)
    → All (λ d. d ≤ 9) ns
    → All (λ d. d ≤ 9) ks
    → length ns ≡ length ks
    → print_numbers ns argu ≡ print_numbers ks argu
    → ns ≡ ks
unfolding print_numbers at
print_numbers-injective [] [] argu hn hk l e = refl
print_numbers-injective [] (k ∷ ks) argu hn hk l e = absurd (omega (arith, l))
print_numbers-injective (n ∷ ns) [] argu hn hk l e = absurd (omega (arith, l))
print_numbers-injective (n ∷ ns) (k ∷ ks) argu hn hk l e =
    let p : (48 + n) ∷ print_numbers ns argu ≡ (48 + k) ∷ print_numbers ks argu =
      ap (λ t. t ++ print_numbers ns argu) (sym (print_int-digit n hn.0))
      ∙ e
      ∙ ap (λ t. t ++ print_numbers ks argu) (print_int-digit k hk.0) in
    let first : n ≡ k = omega (arith, ap (λ t. at 0 t 0) p) in
    let rest =
      append_cancel_left ((48 + n) ∷ []) (print_numbers ns argu) (print_numbers ks argu)
        (p ∙ ap (λ t. (48 + t) ∷ print_numbers ks argu) (sym first)) in
    let others = print_numbers-injective ns ks argu hn.1 hk.1 (omega (arith, l)) rest in
    rw (first, others) refl

-- A place of the six that `generateStr` looks up.
numbers-at :
    (left i t key : ℕ) (table : List (List ℕ))
    → All IsDayRow table
    → i + left ≤ length table
    → All (λ d. d ≤ 9) (numbers left i t key table) × (length (numbers left i t key table) ≡ left)
unfolding numbers
numbers-at zero i t key table h l = (tt, refl)
numbers-at (suc left) i t key table h l =
    let row = at-row table i h (omega (arith, l)) in
    let rest = numbers-at left (i + 1) (t * 10) key table h (omega (arith, l)) in
    ((at-All (at [] table i) ((key / t) % 10) row.1 (omega (arith, row.0)), rest.0), ap suc rest.1)

-- What the looked up numbers say of the digits of two keys.
SameDigits : ℕ → ℕ → ℕ → ℕ → Type 0
SameDigits zero t a b = Unit
SameDigits (suc left) t a b = ((a / t) % 10 ≡ (b / t) % 10) × SameDigits left (t * 10) a b

drop_one : List ℕ → List ℕ
drop_one [] = []
drop_one (x ∷ xs) = xs

numbers-SameDigits :
    (left i t a b : ℕ) (table : List (List ℕ))
    → All IsDayRow table
    → i + left ≤ length table
    → numbers left i t a table ≡ numbers left i t b table
    → SameDigits left t a b
unfolding numbers SameDigits at drop_one
numbers-SameDigits zero i t a b table h l e = tt
numbers-SameDigits (suc left) i t a b table h l e =
    let row = at-row table i h (omega (arith, l)) in
    (
      at-injective (at [] table i) ((a / t) % 10) ((b / t) % 10) row.2 (omega (arith, row.0))
          (omega (arith, row.0)) (ap (λ s. at 0 s 0) e),
      numbers-SameDigits left (i + 1) (t * 10) a b table h (omega (arith, l)) (ap drop_one e),
    )

same_of_digits : (a b : ℕ) → a < 10 ^ 6 → b < 10 ^ 6 → SameDigits 6 1 a b → a ≡ b
unfolding SameDigits
same_of_digits a b ha hb (d0, (d1, (d2, (d3, (d4, (d5, _)))))) = omega arith

-- On one day, which is one shuffled table and one title, two different counts below a million give different
-- texts, whatever suffix the texts have, if `random_shuffle` permutes.
pub day_names_differ :
    (shuffle : ℕ → List ℕ → List ℕ) (server_time server_open_time day_spawn server_id a b : ℕ)
    (argu : Bytes) (m : DreamHeroManager)
    → Permutes shuffle
    → a < 10 ^ 6
    → b < 10 ^ 6
    → a ≢ b
    → let today = refresh_day_number shuffle server_time server_open_time day_spawn m in
      generate_str server_id today a argu ≢ generate_str server_id today b argu
unfolding generate_str
day_names_differ shuffle server_time server_open_time day_spawn server_id a b argu m p ha hb ne =
    λ e.
      let today = refresh_day_number shuffle server_time server_open_time day_spawn m in
      let table =
        refresh_day_number-IsDayTable shuffle server_time server_open_time day_spawn m p in
      let six : 0 + 6 ≤ length today.day_number = omega (arith, table.0) in
      let na = numbers-at 6 0 1 a today.day_number table.1 six in
      let nb = numbers-at 6 0 1 b today.day_number table.1 six in
      let same =
        append_cancel_left (c_str (server_id ∷ today.hero_day_title))
          (print_numbers (numbers 6 0 1 a today.day_number) argu)
          (print_numbers (numbers 6 0 1 b today.day_number) argu) e in
      let numbers_same =
        print_numbers-injective (numbers 6 0 1 a today.day_number)
          (numbers 6 0 1 b today.day_number) argu na.0 nb.0 (na.1 ∙ sym nb.1) same in
      ne (
        same_of_digits a b ha hb
          (numbers-SameDigits 6 0 1 a b today.day_number table.1 six numbers_same))
