-- ===== src/Text/Number.antt =====
-- Decimal numbers: `sprintf` with `%d`, and `atoi`.
use dream_heroes.Base.{
  All, Bool, Bool-cases, Bytes, [], ap, arith, if◌then◌else◌, inl, inr, leb, ltb, refl, suc, zero,
  ℕ, ◌%◌, ◌&&◌, ◌*◌, ◌++◌, ◌+◌, ◌-◌, ◌/◌, ◌==◌, ◌||◌, ◌∙◌, ◌∷◌, ◌≡◌, ◌≢◌, ◌≤◌,
}
use dream_heroes.Base.Int.{negsuc, pos, ℤ}

-- A digit.
abbrev IsDigit : ℕ → Type 0
IsDigit c = (48 ≤ c) × (c ≤ 57)

-- The digits of a number below ten to the power of the fuel; the number itself is fuel enough.
digits : ℕ → ℕ → Bytes
digits zero n = (48 + n % 10) ∷ []
digits (suc fuel) n =
    let rest = digits fuel (n / 10) in
    if ltb n 10 then (48 + n) ∷ [] else rest ++ (48 + n % 10) ∷ []

-- `%d`
pub print_int : ℤ → Bytes
unfolding digits
print_int (pos n) = digits n n
print_int (negsuc n) = 45 ∷ digits (n + 1) (n + 1)

is_digit : ℕ → Bool
is_digit c = leb 48 c && leb c 57

is_space : ℕ → Bool
is_space c = (c == 32) || (leb 9 c && leb c 13)

-- The digits at the front, behind a number that is read already.
scan : ℕ → Bytes → ℕ
scan acc [] = acc
scan acc (c ∷ s) = let rest = scan (acc * 10 + (c - 48)) s in if is_digit c then rest else acc

negated : ℕ → ℤ
negated zero = pos 0
negated (suc n) = negsuc n

-- The sign and the digits.
scan_int : Bytes → ℤ
scan_int [] = pos 0
scan_int (c ∷ s) =
    if c == 45 then negated (scan 0 s) else if c == 43 then pos (scan 0 s) else pos (scan 0 (c ∷ s))

skip_space : Bytes → Bytes
skip_space [] = []
skip_space (c ∷ s) = let rest = skip_space s in if is_space c then rest else c ∷ s

-- `atoi`: 0 for a text without a number at its front.
pub atoi : Bytes → ℤ
unfolding scan_int skip_space
atoi s = scan_int (skip_space s)

-- The number that digits spell behind `acc`.
value : ℕ → Bytes → ℕ
value acc [] = acc
value acc (c ∷ s) = value (acc * 10 + (c - 48)) s

value-append : (acc : ℕ) (s t : Bytes) → value acc (s ++ t) ≡ value (value acc s) t
unfolding value
value-append acc [] t = refl
value-append acc (c ∷ s) t = value-append (acc * 10 + (c - 48)) s t

scan-value : (acc : ℕ) (s : Bytes) → All IsDigit s → scan acc s ≡ value acc s
unfolding scan value is_digit
scan-value acc [] d = refl
scan-value acc (c ∷ s) d = ground (arith, scan-value (acc * 10 + (c - 48)) s d.1)

append-IsDigit : (s : Bytes) (c : ℕ) → All IsDigit s → IsDigit c → All IsDigit (s ++ c ∷ [])
append-IsDigit [] c d h = (h, tt)
append-IsDigit (b ∷ s) c d h = (d.0, append-IsDigit s c d.1 h)

digits-IsDigit : (fuel n : ℕ) → All IsDigit (digits fuel n)
unfolding digits
digits-IsDigit zero n = (omega arith, tt)
digits-IsDigit (suc fuel) n = elim (Bool-cases (ltb n 10)) [
  | inl e ↦ rw e (ground arith, tt)
  | inr e ↦
      rw e (append-IsDigit (digits fuel (n / 10)) _ (digits-IsDigit fuel (n / 10)) (omega arith))
]

value-digits : (fuel n : ℕ) → n ≤ fuel → value 0 (digits fuel n) ≡ n
unfolding digits value
value-digits zero n h = omega arith
value-digits (suc fuel) n h = elim (Bool-cases (ltb n 10)) [
  | inl e ↦ rw e (omega arith)
  | inr e ↦
      let big : 10 ≤ n = ground arith in
      let ih = value-digits fuel (n / 10) (omega arith) in
      rw (e, value-append 0 (digits fuel (n / 10)) ((48 + n % 10) ∷ []), ih) (omega arith)
]

-- A text of digits is read as the number that it spells.
scan_int-digits : (s : Bytes) → s ≢ [] → All IsDigit s → scan_int (skip_space s) ≡ pos (value 0 s)
unfolding scan_int skip_space is_space
scan_int-digits [] h d = absurd (h refl)
scan_int-digits (c ∷ s) h d = ground (arith, scan-value 0 (c ∷ s) d)

snoc-ne-nil : (s : Bytes) (c : ℕ) → s ++ c ∷ [] ≢ []
snoc-ne-nil [] c = λ q. cc
snoc-ne-nil (b ∷ s) c = λ q. cc

digits-ne-nil : (fuel n : ℕ) → digits fuel n ≢ []
unfolding digits
digits-ne-nil zero n = λ q. cc
digits-ne-nil (suc fuel) n = ground (arith, snoc-ne-nil (digits fuel (n / 10)) (48 + n % 10))

minus : (n : ℕ) → negated (n + 1) ≡ negsuc n
unfolding negated
minus n = ground arith

print_nat-value : (n : ℕ) → scan 0 (digits n n) ≡ n
print_nat-value n = scan-value 0 (digits n n) (digits-IsDigit n n) ∙ value-digits n n (omega arith)

-- Every number is read back from its print.
pub atoi-print_int : (z : ℤ) → atoi (print_int z) ≡ z
unfolding atoi print_int skip_space scan_int is_space
atoi-print_int (pos n) =
    scan_int-digits (digits n n) (digits-ne-nil n n) (digits-IsDigit n n)
    ∙ ap pos (value-digits n n (omega arith))
atoi-print_int (negsuc n) = negative (digits (n + 1) (n + 1)) (print_nat-value (n + 1))
  where
    negative : (s : Bytes) → scan 0 s ≡ n + 1 → atoi (45 ∷ s) ≡ negsuc n
    negative s e = rw e (minus n)

scan-stop : (acc : ℕ) (s t : Bytes) → All IsDigit s → scan acc (s ++ 45 ∷ t) ≡ value acc s
unfolding scan value is_digit
scan-stop acc [] t d = refl
scan-stop acc (c ∷ s) t d = ground (arith, scan-stop (acc * 10 + (c - 48)) s t d.1)

stop_digits :
    (s t : Bytes) → s ≢ [] → All IsDigit s → scan_int (skip_space (s ++ 45 ∷ t)) ≡ pos (value 0 s)
unfolding scan_int skip_space is_space
stop_digits [] t h d = absurd (h refl)
stop_digits (c ∷ s) t h d = ground (arith, scan-stop 0 (c ∷ s) t d)

-- The number in front of a dash is read.
pub atoi-dash : (n : ℕ) (s : Bytes) → atoi (print_int (pos n) ++ 45 ∷ s) ≡ pos n
unfolding atoi print_int
atoi-dash n s =
    stop_digits (digits n n) s (digits-ne-nil n n) (digits-IsDigit n n)
    ∙ ap pos (value-digits n n (omega arith))

-- A digit is printed as one byte.
pub print_int-digit : (n : ℕ) → n ≤ 9 → print_int (pos n) ≡ (48 + n) ∷ []
unfolding print_int digits
print_int-digit zero h = refl
print_int-digit (suc n) h = ground arith

-- Every byte lies between two codes.
abbrev pub Within : ℕ → ℕ → Bytes → Type 0
Within low high = All λ c. (low ≤ c) × (c ≤ high)

pub Within-widen : (s : Bytes) (a b c d : ℕ) → c ≤ a → b ≤ d → Within a b s → Within c d s
Within-widen [] a b c d l h w = tt
Within-widen (x ∷ s) a b c d l h w = (omega arith, Within-widen s a b c d l h w.1)

pub append-Within : (s t : Bytes) (a b : ℕ) → Within a b s → Within a b t → Within a b (s ++ t)
append-Within [] t a b v w = w
append-Within (x ∷ s) t a b v w = (v.0, append-Within s t a b v.1 w)

-- A printed number has digits and the minus sign, and is not empty.
pub print_int-Within : (z : ℤ) → Within 45 57 (print_int z)
unfolding print_int
print_int-Within (pos n) =
    Within-widen (digits n n) 48 57 45 57 (omega arith) (omega arith) (digits-IsDigit n n)
print_int-Within (negsuc n) = (
  omega arith,
  Within-widen (digits (n + 1) (n + 1)) 48 57 45 57 (omega arith) (omega arith)
      (digits-IsDigit (n + 1) (n + 1)),
)

pub print_int-ne-nil : (z : ℤ) → print_int z ≢ []
unfolding print_int
print_int-ne-nil (pos n) = digits-ne-nil n n
print_int-ne-nil (negsuc n) = λ q. cc
