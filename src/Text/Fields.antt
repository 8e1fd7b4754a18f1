-- ===== src/Text/Fields.antt =====
-- The nested lists of the character row: loops of `sprintf` with a separator in gameserver/DreamHero.cpp, and
-- loops over `SplitStringA` in databaseserver/db_quest.cpp.
use dream_heroes.Base.{
  All, Bytes, List, [], ap, arith, if◌then◌else◌, map, refl, sym, true, ℕ, ◌++◌, ◌<◌, ◌∙◌, ◌∷◌, ◌≡◌,
  ◌≢◌, ◌≤◌,
}
use dream_heroes.Base.Int.{ℤ}
use dream_heroes.Text.Number.{
  Within, Within-widen, append-Within, print_int, print_int-Within, print_int-ne-nil,
}
use dream_heroes.Text.Split.{
  IsPiece, Lacks, is_filled, join, split_string_a, split_string_a-join, tail,
}
use mathlib.Core.List.{append-nil, append_assoc}

module _ {A : Type 0} where
  -- `for (i = 0; i < outVC.size(); i ++)`, where each piece adds the elements that it holds.
  unfoldable pub gather : (Bytes → List A) → List Bytes → List A
  gather read [] = []
  gather read (p ∷ ps) = read p ++ gather read ps

  pub gather-map :
      (read : Bytes → List A) (print : A → Bytes) (xs : List A)
      → ((x : A) → read (print x) ≡ x ∷ [])
      → gather read (map print xs) ≡ xs
  unfolding gather
  gather-map read print [] h = refl
  gather-map read print (x ∷ xs) h = rw (h x) (ap (λ t. x ∷ t) (gather-map read print xs h))

  pub map-IsPiece :
      (d : ℕ) (print : A → Bytes) (xs : List A)
      → ((x : A) → IsPiece d (print x))
      → All (IsPiece d) (map print xs)
  map-IsPiece d print [] h = tt
  map-IsPiece d print (x ∷ xs) h = (h x, map-IsPiece d print xs h)

  -- What one loop writes with a separator, the other reads back.
  pub gather-join :
      (d : ℕ) (read : Bytes → List A) (print : A → Bytes) (xs : List A)
      → ((x : A) → IsPiece d (print x))
      → ((x : A) → read (print x) ≡ x ∷ [])
      → gather read (split_string_a (join d (map print xs)) d) ≡ xs
  gather-join d read print xs p h =
      ap (gather read) (split_string_a-join d (map print xs) (map-IsPiece d print xs p))
      ∙ gather-map read print xs h

Lacks-of_above : (s : Bytes) (a b d : ℕ) → b < d → Within a b s → Lacks d s
Lacks-of_above [] a b d h w = tt
Lacks-of_above (x ∷ s) a b d h w = (ground arith, Lacks-of_above s a b d h w.1)

Lacks-of_below : (s : Bytes) (a b d : ℕ) → d < a → Within a b s → Lacks d s
Lacks-of_below [] a b d h w = tt
Lacks-of_below (x ∷ s) a b d h w = (ground arith, Lacks-of_below s a b d h w.1)

pub is_filled-append : (s t : Bytes) → is_filled s ≡ true → is_filled (s ++ t) ≡ true
unfolding is_filled
is_filled-append [] t h = absurd (ground arith)
is_filled-append (x ∷ s) t h = refl

filled : (s : Bytes) → s ≢ [] → is_filled s ≡ true
unfolding is_filled
filled [] h = absurd (h refl)
filled (x ∷ s) h = refl

-- Filled, and with codes in a range.
abbrev pub IsField : ℕ → ℕ → Bytes → Type 0
IsField a b s = (is_filled s ≡ true) × Within a b s

pub print_int-IsField : (z : ℤ) → IsField 45 57 (print_int z)
print_int-IsField z = (filled (print_int z) (print_int-ne-nil z), print_int-Within z)

pub IsPiece-of_above : (s : Bytes) (a b d : ℕ) → b < d → IsField a b s → IsPiece d s
IsPiece-of_above s a b d h f = (f.0, Lacks-of_above s a b d h f.1)

pub IsPiece-of_below : (s : Bytes) (a b d : ℕ) → d < a → IsField a b s → IsPiece d s
IsPiece-of_below s a b d h f = (f.0, Lacks-of_below s a b d h f.1)

-- `"%d,%d"` and `"%d,%d,%d"`
unfoldable pub print_pair : ℤ → ℤ → Bytes
print_pair a b = print_int a ++ 44 ∷ print_int b

unfoldable pub print_triple : ℤ → ℤ → ℤ → Bytes
print_triple a b c = print_int a ++ 44 ∷ (print_int b ++ 44 ∷ print_int c)

pub split-print_pair :
    (a b : ℤ) → split_string_a (print_pair a b) 44 ≡ print_int a ∷ print_int b ∷ []
unfolding print_pair join tail
split-print_pair a b =
    ap (λ t. split_string_a (print_int a ++ 44 ∷ t) 44) (sym (append-nil (print_int b)))
    ∙ split_string_a-join 44 (print_int a ∷ print_int b ∷ []) (
      IsPiece-of_below (print_int a) 45 57 44 (omega arith) (print_int-IsField a),
      (IsPiece-of_below (print_int b) 45 57 44 (omega arith) (print_int-IsField b), tt),
    )

pub split-print_triple :
    (a b c : ℤ)
    → split_string_a (print_triple a b c) 44 ≡ print_int a ∷ print_int b ∷ print_int c ∷ []
unfolding print_triple join tail
split-print_triple a b c =
    ap (λ t. split_string_a (print_int a ++ 44 ∷ (print_int b ++ 44 ∷ t)) 44)
      (sym (append-nil (print_int c)))
    ∙ split_string_a-join 44 (print_int a ∷ print_int b ∷ print_int c ∷ []) (
      IsPiece-of_below (print_int a) 45 57 44 (omega arith) (print_int-IsField a),
      (
        IsPiece-of_below (print_int b) 45 57 44 (omega arith) (print_int-IsField b),
        (IsPiece-of_below (print_int c) 45 57 44 (omega arith) (print_int-IsField c), tt),
      ),
    )

comma-IsField : (s t : Bytes) → IsField 44 57 s → IsField 44 57 t → IsField 44 57 (s ++ 44 ∷ t)
comma-IsField s t f g =
    (is_filled-append s (44 ∷ t) f.0, append-Within s (44 ∷ t) 44 57 f.1 (omega arith, g.1))

pub IsField-widen : (s : Bytes) (a b c d : ℕ) → c ≤ a → b ≤ d → IsField a b s → IsField c d s
IsField-widen s a b c d l h f = (f.0, Within-widen s a b c d l h f.1)

number-IsField : (z : ℤ) → IsField 44 57 (print_int z)
number-IsField z =
    IsField-widen (print_int z) 45 57 44 57 (omega arith) (omega arith) (print_int-IsField z)

pub print_pair-IsField : (a b : ℤ) → IsField 44 57 (print_pair a b)
unfolding print_pair
print_pair-IsField a b =
    comma-IsField (print_int a) (print_int b) (number-IsField a) (number-IsField b)

pub print_triple-IsField : (a b c : ℤ) → IsField 44 57 (print_triple a b c)
unfolding print_triple
print_triple-IsField a b c =
    comma-IsField (print_int a) (print_int b ++ 44 ∷ print_int c) (number-IsField a)
      (comma-IsField (print_int b) (print_int c) (number-IsField b) (number-IsField c))

-- The loops that put the separator before a piece if the text is not empty.
pub join_loop : ℕ → Bytes → List Bytes → Bytes
join_loop d text [] = text
join_loop d text (p ∷ ps) = join_loop d ((if is_filled text then text ++ d ∷ [] else text) ++ p) ps

join_loop-tail :
    (d : ℕ) (text : Bytes) (ps : List Bytes)
    → is_filled text ≡ true
    → join_loop d text ps ≡ text ++ tail d ps
unfolding join_loop tail
join_loop-tail d text [] f = sym (append-nil text)
join_loop-tail d text (p ∷ ps) f = rw f (
    join_loop-tail d ((text ++ d ∷ []) ++ p) ps
      (is_filled-append (text ++ d ∷ []) p (is_filled-append text (d ∷ []) f))
    ∙ append_assoc (text ++ d ∷ []) p (tail d ps)
    ∙ append_assoc text (d ∷ []) (p ++ tail d ps))

-- Of filled pieces these loops make the same text.
pub join_loop-join : (d : ℕ) (ps : List Bytes) → All (IsPiece d) ps → join_loop d [] ps ≡ join d ps
unfolding join_loop join is_filled
join_loop-join d [] h = refl
join_loop-join d (p ∷ ps) h = join_loop-tail d p ps h.0.0
