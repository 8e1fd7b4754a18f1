-- ===== src/Text/Split.antt =====
-- `SplitStringA` of common/utilities.cpp, for the delimiters of one byte that the program uses.
use dream_heroes.Base.{
  ==_iff, All, Bool, Bool-cases, Bytes, List, [], ap, arith, false, if◌then◌else◌, inl, inr, keep,
  length, length-append, ltb, refl, suc, sym, true, zero, ℕ, ◌++◌, ◌+◌, ◌-◌, ◌==◌, ◌∙◌, ◌∷◌, ◌≡◌,
}
use mathlib.Core.List.{append-nil, append_assoc}

-- The loop of `find`: the positions of the delimiter in the text that begins at position `at`.
positions : ℕ → Bytes → ℕ → List ℕ
positions d [] at = []
positions d (c ∷ s) at = let rest = positions d s (at + 1) in if c == d then at ∷ rest else rest

skip : ℕ → Bytes → Bytes
skip zero s = s
skip (suc n) [] = []
skip (suc n) (c ∷ s) = skip n s

front : ℕ → Bytes → Bytes
front zero s = []
front (suc n) [] = []
front (suc n) (c ∷ s) = c ∷ front n s

-- `strIn.substr(offset, count)`
substr : Bytes → ℕ → ℕ → Bytes
unfolding skip front
substr s offset count = front count (skip offset s)

-- The loop over the positions, from a piece that begins at `offset`: the piece up to each position, and the
-- last one up to the end. A piece that would begin behind the text is empty.
pieces : Bytes → ℕ → List ℕ → List Bytes
unfolding substr skip
pieces s offset [] = (if ltb offset (length s) then skip offset s else []) ∷ []
pieces s offset (p ∷ ps) =
    (if ltb offset (length s) then substr s offset (p - offset) else []) ∷ pieces s (p + 1) ps

-- `s.size() > 0`
unfoldable pub is_filled : Bytes → Bool
is_filled [] = false
is_filled (c ∷ s) = true

split_found : Bytes → List ℕ → List Bytes
split_found s [] = s ∷ []
split_found s (p ∷ ps) = keep is_filled (pieces s 0 (p ∷ ps))

-- The pieces that are not empty.
pub split_string_a : Bytes → ℕ → List Bytes
unfolding positions
split_string_a [] d = []
split_string_a (c ∷ s) d = split_found (c ∷ s) (positions d (c ∷ s) 0)

-- The text cut at every delimiter, behind a piece `cur` that is read already.
pub cut : ℕ → Bytes → Bytes → List Bytes
cut d cur [] = cur ∷ []
cut d cur (c ∷ s) =
    let here = cur ∷ cut d [] s in let on = cut d (cur ++ c ∷ []) s in if c == d then here else on

skip-append : (pre s : Bytes) → skip (length pre) (pre ++ s) ≡ s
unfolding skip
skip-append [] s = refl
skip-append (c ∷ pre) s = skip-append pre s

front-append : (pre s : Bytes) → front (length pre) (pre ++ s) ≡ pre
unfolding front
front-append [] s = refl
front-append (c ∷ pre) s = ap (λ t. c ∷ t) (front-append pre s)

empty_of_length : (s : Bytes) → length s ≡ 0 → s ≡ []
empty_of_length [] h = refl
empty_of_length (c ∷ s) h = absurd (omega (arith, h))

last_piece :
    (pre cur : Bytes)
    → (if ltb (length pre) (length (pre ++ cur)) then skip (length pre) (pre ++ cur) else []) ≡ cur
last_piece pre cur = elim (Bool-cases (ltb (length pre) (length (pre ++ cur)))) [
  | inl e ↦ rw e (skip-append pre cur)
  | inr e ↦ rw e (sym (empty_of_length cur (ground (arith, length-append pre cur))))
]

-- A piece of the text, as long as `cur`.
mid_piece :
    (pre cur s : Bytes) (c n : ℕ)
    → n ≡ length cur
    → (if ltb (length pre) (length (pre ++ (cur ++ c ∷ s)))
        then substr (pre ++ (cur ++ c ∷ s)) (length pre) n
        else [])
      ≡ cur
unfolding substr
mid_piece pre cur s c n e =
    let long : ltb (length pre) (length (pre ++ (cur ++ c ∷ s))) ≡ true =
      ground (arith, length-append pre (cur ++ c ∷ s), length-append cur (c ∷ s)) in
    rw (long, skip-append pre (cur ++ c ∷ s), e) (front-append cur (c ∷ s))

-- The pieces from `offset` on: `pre` is before it, `cur` behind it and read, `s` is left.
pieces-cut :
    (d : ℕ) (pre cur s all : Bytes) (offset at : ℕ)
    → all ≡ pre ++ (cur ++ s)
    → offset ≡ length pre
    → at ≡ length pre + length cur
    → pieces all offset (positions d s at) ≡ cut d cur s
unfolding pieces positions cut
pieces-cut d pre cur [] all offset at p q r =
    rw (p, q)
      (ap (λ t. t ∷ [])
        (ap (λ t. if ltb (length pre) (length (pre ++ t)) then skip (length pre) (pre ++ t) else [])
            (append-nil cur)
          ∙ last_piece pre cur))
pieces-cut d pre cur (c ∷ s) all offset at p q r = elim (Bool-cases (c == d)) [
  | inl e ↦
      let first : (if ltb offset (length all) then substr all offset (at - offset) else []) ≡ cur =
        rw (p, q) (mid_piece pre cur s c (at - length pre) (omega (arith, r))) in
      let rest =
        pieces-cut d (pre ++ (cur ++ c ∷ [])) [] s all (at + 1) (at + 1)
          (p
            ∙ sym (
                append_assoc pre (cur ++ c ∷ []) s
                ∙ ap (λ t. pre ++ t) (append_assoc cur (c ∷ []) s)))
          (omega (arith, r, length-append pre (cur ++ c ∷ []), length-append cur (c ∷ [])))
          (omega (arith, r, length-append pre (cur ++ c ∷ []), length-append cur (c ∷ []))) in
      rw (e, first, rest) refl
  | inr e ↦ rw e (
      pieces-cut d pre (cur ++ c ∷ []) s all offset (at + 1)
        (p ∙ ap (λ t. pre ++ t) (sym (append_assoc cur (c ∷ []) s))) q
        (omega (arith, r, length-append cur (c ∷ []))))
]

-- `SplitStringA` gives the filled pieces of the text cut at every delimiter, in order.
pub split_string_a-cut : (s : Bytes) (d : ℕ) → split_string_a s d ≡ keep is_filled (cut d [] s)
unfolding split_string_a
split_string_a-cut [] d = unfold cut is_filled in refl
split_string_a-cut (c ∷ s) d =
    by_case (positions d (c ∷ s) 0)
    ∙ ap (keep is_filled) (pieces-cut d [] [] (c ∷ s) (c ∷ s) 0 0 refl refl refl)
  where
    by_case : (ps : List ℕ) → split_found (c ∷ s) ps ≡ keep is_filled (pieces (c ∷ s) 0 ps)
    by_case [] = unfold split_found pieces is_filled skip in ground arith
    by_case (p ∷ ps) = unfold split_found in refl

-- Every piece behind a separator, and pieces with separators between them.
unfoldable pub tail : ℕ → List Bytes → Bytes
tail d [] = []
tail d (p ∷ ps) = d ∷ p ++ tail d ps

-- The loops of `SaveHero`, which put the separator before each piece but the first.
unfoldable pub join : ℕ → List Bytes → Bytes
unfolding tail
join d [] = []
join d (p ∷ ps) = p ++ tail d ps

-- The byte does not occur.
abbrev pub Lacks : ℕ → Bytes → Type 0
Lacks d = All λ c. (c == d) ≡ false

-- What a piece needs in order to be read back.
abbrev pub IsPiece : ℕ → Bytes → Type 0
IsPiece d p = (is_filled p ≡ true) × Lacks d p

cut-append : (d : ℕ) (cur p s : Bytes) → Lacks d p → cut d cur (p ++ s) ≡ cut d (cur ++ p) s
unfolding cut
cut-append d cur [] s l = ap (λ t. cut d t s) (sym (append-nil cur))
cut-append d cur (c ∷ p) s l =
    rw (l.0)
      (cut-append d (cur ++ c ∷ []) p s l.1 ∙ ap (λ t. cut d t s) (append_assoc cur (c ∷ []) p))

cut-tail :
    (d : ℕ) (cur : Bytes) (ps : List Bytes) → All (IsPiece d) ps → cut d cur (tail d ps) ≡ cur ∷ ps
unfolding tail cut
cut-tail d cur [] l = refl
cut-tail d cur (p ∷ ps) l =
    let same : (d == d) ≡ true = ground (arith, ==_iff d d) in
    rw same (ap (λ t. cur ∷ t) (cut-append d [] p (tail d ps) l.0.1 ∙ cut-tail d p ps l.1))

keep-filled : (d : ℕ) (ps : List Bytes) → All (IsPiece d) ps → keep is_filled ps ≡ ps
keep-filled d [] l = refl
keep-filled d (p ∷ ps) l = rw (l.0.0) (ap (λ t. p ∷ t) (keep-filled d ps l.1))

-- Pieces that are filled and lack the separator are read back from their join.
pub split_string_a-join :
    (d : ℕ) (ps : List Bytes) → All (IsPiece d) ps → split_string_a (join d ps) d ≡ ps
unfolding join
split_string_a-join d [] l = unfold split_string_a in refl
split_string_a-join d (p ∷ ps) l =
    split_string_a-cut (p ++ tail d ps) d
    ∙ ap (keep is_filled) (cut-append d [] p (tail d ps) l.0.1 ∙ cut-tail d p ps l.1)
    ∙ keep-filled d (p ∷ ps) l
