-- ===== src/Rank/Save.antt =====
-- `RankManager::save` of gameserver/RankManager.cpp: the statements that it sends to the database.
use dream_heroes.Base.{
  ==_iff, Bool, Bool-cases, List, [], ap, arith, false, has, if◌then◌else◌, inl, inr, leb, length,
  refl, true, ℕ, ◌++◌, ◌+◌, ◌<◌, ◌==◌, ◌∙◌, ◌∷◌, ◌≡◌, ◌≤◌,
}
use dream_heroes.Rank.{DailyGameRank, RankManager}
use mathlib.Core.List.{append-nil}

-- The pieces of a statement: the delete, the head of an insertion, a comma, and the values of one entry.
pub data SqlPart : Type 0 where
  sql_delete : SqlPart
  sql_head : SqlPart
  sql_comma : SqlPart
  sql_row : DailyGameRank → SqlPart

-- The loop over the list, with the counter and the statement that is being built. A statement is sent at a
-- counter of 20; the counter is then set to 0, and incremented by the loop.
pub save_loop : ℕ → List SqlPart → List DailyGameRank → List (List SqlPart)
save_loop number sql_rank [] = if has (λ p. true) sql_rank then sql_rank ∷ [] else []
save_loop number sql_rank (entry ∷ entries) =
    let begun = if number == 0 then sql_head ∷ [] else sql_rank ++ sql_comma ∷ [] in
    let row = begun ++ sql_row entry ∷ [] in
    let sent = row ∷ save_loop 1 [] entries in
    let kept = save_loop (number + 1) row entries in if leb 20 number then sent else kept

pub save : RankManager → List (List SqlPart)
save m = (sql_delete ∷ []) ∷ save_loop 0 [] m.heroes_daily_rank

-- The entries in a statement.
abbrev pub rows : List SqlPart → List DailyGameRank
rows [] = []
rows (sql_delete ∷ ps) = rows ps
rows (sql_head ∷ ps) = rows ps
rows (sql_comma ∷ ps) = rows ps
rows (sql_row entry ∷ ps) = entry ∷ rows ps

-- The entries in all statements, in order.
abbrev pub all_rows : List (List SqlPart) → List DailyGameRank
all_rows [] = []
all_rows (s ∷ ss) = rows s ++ all_rows ss

rows-append : (ps qs : List SqlPart) → rows (ps ++ qs) ≡ rows ps ++ rows qs
rows-append [] qs = refl
rows-append (sql_delete ∷ ps) qs = rows-append ps qs
rows-append (sql_head ∷ ps) qs = rows-append ps qs
rows-append (sql_comma ∷ ps) qs = rows-append ps qs
rows-append (sql_row entry ∷ ps) qs = ap (λ l. entry ∷ l) (rows-append ps qs)

-- The statement with one more entry.
with_row : ℕ → List SqlPart → DailyGameRank → List SqlPart
with_row number b x = (if number == 0 then sql_head ∷ [] else b ++ sql_comma ∷ []) ++ sql_row x ∷ []

rows-with_row :
    (number : ℕ) (b : List SqlPart) (x : DailyGameRank)
    → (number ≡ 0 → rows b ≡ [])
    → rows (with_row number b x) ≡ rows b ++ x ∷ []
unfolding with_row
rows-with_row number b x z = elim (Bool-cases (number == 0)) [
  | inl e ↦ rw (e, z ((==_iff number 0).0 e)) refl
  | inr e ↦ rw e (
      rows-append (b ++ sql_comma ∷ []) (sql_row x ∷ [])
      ∙ ap (λ l. l ++ x ∷ []) (rows-append b (sql_comma ∷ []) ∙ append-nil (rows b)))
]

append_step :
    (l : List DailyGameRank) (x : DailyGameRank) (xs : List DailyGameRank)
    → (l ++ x ∷ []) ++ xs ≡ l ++ x ∷ xs
append_step [] x xs = refl
append_step (y ∷ l) x xs = ap (λ k. y ∷ k) (append_step l x xs)

all_rows-save_loop :
    (number : ℕ) (b : List SqlPart) (xs : List DailyGameRank)
    → (number ≡ 0 → rows b ≡ [])
    → all_rows (save_loop number b xs) ≡ rows b ++ xs
unfolding save_loop with_row
all_rows-save_loop number [] [] z = refl
all_rows-save_loop number (p ∷ b) [] z = refl
all_rows-save_loop number b (x ∷ xs) z = elim (Bool-cases (leb 20 number)) [
  | inl e ↦ rw e (
      ap (λ l. rows (with_row number b x) ++ l) (all_rows-save_loop 1 [] xs (λ q. refl))
      ∙ ap (λ l. l ++ xs) (rows-with_row number b x z)
      ∙ append_step (rows b) x xs)
  | inr e ↦ rw e (
      all_rows-save_loop (number + 1) (with_row number b x) xs (λ q. absurd (omega (arith, q)))
      ∙ ap (λ l. l ++ xs) (rows-with_row number b x z)
      ∙ append_step (rows b) x xs)
]

-- Saving the ranking sends every entry of the list exactly once, in the order of the list, however many
-- statements it takes.
pub all_rows-save : (m : RankManager) → all_rows (save m) ≡ m.heroes_daily_rank
unfolding save
all_rows-save m = all_rows-save_loop 0 [] m.heroes_daily_rank (λ q. refl)

-- A statement without its head.
abbrev pub starts_with_comma : List SqlPart → Bool
starts_with_comma [] = false
starts_with_comma (sql_delete ∷ ps) = false
starts_with_comma (sql_head ∷ ps) = false
starts_with_comma (sql_comma ∷ ps) = true
starts_with_comma (sql_row entry ∷ ps) = false

starts_with_comma-append :
    (ps qs : List SqlPart) → starts_with_comma ps ≡ true → starts_with_comma (ps ++ qs) ≡ true
starts_with_comma-append [] qs h = absurd (ground arith)
starts_with_comma-append (sql_delete ∷ ps) qs h = h
starts_with_comma-append (sql_head ∷ ps) qs h = h
starts_with_comma-append (sql_comma ∷ ps) qs h = h
starts_with_comma-append (sql_row entry ∷ ps) qs h = h

-- A statement that began with a comma is sent with it.
comma_stays :
    (number : ℕ) (b : List SqlPart) (xs : List DailyGameRank)
    → 0 < number
    → starts_with_comma b ≡ true
    → has starts_with_comma (save_loop number b xs) ≡ true
unfolding save_loop
comma_stays number [] [] p h = absurd (ground arith)
comma_stays number (q ∷ b) [] p h = ground arith
comma_stays number b (x ∷ xs) p h =
    let row = b ++ sql_comma ∷ [] ++ sql_row x ∷ [] in
    let later : (number == 0) ≡ false = ground (arith, ==_iff number 0) in
    let comma =
      starts_with_comma-append (b ++ sql_comma ∷ []) (sql_row x ∷ [])
        (starts_with_comma-append b (sql_comma ∷ []) h) in
    elim (Bool-cases (leb 20 number)) [
      | inl e ↦ rw (later, e, comma) refl
      | inr e ↦
          rw (later, e)
            (comma_stays (number + 1) ((b ++ sql_comma ∷ []) ++ sql_row x ∷ []) xs (omega arith)
              comma)
    ]

comma_after :
    (number : ℕ) (b : List SqlPart) (xs : List DailyGameRank)
    → number ≤ 20
    → 22 ≤ length xs + number
    → has starts_with_comma (save_loop number b xs) ≡ true
unfolding save_loop
comma_after number b [] p q = absurd (omega (arith, p, q))
comma_after number b (x ∷ []) p q = absurd (omega (arith, p, q))
comma_after number b (x ∷ y ∷ xs) p q = elim (Bool-cases (leb 20 number)) [
  | inl e ↦
      let rest = comma_stays 2 (sql_comma ∷ sql_row y ∷ []) xs (omega arith) refl in
      rw (e, rest) (ground arith)
  | inr e ↦ rw e (comma_after (number + 1) _ (y ∷ xs) (ground arith) (omega (arith, q)))
]

-- Saving a ranking of more than 21 entries sends a statement that begins with a comma, in place of the head
-- of an insertion.
pub save-starts_with_comma :
    (m : RankManager) → 21 < length m.heroes_daily_rank → has starts_with_comma (save m) ≡ true
unfolding save
save-starts_with_comma m p = comma_after 0 [] m.heroes_daily_rank (omega arith) (omega (arith, p))
