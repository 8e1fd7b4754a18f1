-- ===== src/Manager/Status/RoundTrip.antt =====
-- `save` of gameserver/DreamHeroManager.cpp against `Load`.
use dream_heroes.Base.{
  All, Bytes, List, [], ap, arith, length, map, refl, some, sym, ℕ, ◌%◌, ◌++◌, ◌<◌, ◌∙◌, ◌∷◌, ◌≡◌,
}
use dream_heroes.Base.Int.{pos}
use dream_heroes.Hero.Saved.Row.{Outside, build_unix_time_to_string}
use dream_heroes.Manager.Names.{DreamHeroManager}
use dream_heroes.Manager.Status.{
  load_day_number, load_status, overwrite, overwrite_rows, print_number, print_row, read_number,
  save_day_number, save_status, to_u8,
}
use dream_heroes.Rank.{RankManager}
use dream_heroes.Text.Fields.{
  IsPiece-of_above, IsPiece-of_below, gather, is_filled-append, join_loop-join, map-IsPiece,
  print_int-IsField,
}
use dream_heroes.Text.Number.{
  Within, Within-widen, append-Within, atoi-print_int, print_int, print_int-Within,
}
use dream_heroes.Text.Split.{IsPiece, join, split_string_a, split_string_a-join, tail}

-- An array `u8 [6][10]`.
abbrev pub IsByteRow : List ℕ → Type 0
IsByteRow row = (length row ≡ 10) × All (λ n. n < 256) row

abbrev pub IsByteTable : List (List ℕ) → Type 0
IsByteTable table = (length table ≡ 6) × All IsByteRow table

number-comma : (n : ℕ) → IsPiece 44 (print_number n)
unfolding print_number
number-comma n =
    IsPiece-of_below (print_int (pos n)) 45 57 44 (omega arith) (print_int-IsField (pos n))

print_row-join : (row : List ℕ) → print_row row ≡ join 44 (map print_number row)
unfolding print_row
print_row-join row =
    join_loop-join 44 (map print_number row) (map-IsPiece 44 print_number row number-comma)

tail-Within : (row : List ℕ) → Within 44 57 (tail 44 (map print_number row))
unfolding tail print_number
tail-Within [] = tt
tail-Within (n ∷ row) = (
  omega arith,
  append-Within (print_int (pos n)) (tail 44 (map print_number row)) 44 57
      (Within-widen (print_int (pos n)) 45 57 44 57 (omega arith) (omega arith)
        (print_int-Within (pos n)))
      (tail-Within row),
)

row-IsPiece : (row : List ℕ) → length row ≡ 10 → IsPiece 59 (print_row row)
unfolding join tail print_number
row-IsPiece [] l = absurd (omega (arith, l))
row-IsPiece (n ∷ row) l =
    let f = print_int-IsField (pos n) in
    rw (print_row-join (n ∷ row)) (
      IsPiece-of_above (print_int (pos n) ++ tail 44 (map print_number row)) 44 57 59 (omega arith)
        (
          is_filled-append (print_int (pos n)) (tail 44 (map print_number row)) f.0,
          append-Within (print_int (pos n)) (tail 44 (map print_number row)) 44 57
              (Within-widen (print_int (pos n)) 45 57 44 57 (omega arith) (omega arith) f.1)
              (tail-Within row),
        ))

rows-IsPiece :
    (table : List (List ℕ)) → All IsByteRow table → All (IsPiece 59) (map print_row table)
rows-IsPiece [] h = tt
rows-IsPiece (row ∷ table) h = (row-IsPiece row h.0.0, rows-IsPiece table h.1)

gather-numbers :
    (row : List ℕ) → All (λ n. n < 256) row → gather read_number (map print_number row) ≡ row
unfolding gather read_number print_number to_u8
gather-numbers [] h = refl
gather-numbers (n ∷ row) h =
    let byte : n % 256 ≡ n = omega (arith, h.0) in
    rw (atoi-print_int (pos n), byte) (ap (λ t. n ∷ t) (gather-numbers row h.1))

overwrite-all {ℓ} : {A : Type ℓ} (xs ys : List A) → length xs ≡ length ys → overwrite xs ys ≡ xs
unfolding overwrite
overwrite-all [] [] l = refl
overwrite-all [] (y ∷ ys) l = absurd (omega (arith, l))
overwrite-all (x ∷ xs) [] l = absurd (omega (arith, l))
overwrite-all (x ∷ xs) (y ∷ ys) l = ap (λ t. x ∷ t) (overwrite-all xs ys (omega (arith, l)))

overwrite_rows-print :
    (table old : List (List ℕ))
    → All IsByteRow table
    → All IsByteRow old
    → length table ≡ length old
    → overwrite_rows (map print_row table) old ≡ table
unfolding overwrite_rows
overwrite_rows-print [] [] h g l = refl
overwrite_rows-print [] (y ∷ old) h g l = absurd (omega (arith, l))
overwrite_rows-print (x ∷ table) [] h g l = absurd (omega (arith, l))
overwrite_rows-print (x ∷ table) (y ∷ old) h g l =
    let read : gather read_number (split_string_a (print_row x) 44) ≡ x =
      ap (λ t. gather read_number (split_string_a t 44)) (print_row-join x)
      ∙ ap (gather read_number)
          (split_string_a-join 44 (map print_number x) (map-IsPiece 44 print_number x number-comma))
      ∙ gather-numbers x h.0.1 in
    rw (read, overwrite-all x y (h.0.0 ∙ sym g.0.0))
      (ap (λ t. x ∷ t) (overwrite_rows-print table old h.1 g.1 (omega (arith, l))))

-- A table of the day is read as it was saved.
pub load_day_number-save_day_number :
    (table old : List (List ℕ))
    → IsByteTable table
    → IsByteTable old
    → load_day_number (save_day_number table) old ≡ table
unfolding load_day_number save_day_number
load_day_number-save_day_number table old (l, h) (k, g) =
    ap (λ t. overwrite_rows (split_string_a t 59) old)
      (join_loop-join 59 (map print_row table) (rows-IsPiece table h))
    ∙ ap (λ t. overwrite_rows t old)
        (split_string_a-join 59 (map print_row table) (rows-IsPiece table h))
    ∙ overwrite_rows-print table old h g (l ∙ sym k)

-- A manager that loads what another saved goes on where that one was: it has its table of six rows of ten
-- bytes, its counts of heroes and orders, and the begin of the daily game, with the names of the database
-- behind its own, if the database gives that time back as it was given it; and its time of the last save is what
-- the database gives back for the time of that save.
pub load_saved_status :
    (o : Outside) (server_time : ℕ) (ranks ranks' : RankManager) (m m' : DreamHeroManager)
    (names : List Bytes)
    → IsByteTable m.day_number
    → IsByteTable m'.day_number
    → o.unix_timestamp (build_unix_time_to_string o ranks.daily_game_begin_time)
      ≡ ranks.daily_game_begin_time
    → load_status o (some (save_status o server_time ranks m).0) names (ranks', m') ≡ (
      record ranks' { daily_game_begin_time = ranks.daily_game_begin_time },
      record m' {
        day_create_heroes_count = m.day_create_heroes_count;
        day_number = m.day_number;
        deal_order_id = m.deal_order_id;
        names = m'.names ++ names;
        last_save_time =
            o.unix_timestamp
              (build_unix_time_to_string o (save_status o server_time ranks m).1.last_save_time);
      },
    )
unfolding load_status save_status
load_saved_status o server_time ranks ranks' m m' names h h' t =
    rw (load_day_number-save_day_number m.day_number m'.day_number h h', t) refl
