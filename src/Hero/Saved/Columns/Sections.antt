-- ===== src/Hero/Saved/Columns/Sections.antt =====
-- The column `special_kill`: the sections with the kills of the special creatures, of gameserver/DreamHero.cpp
-- and databaseserver/db_quest.cpp.
use dream_heroes.Base.{All, Bytes, List, [], ap, arith, map, refl, sym, true, ◌++◌, ◌∙◌, ◌∷◌, ◌≡◌}
use dream_heroes.Base.Int.{ℤ}
use dream_heroes.Base.Map.{Map}
use dream_heroes.Hero.{ObjConfig, SubType, interactive, monster}
use dream_heroes.Hero.Saved.Columns.{
  MapSpecialKill, add_section, as_sub_type, kills_text, load_special_kills, print_kill, read_config,
  read_key, read_kill, read_pieces, read_section, save_sections, save_special_kills,
  sub_type_number,
}
use dream_heroes.Text.Fields.{
  IsField-widen, IsPiece-of_above, gather, gather-map, is_filled-append, map-IsPiece, print_pair,
  print_pair-IsField, split-print_pair,
}
use dream_heroes.Text.Number.{Within, append-Within, atoi-print_int}
use dream_heroes.Text.Split.{IsPiece, is_filled, join, split_string_a, split_string_a-join, tail}
use mathlib.Core.List.{append-nil, append_assoc}

pub section_text : ℤ × ℤ → List ObjConfig → Bytes
section_text (chapter, section) ks = print_pair chapter section ++ kills_text ks

-- The sections that hold a kill, as texts.
section_texts : Map (ℤ × ℤ) (List ObjConfig) → List Bytes
section_texts [] = []
section_texts ((key, []) ∷ m) = section_texts m
section_texts ((key, k ∷ ks) ∷ m) = section_text key (k ∷ ks) ∷ section_texts m

-- The sections that hold a kill, as the message has them.
unfoldable pub kept_sections : Map (ℤ × ℤ) (List ObjConfig) → List MapSpecialKill
kept_sections [] = []
kept_sections (((chapter, section), []) ∷ m) = kept_sections m
kept_sections (((chapter, section), k ∷ ks) ∷ m) =
    record { chapter_id = chapter; section_id = section; kills = k ∷ ks } ∷ kept_sections m

separated : (t s u : Bytes) → ((t ++ 59 ∷ []) ++ s) ++ u ≡ t ++ 59 ∷ (s ++ u)
separated t s u = append_assoc (t ++ 59 ∷ []) s u ∙ append_assoc t (59 ∷ []) (s ++ u)

section_text-filled : (key : ℤ × ℤ) (ks : List ObjConfig) → is_filled (section_text key ks) ≡ true
unfolding section_text
section_text-filled (chapter, section) ks =
    is_filled-append (print_pair chapter section) (kills_text ks)
      (print_pair-IsField chapter section).0

-- Behind a filled text every section comes with its separator.
save_sections-tail :
    (text : Bytes) (m : Map (ℤ × ℤ) (List ObjConfig))
    → is_filled text ≡ true
    → save_sections text m ≡ text ++ tail 59 (section_texts m)
unfolding save_sections section_texts section_text kills_text add_section tail
save_sections-tail text [] f = sym (append-nil text)
save_sections-tail text ((key, []) ∷ m) f = save_sections-tail text m f
save_sections-tail text (((chapter, section), k ∷ ks) ∷ m) f =
    let here = section_text (chapter, section) (k ∷ ks) in
    rw f (
      save_sections-tail ((text ++ 59 ∷ []) ++ here) m
        (is_filled-append (text ++ 59 ∷ []) here (is_filled-append text (59 ∷ []) f))
      ∙ separated text here (tail 59 (section_texts m)))

save_special_kills-join :
    (m : Map (ℤ × ℤ) (List ObjConfig)) → save_special_kills m ≡ join 59 (section_texts m)
unfolding save_special_kills save_sections section_texts section_text kills_text add_section tail
    join is_filled
save_special_kills-join [] = refl
save_special_kills-join ((key, []) ∷ m) = save_special_kills-join m
save_special_kills-join (((chapter, section), k ∷ ks) ∷ m) =
    save_sections-tail (section_text (chapter, section) (k ∷ ks)) m
      (section_text-filled (chapter, section) (k ∷ ks))

kills-Within : (ks : List ObjConfig) → Within 44 58 (kills_text ks)
unfolding kills_text tail print_kill
kills-Within [] = tt
kills-Within (k ∷ ks) = (
  omega arith,
  append-Within (print_kill k) (kills_text ks) 44 58
      (IsField-widen (print_kill k) 44 57 44 58 (omega arith) (omega arith)
        (print_pair-IsField k.id (sub_type_number k.sub_type))).1
      (kills-Within ks),
)

section_text-IsPiece : (key : ℤ × ℤ) (ks : List ObjConfig) → IsPiece 59 (section_text key ks)
unfolding section_text
section_text-IsPiece (chapter, section) ks =
    IsPiece-of_above (section_text (chapter, section) ks) 44 58 59 (omega arith) (
      section_text-filled (chapter, section) ks,
      append-Within (print_pair chapter section) (kills_text ks) 44 58
          (IsField-widen (print_pair chapter section) 44 57 44 58 (omega arith) (omega arith)
            (print_pair-IsField chapter section)).1
          (kills-Within ks),
    )

section_texts-IsPiece : (m : Map (ℤ × ℤ) (List ObjConfig)) → All (IsPiece 59) (section_texts m)
unfolding section_texts
section_texts-IsPiece [] = tt
section_texts-IsPiece ((key, []) ∷ m) = section_texts-IsPiece m
section_texts-IsPiece ((key, k ∷ ks) ∷ m) =
    (section_text-IsPiece key (k ∷ ks), section_texts-IsPiece m)

as_sub_type-sub_type_number :
    (unknown : ℤ → SubType) (t : SubType) → as_sub_type unknown (sub_type_number t) ≡ t
unfolding as_sub_type sub_type_number
as_sub_type-sub_type_number unknown SubType.default = refl
as_sub_type-sub_type_number unknown monster = refl
as_sub_type-sub_type_number unknown interactive = refl

read_kill-print_kill :
    (unknown : ℤ → SubType) (k : ObjConfig) → read_kill unknown (print_kill k) ≡ k ∷ []
unfolding read_kill print_kill read_config
read_kill-print_kill unknown k =
    simp (split-print_pair, atoi-print_int, as_sub_type-sub_type_number)

pair-colon : (a b : ℤ) → IsPiece 58 (print_pair a b)
pair-colon a b = IsPiece-of_above (print_pair a b) 44 57 58 (omega arith) (print_pair-IsField a b)

split-section_text :
    (key : ℤ × ℤ) (ks : List ObjConfig)
    → split_string_a (section_text key ks) 58 ≡ print_pair key.0 key.1 ∷ map print_kill ks
unfolding section_text kills_text join print_kill
split-section_text (chapter, section) ks =
    split_string_a-join 58 (print_pair chapter section ∷ map print_kill ks) (
      pair-colon chapter section,
      map-IsPiece 58 print_kill ks (λ k. pair-colon k.id (sub_type_number k.sub_type)),
    )

read_section-section_text :
    (unknown : ℤ → SubType) (chapter section : ℤ) (k : ObjConfig) (ks : List ObjConfig)
    → read_section unknown (section_text (chapter, section) (k ∷ ks))
      ≡ record { chapter_id = chapter; section_id = section; kills = k ∷ ks } ∷ []
unfolding read_section read_pieces read_key
read_section-section_text unknown chapter section k ks =
    let kills = gather-map (read_kill unknown) print_kill (k ∷ ks) (read_kill-print_kill unknown) in
    rw
      (
        split-section_text (chapter, section) (k ∷ ks),
        split-print_pair chapter section,
        atoi-print_int chapter,
        atoi-print_int section,
        kills,
      )
      refl

gather-section_texts :
    (unknown : ℤ → SubType) (m : Map (ℤ × ℤ) (List ObjConfig))
    → gather (read_section unknown) (section_texts m) ≡ kept_sections m
unfolding section_texts kept_sections gather
gather-section_texts unknown [] = refl
gather-section_texts unknown ((key, []) ∷ m) = gather-section_texts unknown m
gather-section_texts unknown (((chapter, section), k ∷ ks) ∷ m) =
    rw (read_section-section_text unknown chapter section k ks) (
      ap (λ t. record { chapter_id = chapter; section_id = section; kills = k ∷ ks } ∷ t)
        (gather-section_texts unknown m))

-- Every section with a kill is read as it was saved.
pub load_special_kills-save_special_kills :
    (unknown : ℤ → SubType) (m : Map (ℤ × ℤ) (List ObjConfig))
    → load_special_kills unknown (save_special_kills m) ≡ kept_sections m
unfolding load_special_kills
load_special_kills-save_special_kills unknown m =
    ap (λ t. gather (read_section unknown) (split_string_a t 59)) (save_special_kills-join m)
    ∙ ap (gather (read_section unknown))
        (split_string_a-join 59 (section_texts m) (section_texts-IsPiece m))
    ∙ gather-section_texts unknown m
