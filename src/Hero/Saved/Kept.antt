-- ===== src/Hero/Saved/Kept.antt =====
-- What a hero has after it was saved, loaded and entered again: `set_info` of gameserver/DreamHero.cpp on the
-- message of databaseserver/db_quest.cpp.
use dream_heroes.Base.{
  All, Bool-cases, List, Option, [], ap, arith, false, if◌then◌else◌, inl, inr, none, refl, some,
  sym, ◌++◌, ◌∙◌, ◌∷◌, ◌≡◌, ◌≢◌,
}
use dream_heroes.Base.Int.{ℤ}
use dream_heroes.Base.Map.{Map, assign, find, find-assign_ne, find-assign_self, pair_key, pair_key}
use dream_heroes.Hero.{ObjConfig}
use dream_heroes.Hero.Saved.Columns.{MapSpecialKill}
use dream_heroes.Hero.Saved.Columns.Sections.{kept_sections}
use dream_heroes.Hero.Saved.Login.{push_kill, push_kills, restore_special_kills}
use mathlib.Core.List.{append-nil, append_assoc}

-- The kills of a section; none is the same as an empty list.
or_nil : Option (List ObjConfig) → List ObjConfig
or_nil none = []
or_nil (some ks) = ks

pub section_kills : ℤ × ℤ → Map (ℤ × ℤ) (List ObjConfig) → List ObjConfig
unfolding or_nil
section_kills key m = or_nil (find key m)

push_kill-assign :
    (key : ℤ × ℤ) (k : ObjConfig) (m : Map (ℤ × ℤ) (List ObjConfig))
    → push_kill key k m ≡ assign key (section_kills key m ++ k ∷ []) m
unfolding push_kill section_kills or_nil
push_kill-assign key k m = by_case (find key m)
  where
    by_case :
        (o : Option (List ObjConfig))
        → (elim o [ some ks ↦ assign key (ks ++ k ∷ []) m | none ↦ assign key (k ∷ []) m ])
          ≡ assign key (or_nil o ++ k ∷ []) m
    by_case none = refl
    by_case (some ks) = refl

section_kills-push_self :
    (key : ℤ × ℤ) (k : ObjConfig) (m : Map (ℤ × ℤ) (List ObjConfig))
    → section_kills key (push_kill key k m) ≡ section_kills key m ++ k ∷ []
section_kills-push_self key k m =
    ap (section_kills key) (push_kill-assign key k m)
    ∙ unfold section_kills in ap or_nil (find-assign_self key (section_kills key m ++ k ∷ []) m)

section_kills-push_ne :
    (j key : ℤ × ℤ) (k : ObjConfig) (m : Map (ℤ × ℤ) (List ObjConfig))
    → j ≢ key
    → section_kills j (push_kill key k m) ≡ section_kills j m
section_kills-push_ne j key k m h =
    ap (section_kills j) (push_kill-assign key k m)
    ∙ unfold section_kills in ap or_nil (find-assign_ne key j (section_kills key m ++ k ∷ []) m h)

section_kills-pushes_self :
    (key : ℤ × ℤ) (ks : List ObjConfig) (m : Map (ℤ × ℤ) (List ObjConfig))
    → section_kills key (push_kills key ks m) ≡ section_kills key m ++ ks
unfolding push_kills
section_kills-pushes_self key [] m = sym (append-nil (section_kills key m))
section_kills-pushes_self key (k ∷ ks) m =
    section_kills-pushes_self key ks (push_kill key k m)
    ∙ ap (λ t. t ++ ks) (section_kills-push_self key k m)
    ∙ append_assoc (section_kills key m) (k ∷ []) ks

section_kills-pushes_ne :
    (j key : ℤ × ℤ) (ks : List ObjConfig) (m : Map (ℤ × ℤ) (List ObjConfig))
    → j ≢ key
    → section_kills j (push_kills key ks m) ≡ section_kills j m
unfolding push_kills
section_kills-pushes_ne j key [] m h = refl
section_kills-pushes_ne j key (k ∷ ks) m h =
    section_kills-pushes_ne j key ks (push_kill key k m) h ∙ section_kills-push_ne j key k m h

-- The kills that a message has of a section.
kills_in : ℤ × ℤ → List MapSpecialKill → List ObjConfig
kills_in j [] = []
kills_in j (s ∷ ss) =
    (if pair_key.beq j (s.chapter_id, s.section_id) then s.kills else []) ++ kills_in j ss

restore-kills :
    (j : ℤ × ℤ) (ss : List MapSpecialKill) (m : Map (ℤ × ℤ) (List ObjConfig))
    → section_kills j (restore_special_kills ss m) ≡ section_kills j m ++ kills_in j ss
unfolding restore_special_kills kills_in
restore-kills j [] m = sym (append-nil (section_kills j m))
restore-kills j (s ∷ ss) m =
    let key : ℤ × ℤ = (s.chapter_id, s.section_id) in
    elim (Bool-cases (pair_key.beq j key)) [
      | inl e ↦
          let same : j ≡ key = (pair_key.beq_iff j key).0 e in
          let push =
            ap (λ t. section_kills t (push_kills key s.kills m)) same
            ∙ section_kills-pushes_self key s.kills m
            ∙ ap (λ t. section_kills t m ++ s.kills) (sym same) in
          rw e (
            restore-kills j ss (push_kills key s.kills m)
            ∙ ap (λ t. t ++ kills_in j ss) push
            ∙ append_assoc (section_kills j m) s.kills (kills_in j ss))
      | inr e ↦
          let other : j ≢ key = λ q. absurd (ground (arith, e, (pair_key.beq_iff j key).1 q)) in
          rw e (
            restore-kills j ss (push_kills key s.kills m)
            ∙ ap (λ t. t ++ kills_in j ss) (section_kills-pushes_ne j key s.kills m other))
    ]

pub beq_of_ne : (j key : ℤ × ℤ) → j ≢ key → pair_key.beq j key ≡ false
beq_of_ne j key h = ground (arith, h, pair_key.beq_iff j key)

-- Every section stands once in the map.
abbrev pub Misses : ℤ × ℤ → Map (ℤ × ℤ) (List ObjConfig) → Type 0
Misses j = All λ p. pair_key.beq j p.0 ≡ false

abbrev pub HasSectionsOnce : Map (ℤ × ℤ) (List ObjConfig) → Type 0
HasSectionsOnce [] = Unit
HasSectionsOnce ((key, ks) ∷ m) = Misses key m × HasSectionsOnce m

kills_in-Misses :
    (j : ℤ × ℤ) (m : Map (ℤ × ℤ) (List ObjConfig)) → Misses j m → kills_in j (kept_sections m) ≡ []
unfolding kills_in kept_sections
kills_in-Misses j [] h = refl
kills_in-Misses j (((a, b), []) ∷ m) h = kills_in-Misses j m h.1
kills_in-Misses j (((a, b), k ∷ ks) ∷ m) h = rw (h.0) (kills_in-Misses j m h.1)

kills_in-kept_sections :
    (j : ℤ × ℤ) (m : Map (ℤ × ℤ) (List ObjConfig))
    → HasSectionsOnce m
    → kills_in j (kept_sections m) ≡ section_kills j m
unfolding kills_in kept_sections section_kills or_nil find
kills_in-kept_sections j [] h = refl
kills_in-kept_sections j (((a, b), []) ∷ m) h = elim (Bool-cases (pair_key.beq j (a, b))) [
  | inl e ↦
      let same : j ≡ (a, b) = (pair_key.beq_iff j (a, b)).0 e in
      rw e (kills_in-Misses j m (rw same h.0))
  | inr e ↦ rw e (kills_in-kept_sections j m h.1)
]
kills_in-kept_sections j (((a, b), k ∷ ks) ∷ m) h = elim (Bool-cases (pair_key.beq j (a, b))) [
  | inl e ↦
      let same : j ≡ (a, b) = (pair_key.beq_iff j (a, b)).0 e in
      rw (e, kills_in-Misses j m (rw same h.0)) (append-nil (k ∷ ks))
  | inr e ↦ rw e (kills_in-kept_sections j m h.1)
]

-- The kills that a hero has after it was loaded.
pub restored_kills :
    (j : ℤ × ℤ) (m : Map (ℤ × ℤ) (List ObjConfig))
    → HasSectionsOnce m
    → section_kills j (restore_special_kills (kept_sections m) []) ≡ section_kills j m
restored_kills j m h =
    restore-kills j (kept_sections m) []
    ∙ unfold section_kills find or_nil in kills_in-kept_sections j m h
