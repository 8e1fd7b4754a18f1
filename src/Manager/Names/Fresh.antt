-- ===== src/Manager/Names/Fresh.antt =====
-- `generateName` of gameserver/DreamHeroManager.cpp against the names that are taken.
use dream_heroes.Base.{
  All, Bool-cases, Bytes, List, [], ap, arith, bytes_eq, false, has, inl, inr, refl, subst, suc,
  sym, true, zero, ℕ, ◌++◌, ◌+◌, ◌<◌, ◌∙◌, ◌∷◌, ◌≡◌, ◌≤◌, ◌⊎◌,
}
use dream_heroes.Manager.Names.{
  DreamHeroManager, check_names, count_up, generate_name, generate_name_from, generate_str,
}
use dream_heroes.Sessions.Live.Kept.{left}
use mathlib.Core.List.{append-nil, append_assoc}

-- No taken name is this one.
abbrev pub IsFree : List Bytes → Bytes → Type 0
IsFree names name = All (λ n. bytes_eq name n ≡ false) names

-- What a name is: free, or marked with the letter that says that the attempts ran out, for a count that is no less
-- than `low`, and no more than the day's count then.
abbrev pub IsGiven : ℕ → DreamHeroManager → ℕ → ℕ → Bytes → Type 0
IsGiven server_id m low count name =
    IsFree m.names name
    ⊎ ((key : ℕ) × (low ≤ key) × (key ≤ count) × (name ≡ generate_str server_id m key (113 ∷ [])))

abbrev with_count : DreamHeroManager → ℕ → DreamHeroManager
with_count m c = record m { day_create_heroes_count = c }

-- A name is given, and the attempts are counted from `c` on.
abbrev Outcome : ℕ → DreamHeroManager → ℕ → ℕ → DreamHeroManager × Bytes → Type 0
Outcome server_id m low c (m', name) =
    (c' : ℕ) × (m' ≡ with_count m c') × (c ≤ c') × IsGiven server_id m low c' name

IsGiven-later :
    (server_id : ℕ) (m : DreamHeroManager) (low c c' : ℕ) (name : Bytes)
    → c ≤ c'
    → IsGiven server_id m low c name
    → IsGiven server_id m low c' name
IsGiven-later server_id m low c c' name le (inl f) = inl f
IsGiven-later server_id m low c c' name le (inr (key, above, below, marked)) =
    inr (key, above, omega (arith, le, below), marked)

IsFree-snoc :
    (pre : List Bytes) (n name : Bytes)
    → IsFree pre name
    → bytes_eq name n ≡ false
    → IsFree (pre ++ n ∷ []) name
IsFree-snoc [] n name f e = (e, tt)
IsFree-snoc (p ∷ pre) n name f e = (f.0, IsFree-snoc pre n name f.1 e)

module _ (server_id : ℕ) (m : DreamHeroManager) (low first : ℕ)
    (again : DreamHeroManager → DreamHeroManager × Bytes)
    (outcome : (c : ℕ) → first ≤ c → Outcome server_id m low c (again (with_count m c))) where
  -- The loop from the names behind `pre` on, with a name that is not in `pre` or that is given already.
  check_names-Outcome :
      (pre ns : List Bytes) (c : ℕ) (name : Bytes)
      → first ≤ c
      → m.names ≡ pre ++ ns
      → (IsFree pre name ⊎ IsGiven server_id m low c name)
      → Outcome server_id m low c (check_names again ns (with_count m c) name)
  unfolding check_names
  check_names-Outcome pre [] c name begun e (inl f) =
      (c, refl, omega arith, inl (rw (e, append-nil pre) f))
  check_names-Outcome pre [] c name begun e (inr g) = (c, refl, omega arith, g)
  check_names-Outcome pre (n ∷ ns) c name begun e ok =
      let longer : m.names ≡ (pre ++ n ∷ []) ++ ns = e ∙ sym (append_assoc pre (n ∷ []) ns) in
      elim (Bool-cases (bytes_eq name n)) [
        | inl q ↦
            let (c', same, le, given) = outcome c begun in
            let (c'', same', le', given') =
              check_names-Outcome (pre ++ n ∷ []) ns c' (again (with_count m c)).1
                (omega (arith, begun, le)) longer (inr given) in
            rw (q, same) (c'', same', omega (arith, le, le'), given')
        | inr q ↦ rw q (
            check_names-Outcome (pre ++ n ∷ []) ns c name begun longer
              (elim ok [ inl f ↦ inl (IsFree-snoc pre n name f q) | inr g ↦ inr g ]))
      ]

generate_name_from-Outcome :
    (server_id : ℕ) (m : DreamHeroManager) (left low c : ℕ)
    → low ≤ c + 1 + left
    → Outcome server_id m low (c + 1) (generate_name_from server_id left (with_count m c))
unfolding generate_name_from count_up
generate_name_from-Outcome server_id m zero low c enough = (
  c + 1,
  refl,
  omega arith,
  inr (c + 1, omega (arith, enough), omega arith, unfold generate_str in refl),
)
generate_name_from-Outcome server_id m (suc left) low c enough =
    check_names-Outcome server_id m low (c + 1) (generate_name_from server_id left)
      (λ c1 begun.
        let (c', same, le, given) =
          generate_name_from-Outcome server_id m left low c1 (omega (arith, enough, begun)) in
        (c', same, omega (arith, le), given))
      [] m.names (c + 1) (generate_str server_id (with_count m (c + 1)) (c + 1) []) (omega arith)
      refl (inl tt)

-- A free name passes the loop.
check_names-free :
    (again : DreamHeroManager → DreamHeroManager × Bytes) (ns : List Bytes) (m : DreamHeroManager)
    (name : Bytes)
    → IsFree ns name
    → check_names again ns m name ≡ (m, name)
unfolding check_names
check_names-free again [] m name f = refl
check_names-free again (n ∷ ns) m name f = rw f.0 (check_names-free again ns m name f.1)

has-IsFree :
    (names : List Bytes) (name : Bytes) → has (bytes_eq name) names ≡ false → IsFree names name
has-IsFree [] name h = tt
has-IsFree (n ∷ names) name h = ground (arith, has-IsFree names name)

-- The name of the next count is given if it is free, and otherwise what the further attempts give.
abbrev pub NameOutcome : ℕ → DreamHeroManager → ℕ → Bytes → Bytes → Type 0
NameOutcome server_id m count first name =
    (IsFree m.names name × (name ≡ first) × (count ≡ m.day_create_heroes_count + 1))
    ⊎ ((has (bytes_eq first) m.names ≡ true)
        × IsGiven server_id m (m.day_create_heroes_count + 102) count name)

generate_name-free :
    (server_id : ℕ) (m : DreamHeroManager)
    → IsFree m.names (generate_str server_id m (m.day_create_heroes_count + 1) [])
    → generate_name server_id m ≡ (
      with_count m (m.day_create_heroes_count + 1),
      generate_str server_id m (m.day_create_heroes_count + 1) [],
    )
unfolding generate_name generate_name_from count_up generate_str
generate_name-free server_id m free =
    check_names-free (generate_name_from server_id 100) m.names
      (with_count m (m.day_create_heroes_count + 1)) _ free

-- A name is generated in any state, and nothing but the count of the day changes, which grows. Where the name of the
-- next count is not taken, it is given, and the count grows by one. Where it is taken, the name that is given is not
-- among the taken ones, unless the 101 attempts ran out: then it is the marked name of a count at least 102 above
-- the one before, and no more than the new one.
pub generate_name_outcome :
    (server_id : ℕ) (m : DreamHeroManager)
    → let (m', name) = generate_name server_id m in
      (m' ≡ record m { day_create_heroes_count = m'.day_create_heroes_count })
      × (m.day_create_heroes_count < m'.day_create_heroes_count)
      × NameOutcome server_id m m'.day_create_heroes_count
          (generate_str server_id m (m.day_create_heroes_count + 1) [])
          name
unfolding generate_name
generate_name_outcome server_id m =
    let (c', same, le, given) =
      generate_name_from-Outcome server_id m 101 (m.day_create_heroes_count + 102)
        m.day_create_heroes_count (omega arith) in
    let first = generate_str server_id m (m.day_create_heroes_count + 1) [] in
    (
      rw same refl,
      rw same (omega (arith, le)),
      elim (Bool-cases (has (bytes_eq first) m.names)) [
        | inl taken ↦ inr (taken, rw same given)
        | inr free ↦
            let f = has-IsFree m.names first free in
            let e = generate_name-free server_id m f in
            inl (
              subst (IsFree m.names) (sym (ap (λ p. p.1) e)) f,
              ap (λ p. p.1) e,
              ap (λ p. p.0.day_create_heroes_count) e,
            )
      ],
    )
