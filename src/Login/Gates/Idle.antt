-- ===== src/Login/Gates/Idle.antt =====
-- The gate that `getIdleGate` chooses.
use dream_heroes.Base.{
  ==_iff, All, Bool-cases, Option, [], arith, has, if◌then◌else◌, inl, inr, none, refl, some, subst,
  sym, true, ℕ, ◌==◌, ◌∷◌, ◌≡◌, ◌⊎◌,
}
use dream_heroes.Base.Int.{ltb_ℤ, ℤ, ◌≤ℤ◌}
use dream_heroes.Base.Map.{Map}
use dream_heroes.Login.Gates.{gate_at, get_balence_count, get_idle_gate, idle_gate_from}
use dream_heroes.Login.State.{GateSession, LoginServer}

-- The number of the users of a gate, as the gate is asked.
abbrev pub count_at : Map ℕ GateSession → ℕ → ℤ
count_at m g = get_balence_count (gate_at g m)

-- The gate that one round of the loop keeps.
kept : Map ℕ GateSession → ℕ → ℕ → ℕ
kept m b g = if ltb_ℤ (count_at m g) (count_at m b) then g else b

-- The gate that the loop has behind all gates, when it has one before them.
chosen : Map ℕ GateSession → ℕ → Map ℕ ℕ → ℕ
chosen m b [] = b
chosen m b ((id, g) ∷ gates) = chosen m (kept m b g) gates

idle_gate_from-some :
    (m : Map ℕ GateSession) (b : ℕ) (gates : Map ℕ ℕ)
    → idle_gate_from m (some b) gates ≡ some (chosen m b gates)
unfolding idle_gate_from chosen kept
idle_gate_from-some m b [] = refl
idle_gate_from-some m b ((id, g) ∷ gates) = idle_gate_from-some m (kept m b g) gates

kept-le :
    (m : Map ℕ GateSession) (b g : ℕ)
    → (count_at m (kept m b g) ≤ℤ count_at m b) × (count_at m (kept m b g) ≤ℤ count_at m g)
unfolding kept
kept-le m b g = elim (Bool-cases (ltb_ℤ (count_at m g) (count_at m b))) [
  | inl less ↦ rw less (ground arith, omega arith)
  | inr no_less ↦ rw no_less (omega arith, ground arith)
]

kept-known : (m : Map ℕ GateSession) (b g : ℕ) → (kept m b g ≡ b) ⊎ (kept m b g ≡ g)
unfolding kept
kept-known m b g = elim (Bool-cases (ltb_ℤ (count_at m g) (count_at m b))) [
  | inl less ↦ rw less (inr refl)
  | inr no_less ↦ rw no_less (inl refl)
]

chosen-le :
    (m : Map ℕ GateSession) (b : ℕ) (gates : Map ℕ ℕ)
    → count_at m (chosen m b gates) ≤ℤ count_at m b
unfolding chosen
chosen-le m b [] = omega arith
chosen-le m b ((id, g) ∷ gates) = omega (arith, chosen-le m (kept m b g) gates, kept-le m b g)

chosen-least :
    (m : Map ℕ GateSession) (b : ℕ) (gates : Map ℕ ℕ)
    → All (λ (x : ℕ × ℕ). count_at m (chosen m b gates) ≤ℤ count_at m x.1) gates
unfolding chosen
chosen-least m b [] = tt
chosen-least m b ((id, g) ∷ gates) = (
  omega (arith, chosen-le m (kept m b g) gates, kept-le m b g),
  chosen-least m (kept m b g) gates,
)

chosen-known :
    (m : Map ℕ GateSession) (b : ℕ) (gates : Map ℕ ℕ)
    → (chosen m b gates ≡ b) ⊎ (has (λ (x : ℕ × ℕ). x.1 == chosen m b gates) gates ≡ true)
unfolding chosen
chosen-known m b [] = inl refl
chosen-known m b ((id, g) ∷ gates) = ground (
  arith,
  chosen-known m (kept m b g) gates,
  kept-known m b g,
  ==_iff g (chosen m (kept m b g) gates),
)

abbrev pub Least : Map ℕ GateSession → Map ℕ ℕ → Option ℕ → Type 0
Least m gates none = gates ≡ []
Least m gates (some g) =
    (has (λ (x : ℕ × ℕ). x.1 == g) gates ≡ true)
    × All (λ (x : ℕ × ℕ). count_at m g ≤ℤ count_at m x.1) gates

-- The gate for a new user is one of the registered gates, and no registered gate has a lower count of users and of logins
-- in flight; there is none only where no gate is registered.
pub get_idle_gate-Least : (s : LoginServer) → Least s.gate_sessions s.gates (get_idle_gate s)
unfolding get_idle_gate
get_idle_gate-Least s = go s.gates
  where
    first :
        (m : Map ℕ GateSession) (id g : ℕ) (gates : Map ℕ ℕ)
        → Least m ((id, g) ∷ gates) (some (chosen m g gates))
    first m id g gates = (
      ground (arith, chosen-known m g gates, ==_iff g (chosen m g gates)),
      (chosen-le m g gates, chosen-least m g gates),
    )

    go : (gates : Map ℕ ℕ) → Least s.gate_sessions gates (idle_gate_from s.gate_sessions none gates)
    go [] = refl
    go ((id, g) ∷ gates) =
        subst (Least s.gate_sessions ((id, g) ∷ gates))
          (sym (idle_gate_from-some s.gate_sessions g gates)) (first s.gate_sessions id g gates)
