-- ===== src/Base/Map.antt =====
-- `std::map`: an association list in the order of its keys, which is the order of iteration.
use Prim.Native.Nat.{ℕ}
use mathlib.Core.Path.{◌≡◌, refl}
use mathlib.Core.Logic.{◌↔◌, ◌≢◌}
use mathlib.Core.Bool.{Bool, true, ◌&&◌, ◌||◌}
use mathlib.Core.Option.{Option, none, some}
use mathlib.Core.List.{List, [], ◌∷◌}
use native.Mathlib.Omega.{arith}
use dream_heroes.Base.Tests.{ltb, ◌==◌, ==_iff, if◌then◌else◌}
use dream_heroes.Base.Int.{ℤ, ltb_ℤ, ◌==ℤ◌, ==ℤ_iff}

-- What a key type offers: its `operator<`, and equality.
pub record Key (K : Type 0) : Type 0 where
  pub lt : K → K → Bool
  pub beq : K → K → Bool
  pub beq_iff : (a b : K) → (beq a b ≡ true) ↔ (a ≡ b)

instance abbrev pub nat_key : Key ℕ
nat_key = record { lt = ltb; beq = ◌==◌; beq_iff = ==_iff }

instance abbrev pub int_key : Key ℤ
int_key = record { lt = ltb_ℤ; beq = ◌==ℤ◌; beq_iff = ==ℤ_iff }

abbrev pair_lt : ℤ × ℤ → ℤ × ℤ → Bool
pair_lt (a, b) (c, d) = ltb_ℤ a c || ((a ==ℤ c) && ltb_ℤ b d)

abbrev pair_beq : ℤ × ℤ → ℤ × ℤ → Bool
pair_beq (a, b) (c, d) = (a ==ℤ c) && (b ==ℤ d)

pair_beq_iff : (p q : ℤ × ℤ) → (pair_beq p q ≡ true) ↔ (p ≡ q)
pair_beq_iff (a, b) (c, d) = ground (arith, ==ℤ_iff a c, ==ℤ_iff b d)

-- `std::pair<int, int>`, compared component by component.
instance abbrev pub pair_key : Key (ℤ × ℤ)
unfolding pair_beq_iff
pair_key = record { lt = pair_lt; beq = pair_beq; beq_iff = pair_beq_iff }

abbrev pub Map : Type 0 → Type 0 → Type 0
Map K V = List (K × V)

module _ {K V : Type 0} ⦃e : Key K⦄ where
  unfoldable pub find : K → Map K V → Option V
  find k [] = none
  find k ((j, v) ∷ m) = if e.beq k j then some v else find k m

  -- `m[k] = v`
  unfoldable pub assign : K → V → Map K V → Map K V
  assign k v [] = (k, v) ∷ []
  assign k v ((j, w) ∷ m) =
      if e.beq k j
      then (k, v) ∷ m
      else if e.lt k j
      then (k, v) ∷ (j, w) ∷ m
      else (j, w) ∷ assign k v m

  -- `m.erase(m.find(k))`
  unfoldable pub erase : K → Map K V → Map K V
  erase k [] = []
  erase k ((j, v) ∷ m) = if e.beq k j then erase k m else (j, v) ∷ erase k m

  pub find-assign_self : (k : K) (v : V) (m : Map K V) → find k (assign k v m) ≡ some v
  unfolding find assign
  find-assign_self k v [] = ground (arith, e.beq_iff k k)
  find-assign_self k v ((j, w) ∷ m) = ground (arith, e.beq_iff k k, find-assign_self k v m)

  pub find-assign_ne : (k j : K) (v : V) (m : Map K V) → j ≢ k → find j (assign k v m) ≡ find j m
  unfolding find assign
  find-assign_ne k j v [] h = ground (arith, e.beq_iff j k)
  find-assign_ne k j v ((i, w) ∷ m) h =
      ground (arith, e.beq_iff j k, e.beq_iff k i, find-assign_ne k j v m h)

  pub find-erase_self : (k : K) (m : Map K V) → find k (erase k m) ≡ none
  unfolding find erase
  find-erase_self k [] = refl
  find-erase_self k ((j, v) ∷ m) = ground (arith, find-erase_self k m)

  pub find-erase_ne : (k j : K) (m : Map K V) → j ≢ k → find j (erase k m) ≡ find j m
  unfolding find erase
  find-erase_ne k j [] h = refl
  find-erase_ne k j ((i, v) ∷ m) h =
      ground (arith, e.beq_iff k i, e.beq_iff j i, find-erase_ne k j m h)
