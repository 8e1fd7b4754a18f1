-- ===== src/Gate/Tables.antt =====
-- `obj_map` and `obj_ptr_map` of common/common_template.h.
use dream_heroes.Base.{
  ==_iff, All, Option, [], ap, arith, false, if◌then◌else◌, none, refl, some, ℕ, ◌==◌, ◌∙◌, ◌∷◌,
  ◌≡◌,
}
use dream_heroes.Base.Map.{Key, Map, assign, find, find-assign_self, nat_key}

module _ {K V : Type 0} ⦃e : Key K⦄ where
  add_if_new : K → V → Map K V → Option V → Map K V
  add_if_new id v m none = assign id v m
  add_if_new id v m (some known) = m

  -- `addData`, which leaves a key that is known already.
  pub add_data : K → V → Map K V → Map K V
  unfolding add_if_new
  add_data id v m = add_if_new id v m (find id m)

  pub add_data-new :
      (id : K) (v : V) (m : Map K V) → find id m ≡ none → add_data id v m ≡ assign id v m
  unfolding add_data add_if_new
  add_data-new id v m h = ap (add_if_new id v m) h

  pub find-add_data :
      (id : K) (v : V) (m : Map K V) → find id m ≡ none → find id (add_data id v m) ≡ some v
  find-add_data id v m h = ap (find id) (add_data-new id v m h) ∙ find-assign_self id v m

  pub add_data-known : (id : K) (v w : V) (m : Map K V) → find id m ≡ some w → add_data id v m ≡ m
  unfolding add_data add_if_new
  add_data-known id v w m h = ap (add_if_new id v m) h

-- `getKey`: the first key with this value.
unfoldable pub get_key : ℕ → Map ℕ ℕ → Option ℕ
get_key t [] = none
get_key t ((k, v) ∷ m) = let rest = get_key t m in if v == t then some k else rest

-- `eraseValue`
unfoldable pub erase_value : ℕ → Map ℕ ℕ → Map ℕ ℕ
erase_value v [] = []
erase_value v ((k, w) ∷ m) = let rest = erase_value v m in if w == v then rest else (k, w) ∷ rest

-- No key has this value.
abbrev pub LacksValue : ℕ → Map ℕ ℕ → Type 0
LacksValue v = All λ p. (p.1 == v) ≡ false

pub get_key-assign : (k t : ℕ) (m : Map ℕ ℕ) → LacksValue t m → get_key t (assign k t m) ≡ some k
unfolding get_key assign
get_key-assign k t [] h = ground (arith, ==_iff t t)
get_key-assign k t ((j, w) ∷ m) h = ground (arith, h.0, get_key-assign k t m h.1, ==_iff t t)

pub get_key-erase_value : (t : ℕ) (m : Map ℕ ℕ) → get_key t (erase_value t m) ≡ none
unfolding get_key erase_value
get_key-erase_value t [] = refl
get_key-erase_value t ((k, w) ∷ m) = ground (arith, get_key-erase_value t m)
