-- ===== src/Promotions/Effects/Sums.antt =====
-- What one promotion adds to the prices and to the ratings.
use dream_heroes.Base.{
  Bool, Bool-cases, List, Option, [], ap, arith, false, if◌then◌else◌, inl, inr, none, refl, some,
  sym, true, ◌∙◌, ◌∷◌, ◌≡◌,
}
use dream_heroes.Base.Int.{
  +ℤ_zero, ==ℤ_iff, int_laws, neg_part, pos, pos_part, ℤ, ◌+ℤ◌, ◌==ℤ◌, -ℤ_parts,
}
use dream_heroes.Base.Map.{Map, assign, find, find-assign_ne, find-assign_self, int_key}
use dream_heroes.Hero.Shop.{get_cheap_gold}
use dream_heroes.Promotions.Effects.{
  cheap_heroes, modify_cheap_gold, open_heroes, set_hero_shop_config, signed, take_effect,
}
use dream_heroes.Promotions.Types.{
  ShopPromotion, ShopState, hero_promotion, open_hide_hero_promotion, recharge_ratting_promotion,
}

-- What the promotion's map takes from the price at a place: the sum of the entries for the place.
pub cheap_sum : Map ℤ ℤ → ℤ → ℤ
cheap_sum [] grid = pos 0
cheap_sum ((j, gold) ∷ m) grid = (if j ==ℤ grid then gold else pos 0) +ℤ cheap_sum m grid

pub cheap_of : ShopPromotion → ℤ → ℤ
cheap_of (hero_promotion cheap_hero) grid = cheap_sum cheap_hero grid
cheap_of (recharge_ratting_promotion ratting recharge_type) grid = pos 0
cheap_of (open_hide_hero_promotion grids) grid = pos 0

pub ratting_of : ShopPromotion → ℤ
ratting_of (hero_promotion cheap_hero) = pos 0
ratting_of (recharge_ratting_promotion ratting recharge_type) = ratting
ratting_of (open_hide_hero_promotion grids) = pos 0

-- The sums that a change by `cheap` and `ratting` makes of the fields.
pub record Adds (s s' : ShopState) (cheap : ℤ → ℤ) (ratting : ℤ) : Type 0 where
  pub cheap_gold :
      (grid : ℤ)
      → get_cheap_gold s'.cheap_gold grid ≡ get_cheap_gold s.cheap_gold grid +ℤ cheap grid
  pub gold : s'.recharge_gold_ratting ≡ s.recharge_gold_ratting +ℤ ratting
  pub all : s'.recharge_ratting ≡ s.recharge_ratting
  pub jewel : s'.recharge_jewel_ratting ≡ s.recharge_jewel_ratting

abbrev or_zero : Option ℤ → ℤ
or_zero none = pos 0
or_zero (some gold) = gold

get_cheap_gold_lem : (m : Map ℤ ℤ) (grid : ℤ) → get_cheap_gold m grid ≡ or_zero (find grid m)
unfolding get_cheap_gold
get_cheap_gold_lem m grid = ground arith

get_cheap_gold-modify_cheap_gold :
    (g gold grid : ℤ) (s : ShopState)
    → get_cheap_gold (modify_cheap_gold g gold s).cheap_gold grid
      ≡ get_cheap_gold s.cheap_gold grid +ℤ (if g ==ℤ grid then gold else pos 0)
unfolding modify_cheap_gold
get_cheap_gold-modify_cheap_gold g gold grid s =
    let all = assign g (get_cheap_gold s.cheap_gold g +ℤ gold) s.cheap_gold in
    elim (Bool-cases (g ==ℤ grid)) [
      | inl same ↦
          let e : g ≡ grid = (==ℤ_iff g grid).0 same in
          rw same (
            get_cheap_gold_lem all grid
            ∙ ap (λ k. or_zero (find k all)) (sym e)
            ∙ ap or_zero (find-assign_self g _ s.cheap_gold)
            ∙ ap (λ k. get_cheap_gold s.cheap_gold k +ℤ gold) e)
      | inr other ↦ rw other (
          get_cheap_gold_lem all grid
          ∙ ap or_zero
              (find-assign_ne g grid _ s.cheap_gold (λ e. cc (other, (==ℤ_iff g grid).1 (sym e))))
          ∙ sym (get_cheap_gold_lem s.cheap_gold grid)
          ∙ sym (+ℤ_zero _))
    ]

signed_zero : (b : Bool) (x : ℤ) → x ≡ x +ℤ signed b (pos 0)
unfolding signed
signed_zero true x = omega int_laws
signed_zero false x = omega int_laws

signed_sum : (b : Bool) (x y z : ℤ) → (x +ℤ signed b y) +ℤ signed b z ≡ x +ℤ signed b (y +ℤ z)
unfolding signed
signed_sum true x y z = omega int_laws
signed_sum false x y z = omega int_laws

signed-if :
    (b t : Bool) (x : ℤ) → (if t then signed b x else pos 0) ≡ signed b (if t then x else pos 0)
unfolding signed
signed-if true t x = ground arith
signed-if false true x = refl
signed-if false false x = ground (arith, -ℤ_parts (pos 0) (pos 0))

cheap_heroes-cheap_gold :
    (b : Bool) (m : Map ℤ ℤ) (s : ShopState) (grid : ℤ)
    → get_cheap_gold (cheap_heroes b m s).cheap_gold grid
      ≡ get_cheap_gold s.cheap_gold grid +ℤ signed b (cheap_sum m grid)
unfolding cheap_heroes cheap_sum
cheap_heroes-cheap_gold b [] s grid = signed_zero b (get_cheap_gold s.cheap_gold grid)
cheap_heroes-cheap_gold b ((j, gold) ∷ m) s grid =
    cheap_heroes-cheap_gold b m (modify_cheap_gold j (signed b gold) s) grid
    ∙ ap (λ x. x +ℤ signed b (cheap_sum m grid))
        (get_cheap_gold-modify_cheap_gold j (signed b gold) grid s
          ∙ ap (λ x. get_cheap_gold s.cheap_gold grid +ℤ x) (signed-if b (j ==ℤ grid) gold))
    ∙ signed_sum b (get_cheap_gold s.cheap_gold grid) (if j ==ℤ grid then gold else pos 0)
        (cheap_sum m grid)

cheap_heroes-others :
    (b : Bool) (m : Map ℤ ℤ) (s : ShopState)
    → ((cheap_heroes b m s).recharge_gold_ratting ≡ s.recharge_gold_ratting)
      × ((cheap_heroes b m s).recharge_ratting ≡ s.recharge_ratting)
      × ((cheap_heroes b m s).recharge_jewel_ratting ≡ s.recharge_jewel_ratting)
unfolding cheap_heroes modify_cheap_gold
cheap_heroes-others b [] s = (refl, refl, refl)
cheap_heroes-others b ((j, gold) ∷ m) s =
    cheap_heroes-others b m (modify_cheap_gold j (signed b gold) s)

-- Nothing but the flags differs.
abbrev SameSums : ShopState → ShopState → Type 0
SameSums s s' =
    (s'.cheap_gold ≡ s.cheap_gold)
    × (s'.recharge_gold_ratting ≡ s.recharge_gold_ratting)
    × (s'.recharge_ratting ≡ s.recharge_ratting)
    × (s'.recharge_jewel_ratting ≡ s.recharge_jewel_ratting)

set_hero_shop_config-SameSums :
    (grid : ℤ) (b : Bool) (s : ShopState) → SameSums s (set_hero_shop_config grid b s)
unfolding set_hero_shop_config
set_hero_shop_config-SameSums grid b s = ground arith

open_heroes-SameSums :
    (b : Bool) (grids : List ℤ) (s : ShopState) → SameSums s (open_heroes b grids s)
unfolding open_heroes
open_heroes-SameSums b [] s = (refl, refl, refl, refl)
open_heroes-SameSums b (grid ∷ grids) s =
    let (a, d, e, f) = set_hero_shop_config-SameSums grid b s in
    let (a', d', e', f') = open_heroes-SameSums b grids (set_hero_shop_config grid b s) in
    (a' ∙ a, d' ∙ d, e' ∙ e, f' ∙ f)

take_effect-Adds :
    (b : Bool) (p : ShopPromotion) (s : ShopState)
    → Adds s (take_effect b p s) (λ grid. signed b (cheap_of p grid)) (signed b (ratting_of p))
unfolding take_effect cheap_of ratting_of
take_effect-Adds b (hero_promotion m) s = record {
  cheap_gold = cheap_heroes-cheap_gold b m s;
  gold = (cheap_heroes-others b m s).0 ∙ signed_zero b _;
  all = (cheap_heroes-others b m s).1;
  jewel = (cheap_heroes-others b m s).2;
}
take_effect-Adds b (recharge_ratting_promotion ratting recharge_type) s = record {
  cheap_gold = λ grid. signed_zero b _;
  gold = refl;
  all = refl;
  jewel = refl;
}
take_effect-Adds b (open_hide_hero_promotion grids) s =
    let (a, d, e, f) = open_heroes-SameSums b grids s in
    record {
      cheap_gold = λ grid. ap (λ m. get_cheap_gold m grid) a ∙ signed_zero b _;
      gold = d ∙ signed_zero b _;
      all = e;
      jewel = f;
    }

-- A promotion that takes effect adds its prices and its rating, whatever type of rating it names.
pub take_effect-begins :
    (p : ShopPromotion) (s : ShopState) → Adds s (take_effect true p s) (cheap_of p) (ratting_of p)
unfolding signed
take_effect-begins p s = take_effect-Adds true p s

taken_back : (x y z : ℤ) → y ≡ x +ℤ signed false z → x ≡ y +ℤ z
unfolding signed
taken_back x y z h = omega (int_laws, ap pos_part h, ap neg_part h)

-- One that ends takes them back.
pub take_effect-ends :
    (p : ShopPromotion) (s : ShopState) → Adds (take_effect false p s) s (cheap_of p) (ratting_of p)
take_effect-ends p s =
    let add = take_effect-Adds false p s in
    record {
      cheap_gold = λ grid. taken_back _ _ _ (add.cheap_gold grid);
      gold = taken_back _ _ _ add.gold;
      all = sym add.all;
      jewel = sym add.jewel;
    }
