-- ===== src/Promotions/Board/Sums.antt =====
-- The sums over all promotions, and that every operation keeps them equal to the fields.
use dream_heroes.Base.{
  All, Bool-cases, List, Option, [], ap, false, inl, inr, none, refl, some, ◌>>=◌, ◌>>=◌, ◌∙◌, ◌∷◌,
  ◌≡◌,
}
use dream_heroes.Base.Int.{int_laws, neg_part, pos, pos_part, ℤ, ◌+ℤ◌}
use dream_heroes.Hero.Shop.{get_cheap_gold}
use dream_heroes.Promotions.Board.{calls, day_pass_all, is_alive, update_promotions}
use dream_heroes.Promotions.Passing.{day_pass}
use dream_heroes.Promotions.Passing.Books.{
  Moves, Moves-refl, MovesTo, cheap_part, day_pass-MovesTo, idle_cheap_part, idle_ratting_part,
  is_running, ratting_part,
}
use dream_heroes.Promotions.Passing.Timers.{FitTo, IsFit, day_pass-FitTo}
use dream_heroes.Promotions.Types.{
  Clock, ShopSalesPromotionType, ShopState, TimeShopPromotion, apply_, destroy, excute_, wait,
}

unfoldable pub cheap_total : List TimeShopPromotion → ℤ → ℤ
cheap_total [] grid = pos 0
cheap_total (p ∷ ps) grid = cheap_part p grid +ℤ cheap_total ps grid

unfoldable pub ratting_total : List TimeShopPromotion → ℤ
ratting_total [] = pos 0
ratting_total (p ∷ ps) = ratting_part p +ℤ ratting_total ps

-- The fields change with the sums.
pub record Shifts (s : ShopState) (ps : List TimeShopPromotion) (s' : ShopState)
    (ps' : List TimeShopPromotion) : Type 0 where
  pub cheap_gold :
      (grid : ℤ)
      → get_cheap_gold s'.cheap_gold grid +ℤ cheap_total ps grid
        ≡ get_cheap_gold s.cheap_gold grid +ℤ cheap_total ps' grid
  pub gold :
      s'.recharge_gold_ratting +ℤ ratting_total ps ≡ s.recharge_gold_ratting +ℤ ratting_total ps'
  pub all : s'.recharge_ratting ≡ s.recharge_ratting
  pub jewel : s'.recharge_jewel_ratting ≡ s.recharge_jewel_ratting
  pub fit : All IsFit ps'

abbrev pub ShiftsTo :
    ShopState → List TimeShopPromotion → Option (ShopState × List TimeShopPromotion) → Type 0
ShiftsTo s ps none = Unit
ShiftsTo s ps (some (s', ps')) = Shifts s ps s' ps'

module _ {s : ShopState} {ps : List TimeShopPromotion} where
  pub Shifts-refl : All IsFit ps → Shifts s ps s ps
  Shifts-refl f = record {
    cheap_gold = λ grid. refl;
    gold = refl;
    all = refl;
    jewel = refl;
    fit = f;
  }

-- One promotion moves, and then the others.
two_parts :
    (a b c x y x' y' : ℤ) → b +ℤ x ≡ a +ℤ x' → c +ℤ y ≡ b +ℤ y' → c +ℤ (x +ℤ y) ≡ a +ℤ (x' +ℤ y')
two_parts a b c x y x' y' h k =
    omega (int_laws, ap pos_part h, ap neg_part h, ap pos_part k, ap neg_part k)

pub Shifts-cons :
    {s s1 s2 : ShopState} {p p' : TimeShopPromotion} {ps ps' : List TimeShopPromotion}
    → Moves s p s1 p'
    → IsFit p'
    → Shifts s1 ps s2 ps'
    → Shifts s (p ∷ ps) s2 (p' ∷ ps')
unfolding cheap_total ratting_total
Shifts-cons m f n = record {
  cheap_gold = λ grid. two_parts _ _ _ _ _ _ _ (m.cheap_gold grid) (n.cheap_gold grid);
  gold = two_parts _ _ _ _ _ _ _ m.gold n.gold;
  all = n.all ∙ m.all;
  jewel = n.jewel ∙ m.jewel;
  fit = (f, n.fit);
}

-- A new promotion, which adds nothing yet, moves, and then the others come.
new_part :
    (a b x x' : ℤ) (ys : ℤ)
    → x ≡ pos 0
    → b +ℤ x ≡ a +ℤ x'
    → (c : ℤ) → c +ℤ pos 0 ≡ b +ℤ ys
    → c +ℤ pos 0 ≡ a +ℤ (x' +ℤ ys)
new_part a b x x' ys e h c k = omega (
  int_laws,
  ap pos_part e,
  ap neg_part e,
  ap pos_part h,
  ap neg_part h,
  ap pos_part k,
  ap neg_part k,
)

pub Shifts-new :
    {s s1 s2 : ShopState} {p p' : TimeShopPromotion} {ps' : List TimeShopPromotion}
    → is_running p.type ≡ false
    → Moves s p s1 p'
    → IsFit p'
    → Shifts s1 [] s2 ps'
    → Shifts s [] s2 (p' ∷ ps')
unfolding cheap_total ratting_total
Shifts-new {s} {s1} {s2} {p} {p'} {ps'} h m f n = record {
  cheap_gold = λ grid.
      new_part _ _ (cheap_part p grid) _ _ (idle_cheap_part p grid h) (m.cheap_gold grid) _
        (n.cheap_gold grid);
  gold = new_part _ _ (ratting_part p) _ _ (idle_ratting_part p h) m.gold _ n.gold;
  all = n.all ∙ m.all;
  jewel = n.jewel ∙ m.jewel;
  fit = (f, n.fit);
}

ShiftsTo-cons :
    {s s1 : ShopState} {p p' : TimeShopPromotion} (ps : List TimeShopPromotion)
    (r : Option (ShopState × List TimeShopPromotion))
    → Moves s p s1 p'
    → IsFit p'
    → ShiftsTo s1 ps r
    → ShiftsTo s (p ∷ ps) (r >>= λ (s2, more). some (s2, p' ∷ more))
ShiftsTo-cons ps none m f n = tt
ShiftsTo-cons ps (some (s2, more)) m f n = Shifts-cons m f n

pub ShiftsTo-bind :
    (s : ShopState) (p : TimeShopPromotion) (ps : List TimeShopPromotion)
    (r : Option (ShopState × TimeShopPromotion))
    (k : ShopState × TimeShopPromotion → Option (ShopState × List TimeShopPromotion))
    → MovesTo s p r
    → FitTo r
    → ((s1 : ShopState) (p' : TimeShopPromotion)
        → Moves s p s1 p'
        → IsFit p'
        → ShiftsTo s ps (k (s1, p')))
    → ShiftsTo s ps (r >>= k)
ShiftsTo-bind s p ps none k m f go = tt
ShiftsTo-bind s p ps (some (s1, p')) k m f go = go s1 p' m f

-- A day keeps the fields equal to the sums.
pub day_pass_all-ShiftsTo :
    (c : Clock) (s : ShopState) (ps : List TimeShopPromotion)
    → All IsFit ps
    → ShiftsTo s ps (day_pass_all c s ps)
unfolding day_pass_all
day_pass_all-ShiftsTo c s [] f = Shifts-refl tt
day_pass_all-ShiftsTo c s (p ∷ ps) f =
    ShiftsTo-bind s p (p ∷ ps) (day_pass calls c s p) _ (day_pass-MovesTo calls c s p)
      (day_pass-FitTo calls c s p f.0)
      λ s1 p' m f'. ShiftsTo-cons ps (day_pass_all c s1 ps) m f' (day_pass_all-ShiftsTo c s1 ps f.1)

-- A promotion that is destroyed adds nothing.
dropped : (a x y z : ℤ) → x ≡ pos 0 → a +ℤ y ≡ a +ℤ z → a +ℤ (x +ℤ y) ≡ a +ℤ z
dropped a x y z e h = omega (int_laws, ap pos_part e, ap neg_part e, ap pos_part h, ap neg_part h)

not_running : (t : ShopSalesPromotionType) → is_alive t ≡ false → is_running t ≡ false
unfolding is_alive is_running
not_running destroy h = refl
not_running wait h = cc
not_running apply_ h = cc
not_running excute_ h = cc

-- `update_promotions` keeps them equal.
pub update_promotions-Shifts :
    (s : ShopState) (ps : List TimeShopPromotion)
    → All IsFit ps
    → Shifts s ps s (update_promotions ps)
unfolding update_promotions cheap_total ratting_total
update_promotions-Shifts s [] f = Shifts-refl tt
update_promotions-Shifts s (p ∷ ps) f =
    let ih = update_promotions-Shifts s ps f.1 in
    elim (Bool-cases (is_alive p.type)) [
      | inl alive ↦ rw alive (Shifts-cons Moves-refl f.0 ih)
      | inr dead ↦
          let idle = not_running p.type dead in
          rw dead (record {
            cheap_gold = λ grid.
                dropped _ (cheap_part p grid) _ _ (idle_cheap_part p grid idle)
                  (ih.cheap_gold grid);
            gold = dropped _ (ratting_part p) _ _ (idle_ratting_part p idle) ih.gold;
            all = refl;
            jewel = refl;
            fit = ih.fit;
          })
    ]
