-- ===== src/Promotions/Board/Reach.antt =====
-- The states that the manager can come to, from `init` on: by `DayPass` and `update` of the server, and by the
-- timers of the promotions, in any order and at any time of the clock.
use dream_heroes.Base.{All, Bool, List, [], ap, refl, some, subst, ℕ, ◌∙◌, ◌≡◌}
use dream_heroes.Base.Int.{int_laws, neg_part, pos, pos_part, ℤ, ◌+ℤ◌}
use dream_heroes.Base.Map.{Map, find, int_key}
use dream_heroes.Hero.Shop.{get_cheap_gold}
use dream_heroes.Promotions.Board.{
  ShopSalesPromotionManager, day_pass_all, fire_at, init_all, update_promotions,
}
use dream_heroes.Promotions.Board.Fired.{fire_at-ShiftsTo}
use dream_heroes.Promotions.Board.Started.{init_all-ShiftsTo}
use dream_heroes.Promotions.Board.Sums.{
  Shifts, ShiftsTo, cheap_total, day_pass_all-ShiftsTo, ratting_total, update_promotions-Shifts,
}
use dream_heroes.Promotions.Passing.Timers.{IsFit}
use dream_heroes.Promotions.Types.{
  Clock, ShopState, TimeShopPromotion, TimeShopSalesPromotionConfig,
}

-- A manager and what happens to it.
pub data Step : ShopSalesPromotionManager → ShopSalesPromotionManager → Type 0 where
  day_passes :
      (c : Clock) (m : ShopSalesPromotionManager) (s : ShopState) (ps : List TimeShopPromotion)
      → day_pass_all c m.shop m.promotions ≡ some (s, ps)
      → Step m (record { shop = s; promotions = ps })
  updates :
      (m : ShopSalesPromotionManager)
      → Step m (record m { promotions = update_promotions m.promotions })
  fires :
      (c : Clock) (i : ℕ) (m : ShopSalesPromotionManager) (s : ShopState)
      (ps : List TimeShopPromotion)
      → fire_at c i m.shop m.promotions ≡ some (s, ps)
      → Step m (record { shop = s; promotions = ps })

-- The manager as `init` leaves it, from no prices and ratings.
abbrev pub Starts :
    Clock → List TimeShopSalesPromotionConfig → Map ℤ Bool → ShopSalesPromotionManager → Type 0
Starts c configs flags m =
    init_all c
      (record {
        cheap_gold = [];
        recharge_ratting = pos 0;
        recharge_gold_ratting = pos 0;
        recharge_jewel_ratting = pos 0;
        shop_open = flags;
      })
      configs
    ≡ some (m.shop, m.promotions)

pub data Reach : ShopSalesPromotionManager → Type 0 where
  starts :
      (c : Clock) (configs : List TimeShopSalesPromotionConfig) (flags : Map ℤ Bool)
      (m : ShopSalesPromotionManager)
      → Starts c configs flags m
      → Reach m
  next : {m m' : ShopSalesPromotionManager} → Reach m → Step m m' → Reach m'

-- The prices and the ratings are the sums over the promotions that run, and the timers fit.
pub record IsBooked (m : ShopSalesPromotionManager) : Type 0 where
  pub cheap_gold :
      (grid : ℤ) → get_cheap_gold m.shop.cheap_gold grid ≡ cheap_total m.promotions grid
  pub gold : m.shop.recharge_gold_ratting ≡ ratting_total m.promotions
  pub all : m.shop.recharge_ratting ≡ pos 0
  pub jewel : m.shop.recharge_jewel_ratting ≡ pos 0
  pub fit : All IsFit m.promotions

balance : (a b x y : ℤ) → b +ℤ x ≡ a +ℤ y → a ≡ x → b ≡ y
balance a b x y h k = omega (int_laws, ap pos_part h, ap neg_part h, ap pos_part k, ap neg_part k)

Shifts-IsBooked :
    {m m' : ShopSalesPromotionManager}
    → IsBooked m
    → Shifts m.shop m.promotions m'.shop m'.promotions
    → IsBooked m'
Shifts-IsBooked b n = record {
  cheap_gold = λ grid. balance _ _ _ _ (n.cheap_gold grid) (b.cheap_gold grid);
  gold = balance _ _ _ _ n.gold b.gold;
  all = n.all ∙ b.all;
  jewel = n.jewel ∙ b.jewel;
  fit = n.fit;
}

Step-IsBooked : {m m' : ShopSalesPromotionManager} → Step m m' → IsBooked m → IsBooked m'
Step-IsBooked (day_passes c m s ps e) b =
    Shifts-IsBooked b
      (subst (ShiftsTo m.shop m.promotions) e (day_pass_all-ShiftsTo c m.shop m.promotions b.fit))
Step-IsBooked (updates m) b = Shifts-IsBooked b (update_promotions-Shifts m.shop m.promotions b.fit)
Step-IsBooked (fires c i m s ps e) b =
    Shifts-IsBooked b
      (subst (ShiftsTo m.shop m.promotions) e (fire_at-ShiftsTo c i m.shop m.promotions b.fit))

Starts-IsBooked :
    (c : Clock) (configs : List TimeShopSalesPromotionConfig) (flags : Map ℤ Bool)
    (m : ShopSalesPromotionManager)
    → Starts c configs flags m
    → IsBooked m
unfolding cheap_total ratting_total get_cheap_gold find
Starts-IsBooked c configs flags m e =
    Shifts-IsBooked
      {m = record {
        shop = record {
          cheap_gold = [];
          recharge_ratting = pos 0;
          recharge_gold_ratting = pos 0;
          recharge_jewel_ratting = pos 0;
          shop_open = flags;
        };
        promotions = [];
      }}
      (record { cheap_gold = λ grid. refl; gold = refl; all = refl; jewel = refl; fit = tt })
      (subst (ShiftsTo _ []) e (init_all-ShiftsTo c _ configs))

-- However days pass, promotions are cleared away and timers fire, after `init` has started from no prices and no
-- ratings: the price cut of every hero is the sum of the cuts of the promotions that run, the rating of the gold
-- is the sum of their ratings, whatever type of rating they name, the rating of the jewels and the common one stay
-- 0, and every promotion has at most the one timer that its state waits for.
pub Reach-IsBooked : {m : ShopSalesPromotionManager} → Reach m → IsBooked m
Reach-IsBooked (starts c configs flags m e) = Starts-IsBooked c configs flags m e
Reach-IsBooked (next r step) = Step-IsBooked step (Reach-IsBooked r)
