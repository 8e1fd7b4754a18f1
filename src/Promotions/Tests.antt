-- ===== src/Promotions/Tests.antt =====
-- The promotions of a small shop.
use dream_heroes.Base.{[], arith, refl, some, ◌+◌, ◌∷◌, ◌≡◌}
use dream_heroes.Base.Int.{pos, ◌+ℤ◌, ◌-ℤ◌}
use dream_heroes.Base.Map.{assign, find, int_key}
use dream_heroes.Hero.Shop.{get_cheap_gold}
use dream_heroes.Promotions.Board.{
  ShopSalesPromotionManager, day_pass_all, init_all, init_by, init_promotion, new_promotion,
}
use dream_heroes.Promotions.Board.Reach.{IsBooked, Reach-IsBooked, Starts, day_passes, next, starts}
use dream_heroes.Promotions.Effects.{take_effect}
use dream_heroes.Promotions.Passing.{
  add_timer, apply, apply_next, base_apply, base_exit, begins, day_pass, ends, excute,
  excute_effect, excute_next, exit, in_week, is_exit, pass_apply, pass_excute, pass_wait, shows,
}
use dream_heroes.Promotions.Passing.Ends.{Lands, day_pass_outcome, next_type}
use dream_heroes.Promotions.Passing.Week.{week_over_end_runs_always, week_pass_outcome, week_type}
use dream_heroes.Promotions.Types.{
  Clock, ShopState, TimeShopPromotion, TimeShopSalesPromotionConfig, apply_, call_excute, destroy,
  excute_, hero_promotion, recharge_ratting_promotion, time_normal, time_week, wait,
}

abbrev hero_week : TimeShopSalesPromotionConfig
hero_week = record {
  id = pos 1;
  name = [];
  time_describe = [];
  describe = [];
  promotion = hero_promotion ((pos 7, pos 30) ∷ []);
  time = record { type = time_week; show_time = pos 1; begin_time = pos 2; end_time = pos 4 };
}

-- From Friday to Monday.
abbrev jewel_week : TimeShopSalesPromotionConfig
jewel_week = record {
  id = pos 2;
  name = [];
  time_describe = [];
  describe = [];
  promotion = recharge_ratting_promotion (pos 20) (pos 2);
  time = record { type = time_week; show_time = pos 4; begin_time = pos 5; end_time = pos 1 };
}

abbrev hero_date : TimeShopSalesPromotionConfig
hero_date = record {
  id = pos 3;
  name = [];
  time_describe = [];
  describe = [];
  promotion = hero_promotion ((pos 7, pos 5) ∷ []);
  time = record {
    type = time_normal;
    show_time = pos 500;
    begin_time = pos 800;
    end_time = pos 900;
  };
}

abbrev tuesday : Clock
tuesday = record { server_time = pos 600; week_time = pos 2; passed_day = pos 12 }

abbrev friday : Clock
friday = record { server_time = pos 850; week_time = pos 5; passed_day = pos 15 }

abbrev no_prices : ShopState
no_prices = record {
  cheap_gold = [];
  recharge_ratting = pos 0;
  recharge_gold_ratting = pos 0;
  recharge_jewel_ratting = pos 0;
  shop_open = [];
}

abbrev waiting : TimeShopSalesPromotionConfig → TimeShopPromotion
waiting config = record { config = config; type = wait; timers = [] }

day_pass_outcome_example :
    Lands hero_week
      (next_type tuesday hero_week.time wait)
      (day_pass (0 + 3) tuesday no_prices (waiting hero_week))
day_pass_outcome_example = day_pass_outcome 0 tuesday no_prices (waiting hero_week)

week_pass_outcome_example :
    Lands hero_week
      (week_type (pos 2) hero_week.time wait)
      (day_pass (0 + 3) tuesday no_prices (waiting hero_week))
week_pass_outcome_example =
    week_pass_outcome 0 tuesday no_prices (waiting hero_week) refl (omega arith) (omega arith)

week_over_end_runs_always_example :
    Lands jewel_week excute_ (day_pass (0 + 3) tuesday no_prices (waiting jewel_week))
week_over_end_runs_always_example =
    week_over_end_runs_always 0 tuesday no_prices (waiting jewel_week) refl (omega arith)
      (omega arith) (λ e. cc (e))

-- On Tuesday the week's promotion of heroes runs, the one from Friday to Monday runs too and raises the gold for
-- its jewels, and the promotion by date waits for its beginning.
abbrev shop_on_tuesday : ShopSalesPromotionManager
shop_on_tuesday = record {
  shop = record no_prices { cheap_gold = (pos 7, pos 30) ∷ []; recharge_gold_ratting = pos 20 };
  promotions =
      (record { config = hero_week; type = excute_; timers = [] })
      ∷ (record { config = jewel_week; type = excute_; timers = [] })
      ∷ (record {
        config = hero_date;
        type = apply_;
        timers = (record { call = call_excute; delay = pos 200 }) ∷ [];
      })
      ∷ [];
}

tuesday-Starts : Starts tuesday (hero_week ∷ jewel_week ∷ hero_date ∷ []) [] shop_on_tuesday
unfolding init_all init_promotion init_by new_promotion day_pass pass_wait pass_apply pass_excute
    apply apply_next excute excute_next excute_effect exit base_exit base_apply add_timer is_exit
    shows begins ends in_week take_effect assign get_cheap_gold find ◌+ℤ◌ ◌-ℤ◌
tuesday-Starts = refl

-- On Friday the first promotion is over, and its prices are as before.
friday_passes :
    day_pass_all friday shop_on_tuesday.shop shop_on_tuesday.promotions
    ≡ some (
      record shop_on_tuesday.shop { cheap_gold = (pos 7, pos 0) ∷ [] },
      (record { config = hero_week; type = destroy; timers = [] })
          ∷ (record { config = jewel_week; type = excute_; timers = [] })
          ∷ (record {
            config = hero_date;
            type = apply_;
            timers = (record { call = call_excute; delay = pos 200 }) ∷ [];
          })
          ∷ [],
    )
unfolding day_pass_all day_pass pass_wait pass_apply pass_excute excute excute_next excute_effect
    exit base_exit is_exit shows begins ends in_week take_effect assign get_cheap_gold find ◌+ℤ◌
    ◌-ℤ◌
friday_passes = refl

Reach-IsBooked_example : IsBooked (record {
  shop = record shop_on_tuesday.shop { cheap_gold = (pos 7, pos 0) ∷ [] };
  promotions =
      (record { config = hero_week; type = destroy; timers = [] })
      ∷ (record { config = jewel_week; type = excute_; timers = [] })
      ∷ (record {
        config = hero_date;
        type = apply_;
        timers = (record { call = call_excute; delay = pos 200 }) ∷ [];
      })
      ∷ [];
})
Reach-IsBooked_example = Reach-IsBooked (
    next
      (starts tuesday (hero_week ∷ jewel_week ∷ hero_date ∷ []) [] shop_on_tuesday tuesday-Starts)
      (day_passes friday shop_on_tuesday _ _ friday_passes))
