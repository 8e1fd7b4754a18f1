-- ===== src/Promotions/Passing/Week.antt =====
-- A promotion whose times are days of the week.
use dream_heroes.Base.{arith, if◌then◌else◌, refl, subst, ℕ, ◌+◌, ◌||◌, ◌≡◌, ◌≢◌}
use dream_heroes.Base.Int.{ltb_ℤ, ℤ, ◌<ℤ◌, ◌≤ℤ◌}
use dream_heroes.Promotions.Passing.{begins, day_pass, ends, in_week, shows}
use dream_heroes.Promotions.Passing.Ends.{Lands, day_pass_outcome, next_type}
use dream_heroes.Promotions.Types.{
  Clock, EventTime, ShopSalesPromotionType, ShopState, TimeShopPromotion, apply_, destroy, excute_,
  time_week, wait,
}

-- The state that a day leads to, for a promotion that is shown, begins and ends within one week.
pub week_type : ℤ → EventTime → ShopSalesPromotionType → ShopSalesPromotionType
week_type day t wait =
    if ltb_ℤ day t.show_time || ltb_ℤ t.end_time day
    then wait
    else if ltb_ℤ day t.begin_time
    then apply_
    else excute_
week_type day t apply_ = if ltb_ℤ day t.begin_time || ltb_ℤ t.end_time day then apply_ else excute_
week_type day t excute_ =
    if ltb_ℤ day t.begin_time || ltb_ℤ t.end_time day then destroy else excute_
week_type day t destroy = destroy

next_type-week :
    (c : Clock) (t : EventTime) (type : ShopSalesPromotionType)
    → t.type ≡ time_week
    → t.show_time ≤ℤ t.begin_time
    → t.begin_time ≤ℤ t.end_time
    → next_type c t type ≡ week_type c.week_time t type
unfolding next_type week_type shows begins ends in_week
next_type-week c t wait e h k = rw e (ground arith)
next_type-week c t apply_ e h k = rw e (ground arith)
next_type-week c t excute_ e h k = rw e (ground arith)
next_type-week c t destroy e h k = refl

next_type-over_end :
    (c : Clock) (t : EventTime) (type : ShopSalesPromotionType)
    → t.type ≡ time_week
    → t.end_time <ℤ t.begin_time
    → t.end_time <ℤ t.show_time
    → type ≢ destroy
    → next_type c t type ≡ excute_
unfolding next_type shows begins ends in_week
next_type-over_end c t wait e h k l = rw e (ground arith)
next_type-over_end c t apply_ e h k l = rw e (ground arith)
next_type-over_end c t excute_ e h k l = rw e (ground arith)
next_type-over_end c t destroy e h k l = absurd (l refl)

-- A weekly promotion that is shown, begins and ends within one week is shown from its first day on, runs from
-- its day of beginning to its day of end, and is destroyed on the first pass behind them; one that waits is
-- not begun outside these days, one that is shown is not, and one that is destroyed does not come back.
pub week_pass_outcome :
    (n : ℕ) (c : Clock) (s : ShopState) (p : TimeShopPromotion)
    → p.config.time.type ≡ time_week
    → p.config.time.show_time ≤ℤ p.config.time.begin_time
    → p.config.time.begin_time ≤ℤ p.config.time.end_time
    → Lands p.config (week_type c.week_time p.config.time p.type) (day_pass (n + 3) c s p)
week_pass_outcome n c s p e h k =
    subst (λ x. Lands p.config x (day_pass (n + 3) c s p))
      (next_type-week c p.config.time p.type e h k) (day_pass_outcome n c s p)

-- A weekly promotion whose end stands before its beginning and before the day on which it is shown, as from
-- Friday to Monday, runs after every pass on any day of the week, and never ends, unless it is destroyed.
pub week_over_end_runs_always :
    (n : ℕ) (c : Clock) (s : ShopState) (p : TimeShopPromotion)
    → p.config.time.type ≡ time_week
    → p.config.time.end_time <ℤ p.config.time.begin_time
    → p.config.time.end_time <ℤ p.config.time.show_time
    → p.type ≢ destroy
    → Lands p.config excute_ (day_pass (n + 3) c s p)
week_over_end_runs_always n c s p e h k living =
    subst (λ x. Lands p.config x (day_pass (n + 3) c s p))
      (next_type-over_end c p.config.time p.type e h k living) (day_pass_outcome n c s p)
