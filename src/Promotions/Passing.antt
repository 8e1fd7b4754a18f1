-- ===== src/Promotions/Passing.antt =====
-- A promotion of gameserver/ShopSalesPromotionManager.cpp: it waits, is shown, runs and is destroyed.
pub mod Books
pub mod Ends
pub mod Timers
pub mod Week
use dream_heroes.Base.{
  Bool, Option, [], false, if◌then◌else◌, keep, none, not, some, suc, true, zero, ℕ, ◌&&◌, ◌++◌,
  ◌>>=◌, ◌||◌, ◌∷◌,
}
use dream_heroes.Base.Int.{leb_ℤ, ltb_ℤ, pos, ℤ, ◌-ℤ◌}
use dream_heroes.Promotions.Effects.{take_effect}
use dream_heroes.Promotions.Types.{
  Clock, EventTime, PromotionCall, PromotionTimer, ShopSalesPromotionType, ShopState, TimeEventType,
  TimeShopPromotion, apply_, call_apply, call_excute, call_exit, destroy, excute_, time_normal,
  time_open_server_offset_time, time_week, wait,
}

-- `excute(bool b)`
unfoldable pub excute_effect : Bool → ShopState → TimeShopPromotion → ShopState × TimeShopPromotion
excute_effect b s p = (take_effect b p.config.promotion s, record p { type = excute_ })

-- The event's type.
unfoldable pub is_exit : PromotionTimer → Bool
is_exit t = elim t.call [ call_apply ↦ false | call_excute ↦ false | call_exit ↦ true ]

-- `addEvent(this, call, …, delay * 1000, 1, 0)`
unfoldable pub add_timer : PromotionCall → ℤ → TimeShopPromotion → TimeShopPromotion
add_timer call delay p = record p {
  timers = p.timers ++ (record { call = call; delay = delay }) ∷ [];
}

-- `ShopSalesPromotion::exit`
unfoldable pub base_exit : TimeShopPromotion → TimeShopPromotion
unfolding is_exit
base_exit p = record p { timers = keep (λ t. not (is_exit t)) p.timers; type = wait }

-- `TimeShopPromotion::exit`
unfoldable pub exit : ShopState → TimeShopPromotion → ShopState × TimeShopPromotion
unfolding base_exit excute_effect
exit s p = let (s', p') = excute_effect false s (base_exit p) in (s', record p' { type = destroy })

-- `ShopSalesPromotion::apply`
unfoldable pub base_apply : TimeShopPromotion → TimeShopPromotion
unfolding is_exit
base_apply p = record p { timers = keep is_exit p.timers; type = apply_ }

-- From `first` to `last`, or what the source takes for the days of the week that go past its end.
unfoldable pub in_week : ℤ → ℤ → ℤ → Bool
in_week day first last =
    if leb_ℤ first last
    then leb_ℤ first day && leb_ℤ day last
    else leb_ℤ day first || leb_ℤ last day

-- The test of the state `Wait`: whether the promotion is shown today.
unfoldable pub shows : Clock → EventTime → Bool
unfolding in_week
shows c t = elim t.type [
  | time_normal ↦ false
  | time_week ↦ in_week c.week_time t.show_time t.end_time
  | time_open_server_offset_time ↦
      not (ltb_ℤ t.end_time t.show_time)
      && leb_ℤ t.show_time c.passed_day
      && leb_ℤ c.passed_day t.end_time
]

-- The test of the state `Apply`: whether the promotion begins today.
unfoldable pub begins : Clock → EventTime → Bool
unfolding in_week
begins c t = elim t.type [
  | time_normal ↦ false
  | time_week ↦ in_week c.week_time t.begin_time t.end_time
  | time_open_server_offset_time ↦ leb_ℤ t.begin_time c.passed_day && leb_ℤ c.passed_day t.end_time
]

-- The test of the state `Excute`: whether the promotion is over.
unfoldable pub ends : Clock → EventTime → Bool
ends c t = elim t.type [
  | time_normal ↦ false
  | time_week ↦
      if leb_ℤ t.begin_time t.end_time
      then ltb_ℤ c.week_time t.begin_time || ltb_ℤ t.end_time c.week_time
      else ltb_ℤ t.begin_time c.week_time && ltb_ℤ c.week_time t.end_time
  | time_open_server_offset_time ↦ ltb_ℤ c.passed_day t.begin_time || ltb_ℤ t.end_time c.passed_day
]

-- `DayPass`, `excute` and `apply` call one another: `again` is the call of `DayPass`.
module _ (again : ShopState → TimeShopPromotion → Option (ShopState × TimeShopPromotion))
    (c : Clock) where
  -- The rest of `excute()` behind the effect, by the type of the promotion's times.
  unfoldable pub excute_next :
      TimeEventType → ShopState → TimeShopPromotion → Option (ShopState × TimeShopPromotion)
  excute_next time_normal s p =
      let delay_time = p.config.time.end_time -ℤ c.server_time in
      if ltb_ℤ (pos 0) delay_time
      then some (s, add_timer call_exit delay_time p)
      else some (exit s p)
  excute_next time_week s p = again s p
  excute_next time_open_server_offset_time s p = again s p

  -- `excute()`
  unfoldable pub excute : ShopState → TimeShopPromotion → Option (ShopState × TimeShopPromotion)
  excute s p = let (s1, p1) = excute_effect true s p in excute_next p.config.time.type s1 p1

  -- The `switch` of `apply`.
  unfoldable pub apply_next :
      TimeEventType → ShopState → TimeShopPromotion → Option (ShopState × TimeShopPromotion)
  apply_next time_normal s p =
      let delay_time = p.config.time.begin_time -ℤ c.server_time in
      if leb_ℤ delay_time (pos 0) then excute s p else some (s, add_timer call_excute delay_time p)
  apply_next time_week s p = again s p
  apply_next time_open_server_offset_time s p = again s p

  -- `TimeShopPromotion::apply`
  unfoldable pub apply : ShopState → TimeShopPromotion → Option (ShopState × TimeShopPromotion)
  apply s p = apply_next p.config.time.type s (base_apply p)

  -- The three `if`s of `DayPass`.
  unfoldable pub pass_wait :
      ShopSalesPromotionType
      → ShopState
      → TimeShopPromotion
      → Option (ShopState × TimeShopPromotion)
  pass_wait wait s p = if shows c p.config.time then apply s p else some (s, p)
  pass_wait apply_ s p = some (s, p)
  pass_wait excute_ s p = some (s, p)
  pass_wait destroy s p = some (s, p)

  unfoldable pub pass_apply :
      ShopSalesPromotionType
      → ShopState
      → TimeShopPromotion
      → Option (ShopState × TimeShopPromotion)
  pass_apply wait s p = some (s, p)
  pass_apply apply_ s p = if begins c p.config.time then excute s p else some (s, p)
  pass_apply excute_ s p = some (s, p)
  pass_apply destroy s p = some (s, p)

unfoldable pub pass_excute :
    Clock → ShopSalesPromotionType → ShopState → TimeShopPromotion → ShopState × TimeShopPromotion
pass_excute c wait s p = (s, p)
pass_excute c apply_ s p = (s, p)
pass_excute c excute_ s p = if ends c p.config.time then exit s p else (s, p)
pass_excute c destroy s p = (s, p)

-- `TimeShopPromotion::DayPass`. A call goes at most two calls deep: the fuel.
unfoldable pub day_pass :
    ℕ → Clock → ShopState → TimeShopPromotion → Option (ShopState × TimeShopPromotion)
day_pass zero c s p = none
day_pass (suc fuel) c s p = do
  (s1, p1) ← pass_wait (day_pass fuel c) c p.type s p
  (s2, p2) ← pass_apply (day_pass fuel c) c p1.type s1 p1
  some (pass_excute c p2.type s2 p2)
