-- ===== src/Promotions/Board.antt =====
-- `ShopSalesPromotionManager` of gameserver/ShopSalesPromotionManager.cpp, which keeps the promotions, with the
-- timers of `gEventMgr` that call them.
pub mod Sums
pub mod Fired
pub mod Reach
pub mod Started
use dream_heroes.Base.{
  Bool, Bytes, List, Option, [], false, if◌then◌else◌, keep, map, none, some, suc, true, zero, ℕ,
  ◌++◌, ◌>>=◌, ◌∷◌,
}
use dream_heroes.Base.Int.{leb_ℤ, ltb_ℤ, pos, ℤ, ◌-ℤ◌}
use dream_heroes.Promotions.Passing.{add_timer, apply, day_pass, excute, exit}
use dream_heroes.Promotions.Types.{
  Clock, PromotionCall, PromotionTimer, ShopSalesPromotionType, ShopState, TimeEventType,
  TimeShopPromotion, TimeShopSalesPromotionConfig, apply_, call_apply, call_excute, call_exit,
  destroy, excute_, time_normal, time_open_server_offset_time, time_week, wait,
}

pub record ShopSalesPromotionManager : Type 0 where
  pub shop : ShopState
  pub promotions : List TimeShopPromotion

-- The calls that `DayPass` may need: Passing/Ends.
abbrev pub calls : ℕ
calls = 3

-- A promotion behind `ShopSalesPromotion::init`.
unfoldable pub new_promotion : TimeShopSalesPromotionConfig → TimeShopPromotion
new_promotion config = record { config = config; type = wait; timers = [] }

-- The `switch` of `TimeShopPromotion::init`. A promotion that is refused is deleted.
unfoldable pub init_by :
    Clock
    → TimeEventType
    → ShopState
    → TimeShopPromotion
    → Option (ShopState × List TimeShopPromotion)
init_by c time_normal s p =
    let delay_time = p.config.time.show_time -ℤ c.server_time in
    if ltb_ℤ p.config.time.end_time p.config.time.show_time
    then some (s, [])
    else if leb_ℤ delay_time (pos 0)
    then (do (s', p') ← apply (day_pass calls c) c s p; some (s', p' ∷ []))
    else some (s, add_timer call_apply delay_time p ∷ [])
init_by c time_week s p = do (s', p') ← day_pass calls c s p; some (s', p' ∷ [])
init_by c time_open_server_offset_time s p = do (s', p') ← day_pass calls c s p; some (s', p' ∷ [])

-- `TimeShopPromotion::init`
unfoldable pub init_promotion :
    Clock → ShopState → TimeShopSalesPromotionConfig → Option (ShopState × List TimeShopPromotion)
unfolding new_promotion
init_promotion c s config = init_by c config.time.type s (new_promotion config)

-- The loop of `init`, over the configurations in the order of their numbers.
unfoldable pub init_all :
    Clock
    → ShopState
    → List TimeShopSalesPromotionConfig
    → Option (ShopState × List TimeShopPromotion)
init_all c s [] = some (s, [])
init_all c s (config ∷ configs) = do
  (s1, new) ← init_promotion c s config
  (s2, more) ← init_all c s1 configs
  some (s2, new ++ more)

-- The loop of `DayPass`.
unfoldable pub day_pass_all :
    Clock → ShopState → List TimeShopPromotion → Option (ShopState × List TimeShopPromotion)
day_pass_all c s [] = some (s, [])
day_pass_all c s (p ∷ ps) = do
  (s1, p') ← day_pass calls c s p
  (s2, more) ← day_pass_all c s1 ps
  some (s2, p' ∷ more)

is_alive : ShopSalesPromotionType → Bool
is_alive wait = true
is_alive apply_ = true
is_alive excute_ = true
is_alive destroy = false

-- `update`
unfoldable pub update_promotions : List TimeShopPromotion → List TimeShopPromotion
unfolding is_alive
update_promotions = keep λ p. is_alive p.type

-- What the first timer of a promotion calls, when it fires.
unfoldable pub fire_call :
    Clock → PromotionCall → ShopState → TimeShopPromotion → Option (ShopState × TimeShopPromotion)
fire_call c call_apply s p = apply (day_pass calls c) c s p
fire_call c call_excute s p = excute (day_pass calls c) c s p
fire_call c call_exit s p = some (exit s p)

-- The event leaves the holder, since it is to run once.
unfoldable pub fire :
    Clock
    → List PromotionTimer
    → ShopState
    → TimeShopPromotion
    → Option (ShopState × TimeShopPromotion)
fire c [] s p = none
fire c (x ∷ l) s p = fire_call c x.call s (record p { timers = l })

-- The timer of the promotion at this place.
unfoldable pub fire_at :
    Clock → ℕ → ShopState → List TimeShopPromotion → Option (ShopState × List TimeShopPromotion)
fire_at c i s [] = none
fire_at c zero s (p ∷ ps) = do (s', p') ← fire c p.timers s p; some (s', p' ∷ ps)
fire_at c (suc i) s (p ∷ ps) = do (s', ps') ← fire_at c i s ps; some (s', p ∷ ps')

-- An entry of the answer of `ReqActivityAnnouncement`.
pub record Activity : Type 0 where
  pub id : ℤ
  pub name : Bytes
  pub time_describe : Bytes
  pub describe : Bytes

is_announced : ShopSalesPromotionType → Bool
is_announced wait = false
is_announced apply_ = true
is_announced excute_ = true
is_announced destroy = false

announce : TimeShopPromotion → Activity
announce p = record {
  id = p.config.id;
  name = p.config.name;
  time_describe = p.config.time_describe;
  describe = p.config.describe;
}

-- `ReqActivityAnnouncement`
pub req_activity_announcement : List TimeShopPromotion → List Activity
unfolding is_announced announce
req_activity_announcement ps = map announce (keep (λ p. is_announced p.type) ps)
