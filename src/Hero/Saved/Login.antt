-- ===== src/Hero/Saved/Login.antt =====
-- `DreamHero::set_info` of gameserver/DreamHero.cpp: a hero takes over the message of the database server.
pub mod Again
use dream_heroes.Base.{List, [], if◌then◌else◌, ltb, none, some, ◌++◌, ◌-◌, ◌==◌, ◌∷◌}
use dream_heroes.Base.Int.{ltb_ℤ, pos, ℤ, ◌*ℤ◌, ◌+ℤ◌, ◌==ℤ◌}
use dream_heroes.Base.Map.{Map, assign, find, int_key, pair_key}
use dream_heroes.Config.{Env, GameConfig, to_u32}
use dream_heroes.Error.{error_no}
use dream_heroes.Hero.{
  DealStatusType, DealWaitToPay, DreamHero, IntPair, ObjConfig, complete, failed, set_spirit,
  wait_prepare_to_pay, wait_prepare_to_verify, wait_to_pay,
}
use dream_heroes.Hero.Daily.{try_to_get_game_prize}
use dream_heroes.Hero.Deals.{HttpTask, RechargeRatting, add_deal_pay, verify_deal_task}
use dream_heroes.Hero.Saved.Columns.{MapSpecialKill}
use dream_heroes.Hero.Saved.Row.{DealInfo, HeroDataMsg, Outside}
use dream_heroes.Rank.{RankManager}

-- `_special_kills[pair_entry].push_back(entry_config)`
unfoldable pub push_kill :
    ℤ × ℤ → ObjConfig → Map (ℤ × ℤ) (List ObjConfig) → Map (ℤ × ℤ) (List ObjConfig)
push_kill key kill m = elim (find key m) [
  | some ks ↦ assign key (ks ++ kill ∷ []) m
  | none ↦ assign key (kill ∷ []) m
]

unfoldable pub push_kills :
    ℤ × ℤ → List ObjConfig → Map (ℤ × ℤ) (List ObjConfig) → Map (ℤ × ℤ) (List ObjConfig)
push_kills key [] m = m
push_kills key (k ∷ ks) m = push_kills key ks (push_kill key k m)

unfoldable pub restore_special_kills :
    List MapSpecialKill → Map (ℤ × ℤ) (List ObjConfig) → Map (ℤ × ℤ) (List ObjConfig)
restore_special_kills [] m = m
restore_special_kills (s ∷ ss) m =
    restore_special_kills ss (push_kills (s.chapter_id, s.section_id) s.kills m)

pub restore_special_creatures : List IntPair → Map ℤ ℤ → Map ℤ ℤ
restore_special_creatures [] m = m
restore_special_creatures (p ∷ ps) m = restore_special_creatures ps (assign p.number_1 p.number_2 m)

-- `(DealStatusType)DealInfoEntry.complete_status()`
as_deal_status : Outside → ℤ → DealStatusType
as_deal_status o z =
    if z ==ℤ pos 0
    then wait_to_pay
    else if z ==ℤ pos 1
    then wait_prepare_to_pay
    else if z ==ℤ pos 2
    then complete
    else if z ==ℤ pos 3
    then wait_prepare_to_verify
    else if z ==ℤ pos 4
    then failed
    else o.unknown_deal_status z

-- `std::map::insert` leaves an order that is known already.
pub restore_deals : Outside → List DealInfo → Map ℤ DealWaitToPay → Map ℤ DealWaitToPay
restore_deals o [] m = m
restore_deals o (d ∷ ds) m =
    let entry : DealWaitToPay = record {
      key_code = d.product_id;
      status = d.status;
      price = pos 0;
      order_id = d.order;
      receipt = d.cur_receipt;
      deal_type = as_deal_status o d.complete_status;
    } in
    let m' : Map ℤ DealWaitToPay = elim (find d.order m) [
      | some known ↦ m
      | none ↦ assign d.order entry m
    ] in
    restore_deals o ds m'

-- The switch on the type of a deal. `addDealPay` does not send here, so that its answer is dropped.
resume_deal :
    GameConfig
    → Env
    → RechargeRatting
    → DreamHero
    → DealWaitToPay
    → DealStatusType
    → DreamHero × List HttpTask
resume_deal c env ratting h deal wait_prepare_to_pay =
    ((add_deal_pay c env ratting h deal.key_code deal.status deal.order_id error_no).0, [])
resume_deal c env ratting h deal wait_prepare_to_verify =
    (h, verify_deal_task h.account h.name deal.receipt deal.order_id ∷ [])
resume_deal c env ratting h deal other = (h, [])

pub resume_deals :
    GameConfig → Env → RechargeRatting → DreamHero → Map ℤ DealWaitToPay → DreamHero × List HttpTask
resume_deals c env ratting h [] = (h, [])
resume_deals c env ratting h ((order, deal) ∷ m) =
    let (h1, first) = resume_deal c env ratting h deal deal.deal_type in
    let (h2, more) = resume_deals c env ratting h1 m in (h2, first ++ more)

-- `if (g_server_time > _last_recover_spirit_time)`
pub recover_at_login : GameConfig → Env → Outside → DreamHero → DreamHero
recover_at_login c env o h =
    let time_pass = to_u32 (env.server_time - h.last_recover_spirit_time) in
    let times = o.recover_times time_pass c.config_recover_spirit_minute in
    let temp_spirit = c.config_recover_spirit *ℤ times +ℤ h.spirit in
    let spirit =
      if ltb_ℤ c.config_max_spirit temp_spirit then c.config_max_spirit else temp_spirit in
    let recovered = set_spirit h spirit in
    if ltb h.last_recover_spirit_time env.server_time
    then (if times ==ℤ pos 0 then recovered else record recovered {
      last_recover_spirit_time =
          o.recover_time env.server_time time_pass c.config_recover_spirit_minute times;
    })
    else h

-- The daily game of another day starts anew.
pub reset_at_login : RankManager → DreamHero → DreamHero
reset_at_login ranks h = if ranks.daily_game_begin_time == h.daily_game_time then h else record h {
  info = record h.info {
    daily_game_progress = pos 0;
    daily_game_score = pos 0;
    daily_reset_game_count = pos 0;
    daily_game_hp_pct = pos 100;
    daily_game_anger = pos 0;
  };
}

-- `set_daily_game_record_progress(0)`, which comes whatever the search in `daily_game_record_config_` finds.
pub reset_record_progress : DreamHero → DreamHero
reset_record_progress h = record h { info = record h.info { daily_game_record_progress = pos 0 } }

-- The fields that are taken over.
pub take_over : Outside → DreamHero → HeroDataMsg → ℤ → DreamHero
take_over o h msg channel = record h {
  info = msg.hero_data;
  account = msg.account;
  special_kills = restore_special_kills msg.special_kills [];
  special_creatures = restore_special_creatures msg.special_creatures [];
  current_chapter = msg.current_chapter;
  current_section = msg.current_section;
  current_task_count = msg.free_task_count;
  last_task_advertisement_time = msg.last_task_advertisement_time;
  deals_wait_to_pay = restore_deals o msg.deals h.deals_wait_to_pay;
  gm_level = msg.gm_level;
  last_recover_spirit_time = msg.last_recover_spirit_time;
  last_buy_spirit_time = msg.last_buy_spirit_time;
  last_day_lottery_time = msg.last_lottery_time;
  daily_game_time = msg.daily_game_time;
  daily_game_prize_time = msg.daily_game_prize_time;
  last_daily_reset_game_time = msg.last_daily_reset_game_time;
  channel = channel;
}

pub set_info :
    GameConfig
    → Env
    → Outside
    → RechargeRatting
    → RankManager
    → DreamHero
    → HeroDataMsg
    → ℤ
    → DreamHero × List HttpTask
set_info c env o ratting ranks h msg channel =
    let h0 = take_over o h msg channel in
    let (h1, tasks) = resume_deals c env ratting h0 h0.deals_wait_to_pay in
    let h2 = reset_at_login ranks (recover_at_login c env o h1) in
    (try_to_get_game_prize c ranks (reset_record_progress h2), tasks)
