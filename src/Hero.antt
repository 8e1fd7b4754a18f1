-- ===== src/Hero.antt =====
-- gameserver/DreamHero.h: the state of one hero. `HeroData` is the message `MsgHeroData`, the field
-- `_info` of the source; the children hold the operations of DreamHero.cpp.
pub mod Daily
pub mod Deals
pub mod Exit
pub mod Instance
pub mod Lottery
pub mod Play
pub mod Progress
pub mod Rewards
pub mod Saved
pub mod Shop
pub mod Tasks
use dream_heroes.Base.{Bool, Bytes, List, false, true, ℕ, ◌*◌}
use dream_heroes.Base.Int.{ℤ, ◌≤ℤ◌}
use dream_heroes.Base.Map.{Map}

pub data SubType : Type 0 where
  default monster interactive : SubType

pub record IntPair : Type 0 where
  pub number_1 : ℤ
  pub number_2 : ℤ

pub record IntBoolPair : Type 0 where
  pub number : ℤ
  pub valid : Bool

pub record TaskInfo : Type 0 where
  pub task_id : ℤ
  pub argument_1 : ℤ
  pub use_time : ℤ

pub record ObjConfig : Type 0 where
  pub sub_type : SubType
  pub id : ℤ

pub record HeroData : Type 0 where
  pub name : Bytes
  pub gold : ℤ
  pub records : List IntPair
  pub heroes : List Bool
  pub tasks : List TaskInfo
  pub current_hero : ℤ
  pub complete_task_count : ℤ
  pub new_tutorial : ℤ
  pub jewel : ℤ
  pub spirit : ℤ
  pub day_buy_spirit : ℤ
  pub lotions : List ℤ
  pub daily_game_progress : ℤ
  pub daily_game_gold : ℤ
  pub daily_game_score : ℤ
  pub daily_game_hp_pct : ℤ
  pub daily_game_record_progress : ℤ
  pub daily_reset_game_count : ℤ
  pub daily_top_grogress : ℤ
  pub daily_game_anger : ℤ
  pub concern_weixin : Bool
  pub grid_notify_state : List IntBoolPair

-- gameserver/GSHttpManager.h
pub data DealStatusType : Type 0 where
  wait_to_pay wait_prepare_to_pay complete wait_prepare_to_verify failed : DealStatusType

pub record DealWaitToPay : Type 0 where
  pub key_code : Bytes
  pub status : ℤ
  pub price : ℤ
  pub order_id : ℤ
  pub receipt : Bytes
  pub deal_type : DealStatusType

pub record DreamHero : Type 0 where
  pub info : HeroData
  pub open info use *
  pub account : ℕ
  pub special_kills : Map (ℤ × ℤ) (List ObjConfig)
  pub special_creatures : Map ℤ ℤ
  pub current_chapter : ℤ
  pub current_section : ℤ
  pub current_task_count : ℤ
  pub last_task_advertisement_time : ℕ
  pub deals_wait_to_pay : Map ℤ DealWaitToPay
  pub gm_level : ℤ
  pub ping_count : ℤ
  pub last_recover_spirit_time : ℕ
  pub last_buy_spirit_time : ℕ
  pub last_day_lottery_time : ℕ
  pub daily_game_time : ℕ
  pub daily_game_prize_time : ℕ
  pub last_daily_reset_game_time : ℕ
  pub channel : ℤ

-- The balances that a player spends are not negative.
abbrev pub IsSolvent : DreamHero → Type 0
IsSolvent h = (ℤ.pos 0 ≤ℤ h.gold) × (ℤ.pos 0 ≤ℤ h.jewel) × (ℤ.pos 0 ≤ℤ h.spirit)

-- The setters of the message `_info`.
abbrev pub set_gold : DreamHero → ℤ → DreamHero
set_gold h v = record h { info = record h.info { gold = v } }

abbrev pub set_jewel : DreamHero → ℤ → DreamHero
set_jewel h v = record h { info = record h.info { jewel = v } }

abbrev pub set_spirit : DreamHero → ℤ → DreamHero
set_spirit h v = record h { info = record h.info { spirit = v } }

abbrev pub set_records : DreamHero → List IntPair → DreamHero
set_records h v = record h { info = record h.info { records = v } }

abbrev pub set_heroes : DreamHero → List Bool → DreamHero
set_heroes h v = record h { info = record h.info { heroes = v } }

abbrev pub set_tasks : DreamHero → List TaskInfo → DreamHero
set_tasks h v = record h { info = record h.info { tasks = v } }

abbrev pub set_lotions : DreamHero → List ℤ → DreamHero
set_lotions h v = record h { info = record h.info { lotions = v } }

abbrev pub set_day_buy_spirit : DreamHero → ℤ → DreamHero
set_day_buy_spirit h v = record h { info = record h.info { day_buy_spirit = v } }

abbrev pub set_complete_task_count : DreamHero → ℤ → DreamHero
set_complete_task_count h v = record h { info = record h.info { complete_task_count = v } }

abbrev pub set_concern_weixin : DreamHero → Bool → DreamHero
set_concern_weixin h v = record h { info = record h.info { concern_weixin = v } }

abbrev pub set_daily_game_gold : DreamHero → ℤ → DreamHero
set_daily_game_gold h v = record h { info = record h.info { daily_game_gold = v } }

abbrev pub sub_type_eq : SubType → SubType → Bool
sub_type_eq default default = true
sub_type_eq monster monster = true
sub_type_eq interactive interactive = true
sub_type_eq a b = false
