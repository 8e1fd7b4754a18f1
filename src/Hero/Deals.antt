-- ===== src/Hero/Deals.antt =====
-- The payments of gameserver/DreamHero.cpp: `addDealWaitToPay`, `addDealPay`, `ReqCrearteDeal`,
-- `ReqVerifyDeal`, and the part of `SaveHero` on the deals.
pub mod Closed
pub mod Kept
pub mod Once
pub mod Progress
mod Tests
use dream_heroes.Base.{
  Bool, Bytes, Option, [], false, if◌then◌else◌, keep, none, not, some, true, ℕ, ◌++◌, ◌∷◌,
}
use dream_heroes.Base.Int.{pos, ℤ, ◌+ℤ◌, ◌==ℤ◌}
use dream_heroes.Base.Map.{Map, assign, find, int_key}
use dream_heroes.Config.{Env, GameConfig, GoldShop, get_gold_shop_config_info}
use dream_heroes.Error.{
  GameError, buy_gold_failed_not_found_config, buy_gold_failed_not_found_order,
  buy_gold_failed_the_order_have_been_completed, error_no, is_no, unknow,
}
use dream_heroes.Hero.{
  DealStatusType, DealWaitToPay, DreamHero, complete, failed, set_gold, set_jewel,
  wait_prepare_to_pay, wait_prepare_to_verify, wait_to_pay,
}

pub record CreateDealAck : Type 0 where
  pub key_code : Bytes
  pub status : ℤ
  pub price : ℤ
  pub order_id : ℤ
  pub error : GameError

-- A deal that is already known is left alone.
pub add_deal_wait_to_pay : DreamHero → Bytes → ℤ → ℤ → ℤ → GameError → DreamHero × CreateDealAck
add_deal_wait_to_pay h key_code status price order_id error =
    let entry : DealWaitToPay = record {
      key_code = key_code;
      status = status;
      price = price;
      order_id = order_id;
      receipt = [];
      deal_type = wait_to_pay;
    } in
    let deals : Map ℤ DealWaitToPay = elim (find order_id h.deals_wait_to_pay) [
      | some known ↦ h.deals_wait_to_pay
      | none ↦ assign order_id entry h.deals_wait_to_pay
    ] in
    (
      if is_no error then record h { deals_wait_to_pay = deals } else h,
      record {
        key_code = key_code;
        status = status;
        price = price;
        order_id = order_id;
        error = error;
      },
    )

pub record VerifyDealAck : Type 0 where
  pub product_id : Bytes
  pub status : ℤ
  pub order_id : ℤ
  pub current_gold : ℤ
  pub current_jewel : ℤ
  pub error : GameError

-- The ratings of gShopSalesPromotionManager.
pub record RechargeRatting : Type 0 where
  pub gold_ratting : ℤ
  pub jewel_ratting : ℤ

-- `entry.type_ = type`, through the reference into the map.
set_deal : DreamHero → ℤ → DealWaitToPay → DealStatusType → DreamHero
set_deal h order_id entry type = record h {
  deals_wait_to_pay = assign order_id (record entry { deal_type = type }) h.deals_wait_to_pay;
}

-- The gold and the jewels of the product, raised by the current ratings.
credit : Env → RechargeRatting → GoldShop → DreamHero → DreamHero
credit env ratting config h =
    set_jewel (set_gold h (h.gold +ℤ env.scaled config.gold ratting.gold_ratting))
      (h.jewel +ℤ env.scaled config.jewel ratting.jewel_ratting)

pay_by_type :
    Env
    → RechargeRatting
    → GoldShop
    → DreamHero
    → ℤ
    → DealWaitToPay
    → DealStatusType
    → DreamHero × GameError
unfolding credit
pay_by_type env ratting config h order_id entry wait_to_pay =
    (credit env ratting config (set_deal h order_id entry complete), error_no)
pay_by_type env ratting config h order_id entry wait_prepare_to_pay =
    (credit env ratting config (set_deal h order_id entry complete), error_no)
pay_by_type env ratting config h order_id entry complete =
    (h, buy_gold_failed_the_order_have_been_completed)
pay_by_type env ratting config h order_id entry wait_prepare_to_verify = (h, unknow)
pay_by_type env ratting config h order_id entry failed = (h, unknow)

-- A status other than zero fails the deal, whatever its state was.
pay_deal :
    Env → RechargeRatting → GoldShop → DreamHero → ℤ → ℤ → DealWaitToPay → DreamHero × GameError
unfolding set_deal
pay_deal env ratting config h status order_id entry =
    if status ==ℤ pos 0
    then pay_by_type env ratting config h order_id entry entry.deal_type
    else (set_deal h order_id entry failed, unknow)

-- The order is known, or it is not.
pay_order :
    Env
    → RechargeRatting
    → GoldShop
    → DreamHero
    → ℤ
    → ℤ
    → Option DealWaitToPay
    → DreamHero × GameError
pay_order env ratting config h status order_id none = (h, buy_gold_failed_not_found_order)
pay_order env ratting config h status order_id (some entry) =
    pay_deal env ratting config h status order_id entry

-- The product is configured, or it is not.
pay_product : Env → RechargeRatting → DreamHero → ℤ → ℤ → Option GoldShop → DreamHero × GameError
pay_product env ratting h status order_id none = (h, buy_gold_failed_not_found_config)
pay_product env ratting h status order_id (some config) =
    pay_order env ratting config h status order_id (find order_id h.deals_wait_to_pay)

pay_run :
    GameConfig
    → Env
    → RechargeRatting
    → DreamHero
    → Bytes
    → ℤ
    → ℤ
    → GameError
    → DreamHero × GameError
pay_run c env ratting h key_code status order_id error =
    if is_no error
    then pay_product env ratting h status order_id (get_gold_shop_config_info c h.channel key_code)
    else (h, unknow)

-- The answer is sent unless the call comes from `set_info`.
pub add_deal_pay :
    GameConfig
    → Env
    → RechargeRatting
    → DreamHero
    → Bytes
    → ℤ
    → ℤ
    → GameError
    → DreamHero × VerifyDealAck
add_deal_pay c env ratting h key_code status order_id error =
    let (h', error') = pay_run c env ratting h key_code status order_id error in
    (
      h',
      record {
        product_id = key_code;
        status = status;
        order_id = order_id;
        current_gold = h'.gold;
        current_jewel = h'.jewel;
        error = error';
      },
    )

-- What is handed to the http manager.
pub data HttpTask : Type 0 where
  create_deal_task : ℕ → Bytes → Bytes → ℤ → HttpTask
  verify_deal_task : ℕ → Bytes → Bytes → ℤ → HttpTask

pub is_wait_to_pay : DealStatusType → Bool
is_wait_to_pay wait_to_pay = true
is_wait_to_pay t = false

-- The loop that gives up the deals that wait for payment, as the WIN32 branch runs it.
give_up_deals : Map ℤ DealWaitToPay → Map ℤ DealWaitToPay
unfolding is_wait_to_pay
give_up_deals = keep λ e. not (is_wait_to_pay e.1.deal_type)

pub req_crearte_deal : DreamHero → Bytes → ℤ → DreamHero × HttpTask
unfolding give_up_deals
req_crearte_deal h key_code channel = (
  record h { deals_wait_to_pay = give_up_deals h.deals_wait_to_pay },
  create_deal_task h.account h.name key_code channel,
)

-- A known order is sent for verification; the hero is not changed.
pub req_verify_deal : DreamHero → Bytes → ℤ → Option HttpTask
req_verify_deal h receipt order_id = elim (find order_id h.deals_wait_to_pay) [
  | none ↦ none
  | some entry ↦ some (verify_deal_task h.account h.name receipt order_id)
]

is_complete : DealStatusType → Bool
is_complete complete = true
is_complete t = false

-- The loop at the end of `SaveHero` that erases the completed deals, from an iterator on.
erase_complete : Map ℤ DealWaitToPay → Map ℤ DealWaitToPay
unfolding is_complete
erase_complete = keep λ e. not (is_complete e.1.deal_type)

-- The deals before the iterator, and those from it on.
pub record Cursor : Type 0 where
  pub before : Map ℤ DealWaitToPay
  pub rest : Map ℤ DealWaitToPay

-- The loop that writes the deals takes the iterator to the end.
write_deals : Cursor → Map ℤ DealWaitToPay → Cursor
write_deals at [] = record at { rest = [] }
write_deals at (d ∷ ds) = write_deals (record at { before = at.before ++ d ∷ [] }) ds

-- `it_deal != _deals_wait_to_pay.begin();` compares and does not assign, so the erasing loop begins at
-- the end.
pub save_deals : DreamHero → DreamHero
unfolding write_deals erase_complete
save_deals h =
    let at = write_deals (record { before = []; rest = h.deals_wait_to_pay }) h.deals_wait_to_pay in
    record h { deals_wait_to_pay = at.before ++ erase_complete at.rest }
