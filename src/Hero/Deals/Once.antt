-- ===== src/Hero/Deals/Once.antt =====
-- `addDealPay` of gameserver/DreamHero.cpp: what a payment credits.
use dream_heroes.Base.{
  Bool, Bytes, List, Option, false, if◌then◌else◌, inl, inr, none, refl, some, true, ◌≡◌, ◌≢◌, ◌⊎◌,
}
use dream_heroes.Base.Int.{pos, ℤ, ◌+ℤ◌, ◌==ℤ◌}
use dream_heroes.Base.Map.{find, find-assign_self, int_key}
use dream_heroes.Config.{Env, GameConfig, GoldShop, get_gold_shop_config_info}
use dream_heroes.Error.{GameError, error_no, unknow}
use dream_heroes.Hero.{
  DealStatusType, DealWaitToPay, DreamHero, complete, failed, wait_prepare_to_pay, wait_to_pay,
}
use dream_heroes.Hero.Deals.{
  RechargeRatting, add_deal_pay, pay_by_type, pay_deal, pay_order, pay_product, pay_run, set_deal,
}
use dream_heroes.Hero.Deals.Closed.{DealEvent, IsClosed, after_events, after_events-IsClosed}

-- The deal of this order is completed.
abbrev IsCompleted : Option DealWaitToPay → Type 0
IsCompleted none = ⊥
IsCompleted (some entry) = entry.deal_type ≡ complete

-- What a payment has done, where the product is configured and where it is not.
abbrev pub PayOutcome :
    Env → RechargeRatting → DreamHero → ℤ → DreamHero → GameError → Option GoldShop → Type 0
PayOutcome env ratting h order_id h' error none = (error ≢ error_no) × (h' ≡ h)
PayOutcome env ratting h order_id h' error (some config) =
    ((error ≡ error_no)
      × (h'.gold ≡ h.gold +ℤ env.scaled config.gold ratting.gold_ratting)
      × (h'.jewel ≡ h.jewel +ℤ env.scaled config.jewel ratting.jewel_ratting)
      × IsCompleted (find order_id h'.deals_wait_to_pay))
    ⊎ ((error ≢ error_no) × (h'.info ≡ h.info))

set_deal-IsCompleted :
    (h : DreamHero) (order_id : ℤ) (entry : DealWaitToPay)
    → IsCompleted (find order_id (set_deal h order_id entry complete).deals_wait_to_pay)
unfolding set_deal
set_deal-IsCompleted h order_id entry =
    rw (find-assign_self order_id (record entry { deal_type = complete }) h.deals_wait_to_pay) refl

pay_by_type-PayOutcome :
    (env : Env) (r : RechargeRatting) (config : GoldShop) (h : DreamHero) (id : ℤ)
    (entry : DealWaitToPay) (t : DealStatusType)
    → let (h', error) = pay_by_type env r config h id entry t in
      PayOutcome env r h id h' error (some config)
unfolding pay_by_type set_deal
pay_by_type-PayOutcome env r config h id entry wait_to_pay =
    inl (refl, refl, refl, set_deal-IsCompleted h id entry)
pay_by_type-PayOutcome env r config h id entry wait_prepare_to_pay =
    inl (refl, refl, refl, set_deal-IsCompleted h id entry)
pay_by_type-PayOutcome env r config h id entry t = inr (λ q. cc, refl)

pay_deal-PayOutcome :
    (env : Env) (r : RechargeRatting) (config : GoldShop) (h : DreamHero) (status id : ℤ)
    (entry : DealWaitToPay) (b : Bool)
    → (status ==ℤ pos 0) ≡ b
    → let (h', error) = pay_deal env r config h status id entry in
      PayOutcome env r h id h' error (some config)
unfolding pay_deal
pay_deal-PayOutcome env r config h status id entry true e =
    rw (e, pay_deal) (pay_by_type-PayOutcome env r config h id entry entry.deal_type)
pay_deal-PayOutcome env r config h status id entry false e = rw (e, pay_deal) (inr (λ q. cc, refl))

pay_found :
    (env : Env) (r : RechargeRatting) (config : GoldShop) (h : DreamHero) (status id : ℤ)
    (o : Option DealWaitToPay)
    → let (h', error) = pay_order env r config h status id o in
      PayOutcome env r h id h' error (some config)
unfolding pay_order
pay_found env r config h status id none = inr (λ q. cc, refl)
pay_found env r config h status id (some entry) =
    pay_deal-PayOutcome env r config h status id entry (status ==ℤ pos 0) refl

pay_known :
    (env : Env) (r : RechargeRatting) (h : DreamHero) (status id : ℤ) (o : Option GoldShop)
    → let (h', error) = pay_product env r h status id o in PayOutcome env r h id h' error o
unfolding pay_product
pay_known env r h status id none = (λ q. cc, refl)
pay_known env r h status id (some config) =
    pay_found env r config h status id (find id h.deals_wait_to_pay)

-- A payment that the platform reports without an error is either credited, with exactly the gold and the
-- jewels of the product at the current ratings, and its deal is completed, or is answered with an error and
-- changes no datum of the hero. A product that is not configured is refused.
pub add_deal_pay_outcome :
    (c : GameConfig) (env : Env) (ratting : RechargeRatting) (h : DreamHero) (key_code : Bytes)
    (status order_id : ℤ)
    → let (h', ack) = add_deal_pay c env ratting h key_code status order_id error_no in
      PayOutcome env ratting h order_id h' ack.error
        (get_gold_shop_config_info c h.channel key_code)
unfolding add_deal_pay pay_run
add_deal_pay_outcome c env r h key_code status id =
    pay_known env r h status id (get_gold_shop_config_info c h.channel key_code)

completed-IsClosed : (o : Option DealWaitToPay) → IsCompleted o → IsClosed o
completed-IsClosed none k = elim k [ ]
completed-IsClosed (some entry) k = inl k

-- A closed deal gives nothing, whatever else is reported.
closed_gives_nothing :
    (env : Env) (r : RechargeRatting) (config : GoldShop) (h : DreamHero) (status id : ℤ)
    (o : Option DealWaitToPay)
    → IsClosed o
    → let (h', error) = pay_order env r config h status id o in
      (error ≢ error_no) × (h'.info ≡ h.info)
unfolding pay_order pay_deal pay_by_type set_deal
closed_gives_nothing env r config h status id none k = elim k [ ]
closed_gives_nothing env r config h status id (some entry) k = by_status (status ==ℤ pos 0) k
  where
    by_status :
        (b : Bool)
        → IsClosed (some entry)
        → let p =
            if b
            then pay_by_type env r config h id entry entry.deal_type
            else (set_deal h id entry failed, unknow) in
          (p.1 ≢ error_no) × (p.0.info ≡ h.info)
    by_status true (inl done) = rw done ((λ q. cc), refl)
    by_status true (inr dead) = rw dead ((λ q. cc), refl)
    by_status false k = ((λ q. cc), refl)

again_product :
    (env : Env) (r : RechargeRatting) (h : DreamHero) (status id : ℤ) (o : Option GoldShop)
    → IsClosed (find id h.deals_wait_to_pay)
    → let (h', error) = pay_product env r h status id o in (error ≢ error_no) × (h'.info ≡ h.info)
unfolding pay_product
again_product env r h status id none k = ((λ q. cc), refl)
again_product env r h status id (some config) k =
    closed_gives_nothing env r config h status id (find id h.deals_wait_to_pay) k

again_run :
    (c : GameConfig) (env : Env) (r : RechargeRatting) (h : DreamHero) (key : Bytes) (status id : ℤ)
    (error : GameError)
    → IsClosed (find id h.deals_wait_to_pay)
    → let (h', ack) = add_deal_pay c env r h key status id error in
      (ack.error ≢ error_no) × (h'.info ≡ h.info)
unfolding add_deal_pay pay_run
again_run c env r h key status id error_no k =
    again_product env r h status id (get_gold_shop_config_info c h.channel key) k
again_run c env r h key status id error k = ((λ q. cc), refl)

credited :
    (env : Env) (r : RechargeRatting) (h : DreamHero) (id : ℤ) (h' : DreamHero) (error : GameError)
    (o : Option GoldShop)
    → PayOutcome env r h id h' error o
    → error ≡ error_no
    → IsCompleted (find id h'.deals_wait_to_pay)
credited env r h id h' error none p e = absurd (p.0 e)
credited env r h id h' error (some config) (inl p) e = p.3
credited env r h id h' error (some config) (inr p) e = absurd (p.0 e)

-- Once a payment of an order has been credited, whatever reports on any orders, requests for deals and new orders
-- come after it, every later report on the same order, with any product, status, error, ratings and configuration,
-- is answered with an error and changes no datum of the hero: an order is never credited twice.
pub add_deal_pay_once :
    (c c' : GameConfig) (env env' : Env) (ratting ratting' : RechargeRatting) (h : DreamHero)
    (key_code key_code' : Bytes) (status status' order_id : ℤ) (error : GameError)
    (es : List DealEvent)
    → (add_deal_pay c env ratting h key_code status order_id error_no).1.error ≡ error_no
    → let later =
        after_events es (add_deal_pay c env ratting h key_code status order_id error_no).0 in
      let (h', ack) = add_deal_pay c' env' ratting' later key_code' status' order_id error in
      (ack.error ≢ error_no) × (h'.info ≡ later.info)
add_deal_pay_once c c' env env' r r' h key key' status status' id error es e =
    let (paid, ack) = add_deal_pay c env r h key status id error_no in
    let complete_deal =
      credited env r h id paid ack.error (get_gold_shop_config_info c h.channel key)
        (add_deal_pay_outcome c env r h key status id) e in
    again_run c' env' r' (after_events es paid) key' status' id error
      (after_events-IsClosed es paid id (completed-IsClosed _ complete_deal))
