-- ===== src/Hero/Deals/Progress.antt =====
-- What `addDealPay` of gameserver/DreamHero.cpp leaves alone.
use dream_heroes.Base.{Bool-cases, Bytes, Option, inl, inr, none, refl, some}
use dream_heroes.Base.Int.{pos, ℤ, ◌==ℤ◌}
use dream_heroes.Base.Map.{find, int_key}
use dream_heroes.Config.{Env, GameConfig, GoldShop, get_gold_shop_config_info}
use dream_heroes.Error.{error_no}
use dream_heroes.Hero.{
  DealStatusType, DealWaitToPay, DreamHero, complete, failed, wait_prepare_to_pay,
  wait_prepare_to_verify, wait_to_pay,
}
use dream_heroes.Hero.Deals.{
  RechargeRatting, add_deal_pay, credit, pay_by_type, pay_deal, pay_order, pay_product, pay_run,
  set_deal,
}
use dream_heroes.Hero.Progress.{Keeps}

pay_by_type-Keeps :
    (env : Env) (ratting : RechargeRatting) (config : GoldShop) (h : DreamHero) (order : ℤ)
    (entry : DealWaitToPay) (t : DealStatusType)
    → Keeps h (pay_by_type env ratting config h order entry t).0
unfolding pay_by_type credit set_deal
pay_by_type-Keeps env ratting config h order entry wait_to_pay = (refl, refl)
pay_by_type-Keeps env ratting config h order entry wait_prepare_to_pay = (refl, refl)
pay_by_type-Keeps env ratting config h order entry complete = (refl, refl)
pay_by_type-Keeps env ratting config h order entry wait_prepare_to_verify = (refl, refl)
pay_by_type-Keeps env ratting config h order entry failed = (refl, refl)

pay_deal-Keeps :
    (env : Env) (ratting : RechargeRatting) (config : GoldShop) (h : DreamHero) (status order : ℤ)
    (entry : DealWaitToPay)
    → Keeps h (pay_deal env ratting config h status order entry).0
unfolding pay_deal set_deal
pay_deal-Keeps env ratting config h status order entry = elim (Bool-cases (status ==ℤ pos 0)) [
  | inl e ↦ rw e (pay_by_type-Keeps env ratting config h order entry entry.deal_type)
  | inr e ↦ rw e (refl, refl)
]

pay_order-Keeps :
    (env : Env) (ratting : RechargeRatting) (config : GoldShop) (h : DreamHero) (status order : ℤ)
    (o : Option DealWaitToPay)
    → Keeps h (pay_order env ratting config h status order o).0
unfolding pay_order
pay_order-Keeps env ratting config h status order none = (refl, refl)
pay_order-Keeps env ratting config h status order (some entry) =
    pay_deal-Keeps env ratting config h status order entry

pay_product-Keeps :
    (env : Env) (ratting : RechargeRatting) (h : DreamHero) (status order : ℤ) (o : Option GoldShop)
    → Keeps h (pay_product env ratting h status order o).0
unfolding pay_product
pay_product-Keeps env ratting h status order none = (refl, refl)
pay_product-Keeps env ratting h status order (some config) =
    pay_order-Keeps env ratting config h status order (find order h.deals_wait_to_pay)

pub add_deal_pay-Keeps :
    (c : GameConfig) (env : Env) (ratting : RechargeRatting) (h : DreamHero) (key : Bytes)
    (status order : ℤ)
    → Keeps h (add_deal_pay c env ratting h key status order error_no).0
unfolding add_deal_pay pay_run
add_deal_pay-Keeps c env ratting h key status order =
    pay_product-Keeps env ratting h status order (get_gold_shop_config_info c h.channel key)
