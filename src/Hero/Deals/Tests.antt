-- ===== src/Hero/Deals/Tests.antt =====
-- Deals at the sample hero.
use dream_heroes.Base.{List, [], bytes_eq, refl, some, ◌∷◌, ◌≡◌, ◌≢◌}
use dream_heroes.Base.Int.{pos}
use dream_heroes.Base.Map.{assign, find, int_key}
use dream_heroes.Config.{get_gold_shop_config_info}
use dream_heroes.Error.{error_no}
use dream_heroes.Hero.{complete}
use dream_heroes.Hero.Deals.{
  RechargeRatting, add_deal_pay, pay_by_type, pay_deal, pay_order, pay_product, pay_run,
}
use dream_heroes.Hero.Deals.Closed.{DealEvent, after_events, asked, reported}
use dream_heroes.Hero.Deals.Once.{PayOutcome, add_deal_pay_once, add_deal_pay_outcome}
use dream_heroes.Tests.{sample_config, sample_deal, sample_env, sample_hero}

abbrev no_ratting : RechargeRatting
no_ratting = record { gold_ratting = pos 0; jewel_ratting = pos 0 }

add_deal_pay_outcome_example :
    let (h', ack) =
      add_deal_pay sample_config sample_env no_ratting sample_hero
        (97 ∷ [])
        (pos 0)
        (pos 900)
        error_no in
    PayOutcome sample_env no_ratting sample_hero
      (pos 900)
      h'
      ack.error
      (get_gold_shop_config_info sample_config sample_hero.channel (97 ∷ []))
add_deal_pay_outcome_example =
    add_deal_pay_outcome sample_config sample_env no_ratting sample_hero (97 ∷ []) (pos 0) (pos 900)

paid :
    (add_deal_pay sample_config sample_env no_ratting sample_hero
      (97 ∷ [])
      (pos 0)
      (pos 900)
      error_no).1.error
    ≡ error_no
unfolding add_deal_pay pay_run pay_product pay_order pay_deal pay_by_type get_gold_shop_config_info
    bytes_eq find assign
paid = refl

-- A report with a status that fails the deal, and a request for a new one.
abbrev later_events : List DealEvent
later_events =
    reported sample_config sample_env no_ratting (97 ∷ []) (pos 3) (pos 900) error_no
    ∷ asked (97 ∷ []) (pos 0)
    ∷ []

add_deal_pay_once_example :
    let later =
      after_events later_events
        (add_deal_pay sample_config sample_env no_ratting sample_hero
          (97 ∷ [])
          (pos 0)
          (pos 900)
          error_no).0 in
    let (again, ack) =
      add_deal_pay sample_config sample_env no_ratting later (97 ∷ []) (pos 0) (pos 900) error_no in
    (ack.error ≢ error_no) × (again.info ≡ later.info)
add_deal_pay_once_example =
    add_deal_pay_once sample_config sample_config sample_env sample_env no_ratting no_ratting
      sample_hero (97 ∷ []) (97 ∷ []) (pos 0) (pos 0) (pos 900) error_no later_events paid

known : find (pos 901) sample_hero.deals_wait_to_pay ≡ some (sample_deal complete)
unfolding find
known = refl
