-- ===== src/Hero/Deals/Closed.antt =====
-- Deals that are completed or have failed, through whatever happens to the deals of a hero.
use dream_heroes.Base.{
  Bool, Bool-cases, Bytes, List, Option, Option-cases, [], ap, arith, false, if◌then◌else◌, inl,
  inr, none, refl, some, subst, sym, true, ◌∙◌, ◌∷◌, ◌≡◌, ◌≢◌, ◌⊎◌,
}
use dream_heroes.Base.Int.{==ℤ_iff, pos, ℤ, ◌==ℤ◌}
use dream_heroes.Base.Map.{assign, find, find-assign_ne, find-assign_self, int_key}
use dream_heroes.Config.{Env, GameConfig, GoldShop, get_gold_shop_config_info}
use dream_heroes.Error.{GameError, error_no, is_no}
use dream_heroes.Hero.{
  DealStatusType, DealWaitToPay, DreamHero, complete, failed, wait_prepare_to_pay, wait_to_pay,
}
use dream_heroes.Hero.Deals.{
  RechargeRatting, add_deal_pay, add_deal_wait_to_pay, credit, is_wait_to_pay, pay_by_type,
  pay_deal, pay_order, pay_product, pay_run, req_crearte_deal, set_deal,
}
use dream_heroes.Hero.Deals.Kept.{crearte_deal_keeps}

-- The deal of this order gives nothing any more: it is completed, or it has failed.
abbrev pub IsClosed : Option DealWaitToPay → Type 0
IsClosed none = ⊥
IsClosed (some entry) = (entry.deal_type ≡ complete) ⊎ (entry.deal_type ≡ failed)

-- What happens to the deals of a hero: a report on an order of any number, a request for a new deal, and a new
-- order of the platform.
pub data DealEvent : Type 0 where
  reported :
      (c : GameConfig) (env : Env) (ratting : RechargeRatting) (key_code : Bytes)
      (status order_id : ℤ) (error : GameError)
      → DealEvent
  asked : (key_code : Bytes) (channel : ℤ) → DealEvent
  ordered : (key_code : Bytes) (status price order_id : ℤ) (error : GameError) → DealEvent

pub after_event : DealEvent → DreamHero → DreamHero
after_event (reported c env ratting key_code status order_id error) h =
    (add_deal_pay c env ratting h key_code status order_id error).0
after_event (asked key_code channel) h = (req_crearte_deal h key_code channel).0
after_event (ordered key_code status price order_id error) h =
    (add_deal_wait_to_pay h key_code status price order_id error).0

pub after_events : List DealEvent → DreamHero → DreamHero
unfolding after_event
after_events [] h = h
after_events (e ∷ es) h = after_events es (after_event e h)

-- A deal of any order that is completed or fails.
set_deal-IsClosed :
    (h : DreamHero) (id order_id : ℤ) (entry : DealWaitToPay) (t : DealStatusType)
    → (t ≡ complete) ⊎ (t ≡ failed)
    → IsClosed (find id h.deals_wait_to_pay)
    → IsClosed (find id (set_deal h order_id entry t).deals_wait_to_pay)
unfolding set_deal
set_deal-IsClosed h id order_id entry t k closed = elim (Bool-cases (id ==ℤ order_id)) [
  | inl hit ↦
      let same = (==ℤ_iff id order_id).0 hit in
      subst IsClosed
        (sym (
          ap (λ i. find i (assign order_id (record entry { deal_type = t }) h.deals_wait_to_pay))
            same
          ∙ find-assign_self order_id (record entry { deal_type = t }) h.deals_wait_to_pay))
        k
  | inr missed ↦
      subst IsClosed
        (sym (
          find-assign_ne order_id id (record entry { deal_type = t }) h.deals_wait_to_pay
            (ground (arith, ==ℤ_iff id order_id, missed))))
        closed
]

module _ (env : Env) (r : RechargeRatting) (h : DreamHero) (id : ℤ)
    (closed : IsClosed (find id h.deals_wait_to_pay)) where
  by_type-IsClosed :
      (config : GoldShop) (order_id : ℤ) (entry : DealWaitToPay) (t : DealStatusType)
      → IsClosed (find id (pay_by_type env r config h order_id entry t).0.deals_wait_to_pay)
  unfolding pay_by_type credit
  by_type-IsClosed config order_id entry wait_to_pay =
      set_deal-IsClosed h id order_id entry complete (inl refl) closed
  by_type-IsClosed config order_id entry wait_prepare_to_pay =
      set_deal-IsClosed h id order_id entry complete (inl refl) closed
  by_type-IsClosed config order_id entry t = closed

  by_order-IsClosed :
      (config : GoldShop) (status order_id : ℤ) (o : Option DealWaitToPay)
      → IsClosed (find id (pay_order env r config h status order_id o).0.deals_wait_to_pay)
  unfolding pay_order pay_deal
  by_order-IsClosed config status order_id none = closed
  by_order-IsClosed config status order_id (some entry) = elim (Bool-cases (status ==ℤ pos 0)) [
    | inl paid ↦ rw paid (by_type-IsClosed config order_id entry entry.deal_type)
    | inr unpaid ↦ rw unpaid (set_deal-IsClosed h id order_id entry failed (inr refl) closed)
  ]

  by_product-IsClosed :
      (status order_id : ℤ) (o : Option GoldShop)
      → IsClosed (find id (pay_product env r h status order_id o).0.deals_wait_to_pay)
  unfolding pay_product
  by_product-IsClosed status order_id none = closed
  by_product-IsClosed status order_id (some config) =
      by_order-IsClosed config status order_id (find order_id h.deals_wait_to_pay)

reported-IsClosed :
    (c : GameConfig) (env : Env) (r : RechargeRatting) (h : DreamHero) (key : Bytes)
    (status order_id : ℤ) (error : GameError) (id : ℤ)
    → IsClosed (find id h.deals_wait_to_pay)
    → IsClosed (find id (add_deal_pay c env r h key status order_id error).0.deals_wait_to_pay)
unfolding add_deal_pay pay_run
reported-IsClosed c env r h key status order_id error_no id k =
    by_product-IsClosed env r h id k status order_id (get_gold_shop_config_info c h.channel key)
reported-IsClosed c env r h key status order_id error id k = k

not_waiting :
    (entry : DealWaitToPay) → IsClosed (some entry) → is_wait_to_pay entry.deal_type ≡ false
unfolding is_wait_to_pay
not_waiting entry (inl done) = rw done refl
not_waiting entry (inr dead) = rw dead refl

asked-IsClosed :
    (h : DreamHero) (key_code : Bytes) (channel id : ℤ)
    → IsClosed (find id h.deals_wait_to_pay)
    → IsClosed (find id (req_crearte_deal h key_code channel).0.deals_wait_to_pay)
asked-IsClosed h key channel id k = elim (Option-cases (find id h.deals_wait_to_pay)) [
  | inl gone ↦ absurd (subst IsClosed gone k)
  | inr (entry, known) ↦
      let closed = subst IsClosed known k in
      subst IsClosed
        (sym (crearte_deal_keeps h key channel id entry known (not_waiting entry closed)).0) closed
]

either_hero :
    (b : Bool) (h1 h2 : DreamHero) (id : ℤ)
    → IsClosed (find id h1.deals_wait_to_pay)
    → IsClosed (find id h2.deals_wait_to_pay)
    → IsClosed (find id (if b then h1 else h2).deals_wait_to_pay)
either_hero true h1 h2 id k l = k
either_hero false h1 h2 id k l = l

ordered-IsClosed :
    (h : DreamHero) (key_code : Bytes) (status price order_id : ℤ) (error : GameError) (id : ℤ)
    → IsClosed (find id h.deals_wait_to_pay)
    → IsClosed
        (find id (add_deal_wait_to_pay h key_code status price order_id error).0.deals_wait_to_pay)
unfolding add_deal_wait_to_pay
ordered-IsClosed h key status price order_id error id k =
    elim (Option-cases (find order_id h.deals_wait_to_pay)) [
      | inr (entry, known) ↦ rw known (either_hero (is_no error) h h id k k)
      | inl new ↦
          let apart : id ≢ order_id =
            λ same. subst IsClosed (ap (λ i. find i h.deals_wait_to_pay) same ∙ new) k in
          rw new (
            either_hero (is_no error) _ h id
              (subst IsClosed (sym (find-assign_ne order_id id _ h.deals_wait_to_pay apart)) k) k)
    ]

after_event-IsClosed :
    (e : DealEvent) (h : DreamHero) (id : ℤ)
    → IsClosed (find id h.deals_wait_to_pay)
    → IsClosed (find id (after_event e h).deals_wait_to_pay)
unfolding after_event
after_event-IsClosed (reported c env r key status order_id error) h id k =
    reported-IsClosed c env r h key status order_id error id k
after_event-IsClosed (asked key channel) h id k = asked-IsClosed h key channel id k
after_event-IsClosed (ordered key status price order_id error) h id k =
    ordered-IsClosed h key status price order_id error id k

pub after_events-IsClosed :
    (es : List DealEvent) (h : DreamHero) (id : ℤ)
    → IsClosed (find id h.deals_wait_to_pay)
    → IsClosed (find id (after_events es h).deals_wait_to_pay)
unfolding after_events
after_events-IsClosed [] h id k = k
after_events-IsClosed (e ∷ es) h id k =
    after_events-IsClosed es (after_event e h) id (after_event-IsClosed e h id k)
