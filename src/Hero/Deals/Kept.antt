-- ===== src/Hero/Deals/Kept.antt =====
-- The deals after `ReqCrearteDeal` and `SaveHero` of gameserver/DreamHero.cpp.
use dream_heroes.Base.{
  All, Bool, Bytes, [], arith, false, keep, not, refl, some, sym, true, ◌++◌, ◌∙◌, ◌∷◌, ◌≡◌,
}
use dream_heroes.Base.Int.{==ℤ_iff, ℤ}
use dream_heroes.Base.Map.{Map, find, int_key}
use dream_heroes.Hero.{DealWaitToPay, DreamHero}
use dream_heroes.Hero.Deals.{
  Cursor, erase_complete, give_up_deals, is_wait_to_pay, req_crearte_deal, save_deals, write_deals,
}
use mathlib.Core.List.{append-nil, append_assoc}

find-keep :
    (p : ℤ × DealWaitToPay → Bool) (k : ℤ) (m : Map ℤ DealWaitToPay) (v : DealWaitToPay)
    → find k m ≡ some v
    → p (k, v) ≡ true
    → find k (keep p m) ≡ some v
unfolding find
find-keep p k [] v e h = cc
find-keep p k ((j, w) ∷ m) v e h = ground (arith, ==ℤ_iff k j, find-keep p k m v)

keep-All :
    (p : ℤ × DealWaitToPay → Bool) (m : Map ℤ DealWaitToPay) → All (λ x. p x ≡ true) (keep p m)
keep-All p [] = tt
keep-All p (x ∷ m) = ground (arith, keep-All p m)

-- Asking for a new deal drops every deal that still waits for payment, and no other: a deal in any other
-- state is found as before.
pub crearte_deal_keeps :
    (h : DreamHero) (key_code : Bytes) (channel order_id : ℤ) (entry : DealWaitToPay)
    → find order_id h.deals_wait_to_pay ≡ some entry
    → is_wait_to_pay entry.deal_type ≡ false
    → let deals = (req_crearte_deal h key_code channel).0.deals_wait_to_pay in
      (find order_id deals ≡ some entry)
      × All (λ (e : ℤ × DealWaitToPay). not (is_wait_to_pay e.1.deal_type) ≡ true) deals
unfolding req_crearte_deal give_up_deals
crearte_deal_keeps h key_code channel order_id entry e w =
    (find-keep _ order_id h.deals_wait_to_pay entry e (rw w), keep-All _ h.deals_wait_to_pay)

write_deals-before :
    (at : Cursor) (ds : Map ℤ DealWaitToPay)
    → ((write_deals at ds).before ≡ at.before ++ ds) × ((write_deals at ds).rest ≡ [])
unfolding write_deals
write_deals-before at [] = (sym (append-nil at.before), refl)
write_deals-before at (d ∷ ds) =
    let ih = write_deals-before (record at { before = at.before ++ d ∷ [] }) ds in
    (ih.0 ∙ append_assoc at.before (d ∷ []) ds, ih.1)

-- Saving a hero drops no deal, not even a completed one: the loop that is to erase the completed deals
-- begins where the loop before it ended.
pub save_deals_drops_none : (h : DreamHero) → (save_deals h).deals_wait_to_pay ≡ h.deals_wait_to_pay
unfolding save_deals erase_complete
save_deals_drops_none h =
    let w =
      write_deals-before (record { before = []; rest = h.deals_wait_to_pay }) h.deals_wait_to_pay in
    rw (w.0, w.1) (append-nil h.deals_wait_to_pay)
