-- ===== src/Promotions/Board/Started.antt =====
-- `init` of the manager: the promotions that it keeps add what the fields have.
use dream_heroes.Base.{
  All, Bool-cases, List, Option, [], ap, false, inl, inr, none, refl, some, ◌++◌, ◌>>=◌, ◌>>=◌, ◌∙◌,
  ◌∷◌, ◌≡◌,
}
use dream_heroes.Base.Int.{int_laws, leb_ℤ, ltb_ℤ, neg_part, pos, pos_part, ℤ, ◌+ℤ◌, ◌-ℤ◌}
use dream_heroes.Promotions.Board.{calls, init_all, init_by, init_promotion, new_promotion}
use dream_heroes.Promotions.Board.Sums.{
  Shifts, Shifts-new, Shifts-refl, ShiftsTo, cheap_total, ratting_total,
}
use dream_heroes.Promotions.Passing.{add_timer, apply, day_pass}
use dream_heroes.Promotions.Passing.Books.{
  MovesTo, apply-MovesTo, day_pass-MovesTo, is_running, settled,
}
use dream_heroes.Promotions.Passing.Timers.{
  FitTo, Fits, IsFit, apply-FitTo, day_pass-FitTo, none-Fits,
}
use dream_heroes.Promotions.Types.{
  Clock, PromotionTimer, ShopSalesPromotionType, ShopState, TimeEventType, TimeShopPromotion,
  TimeShopSalesPromotionConfig, call_apply, time_normal, time_open_server_offset_time, time_week,
  wait,
}

-- A new promotion that has moved comes alone.
alone :
    (s : ShopState) (p : TimeShopPromotion) (r : Option (ShopState × TimeShopPromotion))
    → is_running p.type ≡ false
    → MovesTo s p r
    → FitTo r
    → ShiftsTo s [] (r >>= λ (s', p'). some (s', p' ∷ []))
alone s p none h m f = tt
alone s p (some (s', p')) h m f = Shifts-new h m f (Shifts-refl tt)

first_timer :
    (t : TimeEventType) (type : ShopSalesPromotionType) (delay : ℤ) (l : List PromotionTimer)
    → t ≡ time_normal
    → type ≡ wait
    → l ≡ []
    → Fits t type (l ++ (record { call = call_apply; delay = delay }) ∷ [])
first_timer t type delay l e h k = rw (e, h, k) refl

init_by-ShiftsTo :
    (c : Clock) (t : TimeEventType) (s : ShopState) (p : TimeShopPromotion)
    → p.config.time.type ≡ t
    → p.type ≡ wait
    → p.timers ≡ []
    → ShiftsTo s [] (init_by c t s p)
unfolding init_by is_running add_timer
init_by-ShiftsTo c time_normal s p e h l =
    elim (Bool-cases (ltb_ℤ p.config.time.end_time p.config.time.show_time)) [
      | inl refused ↦ rw refused (Shifts-refl tt)
      | inr kept ↦ elim (Bool-cases (leb_ℤ (p.config.time.show_time -ℤ c.server_time) (pos 0))) [
        | inl now ↦
            rw (kept, now)
              (alone s p (apply (day_pass calls c) c s p) (rw h refl)
                (apply-MovesTo (day_pass calls c) c (day_pass-MovesTo calls c) s p h)
                (apply-FitTo (day_pass calls c) c (day_pass-FitTo calls c) s p l))
        | inr later ↦
            rw (kept, later)
              (Shifts-new (ap is_running h) (settled p _ s refl refl)
                (first_timer p.config.time.type p.type _ _ e h l) (Shifts-refl tt))
      ]
    ]
init_by-ShiftsTo c time_week s p e h l =
    alone s p (day_pass calls c s p) (ap is_running h) (day_pass-MovesTo calls c s p)
      (day_pass-FitTo calls c s p (none-Fits _ _ _ l))
init_by-ShiftsTo c time_open_server_offset_time s p e h l =
    alone s p (day_pass calls c s p) (ap is_running h) (day_pass-MovesTo calls c s p)
      (day_pass-FitTo calls c s p (none-Fits _ _ _ l))

cheap_total-append :
    (ps qs : List TimeShopPromotion) (grid : ℤ)
    → cheap_total (ps ++ qs) grid ≡ cheap_total ps grid +ℤ cheap_total qs grid
unfolding cheap_total
cheap_total-append [] qs grid = omega int_laws
cheap_total-append (p ∷ ps) qs grid =
    let ih = cheap_total-append ps qs grid in omega (int_laws, ap pos_part ih, ap neg_part ih)

ratting_total-append :
    (ps qs : List TimeShopPromotion)
    → ratting_total (ps ++ qs) ≡ ratting_total ps +ℤ ratting_total qs
unfolding ratting_total
ratting_total-append [] qs = omega int_laws
ratting_total-append (p ∷ ps) qs =
    let ih = ratting_total-append ps qs in omega (int_laws, ap pos_part ih, ap neg_part ih)

All-append : (ps qs : List TimeShopPromotion) → All IsFit ps → All IsFit qs → All IsFit (ps ++ qs)
All-append [] qs f g = g
All-append (p ∷ ps) qs f g = (f.0, All-append ps qs f.1 g)

then_more :
    (a b c x y z : ℤ) → b +ℤ pos 0 ≡ a +ℤ x → c +ℤ pos 0 ≡ b +ℤ y → z ≡ x +ℤ y → c +ℤ pos 0 ≡ a +ℤ z
then_more a b c x y z h k e = omega (
  int_laws,
  ap pos_part e,
  ap neg_part e,
  ap pos_part h,
  ap neg_part h,
  ap pos_part k,
  ap neg_part k,
)

Shifts-more :
    {s s1 s2 : ShopState} {ps qs : List TimeShopPromotion}
    → Shifts s [] s1 ps
    → Shifts s1 [] s2 qs
    → Shifts s [] s2 (ps ++ qs)
unfolding cheap_total ratting_total
Shifts-more {s} {s1} {s2} {ps} {qs} m n = record {
  cheap_gold = λ grid.
      then_more _ _ _ _ _ _ (m.cheap_gold grid) (n.cheap_gold grid) (cheap_total-append ps qs grid);
  gold = then_more _ _ _ _ _ _ m.gold n.gold (ratting_total-append ps qs);
  all = n.all ∙ m.all;
  jewel = n.jewel ∙ m.jewel;
  fit = All-append ps qs m.fit n.fit;
}

ShiftsTo-more :
    (s : ShopState) (r : Option (ShopState × List TimeShopPromotion))
    (k : ShopState → Option (ShopState × List TimeShopPromotion))
    → ShiftsTo s [] r
    → ((s1 : ShopState) → ShiftsTo s1 [] (k s1))
    → ShiftsTo s [] (r >>= λ (s1, new). k s1 >>= λ (s2, more). some (s2, new ++ more))
ShiftsTo-more s none k m n = tt
ShiftsTo-more s (some (s1, new)) k m n = last (k s1) (n s1)
  where
    last :
        (r : Option (ShopState × List TimeShopPromotion))
        → ShiftsTo s1 [] r
        → ShiftsTo s [] (r >>= λ (s2, more). some (s2, new ++ more))
    last none q = tt
    last (some (s2, more)) q = Shifts-more m q

pub init_all-ShiftsTo :
    (c : Clock) (s : ShopState) (configs : List TimeShopSalesPromotionConfig)
    → ShiftsTo s [] (init_all c s configs)
unfolding init_all init_promotion new_promotion
init_all-ShiftsTo c s [] = Shifts-refl tt
init_all-ShiftsTo c s (config ∷ configs) =
    ShiftsTo-more s (init_promotion c s config) (λ s1. init_all c s1 configs)
      (init_by-ShiftsTo c config.time.type s (new_promotion config) refl refl refl)
      λ s1. init_all-ShiftsTo c s1 configs
