-- ===== src/Promotions/Board/Fired.antt =====
-- A timer of a promotion fires: the sums stay equal to the fields.
use dream_heroes.Base.{
  All, List, Option, [], none, refl, some, suc, zero, ℕ, ◌>>=◌, ◌>>=◌, ◌∷◌, ◌≡◌,
}
use dream_heroes.Promotions.Board.{calls, fire, fire_at, fire_call}
use dream_heroes.Promotions.Board.Sums.{Shifts-cons, Shifts-refl, ShiftsTo, ShiftsTo-bind}
use dream_heroes.Promotions.Passing.{day_pass}
use dream_heroes.Promotions.Passing.Books.{
  Moves-refl, MovesTo, MovesTo-trans, apply-MovesTo, day_pass-MovesTo, excute-MovesTo, exit-Moves,
  is_running, settled,
}
use dream_heroes.Promotions.Passing.Timers.{
  FitTo, Fits, IsFit, apply-FitTo, day_pass-FitTo, excute-FitTo, exit-IsFit, expected,
}
use dream_heroes.Promotions.Types.{
  Clock, PromotionCall, PromotionTimer, ShopSalesPromotionType, ShopState, TimeEventType,
  TimeShopPromotion, apply_, call_apply, call_excute, call_exit, destroy, excute_, time_normal,
  time_open_server_offset_time, time_week, wait,
}

-- A timer that fires in the state that waits for it.
fire_call-MovesTo :
    (c : Clock) (call : PromotionCall) (t : ShopSalesPromotionType) (s : ShopState)
    (p : TimeShopPromotion)
    → p.type ≡ t
    → expected t ≡ some call
    → MovesTo s p (fire_call c call s p)
unfolding fire_call is_running
fire_call-MovesTo c call_apply wait s p h e =
    apply-MovesTo (day_pass calls c) c (day_pass-MovesTo calls c) s p h
fire_call-MovesTo c call_excute apply_ s p h e =
    excute-MovesTo (day_pass calls c) c (day_pass-MovesTo calls c) s p (rw h refl)
fire_call-MovesTo c call_exit excute_ s p h e = exit-Moves s p h
fire_call-MovesTo c call_apply apply_ s p h e = cc
fire_call-MovesTo c call_apply excute_ s p h e = cc
fire_call-MovesTo c call_apply destroy s p h e = cc
fire_call-MovesTo c call_excute wait s p h e = cc
fire_call-MovesTo c call_excute excute_ s p h e = cc
fire_call-MovesTo c call_excute destroy s p h e = cc
fire_call-MovesTo c call_exit wait s p h e = cc
fire_call-MovesTo c call_exit apply_ s p h e = cc
fire_call-MovesTo c call_exit destroy s p h e = cc

fire_call-FitTo :
    (c : Clock) (call : PromotionCall) (s : ShopState) (p : TimeShopPromotion)
    → p.timers ≡ []
    → FitTo (fire_call c call s p)
unfolding fire_call
fire_call-FitTo c call_apply s p h = apply-FitTo (day_pass calls c) c (day_pass-FitTo calls c) s p h
fire_call-FitTo c call_excute s p h =
    excute-FitTo (day_pass calls c) c (day_pass-FitTo calls c) s p h
fire_call-FitTo c call_exit s p h = exit-IsFit s p h

-- What the one timer of a promotion says of it.
one_timer :
    (t : TimeEventType) (type : ShopSalesPromotionType) (x : PromotionTimer)
    (l : List PromotionTimer)
    → Fits t type (x ∷ l)
    → (l ≡ []) × (expected type ≡ some x.call)
one_timer time_normal type x [] f = (refl, f)
one_timer time_normal type x (y ∷ l) f = absurd f
one_timer time_week type x l f = absurd f
one_timer time_open_server_offset_time type x l f = absurd f

fire-MovesTo :
    (c : Clock) (l : List PromotionTimer) (s : ShopState) (p : TimeShopPromotion)
    → Fits p.config.time.type p.type l
    → MovesTo s p (fire c l s p) × FitTo (fire c l s p)
unfolding fire
fire-MovesTo c [] s p f = (tt, tt)
fire-MovesTo c (x ∷ l) s p f =
    let (empty, e) = one_timer p.config.time.type p.type x l f in
    let p1 = record p { timers = l } in
    (
      MovesTo-trans (fire_call c x.call s p1) (settled p p1 s refl refl)
          (fire_call-MovesTo c x.call p.type s p1 refl e),
      fire_call-FitTo c x.call s p1 empty,
    )

ShiftsTo-later :
    (s : ShopState) (p : TimeShopPromotion) (ps : List TimeShopPromotion)
    (r : Option (ShopState × List TimeShopPromotion))
    → IsFit p
    → ShiftsTo s ps r
    → ShiftsTo s (p ∷ ps) (r >>= λ (s', ps'). some (s', p ∷ ps'))
ShiftsTo-later s p ps none f n = tt
ShiftsTo-later s p ps (some (s', ps')) f n = Shifts-cons Moves-refl f n

-- So does a timer, whichever fires.
pub fire_at-ShiftsTo :
    (c : Clock) (i : ℕ) (s : ShopState) (ps : List TimeShopPromotion)
    → All IsFit ps
    → ShiftsTo s ps (fire_at c i s ps)
unfolding fire_at
fire_at-ShiftsTo c zero s [] f = tt
fire_at-ShiftsTo c (suc i) s [] f = tt
fire_at-ShiftsTo c zero s (p ∷ ps) f =
    let (m, fits) = fire-MovesTo c p.timers s p f.0 in
    ShiftsTo-bind s p (p ∷ ps) (fire c p.timers s p) _ m fits
      λ s1 p' n f'. Shifts-cons n f' (Shifts-refl f.1)
fire_at-ShiftsTo c (suc i) s (p ∷ ps) f =
    ShiftsTo-later s p ps (fire_at c i s ps) f.0 (fire_at-ShiftsTo c i s ps f.1)
