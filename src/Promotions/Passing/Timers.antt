-- ===== src/Promotions/Passing/Timers.antt =====
-- A promotion has at most the timer that its state waits for, and none unless its times are points of time.
use dream_heroes.Base.{
  Bool-cases, List, Option, [], ap, arith, inl, inr, keep, none, not, refl, some, suc, true, zero,
  ℕ, ◌>>=◌, ◌>>=◌, ◌∷◌, ◌≡◌, ◌≢◌,
}
use dream_heroes.Base.Int.{leb_ℤ, ltb_ℤ, pos, ◌-ℤ◌}
use dream_heroes.Promotions.Passing.{
  add_timer, apply, apply_next, base_apply, base_exit, begins, day_pass, ends, excute,
  excute_effect, excute_next, exit, is_exit, pass_apply, pass_excute, pass_wait, shows,
}
use dream_heroes.Promotions.Types.{
  Clock, EventTime, PromotionCall, PromotionTimer, ShopSalesPromotionType, ShopState, TimeEventType,
  TimeShopPromotion, apply_, call_apply, call_excute, call_exit, destroy, excute_, time_normal,
  time_open_server_offset_time, time_week, wait,
}
use dream_heroes.Rank.Removed.{shown}

abbrev pub expected : ShopSalesPromotionType → Option PromotionCall
expected wait = some call_apply
expected apply_ = some call_excute
expected excute_ = some call_exit
expected destroy = none

abbrev pub Fits : TimeEventType → ShopSalesPromotionType → List PromotionTimer → Type 0
Fits t type [] = Unit
Fits time_normal type (x ∷ []) = expected type ≡ some x.call
Fits time_normal type (x ∷ y ∷ l) = ⊥
Fits time_week type (x ∷ l) = ⊥
Fits time_open_server_offset_time type (x ∷ l) = ⊥

abbrev pub IsFit : TimeShopPromotion → Type 0
IsFit p = Fits p.config.time.type p.type p.timers

abbrev pub FitTo : Option (ShopState × TimeShopPromotion) → Type 0
FitTo none = Unit
FitTo (some (s', p')) = IsFit p'

pub none-Fits :
    (t : TimeEventType) (type : ShopSalesPromotionType) (l : List PromotionTimer)
    → l ≡ []
    → Fits t type l
none-Fits t type l h = rw h tt

-- Only points of time have timers.
no_timers :
    (t : TimeEventType) (type : ShopSalesPromotionType) (l : List PromotionTimer)
    → t ≢ time_normal
    → Fits t type l
    → l ≡ []
no_timers t type [] n f = refl
no_timers time_normal type (x ∷ l) n f = absurd (n refl)
no_timers time_week type (x ∷ l) n f = absurd f
no_timers time_open_server_offset_time type (x ∷ l) n f = absurd f

pub shows-days : (c : Clock) (t : EventTime) → shows c t ≡ true → t.type ≢ time_normal
unfolding shows
shows-days c t h e = ground arith

pub begins-days : (c : Clock) (t : EventTime) → begins c t ≡ true → t.type ≢ time_normal
unfolding begins
begins-days c t h e = ground arith

ends-days : (c : Clock) (t : EventTime) → ends c t ≡ true → t.type ≢ time_normal
unfolding ends
ends-days c t h e = ground arith

pub exit-IsFit : (s : ShopState) (p : TimeShopPromotion) → p.timers ≡ [] → IsFit (exit s p).1
unfolding exit base_exit excute_effect
exit-IsFit s p h = none-Fits p.config.time.type destroy _ (ap (keep λ t. not (is_exit t)) h)

module _ (again : ShopState → TimeShopPromotion → Option (ShopState × TimeShopPromotion))
    (c : Clock)
    (again-FitTo : (s : ShopState) (p : TimeShopPromotion) → IsFit p → FitTo (again s p)) where
  excute_next-FitTo :
      (t : TimeEventType) (s : ShopState) (p : TimeShopPromotion)
      → p.config.time.type ≡ t
      → p.type ≡ excute_
      → p.timers ≡ []
      → FitTo (excute_next again c t s p)
  unfolding excute_next add_timer
  excute_next-FitTo time_normal s p e k h =
      elim (Bool-cases (ltb_ℤ (pos 0) (p.config.time.end_time -ℤ c.server_time))) [
        | inl later ↦ rw (later, e, h, k) refl
        | inr over ↦ rw over (exit-IsFit s p h)
      ]
  excute_next-FitTo time_week s p e k h = again-FitTo s p (none-Fits _ _ _ h)
  excute_next-FitTo time_open_server_offset_time s p e k h = again-FitTo s p (none-Fits _ _ _ h)

  pub excute-FitTo :
      (s : ShopState) (p : TimeShopPromotion) → p.timers ≡ [] → FitTo (excute again c s p)
  unfolding excute excute_effect
  excute-FitTo s p h = excute_next-FitTo p.config.time.type _ (excute_effect true s p).1 refl refl h

  apply_next-FitTo :
      (t : TimeEventType) (s : ShopState) (p : TimeShopPromotion)
      → p.config.time.type ≡ t
      → p.type ≡ apply_
      → p.timers ≡ []
      → FitTo (apply_next again c t s p)
  unfolding apply_next add_timer
  apply_next-FitTo time_normal s p e k h =
      elim (Bool-cases (leb_ℤ (p.config.time.begin_time -ℤ c.server_time) (pos 0))) [
        | inl now ↦ rw now (excute-FitTo s p h)
        | inr later ↦ rw (later, e, h, k) refl
      ]
  apply_next-FitTo time_week s p e k h = again-FitTo s p (none-Fits _ _ _ h)
  apply_next-FitTo time_open_server_offset_time s p e k h = again-FitTo s p (none-Fits _ _ _ h)

  pub apply-FitTo :
      (s : ShopState) (p : TimeShopPromotion) → p.timers ≡ [] → FitTo (apply again c s p)
  unfolding apply base_apply
  apply-FitTo s p h =
      apply_next-FitTo p.config.time.type s (base_apply p) refl refl (ap (keep is_exit) h)

  -- The tests are for days: they fail at points of time.
  pass_wait-FitTo :
      (t : ShopSalesPromotionType) (s : ShopState) (p : TimeShopPromotion)
      → IsFit p
      → FitTo (pass_wait again c t s p)
  unfolding pass_wait
  pass_wait-FitTo wait s p f = elim (Bool-cases (shows c p.config.time)) [
    | inl shown ↦ rw shown (apply-FitTo s p (no_timers _ _ _ (shows-days c p.config.time shown) f))
    | inr hidden ↦ rw hidden f
  ]
  pass_wait-FitTo apply_ s p f = f
  pass_wait-FitTo excute_ s p f = f
  pass_wait-FitTo destroy s p f = f

  pass_apply-FitTo :
      (t : ShopSalesPromotionType) (s : ShopState) (p : TimeShopPromotion)
      → IsFit p
      → FitTo (pass_apply again c t s p)
  unfolding pass_apply
  pass_apply-FitTo apply_ s p f = elim (Bool-cases (begins c p.config.time)) [
    | inl begun ↦
        rw begun (excute-FitTo s p (no_timers _ _ _ (begins-days c p.config.time begun) f))
    | inr early ↦ rw early f
  ]
  pass_apply-FitTo wait s p f = f
  pass_apply-FitTo excute_ s p f = f
  pass_apply-FitTo destroy s p f = f

pass_excute-IsFit :
    (c : Clock) (t : ShopSalesPromotionType) (s : ShopState) (p : TimeShopPromotion)
    → IsFit p
    → IsFit (pass_excute c t s p).1
unfolding pass_excute
pass_excute-IsFit c wait s p f = f
pass_excute-IsFit c apply_ s p f = f
pass_excute-IsFit c excute_ s p f = elim (Bool-cases (ends c p.config.time)) [
  | inl over ↦ rw over (exit-IsFit s p (no_timers _ _ _ (ends-days c p.config.time over) f))
  | inr on ↦ rw on f
]
pass_excute-IsFit c destroy s p f = f

FitTo-bind :
    (r : Option (ShopState × TimeShopPromotion))
    (f : ShopState × TimeShopPromotion → Option (ShopState × TimeShopPromotion))
    → FitTo r
    → ((s : ShopState) (p : TimeShopPromotion) → IsFit p → FitTo (f (s, p)))
    → FitTo (r >>= f)
FitTo-bind none f m n = tt
FitTo-bind (some (s1, p1)) f m n = n s1 p1 m

pub day_pass-FitTo :
    (fuel : ℕ) (c : Clock) (s : ShopState) (p : TimeShopPromotion)
    → IsFit p
    → FitTo (day_pass fuel c s p)
unfolding day_pass
day_pass-FitTo zero c s p f = tt
day_pass-FitTo (suc fuel) c s p f =
    let ih = day_pass-FitTo fuel c in
    FitTo-bind _ _ (pass_wait-FitTo (day_pass fuel c) c ih p.type s p f) λ s1 p1 f1.
      FitTo-bind _ _ (pass_apply-FitTo (day_pass fuel c) c ih p1.type s1 p1 f1)
        λ s2 p2 f2. pass_excute-IsFit c p2.type s2 p2 f2
