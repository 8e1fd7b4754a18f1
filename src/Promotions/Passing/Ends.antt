-- ===== src/Promotions/Passing/Ends.antt =====
-- The calls of `DayPass`, `apply` and `excute` among one another come to an end, and where they lead.
use dream_heroes.Base.{
  Bool-cases, Option, ap, arith, false, if◌then◌else◌, inl, inr, none, refl, some, subst, suc, sym,
  true, ℕ, ◌+◌, ◌>>=◌, ◌>>=◌, ◌∙◌, ◌≡◌, ◌≢◌,
}
use dream_heroes.Promotions.Passing.{
  apply, apply_next, base_apply, base_exit, begins, day_pass, ends, excute, excute_effect,
  excute_next, exit, pass_apply, pass_excute, pass_wait, shows,
}
use dream_heroes.Promotions.Passing.Timers.{begins-days, shows-days}
use dream_heroes.Promotions.Types.{
  Clock, EventTime, ShopSalesPromotionType, ShopState, TimeEventType, TimeShopPromotion,
  TimeShopSalesPromotionConfig, apply_, destroy, excute_, time_normal, time_open_server_offset_time,
  time_week, wait,
}
use dream_heroes.Rank.Removed.{shown}

after_excute : Clock → EventTime → ShopSalesPromotionType
after_excute c t = if ends c t then destroy else excute_

after_apply : Clock → EventTime → ShopSalesPromotionType
after_apply c t = if begins c t then after_excute c t else apply_

-- The state that a day leads to.
unfoldable pub next_type : Clock → EventTime → ShopSalesPromotionType → ShopSalesPromotionType
unfolding after_apply after_excute
next_type c t wait = if shows c t then after_apply c t else wait
next_type c t apply_ = after_apply c t
next_type c t excute_ = after_excute c t
next_type c t destroy = destroy

-- There is a result, of the same promotion and in this state.
abbrev pub Lands :
    TimeShopSalesPromotionConfig
    → ShopSalesPromotionType
    → Option (ShopState × TimeShopPromotion)
    → Type 0
Lands config type none = ⊥
Lands config type (some (s, p)) = (p.type ≡ type) × (p.config ≡ config)

not_over : (c : Clock) (t : EventTime) → excute_ ≡ after_excute c t → ends c t ≡ false
unfolding after_excute
not_over c t h = ground arith

not_begun : (c : Clock) (t : EventTime) → apply_ ≡ after_apply c t → begins c t ≡ false
unfolding after_apply after_excute
not_begun c t h = ground arith

-- The third `if` of `DayPass`, where it has been passed already.
pass_excute_again :
    (c : Clock) (config : TimeShopSalesPromotionConfig) (s : ShopState) (p : TimeShopPromotion)
    (t : ShopSalesPromotionType)
    → (t ≡ excute_ → ends c config.time ≡ false)
    → p.type ≡ t
    → p.config ≡ config
    → Lands config t (some (pass_excute c t s p))
unfolding pass_excute
pass_excute_again c config s p excute_ on h k =
    let e : ends c p.config.time ≡ false = ap (λ x. ends c x.time) k ∙ on refl in rw e (h, k)
pass_excute_again c config s p wait on h k = (h, k)
pass_excute_again c config s p apply_ on h k = (h, k)
pass_excute_again c config s p destroy on h k = (h, k)

-- The third `if`, and the second with the third, behind a part that has led to a state.
then_excute :
    (c : Clock) (config : TimeShopSalesPromotionConfig) (t : ShopSalesPromotionType)
    (r : Option (ShopState × TimeShopPromotion))
    → (t ≡ excute_ → ends c config.time ≡ false)
    → Lands config t r
    → Lands config t (r >>= λ (s, p). some (pass_excute c p.type s p))
then_excute c config t none on l = l
then_excute c config t (some (s, p)) on (h, k) =
    subst (λ x. Lands config t (some (pass_excute c x s p))) (sym h)
      (pass_excute_again c config s p t on h k)

module _ (again : ShopState → TimeShopPromotion → Option (ShopState × TimeShopPromotion))
    (c : Clock) where
  -- The second and the third `if`, at this state.
  rest :
      ShopSalesPromotionType
      → ShopState
      → TimeShopPromotion
      → Option (ShopState × TimeShopPromotion)
  rest t s1 p1 = do (s2, p2) ← pass_apply again c t s1 p1; some (pass_excute c p2.type s2 p2)

  rest_again :
      (config : TimeShopSalesPromotionConfig) (t : ShopSalesPromotionType) (s : ShopState)
      (p : TimeShopPromotion)
      → (t ≡ excute_ → ends c config.time ≡ false)
      → (t ≡ apply_ → begins c config.time ≡ false)
      → p.type ≡ t
      → p.config ≡ config
      → Lands config t (rest t s p)
  unfolding rest pass_apply
  rest_again config apply_ s p on early h k =
      let e : begins c p.config.time ≡ false = ap (λ x. begins c x.time) k ∙ early refl in
      rw e (then_excute c config apply_ (some (s, p)) on (h, k))
  rest_again config wait s p on early h k = then_excute c config wait (some (s, p)) on (h, k)
  rest_again config excute_ s p on early h k = then_excute c config excute_ (some (s, p)) on (h, k)
  rest_again config destroy s p on early h k = then_excute c config destroy (some (s, p)) on (h, k)

  then_rest :
      (config : TimeShopSalesPromotionConfig) (t : ShopSalesPromotionType)
      (r : Option (ShopState × TimeShopPromotion))
      → (t ≡ excute_ → ends c config.time ≡ false)
      → (t ≡ apply_ → begins c config.time ≡ false)
      → Lands config t r
      → Lands config t (r >>= λ (s, p). rest p.type s p)
  then_rest config t none on early l = l
  then_rest config t (some (s, p)) on early (h, k) =
      subst (λ x. Lands config t (rest x s p)) (sym h) (rest_again config t s p on early h k)

  -- The three `if`s, at this state.
  whole :
      ShopSalesPromotionType
      → ShopState
      → TimeShopPromotion
      → Option (ShopState × TimeShopPromotion)
  whole t s p = pass_wait again c t s p >>= λ (s1, p1). rest p1.type s1 p1

  third-excute :
      (s : ShopState) (p : TimeShopPromotion)
      → p.type ≡ excute_
      → Lands p.config (after_excute c p.config.time) (some (pass_excute c p.type s p))
  unfolding pass_excute after_excute exit base_exit excute_effect
  third-excute s p h =
      subst (λ x. Lands p.config (after_excute c p.config.time) (some (pass_excute c x s p)))
        (sym h)
        (elim (Bool-cases (ends c p.config.time)) [
          | inl over ↦ rw over (refl, refl)
          | inr on ↦ rw on (h, refl)
        ])

  whole-excute :
      (s : ShopState) (p : TimeShopPromotion)
      → p.type ≡ excute_
      → Lands p.config (after_excute c p.config.time) (whole excute_ s p)
  unfolding whole pass_wait rest pass_apply
  whole-excute s p h =
      subst (λ x. Lands p.config (after_excute c p.config.time) (rest x s p)) (sym h)
        (third-excute s p h)

  -- A part that leads to `Excute` or to `Destroy` as the day says is not changed by what follows.
  after_excute-on : (t : EventTime) → after_excute c t ≡ excute_ → ends c t ≡ false
  after_excute-on t h = not_over c t (sym h)

  after_excute-begun : (t : EventTime) → after_excute c t ≡ apply_ → begins c t ≡ false
  unfolding after_excute
  after_excute-begun t h = ground arith

  after_apply-on : (t : EventTime) → after_apply c t ≡ excute_ → ends c t ≡ false
  unfolding after_apply after_excute
  after_apply-on t h = ground arith

  -- `DayPass` in `Apply`, where `excute` leads as the day says.
  whole-apply :
      (s : ShopState) (p : TimeShopPromotion)
      → p.type ≡ apply_
      → (begins c p.config.time ≡ true
          → Lands p.config (after_excute c p.config.time) (excute again c s p))
      → Lands p.config (after_apply c p.config.time) (whole apply_ s p)
  unfolding whole pass_wait rest pass_apply after_apply
  whole-apply s p h lands =
      subst (λ x. Lands p.config (after_apply c p.config.time) (rest x s p)) (sym h)
        (elim (Bool-cases (begins c p.config.time)) [
          | inl begun ↦ rw begun (
              then_excute c p.config (after_excute c p.config.time) _
                (after_excute-on p.config.time) (lands begun))
          | inr early ↦ rw early (then_excute c p.config apply_ (some (s, p)) (λ e. cc e) (h, refl))
        ])

  whole-wait :
      (s : ShopState) (p : TimeShopPromotion)
      → p.type ≡ wait
      → (shows c p.config.time ≡ true
          → Lands p.config (after_apply c p.config.time) (apply again c s p))
      → Lands p.config (next_type c p.config.time wait) (whole wait s p)
  unfolding whole pass_wait next_type
  whole-wait s p h lands = elim (Bool-cases (shows c p.config.time)) [
    | inl shown ↦ rw shown (
        then_rest p.config (after_apply c p.config.time) _ (after_apply-on p.config.time)
          (λ e. not_begun c p.config.time (sym e)) (lands shown))
    | inr hidden ↦
        rw hidden (then_rest p.config wait (some (s, p)) (λ e. cc (e)) (λ e. cc (e)) (h, refl))
  ]

module _ (n : ℕ) (c : Clock) where
  excute-Lands :
      (t : TimeEventType) (s : ShopState) (p : TimeShopPromotion)
      → t ≢ time_normal
      → p.type ≡ excute_
      → Lands p.config (after_excute c p.config.time) (excute_next (day_pass (suc n) c) c t s p)
  unfolding excute_next day_pass whole rest
  excute-Lands time_normal s p k h = absurd (k refl)
  excute-Lands time_week s p k h =
      subst (λ x. Lands p.config (after_excute c p.config.time) (whole (day_pass n c) c x s p))
        (sym h) (whole-excute (day_pass n c) c s p h)
  excute-Lands time_open_server_offset_time s p k h =
      subst (λ x. Lands p.config (after_excute c p.config.time) (whole (day_pass n c) c x s p))
        (sym h) (whole-excute (day_pass n c) c s p h)

  pass-apply :
      (s : ShopState) (p : TimeShopPromotion)
      → p.type ≡ apply_
      → Lands p.config (after_apply c p.config.time) (day_pass (suc (suc n)) c s p)
  unfolding day_pass whole rest excute excute_effect
  pass-apply s p h =
      subst (λ x. Lands p.config (after_apply c p.config.time) (whole (day_pass (suc n) c) c x s p))
        (sym h)
        (whole-apply (day_pass (suc n) c) c s p h (λ begun.
          excute-Lands p.config.time.type _ (excute_effect true s p).1
            (begins-days c p.config.time begun) refl))

  apply-Lands :
      (t : TimeEventType) (s : ShopState) (p : TimeShopPromotion)
      → t ≢ time_normal
      → p.type ≡ apply_
      → Lands p.config (after_apply c p.config.time) (apply_next (day_pass (suc (suc n)) c) c t s p)
  unfolding apply_next
  apply-Lands time_normal s p k h = absurd (k refl)
  apply-Lands time_week s p k h = pass-apply s p h
  apply-Lands time_open_server_offset_time s p k h = pass-apply s p h

  pass-wait :
      (s : ShopState) (p : TimeShopPromotion)
      → p.type ≡ wait
      → Lands p.config (next_type c p.config.time wait) (day_pass (suc (suc (suc n))) c s p)
  unfolding day_pass whole rest apply base_apply
  pass-wait s p h =
      subst
        (λ x.
          Lands p.config (next_type c p.config.time wait)
            (whole (day_pass (suc (suc n)) c) c x s p))
        (sym h)
        (whole-wait (day_pass (suc (suc n)) c) c s p h (λ shown.
          apply-Lands p.config.time.type s (base_apply p) (shows-days c p.config.time shown) refl))

  pass-excute :
      (s : ShopState) (p : TimeShopPromotion)
      → p.type ≡ excute_
      → Lands p.config (after_excute c p.config.time) (day_pass (suc n) c s p)
  unfolding day_pass whole rest
  pass-excute s p h =
      subst (λ x. Lands p.config (after_excute c p.config.time) (whole (day_pass n c) c x s p))
        (sym h) (whole-excute (day_pass n c) c s p h)

  pass-destroy :
      (s : ShopState) (p : TimeShopPromotion)
      → p.type ≡ destroy
      → Lands p.config destroy (day_pass (suc n) c s p)
  unfolding day_pass whole rest pass_wait
  pass-destroy s p h =
      subst (λ x. Lands p.config destroy (whole (day_pass n c) c x s p)) (sym h)
        (then_rest (day_pass n c) c p.config destroy (some (s, p)) (λ e. cc (e)) (λ e. cc (e))
          (h, refl))

pass-by :
    (n : ℕ) (c : Clock) (t : ShopSalesPromotionType) (s : ShopState) (p : TimeShopPromotion)
    → p.type ≡ t
    → Lands p.config (next_type c p.config.time t) (day_pass (suc (suc (suc n))) c s p)
unfolding next_type
pass-by n c wait s p h = pass-wait n c s p h
pass-by n c apply_ s p h = pass-apply (suc n) c s p h
pass-by n c excute_ s p h = pass-excute (suc (suc n)) c s p h
pass-by n c destroy s p h = pass-destroy (suc (suc n)) c s p h

-- With three calls at hand `DayPass` ends for every promotion at every time, with the same promotion in the
-- state that the tests of the day give: it goes on from `Wait` when it is shown, from `Apply` when it begins and
-- from `Excute` when it is over, and may take all three steps on one day.
pub day_pass_outcome :
    (n : ℕ) (c : Clock) (s : ShopState) (p : TimeShopPromotion)
    → Lands p.config (next_type c p.config.time p.type) (day_pass (n + 3) c s p)
day_pass_outcome n c s p =
    let three : n + 3 ≡ suc (suc (suc n)) = omega arith in rw three (pass-by n c p.type s p refl)
