-- ===== src/Promotions/Passing/Books.antt =====
-- The prices and the ratings are those of the promotions that run.
use dream_heroes.Base.{
  Bool, Bool-cases, Option, ap, false, if◌then◌else◌, inl, inr, none, refl, some, suc, sym, true,
  zero, ℕ, ◌>>=◌, ◌>>=◌, ◌∙◌, ◌≡◌,
}
use dream_heroes.Base.Int.{+ℤ_zero, int_laws, leb_ℤ, ltb_ℤ, neg_part, pos, pos_part, ℤ, ◌+ℤ◌, ◌-ℤ◌}
use dream_heroes.Hero.Shop.{get_cheap_gold}
use dream_heroes.Promotions.Effects.Sums.{
  cheap_of, ratting_of, take_effect-begins, take_effect-ends,
}
use dream_heroes.Promotions.Passing.{
  add_timer, apply, apply_next, base_apply, base_exit, begins, day_pass, ends, excute,
  excute_effect, excute_next, exit, pass_apply, pass_excute, pass_wait, shows,
}
use dream_heroes.Promotions.Types.{
  Clock, ShopSalesPromotionType, ShopState, TimeEventType, TimeShopPromotion, apply_, destroy,
  excute_, time_normal, time_open_server_offset_time, time_week, wait,
}
use dream_heroes.Rank.Removed.{shown}

unfoldable pub is_running : ShopSalesPromotionType → Bool
is_running wait = false
is_running apply_ = false
is_running excute_ = true
is_running destroy = false

-- What a promotion adds in the state that it is in.
pub cheap_part : TimeShopPromotion → ℤ → ℤ
cheap_part p grid = if is_running p.type then cheap_of p.config.promotion grid else pos 0

pub ratting_part : TimeShopPromotion → ℤ
ratting_part p = if is_running p.type then ratting_of p.config.promotion else pos 0

pub idle_cheap_part :
    (p : TimeShopPromotion) (grid : ℤ) → is_running p.type ≡ false → cheap_part p grid ≡ pos 0
unfolding cheap_part
idle_cheap_part p grid h = rw h refl

pub idle_ratting_part : (p : TimeShopPromotion) → is_running p.type ≡ false → ratting_part p ≡ pos 0
unfolding ratting_part
idle_ratting_part p h = rw h refl

-- The sums change with what the promotion adds.
pub record Moves (s : ShopState) (p : TimeShopPromotion) (s' : ShopState) (p' : TimeShopPromotion)
    : Type 0 where
  pub cheap_gold :
      (grid : ℤ)
      → get_cheap_gold s'.cheap_gold grid +ℤ cheap_part p grid
        ≡ get_cheap_gold s.cheap_gold grid +ℤ cheap_part p' grid
  pub gold : s'.recharge_gold_ratting +ℤ ratting_part p ≡ s.recharge_gold_ratting +ℤ ratting_part p'
  pub all : s'.recharge_ratting ≡ s.recharge_ratting
  pub jewel : s'.recharge_jewel_ratting ≡ s.recharge_jewel_ratting

module _ {s : ShopState} {p : TimeShopPromotion} where
  pub Moves-refl : Moves s p s p
  Moves-refl = record { cheap_gold = λ grid. refl; gold = refl; all = refl; jewel = refl }

cancel : (a b c x y z : ℤ) → b +ℤ x ≡ a +ℤ y → c +ℤ y ≡ b +ℤ z → c +ℤ x ≡ a +ℤ z
cancel a b c x y z h k =
    omega (int_laws, ap pos_part h, ap neg_part h, ap pos_part k, ap neg_part k)

Moves-trans :
    {s s1 s2 : ShopState} {p p1 p2 : TimeShopPromotion}
    → Moves s p s1 p1
    → Moves s1 p1 s2 p2
    → Moves s p s2 p2
Moves-trans m n = record {
  cheap_gold = λ grid. cancel _ _ _ _ _ _ (m.cheap_gold grid) (n.cheap_gold grid);
  gold = cancel _ _ _ _ _ _ m.gold n.gold;
  all = n.all ∙ m.all;
  jewel = n.jewel ∙ m.jewel;
}

-- The same for a result that may be absent.
abbrev pub MovesTo : ShopState → TimeShopPromotion → Option (ShopState × TimeShopPromotion) → Type 0
MovesTo s p none = Unit
MovesTo s p (some (s', p')) = Moves s p s' p'

-- A state in which the promotion does not run can take any other such state.
still :
    {s : ShopState} {p p' : TimeShopPromotion}
    → is_running p.type ≡ false
    → is_running p'.type ≡ false
    → Moves s p s p'
unfolding cheap_part ratting_part
still h h' = record { cheap_gold = λ grid. rw (h, h'); gold = rw (h, h'); all = refl; jewel = refl }

-- The timers do not matter.
pub settled :
    (p p' : TimeShopPromotion) (s : ShopState)
    → p'.type ≡ p.type
    → p'.config ≡ p.config
    → Moves s p s p'
unfolding cheap_part ratting_part
settled p p' s h k = record {
  cheap_gold = λ grid. rw (h, k);
  gold = rw (h, k);
  all = refl;
  jewel = refl;
}

excute_effect-Moves :
    (s : ShopState) (p : TimeShopPromotion)
    → is_running p.type ≡ false
    → Moves s p (excute_effect true s p).0 (excute_effect true s p).1
unfolding excute_effect is_running cheap_part ratting_part
excute_effect-Moves s p h =
    let add = take_effect-begins p.config.promotion s in
    record {
      cheap_gold = λ grid. rw h (+ℤ_zero _ ∙ add.cheap_gold grid);
      gold = rw h (+ℤ_zero _ ∙ add.gold);
      all = add.all;
      jewel = add.jewel;
    }

pub exit-Moves :
    (s : ShopState) (p : TimeShopPromotion) → p.type ≡ excute_ → Moves s p (exit s p).0 (exit s p).1
unfolding exit base_exit excute_effect is_running cheap_part ratting_part
exit-Moves s p h =
    let add = take_effect-ends p.config.promotion s in
    record {
      cheap_gold = λ grid. rw h (sym (add.cheap_gold grid) ∙ sym (+ℤ_zero _));
      gold = rw h (sym add.gold ∙ sym (+ℤ_zero _));
      all = sym add.all;
      jewel = sym add.jewel;
    }

pass_excute-Moves :
    (c : Clock) (t : ShopSalesPromotionType) (s : ShopState) (p : TimeShopPromotion)
    → p.type ≡ t
    → Moves s p (pass_excute c t s p).0 (pass_excute c t s p).1
unfolding pass_excute
pass_excute-Moves c wait s p h = Moves-refl
pass_excute-Moves c apply_ s p h = Moves-refl
pass_excute-Moves c excute_ s p h = elim (Bool-cases (ends c p.config.time)) [
  | inl over ↦ rw over (exit-Moves s p h)
  | inr on ↦ rw on Moves-refl
]
pass_excute-Moves c destroy s p h = Moves-refl

pub MovesTo-trans :
    {s s1 : ShopState} {p p1 : TimeShopPromotion} (r : Option (ShopState × TimeShopPromotion))
    → Moves s p s1 p1
    → MovesTo s1 p1 r
    → MovesTo s p r
MovesTo-trans none m n = tt
MovesTo-trans (some (s', p')) m n = Moves-trans m n

module _ (again : ShopState → TimeShopPromotion → Option (ShopState × TimeShopPromotion))
    (c : Clock)
    (again-Moves : (s : ShopState) (p : TimeShopPromotion) → MovesTo s p (again s p)) where
  excute_next-MovesTo :
      (t : TimeEventType) (s : ShopState) (p : TimeShopPromotion)
      → p.type ≡ excute_
      → MovesTo s p (excute_next again c t s p)
  unfolding excute_next add_timer
  excute_next-MovesTo time_normal s p h =
      elim (Bool-cases (ltb_ℤ (pos 0) (p.config.time.end_time -ℤ c.server_time))) [
        | inl later ↦ rw later (settled p _ s refl refl)
        | inr over ↦ rw over (exit-Moves s p h)
      ]
  excute_next-MovesTo time_week s p h = again-Moves s p
  excute_next-MovesTo time_open_server_offset_time s p h = again-Moves s p

  pub excute-MovesTo :
      (s : ShopState) (p : TimeShopPromotion)
      → is_running p.type ≡ false
      → MovesTo s p (excute again c s p)
  unfolding excute excute_effect
  excute-MovesTo s p h =
      let (s1, p1) = excute_effect true s p in
      MovesTo-trans (excute_next again c p.config.time.type s1 p1) (excute_effect-Moves s p h)
        (excute_next-MovesTo p.config.time.type s1 p1 refl)

  apply_next-MovesTo :
      (t : TimeEventType) (s : ShopState) (p : TimeShopPromotion)
      → p.type ≡ apply_
      → MovesTo s p (apply_next again c t s p)
  unfolding apply_next add_timer is_running
  apply_next-MovesTo time_normal s p h =
      elim (Bool-cases (leb_ℤ (p.config.time.begin_time -ℤ c.server_time) (pos 0))) [
        | inl now ↦ rw now (excute-MovesTo s p (rw h))
        | inr later ↦ rw later (still (rw h) (rw h))
      ]
  apply_next-MovesTo time_week s p h = again-Moves s p
  apply_next-MovesTo time_open_server_offset_time s p h = again-Moves s p

  pub apply-MovesTo :
      (s : ShopState) (p : TimeShopPromotion) → p.type ≡ wait → MovesTo s p (apply again c s p)
  unfolding apply base_apply is_running
  apply-MovesTo s p h =
      let p1 = base_apply p in
      MovesTo-trans (apply_next again c p.config.time.type s p1) (still (rw h) refl)
        (apply_next-MovesTo p.config.time.type s p1 refl)

  pass_wait-MovesTo :
      (t : ShopSalesPromotionType) (s : ShopState) (p : TimeShopPromotion)
      → p.type ≡ t
      → MovesTo s p (pass_wait again c t s p)
  unfolding pass_wait
  pass_wait-MovesTo wait s p h = elim (Bool-cases (shows c p.config.time)) [
    | inl shown ↦ rw shown (apply-MovesTo s p h)
    | inr hidden ↦ rw hidden Moves-refl
  ]
  pass_wait-MovesTo apply_ s p h = Moves-refl
  pass_wait-MovesTo excute_ s p h = Moves-refl
  pass_wait-MovesTo destroy s p h = Moves-refl

  pass_apply-MovesTo :
      (t : ShopSalesPromotionType) (s : ShopState) (p : TimeShopPromotion)
      → p.type ≡ t
      → MovesTo s p (pass_apply again c t s p)
  unfolding pass_apply is_running
  pass_apply-MovesTo apply_ s p h = elim (Bool-cases (begins c p.config.time)) [
    | inl begun ↦ rw begun (excute-MovesTo s p (rw h))
    | inr early ↦ rw early Moves-refl
  ]
  pass_apply-MovesTo wait s p h = Moves-refl
  pass_apply-MovesTo excute_ s p h = Moves-refl
  pass_apply-MovesTo destroy s p h = Moves-refl

-- A chain of two parts.
MovesTo-bind :
    (s : ShopState) (p : TimeShopPromotion) (r : Option (ShopState × TimeShopPromotion))
    (f : ShopState × TimeShopPromotion → Option (ShopState × TimeShopPromotion))
    → MovesTo s p r
    → ((s1 : ShopState) (p1 : TimeShopPromotion) → MovesTo s1 p1 (f (s1, p1)))
    → MovesTo s p (r >>= f)
MovesTo-bind s p none f m n = tt
MovesTo-bind s p (some (s1, p1)) f m n = MovesTo-trans (f (s1, p1)) m (n s1 p1)

-- A day changes the sums by what the promotion adds after it instead of before it.
pub day_pass-MovesTo :
    (fuel : ℕ) (c : Clock) (s : ShopState) (p : TimeShopPromotion)
    → MovesTo s p (day_pass fuel c s p)
unfolding day_pass
day_pass-MovesTo zero c s p = tt
day_pass-MovesTo (suc fuel) c s p =
    let ih = day_pass-MovesTo fuel c in
    MovesTo-bind s p _ _ (pass_wait-MovesTo (day_pass fuel c) c ih p.type s p refl) λ s1 p1.
      MovesTo-bind s1 p1 _ _ (pass_apply-MovesTo (day_pass fuel c) c ih p1.type s1 p1 refl)
        λ s2 p2. pass_excute-Moves c p2.type s2 p2 refl
