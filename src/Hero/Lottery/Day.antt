-- ===== src/Hero/Lottery/Day.antt =====
-- `ReqDayLottery` of gameserver/DreamHero.cpp: the days of the draws.
use dream_heroes.Base.{
  Bool-cases, List, [], arith, false, inl, inr, keep, refl, true, ℕ, ◌+◌, ◌<◌, ◌^◌, ◌∷◌, ◌≡◌, ◌≢◌,
  ◌≤◌, ◌⊎◌,
}
use dream_heroes.Base.Int.{ltb_ℤ, pos}
use dream_heroes.Config.{
  Env, GameConfig, LotteryBox, LotteryDrawBox, is_in_today, lottery_gold, lottery_jewel,
  lottery_lotion, to_u32,
}
use dream_heroes.Error.{GameError, error_no, failed_to_lottery_today_have_been_lotteried}
use dream_heroes.Hero.{DreamHero}
use dream_heroes.Hero.Lottery.{
  draw_any, draw_box, draw_from, drawable, give_box, give_by_type, lottery_ack, rand_below,
  refused_ack, req_day_lottery, total_rating,
}

-- What a request has done: refused, with nothing changed, or drawn, with the time of the draw noted.
abbrev Drawn : Env → DreamHero → DreamHero → GameError → Type 0
Drawn env h h' error =
    ((error ≢ error_no) × (error ≢ failed_to_lottery_today_have_been_lotteried) × (h' ≡ h))
    ⊎ ((h'.last_day_lottery_time ≡ to_u32 env.server_time)
        × (error ≢ failed_to_lottery_today_have_been_lotteried))

give_by_type-time :
    (t : LotteryBox) (box : LotteryDrawBox) (r : ℕ) (h : DreamHero)
    → let (h', error) = give_by_type t box r h in
      (h'.last_day_lottery_time ≡ h.last_day_lottery_time)
      × (error ≢ failed_to_lottery_today_have_been_lotteried)
unfolding give_by_type
give_by_type-time lottery_lotion box r h = ground arith
give_by_type-time lottery_gold box r h = (refl, λ q. cc)
give_by_type-time lottery_jewel box r h = (refl, λ q. cc)

draw_any-Drawn :
    (env : Env) (h : DreamHero) (boxes : List LotteryDrawBox)
    → let (h', ack) = draw_any env h boxes in Drawn env h h' ack.error
unfolding draw_any draw_from refused_ack lottery_ack give_box
draw_any-Drawn env h [] = inl ((λ q. cc), (λ q. cc), refl)
draw_any-Drawn env h (first ∷ boxes) =
    let rating = total_rating (first ∷ boxes) (pos 0) in
    let box = draw_box first boxes (rand_below (env.rand 0) rating) in
    let drawn : DreamHero = record h { last_day_lottery_time = to_u32 env.server_time } in
    let given = give_by_type-time box.lottery_type box (env.rand 1) drawn in
    elim (Bool-cases (ltb_ℤ (pos 0) rating)) [
      | inl e ↦ rw e (inr given)
      | inr e ↦ rw e (inl ((λ q. cc), (λ q. cc), refl))
    ]

-- A clock that fits in 32 bits and stands within the day that its refresh began.
abbrev pub IsDaytime : Env → Type 0
IsDaytime env =
    (env.today_refresh_time ≤ env.server_time)
    × (env.server_time < env.today_refresh_time + 86400)
    × (env.server_time < 2 ^ 32)

request_cases :
    (c : GameConfig) (env : Env) (h : DreamHero)
    → let (h', ack) = req_day_lottery c env h in
      ((is_in_today env h.last_day_lottery_time ≡ true) × (ack.error ≢ error_no))
      ⊎ Drawn env h h' ack.error
unfolding req_day_lottery refused_ack
request_cases c env h = elim (Bool-cases (is_in_today env h.last_day_lottery_time)) [
  | inl e ↦ rw e (inl (refl, λ q. cc))
  | inr e ↦ rw e (inr (draw_any-Drawn env h (keep (drawable h.lotions) c.lottery_draw_configs)))
]

refused_today :
    (c : GameConfig) (env : Env) (h : DreamHero)
    → is_in_today env h.last_day_lottery_time ≡ true
    → let (h', ack) = req_day_lottery c env h in
      (ack.error ≡ failed_to_lottery_today_have_been_lotteried) × (h' ≡ h)
unfolding req_day_lottery refused_ack
refused_today c env h e = rw e (refl, refl)

drawn_in_today :
    (env env' : Env) (time : ℕ)
    → IsDaytime env
    → env'.today_refresh_time ≡ env.today_refresh_time
    → time ≡ to_u32 env.server_time
    → is_in_today env' time ≡ true
unfolding is_in_today
drawn_in_today env env' time d t e = ground arith

not_refused :
    (c : GameConfig) (env : Env) (h : DreamHero)
    → is_in_today env h.last_day_lottery_time ≡ false
    → (req_day_lottery c env h).1.error ≢ failed_to_lottery_today_have_been_lotteried
unfolding req_day_lottery
not_refused c env h e =
    let boxes = keep (drawable h.lotions) c.lottery_draw_configs in
    rw e (by_case _ _ (draw_any-Drawn env h boxes))
  where
    by_case :
        (h' : DreamHero) (error : GameError)
        → Drawn env h h' error
        → error ≢ failed_to_lottery_today_have_been_lotteried
    by_case h' error (inl p) = p.1
    by_case h' error (inr p) = p.1

drawn_not_in_today :
    (env env' : Env) (time : ℕ)
    → env.server_time < env.today_refresh_time
    → env.server_time < 2 ^ 32
    → env'.today_refresh_time ≡ env.today_refresh_time
    → time ≡ to_u32 env.server_time
    → is_in_today env' time ≡ false
unfolding is_in_today
drawn_not_in_today env env' time b w t e = ground arith

-- A successful request notes its time.
drawn_time :
    (c : GameConfig) (env : Env) (h : DreamHero)
    → (req_day_lottery c env h).1.error ≡ error_no
    → (req_day_lottery c env h).0.last_day_lottery_time ≡ to_u32 env.server_time
drawn_time c env h ok = by_case _ _ ok (request_cases c env h)
  where
    by_case :
        (h' : DreamHero) (error : GameError)
        → error ≡ error_no
        → ((is_in_today env h.last_day_lottery_time ≡ true) × (error ≢ error_no))
          ⊎ Drawn env h h' error
        → h'.last_day_lottery_time ≡ to_u32 env.server_time
    by_case h' error ok (inl p) = absurd (p.1 ok)
    by_case h' error ok (inr (inl p)) = absurd (p.0 ok)
    by_case h' error ok (inr (inr p)) = p.0

-- A hero who has drawn successfully, at a time after the refresh of the day, is refused for the rest of
-- that day, with the error of the draw of today and without any change.
pub day_lottery_once :
    (c c' : GameConfig) (env env' : Env) (h : DreamHero)
    → IsDaytime env
    → env'.today_refresh_time ≡ env.today_refresh_time
    → (req_day_lottery c env h).1.error ≡ error_no
    → let drawn = (req_day_lottery c env h).0 in
      let (h', ack) = req_day_lottery c' env' drawn in
      (ack.error ≡ failed_to_lottery_today_have_been_lotteried) × (h' ≡ drawn)
day_lottery_once c c' env env' h d t ok =
    refused_today c' env' (req_day_lottery c env h).0
      (drawn_in_today env env' _ d t (drawn_time c env h ok))

-- Before the refresh hour of a day the test does not work: a hero who has drawn successfully then is not
-- refused for the draw of today at a second request, if the clock fits in 32 bits.
pub day_lottery_repeats :
    (c c' : GameConfig) (env env' : Env) (h : DreamHero)
    → env.server_time < env.today_refresh_time
    → env.server_time < 2 ^ 32
    → env'.today_refresh_time ≡ env.today_refresh_time
    → (req_day_lottery c env h).1.error ≡ error_no
    → (req_day_lottery c' env' (req_day_lottery c env h).0).1.error
      ≢ failed_to_lottery_today_have_been_lotteried
day_lottery_repeats c c' env env' h b w t ok =
    not_refused c' env' (req_day_lottery c env h).0
      (drawn_not_in_today env env' _ b w t (drawn_time c env h ok))
