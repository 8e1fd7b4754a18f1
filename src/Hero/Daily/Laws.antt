-- ===== src/Hero/Daily/Laws.antt =====
-- The daily game of gameserver/DreamHero.cpp: its reset for jewels, its progress and its prizes.
use dream_heroes.Base.{
  ==_iff, Bool-cases, IsFound, Option, Option-cases, ap, arith, false, get_elem?, get_elem?-IsFound,
  if◌then◌else◌, inl, inr, length, none, not, refl, some, true, ◌+◌, ◌||◌, ◌≡◌, ◌≢◌, ◌⊎◌,
}
use dream_heroes.Base.Int.{
  +ℤ_parts, ==ℤ_iff, ltb_ℤ, pos, pos_part, to_size, ℤ, ◌+ℤ◌, ◌-ℤ◌, ◌<ℤ◌, ◌==ℤ◌, ◌≤ℤ◌, -ℤ_parts,
}
use dream_heroes.Config.{Env, GameConfig, is_in_today, to_u32}
use dream_heroes.Error.{GameError, error_no, is_no}
use dream_heroes.Hero.{DreamHero}
use dream_heroes.Hero.Daily.{
  UpdateDailyReq, begin_daily, req_reset_daily_game_progress, req_update_daily_game_progress,
  reset_by_price, reset_count, reset_daily_game, reset_pay, reset_price, reset_priced, reset_run,
  try_to_get_game_prize, update_daily_error, update_daily_info,
}
use dream_heroes.Login.Accounts.Flow.{before}
use dream_heroes.Rank.{RankManager, remove_hero}
use mathlib.Core.Option

-- The count after a reset: one more than the day's, or the first of a day.
abbrev pub Counted : Env → DreamHero → ℤ → Type 0
Counted env h count =
    ((is_in_today env h.last_daily_reset_game_time ≡ true)
      × (count ≡ h.daily_reset_game_count +ℤ pos 1))
    ⊎ ((is_in_today env h.last_daily_reset_game_time ≡ false) × (count ≡ pos 1))

reset_count-Counted : (env : Env) (h : DreamHero) → Counted env h (reset_count env h)
unfolding reset_count
reset_count-Counted env h = elim (Bool-cases (is_in_today env h.last_daily_reset_game_time)) [
  | inl today ↦ inl (today, rw today refl)
  | inr before ↦ inr (before, rw before refl)
]

-- What a reset has done, by its price, which may be missing.
abbrev pub ResetOutcome : GameConfig → Env → DreamHero → DreamHero → GameError → Option ℤ → Type 0
ResetOutcome c env h h' error none = (error ≢ error_no) × (h' ≡ h)
ResetOutcome c env h h' error (some price) =
    ((error ≡ error_no)
      × (h'.jewel ≡ h.jewel -ℤ price)
      × (pos 0 ≤ℤ h'.jewel)
      × (h'.daily_game_progress ≡ pos 0)
      × (h'.daily_game_hp_pct ≡ pos 100)
      × (reset_price c h'.daily_reset_game_count ≡ some price)
      × (h'.last_daily_reset_game_time ≡ to_u32 env.server_time)
      × Counted env h h'.daily_reset_game_count
      × (pos 1 ≤ℤ h'.daily_reset_game_count)
      × (h'.daily_reset_game_count ≤ℤ pos (length c.daily_game_reset_jewel_config)))
    ⊎ ((error ≢ error_no) × (h' ≡ h))

reset_count_positive :
    (env : Env) (h : DreamHero) → pos 0 ≤ℤ h.daily_reset_game_count → pos 1 ≤ℤ reset_count env h
unfolding reset_count
reset_count_positive env h p = ground (arith, +ℤ_parts h.daily_reset_game_count (pos 1))

-- A price is found only for a count within the configuration.
abbrev WithinCounts : GameConfig → ℤ → Option ℤ → Type 0
WithinCounts c count none = Unit
WithinCounts c count (some price) = count ≤ℤ pos (length c.daily_game_reset_jewel_config)

to_size_pred : (a : ℤ) → pos 1 ≤ℤ a → to_size (a -ℤ pos 1) + 1 ≡ pos_part a
unfolding ◌-ℤ◌
to_size_pred a p = ground arith

reset_price-WithinCounts :
    (c : GameConfig) (count : ℤ) → pos 1 ≤ℤ count → WithinCounts c count (reset_price c count)
unfolding reset_price
reset_price-WithinCounts c count p =
    by_case (get_elem? c.daily_game_reset_jewel_config (to_size (count -ℤ pos 1)))
      (get_elem?-IsFound c.daily_game_reset_jewel_config (to_size (count -ℤ pos 1)))
  where
    by_case :
        (o : Option ℤ)
        → IsFound (to_size (count -ℤ pos 1)) c.daily_game_reset_jewel_config o
        → WithinCounts c count o
    by_case none f = tt
    by_case (some price) f = omega (arith, to_size_pred count p)

reset_priced-ResetOutcome :
    (c : GameConfig) (env : Env) (h : DreamHero) (count price : ℤ)
    → Counted env h count
    → reset_price c count ≡ some price
    → pos 1 ≤ℤ count
    → count ≤ℤ pos (length c.daily_game_reset_jewel_config)
    → let (h', error) = reset_priced env h count price in ResetOutcome c env h h' error (some price)
unfolding reset_priced reset_pay
reset_priced-ResetOutcome c env h count price counted found p q =
    ground (arith, -ℤ_parts h.jewel price)

reset_found :
    (c : GameConfig) (env : Env) (h : DreamHero) (count : ℤ) (o : Option ℤ)
    → Counted env h count
    → reset_price c count ≡ o
    → pos 1 ≤ℤ count
    → WithinCounts c count o
    → let (h', error) = reset_by_price env h count o in ResetOutcome c env h h' error o
unfolding reset_by_price
reset_found c env h count none counted found p w = ((λ q. cc), refl)
reset_found c env h count (some price) counted found p w =
    reset_priced-ResetOutcome c env h count price counted found p w

reset_not_begun :
    (c : GameConfig) (env : Env) (h : DreamHero) (e : GameError) (o : Option ℤ)
    → e ≢ error_no
    → ResetOutcome c env h h e o
reset_not_begun c env h e none n = (n, refl)
reset_not_begun c env h e (some price) n = inr (n, refl)

-- Resetting the daily game, for a hero whose count of resets is not negative, either takes exactly the
-- jewels configured for its new count, which the balance covered, starts the game again at full health, notes the
-- time and counts the reset, as one more than before where the last one was today and else as the first, or is
-- answered with an error and leaves the hero as it was. The new count is never more than the number of configured
-- prices.
pub reset_daily_game_outcome :
    (c : GameConfig) (env : Env) (h : DreamHero)
    → pos 0 ≤ℤ h.daily_reset_game_count
    → let (h', ack) = req_reset_daily_game_progress c env h in
      ResetOutcome c env h h' ack.error (reset_price c (reset_count env h))
unfolding req_reset_daily_game_progress reset_run
reset_daily_game_outcome c env h p =
    let count = reset_count env h in
    let positive = reset_count_positive env h p in
    elim (Bool-cases
      (not (is_in_today env h.daily_game_time) || (h.daily_game_progress ==ℤ pos 0))) [
        | inl idle ↦ rw idle (reset_not_begun c env h _ (reset_price c count) (λ q. cc))
        | inr begun ↦ rw begun (
            reset_found c env h count (reset_price c count) (reset_count-Counted env h) refl
              positive (reset_price-WithinCounts c count positive))
      ]

prize_paid :
    (c : GameConfig) (ranks : RankManager) (h : DreamHero)
    → let h' = try_to_get_game_prize c ranks h in
      (h' ≡ h) ⊎ (h'.daily_game_time ≡ h'.daily_game_prize_time)
unfolding try_to_get_game_prize
prize_paid c ranks h = ground arith

paid_once :
    (c : GameConfig) (ranks : RankManager) (h : DreamHero)
    → h.daily_game_time ≡ h.daily_game_prize_time
    → try_to_get_game_prize c ranks h ≡ h
unfolding try_to_get_game_prize
paid_once c ranks h e = ground arith

-- Paying the prize of a past daily game twice gives nothing the second time. Once the prize of the hero's
-- game is paid, no ranking and no configuration pays it again.
pub try_to_get_game_prize_once :
    (c c' : GameConfig) (ranks ranks' : RankManager) (h : DreamHero)
    → let h' = try_to_get_game_prize c ranks h in
      (try_to_get_game_prize c ranks h' ≡ h')
      × ((h' ≡ h) ⊎ (try_to_get_game_prize c' ranks' h' ≡ h'))
try_to_get_game_prize_once c c' ranks ranks' h = elim (prize_paid c ranks h) [
  | inl same ↦ (ap (try_to_get_game_prize c ranks) same, inl same)
  | inr paid ↦ (paid_once c ranks _ paid, inr (paid_once c' ranks' _ paid))
]

begin_daily_lem :
    (ranks : RankManager) (h : DreamHero)
    → let b = begin_daily ranks h in
      (b.daily_game_time ≡ ranks.daily_game_begin_time)
      × (b.daily_top_grogress ≡ h.daily_top_grogress)
unfolding begin_daily
begin_daily_lem ranks h = ground (arith, ==_iff h.daily_game_time ranks.daily_game_begin_time)

-- The progress that a report may set.
abbrev pub NextProgress : DreamHero → ℤ → Type 0
NextProgress b progress =
    (progress ≡ b.daily_game_progress)
    ⊎ (progress ≡ b.daily_game_progress +ℤ pos 1)
    ⊎ (progress ≡ b.daily_game_record_progress +ℤ pos 1)

update_daily_accepts :
    (ranks : RankManager) (b : DreamHero) (msg : UpdateDailyReq) (hp_pct : ℤ)
    → update_daily_error ranks b msg hp_pct ≡ error_no
    → (pos 0 <ℤ b.daily_game_hp_pct) × NextProgress b msg.daily_game_progress
unfolding update_daily_error
update_daily_accepts ranks b msg hp_pct e = ground (
  arith,
  ==ℤ_iff (b.daily_game_progress +ℤ pos 1) msg.daily_game_progress,
  ==ℤ_iff b.daily_game_progress msg.daily_game_progress,
  ==ℤ_iff msg.daily_game_progress (b.daily_game_record_progress +ℤ pos 1),
)

update_daily_info_lem :
    (b : DreamHero) (msg : UpdateDailyReq) (hp_pct : ℤ)
    → NextProgress b msg.daily_game_progress
    → let info = update_daily_info b.info msg hp_pct in
      NextProgress b info.daily_game_progress × (b.daily_top_grogress ≤ℤ info.daily_top_grogress)
unfolding update_daily_info
update_daily_info_lem b msg hp_pct n = ground arith

le_of_eq : (a b : ℤ) → a ≡ b → b ≤ℤ a
le_of_eq a b e = ground arith

le_trans : (a b x : ℤ) → a ≤ℤ b → b ≤ℤ x → a ≤ℤ x
le_trans a b x p q = omega arith

-- A report on the daily game brings the hero to the current game, and then leaves the progress as it is, or,
-- if it is accepted and the hero is in health, sets it one further or just behind the recorded progress. The
-- best progress never falls.
pub update_daily_progress :
    (env : Env) (ranks : RankManager) (h : DreamHero) (msg : UpdateDailyReq)
    → let b = begin_daily ranks h in
      let (h', _, ack) = req_update_daily_game_progress env ranks h msg in
      (h'.daily_game_time ≡ ranks.daily_game_begin_time)
      × (h.daily_top_grogress ≤ℤ h'.daily_top_grogress)
      × (((ack.error ≢ error_no) × (h' ≡ b))
          ⊎ ((ack.error ≡ error_no)
              × (pos 0 <ℤ b.daily_game_hp_pct)
              × NextProgress b h'.daily_game_progress))
unfolding req_update_daily_game_progress
update_daily_progress env ranks h msg =
    let hp_pct = if ltb_ℤ msg.hp_pct (pos 0) then pos 0 else msg.hp_pct in
    by_error hp_pct (update_daily_error ranks (begin_daily ranks h) msg hp_pct) refl
  where
    b : DreamHero
    b = begin_daily ranks h

    begun :
        (b.daily_game_time ≡ ranks.daily_game_begin_time)
        × (b.daily_top_grogress ≡ h.daily_top_grogress)
    begun = begin_daily_lem ranks h

    top : h.daily_top_grogress ≤ℤ b.daily_top_grogress
    top = le_of_eq _ _ begun.1

    by_error :
        (hp_pct : ℤ) (e : GameError)
        → update_daily_error ranks b msg hp_pct ≡ e
        → let h' = if is_no e then record b { info = update_daily_info b.info msg hp_pct } else b in
          (h'.daily_game_time ≡ ranks.daily_game_begin_time)
          × (h.daily_top_grogress ≤ℤ h'.daily_top_grogress)
          × (((e ≢ error_no) × (h' ≡ b))
              ⊎ ((e ≡ error_no)
                  × (pos 0 <ℤ b.daily_game_hp_pct)
                  × NextProgress b h'.daily_game_progress))
    by_error hp_pct error_no q =
        let ok = update_daily_accepts ranks b msg hp_pct q in
        let moved = update_daily_info_lem b msg hp_pct ok.1 in
        (begun.0, le_trans _ b.daily_top_grogress _ top moved.1, inr (refl, ok.0, moved.0))
    by_error hp_pct e q = (begun.0, top, inl ((λ p. cc), refl))

-- What `ResetDailyGame` leaves, where it has a result.
pub reset_daily_game-level :
    (ranks : RankManager) (h : DreamHero)
    → (reset_daily_game ranks h ≡ none)
      ⊎ ((p : DreamHero × RankManager) × (reset_daily_game ranks h ≡ some p)
          × (p.0.gm_level ≡ h.gm_level))
unfolding reset_daily_game
reset_daily_game-level ranks h = elim (Option-cases (remove_hero ranks h.account)) [
  | inl gone ↦ inl (ap (Option.map (λ r. (_, r))) gone)
  | inr (r, here) ↦ inr (_, ap (Option.map (λ s. (_, s))) here, refl)
]
