-- ===== src/Hero/Saved/Login/Again.antt =====
-- A hero that is saved, loaded and entered again: `SaveHero` and `set_info` of gameserver/DreamHero.cpp, and
-- `dbDoQueryHeroInfo` of databaseserver/db_quest.cpp.
use dream_heroes.Base.{Bool-cases, List, [], ap, inl, inr, ltb, refl, ◌-◌, ◌==◌, ◌∙◌, ◌∷◌, ◌≡◌}
use dream_heroes.Base.Int.{pos, ℤ, ◌==ℤ◌}
use dream_heroes.Base.Map.{Map}
use dream_heroes.Config.{Env, GameConfig, to_u32}
use dream_heroes.Hero.{
  DealStatusType, DealWaitToPay, DreamHero, complete, failed, wait_prepare_to_pay,
  wait_prepare_to_verify, wait_to_pay,
}
use dream_heroes.Hero.Daily.Progress.{try_to_get_game_prize-Keeps}
use dream_heroes.Hero.Deals.{RechargeRatting}
use dream_heroes.Hero.Deals.Progress.{add_deal_pay-Keeps}
use dream_heroes.Hero.Progress.{Keeps, progress_of}
use dream_heroes.Hero.Saved.Kept.{HasSectionsOnce, restored_kills, section_kills}
use dream_heroes.Hero.Saved.Login.{
  recover_at_login, reset_at_login, reset_record_progress, resume_deal, resume_deals, set_info,
  take_over,
}
use dream_heroes.Hero.Saved.RoundTrip.{KeepsTimes, describe, read_saved_row}
use dream_heroes.Hero.Saved.Row.{DealInfo, HeroDataMsg, Outside, read_row, save_hero}
use dream_heroes.Rank.{RankManager}

resume_deal-Keeps :
    (c : GameConfig) (env : Env) (ratting : RechargeRatting) (h : DreamHero) (deal : DealWaitToPay)
    (t : DealStatusType)
    → Keeps h (resume_deal c env ratting h deal t).0
unfolding resume_deal
resume_deal-Keeps c env ratting h deal wait_prepare_to_pay =
    add_deal_pay-Keeps c env ratting h deal.key_code deal.status deal.order_id
resume_deal-Keeps c env ratting h deal wait_prepare_to_verify = (refl, refl)
resume_deal-Keeps c env ratting h deal wait_to_pay = (refl, refl)
resume_deal-Keeps c env ratting h deal complete = (refl, refl)
resume_deal-Keeps c env ratting h deal failed = (refl, refl)

resume_deals-Keeps :
    (c : GameConfig) (env : Env) (ratting : RechargeRatting) (h : DreamHero)
    (m : Map ℤ DealWaitToPay)
    → Keeps h (resume_deals c env ratting h m).0
unfolding resume_deals
resume_deals-Keeps c env ratting h [] = (refl, refl)
resume_deals-Keeps c env ratting h ((order, deal) ∷ m) =
    let h1 = (resume_deal c env ratting h deal deal.deal_type).0 in
    let first = resume_deal-Keeps c env ratting h deal deal.deal_type in
    let more = resume_deals-Keeps c env ratting h1 m in (more.0 ∙ first.0, more.1 ∙ first.1)

recover_at_login-Keeps :
    (c : GameConfig) (env : Env) (o : Outside) (h : DreamHero)
    → Keeps h (recover_at_login c env o h)
unfolding recover_at_login
recover_at_login-Keeps c env o h =
    let times =
      o.recover_times (to_u32 (env.server_time - h.last_recover_spirit_time))
        c.config_recover_spirit_minute in
    elim (Bool-cases (ltb h.last_recover_spirit_time env.server_time)) [
      | inl e ↦ elim (Bool-cases (times ==ℤ pos 0)) [
        | inl f ↦ rw (e, f) (refl, refl)
        | inr f ↦ rw (e, f) (refl, refl)
      ]
      | inr e ↦ rw e (refl, refl)
    ]

reset_at_login-Keeps : (ranks : RankManager) (h : DreamHero) → Keeps h (reset_at_login ranks h)
unfolding reset_at_login
reset_at_login-Keeps ranks h =
    elim (Bool-cases (ranks.daily_game_begin_time == h.daily_game_time)) [
      | inl e ↦ rw e (refl, refl)
      | inr e ↦ rw e (refl, refl)
    ]

-- All of a login but the fields that are taken over.
set_info-Keeps :
    (c : GameConfig) (env : Env) (o : Outside) (ratting : RechargeRatting) (ranks : RankManager)
    (h : DreamHero) (msg : HeroDataMsg) (channel : ℤ)
    → Keeps (take_over o h msg channel) (set_info c env o ratting ranks h msg channel).0
unfolding set_info reset_record_progress
set_info-Keeps c env o ratting ranks h msg channel =
    let h0 = take_over o h msg channel in
    let h1 = (resume_deals c env ratting h0 h0.deals_wait_to_pay).0 in
    let h2 = recover_at_login c env o h1 in
    let h3 = reset_at_login ranks h2 in
    let k1 = resume_deals-Keeps c env ratting h0 h0.deals_wait_to_pay in
    let k2 = recover_at_login-Keeps c env o h1 in
    let k3 = reset_at_login-Keeps ranks h2 in
    let k4 = try_to_get_game_prize-Keeps c ranks (reset_record_progress h3) in
    (k4.0 ∙ k3.0 ∙ k2.0 ∙ k1.0, k4.1 ∙ k3.1 ∙ k2.1 ∙ k1.1)

-- A hero that is saved, loaded and entered by a fresh object has its progress again: account, name, records,
-- heroes, tasks, lotions, counters, level and the times of purchases, lottery and advertisement, and the same
-- kills in every section, whatever payments the login resumes, if its sections stand once in the map and the
-- database gives its times back as it was given them.
pub login_after_save :
    (c : GameConfig) (env : Env) (o : Outside) (ratting : RechargeRatting) (ranks : RankManager)
    (fresh h : DreamHero) (deals : List DealInfo) (channel : ℤ)
    → KeepsTimes o h
    → HasSectionsOnce h.special_kills
    → let again =
        (set_info c env o ratting ranks fresh (read_row o (save_hero o h) deals) channel).0 in
      (progress_of again ≡ progress_of h)
      × ((key : ℤ × ℤ) → section_kills key again.special_kills ≡ section_kills key h.special_kills)
unfolding take_over
login_after_save c env o ratting ranks fresh h deals channel times once =
    rw (read_saved_row o h deals times) (
      result (set_info c env o ratting ranks fresh (describe h deals) channel).0
        (set_info-Keeps c env o ratting ranks fresh (describe h deals) channel))
  where
    result :
        (again : DreamHero)
        → Keeps (take_over o fresh (describe h deals) channel) again
        → (progress_of again ≡ progress_of h)
          × ((key : ℤ × ℤ)
              → section_kills key again.special_kills ≡ section_kills key h.special_kills)
    result again k =
        (k.0, λ key. ap (section_kills key) k.1 ∙ restored_kills key h.special_kills once)
