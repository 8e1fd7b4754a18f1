-- ===== src/Tests/Saved.antt =====
-- Saving and loading at the sample hero, with a calendar in which a time is its year.
use dream_heroes.Base.{
  List, [], ap, arith, false, refl, some, ℕ, ◌%◌, ◌*◌, ◌+◌, ◌<◌, ◌^◌, ◌∷◌, ◌≡◌, ◌≢◌,
}
use dream_heroes.Base.Int.{negsuc, pos, pos_part, ℤ, ◌+ℤ◌, ◌-ℤ◌}
use dream_heroes.Base.Map.{pair_key}
use dream_heroes.Hero.{DreamHero, interactive, monster}
use dream_heroes.Hero.Deals.{RechargeRatting}
use dream_heroes.Hero.Progress.{progress_of}
use dream_heroes.Hero.Saved.Kept.{HasSectionsOnce, beq_of_ne, section_kills}
use dream_heroes.Hero.Saved.Login.{set_info}
use dream_heroes.Hero.Saved.Login.Again.{login_after_save}
use dream_heroes.Hero.Saved.RoundTrip.{KeepsTimes, describe, load_saved_hero}
use dream_heroes.Hero.Saved.Row.{
  DealInfo, build_unix_time_to_string, db_do_query_hero_info, read_row, save_hero,
}
use dream_heroes.Tests.{sample_config, sample_env, sample_hero, sample_outside, sample_ranks}
use dream_heroes.Text.Number.{atoi-dash}

abbrev saved_hero : DreamHero
saved_hero = record sample_hero {
  last_buy_spirit_time = 7;
  daily_game_time = 12;
  special_kills =
      ((pos 1, pos 1), record { sub_type = monster; id = pos 5 } ∷ [])
      ∷ ((pos 1, pos 2), [])
      ∷ ((pos 2, pos 1), record { sub_type = interactive; id = pos 6 } ∷ [])
      ∷ [];
  special_creatures = (pos 5, negsuc 0) ∷ [];
}

year_read :
    (t : ℕ)
    → t < 1900
    → sample_outside.unix_timestamp (build_unix_time_to_string sample_outside t) ≡ t
unfolding build_unix_time_to_string ◌+ℤ◌ ◌-ℤ◌
year_read t h =
    let year : (pos (t % 2 ^ 32) -ℤ pos 1900) +ℤ pos 1900 ≡ pos t = ground arith in
    rw (year, atoi-dash t) refl

saved_times : KeepsTimes sample_outside saved_hero
saved_times = (
  year_read 0 (omega arith),
  year_read 0 (omega arith),
  year_read 7 (omega arith),
  year_read 0 (omega arith),
  year_read 12 (omega arith),
  year_read 0 (omega arith),
  year_read 0 (omega arith),
)

saved_sections : HasSectionsOnce saved_hero.special_kills
saved_sections =
    let apart : (a b : ℤ × ℤ)
        → pos_part a.0 + 2 * pos_part a.1 ≢ pos_part b.0 + 2 * pos_part b.1
        → pair_key.beq a b ≡ false =
      λ a b h. beq_of_ne a b (λ q. h (ap (λ t. pos_part t.0 + 2 * pos_part t.1) q)) in
    (
      (
        apart (pos 1, pos 1) (pos 1, pos 2) (omega arith),
        (apart (pos 1, pos 1) (pos 2, pos 1) (omega arith), tt),
      ),
      ((apart (pos 1, pos 2) (pos 2, pos 1) (omega arith), tt), (tt, tt)),
    )

abbrev sample_deals : List DealInfo
sample_deals =
    record {
      order = pos 3;
      product_id = 97 ∷ [];
      status = pos 0;
      complete_status = pos 1;
      cur_receipt = [];
    }
    ∷ []

load_saved_hero_example :
    db_do_query_hero_info sample_outside (some (save_hero sample_outside saved_hero)) sample_deals
    ≡ some (describe saved_hero sample_deals)
load_saved_hero_example = load_saved_hero sample_outside saved_hero sample_deals saved_times

abbrev sample_ratting : RechargeRatting
sample_ratting = record { gold_ratting = pos 1; jewel_ratting = pos 1 }

login_after_save_example :
    let again =
      (set_info sample_config sample_env sample_outside sample_ratting sample_ranks sample_hero
        (read_row sample_outside (save_hero sample_outside saved_hero) sample_deals)
        (pos 1)).0 in
    (progress_of again ≡ progress_of saved_hero)
    × ((key : ℤ × ℤ)
        → section_kills key again.special_kills ≡ section_kills key saved_hero.special_kills)
login_after_save_example =
    login_after_save sample_config sample_env sample_outside sample_ratting sample_ranks sample_hero
      saved_hero sample_deals (pos 1) saved_times saved_sections
