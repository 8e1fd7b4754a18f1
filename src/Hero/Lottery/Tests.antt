-- ===== src/Hero/Lottery/Tests.antt =====
-- The lottery at the sample hero.
use dream_heroes.Base.{List, [], arith, refl, ◌∷◌, ◌≡◌}
use dream_heroes.Base.Int.{pos, ◌+ℤ◌, ◌<ℤ◌}
use dream_heroes.Base.Map.{assign, int_key}
use dream_heroes.Config.{Env, LotteryDrawBox, is_in_today, lottery_gold, lottery_lotion}
use dream_heroes.Error.{error_no, failed_to_lottery_today_have_been_lotteried}
use dream_heroes.Hero.Lottery.{
  draw_any, draw_box, draw_from, drawable, give_box, give_by_type, lottery_ack, pick_box,
  rand_below, rating_map, req_day_lottery, total_rating,
}
use dream_heroes.Hero.Lottery.Day.{day_lottery_once}
use dream_heroes.Hero.Lottery.Draw.{IsDrawn, draw_box-IsDrawn}
use dream_heroes.Tests.{sample_config, sample_env, sample_hero}

abbrev sample_boxes : List LotteryDrawBox
sample_boxes =
    record {
      lottery_type = lottery_lotion;
      sub_index = pos 3;
      base_count = pos 0;
      random_count = pos 0;
      rating = pos 40;
    }
    ∷ []

abbrev sample_box : LotteryDrawBox
sample_box = record {
  lottery_type = lottery_gold;
  sub_index = pos 0;
  base_count = pos 10;
  random_count = pos 5;
  rating = pos 60;
}

positive_rating : pos 0 <ℤ total_rating (sample_box ∷ sample_boxes) (pos 0)
unfolding total_rating ◌+ℤ◌
positive_rating = omega arith

draw_box-IsDrawn_example :
    let n = rand_below 71 (total_rating (sample_box ∷ sample_boxes) (pos 0)) in
    IsDrawn (draw_box sample_box sample_boxes n) (sample_box ∷ sample_boxes) (pos 0) n
draw_box-IsDrawn_example =
    draw_box-IsDrawn sample_box sample_boxes 71 (omega arith, (omega arith, tt)) positive_rating

-- Two hours before the refresh hour.
abbrev early_env : Env
early_env = record sample_env { server_time = 92800 }

drawn_once : (req_day_lottery sample_config sample_env sample_hero).1.error ≡ error_no
unfolding req_day_lottery draw_any draw_from give_box give_by_type draw_box pick_box rating_map
    assign total_rating drawable rand_below lottery_ack is_in_today ◌+ℤ◌
drawn_once = refl

drawn_early : (req_day_lottery sample_config early_env sample_hero).1.error ≡ error_no
unfolding req_day_lottery draw_any draw_from give_box give_by_type draw_box pick_box rating_map
    assign total_rating drawable rand_below lottery_ack is_in_today ◌+ℤ◌
drawn_early = refl

day_lottery_once_example :
    let drawn = (req_day_lottery sample_config sample_env sample_hero).0 in
    let (h', ack) = req_day_lottery sample_config sample_env drawn in
    (ack.error ≡ failed_to_lottery_today_have_been_lotteried) × (h' ≡ drawn)
day_lottery_once_example =
    day_lottery_once sample_config sample_config sample_env sample_env sample_hero
      (omega arith, omega arith, omega arith) refl drawn_once
