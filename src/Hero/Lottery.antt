-- ===== src/Hero/Lottery.antt =====
-- `ReqDayLottery` of gameserver/DreamHero.cpp: once a day the hero draws one box by weight.
pub mod Day
pub mod Draw
mod Tests
use dream_heroes.Base.{Bool, List, [], has, if◌then◌else◌, keep, not, true, ℕ, ◌%◌, ◌&&◌, ◌++◌, ◌∷◌}
use dream_heroes.Base.Int.{leb_ℤ, ltb_ℤ, pos, pos_part, ℤ, ◌+ℤ◌, ◌==ℤ◌}
use dream_heroes.Base.Map.{Map, assign, int_key}
use dream_heroes.Config.{
  Env, GameConfig, LotteryBox, LotteryDrawBox, is_in_today, lottery_gold, lottery_jewel,
  lottery_lotion, to_u32,
}
use dream_heroes.Error.{
  GameError, error_no, failed_to_lottery_error_lotion_config, failed_to_lottery_error_rating,
  failed_to_lottery_nothing_can_be_lotteried, failed_to_lottery_today_have_been_lotteried, is_no,
}
use dream_heroes.Hero.{DreamHero, set_gold, set_jewel, set_lotions}

pub record DayLotteryAck : Type 0 where
  pub error : GameError
  pub lottery_type : LotteryBox
  pub index : ℤ
  pub count : ℤ
  pub current_jewel : ℤ
  pub current_gold : ℤ
  pub current_lotions : List ℤ
  pub last_lottery_time : ℕ

-- A lotion that the hero has is not drawn again.
pub drawable : List ℤ → LotteryDrawBox → Bool
drawable lotions box = elim box.lottery_type [
  | lottery_lotion ↦ not (has (λ l. box.sub_index ==ℤ l) lotions)
  | lottery_jewel ↦ true
  | lottery_gold ↦ true
]

-- The loop that enters each box in a map under the sum of the ratings before it.
pub rating_map : List LotteryDrawBox → ℤ → Map ℤ LotteryDrawBox → Map ℤ LotteryDrawBox
rating_map [] rating m = m
rating_map (box ∷ boxes) rating m = rating_map boxes (rating +ℤ box.rating) (assign rating box m)

pub total_rating : List LotteryDrawBox → ℤ → ℤ
total_rating [] rating = rating
total_rating (box ∷ boxes) rating = total_rating boxes (rating +ℤ box.rating)

-- The loop over the map: the last entry whose key is not above the drawn number.
pub pick_box : Map ℤ LotteryDrawBox → ℤ → LotteryDrawBox → LotteryDrawBox
pick_box [] current_rating entry = entry
pick_box ((key, box) ∷ m) current_rating entry =
    let rest = pick_box m current_rating box in if ltb_ℤ current_rating key then entry else rest

-- The box that the drawn number selects among boxes the first of which is `first`.
pub draw_box : LotteryDrawBox → List LotteryDrawBox → ℤ → LotteryDrawBox
unfolding rating_map pick_box
draw_box first boxes current_rating =
    pick_box (rating_map (first ∷ boxes) (pos 0) []) current_rating first

-- `rand() % n`, for `n` above zero.
pub rand_below : ℕ → ℤ → ℤ
rand_below r n = pos (r % pos_part n)

-- What a box of gold or jewels gives.
box_count : LotteryDrawBox → ℕ → ℤ
unfolding rand_below
box_count box r =
    box.base_count
    +ℤ (if ltb_ℤ (pos 0) box.random_count then rand_below r box.random_count else pos 0)

give_by_type : LotteryBox → LotteryDrawBox → ℕ → DreamHero → DreamHero × GameError
unfolding box_count
give_by_type lottery_lotion box r h =
    if leb_ℤ (pos 0) box.sub_index && leb_ℤ box.sub_index (pos 3)
    then (set_lotions h (h.lotions ++ box.sub_index ∷ []), error_no)
    else (h, failed_to_lottery_error_lotion_config)
give_by_type lottery_gold box r h = (set_gold h (h.gold +ℤ box_count box r), error_no)
give_by_type lottery_jewel box r h = (set_jewel h (h.jewel +ℤ box_count box r), error_no)

give_box : LotteryDrawBox → ℕ → DreamHero → DreamHero × GameError
give_box box r h = give_by_type box.lottery_type box r h

-- What the answer names of the drawn box.
lottery_ack : LotteryDrawBox → ℕ → DreamHero → GameError → DayLotteryAck
unfolding box_count
lottery_ack box r h error = record {
  error = error;
  lottery_type = box.lottery_type;
  index = elim box.lottery_type [
    | lottery_lotion ↦ if is_no error then box.sub_index else pos 0
    | lottery_gold ↦ pos 0
    | lottery_jewel ↦ pos 0
  ];
  count = elim box.lottery_type [
    | lottery_lotion ↦ pos 0
    | lottery_gold ↦ box_count box r
    | lottery_jewel ↦ box_count box r
  ];
  current_jewel = h.jewel;
  current_gold = h.gold;
  current_lotions = h.lotions;
  last_lottery_time = h.last_day_lottery_time;
}

-- An answer without a drawn box.
refused_ack : DreamHero → GameError → DayLotteryAck
refused_ack h error = record {
  error = error;
  lottery_type = lottery_jewel;
  index = pos 0;
  count = pos 0;
  current_jewel = h.jewel;
  current_gold = h.gold;
  current_lotions = h.lotions;
  last_lottery_time = h.last_day_lottery_time;
}

-- The day is used up before the box is given, also where the box then turns out to be misconfigured.
draw_from : Env → LotteryDrawBox → List LotteryDrawBox → DreamHero → DreamHero × DayLotteryAck
draw_from env first boxes h =
    let rating = total_rating (first ∷ boxes) (pos 0) in
    if ltb_ℤ (pos 0) rating
    then (let drawn = record h { last_day_lottery_time = to_u32 env.server_time } in
        let box = draw_box first boxes (rand_below (env.rand 0) rating) in
        let (h', error) = give_box box (env.rand 1) drawn in
        (h', lottery_ack box (env.rand 1) h' error))
    else (h, refused_ack h failed_to_lottery_error_rating)

-- The boxes that can be drawn: there are some, or none.
draw_any : Env → DreamHero → List LotteryDrawBox → DreamHero × DayLotteryAck
draw_any env h [] = (h, refused_ack h failed_to_lottery_nothing_can_be_lotteried)
draw_any env h (first ∷ boxes) = draw_from env first boxes h

pub req_day_lottery : GameConfig → Env → DreamHero → DreamHero × DayLotteryAck
req_day_lottery c env h =
    if is_in_today env h.last_day_lottery_time
    then (h, refused_ack h failed_to_lottery_today_have_been_lotteried)
    else draw_any env h (keep (drawable h.lotions) c.lottery_draw_configs)
