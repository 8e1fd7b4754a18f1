-- ===== src/Error.antt =====
-- The error codes of an answer (message/dream_heroes.proto, `GameError`).
use dream_heroes.Base.{Bool, true, false}

pub data GameError : Type 0 where
  error_no : GameError
  can_not_enter_game_the_instance_is_lock : GameError
  can_not_enter_game_the_character_is_lock : GameError
  can_not_enter_game_the_section_is_lock : GameError
  can_not_enter_game_not_enough_spirit : GameError
  can_not_buy_hero_not_enoughgold : GameError
  can_not_pass_game_the_instance_not_have_enough_gold : GameError
  not_enter_the_exit_game : GameError
  not_found_the_chapter_when_enter_game : GameError
  the_chapter_is_not_lock : GameError
  unlock_chapter_failed_not_found_the_unlock_chapter : GameError
  unlock_chapter_failed_the_required_section_not_pass : GameError
  unlock_chapter_failed_you_have_to_complete_enough_tasks : GameError
  unlock_chapter_failed_you_not_have_enough_gold : GameError
  refresh_advertisement_task_failed_in_cd : GameError
  refresh_advertisement_task_failed_not_found_give_up_task_id : GameError
  refresh_advertisement_task_failed_unknow : GameError
  refresh_advertisement_task_failed_not_enough_gold : GameError
  buy_hero_failed_not_enough_gold : GameError
  buy_hero_failed_the_price_is_old : GameError
  buy_hero_failed_not_found_grid : GameError
  buy_hero_failed_not_pass_required_section : GameError
  modify_current_failed_the_character_is_lock : GameError
  buy_gold_failed_not_found_config : GameError
  buy_gold_failed_not_found_order : GameError
  buy_gold_failed_the_order_have_been_completed : GameError
  create_deal_failed_the_http_error_respone : GameError
  create_deal_failed_the_http_respone_failed : GameError
  create_deal_dailed_the_http_respone_error_product_id : GameError
  verify_deal_failed_the_http_error_respone : GameError
  verify_deal_failed_the_http_respone_failed : GameError
  buy_spirit_failed_not_enough_jewel : GameError
  buy_spirit_failed_can_not_buy_more_spirit : GameError
  buy_spirit_failed_not_found_config : GameError
  cmd_failed_required_gm_level : GameError
  relive_failed_not_enough_god : GameError
  failed_to_buy_lotion_not_enough_gold : GameError
  failed_to_buy_lotion_not_enough_jewel : GameError
  failed_to_buy_lotion_already_have_lotion : GameError
  failed_to_buy_not_found_this_lotion : GameError
  failed_exit_game_not_found_the_use_lotion : GameError
  failed_to_lottery_today_have_been_lotteried : GameError
  failed_to_lottery_nothing_can_be_lotteried : GameError
  failed_to_lottery_error_rating : GameError
  failed_to_lottery_error_lotion_config : GameError
  failed_to_apply_deal_order_not_foound_config : GameError
  failed_to_enter_daily_game_you_have_been_already_begin_game : GameError
  failed_to_update_daily_progress_error_progress : GameError
  failed_to_update_daily_progress_the_game_not_begin : GameError
  failed_to_update_daily_progress_no_hp : GameError
  failed_to_update_daily_progress_is_max_progress : GameError
  failed_to_received_daily_game_prize_no_prize : GameError
  failed_to_reset_daily_game_not_enough_jewel : GameError
  failed_to_reset_daily_game_use_out : GameError
  failed_to_reset_daily_game_the_progress_is_zero : GameError
  failed_to_reset_daily_game_the_the_hp_is_full : GameError
  failed_to_concern_wei_xin_have_been_concerned_wei_xin : GameError
  failed_to_concern_wei_xin_error_cdkey : GameError
  failed_to_concern_wei_xin_error_can_not_concern_wei_xin : GameError
  unknow : GameError

-- `error == message::Error_NO`
abbrev pub is_no : GameError → Bool
is_no error_no = true
is_no e = false
