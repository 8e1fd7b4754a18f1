-- ===== src/Tests/Shop.antt =====
-- The shop at the sample hero.
use dream_heroes.Base.{[], ◌∷◌, ◌≡◌, ◌≢◌, ◌⊎◌}
use dream_heroes.Base.Int.{pos, ◌+ℤ◌}
use dream_heroes.Config.{get_lotion_shop, get_spirit_shop}
use dream_heroes.Error.{error_no, failed_to_received_daily_game_prize_no_prize}
use dream_heroes.Hero.Rewards.{req_concern_wei_xin, req_receive_daily_game_prize}
use dream_heroes.Hero.Rewards.Laws.{GiftOnce, gifts_once}
use dream_heroes.Hero.Shop.{req_buy_hero, req_buy_lotion, req_buy_spirit}
use dream_heroes.Hero.Shop.Payment.{
  HeroBought, LotionOutcome, SpiritBought, buy_hero_payment, spirit_lotion_payment,
}
use dream_heroes.Tests.{sample_config, sample_env, sample_hero}

buy_hero_payment_example :
    let (h', ack) = req_buy_hero sample_config [] sample_hero (pos 1) (pos 80) in
    HeroBought sample_hero 1 (pos 80) h' ack.error × (ack.current_gold ≡ h'.gold)
buy_hero_payment_example = buy_hero_payment sample_config [] sample_hero 1 (pos 80)

spirit_lotion_payment_example :
    let (h1, ack1) = req_buy_spirit sample_config sample_env sample_hero (pos 0) in
    let (h2, ack2) = req_buy_lotion sample_config sample_hero (pos 2) in
    (((ack1.error ≡ error_no)
        × SpiritBought sample_config sample_hero h1 (get_spirit_shop sample_config (pos 0)))
      ⊎ ((ack1.error ≢ error_no) × (h1 ≡ sample_hero)))
    × LotionOutcome sample_hero (pos 2) h2 ack2.error (get_lotion_shop sample_config (pos 2))
spirit_lotion_payment_example =
    spirit_lotion_payment sample_config sample_env sample_hero (pos 0) (pos 2)

gifts_once_example :
    let prize = (req_receive_daily_game_prize sample_hero).0 in
    let (gift, ack) = req_concern_wei_xin sample_config sample_hero (119 ∷ 120 ∷ []) in
    ((prize.gold +ℤ prize.daily_game_gold ≡ sample_hero.gold +ℤ sample_hero.daily_game_gold)
      × (prize.daily_game_gold ≡ pos 0)
      × ((req_receive_daily_game_prize prize).1.error
          ≡ failed_to_received_daily_game_prize_no_prize)
      × ((req_receive_daily_game_prize prize).0 ≡ prize))
    × GiftOnce sample_config sample_hero [] gift ack.error
gifts_once_example = gifts_once sample_config sample_hero (119 ∷ 120 ∷ []) []
