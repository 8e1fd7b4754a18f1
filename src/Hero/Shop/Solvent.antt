-- ===== src/Hero/Shop/Solvent.antt =====
-- The balances after the requests of Hero/Shop.
use dream_heroes.Base.{
  Bool-cases, Option, [], arith, if◌then◌else◌, inl, inr, none, some, ◌&&◌, ◌∷◌,
}
use dream_heroes.Base.Int.{+ℤ_parts, leb_ℤ, pos, ℤ, ◌==ℤ◌, ◌≤ℤ◌, -ℤ_parts}
use dream_heroes.Base.Map.{Map, find, int_key}
use dream_heroes.Config.{
  Env, GameConfig, LotionShop, LotionUseType, ShopConfig, SpiritShop, get_lotion_shop,
  get_shop_config, get_spirit_shop,
}
use dream_heroes.Error.{
  GameError, buy_hero_failed_not_found_grid, failed_to_buy_not_found_this_lotion, is_no,
}
use dream_heroes.Hero.{DreamHero, IsSolvent}
use dream_heroes.Hero.Shop.{
  buy_hero_found, buy_hero_pay, buy_hero_price, buy_hero_run, buy_lotion_found, buy_lotion_pay,
  buy_lotion_run, buy_spirit_error, buy_spirit_pay, get_cheap_gold, req_buy_hero, req_buy_lotion,
  req_buy_spirit, req_relive_req,
}

buy_hero_pay-IsSolvent :
    (h : DreamHero) (grid price : ℤ) → IsSolvent h → IsSolvent (buy_hero_pay h grid price).0
unfolding buy_hero_pay
buy_hero_pay-IsSolvent h grid price s = ground (arith, -ℤ_parts h.gold price)

pub req_buy_hero-IsSolvent :
    (c : GameConfig) (cheap : Map ℤ ℤ) (h : DreamHero) (grid gold : ℤ)
    → IsSolvent h
    → IsSolvent (req_buy_hero c cheap h grid gold).0
unfolding req_buy_hero buy_hero_run buy_hero_found
req_buy_hero-IsSolvent c cheap h grid gold s = by_case (get_shop_config c grid)
  where
    by_case :
        (o : Option ShopConfig)
        → IsSolvent
            (elim o as (λ x. DreamHero × GameError) [
              | none ↦ (h, buy_hero_failed_not_found_grid)
              | some config ↦ buy_hero_found config (get_cheap_gold cheap grid) h grid gold
            ]).0
    by_case none = s
    by_case (some config) =
        let price = buy_hero_price config (get_cheap_gold cheap grid) in
        ground (arith, buy_hero_pay-IsSolvent h grid price s)

-- No entry of the shop takes spirit.
abbrev pub GivesSpirit : Map ℤ SpiritShop → Type 0
GivesSpirit [] = Unit
GivesSpirit ((index, shop) ∷ m) = (pos 0 ≤ℤ shop.spirit) × GivesSpirit m

abbrev Gives : Option SpiritShop → Type 0
Gives none = Unit
Gives (some shop) = pos 0 ≤ℤ shop.spirit

find-Gives : (index : ℤ) (m : Map ℤ SpiritShop) → GivesSpirit m → Gives (find index m)
unfolding find
find-Gives index [] g = tt
find-Gives index ((i, shop) ∷ m) g = elim (Bool-cases (index ==ℤ i)) [
  | inl e ↦ rw e g.0
  | inr e ↦ rw e (find-Gives index m g.1)
]

buy_spirit-IsSolvent :
    (c : GameConfig) (env : Env) (h : DreamHero) (o : Option SpiritShop)
    → Gives o
    → IsSolvent h
    → IsSolvent (if is_no (buy_spirit_error c h o) then buy_spirit_pay env h o else h)
unfolding buy_spirit_error buy_spirit_pay
buy_spirit-IsSolvent c env h none g s = ground arith
buy_spirit-IsSolvent c env h (some shop) g s =
    ground (arith, -ℤ_parts h.jewel shop.need_jewel, +ℤ_parts h.spirit shop.spirit)

pub req_buy_spirit-IsSolvent :
    (c : GameConfig) (env : Env) (h : DreamHero) (index : ℤ)
    → GivesSpirit c.spirit_shop
    → IsSolvent h
    → IsSolvent (req_buy_spirit c env h index).0
unfolding req_buy_spirit get_spirit_shop
req_buy_spirit-IsSolvent c env h index g s =
    buy_spirit-IsSolvent c env h (get_spirit_shop c index) (find-Gives index c.spirit_shop g) s

buy_lotion_pay-IsSolvent :
    (h : DreamHero) (type : LotionUseType) (count : ℤ)
    → IsSolvent h
    → IsSolvent (buy_lotion_pay h type count).0
unfolding buy_lotion_pay
buy_lotion_pay-IsSolvent h LotionUseType.gold count s = ground (arith, -ℤ_parts h.gold count)
buy_lotion_pay-IsSolvent h LotionUseType.jewel count s = ground (arith, -ℤ_parts h.jewel count)

buy_lotion_found-IsSolvent :
    (h : DreamHero) (id : ℤ) (shop : LotionShop)
    → IsSolvent h
    → IsSolvent (buy_lotion_found h id shop).0
unfolding buy_lotion_found
buy_lotion_found-IsSolvent h id shop s =
    ground (arith, buy_lotion_pay-IsSolvent h shop.use_type shop.use_count s)

pub req_buy_lotion-IsSolvent :
    (c : GameConfig) (h : DreamHero) (id : ℤ) → IsSolvent h → IsSolvent (req_buy_lotion c h id).0
unfolding req_buy_lotion buy_lotion_run
req_buy_lotion-IsSolvent c h id s = by_case (get_lotion_shop c id)
  where
    by_case :
        (o : Option LotionShop)
        → IsSolvent
            (if leb_ℤ (pos 0) id && leb_ℤ id (pos 3)
              then elim o as (λ x. DreamHero × GameError) [
                | none ↦ (h, failed_to_buy_not_found_this_lotion)
                | some shop ↦ buy_lotion_found h id shop
              ]
              else (h, failed_to_buy_not_found_this_lotion)).0
    by_case none = ground arith
    by_case (some shop) = ground (arith, buy_lotion_found-IsSolvent h id shop s)

pub req_relive_req-IsSolvent :
    (c : GameConfig) (h : DreamHero) → IsSolvent h → IsSolvent (req_relive_req c h).0
unfolding req_relive_req
req_relive_req-IsSolvent c h s = ground (arith, -ℤ_parts h.gold c.relive_gold)
