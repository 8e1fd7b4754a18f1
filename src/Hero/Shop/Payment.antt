-- ===== src/Hero/Shop/Payment.antt =====
-- The purchases of Hero/Shop: what they take and give.
use dream_heroes.Base.{
  Bool, List, Option, [], arith, false, get_elem?, get_elem?-set_self, has, if◌then◌else◌, inl, inr,
  leb, length, length-append, length-replicate, none, refl, replicate, set, some, true, ℕ, ◌++◌,
  ◌+◌, ◌-◌, ◌<◌, ◌∷◌, ◌≡◌, ◌≢◌, ◌⊎◌,
}
use dream_heroes.Base.Int.{+ℤ_parts, ==ℤ_iff, pos, ℤ, ◌+ℤ◌, ◌-ℤ◌, ◌==ℤ◌, ◌≤ℤ◌, -ℤ_parts}
use dream_heroes.Base.Map.{Map}
use dream_heroes.Config.{
  Env, GameConfig, LotionShop, LotionUseType, ShopConfig, SpiritShop, get_lotion_shop,
  get_shop_config, get_spirit_shop,
}
use dream_heroes.Error.{GameError, buy_hero_failed_not_found_grid, error_no, is_no}
use dream_heroes.Hero.{DreamHero}
use dream_heroes.Hero.Shop.{
  buy_hero_found, buy_hero_pay, buy_hero_price, buy_hero_run, buy_lotion_found, buy_lotion_run,
  buy_spirit_error, buy_spirit_pay, get_cheap_gold, req_buy_hero, req_buy_lotion, req_buy_spirit,
  unlock_grid,
}

-- After the loop that grows it, the list of heroes reaches past the grid.
grown_reaches :
    (i : ℕ) (heroes : List Bool)
    → i
      < length (
          if leb (length heroes) (i + 1)
          then heroes ++ replicate (i + 1 - length heroes + 1) false
          else heroes)
grown_reaches i heroes = ground (
  arith,
  length-append heroes (replicate (i + 1 - length heroes + 1) false),
  length-replicate (i + 1 - length heroes + 1) false,
)

unlock_grid-eq :
    (i : ℕ) (heroes : List Bool)
    → unlock_grid (pos i) heroes
      ≡ set
          (if leb (length heroes) (i + 1)
            then heroes ++ replicate (i + 1 - length heroes + 1) false
            else heroes)
          i
          true
unfolding unlock_grid ◌+ℤ◌ ◌-ℤ◌
unlock_grid-eq i heroes = ground arith

unlock_grid_lem :
    (i : ℕ) (heroes : List Bool) → get_elem? (unlock_grid (pos i) heroes) i ≡ some true
unlock_grid_lem i heroes =
    rw (unlock_grid-eq i heroes) (get_elem?-set_self _ i true (grown_reaches i heroes))

-- What a purchase of a hero at this price has done, by its error code.
abbrev pub HeroBought : DreamHero → ℕ → ℤ → DreamHero → GameError → Type 0
HeroBought h i price h' error =
    ((error ≡ error_no)
      × (h'.gold ≡ h.gold -ℤ price)
      × (pos 0 ≤ℤ h'.gold)
      × (pos 0 ≤ℤ price)
      × (get_elem? h'.heroes i ≡ some true))
    ⊎ ((error ≢ error_no) × (h' ≡ h))

buy_hero_pay-HeroBought :
    (h : DreamHero) (i : ℕ) (price : ℤ)
    → pos 0 ≤ℤ price
    → HeroBought h i price (buy_hero_pay h (pos i) price).0 (buy_hero_pay h (pos i) price).1
unfolding buy_hero_pay
buy_hero_pay-HeroBought h i price p =
    ground (arith, unlock_grid_lem i h.heroes, -ℤ_parts h.gold price)

price_nonneg : (config : ShopConfig) (cheap_gold : ℤ) → pos 0 ≤ℤ buy_hero_price config cheap_gold
unfolding buy_hero_price
price_nonneg config cheap_gold = ground arith

buy_hero_found-HeroBought :
    (config : ShopConfig) (cheap_gold : ℤ) (h : DreamHero) (i : ℕ) (buy_gold : ℤ)
    → let (h', error) = buy_hero_found config cheap_gold h (pos i) buy_gold in
      HeroBought h i buy_gold h' error
unfolding buy_hero_found
buy_hero_found-HeroBought config cheap_gold h i buy_gold =
    let price = buy_hero_price config cheap_gold in
    ground (
      arith,
      ==ℤ_iff price buy_gold,
      buy_hero_pay-HeroBought h i price (price_nonneg config cheap_gold),
    )

-- Buying a hero for a grid that is no negative number either takes exactly the price that the client
-- named, which is not negative and which the gold covered, and unlocks the grid, or it answers with an
-- error and leaves the hero as it was. In both cases the answer shows the gold after the call.
pub buy_hero_payment :
    (c : GameConfig) (cheap : Map ℤ ℤ) (h : DreamHero) (i : ℕ) (buy_gold : ℤ)
    → let (h', ack) = req_buy_hero c cheap h (pos i) buy_gold in
      HeroBought h i buy_gold h' ack.error × (ack.current_gold ≡ h'.gold)
unfolding req_buy_hero buy_hero_run
buy_hero_payment c cheap h i buy_gold = (
  elim (get_shop_config c (pos i)) as (λ o. HeroBought h i buy_gold (run o).0 (run o).1) [
    | none ↦ inr (λ q. cc, refl)
    | some config ↦ buy_hero_found-HeroBought config (get_cheap_gold cheap (pos i)) h i buy_gold
  ],
  refl,
)
  where
    run : Option ShopConfig → DreamHero × GameError
    run o = elim o [
      | none ↦ (h, buy_hero_failed_not_found_grid)
      | some config ↦ buy_hero_found config (get_cheap_gold cheap (pos i)) h (pos i) buy_gold
    ]

-- What a purchase of spirit has done; `none` stands for an index that the configuration lacks.
abbrev pub SpiritBought : GameConfig → DreamHero → DreamHero → Option SpiritShop → Type 0
SpiritBought c h h' none = ⊥
SpiritBought c h h' (some shop) =
    (h'.jewel ≡ h.jewel -ℤ shop.need_jewel)
    × (pos 0 ≤ℤ h'.jewel)
    × (h'.spirit ≡ h.spirit +ℤ shop.spirit)
    × (h'.day_buy_spirit ≡ h.day_buy_spirit +ℤ pos 1)
    × (h'.day_buy_spirit ≤ℤ c.config_day_buy_spirit)

buy_spirit_cases :
    (c : GameConfig) (env : Env) (h : DreamHero) (o : Option SpiritShop)
    → ((buy_spirit_error c h o ≡ error_no) × SpiritBought c h (buy_spirit_pay env h o) o)
      ⊎ (buy_spirit_error c h o ≢ error_no)
unfolding buy_spirit_error buy_spirit_pay
buy_spirit_cases c env h none = inr (ground arith)
buy_spirit_cases c env h (some shop) =
    ground (arith, -ℤ_parts h.jewel shop.need_jewel, +ℤ_parts h.day_buy_spirit (pos 1))

-- Buying spirit either takes exactly the jewels of the configured entry, which the balance covered, gives
-- its spirit and counts the purchase within the day's limit, or it answers with an error and leaves the
-- hero as it was.
buy_spirit_payment :
    (c : GameConfig) (env : Env) (h : DreamHero) (index : ℤ)
    → let (h', ack) = req_buy_spirit c env h index in
      ((ack.error ≡ error_no) × SpiritBought c h h' (get_spirit_shop c index))
      ⊎ ((ack.error ≢ error_no) × (h' ≡ h))
unfolding req_buy_spirit
buy_spirit_payment c env h index =
    let shop = get_spirit_shop c index in
    elim (buy_spirit_cases c env h shop) [
      | inl (ok, bought) ↦ rw ok (inl (refl, bought))
      | inr refused ↦ inr (refused, kept (buy_spirit_error c h shop) refused)
    ]
  where
    kept :
        (e : GameError)
        → e ≢ error_no
        → (if is_no e then buy_spirit_pay env h (get_spirit_shop c index) else h) ≡ h
    kept e p = ground arith

-- The balance in the currency of an entry of the lotion shop.
abbrev balance : LotionUseType → DreamHero → ℤ
balance LotionUseType.gold h = h.gold
balance LotionUseType.jewel h = h.jewel

-- What a purchase of a lotion has done, by its error code.
abbrev LotionBought : DreamHero → ℤ → LotionShop → DreamHero → GameError → Type 0
LotionBought h lotion_id shop h' error =
    ((error ≡ error_no)
      × (balance shop.use_type h' ≡ balance shop.use_type h -ℤ shop.use_count)
      × (pos 0 ≤ℤ balance shop.use_type h')
      × (has (λ l. l ==ℤ lotion_id) h.lotions ≡ false)
      × (h'.lotions ≡ h.lotions ++ lotion_id ∷ []))
    ⊎ ((error ≢ error_no) × (h' ≡ h))

buy_lotion_by_type :
    (h : DreamHero) (id : ℤ) (shop : LotionShop) (t : LotionUseType)
    → shop.use_type ≡ t
    → LotionBought h id shop (buy_lotion_found h id shop).0 (buy_lotion_found h id shop).1
unfolding buy_lotion_found
buy_lotion_by_type h id shop LotionUseType.gold e = ground (arith, -ℤ_parts h.gold shop.use_count)
buy_lotion_by_type h id shop LotionUseType.jewel e = ground (arith, -ℤ_parts h.jewel shop.use_count)

-- The outcome for an entry of the shop, and for none.
abbrev pub LotionOutcome : DreamHero → ℤ → DreamHero → GameError → Option LotionShop → Type 0
LotionOutcome h id h' error none = (error ≢ error_no) × (h' ≡ h)
LotionOutcome h id h' error (some shop) = LotionBought h id shop h' error

buy_lotion_run-LotionOutcome :
    (c : GameConfig) (h : DreamHero) (id : ℤ) (o : Option LotionShop)
    → get_lotion_shop c id ≡ o
    → let (h', error) = buy_lotion_run c h id in LotionOutcome h id h' error o
unfolding buy_lotion_run
buy_lotion_run-LotionOutcome c h id none e = ground arith
buy_lotion_run-LotionOutcome c h id (some shop) e =
    let found = buy_lotion_by_type h id shop shop.use_type refl in ground (arith, found)

-- Buying a lotion that the shop has either takes exactly its price in its currency, which the balance
-- covered, and adds a lotion that the hero did not have, or it answers with an error and leaves the hero
-- as it was; a lotion that the shop lacks is refused likewise.
buy_lotion_payment :
    (c : GameConfig) (h : DreamHero) (lotion_id : ℤ)
    → let (h', ack) = req_buy_lotion c h lotion_id in
      LotionOutcome h lotion_id h' ack.error (get_lotion_shop c lotion_id)
unfolding req_buy_lotion
buy_lotion_payment c h lotion_id =
    buy_lotion_run-LotionOutcome c h lotion_id (get_lotion_shop c lotion_id) refl

-- The purchases of spirit and of lotions take what is configured, or nothing. Buying spirit either takes exactly
-- the jewels of the configured entry, which the balance covered, gives its spirit and counts the purchase within
-- the day's limit, or it answers with an error and leaves the hero as it was. Buying a lotion that the shop has
-- either takes exactly its price in its currency, which the balance covered, and adds a lotion that the hero did
-- not have, or it answers with an error and leaves the hero as it was; a lotion that the shop lacks is refused
-- likewise.
pub spirit_lotion_payment :
    (c : GameConfig) (env : Env) (h : DreamHero) (index lotion_id : ℤ)
    → let (h1, ack1) = req_buy_spirit c env h index in
      let (h2, ack2) = req_buy_lotion c h lotion_id in
      (((ack1.error ≡ error_no) × SpiritBought c h h1 (get_spirit_shop c index))
        ⊎ ((ack1.error ≢ error_no) × (h1 ≡ h)))
      × LotionOutcome h lotion_id h2 ack2.error (get_lotion_shop c lotion_id)
spirit_lotion_payment c env h index lotion_id =
    (buy_spirit_payment c env h index, buy_lotion_payment c h lotion_id)
