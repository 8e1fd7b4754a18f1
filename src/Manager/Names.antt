-- ===== src/Manager/Names.antt =====
-- The generated names of gameserver/DreamHeroManager.cpp: `generateStr`, `generateName`, `generateDealOrderID`,
-- `refreshHeroTitle`, `refreshDayNumber` and the orders.
pub mod Distinct
pub mod Fresh
pub mod Shuffled
use dream_heroes.Base.{
  ==_iff, Bool, Bytes, List, [], arith, bytes_eq, false, if◌then◌else◌, ltb, none, refl, some, suc,
  true, zero, ℕ, ◌%◌, ◌&&◌, ◌*◌, ◌++◌, ◌+◌, ◌-◌, ◌/◌, ◌==◌, ◌||◌, ◌↔◌, ◌∷◌, ◌≡◌,
}
use dream_heroes.Base.Int.{pos}
use dream_heroes.Base.Map.{Key, Map, assign, find, int_key}
use dream_heroes.Sessions.Live.Kept.{left}
use dream_heroes.Text.Number.{print_int}

pub record DreamHeroManager : Type 0 where
  -- `u8 _day_number[6][10]`
  pub day_number : List (List ℕ)
  pub day_create_heroes_count : ℕ
  pub hero_day_title : Bytes
  pub names : List Bytes
  pub heroes_orders : Map Bytes ℕ
  pub deal_order_id : ℕ
  pub last_save_time : ℕ

bytes_lt : Bytes → Bytes → Bool
bytes_lt s [] = false
bytes_lt [] (b ∷ t) = true
bytes_lt (a ∷ s) (b ∷ t) = let rest = bytes_lt s t in ltb a b || ((a == b) && rest)

bytes_eq_iff : (s t : Bytes) → (bytes_eq s t ≡ true) ↔ (s ≡ t)
unfolding bytes_eq
bytes_eq_iff [] [] = (λ h. refl, λ h. refl)
bytes_eq_iff [] (b ∷ t) = (λ h. absurd (ground (arith, h)), λ h. cc)
bytes_eq_iff (a ∷ s) [] = (λ h. absurd (ground (arith, h)), λ h. cc)
bytes_eq_iff (a ∷ s) (b ∷ t) = ground (arith, ==_iff a b, bytes_eq_iff s t)

-- `std::string` as a key.
instance pub bytes_key : Key Bytes
bytes_key = record { lt = bytes_lt; beq = bytes_eq; beq_iff = bytes_eq_iff }

-- An element of an array.
unfoldable pub at {ℓ} : {A : Type ℓ} → A → List A → ℕ → A
at d [] i = d
at d (x ∷ xs) zero = x
at d (x ∷ xs) (suc i) = at d xs i

-- `c_str()`, as a function of C reads it: up to the first zero.
pub c_str : Bytes → Bytes
c_str [] = []
c_str (c ∷ s) = let rest = c_str s in if c == 0 then [] else c ∷ rest

-- The loop that fills `numbers`, with `left` turns to go.
pub numbers : ℕ → ℕ → ℕ → ℕ → List (List ℕ) → List ℕ
numbers zero i number_temp key table = []
numbers (suc left) i number_temp key table =
    at 0 (at [] table i) ((key / number_temp) % 10)
    ∷ numbers left (i + 1) (number_temp * 10) key table

-- `"%d%d%d%d%d%d"`
pub print_numbers : List ℕ → Bytes → Bytes
print_numbers [] argu = argu
print_numbers (n ∷ ns) argu = print_int (pos n) ++ print_numbers ns argu

-- `server_id` is `gGameConfig.getServerID()`.
pub generate_str : ℕ → DreamHeroManager → ℕ → Bytes → Bytes
generate_str server_id m key argu =
    c_str (server_id ∷ m.hero_day_title) ++ print_numbers (numbers 6 0 1 key m.day_number) argu

-- The loop over `_names`, which goes on behind a match with the name that `again` gives.
pub check_names :
    (DreamHeroManager → DreamHeroManager × Bytes)
    → List Bytes
    → DreamHeroManager
    → Bytes
    → DreamHeroManager × Bytes
check_names again [] m name = (m, name)
check_names again (n ∷ ns) m name =
    let taken = (let (m', name') = again m in check_names again ns m' name') in
    let free = check_names again ns m name in if bytes_eq name n then taken else free

count_up : DreamHeroManager → DreamHeroManager
count_up m = record m { day_create_heroes_count = m.day_create_heroes_count + 1 }

-- `generateName(count)`, where `left` is 101 - count: at 0 the count is over 100.
pub generate_name_from : ℕ → ℕ → DreamHeroManager → DreamHeroManager × Bytes
unfolding count_up
generate_name_from server_id zero m =
    let m' = count_up m in (m', generate_str server_id m' m'.day_create_heroes_count (113 ∷ []))
generate_name_from server_id (suc left) m =
    let m' = count_up m in
    check_names (generate_name_from server_id left) m'.names m'
      (generate_str server_id m' m'.day_create_heroes_count [])

-- `generateName()`
pub generate_name : ℕ → DreamHeroManager → DreamHeroManager × Bytes
generate_name server_id m = generate_name_from server_id 101 m

-- `AddHeroOrder`
pub add_hero_order : ℕ → Bytes → DreamHeroManager → DreamHeroManager × Bool
add_hero_order acc order m = elim (find order m.heroes_orders) [
  | none ↦ (record m { heroes_orders = assign order acc m.heroes_orders }, true)
  | some known ↦ (m, false)
]

-- `getOrderAcc`, which is 0 for an unknown order.
pub get_order_acc : Bytes → DreamHeroManager → ℕ
get_order_acc order m = elim (find order m.heroes_orders) [ none ↦ 0 | some acc ↦ acc ]

-- `"order"`
order_word : Bytes
order_word = 111 ∷ 114 ∷ 100 ∷ 101 ∷ 114 ∷ []

pub generate_deal_order_id : ℕ → ℕ → DreamHeroManager → DreamHeroManager × Bytes
unfolding order_word
generate_deal_order_id server_id acc m =
    let m' = record m { deal_order_id = m.deal_order_id + 1 } in
    let order = generate_str server_id m' m'.deal_order_id order_word in
    ((add_hero_order acc order m').0, order)

-- `refreshHeroTitle`; `day_spawn` is the time of the day at which the server was opened.
pub refresh_hero_title : ℕ → ℕ → ℕ → DreamHeroManager → DreamHeroManager
refresh_hero_title server_time server_open_time day_spawn m =
    let number = (server_time + day_spawn - server_open_time) / (60 * 60 * 24) in
    let title =
      (97 + number % 26) ∷ (97 + (number / 26) % 26) ∷ (97 + (number / (26 * 26)) % 26) ∷ 0 ∷ [] in
    if ltb server_open_time server_time
    then record m { hero_day_title = title }
    else record m { hero_day_title = 97 ∷ 97 ∷ 97 ∷ [] }

-- The six shuffles of one vector; `shuffle i` is the `random_shuffle` of turn i.
pub shuffle_rows : (ℕ → List ℕ → List ℕ) → ℕ → ℕ → List ℕ → List (List ℕ)
shuffle_rows shuffle zero i vc_number = []
shuffle_rows shuffle (suc left) i vc_number =
    let shuffled = shuffle i vc_number in shuffled ∷ shuffle_rows shuffle left (i + 1) shuffled

-- `refreshDayNumber` up to `save`.
pub refresh_day_number : (ℕ → List ℕ → List ℕ) → ℕ → ℕ → ℕ → DreamHeroManager → DreamHeroManager
refresh_day_number shuffle server_time server_open_time day_spawn m =
    let digits = 0 ∷ 1 ∷ 2 ∷ 3 ∷ 4 ∷ 5 ∷ 6 ∷ 7 ∷ 8 ∷ 9 ∷ [] in
    refresh_hero_title server_time server_open_time day_spawn
      (record m { day_number = shuffle_rows shuffle 6 0 digits; day_create_heroes_count = 0 })
