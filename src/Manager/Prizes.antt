-- ===== src/Manager/Prizes.antt =====
-- `DailyGameUpdate` of gameserver/RankManager.cpp, which ends the daily game of a day over the live heroes of
-- gameserver/DreamHeroManager.cpp.
use dream_heroes.Base.{
  Bool-cases, List, Option, [], ap, arith, false, if◌then◌else◌, inl, inr, none, refl, some, sym,
  true, ℕ, ◌++◌, ◌==◌, ◌∙◌, ◌∷◌, ◌≡◌, ◌≢◌,
}
use dream_heroes.Base.Int.{ℤ}
use dream_heroes.Base.Map.{Map, assign, find, find-assign_ne, find-assign_self, nat_key}
use dream_heroes.Config.{Env, GameConfig, to_u32}
use dream_heroes.Hero.{DreamHero}
use dream_heroes.Hero.Daily.{daily_game_prize, try_to_get_game_prize}
use dream_heroes.Hero.Daily.Prized.{
  Prized, Tried, daily_game_prize-Prized, try_to_get_game_prize-Tried,
}
use dream_heroes.Rank.{DailyGameRank, RankManager, get_daily_game_prize}
use dream_heroes.Rank.Numbered.{found_rank, found_rank-absent}
use dream_heroes.Rank.Order.{IsOneEach, has_acc}
use dream_heroes.Rank.Save.{rows}
use mathlib.Core.Option

-- The prize of an entry, for a live hero or for a row of the database.
pub pay_entry :
    GameConfig → DailyGameRank → Map ℕ DreamHero → Option DreamHero → Map ℕ DreamHero × List (ℕ × ℤ)
pay_entry c x heroes none = (heroes, (x.acc, get_daily_game_prize c x.rank) ∷ [])
pay_entry c x heroes (some hero) =
    (assign x.acc (daily_game_prize hero (get_daily_game_prize c x.rank)) heroes, [])

-- The loop over `_heroes_daily_rank`, with the accounts and the prizes that go to the database.
pub pay_ranked : GameConfig → List DailyGameRank → Map ℕ DreamHero → Map ℕ DreamHero × List (ℕ × ℤ)
unfolding pay_entry
pay_ranked c [] heroes = (heroes, [])
pay_ranked c (x ∷ xs) heroes =
    let (heroes', first) = pay_entry c x heroes (find x.acc heroes) in
    let (heroes'', more) = pay_ranked c xs heroes' in (heroes'', first ++ more)

-- `hero->TryToGetGamePrize(true)` for every live hero.
pub try_all : GameConfig → RankManager → Map ℕ DreamHero → Map ℕ DreamHero
try_all c ranks [] = []
try_all c ranks ((a, h) ∷ heroes) = (a, try_to_get_game_prize c ranks h) ∷ try_all c ranks heroes

pub daily_game_update :
    GameConfig → Env → RankManager → Map ℕ DreamHero → Map ℕ DreamHero × RankManager × List (ℕ × ℤ)
daily_game_update c env ranks heroes =
    let (heroes', rows) = pay_ranked c ranks.heroes_daily_rank heroes in
    (
      try_all c ranks heroes',
      record ranks {
        heroes_daily_rank = [];
        heroes_rank = [];
        daily_game_begin_time = to_u32 env.server_time;
      },
      rows,
    )

-- The hero with the prize of its rank, if it has one.
abbrev prized : GameConfig → DreamHero → Option ℤ → DreamHero
prized c h none = h
prized c h (some rank) = daily_game_prize h (get_daily_game_prize c rank)

-- The prize that the database gets for an account.
abbrev pub row_prize : ℕ → List (ℕ × ℤ) → Option ℤ
row_prize a [] = none
row_prize a ((b, prize) ∷ rows) = if b == a then some prize else row_prize a rows

find-try_all :
    (c : GameConfig) (ranks : RankManager) (a : ℕ) (heroes : Map ℕ DreamHero)
    → find a (try_all c ranks heroes) ≡ Option.map (try_to_get_game_prize c ranks) (find a heroes)
unfolding try_all find
find-try_all c ranks a [] = refl
find-try_all c ranks a ((b, h) ∷ heroes) = elim (Bool-cases (a == b)) [
  | inl e ↦ rw e refl
  | inr e ↦ rw e (find-try_all c ranks a heroes)
]

-- What the loop leaves an account: `o` is its live hero before, and `r` its rank.
abbrev Paid : GameConfig → ℕ → Option DreamHero → Option ℤ → Map ℕ DreamHero × List (ℕ × ℤ) → Type 0
Paid c a none r (heroes, rows) =
    (find a heroes ≡ none) × (row_prize a rows ≡ Option.map (get_daily_game_prize c) r)
Paid c a (some h) r (heroes, rows) =
    (find a heroes ≡ some (prized c h r)) × (row_prize a rows ≡ none)

-- An entry of another account.
other_entry :
    (c : GameConfig) (a : ℕ) (x : DailyGameRank) (xs : List DailyGameRank)
    (heroes : Map ℕ DreamHero) (o q : Option DreamHero)
    → (x.acc == a) ≡ false
    → find x.acc heroes ≡ q
    → ((heroes' : Map ℕ DreamHero)
        → find a heroes' ≡ find a heroes
        → Paid c a o (found_rank a xs none) (pay_ranked c xs heroes'))
    → Paid c a o (found_rank a (x ∷ xs) none) (pay_ranked c (x ∷ xs) heroes)
unfolding pay_ranked pay_entry
other_entry c a x xs heroes none none ne e rest = rw (e, ne) (rest heroes refl)
other_entry c a x xs heroes (some h) none ne e rest = rw (e, ne) (rest heroes refl)
other_entry c a x xs heroes none (some hero) ne e rest =
    let prize = daily_game_prize hero (get_daily_game_prize c x.rank) in
    let apart : a ≢ x.acc = λ p. absurd (ground (arith, ne, p)) in
    rw (e, ne) (rest (assign x.acc prize heroes) (find-assign_ne x.acc a prize heroes apart))
other_entry c a x xs heroes (some h) (some hero) ne e rest =
    let prize = daily_game_prize hero (get_daily_game_prize c x.rank) in
    let apart : a ≢ x.acc = λ p. absurd (ground (arith, ne, p)) in
    rw (e, ne) (rest (assign x.acc prize heroes) (find-assign_ne x.acc a prize heroes apart))

-- The entry of the account, which has no other.
own_entry :
    (c : GameConfig) (a : ℕ) (x : DailyGameRank) (xs : List DailyGameRank)
    (heroes : Map ℕ DreamHero) (o : Option DreamHero)
    → x.acc ≡ a
    → find a heroes ≡ o
    → ((heroes' : Map ℕ DreamHero) (o' : Option DreamHero)
        → find a heroes' ≡ o'
        → Paid c a o' none (pay_ranked c xs heroes'))
    → Paid c a o (found_rank a (x ∷ xs) none) (pay_ranked c (x ∷ xs) heroes)
unfolding pay_ranked pay_entry
own_entry c a x xs heroes none same e rest =
    let own : (x.acc == a) ≡ true = ground (arith, same) in
    let missing : find x.acc heroes ≡ none = ap (λ t. find t heroes) same ∙ e in
    rw (missing, own) ((rest heroes none e).0, refl)
own_entry c a x xs heroes (some h) same e rest =
    let own : (x.acc == a) ≡ true = ground (arith, same) in
    let live : find x.acc heroes ≡ some h = ap (λ t. find t heroes) same ∙ e in
    let prize = daily_game_prize h (get_daily_game_prize c x.rank) in
    let kept : find a (assign x.acc prize heroes) ≡ some prize =
      ap (λ t. find t (assign x.acc prize heroes)) (sym same)
      ∙ find-assign_self x.acc prize heroes in
    rw (live, own) (rest (assign x.acc prize heroes) (some prize) kept)

pay_ranked-Paid :
    (c : GameConfig) (a : ℕ) (xs : List DailyGameRank) (heroes : Map ℕ DreamHero)
    (o : Option DreamHero)
    → find a heroes ≡ o
    → IsOneEach xs
    → Paid c a o (found_rank a xs none) (pay_ranked c xs heroes)
unfolding pay_ranked
pay_ranked-Paid c a [] heroes none e one = (e, refl)
pay_ranked-Paid c a [] heroes (some h) e one = (e, refl)
pay_ranked-Paid c a (x ∷ xs) heroes o e one = elim (Bool-cases (x.acc == a)) [
  | inl q ↦
      let same : x.acc ≡ a = ground (arith, q) in
      let absent = found_rank-absent a xs none (ap (λ t. has_acc t xs) (sym same) ∙ one.0) in
      own_entry c a x xs heroes o same e
        (λ heroes' o' e'. rw⁻¹ absent (pay_ranked-Paid c a xs heroes' o' e' one.1))
  | inr q ↦
      other_entry c a x xs heroes o (find x.acc heroes) q refl
        (λ heroes' e'. pay_ranked-Paid c a xs heroes' o (e' ∙ e) one.1)
]

-- What the end of the day leaves an account with the live hero `o` and the rank `r`.
abbrev pub DayPaid :
    GameConfig
    → RankManager
    → ℕ
    → Option DreamHero
    → Option ℤ
    → Map ℕ DreamHero
    → List (ℕ × ℤ)
    → Type 0
DayPaid c ranks a none r heroes rows =
    (find a heroes ≡ none) × (row_prize a rows ≡ Option.map (get_daily_game_prize c) r)
DayPaid c ranks a (some h) r heroes rows =
    ((h1 : DreamHero) × (h2 : DreamHero) × Prized c h r h1
      × Tried c ranks h1 h2
      × (find a heroes ≡ some h2))
    × (row_prize a rows ≡ none)

prized-Prized : (c : GameConfig) (h : DreamHero) (r : Option ℤ) → Prized c h r (prized c h r)
prized-Prized c h none = refl
prized-Prized c h (some rank) = daily_game_prize-Prized c h rank

try_all-DayPaid :
    (c : GameConfig) (ranks : RankManager) (a : ℕ) (o : Option DreamHero) (r : Option ℤ)
    (heroes : Map ℕ DreamHero) (rows : List (ℕ × ℤ))
    → Paid c a o r (heroes, rows)
    → DayPaid c ranks a o r (try_all c ranks heroes) rows
try_all-DayPaid c ranks a none r heroes rows (e, p) =
    (find-try_all c ranks a heroes ∙ ap (Option.map (try_to_get_game_prize c ranks)) e, p)
try_all-DayPaid c ranks a (some h) r heroes rows (e, p) =
    let h1 = prized c h r in
    (
      (
        h1,
        try_to_get_game_prize c ranks h1,
        prized-Prized c h r,
        try_to_get_game_prize-Tried c ranks h1,
        find-try_all c ranks a heroes ∙ ap (Option.map (try_to_get_game_prize c ranks)) e,
      ),
      p,
    )

-- The end of the daily game pays every account by its rank, if no account has two entries in the ranking. For the
-- live hero of a ranked account the gold of its rank's prize is put by, in place of what was put by before, and the
-- time of its game becomes that of the game that was paid last, unless both are equal already and nothing changes.
-- Every live hero, as it then is, whose game is over, is a game and has not been paid, has the prize of the progress after its own put by
-- instead; the others are left as they are. For a ranked account without a live hero the prize of its rank goes to
-- the database, and only then, and the account stays without one. The ranking is empty with the present time as the
-- begin of the next game.
pub daily_game_update_outcome :
    (c : GameConfig) (env : Env) (ranks : RankManager) (heroes : Map ℕ DreamHero) (a : ℕ)
    → IsOneEach ranks.heroes_daily_rank
    → let (heroes', ranks', rows) = daily_game_update c env ranks heroes in
      DayPaid c ranks a (find a heroes) (found_rank a ranks.heroes_daily_rank none) heroes' rows
      × (ranks'.heroes_daily_rank ≡ [])
      × (ranks'.heroes_rank ≡ [])
      × (ranks'.daily_game_begin_time ≡ to_u32 env.server_time)
unfolding daily_game_update
daily_game_update_outcome c env ranks heroes a one =
    let all = pay_ranked c ranks.heroes_daily_rank heroes in
    (
      try_all-DayPaid c ranks a (find a heroes) (found_rank a ranks.heroes_daily_rank none) all.0
          all.1 (pay_ranked-Paid c a ranks.heroes_daily_rank heroes (find a heroes) refl one),
      refl,
      refl,
      refl,
    )
