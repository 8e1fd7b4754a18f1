-- ===== src/Gate/Games.antt =====
-- The choice of a game server: gateserver/game_manager.cpp.
use dream_heroes.Base.{
  Bool-cases, List, Option, [], arith, false, if◌then◌else◌, inl, inr, ltb, none, some, suc, zero,
  ℕ, ◌&&◌, ◌==◌, ◌∷◌, ◌≡◌,
}

pub record GameClient : Type 0 where
  pub game_id : ℕ
  pub online_count : ℕ

-- The game servers, by their id; `none` is a free place.
abbrev pub Games : Type 0
Games = List (Option GameClient)

unfoldable pub game_at : Games → ℕ → Option GameClient
game_at [] i = none
game_at (g ∷ gs) zero = g
game_at (g ∷ gs) (suc i) = game_at gs i

-- `getGameClient`, with `INVALID_GAME_ID` 0 and `MAX_GAME_ID` 255.
unfoldable pub get_game_client : Games → ℕ → Option GameClient
unfolding game_at
get_game_client games gs = if ltb 0 gs && ltb gs 255 then game_at games gs else none

-- The loop of `getIdleGameClient`, with the choice so far.
unfoldable pub idle_from : Games → ℕ → Option GameClient → Option GameClient
idle_from [] limit conn = conn
idle_from (none ∷ gs) limit conn = idle_from gs limit conn
idle_from (some g ∷ gs) limit none =
    let rest = idle_from gs limit (some g) in if ltb g.online_count limit then some g else rest
idle_from (some g ∷ gs) limit (some conn) =
    let kept = idle_from gs limit (some conn) in
    let changed = idle_from gs limit (some g) in
    if ltb g.online_count conn.online_count
    then (if ltb g.online_count limit then some g else changed)
    else kept

unfoldable pub get_idle_game_client : Games → ℕ → Option GameClient
get_idle_game_client games limit = idle_from games limit none

pub get_game_client-valid :
    (games : Games) (gs : ℕ) (g : GameClient)
    → get_game_client games gs ≡ some g
    → (gs == 0) ≡ false
unfolding get_game_client
get_game_client-valid games gs g h = elim (Bool-cases (gs == 0)) [
  | inl e ↦ absurd (ground (arith, e, h))
  | inr e ↦ e
]
