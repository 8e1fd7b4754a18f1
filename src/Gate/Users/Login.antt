-- ===== src/Gate/Users/Login.antt =====
-- The way of a player into the game: `addToWait` of gateserver/user_manager.cpp, and `parseLoginGame` of
-- gateserver/user_session.cpp with `checkConn`.
use dream_heroes.Base.{[], ap, false, none, refl, some, ℕ, ◌∷◌, ◌≡◌, ◌≢◌}
use dream_heroes.Base.Int.{ℤ}
use dream_heroes.Base.Map.{assign, erase, find, find-assign_self, find-erase_self, nat_key}
use dream_heroes.Gate.Games.{GameClient, Games, get_idle_game_client}
use dream_heroes.Gate.Tables.{LacksValue, add_data-new, find-add_data, get_key-assign}
use dream_heroes.Gate.Users.{
  SessionState, UserManager, UserSession, add_new_player, add_to_wait, channel_or, check_conn,
  conn_by, conn_waiting, connect, disable, enter_online, get_account, is_connect, kick_online,
  or_invalid, or_new, parse_login_game, put_session, session_at, set_state, wait_account,
  wait_close,
}

-- The transaction and the account do not occur in the tables.
abbrev pub IsUnknown : ℕ → ℕ → UserManager → Type 0
IsUnknown t a m =
    (find t m.onlines ≡ none)
    × (find t m.wait_map ≡ none)
    × (find t m.wait_map_channel ≡ none)
    × (find a m.onlineaccs ≡ none)
    × LacksValue t m.onlineaccs

pub session_at-put :
    (p : ℕ) (s : UserSession) (m : UserManager) → session_at p (put_session p s m) ≡ s
unfolding session_at or_new put_session
session_at-put p s m = ap or_new (find-assign_self p s m.sessions)

pub is_connect-ne : (s : SessionState) → s ≢ connect → is_connect s ≡ false
unfolding is_connect
is_connect-ne disable h = refl
is_connect-ne wait_account h = refl
is_connect-ne connect h = absurd (h refl)
is_connect-ne wait_close h = refl

waiting : ℕ → ℕ → ℤ → UserManager → UserManager
waiting t a c m = record m {
  wait_map = assign t a m.wait_map;
  wait_map_channel = assign t c m.wait_map_channel;
}

add_to_wait-new :
    (games : Games) (t a : ℕ) (c : ℤ) (m : UserManager)
    → IsUnknown t a m
    → (add_to_wait games t a c m).0 ≡ waiting t a c m
unfolding add_to_wait kick_online waiting
add_to_wait-new games t a c m (h0, h1, h2, _, _) =
    rw (h0, add_data-new t a m.wait_map h1, add_data-new t c m.wait_map_channel h2) refl

check_conn-waiting :
    (games : Games) (limit t p v : ℕ) (c : ℤ) (m : UserManager) (g : GameClient)
    → find t m.wait_map ≡ some v
    → find t m.wait_map_channel ≡ some c
    → get_idle_game_client games limit ≡ some g
    → check_conn games limit t p m
      ≡ conn_waiting t p v c
          (record m {
            wait_map = erase t m.wait_map;
            wait_map_channel = erase t m.wait_map_channel;
          })
          (some g)
unfolding check_conn conn_by channel_or
check_conn-waiting games limit t p v c m g hw hc hg = rw (hw, hc, hg) refl

-- Where the session is in the game.
abbrev pub IsPlaying : ℕ → ℕ → ℕ → UserManager → Type 0
IsPlaying t p gs m =
    (find t m.onlines ≡ some p)
    × ((session_at p m).state ≡ connect)
    × ((session_at p m).tranid ≡ t)
    × ((session_at p m).gs_id ≡ gs)

login_known :
    (games : Games) (limit t a p : ℕ) (c : ℤ) (m : UserManager) (g : GameClient)
    → IsUnknown t a m
    → get_idle_game_client games limit ≡ some g
    → (session_at p m).state ≢ connect
    → let (m', msgs) = parse_login_game games limit p t (waiting t a c m) in
      (msgs ≡ add_new_player g.game_id t a c ∷ [])
      × IsPlaying t p g.game_id m'
      × (get_account t m' ≡ a)
      × (find t m'.wait_map ≡ none)
unfolding parse_login_game conn_waiting enter_online set_state waiting put_session session_at or_new
login_known games limit t a p c m g (h0, h1, h2, h3, h4) hg hs =
    let conn =
      check_conn-waiting games limit t p a c (waiting t a c m) g (find-assign_self t a m.wait_map)
        (find-assign_self t c m.wait_map_channel) hg in
    let s = record (session_at p m) { gs_id = g.game_id; state = connect } in
    let s' = record s { tranid = t } in
    rw
      (
        conn,
        is_connect-ne (session_at p m).state hs,
        find-assign_self p s m.sessions,
        find-assign_self p s' (assign p s m.sessions),
        add_data-new a t m.onlineaccs h3,
      )
      (
        refl,
        (find-add_data t p m.onlines h0, refl, refl, refl),
        unfold get_account or_invalid in ap or_invalid (get_key-assign a t m.onlineaccs h4),
        find-erase_self t (assign t a m.wait_map),
      )

-- A player that the gate does not know is announced by the login server and connects: if there is a game
-- server to choose and the session is not connected yet, the session is in the game on that server, the server
-- is told the transaction, the account and the channel, the transaction stands for the account, and nobody
-- waits under it.
pub login_outcome :
    (games : Games) (limit t a p : ℕ) (c : ℤ) (m : UserManager) (g : GameClient)
    → IsUnknown t a m
    → get_idle_game_client games limit ≡ some g
    → (session_at p m).state ≢ connect
    → let announced = (add_to_wait games t a c m).0 in
      let (m', msgs) = parse_login_game games limit p t announced in
      (msgs ≡ add_new_player g.game_id t a c ∷ [])
      × IsPlaying t p g.game_id m'
      × (get_account t m' ≡ a)
      × (find t m'.wait_map ≡ none)
login_outcome games limit t a p c m g unknown idle idle_session =
    rw (add_to_wait-new games t a c m unknown)
      (login_known games limit t a p c m g unknown idle idle_session)
