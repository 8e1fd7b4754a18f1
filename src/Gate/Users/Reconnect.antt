-- ===== src/Gate/Users/Reconnect.antt =====
-- A lost connection and its timer: `on_close` and `parseLoginGame` of gateserver/user_session.cpp, `checkClose`,
-- `checkConn` and `eventCallRemoveReconn` of gateserver/user_manager.cpp.
use dream_heroes.Base.{[], ap, false, none, refl, some, sym, ℕ, ◌==◌, ◌∙◌, ◌∷◌, ◌≡◌, ◌≢◌}
use dream_heroes.Base.Map.{
  assign, erase, find, find-assign_ne, find-assign_self, find-erase_self, nat_key,
}
use dream_heroes.Gate.Games.{GameClient, Games, get_game_client, get_game_client-valid}
use dream_heroes.Gate.Tables.{add_data, find-add_data, get_key-erase_value}
use dream_heroes.Gate.Users.{
  UserManager, check_close, check_conn, close_in_game, conn_again, conn_by, connect, disable,
  enter_online, event_call_remove_reconn, get_account, is_connect, offline_player, on_close,
  or_invalid, or_new, parse_login_game, put_session, remove_by, remove_from_game, remove_gone,
  remove_player, session_at, set_state,
}
use dream_heroes.Gate.Users.Login.{IsPlaying, is_connect-ne}

-- A session in the game, whose server is there, and whose player is neither waiting nor gone.
abbrev pub IsInGame : Games → ℕ → ℕ → ℕ → UserManager → Type 0
IsInGame games t p gs m =
    IsPlaying t p gs m
    × ((g : GameClient) × (get_game_client games gs ≡ some g))
    × (find t m.wait_map ≡ none)
    × (find t m.recon_map ≡ none)

lost : ℕ → ℕ → ℕ → UserManager → UserManager
lost t p gs m = put_session p (set_state disable (session_at p m)) (record m {
  onlines = erase t m.onlines;
  recon_map = add_data t gs m.recon_map;
  reconn_timers = t ∷ m.reconn_timers;
})

on_close-lost :
    (games : Games) (t p gs : ℕ) (m : UserManager)
    → IsInGame games t p gs m
    → on_close games p m ≡ (lost t p gs m, offline_player gs t ∷ [])
unfolding on_close check_close close_in_game lost session_at is_connect
on_close-lost games t p gs m ((h0, h1, h2, h3), (g, hg), hw, hr) = rw (h1, h2, h3, hg) refl

reconnect_lost :
    (games : Games) (limit t p p' gs : ℕ) (m : UserManager)
    → IsInGame games t p gs m
    → p' ≢ p
    → (session_at p' m).state ≢ connect
    → let (m', msgs) = parse_login_game games limit p' t (lost t p gs m) in
      (msgs ≡ [])
      × IsPlaying t p' gs m'
      × (get_account t m' ≡ get_account t m)
      × (find t m'.recon_map ≡ none)
unfolding parse_login_game check_conn conn_by conn_again enter_online set_state lost put_session
    session_at or_new get_account
reconnect_lost games limit t p p' gs m ((h0, h1, h2, h3), (g, hg), hw, hr) ne hs =
    let closed = set_state disable (session_at p m) in
    let sessions = assign p closed m.sessions in
    let s = record (session_at p' m) { gs_id = gs; state = connect } in
    let s' = record s { tranid = t } in
    rw
      (
        hw,
        find-add_data t gs m.recon_map hr,
        find-assign_ne p p' closed m.sessions ne,
        is_connect-ne (session_at p' m).state hs,
        find-assign_self p' s sessions,
        find-assign_self p' s' (assign p' s sessions),
      )
      (
        refl,
        (find-add_data t p' (erase t m.onlines) (find-erase_self t m.onlines), refl, refl, refl),
        refl,
        find-erase_self t (add_data t gs m.recon_map),
      )

timeout_lost :
    (games : Games) (t p gs : ℕ) (m : UserManager)
    → IsInGame games t p gs m
    → let (m', msgs) = event_call_remove_reconn games t (lost t p gs m) in
      (msgs ≡ remove_player gs t ∷ [])
      × (find t m'.onlines ≡ none)
      × (find t m'.recon_map ≡ none)
      × (get_account t m' ≡ 0)
unfolding event_call_remove_reconn remove_gone lost put_session remove_from_game remove_by
    get_account or_invalid
timeout_lost games t p gs m (playing, (g, hg), hw, hr) =
    let valid : (gs == 0) ≡ false = get_game_client-valid games gs g hg in
    rw (find-add_data t gs m.recon_map hr, valid, hg)
      (
        refl,
        find-erase_self t m.onlines,
        find-erase_self t (add_data t gs m.recon_map),
        ap or_invalid (get_key-erase_value t m.onlineaccs),
      )

-- Where the connection of a player in the game is lost, its server is told that the player is offline. If the
-- player then connects again by another session, it is in the game on the same server with its account, and no
-- server is told anything. If the timer runs out instead, the server is told to remove the player, who is
-- neither online nor gone any more and has no account.
pub lost_connection_outcome :
    (games : Games) (limit t p p' gs : ℕ) (m : UserManager)
    → IsInGame games t p gs m
    → p' ≢ p
    → (session_at p' m).state ≢ connect
    → let (m1, msgs1) = on_close games p m in
      let (m2, msgs2) = parse_login_game games limit p' t m1 in
      let (m3, msgs3) = event_call_remove_reconn games t m1 in
      (msgs1 ≡ offline_player gs t ∷ [])
      × ((msgs2 ≡ [])
          × IsPlaying t p' gs m2
          × (get_account t m2 ≡ get_account t m)
          × (find t m2.recon_map ≡ none))
      × ((msgs3 ≡ remove_player gs t ∷ [])
          × (find t m3.onlines ≡ none)
          × (find t m3.recon_map ≡ none)
          × (get_account t m3 ≡ 0))
lost_connection_outcome games limit t p p' gs m playing ne hs =
    rw (on_close-lost games t p gs m playing) (
      refl,
      reconnect_lost games limit t p p' gs m playing ne hs,
      timeout_lost games t p gs m playing,
    )

-- The timers after the player has connected again.
timers_kept :
    (games : Games) (limit t p p' gs : ℕ) (m : UserManager)
    → IsInGame games t p gs m
    → p' ≢ p
    → (session_at p' m).state ≢ connect
    → (parse_login_game games limit p' t (lost t p gs m)).0.reconn_timers ≡ t ∷ m.reconn_timers
unfolding parse_login_game check_conn conn_by conn_again enter_online set_state lost put_session
    session_at or_new
timers_kept games limit t p p' gs m ((h0, h1, h2, h3), (g, hg), hw, hr) ne hs =
    let closed = set_state disable (session_at p m) in
    rw
      (
        hw,
        find-add_data t gs m.recon_map hr,
        find-assign_ne p p' closed m.sessions ne,
        is_connect-ne (session_at p' m).state hs,
      )
      refl

-- A player in the game, with an account, loses the connection and connects again by another session: the timer of
-- the lost connection still runs, besides those that ran before, and the player has its account. When the timer
-- runs out, the account is taken from the player, who stays in the game and online.
pub late_timer_forgets_account :
    (games : Games) (limit t p p' gs : ℕ) (m : UserManager)
    → IsInGame games t p gs m
    → p' ≢ p
    → (session_at p' m).state ≢ connect
    → get_account t m ≢ 0
    → let again = (parse_login_game games limit p' t (on_close games p m).0).0 in
      let later = (event_call_remove_reconn games t again).0 in
      (again.reconn_timers ≡ t ∷ m.reconn_timers)
      × (get_account t again ≢ 0)
      × IsPlaying t p' gs later
      × (get_account t later ≡ 0)
unfolding event_call_remove_reconn get_account or_invalid session_at
late_timer_forgets_account games limit t p p' gs m playing ne hs owned =
    let again = (parse_login_game games limit p' t (on_close games p m).0).0 in
    let outcome = lost_connection_outcome games limit t p p' gs m playing ne hs in
    (
      ap (λ r. (parse_login_game games limit p' t r.0).0.reconn_timers)
            (on_close-lost games t p gs m playing)
          ∙ timers_kept games limit t p p' gs m playing ne hs,
      (λ none_left. owned (sym outcome.1.2 ∙ none_left)),
      outcome.1.1,
      ap or_invalid (get_key-erase_value t again.onlineaccs),
    )
