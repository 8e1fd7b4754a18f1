-- ===== src/Gate/Users/Tests.antt =====
-- The gate with one game server of id 3 and a session in the game on it.
use dream_heroes.Base.{[], arith, none, refl, some, ◌∷◌, ◌≡◌, ◌≢◌}
use dream_heroes.Base.Int.{pos}
use dream_heroes.Base.Map.{find, nat_key}
use dream_heroes.Gate.Games.{Games, game_at, get_game_client, get_idle_game_client, idle_from}
use dream_heroes.Gate.Tables.{get_key}
use dream_heroes.Gate.Users.{
  UserManager, add_new_player, add_to_wait, connect, event_call_remove_reconn, get_account,
  offline_player, on_close, or_invalid, or_new, parse_login_game, remove_player, session_at,
  wait_account,
}
use dream_heroes.Gate.Users.Login.{IsPlaying, IsUnknown, login_outcome}
use dream_heroes.Gate.Users.Reconnect.{
  IsInGame, late_timer_forgets_account, lost_connection_outcome,
}

abbrev sample_games : Games
sample_games = none ∷ none ∷ none ∷ some (record { game_id = 3; online_count = 5 }) ∷ []

abbrev sample_users : UserManager
sample_users = record {
  onlines = (70, 1) ∷ [];
  onlineaccs = (42, 70) ∷ [];
  wait_map = [];
  wait_map_channel = [];
  recon_map = [];
  reconn_timers = [];
  sessions =
      (1, record { state = connect; tranid = 70; gs_id = 3; channel = pos 1 })
      ∷ (2, record { state = wait_account; tranid = 0; gs_id = 0; channel = pos 0 })
      ∷ [];
}

sample_idle :
    get_idle_game_client sample_games 100 ≡ some (record { game_id = 3; online_count = 5 })
unfolding get_idle_game_client idle_from
sample_idle = refl

sample_users-IsInGame : IsInGame sample_games 70 1 3 sample_users
unfolding find session_at or_new get_game_client game_at
sample_users-IsInGame =
    ((refl, refl, refl, refl), (record { game_id = 3; online_count = 5 }, refl), refl, refl)

second_session : (session_at 2 sample_users).state ≢ connect
unfolding find session_at or_new
second_session = λ q. cc

sample_users-IsUnknown : IsUnknown 71 43 sample_users
unfolding find
sample_users-IsUnknown = (refl, refl, refl, refl, (refl, tt))

login_outcome_example :
    let announced = (add_to_wait sample_games 71 43 (pos 1) sample_users).0 in
    let (m', msgs) = parse_login_game sample_games 100 2 71 announced in
    (msgs ≡ add_new_player 3 71 43 (pos 1) ∷ [])
    × IsPlaying 71 2 3 m'
    × (get_account 71 m' ≡ 43)
    × (find 71 m'.wait_map ≡ none)
login_outcome_example =
    login_outcome sample_games 100 71 43 2 (pos 1) sample_users
      (record { game_id = 3; online_count = 5 }) sample_users-IsUnknown sample_idle second_session

lost_connection_outcome_example :
    let (m1, msgs1) = on_close sample_games 1 sample_users in
    let (m2, msgs2) = parse_login_game sample_games 100 2 70 m1 in
    let (m3, msgs3) = event_call_remove_reconn sample_games 70 m1 in
    (msgs1 ≡ offline_player 3 70 ∷ [])
    × ((msgs2 ≡ [])
        × IsPlaying 70 2 3 m2
        × (get_account 70 m2 ≡ get_account 70 sample_users)
        × (find 70 m2.recon_map ≡ none))
    × ((msgs3 ≡ remove_player 3 70 ∷ [])
        × (find 70 m3.onlines ≡ none)
        × (find 70 m3.recon_map ≡ none)
        × (get_account 70 m3 ≡ 0))
lost_connection_outcome_example =
    lost_connection_outcome sample_games 100 70 1 2 3 sample_users sample_users-IsInGame
      (omega arith) second_session

sample_account : get_account 70 sample_users ≡ 42
unfolding get_account get_key or_invalid
sample_account = refl

late_timer_forgets_account_example :
    let again =
      (parse_login_game sample_games 100 2 70 (on_close sample_games 1 sample_users).0).0 in
    let later = (event_call_remove_reconn sample_games 70 again).0 in
    (again.reconn_timers ≡ 70 ∷ [])
    × (get_account 70 again ≢ 0)
    × IsPlaying 70 2 3 later
    × (get_account 70 later ≡ 0)
late_timer_forgets_account_example =
    late_timer_forgets_account sample_games 100 70 1 2 3 sample_users sample_users-IsInGame
      (omega arith) second_session (λ e. omega (arith, sample_account, e))
