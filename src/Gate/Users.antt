-- ===== src/Gate/Users.antt =====
-- `UserManager` of gateserver/user_manager.cpp, `UserSession::setState` and `parseLoginGame` of
-- gateserver/user_session.cpp.
pub mod Login
pub mod Reconnect
mod Tests
use dream_heroes.Base.{
  Bool, List, Option, [], false, if◌then◌else◌, none, some, true, ℕ, ◌++◌, ◌==◌, ◌∷◌,
}
use dream_heroes.Base.Int.{pos, ℤ}
use dream_heroes.Base.Map.{Map, assign, erase, find, nat_key}
use dream_heroes.Gate.Games.{GameClient, Games, get_game_client, get_idle_game_client}
use dream_heroes.Gate.Tables.{add_data, erase_value, get_key}

pub data SessionState : Type 0 where
  disable wait_account connect wait_close : SessionState

pub record UserSession : Type 0 where
  pub state : SessionState
  pub tranid : ℕ
  pub gs_id : ℕ
  pub channel : ℤ

-- The sessions are pointers in the source, and numbers here. `reconn_timers` are the numbers of the transaction for
-- which `gEventMgr` has an event of the type EVENT_REMOVE_RECONNECT, which nothing but its run removes.
pub record UserManager : Type 0 where
  pub onlines : Map ℕ ℕ
  pub onlineaccs : Map ℕ ℕ
  pub wait_map : Map ℕ ℕ
  pub wait_map_channel : Map ℕ ℤ
  pub recon_map : Map ℕ ℕ
  pub reconn_timers : List ℕ
  pub sessions : Map ℕ UserSession

-- What is sent to the game servers and to the login server, and a `close()`.
pub data GateMsg : Type 0 where
  add_new_player : ℕ → ℕ → ℕ → ℤ → GateMsg
  remove_player : ℕ → ℕ → GateMsg
  offline_player : ℕ → ℕ → GateMsg
  prepar : ℕ → GateMsg
  close_session : ℕ → GateMsg

-- A new session.
abbrev new_session : UserSession
new_session = record { state = disable; tranid = 0; gs_id = 0; channel = pos 0 }

or_new : Option UserSession → UserSession
or_new none = new_session
or_new (some s) = s

pub session_at : ℕ → UserManager → UserSession
unfolding or_new
session_at p m = or_new (find p m.sessions)

pub put_session : ℕ → UserSession → UserManager → UserManager
put_session p s m = record m { sessions = assign p s m.sessions }

-- `setState`, without its timers.
pub set_state : SessionState → UserSession → UserSession
set_state disable s = record s { state = disable; tranid = 0; gs_id = 0 }
set_state wait_account s = record s { state = wait_account }
set_state connect s = record s { state = connect }
set_state wait_close s = record s { state = wait_close }

-- `if (pkNew) { pkNew->removePlayer(t); }`
remove_by : ℕ → ℕ → Option GameClient → List GateMsg
remove_by gs t none = []
remove_by gs t (some g) = remove_player gs t ∷ []

pub remove_from_game : Games → ℕ → ℕ → List GateMsg
unfolding remove_by
remove_from_game games gs t = remove_by gs t (get_game_client games gs)

-- `m_wait_map.eraseData(t, v)` and what follows on `v`, with `INVALID_ACCOUNT` 0.
forget_account : Option ℕ → Map ℕ ℕ → Map ℕ ℕ
forget_account none accs = accs
forget_account (some v) accs = if v == 0 then accs else erase v accs

kick_waiting : ℕ → UserManager → UserManager
unfolding forget_account
kick_waiting t m = record m {
  wait_map = erase t m.wait_map;
  wait_map_channel = erase t m.wait_map_channel;
  onlineaccs = forget_account (find t m.wait_map) m.onlineaccs;
}

kick_gone : Games → ℕ → UserManager → Option ℕ → UserManager × List GateMsg
kick_gone games t m none = (m, [])
kick_gone games t m (some gs) =
    (record m { recon_map = erase t m.recon_map }, remove_from_game games gs t)

kick_by : Games → ℕ → ℕ → UserManager → Option ℕ → UserManager × List GateMsg
unfolding kick_waiting kick_gone
kick_by games t a m none = kick_gone games t (kick_waiting t m) (find t m.recon_map)
kick_by games t a m (some p) = (
  record m { onlines = erase t m.onlines; onlineaccs = erase a m.onlineaccs },
  remove_from_game games (session_at p m).gs_id t ++ close_session p ∷ [],
)

pub kick_user : Games → ℕ → ℕ → UserManager → UserManager × List GateMsg
unfolding kick_by
kick_user games t a m = kick_by games t a m (find t m.onlines)

-- The user that is online already gets the channel and is kicked.
kick_online : Games → ℕ → ℕ → ℤ → UserManager → Option ℕ → UserManager × List GateMsg
kick_online games t a c m none = (m, [])
kick_online games t a c m (some p) =
    kick_user games t a (put_session p (record (session_at p m) { channel = c }) m)

-- `addToWait`
pub add_to_wait : Games → ℕ → ℕ → ℤ → UserManager → UserManager × List GateMsg
unfolding kick_online
add_to_wait games t a c m =
    let (m', msgs) = kick_online games t a c m (find t m.onlines) in
    (
      record m' {
        wait_map = add_data t a m'.wait_map;
        wait_map_channel = add_data t c m'.wait_map_channel;
      },
      msgs ++ prepar t ∷ [],
    )

-- `eventCallRemoveWait`
pub event_call_remove_wait : ℕ → UserManager → UserManager
event_call_remove_wait t m = record m {
  wait_map = erase t m.wait_map;
  wait_map_channel = erase t m.wait_map_channel;
}

-- `getAccount`, with `INVALID_ACCOUNT` 0.
or_invalid : Option ℕ → ℕ
or_invalid none = 0
or_invalid (some a) = a

pub get_account : ℕ → UserManager → ℕ
unfolding or_invalid
get_account t m = or_invalid (get_key t m.onlineaccs)

pub is_connect : SessionState → Bool
is_connect connect = true
is_connect s = false

-- The two branches of `checkClose`, behind the erase from `m_onlines`.
close_in_game :
    Games → ℕ → ℕ → SessionState → UserManager → Option GameClient → UserManager × List GateMsg
close_in_game games t gs state m none = (record m { onlineaccs = erase_value t m.onlineaccs }, [])
close_in_game games t gs state m (some g) =
    if is_connect state
    then (record m { recon_map = add_data t gs m.recon_map }, offline_player gs t ∷ [])
    else (record m { onlineaccs = erase_value t m.onlineaccs }, remove_player gs t ∷ [])

-- `checkClose`. The timer is started at its end, on every branch.
pub check_close : Games → ℕ → UserManager → UserManager × List GateMsg
unfolding close_in_game is_connect
check_close games p m =
    let s = session_at p m in
    let m' = record m {
      onlines = erase s.tranid m.onlines;
      reconn_timers = s.tranid ∷ m.reconn_timers;
    } in
    close_in_game games s.tranid s.gs_id s.state m' (get_game_client games s.gs_id)

-- `on_close`
pub on_close : Games → ℕ → UserManager → UserManager × List GateMsg
on_close games p m =
    let (m', msgs) = check_close games p m in
    (put_session p (set_state disable (session_at p m')) m', msgs)

remove_gone : Games → ℕ → Option ℕ → List GateMsg
remove_gone games t none = []
remove_gone games t (some gs) = if gs == 0 then [] else remove_from_game games gs t

-- The event that has run is gone, once.
take_one : ℕ → List ℕ → List ℕ
take_one t [] = []
take_one t (x ∷ l) = let rest = take_one t l in if x == t then l else x ∷ rest

-- `eventCallRemoveReconn`, the timer of `checkClose`, which runs once.
pub event_call_remove_reconn : Games → ℕ → UserManager → UserManager × List GateMsg
unfolding remove_gone take_one
event_call_remove_reconn games t m = (
  record m {
    recon_map = erase t m.recon_map;
    onlineaccs = erase_value t m.onlineaccs;
    reconn_timers = take_one t m.reconn_timers;
  },
  remove_gone games t (find t m.recon_map),
)

-- `p->setGSid(gs); p->setState(_connect_); m_onlines.addData(t, p)`
enter_online : ℕ → ℕ → ℕ → UserManager → UserManager
enter_online t p gs m =
    put_session p (set_state connect (record (session_at p m) { gs_id = gs }))
      (record m { onlines = add_data t p m.onlines })

refuse : ℕ → UserManager → UserManager
refuse p m = put_session p (set_state wait_close (session_at p m)) m

channel_or : Option ℤ → ℤ
channel_or none = pos 0
channel_or (some c) = c

-- A waiting user, for whom a game server is looked for.
conn_waiting : ℕ → ℕ → ℕ → ℤ → UserManager → Option GameClient → UserManager × List GateMsg × Bool
unfolding refuse enter_online
conn_waiting t p v channel m none = (refuse p m, [], false)
conn_waiting t p v channel m (some g) =
    let m' = enter_online t p g.game_id m in
    (
      record m' { onlineaccs = add_data v t m'.onlineaccs },
      add_new_player g.game_id t v channel ∷ [],
      true,
    )

conn_again : ℕ → ℕ → UserManager → Option ℕ → UserManager × List GateMsg × Bool
unfolding refuse enter_online
conn_again t p m none = (refuse p m, [], false)
conn_again t p m (some gs) =
    (enter_online t p gs (record m { recon_map = erase t m.recon_map }), [], true)

conn_by : Games → ℕ → ℕ → ℕ → UserManager → Option ℕ → UserManager × List GateMsg × Bool
unfolding conn_waiting conn_again channel_or
conn_by games limit t p m (some v) =
    let m' = record m {
      wait_map = erase t m.wait_map;
      wait_map_channel = erase t m.wait_map_channel;
    } in
    conn_waiting t p v (channel_or (find t m.wait_map_channel)) m'
      (get_idle_game_client games limit)
conn_by games limit t p m none = conn_again t p m (find t m.recon_map)

-- `checkConn`; `limit` is `getGSIdleMax`.
pub check_conn : Games → ℕ → ℕ → ℕ → UserManager → UserManager × List GateMsg × Bool
unfolding conn_by
check_conn games limit t p m = conn_by games limit t p m (find t m.wait_map)

-- `parseLoginGame`, without the timers for pings.
pub parse_login_game : Games → ℕ → ℕ → ℕ → UserManager → UserManager × List GateMsg
unfolding is_connect
parse_login_game games limit p t m =
    let (m', msgs, ok) = check_conn games limit t p m in
    if is_connect (session_at p m).state
    then (m, [])
    else if ok
    then (put_session p (record (session_at p m') { tranid = t }) m', msgs)
    else (m', msgs)
