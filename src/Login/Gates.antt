-- ===== src/Login/Gates.antt =====
-- `GateManager` of login/gate_manager.cpp and `GateSession` of login/gate_session.cpp.
pub mod Idle
use dream_heroes.Base.{
  Bool, Bytes, Option, [], false, if◌then◌else◌, keep, length, ltb, none, not, some, ℕ, ◌%◌, ◌&&◌,
  ◌*◌, ◌++◌, ◌+◌, ◌-◌, ◌==◌, ◌^◌, ◌∷◌,
}
use dream_heroes.Base.Int.{ltb_ℤ, negsuc, pos, ℤ}
use dream_heroes.Base.Map.{Map, assign, erase, find, nat_key}
use dream_heroes.Gate.Tables.{add_data}
use dream_heroes.Login.State.{
  Account, GateSession, LoginServer, kick_session, login_success, put_user, send, set_user_state,
  user_at, user_login, wait_close, wait_gate,
}

-- `MAX_GATE_ID`
abbrev max_gate_id : ℕ
max_gate_id = 0xff

-- A session of a gate as its constructor leaves it.
abbrev new_gate : GateSession
new_gate = record {
  gate_id = 0;
  onlines = 0;
  out_ip = 49 ∷ 50 ∷ 55 ∷ 46 ∷ 48 ∷ 46 ∷ 48 ∷ 46 ∷ 49 ∷ [];
  out_port = 0;
  balence_time = [];
}

pub or_gate : Option GateSession → GateSession
or_gate none = new_gate
or_gate (some g) = g

unfoldable pub gate_at : ℕ → Map ℕ GateSession → GateSession
unfolding or_gate
gate_at g m = or_gate (find g m)

unfoldable pub put_gate : ℕ → GateSession → LoginServer → LoginServer
put_gate g gate s = record s { gate_sessions = assign g gate s.gate_sessions }

-- `addGate`
pub add_gate : ℕ → ℕ → LoginServer → LoginServer
add_gate id g s =
    if ltb 0 id && ltb id max_gate_id then record s { gates = assign id g s.gates } else s

-- The test `m_Gates[nId] == pkGate`.
is_gate : ℕ → Option ℕ → Bool
is_gate g none = false
is_gate g (some other) = other == g

-- `removeGate`
pub remove_gate : ℕ → LoginServer → LoginServer
unfolding is_gate
remove_gate g s =
    let id = (gate_at g s.gate_sessions).gate_id in
    if ltb 0 id && ltb id max_gate_id && is_gate g (find id s.gates)
    then record s { gates = erase id s.gates }
    else s

kick_at : Account → Option ℕ → LoginServer → LoginServer
kick_at a none s = s
kick_at a (some g) s = send (kick_session g a.id a.tran_id) s

-- `kickUserFromGate`
unfoldable pub kick_user_from_gate : Account → LoginServer → LoginServer
unfolding kick_at
kick_user_from_gate a s =
    if ltb a.gate_id max_gate_id then kick_at a (find a.gate_id s.gates) s else s

-- The `int` of an unsigned number.
to_int : ℕ → ℤ
to_int n = let m = n % 2 ^ 32 in if ltb m (2 ^ 31) then pos m else negsuc (2 ^ 32 - m - 1)

-- `getBalenceCount`
unfoldable pub get_balence_count : GateSession → ℤ
unfolding to_int
get_balence_count gate = to_int (gate.onlines + length gate.balence_time)

-- The loop of `getIdleGate`, with the gate that has been found so far.
unfoldable pub idle_gate_from : Map ℕ GateSession → Option ℕ → Map ℕ ℕ → Option ℕ
idle_gate_from m best [] = best
idle_gate_from m none ((id, g) ∷ gates) = idle_gate_from m (some g) gates
idle_gate_from m (some b) ((id, g) ∷ gates) =
    idle_gate_from m
      (some (
        if ltb_ℤ (get_balence_count (gate_at g m)) (get_balence_count (gate_at b m)) then g else b))
      gates

-- `getIdleGate`
unfoldable pub get_idle_gate : LoginServer → Option ℕ
unfolding idle_gate_from
get_idle_gate s = idle_gate_from s.gate_sessions none s.gates

-- `addBalenceTime`
unfoldable pub add_balence_time : ℕ → GateSession → GateSession
add_balence_time server_time gate = record gate {
  balence_time = gate.balence_time ++ server_time ∷ [];
}

-- `balenceInfoEvent`: `_BALENCE_TIME_` is a number of milliseconds, the times are numbers of seconds.
pub balence_info_event : ℕ → GateSession → GateSession
balence_info_event server_time gate = record gate {
  balence_time =
      keep (λ time_temp. not (ltb (2 * 1000 * 20 + time_temp) server_time)) gate.balence_time;
}

-- `parseGateOnlines`
pub parse_gate_onlines : ℕ → ℕ → LoginServer → LoginServer
parse_gate_onlines g onlines s =
    put_gate g (record (gate_at g s.gate_sessions) { onlines = onlines }) s

-- The branch of `giveUserToGate` that has found a gate.
unfoldable pub give_to : ℕ → ℕ → Account → ℕ → LoginServer → LoginServer
unfolding add_balence_time put_gate gate_at
give_to server_time g a p s =
    let gate = gate_at g s.gate_sessions in
    let a1 = record a { gate_id = gate.gate_id } in
    let s1 = record s { accts = assign a.id a1 s.accts } in
    let channel = (user_at p s1).channel in
    let s2 = put_user p (record (user_at p s1) { accid = a.id }) s1 in
    let s3 = set_user_state p wait_gate s2 in
    let s4 = put_gate g (add_balence_time server_time gate) s3 in
    send (user_login g a.id a.tran_id channel)
      (record s4 { wait_sessions = add_data a.tran_id p s4.wait_sessions })

-- The answer to the user when the gate is ready.
pub prepar_at : Option ℕ → ℕ → Bytes → ℕ → LoginServer → LoginServer
prepar_at none tran ip port s = s
prepar_at (some p) tran ip port s =
    let s1 = set_user_state p wait_close (send (login_success p ip port tran) s) in
    record s1 { wait_sessions = erase tran s1.wait_sessions }

-- `receiveUserPrepar`
unfoldable pub receive_user_prepar : ℕ → Bytes → ℕ → LoginServer → LoginServer
unfolding prepar_at
receive_user_prepar tran ip port s = prepar_at (find tran s.wait_sessions) tran ip port s

-- `parseGateUserPrepar`
unfoldable pub parse_gate_user_prepar : ℕ → ℕ → LoginServer → LoginServer
unfolding receive_user_prepar
parse_gate_user_prepar g account s =
    let gate = gate_at g s.gate_sessions in receive_user_prepar account gate.out_ip gate.out_port s
