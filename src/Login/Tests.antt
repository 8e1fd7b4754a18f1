-- ===== src/Login/Tests.antt =====
-- The login server at a small state.
use dream_heroes.Base.{[], arith, none, refl, some, true, ◌++◌, ◌∷◌, ◌≡◌}
use dream_heroes.Base.Int.{pos}
use dream_heroes.Base.Map.{find, nat_key}
use dream_heroes.Login.Accounts.{check_account_call}
use dream_heroes.Login.Accounts.Flow.{LoggedIn, check_account_outcome}
use dream_heroes.Login.Accounts.Repeated.{Unnumbered, repeated_number_unanswered}
use dream_heroes.Login.Gates.{
  gate_at, get_balence_count, get_idle_gate, idle_gate_from, parse_gate_user_prepar,
}
use dream_heroes.Login.Gates.Idle.{Least, get_idle_gate-Least}
use dream_heroes.Login.Requests.{LoginRequest, needs_verify, parse_login_game}
use dream_heroes.Login.Requests.Verify.{IsQueued, verification_is_ignored, verified}
use dream_heroes.Login.State.{
  CheckAcct, GateSession, LoginServer, UserLoginSession, check_pass, checking_data, compare_channel,
  compare_version, login_check, login_success, platform_success, user_at, wait_close, wait_gate,
}

abbrev sample_user : UserLoginSession
sample_user = record {
  valid = true;
  state = checking_data;
  accid = 0;
  channel = pos 3;
  platform_user_id = [];
  close_events = 30000 ∷ [];
}

abbrev sample_gate : GateSession
sample_gate = record {
  gate_id = 2;
  onlines = 40;
  out_ip = 49 ∷ [];
  out_port = 7000;
  balence_time = 5 ∷ [];
}

abbrev idle_gate : GateSession
idle_gate = record {
  gate_id = 3;
  onlines = 12;
  out_ip = 50 ∷ [];
  out_port = 7001;
  balence_time = [];
}

abbrev sample_server : LoginServer
sample_server = record {
  config = record {
    version = record {
      version_number_1 = pos 1;
      version_number_2 = pos 4;
      version_number_3 = pos 9;
    };
    channels = pos 3 ∷ pos 8 ∷ [];
    need_platform_verify = true;
  };
  accts = (70, record { id = 70; gate_id = 2; tran_id = 555 }) ∷ [];
  gates = (2, 21) ∷ (3, 31) ∷ [];
  gate_sessions = (21, sample_gate) ∷ (31, idle_gate) ∷ [];
  wait_sessions = (900, 6) ∷ [];
  sessions = (5, sample_user) ∷ (6, sample_user) ∷ [];
  tasks = [];
  sent = [];
}

abbrev sample_check : CheckAcct
sample_check = record {
  str = 97 ∷ [];
  pwd = 98 ∷ [];
  result = check_pass;
  ower = 5;
  acct = 70;
  check_type = login_check;
  channel = pos 3;
}

abbrev sample_request : LoginRequest
sample_request = record {
  name = 97 ∷ [];
  pwd = 98 ∷ [];
  channel = pos 3;
  version = record { version_number_1 = pos 1; version_number_2 = pos 4; version_number_3 = pos 2 };
}

get_idle_gate-Least_example :
    Least sample_server.gate_sessions sample_server.gates (get_idle_gate sample_server)
get_idle_gate-Least_example = get_idle_gate-Least sample_server

check_account_outcome_example :
    LoggedIn 901 sample_check sample_server
      (check_account_call 44 901 sample_check true sample_server)
      (get_idle_gate sample_server)
unfolding user_at find
check_account_outcome_example =
    check_account_outcome 44 901 sample_check sample_server refl refl refl

idle_is_31 : get_idle_gate sample_server ≡ some 31
unfolding get_idle_gate idle_gate_from get_balence_count gate_at find
idle_is_31 = refl

repeated_number_unanswered_example :
    let s' = check_account_call 44 900 sample_check true sample_server in
    let s'' = parse_gate_user_prepar 31 900 s' in
    let gate = gate_at 31 s'.gate_sessions in
    (s''.sent ≡ s'.sent ++ login_success 6 gate.out_ip gate.out_port 900 ∷ [])
    × ((user_at 6 s'').state ≡ wait_close)
    × ((user_at 5 s'').state ≡ wait_gate)
    × (find 900 s''.wait_sessions ≡ none)
    × Unnumbered 5 s''
unfolding user_at find
repeated_number_unanswered_example =
    repeated_number_unanswered 44 900 31 6 sample_check sample_server refl refl idle_is_31 refl
      (omega arith) (refl, tt)

verification_is_ignored_example :
    let s1 = verified 5 sample_request sample_server in
    IsQueued 44 901 70 5 sample_request sample_server
      (parse_login_game 5 sample_request sample_server)
    × ((user_at 5 s1).state ≡ platform_success)
    × IsQueued 44 901 70 5 sample_request s1 (parse_login_game 5 sample_request s1)
unfolding needs_verify compare_version compare_channel user_at find
verification_is_ignored_example =
    verification_is_ignored 44 901 70 5 sample_request sample_server refl refl refl (omega arith)
      (omega arith) (omega arith) refl refl refl refl
