-- ===== src/Login/State.antt =====
-- The state of the login server: the configuration of login/login_config.cpp, the sessions of
-- login/user_session.h and login/gate_session.h, and the accounts of login/account_manager.h.
use dream_heroes.Base.{
  Bool, Bytes, List, Option, [], false, has, map, none, some, ℕ, ◌&&◌, ◌*◌, ◌++◌, ◌∷◌,
}
use dream_heroes.Base.Int.{pos, ℤ, ◌==ℤ◌}
use dream_heroes.Base.Map.{Map, assign, find, nat_key}
use dream_heroes.Text.Number.{atoi}
use dream_heroes.Text.Split.{split_string_a}

pub record Version : Type 0 where
  pub version_number_1 : ℤ
  pub version_number_2 : ℤ
  pub version_number_3 : ℤ

pub record LoginConfig : Type 0 where
  pub version : Version
  pub channels : List ℤ
  pub need_platform_verify : Bool

-- `CompareVersion`, which does not compare the third number.
unfoldable pub compare_version : LoginConfig → Version → Bool
compare_version c v =
    (c.version.version_number_1 ==ℤ v.version_number_1)
    && (c.version.version_number_2 ==ℤ v.version_number_2)

-- `CompareChannel`
unfoldable pub compare_channel : LoginConfig → ℤ → Bool
compare_channel c channel = has (λ cur_channel_id. cur_channel_id ==ℤ channel) c.channels

-- `SetChannels`, whose separator is a semicolon.
pub set_channels : Bytes → LoginConfig → LoginConfig
set_channels channel c = record c { channels = c.channels ++ map atoi (split_string_a channel 59) }

pub data LoginState : Type 0 where
  disable wait_data checking_data wait_gate wait_close wait_platform platform_success : LoginState

-- `valid` is what `is_valid` answers, and `close_events` are the delays of the events of the type
-- EVENT_USER_SESSION_CLOSE.
pub record UserLoginSession : Type 0 where
  pub valid : Bool
  pub state : LoginState
  pub accid : ℕ
  pub channel : ℤ
  pub platform_user_id : Bytes
  pub close_events : List ℕ

pub record Account : Type 0 where
  pub id : ℕ
  pub gate_id : ℕ
  pub tran_id : ℕ

pub record GateSession : Type 0 where
  pub gate_id : ℕ
  pub onlines : ℕ
  pub out_ip : Bytes
  pub out_port : ℕ
  pub balence_time : List ℕ

pub data CheckResult : Type 0 where
  check_pass not_found error_name_pwd already_have_acc : CheckResult

pub data CheckType : Type 0 where
  login_check new_acc_check : CheckType

-- A question to the database, with the answer when it is there. The owner is a pointer in the source.
pub record CheckAcct : Type 0 where
  pub str : Bytes
  pub pwd : Bytes
  pub result : CheckResult
  pub ower : ℕ
  pub acct : ℕ
  pub check_type : CheckType
  pub channel : ℤ

pub data LoginResult : Type 0 where
  success fail name_fail error_version error_channel error_need_third_verify : LoginResult

-- What is sent to the users and to the gates; the version that goes with `error_version` is left out.
pub data LoginMsg : Type 0 where
  login_response : ℕ → LoginResult → LoginMsg
  login_success : ℕ → Bytes → ℕ → ℕ → LoginMsg
  register_account_faild : ℕ → LoginMsg
  platform_verify_ack : ℕ → Bool → LoginMsg
  kick_session : ℕ → ℕ → ℕ → LoginMsg
  user_login : ℕ → ℕ → ℕ → ℤ → LoginMsg
  close_gate : ℕ → LoginMsg

-- The sessions and the gates are pointers in the source, and numbers here. `tasks` are the questions that wait for
-- the database, and `sent` is what has been sent, each in their order.
pub record LoginServer : Type 0 where
  pub config : LoginConfig
  pub accts : Map ℕ Account
  pub gates : Map ℕ ℕ
  pub gate_sessions : Map ℕ GateSession
  pub wait_sessions : Map ℕ ℕ
  pub sessions : Map ℕ UserLoginSession
  pub tasks : List CheckAcct
  pub sent : List LoginMsg

unfoldable pub send : LoginMsg → LoginServer → LoginServer
send x s = record s { sent = s.sent ++ x ∷ [] }

abbrev pub new_login_session : UserLoginSession
new_login_session = record {
  valid = false;
  state = disable;
  accid = 0;
  channel = pos 0;
  platform_user_id = [];
  close_events = [];
}

pub or_new : Option UserLoginSession → UserLoginSession
or_new none = new_login_session
or_new (some u) = u

unfoldable pub user_at : ℕ → LoginServer → UserLoginSession
unfolding or_new
user_at p s = or_new (find p s.sessions)

unfoldable pub put_user : ℕ → UserLoginSession → LoginServer → LoginServer
put_user p u s = record s { sessions = assign p u s.sessions }

-- `modifyEventTimeAndTimeLeft`, on the events that are there.
delay_close : ℕ → UserLoginSession → UserLoginSession
delay_close time u = record u { close_events = map (λ old. time) u.close_events }

-- `UserLoginSession::setState`
unfoldable pub set_login_state : LoginState → UserLoginSession → UserLoginSession
unfolding delay_close
set_login_state disable u = record u { state = disable; close_events = [] }
set_login_state wait_data u = record u {
  state = wait_data;
  close_events = u.close_events ++ (30 * 1000) ∷ [];
}
set_login_state checking_data u = record (delay_close (60 * 1000) u) { state = checking_data }
set_login_state wait_gate u = record (delay_close (60 * 1000) u) { state = wait_gate }
set_login_state wait_close u = record (delay_close (5 * 1000) u) { state = wait_close }
set_login_state wait_platform u = record (delay_close (5 * 1000) u) { state = wait_platform }
set_login_state platform_success u = record (delay_close (5 * 1000) u) { state = platform_success }

unfoldable pub set_user_state : ℕ → LoginState → LoginServer → LoginServer
set_user_state p state s = put_user p (set_login_state state (user_at p s)) s

-- `on_accept`
pub on_accept : ℕ → LoginServer → LoginServer
on_accept p = set_user_state p wait_data

-- `on_close`, which leaves `m_WaitSessions` alone.
pub on_close : ℕ → LoginServer → LoginServer
on_close p s =
    let s1 = set_user_state p disable s in
    put_user p (record (user_at p s1) { platform_user_id = [] }) s1
