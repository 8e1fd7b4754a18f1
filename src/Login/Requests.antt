-- ===== src/Login/Requests.antt =====
-- The requests of a user in login/user_session.cpp, and the answer of the platform in login/LGHttpManager.cpp.
pub mod Verify
use dream_heroes.Base.{
  Bool, Bytes, [], bytes_eq, false, if◌then◌else◌, leb, length, not, true, ℕ, ◌&&◌, ◌||◌, ◌∷◌,
}
use dream_heroes.Base.Int.{pos, ℤ, ◌==ℤ◌}
use dream_heroes.Login.Accounts.{check_account}
use dream_heroes.Login.State.{
  LoginConfig, LoginServer, LoginState, UserLoginSession, Version, compare_channel, compare_version,
  error_channel, error_need_third_verify, error_version, login_check, login_response, name_fail,
  new_acc_check, platform_success, platform_verify_ack, put_user, send, set_user_state, user_at,
  wait_platform,
}

-- The fields of `LoginRequest` that the server reads.
pub record LoginRequest : Type 0 where
  pub name : Bytes
  pub pwd : Bytes
  pub channel : ℤ
  pub version : Version

is_empty : Bytes → Bool
is_empty [] = true
is_empty (c ∷ t) = false

-- `parsePlatformVerify`. The request over HTTP comes back in `logic_excute`.
pub parse_platform_verify : ℕ → Bytes → LoginServer → LoginServer
unfolding is_empty
parse_platform_verify p user_id s =
    let u = user_at p s in
    if is_empty u.platform_user_id || bytes_eq u.platform_user_id user_id
    then set_user_state p wait_platform s
    else s

is_wait_platform : LoginState → Bool
is_wait_platform wait_platform = true
is_wait_platform _ = false

-- `logicExcute` of a request whose answer has this status.
pub logic_excute : ℕ → ℤ → ℤ → LoginServer → LoginServer
unfolding is_wait_platform
logic_excute p channel_id status s =
    if is_wait_platform (user_at p s).state && (status ==ℤ pos 0)
    then (let s1 = set_user_state p platform_success s in
        send (platform_verify_ack p true)
          (put_user p (record (user_at p s1) { channel = channel_id }) s1))
    else send (platform_verify_ack p false) s

unfoldable pub is_platform_success : LoginState → Bool
is_platform_success platform_success = true
is_platform_success _ = false

-- The first test of `parseLoginGame`.
unfoldable pub needs_verify : LoginConfig → LoginRequest → Bool
needs_verify c msg = c.need_platform_verify && not (msg.channel ==ℤ pos 0)

-- The user has been verified under this name. The source only reads and clears `_platform_user_id`.
unfoldable pub is_verified : UserLoginSession → LoginRequest → Bool
is_verified u msg = is_platform_success u.state && bytes_eq msg.name u.platform_user_id

-- The part of `parseLoginGame` under `check_account == true`.
login_checks : ℕ → LoginRequest → LoginServer → LoginServer
login_checks p msg s =
    if not (compare_version s.config msg.version)
    then send (login_response p error_version) s
    else if not (compare_channel s.config msg.channel)
    then send (login_response p error_channel) s
    else if leb 128 (length msg.name) || leb 128 (length msg.pwd)
    then send (login_response p name_fail) s
    else check_account msg.name msg.pwd msg.channel p login_check s

-- `parseLoginGame`
pub parse_login_game : ℕ → LoginRequest → LoginServer → LoginServer
parse_login_game p msg s =
    if needs_verify s.config msg
    then (if is_verified (user_at p s) msg
        then s
        else login_checks p msg (send (login_response p error_need_third_verify) s))
    else login_checks p msg s

-- `parseRegister`
pub parse_register : ℕ → Bytes → Bytes → LoginServer → LoginServer
parse_register p name pwd s = check_account name pwd (pos 0) p new_acc_check s
