-- ===== src/Login/Requests/Verify.antt =====
-- The platform's verification, which `parseLoginGame` never finds.
use dream_heroes.Base.{
  Bool, Bytes, [], ap, arith, bytes_eq, false, if◌then◌else◌, leb, length, none, refl, some, subst,
  sym, true, ℕ, ◌&&◌, ◌++◌, ◌<◌, ◌==◌, ◌||◌, ◌∙◌, ◌∷◌, ◌≡◌,
}
use dream_heroes.Base.Int.{pos, ℤ}
use dream_heroes.Base.Map.{find, find-assign_self, nat_key}
use dream_heroes.Login.Accounts.{batch_query, check_account, check_account_call, queue}
use dream_heroes.Login.Accounts.Flow.{LoggedIn, check_account_outcome, user_at-set_user_state}
use dream_heroes.Login.Gates.{get_idle_gate}
use dream_heroes.Login.Requests.{
  LoginRequest, is_empty, is_platform_success, is_verified, is_wait_platform, logic_excute,
  login_checks, needs_verify, parse_login_game, parse_platform_verify,
}
use dream_heroes.Login.State.{
  CheckAcct, LoginServer, UserLoginSession, check_pass, checking_data, compare_channel,
  compare_version, error_need_third_verify, login_check, login_response, or_new, platform_success,
  platform_verify_ack, put_user, send, set_login_state, set_user_state, user_at, wait_platform,
}

-- The question that a login puts to the database.
abbrev pub question : ℕ → LoginRequest → CheckAcct
question p msg = record {
  str = msg.name;
  pwd = msg.pwd;
  result = check_pass;
  ower = p;
  acct = 0;
  check_type = login_check;
  channel = msg.channel;
}

-- The login has been answered with the error that the verification is needed, has been put to the database all the
-- same, and is accepted when the database knows the account.
abbrev pub IsQueued : ℕ → ℕ → ℕ → ℕ → LoginRequest → LoginServer → LoginServer → Type 0
IsQueued t tran_id acct p msg s s' =
    let d = batch_query (some (acct, check_pass)) (question p msg) in
    (s'.sent ≡ s.sent ++ login_response p error_need_third_verify ∷ [])
    × ((user_at p s').state ≡ checking_data)
    × (s'.tasks ≡ s.tasks ++ question p msg ∷ [])
    × LoggedIn tran_id d s' (check_account_call t tran_id d true s') (get_idle_gate s')

too_long : (n : ℕ) → n < 128 → leb 128 n ≡ false
too_long n h = ground arith

login_checks_lem :
    (p : ℕ) (msg : LoginRequest) (s : LoginServer)
    → compare_version s.config msg.version ≡ true
    → compare_channel s.config msg.channel ≡ true
    → length msg.name < 128
    → length msg.pwd < 128
    → login_checks p msg s ≡ check_account msg.name msg.pwd msg.channel p login_check s
unfolding login_checks
login_checks_lem p msg s version channel name pwd =
    rw (version, channel, too_long (length msg.name) name, too_long (length msg.pwd) pwd) refl

-- A name with a letter is not the empty one.
no_name_verified :
    (u : UserLoginSession) (msg : LoginRequest)
    → u.platform_user_id ≡ []
    → 0 < length msg.name
    → is_verified u msg ≡ false
unfolding is_verified bytes_eq
no_name_verified u msg none_yet named =
    ap (λ id. is_platform_success u.state && bytes_eq msg.name id) none_yet
    ∙ by_name msg.name (is_platform_success u.state) named
  where
    by_name : (name : Bytes) (b : Bool) → 0 < length name → (b && bytes_eq name []) ≡ false
    by_name [] b h = absurd (omega (arith, h))
    by_name (c ∷ name) true h = refl
    by_name (c ∷ name) false h = refl

-- The server when the login stands in the queue.
queued : ℕ → LoginRequest → LoginServer → LoginServer
queued p msg s =
    check_account msg.name msg.pwd msg.channel p login_check
      (send (login_response p error_need_third_verify) s)

parse_login_game-queued :
    (p : ℕ) (msg : LoginRequest) (s : LoginServer)
    → needs_verify s.config msg ≡ true
    → compare_version s.config msg.version ≡ true
    → compare_channel s.config msg.channel ≡ true
    → length msg.name < 128
    → length msg.pwd < 128
    → is_verified (user_at p s) msg ≡ false
    → parse_login_game p msg s ≡ queued p msg s
unfolding parse_login_game send queued
parse_login_game-queued p msg s needs version channel name pwd other =
    rw (needs, other)
      (login_checks_lem p msg (send (login_response p error_need_third_verify) s) version channel
        name pwd)

queued-IsQueued :
    (t tran_id acct p : ℕ) (msg : LoginRequest) (s : LoginServer)
    → (user_at p s).valid ≡ true
    → (acct == 0) ≡ false
    → find tran_id s.wait_sessions ≡ none
    → IsQueued t tran_id acct p msg s (queued p msg s)
unfolding queued check_account queue send set_user_state put_user set_login_state user_at
    batch_query
queued-IsQueued t tran_id acct p msg s valid known fresh = (
  refl,
  user_at-set_user_state p checking_data (send (login_response p error_need_third_verify) s),
  refl,
  check_account_outcome t tran_id (batch_query (some (acct, check_pass)) (question p msg))
      (queued p msg s) (ap (λ o. (or_new o).valid) (find-assign_self p _ s.sessions) ∙ valid) known
      fresh,
)

let_in :
    (t tran_id acct p : ℕ) (msg : LoginRequest) (s : LoginServer)
    → needs_verify s.config msg ≡ true
    → compare_version s.config msg.version ≡ true
    → compare_channel s.config msg.channel ≡ true
    → length msg.name < 128
    → length msg.pwd < 128
    → 0 < length msg.name
    → (user_at p s).platform_user_id ≡ []
    → (user_at p s).valid ≡ true
    → (acct == 0) ≡ false
    → find tran_id s.wait_sessions ≡ none
    → IsQueued t tran_id acct p msg s (parse_login_game p msg s)
let_in t tran_id acct p msg s needs version channel name pwd named id valid known fresh =
    subst (IsQueued t tran_id acct p msg s)
      (sym (
        parse_login_game-queued p msg s needs version channel name pwd
          (no_name_verified (user_at p s) msg id named)))
      (queued-IsQueued t tran_id acct p msg s valid known fresh)

-- The server when the platform has verified the user, over HTTP, under the name of the login.
abbrev pub verified : ℕ → LoginRequest → LoginServer → LoginServer
verified p msg s = logic_excute p msg.channel (pos 0) (parse_platform_verify p msg.name s)

user_at-put_user : (p : ℕ) (u : UserLoginSession) (s : LoginServer) → user_at p (put_user p u s) ≡ u
unfolding user_at put_user
user_at-put_user p u s = ap or_new (find-assign_self p u s.sessions)

-- The server when a platform that was waited for has answered.
accepted : ℕ → ℤ → LoginServer → LoginServer
accepted p channel w =
    let s1 = set_user_state p platform_success w in
    send (platform_verify_ack p true) (put_user p (record (user_at p s1) { channel = channel }) s1)

verified-accepted :
    (p : ℕ) (msg : LoginRequest) (s : LoginServer)
    → (user_at p s).platform_user_id ≡ []
    → verified p msg s ≡ accepted p msg.channel (set_user_state p wait_platform s)
unfolding logic_excute parse_platform_verify accepted is_wait_platform is_empty
verified-accepted p msg s id =
    ap (logic_excute p msg.channel (pos 0)) (
      ap
        (λ known.
          if is_empty known || bytes_eq known msg.name then set_user_state p wait_platform s else s)
        id)
    ∙ ap
        (λ state.
          if is_wait_platform state && true
          then accepted p msg.channel (set_user_state p wait_platform s)
          else send (platform_verify_ack p false) (set_user_state p wait_platform s))
        (user_at-set_user_state p wait_platform s)

verified_lem :
    (p : ℕ) (msg : LoginRequest) (s : LoginServer)
    → (user_at p s).platform_user_id ≡ []
    → let s' = verified p msg s in
      ((user_at p s').state ≡ platform_success)
      × ((user_at p s').platform_user_id ≡ [])
      × ((user_at p s').valid ≡ (user_at p s).valid)
      × (s'.config ≡ s.config)
      × (s'.wait_sessions ≡ s.wait_sessions)
unfolding accepted send set_user_state set_login_state put_user user_at
verified_lem p msg s id =
    let w = set_user_state p wait_platform s in
    let s1 = set_user_state p platform_success w in
    let last = user_at-put_user p (record (user_at p s1) { channel = msg.channel }) s1 in
    let middle = user_at-put_user p (set_login_state platform_success (user_at p w)) w in
    let first = user_at-put_user p (set_login_state wait_platform (user_at p s)) s in
    subst
      (λ (s' : LoginServer).
        ((user_at p s').state ≡ platform_success)
        × ((user_at p s').platform_user_id ≡ [])
        × ((user_at p s').valid ≡ (user_at p s).valid)
        × (s'.config ≡ s.config)
        × (s'.wait_sessions ≡ s.wait_sessions))
      (sym (verified-accepted p msg s id))
      (
        ap (λ (u : UserLoginSession). u.state) last ∙ ap (λ (u : UserLoginSession). u.state) middle,
        ap (λ (u : UserLoginSession). u.platform_user_id) last
            ∙ ap (λ (u : UserLoginSession). u.platform_user_id) middle
            ∙ ap (λ (u : UserLoginSession). u.platform_user_id) first
            ∙ id,
        ap (λ (u : UserLoginSession). u.valid) last
            ∙ ap (λ (u : UserLoginSession). u.valid) middle
            ∙ ap (λ (u : UserLoginSession). u.valid) first,
        refl,
        refl,
      )

-- Where the platform's verification is needed, a login of a valid session whose name of the platform is empty, with
-- the current version, a known channel, a name, and texts below 128 bytes is answered with the error that the
-- verification is needed, also where the platform has verified the user under this very name just before; and all
-- the same it is put to the database and, where that knows the account and no other session waits with the number of
-- the transaction, handed to a gate as any login is, or told that there is none.
pub verification_is_ignored :
    (t tran_id acct p : ℕ) (msg : LoginRequest) (s : LoginServer)
    → needs_verify s.config msg ≡ true
    → compare_version s.config msg.version ≡ true
    → compare_channel s.config msg.channel ≡ true
    → length msg.name < 128
    → length msg.pwd < 128
    → 0 < length msg.name
    → (user_at p s).platform_user_id ≡ []
    → (user_at p s).valid ≡ true
    → (acct == 0) ≡ false
    → find tran_id s.wait_sessions ≡ none
    → let s1 = verified p msg s in
      IsQueued t tran_id acct p msg s (parse_login_game p msg s)
      × ((user_at p s1).state ≡ platform_success)
      × IsQueued t tran_id acct p msg s1 (parse_login_game p msg s1)
verification_is_ignored t tran_id acct p msg s needs version channel name pwd named id valid known
      fresh =
    let (state, id1, valid1, config, waits) = verified_lem p msg s id in
    (
      let_in t tran_id acct p msg s needs version channel name pwd named id valid known fresh,
      state,
      let_in t tran_id acct p msg (verified p msg s) (ap (λ c. needs_verify c msg) config ∙ needs)
          (ap (λ c. compare_version c msg.version) config ∙ version)
          (ap (λ c. compare_channel c msg.channel) config ∙ channel) name pwd named id1
          (valid1 ∙ valid) known (ap (find tran_id) waits ∙ fresh),
    )
