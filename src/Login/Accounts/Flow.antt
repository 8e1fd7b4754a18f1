-- ===== src/Login/Accounts/Flow.antt =====
-- A user whose password the database knows, up to the answer that names the gate.
use dream_heroes.Base.{
  Bytes, Option, [], ap, arith, false, none, refl, some, subst, sym, true, ℕ, ◌++◌, ◌==◌, ◌∙◌, ◌∷◌,
  ◌≡◌,
}
use dream_heroes.Base.Map.{assign, find, find-assign_self, find-erase_self, nat_key}
use dream_heroes.Gate.Tables.{add_data, find-add_data}
use dream_heroes.Login.Accounts.{
  accept_account, check_account_call, hand_over, kick_known, remove_account,
}
use dream_heroes.Login.Gates.{
  add_balence_time, gate_at, get_idle_gate, give_to, idle_gate_from, kick_user_from_gate, or_gate,
  parse_gate_user_prepar, prepar_at, put_gate,
}
use dream_heroes.Login.State.{
  Account, CheckAcct, LoginServer, LoginState, UserLoginSession, checking_data, disable, fail,
  login_response, login_success, or_new, platform_success, put_user, send, set_login_state,
  set_user_state, user_at, user_login, wait_close, wait_data, wait_gate, wait_platform,
}

-- A kick sends at most a message.
kick_user_from_gate_lem :
    (a : Account) (s : LoginServer)
    → kick_user_from_gate a s ≡ record s { sent = (kick_user_from_gate a s).sent }
unfolding kick_user_from_gate send
kick_user_from_gate_lem a s = ground (arith)

kick_known_lem :
    (o : Option Account) (s : LoginServer)
    → kick_known o s ≡ record s { sent = (kick_known o s).sent }
unfolding kick_known
kick_known_lem none s = refl
kick_known_lem (some a) s = kick_user_from_gate_lem a s

-- The server before a gate is asked for.
unfoldable pub before : ℕ → CheckAcct → LoginServer → LoginServer
before tran_id d s = record s {
  accts = assign d.acct (record { id = d.acct; gate_id = 0; tran_id = tran_id }) s.accts;
  sent = (kick_known (find d.acct s.accts) s).sent;
}

unfoldable pub new_account : ℕ → CheckAcct → Account
new_account tran_id d = record { id = d.acct; gate_id = 0; tran_id = tran_id }

pub accept_account_lem :
    (t tran_id : ℕ) (d : CheckAcct) (s : LoginServer)
    → accept_account t tran_id d s
      ≡ hand_over t (get_idle_gate s) (new_account tran_id d) d.ower (before tran_id d s)
unfolding accept_account before get_idle_gate new_account
accept_account_lem t tran_id d s =
    ap
      (λ (s1 : LoginServer).
        hand_over t (idle_gate_from s1.gate_sessions none s1.gates) (new_account tran_id d) d.ower
          (record s1 { accts = assign d.acct (new_account tran_id d) s1.accts }))
      (kick_known_lem (find d.acct s.accts) s)

-- What comes of the login with this gate, or with none.
abbrev pub LoggedIn : ℕ → CheckAcct → LoginServer → LoginServer → Option ℕ → Type 0
LoggedIn tran_id d s s' none =
    (find d.acct s'.accts ≡ none)
    × ((user_at d.ower s').state ≡ wait_close)
    × (s'.sent ≡ (kick_known (find d.acct s.accts) s).sent ++ login_response d.ower fail ∷ [])
LoggedIn tran_id d s s' (some g) =
    let gate = gate_at g s.gate_sessions in
    let s'' = parse_gate_user_prepar g tran_id s' in
    (find d.acct s'.accts
      ≡ some (record { id = d.acct; gate_id = gate.gate_id; tran_id = tran_id }))
    × ((user_at d.ower s').state ≡ wait_gate)
    × ((user_at d.ower s'').state ≡ wait_close)
    × (find tran_id s''.wait_sessions ≡ none)
    × (s''.sent
        ≡ ((kick_known (find d.acct s.accts) s).sent
            ++ user_login g d.acct tran_id (user_at d.ower s).channel ∷ [])
          ++ login_success d.ower gate.out_ip gate.out_port tran_id ∷ [])

pub set_login_state-state :
    (t : LoginState) (u : UserLoginSession) → (set_login_state t u).state ≡ t
unfolding set_login_state
set_login_state-state disable u = refl
set_login_state-state wait_data u = refl
set_login_state-state checking_data u = refl
set_login_state-state wait_gate u = refl
set_login_state-state wait_close u = refl
set_login_state-state wait_platform u = refl
set_login_state-state platform_success u = refl

pub user_at-set_user_state :
    (p : ℕ) (t : LoginState) (s : LoginServer) → (user_at p (set_user_state p t s)).state ≡ t
unfolding set_user_state put_user user_at
user_at-set_user_state p t s =
    ap (λ o. (or_new o).state) (find-assign_self p (set_login_state t (user_at p s)) s.sessions)
    ∙ set_login_state-state t (user_at p s)

-- The answer of the gate, for a user that waits for it.
pub prepar_lem :
    (g tran p : ℕ) (s : LoginServer)
    → find tran s.wait_sessions ≡ some p
    → let gate = gate_at g s.gate_sessions in
      let s' = parse_gate_user_prepar g tran s in
      ((user_at p s').state ≡ wait_close)
      × (find tran s'.wait_sessions ≡ none)
      × (s'.sent ≡ s.sent ++ login_success p gate.out_ip gate.out_port tran ∷ [])
unfolding parse_gate_user_prepar user_at set_user_state put_user send
prepar_lem g tran p s known =
    let gate = gate_at g s.gate_sessions in
    subst
      (λ o.
        let s' = prepar_at o tran gate.out_ip gate.out_port s in
        ((user_at p s').state ≡ wait_close)
        × (find tran s'.wait_sessions ≡ none)
        × (s'.sent ≡ s.sent ++ login_success p gate.out_ip gate.out_port tran ∷ []))
      (sym known) (answered gate.out_ip gate.out_port)
  where
    answered :
        (ip : Bytes) (port : ℕ)
        → let s' = prepar_at (some p) tran ip port s in
          ((user_at p s').state ≡ wait_close)
          × (find tran s'.wait_sessions ≡ none)
          × (s'.sent ≡ s.sent ++ login_success p ip port tran ∷ [])
    answered ip port = (
      user_at-set_user_state p wait_close (send (login_success p ip port tran) s),
      find-erase_self tran s.wait_sessions,
      refl,
    )

-- A gate has been found.
pub give_to_lem :
    (t g p : ℕ) (a : Account) (s : LoginServer)
    → let s' = give_to t g a p s in
      ((user_at p s').state ≡ wait_gate)
      × (s'.wait_sessions ≡ add_data a.tran_id p s.wait_sessions)
      × ((gate_at g s'.gate_sessions).out_ip ≡ (gate_at g s.gate_sessions).out_ip)
      × ((gate_at g s'.gate_sessions).out_port ≡ (gate_at g s.gate_sessions).out_port)
unfolding give_to user_at set_user_state put_user put_gate send gate_at add_balence_time
give_to_lem t g p a s =
    let gate = gate_at g s.gate_sessions in
    let s1 = record s { accts = assign a.id (record a { gate_id = gate.gate_id }) s.accts } in
    let s2 = put_user p (record (user_at p s1) { accid = a.id }) s1 in
    let same = find-assign_self g (add_balence_time t gate) s.gate_sessions in
    (
      user_at-set_user_state p wait_gate s2,
      refl,
      ap (λ o. (or_gate o).out_ip) same,
      ap (λ o. (or_gate o).out_port) same,
    )

stored :
    (t g p : ℕ) (a : Account) (s : LoginServer)
    → find a.id (give_to t g a p s).accts
      ≡ some (record a { gate_id = (gate_at g s.gate_sessions).gate_id })
unfolding give_to set_user_state put_user put_gate send
stored t g p a s = find-assign_self a.id _ s.accts

answer :
    (t g p : ℕ) (a : Account) (s : LoginServer)
    → let s' = give_to t g a p s in
      let gate = gate_at g s.gate_sessions in
      (gate_at g s'.gate_sessions).out_ip ≡ gate.out_ip
      → (gate_at g (give_to t g a p s).gate_sessions).out_port
        ≡ (gate_at g s.gate_sessions).out_port
      → (give_to t g a p s).sent
          ++ login_success p
              (gate_at g (give_to t g a p s).gate_sessions).out_ip
              (gate_at g (give_to t g a p s).gate_sessions).out_port
              a.tran_id
            ∷ []
        ≡ (s.sent ++ user_login g a.id a.tran_id (user_at p s).channel ∷ [])
          ++ login_success p
              (gate_at g s.gate_sessions).out_ip
              (gate_at g s.gate_sessions).out_port
              a.tran_id
            ∷ []
unfolding give_to set_user_state put_user put_gate send user_at
answer t g p a s ip port = λ i.
    (s.sent ++ user_login g a.id a.tran_id (user_at p s).channel ∷ [])
    ++ login_success p (ip i) (port i) a.tran_id ∷ []

hand_over-LoggedIn :
    (t tran_id : ℕ) (d : CheckAcct) (s : LoginServer) (o : Option ℕ)
    → find tran_id s.wait_sessions ≡ none
    → LoggedIn tran_id d s (hand_over t o (new_account tran_id d) d.ower (before tran_id d s)) o
unfolding hand_over before new_account remove_account send set_user_state put_user user_at
hand_over-LoggedIn t tran_id d s none fresh =
    let s1 = send (login_response d.ower fail) (remove_account d.acct (before tran_id d s)) in
    (find-erase_self d.acct _, user_at-set_user_state d.ower wait_close s1, refl)
hand_over-LoggedIn t tran_id d s (some g) fresh =
    let a = new_account tran_id d in
    let s0 = before tran_id d s in
    let s' = give_to t g a d.ower s0 in
    let (state, waits, ip, port) = give_to_lem t g d.ower a s0 in
    let known : find tran_id s'.wait_sessions ≡ some d.ower =
      ap (find tran_id) waits ∙ find-add_data tran_id d.ower s.wait_sessions fresh in
    let (closed, gone, told) = prepar_lem g tran_id d.ower s' known in
    (stored t g d.ower a s0, state, closed, gone, told ∙ answer t g d.ower a s0 ip port)

-- A login with a password that the database knows, from a session that is valid, under a number of the
-- transaction that no other session waits with. Where no gate is registered the account is dropped, and the user
-- is told of the failure and is to be closed. Otherwise the account is stored with the gate that is chosen and with
-- the number, the user waits, the gate is sent the account, the number and the session's channel, and when this
-- gate answers that number the user is told the gate's address, is to be closed and no longer waits. Besides
-- these messages there is only the kick of the account's former login.
pub check_account_outcome :
    (t tran_id : ℕ) (d : CheckAcct) (s : LoginServer)
    → (user_at d.ower s).valid ≡ true
    → (d.acct == 0) ≡ false
    → find tran_id s.wait_sessions ≡ none
    → LoggedIn tran_id d s (check_account_call t tran_id d true s) (get_idle_gate s)
unfolding check_account_call
check_account_outcome t tran_id d s valid acct fresh =
    rw (valid, acct)
      (subst (λ s'. LoggedIn tran_id d s s' (get_idle_gate s))
        (sym (accept_account_lem t tran_id d s))
        (hand_over-LoggedIn t tran_id d s (get_idle_gate s) fresh))
