-- ===== src/Login/Accounts/Repeated.antt =====
-- Two sessions under one number of the transaction.
use dream_heroes.Base.{
  All, Bool-cases, Bytes, [], ap, false, inl, inr, none, some, subst, sym, true, ℕ, ◌++◌, ◌==◌, ◌∙◌,
  ◌∷◌, ◌≡◌, ◌≢◌,
}
use dream_heroes.Base.Map.{Map, erase, find, find-assign_ne, nat_key}
use dream_heroes.Gate.Tables.{add_data-known}
use dream_heroes.Login.Accounts.{check_account_call, hand_over}
use dream_heroes.Login.Accounts.Flow.{
  accept_account_lem, before, give_to_lem, new_account, prepar_lem,
}
use dream_heroes.Login.Gates.{gate_at, get_idle_gate, give_to, parse_gate_user_prepar, prepar_at}
use dream_heroes.Login.State.{
  CheckAcct, LoginServer, LoginState, UserLoginSession, login_success, or_new, put_user, send,
  set_user_state, user_at, wait_close, wait_gate,
}

other_user :
    (p q : ℕ) (t : LoginState) (s : LoginServer)
    → p ≢ q
    → user_at p (set_user_state q t s) ≡ user_at p s
unfolding set_user_state put_user user_at
other_user p q t s other = ap or_new (find-assign_ne q p _ s.sessions other)

-- The gate's answer goes to the session that waits, and no other session changes.
prepar_other :
    (g tran p q : ℕ) (s : LoginServer)
    → p ≢ q
    → find tran s.wait_sessions ≡ some q
    → user_at p (parse_gate_user_prepar g tran s) ≡ user_at p s
unfolding parse_gate_user_prepar set_user_state send put_user user_at
prepar_other g tran p q s other known =
    let gate = gate_at g s.gate_sessions in
    subst (λ o. user_at p (prepar_at o tran gate.out_ip gate.out_port s) ≡ user_at p s) (sym known)
      (answered gate.out_ip gate.out_port)
  where
    answered : (ip : Bytes) (port : ℕ) → user_at p (prepar_at (some q) tran ip port s) ≡ user_at p s
    answered ip port = other_user p q wait_close (send (login_success q ip port tran) s) other

-- The session waits with no number.
abbrev pub Unnumbered : ℕ → LoginServer → Type 0
Unnumbered p s = All (λ (e : ℕ × ℕ). (e.1 == p) ≡ false) s.wait_sessions

All-erase : (P : ℕ × ℕ → Type 0) (k : ℕ) (m : Map ℕ ℕ) → All P m → All P (erase k m)
unfolding erase
All-erase P k [] h = tt
All-erase P k ((j, v) ∷ m) h = elim (Bool-cases (k == j)) [
  | inl same ↦ rw same (All-erase P k m h.1)
  | inr other ↦ rw other (h.0, All-erase P k m h.1)
]

-- The gate's answer takes its number away.
prepar-waits :
    (g tran q : ℕ) (s : LoginServer)
    → find tran s.wait_sessions ≡ some q
    → (parse_gate_user_prepar g tran s).wait_sessions ≡ erase tran s.wait_sessions
unfolding parse_gate_user_prepar set_user_state send put_user
prepar-waits g tran q s known =
    let gate = gate_at g s.gate_sessions in
    ap (λ o. (prepar_at o tran gate.out_ip gate.out_port s).wait_sessions) known

-- A login of a valid session that waits with no number yet, with an account that the database knows, under a number
-- that another session waits with already, where there is a gate: when the gate answers that number, the other
-- session is told the address and is to be closed, and this one is told nothing and goes on waiting for the gate,
-- although it waits with no number; the number is gone.
pub repeated_number_unanswered :
    (t tran_id g q : ℕ) (d : CheckAcct) (s : LoginServer)
    → (user_at d.ower s).valid ≡ true
    → (d.acct == 0) ≡ false
    → get_idle_gate s ≡ some g
    → find tran_id s.wait_sessions ≡ some q
    → d.ower ≢ q
    → Unnumbered d.ower s
    → let s' = check_account_call t tran_id d true s in
      let s'' = parse_gate_user_prepar g tran_id s' in
      let gate = gate_at g s'.gate_sessions in
      (s''.sent ≡ s'.sent ++ login_success q gate.out_ip gate.out_port tran_id ∷ [])
      × ((user_at q s'').state ≡ wait_close)
      × ((user_at d.ower s'').state ≡ wait_gate)
      × (find tran_id s''.wait_sessions ≡ none)
      × Unnumbered d.ower s''
unfolding check_account_call new_account before
repeated_number_unanswered t tran_id g q d s valid acct gate taken other unnumbered =
    rw (valid, acct)
      (subst Unanswered
        (sym (
          accept_account_lem t tran_id d s
          ∙ ap (λ o. hand_over t o (new_account tran_id d) d.ower (before tran_id d s)) gate))
        handed)
  where
    Unanswered : LoginServer → Type 0
    Unanswered s' =
        let s'' = parse_gate_user_prepar g tran_id s' in
        let gate = gate_at g s'.gate_sessions in
        (s''.sent ≡ s'.sent ++ login_success q gate.out_ip gate.out_port tran_id ∷ [])
        × ((user_at q s'').state ≡ wait_close)
        × ((user_at d.ower s'').state ≡ wait_gate)
        × (find tran_id s''.wait_sessions ≡ none)
        × Unnumbered d.ower s''

    handed : Unanswered (hand_over t (some g) (new_account tran_id d) d.ower (before tran_id d s))
    handed =
        let a = new_account tran_id d in
        let s0 = before tran_id d s in
        let s' = give_to t g a d.ower s0 in
        let (state, waits, ip, port) = give_to_lem t g d.ower a s0 in
        let known : find tran_id s'.wait_sessions ≡ some q =
          ap (find tran_id) (waits ∙ add_data-known tran_id d.ower q s.wait_sessions taken)
          ∙ taken in
        let (closed, gone, told) = prepar_lem g tran_id q s' known in
        (
          told,
          closed,
          ap (λ (u : UserLoginSession). u.state) (prepar_other g tran_id d.ower q s' other known)
              ∙ state,
          gone,
          subst (All λ (e : ℕ × ℕ). (e.1 == d.ower) ≡ false)
              (sym (
                prepar-waits g tran_id q s' known
                ∙ ap (erase tran_id)
                    (waits ∙ add_data-known tran_id d.ower q s.wait_sessions taken)))
              (All-erase _ tran_id s.wait_sessions unnumbered),
        )
