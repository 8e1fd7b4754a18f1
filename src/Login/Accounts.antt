-- ===== src/Login/Accounts.antt =====
-- `AccountManager` of login/account_manager.cpp, and the registration of a gate in login/gate_session.cpp.
pub mod Flow
pub mod Repeated
use dream_heroes.Base.{
  Bool, Bytes, List, Option, [], false, if◌then◌else◌, length, none, not, some, true, ℕ, ◌%◌, ◌&&◌,
  ◌++◌, ◌==◌, ◌^◌, ◌∷◌,
}
use dream_heroes.Base.Int.{pos, ℤ}
use dream_heroes.Base.Map.{assign, erase, find, nat_key}
use dream_heroes.Login.Gates.{
  add_gate, gate_at, get_idle_gate, give_to, kick_user_from_gate, put_gate,
}
use dream_heroes.Login.State.{
  Account, CheckAcct, CheckResult, CheckType, LoginServer, already_have_acc, check_pass,
  checking_data, close_gate, error_name_pwd, fail, login_check, login_response, name_fail,
  not_found, register_account_faild, send, set_user_state, user_at, wait_close,
}

-- The `Account` that is there, or a new one.
or_account : Option Account → Account
or_account none = record { id = 0; gate_id = 0; tran_id = 0 }
or_account (some a) = a

-- `addAccount`
pub add_account : ℕ → ℕ → ℕ → LoginServer → LoginServer
unfolding or_account
add_account account tran_id gate s = record s {
  accts =
      assign account
        (record (or_account (find account s.accts)) {
          tran_id = tran_id;
          gate_id = gate;
          id = account;
        })
        s.accts;
}

-- `removeAccount`
pub remove_account : ℕ → LoginServer → LoginServer
remove_account account s = record s { accts = erase account s.accts }

-- The account that is logged in already is kicked.
unfoldable pub kick_known : Option Account → LoginServer → LoginServer
kick_known none s = s
kick_known (some a) s = kick_user_from_gate a s

-- `giveUserToGate` and what follows on its answer.
unfoldable pub hand_over : ℕ → Option ℕ → Account → ℕ → LoginServer → LoginServer
hand_over server_time (some g) a p s = give_to server_time g a p s
hand_over server_time none a p s =
    set_user_state p wait_close (send (login_response p fail) (remove_account a.id s))

-- The branch of `checkAccountCall` for an account that the database has found. `tran_id` is what
-- `makeTransId` gives.
unfoldable pub accept_account : ℕ → ℕ → CheckAcct → LoginServer → LoginServer
unfolding kick_known hand_over
accept_account server_time tran_id d s =
    let s1 = kick_known (find d.acct s.accts) s in
    let a : Account = record { id = d.acct; gate_id = 0; tran_id = tran_id } in
    let s2 = record s1 { accts = assign d.acct a s1.accts } in
    hand_over server_time (get_idle_gate s2) a d.ower s2

-- `checkAccountCall`, with `INVALID_ACCOUNT` 0.
unfoldable pub check_account_call : ℕ → ℕ → CheckAcct → Bool → LoginServer → LoginServer
unfolding accept_account
check_account_call server_time tran_id d sucess s =
    if not (user_at d.ower s).valid
    then s
    else if not sucess
    then set_user_state d.ower wait_close (send (login_response d.ower fail) s)
    else if d.acct == 0
    then send (login_response d.ower name_fail) (set_user_state d.ower wait_close s)
    else accept_account server_time tran_id d s

-- `addBatchTask` with a new question.
unfoldable pub queue : Bytes → Bytes → ℤ → CheckType → ℕ → LoginServer → LoginServer
queue str pwd channel check_type p s = record s {
  tasks =
      s.tasks
      ++ (record {
        str = str;
        pwd = pwd;
        result = check_pass;
        ower = p;
        acct = 0;
        check_type = check_type;
        channel = channel;
      })
        ∷ [];
}

-- `checkAccount`
unfoldable pub check_account : Bytes → Bytes → ℤ → ℕ → CheckType → LoginServer → LoginServer
unfolding queue
check_account name pwd channel p t s = queue name pwd channel t p (set_user_state p checking_data s)

is_pass : CheckResult → Bool
is_pass check_pass = true
is_pass not_found = false
is_pass error_name_pwd = false
is_pass already_have_acc = false

-- `CreateNewAccount`: a new account is logged in at once.
pub create_new_account : CheckAcct → Bool → LoginServer → LoginServer
unfolding is_pass queue
create_new_account d sucess s =
    if not (user_at d.ower s).valid
    then s
    else if sucess && is_pass d.result
    then queue d.str d.pwd (pos 0) login_check d.ower s
    else set_user_state d.ower wait_close (send (register_account_faild d.ower) s)

-- `batchQuery`, with the row that the database answers, if there is one.
unfoldable pub batch_query : Option (ℕ × CheckResult) → CheckAcct → CheckAcct
batch_query none d = d
batch_query (some (acct, result)) d = record d { acct = acct; result = result }

-- A gate that registers itself again reports an account that is logged in.
kick_elsewhere : ℕ → Option Account → LoginServer → LoginServer
kick_elsewhere gate none s = s
kick_elsewhere gate (some a) s = if a.gate_id == gate then s else kick_user_from_gate a s

-- The loop of `parseGateRegister` over the accounts, each with its number of the transaction.
report_accounts : ℕ → List (ℕ × ℕ) → LoginServer → LoginServer
unfolding kick_elsewhere
report_accounts gate [] s = s
report_accounts gate ((account, tran_id) ∷ l) s =
    report_accounts gate l
      (add_account account tran_id gate (kick_elsewhere gate (find account s.accts) s))

-- `parseGateRegister`: `is_current` is what `gLGVersion.checkVersion` answers. `assert` does nothing in a release.
pub parse_gate_register : Bool → ℕ → ℕ → Bytes → ℕ → List (ℕ × ℕ) → LoginServer → LoginServer
unfolding report_accounts
parse_gate_register is_current g server_id ip port accounts s =
    let gate = gate_at g s.gate_sessions in
    let s1 = if is_current then s else send (close_gate g) s in
    let s2 =
      put_gate g
        (record gate {
          gate_id = server_id % 2 ^ 8;
          onlines = length accounts;
          out_ip = ip;
          out_port = port;
        })
        s1 in
    report_accounts (server_id % 2 ^ 8) accounts (add_gate (server_id % 2 ^ 8) g s2)
