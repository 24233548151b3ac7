-- ===== src/Prelogin.antt =====
-- prelogin.c, the commands before a login, with handle_auth, handle_pbsz and handle_prot of ssl.c
-- (as built with TLS), handle_feat of features.c and handle_opts of opts.c. What the login call
-- and the TLS handshake answer is an argument of a step. Waiting is left out.
pub mod Commands
pub mod Loop
pub mod Policy
pub mod Fails
pub mod Guesses
use mathlib.Core.List.{map}
use checkedc_vsftpd.Base.{
  ℕ, zero, suc, ◌+◌, ◌%◌, ◌^◌, ◌≡◌, Bool, true, false, not, ◌&&◌, ◌||◌, Option, none, some, List,
  [], ◌∷◌, ◌++◌, ltb, leb, if◌then◌else◌, Bytes, codes, length,
}
use checkedc_vsftpd.Run.{Run, ok, fault}
use checkedc_vsftpd.Text.{to_upper, str_equal_text, str_isempty}
use checkedc_vsftpd.Text.Lines.{str_contains_line}
use checkedc_vsftpd.Parseconf.{Tunables}

-- Of struct vsf_session, what these commands read and write.
pub record Session : Type 0 where
  pub user_str : Bytes
  pub userlist_str : Bytes
  pub control_use_ssl : Bool
  pub data_use_ssl : Bool
  pub login_fails : ℕ

-- A response with its separator, or raw text.
pub data Reply : Type 0 where
  reply hyphen : ℕ → Bytes → Reply
  raw : Bytes → Reply

-- A call of the login functions: user, password and whether the connection uses TLS.
pub record Attempt : Type 0 where
  pub user : Bytes
  pub password : Bytes
  pub secure : Bool

-- The loop goes on, the process exits with a status, or the login function does not return.
pub data Next : Type 0 where
  goes_on logged_in : Next
  exits : ℕ → Next

pub record Stepped : Type 0 where
  pub session : Session
  pub replies : List Reply
  pub attempt : Option Attempt
  pub next : Next

abbrev pub ftp_loginerr : ℕ
ftp_loginerr = 530

-- One response, and the loop goes on.
abbrev pub says : Session → ℕ → Bytes → Stepped
says st code text = record {
  session = st;
  replies = reply code text ∷ [];
  attempt = none;
  next = goes_on;
}

abbrev pub says_exit : Session → ℕ → Bytes → ℕ → Stepped
says_exit st code text status = record {
  session = st;
  replies = reply code text ∷ [];
  attempt = none;
  next = exits status;
}

abbrev pub without_user : Session → Session
without_user st = record st { user_str = [] }

-- `++login_fails`, on 32 bits.
unfoldable pub check_login_fails : Tunables → Session → Session × Next
check_login_fails t st =
    let fails = (st.login_fails + 1) % 2 ^ 32 in
    (
      record st { login_fails = fails },
      if leb (t.uints (codes "max_login_fails")) fails then exits 1 else goes_on,
    )

-- A refusal that counts as a failed login.
abbrev pub refuses : Bytes → Option Attempt → Session × Next → Stepped
refuses text tried (st, next) = record {
  session = without_user st;
  replies = reply ftp_loginerr text ∷ [];
  attempt = tried;
  next = next;
}

-- `accepted` is the answer of the login function to this attempt.
unfoldable pub handle_pass_command : Tunables → Session → Bytes → Bool → Stepped
handle_pass_command t st arg accepted =
    let tried : Option Attempt =
      some (record { user = st.user_str; password = arg; secure = st.control_use_ssl }) in
    if str_isempty st.user_str
    then says st 503 (codes "Login with USER first.")
    else if accepted
    then record { session = st; replies = []; attempt = tried; next = logged_in }
    else refuses (codes "Login incorrect.") tried (check_login_fails t st)

-- The answer of str_contains_line, which always ends in one.
abbrev pub answered : Run (Option Bool) → Bool
answered (ok (some b)) = b
answered _ = false

unfoldable pub is_anonymous : Bytes → Bool
is_anonymous user =
    let upper = map to_upper user in
    str_equal_text upper (codes "FTP") || str_equal_text upper (codes "ANONYMOUS")

-- Does the list of users refuse this one?
unfoldable pub userlist_refuses : Tunables → Bytes → Bytes → Bool
userlist_refuses t list user =
    let found = answered (str_contains_line (length list + 1) list 0 user) in
    t.bools (codes "userlist_enable")
    && (found && t.bools (codes "userlist_deny")
        || not found && not (t.bools (codes "userlist_deny")))

-- The part behind the checks of the connection.
unfoldable pub ask_password : Tunables → Session → Bool → Bool → Stepped
ask_password t st is_anon accepted =
    if userlist_refuses t st.userlist_str st.user_str
    then refuses (codes "Permission denied.") none (check_login_fails t st)
    else if is_anon && t.bools (codes "no_anon_password")
    then handle_pass_command t st (codes "<no password>") accepted
    else says st 331 (codes "Please specify the password.")

unfoldable pub handle_user_command : Tunables → Session → Bytes → Bool → Stepped
handle_user_command t st arg accepted =
    let st' : Session = record st { user_str = arg } in
    let is_anon = is_anonymous arg in
    let secure = st.control_use_ssl in
    if not (t.bools (codes "local_enable")) && not is_anon
    then says (without_user st') ftp_loginerr (codes "This FTP server is anonymous only.")
    else if is_anon
        && (secure
            && (not (t.bools (codes "allow_anon_ssl"))
                && not (t.bools (codes "force_anon_logins_ssl"))))
    then says (without_user st') ftp_loginerr (codes "Anonymous sessions may not use encryption.")
    else if t.bools (codes "ssl_enable")
        && (not is_anon && (not secure && t.bools (codes "force_local_logins_ssl")))
    then says_exit st' ftp_loginerr (codes "Non-anonymous sessions must use encryption.") 1
    else if t.bools (codes "ssl_enable")
        && (is_anon && (not secure && t.bools (codes "force_anon_logins_ssl")))
    then says_exit st' ftp_loginerr (codes "Anonymous sessions must use encryption.") 1
    else ask_password t st' is_anon accepted
