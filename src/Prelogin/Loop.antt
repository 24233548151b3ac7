-- ===== src/Prelogin/Loop.antt =====
-- prelogin.c, the start of a connection and the loop over the commands.
use checkedc_vsftpd.Base.{
  true, false, ℕ, Bool, not, ◌&&◌, Option, none, some, List, [], ◌∷◌, ◌++◌, ltb, if◌then◌else◌,
  Bytes, codes,
}
use checkedc_vsftpd.Text.{str_equal_text, str_isempty}
use checkedc_vsftpd.Text.Lines.{lines}
use checkedc_vsftpd.Parseconf.{Tunables}
use checkedc_vsftpd.Prelogin.{
  Session, Reply, reply, hyphen, Attempt, Next, goes_on, logged_in, exits, Stepped, says, says_exit,
  ftp_loginerr, handle_user_command, handle_pass_command,
}
use checkedc_vsftpd.Prelogin.Commands.{
  Answer, handle_feat, handle_opts, handle_auth, handle_pbsz, handle_prot,
}

-- A connection is refused, with the response, or goes on.
unfoldable pub check_limits : Tunables → ℕ → ℕ → Bool → Option Reply
check_limits t num_clients num_this_ip tcp_wrapper_ok =
    let max_clients = t.uints (codes "max_clients") in
    let max_per_ip = t.uints (codes "max_per_ip") in
    if ltb 0 max_clients && ltb max_clients num_clients
    then some (reply 421 (codes "There are too many connected users, please try later."))
    else if ltb 0 max_per_ip && ltb max_per_ip num_this_ip
    then some (reply 421 (codes "There are too many connections from your internet address."))
    else if not tcp_wrapper_ok
    then some (reply 421 (codes "Service not available."))
    else none

-- vsf_banner_write, over the lines that str_getline gives of the banner.
unfoldable pub vsf_banner_write : ℕ → List Bytes → List Reply
vsf_banner_write code [] = []
vsf_banner_write code (line ∷ ls) = hyphen code line ∷ vsf_banner_write code ls

abbrev pub banner_or : Option Bytes → List Reply
banner_or none = reply 220 (codes "(vsFTPd 3.0.3)") ∷ []
banner_or (some text) = reply 220 text ∷ []

unfoldable pub emit_greeting : Tunables → Bytes → List Reply
emit_greeting t banner_str =
    if not (str_isempty banner_str)
    then vsf_banner_write 220 (lines banner_str) ++ reply 220 [] ∷ []
    else banner_or (t.strs (codes "ftpd_banner"))

-- A command with FTP enabled.
unfoldable pub ftp_command : Tunables → Session → Bytes → Bytes → Answer → Stepped
ftp_command t st cmd arg a =
    let ssl = t.bools (codes "ssl_enable") in
    let feat : Stepped = record {
      session = st;
      replies = handle_feat t;
      attempt = none;
      next = goes_on;
    } in
    let ignored : Stepped = record { session = st; replies = []; attempt = none; next = goes_on } in
    if str_equal_text cmd (codes "USER")
    then handle_user_command t st arg a.accepted
    else if str_equal_text cmd (codes "PASS")
    then handle_pass_command t st arg a.accepted
    else if str_equal_text cmd (codes "QUIT")
    then says_exit st 221 (codes "Goodbye.") 0
    else if str_equal_text cmd (codes "FEAT")
    then feat
    else if str_equal_text cmd (codes "OPTS")
    then handle_opts st arg
    else if ssl && (str_equal_text cmd (codes "AUTH") && not st.control_use_ssl)
    then handle_auth st arg a
    else if ssl && str_equal_text cmd (codes "PBSZ")
    then handle_pbsz st
    else if ssl && str_equal_text cmd (codes "PROT")
    then handle_prot st arg
    else if str_isempty cmd && str_isempty arg
    then ignored
    else says st ftp_loginerr (codes "Please login with USER and PASS.")

-- The loop exits after the command, unless a login took over.
abbrev pub then_exit : Stepped → Stepped
then_exit r = record r {
  next = elim r.next [ logged_in ↦ logged_in | exits n ↦ exits n | goes_on ↦ exits 0 ];
}

unfoldable pub handle_get : Tunables → Session → Bool → Stepped
handle_get t st accepted =
    handle_pass_command t (record st { user_str = codes "FTP" }) (codes "<http>") accepted

-- One round of the loop of parse_username_password.
unfoldable pub prelogin_command : Tunables → Session → Bytes → Bytes → Answer → Stepped
prelogin_command t st cmd arg a =
    let http : Stepped =
      if str_equal_text cmd (codes "GET")
      then handle_get t st a.accepted
      else says st ftp_loginerr (codes "Bad HTTP verb.") in
    if t.bools (codes "ftp_enable")
    then ftp_command t st cmd arg a
    else if t.bools (codes "http_enable")
    then then_exit http
    else record { session = st; replies = []; attempt = none; next = goes_on }

pub record Input : Type 0 where
  pub cmd : Bytes
  pub arg : Bytes
  pub answer : Answer

-- The attempts of a run and how it stands after the commands that were read.
pub record Ran : Type 0 where
  pub attempts : List Attempt
  pub session : Session
  pub next : Next

abbrev pub with_attempt : Option Attempt → Ran → Ran
with_attempt none r = r
with_attempt (some tried) r = record r { attempts = tried ∷ r.attempts }

-- The loop over the commands that the client sends.
abbrev pub continues : Stepped → (Session → Ran) → Ran
continues r rest = with_attempt r.attempt (elim r.next [
  | goes_on ↦ rest r.session
  | logged_in ↦ record { attempts = []; session = r.session; next = logged_in }
  | exits n ↦ record { attempts = []; session = r.session; next = exits n }
])

unfoldable pub parse_username_password : Tunables → Session → List Input → Ran
parse_username_password t st [] = record { attempts = []; session = st; next = goes_on }
parse_username_password t st (i ∷ is) =
    continues (prelogin_command t st i.cmd i.arg i.answer) (λ st'. parse_username_password t st' is)

-- What the process knows of a new connection, and whether a first handshake succeeds.
pub record Arrival : Type 0 where
  pub num_clients : ℕ
  pub num_this_ip : ℕ
  pub tcp_wrapper_ok : Bool
  pub negotiated : Bool

-- The session of a new connection, with the list of users that was read.
abbrev pub new_session : Bytes → Session
new_session userlist = record {
  user_str = [];
  userlist_str = userlist;
  control_use_ssl = false;
  data_use_ssl = false;
  login_fails = 0;
}

abbrev pub turned_away : Session → Ran
turned_away st = record { attempts = []; session = st; next = exits 1 }

-- Behind the limits: the handshake of implicit TLS, which exits when it fails, and the loop.
abbrev pub greeted : Tunables → Arrival → Session → List Input → Ran
greeted t a st is =
    if t.bools (codes "ssl_enable") && t.bools (codes "implicit_ssl")
    then (if a.negotiated
        then parse_username_password t (record st { control_use_ssl = true }) is
        else turned_away st)
    else parse_username_password t st is

-- The responses of the limits and the greeting, which a run does not keep, are those of
-- check_limits and emit_greeting.
unfoldable pub init_connection : Tunables → Arrival → Session → List Input → Ran
init_connection t a st is = elim (check_limits t a.num_clients a.num_this_ip a.tcp_wrapper_ok) [
  | some refusal ↦ turned_away st
  | none ↦ greeted t a st is
]
