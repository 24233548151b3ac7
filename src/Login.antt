-- ===== src/Login.antt =====
-- privops.c, the check of a name and a password. check_auth is vsf_sysdep_check_auth of the
-- system (PAM or the password file), for a name, a password and the client's address.
pub mod Clean
pub mod Jail
pub mod Request
pub mod Session
pub mod UserConfig
use mathlib.Core.List.{map}
use checkedc_vsftpd.Base.{
  ℕ, zero, suc, ◌+◌, ◌≡◌, Bool, true, false, not, ◌&&◌, ◌||◌, Option, none, some, List, [], ◌∷◌,
  ltb, leb, ◌==◌, if◌then◌else◌, Bytes, codes, length,
}
use checkedc_vsftpd.Run.{Run, Fault, ok, fault}
use checkedc_vsftpd.Text.{
  to_upper, is_digit, str_isempty, str_equal_text, str_contains_space, str_contains_unprintable,
}
use checkedc_vsftpd.Text.Lines.{str_contains_line}
use checkedc_vsftpd.Parseconf.{Tunables}
use checkedc_vsftpd.Prelogin.{answered, is_anonymous}

abbrev pub vsftp_password_max : ℕ
vsftp_password_max = 128

abbrev pub vsftp_username_max : ℕ
vsftp_username_max = 128

pub data LoginResult : Type 0 where
  login_fail login_anon login_real : LoginResult

-- Of struct vsf_session, what a login reads and writes.
pub record Visitor : Type 0 where
  pub user_str : Bytes
  pub anon_pass_str : Bytes
  pub banned_email_str : Bytes
  pub email_passwords_str : Bytes
  pub remote_ip_str : Bytes

abbrev pub Authenticator : Type 0
Authenticator = Bytes → Bytes → Bytes → Bool

-- isalnum of the C locale
unfoldable pub is_alnum : ℕ → Bool
is_alnum c = is_digit c || (leb b'A' c && leb c b'Z' || leb b'a' c && leb c b'z')

abbrev pub listed : Bytes → Bytes → Bool
listed list text = answered (str_contains_line (length list + 1) list 0 text)

abbrev pub plain_char : ℕ → ℕ
plain_char c = if c == b' ' then b'_' else if c == b'\n' then b'?' else c

-- The identity of an anonymous user, fit for the log.
abbrev pub anon_identity : Bytes → Bytes
anon_identity pass = map plain_char (if str_isempty pass then b'?' ∷ [] else pass)

abbrev pub name_or_empty : Option Bytes → Bytes
name_or_empty none = []
name_or_empty (some name) = name

-- setup_username_globals, without the title of the process.
abbrev pub setup_username_globals : Visitor → Bytes → Visitor
setup_username_globals v name = record v { user_str = name }

unfoldable pub handle_anonymous_login : Tunables → Visitor → Bytes → LoginResult × Visitor
handle_anonymous_login t v pass =
    if not (str_isempty v.banned_email_str) && listed v.banned_email_str pass
    then (login_fail, v)
    else if not (str_isempty v.email_passwords_str)
        && (not (listed v.email_passwords_str pass) || str_isempty pass)
    then (login_fail, v)
    else (
      login_anon,
      record v {
        user_str = name_or_empty (t.strs (codes "ftp_username"));
        anon_pass_str = anon_identity pass;
        banned_email_str = [];
        email_passwords_str = [];
      },
    )

unfoldable pub handle_local_login : Authenticator → Visitor → Bytes → LoginResult × Visitor
handle_local_login check_auth v pass =
    if check_auth v.user_str pass v.remote_ip_str
    then (login_real, setup_username_globals v v.user_str)
    else (login_fail, v)

-- The first character of a name that is not empty.
unfoldable pub good_start : Bytes → Bool
unfolding is_alnum
good_start [] = false
good_start (c ∷ s) = is_alnum c || (c == b'_' || c == b'.')

-- Behind the checks of the name and the password.
unfoldable pub login_kind : Tunables → Authenticator → Visitor → Bytes → Run (LoginResult × Visitor)
login_kind t check_auth v pass =
    if t.bools (codes "anonymous_enable") && is_anonymous v.user_str
    then ok (handle_anonymous_login t v pass)
    else if not (t.bools (codes "local_enable"))
    then fault Fault.die
    else ok (handle_local_login check_auth v pass)

unfoldable pub handle_login :
    Tunables → Authenticator → Visitor → Bytes → Run (LoginResult × Visitor)
handle_login t check_auth v pass =
    let len = length v.user_str in
    if len == 0 || ltb vsftp_username_max len
    then ok (login_fail, v)
    else if not (good_start v.user_str)
    then ok (login_fail, v)
    else if str_contains_space v.user_str || str_contains_unprintable v.user_str
    then ok (login_fail, v)
    else if ltb vsftp_password_max (length pass)
    then ok (login_fail, v)
    else login_kind t check_auth v pass

-- The result is logged and may be delayed, which is left out.
unfoldable pub vsf_privop_do_login :
    Tunables → Authenticator → Visitor → Bytes → Run (LoginResult × Visitor)
vsf_privop_do_login t check_auth v pass = handle_login t check_auth v pass
