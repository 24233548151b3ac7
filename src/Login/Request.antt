-- ===== src/Login/Request.antt =====
-- twoprocess.c, the request for a login in the privileged process, and what comes of it.
use checkedc_vsftpd.Base.{
  ℕ, Bool, true, false, Option, none, some, ◌++◌, ◌==◌, if◌then◌else◌, Bytes, codes,
}
use checkedc_vsftpd.Run.{Run, Fault, ok, fault, ◌>>=◌, map_run}
use checkedc_vsftpd.Parseconf.{Tunables}
use checkedc_vsftpd.Privsock.{
  priv_sock_send_cmd, priv_sock_send_str, priv_sock_send_int, priv_sock_get_cmd, priv_sock_get_str,
  priv_sock_get_int,
}
use checkedc_vsftpd.Login.UserConfig.{Host, ◌>>=?◌}
use checkedc_vsftpd.Login.Jail.{Jail, common_do_login}
use checkedc_vsftpd.Login.{
  LoginResult, login_fail, login_anon, login_real, Visitor, Authenticator, listed, name_or_empty,
  vsf_privop_do_login,
}

abbrev pub cmd_login : ℕ
cmd_login = 1

-- The bytes that vsf_two_process_login sends; an int flag is 1 or 0.
abbrev pub flag : Bool → ℕ
flag b = if b then 1 else 0

unfoldable pub login_request : Bytes → Bytes → Bool → Bool → Bytes
login_request user pass control_ssl data_ssl =
    priv_sock_send_cmd cmd_login
    ++ (priv_sock_send_str user
        ++ (priv_sock_send_str pass
            ++ (priv_sock_send_int (flag control_ssl) ++ priv_sock_send_int (flag data_ssl))))

-- What the request says.
pub record Request : Type 0 where
  pub user : Bytes
  pub password : Bytes
  pub control_use_ssl : ℕ
  pub data_use_ssl : ℕ

abbrev pub data_flag : Tunables → Bytes → Bytes → ℕ → ℕ × Bytes → Request
data_flag t user pass control (value, rest) =
    if t.bools (codes "ssl_enable")
    then record { user = user; password = pass; control_use_ssl = control; data_use_ssl = value }
    else record { user = user; password = pass; control_use_ssl = 0; data_use_ssl = 0 }

abbrev pub control_flag : Tunables → Bytes → Bytes → ℕ × Bytes → Run Request
control_flag t user pass (control, rest) =
    map_run (data_flag t user pass control) (priv_sock_get_int rest)

abbrev pub password_of : Tunables → Bytes → Bytes × Bytes → Run Request
password_of t user (pass, rest) = priv_sock_get_int rest >>= control_flag t user pass

abbrev pub user_of : Tunables → Bytes × Bytes → Run Request
user_of t (user, rest) = priv_sock_get_str rest >>= password_of t user

abbrev pub login_of : Tunables → ℕ × Bytes → Run Request
login_of t (cmd, rest) =
    if cmd == cmd_login then priv_sock_get_str rest >>= user_of t else fault Fault.die

-- The part of process_login_req that reads.
unfoldable pub get_login_request : Tunables → Bytes → Run Request
get_login_request t stream = priv_sock_get_cmd stream >>= login_of t

-- Is a local user to be shut in? `list_file` is what reading the list answers, `none` an error.
abbrev pub in_list : Bool → Bytes → Option Bytes → Run Bool
in_list do_chroot user none = fault Fault.die
in_list do_chroot user (some list) =
    ok (if listed list user then (if do_chroot then false else true) else do_chroot)

unfoldable pub local_do_chroot : Tunables → (Bytes → Option Bytes) → Bytes → Run Bool
local_do_chroot t read_file user =
    let do_chroot = t.bools (codes "chroot_local_user") in
    if t.bools (codes "chroot_list_enable")
    then in_list do_chroot user
        (elim (t.strs (codes "chroot_list_file")) [ none ↦ none | some name ↦ read_file name ])
    else ok do_chroot

-- A login that fails is answered and the loop goes on; the others start a session.
pub data Served : Type 0 where
  refused : Visitor → Served
  starts : Jail → Served

abbrev pub start_session : Run (Option Jail) → Run (Option Served)
start_session jail = jail >>=? λ j. ok (some (starts j))

abbrev pub serve_result : Host → Tunables → LoginResult × Visitor → Run (Option Served)
serve_result w t (login_fail, v) = ok (some (refused v))
serve_result w t (login_anon, v) =
    start_session (common_do_login w t (name_or_empty (t.strs (codes "ftp_username"))) true true)
serve_result w t (login_real, v) = local_do_chroot t w.files.fileread v.user_str >>= λ do_chroot.
    start_session (common_do_login w t v.user_str do_chroot false)

unfoldable pub process_login_req :
    Host → Tunables → Authenticator → Visitor → Bytes → Run (Option Served)
process_login_req w t check_auth v stream = get_login_request t stream >>= λ r.
    vsf_privop_do_login t check_auth (record v { user_str = r.user }) r.password
    >>= serve_result w t
