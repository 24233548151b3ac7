-- ===== src/Tests/Login.antt =====
-- prelogin.c.
use checkedc_vsftpd.Base.{
  ◌≡◌, refl, Bool, true, false, ◌||◌, ◌&&◌, none, some, Bytes, List, [], ◌∷◌, arith, if◌then◌else◌,
  codes,
}
use checkedc_vsftpd.Run.{ok}
use checkedc_vsftpd.Text.{str_equal, str_equal_text}
use checkedc_vsftpd.Parseconf.{Tunables}
use checkedc_vsftpd.Postpriv.Policy.{All}
use checkedc_vsftpd.Prelogin.{Session, Attempt, Next, goes_on, exits}
use checkedc_vsftpd.Prelogin.Commands.{Answer}
use checkedc_vsftpd.Prelogin.Loop.{
  Input, Ran, Arrival, new_session, parse_username_password, init_connection,
}
use checkedc_vsftpd.Prelogin.Policy.{Admissible, attempts-Admissible}
use checkedc_vsftpd.Prelogin.Fails.{BoundedBy, attempts-BoundedBy}
use checkedc_vsftpd.Prelogin.Guesses.{guesses, guesses_exit}
use checkedc_vsftpd.Login.{Visitor, Authenticator, vsf_privop_do_login}
use checkedc_vsftpd.Login.Clean.{Earned, do_login-IsClean, do_login-Earned}
use checkedc_vsftpd.Login.Request.{login_request, get_login_request, process_login_req, starts}
use checkedc_vsftpd.Login.UserConfig.{Host}
use checkedc_vsftpd.Text.Replace.{str_replace_text}
use checkedc_vsftpd.Text.Replace.Ends.{str_replace_text-ends}
use checkedc_vsftpd.Login.Session.{Started, get_login_request-login_request, process_login-Started}

-- FTP with local users and TLS, and two failures at most.
abbrev two_tries : Tunables
two_tries = record {
  strs = λ name. none;
  bools = λ name.
      str_equal_text name (codes "ftp_enable")
      || (str_equal_text name (codes "local_enable") || str_equal_text name (codes "ssl_enable"));
  uints = λ name. if str_equal_text name (codes "max_login_fails") then 2 else 0;
}

abbrev fresh : Session
fresh = record {
  user_str = [];
  userlist_str = [];
  control_use_ssl = false;
  data_use_ssl = false;
  login_fails = 0;
}

-- The only client.
abbrev alone : Arrival
alone = record { num_clients = 1; num_this_ip = 1; tcp_wrapper_ok = true; negotiated = true }

abbrev answers : Bool → Answer
answers b = record { accepted = b; negotiated = true; ssl_error = [] }

-- A name that is given before TLS is set up.
abbrev late_tls : List Input
late_tls =
    record { cmd = codes "USER"; arg = codes "ftp"; answer = answers true }
    ∷ record { cmd = codes "AUTH"; arg = codes "tls"; answer = answers true }
    ∷ record { cmd = codes "PASS"; arg = codes "x"; answer = answers true }
    ∷ []

attempts-Admissible_example :
    All
      (Admissible two_tries [])
      (init_connection two_tries alone (new_session []) late_tls).attempts
unfolding str_equal_text checkedc_vsftpd.Text.str_equal_internal checkedc_vsftpd.Text.memcmp
attempts-Admissible_example = attempts-Admissible two_tries [] alone late_tls refl

-- With implicit TLS the first session is secure.
implicit_tls :
    (init_connection
      (record two_tries { bools = λ name. true })
      alone
      (new_session [])
      (record { cmd = codes "QUIT"; arg = []; answer = answers true } ∷ [])).session
    ≡ record (new_session []) { control_use_ssl = true }
unfolding init_connection checkedc_vsftpd.Prelogin.Loop.check_limits str_equal_text
    checkedc_vsftpd.Text.str_equal_internal checkedc_vsftpd.Text.memcmp parse_username_password
    checkedc_vsftpd.Prelogin.Loop.prelogin_command checkedc_vsftpd.Prelogin.Loop.ftp_command
implicit_tls = refl

attempts-BoundedBy_example :
    BoundedBy two_tries 0 (parse_username_password two_tries fresh late_tls)
unfolding str_equal_text checkedc_vsftpd.Text.str_equal_internal checkedc_vsftpd.Text.memcmp
attempts-BoundedBy_example = attempts-BoundedBy two_tries fresh late_tls (omega arith) (omega arith)

guesses_exit_example :
    (parse_username_password two_tries fresh
      (guesses (codes "bob") (codes "a" ∷ codes "b" ∷ []))).next
    ≡ exits 1
unfolding str_equal_text checkedc_vsftpd.Text.str_equal_internal checkedc_vsftpd.Text.memcmp
    checkedc_vsftpd.Prelogin.is_anonymous checkedc_vsftpd.Prelogin.userlist_refuses
    checkedc_vsftpd.Text.to_upper
guesses_exit_example =
    guesses_exit two_tries fresh (codes "bob") (codes "a" ∷ codes "b" ∷ []) refl refl refl refl refl
      refl (omega arith) (omega arith) (omega arith)

-- An anonymous login over TLS, which USER would have refused over TLS.
anonymous_over_tls :
    (parse_username_password two_tries fresh late_tls).attempts
    ≡ record { user = codes "ftp"; password = codes "x"; secure = true } ∷ []
unfolding parse_username_password checkedc_vsftpd.Prelogin.Loop.prelogin_command str_equal_text
    checkedc_vsftpd.Text.str_equal_internal checkedc_vsftpd.Prelogin.Loop.ftp_command
    checkedc_vsftpd.Prelogin.handle_user_command checkedc_vsftpd.Prelogin.is_anonymous
    checkedc_vsftpd.Text.to_upper checkedc_vsftpd.Prelogin.ask_password
    checkedc_vsftpd.Prelogin.userlist_refuses checkedc_vsftpd.Prelogin.Commands.handle_auth
    checkedc_vsftpd.Prelogin.handle_pass_command checkedc_vsftpd.Text.memcmp
anonymous_over_tls = refl

-- An authentication that knows one user.
abbrev knows_bob : Authenticator
knows_bob user pass ip = str_equal user (codes "bob") && str_equal pass (codes "secret")

abbrev visitor : Visitor
visitor = record {
  user_str = codes "bob";
  anon_pass_str = [];
  banned_email_str = [];
  email_passwords_str = [];
  remote_ip_str = codes "127.0.0.1";
}

do_login-IsClean_example :
    vsf_privop_do_login two_tries knows_bob visitor (codes "secret")
    ≡ vsf_privop_do_login two_tries (λ user pass ip. true) visitor (codes "secret")
unfolding str_equal checkedc_vsftpd.Text.str_strcmp checkedc_vsftpd.Text.str_equal_internal
    checkedc_vsftpd.Text.memcmp
do_login-IsClean_example =
    do_login-IsClean two_tries visitor (codes "secret") knows_bob (λ user pass ip. true)
      (λ clean. refl)

do_login-Earned_example :
    Earned two_tries knows_bob visitor
      (codes "secret")
      (vsf_privop_do_login two_tries knows_bob visitor (codes "secret"))
do_login-Earned_example = do_login-Earned two_tries knows_bob visitor (codes "secret")

get_login_request-login_request_test :
    get_login_request two_tries (login_request (codes "bob") (codes "secret") true false)
    ≡ ok (record {
      user = codes "bob";
      password = codes "secret";
      control_use_ssl = 1;
      data_use_ssl = 0;
    })
unfolding str_equal_text checkedc_vsftpd.Text.str_equal_internal checkedc_vsftpd.Text.memcmp
get_login_request-login_request_test =
    get_login_request-login_request two_tries (codes "bob") (codes "secret") true false
      (omega arith) (omega arith)

-- No files of its own, and one user with a home directory.
abbrev box : Host
box = record {
  files = record { fileread = λ _. none; stat = λ _. none; getuid = 0 };
  not_found = λ _. true;
  homedir = λ user. if str_equal user (codes "bob") then some (codes "/home/bob") else none;
}

process_login-Started_example :
    Started two_tries knows_bob visitor (login_request (codes "bob") (codes "secret") true false) (
      process_login_req box two_tries knows_bob visitor
        (login_request (codes "bob") (codes "secret") true false))
process_login-Started_example =
    process_login-Started box two_tries knows_bob visitor
      (login_request (codes "bob") (codes "secret") true false)

-- The session of a local user that may go anywhere.
login_of_bob :
    process_login_req box two_tries knows_bob visitor
      (login_request (codes "bob") (codes "secret") true false)
    ≡ ok (
        some (
          starts (record {
            rights = record {
              user = codes "bob";
              is_guest = false;
              is_anonymous = false;
              chroot = false;
              change_euid = true;
              allow_writeable_root = false;
            };
            dirs = record { userdir = codes "/home/bob"; chroot_dir = []; chdir_dir = [] };
          })))
unfolding process_login_req get_login_request checkedc_vsftpd.Privsock.priv_sock_get_cmd
    login_request checkedc_vsftpd.Privsock.priv_sock_send_cmd
    checkedc_vsftpd.Privsock.priv_sock_get_str checkedc_vsftpd.Privsock.priv_sock_get_int
    checkedc_vsftpd.Privsock.priv_sock_send_str checkedc_vsftpd.Privsock.priv_sock_send_int
    checkedc_vsftpd.Privsock.read_exactly vsf_privop_do_login checkedc_vsftpd.Login.handle_login
    str_equal_text checkedc_vsftpd.Text.str_equal_internal checkedc_vsftpd.Login.good_start
    checkedc_vsftpd.Text.is_digit checkedc_vsftpd.Text.str_contains_space
    checkedc_vsftpd.Text.str_contains_unprintable checkedc_vsftpd.Login.Jail.calculate_chdir_dir
    checkedc_vsftpd.Login.Jail.common_do_login checkedc_vsftpd.Login.Jail.rights_of
    checkedc_vsftpd.Login.Jail.with_home_split checkedc_vsftpd.Login.Request.local_do_chroot
    checkedc_vsftpd.Login.UserConfig.handle_per_user_config
    checkedc_vsftpd.Login.UserConfig.per_user_config checkedc_vsftpd.Login.handle_local_login
    checkedc_vsftpd.Login.is_alnum checkedc_vsftpd.Login.login_kind
    checkedc_vsftpd.Prelogin.is_anonymous checkedc_vsftpd.Text.is_print
    checkedc_vsftpd.Text.is_space checkedc_vsftpd.Text.memcmp str_equal
    checkedc_vsftpd.Text.str_strcmp checkedc_vsftpd.Text.to_upper
login_of_bob = refl

-- Replacing the empty text ends.
str_replace_text-ends_example :
    (text : Bytes) × (str_replace_text (codes "abc") [] (codes "x") ≡ some text)
str_replace_text-ends_example = str_replace_text-ends (codes "abc") [] (codes "x")
