-- ===== src/Tests/Session.antt =====
use checkedc_vsftpd.Base.{
  ◌≡◌, ◌↔◌, refl, ◌⊎◌, inl, Bool, true, false, none, some, Bytes, List, [], ◌∷◌, ◌++◌, arith,
  if◌then◌else◌, codes, take,
}
use checkedc_vsftpd.Run.{ok}
use checkedc_vsftpd.Text.{str_equal_text}
use checkedc_vsftpd.Parseconf.{Tunables}
use checkedc_vsftpd.Sockaddr.{in4, in6}
use checkedc_vsftpd.Prelogin.{reply}
use checkedc_vsftpd.Ipaddrparse.{vsf_sysutil_parse_uchar_string_sep}
use checkedc_vsftpd.Ipaddrparse.Separated.{join}
use checkedc_vsftpd.Login.UserConfig.{Ends}
use checkedc_vsftpd.Postlogin.{State, Handler, do_noperm, do_stor, do_size, post_command}
use checkedc_vsftpd.Postlogin.Allowed.{allows}
use checkedc_vsftpd.Postlogin.Dispatch.{Reachable, post_command-Reachable}
use checkedc_vsftpd.Postlogin.Connection.{Conn, set_ipv4addr, port_of}
use checkedc_vsftpd.Postlogin.Pasv.{Net, listening, handle_pasv}
use checkedc_vsftpd.Postlogin.Transfer.{
  Event, port_cmd, eprt_cmd, pasv_cmd, transfer_ends, on_events, data_transfer_checks_ok,
  get_remote_transfer_fd, Remote,
}
use checkedc_vsftpd.Postlogin.Active.{Carries, Encrypted, IsReady, checks_ok-Carries}
use checkedc_vsftpd.Postlogin.Target.{Aimed}
use checkedc_vsftpd.Postlogin.Events.{events-Aimed}
use checkedc_vsftpd.Postlogin.Files.{
  Answers, Names, Command, rnfr_cmd, cwd_cmd, rnto_cmd, resolve_tilde, made_text,
}
use checkedc_vsftpd.Postlogin.Checked.{AllMayCall, commands-AllMayCall}
use checkedc_vsftpd.Postlogin.Passive.{pasv_reply-port}

-- Writing is on, not for anonymous users, and DELE is denied.
abbrev no_dele : Tunables
no_dele = record {
  strs =
      λ name. if str_equal_text name (codes "cmds_denied") then some (codes "SITE,DELE") else none;
  bools = λ name. str_equal_text name (codes "write_enable");
  uints = λ name. 0;
}

abbrev anonymous : State
anonymous = record { is_anonymous = true; epsv_all = false }

post_command-Reachable_example :
    (h : Handler) × (post_command no_dele anonymous (codes "STOR") (codes "a") ≡ some h)
    × ((h ≡ do_noperm) ⊎ ((allows no_dele (codes "STOR") ≡ true) × Reachable no_dele anonymous h))
post_command-Reachable_example = post_command-Reachable no_dele anonymous (codes "STOR") (codes "a")

abbrev here : Bytes
here = 10 ∷ 0 ∷ 0 ∷ 1 ∷ []

abbrev there : Bytes
there = 10 ∷ 0 ∷ 0 ∷ 2 ∷ []

abbrev idle : Conn
idle = record {
  local_addr = in4 here;
  remote_addr = in4 there;
  port_sockaddr = none;
  pasv_listens = false;
  epsv_all = false;
}

abbrev net : Net
net = record { inet_ntop = λ a. join b'.' a; inet_aton = λ s. none; listen = some 5001 }

abbrev commands : List Event
commands =
    port_cmd (codes "10,0,0,2,8,0")
    ∷ pasv_cmd false [] net
    ∷ eprt_cmd (codes "|1|10.0.0.2|2048|")
    ∷ transfer_ends
    ∷ []

events-Aimed_example : Ends (Aimed no_dele (in4 here) (in4 there)) (on_events no_dele idle commands)
events-Aimed_example =
    events-Aimed no_dele (in4 here) (in4 there) refl refl commands idle
      (record { same_local = refl; same_remote = refl; one_active = refl; on_target = tt })

checks_ok-Carries_example :
    (b : Bool) × (data_transfer_checks_ok no_dele false true (listening idle) ≡ ok (some b))
    × ((b ≡ true) ↔ (IsReady (listening idle) × Encrypted no_dele false true))
    × (b ≡ true
        → (r : Remote) × (get_remote_transfer_fd (listening idle) ≡ ok (some r))
          × Carries (listening idle) r)
checks_ok-Carries_example = checks_ok-Carries no_dele false true (listening idle) refl

pasv_reply-port_example :
    (numbers : Bytes) × (vals : Bytes) × (handle_pasv no_dele net idle false []
      ≡ ok (listening idle, reply 227 (codes "Entering Passive Mode (" ++ numbers ++ codes ").")))
    × (vsf_sysutil_parse_uchar_string_sep numbers b',' 6 ≡ some vals)
    × (set_ipv4addr idle.local_addr (take 4 vals) ≡ idle.local_addr)
    × (port_of vals ≡ 5001)
unfolding str_equal_text checkedc_vsftpd.Text.str_equal_internal checkedc_vsftpd.Text.memcmp
pasv_reply-port_example =
    pasv_reply-port no_dele net idle [] 10 0 0 1 5001 refl refl refl refl refl (omega arith)

stor_refused : post_command no_dele anonymous (codes "STOR") (codes "a") ≡ some do_noperm
unfolding post_command checkedc_vsftpd.Postlogin.cmd_ok str_equal_text
    checkedc_vsftpd.Text.str_equal_internal checkedc_vsftpd.Postlogin.in_cmds
    checkedc_vsftpd.Text.Split.str_split_char checkedc_vsftpd.Text.str_locate_text
    checkedc_vsftpd.Text.locate_text_loop checkedc_vsftpd.Text.has_prefix
    checkedc_vsftpd.Text.str_equal checkedc_vsftpd.Postlogin.dispatch_rows
stor_refused = refl

port_set :
    on_events no_dele idle (port_cmd (codes "10,0,0,2,8,0") ∷ [])
    ≡ ok (some (record idle { port_sockaddr = some (in4 there, 2048) }))
unfolding checkedc_vsftpd.Postlogin.Transfer.on_event
    checkedc_vsftpd.Postlogin.Connection.handle_port vsf_sysutil_parse_uchar_string_sep
    checkedc_vsftpd.Ipaddrparse.sep_loop checkedc_vsftpd.Ipaddrparse.sep_round
    checkedc_vsftpd.Text.Split.str_split_char checkedc_vsftpd.Text.str_locate_text
    checkedc_vsftpd.Text.locate_text_loop checkedc_vsftpd.Text.has_prefix
    checkedc_vsftpd.Number.atoi checkedc_vsftpd.Postlogin.Connection.point_at str_equal_text
    checkedc_vsftpd.Text.str_equal_internal checkedc_vsftpd.Sockaddr.vsf_sysutil_sockaddr_addr_equal
    set_ipv4addr
port_set = refl

-- An address of the configuration is not in the reply on an IPv6 connection.
abbrev behind_nat : Tunables
behind_nat = record no_dele {
  strs =
      λ name. if str_equal_text name (codes "pasv_address") then some (codes "1.2.3.4") else none;
}

abbrev on_ipv6 : Conn
on_ipv6 = record idle {
  local_addr = in6 (0 ∷ 0 ∷ 0 ∷ 0 ∷ 0 ∷ 0 ∷ 0 ∷ 0 ∷ 0 ∷ 0 ∷ 255 ∷ 255 ∷ here);
}

pasv_address_lost :
    handle_pasv behind_nat
      (record net { inet_aton = λ s. some (1 ∷ 2 ∷ 3 ∷ 4 ∷ []) })
      on_ipv6
      false
      []
    ≡ ok (listening on_ipv6, reply 227 (codes "Entering Passive Mode (0,0,0,0,19,137)."))
unfolding handle_pasv checkedc_vsftpd.Postlogin.Pasv.enter_passive str_equal_text
    checkedc_vsftpd.Text.str_equal_internal checkedc_vsftpd.Postlogin.Pasv.passive_text
    checkedc_vsftpd.Sockaddr.vsf_sysutil_sockaddr_ipv6_v4
    checkedc_vsftpd.Number.Print.vsf_sysutil_ulong_to_str checkedc_vsftpd.Number.Print.print_digits
pasv_address_lost = refl

-- A file that is there, and calls that succeed, with `/home` as the directory.
abbrev calm : Answers
calm = record {
  paths = record { realpath = λ name. some name; getcwd = codes "/home" };
  exists = λ name. true;
  homedir = λ user. none;
  succeeds = true;
}

abbrev start : Names
start = record { home_str = codes "/home"; rnfr_filename_str = [] }

abbrev moves : List (Answers × Command)
moves =
    (calm, rnfr_cmd (codes "~/a"))
    ∷ (calm, cwd_cmd (codes "sub"))
    ∷ (calm, rnto_cmd (codes "b"))
    ∷ []

commands-AllMayCall_example : AllMayCall 3 no_dele [] start moves
commands-AllMayCall_example = commands-AllMayCall 3 no_dele moves [] start (inl refl)

tilde_resolved : resolve_tilde no_dele calm (codes "/home") (codes "~/a") ≡ codes "/home/a"
unfolding resolve_tilde checkedc_vsftpd.Postlogin.Files.tilde
    checkedc_vsftpd.Text.Split.str_split_char checkedc_vsftpd.Text.str_locate_text
    checkedc_vsftpd.Text.locate_text_loop checkedc_vsftpd.Text.has_prefix
tilde_resolved = refl

made : made_text calm (codes "a\"b") ≡ codes "\"/home/a\"\"b\" created"
unfolding checkedc_vsftpd.Text.Replace.str_replace_text checkedc_vsftpd.Text.Replace.replace_loop
    checkedc_vsftpd.Postlogin.Files.prepend_path_to_filename
    checkedc_vsftpd.Text.Split.str_split_text checkedc_vsftpd.Text.str_locate_text
    checkedc_vsftpd.Text.locate_text_loop checkedc_vsftpd.Text.has_prefix
made = refl
