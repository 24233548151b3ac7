-- ===== src/Tests/Privileged.antt =====
-- privsock.c, privops.c, postprivparent.c and the comparison of addresses of sysutil.c.
use checkedc_vsftpd.Base.{
  ℕ, ◌≤◌, ◌<◌, ◌≡◌, ◌↔◌, refl, true, false, none, some, [], ◌∷◌, ◌++◌, arith, ltb, if◌then◌else◌,
  Bytes, codes,
}
use checkedc_vsftpd.Run.{Fault, ok, fault, map_run, ◌>>=◌}
use checkedc_vsftpd.Str.{int_max}
use checkedc_vsftpd.Text.{str_equal_text}
use checkedc_vsftpd.Parseconf.{Tunables}
use checkedc_vsftpd.Sockaddr.{in4, in6, vsf_sysutil_sockaddr_addr_equal}
use checkedc_vsftpd.Sockaddr.Host.{host, addr_equal-host}
use checkedc_vsftpd.Privsock.{
  vsftp_privsock_maxstr, priv_sock_get_str, priv_sock_send_str, priv_sock_recv_buf,
  priv_sock_send_buf,
}
use checkedc_vsftpd.Privsock.Messages.{get_str-send_str}
use checkedc_vsftpd.Privops.{
  Effect, binds, closes, Peer, Bind, Round, System, min_port, max_port, scaled_port,
  vsf_privop_pasv_listen, vsf_privop_pasv_active, vsf_privop_accept_pasv,
  vsf_privop_get_ftp_port_sock, vsf_privop_do_file_chown,
}
use checkedc_vsftpd.Privops.Ports.{pasv_listen-Between}
use checkedc_vsftpd.Postpriv.{process_post_login_req}
use checkedc_vsftpd.Postpriv.Policy.{DiesOr, Obeys, request-Obeys}
use checkedc_vsftpd.Postpriv.Remote.{accept_value, calls-remote}
use checkedc_vsftpd.Twoprocess.{
  vsf_two_process_get_priv_data_sock, vsf_two_process_pasv_cleanup, vsf_two_process_pasv_active,
  vsf_two_process_listen, vsf_two_process_get_pasv_fd, vsf_two_process_chown_upload,
}

get_str-send_str_example :
    (priv_sock_get_str (priv_sock_send_str (codes "anna") ++ codes "x")
      ≡ (if ltb vsftp_privsock_maxstr 4 then fault Fault.die else ok (codes "anna", codes "x")))
    × ((priv_sock_send_buf (codes "anna") >>= λ sent. priv_sock_recv_buf 3 (sent ++ codes "x")) ≡ (
        if ltb int_max 4
        then fault Fault.die
        else if ltb 3 4
        then fault Fault.bug
        else ok (codes "anna", codes "x")))
get_str-send_str_example = get_str-send_str (codes "anna") (codes "x") 3 (omega arith)

abbrev home : Bytes
home = 127 ∷ 0 ∷ 0 ∷ 1 ∷ []

abbrev mapped_home : Bytes
mapped_home = 0 ∷ 0 ∷ 0 ∷ 0 ∷ 0 ∷ 0 ∷ 0 ∷ 0 ∷ 0 ∷ 0 ∷ 255 ∷ 255 ∷ home

addr_equal-host_example :
    (vsf_sysutil_sockaddr_addr_equal (in4 home) (in6 mapped_home) ≡ true)
    ↔ (host (in4 home) ≡ host (in6 mapped_home))
addr_equal-host_example = addr_equal-host (in4 home) (in6 mapped_home) refl refl

-- The passive ports are 2000 to 2009, and uploads change their owner.
abbrev settings : Tunables
settings = record {
  strs = λ name. none;
  bools = λ name. str_equal_text name (codes "chown_uploads");
  uints = λ name.
      if str_equal_text name (codes "pasv_min_port")
      then 2000
      else if str_equal_text name (codes "pasv_max_port")
      then 2009
      else 0;
}

abbrev peer : Peer
peer = record {
  remote_addr = in4 home;
  port_sockaddr = in4 home;
  port_sockaddr_port = 4000;
  anon_ftp_uid = 40;
  guest_user_uid = 41;
  anon_upload_chown_uid = 50;
}

-- The first bind of a passive listener finds its port in use.
abbrev trial : ℕ → Round
trial n = record {
  high = 128;
  low = 0;
  sock = n;
  outcome = if ltb 7 n then Bind.addrinuse else Bind.bound;
}

abbrev system : System
system = record {
  file_uid = 40;
  is_regfile = true;
  new_sock = 9;
  first_bind = Bind.addrinuse;
  second_bind = Bind.bound;
  is_connected = true;
  rounds = trial;
  accepted = some (6, in6 mapped_home);
}

pasv_listen-Between_example :
    (1024 ≤ min_port settings)
    × (min_port settings ≤ 2005)
    × (2005 ≤ max_port settings)
    × (max_port settings ≤ 65535)
    × ((i : ℕ) × (i < 9)
        × ((system.rounds i).outcome ≡ Bind.bound)
        × (7 ≡ (system.rounds i).sock)
        × (2005 ≡ scaled_port settings (system.rounds i)))
unfolding vsf_privop_pasv_listen checkedc_vsftpd.Privops.listen_loop scaled_port min_port max_port
    str_equal_text checkedc_vsftpd.Text.str_equal_internal checkedc_vsftpd.Text.memcmp
pasv_listen-Between_example =
    pasv_listen-Between settings system 7 2005 (binds 2005 ∷ closes 8 ∷ []) refl

request-Obeys_example :
    DiesOr
      (Obeys settings peer system (some 5))
      (process_post_login_req settings peer system (some 5) none (2 ∷ 0 ∷ []))
request-Obeys_example = request-Obeys settings peer system (some 5) none (2 ∷ 0 ∷ [])

calls-remote_example :
    (vsf_two_process_get_priv_data_sock (process_post_login_req settings peer system none none) 2000
      ≡ map_run (λ r. r.0) (vsf_privop_get_ftp_port_sock settings peer system none 2000 false))
    × (vsf_two_process_pasv_cleanup (process_post_login_req settings peer system none none) ≡ ok tt)
    × (vsf_two_process_pasv_active (process_post_login_req settings peer system none none)
        ≡ ok (vsf_privop_pasv_active none))
    × (vsf_two_process_listen (process_post_login_req settings peer system none none)
        ≡ map_run (λ r. r.1) (vsf_privop_pasv_listen settings system none))
    × (vsf_two_process_get_pasv_fd (process_post_login_req settings peer system none none)
        ≡ map_run accept_value (vsf_privop_accept_pasv settings peer system none))
    × (vsf_two_process_chown_upload
          (λ passed. process_post_login_req settings peer system passed none)
          5
        ≡ map_run (λ _. tt) (vsf_privop_do_file_chown peer system 5))
unfolding str_equal_text checkedc_vsftpd.Text.str_equal_internal checkedc_vsftpd.Text.memcmp
calls-remote_example = calls-remote settings peer system none 2000 5 (omega arith) refl
