-- ===== src/Postpriv.antt =====
-- postprivparent.c, the requests that the privileged process serves after a login, and the calls
-- of twoprocess.c in its child that make them.
pub mod Policy
pub mod Remote
use checkedc_vsftpd.Base.{
  ℕ, zero, suc, ◌+◌, ◌%◌, ◌≡◌, Bool, true, false, ◌&&◌, Option, none, some, List, [], ◌∷◌, ◌++◌,
  ltb, ◌==◌, if◌then◌else◌, Bytes, codes,
}
use checkedc_vsftpd.Run.{Run, Fault, ok, fault, ◌>>=◌, map_run}
use checkedc_vsftpd.Parseconf.{Tunables}
use checkedc_vsftpd.Privsock.{
  priv_sock_send_cmd, priv_sock_send_result, priv_sock_send_int, priv_sock_send_fd,
  priv_sock_get_cmd, priv_sock_get_result, priv_sock_get_int, priv_sock_recv_fd,
}
use checkedc_vsftpd.Privops.{
  Effect, closes, Peer, System, Accepted, no_client, wrong_client, client, minus_one,
  vsf_privop_get_ftp_port_sock, vsf_privop_pasv_cleanup, vsf_privop_pasv_active,
  vsf_privop_pasv_listen, vsf_privop_accept_pasv, vsf_privop_do_file_chown,
}

abbrev pub cmd_chown : ℕ
cmd_chown = 2

abbrev pub cmd_get_data_sock : ℕ
cmd_get_data_sock = 3

abbrev pub cmd_pasv_cleanup : ℕ
cmd_pasv_cleanup = 10

abbrev pub cmd_pasv_active : ℕ
cmd_pasv_active = 11

abbrev pub cmd_pasv_listen : ℕ
cmd_pasv_listen = 12

abbrev pub cmd_pasv_accept : ℕ
cmd_pasv_accept = 13

abbrev pub result_ok : ℕ
result_ok = 1

abbrev pub result_bad : ℕ
result_bad = 2

-- What a request leaves: pasv_listen_fd, the bytes and the descriptor of the reply, what was done
-- on the outside, the last thing first, and what is left of the requests.
pub record Served : Type 0 where
  pub pasv_listen_fd : Option ℕ
  pub sent : Bytes
  pub sent_fd : Option ℕ
  pub done : List Effect
  pub requests : Bytes

abbrev pub chown_reply : Option ℕ → ℕ → Bytes → List Effect → Served
chown_reply listening the_fd rest done = record {
  pasv_listen_fd = listening;
  sent = priv_sock_send_result result_ok;
  sent_fd = none;
  done = closes the_fd ∷ done;
  requests = rest;
}

-- The descriptor passed with the request is an argument of the system, `none` if there is none.
unfoldable pub cmd_process_chown : Peer → System → Option ℕ → Option ℕ → Bytes → Run Served
cmd_process_chown p s passed listening stream =
    priv_sock_recv_fd passed stream >>= λ (the_fd, rest).
    map_run (chown_reply listening the_fd rest) (vsf_privop_do_file_chown p s the_fd)

abbrev pub data_sock_reply : Option ℕ → Bytes → Option ℕ × List Effect → Served
data_sock_reply listening rest (none, done) = record {
  pasv_listen_fd = listening;
  sent = priv_sock_send_result result_bad;
  sent_fd = none;
  done = done;
  requests = rest;
}
data_sock_reply listening rest (some sock_fd, done) = record {
  pasv_listen_fd = listening;
  sent = priv_sock_send_result result_ok ++ priv_sock_send_fd;
  sent_fd = some sock_fd;
  done = closes sock_fd ∷ done;
  requests = rest;
}

unfoldable pub cmd_process_get_data_sock : Tunables → Peer → System → Option ℕ → Bytes → Run Served
cmd_process_get_data_sock t p s listening stream = priv_sock_get_int stream >>= λ (the_int, rest).
    map_run (data_sock_reply listening rest)
      (vsf_privop_get_ftp_port_sock t p s listening (the_int % 65536) false)

abbrev pub cleanup_reply : Bytes → Option ℕ × List Effect → Served
cleanup_reply rest (listening, done) = record {
  pasv_listen_fd = listening;
  sent = priv_sock_send_result result_ok;
  sent_fd = none;
  done = done;
  requests = rest;
}

unfoldable pub cmd_process_pasv_cleanup : Option ℕ → Bytes → Run Served
cmd_process_pasv_cleanup listening stream =
    ok (cleanup_reply stream (vsf_privop_pasv_cleanup listening))

unfoldable pub cmd_process_pasv_active : Option ℕ → Bytes → Run Served
cmd_process_pasv_active listening stream = ok (record {
  pasv_listen_fd = listening;
  sent = priv_sock_send_int (vsf_privop_pasv_active listening);
  sent_fd = none;
  done = [];
  requests = stream;
})

abbrev pub listen_reply : Bytes → ℕ × ℕ × List Effect → Served
listen_reply rest (fd, port, done) = record {
  pasv_listen_fd = some fd;
  sent = priv_sock_send_int port;
  sent_fd = none;
  done = done;
  requests = rest;
}

unfoldable pub cmd_process_pasv_listen : Tunables → System → Option ℕ → Bytes → Run Served
cmd_process_pasv_listen t s listening stream =
    map_run (listen_reply stream) (vsf_privop_pasv_listen t s listening)

-- The refusals send their value as an int of 32 bits.
abbrev pub refused_reply : Option ℕ → Bytes → ℕ → List Effect → Served
refused_reply listening rest fd done = record {
  pasv_listen_fd = listening;
  sent = priv_sock_send_result result_bad ++ priv_sock_send_int fd;
  sent_fd = none;
  done = done;
  requests = rest;
}

abbrev pub accept_reply : Option ℕ → Bytes → Accepted × List Effect → Served
accept_reply listening rest (no_client, done) = refused_reply listening rest 4294967295 done
accept_reply listening rest (wrong_client, done) = refused_reply listening rest 4294967294 done
accept_reply listening rest (client fd, done) = record {
  pasv_listen_fd = listening;
  sent = priv_sock_send_result result_ok ++ priv_sock_send_fd;
  sent_fd = some fd;
  done = closes fd ∷ done;
  requests = rest;
}

unfoldable pub cmd_process_pasv_accept : Tunables → Peer → System → Option ℕ → Bytes → Run Served
cmd_process_pasv_accept t p s listening stream =
    map_run (accept_reply listening stream) (vsf_privop_accept_pasv t p s listening)

-- The dispatch on the command read.
unfoldable pub dispatch : Tunables → Peer → System → Option ℕ → Option ℕ → ℕ × Bytes → Run Served
dispatch t p s passed listening (cmd, stream) =
    if t.bools (codes "chown_uploads") && cmd == cmd_chown
    then cmd_process_chown p s passed listening stream
    else if cmd == cmd_get_data_sock
    then cmd_process_get_data_sock t p s listening stream
    else if cmd == cmd_pasv_cleanup
    then cmd_process_pasv_cleanup listening stream
    else if cmd == cmd_pasv_active
    then cmd_process_pasv_active listening stream
    else if cmd == cmd_pasv_listen
    then cmd_process_pasv_listen t s listening stream
    else if cmd == cmd_pasv_accept
    then cmd_process_pasv_accept t p s listening stream
    else fault Fault.die

unfoldable pub process_post_login_req :
    Tunables → Peer → System → Option ℕ → Option ℕ → Bytes → Run Served
process_post_login_req t p s passed listening stream =
    priv_sock_get_cmd stream >>= dispatch t p s passed listening
