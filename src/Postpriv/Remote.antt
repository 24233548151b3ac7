-- ===== src/Postpriv/Remote.antt =====
-- twoprocess.c over postprivparent.c: a call over the channel against the operation itself.
use mathlib.Core.List.{append-nil}
use checkedc_vsftpd.Base.{
  ℕ, ◌%◌, ◌^◌, ◌<◌, ◌≡◌, refl, sym, ap, ◌∙◌, Bool, true, false, ◌&&◌, Option, none, some, List, [],
  arith, Bytes, codes,
}
use checkedc_vsftpd.Run.{Run, ok, fault, ◌>>=◌, map_run}
use checkedc_vsftpd.Parseconf.{Tunables}
use checkedc_vsftpd.Privsock.{
  priv_sock_send_cmd, priv_sock_send_result, priv_sock_send_int, priv_sock_send_fd,
  priv_sock_get_cmd, priv_sock_get_result, priv_sock_get_int, priv_sock_recv_fd,
}
use checkedc_vsftpd.Privsock.Messages.{get_int-send_int}
use checkedc_vsftpd.Privops.{
  Effect, Peer, System, Accepted, no_client, wrong_client, client, vsf_privop_get_ftp_port_sock,
  vsf_privop_pasv_active, vsf_privop_pasv_listen, vsf_privop_accept_pasv, vsf_privop_do_file_chown,
}
use checkedc_vsftpd.Privops.Ports.{pasv_listen-Between}
use checkedc_vsftpd.Postpriv.{
  Served, dispatch, process_post_login_req, cmd_process_chown, cmd_process_get_data_sock,
  cmd_process_pasv_cleanup, cmd_process_pasv_active, cmd_process_pasv_listen,
  cmd_process_pasv_accept, data_sock_reply, listen_reply, accept_reply, chown_reply,
}
use checkedc_vsftpd.Twoprocess.{
  data_sock_result, done_result, pasv_fd_result, vsf_two_process_get_priv_data_sock,
  vsf_two_process_pasv_cleanup, vsf_two_process_pasv_active, vsf_two_process_listen,
  vsf_two_process_get_pasv_fd, vsf_two_process_chown_upload,
}

-- What is read of a reply made of the value of `r` is a function of that value.
reply_map {ℓ κ μ} :
    {A : Type ℓ} {B : Type κ} {C : Type μ} (r : Run A) (f : A → B) (g : B → Run C) (h : A → C)
    → ((a : A) → r ≡ ok a → g (f a) ≡ ok (h a))
    → (map_run f r >>= g) ≡ map_run h r
reply_map (ok a) f g h k = k a refl
reply_map (fault e) f g h k = refl

-- The return value of vsf_privop_accept_pasv, as an int of 32 bits.
abbrev pub accept_value : Accepted × List Effect → ℕ
accept_value (no_client, done) = 4294967295
accept_value (wrong_client, done) = 4294967294
accept_value (client fd, done) = fd

and_false : (b : Bool) → (b && false) ≡ false
and_false true = refl
and_false false = refl

get_int-sent : (n : ℕ) → n < 2 ^ 32 → priv_sock_get_int (priv_sock_send_int n) ≡ ok (n, [])
get_int-sent n h =
    ap priv_sock_get_int (sym (append-nil (priv_sock_send_int n))) ∙ get_int-send_int n [] h

port_low :
    (t : Tunables) (s : System) (l : Option ℕ) (a : ℕ × ℕ × List Effect)
    → vsf_privop_pasv_listen t s l ≡ ok a
    → a.1 < 65536
unfolding vsf_privop_pasv_listen
port_low t s none (fd, port, done) e =
    let (_, _, below, top, _) =
      pasv_listen-Between t s fd port done (unfold vsf_privop_pasv_listen in e) in
    omega arith
port_low t s (some l) a e = cc

flag : (l : Option ℕ) → vsf_privop_pasv_active l < 2 ^ 32
unfolding vsf_privop_pasv_active
flag none = omega arith
flag (some fd) = omega arith

module _ (t : Tunables) (p : Peer) (s : System) (passed listening : Option ℕ) where
  abbrev serve : Bytes → Run Served
  serve = process_post_login_req t p s passed listening

  no_chown : (t.bools (codes "chown_uploads") && false) ≡ false
  no_chown = and_false (t.bools (codes "chown_uploads"))

  get_priv_data_sock-remote :
      (port : ℕ)
      → port < 65536
      → vsf_two_process_get_priv_data_sock serve port
        ≡ map_run (λ r. r.0) (vsf_privop_get_ftp_port_sock t p s listening port false)
  unfolding vsf_two_process_get_priv_data_sock process_post_login_req priv_sock_get_cmd dispatch
      cmd_process_get_data_sock priv_sock_send_cmd priv_sock_send_result priv_sock_get_result
      priv_sock_send_fd priv_sock_recv_fd
  get_priv_data_sock-remote port h =
      rw (no_chown, get_int-sent port (omega arith), let e : port % 65536 ≡ port = omega arith in e)
        (reply_map (vsf_privop_get_ftp_port_sock t p s listening port false)
          (data_sock_reply listening [])
          (λ sv. priv_sock_get_result sv.sent >>= data_sock_result sv.sent_fd) (λ r. r.0) read)
    where
      read :
          (a : Option ℕ × List Effect)
          → vsf_privop_get_ftp_port_sock t p s listening port false ≡ ok a
          → (priv_sock_get_result (data_sock_reply listening [] a).sent
              >>= data_sock_result (data_sock_reply listening [] a).sent_fd)
            ≡ ok a.0
      read (none, done) e = refl
      read (some fd, done) e = refl

  pasv_cleanup-remote : vsf_two_process_pasv_cleanup serve ≡ ok tt
  unfolding vsf_two_process_pasv_cleanup process_post_login_req priv_sock_get_cmd dispatch
      cmd_process_pasv_cleanup priv_sock_send_cmd priv_sock_send_result priv_sock_get_result
  pasv_cleanup-remote = rw no_chown refl

  pasv_active-remote : vsf_two_process_pasv_active serve ≡ ok (vsf_privop_pasv_active listening)
  unfolding vsf_two_process_pasv_active process_post_login_req priv_sock_get_cmd dispatch
      cmd_process_pasv_active priv_sock_send_cmd
  pasv_active-remote =
      rw (no_chown, get_int-sent (vsf_privop_pasv_active listening) (flag listening)) refl

  listen-remote :
      vsf_two_process_listen serve ≡ map_run (λ r. r.1) (vsf_privop_pasv_listen t s listening)
  unfolding vsf_two_process_listen process_post_login_req priv_sock_get_cmd dispatch
      cmd_process_pasv_listen priv_sock_send_cmd
  listen-remote = rw no_chown (
      reply_map (vsf_privop_pasv_listen t s listening) (listen_reply [])
        (λ sv. map_run (λ r. r.0 % 65536) (priv_sock_get_int sv.sent)) (λ r. r.1) read)
    where
      read :
          (a : ℕ × ℕ × List Effect)
          → vsf_privop_pasv_listen t s listening ≡ ok a
          → map_run (λ r. r.0 % 65536) (priv_sock_get_int (listen_reply [] a).sent) ≡ ok a.1
      read a e =
          rw
            (
              get_int-sent a.1 (omega (arith, port_low t s listening a e)),
              let e' : a.1 % 65536 ≡ a.1 = omega (arith, port_low t s listening a e) in e',
            )
            refl

  get_pasv_fd-remote :
      vsf_two_process_get_pasv_fd serve
      ≡ map_run accept_value (vsf_privop_accept_pasv t p s listening)
  unfolding vsf_two_process_get_pasv_fd process_post_login_req priv_sock_get_cmd dispatch
      cmd_process_pasv_accept priv_sock_send_cmd priv_sock_send_result priv_sock_get_result
      priv_sock_send_fd priv_sock_recv_fd
  get_pasv_fd-remote = rw no_chown (
      reply_map (vsf_privop_accept_pasv t p s listening) (accept_reply listening [])
        (λ sv. priv_sock_get_result sv.sent >>= pasv_fd_result sv.sent_fd) accept_value read)
    where
      read :
          (a : Accepted × List Effect)
          → vsf_privop_accept_pasv t p s listening ≡ ok a
          → (priv_sock_get_result (accept_reply listening [] a).sent
              >>= pasv_fd_result (accept_reply listening [] a).sent_fd)
            ≡ ok (accept_value a)
      read (no_client, done) e = rw (get_int-sent 4294967295 (omega arith)) refl
      read (wrong_client, done) e = rw (get_int-sent 4294967294 (omega arith)) refl
      read (client fd, done) e = refl

chown_upload-remote :
    (t : Tunables) (p : Peer) (s : System) (listening : Option ℕ) (fd : ℕ)
    → t.bools (codes "chown_uploads") ≡ true
    → vsf_two_process_chown_upload (λ passed. process_post_login_req t p s passed listening) fd
      ≡ map_run (λ _. tt) (vsf_privop_do_file_chown p s fd)
unfolding vsf_two_process_chown_upload process_post_login_req priv_sock_get_cmd dispatch
    cmd_process_chown priv_sock_send_cmd priv_sock_send_result priv_sock_get_result
    priv_sock_send_fd priv_sock_recv_fd
chown_upload-remote t p s listening fd on = rw on (
    reply_map (vsf_privop_do_file_chown p s fd) (chown_reply listening fd [])
      (λ sv. priv_sock_get_result sv.sent >>= done_result) (λ _. tt) (λ done e. refl))

-- A call of the session's process over the channel gives what the operation of the privileged
-- process gives, and dies when that does: the socket of a data connection to a 16-bit port, the
-- state and the port of the passive listener, the client that it accepts, and the change of
-- owner, when the configuration has it.
pub calls-remote :
    (t : Tunables) (p : Peer) (s : System) (listening : Option ℕ) (port fd : ℕ)
    → port < 65536
    → t.bools (codes "chown_uploads") ≡ true
    → let serve = process_post_login_req t p s none listening in
      (vsf_two_process_get_priv_data_sock serve port
        ≡ map_run (λ r. r.0) (vsf_privop_get_ftp_port_sock t p s listening port false))
      × (vsf_two_process_pasv_cleanup serve ≡ ok tt)
      × (vsf_two_process_pasv_active serve ≡ ok (vsf_privop_pasv_active listening))
      × (vsf_two_process_listen serve ≡ map_run (λ r. r.1) (vsf_privop_pasv_listen t s listening))
      × (vsf_two_process_get_pasv_fd serve
          ≡ map_run accept_value (vsf_privop_accept_pasv t p s listening))
      × (vsf_two_process_chown_upload (λ passed. process_post_login_req t p s passed listening) fd
          ≡ map_run (λ _. tt) (vsf_privop_do_file_chown p s fd))
calls-remote t p s listening port fd h on = (
  get_priv_data_sock-remote t p s none listening port h,
  pasv_cleanup-remote t p s none listening,
  pasv_active-remote t p s none listening,
  listen-remote t p s none listening,
  get_pasv_fd-remote t p s none listening,
  chown_upload-remote t p s listening fd on,
)
