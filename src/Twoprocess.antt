-- ===== src/Twoprocess.antt =====
-- twoprocess.c, the calls that the process of a session makes to the privileged process, which is
-- given as the function from the bytes of a request to what is left of serving it.
use checkedc_vsftpd.Base.{ℕ, ◌%◌, Option, none, some, ◌++◌, ◌==◌, if◌then◌else◌, Bytes}
use checkedc_vsftpd.Run.{Run, Fault, ok, fault, ◌>>=◌, map_run}
use checkedc_vsftpd.Privsock.{
  priv_sock_send_cmd, priv_sock_send_int, priv_sock_send_fd, priv_sock_get_result,
  priv_sock_get_int, priv_sock_recv_fd,
}
use checkedc_vsftpd.Postpriv.{
  Served, cmd_chown, cmd_get_data_sock, cmd_pasv_cleanup, cmd_pasv_active, cmd_pasv_listen,
  cmd_pasv_accept, result_ok, result_bad,
}

-- An int of 32 bits, or a descriptor that was received.
abbrev pub received : Option ℕ → Bytes → Run ℕ
received sent_fd rest = map_run (λ r. r.0) (priv_sock_recv_fd sent_fd rest)

abbrev pub data_sock_result : Option ℕ → ℕ × Bytes → Run (Option ℕ)
data_sock_result sent_fd (res, rest) =
    if res == result_bad
    then ok none
    else if res == result_ok
    then map_run some (received sent_fd rest)
    else fault Fault.die

-- `none` is -1.
unfoldable pub vsf_two_process_get_priv_data_sock : (Bytes → Run Served) → ℕ → Run (Option ℕ)
vsf_two_process_get_priv_data_sock serve port =
    serve (priv_sock_send_cmd cmd_get_data_sock ++ priv_sock_send_int port) >>= λ sv.
    priv_sock_get_result sv.sent >>= data_sock_result sv.sent_fd

-- A call whose only answer is that it was done.
abbrev pub done_result : ℕ × Bytes → Run (Unit {0})
done_result (res, rest) = if res == result_ok then ok tt else fault Fault.die

unfoldable pub vsf_two_process_pasv_cleanup : (Bytes → Run Served) → Run (Unit {0})
vsf_two_process_pasv_cleanup serve = serve (priv_sock_send_cmd cmd_pasv_cleanup) >>= λ sv.
    priv_sock_get_result sv.sent >>= done_result

unfoldable pub vsf_two_process_pasv_active : (Bytes → Run Served) → Run ℕ
vsf_two_process_pasv_active serve = serve (priv_sock_send_cmd cmd_pasv_active) >>= λ sv.
    map_run (λ r. r.0) (priv_sock_get_int sv.sent)

unfoldable pub vsf_two_process_listen : (Bytes → Run Served) → Run ℕ
vsf_two_process_listen serve = serve (priv_sock_send_cmd cmd_pasv_listen) >>= λ sv.
    map_run (λ r. r.0 % 65536) (priv_sock_get_int sv.sent)

abbrev pub pasv_fd_result : Option ℕ → ℕ × Bytes → Run ℕ
pasv_fd_result sent_fd (res, rest) =
    if res == result_bad
    then map_run (λ r. r.0) (priv_sock_get_int rest)
    else if res == result_ok
    then received sent_fd rest
    else fault Fault.die

unfoldable pub vsf_two_process_get_pasv_fd : (Bytes → Run Served) → Run ℕ
vsf_two_process_get_pasv_fd serve = serve (priv_sock_send_cmd cmd_pasv_accept) >>= λ sv.
    priv_sock_get_result sv.sent >>= pasv_fd_result sv.sent_fd

-- The descriptor goes beside the byte of priv_sock_send_fd.
unfoldable pub vsf_two_process_chown_upload : (Option ℕ → Bytes → Run Served) → ℕ → Run (Unit {0})
vsf_two_process_chown_upload serve fd =
    serve (some fd) (priv_sock_send_cmd cmd_chown ++ priv_sock_send_fd) >>= λ sv.
    priv_sock_get_result sv.sent >>= done_result
