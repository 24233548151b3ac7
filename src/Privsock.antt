-- ===== src/Privsock.antt =====
-- privsock.c: the messages between the privileged process and its child, over a byte stream.
-- A char is its unsigned value and an int its 32 bits as an unsigned number, in little-endian
-- order. A read that gets less than it asks for stops the process, so a reader takes the bytes
-- that are still to come and gives back what it leaves.
pub mod Messages
use checkedc_vsftpd.Base.{
  ℕ, zero, suc, ◌+◌, ◌*◌, ◌/◌, ◌%◌, ◌^◌, ◌≡◌, Bool, true, false, Option, none, some, [], ◌∷◌, ◌++◌,
  ltb, leb, if◌then◌else◌, Bytes, length, take, drop,
}
use checkedc_vsftpd.Str.{int_max}
use checkedc_vsftpd.Run.{Run, Fault, ok, fault, ◌>>=◌}

abbrev pub vsftp_privsock_maxstr : ℕ
vsftp_privsock_maxstr = 131072

-- The file descriptors of the two ends, -1 as none.
pub record Ends : Type 0 where
  pub parent_fd : Option ℕ
  pub child_fd : Option ℕ

-- The two sockets of a pair are what the system answers.
unfoldable pub priv_sock_init : Ends → ℕ → ℕ → Run Ends
priv_sock_init e socket_one socket_two = elim e.parent_fd [
  | some fd ↦ fault Fault.bug
  | none ↦ elim e.child_fd [
    | some fd ↦ fault Fault.bug
    | none ↦ ok (record { parent_fd = some socket_one; child_fd = some socket_two })
  ]
]

unfoldable pub priv_sock_close : Ends → Ends
priv_sock_close e = record { parent_fd = none; child_fd = none }

unfoldable pub priv_sock_set_parent_context : Ends → Run Ends
priv_sock_set_parent_context e = elim e.child_fd [
  | none ↦ fault Fault.bug
  | some fd ↦ ok (record e { child_fd = none })
]

unfoldable pub priv_sock_set_child_context : Ends → Run Ends
priv_sock_set_child_context e = elim e.parent_fd [
  | none ↦ fault Fault.bug
  | some fd ↦ ok (record e { parent_fd = none })
]

unfoldable pub priv_sock_send_cmd : ℕ → Bytes
priv_sock_send_cmd cmd = cmd ∷ []

unfoldable pub priv_sock_send_result : ℕ → Bytes
priv_sock_send_result res = res ∷ []

unfoldable pub priv_sock_send_int : ℕ → Bytes
priv_sock_send_int n = n % 256 ∷ n / 256 % 256 ∷ n / 65536 % 256 ∷ n / 16777216 % 256 ∷ []

-- A sender of more than INT_MAX bytes dies behind the length, at which the reader dies.
unfoldable pub priv_sock_send_str : Bytes → Bytes
priv_sock_send_str str = priv_sock_send_int (length str % 2 ^ 32) ++ str

-- vsf_sysutil_write_loop dies for more than INT_MAX bytes.
unfoldable pub priv_sock_send_buf : Bytes → Run Bytes
priv_sock_send_buf buf =
    if ltb int_max (length buf)
    then fault Fault.die
    else ok (priv_sock_send_int (length buf % 2 ^ 32) ++ buf)

-- The byte that carries a file descriptor.
unfoldable pub priv_sock_send_fd : Bytes
priv_sock_send_fd = 0 ∷ []

-- A read of `n` bytes that dies when it gets less, or is asked for more than INT_MAX as in
-- vsf_sysutil_read_loop.
unfoldable pub read_exactly : ℕ → Bytes → Run (Bytes × Bytes)
read_exactly n stream =
    if ltb int_max n
    then fault Fault.die
    else if leb n (length stream)
    then ok (take n stream, drop n stream)
    else fault Fault.die

unfoldable pub priv_sock_get_cmd : Bytes → Run (ℕ × Bytes)
priv_sock_get_cmd [] = fault Fault.die
priv_sock_get_cmd (c ∷ stream) = ok (c, stream)

unfoldable pub priv_sock_get_result : Bytes → Run (ℕ × Bytes)
priv_sock_get_result [] = fault Fault.die
priv_sock_get_result (c ∷ stream) = ok (c, stream)

unfoldable pub priv_sock_get_int : Bytes → Run (ℕ × Bytes)
priv_sock_get_int (a ∷ b ∷ c ∷ d ∷ stream) = ok (a + b * 256 + c * 65536 + d * 16777216, stream)
priv_sock_get_int _ = fault Fault.die

abbrev pub str_of : ℕ × Bytes → Run (Bytes × Bytes)
str_of (len, stream) =
    if ltb vsftp_privsock_maxstr len then fault Fault.die else read_exactly len stream

unfoldable pub priv_sock_get_str : Bytes → Run (Bytes × Bytes)
priv_sock_get_str stream = priv_sock_get_int stream >>= str_of

abbrev pub buf_of : ℕ → ℕ × Bytes → Run (Bytes × Bytes)
buf_of len (recv_len, stream) =
    if ltb len recv_len then fault Fault.bug else read_exactly recv_len stream

-- A buffer of `len` bytes, filled from its start.
unfoldable pub priv_sock_recv_buf : ℕ → Bytes → Run (Bytes × Bytes)
priv_sock_recv_buf len stream = priv_sock_get_int stream >>= buf_of len

-- The descriptor comes beside the byte; `none` is a byte that brings none.
unfoldable pub priv_sock_recv_fd : Option ℕ → Bytes → Run (ℕ × Bytes)
priv_sock_recv_fd passed [] = fault Fault.die
priv_sock_recv_fd none (c ∷ stream) = fault Fault.die
priv_sock_recv_fd (some fd) (c ∷ stream) = ok (fd, stream)
