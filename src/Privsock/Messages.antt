-- ===== src/Privsock/Messages.antt =====
-- privsock.c: what is read of a message that was sent.
use mathlib.Core.List.{append_assoc}
use checkedc_vsftpd.Base.{
  ℕ, ◌%◌, ◌^◌, ◌<◌, ◌≡◌, refl, ap, inl, inr, Bool-cases, false, ◌++◌, arith, ltb, if◌then◌else◌,
  le→leb, Bytes, length, length-append, take-append_all, drop-append_all,
}
use checkedc_vsftpd.Str.{int_max}
use checkedc_vsftpd.Run.{◌>>=◌, Run, Fault, ok, fault}
use checkedc_vsftpd.Privsock.{
  vsftp_privsock_maxstr, priv_sock_send_int, priv_sock_send_str, priv_sock_send_buf, read_exactly,
  priv_sock_get_int, priv_sock_get_str, priv_sock_recv_buf,
}

pub get_int-send_int :
    (n : ℕ) (rest : Bytes)
    → n < 2 ^ 32
    → priv_sock_get_int (priv_sock_send_int n ++ rest) ≡ ok (n, rest)
unfolding priv_sock_get_int priv_sock_send_int
get_int-send_int n rest h = ap (λ m. ok (m, rest)) (omega arith)

read_exactly-append :
    (s rest : Bytes)
    → ltb int_max (length s) ≡ false
    → read_exactly (length s) (s ++ rest) ≡ ok (s, rest)
unfolding read_exactly
read_exactly-append s rest small =
    rw
      (
        small,
        le→leb (length s) (length (s ++ rest)) (omega (arith, length-append s rest)),
        take-append_all s rest,
        drop-append_all s rest,
      )
      refl

-- A string of at most 131072 bytes comes through the channel as it is, and a longer one, below 2
-- ^ 32, stops a process. A buffer below 2 ^ 32 bytes comes through as it is when it fits the
-- receiver's and is no longer than INT_MAX, stops the sender when it is longer than INT_MAX, and
-- else stops the receiver as a bug.
pub get_str-send_str :
    (s rest : Bytes) (room : ℕ)
    → length s < 2 ^ 32
    → (priv_sock_get_str (priv_sock_send_str s ++ rest)
        ≡ (if ltb vsftp_privsock_maxstr (length s) then fault Fault.die else ok (s, rest)))
      × ((priv_sock_send_buf s >>= λ sent. priv_sock_recv_buf room (sent ++ rest)) ≡ (
          if ltb int_max (length s)
          then fault Fault.die
          else if ltb room (length s)
          then fault Fault.bug
          else ok (s, rest)))
unfolding priv_sock_get_str priv_sock_send_str priv_sock_recv_buf priv_sock_send_buf
get_str-send_str s rest room h =
    let same : length s % 2 ^ 32 ≡ length s = omega arith in
    let got = get_int-send_int (length s) (s ++ rest) h in
    (
      rw (same, append_assoc (priv_sock_send_int (length s)) s rest, got)
          (pick vsftp_privsock_maxstr (fault Fault.die) _ _
            λ fits. read_exactly-append s rest (below fits)),
      elim (Bool-cases (ltb int_max (length s))) [
        | inl e ↦ rw e refl
        | inr e ↦
            rw
              (
                e,
                same,
                append_assoc (priv_sock_send_int (length s)) s rest,
                got,
                read_exactly-append s rest e,
              )
              refl
      ],
    )
  where
    below : ltb vsftp_privsock_maxstr (length s) ≡ false → ltb int_max (length s) ≡ false
    below h = ground arith

    pick :
        (room : ℕ) (stop x y : Run (Bytes × Bytes))
        → (ltb room (length s) ≡ false → x ≡ y)
        → (if ltb room (length s) then stop else x) ≡ (if ltb room (length s) then stop else y)
    pick room stop x y h = elim (Bool-cases (ltb room (length s))) [
      | inl e ↦ rw e refl
      | inr e ↦ rw e (h e)
    ]
