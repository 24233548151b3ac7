-- ===== src/Privops.antt =====
-- privops.c, the operations that the privileged process does for a session: data connections and
-- changes of owner. A uid is an int as 32 bits, so -1 is 2 ^ 32 - 1. What the system answers to
-- the calls of one operation is an argument.
pub mod Ports
use checkedc_vsftpd.Base.{
  ℕ, zero, suc, ◌+◌, ◌-◌, ◌*◌, ◌/◌, ◌%◌, ◌≡◌, Bool, true, false, not, ◌&&◌, ◌||◌, Option, none,
  some, List, [], ◌∷◌, ltb, leb, ◌==◌, if◌then◌else◌, Bytes, codes,
}
use checkedc_vsftpd.Run.{Run, Fault, ok, fault, ◌>>=◌, map_run}
use checkedc_vsftpd.Parseconf.{Tunables}
use checkedc_vsftpd.Sockaddr.{Sockaddr, vsf_sysutil_sockaddr_addr_equal}

-- What an operation does to the outside.
pub data Effect : Type 0 where
  closes : ℕ → Effect
  binds : ℕ → Effect
  connects : Sockaddr → ℕ → Effect
  chowns : ℕ → ℕ → Effect

-- Of struct vsf_session, what these operations read; no operation changes it.
pub record Peer : Type 0 where
  pub remote_addr : Sockaddr
  pub port_sockaddr : Sockaddr
  pub port_sockaddr_port : ℕ
  pub anon_ftp_uid : ℕ
  pub guest_user_uid : ℕ
  pub anon_upload_chown_uid : ℕ

abbrev pub minus_one : ℕ
minus_one = 4294967295

-- How a bind, or a bind and listen, ends.
pub data Bind : Type 0 where
  bound addrinuse acces failed : Bind

-- One round of the loop in vsf_privop_pasv_listen: two random bytes, the socket and the bind.
pub record Round : Type 0 where
  pub high : ℕ
  pub low : ℕ
  pub sock : ℕ
  pub outcome : Bind

-- What the system answers.
pub record System : Type 0 where
  pub file_uid : ℕ
  pub is_regfile : Bool
  pub new_sock : ℕ
  pub first_bind : Bind
  pub second_bind : Bind
  pub is_connected : Bool
  pub rounds : ℕ → Round
  pub accepted : Option (ℕ × Sockaddr)

-- The loop of two rounds around bind.
unfoldable pub bind_twice : Bind → Bind → Run Bool
bind_twice Bind.bound second = ok true
bind_twice Bind.addrinuse Bind.bound = ok true
bind_twice Bind.addrinuse _ = fault Fault.die
bind_twice _ second = fault Fault.die

abbrev pub bound_port : Tunables → ℕ
bound_port t =
    if t.bools (codes "connect_from_port_20") then t.uints (codes "ftp_data_port") % 65536 else 0

-- The socket that is connected, if it is, with what was done.
abbrev pub connect_sock : System → List Effect → Option ℕ × List Effect
connect_sock s done =
    if s.is_connected then (some s.new_sock, done) else (none, closes s.new_sock ∷ done)

unfoldable pub vsf_privop_get_ftp_port_sock :
    Tunables → Peer → System → Option ℕ → ℕ → Bool → Run (Option ℕ × List Effect)
unfolding bind_twice
vsf_privop_get_ftp_port_sock t p s (some listening) remote_port use_port_sockaddr = fault Fault.die
vsf_privop_get_ftp_port_sock t p s none remote_port use_port_sockaddr =
    let connect_to : Effect =
      if use_port_sockaddr
      then connects p.port_sockaddr p.port_sockaddr_port
      else connects p.remote_addr remote_port in
    let bound : Run Bool = bind_twice s.first_bind s.second_bind in
    if ltb remote_port 1024
    then fault Fault.die
    else map_run (λ _. connect_sock s (binds (bound_port t) ∷ connect_to ∷ [])) bound

-- pasv_listen_fd, with what was done.
unfoldable pub vsf_privop_pasv_cleanup : Option ℕ → Option ℕ × List Effect
vsf_privop_pasv_cleanup none = (none, [])
vsf_privop_pasv_cleanup (some fd) = (none, closes fd ∷ [])

unfoldable pub vsf_privop_pasv_active : Option ℕ → ℕ
vsf_privop_pasv_active (some fd) = 1
vsf_privop_pasv_active none = 0

-- The bounds of the passive ports.
unfoldable pub min_port : Tunables → ℕ
min_port t =
    let low = t.uints (codes "pasv_min_port") in if ltb 1024 low && leb low 65535 then low else 1024

unfoldable pub max_port : Tunables → ℕ
unfolding min_port
max_port t =
    let high = t.uints (codes "pasv_max_port") in
    if leb (min_port t) high && ltb high 65535 then high else 65535

-- The port of a round. The products of `scaled_port` have at most 33 bits, which a double holds
-- exactly, so the conversion back is a division.
unfoldable pub scaled_port : Tunables → Round → ℕ
unfolding min_port max_port
scaled_port t r =
    let the_port = r.high % 256 * 256 + r.low % 256 in
    min_port t + the_port * (max_port t - min_port t + 1) / 65536

-- What a round does: it ends the loop, lets it go on with `rest`, or dies.
abbrev pub round_ends {ℓ} : {T : Type ℓ} → Bind → Run T → Run T → Run T
round_ends Bind.bound chosen rest = chosen
round_ends Bind.addrinuse chosen rest = rest
round_ends Bind.acces chosen rest = rest
round_ends Bind.failed chosen rest = fault Fault.die

-- The loop, for the rounds that `--bind_retries` allows: the listening socket, the port and what
-- was done.
unfoldable pub listen_loop : Tunables → (ℕ → Round) → ℕ → List Effect → Run (ℕ × ℕ × List Effect)
listen_loop t rounds zero done = fault Fault.die
listen_loop t rounds (suc n) done =
    let r : Round = rounds n in
    let rest : Run (ℕ × ℕ × List Effect) = listen_loop t rounds n (closes r.sock ∷ done) in
    round_ends r.outcome (ok (r.sock, scaled_port t r, binds (scaled_port t r) ∷ done)) rest

-- `bind_retries` is 10 before the first test, which leaves nine rounds.
unfoldable pub vsf_privop_pasv_listen : Tunables → System → Option ℕ → Run (ℕ × ℕ × List Effect)
vsf_privop_pasv_listen t s (some listening) = fault Fault.die
vsf_privop_pasv_listen t s none = listen_loop t s.rounds 9 []

-- The return values -1, -2 and a descriptor.
pub data Accepted : Type 0 where
  no_client wrong_client : Accepted
  client : ℕ → Accepted

abbrev pub admit : Tunables → Peer → Option (ℕ × Sockaddr) → Accepted × List Effect
admit t p none = (no_client, [])
admit t p (some (remote_fd, addr)) =
    if not (t.bools (codes "pasv_promiscuous"))
      && not (vsf_sysutil_sockaddr_addr_equal p.remote_addr addr)
    then (wrong_client, closes remote_fd ∷ [])
    else (client remote_fd, [])

unfoldable pub vsf_privop_accept_pasv :
    Tunables → Peer → System → Option ℕ → Run (Accepted × List Effect)
vsf_privop_accept_pasv t p s none = fault Fault.die
vsf_privop_accept_pasv t p s (some listening) = ok (admit t p s.accepted)

unfoldable pub vsf_privop_do_file_chown : Peer → System → ℕ → Run (List Effect)
vsf_privop_do_file_chown p s fd =
    if s.file_uid == p.anon_upload_chown_uid
    then ok []
    else if p.anon_upload_chown_uid == minus_one
        || (not s.is_regfile
            || not (s.file_uid == p.anon_ftp_uid) && not (s.file_uid == p.guest_user_uid))
    then fault Fault.die
    else ok (chowns fd p.anon_upload_chown_uid ∷ [])
