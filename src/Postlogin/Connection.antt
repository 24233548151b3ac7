-- ===== src/Postlogin/Connection.antt =====
-- postlogin.c, the commands that say where data goes: PORT, EPRT, PASV and EPSV, with the state of
-- the data connection.
use checkedc_vsftpd.Base.{
  ℕ, zero, suc, ◌+◌, ◌*◌, Bool, true, false, not, ◌&&◌, ◌||◌, Option, none, some, ◌∷◌, ◌++◌, ltb,
  ◌==◌, if◌then◌else◌, Bytes, codes, take,
}
use checkedc_vsftpd.Run.{Run, Fault, ok, fault, ◌>>=◌, map_run}
use checkedc_vsftpd.Text.{c_text, str_isempty}
use checkedc_vsftpd.Text.Split.{str_split_char}
use checkedc_vsftpd.Number.{atoi}
use checkedc_vsftpd.Parseconf.{Tunables}
use checkedc_vsftpd.Ipaddrparse.{
  vsf_sysutil_parse_uchar_string_sep, vsf_sysutil_parse_ipv4, vsf_sysutil_parse_ipv6,
}
use checkedc_vsftpd.Sockaddr.{Sockaddr, in4, in6, mapped_pattern, vsf_sysutil_sockaddr_addr_equal}
use checkedc_vsftpd.Prelogin.{Reply, reply}
use checkedc_vsftpd.Login.UserConfig.{◌>>=?◌}

-- Of struct vsf_session: the addresses of the control connection, what PORT set up, whether the
-- privileged process listens, and what EPSV ALL left.
pub record Conn : Type 0 where
  pub local_addr : Sockaddr
  pub remote_addr : Sockaddr
  pub port_sockaddr : Option (Sockaddr × ℕ)
  pub pasv_listens : Bool
  pub epsv_all : Bool

abbrev pub is_some {ℓ} : {A : Type ℓ} → Option A → Bool
is_some none = false
is_some (some a) = true

abbrev pub unless_both : Bool → Run (Option Bool)
unless_both other = if other then fault Fault.bug else ok (some true)

-- The two functions call each other; on fuel, `ok none` when it runs out.
unfoldable mutual
  pub pasv_active : ℕ → Conn → Run (Option Bool)
  pasv_active zero c = ok none
  pasv_active (suc fuel) c =
      if c.pasv_listens then (port_active fuel c >>=? unless_both) else ok (some false)

  pub port_active : ℕ → Conn → Run (Option Bool)
  port_active zero c = ok none
  port_active (suc fuel) c =
      if is_some c.port_sockaddr then (pasv_active fuel c >>=? unless_both) else ok (some false)

abbrev pub cleaned : Conn → Conn
cleaned c = record c { port_sockaddr = none; pasv_listens = false }

abbrev pub is_ipv6 : Sockaddr → Bool
is_ipv6 (in4 a) = false
is_ipv6 (in6 a) = true

-- On a copy of the local address; an IPv4 address in an IPv6 one is mapped.
unfoldable pub set_ipv4addr : Sockaddr → Bytes → Sockaddr
set_ipv4addr (in4 a) raw = in4 raw
set_ipv4addr (in6 a) raw = in6 (mapped_pattern ++ raw)

unfoldable pub set_ipv6addr : Sockaddr → Bytes → Run Sockaddr
set_ipv6addr (in4 a) raw = fault Fault.bug
set_ipv6addr (in6 a) raw = ok (in6 raw)

abbrev pub is_port_reserved : ℕ → Bool
is_port_reserved port = ltb port 1024

-- The security checks that end PORT and EPRT.
unfoldable pub point_at : Tunables → Conn → Sockaddr → ℕ → Bytes → Bytes → Conn × Reply
point_at t c addr port bad good =
    if not (t.bools (codes "port_promiscuous"))
      && (not (vsf_sysutil_sockaddr_addr_equal c.remote_addr addr) || is_port_reserved port)
    then (record c { port_sockaddr = none }, reply 500 bad)
    else (record c { port_sockaddr = some (addr, port) }, reply 200 good)

-- The last two of the six numbers.
abbrev pub port_of : Bytes → ℕ
port_of (_ ∷ _ ∷ _ ∷ _ ∷ high ∷ low ∷ _) = high * 256 + low
port_of _ = 0

unfoldable pub handle_port : Tunables → Conn → Bytes → Conn × Reply
handle_port t c arg = elim (vsf_sysutil_parse_uchar_string_sep arg b',' 6) [
  | none ↦ (cleaned c, reply 500 (codes "Illegal PORT command."))
  | some vals ↦
      point_at t (cleaned c) (set_ipv4addr c.local_addr (take 4 vals)) (port_of vals)
        (codes "Illegal PORT command.") (codes "PORT command successful. Consider using PASV.")
]

abbrev pub bad_eprt : Conn → Conn × Reply
bad_eprt c = (cleaned c, reply 500 (codes "Bad EPRT command."))

-- The port, behind the address; an `int` that is no port is out of range as its 32 bits are.
unfoldable pub eprt_port : Tunables → Conn → Sockaddr → Bytes → Conn × Reply
eprt_port t c addr rest =
    let (text, more) = str_split_char rest b'|' in
    let port = atoi (c_text text) in
    if not (str_isempty more) || str_isempty text
    then bad_eprt c
    else if ltb 65535 port
    then bad_eprt c
    else point_at t (cleaned c) addr port (codes "Illegal EPRT command.")
        (codes "EPRT command successful. Consider using EPSV.")

abbrev pub eprt_ipv6 : Tunables → Conn → Bytes → Option Bytes → Run (Conn × Reply)
eprt_ipv6 t c rest none = ok (bad_eprt c)
eprt_ipv6 t c rest (some raw) =
    map_run (λ addr. eprt_port t c addr rest) (set_ipv6addr c.local_addr raw)

abbrev pub eprt_ipv4 : Tunables → Conn → Bytes → Option Bytes → Conn × Reply
eprt_ipv4 t c rest none = bad_eprt c
eprt_ipv4 t c rest (some raw) = eprt_port t c (set_ipv4addr c.local_addr raw) rest

-- `none` is fuel that ran out in the address.
abbrev pub eprt_parsed :
    Tunables → Conn → Bytes → Option (Run (Option Bytes)) → Run (Option (Conn × Reply))
eprt_parsed t c rest none = ok none
eprt_parsed t c rest (some parsed) = map_run some (parsed >>= eprt_ipv6 t c rest)

-- The protocol is 1 or 2, the latter on an IPv6 connection.
abbrev pub bad_proto : Conn → ℕ → Bool
bad_proto c proto = ltb proto 1 || ltb 2 proto || (not (is_ipv6 c.local_addr) && proto == 2)

unfoldable pub eprt_addr : Tunables → Conn → ℕ → Bytes → Run (Option (Conn × Reply))
eprt_addr t c proto text =
    let (address, rest) = str_split_char text b'|' in
    if proto == 2
    then (let (plain, scope) = str_split_char address b'%' in
        eprt_parsed t c rest (vsf_sysutil_parse_ipv6 plain))
    else ok (some (eprt_ipv4 t c rest (vsf_sysutil_parse_ipv4 address)))

unfoldable pub handle_eprt : Tunables → Conn → Bytes → Run (Option (Conn × Reply))
handle_eprt t c arg =
    let (front, behind) = str_split_char arg b'|' in
    let (number, text) = str_split_char behind b'|' in
    let proto = atoi (c_text number) in
    if not (str_isempty front)
    then ok (some (bad_eprt c))
    else if bad_proto c proto
    then ok (some (cleaned c, reply 500 (codes "Bad EPRT protocol.")))
    else eprt_addr t c proto text
