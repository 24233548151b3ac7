-- ===== src/Postlogin/Pasv.antt =====
-- postlogin.c, handle_pasv: the commands PASV and EPSV, and the replies that name the port.
use checkedc_vsftpd.Base.{
  ℕ, ◌/◌, ◌%◌, Bool, true, false, not, ◌&&◌, Option, none, some, ◌++◌, if◌then◌else◌, Bytes, codes,
}
use mathlib.Core.List.{map}
use checkedc_vsftpd.Run.{Run, Fault, ok, fault, ◌>>=◌, map_run}
use checkedc_vsftpd.Text.{c_text, str_isempty, str_equal_text, to_upper}
use checkedc_vsftpd.Number.{atoi}
use checkedc_vsftpd.Number.Print.{vsf_sysutil_ulong_to_str}
use checkedc_vsftpd.Parseconf.{Tunables}
use checkedc_vsftpd.Sockaddr.{Sockaddr, in4, in6, vsf_sysutil_sockaddr_ipv6_v4}
use checkedc_vsftpd.Cmdio.{replaced}
use checkedc_vsftpd.Prelogin.{Reply, reply}
use checkedc_vsftpd.Postlogin.Connection.{Conn, is_ipv6, bad_proto}

-- What the system answers: the text of an IPv4 address, its bytes, and the port of the listener,
-- `none` when the privileged process ends and this one with it.
pub record Net : Type 0 where
  pub inet_ntop : Bytes → Bytes
  pub inet_aton : Bytes → Option Bytes
  pub listen : Option ℕ

-- Where the client is to connect, in the reply to PASV.
abbrev pub passive_addr : Tunables → Net → Conn → Run Sockaddr
passive_addr t net c = elim (t.strs (codes "pasv_address")) [
  | none ↦ ok c.local_addr
  | some text ↦ elim (net.inet_aton text) [ none ↦ fault Fault.die | some raw ↦ ok (in4 raw) ]
]

abbrev pub raw_addr : Sockaddr → Bytes
raw_addr (in4 a) = a
raw_addr (in6 a) = a

abbrev pub v4_text : Net → Option Bytes → Bytes
v4_text net none = codes "0,0,0,0"
v4_text net (some raw) = net.inet_ntop raw

abbrev pub address_text : Net → Conn → Sockaddr → Bytes
address_text net c addr =
    if not (is_ipv6 c.local_addr)
    then net.inet_ntop (raw_addr addr)
    else v4_text net (vsf_sysutil_sockaddr_ipv6_v4 addr)

unfoldable pub passive_text : Bytes → ℕ → Bytes
passive_text address port =
    map (replaced b'.' b',') (codes "Entering Passive Mode (" ++ address)
    ++ codes ","
    ++ vsf_sysutil_ulong_to_str (port / 256)
    ++ codes ","
    ++ vsf_sysutil_ulong_to_str (port % 256)
    ++ codes ")."

abbrev pub extended_text : ℕ → Bytes
extended_text port =
    codes "Entering Extended Passive Mode (|||" ++ vsf_sysutil_ulong_to_str port ++ codes "|)"

abbrev pub listening : Conn → Conn
listening c = record c { port_sockaddr = none; pasv_listens = true }

-- Behind the check of the argument.
abbrev pub listen_port : Net → Run ℕ
listen_port net = elim net.listen [ none ↦ fault Fault.die | some port ↦ ok port ]

unfoldable pub enter_passive : Tunables → Net → Conn → Bool → Run (Conn × Reply)
enter_passive t net c true =
    map_run (λ port. (listening c, reply 229 (extended_text port))) (listen_port net)
enter_passive t net c false = listen_port net >>= λ port.
    map_run (λ addr. (listening c, reply 227 (passive_text (address_text net c addr) port)))
      (passive_addr t net c)

-- The argument of EPSV is ALL, or the number of a protocol.
unfoldable pub handle_pasv : Tunables → Net → Conn → Bool → Bytes → Run (Conn × Reply)
handle_pasv t net c is_epsv arg =
    let upper = map to_upper arg in
    if is_epsv && not (str_isempty arg)
    then (if str_equal_text upper (codes "ALL")
        then ok (record c { epsv_all = true }, reply 200 (codes "EPSV ALL ok."))
        else if bad_proto c (atoi (c_text upper))
        then ok (c, reply 522 (codes "Bad network protocol."))
        else enter_passive t net c is_epsv)
    else enter_passive t net c is_epsv
