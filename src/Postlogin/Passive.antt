-- ===== src/Postlogin/Passive.antt =====
-- postlogin.c, handle_pasv: what a client reads from the reply to PASV.
use mathlib.Core.List.{map, map-append, append_assoc}
use checkedc_vsftpd.Base.{
  ℕ, suc, ◌+◌, ◌/◌, ◌%◌, ◌≤◌, ◌<◌, ◌≡◌, refl, sym, ap, ◌∙◌, subst, inl, inr, true, false, none,
  some, List, [], ◌∷◌, ◌++◌, arith, ltb, Bool-cases, Bytes, codes, take, ltb→lt, lt→ltb, le→ltb,
}
use checkedc_vsftpd.Run.{ok, ◌>>=◌, map_run}
use checkedc_vsftpd.Number.Print.{print_digits, vsf_sysutil_ulong_to_str}
use checkedc_vsftpd.Parseconf.{Tunables}
use checkedc_vsftpd.Ipaddrparse.{vsf_sysutil_parse_uchar_string_sep}
use checkedc_vsftpd.Ipaddrparse.Separated.{print_byte, join, all_bytes, parse_uchar_string_sep-join}
use checkedc_vsftpd.Sockaddr.{in4}
use checkedc_vsftpd.Cmdio.{replaced}
use checkedc_vsftpd.Prelogin.{reply}
use checkedc_vsftpd.Postlogin.Connection.{Conn, set_ipv4addr, port_of}
use checkedc_vsftpd.Postlogin.Pasv.{
  Net, listening, listen_port, passive_addr, address_text, passive_text, enter_passive, handle_pasv,
}

print_last : (fuel n : ℕ) (out : Bytes) → n < 10 → print_digits (suc fuel) n out ≡ (b'0' + n) ∷ out
unfolding print_digits
print_last fuel n out h = rw (lt→ltb n 10 h) refl

print_more :
    (fuel n : ℕ) (out : Bytes)
    → 10 ≤ n
    → print_digits (suc fuel) n out ≡ print_digits fuel (n / 10) ((b'0' + n % 10) ∷ out)
unfolding print_digits
print_more fuel n out h = rw (le→ltb n 10 h) refl

-- A byte is printed alike by both printers.
ulong_to_str-print_byte : (n : ℕ) → n < 256 → vsf_sysutil_ulong_to_str n ≡ print_byte n
unfolding vsf_sysutil_ulong_to_str
ulong_to_str-print_byte n h = elim (Bool-cases (ltb n 10)) [
  | inl one ↦ rw one (print_last 19 n [] (ltb→lt n 10 one))
  | inr more ↦ rw more (
      print_more 19 n [] (not_less n 10 more) ∙ elim (Bool-cases (ltb n 100)) [
        | inl two ↦ rw two (print_last 18 (n / 10) _ (let small = ltb→lt n 100 two in omega arith))
        | inr three ↦
            let big = not_less n 100 three in
            let hundreds : n / 10 / 10 ≡ n / 100 = omega arith in
            rw three (
              print_more 18 (n / 10) _ (omega arith)
              ∙ print_last 17 (n / 10 / 10) _ (omega arith)
              ∙ rw hundreds refl)
      ])
]
  where
    not_less : (a b : ℕ) → ltb a b ≡ false → b ≤ a
    not_less a b h = ground arith

map-print_byte : (n : ℕ) → map (replaced b'.' b',') (print_byte n) ≡ print_byte n
map-print_byte n = ground arith

map-join :
    (n : ℕ) (ns : List ℕ) → map (replaced b'.' b',') (join b'.' (n ∷ ns)) ≡ join b',' (n ∷ ns)
map-join n [] = map-print_byte n
map-join n (m ∷ ns) =
    map-append (replaced b'.' b',') (print_byte n) (b'.' ∷ join b'.' (m ∷ ns))
    ∙ rw (map-print_byte n, map-join m ns) refl

framed_text :
    (address commas high low : Bytes)
    → map (replaced b'.' b',') address ≡ commas
    → map (replaced b'.' b',') (codes "Entering Passive Mode (" ++ address)
        ++ codes ","
        ++ high
        ++ codes ","
        ++ low
        ++ codes ")."
      ≡ codes "Entering Passive Mode ("
        ++ (commas ++ codes "," ++ high ++ codes "," ++ low)
        ++ codes ")."
framed_text address commas high low h = rw (← h) refl

join-append :
    (a b c d high low : ℕ)
    → join b',' (a ∷ b ∷ c ∷ d ∷ []) ++ codes "," ++ print_byte high ++ codes "," ++ print_byte low
      ≡ join b',' (a ∷ b ∷ c ∷ d ∷ high ∷ low ∷ [])
join-append a b c d high low =
    regroup (print_byte a) (print_byte b) (print_byte c) (print_byte d) (print_byte high)
      (print_byte low)
  where
    regroup :
        (a b c d e f : Bytes)
        → (a ++ b',' ∷ (b ++ b',' ∷ (c ++ b',' ∷ d))) ++ b',' ∷ [] ++ e ++ b',' ∷ [] ++ f
          ≡ a ++ b',' ∷ (b ++ b',' ∷ (c ++ b',' ∷ (d ++ b',' ∷ (e ++ b',' ∷ f))))
    regroup a b c d e f = simp append_assoc

-- The text in the parentheses of the reply.
numbers_text :
    (a b c d port : ℕ)
    → port < 65536
    → passive_text (join b'.' (a ∷ b ∷ c ∷ d ∷ [])) port
      ≡ codes "Entering Passive Mode ("
        ++ join b',' (a ∷ b ∷ c ∷ d ∷ port / 256 ∷ port % 256 ∷ [])
        ++ codes ")."
unfolding passive_text
numbers_text a b c d port h =
    framed_text (join b'.' (a ∷ b ∷ c ∷ d ∷ [])) (join b',' (a ∷ b ∷ c ∷ d ∷ [])) _ _
      (map-join a (b ∷ c ∷ d ∷ []))
    ∙ rw
        (
          ulong_to_str-print_byte (port / 256) (omega arith),
          ulong_to_str-print_byte (port % 256) (omega arith),
        )
        (ap (λ s. codes "Entering Passive Mode (" ++ s ++ codes ").")
          (join-append a b c d (port / 256) (port % 256)))

listen_ok : (net : Net) (port : ℕ) → net.listen ≡ some port → listen_port net ≡ ok port
listen_ok net port h = rw (h, listen_port) refl

local_ok :
    (t : Tunables) (net : Net) (c : Conn)
    → t.strs (codes "pasv_address") ≡ none
    → passive_addr t net c ≡ ok c.local_addr
local_ok t net c h = rw (h, passive_addr) refl

v4_ok :
    (net : Net) (c : Conn) (raw : Bytes)
    → c.local_addr ≡ in4 raw
    → address_text net c c.local_addr ≡ net.inet_ntop raw
v4_ok net c raw h = rw (h, address_text) refl

-- On an IPv4 connection without an address of the configuration, where the system prints the
-- address in dotted decimals and listens on a 16-bit port: PASV listens, and the six numbers of
-- the reply, read as PORT reads its argument, are the address of the connection and the port of
-- the listener.
pub pasv_reply-port :
    (t : Tunables) (net : Net) (c : Conn) (arg : Bytes) (w x y z port : ℕ)
    → c.local_addr ≡ in4 (w ∷ x ∷ y ∷ z ∷ [])
    → t.strs (codes "pasv_address") ≡ none
    → net.listen ≡ some port
    → net.inet_ntop (w ∷ x ∷ y ∷ z ∷ []) ≡ join b'.' (w ∷ x ∷ y ∷ z ∷ [])
    → all_bytes (w ∷ x ∷ y ∷ z ∷ []) ≡ true
    → port < 65536
    → (numbers : Bytes) × (vals : Bytes) × (handle_pasv t net c false arg
        ≡ ok (listening c, reply 227 (codes "Entering Passive Mode (" ++ numbers ++ codes ").")))
      × (vsf_sysutil_parse_uchar_string_sep numbers b',' 6 ≡ some vals)
      × (set_ipv4addr c.local_addr (take 4 vals) ≡ c.local_addr)
      × (port_of vals ≡ port)
unfolding handle_pasv enter_passive set_ipv4addr
pasv_reply-port t net c arg w x y z port on_v4 unset listens printed bytes small =
    let all = w ∷ x ∷ y ∷ z ∷ port / 256 ∷ port % 256 ∷ [] in
    (
      join b',' all,
      all,
      entered,
      parse_uchar_string_sep-join b',' w (x ∷ y ∷ z ∷ port / 256 ∷ port % 256 ∷ []) (λ e. cc)
          (omega arith) (ground arith),
      subst (λ l. set_ipv4addr l (w ∷ x ∷ y ∷ z ∷ []) ≡ l) (sym on_v4) refl,
      omega arith,
    )
  where
    entered :
        enter_passive t net c false
        ≡ ok (
          listening c,
          reply 227 (
              codes "Entering Passive Mode ("
              ++ join b',' (w ∷ x ∷ y ∷ z ∷ port / 256 ∷ port % 256 ∷ [])
              ++ codes ")."),
        )
    entered =
        ap
          (λ r. r >>= λ p.
            map_run (λ addr. (listening c, reply 227 (passive_text (address_text net c addr) p)))
              (passive_addr t net c))
          (listen_ok net port listens)
        ∙ ap
            (map_run
              (λ addr. (listening c, reply 227 (passive_text (address_text net c addr) port))))
            (local_ok t net c unset)
        ∙ ap (λ s. ok (listening c, reply 227 s))
            (ap (λ u. passive_text u port) (v4_ok net c (w ∷ x ∷ y ∷ z ∷ []) on_v4 ∙ printed)
              ∙ numbers_text w x y z port small)
