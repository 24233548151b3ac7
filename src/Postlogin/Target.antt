-- ===== src/Postlogin/Target.antt =====
-- postlogin.c, where the data of a session can go, over all commands on the data connection.
use checkedc_vsftpd.Base.{
  ℕ, zero, suc, ◌≤◌, ◌≡◌, ◌≢◌, refl, sym, ap, ◌∙◌, subst, ◌⊎◌, inl, inr, Bool, true, false, not,
  ◌&&◌, ◌||◌, Option, none, some, ◌∷◌, arith, ltb, ◌==◌, if◌then◌else◌, Bool-cases, Bytes, codes,
  length, take, length-take,
}
use checkedc_vsftpd.Run.{Run, Fault, ok, fault, map_run}
use checkedc_vsftpd.Text.{str_isempty, c_text}
use checkedc_vsftpd.Text.Split.{str_split_char}
use checkedc_vsftpd.Number.{atoi}
use checkedc_vsftpd.Parseconf.{Tunables}
use checkedc_vsftpd.Ipaddrparse.{
  sep_round, sep_loop, vsf_sysutil_parse_uchar_string_sep, vsf_sysutil_parse_ipv4,
  vsf_sysutil_parse_ipv6,
}
use checkedc_vsftpd.Ipaddrparse.Length.{Address, parse_ipv6-Address}
use checkedc_vsftpd.Sockaddr.{Sockaddr, in4, in6, vsf_sysutil_sockaddr_addr_equal}
use checkedc_vsftpd.Sockaddr.Host.{IsSockaddr, host, addr_equal-host}
use checkedc_vsftpd.Prelogin.{Reply}
use checkedc_vsftpd.Login.UserConfig.{Ends}
use checkedc_vsftpd.Postlogin.Connection.{
  Conn, is_some, cleaned, is_ipv6, set_ipv4addr, set_ipv6addr, point_at, port_of, handle_port,
  bad_eprt, eprt_port, eprt_ipv4, eprt_parsed, bad_proto, eprt_addr, handle_eprt,
}

-- The address that PORT or EPRT set up is the client's own and its port is not reserved, unless the
-- configuration lets the client name any.
abbrev pub OnTarget : Tunables → Sockaddr → Option (Sockaddr × ℕ) → Type 0
OnTarget t remote none = Unit
OnTarget t remote (some (addr, port)) =
    (t.bools (codes "port_promiscuous") ≡ true) ⊎ (host remote ≡ host addr) × (1024 ≤ port)

-- The state between two commands, for the addresses of a control connection.
pub record Aimed (t : Tunables) (local remote : Sockaddr) (c : Conn) : Type 0 where
  pub same_local : c.local_addr ≡ local
  pub same_remote : c.remote_addr ≡ remote
  pub one_active : (is_some c.port_sockaddr && c.pasv_listens) ≡ false
  pub on_target : OnTarget t remote c.port_sockaddr

abbrev Items : ℕ → Option Bytes → Type 0
Items n none = Unit
Items n (some vals) = length vals ≡ n

pub pick {ℓ κ} :
    {A : Type ℓ} (P : A → Type κ) (b : Bool) (x y : A)
    → P x
    → (b ≡ false → P y)
    → P (if b then x else y)
pick P true x y h k = h
pick P false x y h k = k refl

round-Items :
    (left : ℕ) (field rhs : Bytes) (rest : Option Bytes)
    → Items left rest
    → Items (suc left) (sep_round left field rhs rest)
unfolding sep_round
round-Items left field rhs none h =
    pick (Items (suc left)) _ none _ tt
      λ _. pick (Items (suc left)) (ltb 255 (atoi (c_text field))) none none tt (λ _. tt)
round-Items left field rhs (some vals) h = pick (Items (suc left)) _ none _ tt λ _.
    pick (Items (suc left)) (ltb 255 (atoi (c_text field))) none (some (atoi (c_text field) ∷ vals))
      tt (λ _. ap suc h)

sep_loop-Items : (sep n : ℕ) (s : Bytes) → Items n (sep_loop sep n s)
unfolding sep_loop
sep_loop-Items sep zero s = refl
sep_loop-Items sep (suc n) s =
    round-Items n (str_split_char s sep).0 (str_split_char s sep).1
      (sep_loop sep n (str_split_char s sep).1) (sep_loop-Items sep n (str_split_char s sep).1)

-- What a refused PORT or EPRT did not say.
allowed :
    (promiscuous same reserved : Bool)
    → (not promiscuous && (not same || reserved)) ≡ false
    → (promiscuous ≡ true) ⊎ (same ≡ true) × (reserved ≡ false)
allowed promiscuous same reserved h = ground arith

set_ipv4addr-IsSockaddr :
    (local : Sockaddr) (raw : Bytes) → length raw ≡ 4 → IsSockaddr (set_ipv4addr local raw)
unfolding set_ipv4addr
set_ipv4addr-IsSockaddr (in4 a) raw h = h
set_ipv4addr-IsSockaddr (in6 a) raw h = omega (arith, h)

not_bug : (e : Fault) → e ≡ Fault.bounds → e ≢ Fault.bug
not_bug e h k = apart (sym h ∙ k)
  where
    apart : Fault.bounds ≢ Fault.bug
    apart h = cc

module _ (t : Tunables) (local remote : Sockaddr) (good_local : IsSockaddr local)
    (good_remote : IsSockaddr remote) where
  abbrev pub AimedAt : Conn × Reply → Type 0
  AimedAt r = Aimed t local remote r.0

  pub cleaned-Aimed : (c : Conn) → Aimed t local remote c → Aimed t local remote (cleaned c)
  cleaned-Aimed c h = record {
    same_local = h.same_local;
    same_remote = h.same_remote;
    one_active = refl;
    on_target = tt;
  }

  point_at-Aimed :
      (c : Conn) (addr : Sockaddr) (port : ℕ) (bad good : Bytes)
      → Aimed t local remote c
      → IsSockaddr addr
      → AimedAt (point_at t (cleaned c) addr port bad good)
  unfolding point_at
  point_at-Aimed c addr port bad good h k = pick AimedAt _ _ _ (cleaned-Aimed c h) λ free. record {
    same_local = h.same_local;
    same_remote = h.same_remote;
    one_active = refl;
    on_target =
        elim (allowed (t.bools (codes "port_promiscuous"))
          (vsf_sysutil_sockaddr_addr_equal c.remote_addr addr) (ltb port 1024) free) [
            | inl any ↦ inl any
            | inr (same, high) ↦ inr (
              (addr_equal-host remote addr good_remote k).0
                  (subst (λ r. vsf_sysutil_sockaddr_addr_equal r addr ≡ true) h.same_remote same),
              not_reserved port high,
            )
          ];
  }
    where
      not_reserved : (port : ℕ) → ltb port 1024 ≡ false → 1024 ≤ port
      not_reserved port h = ground arith

  pub port-Aimed : (c : Conn) (arg : Bytes) → Aimed t local remote c → AimedAt (handle_port t c arg)
  unfolding handle_port vsf_sysutil_parse_uchar_string_sep
  port-Aimed c arg h = of_vals (sep_loop b',' 6 arg) (sep_loop-Items b',' 6 arg)
    where
      of_vals :
          (o : Option Bytes)
          → Items 6 o
          → AimedAt (elim o as (λ _. Conn × Reply) [
            | none ↦ (cleaned c, checkedc_vsftpd.Prelogin.reply 500 (codes "Illegal PORT command."))
            | some vals ↦
                point_at t
                  (cleaned c)
                  (set_ipv4addr c.local_addr (take 4 vals))
                  (port_of vals)
                  (codes "Illegal PORT command.")
                  (codes "PORT command successful. Consider using PASV.")
          ])
      of_vals none k = cleaned-Aimed c h
      of_vals (some vals) k =
          point_at-Aimed c (set_ipv4addr c.local_addr (take 4 vals)) (port_of vals) _ _ h (
            set_ipv4addr-IsSockaddr c.local_addr (take 4 vals)
              (length-take 4 vals (omega (arith, k))))

  eprt_port-Aimed :
      (c : Conn) (addr : Sockaddr) (rest : Bytes)
      → Aimed t local remote c
      → IsSockaddr addr
      → AimedAt (eprt_port t c addr rest)
  unfolding eprt_port
  eprt_port-Aimed c addr rest h k =
      let (text, more) = str_split_char rest b'|' in
      let port : ℕ = atoi (c_text text) in
      let bad = codes "Illegal EPRT command." in
      let good = codes "EPRT command successful. Consider using EPSV." in
      let pointed = point_at t (cleaned c) addr port bad good in
      pick AimedAt (not (str_isempty more) || str_isempty text) (bad_eprt c)
        (if ltb 65535 port then bad_eprt c else pointed) (cleaned-Aimed c h)
        λ _.
          pick AimedAt (ltb 65535 port) (bad_eprt c) pointed (cleaned-Aimed c h)
            λ _. point_at-Aimed c addr port bad good h k

  eprt_ipv4-Aimed :
      (c : Conn) (rest : Bytes) (o : Option Bytes)
      → Aimed t local remote c
      → Items 4 o
      → AimedAt (eprt_ipv4 t c rest o)
  eprt_ipv4-Aimed c rest none h k = cleaned-Aimed c h
  eprt_ipv4-Aimed c rest (some raw) h k =
      eprt_port-Aimed c (set_ipv4addr c.local_addr raw) rest h
        (set_ipv4addr-IsSockaddr c.local_addr raw k)

  -- An IPv6 address on an IPv6 connection.
  eprt_parsed-Aimed :
      (c : Conn) (rest : Bytes) (o : Option (Run (Option Bytes)))
      → Aimed t local remote c
      → is_ipv6 c.local_addr ≡ true
      → Address o
      → Ends AimedAt (eprt_parsed t c rest o)
  unfolding set_ipv6addr
  eprt_parsed-Aimed c rest none h six k = absurd k
  eprt_parsed-Aimed c rest (some (fault e)) h six k = not_bug e k
  eprt_parsed-Aimed c rest (some (ok none)) h six k = cleaned-Aimed c h
  eprt_parsed-Aimed c rest (some (ok (some raw))) h six k = on_ipv6 c.local_addr six
    where
      on_ipv6 :
          (l : Sockaddr)
          → is_ipv6 l ≡ true
          → Ends AimedAt
              (map_run some (map_run (λ addr. eprt_port t c addr rest) (set_ipv6addr l raw)))
      on_ipv6 (in6 a) six = eprt_port-Aimed c (in6 raw) rest h k
      on_ipv6 (in4 a) six = cc

  eprt_addr-Aimed :
      (c : Conn) (proto : ℕ) (text : Bytes)
      → Aimed t local remote c
      → bad_proto c proto ≡ false
      → Ends AimedAt (eprt_addr t c proto text)
  unfolding eprt_addr vsf_sysutil_parse_ipv4 vsf_sysutil_parse_uchar_string_sep
  eprt_addr-Aimed c proto text h good =
      let (address, rest) = str_split_char text b'|' in
      elim (Bool-cases (proto == 2)) [
        | inl two ↦
            let plain = (str_split_char address b'%').0 in
            rw two (
              eprt_parsed-Aimed c rest (vsf_sysutil_parse_ipv6 plain) h
                (on_six proto (is_ipv6 c.local_addr) good two) (parse_ipv6-Address plain))
        | inr one ↦
            rw one
              (eprt_ipv4-Aimed c rest (sep_loop b'.' 4 address) h (sep_loop-Items b'.' 4 address))
      ]
    where
      on_six :
          (proto : ℕ) (six : Bool)
          → (ltb proto 1 || ltb 2 proto || (not six && proto == 2)) ≡ false
          → (proto == 2) ≡ true
          → six ≡ true
      on_six proto six h k = ground arith

  pub eprt-Aimed :
      (c : Conn) (arg : Bytes) → Aimed t local remote c → Ends AimedAt (handle_eprt t c arg)
  unfolding handle_eprt
  eprt-Aimed c arg h =
      let (front, behind) = str_split_char arg b'|' in
      let (number, text) = str_split_char behind b'|' in
      let proto : ℕ = atoi (c_text number) in
      let wrong : Conn × Reply =
        (cleaned c, checkedc_vsftpd.Prelogin.reply 500 (codes "Bad EPRT protocol.")) in
      pick (Ends AimedAt) (not (str_isempty front)) (ok (some (bad_eprt c)))
        (if bad_proto c proto then ok (some wrong) else eprt_addr t c proto text)
        (cleaned-Aimed c h)
        λ _.
          pick (Ends AimedAt) (bad_proto c proto) (ok (some wrong)) (eprt_addr t c proto text)
            (cleaned-Aimed c h) λ good. eprt_addr-Aimed c proto text h good
