-- ===== src/Postlogin/Events.antt =====
-- postlogin.c, all commands on the data connection, one after the other.
use mathlib.Core.List.{map}
use checkedc_vsftpd.Base.{
  ℕ, ◌≢◌, refl, inl, inr, Bool, true, false, not, ◌&&◌, Option, none, some, List, [], ◌∷◌,
  if◌then◌else◌, Bool-cases, Bytes, codes,
}
use checkedc_vsftpd.Run.{Run, Fault, ok, fault, ◌>>=◌, map_run}
use checkedc_vsftpd.Text.{str_isempty, str_equal_text, to_upper, c_text}
use checkedc_vsftpd.Number.{atoi}
use checkedc_vsftpd.Parseconf.{Tunables}
use checkedc_vsftpd.Sockaddr.{Sockaddr, in4}
use checkedc_vsftpd.Sockaddr.Host.{IsSockaddr}
use checkedc_vsftpd.Prelogin.{Reply, reply}
use checkedc_vsftpd.Login.UserConfig.{Ends, Ends->>=?, NotBug}
use checkedc_vsftpd.Postlogin.Connection.{Conn, bad_proto, handle_eprt}
use checkedc_vsftpd.Postlogin.Pasv.{
  address_text, passive_text, extended_text, Net, passive_addr, listen_port, listening,
  enter_passive, handle_pasv,
}
use checkedc_vsftpd.Postlogin.Transfer.{
  Event, port_cmd, eprt_cmd, pasv_cmd, transfer_ends, answered_with, on_event, on_events,
}
use checkedc_vsftpd.Postlogin.Target.{Aimed, AimedAt, pick, cleaned-Aimed, port-Aimed, eprt-Aimed}

die_not_bug : Fault.die ≢ Fault.bug
die_not_bug h = cc

listen_port-NotBug : (net : Net) → NotBug (listen_port net)
listen_port-NotBug net = of_port net.listen
  where
    of_port :
        (o : Option ℕ)
        → NotBug (elim o as (λ _. Run ℕ) [ none ↦ fault Fault.die | some port ↦ ok port ])
    of_port none = die_not_bug
    of_port (some port) = tt

passive_addr-NotBug : (t : Tunables) (net : Net) (c : Conn) → NotBug (passive_addr t net c)
passive_addr-NotBug t net c = of_setting (t.strs (codes "pasv_address"))
  where
    of_raw :
        (o : Option Bytes)
        → NotBug
            (elim o as (λ _. Run Sockaddr) [ none ↦ fault Fault.die | some raw ↦ ok (in4 raw) ])
    of_raw none = die_not_bug
    of_raw (some raw) = tt

    of_setting :
        (o : Option Bytes)
        → NotBug (elim o as (λ _. Run Sockaddr) [
          | none ↦ ok c.local_addr
          | some text ↦ elim (net.inet_aton text) [
            | none ↦ fault Fault.die
            | some raw ↦ ok (in4 raw)
          ]
        ])
    of_setting none = tt
    of_setting (some text) = of_raw (net.inet_aton text)

-- A run whose value satisfies `P`, or that ends in a fault that is no bug.
abbrev FineOr {ℓ} : {A : Type ℓ} → (A → Type 0) → Run A → Type 0
FineOr P (fault e) = e ≢ Fault.bug
FineOr P (ok a) = P a

FineOr-map {ℓ κ} :
    {A : Type ℓ} {B : Type κ} (P : B → Type 0) (r : Run A) (f : A → B)
    → NotBug r
    → ((a : A) → P (f a))
    → FineOr P (map_run f r)
FineOr-map P (fault e) f h k = h
FineOr-map P (ok a) f h k = k a

FineOr->>= {ℓ κ} :
    {A : Type ℓ} {B : Type κ} (P : B → Type 0) (r : Run A) (f : A → Run B)
    → NotBug r
    → ((a : A) → FineOr P (f a))
    → FineOr P (r >>= f)
FineOr->>= P (fault e) f h k = h
FineOr->>= P (ok a) f h k = k a

module _ (t : Tunables) (local remote : Sockaddr) (good_local : IsSockaddr local)
    (good_remote : IsSockaddr remote) where
  abbrev Good : Conn × Reply → Type 0
  Good = AimedAt t local remote good_local good_remote

  listening-Aimed : (c : Conn) → Aimed t local remote c → Aimed t local remote (listening c)
  listening-Aimed c h = record {
    same_local = h.same_local;
    same_remote = h.same_remote;
    one_active = refl;
    on_target = tt;
  }

  enter-Aimed :
      (net : Net) (c : Conn) (is_epsv : Bool)
      → Aimed t local remote c
      → FineOr Good (enter_passive t net c is_epsv)
  unfolding enter_passive
  enter-Aimed net c true h =
      FineOr-map Good (listen_port net) (λ port. (listening c, reply 229 (extended_text port)))
        (listen_port-NotBug net) (λ port. listening-Aimed c h)
  enter-Aimed net c false h = FineOr->>= Good (listen_port net) _ (listen_port-NotBug net) λ port.
      FineOr-map Good (passive_addr t net c)
        (λ addr. (listening c, reply 227 (passive_text (address_text net c addr) port)))
        (passive_addr-NotBug t net c) (λ addr. listening-Aimed c h)

  pasv-Aimed :
      (net : Net) (c : Conn) (is_epsv : Bool) (arg : Bytes)
      → Aimed t local remote c
      → FineOr Good (handle_pasv t net c is_epsv arg)
  unfolding handle_pasv
  pasv-Aimed net c is_epsv arg h = elim (Bool-cases (is_epsv && not (str_isempty arg))) [
    | inr e ↦ rw e (enter-Aimed net c is_epsv h)
    | inl e ↦
        let upper : Bytes = map to_upper arg in
        let all : Run (Conn × Reply) =
          ok (record c { epsv_all = true }, reply 200 (codes "EPSV ALL ok.")) in
        let bad : Run (Conn × Reply) = ok (c, reply 522 (codes "Bad network protocol.")) in
        let entered = enter_passive t net c is_epsv in
        rw e (
          pick (FineOr Good) (str_equal_text upper (codes "ALL")) all
            (if bad_proto c (atoi (c_text upper)) then bad else entered)
            (record {
              same_local = h.same_local;
              same_remote = h.same_remote;
              one_active = h.one_active;
              on_target = h.on_target;
            })
            λ _.
              pick (FineOr Good) (bad_proto c (atoi (c_text upper))) bad entered h
                λ _. enter-Aimed net c is_epsv h)
  ]

  event-Aimed :
      (c : Conn) (e : Event) → Aimed t local remote c → Ends (Aimed t local remote) (on_event t c e)
  unfolding on_event
  event-Aimed c (port_cmd arg) h = port-Aimed t local remote good_local good_remote c arg h
  event-Aimed c (eprt_cmd arg) h =
      Ends->>=? Good (Aimed t local remote) (handle_eprt t c arg) (λ a. ok (some a.0))
        (eprt-Aimed t local remote good_local good_remote c arg h) (λ a good. good)
  event-Aimed c (pasv_cmd is_epsv arg net) h =
      of_run (handle_pasv t net c is_epsv arg) (pasv-Aimed net c is_epsv arg h)
    where
      of_run :
          (r : Run (Conn × Reply)) → FineOr Good r → Ends (Aimed t local remote) (answered_with r)
      of_run (fault e) h = h
      of_run (ok r) h = h
  event-Aimed c transfer_ends h = cleaned-Aimed t local remote good_local good_remote c h

  -- Over all commands on the data connection, from a state that is fine as the first one is, for
  -- addresses of their families' lengths: the process does not end in a bug, and no loop runs out
  -- of its rounds. A PORT address and a passive listener are never there at a time, the address
  -- that PORT or EPRT set up is the client's own host with a port of 1024 or more, unless the
  -- configuration lets clients name any, and the addresses of the control connection stay.
  pub events-Aimed :
      (es : List Event) (c : Conn)
      → Aimed t local remote c
      → Ends (Aimed t local remote) (on_events t c es)
  events-Aimed [] c h = h
  events-Aimed (e ∷ es) c h =
      Ends->>=? (Aimed t local remote) (Aimed t local remote) (on_event t c e)
        (λ d. on_events t d es) (event-Aimed c e h) (λ d k. events-Aimed es d k)
