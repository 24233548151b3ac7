-- ===== src/Postlogin/Active.antt =====
-- postlogin.c, pasv_active and port_active, and the transfers that ask them.
use mathlib.Core.Bool.{false≢true}
use checkedc_vsftpd.Base.{
  codes, ◌↔◌, ◌≡◌, refl, sym, ◌∙◌, Bool, true, false, not, ◌&&◌, ◌||◌, Option, none, some, arith,
  if◌then◌else◌,
}
use checkedc_vsftpd.Run.{Run, ok}
use checkedc_vsftpd.Parseconf.{Tunables}
use checkedc_vsftpd.Login.UserConfig.{◌>>=?◌}
use checkedc_vsftpd.Postlogin.Connection.{Conn, unless_both, is_some, pasv_active, port_active}
use checkedc_vsftpd.Postlogin.Transfer.{
  data_transfer_checks_ok, Remote, from_pasv, from_port, get_remote_transfer_fd, ask_active,
  transfer_ok, choose_remote, unencrypted,
}

turns :
    (one other : Bool)
    → (other && one) ≡ false
    → (if one
        then ((if other then ok none else ok (some false)) >>=? unless_both)
        else ok (some false))
      ≡ ok (some one)
turns true true h = cc
turns true false h = refl
turns false other h = refl

-- Where not both are active, two calls are enough.
pub pasv_active_lem :
    (c : Conn)
    → (is_some c.port_sockaddr && c.pasv_listens) ≡ false
    → pasv_active 2 c ≡ ok (some c.pasv_listens)
unfolding pasv_active
pasv_active_lem c h = turns c.pasv_listens (is_some c.port_sockaddr) h

pub port_active_lem :
    (c : Conn)
    → (is_some c.port_sockaddr && c.pasv_listens) ≡ false
    → port_active 2 c ≡ ok (some (is_some c.port_sockaddr))
unfolding pasv_active
port_active_lem c h =
    turns (is_some c.port_sockaddr) c.pasv_listens (swap (is_some c.port_sockaddr) c.pasv_listens h)
  where
    swap : (a b : Bool) → (a && b) ≡ false → (b && a) ≡ false
    swap a b h = ground arith

both_asked {ℓ} :
    {A : Type ℓ} (k : Bool → Bool → Run (Option A)) (p q : Run (Option Bool)) (one other : Bool)
    → p ≡ ok (some one)
    → q ≡ ok (some other)
    → (p >>=? λ pasv. (if pasv then ok (some true) else q) >>=? k pasv) ≡ k one (one || other)
both_asked k p q true other e f = rw e refl
both_asked k p q false other e f = rw (e, f) refl

-- What carries the data.
abbrev pub Carried : Bool → Bool → Remote → Type 0
Carried pasv port from_pasv = pasv ≡ true
Carried pasv port from_port = port ≡ true

abbrev pub Carries : Conn → Remote → Type 0
Carries c r = Carried c.pasv_listens (is_some c.port_sockaddr) r

ask_active_lem {ℓ} :
    {A : Type ℓ} (c : Conn) (k : Bool → Bool → Run (Option A))
    → (is_some c.port_sockaddr && c.pasv_listens) ≡ false
    → ask_active c k ≡ k c.pasv_listens (c.pasv_listens || is_some c.port_sockaddr)
ask_active_lem c k h =
    both_asked k (pasv_active 2 c) (port_active 2 c) c.pasv_listens (is_some c.port_sockaddr)
      (pasv_active_lem c h) (port_active_lem c h)

-- TLS where the configuration forces it for the data of such a user.
abbrev pub Encrypted : Tunables → Bool → Bool → Type 0
Encrypted t data_use_ssl is_anonymous =
    t.bools (codes "ssl_enable") ≡ true
    → t.bools (codes (if is_anonymous then "force_anon_data_ssl" else "force_local_data_ssl"))
      ≡ true
    → data_use_ssl ≡ true

encrypted :
    (on ssl local anonymous is_anonymous : Bool)
    → (on && (not ssl && (local && not is_anonymous || anonymous && is_anonymous))) ≡ false
    → on ≡ true
    → (if is_anonymous then anonymous else local) ≡ true
    → ssl ≡ true
encrypted on ssl local anonymous true h k l = ground arith
encrypted on ssl local anonymous false h k l = ground arith

unforced :
    (on ssl local anonymous is_anonymous : Bool)
    → (on ≡ true → (if is_anonymous then anonymous else local) ≡ true → ssl ≡ true)
    → (on && (not ssl && (local && not is_anonymous || anonymous && is_anonymous))) ≡ false
unforced false ssl local anonymous is_anonymous h = refl
unforced true true local anonymous is_anonymous h = refl
unforced true false local true true h = absurd (false≢true (h refl refl))
unforced true false local false true h = ground arith
unforced true false true anonymous false h = absurd (false≢true (h refl refl))
unforced true false false anonymous false h = ground arith

unencrypted-Encrypted :
    (t : Tunables) (ssl is_anonymous : Bool)
    → (unencrypted t ssl is_anonymous ≡ false) ↔ Encrypted t ssl is_anonymous
unencrypted-Encrypted t ssl true = (
  encrypted (t.bools (codes "ssl_enable")) ssl (t.bools (codes "force_local_data_ssl"))
      (t.bools (codes "force_anon_data_ssl")) true,
  unforced (t.bools (codes "ssl_enable")) ssl (t.bools (codes "force_local_data_ssl"))
      (t.bools (codes "force_anon_data_ssl")) true,
)
unencrypted-Encrypted t ssl false = (
  encrypted (t.bools (codes "ssl_enable")) ssl (t.bools (codes "force_local_data_ssl"))
      (t.bools (codes "force_anon_data_ssl")) false,
  unforced (t.bools (codes "ssl_enable")) ssl (t.bools (codes "force_local_data_ssl"))
      (t.bools (codes "force_anon_data_ssl")) false,
)

-- Some connection is there to carry data.
abbrev pub IsReady : Conn → Type 0
IsReady c = (c.pasv_listens || is_some c.port_sockaddr) ≡ true

-- Where a PORT address and a passive listener are not there at a time, the checks of a transfer
-- end, and they pass exactly when one of the two is there and, where the configuration has TLS on
-- and forces it on the data of an anonymous or of a local user, as this one is, the data use it.
-- The connection of a transfer that passes is then that of the listener or the one of PORT,
-- whichever is active.
pub checks_ok-Carries :
    (t : Tunables) (data_use_ssl is_anonymous : Bool) (c : Conn)
    → (is_some c.port_sockaddr && c.pasv_listens) ≡ false
    → (b : Bool) × (data_transfer_checks_ok t data_use_ssl is_anonymous c ≡ ok (some b))
      × ((b ≡ true) ↔ (IsReady c × Encrypted t data_use_ssl is_anonymous))
      × (b ≡ true → (r : Remote) × (get_remote_transfer_fd c ≡ ok (some r)) × Carries c r)
unfolding data_transfer_checks_ok get_remote_transfer_fd
checks_ok-Carries t data_use_ssl is_anonymous c h =
    let (b, run, passes, then_on) =
      of_flags c.pasv_listens (is_some c.port_sockaddr) (unencrypted t data_use_ssl is_anonymous) in
    let (to, from) = unencrypted-Encrypted t data_use_ssl is_anonymous in
    (
      b,
      ask_active_lem c (transfer_ok t data_use_ssl is_anonymous) h ∙ run,
      (λ e. ((passes.0 e).0, to (passes.0 e).1), λ both. passes.1 (both.0, from both.1)),
      λ e.
          let (r, chosen, carried) = then_on e in
          (r, ask_active_lem c choose_remote h ∙ chosen, carried),
    )
  where
    of_flags :
        (pasv port plain : Bool)
        → (b : Bool) × ((if not (pasv || port)
              then ok (some false)
              else if plain
              then ok (some false)
              else ok (some true))
            ≡ ok (some b))
          × ((b ≡ true) ↔ (((pasv || port) ≡ true) × (plain ≡ false)))
          × (b ≡ true
              → (r : Remote) × (choose_remote pasv (pasv || port) ≡ ok (some r))
                × Carried pasv port r)
    of_flags true port true = (false, refl, (λ e. cc, λ e. sym e.1), λ e. cc)
    of_flags true port false =
        (true, refl, (λ e. (refl, refl), λ e. refl), λ e. (from_pasv, refl, refl))
    of_flags false true true = (false, refl, (λ e. cc, λ e. sym e.1), λ e. cc)
    of_flags false true false =
        (true, refl, (λ e. (refl, refl), λ e. refl), λ e. (from_port, refl, refl))
    of_flags false false plain = (false, refl, (λ e. cc, λ e. e.0), λ e. cc)
