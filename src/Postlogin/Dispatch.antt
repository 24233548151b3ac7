-- ===== src/Postlogin/Dispatch.antt =====
-- postlogin.c, the dispatch of a command: which handlers a configuration lets a session reach.
use checkedc_vsftpd.Base.{
  ◌≡◌, refl, ◌⊎◌, inl, inr, Bool, true, false, not, ◌&&◌, ◌||◌, some, List, [], ◌∷◌, arith,
  if◌then◌else◌, Bool-cases, Bytes, codes,
}
use checkedc_vsftpd.Parseconf.{Tunables}
use checkedc_vsftpd.Postpriv.Policy.{All}
use checkedc_vsftpd.Postlogin.{
  State, Row, Handler, first_of, dispatch_rows, post_command, do_retr, do_list, do_port, do_stor,
  do_mkd, do_rmd, do_dele, do_rnfr, do_rnto, do_nlst, do_site, do_appe, do_eprt, do_stou,
  do_stat_file, do_pbsz, do_prot, do_noperm, do_unknown, do_pasv,
}
use checkedc_vsftpd.Postlogin.Allowed.{allows, cmd_ok_lem}

-- Writing is on, and for anonymous users what the handler wants besides.
abbrev pub Writes : Tunables → State → Bytes → Type 0
Writes t s setting =
    (t.bools (codes "write_enable") ≡ true) × ((t.bools setting ≡ true) ⊎ (s.is_anonymous ≡ false))

-- What the configuration says where a handler is reached.
abbrev pub Reachable : Tunables → State → Handler → Type 0
Reachable t s do_stor = Writes t s (codes "anon_upload_enable")
Reachable t s do_stou = Writes t s (codes "anon_upload_enable")
Reachable t s do_mkd = Writes t s (codes "anon_mkdir_write_enable")
Reachable t s do_rmd = Writes t s (codes "anon_other_write_enable")
Reachable t s do_dele = Writes t s (codes "anon_other_write_enable")
Reachable t s do_rnfr = Writes t s (codes "anon_other_write_enable")
Reachable t s do_rnto = Writes t s (codes "anon_other_write_enable")
Reachable t s do_appe = Writes t s (codes "anon_other_write_enable")
Reachable t s do_site = s.is_anonymous ≡ false
Reachable t s do_retr = t.bools (codes "download_enable") ≡ true
Reachable t s do_list = t.bools (codes "dirlist_enable") ≡ true
Reachable t s do_nlst = t.bools (codes "dirlist_enable") ≡ true
Reachable t s do_stat_file = t.bools (codes "dirlist_enable") ≡ true
Reachable t s do_port = (t.bools (codes "port_enable") ≡ true) × (s.epsv_all ≡ false)
Reachable t s do_eprt = t.bools (codes "port_enable") ≡ true
Reachable t s (do_pasv false) = (t.bools (codes "pasv_enable") ≡ true) × (s.epsv_all ≡ false)
Reachable t s (do_pasv true) = t.bools (codes "pasv_enable") ≡ true
Reachable t s do_pbsz = t.bools (codes "ssl_enable") ≡ true
Reachable t s do_prot = t.bools (codes "ssl_enable") ≡ true
Reachable t s _ = Unit

first_of-All :
    (P : Handler → Type 0) (rows : List Row) (last : Handler)
    → All (λ row. row.0 ≡ true → P row.1) rows
    → P last
    → P (first_of rows last)
first_of-All P [] last h k = k
first_of-All P ((test, handler) ∷ rows) last (h, hs) k =
    pick test handler (first_of rows last) h (first_of-All P rows last hs k)
  where
    pick : (b : Bool) (x y : Handler) → (b ≡ true → P x) → P y → P (if b then x else y)
    pick true x y h k = h refl
    pick false x y h k = k

on : (a b : Bool) → (a && b) ≡ true → a ≡ true
on a b h = ground arith

on_and_off : (a b c : Bool) → (a && (not b && c)) ≡ true → (a ≡ true) × (b ≡ false)
on_and_off a b c h = ground arith

off : (a b : Bool) → (not a && b) ≡ true → a ≡ false
off a b h = ground arith

writing :
    (w x anon b : Bool)
    → ((w && (x || not anon)) && b) ≡ true
    → (w ≡ true) × ((x ≡ true) ⊎ (anon ≡ false))
writing w x anon b h = ground arith

free {ℓ} : {A : Type 0} → A → Unit {ℓ}
free h = tt

infixr 3 ◌▸◌
abbrev ◌▸◌ {ℓ κ} : {A : Type ℓ} {B : Type κ} → A → B → A × B
a ▸ b = (a, b)

module _ (t : Tunables) (s : State) (cmd arg : Bytes) where
  rows-Reachable : All (λ row. row.0 ≡ true → Reachable t s row.1) (dispatch_rows t s cmd arg)
  unfolding dispatch_rows
  rows-Reachable =
      free
      ▸ free
      ▸ free
      ▸ free
      ▸ on_and_off _ _ _
      ▸ on _ _
      ▸ on _ _
      ▸ free
      ▸ free
      ▸ free
      ▸ on _ _
      ▸ free
      ▸ on_and_off _ _ _
      ▸ writing _ _ _ _
      ▸ writing _ _ _ _
      ▸ writing _ _ _ _
      ▸ writing _ _ _ _
      ▸ free
      ▸ writing _ _ _ _
      ▸ writing _ _ _ _
      ▸ on _ _
      ▸ free
      ▸ off _ _
      ▸ free
      ▸ writing _ _ _ _
      ▸ free
      ▸ on _ _
      ▸ free
      ▸ free
      ▸ writing _ _ _ _
      ▸ free
      ▸ free
      ▸ free
      ▸ free
      ▸ free
      ▸ on _ _
      ▸ on _ _
      ▸ on _ _
      ▸ free
      ▸ free
      ▸ free
      ▸ free
      ▸ free
      ▸ tt

  -- Every command has its handler, or is refused. A handler other than the refusal is reached by
  -- a command that the lists of the configuration allow, and only where the configuration has it
  -- on: writing for all and what anonymous users need besides, downloads, listings, PORT and PASV
  -- before an EPSV ALL, SITE for local users, PBSZ and PROT with TLS.
  pub post_command-Reachable :
      (h : Handler) × (post_command t s cmd arg ≡ some h)
      × ((h ≡ do_noperm) ⊎ ((allows t cmd ≡ true) × Reachable t s h))
  unfolding post_command
  post_command-Reachable = elim (Bool-cases (allows t cmd)) [
    | inr e ↦ (do_noperm, rw (cmd_ok_lem t cmd, e) refl, inl refl)
    | inl e ↦ (
      first_of (dispatch_rows t s cmd arg) do_unknown,
      rw (cmd_ok_lem t cmd, e) refl,
      inr (
        e,
        first_of-All (Reachable t s) (dispatch_rows t s cmd arg) do_unknown rows-Reachable tt,
      ),
    )
  ]
