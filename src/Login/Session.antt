-- ===== src/Login/Session.antt =====
-- twoprocess.c over privops.c: which sessions the request for a login starts.
use mathlib.Core.List.{append-nil}
use checkedc_vsftpd.Base.{
  ℕ, ◌≤◌, ◌≡◌, ◌≢◌, refl, sym, ap, ◌∙◌, subst, ◌⊎◌, inl, inr, Bool, true, false, ◌||◌, Option, none,
  some, [], ◌∷◌, ◌++◌, arith, ltb, leb, ◌==◌, le→ltb, if◌then◌else◌, Bool-cases, Bytes, codes,
  length,
}
use checkedc_vsftpd.Str.{int_max}
use checkedc_vsftpd.Run.{Run, Fault, ok, fault, ◌>>=◌}
use checkedc_vsftpd.Parseconf.{Tunables}
use checkedc_vsftpd.Privsock.{
  priv_sock_send_cmd, priv_sock_send_str, priv_sock_send_int, priv_sock_get_cmd, priv_sock_get_str,
  priv_sock_get_int, vsftp_privsock_maxstr,
}
use checkedc_vsftpd.Privsock.Messages.{get_int-send_int, get_str-send_str}
use checkedc_vsftpd.Privsock.{read_exactly, str_of}
use checkedc_vsftpd.Postpriv.Policy.{DiesOr, DiesOr->>=, DiesOr-map, Any, get_int_dies}
use checkedc_vsftpd.Prelogin.{is_anonymous}
use checkedc_vsftpd.Login.{
  LoginResult, login_fail, login_anon, login_real, Visitor, Authenticator, name_or_empty,
  vsf_privop_do_login,
}
use checkedc_vsftpd.Login.UserConfig.{Host, Ends}
use checkedc_vsftpd.Login.Jail.{Jail, Confined, common_do_login, common_do_login-Ends}
use checkedc_vsftpd.Login.Clean.{IsClean, Earned, do_login-Earned}
use checkedc_vsftpd.Login.Request.{
  cmd_login, flag, login_request, Request, data_flag, control_flag, password_of, user_of,
  get_login_request, in_list, local_do_chroot, Served, start_session, refused, starts, serve_result,
  process_login_req,
}

get_str-short :
    (s rest : Bytes)
    → length s ≤ vsftp_privsock_maxstr
    → priv_sock_get_str (priv_sock_send_str s ++ rest) ≡ ok (s, rest)
get_str-short s rest h =
    (get_str-send_str s rest 0 (omega arith)).0
    ∙ rw (le→ltb vsftp_privsock_maxstr (length s) h) refl

get_flag :
    (b : Bool) (rest : Bytes)
    → priv_sock_get_int (priv_sock_send_int (flag b) ++ rest) ≡ ok (flag b, rest)
get_flag true rest = get_int-send_int 1 rest (omega arith)
get_flag false rest = get_int-send_int 0 rest (omega arith)

-- The privileged process reads the name, the password and the flags of the request that its child
-- sends, where name and password have at most 131072 bytes; without TLS the flags count as 0.
pub get_login_request-login_request :
    (t : Tunables) (user pass : Bytes) (control_ssl data_ssl : Bool)
    → length user ≤ vsftp_privsock_maxstr
    → length pass ≤ vsftp_privsock_maxstr
    → get_login_request t (login_request user pass control_ssl data_ssl)
      ≡ ok (data_flag t user pass (flag control_ssl) (flag data_ssl, []))
unfolding get_login_request login_request priv_sock_send_cmd priv_sock_get_cmd
get_login_request-login_request t user pass control_ssl data_ssl h k =
    let last : priv_sock_get_int (priv_sock_send_int (flag data_ssl)) ≡ ok (flag data_ssl, []) =
      ap priv_sock_get_int (sym (append-nil (priv_sock_send_int (flag data_ssl))))
      ∙ get_flag data_ssl [] in
    rw (get_str-short user _ h) (
      rw (get_str-short pass _ k)
        (rw (get_flag control_ssl (priv_sock_send_int (flag data_ssl))) (rw last refl)))

-- What serving a request for a login means for the outside; `ok none` is fuel that ran out.
abbrev pub Started : Tunables → Authenticator → Visitor → Bytes → Run (Option Served) → Type 0
Started t a v stream (fault e) = e ≢ Fault.bug
Started t a v stream (ok none) = ⊥
Started t a v stream (ok (some (refused v'))) = Unit
Started t a v stream (ok (some (starts j))) =
    Confined j.rights
    × ((r : Request) × (get_login_request t stream ≡ ok r)
        × IsClean r.user r.password
        × ((is_anonymous r.user ≡ true) ⊎ (a r.user r.password v.remote_ip_str ≡ true)))

get_str_dies : (stream : Bytes) → DiesOr Any (priv_sock_get_str stream)
unfolding priv_sock_get_str read_exactly
get_str_dies stream =
    DiesOr->>= Any Any (priv_sock_get_int stream) str_of (get_int_dies stream) λ r _. read r.0 r.1
  where
    choose :
        (b : Bool) (x y : Run (Bytes × Bytes))
        → DiesOr Any x
        → DiesOr Any y
        → DiesOr Any (if b then x else y)
    choose true x y h k = h
    choose false x y h k = k

    read : (len : ℕ) (rest : Bytes) → DiesOr Any (str_of (len, rest))
    read len rest =
        choose (ltb vsftp_privsock_maxstr len) _ _ refl
          (choose (ltb int_max len) _ _ refl (choose (leb len (length rest)) _ _ tt refl))

get_login_dies : (t : Tunables) (stream : Bytes) → DiesOr Any (get_login_request t stream)
unfolding get_login_request priv_sock_get_cmd
get_login_dies t [] = refl
get_login_dies t (cmd ∷ stream) = elim (Bool-cases (cmd == cmd_login)) [
  | inr e ↦ rw e refl
  | inl e ↦ rw e (
      DiesOr->>= Any Any (priv_sock_get_str stream) (user_of t) (get_str_dies stream) λ u _.
        DiesOr->>= Any Any (priv_sock_get_str u.1) (password_of t u.0) (get_str_dies u.1) λ p _.
          DiesOr->>= Any Any (priv_sock_get_int p.1) (control_flag t u.0 p.0) (get_int_dies p.1)
            λ c _.
              DiesOr-map Any Any (priv_sock_get_int c.1) (data_flag t u.0 p.0 c.0)
                (get_int_dies c.1) (λ _ _. tt))
]

Run-cases {ℓ} : {A : Type ℓ} (r : Run A) → ((a : A) × (r ≡ ok a)) ⊎ ((e : Fault) × (r ≡ fault e))
Run-cases (ok a) = inl (a, refl)
Run-cases (fault e) = inr (e, refl)

do_chroot_dies :
    (t : Tunables) (read_file : Bytes → Option Bytes) (user : Bytes)
    → DiesOr Any (local_do_chroot t read_file user)
unfolding local_do_chroot
do_chroot_dies t read_file user = elim (Bool-cases (t.bools (codes "chroot_list_enable"))) [
  | inr e ↦ rw e tt
  | inl e ↦
      rw e (
        read
          (elim (t.strs (codes "chroot_list_file")) [ none ↦ none | some name ↦ read_file name ]))
]
  where
    read : (o : Option Bytes) → DiesOr Any (in_list (t.bools (codes "chroot_local_user")) user o)
    read none = refl
    read (some list) = tt

died : (e : Fault) → e ≡ Fault.die → e ≢ Fault.bug
died e h k = absurd (apart (sym h ∙ k))
  where
    apart : Fault.die ≢ Fault.bug
    apart h = cc

module _ (w : Host) (t : Tunables) (a : Authenticator) (v : Visitor) (stream : Bytes) where
  started :
      (r : Request) (jail : Run (Option Jail))
      → get_login_request t stream ≡ ok r
      → IsClean r.user r.password
      → (is_anonymous r.user ≡ true) ⊎ (a r.user r.password v.remote_ip_str ≡ true)
      → Ends (λ j. Confined j.rights) jail
      → Started t a v stream (start_session jail)
  started r (fault e) run clean earned h = h
  started r (ok (some j)) run clean earned h = (h, (r, run, clean, earned))
  started r (ok none) run clean earned h = absurd h

  served :
      (r : Request) (res : Run (LoginResult × Visitor))
      → get_login_request t stream ≡ ok r
      → Earned t a (record v { user_str = r.user }) r.password res
      → Started t a v stream (res >>= serve_result w t)
  served r (fault e) run earned = died e earned.0
  served r (ok (login_fail, v')) run earned = tt
  served r (ok (login_anon, v')) run (clean, on, anon, banned, given) =
      let ftp = name_or_empty (t.strs (codes "ftp_username")) in
      started r (common_do_login w t ftp true true) run clean (inl anon)
        (common_do_login-Ends w t ftp true true refl)
  served r (ok (login_real, v')) run (clean, passed, local, named, same) =
      local_session (local_do_chroot t w.files.fileread v'.user_str)
        (do_chroot_dies t w.files.fileread v'.user_str)
    where
      or_true : (b : Bool) → (b || true) ≡ true
      or_true true = refl
      or_true false = refl

      local_session :
          (d : Run Bool)
          → DiesOr Any d
          → Started t a v stream
              (d >>= λ do_chroot. start_session (common_do_login w t v'.user_str do_chroot false))
      local_session (fault e) h = died e h
      local_session (ok do_chroot) h =
          started r (common_do_login w t v'.user_str do_chroot false) run clean (inr passed)
            (common_do_login-Ends w t v'.user_str do_chroot false (or_true do_chroot))

  -- Whatever bytes the child sends, the privileged process ends, but not in a bug, refuses the
  -- login or starts a session: one for a request with a clean name and password, of an anonymous
  -- name or one that the authentication of the system let pass, and a session that stands for
  -- anonymous users is shut into its root and keeps no rights aside. The settings of the user and
  -- the directories are read on the way, within the rounds that they need.
  pub process_login-Started : Started t a v stream (process_login_req w t a v stream)
  unfolding process_login_req
  process_login-Started = elim (Run-cases (get_login_request t stream)) [
    | inr (e, run) ↦ rw run (died e (subst (DiesOr Any) run (get_login_dies t stream)))
    | inl (r, run) ↦ rw run (
        served r (vsf_privop_do_login t a (record v { user_str = r.user }) r.password) run
          (do_login-Earned t a (record v { user_str = r.user }) r.password))
  ]
