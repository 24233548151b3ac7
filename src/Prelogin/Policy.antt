-- ===== src/Prelogin/Policy.antt =====
-- prelogin.c: which logins are tried, over any run of the loop.
use checkedc_vsftpd.Base.{
  leb, ◌%◌, ◌^◌, ◌+◌, ◌≡◌, ◌≢◌, refl, sym, subst, ◌⊎◌, inl, inr, Bool, true, false, not, ◌&&◌, ◌||◌,
  Option, none, some, List, [], ◌∷◌, arith, if◌then◌else◌, Bool-cases, Bytes, codes,
}
use mathlib.Core.List.{map}
use checkedc_vsftpd.Text.{to_upper, str_equal_text, str_isempty}
use checkedc_vsftpd.Parseconf.{Tunables}
use checkedc_vsftpd.Postpriv.Policy.{All}
use checkedc_vsftpd.Prelogin.{
  Session, Reply, Attempt, Next, goes_on, logged_in, exits, Stepped, refuses, without_user,
  check_login_fails, handle_pass_command, is_anonymous, userlist_refuses, ask_password,
  handle_user_command,
}
use checkedc_vsftpd.Prelogin.Commands.{Answer, handle_opts, handle_auth, handle_pbsz, handle_prot}
use checkedc_vsftpd.Prelogin.Loop.{
  ftp_command, prelogin_command, Input, Ran, with_attempt, continues, parse_username_password,
  check_limits, Arrival, new_session, turned_away, greeted, init_connection,
}

-- Must a user of this name log in over TLS?
abbrev pub needs_tls : Tunables → Bytes → Bool
needs_tls t user =
    t.bools (codes "ssl_enable")
    && (if is_anonymous user
        then t.bools (codes "force_anon_logins_ssl")
        else t.bools (codes "force_local_logins_ssl"))

-- The policy of the configuration and of the list of users, for a name and a connection.
abbrev pub Cleared : Tunables → Bytes → Bytes → Bool → Type 0
Cleared t list user secure =
    ((is_anonymous user ≡ true) ⊎ (t.bools (codes "local_enable") ≡ true))
    × (userlist_refuses t list user ≡ false)
    × ((needs_tls t user ≡ false) ⊎ (secure ≡ true))

abbrev pub Admissible : Tunables → Bytes → Attempt → Type 0
Admissible t list a = (str_isempty a.user ≡ false) × Cleared t list a.user a.secure

abbrev pub AdmissibleIf : Tunables → Bytes → Option Attempt → Type 0
AdmissibleIf t list none = Unit
AdmissibleIf t list (some a) = Admissible t list a

-- What a session keeps between two commands.
abbrev pub IsSession : Tunables → Bytes → Session → Type 0
IsSession t list st =
    (st.userlist_str ≡ list) × ((st.user_str ≡ []) ⊎ Cleared t list st.user_str st.control_use_ssl)

abbrev pub IsSessionIf : Tunables → Bytes → Next → Session → Type 0
IsSessionIf t list goes_on st = IsSession t list st
IsSessionIf t list logged_in st = Unit
IsSessionIf t list (exits n) st = Unit

record Keeps (t : Tunables) (list : Bytes) (r : Stepped) : Type 0 where
  attempted : AdmissibleIf t list r.attempt
  kept : IsSessionIf t list r.next r.session

module _ (t : Tunables) (list : Bytes) where
  keeps :
      {r : Stepped}
      → AdmissibleIf t list r.attempt
      → IsSessionIf t list r.next r.session
      → Keeps t list r
  keeps a h = record { attempted = a; kept = h }

  pick :
      (b : Bool) (x y : Stepped)
      → Keeps t list x
      → (b ≡ false → Keeps t list y)
      → Keeps t list (if b then x else y)
  pick true x y h k = h
  pick false x y h k = k refl

  refuses-Keeps :
      (text : Bytes) (tried : Option Attempt) (st : Session)
      → st.userlist_str ≡ list
      → AdmissibleIf t list tried
      → Keeps t list (refuses text tried (check_login_fails t st))
  unfolding check_login_fails
  refuses-Keeps text tried st e h =
      keeps h (still (leb (t.uints (codes "max_login_fails")) ((st.login_fails + 1) % 2 ^ 32)))
    where
      still :
          (b : Bool)
          → IsSessionIf t list
              (if b then exits 1 else goes_on)
              (without_user (record st { login_fails = (st.login_fails + 1) % 2 ^ 32 }))
      still true = tt
      still false = (e, inl refl)

  nonempty : (s : Bytes) → str_isempty s ≡ false → s ≢ []
  nonempty s h e = cc

  pass-Keeps :
      (st : Session) (arg : Bytes) (accepted : Bool)
      → IsSession t list st
      → Keeps t list (handle_pass_command t st arg accepted)
  unfolding handle_pass_command
  pass-Keeps st arg accepted (e, user) = elim (Bool-cases (str_isempty st.user_str)) [
    | inl none_yet ↦ rw none_yet (keeps tt (e, user))
    | inr named ↦ rw named (elim user [
      | inl none_yet ↦ absurd (nonempty st.user_str named none_yet)
      | inr cleared ↦
          pick accepted _ _ (keeps (named, cleared) tt)
            λ _. refuses-Keeps (codes "Login incorrect.") _ st e (named, cleared)
    ])
  ]

  ask_password-Keeps :
      (st : Session) (is_anon accepted : Bool)
      → st.userlist_str ≡ list
      → (is_anonymous st.user_str ≡ true) ⊎ (t.bools (codes "local_enable") ≡ true)
      → (needs_tls t st.user_str ≡ false) ⊎ (st.control_use_ssl ≡ true)
      → Keeps t list (ask_password t st is_anon accepted)
  unfolding ask_password
  ask_password-Keeps st is_anon accepted e who tls =
      elim (Bool-cases (userlist_refuses t st.userlist_str st.user_str)) [
        | inl listed ↦ rw listed (refuses-Keeps (codes "Permission denied.") none st e tt)
        | inr free ↦
            let session : IsSession t list st = (e, inr (who, (rw e at free), tls)) in
            rw free (
              pick (is_anon && t.bools (codes "no_anon_password")) _ _
                (pass-Keeps st (codes "<no password>") accepted session) (λ _. keeps tt session))
      ]

  user-Keeps :
      (st : Session) (arg : Bytes) (accepted : Bool)
      → st.userlist_str ≡ list
      → Keeps t list (handle_user_command t st arg accepted)
  unfolding handle_user_command
  user-Keeps st arg accepted e =
      let anon = is_anonymous arg in
      let secure = st.control_use_ssl in
      let forgotten : IsSession t list (without_user (record st { user_str = arg })) =
        (e, inl refl) in
      pick (not (t.bools (codes "local_enable")) && not anon) _ _ (keeps tt forgotten) λ no_guard.
        pick
          (anon
            && (secure
                && (not (t.bools (codes "allow_anon_ssl"))
                    && not (t.bools (codes "force_anon_logins_ssl")))))
          _ _ (keeps tt forgotten)
          λ _.
            pick
              (t.bools (codes "ssl_enable")
                && (not anon && (not secure && t.bools (codes "force_local_logins_ssl"))))
              _ _ (keeps tt tt)
              λ local_tls.
                pick
                  (t.bools (codes "ssl_enable")
                    && (anon && (not secure && t.bools (codes "force_anon_logins_ssl"))))
                  _ _ (keeps tt tt)
                  λ anon_tls.
                    ask_password-Keeps (record st { user_str = arg }) anon accepted e
                      (who anon (t.bools (codes "local_enable")) no_guard)
                      (tls (t.bools (codes "ssl_enable")) anon secure
                        (t.bools (codes "force_local_logins_ssl"))
                        (t.bools (codes "force_anon_logins_ssl")) local_tls anon_tls)
    where
      who : (anon local : Bool) → (not local && not anon) ≡ false → (anon ≡ true) ⊎ (local ≡ true)
      who anon local h = ground arith

      tls :
          (ssl anon secure local_tls anon_tls : Bool)
          → (ssl && (not anon && (not secure && local_tls))) ≡ false
          → (ssl && (anon && (not secure && anon_tls))) ≡ false
          → ((ssl && (if anon then anon_tls else local_tls)) ≡ false) ⊎ (secure ≡ true)
      tls ssl anon secure local_tls anon_tls h k = ground arith

  -- A session that only turned TLS on, or changed the protection of the data.
  safer :
      (st : Session) (secure data_tls : Bool)
      → (st.control_use_ssl ≡ true → secure ≡ true)
      → IsSession t list st
      → IsSession t list (record st { control_use_ssl = secure; data_use_ssl = data_tls })
  safer st secure data_tls on (e, inl none_yet) = (e, inl none_yet)
  safer st secure data_tls on (e, inr (who, free, inl plain)) = (e, inr (who, free, inl plain))
  safer st secure data_tls on (e, inr (who, free, inr tls)) = (e, inr (who, free, inr (on tls)))

  opts-Keeps :
      (st : Session) (arg : Bytes) → IsSession t list st → Keeps t list (handle_opts st arg)
  unfolding handle_opts
  opts-Keeps st arg h =
      pick (str_equal_text (map to_upper arg) (codes "UTF8 ON")) _ _ (keeps tt h) λ _. keeps tt h

  auth-Keeps :
      (st : Session) (arg : Bytes) (a : Answer)
      → IsSession t list st
      → Keeps t list (handle_auth st arg a)
  unfolding handle_auth
  auth-Keeps st arg a h =
      let name = map to_upper arg in
      let data_tls =
        str_equal_text name (codes "SSL")
        || (str_equal_text name (codes "TLS-P") || st.data_use_ssl) in
      pick
        (str_equal_text name (codes "TLS")
          || (str_equal_text name (codes "TLS-C")
              || (str_equal_text name (codes "SSL") || str_equal_text name (codes "TLS-P"))))
        _ _
        (pick a.negotiated _ _ (keeps tt (safer st true data_tls (λ _. refl) h)) λ _. keeps tt tt)
        λ _. keeps tt h

  pbsz-Keeps : (st : Session) → IsSession t list st → Keeps t list (handle_pbsz st)
  unfolding handle_pbsz
  pbsz-Keeps st h = pick st.control_use_ssl _ _ (keeps tt h) λ _. keeps tt h

  prot-Keeps :
      (st : Session) (arg : Bytes) → IsSession t list st → Keeps t list (handle_prot st arg)
  unfolding handle_prot
  prot-Keeps st arg h =
      let level = map to_upper arg in
      let same : st.control_use_ssl ≡ true → st.control_use_ssl ≡ true = λ e. e in
      pick st.control_use_ssl _ _
        (pick (str_equal_text level (codes "C")) _ _
          (keeps tt (safer st st.control_use_ssl false same h))
          λ _.
            pick (str_equal_text level (codes "P")) _ _
              (keeps tt (safer st st.control_use_ssl true same h))
              λ _.
                pick (str_equal_text level (codes "S") || str_equal_text level (codes "E")) _ _
                  (keeps tt h) λ _. keeps tt h)
        λ _. keeps tt h

  command-Keeps :
      (st : Session) (cmd arg : Bytes) (a : Answer)
      → IsSession t list st
      → Keeps t list (ftp_command t st cmd arg a)
  unfolding ftp_command
  command-Keeps st cmd arg a h =
      pick (str_equal_text cmd (codes "USER")) _ _ (user-Keeps st arg a.accepted h.0) λ _.
        pick (str_equal_text cmd (codes "PASS")) _ _ (pass-Keeps st arg a.accepted h) λ _.
          pick (str_equal_text cmd (codes "QUIT")) _ _ (keeps tt tt) λ _.
            pick (str_equal_text cmd (codes "FEAT")) _ _ (keeps tt h) λ _.
              pick (str_equal_text cmd (codes "OPTS")) _ _ (opts-Keeps st arg h) λ _.
                pick
                  (t.bools (codes "ssl_enable")
                    && (str_equal_text cmd (codes "AUTH") && not st.control_use_ssl))
                  _ _ (auth-Keeps st arg a h)
                  λ _.
                    pick (t.bools (codes "ssl_enable") && str_equal_text cmd (codes "PBSZ")) _ _
                      (pbsz-Keeps st h)
                      λ _.
                        pick (t.bools (codes "ssl_enable") && str_equal_text cmd (codes "PROT")) _ _
                          (prot-Keeps st arg h)
                          λ _.
                            pick (str_isempty cmd && str_isempty arg) _ _ (keeps tt h)
                              λ _. keeps tt h

  first :
      (tried : Option Attempt) (r : Ran)
      → AdmissibleIf t list tried
      → All (Admissible t list) r.attempts
      → All (Admissible t list) (with_attempt tried r).attempts
  first none r a all = all
  first (some tried) r a all = (a, all)

  continued :
      (tried : Option Attempt) (n : Next) (st : Session) (replies : List Reply)
      (rest : Session → Ran)
      → AdmissibleIf t list tried
      → IsSessionIf t list n st
      → (IsSession t list st → All (Admissible t list) (rest st).attempts)
      → All
          (Admissible t list)
          (continues
            (record { session = st; replies = replies; attempt = tried; next = n })
            rest).attempts
  continued tried goes_on st replies rest a h k = first tried (rest st) a (k h)
  continued tried logged_in st replies rest a h k = first tried _ a tt
  continued tried (exits n) st replies rest a h k = first tried _ a tt

  run_admissible :
      (st : Session) (is : List Input)
      → t.bools (codes "ftp_enable") ≡ true
      → IsSession t list st
      → All (Admissible t list) (parse_username_password t st is).attempts
  unfolding parse_username_password
  run_admissible st [] ftp h = tt
  run_admissible st (i ∷ is) ftp h =
      let r = ftp_command t st i.cmd i.arg i.answer in
      let k = command-Keeps st i.cmd i.arg i.answer h in
      let by_ftp : prelogin_command t st i.cmd i.arg i.answer ≡ r =
        unfold prelogin_command in rw ftp refl in
      subst
        (λ r.
          All (Admissible t list) (continues r (λ st'. parse_username_password t st' is)).attempts)
        (sym by_ftp)
        (continued r.attempt r.next r.session r.replies (λ st'. parse_username_password t st' is)
          k.attempted k.kept (λ h'. run_admissible r.session is ftp h'))

-- With FTP enabled, every login that is tried on a new connection, with implicit TLS or without,
-- over all its commands and whatever the limits, the login function and the handshakes answer, is
-- for a name that is not empty, that is anonymous or that the configuration lets log in locally,
-- that the list of users does not refuse, and that need not use TLS, or the connection uses it.
pub attempts-Admissible :
    (t : Tunables) (userlist : Bytes) (a : Arrival) (is : List Input)
    → t.bools (codes "ftp_enable") ≡ true
    → All (Admissible t userlist) (init_connection t a (new_session userlist) is).attempts
unfolding init_connection
attempts-Admissible t userlist a is ftp =
    admitted (check_limits t a.num_clients a.num_this_ip a.tcp_wrapper_ok)
  where
    shaken :
        (implicit negotiated : Bool)
        → All
            (Admissible t userlist)
            (if implicit
              then (if negotiated
                  then parse_username_password t
                      (record (new_session userlist) { control_use_ssl = true })
                      is
                  else turned_away (new_session userlist))
              else parse_username_password t (new_session userlist) is).attempts
    shaken true true = run_admissible t userlist _ is ftp (refl, inl refl)
    shaken true false = tt
    shaken false negotiated = run_admissible t userlist _ is ftp (refl, inl refl)

    admitted :
        (o : Option Reply)
        → All
            (Admissible t userlist)
            (elim o as (λ _. Ran) [
              | some refusal ↦ turned_away (new_session userlist)
              | none ↦ greeted t a (new_session userlist) is
            ]).attempts
    admitted (some refusal) = tt
    admitted none =
        shaken (t.bools (codes "ssl_enable") && t.bools (codes "implicit_ssl")) a.negotiated
