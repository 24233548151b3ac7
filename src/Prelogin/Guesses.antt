-- ===== src/Prelogin/Guesses.antt =====
-- prelogin.c: a client that guesses passwords.
use checkedc_vsftpd.Base.{
  ℕ, ◌+◌, ◌%◌, ◌^◌, ◌≤◌, ◌<◌, ◌≡◌, refl, ap, ◌∙◌, inl, inr, Bool, true, false, not, ◌&&◌, some,
  List, [], ◌∷◌, arith, leb, ◌==◌, if◌then◌else◌, Bool-cases, Bytes, codes, length,
}
use checkedc_vsftpd.Text.{memcmp, str_equal_internal, str_equal_text, str_isempty}
use checkedc_vsftpd.Parseconf.{Tunables}
use checkedc_vsftpd.Prelogin.{
  Session, exits, says, refuses, check_login_fails, handle_pass_command, is_anonymous,
  userlist_refuses, ask_password, handle_user_command,
}
use checkedc_vsftpd.Prelogin.Commands.{Answer}
use checkedc_vsftpd.Prelogin.Loop.{
  ftp_command, prelogin_command, Input, Ran, continues, parse_username_password,
}
use checkedc_vsftpd.Prelogin.Fails.{limit}

-- A client that guesses passwords for a name: USER and PASS for each, all of them refused.
abbrev refused_answer : Answer
refused_answer = record { accepted = false; negotiated = false; ssl_error = [] }

abbrev pub guesses : Bytes → List Bytes → List Input
guesses name [] = []
guesses name (password ∷ more) =
    record { cmd = codes "USER"; arg = name; answer = refused_answer }
    ∷ record { cmd = codes "PASS"; arg = password; answer = refused_answer }
    ∷ guesses name more

user_asks :
    (t : Tunables) (st : Session) (name : Bytes)
    → is_anonymous name ≡ false
    → t.bools (codes "local_enable") ≡ true
    → userlist_refuses t st.userlist_str name ≡ false
    → (t.bools (codes "ssl_enable")
        && (not st.control_use_ssl && t.bools (codes "force_local_logins_ssl")))
      ≡ false
    → handle_user_command t st name false
      ≡ says (record st { user_str = name }) 331 (codes "Please specify the password.")
unfolding handle_user_command ask_password
user_asks t st name named local free tls =
    rw (named, local) (rw tls (rw (and_false (t.bools (codes "ssl_enable"))) (rw free refl)))
  where
    and_false : (b : Bool) → (b && false) ≡ false
    and_false true = refl
    and_false false = refl

user_step :
    (t : Tunables) (st : Session) (arg : Bytes) (a : Answer)
    → t.bools (codes "ftp_enable") ≡ true
    → prelogin_command t st (codes "USER") arg a ≡ handle_user_command t st arg a.accepted
unfolding prelogin_command ftp_command str_equal_text str_equal_internal memcmp
user_step t st arg a ftp = rw ftp refl

pass_step :
    (t : Tunables) (st : Session) (arg : Bytes) (a : Answer)
    → t.bools (codes "ftp_enable") ≡ true
    → prelogin_command t st (codes "PASS") arg a ≡ handle_pass_command t st arg a.accepted
unfolding prelogin_command ftp_command str_equal_text str_equal_internal memcmp
pass_step t st arg a ftp = rw ftp refl

pass_refused :
    (t : Tunables) (st : Session) (arg : Bytes)
    → str_isempty st.user_str ≡ false
    → handle_pass_command t st arg false
      ≡ refuses
          (codes "Login incorrect.")
          (some (record { user = st.user_str; password = arg; secure = st.control_use_ssl }))
          (check_login_fails t st)
unfolding handle_pass_command
pass_refused t st arg named = rw named refl

-- One guess: the failure is counted, and at the limit the process exits.
guess_step :
    (t : Tunables) (st : Session) (name password : Bytes) (rest : List Input)
    → t.bools (codes "ftp_enable") ≡ true
    → is_anonymous name ≡ false
    → t.bools (codes "local_enable") ≡ true
    → userlist_refuses t st.userlist_str name ≡ false
    → (t.bools (codes "ssl_enable")
        && (not st.control_use_ssl && t.bools (codes "force_local_logins_ssl")))
      ≡ false
    → str_isempty name ≡ false
    → (parse_username_password t st (
        record { cmd = codes "USER"; arg = name; answer = refused_answer }
        ∷ record { cmd = codes "PASS"; arg = password; answer = refused_answer }
        ∷ rest)).next
      ≡ (if leb (t.uints (codes "max_login_fails")) ((st.login_fails + 1) % 2 ^ 32)
          then exits 1
          else (parse_username_password t
              (record st { user_str = []; login_fails = (st.login_fails + 1) % 2 ^ 32 })
              rest).next)
unfolding parse_username_password check_login_fails
guess_step t st name password rest ftp named local free tls nonempty =
    let st' : Session = record st { user_str = name } in
    let go : Session → Ran = λ st'. parse_username_password t st' rest in
    let user = user_step t st name refused_answer ftp ∙ user_asks t st name named local free tls in
    let pass = pass_step t st' password refused_answer ftp ∙ pass_refused t st' password nonempty in
    ap
      (λ r.
        (continues r (λ st'.
          continues (prelogin_command t st' (codes "PASS") password refused_answer) go)).next)
      user
    ∙ ap (λ r. (continues r go).next) pass
    ∙ (elim (Bool-cases (leb (t.uints (codes "max_login_fails")) ((st.login_fails + 1) % 2 ^ 32))) [
      | inl e ↦ rw e refl
      | inr e ↦ rw e refl
    ])

-- A client that guesses passwords for one name is thrown out: when the guesses that are refused
-- and the failures before, below the limit, reach the limit, the process exits with status 1, for
-- a local name that USER takes on this connection, FTP enabled, and a limit of less than 2 ^ 32.
pub guesses_exit :
    (t : Tunables) (st : Session) (name : Bytes) (passwords : List Bytes)
    → t.bools (codes "ftp_enable") ≡ true
    → is_anonymous name ≡ false
    → t.bools (codes "local_enable") ≡ true
    → userlist_refuses t st.userlist_str name ≡ false
    → (t.bools (codes "ssl_enable")
        && (not st.control_use_ssl && t.bools (codes "force_local_logins_ssl")))
      ≡ false
    → str_isempty name ≡ false
    → t.uints (codes "max_login_fails") < 2 ^ 32
    → st.login_fails < limit t
    → limit t ≤ length passwords + st.login_fails
    → (parse_username_password t st (guesses name passwords)).next ≡ exits 1
guesses_exit t st name [] ftp named local free tls nonempty small h long = absurd (omega arith)
guesses_exit t st name (password ∷ more) ftp named local free tls nonempty small h long =
    guess_step t st name password (guesses name more) ftp named local free tls nonempty
    ∙ elim (Bool-cases (leb (t.uints (codes "max_login_fails")) ((st.login_fails + 1) % 2 ^ 32))) [
      | inl e ↦ rw e refl
      | inr e ↦
          let (low, next) = below (t.uints (codes "max_login_fails")) st.login_fails small h e in
          rw e (
            guesses_exit t
              (record st { user_str = []; login_fails = (st.login_fails + 1) % 2 ^ 32 }) name more
              ftp named local free tls nonempty small low (omega (arith, next)))
    ]
  where
    below :
        (max fails : ℕ)
        → max < 2 ^ 32
        → fails < (if max == 0 then 1 else max)
        → leb max ((fails + 1) % 2 ^ 32) ≡ false
        → ((fails + 1) % 2 ^ 32 < (if max == 0 then 1 else max))
          × ((fails + 1) % 2 ^ 32 ≡ fails + 1)
    below max fails small h e = ground arith
