-- ===== src/Prelogin/Fails.antt =====
-- prelogin.c: how many logins a connection can try.
use mathlib.Core.List.{map}
use checkedc_vsftpd.Base.{
  ℕ, ◌+◌, ◌%◌, ◌^◌, ◌≤◌, ◌<◌, ◌≡◌, refl, ◌⊎◌, inl, inr, Bool, true, false, not, ◌&&◌, ◌||◌, Option,
  none, some, List, [], ◌∷◌, arith, leb, ◌==◌, if◌then◌else◌, Bool-cases, Bytes, codes, length,
}
use checkedc_vsftpd.Text.{to_upper, str_equal_text, str_isempty}
use checkedc_vsftpd.Parseconf.{Tunables}
use checkedc_vsftpd.Prelogin.{
  Session, Reply, Attempt, Next, goes_on, logged_in, exits, Stepped, says, refuses,
  check_login_fails, handle_pass_command, is_anonymous, userlist_refuses, ask_password,
  handle_user_command, ftp_loginerr,
}
use checkedc_vsftpd.Prelogin.Commands.{Answer, handle_opts, handle_auth, handle_pbsz, handle_prot}
use checkedc_vsftpd.Prelogin.Loop.{
  ftp_command, handle_get, then_exit, prelogin_command, Input, Ran, with_attempt, continues,
  parse_username_password,
}

-- The number of failures that end a connection.
abbrev pub limit : Tunables → ℕ
limit t = if t.uints (codes "max_login_fails") == 0 then 1 else t.uints (codes "max_login_fails")

abbrev count : Option Attempt → ℕ
count none = 0
count (some tried) = 1

-- A step that goes on has counted its attempt, and is below the limit.
abbrev CountedIf : Tunables → ℕ → ℕ → Next → Session → Type 0
CountedIf t fails tries goes_on st = (tries + fails ≤ st.login_fails) × (st.login_fails < limit t)
CountedIf t fails tries logged_in st = Unit
CountedIf t fails tries (exits n) st = Unit

record Counted (t : Tunables) (fails : ℕ) (r : Stepped) : Type 0 where
  counted : CountedIf t fails (count r.attempt) r.next r.session

counts :
    {t : Tunables} {fails : ℕ} {r : Stepped}
    → CountedIf t fails (count r.attempt) r.next r.session
    → Counted t fails r
counts h = record { counted = h }

pick :
    (t : Tunables) (fails : ℕ) (b : Bool) (x y : Stepped)
    → Counted t fails x
    → Counted t fails y
    → Counted t fails (if b then x else y)
pick t fails true x y h k = h
pick t fails false x y h k = k

module _ (t : Tunables) (small : t.uints (codes "max_login_fails") < 2 ^ 32) where
  refuses-Counted :
      (text : Bytes) (tried : Option Attempt) (st : Session)
      → st.login_fails < limit t
      → Counted t st.login_fails (refuses text tried (check_login_fails t st))
  unfolding check_login_fails
  refuses-Counted text tried st h =
      elim (Bool-cases (leb (t.uints (codes "max_login_fails")) ((st.login_fails + 1) % 2 ^ 32))) [
        | inl e ↦ rw e (counts tt)
        | inr e ↦ rw e (
            counts (
              below (t.uints (codes "max_login_fails")) st.login_fails (count tried) small
                (once tried) h e))
      ]
    where
      once : (o : Option Attempt) → count o ≤ 1
      once none = omega arith
      once (some a) = omega arith

      below :
          (max fails tries : ℕ)
          → max < 2 ^ 32
          → tries ≤ 1
          → fails < (if max == 0 then 1 else max)
          → leb max ((fails + 1) % 2 ^ 32) ≡ false
          → (tries + fails ≤ (fails + 1) % 2 ^ 32)
            × ((fails + 1) % 2 ^ 32 < (if max == 0 then 1 else max))
      below max fails tries small one h e = ground arith

  pass-Counted :
      (st : Session) (arg : Bytes) (accepted : Bool)
      → st.login_fails < limit t
      → Counted t st.login_fails (handle_pass_command t st arg accepted)
  unfolding handle_pass_command
  pass-Counted st arg accepted h =
      pick t st.login_fails (str_isempty st.user_str) _ _ (counts (omega arith, h)) (
        pick t st.login_fails accepted _ _ (counts tt)
          (refuses-Counted (codes "Login incorrect.") _ st h))

  same :
      (st : Session) (st' : Session) (replies : List Reply)
      → st.login_fails < limit t
      → st'.login_fails ≡ st.login_fails
      → Counted t st.login_fails
          (record { session = st'; replies = replies; attempt = none; next = goes_on })
  same st st' replies h e = counts (omega arith, omega arith)

  user-Counted :
      (st : Session) (arg : Bytes) (accepted : Bool)
      → st.login_fails < limit t
      → Counted t st.login_fails (handle_user_command t st arg accepted)
  unfolding handle_user_command ask_password
  user-Counted st arg accepted h =
      let n = st.login_fails in
      let anon = is_anonymous arg in
      let st' : Session = record st { user_str = arg } in
      pick t n (not (t.bools (codes "local_enable")) && not anon) _ _ (same st _ _ h refl) (
        pick t n
          (anon
            && (st.control_use_ssl
                && (not (t.bools (codes "allow_anon_ssl"))
                    && not (t.bools (codes "force_anon_logins_ssl")))))
          _ _ (same st _ _ h refl)
          (pick t n
            (t.bools (codes "ssl_enable")
              && (not anon && (not st.control_use_ssl && t.bools (codes "force_local_logins_ssl"))))
            _ _ (counts tt)
            (pick t n
              (t.bools (codes "ssl_enable")
                && (anon && (not st.control_use_ssl && t.bools (codes "force_anon_logins_ssl"))))
              _ _ (counts tt)
              (pick t n (userlist_refuses t st.userlist_str arg) _ _
                (refuses-Counted (codes "Permission denied.") none st' h)
                (pick t n (anon && t.bools (codes "no_anon_password")) _ _
                  (pass-Counted st' (codes "<no password>") accepted h) (same st st' _ h refl))))))

  auth-Counted :
      (st : Session) (arg : Bytes) (a : Answer)
      → st.login_fails < limit t
      → Counted t st.login_fails (handle_auth st arg a)
  unfolding handle_auth
  auth-Counted st arg a h =
      let name = map to_upper arg in
      pick t st.login_fails
        (str_equal_text name (codes "TLS")
          || (str_equal_text name (codes "TLS-C")
              || (str_equal_text name (codes "SSL") || str_equal_text name (codes "TLS-P"))))
        _ _ (pick t st.login_fails a.negotiated _ _ (same st _ _ h refl) (counts tt))
        (same st st _ h refl)

  prot-Counted :
      (st : Session) (arg : Bytes)
      → st.login_fails < limit t
      → Counted t st.login_fails (handle_prot st arg)
  unfolding handle_prot
  prot-Counted st arg h =
      let n = st.login_fails in
      let level = map to_upper arg in
      pick t n st.control_use_ssl _ _
        (pick t n (str_equal_text level (codes "C")) _ _ (same st _ _ h refl) (
          pick t n (str_equal_text level (codes "P")) _ _ (same st _ _ h refl) (
            pick t n (str_equal_text level (codes "S") || str_equal_text level (codes "E")) _ _
              (same st st _ h refl) (same st st _ h refl))))
        (same st st _ h refl)

  command-Counted :
      (st : Session) (cmd arg : Bytes) (a : Answer)
      → st.login_fails < limit t
      → Counted t st.login_fails (ftp_command t st cmd arg a)
  unfolding ftp_command handle_opts handle_pbsz
  command-Counted st cmd arg a h =
      let n = st.login_fails in
      let ssl = t.bools (codes "ssl_enable") in
      let is : Bytes → Bool = λ name. str_equal_text cmd name in
      pick t n (is (codes "USER")) _ _ (user-Counted st arg a.accepted h) (
        pick t n (is (codes "PASS")) _ _ (pass-Counted st arg a.accepted h) (
          pick t n (is (codes "QUIT")) _ _ (counts tt) (
            pick t n (is (codes "FEAT")) _ _ (same st st _ h refl) (
              pick t n (is (codes "OPTS")) _ _
                (pick t n (str_equal_text (map to_upper arg) (codes "UTF8 ON")) _ _
                  (same st st _ h refl) (same st st _ h refl))
                (pick t n (ssl && (is (codes "AUTH") && not st.control_use_ssl)) _ _
                  (auth-Counted st arg a h)
                  (pick t n (ssl && is (codes "PBSZ")) _ _
                    (pick t n st.control_use_ssl _ _ (same st st _ h refl) (same st st _ h refl))
                    (pick t n (ssl && is (codes "PROT")) _ _ (prot-Counted st arg h) (
                      pick t n (str_isempty cmd && str_isempty arg) _ _ (same st st _ h refl)
                        (same st st _ h refl)))))))))

  ended :
      (fails tries : ℕ) (n : Next) (st : Session)
      → CountedIf t fails tries
          (elim n as (λ _. Next) [ goes_on ↦ exits 0 | logged_in ↦ logged_in | exits k ↦ exits k ])
          st
  ended fails tries goes_on st = tt
  ended fails tries logged_in st = tt
  ended fails tries (exits k) st = tt

  ended_step : (fails : ℕ) (r : Stepped) → Counted t fails (then_exit r)
  ended_step fails r = counts (ended fails (count r.attempt) r.next r.session)

  prelogin-Counted :
      (st : Session) (cmd arg : Bytes) (a : Answer)
      → st.login_fails < limit t
      → Counted t st.login_fails (prelogin_command t st cmd arg a)
  unfolding prelogin_command
  prelogin-Counted st cmd arg a h =
      pick t st.login_fails (t.bools (codes "ftp_enable")) _ _ (command-Counted st cmd arg a h) (
        pick t st.login_fails (t.bools (codes "http_enable")) _ _
          (ended_step st.login_fails (
            if str_equal_text cmd (codes "GET")
            then handle_get t st a.accepted
            else says st ftp_loginerr (codes "Bad HTTP verb.")))
          (same st st _ h refl))

-- The loop is over.
abbrev pub IsOver : Next → Type 0
IsOver goes_on = ⊥
IsOver logged_in = Unit
IsOver (exits n) = Unit

abbrev pub BoundedBy : Tunables → ℕ → Ran → Type 0
BoundedBy t fails r =
    (length r.attempts + fails < limit t) ⊎ (length r.attempts + fails ≤ limit t) × IsOver r.next

length-with_attempt :
    (tried : Option Attempt) (r : Ran)
    → length (with_attempt tried r).attempts ≡ count tried + length r.attempts
length-with_attempt none r = omega arith
length-with_attempt (some tried) r = omega arith

next-with_attempt : (tried : Option Attempt) (r : Ran) → (with_attempt tried r).next ≡ r.next
next-with_attempt none r = refl
next-with_attempt (some tried) r = refl

once : (o : Option Attempt) → count o ≤ 1
once none = omega arith
once (some a) = omega arith

bounded_step :
    (t : Tunables) (fails : ℕ) (tried : Option Attempt) (n : Next) (st : Session)
    (replies : List Reply) (rest : Session → Ran)
    → fails < limit t
    → CountedIf t fails (count tried) n st
    → (st.login_fails < limit t → BoundedBy t st.login_fails (rest st))
    → BoundedBy t fails
        (continues (record { session = st; replies = replies; attempt = tried; next = n }) rest)
bounded_step t fails tried goes_on st replies rest h (counted, low) k =
    let r = rest st in
    let size = length-with_attempt tried r in
    elim (k low) [
      | inl less ↦ inl (omega (arith, size, counted, less))
      | inr (most, over) ↦
          inr (omega (arith, size, counted, most), rw (next-with_attempt tried r) over)
    ]
bounded_step t fails tried logged_in st replies rest h c k =
    let r : Ran = record { attempts = []; session = st; next = logged_in } in
    inr (omega (arith, length-with_attempt tried r, once tried), rw (next-with_attempt tried r) tt)
bounded_step t fails tried (exits n) st replies rest h c k =
    let r : Ran = record { attempts = []; session = st; next = exits n } in
    inr (omega (arith, length-with_attempt tried r, once tried), rw (next-with_attempt tried r) tt)

-- For a connection below the limit of failures, a setting of less than 2 ^ 32, over all commands
-- and whatever the login function answers, the logins that are tried and the failures before are
-- together fewer than the limit, or at most as many and the loop is over: the process has exited,
-- or a login was accepted. A setting of 0 counts as 1.
pub attempts-BoundedBy :
    (t : Tunables) (st : Session) (is : List Input)
    → t.uints (codes "max_login_fails") < 2 ^ 32
    → st.login_fails < limit t
    → BoundedBy t st.login_fails (parse_username_password t st is)
unfolding parse_username_password
attempts-BoundedBy t st [] small h = inl (omega arith)
attempts-BoundedBy t st (i ∷ is) small h =
    let r = prelogin_command t st i.cmd i.arg i.answer in
    bounded_step t st.login_fails r.attempt r.next r.session r.replies
      (λ st'. parse_username_password t st' is) h
      (prelogin-Counted t small st i.cmd i.arg i.answer h).counted
      (λ low. attempts-BoundedBy t r.session is small low)
