-- ===== src/Login/Clean.antt =====
-- privops.c, handle_login: what the authentication of the system gets to see, and who logs in.
use checkedc_vsftpd.Base.{
  ℕ, ◌≤◌, ◌<◌, ◌≡◌, refl, sym, ◌∙◌, ◌⊎◌, inl, inr, Bool, true, false, not, ◌&&◌, ◌||◌, [], ◌∷◌,
  arith, ltb, ◌==◌, Bool-cases, Bytes, codes, length,
}
use checkedc_vsftpd.Run.{Run, Fault, ok, fault}
use checkedc_vsftpd.Text.{
  is_space, is_print, str_isempty, str_contains_space, str_contains_unprintable,
}
use checkedc_vsftpd.Parseconf.{Tunables}
use checkedc_vsftpd.Postpriv.Policy.{All}
use checkedc_vsftpd.Prelogin.{is_anonymous}
use checkedc_vsftpd.Login.{
  LoginResult, login_fail, login_anon, login_real, Visitor, Authenticator, listed, good_start,
  handle_anonymous_login, handle_local_login, login_kind, handle_login, vsf_privop_do_login,
  vsftp_username_max, vsftp_password_max,
}

-- Names and passwords that are fit for the system: of 1 to 128 printable bytes without spaces, the
-- first a letter, a digit, `_` or `.`, and of at most 128 bytes.
abbrev pub IsClean : Bytes → Bytes → Type 0
IsClean user pass =
    (0 < length user)
    × (length user ≤ 128)
    × (good_start user ≡ true)
    × All (λ c. (is_space c ≡ false) × (is_print c ≡ true)) user
    × (length pass ≤ 128)

no_or : (a b : Bool) → (a || b) ≡ false → (a ≡ false) × (b ≡ false)
no_or a b h = ground arith

printable :
    (s : Bytes)
    → str_contains_space s ≡ false
    → str_contains_unprintable s ≡ false
    → All (λ c. (is_space c ≡ false) × (is_print c ≡ true)) s
unfolding str_contains_space str_contains_unprintable
printable [] h k = tt
printable (c ∷ s) h k = elim (Bool-cases (is_space c)) [
  | inl e ↦ absurd (true≢false (rw e at h))
  | inr e ↦ elim (Bool-cases (is_print c)) [
    | inl e' ↦ ((e, e'), printable s (rw e at h) (rw e' at k))
    | inr e' ↦ absurd (true≢false (rw e' at k))
  ]
]
  where
    true≢false : true ≡ false → ⊥
    true≢false h = cc

-- Either the login is refused at once, or the name and the password are clean.
gate :
    (t : Tunables) (a : Authenticator) (v : Visitor) (pass : Bytes)
    → (handle_login t a v pass ≡ ok (login_fail, v))
      ⊎ IsClean v.user_str pass
        × ((b : Authenticator) → handle_login t b v pass ≡ login_kind t b v pass)
unfolding handle_login
gate t a v pass =
    elim (Bool-cases (length v.user_str == 0 || ltb vsftp_username_max (length v.user_str))) [
      | inl e ↦ inl (rw e refl)
      | inr size ↦ elim (Bool-cases (good_start v.user_str)) [
        | inr e ↦ inl (rw (size, e) refl)
        | inl start ↦
            elim (Bool-cases
              (str_contains_space v.user_str || str_contains_unprintable v.user_str)) [
                | inl e ↦ inl (rw (size, start, e) refl)
                | inr chars ↦ elim (Bool-cases (ltb vsftp_password_max (length pass))) [
                  | inl e ↦ inl (rw (size, start, chars, e) refl)
                  | inr short ↦
                      let (spaces, others) =
                        no_or (str_contains_space v.user_str) (str_contains_unprintable v.user_str)
                          chars in
                      let (some_name, name_fits) = sizes (length v.user_str) size in
                      inr (
                        (
                          some_name,
                          name_fits,
                          start,
                          printable v.user_str spaces others,
                          fits (length pass) short,
                        ),
                        λ b. rw (size, start, chars, short) refl,
                      )
                ]
              ]
      ]
    ]
  where
    sizes : (n : ℕ) → (n == 0 || ltb 128 n) ≡ false → (0 < n) × (n ≤ 128)
    sizes n h = ground arith

    fits : (n : ℕ) → ltb 128 n ≡ false → n ≤ 128
    fits n h = ground arith

-- The authentication of the system sees clean names and passwords only: two that answer alike for
-- this name and password if they are clean give the same login.
pub do_login-IsClean :
    (t : Tunables) (v : Visitor) (pass : Bytes) (a b : Authenticator)
    → (IsClean v.user_str pass
        → a v.user_str pass v.remote_ip_str ≡ b v.user_str pass v.remote_ip_str)
    → vsf_privop_do_login t a v pass ≡ vsf_privop_do_login t b v pass
unfolding vsf_privop_do_login
do_login-IsClean t v pass a b agree = elim (gate t a v pass) [
  | inl e ↦ elim (gate t b v pass) [
    | inl e' ↦ e ∙ sym e'
    | inr (clean, run) ↦ run a ∙ alike clean ∙ sym (run b)
  ]
  | inr (clean, run) ↦ run a ∙ alike clean ∙ sym (run b)
]
  where
    alike : IsClean v.user_str pass → login_kind t a v pass ≡ login_kind t b v pass
    alike clean = unfold login_kind handle_local_login in rw (agree clean) refl

-- What a result of a login says.
abbrev pub Earned :
    Tunables → Authenticator → Visitor → Bytes → Run (LoginResult × Visitor) → Type 0
Earned t a v pass (fault e) = (e ≡ Fault.die) × (t.bools (codes "local_enable") ≡ false)
Earned t a v pass (ok (login_fail, v')) = v' ≡ v
Earned t a v pass (ok (login_real, v')) =
    IsClean v.user_str pass
    × (a v.user_str pass v.remote_ip_str ≡ true)
    × (t.bools (codes "local_enable") ≡ true)
    × ((t.bools (codes "anonymous_enable") && is_anonymous v.user_str) ≡ false)
    × (v' ≡ v)
Earned t a v pass (ok (login_anon, v')) =
    IsClean v.user_str pass
    × (t.bools (codes "anonymous_enable") ≡ true)
    × (is_anonymous v.user_str ≡ true)
    × ((str_isempty v.banned_email_str ≡ true) ⊎ (listed v.banned_email_str pass ≡ false))
    × ((str_isempty v.email_passwords_str ≡ true) ⊎ (listed v.email_passwords_str pass ≡ true))

both : (x y : Bool) → (x && y) ≡ true → (x ≡ true) × (y ≡ true)
both x y h = ground arith

not_banned :
    (none_given hit : Bool) → (not none_given && hit) ≡ false → (none_given ≡ true) ⊎ (hit ≡ false)
not_banned none_given hit h = ground arith

is_listed :
    (none_given hit blank : Bool)
    → (not none_given && (not hit || blank)) ≡ false
    → (none_given ≡ true) ⊎ (hit ≡ true)
is_listed none_given hit blank h = ground arith

kind-Earned :
    (t : Tunables) (a : Authenticator) (v : Visitor) (pass : Bytes)
    → IsClean v.user_str pass
    → Earned t a v pass (login_kind t a v pass)
unfolding login_kind handle_anonymous_login handle_local_login
kind-Earned t a v pass clean =
    elim (Bool-cases (t.bools (codes "anonymous_enable") && is_anonymous v.user_str)) [
      | inl e ↦
          let (on, anon) = both (t.bools (codes "anonymous_enable")) (is_anonymous v.user_str) e in
          rw e
            (elim (Bool-cases
              (not (str_isempty v.banned_email_str) && listed v.banned_email_str pass)) [
                | inl banned ↦ rw banned refl
                | inr free ↦
                    rw free
                      (elim (Bool-cases (
                        not (str_isempty v.email_passwords_str)
                        && (not (listed v.email_passwords_str pass) || str_isempty pass))) [
                          | inl other ↦ rw other refl
                          | inr given ↦ rw given (
                            clean,
                            on,
                            anon,
                            not_banned (str_isempty v.banned_email_str)
                                (listed v.banned_email_str pass) free,
                            is_listed (str_isempty v.email_passwords_str)
                                (listed v.email_passwords_str pass) (str_isempty pass) given,
                          )
                        ])
              ])
      | inr named ↦ rw named (elim (Bool-cases (t.bools (codes "local_enable"))) [
        | inr off ↦ rw off (refl, off)
        | inl on ↦ rw on (elim (Bool-cases (a v.user_str pass v.remote_ip_str)) [
          | inl passed ↦ rw passed (clean, passed, on, named, refl)
          | inr failed ↦ rw failed refl
        ])
      ])
    ]

-- A local login has passed the authentication of the system, with a clean name and password,
-- where the configuration has local users and the name is not anonymous or may not log in so; an
-- anonymous one has an anonymous name where these may log in, a clean name and password, a
-- password that is not banned, and one of the list where there is one. A failed login changes
-- nothing, and the process dies only where there are no local users.
pub do_login-Earned :
    (t : Tunables) (a : Authenticator) (v : Visitor) (pass : Bytes)
    → Earned t a v pass (vsf_privop_do_login t a v pass)
unfolding vsf_privop_do_login
do_login-Earned t a v pass = elim (gate t a v pass) [
  | inl e ↦ rw e refl
  | inr (clean, run) ↦ rw (run a) (kind-Earned t a v pass clean)
]
