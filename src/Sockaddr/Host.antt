-- ===== src/Sockaddr/Host.antt =====
-- sysutil.c, vsf_sysutil_sockaddr_addr_equal against the host that an address stands for.
use checkedc_vsftpd.Base.{
  ◌≡◌, ◌≢◌, ◌↔◌, refl, sym, ap, ◌∙◌, inl, inr, true, false, [], ◌∷◌, ◌++◌, arith, if◌then◌else◌,
  Bool-cases, Bytes, length, drop, length-drop, take-append-drop,
}
use checkedc_vsftpd.Text.{has_prefix}
use checkedc_vsftpd.Text.Find.{has_prefix-take}
use checkedc_vsftpd.Sockaddr.{
  Sockaddr, in4, in6, mapped_pattern, vsf_sysutil_sockaddr_ipv6_v4, vsf_sysutil_sockaddr_addr_equal,
}

abbrev pub IsSockaddr : Sockaddr → Type 0
IsSockaddr (in4 a) = length a ≡ 4
IsSockaddr (in6 a) = length a ≡ 16

-- The bytes of the host: an IPv6 address that carries an IPv4 one stands for that.
abbrev pub host : Sockaddr → Bytes
host (in4 a) = a
host (in6 a) = if has_prefix mapped_pattern a then drop 12 a else a

-- Texts of one length are equal when one is a prefix of the other.
has_prefix_iff : (a b : Bytes) → length a ≡ length b → (has_prefix a b ≡ true) ↔ (a ≡ b)
unfolding has_prefix
has_prefix_iff [] [] h = (λ _. refl, λ _. refl)
has_prefix_iff [] (y ∷ b) h = absurd (omega arith)
has_prefix_iff (x ∷ a) [] h = absurd (omega arith)
has_prefix_iff (x ∷ a) (y ∷ b) h = ground (arith, has_prefix_iff a b (omega arith))

mapped-take : (a : Bytes) → has_prefix mapped_pattern a ≡ true → mapped_pattern ++ drop 12 a ≡ a
mapped-take a h =
    ap (λ u. u ++ drop 12 a) (sym (has_prefix-take mapped_pattern a h).0) ∙ take-append-drop 12 a

differ : {a b : Bytes} → length a ≢ length b → a ≢ b
differ h e = h (ap length e)

absent_iff : {P : Type 0} → ¬ P → (false ≡ true) ↔ P
absent_iff n = (λ e. cc, λ p. absurd (n p))

-- Two addresses of their family's length are equal for the server exactly when they stand for the
-- same host, where an IPv6 address that carries an IPv4 one stands for that.
pub addr_equal-host :
    (p q : Sockaddr)
    → IsSockaddr p
    → IsSockaddr q
    → (vsf_sysutil_sockaddr_addr_equal p q ≡ true) ↔ (host p ≡ host q)
unfolding vsf_sysutil_sockaddr_addr_equal vsf_sysutil_sockaddr_ipv6_v4
addr_equal-host (in4 a) (in4 b) h k = has_prefix_iff a b (h ∙ sym k)
addr_equal-host (in4 a) (in6 b) h k = elim (Bool-cases (has_prefix mapped_pattern b)) [
  | inl e ↦
      let (to, from) = has_prefix_iff (drop 12 b) a (omega (arith, length-drop 12 b)) in
      rw e (λ t. sym (to t), λ t. from (sym t))
  | inr e ↦ rw e (absent_iff (differ (omega arith)))
]
addr_equal-host (in6 a) (in4 b) h k = elim (Bool-cases (has_prefix mapped_pattern a)) [
  | inl e ↦ rw e (has_prefix_iff (drop 12 a) b (omega (arith, length-drop 12 a)))
  | inr e ↦ rw e (absent_iff (differ (omega arith)))
]
addr_equal-host (in6 a) (in6 b) h k =
    let (to, from) = has_prefix_iff a b (h ∙ sym k) in
    (λ t. ap (λ u. host (in6 u)) (to t), λ t. from (same t))
  where
    same : host (in6 a) ≡ host (in6 b) → a ≡ b
    same t = elim (Bool-cases (has_prefix mapped_pattern a)) [
      | inl e ↦ elim (Bool-cases (has_prefix mapped_pattern b)) [
        | inl e' ↦
            sym (mapped-take a e)
            ∙ ap (λ u. mapped_pattern ++ u) (rw (e, e') at t)
            ∙ mapped-take b e'
        | inr e' ↦ absurd (differ (omega (arith, length-drop 12 a)) (rw (e, e') at t))
      ]
      | inr e ↦ elim (Bool-cases (has_prefix mapped_pattern b)) [
        | inl e' ↦ absurd (differ (omega (arith, length-drop 12 b)) (rw (e, e') at t))
        | inr e' ↦ rw (e, e') at t
      ]
    ]
