-- ===== src/Number/Print.antt =====
-- sysutil.c, vsf_sysutil_ulong_to_str, which prints with `%lu`.
use checkedc_vsftpd.Base.{
  ℕ, zero, suc, ◌+◌, ◌/◌, ◌%◌, ◌^◌, ◌<◌, ◌≡◌, refl, ap, ◌∙◌, inl, inr, true, false, [], ◌∷◌, arith,
  ltb, if◌then◌else◌, Bool-cases, Bytes, ltb→lt,
}
use checkedc_vsftpd.Number.Decimal.{all_digits, decimal}
use checkedc_vsftpd.Text.Split.{has_byte}

-- The digits of `n` in front of `out`, on fuel.
unfoldable pub print_digits : ℕ → ℕ → Bytes → Bytes
print_digits zero n out = out
print_digits (suc fuel) n out =
    let rest = print_digits fuel (n / 10) ((b'0' + n % 10) ∷ out) in
    if ltb n 10 then (b'0' + n) ∷ out else rest

-- 20 digits are enough for 64 bits.
unfoldable pub vsf_sysutil_ulong_to_str : ℕ → Bytes
vsf_sysutil_ulong_to_str n = print_digits 20 n []

decimal-print_digits :
    (fuel n : ℕ) (out : Bytes) → n < 10 ^ fuel → decimal 0 (print_digits fuel n out) ≡ decimal n out
unfolding print_digits
decimal-print_digits zero n out h = ap (λ m. decimal m out) (omega arith)
decimal-print_digits (suc fuel) n out h = elim (Bool-cases (ltb n 10)) [
  | inl e ↦ rw e (ap (λ m. decimal m out) (omega arith))
  | inr e ↦ rw e (
      decimal-print_digits fuel (n / 10) ((b'0' + n % 10) ∷ out) (omega arith)
      ∙ ap (λ m. decimal m out) (omega arith))
]

-- Only digits are put in front of `out`.
digits-print_digits :
    (fuel n : ℕ) (out : Bytes) → all_digits (print_digits fuel n out) ≡ all_digits out
unfolding print_digits
digits-print_digits zero n out = refl
digits-print_digits (suc fuel) n out = elim (Bool-cases (ltb n 10)) [
  | inl e ↦ rw e (digit n (ltb→lt n 10 e) out)
  | inr e ↦
      rw e (
        digits-print_digits fuel (n / 10) ((b'0' + n % 10) ∷ out)
        ∙ digit (n % 10) (omega arith) out)
]
  where
    digit : (d : ℕ) → d < 10 → (s : Bytes) → all_digits ((b'0' + d) ∷ s) ≡ all_digits s
    digit d h s = ground arith

-- A number of at most 64 bits is printed in digits that read back as the number.
pub ulong_to_str-decimal :
    (n : ℕ)
    → n < 2 ^ 64
    → (all_digits (vsf_sysutil_ulong_to_str n) ≡ true)
      × (decimal 0 (vsf_sysutil_ulong_to_str n) ≡ n)
unfolding vsf_sysutil_ulong_to_str
ulong_to_str-decimal n h = (digits-print_digits 20 n [], decimal-print_digits 20 n [] (omega arith))

-- Digits hold no byte below `0`.
pub all_digits-has_byte :
    (c : ℕ) (s : Bytes) → c < b'0' → all_digits s ≡ true → has_byte c s ≡ false
all_digits-has_byte c [] low h = refl
all_digits-has_byte c (x ∷ s) low h = ground (arith, all_digits-has_byte c s)
