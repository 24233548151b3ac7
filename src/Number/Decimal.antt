-- ===== src/Number/Decimal.antt =====
-- sysutil.c, the decimal readers and the value of digits.
use checkedc_vsftpd.Base.{
  ◌^◌, ◌<◌, ℕ, ◌+◌, ◌-◌, ◌*◌, ◌≡◌, refl, ap, ◌∙◌, inl, inr, Bool, true, false, ◌==◌, not, ◌&&◌,
  ◌||◌, [], ◌∷◌, arith, ltb, if◌then◌else◌, Bool-cases, Bytes, length, some, none,
}
use checkedc_vsftpd.Str.{u32_mod}
use checkedc_vsftpd.Text.{c_text, is_digit, is_space}
use checkedc_vsftpd.Number.{
  atoi, as_int, at_most, digits_value, filesize_loop, vsf_sysutil_a_to_filesize_t, reversed,
}

-- Are all bytes decimal digits?
abbrev pub all_digits : Bytes → Bool
all_digits [] = true
all_digits (c ∷ s) = not (ltb c b'0' || ltb b'9' c) && all_digits s

-- The value of digits, most significant first.
abbrev pub decimal : ℕ → Bytes → ℕ
decimal acc [] = acc
decimal acc (c ∷ s) = decimal (acc * 10 + (c - b'0')) s

-- The value of digits, least significant first.
abbrev backwards : Bytes → ℕ
backwards [] = 0
backwards (c ∷ s) = backwards s * 10 + (c - b'0')

filesize_loop_lem :
    (s : Bytes) (mult result : ℕ)
    → filesize_loop s mult result
      ≡ (if all_digits s then some (result + backwards s * mult) else none)
unfolding filesize_loop
filesize_loop_lem [] mult result = ap some (omega arith)
filesize_loop_lem (c ∷ s) mult result = elim (Bool-cases (ltb c b'0' || ltb b'9' c)) [
  | inl bad ↦ rw bad refl
  | inr digit ↦
      rw (digit, filesize_loop_lem s (mult * 10) (result + (c - b'0') * mult))
        (elim (Bool-cases (all_digits s)) [
          | inl e ↦ rw e (ap some (omega arith))
          | inr e ↦ rw e refl
        ])
]

backwards-reversed : (s out : Bytes) → backwards (reversed s out) ≡ decimal (backwards out) s
backwards-reversed [] out = refl
backwards-reversed (c ∷ s) out = backwards-reversed s (c ∷ out)

all_digits-reversed :
    (s out : Bytes) → all_digits (reversed s out) ≡ (all_digits s && all_digits out)
all_digits-reversed [] out = refl
all_digits-reversed (c ∷ s) out = all_digits-reversed s (c ∷ out) ∙ ground arith

-- At most 15 decimal digits are read as their value; a longer text, and one with any other byte,
-- as 0.
pub a_to_filesize_t_lem :
    (s : Bytes)
    → vsf_sysutil_a_to_filesize_t s
      ≡ (if ltb 15 (length s) then 0 else if all_digits s then decimal 0 s else 0)
unfolding vsf_sysutil_a_to_filesize_t
a_to_filesize_t_lem s =
    rw (filesize_loop_lem (reversed s []) 1 0, all_digits-reversed s [], backwards-reversed s [])
      (elim (Bool-cases (all_digits s)) [
        | inl e ↦ rw e (ap (λ n. if ltb 15 (length s) then 0 else n) (omega arith))
        | inr e ↦ rw e refl
      ])

pub c_text-digits : (s : Bytes) → all_digits s ≡ true → c_text s ≡ s
unfolding c_text
c_text-digits [] h = refl
c_text-digits (c ∷ s) h = ground (arith, c_text-digits s)

digits_value-decimal :
    (acc : ℕ) (s : Bytes) → all_digits s ≡ true → digits_value acc s ≡ decimal acc s
unfolding digits_value is_digit
digits_value-decimal acc [] h = refl
digits_value-decimal acc (c ∷ s) h = ground (arith, digits_value-decimal (acc * 10 + (c - b'0')) s)

pub atoi-decimal :
    (c : ℕ) (s : Bytes)
    → all_digits (c ∷ s) ≡ true
    → decimal 0 (c ∷ s) < u32_mod
    → atoi (c_text (c ∷ s)) ≡ decimal 0 (c ∷ s)
unfolding atoi is_space
atoi-decimal c s h small =
    let space : is_space c ≡ false = ground (arith, h) in
    let minus : c == b'-' ≡ false = ground (arith, h) in
    let plus : c == b'+' ≡ false = ground (arith, h) in
    rw (c_text-digits (c ∷ s) h, space, minus, plus, digits_value-decimal 0 (c ∷ s) h)
      (in_range (decimal 0 (c ∷ s)) small)
  where
    in_range : (n : ℕ) → n < u32_mod → as_int (at_most (2 ^ 63 - 1) n) ≡ n
    in_range n h = ground arith
