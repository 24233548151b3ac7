-- ===== src/Number.antt =====
-- Reading numbers: sysutil.c's own readers, and `atoi` of the C library as sysutil.c calls it.
pub mod Print
pub mod Octal
pub mod Decimal
use checkedc_vsftpd.Base.{
  ℕ, zero, suc, ◌+◌, ◌-◌, ◌*◌, ◌%◌, ◌^◌, Bool, true, false, not, ◌&&◌, ◌||◌, List, [], ◌∷◌, leb,
  ltb, ◌==◌, if◌then◌else◌, Bytes, length, get_elem?, Option, some, none,
}
use checkedc_vsftpd.Str.{u32_mod}
use checkedc_vsftpd.Text.{is_digit, is_space}

-- The state of the loop: `result` and `seen_non_zero_digit`.
unfoldable pub octal_step : ℕ → ℕ × Bool → ℕ × Bool
octal_step digit (result, seen) =
    let seen' = if not (digit == b'0') then true else seen in
    (if seen' then (result * 8 % u32_mod + (digit - b'0')) % u32_mod else result, seen')

-- The loop runs over `p_str_loop`, and reads `*p_str`, the first byte, in each round.
unfoldable pub octal_loop : ℕ → Bytes → ℕ × Bool → ℕ
unfolding is_digit octal_step
octal_loop first [] state = state.0
octal_loop first (c ∷ rest) state =
    if not (is_digit first) || ltb b'7' first
    then state.0
    else octal_loop first rest (octal_step first state)

unfoldable pub vsf_sysutil_octal_to_uint : Bytes → ℕ
unfolding octal_loop
vsf_sysutil_octal_to_uint [] = 0
vsf_sysutil_octal_to_uint (c ∷ s) = octal_loop c (c ∷ s) (0, false)

-- The digits from the last to the first, with `mult` and `result`; `none` is a return of 0.
unfoldable pub filesize_loop : Bytes → ℕ → ℕ → Option ℕ
filesize_loop [] mult result = some result
filesize_loop (c ∷ back) mult result =
    if ltb c b'0' || ltb b'9' c
    then none
    else filesize_loop back (mult * 10) (result + (c - b'0') * mult)

abbrev pub reversed : Bytes → Bytes → Bytes
reversed [] out = out
reversed (c ∷ s) out = reversed s (c ∷ out)

-- At most 15 digits: no overflow of the 64 bits.
unfoldable pub vsf_sysutil_a_to_filesize_t : Bytes → ℕ
unfolding filesize_loop
vsf_sysutil_a_to_filesize_t s =
    if ltb 15 (length s)
    then 0
    else elim (filesize_loop (reversed s []) 1 0) [ none ↦ 0 | some n ↦ n ]

-- The digits at the front, as `atoi` reads them.
unfoldable pub digits_value : ℕ → Bytes → ℕ
unfolding is_digit
digits_value acc [] = acc
digits_value acc (c ∷ s) = if is_digit c then digits_value (acc * 10 + (c - b'0')) s else acc

-- The bit pattern of the `int` that a `long` of 64 bits is cast to.
abbrev pub as_int : ℕ → ℕ
as_int n = n % u32_mod

abbrev pub at_most : ℕ → ℕ → ℕ
at_most top n = if ltb top n then top else n

-- White space, a sign and digits: `(int) strtol(p, NULL, 10)`, as the manual of the Linux C library
-- has it. strtol stops at the bounds of a `long`, of 64 bits, and the cast keeps its low 32 bits.
-- The C standard says nothing of a value that is no `int`. The result is a bit pattern.
unfoldable pub atoi : Bytes → ℕ
unfolding digits_value is_space
atoi [] = 0
atoi (c ∷ s) =
    if is_space c
    then atoi s
    else if c == b'-'
    then as_int (u32_mod - as_int (at_most (2 ^ 63) (digits_value 0 s)))
    else if c == b'+'
    then as_int (at_most (2 ^ 63 - 1) (digits_value 0 s))
    else as_int (at_most (2 ^ 63 - 1) (digits_value 0 (c ∷ s)))
