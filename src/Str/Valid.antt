-- ===== src/Str/Valid.antt =====
-- What every string of the program satisfies between calls.
use checkedc_vsftpd.Base.{ℕ, ◌+◌, ◌<◌, ◌≡◌, Option, none, some, Bytes, length, get_elem?}
use checkedc_vsftpd.Run.{Run, Returns}
use checkedc_vsftpd.Str.{Mystr, int_max, view}

-- No buffer and two zeros, or a buffer of `alloc_bytes` bytes and one more, with a terminator
-- at `len`.
abbrev pub Owns : Option Bytes → ℕ → ℕ → Type 0
Owns none n alloc = (n ≡ 0) × (alloc ≡ 0)
Owns (some b) n alloc =
    (length b ≡ alloc + 1) × (n < alloc) × (alloc < int_max) × (get_elem? b n ≡ some 0)

abbrev pub IsValid : Mystr → Type 0
IsValid s = Owns s.p_buf s.len s.alloc_bytes

-- The call ends normally in a valid string with these bytes, in a buffer.
abbrev pub Yields : Run Mystr → Bytes → Type 0
Yields r bs =
    Returns r λ s. IsValid s × (view s ≡ bs) × (s.len ≡ length bs) × (s.len < s.alloc_bytes)
