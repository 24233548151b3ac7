-- ===== src/Ascii.antt =====
-- ascii.c: the two conversions of ASCII transfers.
pub mod Chunks
pub mod Receive
use checkedc_vsftpd.Base.{
  ℕ, zero, suc, ◌+◌, ◌-◌, Bool, true, false, not, ◌&&◌, ◌||◌, Option, none, some, List, [], ◌∷◌,
  ◌++◌, leb, ltb, ◌==◌, if◌then◌else◌, Bytes, length, get_elem?, write_at,
}
use checkedc_vsftpd.Run.{Run, Fault, ok, fault, ◌>>=◌}

abbrev pub cr : ℕ
cr = b'\r'

abbrev pub lf : ℕ
lf = b'\n'

-- One round of the loop: what it stores for `the_char` behind `last_char`.
unfoldable pub bin_byte : ℕ → ℕ → Bytes
bin_byte last_char the_char =
    if the_char == lf && not (last_char == cr) then cr ∷ the_char ∷ [] else the_char ∷ []

-- The loop from `last_char` and `ret.last_was_cr`: all that it stores, and the flag at its end.
unfoldable pub bin_loop : ℕ → Bool → Bytes → Bytes × Bool
unfolding bin_byte
bin_loop last_char last_was_cr [] = ([], last_was_cr)
bin_loop last_char last_was_cr (the_char ∷ rest) =
    let (out, flag) = bin_loop the_char (the_char == cr) rest in
    (bin_byte last_char the_char ++ out, flag)

-- `stored` is the length of what is stored at the front of `p_buf`.
unfoldable pub vsf_ascii_bin_to_ascii : Bytes → Bool → Bytes × Bool
unfolding bin_loop
vsf_ascii_bin_to_ascii p_in prev_cr = bin_loop (if prev_cr then cr else 0) prev_cr p_in

-- `vsf_ascii_ascii_to_bin` works in place: the bytes of the caller's array, the write position
-- (null is `none`) and the counters.
pub record UploadState : Type 0 where
  pub buf : Bytes
  pub p_out : Option ℕ
  pub indexx : ℕ
  pub written : ℕ
  pub last_was_cr : Bool

-- An access to the array at `i`, under the declared bounds `lo` and `hi`. With `checked` false
-- they are not tested, as by a C compiler, and only the array itself counts.
unfoldable pub read_at : Bool → ℕ → ℕ → Bytes → ℕ → Run ℕ
read_at checked lo hi buf i =
    if checked && (ltb i lo || leb hi i)
    then fault Fault.bounds
    else elim (get_elem? buf i) [ none ↦ fault Fault.bounds | some c ↦ ok c ]

unfoldable pub write_byte : Bool → ℕ → ℕ → Bytes → ℕ → ℕ → Run Bytes
write_byte checked lo hi buf i c =
    if (checked && (ltb i lo || leb hi i)) || leb (length buf) i
    then fault Fault.bounds
    else ok (write_at buf i (c ∷ []))

-- `*p_out++ = the_char; written++;`, where `p_out` has the bounds (p_buf + 1, p_buf + in_len).
unfoldable pub put : Bool → ℕ → UploadState → ℕ → Run UploadState
put checked in_len u c = elim u.p_out [
  | none ↦ fault Fault.bounds
  | some i ↦ write_byte checked 1 in_len u.buf i c >>= λ buf'.
      ok (record u { buf = buf'; p_out = some (i + 1); written = u.written + 1 })
]

abbrev pub next_index : UploadState → UploadState
next_index u = record u { indexx = u.indexx + 1 }

unfoldable pub upload_step : Bool → ℕ → UploadState → Run UploadState
upload_step checked in_len u = read_at checked 0 in_len u.buf (u.indexx + 1) >>= λ the_char.
    if not (the_char == cr)
    then put checked in_len u the_char >>= (λ u'. ok (next_index u'))
    else if u.indexx == in_len - 1
    then ok (next_index (record u { last_was_cr = true }))
    else read_at checked 0 in_len u.buf (u.indexx + 2) >>= λ the_next.
        if not (the_next == lf)
        then put checked in_len u the_char >>= (λ u'. ok (next_index u'))
        else ok (next_index u)

-- `while (indexx < in_len)`, by the rounds left.
unfoldable pub upload_loop : Bool → ℕ → ℕ → UploadState → Run UploadState
upload_loop checked in_len zero u = ok u
upload_loop checked in_len (suc rounds) u =
    upload_step checked in_len u >>= λ u'. upload_loop checked in_len rounds u'

abbrev pub start : Bytes → Option ℕ → UploadState
start buf p = record { buf = buf; p_out = p; indexx = 0; written = 0; last_was_cr = false }

-- The test in front of the loop reads `p_out[0]`, where `p_out` is still null.
unfoldable pub upload_start : Bool → ℕ → Bytes → Bool → Run UploadState
upload_start checked in_len buf prev_cr =
    if prev_cr
    then if in_len == 0
      then write_byte checked 0 in_len buf 0 cr
        >>= (λ buf'. ok (record (start buf' (some 0)) { written = 1 }))
      else fault Fault.bounds
    else ok (start buf (some 1))

-- The counters are `stored` and `last_was_cr`, and `p_out` is what is returned as `p_buf`.
unfoldable pub vsf_ascii_ascii_to_bin : Bool → Bytes → ℕ → Bool → Run UploadState
vsf_ascii_ascii_to_bin checked buf in_len prev_cr =
    upload_start checked in_len buf prev_cr >>= λ u. upload_loop checked in_len in_len u
