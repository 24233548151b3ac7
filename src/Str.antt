-- ===== src/Str.antt =====
-- The string type of str.h, and the functions of str.c that own its buffer.
--
-- `p_buf` is the allocated array: `alloc_bytes` bytes and the terminator that the port adds behind
-- them. `junk` is what memory fresh from malloc or realloc holds (one byte, any), and malloc
-- itself does not fail. An `unsigned int` is 32 bits. The objects of one call are distinct.
pub mod Valid
pub mod Alloc
pub mod Grow
pub mod Edit
pub mod Cut
use checkedc_vsftpd.Base.{
  ℕ, zero, suc, ◌+◌, ◌-◌, ◌%◌, ◌^◌, ◌||◌, not, Option, none, some, List, [], ◌∷◌, ◌++◌, ltb, leb,
  ◌==◌, if◌then◌else◌, Bytes, length, take, replicate, write_at,
}
use checkedc_vsftpd.Run.{Run, ok, fault, Fault, ◌>>=◌}

pub record Mystr : Type 0 where
  pub p_buf : Option Bytes
  pub len : ℕ
  pub alloc_bytes : ℕ

abbrev pub init_mystr : Mystr
init_mystr = record { p_buf = none; len = 0; alloc_bytes = 0 }

abbrev pub u32_mod : ℕ
u32_mod = 2 ^ 32

abbrev pub int_max : ℕ
int_max = 0x7fff_ffff

abbrev pub add32 : ℕ → ℕ → ℕ
add32 a b = (a + b) % u32_mod

-- `a - b` on `unsigned int`.
abbrev pub sub32 : ℕ → ℕ → ℕ
sub32 a b = (a + u32_mod - b) % u32_mod

-- The content of the string: the first `len` bytes of the buffer.
abbrev pub contents : Option Bytes → ℕ → Bytes
contents none n = []
contents (some b) n = take n b

abbrev pub view : Mystr → Bytes
view s = contents s.p_buf s.len

unfoldable pub s_setbuf : Mystr → Bytes → ℕ → Run Mystr
s_setbuf s newbuf n = elim s.p_buf [
  | some _ ↦ fault Fault.bug
  | none ↦ ok (record s { p_buf = some newbuf; alloc_bytes = n })
]

unfoldable pub str_free : Mystr → Mystr
str_free s = init_mystr

-- The memcpy to `p_buf + off` and the terminator behind it, under the bounds of `p_buf` and the
-- size test of vsf_sysutil_memcpy.
unfoldable pub store : Mystr → ℕ → Bytes → Run Mystr
store s off src = elim s.p_buf [
  | none ↦ fault Fault.bounds
  | some b ↦
      if ltb s.alloc_bytes (off + length src)
      then fault Fault.bounds
      else if ltb int_max (length src)
      then fault Fault.die
      else ok (record s { p_buf = some (write_at b off (src ++ 0 ∷ [])); len = off + length src })
]

unfoldable pub vsf_sysutil_malloc : ℕ → ℕ → Run Bytes
vsf_sysutil_malloc junk size =
    if size == 0 || ltb int_max size then fault Fault.bug else ok (replicate size junk)

-- `realloc`: the old bytes, then fresh ones.
unfoldable pub vsf_sysutil_realloc : ℕ → Option Bytes → ℕ → Run Bytes
vsf_sysutil_realloc junk p_ptr size =
    if size == 0 || ltb int_max size
    then fault Fault.bug
    else ok
        (elim p_ptr [ none ↦ replicate size junk | some b ↦ take size (b ++ replicate size junk) ])

unfoldable pub private_str_alloc_memchunk : ℕ → Mystr → Bytes → Run Mystr
private_str_alloc_memchunk junk s src =
    let n = length src in
    let needed = add32 n 1 in
    if ltb needed n
    then fault Fault.bug
    else if ltb s.alloc_bytes needed
    then vsf_sysutil_malloc junk (add32 needed 1)
      >>= (λ arr. s_setbuf (str_free s) (write_at arr needed (0 ∷ [])) needed)
      >>= (λ s'. store s' 0 src)
    else store s 0 src

-- Lengthening the array behind a string to `needed` declared bytes, as `realloc` callers do.
unfoldable pub regrow : ℕ → Mystr → ℕ → Run Mystr
regrow junk s needed = vsf_sysutil_realloc junk s.p_buf (add32 needed 1) >>= λ arr.
    ok (record s { p_buf = some (write_at arr needed (0 ∷ [])); alloc_bytes = needed })

unfoldable pub private_str_append_memchunk : ℕ → Mystr → Bytes → Run Mystr
private_str_append_memchunk junk s src =
    let n = length src in
    if ltb (add32 n s.len) n || ltb (add32 (add32 n s.len) 1) (add32 n s.len)
    then fault Fault.bug
    else let needed = add32 (add32 n s.len) 1 in
      if ltb s.alloc_bytes needed
      then regrow junk s needed >>= (λ s'. store s' s'.len src)
      else store s s.len src

-- `str_trunc` may raise the length too, up to what is allocated.
unfoldable pub str_trunc : Mystr → ℕ → Run Mystr
str_trunc s trunc_len = if leb s.alloc_bytes trunc_len then fault Fault.bug else elim s.p_buf [
  | none ↦ fault Fault.bounds
  | some b ↦ ok (record s { p_buf = some (write_at b trunc_len (0 ∷ [])); len = trunc_len })
]

-- The last statement of `str_reserve`.
unfoldable pub terminate_at : Mystr → ℕ → Run Mystr
terminate_at s i = elim s.p_buf [
  | none ↦ fault Fault.bounds
  | some b ↦ ok (record s { p_buf = some (write_at b i (0 ∷ [])) })
]

unfoldable pub str_reserve : ℕ → Mystr → ℕ → Run Mystr
str_reserve junk s len =
    let res_len = add32 len 1 in
    if res_len == 0
    then fault Fault.bug
    else if ltb s.alloc_bytes res_len
    then regrow junk s res_len >>= (λ s'. terminate_at s' (res_len - 1))
    else terminate_at s (res_len - 1)

-- The buffer is there afterwards; a caller that only reads it reads `view`.
unfoldable pub str_getbuf : ℕ → Mystr → Run Mystr
str_getbuf junk s = elim s.p_buf [
  | some _ ↦ ok s
  | none ↦
      if not (s.len == 0) || not (s.alloc_bytes == 0)
      then fault Fault.bug
      else private_str_alloc_memchunk junk s []
]

unfoldable pub str_empty : ℕ → Mystr → Run Mystr
str_empty junk s = do s' ← str_getbuf junk s; str_trunc s' 0

-- The names that a run of these functions on concrete strings computes through.
unfoldable pub str_program : ℕ → Mystr → Bytes → Run Mystr
unfolding s_setbuf str_free store vsf_sysutil_malloc vsf_sysutil_realloc regrow terminate_at
    private_str_alloc_memchunk private_str_append_memchunk str_trunc str_reserve str_getbuf
    str_empty
str_program junk s src = private_str_append_memchunk junk s src
