-- ===== src/Str/Alloc.antt =====
-- str.c, the functions that own the buffer: filling, appending, cutting and reserving.
use checkedc_vsftpd.Base.{
  ℕ, zero, suc, ◌+◌, ◌≤◌, ◌<◌, ◌≡◌, refl, ◌∙◌, inl, inr, Option, none, some, [], ◌∷◌, ◌++◌, arith,
  ltb, le→ltb, lt→ltb, Bool-cases, Bytes, length, take, get_elem?, replicate, write_at,
  length-append, length-replicate, length-write_at, length-take, take-add-write_at,
}
use checkedc_vsftpd.Run.{ok}
use checkedc_vsftpd.Str.{
  Mystr, int_max, u32_mod, add32, store, s_setbuf, str_free, vsf_sysutil_malloc,
  private_str_alloc_memchunk,
}
use checkedc_vsftpd.Str.Valid.{IsValid, Yields, Owns}

get_elem?-write_at_end :
    (xs : Bytes) (i : ℕ) (ys : Bytes) (y : ℕ)
    → i + length ys < length xs
    → get_elem? (write_at xs i (ys ++ y ∷ [])) (i + length ys) ≡ some y
get_elem?-write_at_end [] i ys y h = elim h [ ]
get_elem?-write_at_end (x ∷ xs) zero [] y h = refl
get_elem?-write_at_end (x ∷ xs) zero (z ∷ ys) y h =
    rw (let e : 0 + suc (length ys) ≡ suc (0 + length ys) = omega arith in e)
      (get_elem?-write_at_end xs zero ys y (omega arith))
get_elem?-write_at_end (x ∷ xs) (suc i) ys y h =
    rw (let e : suc i + length ys ≡ suc (i + length ys) = omega arith in e)
      (get_elem?-write_at_end xs i ys y (omega arith))

-- With room for the bytes and the terminator, `store` writes them behind the first `off` bytes.
pub store-Yields :
    (s : Mystr) (b : Bytes) (off : ℕ) (src : Bytes)
    → s.p_buf ≡ some b
    → length b ≡ s.alloc_bytes + 1
    → off + length src < s.alloc_bytes
    → s.alloc_bytes < int_max
    → Yields (store s off src) (take off b ++ src)
unfolding store
store-Yields s b off src e room fits small =
    let inside : off + length src < length b = omega arith in
    let cut : length (take off b) ≡ off = length-take off b (omega arith) in
    (
      record s { p_buf = some (write_at b off (src ++ 0 ∷ [])); len = off + length src },
      rw (e, store)
          (rw
            (
              le→ltb s.alloc_bytes (off + length src) (omega arith),
              le→ltb int_max (length src) (omega arith),
            )
            refl),
      (
        (
          length-write_at b off (src ++ 0 ∷ []) ∙ room,
          fits,
          small,
          get_elem?-write_at_end b off src 0 inside,
        ),
        take-add-write_at b off src (0 ∷ []) (omega arith),
        omega (arith, length-append (take off b) src),
        fits,
      ),
    )

-- The lengths that malloc takes: the declared bytes, one more, and at most INT_MAX.
abbrev pub Fits : ℕ → Type 0
Fits n = n + 2 ≤ int_max

pub add32_small : (a b : ℕ) → a + b < u32_mod → add32 a b ≡ a + b
add32_small a b h = omega arith

malloc_small :
    (junk n : ℕ) → n + 1 ≤ int_max → vsf_sysutil_malloc junk (n + 1) ≡ ok (replicate (n + 1) junk)
unfolding vsf_sysutil_malloc
malloc_small junk n h = ground arith

alloc_room :
    (junk : ℕ) (s : Mystr) (src : Bytes)
    → IsValid s
    → Fits (length src)
    → length src < s.alloc_bytes
    → private_str_alloc_memchunk junk s src ≡ store s 0 src
unfolding private_str_alloc_memchunk
alloc_room junk s src v fit room =
    rw
      (
        add32_small (length src) 1 (omega arith),
        le→ltb (length src + 1) (length src) (omega arith),
        le→ltb s.alloc_bytes (length src + 1) (omega arith),
      )
      refl

fresh : ℕ → ℕ → Mystr
fresh junk n = record {
  p_buf = some (write_at (replicate (n + 1) junk) n (0 ∷ []));
  len = 0;
  alloc_bytes = n;
}

alloc_fresh :
    (junk : ℕ) (s : Mystr) (src : Bytes)
    → Fits (length src)
    → s.alloc_bytes ≤ length src
    → private_str_alloc_memchunk junk s src ≡ store (fresh junk (length src + 1)) 0 src
unfolding private_str_alloc_memchunk fresh s_setbuf str_free
alloc_fresh junk s src fit short =
    rw
      (
        add32_small (length src) 1 (omega arith),
        le→ltb (length src + 1) (length src) (omega arith),
        lt→ltb s.alloc_bytes (length src + 1) (omega arith),
        add32_small (length src + 1) 1 (omega arith),
        malloc_small junk (length src + 1) (omega arith),
      )
      refl

-- A string with room has a buffer.
pub owned :
    (s : Mystr)
    → IsValid s
    → 0 < s.alloc_bytes
    → (b : Bytes) × (s.p_buf ≡ some b) × Owns (some b) s.len s.alloc_bytes
owned s v h = go s.p_buf refl v
  where
    go :
        (o : Option Bytes)
        → s.p_buf ≡ o
        → Owns o s.len s.alloc_bytes
        → (b : Bytes) × (s.p_buf ≡ some b) × Owns (some b) s.len s.alloc_bytes
    go none e w = absurd (omega arith)
    go (some b) e w = (b, e, w)

-- Filling a valid string from `p_src`, whose length and two more bytes are at most INT_MAX, ends
-- in a valid string that holds the bytes of `p_src`, whatever it held before.
pub alloc_memchunk-Yields :
    (junk : ℕ) (s : Mystr) (src : Bytes)
    → IsValid s
    → Fits (length src)
    → Yields (private_str_alloc_memchunk junk s src) src
alloc_memchunk-Yields junk s src v fit = elim (Bool-cases (ltb s.alloc_bytes (length src + 1))) [
  | inl short ↦
      let b = write_at (replicate (length src + 1 + 1) junk) (length src + 1) (0 ∷ []) in
      rw (alloc_fresh junk s src fit (ground arith)) (
        unfold fresh in
        store-Yields (fresh junk (length src + 1)) b 0 src refl
          (length-write_at (replicate (length src + 1 + 1) junk) (length src + 1) (0 ∷ [])
            ∙ length-replicate (length src + 1 + 1) junk)
          (omega arith) (omega arith))
  | inr room ↦
      let (b, e, (long, within, small, _)) = owned s v (ground arith) in
      rw (alloc_room junk s src v fit (ground arith))
        (store-Yields s b 0 src e long (ground arith) small)
]
