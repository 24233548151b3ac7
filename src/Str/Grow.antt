-- ===== src/Str/Grow.antt =====
-- str.c, the functions that lengthen a buffer or change its length in place.
use checkedc_vsftpd.Base.{
  ℕ, ◌+◌, ◌-◌, ◌≤◌, ◌<◌, ◌≡◌, refl, sym, ◌∙◌, subst, inl, inr, false, ◌||◌, Option, none, some, [],
  ◌∷◌, ◌++◌, arith, ltb, leb, ◌==◌, le→ltb, Bool-cases, Bytes, length, take, replicate, write_at,
  length-append, length-replicate, length-write_at, length-take, take-append, take-take,
  take-write_at_before, get_elem?-write_at,
}
use checkedc_vsftpd.Run.{Fault, ok, fault, Returns}
use checkedc_vsftpd.Str.{
  Mystr, init_mystr, int_max, view, contents, store, str_free, vsf_sysutil_realloc, regrow,
  private_str_append_memchunk, str_trunc, str_reserve, terminate_at, str_getbuf, str_empty,
}
use checkedc_vsftpd.Str.Valid.{IsValid, Yields, Owns}
use checkedc_vsftpd.Str.Alloc.{store-Yields, Fits, add32_small, owned, alloc_memchunk-Yields}

realloc_small :
    (junk : ℕ) (o : Option Bytes) (n : ℕ)
    → n + 1 ≤ int_max
    → vsf_sysutil_realloc junk o (n + 1)
      ≡ ok (elim o [
        | none ↦ replicate (n + 1) junk
        | some b ↦ take (n + 1) (b ++ replicate (n + 1) junk)
      ])
unfolding vsf_sysutil_realloc
realloc_small junk o n h = rw (size_is_fine (n + 1) (omega arith) h) refl
  where
    size_is_fine : (n : ℕ) → 0 < n → n ≤ int_max → ((n == 0) || ltb int_max n) ≡ false
    size_is_fine n p q = ground arith

-- `realloc` keeps the bytes of the string.
regrow_keeps :
    (junk : ℕ) (s : Mystr) (n : ℕ)
    → IsValid s
    → s.alloc_bytes < n
    → n + 1 ≤ int_max
    → (b : Bytes) × (regrow junk s n ≡ ok (record s { p_buf = some b; alloc_bytes = n }))
      × (length b ≡ n + 1)
      × (take s.len b ≡ view s)
      × (s.len < n)
unfolding regrow
regrow_keeps junk s n v more small = go s.p_buf refl v
  where
    go :
        (o : Option Bytes)
        → s.p_buf ≡ o
        → Owns o s.len s.alloc_bytes
        → (b : Bytes) × (regrow junk s n ≡ ok (record s { p_buf = some b; alloc_bytes = n }))
          × (length b ≡ n + 1)
          × (take s.len b ≡ contents o s.len)
          × (s.len < n)
    go none e (z, _) =
        let b = write_at (replicate (n + 1) junk) n (0 ∷ []) in
        (
          b,
          rw (add32_small n 1 (omega arith), e, realloc_small junk none n small) refl,
          length-write_at (replicate (n + 1) junk) n (0 ∷ []) ∙ length-replicate (n + 1) junk,
          rw z refl,
          omega arith,
        )
    go (some a) e (long, within, _, _) =
        let old = take (n + 1) (a ++ replicate (n + 1) junk) in
        (
          write_at old n (0 ∷ []),
          rw (add32_small n 1 (omega arith), e, realloc_small junk (some a) n small) refl,
          length-write_at old n (0 ∷ [])
              ∙ length-take (n + 1) (a ++ replicate (n + 1) junk) (
                  omega (
                    arith,
                    length-append a (replicate (n + 1) junk),
                    length-replicate (n + 1) junk,
                  )),
          take-write_at_before s.len old n (0 ∷ []) (omega arith)
              ∙ take-take s.len (n + 1) (a ++ replicate (n + 1) junk) (omega arith)
              ∙ take-append s.len a (replicate (n + 1) junk) (omega arith),
          omega arith,
        )

pub length-view : (s : Mystr) → IsValid s → length (view s) ≡ s.len
length-view s v = go s.p_buf v
  where
    go : (o : Option Bytes) → Owns o s.len s.alloc_bytes → length (contents o s.len) ≡ s.len
    go none (z, _) = sym z
    go (some b) (long, within, _, _) = length-take s.len b (omega arith)

-- Appending to a valid string, where both lengths together and two more bytes are at most
-- INT_MAX, ends in a valid string that holds the old bytes and the new ones behind them.
pub append_memchunk-Yields :
    (junk : ℕ) (s : Mystr) (src : Bytes)
    → IsValid s
    → Fits (s.len + length src)
    → Yields (private_str_append_memchunk junk s src) (view s ++ src)
unfolding private_str_append_memchunk
append_memchunk-Yields junk s src v fit =
    let n = length src in
    rw
      (
        add32_small n s.len (omega arith),
        add32_small (n + s.len) 1 (omega arith),
        le→ltb (n + s.len) n (omega arith),
        le→ltb (n + s.len + 1) (n + s.len) (omega arith),
      )
      (elim (Bool-cases (ltb s.alloc_bytes (n + s.len + 1))) [
        | inl short ↦
            let (b, e, long, same, within) =
              regrow_keeps junk s (n + s.len + 1) v (ground arith) (omega arith) in
            rw (short, e)
              (rw (← same) (
                store-Yields (record s { p_buf = some b; alloc_bytes = n + s.len + 1 }) b s.len src
                  refl long (omega arith) (omega arith)))
        | inr room ↦
            let (b, e, (long, within, small, _)) = owned s v (ground arith) in
            rw room (
              subst (λ c. Yields (store s s.len src) (contents c s.len ++ src)) (sym e)
                (store-Yields s b s.len src e long (ground arith) small))
      ])

-- Cutting a valid string to at most its length, and to less than its allocation, keeps the front.
pub str_trunc-Yields :
    (s : Mystr) (n : ℕ)
    → IsValid s
    → n < s.alloc_bytes
    → n ≤ s.len
    → Yields (str_trunc s n) (take n (view s))
unfolding str_trunc
str_trunc-Yields s n v room front =
    let (b, e, (long, within, small, _)) = owned s v (omega arith) in
    rw (le→leb_false s.alloc_bytes n room, e)
      (
        record s { p_buf = some (write_at b n (0 ∷ [])); len = n },
        refl,
        (
          (
            length-write_at b n (0 ∷ []) ∙ long,
            room,
            small,
            get_elem?-write_at b n 0 (omega arith),
          ),
          take-write_at_before n b n (0 ∷ []) (omega arith) ∙ sym (take-take n s.len b front),
          sym (length-take n (take s.len b) (rw (length-take s.len b (omega arith)) front)),
          room,
        ),
      )
  where
    le→leb_false : (a c : ℕ) → c < a → leb a c ≡ false
    le→leb_false a c h = ground arith

-- The buffer exists afterwards, with the same bytes.
pub str_getbuf-Yields : (junk : ℕ) (s : Mystr) → IsValid s → Yields (str_getbuf junk s) (view s)
unfolding str_getbuf
str_getbuf-Yields junk s v = go s.p_buf refl v
  where
    go :
        (o : Option Bytes)
        → s.p_buf ≡ o
        → Owns o s.len s.alloc_bytes
        → Yields (str_getbuf junk s) (contents o s.len)
    go none e (z, a) =
        rw (e, z, a) (alloc_memchunk-Yields junk init_mystr [] (refl, refl) (omega arith))
    go (some b) e (long, within, small, ended) =
        (s, rw e refl, (v, rw e refl, sym (length-take s.len b (omega arith)), within))

-- The string is empty afterwards, with a buffer.
pub str_empty-Yields : (junk : ℕ) (s : Mystr) → IsValid s → Yields (str_empty junk s) []
unfolding str_empty
str_empty-Yields junk s v =
    let (t, run, (valid, same, size, room)) = str_getbuf-Yields junk s v in
    rw run (str_trunc-Yields t 0 valid (omega arith) (omega arith))

pub str_free-IsValid : (s : Mystr) → IsValid (str_free s) × (view (str_free s) ≡ [])
unfolding str_free
str_free-IsValid s = ((refl, refl), refl)

-- Reserving `n` bytes in a valid string, no fewer than it has and two fewer than INT_MAX at most,
-- keeps the bytes and the length and makes room for `n` and a terminator.
pub str_reserve-Yields :
    (junk : ℕ) (s : Mystr) (n : ℕ)
    → IsValid s
    → Fits n
    → s.len ≤ n
    → Returns (str_reserve junk s n) λ t. (view t ≡ view s) × (t.len ≡ s.len) × (n < t.alloc_bytes)
unfolding str_reserve terminate_at
str_reserve-Yields junk s n v fit more =
    rw (add32_small n 1 (omega arith), positive n)
      (elim (Bool-cases (ltb s.alloc_bytes (n + 1))) [
        | inl short ↦
            let (b, e, long, same, within) =
              regrow_keeps junk s (n + 1) v (ground arith) (omega arith) in
            rw (short, e)
              (
                record s { p_buf = some (write_at b (n + 1 - 1) (0 ∷ [])); alloc_bytes = n + 1 },
                refl,
                (
                  take-write_at_before s.len b (n + 1 - 1) (0 ∷ []) (omega arith) ∙ same,
                  refl,
                  omega arith,
                ),
              )
        | inr room ↦
            let (b, e, (long, within, small, _)) = owned s v (ground arith) in
            rw room (
              subst
                (λ o.
                  Returns
                    (elim o [
                      | none ↦ fault Fault.bounds
                      | some c ↦ ok (record s { p_buf = some (write_at c (n + 1 - 1) (0 ∷ [])) })
                    ])
                    λ t. (view t ≡ contents o s.len) × (t.len ≡ s.len) × (n < t.alloc_bytes))
                (sym e)
                (
                  record s { p_buf = some (write_at b (n + 1 - 1) (0 ∷ [])) },
                  refl,
                  (
                    take-write_at_before s.len b (n + 1 - 1) (0 ∷ []) (omega arith),
                    refl,
                    ground arith,
                  ),
                ))
      ])
  where
    positive : (n : ℕ) → (n + 1 == 0) ≡ false
    positive n = ground arith
