-- ===== src/Secbuf.antt =====
-- secbuf.c: the pages around a secure buffer. The page size is the system's, and an address is an
-- offset from the start of the mapping.
use native.Mathlib.Nat.{mod-lt, div-add-mod, div-le_self}
use checkedc_vsftpd.Base.{
  ℕ, ◌+◌, ◌-◌, ◌*◌, ◌/◌, ◌%◌, ◌≤◌, ◌<◌, ◌≡◌, inl, inr, arith, ◌==◌, if◌then◌else◌, Bool-cases,
}
use checkedc_vsftpd.Str.{u32_mod, add32, sub32}

unfoldable pub round_up_page_size : ℕ → ℕ → ℕ
round_up_page_size page_size buf_size =
    let page_offset = buf_size % page_size in
    let round_up : ℕ =
      if page_offset == 0
      then buf_size
      else (add32 (buf_size / page_size) 1 * page_size) % u32_mod in
    add32 round_up (page_size * 2 % u32_mod)

-- What `vsf_secbuf_alloc` maps and protects: the length of the mapping, the offset of the last page,
-- which like the first one is made inaccessible, and the offset of `p_ptr`.
pub record Layout : Type 0 where
  pub round_up : ℕ
  pub no_access_start : ℕ
  pub map_offset : ℕ

unfoldable pub vsf_secbuf_alloc : ℕ → ℕ → Layout
unfolding round_up_page_size
vsf_secbuf_alloc page_size size =
    let page_offset = size % page_size in
    let round_up = round_up_page_size page_size size in
    record {
      round_up = round_up;
      no_access_start = sub32 round_up page_size;
      map_offset =
          if page_offset == 0 then page_size else add32 page_size (sub32 page_size page_offset);
    }

-- The number of bytes that `vsf_secbuf_free` unmaps from the start of the mapping.
unfoldable pub vsf_secbuf_free : Layout → ℕ → ℕ
vsf_secbuf_free l size = add32 size l.map_offset

next_page : (q p : ℕ) → (q + 1) * p ≡ p * q + p
next_page q p = omega arith

-- The mapping without wrap-around.
round_up_lem :
    (page_size size : ℕ)
    → 0 < page_size
    → size + 3 * page_size < u32_mod
    → let r = size % page_size in
      round_up_page_size page_size size
      ≡ (if r == 0 then size else size - r + page_size) + page_size * 2
unfolding round_up_page_size
round_up_lem page_size size pos small =
    let r = size % page_size in
    let q = size / page_size in
    let e = div-add-mod size page_size in
    let less = mod-lt size pos in
    let q_small = div-le_self size page_size in
    elim (Bool-cases (r == 0)) [
      | inl z ↦ rw z (omega arith)
      | inr nz ↦
          let one_more : add32 q 1 ≡ q + 1 = omega arith in
          rw (nz, one_more, next_page q page_size) (omega (arith, e))
    ]

-- For a page size above 0, where the buffer and three pages are below 2 ^ 32: the buffer lies behind
-- the first page, it ends exactly where the last page begins, and what is freed leaves the last page
-- mapped.
pub secbuf_layout :
    (page_size size : ℕ)
    → 0 < page_size
    → size + 3 * page_size < u32_mod
    → let l = vsf_secbuf_alloc page_size size in
      (page_size ≤ l.map_offset)
      × (l.map_offset + size ≡ l.no_access_start)
      × (l.no_access_start + page_size ≡ l.round_up)
      × (vsf_secbuf_free l size + page_size ≡ l.round_up)
unfolding vsf_secbuf_alloc vsf_secbuf_free
secbuf_layout page_size size pos small =
    let r = size % page_size in
    let less = mod-lt size pos in
    let within : r ≤ size = omega (arith, div-add-mod size page_size) in
    rw (round_up_lem page_size size pos small) (elim (Bool-cases (r == 0)) [
      | inl z ↦ rw z (omega arith, omega arith, omega arith, omega arith)
      | inr nz ↦ rw nz (omega arith, omega arith, omega arith, omega arith)
    ])
