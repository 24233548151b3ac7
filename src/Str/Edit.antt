-- ===== src/Str/Edit.antt =====
-- str.c, the functions that build and change strings on top of the two memchunk functions.
use checkedc_vsftpd.Base.{
  ℕ, zero, suc, ◌+◌, ◌-◌, ◌<◌, ◌≡◌, refl, sym, ap, ◌∙◌, subst, inl, inr, [], ◌∷◌, ◌++◌, arith, leb,
  ◌==◌, if◌then◌else◌, Bool-cases, Bytes, take, length-append, Option, some, none, get_elem?,
  map_prefix, length-map_prefix, replicate, length-replicate, not,
}
use mathlib.Core.List.{map, append_assoc, append-nil}
use checkedc_vsftpd.Run.{Run, ok, ◌>>=◌}
use checkedc_vsftpd.Str.{
  Mystr, view, contents, private_str_alloc_memchunk, private_str_append_memchunk, str_empty,
}
use checkedc_vsftpd.Str.Valid.{IsValid, Yields, Owns}
use checkedc_vsftpd.Str.Alloc.{Fits, alloc_memchunk-Yields}
use checkedc_vsftpd.Str.Grow.{length-view, append_memchunk-Yields, str_empty-Yields}
use checkedc_vsftpd.Text.{to_upper, is_print}

unfoldable pub str_alloc_text : ℕ → Mystr → Bytes → Run Mystr
str_alloc_text junk s text = private_str_alloc_memchunk junk s text

-- The content is read out of `p_buf` before the copy.
unfoldable pub str_copy : ℕ → Mystr → Mystr → Run Mystr
str_copy junk dest src = private_str_alloc_memchunk junk dest (view src)

unfoldable pub str_append_str : ℕ → Mystr → Mystr → Run Mystr
str_append_str junk s other = private_str_append_memchunk junk s (view other)

unfoldable pub str_append_text : ℕ → Mystr → Bytes → Run Mystr
str_append_text junk s text = private_str_append_memchunk junk s text

unfoldable pub str_append_char : ℕ → Mystr → ℕ → Run Mystr
str_append_char junk s c = private_str_append_memchunk junk s (c ∷ [])

-- `while (to_pad--) str_append_char(p_str, ' ')`
unfoldable pub pad_loop : ℕ → ℕ → Mystr → Run Mystr
pad_loop junk zero s = ok s
pad_loop junk (suc to_pad) s = str_append_char junk s b' ' >>= λ s'. pad_loop junk to_pad s'

unfoldable pub str_rpad : ℕ → Mystr → ℕ → Run Mystr
str_rpad junk s min_width =
    if leb min_width s.len then ok s else pad_loop junk (min_width - s.len) s

-- `tmp` is s_tmp_str, which outlives the call.
unfoldable pub str_lpad : ℕ → Mystr → Mystr → ℕ → Run Mystr
str_lpad junk tmp s min_width =
    if leb min_width s.len
    then ok s
    else str_empty junk tmp
      >>= (λ t. pad_loop junk (min_width - s.len) t)
      >>= (λ t. str_append_str junk t s)
      >>= (λ t. str_copy junk s t)

-- The loops over `p_buf[i]` below `len`, in place.
unfoldable pub change_bytes : (ℕ → ℕ) → Mystr → Mystr
change_bytes f s = record s {
  p_buf = elim s.p_buf [ none ↦ none | some b ↦ some (map_prefix s.len f b) ];
}

unfoldable pub str_upper : Mystr → Mystr
str_upper s = change_bytes to_upper s

unfoldable pub str_replace_char : Mystr → ℕ → ℕ → Mystr
str_replace_char s from to = change_bytes (λ c. if c == from then to else c) s

unfoldable pub str_replace_unprintable : Mystr → ℕ → Mystr
str_replace_unprintable s new_char = change_bytes (λ c. if not (is_print c) then new_char else c) s

-- Copying and appending, in terms of the contents.
pub str_copy-Yields :
    (junk : ℕ) (dest src : Mystr)
    → IsValid dest
    → IsValid src
    → Fits src.len
    → Yields (str_copy junk dest src) (view src)
unfolding str_copy
str_copy-Yields junk dest src v w fit =
    alloc_memchunk-Yields junk dest (view src) v (omega (arith, length-view src w))

pad_loop-Yields :
    (junk n : ℕ) (s : Mystr)
    → IsValid s
    → Fits (s.len + n)
    → s.len < s.alloc_bytes
    → Yields (pad_loop junk n s) (view s ++ replicate n b' ')
unfolding pad_loop str_append_char
pad_loop-Yields junk zero s v fit room = (
  s,
  refl,
  (v, sym (append-nil (view s)), omega (arith, length-view s v, length-append (view s) []), room),
)
pad_loop-Yields junk (suc n) s v fit room =
    let (t, run, (valid, same, size, room')) =
      append_memchunk-Yields junk s (b' ' ∷ []) v (omega arith) in
    let len : t.len ≡ s.len + 1 =
      omega (arith, length-append (view s) (b' ' ∷ []), length-view s v) in
    rw (run, ← append_assoc (view s) (b' ' ∷ []) (replicate n b' '), ← same)
      (pad_loop-Yields junk n t valid (omega arith) room')

-- Padding a valid string with a buffer on the right fills it with spaces up to a width that
-- memory allows, and leaves a longer string alone.
pub str_rpad-Yields :
    (junk : ℕ) (s : Mystr) (w : ℕ)
    → IsValid s
    → Fits w
    → s.len < s.alloc_bytes
    → Yields (str_rpad junk s w) (view s ++ replicate (w - s.len) b' ')
unfolding str_rpad
str_rpad-Yields junk s w v fit room = elim (Bool-cases (leb w s.len)) [
  | inl long ↦
      let z : w - s.len ≡ 0 = ground arith in
      rw (long, z)
        (
          s,
          refl,
          (
            v,
            sym (append-nil (view s)),
            omega (arith, length-view s v, length-append (view s) []),
            room,
          ),
        )
  | inr short ↦ rw short (pad_loop-Yields junk (w - s.len) s v (ground arith) room)
]

-- Padding a valid string with a buffer on the left puts spaces before it up to a width that
-- memory allows, whatever the valid s_tmp_str held before, and leaves a longer string alone.
pub str_lpad-Yields :
    (junk : ℕ) (tmp s : Mystr) (w : ℕ)
    → IsValid tmp
    → IsValid s
    → Fits w
    → s.len < s.alloc_bytes
    → Yields (str_lpad junk tmp s w) (replicate (w - s.len) b' ' ++ view s)
unfolding str_lpad str_append_str
str_lpad-Yields junk tmp s w u v fit room = elim (Bool-cases (leb w s.len)) [
  | inl long ↦
      let z : w - s.len ≡ 0 = ground arith in
      rw (long, z) (s, refl, (v, refl, sym (length-view s v), room))
  | inr short ↦
      let less : s.len < w = ground arith in
      let (t₀, run₀, (v₀, same₀, len₀, room₀)) = str_empty-Yields junk tmp u in
      let (t₁, run₁, (v₁, same₁, len₁, room₁)) =
        pad_loop-Yields junk (w - s.len) t₀ v₀ (omega arith) room₀ in
      let size : t₁.len ≡ w - s.len = omega (
        arith,
        length-append (view t₀) (replicate (w - s.len) b' '),
        length-replicate {A = ℕ} (w - s.len) b' ',
        length-view t₀ v₀,
      ) in
      let (t₂, run₂, (v₂, same₂, len₂, room₂)) =
        append_memchunk-Yields junk t₁ (view s) v₁ (omega (arith, length-view s v)) in
      let size₂ : t₂.len ≡ w =
        omega (arith, length-append (view t₁) (view s), length-view s v, length-view t₁ v₁) in
      let spaces : view t₁ ≡ replicate (w - s.len) b' ' =
        same₁ ∙ ap (λ c. c ++ replicate (w - s.len) b' ') same₀ in
      rw (short, run₀, run₁, run₂)
        (subst (Yields (str_copy junk s t₂)) (same₂ ∙ ap (λ c. c ++ view s) spaces)
          (str_copy-Yields junk s t₂ v v₂ (omega arith)))
]

take-map_prefix : (n : ℕ) (f : ℕ → ℕ) (b : Bytes) → take n (map_prefix n f b) ≡ map f (take n b)
take-map_prefix zero f b = refl
take-map_prefix (suc n) f [] = refl
take-map_prefix (suc n) f (x ∷ b) = ap (◌∷◌ (f x)) (take-map_prefix n f b)

get_elem?-map_prefix :
    (n : ℕ) (f : ℕ → ℕ) (b : Bytes) → get_elem? (map_prefix n f b) n ≡ get_elem? b n
get_elem?-map_prefix zero f b = refl
get_elem?-map_prefix (suc n) f [] = refl
get_elem?-map_prefix (suc n) f (x ∷ b) = get_elem?-map_prefix n f b

-- A loop over the bytes of a valid string, as `str_upper` and the replacing functions have it,
-- changes its content byte by byte and nothing else: validity, length and allocation stay.
pub change_bytes-view :
    (f : ℕ → ℕ) (s : Mystr)
    → IsValid s
    → IsValid (change_bytes f s)
      × (view (change_bytes f s) ≡ map f (view s))
      × ((change_bytes f s).len ≡ s.len)
      × ((change_bytes f s).alloc_bytes ≡ s.alloc_bytes)
unfolding change_bytes
change_bytes-view f s v = go s.p_buf v
  where
    go :
        (o : Option Bytes)
        → Owns o s.len s.alloc_bytes
        → let t : Mystr = record s {
          p_buf = elim o [ none ↦ none | some b ↦ some (map_prefix s.len f b) ];
        } in
          IsValid t
          × (view t ≡ map f (contents o s.len))
          × (t.len ≡ s.len)
          × (t.alloc_bytes ≡ s.alloc_bytes)
    go none w = (w, refl, refl, refl)
    go (some b) (long, within, small, ended) = (
      (length-map_prefix s.len f b ∙ long, within, small, get_elem?-map_prefix s.len f b ∙ ended),
      take-map_prefix s.len f b,
      refl,
      refl,
    )
