-- ===== src/Ascii/Chunks.antt =====
-- ascii.c, vsf_ascii_bin_to_ascii: downloads, in chunks.
use mathlib.Core.List.{append_assoc}
use checkedc_vsftpd.Base.{
  ℕ, ◌*◌, ◌≤◌, ◌≡◌, refl, ap, ◌∙◌, Bool, true, false, not, ◌&&◌, ◌||◌, [], ◌∷◌, ◌++◌, arith, ◌==◌,
  if◌then◌else◌, Bytes, length, length-append,
}
use checkedc_vsftpd.Ascii.{cr, lf, bin_byte, bin_loop, vsf_ascii_bin_to_ascii}

byte_size : (last c : ℕ) → (1 ≤ length (bin_byte last c)) × (length (bin_byte last c) ≤ 2)
unfolding bin_byte
byte_size last c = ground arith

-- What is stored fits the `2 * in_len` bytes of `p_buf`, and is no shorter than the input.
pub bin_to_ascii_bounds :
    (p_in : Bytes) (prev_cr : Bool)
    → let out = (vsf_ascii_bin_to_ascii p_in prev_cr).0 in
      (length p_in ≤ length out) × (length out ≤ 2 * length p_in)
unfolding vsf_ascii_bin_to_ascii
bin_to_ascii_bounds p_in prev_cr = loop (if prev_cr then cr else 0) prev_cr p_in
  where
    loop :
        (last : ℕ) (flag : Bool) (s : Bytes)
        → (length s ≤ length (bin_loop last flag s).0)
          × (length (bin_loop last flag s).0 ≤ 2 * length s)
    loop last flag [] = omega arith
    loop last flag (c ∷ s) = omega (
      arith,
      loop c (c == cr) s,
      byte_size last c,
      length-append (bin_byte last c) (bin_loop c (c == cr) s).0,
    )

-- Two states of the loop that agree on whether the last character was a carriage return.
loop_congr :
    (a b : ℕ) (flag : Bool) (s : Bytes)
    → (a == cr) ≡ (b == cr)
    → bin_loop a flag s ≡ bin_loop b flag s
unfolding bin_loop
loop_congr a b flag [] h = refl
loop_congr a b flag (c ∷ s) h = rw h refl

cr_flag : (flag : Bool) → flag ≡ ((if flag then cr else 0) == cr)
cr_flag true = refl
cr_flag false = refl

loop-append :
    (last : ℕ) (flag : Bool) (xs ys : Bytes)
    → (last == cr) ≡ flag
    → bin_loop last flag (xs ++ ys) ≡ (
        let (out, f) = bin_loop last flag xs in
        let (out', f') = bin_loop (if f then cr else 0) f ys in (out ++ out', f'))
unfolding bin_loop
loop-append last flag [] ys h =
    ap (λ r. (r.0, r.1)) (loop_congr last (if flag then cr else 0) flag ys (h ∙ cr_flag flag))
loop-append last flag (x ∷ xs) ys h = rw (loop-append x (x == cr) xs ys refl, append_assoc)

-- Converting a file chunk by chunk, with the flag handed on, stores what converting it whole
-- stores, wherever the chunks end.
pub bin_to_ascii-append :
    (xs ys : Bytes) (prev_cr : Bool)
    → vsf_ascii_bin_to_ascii (xs ++ ys) prev_cr ≡ (
        let (out, f) = vsf_ascii_bin_to_ascii xs prev_cr in
        let (out', f') = vsf_ascii_bin_to_ascii ys f in (out ++ out', f'))
unfolding vsf_ascii_bin_to_ascii
bin_to_ascii-append xs ys true = loop-append cr true xs ys refl
bin_to_ascii-append xs ys false = loop-append 0 false xs ys refl

-- Is there a line feed with no carriage return before it?
abbrev pub bare_lf : ℕ → Bytes → Bool
bare_lf last [] = false
bare_lf last (c ∷ s) = (c == lf && not (last == cr)) || bare_lf c s

loop-bare_lf : (last : ℕ) (flag : Bool) (s : Bytes) → bare_lf last (bin_loop last flag s).0 ≡ false
unfolding bin_loop
loop-bare_lf last flag [] = refl
loop-bare_lf last flag (c ∷ s) = ground (arith, loop-bare_lf c (c == cr) s)

-- Every line feed that is sent has a carriage return before it, be it the last byte of the chunk
-- before.
pub bin_to_ascii-bare_lf :
    (p_in : Bytes) (prev_cr : Bool)
    → bare_lf (if prev_cr then cr else 0) (vsf_ascii_bin_to_ascii p_in prev_cr).0 ≡ false
unfolding vsf_ascii_bin_to_ascii
bin_to_ascii-bare_lf p_in prev_cr = loop-bare_lf (if prev_cr then cr else 0) prev_cr p_in
