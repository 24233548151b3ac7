-- ===== src/Text/Basename.antt =====
-- str.c, str_basename of a path that ends in a name.
use native.Mathlib.Decide.{dec_lt}
use checkedc_vsftpd.Base.{
  ℕ, zero, suc, ◌+◌, ◌<◌, ◌≡◌, refl, sym, ap, ◌∙◌, inl, inr, true, false, [], ◌∷◌, ◌++◌, arith,
  Bool-cases, Bytes, length, drop, drop-drop, drop-append_all,
}
use checkedc_vsftpd.Text.{LocateResult, c_text, has_prefix, str_isempty, str_locate_text_reverse}
use checkedc_vsftpd.Text.Find.{OccursAt, has_prefix-append, str_locate_text_reverse-LastIf}
use checkedc_vsftpd.Text.Split.{has_byte, str_basename, c_text_char}

abbrev slash : Bytes
slash = b'/' ∷ []

-- No slash stands in a name without one.
absent : (s : Bytes) (j : ℕ) → has_byte b'/' s ≡ false → ¬ OccursAt slash s j
unfolding has_prefix
absent [] zero h o = cc
absent [] (suc j) h o = cc
absent (x ∷ s) zero h o = ground arith
absent (x ∷ s) (suc j) h o = absent s j (ground (arith, h)) o

beyond :
    (dir base : Bytes) (j : ℕ)
    → has_byte b'/' base ≡ false
    → length dir < j
    → ¬ OccursAt slash (dir ++ b'/' ∷ base) j
beyond [] base zero h k o = elim k [ ]
beyond [] base (suc j) h k o = absent base j h o
beyond (x ∷ dir) base zero h k o = elim k [ ]
beyond (x ∷ dir) base (suc j) h k o = beyond dir base j h (omega arith) o

at_slash : (dir base : Bytes) → OccursAt slash (dir ++ b'/' ∷ base) (length dir)
at_slash dir base = rw (drop-append_all dir (b'/' ∷ base)) (has_prefix-append slash base)

-- The last slash of a path in front of a name is found.
last_slash :
    (dir base : Bytes)
    → has_byte b'/' base ≡ false
    → let r = str_locate_text_reverse (dir ++ b'/' ∷ base) slash in
      (r.found ≡ true) × (r.index ≡ length dir)
last_slash dir base h =
    let path = dir ++ b'/' ∷ base in
    let (hit, miss) = str_locate_text_reverse-LastIf path slash (λ e. cc) in
    elim (Bool-cases (str_locate_text_reverse path slash).found) [
      | inl found ↦
          let (there, none_behind) = hit found in
          (found, meet (str_locate_text_reverse path slash).index there none_behind)
      | inr lost ↦ absurd (miss lost (length dir) (at_slash dir base))
    ]
  where
    meet :
        (i : ℕ)
        → OccursAt slash (dir ++ b'/' ∷ base) i
        → ((j : ℕ) → i < j → ¬ OccursAt slash (dir ++ b'/' ∷ base) j)
        → i ≡ length dir
    meet i there none_behind = elim (dec_lt i (length dir)) [
      | yes low ↦ absurd (none_behind (length dir) low (at_slash dir base))
      | no ge ↦ elim (dec_lt (length dir) i) [
        | yes high ↦ absurd (beyond dir base i h high there)
        | no le ↦ omega arith
      ]
    ]

-- The part of a path behind its last slash, which is not empty, is its base name.
pub basename-path :
    (dir base : Bytes)
    → has_byte b'/' base ≡ false
    → str_isempty base ≡ false
    → str_basename (dir ++ b'/' ∷ base) ≡ base
unfolding str_basename checkedc_vsftpd.Text.Split.str_split_char_reverse
    checkedc_vsftpd.Text.Split.str_split_text_reverse checkedc_vsftpd.Text.Split.split_at
basename-path dir base h ne =
    let (found, at) = last_slash dir base h in
    let behind : drop (length dir + 1) (dir ++ b'/' ∷ base) ≡ base =
      sym (drop-drop (length dir) 1 (dir ++ b'/' ∷ base))
      ∙ ap (drop 1) (drop-append_all dir (b'/' ∷ base)) in
    rw (c_text_char b'/' (omega arith), found, at, behind, ne) refl
