-- ===== src/Text/Replace/Ends.antt =====
-- str.c, str_replace_text: the loop ends for every text.
use checkedc_vsftpd.Base.{
  ℕ, zero, suc, ◌+◌, ◌<◌, ◌≡◌, refl, ap, ◌⊎◌, inl, inr, false, Option, some, [], ◌∷◌, ◌++◌, arith,
  ltb, ◌==◌, if◌then◌else◌, Bytes, length,
}
use checkedc_vsftpd.Text.{str_isempty, str_locate_text}
use checkedc_vsftpd.Text.Split.{str_split_text, str_split_text-Parts}
use checkedc_vsftpd.Text.Replace.{replace_loop, str_replace_text}

length-append : (a b : Bytes) → length (a ++ b) ≡ length a + length b
length-append [] b = omega arith
length-append (x ∷ a) b = omega (arith, length-append a b)

-- A round leaves less.
rhs_lt :
    (s t : Bytes) → (length (str_split_text s t).1 ≡ 0) ⊎ (length (str_split_text s t).1 < length s)
rhs_lt s [] = inl (unfold str_split_text str_locate_text in refl)
rhs_lt s (c ∷ t) = elim (str_split_text-Parts s (c ∷ t) (λ h. omega (arith, h))) [
  | inr (whole, none_left, _) ↦ inl (ap length none_left)
  | inl (joined, _) ↦
      let p = str_split_text s (c ∷ t) in
      let total : length (p.0 ++ c ∷ t ++ p.1) ≡ length s = ap length joined in
      inr (omega (arith, total, length-append (p.0 ++ c ∷ t) p.1, length-append p.0 (c ∷ t)))
]

filled : (n : ℕ) → (suc n == 0) ≡ false
filled n = ground arith

loop-ends :
    (fuel : ℕ) (s out from to : Bytes)
    → length s < fuel
    → (text : Bytes) × (replace_loop fuel s out from to ≡ some text)
unfolding replace_loop
loop-ends zero s out from to enough = elim enough [ ]
loop-ends (suc fuel) s out from to enough =
    let (lhs, rhs) = str_split_text s from in
    let out' : Bytes = if ltb (length lhs) (length s) then out ++ lhs ++ to else out ++ lhs in
    round rhs out' (rhs_lt s from) (replace_loop fuel rhs out' from to)
      λ h. loop-ends fuel rhs out' from to h
  where
    round :
        (rhs out' : Bytes)
        → (length rhs ≡ 0) ⊎ (length rhs < length s)
        → (rest : Option Bytes) → (length rhs < fuel → (text : Bytes) × (rest ≡ some text))
        → (text : Bytes) × ((if str_isempty rhs then some out' else rest) ≡ some text)
    round [] out' h rest go = (out', refl)
    round (x ∷ rhs) out' h rest go =
        let (text, run) = go (elim h [ inl z ↦ omega (arith, z) | inr l ↦ omega (arith, l) ]) in
        (text, rw (run, filled (length rhs)) refl)

-- Replacing a text ends for every string, for the empty text too: within a round for each byte
-- and one more.
pub str_replace_text-ends :
    (s from to : Bytes) → (text : Bytes) × (str_replace_text s from to ≡ some text)
unfolding str_replace_text
str_replace_text-ends s from to = loop-ends (length s + 1) s [] from to (omega arith)
