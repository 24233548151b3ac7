-- ===== src/Text/Split.antt =====
-- str.c, what the splitting functions leave in their two strings, and str_basename.
use mathlib.Core.List.{append_assoc}
use checkedc_vsftpd.Base.{
  ℕ, suc, ◌+◌, ◌-◌, ◌<◌, ◌≡◌, ◌≢◌, refl, sym, ap, ◌∙◌, ◌⊎◌, inl, inr, Bool, true, false, ◌||◌, [],
  ◌∷◌, ◌++◌, arith, ◌==◌, if◌then◌else◌, le→ltb, Bool-cases, Bytes, length, take, drop, drop-drop,
  take-append-drop, length-take,
}
use checkedc_vsftpd.Text.{
  LocateResult, located, not_located, c_text, has_prefix, locate_text_loop, str_locate_text,
  str_locate_text_reverse, str_locate_char, str_isempty,
}
use checkedc_vsftpd.Text.Find.{
  OccursAt, has_prefix-take, str_locate_text-FirstIf, str_locate_text-room,
}

-- What a locate result makes of the string: the left and the right hand side.
unfoldable pub split_at : LocateResult → Bytes → Bytes → Bytes × Bytes
split_at r s t = if r.found then (take r.index s, drop (r.index + length t) s) else (s, [])

unfoldable pub str_split_text : Bytes → Bytes → Bytes × Bytes
unfolding split_at
str_split_text s t = split_at (str_locate_text s t) s t

unfoldable pub str_split_text_reverse : Bytes → Bytes → Bytes × Bytes
unfolding split_at
str_split_text_reverse s t = split_at (str_locate_text_reverse s t) s t

unfoldable pub str_split_char : Bytes → ℕ → Bytes × Bytes
unfolding str_split_text c_text
str_split_char s c = str_split_text s (c_text (c ∷ []))

unfoldable pub str_split_char_reverse : Bytes → ℕ → Bytes × Bytes
unfolding str_split_text_reverse c_text
str_split_char_reverse s c = str_split_text_reverse s (c_text (c ∷ []))

unfoldable pub str_basename : Bytes → Bytes
unfolding str_split_char_reverse
str_basename path =
    let (_, d) = str_split_char_reverse path b'/' in if str_isempty d then path else d

-- The string is cut at the first place of the text, and is left whole if there is none.
abbrev pub Parts : Bytes → Bytes → Bytes × Bytes → Type 0
Parts s t p =
    ((p.0 ++ t ++ p.1 ≡ s) × ((j : ℕ) → j < length p.0 → ¬ OccursAt t s j))
    ⊎ ((p.0 ≡ s) × (p.1 ≡ []) × ((j : ℕ) → ¬ OccursAt t s j))

rejoin : (s t : Bytes) (i : ℕ) → OccursAt t s i → take i s ++ t ++ drop (i + length t) s ≡ s
rejoin s t i o =
    let (front, _) = has_prefix-take t (drop i s) o in
    let back : t ++ drop (length t) (drop i s) ≡ drop i s =
      ap (λ u. u ++ drop (length t) (drop i s)) (sym front)
      ∙ take-append-drop (length t) (drop i s) in
    rw (append_assoc (take i s) t, ← drop-drop i (length t) s, back) (take-append-drop i s)

-- For a text that is not empty, `str_split_text` loses nothing and cuts at the first place of the
-- text.
pub str_split_text-Parts : (s t : Bytes) → length t ≢ 0 → Parts s t (str_split_text s t)
unfolding str_split_text
str_split_text-Parts s t ne =
    let (hit, miss) = str_locate_text-FirstIf s t ne in
    elim (Bool-cases (str_locate_text s t).found) [
      | inl e ↦ rw e (
          inl (
            rejoin s t (str_locate_text s t).index (hit e).0,
            λ j h. (hit e).1 j (
                omega (
                  arith,
                  length-take (str_locate_text s t).index s
                      (omega (arith, str_locate_text-room s t e)),
                )),
          ))
      | inr e ↦ rw e (inr (refl, refl, miss e))
    ]

-- The bytes before the first `c`, all if there is none, and those behind it.
abbrev pub before : ℕ → Bytes → Bytes
before c [] = []
before c (x ∷ s) = if x == c then [] else x ∷ before c s

abbrev pub after : ℕ → Bytes → Bytes
after c [] = []
after c (x ∷ s) = if x == c then s else after c s

abbrev pub has_byte : ℕ → Bytes → Bool
has_byte c [] = false
has_byte c (x ∷ s) = x == c || has_byte c s

pub c_text_char : (c : ℕ) → c ≢ 0 → c_text (c ∷ []) ≡ c ∷ []
unfolding c_text
c_text_char c h = ground arith

locate_loop_char :
    (i c : ℕ) (s : Bytes)
    → locate_text_loop (length s) i s (c ∷ [])
      ≡ (if has_byte c s then located (i + length (before c s)) else not_located)
unfolding locate_text_loop has_prefix
locate_loop_char i c [] = refl
locate_loop_char i c (x ∷ s) = ground (arith, locate_loop_char (i + 1) c s)

str_locate_text_char :
    (s : Bytes) (c : ℕ)
    → str_locate_text s (c ∷ [])
      ≡ (if has_byte c s then located (length (before c s)) else not_located)
unfolding str_locate_text
str_locate_text_char [] c = refl
str_locate_text_char (x ∷ s) c =
    let e : suc (length s) - 1 + 1 ≡ suc (length s) = omega arith in
    rw (le→ltb (suc (length s)) 1 (omega arith), e)
      (locate_loop_char 0 c (x ∷ s) ∙ start (before c (x ∷ s)))
  where
    start :
        (u : Bytes)
        → (if has_byte c (x ∷ s) then located (0 + length u) else not_located)
          ≡ (if has_byte c (x ∷ s) then located (length u) else not_located)
    start u = rw (let e : 0 + length u ≡ length u = omega arith in e) refl

-- `str_locate_char` finds the first place of a character other than 0.
pub str_locate_char_lem :
    (s : Bytes) (c : ℕ)
    → c ≢ 0
    → str_locate_char s c ≡ (if has_byte c s then located (length (before c s)) else not_located)
unfolding str_locate_char
str_locate_char_lem s c h = rw (c_text_char c h) (str_locate_text_char s c)

take-before : (c : ℕ) (s : Bytes) → has_byte c s ≡ true → take (length (before c s)) s ≡ before c s
take-before c [] h = cc
take-before c (x ∷ s) h = ground (arith, take-before c s)

drop-before :
    (c : ℕ) (s : Bytes) → has_byte c s ≡ true → drop (length (before c s) + 1) s ≡ after c s
drop-before c [] h = cc
drop-before c (x ∷ s) h = ground (arith, drop-before c s)

pub absent-before : (c : ℕ) (s : Bytes) → has_byte c s ≡ false → (before c s ≡ s) × (after c s ≡ [])
absent-before c [] h = (refl, refl)
absent-before c (x ∷ s) h = ground (arith, absent-before c s)

-- Splitting at a character other than 0 gives what stands before and after its first place.
pub str_split_char_lem : (s : Bytes) (c : ℕ) → c ≢ 0 → str_split_char s c ≡ (before c s, after c s)
unfolding str_split_char
str_split_char_lem s c h = elim (Bool-cases (has_byte c s)) [
  | inl e ↦
      rw (c_text_char c h, str_locate_text_char s c, e)
        (rw (take-before c s e, drop-before c s e) refl)
  | inr e ↦
      rw (c_text_char c h, str_locate_text_char s c, e)
        (rw ((absent-before c s e).0, (absent-before c s e).1) refl)
]

-- The first place of a character behind a string without it is the one put there.
pub before-join :
    (c : ℕ) (name value : Bytes)
    → has_byte c name ≡ false
    → (before c (name ++ c ∷ value) ≡ name) × (after c (name ++ c ∷ value) ≡ value)
before-join c [] value h = ground arith
before-join c (x ∷ name) value h = ground (arith, before-join c name value)
