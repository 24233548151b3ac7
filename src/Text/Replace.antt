-- ===== src/Text/Replace.antt =====
-- str.c, str_replace_text: the loop over the chunks, on fuel.
pub mod Ends
use mathlib.Core.List.{append_assoc, append-nil}
use checkedc_vsftpd.Base.{
  ℕ, zero, suc, ◌+◌, ◌-◌, ◌≤◌, ◌<◌, ◌≡◌, ◌≢◌, refl, sym, ap, ◌∙◌, true, Option, none, some, [], ◌∷◌,
  ◌++◌, arith, ltb, ◌==◌, if◌then◌else◌, Bool-cases, Bytes, length, inl, inr,
}
use checkedc_vsftpd.Text.{c_text, str_isempty}
use checkedc_vsftpd.Text.Split.{
  str_split_text, str_split_char, str_split_char_lem, before, after, has_byte, absent-before,
}

-- `chunk` is s_lhs_chunk_str and `out` is p_str, which was emptied; `none` is fuel run out.
unfoldable pub replace_loop : ℕ → Bytes → Bytes → Bytes → Bytes → Option Bytes
replace_loop zero chunk out from to = none
replace_loop (suc fuel) chunk out from to =
    let (lhs, rhs) = str_split_text chunk from in
    let out' = if ltb (length lhs) (length chunk) then out ++ lhs ++ to else out ++ lhs in
    let rest = replace_loop fuel rhs out' from to in if str_isempty rhs then some out' else rest

unfoldable pub str_replace_text : Bytes → Bytes → Bytes → Option Bytes
str_replace_text s from to = replace_loop (length s + 1) s [] from to

-- Every place of `c` replaced by `to`, in one pass.
abbrev pub substitute : ℕ → Bytes → Bytes → Bytes
substitute c to [] = []
substitute c to (x ∷ s) = if x == c then to ++ substitute c to s else x ∷ substitute c to s

length-before : (c : ℕ) (s : Bytes) → ltb (length (before c s)) (length s) ≡ has_byte c s
length-before c [] = refl
length-before c (x ∷ s) = ground (arith, length-before c s)

after_lt : (c : ℕ) (s : Bytes) → length (after c s) ≤ length s - 1
after_lt c [] = omega arith
after_lt c (x ∷ s) = ground (arith, after_lt c s)

substitute-parts :
    (c : ℕ) (to s : Bytes)
    → substitute c to s
      ≡ (if has_byte c s then before c s ++ to ++ substitute c to (after c s) else s)
substitute-parts c to [] = refl
substitute-parts c to (x ∷ s) = ground (arith, substitute-parts c to s)

split_at_char : (c : ℕ) (s : Bytes) → c ≢ 0 → str_split_text s (c ∷ []) ≡ (before c s, after c s)
split_at_char c s h =
    ap (str_split_text s) (sym (text c h)) ∙ unfold str_split_char in str_split_char_lem s c h
  where
    text : (c : ℕ) → c ≢ 0 → c_text (c ∷ []) ≡ c ∷ []
    text c h = unfold c_text in ground arith

nil_of_length : (s : Bytes) → (length s == 0) ≡ true → s ≡ []
nil_of_length [] h = refl
nil_of_length (x ∷ s) h = ground arith

has_byte-pos : (c : ℕ) (s : Bytes) → has_byte c s ≡ true → 0 < length s
has_byte-pos c [] h = cc
has_byte-pos c (x ∷ s) h = omega arith

regroup : (a b c d : Bytes) → a ++ b ++ c ++ d ≡ a ++ (b ++ c ++ d)
regroup a b c d = simp append_assoc

replace_loop_lem :
    (fuel c : ℕ) (s out to : Bytes)
    → c ≢ 0
    → length s < fuel
    → replace_loop fuel s out (c ∷ []) to ≡ some (out ++ substitute c to s)
unfolding replace_loop
replace_loop_lem zero c s out to h enough = elim enough [ ]
replace_loop_lem (suc fuel) c s out to h enough =
    rw (split_at_char c s h, length-before c s, substitute-parts c to s)
      (elim (Bool-cases (has_byte c s)) [
        | inl e ↦ rw e (elim (Bool-cases (length (after c s) == 0)) [
          | inl last ↦
              rw (last, nil_of_length (after c s) last)
                (ap some (
                  append_assoc out (before c s) to
                  ∙ ap (λ u. out ++ u) (sym (append-nil (before c s ++ to)))))
          | inr more ↦
              rw
                (
                  more,
                  replace_loop_lem fuel c (after c s) (out ++ before c s ++ to) to h
                      (omega (arith, after_lt c s, has_byte-pos c s e)),
                )
                (ap some (regroup out (before c s) to (substitute c to (after c s))))
        ])
        | inr e ↦ rw (e, (absent-before c s e).0, (absent-before c s e).1) refl
      ])

-- With a one-character text other than 0 the loop ends, and has replaced every place of it.
pub str_replace_text_lem :
    (s : Bytes) (c : ℕ) (to : Bytes)
    → c ≢ 0
    → str_replace_text s (c ∷ []) to ≡ some (substitute c to s)
unfolding str_replace_text
str_replace_text_lem s c to h = replace_loop_lem (length s + 1) c s [] to h (omega arith)
