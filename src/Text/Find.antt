-- ===== src/Text/Find.antt =====
-- str.c, the searches forwards and backwards.
use mathlib.Core.Bool.{false≢true}
use native.Mathlib.Decide.{dec_lt}
use checkedc_vsftpd.Base.{
  ℕ, zero, suc, ◌+◌, ◌-◌, ◌≤◌, ◌<◌, ◌≡◌, ◌≢◌, refl, sym, ◌∙◌, ◌⊎◌, inl, inr, true, false, [], ◌∷◌,
  ◌++◌, arith, ltb, ◌==◌, Bool-cases, Bytes, length, take, drop, length-drop, ltb→lt, drop-nil,
}
use checkedc_vsftpd.Text.{
  LocateResult, has_prefix, locate_text_loop, str_locate_text, locate_text_reverse_loop,
  str_locate_text_reverse,
}

-- The text stands in the string from index `i`.
abbrev pub OccursAt : Bytes → Bytes → ℕ → Type 0
OccursAt t s i = has_prefix t (drop i s) ≡ true

-- A text that stands at the front is the front.
pub has_prefix-take :
    (t s : Bytes) → has_prefix t s ≡ true → (take (length t) s ≡ t) × (length t ≤ length s)
unfolding has_prefix
has_prefix-take [] s h = (refl, omega arith)
has_prefix-take (x ∷ t) [] h = cc
has_prefix-take (x ∷ t) (y ∷ s) h = ground (arith, has_prefix-take t s)

pub has_prefix-append : (t s : Bytes) → has_prefix t (t ++ s) ≡ true
unfolding has_prefix
has_prefix-append [] s = refl
has_prefix-append (x ∷ t) s = ground (arith, has_prefix-append t s)

-- What a search that runs forwards from the front tells, for each answer.
abbrev pub FirstIf : Bytes → Bytes → LocateResult → Type 0
FirstIf t s r =
    ((r.found ≡ true) → OccursAt t s r.index × ((j : ℕ) → j < r.index → ¬ OccursAt t s j))
    × ((r.found ≡ false) → (j : ℕ) → ¬ OccursAt t s j)

drop-suc : (j : ℕ) (s : Bytes) → drop j (drop 1 s) ≡ drop (suc j) s
drop-suc j [] = drop-nil j
drop-suc j (x ∷ s) = refl

occurs_later : (t s : Bytes) (j : ℕ) → OccursAt t (drop 1 s) j → OccursAt t s (suc j)
occurs_later t s j h = rw (← drop-suc j s) h

absent_later :
    (t s : Bytes) (k : ℕ)
    → has_prefix t s ≡ false
    → ((j : ℕ) → j < k → ¬ OccursAt t (drop 1 s) j)
    → (j : ℕ) → j < suc k
    → ¬ OccursAt t s j
absent_later t s k past none zero h o = cc
absent_later t s k past none (suc j) h o = none j (omega arith) (rw (drop-suc j s) o)

-- The loop from index `i`: places are counted from `i` on.
abbrev Finds : ℕ → ℕ → Bytes → Bytes → LocateResult → Type 0
Finds rounds i s t r =
    ((r.found ≡ true)
      → (k : ℕ) × (r.index ≡ i + k) × OccursAt t s k × ((j : ℕ) → j < k → ¬ OccursAt t s j))
    × ((r.found ≡ false) → (j : ℕ) → j < rounds → ¬ OccursAt t s j)

loop-Finds : (rounds i : ℕ) (s t : Bytes) → Finds rounds i s t (locate_text_loop rounds i s t)
unfolding locate_text_loop
loop-Finds zero i s t = ((λ e. cc), λ e j h. elim h [ ])
loop-Finds (suc n) i s t =
    let (hit, miss) = loop-Finds n (i + 1) (drop 1 s) t in
    elim (Bool-cases (has_prefix t s)) [
      | inl here ↦ rw here ((λ e. (0, omega arith, here, λ j h. elim h [ ])), λ e. cc)
      | inr past ↦ rw past (
        (λ e.
            let (k, at, o, before) = hit e in
            (suc k, omega arith, occurs_later t s k o, absent_later t s k past before)),
        λ e. absent_later t s n past (miss e),
      )
    ]

-- A place leaves room for the text.
occurs_room : (t s : Bytes) (j : ℕ) → length t ≢ 0 → OccursAt t s j → j + length t ≤ length s
occurs_room t s j ne o = omega (arith, (has_prefix-take t (drop j s) o).1, length-drop j s)

not_zero : (n : ℕ) → n ≢ 0 → (n == 0) ≡ false
not_zero n h = ground arith

pub str_locate_text-FirstIf : (s t : Bytes) → length t ≢ 0 → FirstIf t s (str_locate_text s t)
unfolding str_locate_text
str_locate_text-FirstIf s t ne = elim (Bool-cases (ltb (length s) (length t))) [
  | inl long ↦
      rw (not_zero (length t) ne, long)
        (
          (λ e. cc),
          λ e j o. omega (arith, occurs_room t s j ne o, ltb→lt (length s) (length t) long),
        )
  | inr fits ↦
      let (hit, miss) = loop-Finds (length s - length t + 1) 0 s t in
      rw (not_zero (length t) ne, fits)
        (
          (λ e.
              let (k, at, o, before) = hit e in
              let at' : _ ≡ k = at ∙ (omega arith) in (rw at' o, rw at' before)),
          λ e j o. miss e j (omega (arith, occurs_room t s j ne o)) o,
        )
]

abbrev pub LastIf : Bytes → Bytes → LocateResult → Type 0
LastIf t s r =
    ((r.found ≡ true) → OccursAt t s r.index × ((j : ℕ) → r.index < j → ¬ OccursAt t s j))
    × ((r.found ≡ false) → (j : ℕ) → ¬ OccursAt t s j)

absent_from :
    (i : ℕ) (s t : Bytes)
    → has_prefix t (drop i s) ≡ false
    → ((j : ℕ) → i < j → ¬ OccursAt t s j)
    → (j : ℕ) → i ≤ j
    → ¬ OccursAt t s j
absent_from i s t past above j h o = elim (dec_lt i j) [
  | yes lt ↦ above j lt o
  | no ge ↦ let e : j ≡ i = omega arith in false≢true (sym past ∙ rw e at o)
]

reverse_loop-LastIf :
    (i : ℕ) (s t : Bytes)
    → ((j : ℕ) → i < j → ¬ OccursAt t s j)
    → LastIf t s (locate_text_reverse_loop i s t)
unfolding locate_text_reverse_loop
reverse_loop-LastIf zero s t above = elim (Bool-cases (has_prefix t s)) [
  | inl here ↦ rw here ((λ e. (here, above)), λ e. cc)
  | inr past ↦ rw past ((λ e. cc), λ e j. absent_from zero s t past above j (omega arith))
]
reverse_loop-LastIf (suc i) s t above = elim (Bool-cases (has_prefix t (drop (suc i) s))) [
  | inl here ↦ rw here ((λ e. (here, above)), λ e. cc)
  | inr past ↦ rw past (reverse_loop-LastIf i s t (absent_from (suc i) s t past above))
]

pub str_locate_text_reverse-LastIf :
    (s t : Bytes) → length t ≢ 0 → LastIf t s (str_locate_text_reverse s t)
unfolding str_locate_text_reverse
str_locate_text_reverse-LastIf s t ne = elim (Bool-cases (ltb (length s) (length t))) [
  | inl long ↦
      rw (not_zero (length t) ne, long)
        (
          (λ e. cc),
          λ e j o. omega (arith, occurs_room t s j ne o, ltb→lt (length s) (length t) long),
        )
  | inr fits ↦
      rw (not_zero (length t) ne, fits)
        (reverse_loop-LastIf (length s - length t) s t
          (λ j h o. omega (arith, occurs_room t s j ne o)))
]

-- A text that is found lies within the string.
pub str_locate_text-room :
    (s t : Bytes)
    → (str_locate_text s t).found ≡ true
    → (str_locate_text s t).index + length t ≤ length s
str_locate_text-room s t e = elim (Bool-cases (length t == 0)) [
  | inl empty ↦ absurd (false≢true (unfold str_locate_text in rw empty at e))
  | inr ne ↦ occurs_room t s _ (ground arith) ((str_locate_text-FirstIf s t (ground arith)).0 e).0
]

-- A search that runs forwards gives the first place of the text, or there is none.
abbrev pub First : Bytes → Bytes → LocateResult → Type 0
First t s r =
    ((r.found ≡ true)
      × OccursAt t s r.index
      × (r.index + length t ≤ length s)
      × ((j : ℕ) → j < r.index → ¬ OccursAt t s j))
    ⊎ ((r.found ≡ false) × ((j : ℕ) → ¬ OccursAt t s j))

-- A search that runs backwards gives the last place of the text, or there is none.
abbrev pub Last : Bytes → Bytes → LocateResult → Type 0
Last t s r =
    ((r.found ≡ true)
      × OccursAt t s r.index
      × (r.index + length t ≤ length s)
      × ((j : ℕ) → r.index < j → ¬ OccursAt t s j))
    ⊎ ((r.found ≡ false) × ((j : ℕ) → ¬ OccursAt t s j))

-- For a text that is not empty, `str_locate_text` finds its first place in the string, or the
-- text stands nowhere in it.
pub str_locate_text-First : (s t : Bytes) → length t ≢ 0 → First t s (str_locate_text s t)
str_locate_text-First s t ne =
    let (hit, miss) = str_locate_text-FirstIf s t ne in
    elim (Bool-cases (str_locate_text s t).found) [
      | inl e ↦ inl (e, (hit e).0, occurs_room t s _ ne (hit e).0, (hit e).1)
      | inr e ↦ inr (e, miss e)
    ]

-- For a text that is not empty, `str_locate_text_reverse` finds its last place in the string, or
-- the text stands nowhere in it.
pub str_locate_text_reverse-Last :
    (s t : Bytes) → length t ≢ 0 → Last t s (str_locate_text_reverse s t)
str_locate_text_reverse-Last s t ne =
    let (hit, miss) = str_locate_text_reverse-LastIf s t ne in
    elim (Bool-cases (str_locate_text_reverse s t).found) [
      | inl e ↦ inl (e, (hit e).0, occurs_room t s _ ne (hit e).0, (hit e).1)
      | inr e ↦ inr (e, miss e)
    ]
