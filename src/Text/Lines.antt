-- ===== src/Text/Lines.antt =====
-- str.c, str_getline and str_contains_line: reading a buffer line by line.
use mathlib.Core.Bool.{false≢true}
use native.Mathlib.Decide.{dec_lt}
use checkedc_vsftpd.Base.{
  ℕ, zero, suc, ◌+◌, ◌-◌, ◌≤◌, ◌<◌, ◌≡◌, ◌↔◌, refl, sym, ap, ◌∙◌, ◌⊎◌, inl, inr, Bool, true, false,
  Option, none, some, List, [], ◌∷◌, arith, ltb, ◌==◌, if◌then◌else◌, le→ltb, lt→ltb, Bool-cases,
  Bytes, length, take, drop, length-drop, drop-drop,
}
use checkedc_vsftpd.Run.{Run, Fault, ok, fault, ◌>>=◌}
use checkedc_vsftpd.Text.{str_equal}
use checkedc_vsftpd.Text.Order.{str_equal_iff}

abbrev pub newline : ℕ
newline = b'\n'

-- `curr_pos` after the loop, from the position and what lies behind it.
unfoldable pub line_end : ℕ → Bytes → ℕ
line_end curr_pos [] = curr_pos
line_end curr_pos (c ∷ s) = if c == newline then curr_pos else line_end (curr_pos + 1) s

-- The line and the new position; `none` is the return value 0. The two overflow tests of the
-- source compare a position that is at most the length, so they never fire.
unfoldable pub str_getline : Bytes → ℕ → Run (Option (Bytes × ℕ))
unfolding line_end
str_getline s pos =
    if ltb (length s) pos
    then fault Fault.bug
    else if pos == length s
    then ok none
    else let curr_pos = line_end pos (drop pos s) in
      let next = if ltb curr_pos (length s) then curr_pos + 1 else curr_pos in
      ok (some (take (curr_pos - pos) (drop pos s), next))

-- `while (str_getline(..))`: all lines that the loop sees, on fuel.
unfoldable pub getlines : ℕ → Bytes → ℕ → Run (Option (List Bytes))
getlines zero s pos = ok none
getlines (suc fuel) s pos = str_getline s pos >>= λ r. elim r [
  | none ↦ ok (some [])
  | some (line, next) ↦ getlines fuel s next >>= λ rest. elim rest [
    | none ↦ ok none
    | some ls ↦ ok (some (line ∷ ls))
  ]
]

unfoldable pub str_contains_line : ℕ → Bytes → ℕ → Bytes → Run (Option Bool)
str_contains_line zero s pos look = ok none
str_contains_line (suc fuel) s pos look = str_getline s pos >>= λ r. elim r [
  | none ↦ ok (some false)
  | some (line, next) ↦
      let rest = str_contains_line fuel s next look in
      if str_equal line look then ok (some true) else rest
]

-- The lines of a text: each newline ends one, and what follows the last newline is one more
-- unless it is empty.
abbrev pub add_byte : ℕ → List Bytes → List Bytes
add_byte c [] = (c ∷ []) ∷ []
add_byte c (l ∷ ls) = (c ∷ l) ∷ ls

abbrev pub lines : Bytes → List Bytes
lines [] = []
lines (c ∷ s) = if c == newline then [] ∷ lines s else add_byte c (lines s)

abbrev pub line_of : Bytes → Bytes
line_of [] = []
line_of (c ∷ s) = if c == newline then [] else c ∷ line_of s

abbrev pub rest_of : Bytes → Bytes
rest_of [] = []
rest_of (c ∷ s) = if c == newline then s else rest_of s

lines-step : (c : ℕ) (s : Bytes) → lines (c ∷ s) ≡ line_of (c ∷ s) ∷ lines (rest_of (c ∷ s))
lines-step c [] = ground arith
lines-step c (d ∷ s) = ground (arith, lines-step d s)

line_end_lem : (i : ℕ) (s : Bytes) → line_end i s ≡ i + length (line_of s)
unfolding line_end
line_end_lem i [] = omega arith
line_end_lem i (c ∷ s) = ground (arith, line_end_lem (i + 1) s)

take-line_of : (s : Bytes) → take (length (line_of s)) s ≡ line_of s
take-line_of [] = refl
take-line_of (c ∷ s) = ground (arith, take-line_of s)

-- Behind the line lies its newline, or nothing.
line_of-end :
    (s : Bytes)
    → (length (line_of s) < length s)
        × (drop (length (line_of s) + 1) s ≡ rest_of s)
        × (length (rest_of s) + length (line_of s) + 1 ≡ length s)
      ⊎ (length (line_of s) ≡ length s) × (rest_of s ≡ [])
line_of-end [] = inr (refl, refl)
line_of-end (c ∷ s) = ground (arith, line_of-end s)

nil_of_length : (s : Bytes) → length s ≡ 0 → s ≡ []
nil_of_length [] h = refl
nil_of_length (c ∷ s) h = absurd (omega arith)

not_eq : (a b : ℕ) → a < b → (a == b) ≡ false
not_eq a b h = ground arith

-- What one call returns before the end.
pub str_getline-step :
    (s : Bytes) (pos : ℕ)
    → pos < length s
    → (next : ℕ) × (str_getline s pos ≡ ok (some (line_of (drop pos s), next)))
      × (drop next s ≡ rest_of (drop pos s))
      × (pos < next)
      × (next ≤ length s)
unfolding str_getline
str_getline-step s pos h =
    let r = drop pos s in
    let n = length (line_of r) in
    let size = length-drop pos s in
    let back : pos + n - pos ≡ n = omega arith in
    elim (line_of-end r) [
      | inl (ended, rest, _) ↦ (
        pos + n + 1,
        rw
            (
              le→ltb (length s) pos (omega arith),
              not_eq pos (length s) (omega arith),
              line_end_lem pos r,
              back,
              take-line_of r,
              lt→ltb (pos + n) (length s) (omega arith),
            )
            refl,
        ap (λ k. drop k s) (omega arith) ∙ sym (drop-drop pos (n + 1) s) ∙ rest,
        omega arith,
        omega arith,
      )
      | inr (whole, rest) ↦ (
        pos + n,
        rw
            (
              le→ltb (length s) pos (omega arith),
              not_eq pos (length s) (omega arith),
              line_end_lem pos r,
              back,
              take-line_of r,
              le→ltb (pos + n) (length s) (omega arith),
            )
            refl,
        nil_of_length (drop (pos + n) s) (omega (arith, length-drop (pos + n) s)) ∙ sym rest,
        omega arith,
        omega arith,
      )
    ]

pub str_getline-end : (s : Bytes) → str_getline s (length s) ≡ ok none
unfolding str_getline
str_getline-end s = rw (le→ltb (length s) (length s) (omega arith)) (ground arith)

pub lines-nonempty : (r : Bytes) → 0 < length r → lines r ≡ line_of r ∷ lines (rest_of r)
lines-nonempty [] h = elim h [ ]
lines-nonempty (c ∷ r) h = lines-step c r

pub at_end :
    (s : Bytes) (pos : ℕ) → pos ≤ length s → length s ≤ pos → (pos ≡ length s) × (drop pos s ≡ [])
at_end s pos h k = (omega arith, nil_of_length (drop pos s) (omega (arith, length-drop pos s)))

getlines_from :
    (fuel : ℕ) (s : Bytes) (pos : ℕ)
    → pos ≤ length s
    → length s - pos < fuel
    → getlines fuel s pos ≡ ok (some (lines (drop pos s)))
unfolding getlines
getlines_from zero s pos h enough = elim enough [ ]
getlines_from (suc fuel) s pos h enough = elim (dec_lt pos (length s)) [
  | yes more ↦
      let (next, run, rest, on, within) = str_getline-step s pos more in
      rw
        (
          run,
          getlines_from fuel s next within (omega arith),
          rest,
          lines-nonempty (drop pos s) (omega (arith, length-drop pos s)),
        )
        refl
  | no done ↦ let (e, z) = at_end s pos h (omega arith) in rw (z, e, str_getline-end s) refl
]

-- The loop over `str_getline` sees exactly the lines of the text and ends, in at most one round
-- for each byte and one more.
pub getlines_lem : (s : Bytes) → getlines (length s + 1) s 0 ≡ ok (some (lines s))
getlines_lem s = getlines_from (length s + 1) s 0 (omega arith) (omega arith)

abbrev pub Among : Bytes → List Bytes → Type 0
Among look [] = ⊥
Among look (l ∷ ls) = (l ≡ look) ⊎ Among look ls

contains_line_from :
    (fuel : ℕ) (s : Bytes) (pos : ℕ) (look : Bytes)
    → pos ≤ length s
    → length s - pos < fuel
    → (b : Bool) × (str_contains_line fuel s pos look ≡ ok (some b))
      × ((b ≡ true) ↔ Among look (lines (drop pos s)))
unfolding str_contains_line
contains_line_from zero s pos look h enough = elim enough [ ]
contains_line_from (suc fuel) s pos look h enough = elim (dec_lt pos (length s)) [
  | yes more ↦
      let (next, run, rest, on, within) = str_getline-step s pos more in
      let (b, run', iff) = contains_line_from fuel s next look within (omega arith) in
      rw (run, lines-nonempty (drop pos s) (omega (arith, length-drop pos s)))
        (elim (Bool-cases (str_equal (line_of (drop pos s)) look)) [
          | inl same ↦ rw same (true, refl, ((λ _. inl ((str_equal_iff _ _).0 same)), λ _. refl))
          | inr other ↦
              rw (other, run')
                (
                  b,
                  refl,
                  (
                    (λ e. inr (rw rest at (iff.0 e))),
                    elim [
                      | inl e ↦ absurd (false≢true (sym other ∙ (str_equal_iff _ _).1 e))
                      | inr m ↦ iff.1 (rw (← rest) at m)
                    ],
                  ),
                )
        ])
  | no done ↦
      let (e, z) = at_end s pos h (omega arith) in
      rw (z, e, str_getline-end s) (false, refl, ((λ e. cc), λ m. absurd m))
]

-- `str_contains_line` ends, and answers whether one of the lines is the string looked for.
pub str_contains_line_lem :
    (s look : Bytes)
    → (b : Bool) × (str_contains_line (length s + 1) s 0 look ≡ ok (some b))
      × ((b ≡ true) ↔ Among look (lines s))
str_contains_line_lem s look =
    contains_line_from (length s + 1) s 0 look (omega arith) (omega arith)
