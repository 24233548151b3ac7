-- ===== src/Ls/Filter.antt =====
-- ls.c, filters without alternatives: a plain name, and a beginning with a star behind it.
use mathlib.Core.Bool.{false≢true}
use mathlib.Core.List.{append-nil}
use checkedc_vsftpd.Base.{
  ℕ, zero, suc, ◌+◌, ◌<◌, ◌≡◌, ◌≢◌, refl, sym, ap, ◌∙◌, inl, inr, Bool, true, false, not, ◌&&◌,
  none, some, [], ◌∷◌, ◌++◌, arith, ◌==◌, if◌then◌else◌, Bool-cases, Bytes, length, drop, lt→ltb,
  subst, ◌⊎◌, take-append_all, drop-append_all, take-append-drop, drop-drop,
}
use checkedc_vsftpd.Text.{
  LocateResult, not_located, c_text, has_prefix, among, str_isempty, str_locate_text,
  str_locate_str, locate_chars_loop, str_locate_chars, str_equal,
}
use checkedc_vsftpd.Text.Find.{has_prefix-take, has_prefix-append, str_locate_text-First}
use checkedc_vsftpd.Text.Order.{str_equal_iff}
use checkedc_vsftpd.Ls.{
  Paths, name_to_match, match_text, act, chop, whole, tokens, finish, next_job, next_token, round,
  passes,
}

abbrev special : Bytes
special = b'*' ∷ b'?' ∷ b'{' ∷ []

-- No byte of the filter is 0 or begins a token.
abbrev pub plain : Bytes → Bool
plain [] = true
plain (c ∷ f) = not (c == 0) && (not (among c special) && plain f)

pub c_text-plain : (f : Bytes) → plain f ≡ true → c_text f ≡ f
unfolding c_text
c_text-plain [] h = refl
c_text-plain (c ∷ f) h = ground (arith, c_text-plain f)

plain_parts :
    (c : ℕ) (f : Bytes) → plain (c ∷ f) ≡ true → (among c special ≡ false) × (plain f ≡ true)
plain_parts c f h = (ground (arith, h), ground (arith, h))

chars-plain : (i : ℕ) (f : Bytes) → plain f ≡ true → locate_chars_loop i f special ≡ not_located
unfolding locate_chars_loop
chars-plain i [] h = refl
chars-plain i (c ∷ f) h =
    let (ordinary, rest) = plain_parts c f h in rw ordinary (chars-plain (i + 1) f rest)

star_special : among b'*' special ≡ true
unfolding among
star_special = refl

place : ℕ → LocateResult
place i = record { found = true; index = i; char_found = b'*' }

chars-star :
    (i : ℕ) (f : Bytes)
    → plain f ≡ true
    → locate_chars_loop i (f ++ b'*' ∷ []) special ≡ place (i + length f)
unfolding locate_chars_loop place
chars-star i [] h = rw star_special (ap place (omega arith))
chars-star i (c ∷ f) h =
    let (ordinary, rest) = plain_parts c f h in
    rw ordinary (chars-star (i + 1) f rest ∙ ap place (omega arith))

zero_or : (n : ℕ) → (n ≡ 0) ⊎ (0 < n)
zero_or zero = inl refl
zero_or (suc n) = inr (omega arith)

pub not_empty : (f : Bytes) → str_isempty f ≡ false → length f ≢ 0
not_empty f h = ground (arith, h)

-- A text that must match at the current position is chopped off the front, or the match fails.
match_here :
    (name f : Bytes)
    → plain f ≡ true
    → str_isempty f ≡ false
    → match_text true name f ≡ (if has_prefix f name then some (drop (length f) name) else none)
unfolding match_text str_locate_str
match_here name f h ne =
    let i = (str_locate_text name f).index in
    rw (c_text-plain f h, ne)
      (elim (str_locate_text-First name f (not_empty f ne)) [
        | inl (found, at, room, before) ↦ rw found (elim (zero_or i) [
          | inl z ↦
              let front : has_prefix f name ≡ true =
                subst (λ k. has_prefix f (drop k name) ≡ true) z at in
              let back : 0 + length f ≡ length f = omega arith in rw (z, front) (rw back refl)
          | inr later ↦ elim (Bool-cases (has_prefix f name)) [
            | inl e ↦ absurd (before 0 later e)
            | inr e ↦ rw (e, lt→ltb 0 i later) refl
          ]
        ])
        | inr (lost, absent) ↦ rw lost (elim (Bool-cases (has_prefix f name)) [
          | inl e ↦ absurd (absent 0 e)
          | inr e ↦ rw e refl
        ])
      ])

token_plain : (f : Bytes) → plain f ≡ true → next_token f ≡ (f, (0, []))
unfolding next_token str_locate_chars
token_plain f h = rw (chars-plain 0 f h) refl

token_star : (f : Bytes) → plain f ≡ true → next_token (f ++ b'*' ∷ []) ≡ (f, (b'*', []))
unfolding next_token str_locate_chars place
token_star f h =
    let start : 0 + length f ≡ length f = omega arith in
    rw
      (
        chars-star 0 f h,
        start,
        take-append_all f (b'*' ∷ []),
        ← drop-drop (length f) 1 (f ++ b'*' ∷ []),
        drop-append_all f (b'*' ∷ []),
      )
      refl

act_if :
    (token : ℕ) (rest : Bytes) (b : Bool) (name : Bytes)
    → act token rest (if b then some name else none)
      ≡ (if b then next_job token rest name else none)
act_if token rest true name = refl
act_if token rest false name = refl

-- What follows the match of a plain beginning.
round_at :
    (filter f name rest : Bytes) (token : ℕ)
    → next_token filter ≡ (f, (token, rest))
    → plain f ≡ true
    → str_isempty f ≡ false
    → round filter name true
      ≡ (if has_prefix f name then next_job token rest (drop (length f) name) else none)
unfolding round
round_at filter f name rest token e h ne =
    ap (chop true name) e
    ∙ ap (act token rest) (match_here name f h ne)
    ∙ act_if token rest (has_prefix f name) (drop (length f) name)

next_plain : (name : Bytes) → next_job 0 [] name ≡ some (tokens [] name false 0)
unfolding next_job
next_plain name = refl

next_star : (name : Bytes) → next_job b'*' [] name ≡ some (tokens [] name false b'*')
unfolding next_job
next_star name = refl

-- At the end of the filter the loop ends.
at_end :
    (k : ℕ) (paths : Paths) (name : Bytes) (must : Bool) (token : ℕ)
    → passes (suc k) paths (tokens [] name must token) 1 ≡ some (finish name token 1, 1)
unfolding passes
at_end k paths name must token = refl

tokens_step :
    (k : ℕ) (paths : Paths) (filter name : Bytes) (b : Bool) (name' : Bytes) (token : ℕ)
    → str_isempty filter ≡ false
    → round filter name true ≡ (if b then some (tokens [] name' false token) else none)
    → passes (suc (suc k)) paths (tokens filter name true 0) 0
      ≡ some ((if b then finish name' token 1 else false), 1)
unfolding passes
tokens_step k paths filter name true name' token some_filter e = rw (some_filter, e) refl
tokens_step k paths filter name false name' token some_filter e = rw (some_filter, e) refl

if_true : (b : Bool) → (if b then true else false) ≡ b
if_true true = refl
if_true false = refl

star_nonempty : (f : Bytes) → str_isempty (f ++ b'*' ∷ []) ≡ false
star_nonempty [] = refl
star_nonempty (c ∷ f) = ground arith

not_equal : (n f : Bytes) → n ≢ f → str_equal n f ≡ false
not_equal n f h = elim (Bool-cases (str_equal n f)) [
  | inl e ↦ absurd (h ((str_equal_iff n f).0 e))
  | inr e ↦ e
]

longer : (n f : Bytes) (x : ℕ) (r : Bytes) → drop (length f) n ≡ x ∷ r → n ≢ f
longer n f x r e q =
    let gone : drop (length f) f ≡ [] =
      ap (drop (length f)) (sym (append-nil f)) ∙ drop-append_all f [] in
    let same : drop (length f) n ≡ drop (length f) f = ap (drop (length f)) q in cc

finish_rest :
    (n f r : Bytes) → has_prefix f n ≡ true → drop (length f) n ≡ r → finish r 0 1 ≡ str_equal n f
unfolding finish
finish_rest n f [] p e =
    let whole_name : n ≡ f =
      sym (take-append-drop (length f) n)
      ∙ ap (λ u. u ++ drop (length f) n) ((has_prefix-take f n p).0)
      ∙ ap (λ u. f ++ u) e
      ∙ append-nil f in
    sym ((str_equal_iff n f).1 whole_name)
finish_rest n f (x ∷ r) p e = rw (not_equal n f (longer n f x r e)) ground arith

-- A name that is matched to its end is the filter.
finish_plain :
    (n f : Bytes)
    → (if has_prefix f n then finish (drop (length f) n) 0 1 else false) ≡ str_equal n f
finish_plain n f = elim (Bool-cases (has_prefix f n)) [
  | inl p ↦ rw p (finish_rest n f (drop (length f) n) p refl)
  | inr p ↦ rw (p, not_equal n f (λ q. false≢true (sym p ∙ ap (has_prefix f) q ∙ itself f))) refl
]
  where
    itself : (f : Bytes) → has_prefix f f ≡ true
    itself f = ap (has_prefix f) (sym (append-nil f)) ∙ has_prefix-append f []

finish_star : (n : Bytes) → finish n b'*' 1 ≡ true
unfolding finish
finish_star n = ground arith

whole_step :
    (k : ℕ) (paths : Paths) (name norm filter : Bytes)
    → paths.realpath name ≡ some norm
    → passes (suc k) paths (whole name filter) 0
      ≡ passes k paths (tokens filter (name_to_match paths filter (c_text norm)) true 0) 0
unfolding passes
whole_step k paths name norm filter e = rw (e, passes) refl

-- A filter with no token and no zero byte, which is not empty, passes the name that is matched against
-- it if and only if they are equal, in three steps and one iteration.
pub passes-plain :
    (k : ℕ) (paths : Paths) (name norm f : Bytes)
    → paths.realpath name ≡ some norm
    → plain f ≡ true
    → str_isempty f ≡ false
    → passes (suc (suc (suc k))) paths (whole name f) 0
      ≡ some (str_equal (name_to_match paths f (c_text norm)) f, 1)
passes-plain k paths name norm f e h ne =
    let n = name_to_match paths f (c_text norm) in
    let r = round_at f f n [] 0 (token_plain f h) h ne in
    whole_step (suc (suc k)) paths name norm f e
    ∙ tokens_step k paths f n (has_prefix f n) (drop (length f) n) 0 ne
        (r ∙ ap (λ j. if has_prefix f n then j else none) (next_plain (drop (length f) n)))
    ∙ ap (λ b. some (b, 1)) (finish_plain n f)

-- With a star behind it, such a filter passes the names that begin with it, and no others.
pub passes_star :
    (k : ℕ) (paths : Paths) (name norm f : Bytes)
    → paths.realpath name ≡ some norm
    → plain f ≡ true
    → str_isempty f ≡ false
    → passes (suc (suc (suc k))) paths (whole name (f ++ b'*' ∷ [])) 0
      ≡ some (has_prefix f (name_to_match paths (f ++ b'*' ∷ []) (c_text norm)), 1)
passes_star k paths name norm f e h ne =
    let n = name_to_match paths (f ++ b'*' ∷ []) (c_text norm) in
    let r = round_at (f ++ b'*' ∷ []) f n [] b'*' (token_star f h) h ne in
    whole_step (suc (suc k)) paths name norm (f ++ b'*' ∷ []) e
    ∙ tokens_step k paths (f ++ b'*' ∷ []) n (has_prefix f n) (drop (length f) n) b'*'
        (star_nonempty f)
        (r ∙ ap (λ j. if has_prefix f n then j else none) (next_star (drop (length f) n)))
    ∙ ap (λ b. some (b, 1))
        (ap (λ b. if has_prefix f n then b else false) (finish_star (drop (length f) n))
          ∙ if_true (has_prefix f n))
