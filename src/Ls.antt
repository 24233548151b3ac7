-- ===== src/Ls.antt =====
-- ls.c, vsf_filename_passes_filter, on contents. What realpath and getcwd answer is an argument.
pub mod Filter
use checkedc_vsftpd.Base.{
  ℕ, zero, suc, ◌+◌, ◌-◌, Bool, true, false, not, ◌&&◌, ◌||◌, Option, none, some, [], ◌∷◌, ◌++◌,
  ltb, leb, ◌==◌, if◌then◌else◌, Bytes, length, take, drop,
}
use checkedc_vsftpd.Text.{
  LocateResult, c_text, str_isempty, str_locate_str, str_locate_chars, str_locate_char,
}
use checkedc_vsftpd.Text.Split.{str_split_char, str_basename}

abbrev pub vsftp_matchiters_max : ℕ
vsftp_matchiters_max = 1000

pub record Paths : Type 0 where
  pub realpath : Bytes → Option Bytes
  pub getcwd : Bytes

-- Is this the character at 0? A string without one has none.
abbrev pub starts_with : ℕ → Bytes → Bool
starts_with c [] = false
starts_with c (d ∷ s) = c == d

-- `name_remain_str` before the loop, from the filter and the normalized name.
unfoldable pub name_to_match : Paths → Bytes → Bytes → Bytes
name_to_match paths filter norm =
    let cwd : Bytes =
      if ltb 1 (length paths.getcwd) then paths.getcwd ++ b'/' ∷ [] else paths.getcwd in
    if str_isempty filter || str_isempty norm
    then norm
    else if starts_with b'/' filter
    then (if starts_with b'/' norm then norm else cwd ++ norm)
    else if starts_with b'{' filter
    then norm
    else str_basename norm

-- The loop that keeps advancing `indexx` while there is one more match, on fuel.
unfoldable pub scan_forward : ℕ → ℕ → Bytes → Bytes → ℕ
scan_forward zero indexx scan_fwd needed = indexx
scan_forward (suc fuel) indexx scan_fwd needed =
    let r = str_locate_str scan_fwd needed in
    let rest =
      scan_forward fuel (indexx + (r.index + length needed))
        (drop (r.index + length needed) scan_fwd) needed in
    if r.found then rest else indexx

-- Chopping the text that is needed out of the name; `none` is a failure.
unfoldable pub match_text : Bool → Bytes → Bytes → Option Bytes
match_text must_match_at_current_pos name needed =
    let r = str_locate_str name needed in
    let far = scan_forward (length name) r.index (drop (r.index + length needed) name) needed in
    let indexx = if must_match_at_current_pos then r.index else far in
    if str_isempty needed
    then some name
    else if not r.found
    then none
    else if must_match_at_current_pos && ltb 0 r.index
    then none
    else some (drop (indexx + length needed) name)

-- What is to be done next: a whole call, the loop over the tokens of a filter, or the loop over
-- the alternatives of a brace list.
pub data Job : Type 0 where
  whole : (name filter : Bytes) → Job
  tokens :
      (filter_remain name_remain : Bytes) (must_match_at_current_pos : Bool) (last_token : ℕ) → Job
  braces : (brace_list temp filter_remain name_remain : Bytes) → Job

-- The end of a call, behind the loop.
unfoldable pub finish : Bytes → ℕ → ℕ → Bool
finish name_remain last_token iters =
    if ltb 0 (length name_remain) && not (last_token == b'*')
    then false
    else not (iters == vsftp_matchiters_max)

-- A round's token and the rest of the filter behind it: what to do next, or that it fails.
unfoldable pub next_job : ℕ → Bytes → Bytes → Option Job
next_job token filter name =
    if token == b'?'
    then (if str_isempty name then none else some (tokens filter (drop 1 name) true token))
    else if token == b'{'
    then if (str_locate_char filter b'}').found
      then (let (list, rest) = str_split_char filter b'}' in
          let (first, others) = str_split_char list b',' in some (braces first others rest name))
      else if starts_with b'{' name
      then some (tokens filter (drop 1 name) true token)
      else none
    else some (tokens filter name false token)

-- The text up to the next token, that token (0 for none) and the filter behind it.
unfoldable pub next_token : Bytes → Bytes × (ℕ × Bytes)
next_token filter =
    let r = str_locate_chars filter (b'*' ∷ b'?' ∷ b'{' ∷ []) in
    if r.found
    then (take r.index filter, (r.char_found, drop (r.index + 1) filter))
    else (filter, (0, []))

abbrev pub act : ℕ → Bytes → Option Bytes → Option Job
act token rest none = none
act token rest (some name) = next_job token rest name

abbrev pub chop : Bool → Bytes → Bytes × (ℕ × Bytes) → Option Job
chop must_match_at_current_pos name (needed, (token, rest)) =
    act token rest (match_text must_match_at_current_pos name needed)

-- One round of the loop over tokens, up to the next one.
unfoldable pub round : Bytes → Bytes → Bool → Option Job
round filter name must_match_at_current_pos =
    chop must_match_at_current_pos name (next_token filter)

-- The answer and the iterations used, on fuel; `none` is fuel that ran out.
unfoldable pub passes : ℕ → Paths → Job → ℕ → Option (Bool × ℕ)
passes zero paths job iters = none
passes (suc fuel) paths (whole name filter) iters = elim (paths.realpath name) [
  | none ↦ some (false, iters)
  | some norm ↦
      passes fuel paths (tokens filter (name_to_match paths filter (c_text norm)) true 0) iters
]
passes (suc fuel) paths (tokens filter name must last_token) iters =
    let rest : Option (Bool × ℕ) = elim (round filter name must) [
      | none ↦ some (false, suc iters)
      | some job ↦ passes fuel paths job (suc iters)
    ] in
    if str_isempty filter || leb vsftp_matchiters_max iters
    then some (finish name last_token iters, iters)
    else rest
passes (suc fuel) paths (braces list temp filter name) iters =
    let here = passes fuel paths (whole name (list ++ filter)) iters in
    let rest : Option (Bool × ℕ) = elim here [
      | none ↦ none
      | some (true, used) ↦ some (true, used)
      | some (false, used) ↦
          passes fuel paths
            (braces (str_split_char temp b',').0 (str_split_char temp b',').1 filter name) used
    ] in
    if str_isempty list then some (false, iters) else rest
