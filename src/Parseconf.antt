-- ===== src/Parseconf.antt =====
-- parseconf.c: one setting, and the lines of a configuration file. A setting's variable is named
-- by the setting. What the file system answers is an argument.
pub mod Complete
pub mod Defaults
pub mod Tables
pub mod Settings
pub mod Values
pub mod Files
use checkedc_vsftpd.Base.{
  ℕ, zero, suc, ◌+◌, ◌-◌, ◌%◌, Bool, true, false, not, ◌&&◌, ◌||◌, Option, none, some, List, [],
  ◌∷◌, ltb, leb, ◌==◌, if◌then◌else◌, Bytes, codes, length, take, drop, get_elem?,
}
use mathlib.Core.List.{map}
use checkedc_vsftpd.Run.{Run, Fault, ok, fault, ◌>>=◌}
use checkedc_vsftpd.Str.{sub32, int_max}
use checkedc_vsftpd.Text.{is_space, to_upper, c_text, str_isempty, str_equal_text, str_all_space}
use checkedc_vsftpd.Text.Split.{str_split_char}
use checkedc_vsftpd.Number.{atoi, vsf_sysutil_octal_to_uint}
use Tables.{parseconf_bool_array, parseconf_uint_array, parseconf_str_array}

-- The tunables that the tables point to.
pub record Tunables : Type 0 where
  pub strs : Bytes → Option Bytes
  pub bools : Bytes → Bool
  pub uints : Bytes → ℕ

abbrev pub assign {ℓ} : {A : Type ℓ} → (Bytes → A) → Bytes → A → Bytes → A
assign f name v other = if str_equal_text other name then v else f other

-- The walk through a table: is the name in it?
unfoldable pub in_table : Bytes → List Bytes → Bool
in_table name [] = false
in_table name (n ∷ table) = if str_equal_text name n then true else in_table name table

-- The index that the loop over white space at the front stops at.
unfoldable pub skip_front : Bytes → ℕ
unfolding is_space
skip_front [] = 0
skip_front (c ∷ s) = if is_space c then suc (skip_front s) else 0

-- The `t` of the loop over white space at the back, plus 1.
unfoldable pub skip_back : Bytes → ℕ
unfolding is_space
skip_back [] = 0
skip_back (c ∷ s) = let t = skip_back s in if t == 0 then (if is_space c then 0 else 1) else suc t

-- str.c: `newlen = t - h + 1`, the bounds cast of `p_trimmed + h` to `newlen` bytes, and the copy.
unfoldable pub str_strdup_trimmed : Bytes → Run (Option Bytes)
unfolding skip_front skip_back
str_strdup_trimmed s =
    let h = skip_front s in
    let newlen = sub32 (skip_back s) h in
    if ltb (length s) (h + newlen)
    then fault Fault.bounds
    else if newlen == 0
    then ok none
    else ok (some (take newlen (drop h s)))

-- `die2(..)` if `errs_fatal`.
abbrev complain : Bool → Tunables → Run Tunables
complain errs_fatal t = if errs_fatal then fault Fault.die else ok t

unfoldable pub load_str : Tunables → Bytes → Bytes → Run Tunables
unfolding str_strdup_trimmed
load_str t name value = (if str_isempty value then ok none else str_strdup_trimmed value) >>= λ v.
    ok (record t { strs = assign t.strs name v })

unfoldable pub load_bool : Tunables → Bytes → Bytes → Bool → Run Tunables
load_bool t name value errs_fatal =
    let upper = map to_upper value in
    if str_equal_text upper (codes "YES")
      || (str_equal_text upper (codes "TRUE") || str_equal_text upper (codes "1"))
    then ok (record t { bools = assign t.bools name true })
    else if str_equal_text upper (codes "NO")
        || (str_equal_text upper (codes "FALSE") || str_equal_text upper (codes "0"))
    then ok (record t { bools = assign t.bools name false })
    else complain errs_fatal t

-- `str_octal_to_uint` and `str_atoi` read the buffer as a C text.
unfoldable pub load_uint : Tunables → Bytes → Bytes → Run Tunables
load_uint t name value =
    let n : ℕ = elim (get_elem? value 0) [
      | none ↦ atoi (c_text value)
      | some c ↦ if c == b'0' then vsf_sysutil_octal_to_uint (c_text value) else atoi (c_text value)
    ] in
    ok (record t { uints = assign t.uints name n })

-- The three tables, for a setting that is split at the first `=`.
unfoldable pub load_named : Tunables → Bytes → Bytes → Bool → Run Tunables
load_named t name value errs_fatal =
    if in_table name parseconf_str_array
    then load_str t name value
    else if str_isempty value
    then complain errs_fatal t
    else if in_table name parseconf_bool_array
    then load_bool t name value errs_fatal
    else if in_table name parseconf_uint_array
    then load_uint t name value
    else complain errs_fatal t

-- `p_setting` is a C text. The loop that skips white space at its front moves an index that
-- nothing reads.
unfoldable pub vsf_parseconf_load_setting : Tunables → Bytes → Bool → Run Tunables
vsf_parseconf_load_setting t p_setting errs_fatal =
    let (name, value) = str_split_char p_setting b'=' in load_named t name value errs_fatal
