-- ===== src/Parseconf/Settings.antt =====
-- parseconf.c, one setting: its name in the tables, and str_strdup_trimmed of str.c.
use checkedc_vsftpd.Base.{
  ℕ, ◌+◌, ◌-◌, ◌<◌, ◌≡◌, ◌≢◌, refl, inl, inr, Bool, true, false, not, ◌&&◌, List, [], ◌∷◌, arith,
  ◌==◌, Bool-cases, Bytes, length, lt→ltb,
}
use checkedc_vsftpd.Run.{Fault, fault}
use checkedc_vsftpd.Str.{sub32, int_max, u32_mod}
use checkedc_vsftpd.Text.{is_space, to_upper, c_text, str_isempty, str_equal_text, str_all_space}
use checkedc_vsftpd.Text.Order.{str_equal_text_iff}
use checkedc_vsftpd.Text.Split.{str_split_char_lem, before, after}
use checkedc_vsftpd.Parseconf.{
  Tunables, in_table, skip_front, skip_back, str_strdup_trimmed, load_named,
  vsf_parseconf_load_setting,
}
use checkedc_vsftpd.Parseconf.Tables.{
  parseconf_bool_array, parseconf_uint_array, parseconf_str_array,
}

blank_front : (s : Bytes) → str_all_space s ≡ true → skip_front s ≡ length s
unfolding skip_front str_all_space
blank_front [] h = refl
blank_front (c ∷ s) h = ground (arith, blank_front s)

blank_back : (s : Bytes) → str_all_space s ≡ true → skip_back s ≡ 0
unfolding skip_back str_all_space
blank_back [] h = refl
blank_back (c ∷ s) h = ground (arith, blank_back s)

-- Trimming a string of white space alone, not empty and shorter than INT_MAX, fails at its bounds
-- cast.
pub str_strdup_trimmed-blank :
    (s : Bytes)
    → str_all_space s ≡ true
    → 0 < length s
    → length s < int_max
    → str_strdup_trimmed s ≡ fault Fault.bounds
unfolding str_strdup_trimmed
str_strdup_trimmed-blank s h pos small =
    let wrapped : sub32 0 (length s) ≡ u32_mod - length s = omega arith in
    rw
      (
        blank_front s h,
        blank_back s h,
        wrapped,
        lt→ltb (length s) (length s + (u32_mod - length s)) (omega arith),
      )
      refl

-- No name of a table begins with this byte.
abbrev none_begins : ℕ → List Bytes → Bool
none_begins c [] = true
none_begins c ([] ∷ table) = none_begins c table
none_begins c ((d ∷ n) ∷ table) = not (c == d) && none_begins c table

not_in_table :
    (c : ℕ) (name : Bytes) (table : List Bytes)
    → none_begins c table ≡ true
    → in_table (c ∷ name) table ≡ false
unfolding in_table
not_in_table c name [] h = refl
not_in_table c name ([] ∷ table) h =
    ground (arith, not_in_table c name table, str_equal_text_iff (c ∷ name) [])
not_in_table c name ((d ∷ n) ∷ table) h =
    ground (arith, not_in_table c name table, str_equal_text_iff (c ∷ name) (d ∷ n))

no_space_strs : none_begins b' ' parseconf_str_array ≡ true
unfolding parseconf_str_array
no_space_strs = refl

no_space_bools : none_begins b' ' parseconf_bool_array ≡ true
unfolding parseconf_bool_array
no_space_bools = refl

no_space_uints : none_begins b' ' parseconf_uint_array ≡ true
unfolding parseconf_uint_array
no_space_uints = refl

abbrev equals_sign : ℕ
equals_sign = b'='

pub equals_not_0 : equals_sign ≢ 0
equals_not_0 = omega arith

-- Where errors are fatal, a setting with a space in front of its name ends the program, whatever
-- follows the space.
pub load_setting_front_space :
    (t : Tunables) (rest : Bytes)
    → vsf_parseconf_load_setting t (b' ' ∷ rest) true ≡ fault Fault.die
unfolding vsf_parseconf_load_setting load_named
load_setting_front_space t rest =
    rw
      (
        str_split_char_lem (b' ' ∷ rest) b'=' equals_not_0,
        not_in_table b' ' (before b'=' rest) parseconf_str_array no_space_strs,
        not_in_table b' ' (before b'=' rest) parseconf_bool_array no_space_bools,
        not_in_table b' ' (before b'=' rest) parseconf_uint_array no_space_uints,
      )
      (elim (Bool-cases (str_isempty (after b'=' rest))) [ inl e ↦ rw e refl | inr e ↦ rw e refl ])

-- Is no name of the first table in the second?
abbrev apart : List Bytes → List Bytes → Bool
apart [] table = true
apart (n ∷ names) table = not (in_table n table) && apart names table

pub in_other :
    (name : Bytes) (names table : List Bytes)
    → apart names table ≡ true
    → in_table name names ≡ true
    → in_table name table ≡ false
unfolding in_table
in_other name [] table none_shared here = cc
in_other name (n ∷ names) table none_shared here = elim (Bool-cases (str_equal_text name n)) [
  | inl e ↦ rw ((str_equal_text_iff name n).0 e) ground (arith, e)
  | inr e ↦ in_other name names table ground (arith, e) ground (arith, e)
]

pub uints_strs : apart parseconf_uint_array parseconf_str_array ≡ true
unfolding parseconf_uint_array parseconf_str_array in_table str_equal_text
    checkedc_vsftpd.Text.str_equal_internal
uints_strs = refl

pub uints_bools : apart parseconf_uint_array parseconf_bool_array ≡ true
unfolding parseconf_uint_array parseconf_bool_array in_table str_equal_text
    checkedc_vsftpd.Text.str_equal_internal
uints_bools = refl

pub bools_strs : apart parseconf_bool_array parseconf_str_array ≡ true
unfolding parseconf_bool_array parseconf_str_array in_table str_equal_text
    checkedc_vsftpd.Text.str_equal_internal
bools_strs = refl
