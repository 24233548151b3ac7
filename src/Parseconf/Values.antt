-- ===== src/Parseconf/Values.antt =====
-- parseconf.c, one setting: the variables and their values.
use mathlib.Core.List.{map}
use checkedc_vsftpd.Base.{
  ◌^◌, ==-no, ℕ, ◌+◌, ◌<◌, ◌≡◌, ◌≢◌, refl, ap, ◌∙◌, inl, inr, Bool, true, false, ◌||◌, Option, none,
  ◌∷◌, ◌++◌, arith, ltb, ◌==◌, Bool-cases, Bytes, codes, length,
}
use checkedc_vsftpd.Run.{Run, Fault, ok, fault, ◌>>=◌}
use checkedc_vsftpd.Str.{sub32}
use checkedc_vsftpd.Text.{
  is_space, is_digit, to_upper, c_text, str_isempty, str_equal_text, str_all_space,
}
use checkedc_vsftpd.Text.Order.{str_equal_text_iff}
use checkedc_vsftpd.Text.Split.{before-join, str_split_char_lem, before, after, has_byte}
use checkedc_vsftpd.Number.Octal.{octal_to_uint_zero}
use checkedc_vsftpd.Number.Decimal.{c_text-digits, atoi-decimal, all_digits, decimal}
use checkedc_vsftpd.Parseconf.{
  Tunables, assign, in_table, str_strdup_trimmed, load_str, load_bool, load_uint,
  vsf_parseconf_load_setting, complain, load_named, skip_front, skip_back,
}
use checkedc_vsftpd.Parseconf.Settings.{in_other, uints_strs, uints_bools, bools_strs, equals_not_0}
use checkedc_vsftpd.Parseconf.Tables.{
  parseconf_bool_array, parseconf_uint_array, parseconf_str_array,
}

not_empty : (c : ℕ) (s : Bytes) → str_isempty (c ∷ s) ≡ false
not_empty c s = ground arith

-- A setting that is printed with its `=` goes to the tables as its two parts.
setting_named :
    (t : Tunables) (name value : Bytes) (errs_fatal : Bool)
    → has_byte b'=' name ≡ false
    → vsf_parseconf_load_setting t (name ++ b'=' ∷ value) errs_fatal
      ≡ load_named t name value errs_fatal
unfolding vsf_parseconf_load_setting
setting_named t name value errs_fatal h =
    ap (λ p. load_named t p.0 p.1 errs_fatal)
      (str_split_char_lem (name ++ b'=' ∷ value) b'=' equals_not_0)
    ∙ rw ((before-join b'=' name value h).0, (before-join b'=' name value h).1) refl

-- A number setting of the table, printed as its name, `=` and decimal digits that do not begin
-- with 0 and are below 2 ^ 31, sets its own variable to the value of the digits.
pub load_setting_uint :
    (t : Tunables) (name : Bytes) (c : ℕ) (digits : Bytes) (errs_fatal : Bool)
    → in_table name parseconf_uint_array ≡ true
    → has_byte b'=' name ≡ false
    → all_digits (c ∷ digits) ≡ true
    → c ≢ b'0'
    → decimal 0 (c ∷ digits) < 2 ^ 31
    → vsf_parseconf_load_setting t (name ++ b'=' ∷ c ∷ digits) errs_fatal
      ≡ ok (record t { uints = assign t.uints name (decimal 0 (c ∷ digits)) })
unfolding load_named load_uint
load_setting_uint t name c digits errs_fatal known plain h nonzero small =
    setting_named t name (c ∷ digits) errs_fatal plain
    ∙ rw
        (
          in_other name parseconf_uint_array parseconf_str_array uints_strs known,
          in_other name parseconf_uint_array parseconf_bool_array uints_bools known,
          known,
          not_empty c digits,
          ==-no c b'0' nonzero,
          atoi-decimal c digits h (omega arith),
        )
        refl

-- A number setting of the table whose value is written with decimal digits, the first a 0, sets
-- its variable to 0.
pub load_setting_octal :
    (t : Tunables) (name digits : Bytes) (errs_fatal : Bool)
    → in_table name parseconf_uint_array ≡ true
    → has_byte b'=' name ≡ false
    → all_digits digits ≡ true
    → vsf_parseconf_load_setting t (name ++ b'=' ∷ b'0' ∷ digits) errs_fatal
      ≡ ok (record t { uints = assign t.uints name 0 })
unfolding load_named load_uint
load_setting_octal t name digits errs_fatal known plain h =
    setting_named t name (b'0' ∷ digits) errs_fatal plain
    ∙ rw
        (
          in_other name parseconf_uint_array parseconf_str_array uints_strs known,
          in_other name parseconf_uint_array parseconf_bool_array uints_bools known,
          known,
          not_empty b'0' digits,
          c_text-digits (b'0' ∷ digits) h,
          octal_to_uint_zero digits,
        )
        refl

-- How the manual page spells the values of a switch.
abbrev pub print_bool : Bool → Bytes
print_bool true = codes "YES"
print_bool false = codes "NO"

switch :
    (t : Tunables) (name : Bytes) (b errs_fatal : Bool)
    → in_table name parseconf_str_array ≡ false
    → in_table name parseconf_bool_array ≡ true
    → load_named t name (print_bool b) errs_fatal ≡ ok (record t { bools = assign t.bools name b })
unfolding load_named load_bool str_equal_text checkedc_vsftpd.Text.str_equal_internal to_upper
switch t name true errs_fatal other known = rw (other, known) refl
switch t name false errs_fatal other known = rw (other, known) refl

-- A switch of the table, printed as its name, `=` and YES or NO, sets its own variable to that.
pub load_setting_bool :
    (t : Tunables) (name : Bytes) (b errs_fatal : Bool)
    → in_table name parseconf_bool_array ≡ true
    → has_byte b'=' name ≡ false
    → vsf_parseconf_load_setting t (name ++ b'=' ∷ print_bool b) errs_fatal
      ≡ ok (record t { bools = assign t.bools name b })
load_setting_bool t name b errs_fatal known plain =
    setting_named t name (print_bool b) errs_fatal plain
    ∙ switch t name b errs_fatal
        (in_other name parseconf_bool_array parseconf_str_array bools_strs known) known

-- The variables of `other` are what they were, unless the program ended.
abbrev pub Same : Bytes → Tunables → Run Tunables → Type 0
Same other t (ok u) =
    (u.strs other ≡ t.strs other)
    × (u.bools other ≡ t.bools other)
    × (u.uints other ≡ t.uints other)
Same other t (fault e) = e ≢ Fault.bug

assign_other {ℓ} :
    {A : Type ℓ} (f : Bytes → A) (name other : Bytes) (v : A)
    → other ≢ name
    → assign f name v other ≡ f other
assign_other f name other v h = elim (Bool-cases (str_equal_text other name)) [
  | inl e ↦ absurd (h ((str_equal_text_iff other name).0 e))
  | inr e ↦ rw e refl
]

complain-Same :
    (t : Tunables) (other : Bytes) (errs_fatal : Bool) → Same other t (complain errs_fatal t)
complain-Same t other true = λ e. cc
complain-Same t other false = (refl, refl, refl)

trimmed_no_bug : (value : Bytes) → str_strdup_trimmed value ≢ fault Fault.bug
unfolding str_strdup_trimmed
trimmed_no_bug value =
    let h = skip_front value in
    let newlen = sub32 (skip_back value) h in
    elim (Bool-cases (ltb (length value) (h + newlen))) [
      | inl e ↦ rw e (λ q. cc)
      | inr e ↦
          rw e (elim (Bool-cases (newlen == 0)) [ inl d ↦ rw d (λ q. cc) | inr d ↦ rw d (λ q. cc) ])
    ]

load_str-Same :
    (t : Tunables) (name value other : Bytes) → other ≢ name → Same other t (load_str t name value)
unfolding load_str
load_str-Same t name value other h = elim (Bool-cases (str_isempty value)) [
  | inl e ↦ rw e (assign_other t.strs name other none h, refl, refl)
  | inr e ↦ rw e (trimmed (str_strdup_trimmed value) (trimmed_no_bug value))
]
  where
    trimmed :
        (r : Run (Option Bytes))
        → r ≢ fault Fault.bug
        → Same other t (r >>= λ v. ok (record t { strs = assign t.strs name v }))
    trimmed (ok v) g = (assign_other t.strs name other v h, refl, refl)
    trimmed (fault e) g = λ q. g (ap fault q)

load_bool-Same :
    (t : Tunables) (name value other : Bytes) (errs_fatal : Bool)
    → other ≢ name
    → Same other t (load_bool t name value errs_fatal)
unfolding load_bool
load_bool-Same t name value other errs_fatal h =
    let upper = map to_upper value in
    elim (Bool-cases (
      str_equal_text upper (codes "YES")
      || (str_equal_text upper (codes "TRUE") || str_equal_text upper (codes "1")))) [
        | inl e ↦ rw e (refl, assign_other t.bools name other true h, refl)
        | inr e ↦
            elim (Bool-cases (
              str_equal_text upper (codes "NO")
              || (str_equal_text upper (codes "FALSE") || str_equal_text upper (codes "0")))) [
                | inl d ↦ rw (e, d) (refl, assign_other t.bools name other false h, refl)
                | inr d ↦ rw (e, d) (complain-Same t other errs_fatal)
              ]
      ]

load_uint-Same :
    (t : Tunables) (name value other : Bytes) → other ≢ name → Same other t (load_uint t name value)
unfolding load_uint
load_uint-Same t name value other h = (refl, refl, assign_other t.uints name other _ h)

load_named-Same :
    (t : Tunables) (name value other : Bytes) (errs_fatal : Bool)
    → other ≢ name
    → Same other t (load_named t name value errs_fatal)
unfolding load_named
load_named-Same t name value other errs_fatal h =
    elim (Bool-cases (in_table name parseconf_str_array)) [
      | inl e ↦ rw e (load_str-Same t name value other h)
      | inr e ↦ rw e (elim (Bool-cases (str_isempty value)) [
        | inl d ↦ rw d (complain-Same t other errs_fatal)
        | inr d ↦ rw d (elim (Bool-cases (in_table name parseconf_bool_array)) [
          | inl b ↦ rw b (load_bool-Same t name value other errs_fatal h)
          | inr b ↦ rw b (elim (Bool-cases (in_table name parseconf_uint_array)) [
            | inl u ↦ rw u (load_uint-Same t name value other h)
            | inr u ↦ rw u (complain-Same t other errs_fatal)
          ])
        ])
      ])
    ]

-- A setting leaves the variables of every name but the one before its first `=` as they were.
-- Where it does not return, it is refused or fails at a bounds check, and never ends in `bug`.
pub load_setting-Same :
    (t : Tunables) (setting other : Bytes) (errs_fatal : Bool)
    → other ≢ before b'=' setting
    → Same other t (vsf_parseconf_load_setting t setting errs_fatal)
unfolding vsf_parseconf_load_setting
load_setting-Same t setting other errs_fatal h =
    rw (str_split_char_lem setting b'=' equals_not_0)
      (load_named-Same t (before b'=' setting) (after b'=' setting) other errs_fatal h)
