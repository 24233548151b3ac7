-- ===== src/Parseconf/Complete.antt =====
-- tunables.c against the tables of parseconf.c: the same names.
use checkedc_vsftpd.Base.{
  ◌≡◌, ◌↔◌, refl, sym, inl, inr, subst, Bool, true, ◌&&◌, List, [], ◌∷◌, Bool-cases, Bytes, arith,
}
use checkedc_vsftpd.Text.{str_equal_text}
use checkedc_vsftpd.Text.Order.{str_equal_text_iff}
use checkedc_vsftpd.Parseconf.{in_table}
use checkedc_vsftpd.Parseconf.Tables.{
  parseconf_bool_array, parseconf_uint_array, parseconf_str_array,
}
use checkedc_vsftpd.Parseconf.Defaults.{default_bools, default_uints, default_strs}

abbrev pub assigned {ℓ} : {A : Type ℓ} → List (Bytes × A) → List Bytes
assigned [] = []
assigned ((name, v) ∷ rest) = name ∷ assigned rest

abbrev all_in : List Bytes → List Bytes → Bool
all_in [] table = true
all_in (name ∷ names) table = in_table name table && all_in names table

both : (a b : Bool) → (a && b) ≡ true → (a ≡ true) × (b ≡ true)
both a b h = ground arith

within :
    (name : Bytes) (xs ys : List Bytes)
    → all_in xs ys ≡ true
    → in_table name xs ≡ true
    → in_table name ys ≡ true
unfolding in_table
within name [] ys h k = cc
within name (x ∷ xs) ys h k =
    let (first, rest) = both (in_table x ys) (all_in xs ys) h in
    elim (Bool-cases (str_equal_text name x)) [
      | inl e ↦ subst (λ n. in_table n ys ≡ true) (sym ((str_equal_text_iff name x).0 e)) first
      | inr e ↦ within name xs ys rest (rw e at k)
    ]

-- A setting can be configured exactly when it has a default, of each of the three kinds.
pub defaults-in_table :
    (name : Bytes)
    → ((in_table name parseconf_bool_array ≡ true)
        ↔ (in_table name (assigned default_bools) ≡ true))
      × ((in_table name parseconf_uint_array ≡ true)
          ↔ (in_table name (assigned default_uints) ≡ true))
      × ((in_table name parseconf_str_array ≡ true)
          ↔ (in_table name (assigned default_strs) ≡ true))
unfolding parseconf_bool_array parseconf_uint_array parseconf_str_array default_bools default_uints
    default_strs in_table str_equal_text checkedc_vsftpd.Text.str_equal_internal
    checkedc_vsftpd.Text.memcmp
defaults-in_table name = (
  (
    within name parseconf_bool_array (assigned default_bools) refl,
    within name (assigned default_bools) parseconf_bool_array refl,
  ),
  (
    within name parseconf_uint_array (assigned default_uints) refl,
    within name (assigned default_uints) parseconf_uint_array refl,
  ),
  (
    within name parseconf_str_array (assigned default_strs) refl,
    within name (assigned default_strs) parseconf_str_array refl,
  ),
)
