-- ===== src/Postlogin/Allowed.antt =====
-- postlogin.c, the loops over cmds_allowed and cmds_denied against the items of their lists.
use checkedc_vsftpd.Base.{
  ℕ, zero, suc, ◌+◌, ◌<◌, ◌≡◌, refl, inl, inr, Bool, true, false, not, ◌&&◌, ◌||◌, Option, none,
  some, List, [], ◌∷◌, arith, ◌==◌, if◌then◌else◌, Bool-cases, Bytes, codes, length,
}
use checkedc_vsftpd.Text.{str_isempty, str_equal}
use checkedc_vsftpd.Text.Split.{str_split_char_lem, before, after, has_byte, absent-before}
use checkedc_vsftpd.Parseconf.{Tunables}
use checkedc_vsftpd.Postlogin.{in_cmds, both_ok, allowed_by, not_denied_by, cmd_ok}

abbrev pub onto_first : ℕ → List Bytes → List Bytes
onto_first c [] = (c ∷ []) ∷ []
onto_first c (item ∷ items) = (c ∷ item) ∷ items

-- The items of a list with separators, one more than separators.
abbrev pub items : ℕ → Bytes → List Bytes
items c [] = [] ∷ []
items c (x ∷ s) = if x == c then [] ∷ items c s else onto_first x (items c s)

-- Is the text an item in front of the first one that is empty?
abbrev pub among_items : Bytes → List Bytes → Bool
among_items cmd [] = false
among_items cmd (item ∷ rest) =
    not (str_isempty item) && (str_equal item cmd || among_items cmd rest)

abbrev pub listed_cmd : Bytes → Bytes → Bool
listed_cmd list cmd = among_items cmd (items b',' list)

items-parts :
    (c : ℕ) (s : Bytes)
    → items c s ≡ before c s ∷ (if has_byte c s then items c (after c s) else [])
items-parts c [] = refl
items-parts c (x ∷ s) = elim (Bool-cases (x == c)) [
  | inl e ↦ rw e refl
  | inr e ↦ rw (e, items-parts c s) refl
]

after_less : (c : ℕ) (s : Bytes) → has_byte c s ≡ true → length (after c s) < length s
after_less c [] h = cc
after_less c (x ∷ s) h = elim (Bool-cases (x == c)) [
  | inl e ↦ rw e (omega arith)
  | inr e ↦ let less = after_less c s (rw e at h) in rw e (omega arith)
]

-- An empty list has no items.
in_cmds-nil : (fuel : ℕ) (cmd : Bytes) → 0 < fuel → in_cmds fuel [] cmd ≡ some false
unfolding in_cmds
in_cmds-nil zero cmd h = absurd (omega arith)
in_cmds-nil (suc fuel) cmd h = rw (str_split_char_lem [] b',' (λ e. cc)) refl

before-pos : (c : ℕ) (s : Bytes) → str_isempty (before c s) ≡ false → 0 < length s
before-pos c [] h = cc
before-pos c (x ∷ s) h = omega arith

in_cmds_lem :
    (fuel : ℕ) (list cmd : Bytes)
    → length list < fuel
    → in_cmds fuel list cmd ≡ some (listed_cmd list cmd)
unfolding in_cmds
in_cmds_lem zero list cmd h = elim h [ ]
in_cmds_lem (suc fuel) list cmd h =
    rw (str_split_char_lem list b',' (λ e. cc), items-parts b',' list)
      (elim (Bool-cases (str_isempty (before b',' list))) [
        | inl e ↦ rw e refl
        | inr e ↦ elim (Bool-cases (str_equal (before b',' list) cmd)) [
          | inl hit ↦ rw (e, hit) refl
          | inr miss ↦ elim (Bool-cases (has_byte b',' list)) [
            | inl more ↦
                rw
                  (
                    e,
                    miss,
                    more,
                    in_cmds_lem fuel (after b',' list) cmd
                        (omega (arith, after_less b',' list more)),
                  )
                  refl
            | inr last ↦
                rw
                  (
                    e,
                    miss,
                    last,
                    (absent-before b',' list last).1,
                    in_cmds-nil fuel cmd (omega (arith, before-pos b',' list e)),
                  )
                  refl
          ]
        ]
      ])

-- A command is allowed when it is an item of the one list, where there is one, and not one of the
-- other; of both lists only the items before the first empty one count.
abbrev pub allows : Tunables → Bytes → Bool
allows t cmd =
    elim (t.strs (codes "cmds_allowed")) [ none ↦ true | some list ↦ listed_cmd list cmd ]
    && elim (t.strs (codes "cmds_denied")) [ none ↦ true | some list ↦ not (listed_cmd list cmd) ]

pub cmd_ok_lem : (t : Tunables) (cmd : Bytes) → cmd_ok t cmd ≡ some (allows t cmd)
unfolding cmd_ok
cmd_ok_lem t cmd = go (t.strs (codes "cmds_allowed")) (t.strs (codes "cmds_denied"))
  where
    go :
        (a d : Option Bytes)
        → both_ok (allowed_by a cmd) (not_denied_by d cmd)
          ≡ some (
              elim a as (λ _. Bool) [ none ↦ true | some list ↦ listed_cmd list cmd ]
              && elim d as (λ _. Bool) [ none ↦ true | some list ↦ not (listed_cmd list cmd) ])
    go none none = refl
    go none (some d) = rw (in_cmds_lem (length d + 1) d cmd (omega arith)) refl
    go (some a) none = rw (in_cmds_lem (length a + 1) a cmd (omega arith)) refl
    go (some a) (some d) =
        rw
          (
            in_cmds_lem (length a + 1) a cmd (omega arith),
            in_cmds_lem (length d + 1) d cmd (omega arith),
          )
          refl
