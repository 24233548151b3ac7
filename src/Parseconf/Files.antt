-- ===== src/Parseconf/Files.antt =====
-- parseconf.c, vsf_parseconf_load_file: the lines of a configuration file, one after the other.
use native.Mathlib.Decide.{dec_lt}
use checkedc_vsftpd.Base.{
  ℕ, zero, suc, ◌+◌, ◌-◌, ◌≤◌, ◌<◌, ◌≡◌, refl, Bool, true, false, ◌&&◌, ◌||◌, Option, none, some,
  List, [], ◌∷◌, arith, ◌==◌, if◌then◌else◌, Bytes, length, drop, length-drop,
}
use checkedc_vsftpd.Run.{Run, Fault, ok, fault, ◌>>=◌, map_run, >>=-map_run}
use checkedc_vsftpd.Text.{c_text, str_isempty, str_all_space}
use checkedc_vsftpd.Text.Lines.{
  str_getline, lines, line_of, str_getline-step, str_getline-end, lines-nonempty, at_end,
}
use checkedc_vsftpd.Parseconf.{Tunables, vsf_parseconf_load_setting}

-- `str_getline` never gives a line without a first byte here, so the character at 0 is there.
abbrev pub is_comment : Bytes → Bool
is_comment [] = false
is_comment (c ∷ s) = c == b'#'

-- The body of the loop. The setting is read as a C text.
unfoldable pub load_line : Tunables → Bytes → Bool → Run Tunables
load_line t line errs_fatal =
    if str_isempty line || (is_comment line || str_all_space line)
    then ok t
    else vsf_parseconf_load_setting t (c_text line) errs_fatal

-- `while (str_getline(..))`, on fuel; `none` is fuel that ran out.
unfoldable pub load_lines : ℕ → Tunables → Bytes → ℕ → Bool → Run (Option Tunables)
load_lines zero t file pos errs_fatal = ok none
load_lines (suc fuel) t file pos errs_fatal = str_getline file pos >>= λ r. elim r [
  | none ↦ ok (some t)
  | some (line, next) ↦ load_line t line errs_fatal >>= λ u. load_lines fuel u file next errs_fatal
]

-- What the operating system says of a file: its contents up to VSFTP_CONF_FILE_MAX, its owner
-- and whether it is a regular file. `none` is an error.
pub record Files : Type 0 where
  pub fileread : Bytes → Option Bytes
  pub stat : Bytes → Option (ℕ × Bool)
  pub getuid : ℕ

unfoldable pub stat_ok : Files → Bytes → Bool
stat_ok files name = elim (files.stat name) [
  | none ↦ false
  | some (uid, regular) ↦ uid == files.getuid && regular
]

-- `s_p_saved_filename` and the tunables.
pub record ParseState : Type 0 where
  pub saved : Option Bytes
  pub tunables : Tunables

abbrev pub loaded : Bytes → Tunables → ParseState
loaded name t = record { saved = some name; tunables = t }

-- The part that follows the choice of the name.
unfoldable pub load_named_file : Files → ℕ → ParseState → Bytes → Bool → Run (Option ParseState)
load_named_file files fuel p name errs_fatal = elim (files.fileread name) [
  | none ↦ if errs_fatal then fault Fault.die else ok (some p)
  | some file ↦
      if stat_ok files name
      then (load_lines fuel p.tunables file 0 errs_fatal >>= λ r. elim r [
        | none ↦ ok none
        | some t ↦ ok (some (record p { tunables = t }))
      ])
      else fault Fault.die
]

-- A name that is given is saved; without one the saved name is read again.
unfoldable pub vsf_parseconf_load_file :
    Files → ℕ → ParseState → Option Bytes → Bool → Run (Option ParseState)
vsf_parseconf_load_file files fuel p (some name) errs_fatal =
    load_named_file files fuel (record p { saved = some name }) name errs_fatal
vsf_parseconf_load_file files fuel p none errs_fatal = elim p.saved [
  | none ↦ fault Fault.bug
  | some name ↦ load_named_file files fuel p name errs_fatal
]

-- The settings of a list of lines, in their order.
abbrev pub load_all : Tunables → List Bytes → Bool → Run Tunables
load_all t [] errs_fatal = ok t
load_all t (l ∷ ls) errs_fatal = load_line t l errs_fatal >>= λ u. load_all u ls errs_fatal

load_lines_from :
    (fuel : ℕ) (t : Tunables) (file : Bytes) (pos : ℕ) (errs_fatal : Bool)
    → pos ≤ length file
    → length file - pos < fuel
    → load_lines fuel t file pos errs_fatal
      ≡ map_run some (load_all t (lines (drop pos file)) errs_fatal)
unfolding load_lines
load_lines_from zero t file pos errs_fatal h enough = elim enough [ ]
load_lines_from (suc fuel) t file pos errs_fatal h enough = elim (dec_lt pos (length file)) [
  | yes more ↦
      let (next, run, rest, on, within) = str_getline-step file pos more in
      rw (run, lines-nonempty (drop pos file) (omega (arith, length-drop pos file)), ← rest)
        (>>=-map_run (load_line t (line_of (drop pos file)) errs_fatal)
          (λ u. load_lines fuel u file next errs_fatal)
          (λ u. load_all u (lines (drop next file)) errs_fatal) some
          (λ u. load_lines_from fuel u file next errs_fatal within (omega arith)))
  | no done ↦ let (e, z) = at_end file pos h (omega arith) in rw (z, e, str_getline-end file) refl
]

-- A file that can be read, is a regular file and belongs to the user: loading it saves its name
-- and applies the setting of every line that is not empty, a comment or blank, in order, up to the
-- first one that ends the program. The loop ends within one round for each byte and one more.
pub load_file_lem :
    (files : Files) (p : ParseState) (name file : Bytes) (errs_fatal : Bool)
    → files.fileread name ≡ some file
    → stat_ok files name ≡ true
    → vsf_parseconf_load_file files (length file + 1) p (some name) errs_fatal
      ≡ map_run (λ t. some (loaded name t)) (load_all p.tunables (lines file) errs_fatal)
unfolding vsf_parseconf_load_file load_named_file
load_file_lem files p name file errs_fatal readable owned =
    rw
      (
        readable,
        owned,
        vsf_parseconf_load_file,
        load_named_file,
        load_lines_from (length file + 1) p.tunables file 0 errs_fatal (omega arith) (omega arith),
      )
      (finish (load_all p.tunables (lines file) errs_fatal))
  where
    finish :
        (r : Run Tunables)
        → (map_run some r >>= λ o. elim o [ none ↦ ok none | some t ↦ ok (some (loaded name t)) ])
          ≡ map_run (λ t. some (loaded name t)) r
    finish (ok t) = refl
    finish (fault e) = refl
