-- ===== src/Login/UserConfig.antt =====
-- twoprocess.c, handle_per_user_config: the settings of one user, read over those of all.
use checkedc_vsftpd.Base.{
  ℕ, ◌+◌, ◌≡◌, ◌≢◌, refl, sym, ap, ◌∙◌, subst, inl, inr, Bool, true, false, ◌||◌, Option, none,
  some, List, [], ◌∷◌, ◌++◌, arith, if◌then◌else◌, Bool-cases, Option-cases, Bytes, codes, length,
}
use checkedc_vsftpd.Run.{Run, Fault, ok, fault, ◌>>=◌, map_run}
use checkedc_vsftpd.Text.{str_isempty, str_all_space, str_locate_char, c_text}
use checkedc_vsftpd.Postpriv.Policy.{Any}
use checkedc_vsftpd.Text.Lines.{lines}
use checkedc_vsftpd.Text.Split.{before}
use checkedc_vsftpd.Parseconf.{Tunables, vsf_parseconf_load_setting}
use checkedc_vsftpd.Parseconf.Values.{load_setting-Same}
use checkedc_vsftpd.Parseconf.Files.{
  Files, ParseState, loaded, load_line, load_all, is_comment, load_named_file, stat_ok,
  vsf_parseconf_load_file, load_file_lem,
}

-- What the system answers for a login: files, which missing files do not exist, and home directories.
pub record Host : Type 0 where
  pub files : Files
  pub not_found : Bytes → Bool
  pub homedir : Bytes → Option Bytes

infixl 5 ◌>>=?◌
-- `none` is a loop that runs out of fuel.
abbrev pub ◌>>=?◌ {ℓ κ} :
    {A : Type ℓ} {B : Type κ} → Run (Option A) → (A → Run (Option B)) → Run (Option B)
fault e >>=? f = fault e
ok none >>=? f = ok none
ok (some a) >>=? f = f a

-- A round for each byte of the file and one more.
abbrev pub rounds_for : Files → Bytes → ℕ
rounds_for files name = elim (files.fileread name) [ none ↦ 1 | some file ↦ length file + 1 ]

-- The name of the file with the settings of a user, if there is to be one.
unfoldable pub per_user_config : Tunables → Bytes → Option Bytes
per_user_config t user = elim (t.strs (codes "user_config_dir")) [
  | none ↦ none
  | some dir ↦
      if (str_locate_char user b'/').found then none else some (c_text (dir ++ b'/' ∷ user))
]

abbrev pub load_user_file : Host → Tunables → Bytes → Run (Option Tunables)
load_user_file w t name = elim (w.files.stat name) [
  | none ↦ if w.not_found name then ok (some t) else fault Fault.die
  | some owner ↦
      vsf_parseconf_load_file w.files (rounds_for w.files name)
        (record { saved = none; tunables = t }) (some name) true
      >>=? λ p. ok (some p.tunables)
]

unfoldable pub handle_per_user_config : Host → Tunables → Bytes → Run (Option Tunables)
handle_per_user_config w t user = elim (per_user_config t user) [
  | none ↦ ok (some t)
  | some name ↦ load_user_file w t name
]

-- A run that ends, in a fault that is no bug of the program or in a value of which `P` holds.
abbrev pub Ends {ℓ} : {A : Type ℓ} → (A → Type 0) → Run (Option A) → Type 0
Ends P (fault e) = e ≢ Fault.bug
Ends P (ok none) = ⊥
Ends P (ok (some a)) = P a

pub Ends->>=? {ℓ κ} :
    {A : Type ℓ} {B : Type κ} (P : A → Type 0) (Q : B → Type 0) (r : Run (Option A))
    (f : A → Run (Option B))
    → Ends P r
    → ((a : A) → P a → Ends Q (f a))
    → Ends Q (r >>=? f)
Ends->>=? P Q (fault e) f p k = p
Ends->>=? P Q (ok none) f p k = absurd p
Ends->>=? P Q (ok (some a)) f p k = k a p

abbrev pub NotBug {ℓ} : {A : Type ℓ} → Run A → Type 0
NotBug (ok a) = Unit
NotBug (fault e) = e ≢ Fault.bug

-- A name other than the one of the setting.
setting-NotBug :
    (t : Tunables) (s : Bytes) (fatal : Bool) → NotBug (vsf_parseconf_load_setting t s fatal)
setting-NotBug t s fatal =
    of_run (vsf_parseconf_load_setting t s fatal)
      (load_setting-Same t s (0 ∷ before b'=' s) fatal (λ h. omega (arith, ap length h)))
  where
    of_run :
        (r : Run Tunables)
        → checkedc_vsftpd.Parseconf.Values.Same (0 ∷ before b'=' s) t r
        → NotBug r
    of_run (ok u) h = tt
    of_run (fault e) h = h

line-NotBug : (t : Tunables) (line : Bytes) (fatal : Bool) → NotBug (load_line t line fatal)
unfolding load_line
line-NotBug t line fatal =
    elim (Bool-cases (str_isempty line || (is_comment line || str_all_space line))) [
      | inl e ↦ rw e tt
      | inr e ↦ rw e (setting-NotBug t (c_text line) fatal)
    ]

all-NotBug : (t : Tunables) (ls : List Bytes) (fatal : Bool) → NotBug (load_all t ls fatal)
all-NotBug t [] fatal = tt
all-NotBug t (l ∷ ls) fatal =
    go (load_line t l fatal) (line-NotBug t l fatal) (λ u. all-NotBug u ls fatal)
  where
    go :
        (r : Run Tunables)
        → NotBug r
        → ((u : Tunables) → NotBug (load_all u ls fatal))
        → NotBug (r >>= λ u. load_all u ls fatal)
    go (ok u) h rest = rest u
    go (fault e) h rest = h

unreadable :
    (files : Files) (fuel : ℕ) (p : ParseState) (name : Bytes)
    → files.fileread name ≡ none
    → vsf_parseconf_load_file files fuel p (some name) true ≡ fault Fault.die
unfolding vsf_parseconf_load_file load_named_file
unreadable files fuel p name h = rw (h, vsf_parseconf_load_file, load_named_file) refl

foreign_file :
    (files : Files) (fuel : ℕ) (p : ParseState) (name file : Bytes)
    → files.fileread name ≡ some file
    → stat_ok files name ≡ false
    → vsf_parseconf_load_file files fuel p (some name) true ≡ fault Fault.die
unfolding vsf_parseconf_load_file load_named_file
foreign_file files fuel p name file h k = rw (h, k, vsf_parseconf_load_file, load_named_file) refl

rounds_for_lem :
    (files : Files) (name file : Bytes)
    → files.fileread name ≡ some file
    → rounds_for files name ≡ length file + 1
rounds_for_lem files name file h = rw (h, rounds_for) refl

-- Loading a file by its name ends, and not in a bug.
load_file-Ends :
    (files : Files) (p : ParseState) (name : Bytes)
    → Ends Any (vsf_parseconf_load_file files (rounds_for files name) p (some name) true)
load_file-Ends files p name = elim (Option-cases (files.fileread name)) [
  | inl e ↦ subst (Ends Any) (sym (unreadable files (rounds_for files name) p name e)) (λ h. cc)
  | inr (file, e) ↦ elim (Bool-cases (stat_ok files name)) [
    | inr foreign ↦
        subst (Ends Any) (sym (foreign_file files (rounds_for files name) p name file e foreign))
          (λ h. cc)
    | inl owned ↦
        subst (Ends Any)
          (sym (
            ap (λ n. vsf_parseconf_load_file files n p (some name) true)
              (rounds_for_lem files name file e)
            ∙ load_file_lem files p name file true e owned))
          (of_lines (load_all p.tunables (lines file) true)
            (all-NotBug p.tunables (lines file) true))
  ]
]
  where
    of_lines : (r : Run Tunables) → NotBug r → Ends Any (map_run (λ t. some (loaded name t)) r)
    of_lines (ok t) h = tt
    of_lines (fault e) h = h

-- The settings of a user are loaded or the process ends, and not in a bug.
pub per_user_config-Ends :
    (w : Host) (t : Tunables) (user : Bytes) → Ends Any (handle_per_user_config w t user)
unfolding handle_per_user_config
per_user_config-Ends w t user = of_name (per_user_config t user)
  where
    missing : (name : Bytes) (b : Bool) → Ends Any (if b then ok (some t) else fault Fault.die)
    missing name true = tt
    missing name false = λ h. cc

    of_stat :
        (name : Bytes) (o : Option (ℕ × Bool))
        → Ends Any (elim o as (λ _. Run (Option Tunables)) [
          | none ↦ if w.not_found name then ok (some t) else fault Fault.die
          | some owner ↦
              vsf_parseconf_load_file w.files
                (rounds_for w.files name)
                (record { saved = none; tunables = t })
                (some name)
                true
              >>=? λ p. ok (some p.tunables)
        ])
    of_stat name none = missing name (w.not_found name)
    of_stat name (some owner) =
        Ends->>=? Any Any
          (vsf_parseconf_load_file w.files (rounds_for w.files name)
            (record { saved = none; tunables = t }) (some name) true)
          (λ p. ok (some p.tunables))
          (load_file-Ends w.files (record { saved = none; tunables = t }) name) (λ p _. tt)

    of_name :
        (o : Option Bytes)
        → Ends Any (elim o as (λ _. Run (Option Tunables)) [
          | none ↦ ok (some t)
          | some name ↦ load_user_file w t name
        ])
    of_name none = tt
    of_name (some name) = of_stat name (w.files.stat name)
