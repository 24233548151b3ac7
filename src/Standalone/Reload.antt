-- ===== src/Standalone/Reload.antt =====
-- standalone.c, handle_sighup: the configuration is read again over the default settings.
use checkedc_vsftpd.Base.{
  ℕ, zero, suc, ◌≡◌, refl, ap, ◌∙◌, subst, Bool, true, false, Option, none, some, if◌then◌else◌,
  Bytes,
}
use checkedc_vsftpd.Run.{Run, Fault, ok, fault, ◌>>=◌}
use checkedc_vsftpd.Text.{c_text, str_isempty}
use checkedc_vsftpd.Text.Lines.{str_getline}
use checkedc_vsftpd.Text.Split.{str_split_char}
use checkedc_vsftpd.Parseconf.{
  Tunables, load_str, load_bool, load_uint, load_named, in_table, assign,
  vsf_parseconf_load_setting,
}
use checkedc_vsftpd.Parseconf.Tables.{
  parseconf_bool_array, parseconf_uint_array, parseconf_str_array,
}
use checkedc_vsftpd.Parseconf.Defaults.{tunables_load_defaults}
use checkedc_vsftpd.Parseconf.Files.{
  Files, ParseState, stat_ok, load_line, load_lines, load_named_file, vsf_parseconf_load_file,
}

unfoldable pub handle_sighup : Files → ℕ → ParseState → Run (Option ParseState)
handle_sighup files fuel p =
    vsf_parseconf_load_file files fuel (record p { tunables = tunables_load_defaults }) none false

-- What the one run returns, the other returns too.
abbrev Onto {ℓ} : {A : Type ℓ} → Run A → Run A → Type ℓ
Onto {A} r r' = (a : A) → r ≡ ok a → r' ≡ ok a

same {ℓ} : {A : Type ℓ} (r : Run A) → Onto r r
same r a h = h

stopped {ℓ} : {A : Type ℓ} (e : Fault) (r : Run A) → Onto (fault e) r
stopped e r a h = cc

Onto-if {ℓ} :
    {A : Type ℓ} (b : Bool) (x x' y y' : Run A)
    → Onto x x'
    → Onto y y'
    → Onto (if b then x else y) (if b then x' else y')
Onto-if true x x' y y' h k = h
Onto-if false x x' y y' h k = k

Onto->>= {ℓ κ} :
    {A : Type ℓ} {B : Type κ} (r r' : Run A) (f g : A → Run B)
    → Onto r r'
    → ((a : A) → Onto (f a) (g a))
    → Onto (r >>= f) (r' >>= g)
Onto->>= (fault e) r' f g h k b q = cc
Onto->>= (ok a) r' f g h k b q = rw (h a refl) (k a b q)

load_bool-Onto :
    (t : Tunables) (name value : Bytes)
    → Onto (load_bool t name value true) (load_bool t name value false)
unfolding load_bool
load_bool-Onto t name value =
    let yes_value : Run Tunables = ok (record t { bools = assign t.bools name true }) in
    let no_value : Run Tunables = ok (record t { bools = assign t.bools name false }) in
    Onto-if _ yes_value yes_value _ _ (same yes_value)
      (Onto-if _ no_value no_value _ _ (same no_value) (stopped Fault.die (ok t)))

setting-Onto :
    (t : Tunables) (setting : Bytes)
    → Onto (vsf_parseconf_load_setting t setting true) (vsf_parseconf_load_setting t setting false)
unfolding vsf_parseconf_load_setting load_named
setting-Onto t setting =
    let (name, value) = str_split_char setting b'=' in
    let refused = stopped Fault.die (ok t) in
    Onto-if (in_table name parseconf_str_array) (load_str t name value) (load_str t name value) _ _
      (same (load_str t name value))
      (Onto-if (str_isempty value) _ _ _ _ refused (
        Onto-if (in_table name parseconf_bool_array) _ _ _ _ (load_bool-Onto t name value) (
          Onto-if (in_table name parseconf_uint_array) _ _ _ _ (same (load_uint t name value))
            refused)))

line-Onto : (t : Tunables) (line : Bytes) → Onto (load_line t line true) (load_line t line false)
unfolding load_line
line-Onto t line = Onto-if _ (ok t) (ok t) _ _ (same (ok t)) (setting-Onto t (c_text line))

lines-Onto :
    (fuel : ℕ) (t : Tunables) (file : Bytes) (pos : ℕ)
    → Onto (load_lines fuel t file pos true) (load_lines fuel t file pos false)
unfolding load_lines
lines-Onto zero t file pos = same (ok none)
lines-Onto (suc fuel) t file pos =
    Onto->>= (str_getline file pos) (str_getline file pos) _ _ (same (str_getline file pos))
      (of_line λ u next. lines-Onto fuel u file next)
  where
    of_line :
        ((u : Tunables) (next : ℕ)
          → Onto (load_lines fuel u file next true) (load_lines fuel u file next false))
        → (o : Option (Bytes × ℕ))
        → Onto
            (elim o as (λ _. Run (Option Tunables)) [
              | none ↦ ok (some t)
              | some (line, next) ↦ load_line t line true >>= λ u. load_lines fuel u file next true
            ])
            (elim o as (λ _. Run (Option Tunables)) [
              | none ↦ ok (some t)
              | some (line, next) ↦
                  load_line t line false >>= λ u. load_lines fuel u file next false
            ])
    of_line rest none = same (ok (some t))
    of_line rest (some (line, next)) =
        Onto->>= (load_line t line true) (load_line t line false) _ _ (line-Onto t line)
          (λ u. rest u next)

abbrev finished : ParseState → Option Tunables → Run (Option ParseState)
finished p r = elim r [ none ↦ ok none | some t ↦ ok (some (record p { tunables = t })) ]

named-Onto :
    (files : Files) (fuel : ℕ) (p : ParseState) (name : Bytes)
    → Onto (load_named_file files fuel p name true) (load_named_file files fuel p name false)
unfolding load_named_file
named-Onto files fuel p name = of_file (files.fileread name)
  where
    of_file :
        (o : Option Bytes)
        → Onto
            (elim o as (λ _. Run (Option ParseState)) [
              | none ↦ fault Fault.die
              | some file ↦
                  if stat_ok files name
                  then (load_lines fuel p.tunables file 0 true >>= finished p)
                  else fault Fault.die
            ])
            (elim o as (λ _. Run (Option ParseState)) [
              | none ↦ ok (some p)
              | some file ↦
                  if stat_ok files name
                  then (load_lines fuel p.tunables file 0 false >>= finished p)
                  else fault Fault.die
            ])
    of_file none = stopped Fault.die (ok (some p))
    of_file (some file) =
        Onto-if (stat_ok files name) _ _ _ _
          (Onto->>= (load_lines fuel p.tunables file 0 true)
            (load_lines fuel p.tunables file 0 false) (finished p) (finished p)
            (lines-Onto fuel p.tunables file 0) (λ r. same (finished p r)))
          (same (fault Fault.die))

abbrev SavedAs : Option Bytes → Run (Option ParseState) → Type 0
SavedAs saved (fault e) = Unit
SavedAs saved (ok none) = Unit
SavedAs saved (ok (some p)) = p.saved ≡ saved

named-SavedAs :
    (files : Files) (fuel : ℕ) (p : ParseState) (name : Bytes)
    → SavedAs p.saved (load_named_file files fuel p name true)
unfolding load_named_file
named-SavedAs files fuel p name = of_file (files.fileread name)
  where
    of_lines : (r : Run (Option Tunables)) → SavedAs p.saved (r >>= finished p)
    of_lines (fault e) = tt
    of_lines (ok none) = tt
    of_lines (ok (some t)) = refl

    checked :
        (b : Bool) (r : Run (Option Tunables))
        → SavedAs p.saved (if b then (r >>= finished p) else fault Fault.die)
    checked true r = of_lines r
    checked false r = tt

    of_file :
        (o : Option Bytes)
        → SavedAs p.saved (elim o as (λ _. Run (Option ParseState)) [
          | none ↦ fault Fault.die
          | some file ↦
              if stat_ok files name
              then (load_lines fuel p.tunables file 0 true >>= finished p)
              else fault Fault.die
        ])
    of_file none = tt
    of_file (some file) = checked (stat_ok files name) (load_lines fuel p.tunables file 0 true)

-- Reading the saved file again is reading it by its name.
again :
    (files : Files) (fuel : ℕ) (p : ParseState) (name : Bytes)
    → p.saved ≡ some name
    → handle_sighup files fuel p
      ≡ load_named_file files fuel
          (record { saved = some name; tunables = tunables_load_defaults })
          name
          false
unfolding handle_sighup vsf_parseconf_load_file
again files fuel p name e = go p.saved e
  where
    go :
        (o : Option Bytes)
        → o ≡ some name
        → (elim o as (λ _. Run (Option ParseState)) [
          | none ↦ fault Fault.bug
          | some n ↦
              load_named_file files fuel
                (record { saved = o; tunables = tunables_load_defaults })
                n
                false
        ])
          ≡ load_named_file files fuel
              (record { saved = some name; tunables = tunables_load_defaults })
              name
              false
    go none h = cc
    go (some n) h =
        let equal : n ≡ name = ap (λ o. elim o as (λ _. Bytes) [ none ↦ n | some x ↦ x ]) h in
        ap
          (λ x.
            load_named_file files fuel
              (record { saved = some x; tunables = tunables_load_defaults }) x false)
          equal

-- Where the program read its configuration over the default settings, with errors fatal, and got
-- through, a reload on SIGHUP with the files unchanged gives the same settings and the same saved
-- name, whatever the settings have become in between.
pub handle_sighup-same :
    (files : Files) (fuel : ℕ) (saved : Option Bytes) (name : Bytes) (p : ParseState)
    (between : Tunables)
    → vsf_parseconf_load_file files fuel
        (record { saved = saved; tunables = tunables_load_defaults })
        (some name)
        true
      ≡ ok (some p)
    → handle_sighup files fuel (record p { tunables = between }) ≡ ok (some p)
unfolding vsf_parseconf_load_file
handle_sighup-same files fuel saved name p between started =
    let first : ParseState = record { saved = some name; tunables = tunables_load_defaults } in
    let kept = subst (SavedAs (some name)) started (named-SavedAs files fuel first name) in
    again files fuel (record p { tunables = between }) name kept
    ∙ named-Onto files fuel first name (some p) started
