-- ===== src/Access.antt =====
-- access.c: which file names may be read, seen, stored and fetched. A tunable that is not set is
-- `none`. The static copy of a tunable is the tunable, which does not change after the first call.
use mathlib.Core.Bool.{false≢true}
use checkedc_vsftpd.Base.{
  ℕ, suc, ◌≡◌, ◌↔◌, ◌⊎◌, inl, inr, refl, ap, ◌∙◌, Bool, true, false, not, ◌||◌, Option, none, some,
  Bytes, [], ◌∷◌, ◌++◌, arith, Bool-cases, if◌then◌else◌,
}
use checkedc_vsftpd.Text.{c_text, str_isempty, str_equal, str_locate_str, str_locate_text}
use checkedc_vsftpd.Text.Find.{OccursAt, str_locate_text-FirstIf}
use checkedc_vsftpd.Text.Order.{str_equal_iff}
use checkedc_vsftpd.Text.Split.{has_byte}
use checkedc_vsftpd.Text.Basename.{basename-path}
use checkedc_vsftpd.Ls.{Paths, name_to_match, whole, passes, starts_with}
use checkedc_vsftpd.Ls.Filter.{plain, c_text-plain, not_empty, passes-plain}

-- The answer of the filter, or else a search for its text in the name.
abbrev pub or_search : Bytes → Bytes → Option (Bool × ℕ) → Option Bool
or_search name access none = none
or_search name access (some (true, iters)) = some true
or_search name access (some (false, iters)) = some (str_locate_str name access).found

unfoldable pub vsf_match_filter : ℕ → Paths → Bytes → Bytes → Option Bool
vsf_match_filter fuel paths name access =
    or_search name access (passes fuel paths (whole name access) 0)

abbrev pub refused : Option Bool → Option Bool
refused none = none
refused (some matched) = some (not matched)

unfoldable pub vsf_access_check_file : ℕ → Paths → Option Bytes → Bytes → Option Bool
vsf_access_check_file fuel paths none name = some true
vsf_access_check_file fuel paths (some tunable_deny_file) name =
    refused (vsf_match_filter fuel paths name tunable_deny_file)

unfoldable pub vsf_access_check_file_visible : ℕ → Paths → Option Bytes → Bytes → Option Bool
vsf_access_check_file_visible fuel paths none name = some true
vsf_access_check_file_visible fuel paths (some tunable_hide_file) name =
    refused (vsf_match_filter fuel paths name tunable_hide_file)

unfoldable pub vsf_access_check_file_upload : ℕ → Paths → Option Bytes → Bytes → Option Bool
vsf_access_check_file_upload fuel paths none name = some true
vsf_access_check_file_upload fuel paths (some tunable_upload_file) name =
    vsf_match_filter fuel paths name tunable_upload_file

unfoldable pub vsf_access_check_file_download : ℕ → Paths → Option Bytes → Bytes → Option Bool
vsf_access_check_file_download fuel paths none name = some true
vsf_access_check_file_download fuel paths (some tunable_download_file) name =
    vsf_match_filter fuel paths name tunable_download_file

-- The name has the filter in it, or its path is the filter: the whole path for a filter that begins
-- with a slash, the last component for another.
abbrev pub Denotes : Bytes → Bytes → Bytes → Bytes → Type 0
Denotes dir base name f =
    ((if starts_with b'/' f then dir ++ b'/' ∷ base else base) ≡ f) ⊎ ((j : ℕ) × OccursAt f name j)

c_text-whole : (s : Bytes) → has_byte 0 s ≡ false → c_text s ≡ s
unfolding c_text
c_text-whole [] h = refl
c_text-whole (c ∷ s) h = ground (arith, c_text-whole s)

no_brace : (f : Bytes) → plain f ≡ true → starts_with b'{' f ≡ false
unfolding checkedc_vsftpd.Text.among
no_brace [] h = refl
no_brace (c ∷ f) h = ground arith

-- What a plain filter is compared with, of a path that is absolute.
compared :
    (paths : Paths) (dir base f : Bytes)
    → has_byte 0 (dir ++ b'/' ∷ base) ≡ false
    → starts_with b'/' (dir ++ b'/' ∷ base) ≡ true
    → has_byte b'/' base ≡ false
    → str_isempty base ≡ false
    → plain f ≡ true
    → str_isempty f ≡ false
    → name_to_match paths f (c_text (dir ++ b'/' ∷ base))
      ≡ (if starts_with b'/' f then dir ++ b'/' ∷ base else base)
unfolding name_to_match
compared paths dir base f z abs h ne p nf =
    rw
      (
        c_text-whole (dir ++ b'/' ∷ base) z,
        nf,
        some_path dir,
        abs,
        no_brace f p,
        basename-path dir base h ne,
      )
      refl
  where
    some_path : (dir : Bytes) → str_isempty (dir ++ b'/' ∷ base) ≡ false
    some_path [] = ground arith
    some_path (c ∷ dir) = ground arith

match_plain :
    (k : ℕ) (paths : Paths) (name norm f : Bytes)
    → paths.realpath name ≡ some norm
    → plain f ≡ true
    → str_isempty f ≡ false
    → vsf_match_filter (suc (suc (suc k))) paths name f
      ≡ some (str_equal (name_to_match paths f (c_text norm)) f || (str_locate_str name f).found)
unfolding vsf_match_filter
match_plain k paths name norm f e h ne =
    ap (or_search name f) (passes-plain k paths name norm f e h ne)
    ∙ either (str_equal (name_to_match paths f (c_text norm)) f)
  where
    either : (b : Bool) → or_search name f (some (b, 1)) ≡ some (b || (str_locate_str name f).found)
    either true = refl
    either false = refl

-- The text is found in a name exactly when it stands somewhere in it.
found_iff :
    (name f : Bytes)
    → plain f ≡ true
    → str_isempty f ≡ false
    → ((str_locate_str name f).found ≡ true) ↔ ((j : ℕ) × OccursAt f name j)
unfolding str_locate_str
found_iff name f p nf = rw (c_text-plain f p) (
    let r = str_locate_text name f in
    let (hit, miss) = str_locate_text-FirstIf name f (not_empty f nf) in
    (
      λ e. (r.index, (hit e).0),
      λ o. elim (Bool-cases r.found) [ inl e ↦ e | inr e ↦ absurd (miss e o.0 o.1) ],
    ))

either_iff {ℓ κ} :
    {A : Type ℓ} {B : Type κ} (a b : Bool)
    → (a ≡ true) ↔ A
    → (b ≡ true) ↔ B
    → ((a || b) ≡ true) ↔ (A ⊎ B)
either_iff true b h k = (λ e. inl (h.0 refl), λ o. refl)
either_iff false b h k =
    (λ e. inr (k.0 e), λ o. elim o [ inl x ↦ absurd (false≢true (h.1 x)) | inr y ↦ k.1 y ])

-- A plain filter f has none of `*`, `?` and `{`, no byte 0, and is not empty. A file whose path,
-- as the system resolves its name, is absolute, has no byte 0 and ends in a component, is denied
-- and hidden, and let through for an upload or a download, exactly when f stands in the name or
-- is the path: the whole path for a filter that begins with a slash, the last component for
-- another. The filter is done in three steps.
pub access_plain :
    (k : ℕ) (paths : Paths) (name dir base f : Bytes)
    → paths.realpath name ≡ some (dir ++ b'/' ∷ base)
    → has_byte 0 (dir ++ b'/' ∷ base) ≡ false
    → starts_with b'/' (dir ++ b'/' ∷ base) ≡ true
    → has_byte b'/' base ≡ false
    → str_isempty base ≡ false
    → plain f ≡ true
    → str_isempty f ≡ false
    → let fuel = suc (suc (suc k)) in
      (matched : Bool) × ((matched ≡ true) ↔ Denotes dir base name f)
      × (vsf_access_check_file fuel paths (some f) name ≡ some (not matched))
      × (vsf_access_check_file_visible fuel paths (some f) name ≡ some (not matched))
      × (vsf_access_check_file_upload fuel paths (some f) name ≡ some matched)
      × (vsf_access_check_file_download fuel paths (some f) name ≡ some matched)
unfolding vsf_access_check_file vsf_access_check_file_visible vsf_access_check_file_upload
    vsf_access_check_file_download
access_plain k paths name dir base f e z abs h ne p nf =
    let target : Bytes = if starts_with b'/' f then dir ++ b'/' ∷ base else base in
    let found = (str_locate_str name f).found in
    let m =
      match_plain k paths name (dir ++ b'/' ∷ base) f e p nf
      ∙ ap (λ n. some (str_equal n f || found)) (compared paths dir base f z abs h ne p nf) in
    (
      (str_equal target f || found),
      either_iff (str_equal target f) found (str_equal_iff target f) (found_iff name f p nf),
      ap refused m,
      ap refused m,
      m,
      m,
    )
