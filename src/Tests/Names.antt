-- ===== src/Tests/Names.antt =====
-- ls.c and access.c.
use checkedc_vsftpd.Base.{◌≡◌, ◌↔◌, refl, Bool, true, false, not, some, [], ◌∷◌, ◌++◌, Bytes}
use checkedc_vsftpd.Text.{str_equal, str_locate_str, c_text, has_prefix}
use checkedc_vsftpd.Ls.{Paths, name_to_match, whole, passes}
use checkedc_vsftpd.Ls.Filter.{passes-plain, passes_star}
use checkedc_vsftpd.Access.{
  vsf_access_check_file, vsf_access_check_file_visible, vsf_access_check_file_upload,
  vsf_access_check_file_download, Denotes, access_plain,
}

abbrev root : Paths
root = record { realpath = λ name. some name; getcwd = b'/' ∷ [] }

-- The file /a.b and the filter a.b
abbrev file : Bytes
file = b'/' ∷ b'a' ∷ b'.' ∷ b'b' ∷ []

abbrev ab : Bytes
ab = b'a' ∷ b'.' ∷ b'b' ∷ []

passes-plain_test :
    passes 3 root (whole file ab) 0 ≡ some (str_equal (name_to_match root ab (c_text file)) ab, 1)
unfolding checkedc_vsftpd.Text.among
passes-plain_test = passes-plain 0 root file file ab refl refl refl

passes_star_test :
    passes 3 root (whole file (ab ++ b'*' ∷ [])) 0
    ≡ some (has_prefix ab (name_to_match root (ab ++ b'*' ∷ []) (c_text file)), 1)
unfolding checkedc_vsftpd.Text.among
passes_star_test = passes_star 0 root file file ab refl refl refl

-- A link /s whose path is /a.b: the filter a.b is compared with the last component of that.
abbrev linked : Paths
linked = record { realpath = λ name. some file; getcwd = b'/' ∷ [] }

access_plain_example :
    (matched : Bool) × ((matched ≡ true) ↔ Denotes [] ab (b'/' ∷ b's' ∷ []) ab)
    × (vsf_access_check_file 3 linked (some ab) (b'/' ∷ b's' ∷ []) ≡ some (not matched))
    × (vsf_access_check_file_visible 3 linked (some ab) (b'/' ∷ b's' ∷ []) ≡ some (not matched))
    × (vsf_access_check_file_upload 3 linked (some ab) (b'/' ∷ b's' ∷ []) ≡ some matched)
    × (vsf_access_check_file_download 3 linked (some ab) (b'/' ∷ b's' ∷ []) ≡ some matched)
unfolding checkedc_vsftpd.Text.among
access_plain_example =
    access_plain 0 linked (b'/' ∷ b's' ∷ []) [] ab ab refl refl refl refl refl refl refl

-- The filter *aa refuses the name aaa.
overlap :
    passes 9 root (whole (b'a' ∷ b'a' ∷ b'a' ∷ []) (b'*' ∷ b'a' ∷ b'a' ∷ [])) 0 ≡ some (false, 2)
unfolding passes checkedc_vsftpd.Ls.round checkedc_vsftpd.Ls.match_text
    checkedc_vsftpd.Ls.next_token checkedc_vsftpd.Text.str_locate_chars checkedc_vsftpd.Ls.next_job
    str_locate_str checkedc_vsftpd.Text.str_locate_text name_to_match
    checkedc_vsftpd.Text.Split.str_basename checkedc_vsftpd.Text.str_locate_text_reverse
    checkedc_vsftpd.Text.locate_text_reverse_loop has_prefix checkedc_vsftpd.Text.locate_text_loop
    checkedc_vsftpd.Ls.finish checkedc_vsftpd.Ls.scan_forward
overlap = refl
