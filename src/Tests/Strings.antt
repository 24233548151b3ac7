-- ===== src/Tests/Strings.antt =====
-- str.c: a session on real buffers, and the theorems about buffers and contents.
use checkedc_vsftpd.Base.{
  ℕ, ◌<◌, ◌≡◌, refl, false, Option, some, [], ◌∷◌, ◌++◌, arith, Bytes, take, drop,
}
use checkedc_vsftpd.Run.{ok, Returns, ◌>>=◌}
use checkedc_vsftpd.Str.{
  Mystr, init_mystr, view, private_str_alloc_memchunk, private_str_append_memchunk, str_trunc,
  str_reserve, str_program,
}
use checkedc_vsftpd.Str.Valid.{IsValid, Yields}
use checkedc_vsftpd.Str.Alloc.{alloc_memchunk-Yields}
use checkedc_vsftpd.Str.Grow.{append_memchunk-Yields, str_trunc-Yields, str_reserve-Yields}
use checkedc_vsftpd.Str.Edit.{
  str_rpad, str_lpad, str_rpad-Yields, str_lpad-Yields, change_bytes, change_bytes-view,
}
use checkedc_vsftpd.Str.Cut.{
  YieldsBoth, LineRead, str_split_text_common, str_split_text-Yields, str_getline, str_getline-Read,
  parts-Yield, str_left, str_right, str_mid_to_end,
}
use checkedc_vsftpd.Text.{
  locate_text_loop, has_prefix, str_locate_text, str_locate_text_reverse, to_upper,
}
use checkedc_vsftpd.Text.Find.{First, Last, str_locate_text-First, str_locate_text_reverse-Last}
use checkedc_vsftpd.Text.Split.{Parts, str_split_text, str_split_text-Parts}
use checkedc_vsftpd.Text.Replace.{str_replace_text, str_replace_text_lem}
use checkedc_vsftpd.Text.Lines
use mathlib.Core.List.{map}

abbrev user : Bytes
user = b'U' ∷ b'S' ∷ b'E' ∷ b'R' ∷ b' ' ∷ b'b' ∷ b'o' ∷ b'b' ∷ []

abbrev space : Bytes
space = b' ' ∷ []

-- "a=b" in a buffer of five bytes and the spare one, the last two never written.
abbrev setting : Mystr
setting = record { p_buf = some (b'a' ∷ b'=' ∷ b'b' ∷ 0 ∷ 170 ∷ 0 ∷ []); len = 3; alloc_bytes = 5 }

setting-IsValid : IsValid setting
setting-IsValid = (refl, omega arith, omega arith, refl)

init-IsValid : IsValid init_mystr
init-IsValid = (refl, refl)

alloc_then_append :
    private_str_alloc_memchunk 170 init_mystr (b'a' ∷ [])
      >>= (λ s. private_str_append_memchunk 170 s (b'b' ∷ []))
    ≡ ok (record { p_buf = some (b'a' ∷ b'b' ∷ 0 ∷ 0 ∷ []); len = 2; alloc_bytes = 3 })
unfolding str_program
alloc_then_append = refl

split_user : str_split_text user space ≡ (take 4 user, drop 5 user)
unfolding str_split_text str_locate_text locate_text_loop has_prefix
split_user = refl

alloc_memchunk-Yields_test : Yields (private_str_alloc_memchunk 170 setting user) user
alloc_memchunk-Yields_test = alloc_memchunk-Yields 170 setting user setting-IsValid (omega arith)

append_memchunk-Yields_example :
    Yields (private_str_append_memchunk 170 setting user) (view setting ++ user)
append_memchunk-Yields_example =
    append_memchunk-Yields 170 setting user setting-IsValid (omega arith)

str_trunc-Yields_test : Yields (str_trunc setting 1) (take 1 (view setting))
str_trunc-Yields_test = str_trunc-Yields setting 1 setting-IsValid (omega arith) (omega arith)

str_reserve-Yields_test :
    Returns
      (str_reserve 170 setting 9)
      λ t. (view t ≡ view setting) × (t.len ≡ setting.len) × (9 < t.alloc_bytes)
str_reserve-Yields_test =
    str_reserve-Yields 170 setting 9 setting-IsValid (omega arith) (omega arith)

str_rpad-Yields_test :
    Yields (str_rpad 170 setting 8) (view setting ++ b' ' ∷ b' ' ∷ b' ' ∷ b' ' ∷ b' ' ∷ [])
str_rpad-Yields_test = str_rpad-Yields 170 setting 8 setting-IsValid (omega arith) (omega arith)

str_lpad-Yields_test :
    Yields (str_lpad 170 init_mystr setting 5) ((b' ' ∷ b' ' ∷ []) ++ view setting)
str_lpad-Yields_test =
    str_lpad-Yields 170 init_mystr setting 5 init-IsValid setting-IsValid (omega arith)
      (omega arith)

change_bytes-view_test :
    IsValid (change_bytes to_upper setting)
    × (view (change_bytes to_upper setting) ≡ map to_upper (view setting))
    × ((change_bytes to_upper setting).len ≡ setting.len)
    × ((change_bytes to_upper setting).alloc_bytes ≡ setting.alloc_bytes)
change_bytes-view_test = change_bytes-view to_upper setting setting-IsValid

str_split_text-Yields_example :
    YieldsBoth
      (str_split_text_common 170 false setting init_mystr (b'=' ∷ []))
      (str_split_text (view setting) (b'=' ∷ []))
str_split_text-Yields_example =
    str_split_text-Yields 170 setting init_mystr (b'=' ∷ []) setting-IsValid init-IsValid
      (omega arith)

str_getline-Read_test :
    (r : Option (Bytes × ℕ)) × (Lines.str_getline (view setting) 1 ≡ ok r)
    × Returns (str_getline 170 setting init_mystr 1) (LineRead (view setting) r)
str_getline-Read_test =
    str_getline-Read 170 setting init_mystr 1 setting-IsValid init-IsValid (omega arith)
      (omega arith)

str_locate_text-First_test : First space user (str_locate_text user space)
str_locate_text-First_test = str_locate_text-First user space (omega arith)

str_locate_text_reverse-Last_test : Last space user (str_locate_text_reverse user space)
str_locate_text_reverse-Last_test = str_locate_text_reverse-Last user space (omega arith)

str_split_text-Parts_test : Parts user space (str_split_text user space)
str_split_text-Parts_test = str_split_text-Parts user space (omega arith)

str_replace_text_lem_example :
    str_replace_text (7 ∷ 255 ∷ 8 ∷ []) (255 ∷ []) (255 ∷ 255 ∷ []) ≡ some (7 ∷ 255 ∷ 255 ∷ 8 ∷ [])
str_replace_text_lem_example =
    str_replace_text_lem (7 ∷ 255 ∷ 8 ∷ []) 255 (255 ∷ 255 ∷ []) (omega arith)

getlines_lem_test : Lines.getlines 3 (b'a' ∷ 10 ∷ []) 0 ≡ ok (some ((b'a' ∷ []) ∷ []))
getlines_lem_test = Lines.getlines_lem (b'a' ∷ 10 ∷ [])

parts-Yield_test :
    Yields (str_left 170 setting init_mystr 1) (take 1 (view setting))
    × Yields (str_right 170 setting init_mystr 1) (drop 2 (view setting))
    × Yields (str_mid_to_end 170 setting init_mystr 1) (drop 1 (view setting))
parts-Yield_test =
    parts-Yield 170 setting init_mystr 1 setting-IsValid init-IsValid (omega arith) (omega arith)
