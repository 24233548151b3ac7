-- ===== src/Tests/Channel.antt =====
-- ftpcmdio.c and netstr.c.
use checkedc_vsftpd.Base.{
  ℕ, ◌≤◌, ◌<◌, ◌≡◌, refl, ap, false, some, [], ◌∷◌, ◌++◌, arith, ltb, if◌then◌else◌, codes, length,
}
use mathlib.Core.List.{map}
use checkedc_vsftpd.Run.{ok}
use checkedc_vsftpd.Text.Split.{has_byte}
use checkedc_vsftpd.Number.Print.{vsf_sysutil_ulong_to_str}
use checkedc_vsftpd.Netstr.{Socket, IsStream, line, str_netfd_alloc}
use checkedc_vsftpd.Netstr.Line.{outcome, str_netfd_alloc_lem}
use checkedc_vsftpd.Cmdio.{
  replaced, exits, command, ftp_write_str_common, vsf_cmdio_get_cmd_and_arg,
}
use checkedc_vsftpd.Cmdio.Respond.{unescape, write_str-one_line}
use checkedc_vsftpd.Cmdio.Command.{get_cmd_and_arg-sent, get_cmd_and_arg-ends}

-- Bytes that arrive three at a time at most.
abbrev least : ℕ → ℕ → ℕ
least a b = if ltb a b then a else b

abbrev threes : Socket
threes = record {
  peek = λ stream len. some (least 3 (least len (length stream)));
  read = λ stream len. some (least len (length stream));
}

least_low : (a b : ℕ) → (least a b ≤ a) × (least a b ≤ b) × (0 < a → 0 < b → 0 < least a b)
least_low a b = (ground arith, ground arith, ground arith)

least_fit : (a b : ℕ) → a ≤ b → least a b ≡ a
least_fit a b h = ground arith

threes-IsStream : IsStream threes
threes-IsStream = record {
  peek_some = λ stream len.
      let (low, low', more) = least_low 3 (least len (length stream)) in
      let (small, within, some_more) = least_low len (length stream) in
      (
        least 3 (least len (length stream)),
        refl,
        omega arith,
        omega arith,
        λ h h'. more (omega arith) (some_more h h'),
      );
  read_all = λ stream len h. ap some (least_fit len (length stream) h);
}

str_netfd_alloc_lem_example :
    (i : ℕ) × (str_netfd_alloc threes b'\n' 9 (codes "USER a\r\nPASS")
      ≡ ok (some (outcome b'\n' 9 [] (codes "USER a\r\nPASS") i)))
str_netfd_alloc_lem_example =
    str_netfd_alloc_lem threes b'\n' 9 (codes "USER a\r\nPASS") threes-IsStream

third_chunk :
    str_netfd_alloc threes b'\n' 9 (codes "USER a\r\nPASS")
    ≡ ok (some (line 2 (codes "USER a\r") (codes "PASS")))
unfolding str_netfd_alloc checkedc_vsftpd.Netstr.netfd_loop checkedc_vsftpd.Netstr.find_term
    checkedc_vsftpd.Netstr.deliver checkedc_vsftpd.Netstr.str_alloc_alt_term
third_chunk = refl

get_cmd_and_arg-sent_example :
    vsf_cmdio_get_cmd_and_arg threes false (codes "user a b\r\nQUIT\r\n")
    ≡ ok (some (command (codes "USER") (codes "a b") (codes "QUIT\r\n")))
unfolding checkedc_vsftpd.Text.to_upper
get_cmd_and_arg-sent_example =
    get_cmd_and_arg-sent threes b'u' (codes "ser") (codes "a b") (codes "QUIT\r\n") threes-IsStream
      refl refl refl refl (omega arith)

get_cmd_and_arg-ends_example :
    vsf_cmdio_get_cmd_and_arg threes false (codes "QUI") ≡ ok (some (exits 1 (some [])))
get_cmd_and_arg-ends_example = get_cmd_and_arg-ends threes false (codes "QUI") threes-IsStream refl

write_str-one_line_example :
    (ftp_write_str_common 257 b' ' (b'a' ∷ b'\n' ∷ 255 ∷ [])
      ≡ some (vsf_sysutil_ulong_to_str 257 ++ b' ' ∷ (b'a' ∷ 0 ∷ 255 ∷ 255 ∷ []) ++ codes "\r\n"))
    × (has_byte b'\n'
          (vsf_sysutil_ulong_to_str 257 ++ b' ' ∷ (b'a' ∷ 0 ∷ 255 ∷ 255 ∷ []) ++ codes "\r")
        ≡ false)
    × (unescape (b'a' ∷ 0 ∷ 255 ∷ 255 ∷ []) ≡ map (replaced b'\n' 0) (b'a' ∷ b'\n' ∷ 255 ∷ []))
write_str-one_line_example =
    write_str-one_line 257 b' ' (b'a' ∷ b'\n' ∷ 255 ∷ []) (omega arith) (λ e. cc)
