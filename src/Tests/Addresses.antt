-- ===== src/Tests/Addresses.antt =====
-- ipaddrparse.c.
use checkedc_vsftpd.Base.{◌≡◌, refl, some, [], ◌∷◌, arith}
use checkedc_vsftpd.Run.{Fault, ok, fault}
use checkedc_vsftpd.Ipaddrparse.{vsf_sysutil_parse_uchar_string_sep, vsf_sysutil_parse_ipv6}
use checkedc_vsftpd.Ipaddrparse.Separated.{
  join, Items, parse_uchar_string_sep-join, parse_uchar_string_sep-Items,
}
use checkedc_vsftpd.Ipaddrparse.Length.{Address, parse_ipv6-Address}

-- PORT 10,0,0,9,4,210
parse_uchar_string_sep-join_example :
    vsf_sysutil_parse_uchar_string_sep (join b',' (10 ∷ 0 ∷ 0 ∷ 9 ∷ 4 ∷ 210 ∷ [])) b',' 6
    ≡ some (10 ∷ 0 ∷ 0 ∷ 9 ∷ 4 ∷ 210 ∷ [])
parse_uchar_string_sep-join_example =
    parse_uchar_string_sep-join b',' 10 (0 ∷ 0 ∷ 9 ∷ 4 ∷ 210 ∷ []) (omega arith) (omega arith) refl

parse_uchar_string_sep-Items_test :
    Items 2 (vsf_sysutil_parse_uchar_string_sep (b'1' ∷ b',' ∷ b'2' ∷ []) b',' 2)
parse_uchar_string_sep-Items_test = parse_uchar_string_sep-Items (b'1' ∷ b',' ∷ b'2' ∷ []) b',' 2

parse_ipv6-Address_example : Address (vsf_sysutil_parse_ipv6 (b':' ∷ b':' ∷ b'1' ∷ []))
parse_ipv6-Address_example = parse_ipv6-Address (b':' ∷ b':' ∷ b'1' ∷ [])

-- fe80:: fails at the bounds cast.
prefix_fails :
    vsf_sysutil_parse_ipv6 (b'f' ∷ b'e' ∷ b'8' ∷ b'0' ∷ b':' ∷ b':' ∷ [])
    ≡ some (fault Fault.bounds)
unfolding vsf_sysutil_parse_ipv6 checkedc_vsftpd.Ipaddrparse.ipv6_parse_main
    checkedc_vsftpd.Text.Split.str_split_text checkedc_vsftpd.Ipaddrparse.join_sides
    checkedc_vsftpd.Text.Split.str_split_char checkedc_vsftpd.Text.str_locate_text
    checkedc_vsftpd.Text.locate_text_loop checkedc_vsftpd.Text.has_prefix
    checkedc_vsftpd.Text.str_locate_char checkedc_vsftpd.Ipaddrparse.ipv6_parse_hex
prefix_fails = refl

-- ::1 is 15 zeros and a 1.
loopback :
    vsf_sysutil_parse_ipv6 (b':' ∷ b':' ∷ b'1' ∷ [])
    ≡ some (ok (some (0 ∷ 0 ∷ 0 ∷ 0 ∷ 0 ∷ 0 ∷ 0 ∷ 0 ∷ 0 ∷ 0 ∷ 0 ∷ 0 ∷ 0 ∷ 0 ∷ 0 ∷ 1 ∷ [])))
unfolding vsf_sysutil_parse_ipv6 checkedc_vsftpd.Ipaddrparse.ipv6_parse_main
    checkedc_vsftpd.Text.Split.str_split_text checkedc_vsftpd.Ipaddrparse.join_sides
    checkedc_vsftpd.Text.Split.str_split_char checkedc_vsftpd.Text.str_locate_text
    checkedc_vsftpd.Text.locate_text_loop checkedc_vsftpd.Text.has_prefix
    checkedc_vsftpd.Text.str_locate_char checkedc_vsftpd.Ipaddrparse.ipv6_parse_hex
loopback = refl
