-- ===== src/Tests/Transfers.antt =====
-- ascii.c, and the readers of str.c with a condition on what is looked for.
use checkedc_vsftpd.Base.{
  ◌+◌, ◌*◌, ◌≤◌, ◌≡◌, ◌↔◌, inl, Bool, true, false, some, [], ◌∷◌, ◌++◌, arith, Bytes, length,
}
use checkedc_vsftpd.Run.{Fault, ok, fault, Returns}
use checkedc_vsftpd.Text.{str_equal}
use checkedc_vsftpd.Text.Order.{str_equal_iff}
use checkedc_vsftpd.Text.Split.{str_split_char, str_split_char_lem}
use checkedc_vsftpd.Text.Lines.{lines, Among, str_contains_line, str_contains_line_lem}
use checkedc_vsftpd.Ascii.{vsf_ascii_bin_to_ascii, vsf_ascii_ascii_to_bin}
use checkedc_vsftpd.Ascii.Chunks.{
  bin_to_ascii_bounds, bin_to_ascii-append, bare_lf, bin_to_ascii-bare_lf,
}
use checkedc_vsftpd.Ascii.Receive.{ascii_to_bin_traps, ascii_to_bin_returns_end}

abbrev text : Bytes
text = b'h' ∷ b'i' ∷ b'\n' ∷ []

bin_to_ascii_bounds_test :
    (length text ≤ length (vsf_ascii_bin_to_ascii text false).0)
    × (length (vsf_ascii_bin_to_ascii text false).0 ≤ 2 * length text)
bin_to_ascii_bounds_test = bin_to_ascii_bounds text false

bin_to_ascii-append_example : vsf_ascii_bin_to_ascii (text ++ text) false ≡ (
    let (out, f) = vsf_ascii_bin_to_ascii text false in
    let (out', f') = vsf_ascii_bin_to_ascii text f in (out ++ out', f'))
bin_to_ascii-append_example = bin_to_ascii-append text text false

bin_to_ascii-bare_lf_test : bare_lf 0 (vsf_ascii_bin_to_ascii text false).0 ≡ false
bin_to_ascii-bare_lf_test = bin_to_ascii-bare_lf text false

abbrev received : Bytes
received = 0 ∷ b'h' ∷ b'i' ∷ b'\r' ∷ b'\n' ∷ []

ascii_to_bin_traps_example : vsf_ascii_ascii_to_bin true received 4 false ≡ fault Fault.bounds
ascii_to_bin_traps_example = ascii_to_bin_traps received 4 false (inl (omega arith))

ascii_to_bin_returns_end_example :
    Returns (vsf_ascii_ascii_to_bin false received 4 false) λ u. u.p_out ≡ some (u.written + 1)
ascii_to_bin_returns_end_example = ascii_to_bin_returns_end received 4 (omega arith)

str_equal_iff_test : (str_equal text text ≡ true) ↔ (text ≡ text)
str_equal_iff_test = str_equal_iff text text

str_split_char_lem_test : str_split_char (b'a' ∷ b'=' ∷ b'b' ∷ []) b'=' ≡ (b'a' ∷ [], b'b' ∷ [])
str_split_char_lem_test = str_split_char_lem (b'a' ∷ b'=' ∷ b'b' ∷ []) b'=' (omega arith)

str_contains_line_lem_test :
    (b : Bool) × (str_contains_line (length text + 1) text 0 (b'h' ∷ b'i' ∷ []) ≡ ok (some b))
    × ((b ≡ true) ↔ Among (b'h' ∷ b'i' ∷ []) (lines text))
str_contains_line_lem_test = str_contains_line_lem text (b'h' ∷ b'i' ∷ [])
