-- ===== src/Ipaddrparse.antt =====
-- ipaddrparse.c: the parsers of addresses and of separated numbers, on contents. `none` is a
-- return of 0.
pub mod Separated
pub mod Length
use Prim.Native.Nat.{bit_or}
use checkedc_vsftpd.Base.{
  ℕ, zero, suc, ◌+◌, ◌-◌, ◌*◌, ◌/◌, ◌%◌, Bool, true, false, not, ◌&&◌, ◌||◌, Option, none, some,
  List, [], ◌∷◌, ◌++◌, ltb, leb, ◌==◌, if◌then◌else◌, Bytes, length, take, replicate,
}
use checkedc_vsftpd.Run.{Run, Fault, ok, fault}
use checkedc_vsftpd.Str.{u32_mod, add32}
use checkedc_vsftpd.Text.{to_upper, c_text, str_isempty, str_locate_char}
use checkedc_vsftpd.Text.Split.{str_split_text, str_split_char}
use checkedc_vsftpd.Number.{atoi}

-- A round of the loop of `vsf_sysutil_parse_uchar_string_sep`, with `left` more to go and what
-- they give. `this_number` is the bit pattern of an int, so a negative one is above 255. The items
-- are read only where the function does not return 0.
unfoldable pub sep_round : ℕ → Bytes → Bytes → Option Bytes → Option Bytes
sep_round left field rhs rest =
    let this_number = atoi (c_text field) in
    if (ltb 0 left && str_isempty rhs) || (left == 0 && not (str_isempty rhs))
    then none
    else if ltb 255 this_number
    then none
    else elim rest [ none ↦ none | some items ↦ some (this_number ∷ items) ]

unfoldable pub sep_loop : ℕ → ℕ → Bytes → Option Bytes
sep_loop sep zero tmp = some []
sep_loop sep (suc left) tmp =
    let (field, rhs) = str_split_char tmp sep in sep_round left field rhs (sep_loop sep left rhs)

unfoldable pub vsf_sysutil_parse_uchar_string_sep : Bytes → ℕ → ℕ → Option Bytes
vsf_sysutil_parse_uchar_string_sep s sep items = sep_loop sep items s

unfoldable pub vsf_sysutil_parse_ipv4 : Bytes → Option Bytes
vsf_sysutil_parse_ipv4 s = vsf_sysutil_parse_uchar_string_sep s b'.' 4

-- The value of one hex digit in upper case.
unfoldable pub hex_digit : ℕ → Option ℕ
hex_digit ch =
    if leb b'0' ch && leb ch b'9'
    then some (ch - b'0')
    else if leb b'A' ch && leb ch b'F'
    then some (ch - b'A' + 10)
    else none

unfoldable pub hex_loop : ℕ → Bytes → Option ℕ
unfolding hex_digit to_upper
hex_loop val [] = some val
hex_loop val (c ∷ s) = elim (hex_digit (to_upper c)) [
  | none ↦ none
  | some ch ↦
      let val' = bit_or (val * 16 % u32_mod) ch in
      let rest = hex_loop val' s in if ltb 65535 val' then none else rest
]

-- What is appended to `p_out_str`.
unfoldable pub ipv6_parse_hex : Bytes → Option Bytes
unfolding hex_loop
ipv6_parse_hex s = elim (hex_loop 0 s) [
  | none ↦ none
  | some val ↦ some (val / 256 % 256 ∷ val % 256 ∷ [])
]

-- The variables of the loop of `ipv4_parse_dotquad`.
pub record Dotquad : Type 0 where
  pub val : ℕ
  pub final_val : ℕ
  pub seen_char : Bool
  pub dots : ℕ

abbrev no_dots : Dotquad
no_dots = record { val = 0; final_val = 0; seen_char = false; dots = 0 }

unfoldable pub dotquad_step : Dotquad → ℕ → Option Dotquad
dotquad_step d ch =
    if ch == b'.'
    then if not d.seen_char || d.dots == 3
      then none
      else some (record {
        val = 0;
        final_val = bit_or (d.final_val * 256 % u32_mod) d.val;
        seen_char = false;
        dots = suc d.dots;
      })
    else if leb b'0' ch && leb ch b'9'
    then (let val' = d.val * 10 + (ch - b'0') in
        if ltb 255 val' then none else some (record d { val = val'; seen_char = true }))
    else none

unfoldable pub dotquad_loop : Dotquad → Bytes → Option Dotquad
unfolding dotquad_step
dotquad_loop d [] = some d
dotquad_loop d (c ∷ s) = elim (dotquad_step d c) [ none ↦ none | some d' ↦ dotquad_loop d' s ]

unfoldable pub ipv4_parse_dotquad : Bytes → Option Bytes
unfolding dotquad_loop
ipv4_parse_dotquad s = elim (dotquad_loop no_dots s) [
  | none ↦ none
  | some d ↦
      let final_val = bit_or (d.final_val * 256 % u32_mod) d.val in
      if not (d.dots == 3) || not d.seen_char
      then none
      else some (
          final_val / 16777216 % 256
          ∷ final_val / 65536 % 256
          ∷ final_val / 256 % 256
          ∷ final_val % 256
          ∷ [])
]

-- `while (!str_isempty(&s_lhs_str))`, on fuel, where the outer `none` is fuel that ran out.
unfoldable pub ipv6_parse_main : ℕ → Bytes → Bytes → Option (Option Bytes)
ipv6_parse_main zero out s = none
ipv6_parse_main (suc fuel) out s =
    let (lhs, rhs) = str_split_char s b':' in
    let part : Option Bytes =
      if (str_locate_char lhs b'.').found then ipv4_parse_dotquad lhs else ipv6_parse_hex lhs in
    let rest : Option (Option Bytes) = elim part [
      | none ↦ some none
      | some bytes ↦ ipv6_parse_main fuel (out ++ bytes) rhs
    ] in
    if str_isempty s then some (some out) else if str_isempty lhs then some none else rest

-- The two sides of `::` put together; the cast to the 16 bytes of an address.
unfoldable pub join_sides : Bytes → Bytes → Run (Option Bytes)
join_sides lhs rhs =
    if ltb 16 (add32 (length lhs) (length rhs))
    then ok none
    else let ret =
        if ltb 0 (length rhs)
        then lhs ++ replicate (16 - (length lhs + length rhs)) 0 ++ rhs
        else lhs in
      if ltb (length ret) 16 then fault Fault.bounds else ok (some (take 16 ret))

abbrev pub right_side : Bytes → Option (Option Bytes) → Option (Run (Option Bytes))
right_side left none = none
right_side left (some none) = some (ok none)
right_side left (some (some right)) = some (join_sides left right)

-- The right side is not looked at where the left one is refused.
abbrev pub left_side : Bytes → Option (Option Bytes) → Option (Run (Option Bytes))
left_side rhs none = none
left_side rhs (some none) = some (ok none)
left_side rhs (some (some left)) = right_side left (ipv6_parse_main (length rhs + 1) [] rhs)

-- One round for each byte of a side and one more.
unfoldable pub vsf_sysutil_parse_ipv6 : Bytes → Option (Run (Option Bytes))
vsf_sysutil_parse_ipv6 s =
    let (lhs, rhs) = str_split_text s (b':' ∷ b':' ∷ []) in
    left_side rhs (ipv6_parse_main (length lhs + 1) [] lhs)
