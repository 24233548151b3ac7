-- ===== src/Text.antt =====
-- str.c, the functions that read strings, over the content of a string: its first `len` bytes.
-- A `p_text` argument is a C text, given without its terminator. `locate` results keep the
-- source's record. A `char` is its unsigned value, and ctype.h is that of the C locale.
pub mod Find
pub mod Order
pub mod Split
pub mod Replace
pub mod Lines
pub mod Basename
use Prim.Native.Nat.{compare, Ordering}
use checkedc_vsftpd.Base.{
  ℕ, zero, suc, ◌+◌, ◌-◌, Bool, true, false, not, ◌&&◌, ◌||◌, List, [], ◌∷◌, ◌++◌, ltb, leb, ◌==◌,
  if◌then◌else◌, Bytes, length, take, drop,
}

-- vsf_sysutil_isspace, isdigit, toupper, isprint
unfoldable pub is_space : ℕ → Bool
is_space c = c == 32 || (leb 9 c && leb c 13)

unfoldable pub is_digit : ℕ → Bool
is_digit c = leb b'0' c && leb c b'9'

unfoldable pub to_upper : ℕ → ℕ
to_upper c = if leb b'a' c && leb c b'z' then c - 32 else c

unfoldable pub is_print : ℕ → Bool
is_print c =
    if leb c 31
    then false
    else if c == 177
    then false
    else if leb 128 c && leb c 159
    then false
    else leb 32 c && leb c 126

-- The bytes before the first terminator: what `strlen` and its kin see of a buffer.
unfoldable pub c_text : Bytes → Bytes
c_text [] = []
c_text (c ∷ s) = if c == 0 then [] else c ∷ c_text s

pub record LocateResult : Type 0 where
  pub found : Bool
  pub index : ℕ
  pub char_found : ℕ

abbrev pub not_located : LocateResult
not_located = record { found = false; index = 0; char_found = 0 }

abbrev pub located : ℕ → LocateResult
located i = record { found = true; index = i; char_found = 0 }

-- `memcmp(s, t, len of t) == 0`
unfoldable pub has_prefix : Bytes → Bytes → Bool
has_prefix [] s = true
has_prefix (x ∷ t) [] = false
has_prefix (x ∷ t) (y ∷ s) = x == y && has_prefix t s

-- The loop of `str_locate_text` at index `i`, with the rounds left and what lies behind `i`.
unfoldable pub locate_text_loop : ℕ → ℕ → Bytes → Bytes → LocateResult
locate_text_loop zero i s t = not_located
locate_text_loop (suc rounds) i s t =
    let rest = locate_text_loop rounds (i + 1) (drop 1 s) t in
    if has_prefix t s then located i else rest

unfoldable pub str_locate_text : Bytes → Bytes → LocateResult
str_locate_text s t =
    if length t == 0 || ltb (length s) (length t)
    then not_located
    else locate_text_loop (length s - length t + 1) 0 s t

-- The `while (1)` of `str_locate_text_reverse`, at index `i`.
unfoldable pub locate_text_reverse_loop : ℕ → Bytes → Bytes → LocateResult
locate_text_reverse_loop zero s t = if has_prefix t s then located 0 else not_located
locate_text_reverse_loop (suc i) s t =
    let rest = locate_text_reverse_loop i s t in
    if has_prefix t (drop (suc i) s) then located (suc i) else rest

unfoldable pub str_locate_text_reverse : Bytes → Bytes → LocateResult
str_locate_text_reverse s t =
    if length t == 0 || ltb (length s) (length t)
    then not_located
    else locate_text_reverse_loop (length s - length t) s t

unfoldable pub str_locate_str : Bytes → Bytes → LocateResult
unfolding c_text
str_locate_str s look = str_locate_text s (c_text look)

unfoldable pub str_locate_str_reverse : Bytes → Bytes → LocateResult
unfolding c_text
str_locate_str_reverse s look = str_locate_text_reverse s (c_text look)

-- `look_str` is one character and a terminator, so a search for 0 is a search for nothing.
unfoldable pub str_locate_char : Bytes → ℕ → LocateResult
unfolding c_text
str_locate_char s c = str_locate_text s (c_text (c ∷ []))

unfoldable pub among : ℕ → Bytes → Bool
among c [] = false
among c (d ∷ cs) = d == c || among c cs

unfoldable pub locate_chars_loop : ℕ → Bytes → Bytes → LocateResult
locate_chars_loop i [] cs = not_located
locate_chars_loop i (c ∷ s) cs =
    let rest = locate_chars_loop (i + 1) s cs in
    if among c cs then record { found = true; index = i; char_found = c } else rest

unfoldable pub str_locate_chars : Bytes → Bytes → LocateResult
unfolding among locate_chars_loop
str_locate_chars s cs = locate_chars_loop 0 s cs

-- The sign of `memcmp` over `n` bytes.
unfoldable pub memcmp : ℕ → Bytes → Bytes → Ordering
memcmp zero a b = Ordering.eq
memcmp (suc n) (x ∷ a) (y ∷ b) =
    let rest = memcmp n a b in
    elim (compare x y) [
      | Ordering.lt ↦ Ordering.lt
      | Ordering.gt ↦ Ordering.gt
      | Ordering.eq ↦ rest
    ]
memcmp (suc n) _ _ = Ordering.eq

-- The sign of the result; `(int)(buf1_len - buf2_len)` has that of the lengths' comparison.
unfoldable pub str_equal_internal : Bytes → Bytes → Ordering
unfolding memcmp
str_equal_internal a b =
    let minlen = if ltb (length b) (length a) then length b else length a in
    elim (memcmp minlen a b) [
      | Ordering.lt ↦ Ordering.lt
      | Ordering.gt ↦ Ordering.gt
      | Ordering.eq ↦ if length a == length b then Ordering.eq else compare (length a) (length b)
    ]

unfoldable pub str_strcmp : Bytes → Bytes → Ordering
str_strcmp a b = str_equal_internal a b

abbrev pub is_eq : Ordering → Bool
is_eq Ordering.eq = true
is_eq _ = false

unfoldable pub str_equal : Bytes → Bytes → Bool
unfolding str_strcmp
str_equal a b = is_eq (str_strcmp a b)

unfoldable pub str_equal_text : Bytes → Bytes → Bool
str_equal_text a t = is_eq (str_equal_internal a t)

abbrev pub str_isempty : Bytes → Bool
str_isempty s = length s == 0

unfoldable pub str_contains_space : Bytes → Bool
unfolding is_space
str_contains_space [] = false
str_contains_space (c ∷ s) = if is_space c then true else str_contains_space s

unfoldable pub str_all_space : Bytes → Bool
unfolding is_space
str_all_space [] = true
str_all_space (c ∷ s) = if not (is_space c) then false else str_all_space s

unfoldable pub str_contains_unprintable : Bytes → Bool
unfolding is_print
str_contains_unprintable [] = false
str_contains_unprintable (c ∷ s) = if not (is_print c) then true else str_contains_unprintable s
