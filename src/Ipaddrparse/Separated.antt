-- ===== src/Ipaddrparse/Separated.antt =====
-- ipaddrparse.c, the separated numbers of PORT and of dotted addresses.
use checkedc_vsftpd.Base.{
  ℕ, zero, suc, ◌+◌, ◌-◌, ◌*◌, ◌/◌, ◌%◌, ◌<◌, ◌≡◌, ◌≢◌, refl, ap, ◌∙◌, inl, inr, Bool, true, false,
  not, ◌&&◌, ◌||◌, Option, none, some, List, [], ◌∷◌, ◌++◌, arith, ltb, ◌==◌, if◌then◌else◌,
  Bool-cases, Bytes, length, ltb→lt, le→ltb,
}
use checkedc_vsftpd.Text.{c_text, str_isempty}
use checkedc_vsftpd.Text.Split.{
  before-join, str_split_char, str_split_char_lem, has_byte, absent-before,
}
use checkedc_vsftpd.Number.{atoi}
use checkedc_vsftpd.Number.Decimal.{atoi-decimal}
use checkedc_vsftpd.Ipaddrparse.{sep_loop, sep_round, vsf_sysutil_parse_uchar_string_sep}

-- A byte in decimal digits, with no zero in front.
abbrev pub print_byte : ℕ → Bytes
print_byte n =
    if ltb n 10
    then (b'0' + n) ∷ []
    else if ltb n 100
    then (b'0' + n / 10) ∷ (b'0' + n % 10) ∷ []
    else (b'0' + n / 100) ∷ (b'0' + n / 10 % 10) ∷ (b'0' + n % 10) ∷ []

abbrev pub join : ℕ → List ℕ → Bytes
join sep [] = []
join sep (n ∷ []) = print_byte n
join sep (n ∷ (m ∷ ns)) = print_byte n ++ sep ∷ join sep (m ∷ ns)

abbrev pub all_bytes : List ℕ → Bool
all_bytes [] = true
all_bytes (n ∷ ns) = ltb n 256 && all_bytes ns

digit : (d : ℕ) → d < 10 → not (ltb (b'0' + d) b'0' || ltb b'9' (b'0' + d)) ≡ true
digit d h = ground arith

value_of : (d : ℕ) → b'0' + d - b'0' ≡ d
value_of d = omega arith

-- Up to three digits and their value.
one_digit : (a : ℕ) → a < 10 → atoi (c_text ((b'0' + a) ∷ [])) ≡ a
one_digit a h = atoi-decimal (b'0' + a) [] (rw (digit a h) refl) (omega arith) ∙ omega arith

two_digits : (a b : ℕ) → a < 10 → b < 10 → atoi (c_text ((b'0' + a) ∷ (b'0' + b) ∷ [])) ≡ a * 10 + b
two_digits a b h k =
    atoi-decimal (b'0' + a) ((b'0' + b) ∷ []) (rw (digit a h, digit b k) refl) (omega arith)
    ∙ omega arith

three_digits :
    (a b c : ℕ)
    → a < 10
    → b < 10
    → c < 10
    → atoi (c_text ((b'0' + a) ∷ (b'0' + b) ∷ (b'0' + c) ∷ [])) ≡ a * 100 + b * 10 + c
three_digits a b c h k l =
    atoi-decimal (b'0' + a) ((b'0' + b) ∷ (b'0' + c) ∷ [])
      (rw (digit a h, digit b k, digit c l) refl) (omega arith)
    ∙ omega arith

atoi-print_byte : (n : ℕ) → n < 256 → atoi (c_text (print_byte n)) ≡ n
atoi-print_byte n h = elim (Bool-cases (ltb n 10)) [
  | inl one ↦ rw one (one_digit n (ltb→lt n 10 one))
  | inr more ↦ rw more (elim (Bool-cases (ltb n 100)) [
    | inl two ↦
        let small : n < 100 = ltb→lt n 100 two in
        rw two (two_digits (n / 10) (n % 10) (omega arith) (omega arith) ∙ omega arith)
    | inr three ↦ rw three (
        three_digits (n / 100) (n / 10 % 10) (n % 10) (omega arith) (omega arith) (omega arith)
        ∙ omega arith)
  ])
]

-- No separator below the digits stands in a printed byte.
print_byte-no_sep : (sep n : ℕ) → sep < b'0' → has_byte sep (print_byte n) ≡ false
print_byte-no_sep sep n h = ground arith

print_byte-nonempty : (n : ℕ) → (s : Bytes) → str_isempty (print_byte n ++ s) ≡ false
print_byte-nonempty n s = ground arith

join-nonempty : (sep n : ℕ) (ns : List ℕ) → str_isempty (join sep (n ∷ ns)) ≡ false
join-nonempty sep n [] = ground (arith, print_byte-nonempty n [])
join-nonempty sep n (m ∷ ns) = print_byte-nonempty n (sep ∷ join sep (m ∷ ns))

sep_step :
    (sep left : ℕ) (tmp field rhs : Bytes)
    → str_split_char tmp sep ≡ (field, rhs)
    → sep_loop sep (suc left) tmp ≡ sep_round left field rhs (sep_loop sep left rhs)
unfolding sep_loop
sep_step sep left tmp field rhs e = ap (λ p. sep_round left p.0 p.1 (sep_loop sep left p.1)) e

sep_loop_end : (sep : ℕ) (tmp : Bytes) → sep_loop sep 0 tmp ≡ some []
unfolding sep_loop
sep_loop_end sep tmp = refl

split_last :
    (sep n : ℕ) → sep ≢ 0 → sep < b'0' → str_split_char (print_byte n) sep ≡ (print_byte n, [])
split_last sep n ne low =
    let none_there = absent-before sep (print_byte n) (print_byte-no_sep sep n low) in
    str_split_char_lem (print_byte n) sep ne ∙ rw (none_there.0, none_there.1) refl

split_first :
    (sep n : ℕ) (s : Bytes)
    → sep ≢ 0
    → sep < b'0'
    → str_split_char (print_byte n ++ sep ∷ s) sep ≡ (print_byte n, s)
split_first sep n s ne low =
    let parts = before-join sep (print_byte n) s (print_byte-no_sep sep n low) in
    str_split_char_lem (print_byte n ++ sep ∷ s) sep ne ∙ rw (parts.0, parts.1) refl

round_last : (n : ℕ) → n < 256 → sep_round 0 (print_byte n) [] (some []) ≡ some (n ∷ [])
unfolding sep_round
round_last n h = rw (atoi-print_byte n h, le→ltb 255 n (omega arith)) refl

round_more :
    (left n : ℕ) (rhs items : Bytes)
    → n < 256
    → str_isempty rhs ≡ false
    → sep_round (suc left) (print_byte n) rhs (some items) ≡ some (n ∷ items)
unfolding sep_round
round_more left n rhs items h more =
    rw (more, atoi-print_byte n h, le→ltb 255 n (omega arith)) ground arith

-- Bytes that are printed in decimal with a separator between them are read back, for a separator
-- below the digits and other than 0, as the comma of PORT and the dot of an address are.
pub parse_uchar_string_sep-join :
    (sep n : ℕ) (ns : List ℕ)
    → sep ≢ 0
    → sep < b'0'
    → all_bytes (n ∷ ns) ≡ true
    → vsf_sysutil_parse_uchar_string_sep (join sep (n ∷ ns)) sep (length (n ∷ ns)) ≡ some (n ∷ ns)
unfolding vsf_sysutil_parse_uchar_string_sep
parse_uchar_string_sep-join sep n ns ne low h = loop n ns h
  where
    loop :
        (n : ℕ) (ns : List ℕ)
        → all_bytes (n ∷ ns) ≡ true
        → sep_loop sep (length (n ∷ ns)) (join sep (n ∷ ns)) ≡ some (n ∷ ns)
    loop n [] h =
        sep_step sep 0 (print_byte n) (print_byte n) [] (split_last sep n ne low)
        ∙ ap (sep_round 0 (print_byte n) []) (sep_loop_end sep [])
        ∙ round_last n ground arith
    loop n (m ∷ ns) h =
        sep_step sep (suc (length ns)) (join sep (n ∷ m ∷ ns)) (print_byte n) (join sep (m ∷ ns))
          (split_first sep n (join sep (m ∷ ns)) ne low)
        ∙ ap (sep_round (suc (length ns)) (print_byte n) (join sep (m ∷ ns)))
            (loop m ns ground arith)
        ∙ round_more (length ns) n (join sep (m ∷ ns)) (m ∷ ns) ground arith
            (join-nonempty sep m ns)

-- What a reader of `items` bytes may answer.
abbrev pub Items : ℕ → Option Bytes → Type 0
Items items none = Unit {0}
Items items (some xs) = (length xs ≡ items) × (all_bytes xs ≡ true)

round-Items :
    (left : ℕ) (field rhs : Bytes) (rest : Option Bytes)
    → Items left rest
    → Items (suc left) (sep_round left field rhs rest)
unfolding sep_round
round-Items left field rhs rest h =
    let wrong = (ltb 0 left && str_isempty rhs) || (left == 0 && not (str_isempty rhs)) in
    elim (Bool-cases wrong) [
      | inl e ↦ rw e tt
      | inr e ↦ rw e (elim (Bool-cases (ltb 255 (atoi (c_text field)))) [
        | inl big ↦ rw big tt
        | inr small ↦ rw small (go rest h (ground arith))
      ])
    ]
  where
    go :
        (o : Option Bytes)
        → Items left o
        → atoi (c_text field) < 256
        → Items
            (suc left)
            (elim o [ none ↦ none | some items ↦ some (atoi (c_text field) ∷ items) ])
    go none h small = tt
    go (some xs) (size, bytes) small = (ap suc size, ground arith)

-- Where the reader of separated numbers does not refuse its string, it gives as many numbers as it
-- was asked for, each a byte.
pub parse_uchar_string_sep-Items :
    (s : Bytes) (sep items : ℕ) → Items items (vsf_sysutil_parse_uchar_string_sep s sep items)
unfolding vsf_sysutil_parse_uchar_string_sep sep_loop
parse_uchar_string_sep-Items s sep items = loop items s
  where
    loop : (left : ℕ) (tmp : Bytes) → Items left (sep_loop sep left tmp)
    loop zero tmp = (refl, refl)
    loop (suc left) tmp =
        round-Items left (str_split_char tmp sep).0 (str_split_char tmp sep).1
          (sep_loop sep left (str_split_char tmp sep).1) (loop left (str_split_char tmp sep).1)
