-- ===== src/Cmdio/Respond.antt =====
-- ftpcmdio.c, ftp_write_str_common: what the client sees of a response.
use mathlib.Core.List.{map}
use checkedc_vsftpd.Base.{
  ℕ, ◌<◌, ◌^◌, ◌≡◌, ◌≢◌, refl, ap, ◌∙◌, inl, inr, true, false, ◌&&◌, some, [], ◌∷◌, ◌++◌, arith,
  ◌==◌, if◌then◌else◌, Bool-cases, Bytes, codes, ==-no,
}
use checkedc_vsftpd.Text.Split.{has_byte}
use checkedc_vsftpd.Text.Replace.{substitute, str_replace_text_lem}
use checkedc_vsftpd.Number.Print.{
  vsf_sysutil_ulong_to_str, ulong_to_str-decimal, all_digits-has_byte,
}
use checkedc_vsftpd.Cmdio.{replaced, framed, ftp_write_str_common}

-- A Telnet reader: the byte 255 twice stands for one.
abbrev pub unescape : Bytes → Bytes
unescape [] = []
unescape (c ∷ []) = c ∷ []
unescape (c ∷ d ∷ s) =
    let one = unescape s in
    let two = unescape (d ∷ s) in if c == 255 && d == 255 then 255 ∷ one else c ∷ two

abbrev escaped : Bytes → Bytes
escaped s = map (replaced b'\n' 0) (substitute 255 (255 ∷ 255 ∷ []) s)

pub has_byte-append :
    (c : ℕ) (xs ys : Bytes)
    → has_byte c xs ≡ false
    → has_byte c ys ≡ false
    → has_byte c (xs ++ ys) ≡ false
has_byte-append c [] ys h k = k
has_byte-append c (x ∷ xs) ys h k = ground (arith, has_byte-append c xs ys)

has_byte-replaced : (c d : ℕ) (s : Bytes) → d ≢ c → has_byte c (map (replaced c d) s) ≡ false
has_byte-replaced c d [] h = refl
has_byte-replaced c d (x ∷ s) h = ground (arith, h, has_byte-replaced c d s h)

unescape_plain : (c : ℕ) (s : Bytes) → (c == 255) ≡ false → unescape (c ∷ s) ≡ c ∷ unescape s
unescape_plain c [] h = refl
unescape_plain c (d ∷ s) h = rw h refl

-- What is sent of a text, byte for byte.
abbrev pub sent_text : Bytes → Bytes
sent_text [] = []
sent_text (c ∷ s) =
    let rest = sent_text s in
    if c == 255 then 255 ∷ 255 ∷ rest else if c == b'\n' then 0 ∷ rest else c ∷ rest

escaped_lem : (s : Bytes) → escaped s ≡ sent_text s
escaped_lem [] = refl
escaped_lem (c ∷ s) = elim (Bool-cases (c == 255)) [
  | inl e ↦ rw (e, escaped_lem s) refl
  | inr e ↦ rw e (elim (Bool-cases (c == b'\n')) [
    | inl e' ↦ rw (e', escaped_lem s) refl
    | inr e' ↦ rw (e', escaped_lem s) refl
  ])
]

unescape-escaped : (s : Bytes) → unescape (escaped s) ≡ map (replaced b'\n' 0) s
unescape-escaped [] = refl
unescape-escaped (c ∷ s) = elim (Bool-cases (c == 255)) [
  | inl e ↦ rw (e, is_255 c e) (ap (λ u. 255 ∷ u) (unescape-escaped s))
  | inr e ↦ rw e (
      unescape_plain (replaced b'\n' 0 c) (escaped s) (not_255 c e)
      ∙ ap (λ u. replaced b'\n' 0 c ∷ u) (unescape-escaped s))
]
  where
    is_255 : (c : ℕ) → (c == 255) ≡ true → replaced b'\n' 0 c ≡ 255
    is_255 c h = ground arith

    not_255 : (c : ℕ) → (c == 255) ≡ false → (replaced b'\n' 0 c == 255) ≡ false
    not_255 c h = ground arith

-- For a status below 2 ^ 64 and a separator that is no newline, the client gets one line: the
-- status in digits, the separator and the text, in which the byte 255 is doubled and a newline is
-- the byte 0, so that the only newline is that of the end; a Telnet reader gets the text back,
-- but for its newlines.
pub write_str-one_line :
    (status sep : ℕ) (str : Bytes)
    → status < 2 ^ 64
    → sep ≢ b'\n'
    → (ftp_write_str_common status sep str
        ≡ some (vsf_sysutil_ulong_to_str status ++ sep ∷ sent_text str ++ codes "\r\n"))
      × (has_byte b'\n' (vsf_sysutil_ulong_to_str status ++ sep ∷ sent_text str ++ codes "\r")
          ≡ false)
      × (unescape (sent_text str) ≡ map (replaced b'\n' 0) str)
unfolding ftp_write_str_common
write_str-one_line status sep str h plain = rw (← escaped_lem str) (
  ap (framed status sep) (str_replace_text_lem str 255 (255 ∷ 255 ∷ []) (λ e. cc)),
  has_byte-append b'\n' (vsf_sysutil_ulong_to_str status ++ sep ∷ escaped str) (codes "\r")
      (has_byte-append b'\n' (vsf_sysutil_ulong_to_str status) (sep ∷ escaped str)
        (all_digits-has_byte b'\n' (vsf_sysutil_ulong_to_str status) (omega arith)
          (ulong_to_str-decimal status h).0)
        (rw (==-no sep b'\n' plain)
          (has_byte-replaced b'\n' 0 (substitute 255 (255 ∷ 255 ∷ []) str) (λ e. cc))))
      refl,
  unescape-escaped str,
)
