-- ===== src/Cmdio/Command.antt =====
-- ftpcmdio.c, vsf_cmdio_get_cmd_and_arg: the commands that a client sends.
use mathlib.Core.List.{map, map-append, append_assoc}
use checkedc_vsftpd.Base.{
  ℕ, zero, suc, ◌+◌, ◌≤◌, ◌<◌, ◌≡◌, refl, sym, ◌∙◌, inl, inr, Bool, true, false, some, [], ◌∷◌,
  ◌++◌, arith, ◌==◌, if◌then◌else◌, Bool-cases, Bytes, leb, ==-no, take-append_all, codes, length,
  take, get_elem?, length-append,
}
use checkedc_vsftpd.Run.{ok}
use checkedc_vsftpd.Text.{to_upper}
use checkedc_vsftpd.Text.Split.{has_byte, str_split_char_lem, before-join}
use checkedc_vsftpd.Netstr.{Socket, IsStream, is_byte}
use checkedc_vsftpd.Netstr.Line.{str_netfd_alloc_lem}
use checkedc_vsftpd.Cmdio.Respond.{has_byte-append}
use checkedc_vsftpd.Cmdio.{
  replaced, exits, command, strip_returns, clean_line, gotline, control_getline, ftp_getline,
  split_command, got_command, upper_first, vsf_cmdio_write_exit, vsf_cmdio_get_cmd_and_arg,
  vsftp_max_command_line,
}

map-replaced : (c d : ℕ) (s : Bytes) → has_byte c s ≡ false → map (replaced c d) s ≡ s
map-replaced c d [] h = refl
map-replaced c d (x ∷ s) h = ground (arith, map-replaced c d s)

get_elem?-absent : (c n : ℕ) (s : Bytes) → has_byte c s ≡ false → is_byte c (get_elem? s n) ≡ false
get_elem?-absent c n [] h = refl
get_elem?-absent c zero (x ∷ s) h = ground arith
get_elem?-absent c (suc n) (x ∷ s) h = get_elem?-absent c n s (tail c x s h)
  where
    tail : (c x : ℕ) (s : Bytes) → has_byte c (x ∷ s) ≡ false → has_byte c s ≡ false
    tail c x s h = ground arith

get_elem?-last : (c : ℕ) (s : Bytes) → get_elem? (s ++ c ∷ []) (length s) ≡ some c
get_elem?-last c [] = refl
get_elem?-last c (x ∷ s) = get_elem?-last c s

strip_returns_none : (n : ℕ) (s : Bytes) → has_byte b'\r' s ≡ false → strip_returns n s ≡ s
unfolding strip_returns
strip_returns_none zero s h = refl
strip_returns_none (suc n) s h = rw (get_elem?-absent b'\r' n s h) refl

strip_returns_one :
    (s : Bytes) → has_byte b'\r' s ≡ false → strip_returns (suc (length s)) (s ++ codes "\r") ≡ s
unfolding strip_returns
strip_returns_one s h =
    rw (get_elem?-last b'\r' s, take-append_all s (codes "\r")) (strip_returns_none (length s) s h)

-- A line without the bytes 0 and `\r` keeps its content and loses the `\r` sent behind it.
clean_line-sent :
    (s : Bytes) → has_byte 0 s ≡ false → has_byte b'\r' s ≡ false → clean_line (s ++ codes "\r") ≡ s
unfolding clean_line
clean_line-sent s h k =
    rw
      (
        map-append (replaced 0 b'\n') s (codes "\r"),
        map-replaced 0 b'\n' s h,
        let e : length (s ++ codes "\r") ≡ suc (length s) =
              length-append s (codes "\r") ∙ omega arith in
            e,
      )
      (strip_returns_one s k)

split_command-sent :
    (c : ℕ) (cmd arg : Bytes)
    → has_byte b' ' (c ∷ cmd) ≡ false
    → split_command ((c ∷ cmd) ++ b' ' ∷ arg) ≡ (c ∷ cmd, arg)
unfolding split_command
split_command-sent c cmd arg h =
    let (front, back) = before-join b' ' (c ∷ cmd) arg h in
    rw (more, str_split_char_lem ((c ∷ cmd) ++ b' ' ∷ arg) b' ' (λ e. cc), front, back) refl
  where
    more : length ((c ∷ cmd) ++ b' ' ∷ arg) == 1 ≡ false
    more =
        ==-no (length ((c ∷ cmd) ++ b' ' ∷ arg)) 1
          (λ e. omega (arith, length-append (c ∷ cmd) (b' ' ∷ arg)))

in_sight :
    (term left : ℕ) (v rest : Bytes)
    → length v < left
    → has_byte term (take left (v ++ term ∷ rest)) ≡ true
in_sight term zero v rest h = elim h [ ]
in_sight term (suc left) [] rest h = ground arith
in_sight term (suc left) (x ∷ v) rest h = ground (arith, in_sight term left v rest)

-- The line `v`, sent with its newline.
read_line :
    (k : Socket) (v rest : Bytes)
    → IsStream k
    → has_byte b'\n' v ≡ false
    → length v < vsftp_max_command_line
    → vsf_cmdio_get_cmd_and_arg k false (v ++ b'\n' ∷ rest)
      ≡ ok (some (upper_first (split_command (clean_line v)) rest))
unfolding vsf_cmdio_get_cmd_and_arg control_getline ftp_getline gotline got_command
read_line k v rest conn plain room =
    let (i, run) = str_netfd_alloc_lem k b'\n' vsftp_max_command_line (v ++ b'\n' ∷ rest) conn in
    let (front, back) = before-join b'\n' v rest plain in
    rw run (rw (in_sight b'\n' vsftp_max_command_line v rest room, front, back) refl)

-- On a connection without errors and before the alarm, a command and its argument, sent as one
-- line of at most 4096 bytes, come back with the command in upper case, and what was sent behind
-- them is left on the stream, however the bytes arrive. The command is not empty and has no
-- space, and neither has a byte 0, a newline or a carriage return.
pub get_cmd_and_arg-sent :
    (k : Socket) (c : ℕ) (cmd arg rest : Bytes)
    → IsStream k
    → has_byte b' ' (c ∷ cmd) ≡ false
    → has_byte 0 ((c ∷ cmd) ++ b' ' ∷ arg) ≡ false
    → has_byte b'\r' ((c ∷ cmd) ++ b' ' ∷ arg) ≡ false
    → has_byte b'\n' ((c ∷ cmd) ++ b' ' ∷ arg) ≡ false
    → length (c ∷ cmd) + length arg + 3 ≤ vsftp_max_command_line
    → vsf_cmdio_get_cmd_and_arg k false ((c ∷ cmd) ++ b' ' ∷ arg ++ codes "\r\n" ++ rest)
      ≡ ok (some (command (map to_upper (c ∷ cmd)) arg rest))
get_cmd_and_arg-sent k c cmd arg rest conn one no_nul no_return no_newline room =
    let u = (c ∷ cmd) ++ b' ' ∷ arg in
    let whole : u ++ codes "\r\n" ++ rest ≡ u ++ codes "\r" ++ b'\n' ∷ rest =
      append_assoc u (codes "\r\n") rest ∙ sym (append_assoc u (codes "\r") (b'\n' ∷ rest)) in
    let size = length-append u (codes "\r") in
    let size' = length-append (c ∷ cmd) (b' ' ∷ arg) in
    rw
      (
        whole,
        read_line k (u ++ codes "\r") rest conn
            (has_byte-append b'\n' u (codes "\r") no_newline refl) (omega (arith, size, size')),
        clean_line-sent u no_nul no_return,
        split_command-sent c cmd arg one,
      )
      refl

-- On a connection without errors, 4096 bytes without a newline end the process with the response
-- 500, and fewer bytes without one, up to the end of the stream, end it without a response, or
-- with the response 421 when the alarm went off.
pub get_cmd_and_arg-ends :
    (k : Socket) (late : Bool) (stream : Bytes)
    → IsStream k
    → has_byte b'\n' (take vsftp_max_command_line stream) ≡ false
    → vsf_cmdio_get_cmd_and_arg k late stream
      ≡ ok (
          some (
            if leb vsftp_max_command_line (length stream)
            then vsf_cmdio_write_exit 500 (codes "Input line too long.") 1
            else if late
            then vsf_cmdio_write_exit 421 (codes "Timeout.") 1
            else exits 1 (some [])))
unfolding vsf_cmdio_get_cmd_and_arg control_getline ftp_getline
get_cmd_and_arg-ends k late stream conn none_yet =
    let (i, run) = str_netfd_alloc_lem k b'\n' vsftp_max_command_line stream conn in
    rw (run, none_yet)
      (elim (Bool-cases (leb vsftp_max_command_line (length stream))) [
        | inl e ↦ rw e (unfold gotline got_command in refl)
        | inr e ↦ rw e (unfold gotline got_command in refl)
      ])
