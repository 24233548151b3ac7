-- ===== src/Cmdio.antt =====
-- ftpcmdio.c and the control channel part of readwrite.c, without the process that holds a TLS
-- session for another one. A response is what is written to the control connection.
pub mod Respond
pub mod Command
use mathlib.Core.List.{map}
use checkedc_vsftpd.Base.{
  ℕ, zero, suc, ◌+◌, ◌≡◌, Bool, true, false, Option, none, some, [], ◌∷◌, ◌++◌, ◌&&◌, ◌==◌,
  if◌then◌else◌, Bytes, codes, length, take, get_elem?,
}
use checkedc_vsftpd.Run.{Run, Fault, ok, fault, ◌>>=◌, map_run}
use checkedc_vsftpd.Text.{to_upper, str_equal_text, str_isempty}
use checkedc_vsftpd.Text.Split.{str_split_char}
use checkedc_vsftpd.Text.Replace.{str_replace_text}
use checkedc_vsftpd.Number.Print.{vsf_sysutil_ulong_to_str}
use checkedc_vsftpd.Netstr.{Socket, Netread, too_long, closed, line, str_netfd_alloc, is_byte}

abbrev pub vsftp_max_command_line : ℕ
vsftp_max_command_line = 4096

abbrev pub ftp_idle_timeout : ℕ
ftp_idle_timeout = 421

abbrev pub ftp_badcmd : ℕ
ftp_badcmd = 500

abbrev pub replaced : ℕ → ℕ → ℕ → ℕ
replaced from to c = if c == from then to else c

abbrev pub response_line : ℕ → ℕ → Bytes → Bytes
response_line status sep text = vsf_sysutil_ulong_to_str status ++ sep ∷ text ++ codes "\r\n"

abbrev pub framed : ℕ → ℕ → Option Bytes → Option Bytes
framed status sep none = none
framed status sep (some text) = some (response_line status sep (map (replaced b'\n' 0) text))

-- The bytes sent; `none` is fuel run out in str_replace_text.
unfoldable pub ftp_write_str_common : ℕ → ℕ → Bytes → Option Bytes
unfolding str_replace_text vsf_sysutil_ulong_to_str
ftp_write_str_common status sep str =
    framed status sep (str_replace_text str (255 ∷ []) (255 ∷ 255 ∷ []))

-- The line of the protocol log.
unfoldable pub log_output : ℕ → ℕ → Bytes → Bytes
unfolding vsf_sysutil_ulong_to_str
log_output status sep str = vsf_sysutil_ulong_to_str status ++ sep ∷ str

unfoldable pub vsf_cmdio_write : ℕ → Bytes → Option Bytes
unfolding ftp_write_str_common
vsf_cmdio_write status text = ftp_write_str_common status b' ' text

unfoldable pub vsf_cmdio_write_hyphen : ℕ → Bytes → Option Bytes
unfolding ftp_write_str_common
vsf_cmdio_write_hyphen status text = ftp_write_str_common status b'-' text

-- What a read of a command gives: the end of the process, with its status and what it wrote, or
-- the command, its argument and what is left on the stream.
pub data Got : Type 0 where
  exits : ℕ → Option Bytes → Got
  command : Bytes → Bytes → Bytes → Got

unfoldable pub vsf_cmdio_write_exit : ℕ → Bytes → ℕ → Got
unfolding vsf_cmdio_write
vsf_cmdio_write_exit status text exit_val = exits exit_val (vsf_cmdio_write status text)

-- Without a TLS slave process; the peek and read functions are the plain ones or those of TLS.
unfoldable pub ftp_getline : Socket → Bytes → Run (Option Netread)
ftp_getline k stream = str_netfd_alloc k b'\n' vsftp_max_command_line stream

-- The `while` loop that strips the carriage returns at the end, over `len`.
unfoldable pub strip_returns : ℕ → Bytes → Bytes
strip_returns zero s = s
strip_returns (suc len) s =
    let rest = strip_returns len (take len s) in if is_byte b'\r' (get_elem? s len) then rest else s

unfoldable pub clean_line : Bytes → Bytes
unfolding strip_returns
clean_line s = let s' = map (replaced 0 b'\n') s in strip_returns (length s') s'

abbrev pub option_map {ℓ κ} : {A : Type ℓ} {B : Type κ} → (A → B) → Option A → Option B
option_map f none = none
option_map f (some a) = some (f a)

-- The end of the process, or the line and what is left; `none` is the return value 0.
pub data Gotline : Type 0 where
  stops : Got → Gotline
  hangs_up : Gotline
  reads : Bytes → Bytes → Gotline

unfoldable pub gotline : Netread → Gotline
unfolding vsf_cmdio_write_exit clean_line
gotline (too_long rest) = stops (vsf_cmdio_write_exit ftp_badcmd (codes "Input line too long.") 1)
gotline (closed rest) = hangs_up
gotline (line ret s rest) = reads (clean_line s) rest

unfoldable pub control_getline : Socket → Bytes → Run (Option Gotline)
unfolding ftp_getline gotline
control_getline k stream = map_run (option_map gotline) (ftp_getline k stream)

-- A single space is a command of its own.
unfoldable pub split_command : Bytes → Bytes × Bytes
split_command s =
    if length s == 1 && is_byte b' ' (get_elem? s 0) then (s, []) else str_split_char s b' '

abbrev pub upper_first : Bytes × Bytes → Bytes → Got
upper_first (cmd, arg) rest = command (map to_upper cmd) arg rest

unfoldable pub got_command : Bool → Gotline → Got
unfolding vsf_cmdio_write_exit split_command
got_command idle_timeout (stops g) = g
got_command idle_timeout hangs_up =
    if idle_timeout
    then vsf_cmdio_write_exit ftp_idle_timeout (codes "Timeout.") 1
    else exits 1 (some [])
got_command idle_timeout (reads s rest) =
    if idle_timeout
    then vsf_cmdio_write_exit ftp_idle_timeout (codes "Timeout.") 1
    else upper_first (split_command s) rest

-- `idle_timeout` says whether the alarm went off while the call waited for the line.
unfoldable pub vsf_cmdio_get_cmd_and_arg : Socket → Bool → Bytes → Run (Option Got)
unfolding control_getline got_command
vsf_cmdio_get_cmd_and_arg k idle_timeout stream =
    map_run (option_map (got_command idle_timeout)) (control_getline k stream)

-- The line of the protocol log for a command.
unfoldable pub log_input : Bytes → Bytes → Bytes
log_input cmd arg =
    if str_equal_text cmd (codes "PASS")
    then codes "PASS <password>"
    else if str_isempty arg
    then cmd
    else cmd ++ b' ' ∷ arg
