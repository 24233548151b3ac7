-- ===== src/Postlogin/Files.antt =====
-- postlogin.c, the commands on names: CWD, CDUP, MKD, RMD, DELE, RNFR and RNTO, over the checks of
-- access.c. Their log entries are left out.
use checkedc_vsftpd.Base.{
  ℕ, Bool, true, false, Option, none, some, List, [], ◌∷◌, ◌++◌, ◌==◌, if◌then◌else◌, Bytes, codes,
}
use checkedc_vsftpd.Text.{str_isempty}
use checkedc_vsftpd.Text.Split.{str_split_char}
use checkedc_vsftpd.Text.Replace.{str_replace_text}
use checkedc_vsftpd.Parseconf.{Tunables}
use checkedc_vsftpd.Ls.{Paths}
use checkedc_vsftpd.Access.{vsf_access_check_file}
use checkedc_vsftpd.Prelogin.{Reply, reply}

-- What the system answers during one command: paths, which files there are, home directories, and
-- whether the call that the command ends in succeeds.
pub record Answers : Type 0 where
  pub paths : Paths
  pub exists : Bytes → Bool
  pub homedir : Bytes → Option Bytes
  pub succeeds : Bool

-- What a command asks of the system.
pub data Call : Type 0 where
  mkdir rmdir unlink chdir : Bytes → Call
  rename : Bytes → Bytes → Call

-- Of struct vsf_session, the directory of the start and what RNFR left.
pub record Names : Type 0 where
  pub home_str : Bytes
  pub rnfr_filename_str : Bytes

pub record Outcome : Type 0 where
  pub names : Names
  pub calls : List Call
  pub answer : Reply

abbrev pub at_home : Bytes → Bool
at_home [] = true
at_home (c ∷ s) = c == b'/'

abbrev pub in_home_of : Bytes → Option Bytes → Bytes → Bytes
in_home_of name none rest = name
in_home_of name (some dir) rest = if str_isempty rest then dir else dir ++ b'/' ∷ rest

-- A name that begins with `~`.
unfoldable pub tilde : Tunables → Answers → Bytes → Bytes → Bytes → Bytes
tilde t a home name behind =
    let (front, after) = str_split_char name b'~' in
    let (user, rest) = str_split_char after b'/' in
    if at_home behind
    then home ++ after
    else if t.bools (codes "tilde_user_enable")
    then in_home_of name (a.homedir user) rest
    else name

unfoldable pub resolve_tilde : Tunables → Answers → Bytes → Bytes → Bytes
resolve_tilde t a home [] = []
resolve_tilde t a home (c ∷ s) = if c == b'~' then tilde t a home (c ∷ s) s else c ∷ s

abbrev pub says : Names → ℕ → Bytes → Outcome
says n code text = record { names = n; calls = []; answer = reply code text }

abbrev pub calls : Answers → Names → Call → Reply → Reply → Outcome
calls a n c good bad = record {
  names = n;
  calls = c ∷ [];
  answer = if a.succeeds then good else bad;
}

-- The fuel is that of the name filter; `none` when it runs out.
abbrev pub check : ℕ → Tunables → Answers → Bytes → Option Bool
check fuel t a name = vsf_access_check_file fuel a.paths (t.strs (codes "deny_file")) name

abbrev pub if_allowed : Option Bool → Names → Outcome → Option Outcome
if_allowed none n o = none
if_allowed (some false) n o = some (says n 550 (codes "Permission denied."))
if_allowed (some true) n o = some o

abbrev pub ends_in_slash : Bytes → Bool
ends_in_slash [] = false
ends_in_slash (c ∷ []) = c == b'/'
ends_in_slash (c ∷ (d ∷ s)) = ends_in_slash (d ∷ s)

abbrev pub is_absolute : Bytes → Bool
is_absolute [] = false
is_absolute (c ∷ s) = c == b'/'

unfoldable pub prepend_path_to_filename : Answers → Bytes → Bytes
prepend_path_to_filename a name =
    let cwd = a.paths.getcwd in
    if is_absolute name then name else if ends_in_slash cwd then cwd ++ name else cwd ++ b'/' ∷ name

abbrev pub quoted : Option Bytes → Bytes
quoted none = []
quoted (some text) = b'"' ∷ text ++ codes "\" created"

-- Quotes in the path are doubled; str_replace_text ends for every text.
abbrev pub made_text : Answers → Bytes → Bytes
made_text a name =
    quoted (str_replace_text (prepend_path_to_filename a name) (b'"' ∷ []) (b'"' ∷ b'"' ∷ []))

unfoldable pub handle_mkd : ℕ → Tunables → Answers → Names → Bytes → Option Outcome
handle_mkd fuel t a n arg =
    let name = resolve_tilde t a n.home_str arg in
    if_allowed (check fuel t a name) n (
      calls a n (mkdir name) (reply 257 (made_text a name))
        (reply 550 (codes "Create directory operation failed.")))

unfoldable pub handle_rmd : ℕ → Tunables → Answers → Names → Bytes → Option Outcome
handle_rmd fuel t a n arg =
    let name = resolve_tilde t a n.home_str arg in
    if_allowed (check fuel t a name) n (
      calls a n (rmdir name) (reply 250 (codes "Remove directory operation successful."))
        (reply 550 (codes "Remove directory operation failed.")))

unfoldable pub handle_dele : ℕ → Tunables → Answers → Names → Bytes → Option Outcome
handle_dele fuel t a n arg =
    let name = resolve_tilde t a n.home_str arg in
    if_allowed (check fuel t a name) n (
      calls a n (unlink name) (reply 250 (codes "Delete operation successful."))
        (reply 550 (codes "Delete operation failed.")))

-- Without the messages of the new directory.
unfoldable pub handle_cwd : ℕ → Tunables → Answers → Names → Bytes → Option Outcome
handle_cwd fuel t a n arg =
    let name = resolve_tilde t a n.home_str arg in
    if_allowed (check fuel t a name) n (
      calls a n (chdir name) (reply 250 (codes "Directory successfully changed."))
        (reply 550 (codes "Failed to change directory.")))

unfoldable pub handle_cdup : ℕ → Tunables → Answers → Names → Option Outcome
handle_cdup fuel t a n = handle_cwd fuel t a n (codes "..")

abbrev pub no_source : Names → Names
no_source n = record n { rnfr_filename_str = [] }

unfoldable pub handle_rnfr : ℕ → Tunables → Answers → Names → Bytes → Option Outcome
handle_rnfr fuel t a n arg =
    let name = resolve_tilde t a n.home_str arg in
    if_allowed (check fuel t a name) (no_source n) (
      if a.exists name
      then says (record n { rnfr_filename_str = name }) 350 (codes "Ready for RNTO.")
      else says (no_source n) 550 (codes "RNFR command failed."))

unfoldable pub handle_rnto : ℕ → Tunables → Answers → Names → Bytes → Option Outcome
handle_rnto fuel t a n arg =
    let name = resolve_tilde t a n.home_str arg in
    if str_isempty n.rnfr_filename_str
    then some (says n 503 (codes "RNFR required first."))
    else if_allowed (check fuel t a name) n (
        calls a (no_source n) (rename n.rnfr_filename_str name)
          (reply 250 (codes "Rename successful.")) (reply 550 (codes "Rename failed.")))

pub data Command : Type 0 where
  mkd_cmd rmd_cmd dele_cmd cwd_cmd rnfr_cmd rnto_cmd : Bytes → Command
  cdup_cmd : Command

unfoldable pub on_command : ℕ → Tunables → Answers → Names → Command → Option Outcome
on_command fuel t a n (mkd_cmd arg) = handle_mkd fuel t a n arg
on_command fuel t a n (rmd_cmd arg) = handle_rmd fuel t a n arg
on_command fuel t a n (dele_cmd arg) = handle_dele fuel t a n arg
on_command fuel t a n (cwd_cmd arg) = handle_cwd fuel t a n arg
on_command fuel t a n (rnfr_cmd arg) = handle_rnfr fuel t a n arg
on_command fuel t a n (rnto_cmd arg) = handle_rnto fuel t a n arg
on_command fuel t a n cdup_cmd = handle_cdup fuel t a n
