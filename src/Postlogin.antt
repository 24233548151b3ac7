-- ===== src/Postlogin.antt =====
-- postlogin.c, process_post_login: the lists of commands and the dispatch of one command.
pub mod Allowed
pub mod Active
pub mod Connection
pub mod Dispatch
pub mod Events
pub mod Files
pub mod Checked
pub mod Pasv
pub mod Passive
pub mod Target
pub mod Transfer
use checkedc_vsftpd.Base.{
  ℕ, zero, suc, ◌+◌, Bool, true, false, not, ◌&&◌, ◌||◌, Option, none, some, List, [], ◌∷◌,
  if◌then◌else◌, Bytes, codes, length,
}
use checkedc_vsftpd.Text.{str_isempty, str_equal, str_equal_text}
use checkedc_vsftpd.Text.Split.{str_split_char}
use checkedc_vsftpd.Parseconf.{Tunables}

-- The loop over the commands of a list, on fuel; `none` is fuel that ran out. It ends at the first
-- empty item.
unfoldable pub in_cmds : ℕ → Bytes → Bytes → Option Bool
in_cmds zero list cmd = none
in_cmds (suc fuel) list cmd =
    let (item, rhs) = str_split_char list b',' in
    let rest = in_cmds fuel rhs cmd in
    if str_isempty item then some false else if str_equal item cmd then some true else rest

abbrev pub negated : Option Bool → Option Bool
negated none = none
negated (some b) = some (not b)

abbrev pub both_ok : Option Bool → Option Bool → Option Bool
both_ok (some a) (some b) = some (a && b)
both_ok _ _ = none

abbrev pub allowed_by : Option Bytes → Bytes → Option Bool
allowed_by none cmd = some true
allowed_by (some list) cmd = in_cmds (length list + 1) list cmd

abbrev pub not_denied_by : Option Bytes → Bytes → Option Bool
not_denied_by none cmd = some true
not_denied_by (some list) cmd = negated (in_cmds (length list + 1) list cmd)

-- The value of `cmd_ok` behind both loops.
unfoldable pub cmd_ok : Tunables → Bytes → Option Bool
cmd_ok t cmd =
    both_ok (allowed_by (t.strs (codes "cmds_allowed")) cmd)
      (not_denied_by (t.strs (codes "cmds_denied")) cmd)

-- What is done for a command: a handler, or a response of its own.
pub data Handler : Type 0 where
  do_quit do_pwd do_cwd do_cdup do_retr do_noop do_syst do_help do_list do_type do_port do_stor :
      Handler
  do_mkd do_rmd do_dele do_rest do_rnfr do_rnto do_nlst do_size do_site do_abor do_appe do_mdtm :
      Handler
  do_eprt do_stru do_mode do_stou do_allo do_not_implemented do_feat do_opts do_stat : Handler
  do_stat_file do_pbsz do_prot do_user do_pass do_noperm do_nothing do_http do_unknown : Handler
  do_pasv : Bool → Handler

-- Of struct vsf_session, what the dispatch reads.
pub record State : Type 0 where
  pub is_anonymous : Bool
  pub epsv_all : Bool

abbrev pub one_of : Bytes → List Bytes → Bool
one_of cmd [] = false
one_of cmd (name ∷ names) = str_equal_text cmd name || one_of cmd names

-- The names that are refused when no test above let them pass.
abbrev pub refused_names : List Bytes
refused_names =
    codes "PASV"
    ∷ codes "PORT"
    ∷ codes "STOR"
    ∷ codes "MKD"
    ∷ codes "XMKD"
    ∷ codes "RMD"
    ∷ codes "XRMD"
    ∷ codes "DELE"
    ∷ codes "RNFR"
    ∷ codes "RNTO"
    ∷ codes "SITE"
    ∷ codes "APPE"
    ∷ codes "EPSV"
    ∷ codes "EPRT"
    ∷ codes "RETR"
    ∷ codes "LIST"
    ∷ codes "NLST"
    ∷ codes "STOU"
    ∷ codes "ALLO"
    ∷ codes "REIN"
    ∷ codes "ACCT"
    ∷ codes "SMNT"
    ∷ codes "FEAT"
    ∷ codes "OPTS"
    ∷ codes "STAT"
    ∷ codes "PBSZ"
    ∷ codes "PROT"
    ∷ []

abbrev pub http_names : List Bytes
http_names = codes "GET" ∷ codes "POST" ∷ codes "HEAD" ∷ codes "OPTIONS" ∷ codes "CONNECT" ∷ []

-- `tunable_write_enable && (tunable_anon.. || !is_anonymous)`
abbrev pub may_write : Tunables → State → Bytes → Bool
may_write t s setting = t.bools (codes "write_enable") && (t.bools setting || not s.is_anonymous)

-- An `else if` of the chain: its test and what it does.
abbrev pub Row : Type 0
Row = Bool × Handler

abbrev pub first_of : List Row → Handler → Handler
first_of [] last = last
first_of ((test, h) ∷ rows) last = if test then h else first_of rows last

unfoldable pub dispatch_rows : Tunables → State → Bytes → Bytes → List Row
dispatch_rows t s cmd arg =
    let upload = may_write t s (codes "anon_upload_enable") in
    let mkdir = may_write t s (codes "anon_mkdir_write_enable") in
    let other = may_write t s (codes "anon_other_write_enable") in
    let stat = str_equal_text cmd (codes "STAT") in
    (str_equal_text cmd (codes "QUIT"), do_quit)
    ∷ (one_of cmd (codes "PWD" ∷ codes "XPWD" ∷ []), do_pwd)
    ∷ (one_of cmd (codes "CWD" ∷ codes "XCWD" ∷ []), do_cwd)
    ∷ (one_of cmd (codes "CDUP" ∷ codes "XCUP" ∷ []), do_cdup)
    ∷ (
      t.bools (codes "pasv_enable")
          && (not s.epsv_all && one_of cmd (codes "PASV" ∷ codes "P@SW" ∷ [])),
      do_pasv false,
    )
    ∷ (t.bools (codes "pasv_enable") && str_equal_text cmd (codes "EPSV"), do_pasv true)
    ∷ (t.bools (codes "download_enable") && str_equal_text cmd (codes "RETR"), do_retr)
    ∷ (str_equal_text cmd (codes "NOOP"), do_noop)
    ∷ (str_equal_text cmd (codes "SYST"), do_syst)
    ∷ (str_equal_text cmd (codes "HELP"), do_help)
    ∷ (t.bools (codes "dirlist_enable") && str_equal_text cmd (codes "LIST"), do_list)
    ∷ (str_equal_text cmd (codes "TYPE"), do_type)
    ∷ (
      t.bools (codes "port_enable") && (not s.epsv_all && str_equal_text cmd (codes "PORT")),
      do_port,
    )
    ∷ (upload && str_equal_text cmd (codes "STOR"), do_stor)
    ∷ (mkdir && one_of cmd (codes "MKD" ∷ codes "XMKD" ∷ []), do_mkd)
    ∷ (other && one_of cmd (codes "RMD" ∷ codes "XRMD" ∷ []), do_rmd)
    ∷ (other && str_equal_text cmd (codes "DELE"), do_dele)
    ∷ (str_equal_text cmd (codes "REST"), do_rest)
    ∷ (other && str_equal_text cmd (codes "RNFR"), do_rnfr)
    ∷ (other && str_equal_text cmd (codes "RNTO"), do_rnto)
    ∷ (t.bools (codes "dirlist_enable") && str_equal_text cmd (codes "NLST"), do_nlst)
    ∷ (str_equal_text cmd (codes "SIZE"), do_size)
    ∷ (not s.is_anonymous && str_equal_text cmd (codes "SITE"), do_site)
    ∷ (one_of cmd (codes "ABOR" ∷ (255 ∷ 244 ∷ 255 ∷ 242 ∷ codes "ABOR") ∷ []), do_abor)
    ∷ (other && str_equal_text cmd (codes "APPE"), do_appe)
    ∷ (str_equal_text cmd (codes "MDTM"), do_mdtm)
    ∷ (t.bools (codes "port_enable") && str_equal_text cmd (codes "EPRT"), do_eprt)
    ∷ (str_equal_text cmd (codes "STRU"), do_stru)
    ∷ (str_equal_text cmd (codes "MODE"), do_mode)
    ∷ (upload && str_equal_text cmd (codes "STOU"), do_stou)
    ∷ (str_equal_text cmd (codes "ALLO"), do_allo)
    ∷ (one_of cmd (codes "REIN" ∷ codes "ACCT" ∷ codes "SMNT" ∷ []), do_not_implemented)
    ∷ (str_equal_text cmd (codes "FEAT"), do_feat)
    ∷ (str_equal_text cmd (codes "OPTS"), do_opts)
    ∷ (stat && str_isempty arg, do_stat)
    ∷ (t.bools (codes "dirlist_enable") && stat, do_stat_file)
    ∷ (t.bools (codes "ssl_enable") && str_equal_text cmd (codes "PBSZ"), do_pbsz)
    ∷ (t.bools (codes "ssl_enable") && str_equal_text cmd (codes "PROT"), do_prot)
    ∷ (str_equal_text cmd (codes "USER"), do_user)
    ∷ (str_equal_text cmd (codes "PASS"), do_pass)
    ∷ (one_of cmd refused_names, do_noperm)
    ∷ (str_isempty cmd && str_isempty arg, do_nothing)
    ∷ (one_of cmd http_names, do_http)
    ∷ []

abbrev pub checked : Option Bool → Handler → Option Handler
checked none h = none
checked (some false) h = some do_noperm
checked (some true) h = some h

-- The body of the loop up to the handler.
unfoldable pub post_command : Tunables → State → Bytes → Bytes → Option Handler
post_command t s cmd arg = checked (cmd_ok t cmd) (first_of (dispatch_rows t s cmd arg) do_unknown)
