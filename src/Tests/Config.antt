-- ===== src/Tests/Config.antt =====
-- parseconf.c and the number readers of sysutil.c.
use checkedc_vsftpd.Base.{
  ◌+◌, ◌≡◌, ◌≢◌, refl, true, false, none, some, [], ◌∷◌, ◌++◌, arith, Bytes, codes, length,
}
use checkedc_vsftpd.Run.{Fault, ok, fault, map_run}
use checkedc_vsftpd.Text.{c_text, str_isempty, str_all_space}
use checkedc_vsftpd.Text.Split.{before}
use checkedc_vsftpd.Text.Lines.{lines}
use checkedc_vsftpd.Number.{vsf_sysutil_a_to_filesize_t, vsf_sysutil_octal_to_uint}
use checkedc_vsftpd.Number.Octal.{octal_to_uint_zero}
use checkedc_vsftpd.Number.Decimal.{a_to_filesize_t_lem}
use checkedc_vsftpd.Parseconf.{Tunables, assign, str_strdup_trimmed, vsf_parseconf_load_setting}
use checkedc_vsftpd.Parseconf.Settings.{str_strdup_trimmed-blank, load_setting_front_space}
use checkedc_vsftpd.Parseconf.Values.{
  Same, print_bool, load_setting_uint, load_setting_octal, load_setting_bool, load_setting-Same,
}
use checkedc_vsftpd.Parseconf.{in_table}
use checkedc_vsftpd.Parseconf.Tables.{
  parseconf_bool_array, parseconf_uint_array, parseconf_str_array,
}
use checkedc_vsftpd.Parseconf.Defaults.{
  default_bools, default_uints, default_strs, tunables_load_defaults,
}
use checkedc_vsftpd.Parseconf.Complete.{assigned, defaults-in_table}
use checkedc_vsftpd.Text.{str_equal_text}
use checkedc_vsftpd.Base.{◌↔◌}
use checkedc_vsftpd.Parseconf.Files.{
  Files, ParseState, stat_ok, loaded, load_all, vsf_parseconf_load_file, load_file_lem,
}

abbrev defaults : Tunables
defaults = record { strs = λ _. none; bools = λ _. false; uints = λ _. 0 }

octal_to_uint_zero_test : vsf_sysutil_octal_to_uint (b'0' ∷ b'7' ∷ b'7' ∷ []) ≡ 0
octal_to_uint_zero_test = octal_to_uint_zero (b'7' ∷ b'7' ∷ [])

a_to_filesize_t_lem_test : vsf_sysutil_a_to_filesize_t (b'4' ∷ b'2' ∷ []) ≡ 42
a_to_filesize_t_lem_test = a_to_filesize_t_lem (b'4' ∷ b'2' ∷ [])

str_strdup_trimmed-blank_test : str_strdup_trimmed (b' ' ∷ b' ' ∷ []) ≡ fault Fault.bounds
unfolding str_all_space
str_strdup_trimmed-blank_test =
    str_strdup_trimmed-blank (b' ' ∷ b' ' ∷ []) refl (omega arith) (omega arith)

load_setting_front_space_test :
    vsf_parseconf_load_setting defaults (b' ' ∷ codes "listen=YES") true ≡ fault Fault.die
load_setting_front_space_test = load_setting_front_space defaults (codes "listen=YES")

load_setting_uint_example :
    vsf_parseconf_load_setting defaults (codes "listen_port" ++ b'=' ∷ b'2' ∷ b'1' ∷ []) true
    ≡ ok (record defaults { uints = assign (λ _. 0) (codes "listen_port") 21 })
unfolding checkedc_vsftpd.Parseconf.in_table checkedc_vsftpd.Parseconf.Tables.parseconf_uint_array
    checkedc_vsftpd.Text.str_equal_text checkedc_vsftpd.Text.str_equal_internal
load_setting_uint_example =
    load_setting_uint defaults (codes "listen_port") b'2' (b'1' ∷ []) true refl refl refl
      (omega arith) (omega arith)

load_setting_octal_test :
    vsf_parseconf_load_setting defaults (codes "local_umask" ++ b'=' ∷ b'0' ∷ b'7' ∷ b'7' ∷ []) true
    ≡ ok (record defaults { uints = assign (λ _. 0) (codes "local_umask") 0 })
unfolding checkedc_vsftpd.Parseconf.in_table checkedc_vsftpd.Parseconf.Tables.parseconf_uint_array
    checkedc_vsftpd.Text.str_equal_text checkedc_vsftpd.Text.str_equal_internal
load_setting_octal_test =
    load_setting_octal defaults (codes "local_umask") (b'7' ∷ b'7' ∷ []) true refl refl refl

load_setting_bool_test :
    vsf_parseconf_load_setting defaults (codes "listen" ++ b'=' ∷ print_bool true) true
    ≡ ok (record defaults { bools = assign (λ _. false) (codes "listen") true })
unfolding checkedc_vsftpd.Parseconf.in_table checkedc_vsftpd.Parseconf.Tables.parseconf_bool_array
    checkedc_vsftpd.Text.str_equal_text checkedc_vsftpd.Text.str_equal_internal
load_setting_bool_test = load_setting_bool defaults (codes "listen") true true refl refl

different : codes "listen_port" ≢ before b'=' (codes "listen=YES")
different = λ e. cc

load_setting-Same_example :
    Same
      (codes "listen_port")
      defaults
      (vsf_parseconf_load_setting defaults (codes "listen=YES") false)
load_setting-Same_example =
    load_setting-Same defaults (codes "listen=YES") (codes "listen_port") false different

abbrev conf : Bytes
conf = b'#' ∷ b' ' ∷ b'x' ∷ b'\n' ∷ codes "listen=YES" ++ b'\n' ∷ []

abbrev disk : Files
disk = record { fileread = λ _. some conf; stat = λ _. some (0, true); getuid = 0 }

abbrev start : ParseState
start = record { saved = none; tunables = defaults }

load_file_lem_example :
    vsf_parseconf_load_file disk (length conf + 1) start (some (codes "/etc/vsftpd.conf")) true
    ≡ map_run
        (λ t. some (loaded (codes "/etc/vsftpd.conf") t))
        (load_all defaults (lines conf) true)
unfolding stat_ok
load_file_lem_example = load_file_lem disk start (codes "/etc/vsftpd.conf") conf true refl refl

defaults-in_table_example :
    ((in_table (codes "listen") parseconf_bool_array ≡ true)
      ↔ (in_table (codes "listen") (assigned default_bools) ≡ true))
    × ((in_table (codes "listen") parseconf_uint_array ≡ true)
        ↔ (in_table (codes "listen") (assigned default_uints) ≡ true))
    × ((in_table (codes "listen") parseconf_str_array ≡ true)
        ↔ (in_table (codes "listen") (assigned default_strs) ≡ true))
defaults-in_table_example = defaults-in_table (codes "listen")

default_port : tunables_load_defaults.uints (codes "listen_port") ≡ 21
unfolding tunables_load_defaults default_uints str_equal_text
    checkedc_vsftpd.Text.str_equal_internal checkedc_vsftpd.Text.memcmp
default_port = refl
