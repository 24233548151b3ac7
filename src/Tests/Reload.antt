-- ===== src/Tests/Reload.antt =====
-- standalone.c, handle_sighup.
use checkedc_vsftpd.Base.{◌≡◌, refl, true, none, some, [], ◌∷◌, ◌++◌, Bytes, codes}
use checkedc_vsftpd.Run.{ok}
use checkedc_vsftpd.Parseconf.{Tunables, assign}
use checkedc_vsftpd.Parseconf.Defaults.{tunables_load_defaults}
use checkedc_vsftpd.Parseconf.Files.{Files, ParseState, vsf_parseconf_load_file}
use checkedc_vsftpd.Standalone.Reload.{handle_sighup, handle_sighup-same}

-- Settings of a session in between.
abbrev between : Tunables
between = record { strs = λ _. none; bools = λ _. true; uints = λ _. 7 }

abbrev conf_name : Bytes
conf_name = codes "/etc/vsftpd.conf"

-- The file of the user 0, read by the user 0.
abbrev own : Files
own = record {
  fileread = λ _. some (codes "tcp_wrappers=YES" ++ b'\n' ∷ []);
  stat = λ _. some (0, true);
  getuid = 0;
}

abbrev configured : ParseState
configured = record {
  saved = some conf_name;
  tunables = record tunables_load_defaults {
    bools = assign tunables_load_defaults.bools (codes "tcp_wrappers") true;
  };
}

at_start :
    vsf_parseconf_load_file own 30
      (record { saved = none; tunables = tunables_load_defaults })
      (some conf_name)
      true
    ≡ ok (some configured)
unfolding vsf_parseconf_load_file checkedc_vsftpd.Parseconf.Files.load_named_file
    checkedc_vsftpd.Parseconf.Files.stat_ok checkedc_vsftpd.Parseconf.Files.load_lines
    checkedc_vsftpd.Parseconf.Files.load_line checkedc_vsftpd.Text.Lines.str_getline
    checkedc_vsftpd.Parseconf.vsf_parseconf_load_setting checkedc_vsftpd.Parseconf.load_named
    checkedc_vsftpd.Parseconf.load_bool checkedc_vsftpd.Parseconf.in_table
    checkedc_vsftpd.Parseconf.Tables.parseconf_bool_array
    checkedc_vsftpd.Parseconf.Tables.parseconf_str_array checkedc_vsftpd.Text.str_equal_text
    checkedc_vsftpd.Text.str_equal_internal checkedc_vsftpd.Text.memcmp
    checkedc_vsftpd.Text.Split.str_split_char checkedc_vsftpd.Text.str_locate_text
    checkedc_vsftpd.Text.locate_text_loop checkedc_vsftpd.Text.has_prefix
    checkedc_vsftpd.Text.c_text checkedc_vsftpd.Text.to_upper checkedc_vsftpd.Text.str_all_space
    checkedc_vsftpd.Text.is_space
at_start = refl

handle_sighup-same_example :
    handle_sighup own 30 (record configured { tunables = between }) ≡ ok (some configured)
handle_sighup-same_example = handle_sighup-same own 30 none conf_name configured between at_start
