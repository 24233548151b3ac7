-- ===== src/Parseconf/Defaults.antt =====
-- tunables.c, tunables_load_defaults: the settings before a configuration is read.
use checkedc_vsftpd.Base.{
  ℕ, Bool, true, false, Option, none, some, List, [], ◌∷◌, if◌then◌else◌, Bytes, codes,
}
use checkedc_vsftpd.Text.{str_equal_text}
use checkedc_vsftpd.Parseconf.{Tunables}

-- The value that a name has in a list of assignments. A variable has the name of its setting:
-- tunable_sslv2 is ssl_sslv2, and so on.
abbrev pub setting {ℓ} : {A : Type ℓ} → A → List (Bytes × A) → Bytes → A
setting unset [] name = unset
setting unset ((n, v) ∷ rest) name = if str_equal_text name n then v else setting unset rest name

unfoldable pub default_bools : List (Bytes × Bool)
default_bools =
    (codes "anonymous_enable", true)
    ∷ (codes "local_enable", false)
    ∷ (codes "utf8_filesystem", false)
    ∷ (codes "pasv_enable", true)
    ∷ (codes "port_enable", true)
    ∷ (codes "chroot_local_user", false)
    ∷ (codes "write_enable", false)
    ∷ (codes "anon_upload_enable", false)
    ∷ (codes "anon_mkdir_write_enable", false)
    ∷ (codes "anon_other_write_enable", false)
    ∷ (codes "chown_uploads", false)
    ∷ (codes "connect_from_port_20", false)
    ∷ (codes "xferlog_enable", false)
    ∷ (codes "dirmessage_enable", false)
    ∷ (codes "anon_world_readable_only", true)
    ∷ (codes "async_abor_enable", false)
    ∷ (codes "ascii_upload_enable", false)
    ∷ (codes "ascii_download_enable", false)
    ∷ (codes "one_process_model", false)
    ∷ (codes "xferlog_std_format", false)
    ∷ (codes "pasv_promiscuous", false)
    ∷ (codes "deny_email_enable", false)
    ∷ (codes "chroot_list_enable", false)
    ∷ (codes "setproctitle_enable", false)
    ∷ (codes "text_userdb_names", false)
    ∷ (codes "ls_recurse_enable", false)
    ∷ (codes "log_ftp_protocol", false)
    ∷ (codes "guest_enable", false)
    ∷ (codes "userlist_enable", false)
    ∷ (codes "userlist_deny", true)
    ∷ (codes "use_localtime", false)
    ∷ (codes "check_shell", true)
    ∷ (codes "hide_ids", false)
    ∷ (codes "listen", false)
    ∷ (codes "port_promiscuous", false)
    ∷ (codes "passwd_chroot_enable", false)
    ∷ (codes "no_anon_password", false)
    ∷ (codes "tcp_wrappers", false)
    ∷ (codes "use_sendfile", true)
    ∷ (codes "force_dot_files", false)
    ∷ (codes "listen_ipv6", false)
    ∷ (codes "dual_log_enable", false)
    ∷ (codes "syslog_enable", false)
    ∷ (codes "background", false)
    ∷ (codes "virtual_use_local_privs", false)
    ∷ (codes "session_support", false)
    ∷ (codes "download_enable", true)
    ∷ (codes "dirlist_enable", true)
    ∷ (codes "chmod_enable", true)
    ∷ (codes "secure_email_list_enable", false)
    ∷ (codes "run_as_launching_user", false)
    ∷ (codes "no_log_lock", false)
    ∷ (codes "ssl_enable", false)
    ∷ (codes "allow_anon_ssl", false)
    ∷ (codes "force_local_logins_ssl", true)
    ∷ (codes "force_local_data_ssl", true)
    ∷ (codes "ssl_sslv2", false)
    ∷ (codes "ssl_sslv3", false)
    ∷ (codes "ssl_tlsv1", true)
    ∷ (codes "tilde_user_enable", false)
    ∷ (codes "force_anon_logins_ssl", false)
    ∷ (codes "force_anon_data_ssl", false)
    ∷ (codes "mdtm_write", true)
    ∷ (codes "lock_upload_files", true)
    ∷ (codes "pasv_addr_resolve", false)
    ∷ (codes "debug_ssl", false)
    ∷ (codes "require_cert", false)
    ∷ (codes "validate_cert", false)
    ∷ (codes "strict_ssl_read_eof", true)
    ∷ (codes "strict_ssl_write_shutdown", false)
    ∷ (codes "ssl_request_cert", true)
    ∷ (codes "delete_failed_uploads", false)
    ∷ (codes "implicit_ssl", false)
    ∷ (codes "ptrace_sandbox", false)
    ∷ (codes "require_ssl_reuse", true)
    ∷ (codes "isolate", true)
    ∷ (codes "isolate_network", true)
    ∷ (codes "ftp_enable", true)
    ∷ (codes "http_enable", false)
    ∷ (codes "seccomp_sandbox", false)
    ∷ (codes "allow_writeable_chroot", false)
    ∷ []

unfoldable pub default_uints : List (Bytes × ℕ)
default_uints =
    (codes "accept_timeout", 60)
    ∷ (codes "connect_timeout", 60)
    ∷ (codes "local_umask", 63)
    ∷ (codes "anon_umask", 63)
    ∷ (codes "ftp_data_port", 20)
    ∷ (codes "idle_session_timeout", 300)
    ∷ (codes "data_connection_timeout", 300)
    ∷ (codes "pasv_min_port", 5001)
    ∷ (codes "pasv_max_port", 0)
    ∷ (codes "anon_max_rate", 0)
    ∷ (codes "local_max_rate", 0)
    ∷ (codes "listen_port", 21)
    ∷ (codes "max_clients", 2000)
    ∷ (codes "file_open_mode", 438)
    ∷ (codes "max_per_ip", 50)
    ∷ (codes "trans_chunk_size", 0)
    ∷ (codes "delay_failed_login", 1)
    ∷ (codes "delay_successful_login", 0)
    ∷ (codes "max_login_fails", 3)
    ∷ (codes "chown_upload_mode", 384)
    ∷ []

unfoldable pub default_strs : List (Bytes × Option Bytes)
default_strs =
    (codes "secure_chroot_dir", some (codes "/var/run/vsftpd/empty"))
    ∷ (codes "ftp_username", some (codes "ftp"))
    ∷ (codes "chown_username", some (codes "root"))
    ∷ (codes "xferlog_file", some (codes "/var/log/xferlog"))
    ∷ (codes "vsftpd_log_file", some (codes "/var/log/vsftpd.log"))
    ∷ (codes "message_file", some (codes ".message"))
    ∷ (codes "nopriv_user", some (codes "nobody"))
    ∷ (codes "ftpd_banner", none)
    ∷ (codes "banned_email_file", some (codes "/etc/vsftpd.banned_emails"))
    ∷ (codes "chroot_list_file", some (codes "/etc/vsftpd.chroot_list"))
    ∷ (codes "pam_service_name", some (codes "vsftpd"))
    ∷ (codes "guest_username", some (codes "ftp"))
    ∷ (codes "userlist_file", some (codes "/etc/vsftpd.user_list"))
    ∷ (codes "anon_root", none)
    ∷ (codes "local_root", none)
    ∷ (codes "banner_file", none)
    ∷ (codes "pasv_address", none)
    ∷ (codes "listen_address", none)
    ∷ (codes "user_config_dir", none)
    ∷ (codes "listen_address6", none)
    ∷ (codes "cmds_allowed", none)
    ∷ (codes "cmds_denied", none)
    ∷ (codes "hide_file", none)
    ∷ (codes "deny_file", none)
    ∷ (codes "upload_file", none)
    ∷ (codes "download_file", none)
    ∷ (codes "user_sub_token", none)
    ∷ (codes "email_password_file", some (codes "/etc/vsftpd.email_passwords"))
    ∷ (codes "rsa_cert_file", some (codes "/usr/share/ssl/certs/vsftpd.pem"))
    ∷ (codes "dsa_cert_file", none)
    ∷ (codes "ssl_ciphers", some (codes "ECDHE-RSA-AES256-GCM-SHA384"))
    ∷ (codes "rsa_private_key_file", none)
    ∷ (codes "dsa_private_key_file", none)
    ∷ (codes "ca_certs_file", none)
    ∷ []

unfoldable pub tunables_load_defaults : Tunables
tunables_load_defaults = record {
  strs = setting none default_strs;
  bools = setting false default_bools;
  uints = setting 0 default_uints;
}
