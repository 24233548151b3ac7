-- ===== src/Prelogin/Commands.antt =====
-- features.c, opts.c and the commands of ssl.c that set up TLS.
use mathlib.Core.List.{map}
use checkedc_vsftpd.Base.{
  Bool, true, false, ◌||◌, none, List, [], ◌∷◌, ◌++◌, if◌then◌else◌, Bytes, codes,
}
use checkedc_vsftpd.Text.{to_upper, str_equal_text}
use checkedc_vsftpd.Parseconf.{Tunables}
use checkedc_vsftpd.Prelogin.{Session, Reply, reply, hyphen, raw, goes_on, exits, Stepped, says}

-- What the login function and the handshake answer to one command.
pub record Answer : Type 0 where
  pub accepted : Bool
  pub negotiated : Bool
  pub ssl_error : Bytes

abbrev lines_if : Bool → List Reply → List Reply
lines_if b lines = if b then lines else []

unfoldable pub handle_feat : Tunables → List Reply
handle_feat t =
    (hyphen 211 (codes "Features:") ∷ [])
    ++ lines_if (t.bools (codes "ssl_enable")) (
        lines_if (t.bools (codes "ssl_sslv2") || t.bools (codes "ssl_sslv3"))
          (raw (codes " AUTH SSL\r\n") ∷ [])
        ++ lines_if (t.bools (codes "ssl_tlsv1")) (raw (codes " AUTH TLS\r\n") ∷ []))
    ++ lines_if (t.bools (codes "utf8_filesystem")) (raw (codes " UTF8\r\n") ∷ [])
    ++ lines_if (t.bools (codes "port_enable")) (raw (codes " EPRT\r\n") ∷ [])
    ++ lines_if (t.bools (codes "pasv_enable")) (raw (codes " EPSV\r\n") ∷ [])
    ++ (raw (codes " MDTM\r\n") ∷ [])
    ++ lines_if (t.bools (codes "pasv_enable")) (raw (codes " PASV\r\n") ∷ [])
    ++ lines_if (t.bools (codes "ssl_enable"))
        (raw (codes " PBSZ\r\n") ∷ raw (codes " PROT\r\n") ∷ [])
    ++ (raw (codes " REST STREAM\r\n")
        ∷ raw (codes " SIZE\r\n")
        ∷ raw (codes " TVFS\r\n")
        ∷ reply 211 (codes "End")
        ∷ [])

unfoldable pub handle_opts : Session → Bytes → Stepped
handle_opts st arg =
    if str_equal_text (map to_upper arg) (codes "UTF8 ON")
    then says st 200 (codes "Always in UTF8 mode.")
    else says st 501 (codes "Option not understood.")

-- Behind the response 234: the handshake, and the protection of data for two of the names.
abbrev pub negotiates : Session → Bytes → Answer → Stepped
negotiates st name a =
    if a.negotiated
    then record {
      session = record st {
        control_use_ssl = true;
        data_use_ssl =
            str_equal_text name (codes "SSL")
            || (str_equal_text name (codes "TLS-P") || st.data_use_ssl);
      };
      replies = reply 234 (codes "Proceed with negotiation.") ∷ [];
      attempt = none;
      next = goes_on;
    }
    else record {
      session = st;
      replies =
          reply 234 (codes "Proceed with negotiation.")
          ∷ reply 421 (codes "Negotiation failed: " ++ a.ssl_error)
          ∷ [];
      attempt = none;
      next = exits 1;
    }

unfoldable pub handle_auth : Session → Bytes → Answer → Stepped
handle_auth st arg a =
    let name = map to_upper arg in
    if str_equal_text name (codes "TLS")
      || (str_equal_text name (codes "TLS-C")
          || (str_equal_text name (codes "SSL") || str_equal_text name (codes "TLS-P")))
    then negotiates st name a
    else says st 504 (codes "Unknown AUTH type.")

unfoldable pub handle_pbsz : Session → Stepped
handle_pbsz st =
    if st.control_use_ssl
    then says st 200 (codes "PBSZ set to 0.")
    else says st 503 (codes "PBSZ needs a secure connection.")

unfoldable pub handle_prot : Session → Bytes → Stepped
handle_prot st arg =
    let level = map to_upper arg in
    if st.control_use_ssl
    then (if str_equal_text level (codes "C")
        then says (record st { data_use_ssl = false }) 200 (codes "PROT now Clear.")
        else if str_equal_text level (codes "P")
        then says (record st { data_use_ssl = true }) 200 (codes "PROT now Private.")
        else if str_equal_text level (codes "S") || str_equal_text level (codes "E")
        then says st 536 (codes "PROT not supported.")
        else says st 504 (codes "PROT not recognized."))
    else says st 503 (codes "PROT needs a secure connection.")
