-- ===== src/Postlogin/Transfer.antt =====
-- postlogin.c, the commands on the data connection as events, and what a transfer asks of it.
use checkedc_vsftpd.Base.{
  Bool, true, false, not, ◌&&◌, ◌||◌, Option, some, List, [], ◌∷◌, if◌then◌else◌, Bytes, codes,
}
use checkedc_vsftpd.Run.{Run, Fault, ok, fault, map_run}
use checkedc_vsftpd.Parseconf.{Tunables}
use checkedc_vsftpd.Prelogin.{Reply}
use checkedc_vsftpd.Login.UserConfig.{◌>>=?◌}
use checkedc_vsftpd.Postlogin.Connection.{
  Conn, pasv_active, port_active, cleaned, handle_port, handle_eprt,
}
use checkedc_vsftpd.Postlogin.Pasv.{Net, handle_pasv}

-- The commands on the data connection, and a transfer that ends and closes it.
pub data Event : Type 0 where
  port_cmd eprt_cmd : Bytes → Event
  pasv_cmd : Bool → Bytes → Net → Event
  transfer_ends : Event

abbrev pub answered_with : Run (Conn × Reply) → Run (Option Conn)
answered_with r = map_run (λ a. some a.0) r

unfoldable pub on_event : Tunables → Conn → Event → Run (Option Conn)
on_event t c (port_cmd arg) = ok (some (handle_port t c arg).0)
on_event t c (eprt_cmd arg) = handle_eprt t c arg >>=? λ a. ok (some a.0)
on_event t c (pasv_cmd is_epsv arg net) = answered_with (handle_pasv t net c is_epsv arg)
on_event t c transfer_ends = ok (some (cleaned c))

-- One event after the other.
abbrev pub on_events : Tunables → Conn → List Event → Run (Option Conn)
on_events t c [] = ok (some c)
on_events t c (e ∷ es) = on_event t c e >>=? λ d. on_events t d es

-- Is there a connection, and is it that of the listener?
abbrev pub ask_active {ℓ} : {A : Type ℓ} → Conn → (Bool → Bool → Run (Option A)) → Run (Option A)
ask_active c k =
    pasv_active 2 c >>=? λ pasv. (if pasv then ok (some true) else port_active 2 c) >>=? k pasv

abbrev pub unencrypted : Tunables → Bool → Bool → Bool
unencrypted t data_use_ssl is_anonymous =
    t.bools (codes "ssl_enable")
    && (not data_use_ssl
        && (t.bools (codes "force_local_data_ssl") && not is_anonymous
            || t.bools (codes "force_anon_data_ssl") && is_anonymous))

abbrev pub transfer_ok : Tunables → Bool → Bool → Bool → Bool → Run (Option Bool)
transfer_ok t data_use_ssl is_anonymous pasv active =
    if not active
    then ok (some false)
    else if unencrypted t data_use_ssl is_anonymous
    then ok (some false)
    else ok (some true)

-- Without the two responses for a failed check.
unfoldable pub data_transfer_checks_ok : Tunables → Bool → Bool → Conn → Run (Option Bool)
data_transfer_checks_ok t data_use_ssl is_anonymous c =
    ask_active c (transfer_ok t data_use_ssl is_anonymous)

-- Which connection carries the data: a client of the listener, or one that the server makes.
pub data Remote : Type 0 where
  from_pasv from_port : Remote

abbrev pub choose_remote : Bool → Bool → Run (Option Remote)
choose_remote pasv active =
    if not active
    then fault Fault.bug
    else if pasv
    then ok (some from_pasv)
    else ok (some from_port)

-- The choice of the connection.
unfoldable pub get_remote_transfer_fd : Conn → Run (Option Remote)
get_remote_transfer_fd c = ask_active c choose_remote
