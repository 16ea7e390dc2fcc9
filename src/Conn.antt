-- ===== src/Conn.antt =====
-- zlib/conn.go: the connection that `GrabBanner` works on, with the log that it fills, and the TLS
-- handshake over it. The TLS library and the expressions of `regexp` are parameters.
mod State
pub mod Mail
pub mod Scans
pub mod Keeps
mod Tests
pub use State.*
use tls_banner_grab_go.Base.{
  ℕ, Bool, true, false, not, ◌&&◌, List, [], Option, none, some, String, length, take, ◌==◌,
  if◌then◌else◌,
}
use tls_banner_grab_go.Net.{
  NetError, Error, net, new, Result, ok, err, panic, stuck, NetConn, ReadResult, WriteResult,
}
use tls_banner_grab_go.Ftp.{Pattern, FtpLog}
use tls_banner_grab_go.Telnet.{TelnetLog}
use tls_banner_grab_go.Modbus.{ModbusEvent}
use tls_banner_grab_go.Siemens.Identification.{S7Log}
use tls_banner_grab_go.Dnp3.{Dnp3Log}
use tls_banner_grab_go.Fox.{FoxLog}
use tls_banner_grab_go.Bacnet.Query as Bacnet

module _ {S : Type 0} where
  abbrev pub get_underlying_conn : Conn S → NetConn S
  get_underlying_conn c = elim c.tls_conn [ none ↦ c.conn | some t ↦ t ]

  abbrev pub set_external_client_hello : List ℕ → Conn S → Conn S
  set_external_client_hello hello c = record c { external_client_hello = some hello }

  abbrev pub set_extended_random : Conn S → Conn S
  set_extended_random c = record c { extended_random = true }

  abbrev pub set_ca_pool : Option ℕ → Conn S → Conn S
  set_ca_pool pool c = record c { ca_pool = pool }

  abbrev pub set_domain : List ℕ → Conn S → Conn S
  set_domain domain c = record c { domain = domain }

  abbrev pub set_no_sni : Conn S → Conn S
  set_no_sni c = record c { no_sni = true }

  abbrev pub set_gather_session_ticket : Conn S → Conn S
  set_gather_session_ticket c = record c { gather_session_ticket = true }

  abbrev pub set_offer_extended_master_secret : Conn S → Conn S
  set_offer_extended_master_secret c = record c { offer_extended_master_secret = true }

  abbrev pub set_signed_certificate_timestamp_ext : Conn S → Conn S
  set_signed_certificate_timestamp_ext c = record c { signed_certificate_timestamp_ext = true }

  abbrev pub set_tls_verbose : Conn S → Conn S
  set_tls_verbose c = record c { tls_verbose = true }

  abbrev pub set_tls_certs_only : Conn S → Conn S
  set_tls_certs_only c = record c { tls_certs_only = true }

  -- `Write`, `BasicBanner` and `Read`. A write reports at most the bytes that it was given.
  unfoldable pub write : List ℕ → Op S
  write b c s =
      let (r, s') = (get_underlying_conn c).write b s in
      (
        net_error r.error,
        record c { grab_data = record c.grab_data { write = take r.count b } },
        s',
      )

  unfoldable pub basic_banner : Op S
  basic_banner c s =
      let (r, s') = (get_underlying_conn c).read 1024 s in
      (net_error r.error, record c { grab_data = record c.grab_data { banner = r.bytes } }, s')

  unfoldable pub read : ℕ → Op S
  read size c s =
      let (r, s') = (get_underlying_conn c).read size s in
      (net_error r.error, record c { grab_data = record c.grab_data { read = r.bytes } }, s')

  -- The configuration that `TLSHandshake` makes.
  unfoldable pub handshake_config : Conn S → TlsConfig
  handshake_config c = record new_tls_config {
    certs_only = c.tls_certs_only;
    insecure_skip_verify = true;
    min_version = version_ssl30;
    max_version = c.max_tls_version;
    root_cas = c.ca_pool;
    heartbeat_enabled = true;
    client_dsa_enabled = true;
    force_suites = c.force_suites;
    cipher_suites = c.cipher_suites;
    server_name = if not c.no_sni && not (length c.domain == 0) then c.domain else [];
    extended_random = c.extended_random;
    signed_certificate_timestamp_ext = c.signed_certificate_timestamp_ext;
    force_session_ticket_ext = c.gather_session_ticket;
    extended_master_secret = c.offer_extended_master_secret;
    external_client_hello = c.external_client_hello;
  }

  module _ (tls : Tls S) where
    handshake_error : Bool → HandshakeEnd → Result (Unit {0})
    handshake_error force completed = ok tt
    handshake_error force unimplemented_cipher =
        if force then ok tt else err tls.err_unimplemented_cipher
    handshake_error force certs_only_error = ok tt
    handshake_error force (failed e) = err (net e)

    -- What is kept of the log of a handshake.
    logged : Bool → ServerHandshake → ServerHandshake
    logged verbose log = if verbose then log else record log {
      key_material = none;
      client_hello = none;
      client_finished = none;
      client_key_exchange = none;
    }

    -- The handshake, for the connection's `tls_conn`.
    begin_handshake : Option (NetConn S) → Op S
    unfolding handshake_error logged
    begin_handshake (some t) c s = (err (new "Attempted repeat handshake with remote host"), c, s)
    begin_handshake none c s =
        let config = handshake_config c in
        let (end, s') = tls.handshake config c.conn s in
        (
          handshake_error config.force_suites end,
          record c {
            tls_conn = some (tls.client config c.conn);
            grab_data = record c.grab_data {
              tls_handshake = some (logged c.tls_verbose (tls.handshake_log config c.conn s'));
            };
          },
          s',
        )

    -- `TLSHandshake`
    unfoldable pub tls_handshake : Op S
    unfolding begin_handshake
    tls_handshake c s = begin_handshake c.tls_conn c s

    heartbleed_result : HeartbleedEnd → Result (Unit {0})
    heartbleed_result probed = ok tt
    heartbleed_result heartbleed_error = ok tt
    heartbleed_result (probe_failed e) = err (net e)

    probe : Option (NetConn S) → Op S
    unfolding heartbleed_result
    probe none c s = (err (new "Must perform TLS handshake before sending Heartbleed probe"), c, s)
    probe (some t) c s =
        let (end, s') = tls.check_heartbleed t s in
        (
          heartbleed_result end,
          record c { grab_data = record c.grab_data { heartbleed = some (tls.heartbleed_log s') } },
          s',
        )

    -- `CheckHeartbleed`
    unfoldable pub check_heartbleed : Op S
    unfolding probe
    check_heartbleed c s = probe c.tls_conn c s
