-- ===== src/Conn/State.antt =====
-- The state of zlib/conn.go: a connection with its log, and the TLS library that it calls.
use tls_banner_grab_go.Base.{ℕ, Bool, false, List, [], Option, none, some, String}
use tls_banner_grab_go.Net.{NetError, Error, net, Result, ok, err, NetConn}
use tls_banner_grab_go.Ftp.{FtpLog}
use tls_banner_grab_go.Telnet.{TelnetLog}
use tls_banner_grab_go.Modbus.{ModbusEvent}
use tls_banner_grab_go.Siemens.Identification.{S7Log}
use tls_banner_grab_go.Dnp3.{Dnp3Log}
use tls_banner_grab_go.Fox.{FoxLog}
use tls_banner_grab_go.Http.{HttpLog}
use tls_banner_grab_go.Smb.Session.{SmbLog}
use tls_banner_grab_go.Bacnet.Query as Bacnet

-- `tls.Config`, as far as the scanner sets it.
pub record TlsConfig : Type 0 where
  pub certs_only : Bool
  pub insecure_skip_verify : Bool
  pub min_version : ℕ
  pub max_version : ℕ
  pub root_cas : Option ℕ
  pub heartbeat_enabled : Bool
  pub client_dsa_enabled : Bool
  pub force_suites : Bool
  pub cipher_suites : List ℕ
  pub server_name : List ℕ
  pub extended_random : Bool
  pub signed_certificate_timestamp_ext : Bool
  pub force_session_ticket_ext : Bool
  pub extended_master_secret : Bool
  pub external_client_hello : Option (List ℕ)

abbrev pub version_ssl30 : ℕ
version_ssl30 = 0x0300

-- `new(tls.Config)`
abbrev pub new_tls_config : TlsConfig
new_tls_config = record {
  certs_only = false;
  insecure_skip_verify = false;
  min_version = 0;
  max_version = 0;
  root_cas = none;
  heartbeat_enabled = false;
  client_dsa_enabled = false;
  force_suites = false;
  cipher_suites = [];
  server_name = [];
  extended_random = false;
  signed_certificate_timestamp_ext = false;
  force_session_ticket_ext = false;
  extended_master_secret = false;
  external_client_hello = none;
}

-- `tls.ServerHandshake`, as far as the scanner touches it.
pub record ServerHandshake : Type 0 where
  pub client_hello : Option (List ℕ)
  pub key_material : Option (List ℕ)
  pub client_finished : Option (List ℕ)
  pub client_key_exchange : Option (List ℕ)
  pub server_part : List ℕ

-- How `Handshake` ends: with no error, with one of the two errors that the scanner names, or
-- with another.
pub data HandshakeEnd : Type 0 where
  completed unimplemented_cipher certs_only_error : HandshakeEnd
  failed : NetError → HandshakeEnd

-- How `CheckHeartbleed` ends.
pub data HeartbleedEnd : Type 0 where
  probed heartbleed_error : HeartbleedEnd
  probe_failed : NetError → HeartbleedEnd

-- The libraries that a connection calls, over the states of the peer: `tls.Client` over a
-- connection, and what its methods do and log.
pub record Tls (S : Type 0) : Type 0 where
  pub client : TlsConfig → NetConn S → NetConn S
  pub handshake : TlsConfig → NetConn S → S → HandshakeEnd × S
  pub handshake_log : TlsConfig → NetConn S → S → ServerHandshake
  pub check_heartbleed : NetConn S → S → HeartbleedEnd × S
  pub heartbleed_log : S → List ℕ
  pub err_unimplemented_cipher : Error

-- `GrabData` of zlib/zgrab.go, but for the part of SSH.
pub record GrabData : Type 0 where
  pub banner : List ℕ
  pub read : List ℕ
  pub write : List ℕ
  pub ehlo : List ℕ
  pub smtp_help : Option (List ℕ)
  pub start_tls : List ℕ
  pub tls_handshake : Option ServerHandshake
  pub heartbleed : Option (List ℕ)
  pub http : Option HttpLog
  pub modbus : Option ModbusEvent
  pub smb : Option SmbLog
  pub ftp : Option FtpLog
  pub bacnet : Option Bacnet.Log
  pub dnp3 : Option Dnp3Log
  pub s7 : Option S7Log
  pub telnet : Option TelnetLog
  pub fox : Option FoxLog

-- `Conn`, over the states of the peer, without the deadlines. `isTls` and `tlsConn` are set together,
-- by `TLSHandshake` alone: they are the field `tls_conn`. A certificate pool is a number.
pub record Conn (S : Type 0) : Type 0 where
  pub conn : NetConn S
  pub tls_conn : Option (NetConn S)
  pub grab_data : GrabData
  pub max_tls_version : ℕ
  pub ca_pool : Option ℕ
  pub cipher_suites : List ℕ
  pub force_suites : Bool
  pub no_sni : Bool
  pub external_client_hello : Option (List ℕ)
  pub extended_random : Bool
  pub gather_session_ticket : Bool
  pub offer_extended_master_secret : Bool
  pub tls_verbose : Bool
  pub tls_certs_only : Bool
  pub signed_certificate_timestamp_ext : Bool
  pub domain : List ℕ
  pub errored_component : String

-- An operation of a connection that returns an `error`, nil being `ok tt`.
abbrev pub Op : Type 0 → Type 0
Op S = Conn S → S → Result (Unit {0}) × Conn S × S

abbrev pub of_error : Option Error → Result (Unit {0})
of_error none = ok tt
of_error (some e) = err e

abbrev pub net_error : Option NetError → Result (Unit {0})
net_error none = ok tt
net_error (some e) = err (net e)

abbrev pub no_grab_data : GrabData
no_grab_data = record {
  banner = [];
  read = [];
  write = [];
  ehlo = [];
  smtp_help = none;
  start_tls = [];
  tls_handshake = none;
  heartbleed = none;
  http = none;
  modbus = none;
  smb = none;
  ftp = none;
  bacnet = none;
  dnp3 = none;
  s7 = none;
  telnet = none;
  fox = none;
}

module _ {S : Type 0} where
  -- `Conn{}` around a connection, as `Dialer.Dial` of zlib/dial.go returns it.
  abbrev pub new_conn : NetConn S → Conn S
  new_conn conn = record {
    conn = conn;
    tls_conn = none;
    grab_data = no_grab_data;
    max_tls_version = 0;
    ca_pool = none;
    cipher_suites = [];
    force_suites = false;
    no_sni = false;
    external_client_hello = none;
    extended_random = false;
    gather_session_ticket = false;
    offer_extended_master_secret = false;
    tls_verbose = false;
    tls_certs_only = false;
    signed_certificate_timestamp_ext = false;
    domain = [];
    errored_component = "";
  }
