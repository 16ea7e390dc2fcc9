-- ===== src/Config.antt =====
-- zlib/config.go: what a scan is told to do.
pub mod Defaults
use tls_banner_grab_go.Base.{ℕ, Bool, List, Option}
use tls_banner_grab_go.Base.Int.{ℤ}

-- `HTTPConfig`
pub record HttpConfig : Type 0 where
  pub method : List ℕ
  pub endpoint : List ℕ
  pub user_agent : List ℕ
  pub proxy_domain : List ℕ
  pub max_size : ℤ
  pub max_redirects : ℤ
  pub follow_localhost_redirects : Bool

-- `SMBScanConfig`
pub record SmbScanConfig : Type 0 where
  pub smb : Bool
  pub protocol : ℕ

-- `Config`, without the logger. A certificate pool is a number, and the timeout is in seconds.
pub record Config : Type 0 where
  pub port : ℕ
  pub timeout : ℕ
  pub senders : ℕ
  pub connections_per_host : ℕ
  pub lookup_domain : Bool
  pub tls : Bool
  pub tls_version : ℕ
  pub heartbleed : Bool
  pub root_ca_pool : Option ℕ
  pub dhe_only : Bool
  pub ecdhe_only : Bool
  pub exports_only : Bool
  pub exports_dh_only : Bool
  pub firefox_only : Bool
  pub firefox_no_dhe : Bool
  pub chrome_only : Bool
  pub chrome_no_dhe : Bool
  pub safari_only : Bool
  pub safari_no_dhe : Bool
  pub no_sni : Bool
  pub tls_extended_random : Bool
  pub gather_session_ticket : Bool
  pub extended_master_secret : Bool
  pub tls_verbose : Bool
  pub signed_certificate_timestamp_ext : Bool
  pub external_client_hello : Option (List ℕ)
  pub tls_certs_only : Bool
  pub banners : Bool
  pub send_data : Bool
  pub data_bytes : List ℕ
  pub smtp : Bool
  pub imap : Bool
  pub pop3 : Bool
  pub smtp_help : Bool
  pub ehlo_domain : List ℕ
  pub ehlo : Bool
  pub start_tls : Bool
  pub ftp : Bool
  pub ftp_auth_tls : Bool
  pub telnet : Bool
  pub telnet_max_size : ℕ
  pub modbus : Bool
  pub bacnet : Bool
  pub fox : Bool
  pub dnp3 : Bool
  pub s7 : Bool
  pub http : HttpConfig
  pub gomaxprocs : ℕ
  pub xssh : Bool
  pub smb : SmbScanConfig
