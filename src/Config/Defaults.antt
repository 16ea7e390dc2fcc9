-- ===== src/Config/Defaults.antt =====
-- The configuration that the flags of main.go bind where none is given, before the checks of `init`.
use tls_banner_grab_go.Base.{ℕ, true, false, List, [], ◌∷◌, none}
use tls_banner_grab_go.Base.Int.{pos}
use tls_banner_grab_go.Config.{Config}

abbrev pub default_user_agent : List ℕ
default_user_agent =
    b'M' ∷ b'o' ∷ b'z' ∷ b'i' ∷ b'l' ∷ b'l' ∷ b'a' ∷ b'/' ∷ b'5' ∷ b'.' ∷ b'0' ∷ b' ' ∷ b'z' ∷ b'g'
    ∷ b'r' ∷ b'a' ∷ b'b' ∷ b'/' ∷ b'0' ∷ b'.' ∷ b'x' ∷ []

abbrev pub defaults : Config
defaults = record {
  port = 0;
  timeout = 0;
  senders = 1000;
  connections_per_host = 1;
  lookup_domain = false;
  tls = false;
  tls_version = 0;
  heartbleed = false;
  root_ca_pool = none;
  dhe_only = false;
  ecdhe_only = false;
  exports_only = false;
  exports_dh_only = false;
  firefox_only = false;
  firefox_no_dhe = false;
  chrome_only = false;
  chrome_no_dhe = false;
  safari_only = false;
  safari_no_dhe = false;
  no_sni = false;
  tls_extended_random = false;
  gather_session_ticket = false;
  extended_master_secret = false;
  tls_verbose = false;
  signed_certificate_timestamp_ext = true;
  external_client_hello = none;
  tls_certs_only = false;
  banners = false;
  send_data = false;
  data_bytes = [];
  smtp = false;
  imap = false;
  pop3 = false;
  smtp_help = false;
  ehlo_domain = [];
  ehlo = false;
  start_tls = false;
  ftp = false;
  ftp_auth_tls = false;
  telnet = false;
  telnet_max_size = 65536;
  modbus = false;
  bacnet = false;
  fox = false;
  dnp3 = false;
  s7 = false;
  http = record {
    method = b'G' ∷ b'E' ∷ b'T' ∷ [];
    endpoint = [];
    user_agent = default_user_agent;
    proxy_domain = [];
    max_size = pos 256;
    max_redirects = pos 0;
    follow_localhost_redirects = true;
  };
  gomaxprocs = 3;
  xssh = false;
  smb = record { smb = false; protocol = 1 };
}
