-- ===== src/Grabber/TlsConfigs.antt =====
-- The two configurations of TLS: the banner grabber's and the HTTP grabber's.
use tls_banner_grab_go.Base.{ℕ, ◌≡◌, refl, Bool, true, false, List, if◌then◌else◌}
use tls_banner_grab_go.Net.{NetConn}
use tls_banner_grab_go.Config.{Config}
use tls_banner_grab_go.Conn.{handshake_config, set_domain}
use tls_banner_grab_go.Grabber.{Suites, make_tls_config, configure, dialed_conn}

if-same : (b : Bool) → (if b then true else false) ≡ b
if-same true = refl
if-same false = refl

module _ {S : Type 0} where
  -- For every configuration and domain, the TLS configuration that TLSHandshake makes on a
  -- connection that the grabber set up is the one that makeTLSConfig makes for HTTP, but for
  -- CertsOnly and ExtendedMasterSecret, which the latter leaves off.
  pub handshake_config-make_tls_config :
      (suites : Suites) (config : Config) (conn : NetConn S) (domain : List ℕ)
      → handshake_config (configure suites config (set_domain domain (dialed_conn config conn)))
        ≡ record (make_tls_config suites config domain) {
          certs_only = config.tls_certs_only;
          extended_master_secret = config.extended_master_secret;
        }
  unfolding handshake_config configure make_tls_config
  handshake_config-make_tls_config suites config conn domain =
      rw
        (
          if-same config.no_sni,
          if-same config.tls_certs_only,
          if-same config.extended_master_secret,
        )
        refl
