-- ===== src/Grabber.antt =====
-- zlib/grabber.go: how the grabber sets a connection up, and the configuration of TLS that the HTTP
-- grabber makes. The lists of cipher suites are the TLS library's.
pub mod Steps
pub mod Handler
pub mod TlsConfigs
mod Tests
use tls_banner_grab_go.Base.{
  ℕ, Bool, true, false, not, ◌&&◌, List, [], Option, none, some, length, ◌==◌, if◌then◌else◌,
}
use tls_banner_grab_go.Net.{NetConn}
use tls_banner_grab_go.Config.{Config}
use tls_banner_grab_go.Conn.{
  Conn, TlsConfig, new_tls_config, version_ssl30, new_conn, GrabData, Op, set_ca_pool, set_no_sni,
  set_extended_random, set_gather_session_ticket, set_signed_certificate_timestamp_ext,
  set_offer_extended_master_secret, set_external_client_hello, set_tls_verbose, set_tls_certs_only,
}

-- The suites of the TLS library.
pub record Suites : Type 0 where
  pub dhe : List ℕ
  pub ecdhe : List ℕ
  pub rsa512_export : List ℕ
  pub dhe_export : List ℕ
  pub chrome : List ℕ
  pub chrome_no_dhe : List ℕ
  pub firefox : List ℕ
  pub firefox_no_dhe : List ℕ
  pub safari : List ℕ
  pub safari_no_dhe : List ℕ

infixl 1 ◌▷◌
abbrev ◌▷◌ {ℓ} : {A : Type ℓ} → A → (A → A) → A
c ▷ statement = statement c

-- A byte slice that is set where another is not nil.
abbrev given : Option (List ℕ) → Option (List ℕ) → Option (List ℕ)
given none before = before
given (some hello) before = some hello

-- `if on { config.CipherSuites = suites }`, and the same with `ForceSuites = true`.
abbrev suites_tls : Bool → List ℕ → TlsConfig → TlsConfig
suites_tls on suites c = record c { cipher_suites = if on then suites else c.cipher_suites }

abbrev force_tls : Bool → List ℕ → TlsConfig → TlsConfig
force_tls on suites c = record c {
  cipher_suites = if on then suites else c.cipher_suites;
  force_suites = if on then true else c.force_suites;
}

-- `makeTLSConfig`
unfoldable pub make_tls_config : Suites → Config → List ℕ → TlsConfig
make_tls_config suites config url_host =
    record new_tls_config {
      insecure_skip_verify = true;
      min_version = version_ssl30;
      max_version = config.tls_version;
      root_cas = config.root_ca_pool;
      heartbeat_enabled = true;
      client_dsa_enabled = true;
    }
    ▷ suites_tls config.dhe_only suites.dhe
    ▷ suites_tls config.ecdhe_only suites.ecdhe
    ▷ suites_tls config.exports_only suites.rsa512_export
    ▷ suites_tls config.exports_dh_only suites.dhe_export
    ▷ suites_tls config.chrome_only suites.chrome
    ▷ suites_tls config.chrome_no_dhe suites.chrome_no_dhe
    ▷ suites_tls config.firefox_only suites.firefox
    ▷ suites_tls config.firefox_no_dhe suites.firefox_no_dhe
    ▷ force_tls config.safari_only suites.safari
    ▷ force_tls config.safari_no_dhe suites.safari_no_dhe
    ▷ (λ c. record c {
      extended_random = if config.tls_extended_random then true else c.extended_random;
    })
    ▷ (λ c. record c {
      signed_certificate_timestamp_ext =
          if config.signed_certificate_timestamp_ext
          then true
          else c.signed_certificate_timestamp_ext;
    })
    ▷ (λ c. record c {
      force_session_ticket_ext =
          if config.gather_session_ticket then true else c.force_session_ticket_ext;
    })
    ▷ (λ c. record c {
      server_name =
          if not config.no_sni && not (length url_host == 0) then url_host else c.server_name;
    })
    ▷ (λ c. record c {
      external_client_hello = given config.external_client_hello c.external_client_hello;
    })

module _ {S : Type 0} where
  abbrev suites_conn : Bool → List ℕ → Conn S → Conn S
  suites_conn on suites c = record c { cipher_suites = if on then suites else c.cipher_suites }

  abbrev force_conn : Bool → List ℕ → Conn S → Conn S
  force_conn on suites c = record c {
    cipher_suites = if on then suites else c.cipher_suites;
    force_suites = if on then true else c.force_suites;
  }

  -- The beginning of the grabber that `makeGrabber` makes.
  unfoldable pub configure : Suites → Config → Conn S → Conn S
  configure suites config conn =
      conn
      ▷ set_ca_pool config.root_ca_pool
      ▷ suites_conn config.dhe_only suites.dhe
      ▷ suites_conn config.ecdhe_only suites.ecdhe
      ▷ suites_conn config.exports_only suites.rsa512_export
      ▷ suites_conn config.exports_dh_only suites.dhe_export
      ▷ suites_conn config.chrome_only suites.chrome
      ▷ suites_conn config.chrome_no_dhe suites.chrome_no_dhe
      ▷ suites_conn config.firefox_only suites.firefox
      ▷ suites_conn config.firefox_no_dhe suites.firefox_no_dhe
      ▷ force_conn config.safari_only suites.safari
      ▷ force_conn config.safari_no_dhe suites.safari_no_dhe
      ▷ (λ c. record c { no_sni = if config.no_sni then (set_no_sni c).no_sni else c.no_sni })
      ▷ (λ c. record c {
        extended_random =
            if config.tls_extended_random
            then (set_extended_random c).extended_random
            else c.extended_random;
      })
      ▷ (λ c. record c {
        gather_session_ticket =
            if config.gather_session_ticket
            then (set_gather_session_ticket c).gather_session_ticket
            else c.gather_session_ticket;
      })
      ▷ (λ c. record c {
        signed_certificate_timestamp_ext =
            if config.signed_certificate_timestamp_ext
            then (set_signed_certificate_timestamp_ext c).signed_certificate_timestamp_ext
            else c.signed_certificate_timestamp_ext;
      })
      ▷ (λ c. record c {
        offer_extended_master_secret =
            if config.extended_master_secret
            then (set_offer_extended_master_secret c).offer_extended_master_secret
            else c.offer_extended_master_secret;
      })
      ▷ (λ c. record c {
        external_client_hello = given config.external_client_hello c.external_client_hello;
      })
      ▷ (λ c. record c {
        tls_verbose = if config.tls_verbose then (set_tls_verbose c).tls_verbose else c.tls_verbose;
      })
      ▷ (λ c. record c {
        tls_certs_only =
            if config.tls_certs_only
            then (set_tls_certs_only c).tls_certs_only
            else c.tls_certs_only;
      })

  -- The connection of `makeDialer`, with `maxTlsVersion`.
  abbrev pub dialed_conn : Config → NetConn S → Conn S
  dialed_conn config conn = record (new_conn conn) { max_tls_version = config.tls_version }
