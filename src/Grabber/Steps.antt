-- ===== src/Grabber/Steps.antt =====
-- The grabber that `makeGrabber` of zlib/grabber.go makes, and `GrabBanner`. SSH and the HTTP
-- client are parameters, as the libraries and the network are.
pub mod Causes
pub mod Kept
pub mod Upgraded
pub mod Blame
pub mod Fetched
use tls_banner_grab_go.Base.{
  ℕ, Bool, true, false, not, ◌&&◌, List, [], ◌∷◌, Option, none, some, String, length, ◌==◌,
  if◌then◌else◌,
}
use tls_banner_grab_go.Net.{NetError, Error, net, new, Result, ok, err, panic, stuck, NetConn}
use tls_banner_grab_go.Net.Text.{replace_all}
use tls_banner_grab_go.Ftp.{Pattern}
use tls_banner_grab_go.Siemens.Banner.{Dialed, refused, connected}
use tls_banner_grab_go.Config.{Config}
use tls_banner_grab_go.Conn.{
  Conn, GrabData, no_grab_data, Op, Tls, get_underlying_conn, set_domain, write, basic_banner, read,
  tls_handshake, check_heartbleed,
}
use tls_banner_grab_go.Conn.Mail.{
  MailPatterns, smtp_banner, pop3_banner, imap_banner, send_ehlo, send_smtp_help,
  smtp_start_tls_handshake, pop3_start_tls_handshake, imap_start_tls_handshake, smtp_quit,
  pop3_quit, imap_quit,
}
use tls_banner_grab_go.Smb.Encoder.{Asn1}
use tls_banner_grab_go.Smb.Messages.{NegTokenInit}
use tls_banner_grab_go.Conn.Scans.{
  smb_banner, ftp_banner, get_ftps_certificates, fox_banner, telnet_banner, s7_banner, dnp3_banner,
  modbus_echo, vendor_query,
}
use tls_banner_grab_go.Grabber.{configure, dialed_conn}
use tls_banner_grab_go.Http.Grab.{Client, Scanned, http_grab}

-- The world that a scan calls, over its states: the libraries, the network, and the two scanners that
-- are not modelled. An address is its bytes, none for nil.
pub record World (S : Type 0) : Type 0 where
  pub client : Client S
  pub tls : Tls S
  pub mail : MailPatterns
  pub asn1 : Asn1 NegTokenInit
  pub ftp_end : Pattern
  pub fuel : ℕ
  pub dial : Bool → List ℕ → ℕ → S → Dialed S × S
  pub close : NetConn S → S → S
  pub redial : S → Dialed S × S
  pub remote_host : NetConn S → List ℕ
  pub ip_string : List ℕ → List ℕ
  pub join_host_port : List ℕ → ℕ → List ℕ
  pub ssh_grab : List ℕ → ℕ → S → Result (Unit {0}) × S

-- What an operation ends with.
abbrev pub Ended : Type 0 → Type 0
Ended S = Result (Unit {0}) × Conn S × S

module _ {S : Type 0} where
  -- `if err := op; err != nil { c.erroredComponent = name; return err }`
  unfoldable pub component : String → Ended S → Ended S
  component name (ok u, c, s) = (ok u, c, s)
  component name (err e, c, s) = (err e, record c { errored_component = name }, s)
  component name (panic, c, s) = (panic, c, s)
  component name (stuck, c, s) = (stuck, c, s)

  -- The statements behind one that ended without an error.
  unfoldable pub and_then : Op S → Ended S → Ended S
  and_then next (ok u, c, s) = next c s
  and_then next (err e, c, s) = (err e, c, s)
  and_then next (panic, c, s) = (panic, c, s)
  and_then next (stuck, c, s) = (stuck, c, s)

  abbrev pub skip : Op S
  skip c s = (ok tt, c, s)

  -- `if on { op }`, and `if on { op } else { other }`.
  unfoldable pub when : Bool → Op S → Op S → Op S
  when true op other = op
  when false op other = other

  abbrev pub named : String → Op S → Op S
  named name op c s = component name (op c s)

  unfoldable pub run : List (Op S) → Op S
  run [] c s = (ok tt, c, s)
  run (op ∷ ops) c s = and_then (run ops) (op c s)

  module _ (w : World S) (config : Config) where
    unfoldable pub banner_step : Op S
    banner_step = named "banner" (
        when config.smtp (smtp_banner w.mail w.fuel 1024) (
          when config.pop3 (pop3_banner w.mail w.fuel 1024)
            (when config.imap (imap_banner w.mail w.fuel 1024) basic_banner)))

    -- The FTP banner, and the certificates behind a reply that is a success.
    unfoldable pub after_ftp : Result (Bool × Option Error) × Conn S × S → Ended S
    after_ftp (ok (success, some e), c, s) = component "ftp" (err e, c, s)
    after_ftp (ok (success, none), c, s) =
        when (config.ftp_auth_tls && success)
          (named "ftp-authtls" (get_ftps_certificates w.ftp_end w.fuel w.tls)) skip c s
    after_ftp (err e, c, s) = component "ftp" (err e, c, s)
    after_ftp (panic, c, s) = (panic, c, s)
    after_ftp (stuck, c, s) = (stuck, c, s)

    unfoldable pub ftp_step : Op S
    ftp_step c s = after_ftp (ftp_banner w.ftp_end w.fuel c s)

    -- `%s` is replaced by the host, and `%d` by the domain.
    unfoldable pub send_data : Op S
    send_data c s =
        let host = w.remote_host (get_underlying_conn c) in
        let msg = replace_all b'%' b'd' c.domain (replace_all b'%' b's' host config.data_bytes) in
        run (named "write" (write msg) ∷ named "read" (read 65536) ∷ []) c s

    unfoldable pub start_tls_step : Op S
    start_tls_step = named "starttls" (
        when config.imap (imap_start_tls_handshake w.mail w.fuel w.tls) (
          when config.pop3 (pop3_start_tls_handshake w.mail w.fuel w.tls)
            (smtp_start_tls_handshake w.mail w.fuel w.tls)))

    unfoldable pub quit_step : Op S
    quit_step =
        when config.smtp (named "quit" smtp_quit) (
          when config.pop3 (named "quit" pop3_quit)
            (when config.imap (named "quit" imap_quit) skip))

    -- The grabber's statements behind its configuration of the connection.
    unfoldable pub steps : List (Op S)
    steps =
        when config.tls (named "tls" (tls_handshake w.tls)) skip
        ∷ when config.banners banner_step skip
        ∷ when config.ftp ftp_step skip
        ∷ when config.fox (named "fox" fox_banner) skip
        ∷ when config.telnet (named "telnet" (telnet_banner w.fuel config.telnet_max_size)) skip
        ∷ when config.s7
            (λ c s. named "s7" (s7_banner w.redial (w.close (get_underlying_conn c))) c s) skip
        ∷ when config.dnp3 dnp3_banner skip
        ∷ when config.smb.smb (named "smb" (smb_banner w.asn1 w.close w.fuel)) skip
        ∷ when config.send_data send_data skip
        ∷ when config.ehlo (named "ehlo" (send_ehlo w.mail w.fuel config.ehlo_domain)) skip
        ∷ when config.smtp_help (named "smtp_help" (send_smtp_help w.mail w.fuel)) skip
        ∷ when config.start_tls start_tls_step skip
        ∷ quit_step
        ∷ when config.modbus (named "modbus" (modbus_echo w.fuel)) skip
        ∷ when config.bacnet (named "bacnet" vendor_query) skip
        ∷ when config.heartbleed (named "heartbleed" (check_heartbleed w.tls)) skip
        ∷ []

    -- The wrapper: the connection is closed, but not by a panic.
    unfoldable pub closing : Ended S → Ended S
    closing (ok u, c, s) = (ok u, c, w.close (get_underlying_conn c) s)
    closing (err e, c, s) = (err e, c, w.close (get_underlying_conn c) s)
    closing (panic, c, s) = (panic, c, s)
    closing (stuck, c, s) = (stuck, c, s)

    -- `makeGrabber`
    unfoldable pub grab : Op S
    grab c s = closing (run steps (configure w.client.suites config c) s)

-- `GrabTarget`; the address is its bytes.
pub record GrabTarget : Type 0 where
  pub addr : List ℕ
  pub domain : List ℕ

-- `Grab` of zlib/zgrab.go, without the time.
pub record Grab : Type 0 where
  pub ip : List ℕ
  pub domain : List ℕ
  pub grab_data : GrabData
  pub error : Option Error
  pub error_component : String

pub data Status : Type 0 where
  status_success status_failure : Status

-- `Grab.status`
unfoldable pub status : Grab → Status
status g = elim g.error [ none ↦ status_success | some e ↦ status_failure ]

module _ {S : Type 0} (w : World S) (config : Config) (target : GrabTarget) where
  -- The grab of a scan that ended with a log and a component; a panic bubbles out.
  unfoldable pub finish : GrabData → String → Result (Unit {0}) × S → Result Grab × S
  finish log name (ok u, s) = (
    ok (record {
      ip = target.addr;
      domain = target.domain;
      grab_data = log;
      error = none;
      error_component = name;
    }),
    s,
  )
  finish log name (err e, s) = (
    ok (record {
      ip = target.addr;
      domain = target.domain;
      grab_data = log;
      error = some e;
      error_component = name;
    }),
    s,
  )
  finish log name (panic, s) = (panic, s)
  finish log name (stuck, s) = (stuck, s)

  unfoldable pub finish_scan : Ended S → Result Grab × S
  finish_scan (r, c, s) = finish c.grab_data c.errored_component (r, s)

  unfoldable pub with_domain : List ℕ → Conn S → Conn S
  with_domain [] c = c
  with_domain (b ∷ bs) c = set_domain (b ∷ bs) c

  -- Behind the dialer of `makeDialer`.
  unfoldable pub after_dial : Dialed S × S → Result Grab × S
  after_dial (refused e, s) = finish no_grab_data "connect" (err (net e), s)
  after_dial (connected conn, s) =
      finish_scan (grab w config (with_domain target.domain (dialed_conn config conn)) s)

  abbrev lookup_host : List ℕ
  lookup_host = if config.lookup_domain then target.domain else w.ip_string target.addr

  unfoldable pub banner_grab : S → Result Grab × S
  banner_grab s = after_dial (w.dial config.bacnet lookup_host config.port s)

  -- A grab of HTTP blames no component.
  abbrev pub finish_http : Scanned S → Result Grab × S
  finish_http (r, log, s) = finish (record no_grab_data { http = some log }) "" (r, s)

  abbrev pub url_host : List ℕ
  url_host =
      if config.lookup_domain
      then target.domain
      else w.join_host_port (w.ip_string target.addr) config.port

  unfoldable pub http_or_banner : List ℕ → S → Result Grab × S
  http_or_banner [] s = banner_grab s
  http_or_banner (b ∷ bs) s =
      finish_http (http_grab w.client config url_host (b ∷ bs) target.domain s)

  -- Nor does one of SSH, and what it logs is not modelled.
  unfoldable pub ssh_or_other : Bool → S → Result Grab × S
  ssh_or_other true s = finish no_grab_data "" (w.ssh_grab (w.ip_string target.addr) config.port s)
  ssh_or_other false s = http_or_banner config.http.endpoint s

  -- `GrabBanner`
  unfoldable pub grab_banner : S → Result Grab × S
  grab_banner s = ssh_or_other config.xssh s
