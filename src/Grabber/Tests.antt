-- ===== src/Grabber/Tests.antt =====
-- The grabber's theorems at concrete inputs.
use tls_banner_grab_go.Base.{arith, ℕ, ◌≡◌, refl, inr, true, false, List, [], ◌∷◌, none, some}
use tls_banner_grab_go.Net.{ok, new}
use tls_banner_grab_go.Net.Stream.{stream}
use tls_banner_grab_go.Ftp.Line.{line}
use tls_banner_grab_go.Siemens.Banner.{connected}
use tls_banner_grab_go.Config.Defaults.{defaults}
use tls_banner_grab_go.Config.{Config}
use tls_banner_grab_go.Conn.{Tls, completed, probed, handshake_config, set_domain}
use tls_banner_grab_go.Grabber.{make_tls_config, configure, dialed_conn}
use tls_banner_grab_go.Grabber.TlsConfigs.{handshake_config-make_tls_config}
use tls_banner_grab_go.Http.Script.{suites, silent}
use tls_banner_grab_go.Grabber.Steps.{World, GrabTarget, grab_banner}
use tls_banner_grab_go.Grabber.Handler.{Encoder}
use tls_banner_grab_go.Net.Text.{same_bytes}
use tls_banner_grab_go.Flags.{
  Flags, refuse, and_then, one_of, to_upper, version_if, choose_version, implied_tls, implied_smtp,
  hostname_if, choose_ehlo, check_rest, check_mail, init,
}
use tls_banner_grab_go.Flags.HttpScans.{IsHttpScanned, init-IsHttpScanned}
use tls_banner_grab_go.Grabber.Steps.Blame.{Blamed, grab_banner-Blamed}
use tls_banner_grab_go.Grabber.Steps.Fetched.{Fetched, grab_banner-Fetched}
use tls_banner_grab_go.Grabber.Steps.Upgraded.{Logs, grab_banner-Logs}

-- The defaults with SMTP, STARTTLS and the suites of Safari.
abbrev config : Config
config = record defaults {
  smtp = true;
  start_tls = true;
  safari_only = true;
  tls_certs_only = true;
}

abbrev tls : Tls (List ℕ)
tls = record {
  client = λ config conn. conn;
  handshake = λ config conn s. (completed, s);
  handshake_log = λ config conn s. record {
    client_hello = none;
    key_material = none;
    client_finished = none;
    client_key_exchange = none;
    server_part = [];
  };
  check_heartbleed = λ conn s. (probed, s);
  heartbleed_log = λ s. [];
  err_unimplemented_cipher = new "unimplemented cipher";
}

-- Every host answers with what the state holds.
abbrev world : World (List ℕ)
world = record {
  client = silent (record { scheme = []; host = []; hostname = [] });
  tls = tls;
  mail = record { smtp = line; pop3 = line; imap = line };
  ftp_end = line;
  fuel = 9;
  dial = λ udp host port s. (connected (stream 3), s);
  close = λ conn s. s;
  redial = λ s. (connected (stream 3), s);
  remote_host = λ conn. [];
  ip_string = λ ip. ip;
  join_host_port = λ host port. host;
  asn1 = record { marshal = λ t. ok (0x30 ∷ 0 ∷ []); unmarshal = λ bs. none; error = new "asn1" };
  ssh_grab = λ host port s. (ok tt, s);
}

abbrev target : GrabTarget
target = record { addr = 10 ∷ 0 ∷ 0 ∷ 1 ∷ []; domain = b'a' ∷ b'.' ∷ b'b' ∷ [] }

abbrev ready : List ℕ
ready = b'2' ∷ b'2' ∷ b'0' ∷ b' ' ∷ b'g' ∷ b'o' ∷ 10 ∷ []

handshake_config-make_tls_config_example :
    handshake_config
      (configure suites config (set_domain (b'a' ∷ []) (dialed_conn config (stream 3))))
    ≡ record (make_tls_config suites config (b'a' ∷ [])) {
      certs_only = true;
      extended_master_secret = false;
    }
handshake_config-make_tls_config_example =
    handshake_config-make_tls_config suites config (stream 3) (b'a' ∷ [])

grab_banner-Blamed_example : Blamed config (grab_banner world config target ready).0
grab_banner-Blamed_example = grab_banner-Blamed world config target ready refl refl

grab_banner-Logs_example : Logs (grab_banner world config target ready).0
grab_banner-Logs_example = grab_banner-Logs world config target ready refl refl (inr refl)

-- The defaults with an HTTP request for `/`.
abbrev over_http : Config
over_http = record defaults { http = record defaults.http { endpoint = b'/' ∷ [] } }

grab_banner-Fetched_example :
    Fetched world over_http target (grab_banner world over_http target ready)
grab_banner-Fetched_example = grab_banner-Fetched world over_http target ready refl (omega arith)

abbrev flags : Flags
flags = record { port_flag = 80; timeout = 10; tls_version = []; hostname = none }

abbrev encoder : Encoder
encoder = record {
  error_text = λ e. [];
  marshal = λ g. elim g [ none ↦ none | some e ↦ some e.domain ];
}

http_accepted : init flags over_http ≡ some (record over_http { port = 80; timeout = 10 })
unfolding init refuse and_then one_of same_bytes to_upper choose_version implied_tls version_if
    check_mail choose_ehlo hostname_if implied_smtp check_rest
http_accepted = refl

init-IsHttpScanned_example :
    IsHttpScanned world
      (record over_http { port = 80; timeout = 10 })
      encoder
      ((some target, λ run. ready) ∷ (none, λ run. []) ∷ [])
init-IsHttpScanned_example =
    init-IsHttpScanned world (record over_http { port = 80; timeout = 10 }) encoder flags over_http
      ((some target, λ run. ready) ∷ (none, λ run. []) ∷ []) http_accepted refl (omega arith)
