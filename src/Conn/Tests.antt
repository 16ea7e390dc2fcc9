-- ===== src/Conn/Tests.antt =====
-- Runs of the code of zlib/conn.go, and its theorems at concrete inputs.
use tls_banner_grab_go.Base.{ℕ, refl, List, [], ◌∷◌, none, some}
use tls_banner_grab_go.Net.{new}
use tls_banner_grab_go.Net.Stream.{stream}
use tls_banner_grab_go.Ftp.Line.{line}
use tls_banner_grab_go.Conn.{Tls, Conn, new_conn, completed, probed}
use tls_banner_grab_go.Conn.Mail.{
  MailPatterns, smtp_start_tls_handshake, pop3_start_tls_handshake, imap_start_tls_handshake,
}
use tls_banner_grab_go.Conn.Mail.Handshakes.{
  Upgrades, AcceptsSmtp, Begins, ok_prefix, start_tls_handshake-Upgrades,
}

abbrev mail : MailPatterns
mail = record { smtp = line; pop3 = line; imap = line }

-- A library whose handshakes always end well.
abbrev tls : Tls (List ℕ)
tls = record {
  client = λ config conn. conn;
  handshake = λ config conn s. (completed, s);
  handshake_log = λ config conn s. record {
    client_hello = none;
    key_material = none;
    client_finished = none;
    client_key_exchange = none;
    server_part = [];
  };
  check_heartbleed = λ conn s. (probed, s);
  heartbleed_log = λ s. [];
  err_unimplemented_cipher = new "unimplemented cipher";
}

abbrev plain : Conn (List ℕ)
plain = new_conn (stream 3)

abbrev upgraded : Conn (List ℕ)
upgraded = record plain { tls_conn = some (stream 3) }

abbrev ready : List ℕ
ready = b'2' ∷ b'2' ∷ b'0' ∷ b' ' ∷ b'g' ∷ b'o' ∷ 10 ∷ []

start_tls_handshake-Upgrades_example :
    Upgrades line AcceptsSmtp (smtp_start_tls_handshake mail 9 tls plain ready)
    × Upgrades line (Begins (b'+' ∷ [])) (pop3_start_tls_handshake mail 9 tls plain ready)
    × Upgrades line (Begins ok_prefix) (imap_start_tls_handshake mail 9 tls plain ready)
start_tls_handshake-Upgrades_example = start_tls_handshake-Upgrades mail 9 tls plain ready refl
