-- ===== src/Conn/Scans.antt =====
-- The scans of single protocols over a connection, each with its log: the methods of zlib/conn.go,
-- and the calls that `makeGrabber` of zlib/grabber.go makes.
pub mod Keeps
use tls_banner_grab_go.Base.{ℕ, Bool, true, false, [], Option, none, some}
use tls_banner_grab_go.Net.{Error, Result, ok, err, panic, stuck, NetConn}
use tls_banner_grab_go.Fox.{new_fox_log, get_fox_banner}
use tls_banner_grab_go.Ftp.{Pattern, FtpLog, get_ftp_banner, setup_ftps}
use tls_banner_grab_go.Telnet.{TelnetLog}
use tls_banner_grab_go.Telnet.Banner.{get_telnet_banner}
use tls_banner_grab_go.Modbus.{ModbusEvent, send_modbus_echo}
use tls_banner_grab_go.Siemens.Identification.{S7Log}
use tls_banner_grab_go.Siemens.Banner.{Dialed, get_s7_banner}
use tls_banner_grab_go.Smb.Encoder.{Asn1}
use tls_banner_grab_go.Smb.Messages.{NegTokenInit, empty_token}
use tls_banner_grab_go.Smb.Session.{get_smb_banner}
use tls_banner_grab_go.Dnp3.{Dnp3Log, get_dnp3_banner}
use tls_banner_grab_go.Bacnet.Query as Bacnet
use tls_banner_grab_go.Conn.{Conn, Op, Tls, get_underlying_conn, of_error, tls_handshake}

-- The logs of `new`.
abbrev pub new_ftp_log : FtpLog
new_ftp_log = record { banner = []; auth_tls_resp = []; auth_ssl_resp = [] }

abbrev pub new_telnet_log : TelnetLog
new_telnet_log = record {
  banner = [];
  will_options = [];
  do_options = [];
  wont_options = [];
  dont_options = [];
}

abbrev pub new_dnp3_log : Dnp3Log
new_dnp3_log = record { is_dnp3 = false; raw_response = [] }

abbrev pub new_s7_log : S7Log
new_s7_log = record {
  is_s7 = false;
  system = [];
  module_name = [];
  plant_id = [];
  copyright = [];
  serial_number = [];
  reserved_for_os = [];
  module_type = [];
  memory_serial_number = [];
  cpu_profile = [];
  oem_id = [];
  location = [];
  module_id = [];
  hardware = [];
  firmware = [];
}

module _ {S : Type 0} where
  abbrev pub put_ftp : FtpLog → Conn S → Conn S
  put_ftp log c = record c { grab_data = record c.grab_data { ftp = some log } }

  -- `ftp.GetFTPBanner`: whether the reply is a success, and the error.
  unfoldable pub ftp_banner : Pattern → ℕ → Conn S → S → Result (Bool × Option Error) × Conn S × S
  ftp_banner pattern fuel c s =
      let (r, log, s') = get_ftp_banner (get_underlying_conn c) pattern fuel new_ftp_log s in
      (r, put_ftp log c, s')

  -- `GetFTPSCertificates`
  begin_tls : Tls S → Result (Bool × Option Error) × Conn S × S → Result (Unit {0}) × Conn S × S
  begin_tls tls (ok (ready, some e), c, s) = (err e, c, s)
  begin_tls tls (ok (true, none), c, s) = tls_handshake tls c s
  begin_tls tls (ok (false, none), c, s) = (ok tt, c, s)
  begin_tls tls (err e, c, s) = (err e, c, s)
  begin_tls tls (panic, c, s) = (panic, c, s)
  begin_tls tls (stuck, c, s) = (stuck, c, s)

  ftps_certificates : Pattern → ℕ → Tls S → Option FtpLog → Op S
  unfolding begin_tls
  ftps_certificates pattern fuel tls none c s = (panic, c, s)
  ftps_certificates pattern fuel tls (some log) c s =
      let (r, log', s') = setup_ftps (get_underlying_conn c) pattern fuel log s in
      begin_tls tls (r, put_ftp log' c, s')

  unfoldable pub get_ftps_certificates : Pattern → ℕ → Tls S → Op S
  unfolding ftps_certificates
  get_ftps_certificates pattern fuel tls c s =
      ftps_certificates pattern fuel tls c.grab_data.ftp c s

  unfoldable pub fox_banner : Op S
  fox_banner c s =
      let ((e, log), s') = get_fox_banner (get_underlying_conn c) new_fox_log s in
      (of_error e, record c { grab_data = record c.grab_data { fox = some log } }, s')

  unfoldable pub telnet_banner : ℕ → ℕ → Op S
  telnet_banner fuel max_read_size c s =
      let (r, log, s') =
        get_telnet_banner (get_underlying_conn c) fuel max_read_size new_telnet_log s in
      (r, record c { grab_data = record c.grab_data { telnet = some log } }, s')

  -- The connection that `GetS7Banner` dials again, and how it closes one.
  unfoldable pub s7_banner : (S → Dialed S × S) → (S → S) → Op S
  s7_banner dial close c s =
      let (r, log, s') = get_s7_banner dial close (get_underlying_conn c) new_s7_log s in
      (r, record c { grab_data = record c.grab_data { s7 = some log } }, s')

  -- `smb.GetSMBBanner` into a new log; it may close the connection.
  unfoldable pub smb_banner : Asn1 NegTokenInit → (NetConn S → S → S) → ℕ → Op S
  smb_banner asn1 close fuel c s =
      let conn = get_underlying_conn c in
      let (r, log, s') =
        get_smb_banner asn1 empty_token (close conn) conn fuel (record { support_v1 = false }) s in
      (r, record c { grab_data = record c.grab_data { smb = some log } }, s')

  -- The error of the scan is dropped.
  unfoldable pub dnp3_banner : Op S
  dnp3_banner c s =
      let ((e, log), s') = get_dnp3_banner (get_underlying_conn c) new_dnp3_log s in
      (ok tt, record c { grab_data = record c.grab_data { dnp3 = some log } }, s')

  -- `SendModbusEcho`; a panic of the parser comes before the event is logged.
  log_event : Conn S → Result (ℕ × Option Error × ModbusEvent) × S → Result (Unit {0}) × Conn S × S
  log_event c (ok (w, e, event), s) =
      (of_error e, record c { grab_data = record c.grab_data { modbus = some event } }, s)
  log_event c (err e, s) = (err e, c, s)
  log_event c (panic, s) = (panic, c, s)
  log_event c (stuck, s) = (stuck, c, s)

  unfoldable pub modbus_echo : ℕ → Op S
  unfolding log_event
  modbus_echo fuel c s = log_event c (send_modbus_echo (get_underlying_conn c) fuel s)

  -- `BACNetVendorQuery`
  unfoldable pub vendor_query : Op S
  vendor_query c s =
      let (e, log, s') = Bacnet.bacnet_vendor_query (get_underlying_conn c) s in
      (of_error e, record c { grab_data = record c.grab_data { bacnet = some log } }, s')
