-- ===== src/Conn/Scans/Keeps.antt =====
-- What the scans of single protocols leave of a connection.
use tls_banner_grab_go.Base.{ℕ, refl, Bool, true, false, Option, none, some}
use tls_banner_grab_go.Net.{Error, Result, ok, err, panic, stuck, NetConn}
use tls_banner_grab_go.Ftp.{Pattern, FtpLog, setup_ftps}
use tls_banner_grab_go.Modbus.{ModbusEvent, send_modbus_echo}
use tls_banner_grab_go.Siemens.Banner.{Dialed}
use tls_banner_grab_go.Smb.Encoder.{Asn1}
use tls_banner_grab_go.Smb.Messages.{NegTokenInit}
use tls_banner_grab_go.Conn.{Conn, Tls, get_underlying_conn}
use tls_banner_grab_go.Conn.Keeps.{
  Keeps, IsKeeping, Keeps-refl, Keeps-trans, tls_handshake-IsKeeping,
}
use tls_banner_grab_go.Conn.Scans.{
  ftp_banner, begin_tls, ftps_certificates, get_ftps_certificates, fox_banner, telnet_banner,
  s7_banner, smb_banner, dnp3_banner, log_event, modbus_echo, vendor_query, put_ftp,
}

module _ {S : Type 0} where
  pub ftp_banner-Keeps :
      (pattern : Pattern) (fuel : ℕ) (c : Conn S) (s : S) → Keeps c (ftp_banner pattern fuel c s).1
  unfolding ftp_banner
  ftp_banner-Keeps pattern fuel c s = record { component = refl; stays = λ h. h }

  begin_tls-Keeps :
      (tls : Tls S) (v : Result (Bool × Option Error) × Conn S × S) → Keeps v.1 (begin_tls tls v).1
  unfolding begin_tls
  begin_tls-Keeps tls (ok (ready, some e), c, s) = Keeps-refl c
  begin_tls-Keeps tls (ok (true, none), c, s) = tls_handshake-IsKeeping tls c s
  begin_tls-Keeps tls (ok (false, none), c, s) = Keeps-refl c
  begin_tls-Keeps tls (err e, c, s) = Keeps-refl c
  begin_tls-Keeps tls (panic, c, s) = Keeps-refl c
  begin_tls-Keeps tls (stuck, c, s) = Keeps-refl c

  put_ftp-Keeps : (log : FtpLog) (c : Conn S) → Keeps c (put_ftp log c)
  put_ftp-Keeps log c = record { component = refl; stays = λ h. h }

  ftps_certificates-IsKeeping :
      (pattern : Pattern) (fuel : ℕ) (tls : Tls S) (o : Option FtpLog)
      → IsKeeping (ftps_certificates pattern fuel tls o)
  unfolding ftps_certificates
  ftps_certificates-IsKeeping pattern fuel tls none c s = Keeps-refl c
  ftps_certificates-IsKeeping pattern fuel tls (some log) c s =
      let (r, log', s') = setup_ftps (get_underlying_conn c) pattern fuel log s in
      Keeps-trans c (put_ftp log' c) (begin_tls tls (r, put_ftp log' c, s')).1
        (put_ftp-Keeps log' c) (begin_tls-Keeps tls (r, put_ftp log' c, s'))

  pub get_ftps_certificates-IsKeeping :
      (pattern : Pattern) (fuel : ℕ) (tls : Tls S)
      → IsKeeping (get_ftps_certificates pattern fuel tls)
  unfolding get_ftps_certificates
  get_ftps_certificates-IsKeeping pattern fuel tls c s =
      ftps_certificates-IsKeeping pattern fuel tls c.grab_data.ftp c s

  pub fox_banner-IsKeeping : IsKeeping (fox_banner {S = S})
  unfolding fox_banner
  fox_banner-IsKeeping c s = record { component = refl; stays = λ h. h }

  pub smb_banner-IsKeeping :
      (asn1 : Asn1 NegTokenInit) (close : NetConn S → S → S) (fuel : ℕ)
      → IsKeeping (smb_banner asn1 close fuel)
  unfolding smb_banner
  smb_banner-IsKeeping asn1 close fuel c s = record { component = refl; stays = λ h. h }

  pub telnet_banner-IsKeeping :
      (fuel max_read_size : ℕ) → IsKeeping (telnet_banner {S = S} fuel max_read_size)
  unfolding telnet_banner
  telnet_banner-IsKeeping fuel max_read_size c s = record { component = refl; stays = λ h. h }

  pub s7_banner-IsKeeping :
      (dial : S → Dialed S × S) (close : S → S) → IsKeeping (s7_banner dial close)
  unfolding s7_banner
  s7_banner-IsKeeping dial close c s = record { component = refl; stays = λ h. h }

  pub dnp3_banner-IsKeeping : IsKeeping (dnp3_banner {S = S})
  unfolding dnp3_banner
  dnp3_banner-IsKeeping c s = record { component = refl; stays = λ h. h }

  log_event-Keeps :
      (c : Conn S) (v : Result (ℕ × Option Error × ModbusEvent) × S) → Keeps c (log_event c v).1
  unfolding log_event
  log_event-Keeps c (ok (n, e, event), s) = record { component = refl; stays = λ h. h }
  log_event-Keeps c (err e, s) = Keeps-refl c
  log_event-Keeps c (panic, s) = Keeps-refl c
  log_event-Keeps c (stuck, s) = Keeps-refl c

  pub modbus_echo-IsKeeping : (fuel : ℕ) → IsKeeping (modbus_echo {S = S} fuel)
  unfolding modbus_echo
  modbus_echo-IsKeeping fuel c s =
      log_event-Keeps c (send_modbus_echo (get_underlying_conn c) fuel s)

  pub vendor_query-IsKeeping : IsKeeping (vendor_query {S = S})
  unfolding vendor_query
  vendor_query-IsKeeping c s = record { component = refl; stays = λ h. h }
