-- ===== src/Grabber/Steps/Kept.antt =====
-- Every step of the grabber blames what an option switched on, and keeps TLS on.
use tls_banner_grab_go.Base.{◌≡◌, refl, Bool, true, false, ◌&&◌, Option, none, some, All}
use tls_banner_grab_go.Net.{Error, Result, ok, err, panic, stuck}
use tls_banner_grab_go.Config.{Config}
use tls_banner_grab_go.Conn.{Conn, get_underlying_conn}
use tls_banner_grab_go.Conn.Keeps.{
  Keeps, write-IsKeeping, basic_banner-IsKeeping, read-IsKeeping, tls_handshake-IsKeeping,
  check_heartbleed-IsKeeping,
}
use tls_banner_grab_go.Conn.Scans.{s7_banner, dnp3_banner, ftp_banner}
use tls_banner_grab_go.Conn.Mail.Keeps.{
  banner-IsKeeping, send_ehlo-IsKeeping, send_smtp_help-IsKeeping, start_tls_handshake-IsKeeping,
  quit-IsKeeping,
}
use tls_banner_grab_go.Conn.Scans.Keeps.{
  ftp_banner-Keeps, get_ftps_certificates-IsKeeping, fox_banner-IsKeeping, smb_banner-IsKeeping,
  telnet_banner-IsKeeping, s7_banner-IsKeeping, modbus_echo-IsKeeping, vendor_query-IsKeeping,
}
use tls_banner_grab_go.Grabber.Steps.{
  World, skip, banner_step, start_tls_step, quit_step, send_data, after_ftp, ftp_step, steps,
}
use tls_banner_grab_go.Grabber.Steps.Causes.{
  tls, banner, ftp, ftp_auth_tls, fox, telnet, s7, smb, sent, received, ehlo, smtp_help, start_tls,
  smtp_quit, pop3_quit, imap_quit, modbus, bacnet, heartbleed, Follows, IsStep, component-Follows,
  Keeps-Follows, skip-IsStep, run-IsStep, when-IsStep, when-IsKeeping, named-IsStep, option-IsStep,
}

both_first : (a b : Bool) → (a && b) ≡ true → a ≡ true
both_first true b h = refl
both_first false b h = h

module _ {S : Type 0} where
  module _ (w : World S) (config : Config) where
    banner_step-IsStep : config.banners ≡ true → IsStep config (banner_step w config)
    unfolding banner_step
    banner_step-IsStep on =
        let (smtp, pop3, imap) = banner-IsKeeping w.mail w.fuel 1024 in
        named-IsStep config "banner" _ (banner on) (
          when-IsKeeping config.smtp _ _ smtp (
            when-IsKeeping config.pop3 _ _ pop3
              (when-IsKeeping config.imap _ _ imap basic_banner-IsKeeping)))

    start_tls_step-IsStep : config.start_tls ≡ true → IsStep config (start_tls_step w config)
    unfolding start_tls_step
    start_tls_step-IsStep on =
        let (smtp, pop3, imap) = start_tls_handshake-IsKeeping w.mail w.fuel w.tls in
        named-IsStep config "starttls" _ (start_tls on)
          (when-IsKeeping config.imap _ _ imap (when-IsKeeping config.pop3 _ _ pop3 smtp))

    quit_step-IsStep : IsStep config (quit_step w config)
    unfolding quit_step
    quit_step-IsStep =
        let (smtp, pop3, imap) = quit-IsKeeping in
        when-IsStep config config.smtp _ _ (λ on. named-IsStep config "quit" _ (smtp_quit on) smtp)
          (when-IsStep config config.pop3 _ _
            (λ on. named-IsStep config "quit" _ (pop3_quit on) pop3)
            (option-IsStep config config.imap "quit" _ imap_quit imap))

    after_ftp-Follows :
        config.ftp ≡ true
        → (c : Conn S) (v : Result (Bool × Option Error) × Conn S × S) → Keeps c v.1
        → Follows config c (after_ftp w config v)
    unfolding after_ftp
    after_ftp-Follows on c (ok (success, some e), d, s) h =
        component-Follows config "ftp" c (err e, d, s) (ftp on) h
    after_ftp-Follows on c (ok (success, none), d, s) h = Keeps-Follows config c d _ h (
        when-IsStep config (config.ftp_auth_tls && success) _ skip
          (λ both.
            named-IsStep config "ftp-authtls" _ (ftp_auth_tls on (both_first _ _ both))
              (get_ftps_certificates-IsKeeping w.ftp_end w.fuel w.tls))
          (skip-IsStep config) d s)
    after_ftp-Follows on c (err e, d, s) h =
        component-Follows config "ftp" c (err e, d, s) (ftp on) h
    after_ftp-Follows on c (panic, d, s) h = record { blames = λ _. tt; stays = h.stays }
    after_ftp-Follows on c (stuck, d, s) h = record { blames = λ _. tt; stays = h.stays }

    ftp_step-IsStep : config.ftp ≡ true → IsStep config (ftp_step w config)
    unfolding ftp_step
    ftp_step-IsStep on c s =
        after_ftp-Follows on c (ftp_banner w.ftp_end w.fuel c s)
          (ftp_banner-Keeps w.ftp_end w.fuel c s)

    send_data-IsStep : config.send_data ≡ true → IsStep config (send_data w config)
    unfolding send_data
    send_data-IsStep on c s =
        run-IsStep config _
          (
            named-IsStep config "write" _ (sent on) (write-IsKeeping _),
            (named-IsStep config "read" _ (received on) (read-IsKeeping 65536), tt),
          )
          c s

    dnp3_banner-IsStep : IsStep {S = S} config dnp3_banner
    unfolding dnp3_banner
    dnp3_banner-IsStep c s = record { blames = λ e. e; stays = λ u. u }

    pub steps-IsStep : All (IsStep config) (steps w config)
    unfolding steps
    steps-IsStep = (
      option-IsStep config config.tls "tls" _ tls (tls_handshake-IsKeeping w.tls),
      (
        when-IsStep config config.banners _ skip banner_step-IsStep (skip-IsStep config),
        (
          when-IsStep config config.ftp _ skip ftp_step-IsStep (skip-IsStep config),
          (
            option-IsStep config config.fox "fox" _ fox fox_banner-IsKeeping,
            (
              option-IsStep config config.telnet "telnet" _ telnet
                  (telnet_banner-IsKeeping w.fuel config.telnet_max_size),
              (
                when-IsStep config config.s7 _ skip
                    (λ on c s.
                      named-IsStep config "s7"
                        (s7_banner w.redial (w.close (get_underlying_conn c))) (s7 on)
                        (s7_banner-IsKeeping w.redial (w.close (get_underlying_conn c))) c s)
                    (skip-IsStep config),
                (
                  when-IsStep config config.dnp3 _ skip (λ on. dnp3_banner-IsStep)
                      (skip-IsStep config),
                  (
                    option-IsStep config config.smb.smb "smb" _ smb
                        (smb_banner-IsKeeping w.asn1 w.close w.fuel),
                    (
                      when-IsStep config config.send_data _ skip send_data-IsStep
                          (skip-IsStep config),
                      (
                        option-IsStep config config.ehlo "ehlo" _ ehlo
                            (send_ehlo-IsKeeping w.mail w.fuel config.ehlo_domain),
                        (
                          option-IsStep config config.smtp_help "smtp_help" _ smtp_help
                              (send_smtp_help-IsKeeping w.mail w.fuel),
                          (
                            when-IsStep config config.start_tls _ skip start_tls_step-IsStep
                                (skip-IsStep config),
                            (
                              quit_step-IsStep,
                              (
                                option-IsStep config config.modbus "modbus" _ modbus
                                    (modbus_echo-IsKeeping w.fuel),
                                (
                                  option-IsStep config config.bacnet "bacnet" _ bacnet
                                      vendor_query-IsKeeping,
                                  (
                                    option-IsStep config config.heartbleed "heartbleed" _ heartbleed
                                        (check_heartbleed-IsKeeping w.tls),
                                    tt,
                                  ),
                                ),
                              ),
                            ),
                          ),
                        ),
                      ),
                    ),
                  ),
                ),
              ),
            ),
          ),
        ),
      ),
    )
