-- ===== src/Conn/Mail/Keeps.antt =====
-- What the operations of SMTP, POP3 and IMAP leave of a connection.
use tls_banner_grab_go.Base.{
  ℕ, ◌≡◌, refl, inl, inr, Option-cases, ◌++◌, ◌∷◌, List, [], Option, none, some,
}
use tls_banner_grab_go.Net.{Error, Result, ok, err, panic, stuck, NetConn}
use tls_banner_grab_go.Ftp.{Pattern, Reply, read_until_regex}
use tls_banner_grab_go.Conn.{Conn, Tls, GrabData, get_underlying_conn}
use tls_banner_grab_go.Conn.Keeps.{
  IsUpgraded, Keeps, IsKeeping, Keeps-refl, Keeps-trans, Upgrades, tls_handshake-IsKeeping,
  tls_handshake-Upgrades,
}
use tls_banner_grab_go.Conn.Mail.{
  MailPatterns, Put, put_banner, put_ehlo, put_smtp_help, put_start_tls, log_reply, record_reply,
  read_response, send, send_plain, send_start_tls_command, smtp_banner, pop3_banner, imap_banner,
  send_ehlo, send_smtp_help, judged, after_reply, after_command, smtp_start_tls_handshake,
  pop3_start_tls_handshake, imap_start_tls_handshake, smtp_quit, pop3_quit, imap_quit, smtp_command,
  pop3_command, imap_command, smtp_verdict, pop3_verdict, imap_verdict,
}

-- A field of the log that is not the handshake's.
abbrev Plain : Put → Type 0
Plain put = (text : List ℕ) (g : GrabData) → (put text g).tls_handshake ≡ g.tls_handshake

module _ {S : Type 0} where
  log_reply-Keeps :
      (put : Put) (text : List ℕ) (c : Conn S) → Plain put → Keeps c (log_reply put text c)
  log_reply-Keeps put text c h = record {
    component = refl;
    stays = λ u. (u.0, rw (h text c.grab_data) u.1);
  }

  record_reply-Keeps :
      (put : Put) (c : Conn S) (v : Result Reply × S) → Plain put → Keeps c (record_reply put c v).1
  unfolding record_reply
  record_reply-Keeps put c (ok v, s) h = log_reply-Keeps put v.text c h
  record_reply-Keeps put c (err e, s) h = Keeps-refl c
  record_reply-Keeps put c (panic, s) h = Keeps-refl c
  record_reply-Keeps put c (stuck, s) h = Keeps-refl c

  send_plain-Keeps :
      (o : Option (NetConn S)) (command : List ℕ) (c : Conn S) (s : S)
      → Keeps c (send_plain o command c s).1
  unfolding send_plain
  send_plain-Keeps none command c s = Keeps-refl c
  send_plain-Keeps (some t) command c s = Keeps-refl c

  pub quit-IsKeeping :
      IsKeeping (smtp_quit {S = S}) × IsKeeping (pop3_quit {S = S}) × IsKeeping (imap_quit {S = S})
  unfolding smtp_quit pop3_quit imap_quit send
  quit-IsKeeping = (λ c s. Keeps-refl c, λ c s. Keeps-refl c, λ c s. Keeps-refl c)

  module _ (patterns : MailPatterns) (fuel : ℕ) where
    read_response-IsKeeping :
        (pattern : Pattern) (put : Put) (size : ℕ)
        → Plain put
        → IsKeeping {S = S} (read_response patterns fuel pattern put size)
    unfolding read_response
    read_response-IsKeeping pattern put size h c s =
        record_reply-Keeps put c (read_until_regex (get_underlying_conn c) pattern fuel size [] s) h

    pub banner-IsKeeping :
        (size : ℕ)
        → IsKeeping {S = S} (smtp_banner patterns fuel size)
          × IsKeeping {S = S} (pop3_banner patterns fuel size)
          × IsKeeping {S = S} (imap_banner patterns fuel size)
    unfolding smtp_banner pop3_banner imap_banner
    banner-IsKeeping size = (
      read_response-IsKeeping patterns.smtp put_banner size (λ text g. refl),
      read_response-IsKeeping patterns.pop3 put_banner size (λ text g. refl),
      read_response-IsKeeping patterns.imap put_banner size (λ text g. refl),
    )

    pub send_ehlo-IsKeeping : (domain : List ℕ) → IsKeeping {S = S} (send_ehlo patterns fuel domain)
    unfolding send_ehlo
    send_ehlo-IsKeeping domain c s =
        let sent =
          (get_underlying_conn c).write
            (b'E' ∷ b'H' ∷ b'L' ∷ b'O' ∷ b' ' ∷ (domain ++ (13 ∷ 10 ∷ []))) s in
        elim (Option-cases sent.0.error) [
          | inl e ↦
              rw (send_ehlo, e)
                (read_response-IsKeeping patterns.smtp put_ehlo 512 (λ text g. refl) c sent.1)
          | inr (x, e) ↦ rw (send_ehlo, e) (Keeps-refl c)
        ]

    pub send_smtp_help-IsKeeping : IsKeeping {S = S} (send_smtp_help patterns fuel)
    unfolding send_smtp_help
    send_smtp_help-IsKeeping c s =
        let sent = (get_underlying_conn c).write (b'H' ∷ b'E' ∷ b'L' ∷ b'P' ∷ 13 ∷ 10 ∷ []) s in
        elim (Option-cases sent.0.error) [
          | inl e ↦
              rw (send_smtp_help, e)
                (read_response-IsKeeping patterns.smtp put_smtp_help 512 (λ text g. refl) c sent.1)
          | inr (x, e) ↦
              rw (send_smtp_help, e) (log_reply-Keeps put_smtp_help [] c (λ text g. refl))
        ]

    module _ (tls : Tls S) where
      judged-Keeps :
          (o : Option Error) (c : Conn S) (s : S) → Keeps c (judged patterns fuel tls o c s).1
      unfolding judged
      judged-Keeps none c s = tls_handshake-IsKeeping tls c s
      judged-Keeps (some e) c s = Keeps-refl c

      judged-Upgrades :
          (o : Option Error) (c : Conn S) (s : S)
          → (judged patterns fuel tls o c s).0 ≡ ok tt
          → IsUpgraded (judged patterns fuel tls o c s).1
      unfolding judged
      judged-Upgrades none c s h = tls_handshake-Upgrades tls c s h
      judged-Upgrades (some e) c s h = absurd cc

      abbrev Verdict : Type 0
      Verdict = List ℕ → Option Error → Option Error

      after_reply-Keeps :
          (verdict : Verdict) (c : Conn S) (v : Result Reply × S)
          → Keeps c (after_reply patterns fuel tls verdict c v).1
      unfolding after_reply
      after_reply-Keeps verdict c (ok v, s) =
          Keeps-trans c (log_reply put_start_tls v.text c)
            (judged patterns fuel tls (verdict v.text v.error) (log_reply put_start_tls v.text c)
              s).1
            (log_reply-Keeps put_start_tls v.text c (λ text g. refl))
            (judged-Keeps (verdict v.text v.error) (log_reply put_start_tls v.text c) s)
      after_reply-Keeps verdict c (err e, s) = Keeps-refl c
      after_reply-Keeps verdict c (panic, s) = Keeps-refl c
      after_reply-Keeps verdict c (stuck, s) = Keeps-refl c

      after_reply-Upgrades :
          (verdict : Verdict) (c : Conn S) (v : Result Reply × S)
          → (after_reply patterns fuel tls verdict c v).0 ≡ ok tt
          → IsUpgraded (after_reply patterns fuel tls verdict c v).1
      unfolding after_reply
      after_reply-Upgrades verdict c (ok v, s) h =
          judged-Upgrades (verdict v.text v.error) (log_reply put_start_tls v.text c) s h
      after_reply-Upgrades verdict c (err e, s) h = absurd cc
      after_reply-Upgrades verdict c (panic, s) h = absurd cc
      after_reply-Upgrades verdict c (stuck, s) h = absurd cc

      after_command-Keeps :
          (pattern : Pattern) (size : ℕ) (verdict : Verdict) (v : Result (Unit {0}) × Conn S × S)
          → Keeps v.1 (after_command patterns fuel tls pattern size verdict v).1
      unfolding after_command
      after_command-Keeps pattern size verdict (ok u, c, s) =
          after_reply-Keeps verdict c
            (read_until_regex (get_underlying_conn c) pattern fuel size [] s)
      after_command-Keeps pattern size verdict (err e, c, s) = Keeps-refl c
      after_command-Keeps pattern size verdict (panic, c, s) = Keeps-refl c
      after_command-Keeps pattern size verdict (stuck, c, s) = Keeps-refl c

      after_command-Upgrades :
          (pattern : Pattern) (size : ℕ) (verdict : Verdict) (v : Result (Unit {0}) × Conn S × S)
          → (after_command patterns fuel tls pattern size verdict v).0 ≡ ok tt
          → IsUpgraded (after_command patterns fuel tls pattern size verdict v).1
      unfolding after_command
      after_command-Upgrades pattern size verdict (ok u, c, s) h =
          after_reply-Upgrades verdict c
            (read_until_regex (get_underlying_conn c) pattern fuel size [] s) h
      after_command-Upgrades pattern size verdict (err e, c, s) h = absurd cc
      after_command-Upgrades pattern size verdict (panic, c, s) h = absurd cc
      after_command-Upgrades pattern size verdict (stuck, c, s) h = absurd cc

      started-Keeps :
          (pattern : Pattern) (size : ℕ) (verdict : Verdict) (command : List ℕ) (c : Conn S) (s : S)
          → Keeps c
              (after_command patterns fuel tls pattern size verdict
                (send_start_tls_command command c s)).1
      unfolding send_start_tls_command
      started-Keeps pattern size verdict command c s =
          let v = send_plain c.tls_conn command c s in
          Keeps-trans c v.1 (after_command patterns fuel tls pattern size verdict v).1
            (send_plain-Keeps c.tls_conn command c s) (after_command-Keeps pattern size verdict v)

      pub start_tls_handshake-IsKeeping :
          IsKeeping {S = S} (smtp_start_tls_handshake patterns fuel tls)
          × IsKeeping {S = S} (pop3_start_tls_handshake patterns fuel tls)
          × IsKeeping {S = S} (imap_start_tls_handshake patterns fuel tls)
      unfolding smtp_start_tls_handshake pop3_start_tls_handshake imap_start_tls_handshake
      start_tls_handshake-IsKeeping = (
        started-Keeps patterns.smtp 256 smtp_verdict smtp_command,
        started-Keeps patterns.pop3 512 pop3_verdict pop3_command,
        started-Keeps patterns.imap 512 imap_verdict imap_command,
      )

      pub start_tls-Upgrades :
          Upgrades tls (smtp_start_tls_handshake patterns fuel tls)
          × Upgrades tls (pop3_start_tls_handshake patterns fuel tls)
          × Upgrades tls (imap_start_tls_handshake patterns fuel tls)
      unfolding smtp_start_tls_handshake pop3_start_tls_handshake imap_start_tls_handshake
      start_tls-Upgrades = (
        λ c s.
            after_command-Upgrades patterns.smtp 256 smtp_verdict
              (send_start_tls_command smtp_command c s),
        λ c s.
            after_command-Upgrades patterns.pop3 512 pop3_verdict
              (send_start_tls_command pop3_command c s),
        λ c s.
            after_command-Upgrades patterns.imap 512 imap_verdict
              (send_start_tls_command imap_command c s),
      )
