-- ===== src/Conn/Mail.antt =====
-- SMTP, POP3 and IMAP of zlib/conn.go: banners, greetings, farewells and STARTTLS.
pub mod Handshakes
pub mod Keeps
use tls_banner_grab_go.Base.{
  ℕ, zero, suc, ◌+◌, ◌*◌, ◌-◌, Bool, true, false, not, ◌&&◌, ◌||◌, List, [], ◌∷◌, ◌++◌, Option,
  none, some, length, take, ltb, leb, ◌==◌, if◌then◌else◌,
}
use tls_banner_grab_go.Base.Int.{ℤ, pos, negsuc}
use tls_banner_grab_go.Net.{Error, net, new, Result, ok, err, panic, stuck, NetConn, WriteResult}
use tls_banner_grab_go.Net.Text.{has_prefix}
use tls_banner_grab_go.Ftp.{Pattern, Reply, read_until_regex}
use tls_banner_grab_go.Conn.{
  Conn, GrabData, Op, Tls, of_error, get_underlying_conn, of_error, net_error, tls_handshake,
}

-- `smtpEndRegex`, `pop3EndRegex` and `imapStatusEndRegex`
pub record MailPatterns : Type 0 where
  pub smtp : Pattern
  pub pop3 : Pattern
  pub imap : Pattern

abbrev crlf : List ℕ
crlf = 13 ∷ 10 ∷ []

abbrev pub smtp_command : List ℕ
smtp_command = b'S' ∷ b'T' ∷ b'A' ∷ b'R' ∷ b'T' ∷ b'T' ∷ b'L' ∷ b'S' ∷ crlf

abbrev pub pop3_command : List ℕ
pop3_command = b'S' ∷ b'T' ∷ b'L' ∷ b'S' ∷ crlf

abbrev imap_tag : List ℕ
imap_tag = b'a' ∷ b'0' ∷ b'0' ∷ b'1' ∷ b' ' ∷ []

abbrev pub imap_command : List ℕ
imap_command = imap_tag ++ smtp_command

abbrev is_digit : ℕ → Bool
is_digit b = leb b'0' b && leb b b'9'

-- `strconv.Atoi`: a sign or none, and at least one digit.
digits : ℕ → List ℕ → Option ℕ
digits value [] = some value
digits value (b ∷ bs) =
    let rest = digits (value * 10 + (b - b'0')) bs in if is_digit b then rest else none

abbrev digits_of : List ℕ → Option ℕ
digits_of [] = none
digits_of (b ∷ bs) = digits 0 (b ∷ bs)

abbrev negate : ℕ → ℤ
negate zero = pos zero
negate (suc n) = negsuc n

unfoldable pub atoi : List ℕ → Option ℤ
unfolding digits
atoi [] = none
atoi (b ∷ bs) =
    if b == b'-'
    then elim (digits_of bs) [ none ↦ none | some n ↦ some (negate n) ]
    else if b == b'+'
    then elim (digits_of bs) [ none ↦ none | some n ↦ some (pos n) ]
    else elim (digits_of (b ∷ bs)) [ none ↦ none | some n ↦ some (pos n) ]

-- A return code that is a number in the 200s.
abbrev pub is_2xx : Option ℤ → Bool
is_2xx none = false
is_2xx (some (pos n)) = leb 200 n && ltb n 300
is_2xx (some (negsuc n)) = false

-- The verdict on the reply to STARTTLS, with the error of the read.
abbrev no_support : Error
no_support = new "Server did not indicate support for STARTTLS"

unfoldable pub smtp_verdict : List ℕ → Option Error → Option Error
smtp_verdict text e = if ltb (length text) 5 then some no_support else elim e [
  | some x ↦ some x
  | none ↦ if is_2xx (atoi (take 3 text)) then none else some (new "Bad return code for STARTTLS")
]

unfoldable pub prefix_verdict : List ℕ → List ℕ → Option Error → Option Error
prefix_verdict prefix text e = elim e [
  | some x ↦ some x
  | none ↦ if has_prefix text prefix then none else some no_support
]

abbrev pub pop3_verdict : List ℕ → Option Error → Option Error
pop3_verdict = prefix_verdict (b'+' ∷ [])

abbrev pub imap_verdict : List ℕ → Option Error → Option Error
imap_verdict = prefix_verdict (imap_tag ++ (b'O' ∷ b'K' ∷ []))

-- A field of the log that takes a reply.
abbrev pub Put : Type 0
Put = List ℕ → GrabData → GrabData

abbrev put_banner : Put
put_banner text g = record g { banner = text }

abbrev put_ehlo : Put
put_ehlo text g = record g { ehlo = text }

abbrev put_smtp_help : Put
put_smtp_help text g = record g { smtp_help = some text }

abbrev put_start_tls : Put
put_start_tls text g = record g { start_tls = text }

module _ {S : Type 0} where
  abbrev log_reply : Put → List ℕ → Conn S → Conn S
  log_reply put text c = record c { grab_data = put text c.grab_data }

  -- A reply is logged, and its error returned.
  record_reply : Put → Conn S → Result Reply × S → Result (Unit {0}) × Conn S × S
  record_reply put c (ok v, s) = (of_error v.error, log_reply put v.text c, s)
  record_reply put c (err e, s) = (err e, c, s)
  record_reply put c (panic, s) = (panic, c, s)
  record_reply put c (stuck, s) = (stuck, c, s)

  send : List ℕ → Op S
  send bytes c s = let (r, s') = (get_underlying_conn c).write bytes s in (net_error r.error, c, s')

  -- `sendStartTLSCommand`, for the connection's `tls_conn`: don't doublehandshake
  send_plain : Option (NetConn S) → List ℕ → Op S
  send_plain (some t) command c s =
      (err (new "Attempt STARTTLS after TLS handshake with remote host"), c, s)
  send_plain none command c s = let (r, s') = c.conn.write command s in (net_error r.error, c, s')

  unfoldable pub send_start_tls_command : List ℕ → Op S
  unfolding send_plain
  send_start_tls_command command c s = send_plain c.tls_conn command c s

  -- `SMTPQuit`, `POP3Quit` and `IMAPQuit`
  unfoldable pub smtp_quit : Op S
  unfolding send
  smtp_quit = send (b'Q' ∷ b'U' ∷ b'I' ∷ b'T' ∷ crlf)

  unfoldable pub pop3_quit : Op S
  unfolding send
  pop3_quit = send (b'Q' ∷ b'U' ∷ b'I' ∷ b'T' ∷ crlf)

  unfoldable pub imap_quit : Op S
  unfolding send
  imap_quit = send (imap_tag ++ (b'C' ∷ b'L' ∷ b'O' ∷ b'S' ∷ b'E' ∷ crlf))

  -- The fuel is for the reads of one reply.
  module _ (patterns : MailPatterns) (fuel : ℕ) where
    read_response : Pattern → Put → ℕ → Op S
    unfolding record_reply
    read_response pattern put size c s =
        record_reply put c (read_until_regex (get_underlying_conn c) pattern fuel size [] s)

    unfoldable pub smtp_banner : ℕ → Op S
    unfolding read_response
    smtp_banner = read_response patterns.smtp put_banner

    unfoldable pub pop3_banner : ℕ → Op S
    unfolding read_response
    pop3_banner = read_response patterns.pop3 put_banner

    unfoldable pub imap_banner : ℕ → Op S
    unfolding read_response
    imap_banner = read_response patterns.imap put_banner

    -- `EHLO`
    unfoldable pub send_ehlo : List ℕ → Op S
    unfolding read_response
    send_ehlo domain c s =
        let (r, s') =
          (get_underlying_conn c).write (b'E' ∷ b'H' ∷ b'L' ∷ b'O' ∷ b' ' ∷ (domain ++ crlf)) s in
        elim r.error [
          | some e ↦ (err (net e), c, s')
          | none ↦ read_response patterns.smtp put_ehlo 512 c s'
        ]

    -- `SMTPHelp`
    unfoldable pub send_smtp_help : Op S
    unfolding read_response
    send_smtp_help c s =
        let (r, s') = (get_underlying_conn c).write (b'H' ∷ b'E' ∷ b'L' ∷ b'P' ∷ crlf) s in
        elim r.error [
          | some e ↦ (err (net e), log_reply put_smtp_help [] c, s')
          | none ↦ read_response patterns.smtp put_smtp_help 512 c s'
        ]

    module _ (tls : Tls S) where
      -- The handshake, where the verdict on the reply is no error.
      judged : Option Error → Op S
      judged (some e) c s = (err e, c, s)
      judged none c s = tls_handshake tls c s

      -- The reply to STARTTLS
      after_reply :
          (List ℕ → Option Error → Option Error)
          → Conn S
          → Result Reply × S
          → Result (Unit {0}) × Conn S × S
      unfolding judged
      after_reply verdict c (ok v, s) =
          judged (verdict v.text v.error) (log_reply put_start_tls v.text c) s
      after_reply verdict c (err e, s) = (err e, c, s)
      after_reply verdict c (panic, s) = (panic, c, s)
      after_reply verdict c (stuck, s) = (stuck, c, s)

      after_command :
          Pattern
          → ℕ
          → (List ℕ → Option Error → Option Error)
          → Result (Unit {0}) × Conn S × S
          → Result (Unit {0}) × Conn S × S
      unfolding after_reply
      after_command pattern size verdict (ok u, c, s) =
          after_reply verdict c (read_until_regex (get_underlying_conn c) pattern fuel size [] s)
      after_command pattern size verdict (err e, c, s) = (err e, c, s)
      after_command pattern size verdict (panic, c, s) = (panic, c, s)
      after_command pattern size verdict (stuck, c, s) = (stuck, c, s)

      -- `SMTPStartTLSHandshake`, `POP3StartTLSHandshake` and `IMAPStartTLSHandshake`
      unfoldable pub smtp_start_tls_handshake : Op S
      unfolding after_command
      smtp_start_tls_handshake c s =
          after_command patterns.smtp 256 smtp_verdict (send_start_tls_command smtp_command c s)

      unfoldable pub pop3_start_tls_handshake : Op S
      unfolding after_command
      pop3_start_tls_handshake c s =
          after_command patterns.pop3 512 pop3_verdict (send_start_tls_command pop3_command c s)

      unfoldable pub imap_start_tls_handshake : Op S
      unfolding after_command
      imap_start_tls_handshake c s =
          after_command patterns.imap 512 imap_verdict (send_start_tls_command imap_command c s)
