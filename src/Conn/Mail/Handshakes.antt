-- ===== src/Conn/Mail/Handshakes.antt =====
-- When a handshake is begun.
use tls_banner_grab_go.Base.{
  ℕ, ◌≤◌, ◌≡◌, ◌≢◌, ◌⊎◌, refl, true, List, [], ◌∷◌, Option, none, some, ◌++◌, length, take,
  get_elem?, arith, inl, inr,
}
use tls_banner_grab_go.Net.Text.{has_prefix}
use tls_banner_grab_go.Net.{Error, new, Result, ok, err, panic, stuck, NetConn}
use tls_banner_grab_go.Ftp.{Pattern, Reply, read_until_regex}
use tls_banner_grab_go.Ftp.Replies.{IsReply, Fits, read_until_regex-IsReply}
use tls_banner_grab_go.Conn.{
  Conn, Tls, tls_handshake, begin_handshake, net_error, get_underlying_conn,
}
use tls_banner_grab_go.Conn.Mail.{
  MailPatterns, atoi, is_2xx, smtp_verdict, prefix_verdict, pop3_verdict, imap_verdict,
  send_start_tls_command, smtp_start_tls_handshake, pop3_start_tls_handshake,
  imap_start_tls_handshake, log_reply, put_start_tls, judged, after_reply, after_command,
  send_plain, smtp_command, pop3_command, imap_command,
}

-- A reply of SMTP that takes up the offer: at least five bytes, of which the first three are a
-- number from 200 to 299.
abbrev pub IsDigit : Option ℕ → Type 0
IsDigit none = ⊥
IsDigit (some b) = (b'0' ≤ b) × (b ≤ b'9')

pub record AcceptsSmtp (text : List ℕ) : Type 0 where
  pub long : 5 ≤ length text
  pub first : get_elem? text 0 ≡ some b'2'
  pub second : IsDigit (get_elem? text 1)
  pub third : IsDigit (get_elem? text 2)

code-digits :
    (a b c : ℕ)
    → is_2xx (atoi (a ∷ b ∷ c ∷ [])) ≡ true
    → (a ≡ b'2') × (b'0' ≤ b) × (b ≤ b'9') × (b'0' ≤ c) × (c ≤ b'9')
unfolding atoi
code-digits a b c h = ground arith

smtp_verdict-AcceptsSmtp : (text : List ℕ) → smtp_verdict text none ≡ none → AcceptsSmtp text
unfolding smtp_verdict take get_elem?
smtp_verdict-AcceptsSmtp [] h = absurd (ground arith)
smtp_verdict-AcceptsSmtp (a ∷ []) h = absurd (ground arith)
smtp_verdict-AcceptsSmtp (a ∷ b ∷ []) h = absurd (ground arith)
smtp_verdict-AcceptsSmtp (a ∷ b ∷ c ∷ text) h =
    let code : is_2xx (atoi (a ∷ b ∷ c ∷ [])) ≡ true = ground arith in
    let (first, second, second', third, third') = code-digits a b c code in
    record {
      long = ground arith;
      first = rw first;
      second = (second, second');
      third = (third, third');
    }

abbrev pub ok_prefix : List ℕ
ok_prefix = b'a' ∷ b'0' ∷ b'0' ∷ b'1' ∷ b' ' ∷ b'O' ∷ b'K' ∷ []

abbrev pub Begins : List ℕ → List ℕ → Type 0
Begins prefix text = (rest : List ℕ) × (text ≡ prefix ++ rest)

has_prefix-Begins : (text prefix : List ℕ) → has_prefix text prefix ≡ true → Begins prefix text
unfolding has_prefix
has_prefix-Begins text [] h = (text, refl)
has_prefix-Begins [] (p ∷ ps) h = absurd cc
has_prefix-Begins (b ∷ bs) (p ∷ ps) h =
    let (rest, e) = has_prefix-Begins bs ps (ground arith) in
    let same : b ≡ p = ground arith in (rest, rw (same, e))

-- A verdict without an error is on a read without an error, and on a text that `P` holds for.
abbrev Sound : (List ℕ → Option Error → Option Error) → (List ℕ → Type 0) → Type 0
Sound verdict P = (text : List ℕ) (e : Option Error) → verdict text e ≡ none → (e ≡ none) × P text

smtp_verdict-none : (text : List ℕ) (e : Error) → smtp_verdict text (some e) ≢ none
unfolding smtp_verdict
smtp_verdict-none text e h = ground arith

smtp_verdict-Sound : Sound smtp_verdict AcceptsSmtp
smtp_verdict-Sound text none h = (refl, smtp_verdict-AcceptsSmtp text h)
smtp_verdict-Sound text (some e) h = absurd (smtp_verdict-none text e h)

prefix_verdict-Sound : (prefix : List ℕ) → Sound (prefix_verdict prefix) (Begins prefix)
unfolding prefix_verdict
prefix_verdict-Sound prefix text none h = (refl, has_prefix-Begins text prefix (ground arith))
prefix_verdict-Sound prefix text (some e) h = absurd cc

module _ {S : Type 0} where
  -- No handshake is begun, or it is after a reply that the pattern ends and the verdict accepts.
  abbrev pub Upgrades : Pattern → (List ℕ → Type 0) → Result (Unit {0}) × Conn S × S → Type 0
  Upgrades pattern P (r, c, s) =
      (c.tls_conn ≡ none)
      ⊎ ((pattern.matches c.grab_data.start_tls ≡ true) × P c.grab_data.start_tls)

module _ {S : Type 0} (patterns : MailPatterns) (fuel : ℕ) (tls : Tls S) where
  begin_handshake-start_tls :
      (o : Option (NetConn S)) (c : Conn S) (s : S)
      → (begin_handshake tls o c s).1.grab_data.start_tls ≡ c.grab_data.start_tls
  unfolding begin_handshake
  begin_handshake-start_tls none c s = refl
  begin_handshake-start_tls (some t) c s = refl

  -- What the verdict decides, for the log `c` that has the reply.
  judged-Upgrades :
      (pattern : Pattern) (P : List ℕ → Type 0) (o : Option Error) (c : Conn S) (s : S)
      → c.tls_conn ≡ none
      → (o ≡ none → (pattern.matches c.grab_data.start_tls ≡ true) × P c.grab_data.start_tls)
      → Upgrades pattern P (judged patterns fuel tls o c s)
  unfolding judged tls_handshake
  judged-Upgrades pattern P (some e) c s h k = inl h
  judged-Upgrades pattern P none c s h k =
      rw (begin_handshake-start_tls c.tls_conn c s) (inr (k refl))

  verdict-Fits :
      (pattern : Pattern) (size : ℕ) (verdict : List ℕ → Option Error → Option Error)
      (P : List ℕ → Type 0)
      → Sound verdict P
      → (conn : NetConn S) (text : List ℕ) (e : Option Error) → Fits conn pattern size text e
      → verdict text e ≡ none
      → (pattern.matches text ≡ true) × P text
  verdict-Fits pattern size verdict P sound conn text none fits h = (fits.0, (sound text none h).1)
  verdict-Fits pattern size verdict P sound conn text (some e) fits h =
      absurd (let no = (sound text (some e) h).0 in cc)

  after_reply-Upgrades :
      (pattern : Pattern) (size : ℕ) (verdict : List ℕ → Option Error → Option Error)
      (P : List ℕ → Type 0)
      → Sound verdict P
      → (conn : NetConn S) (c : Conn S) (r : Result Reply) (s : S) → c.tls_conn ≡ none
      → IsReply conn pattern size r
      → Upgrades pattern P (after_reply patterns fuel tls verdict c (r, s))
  unfolding after_reply
  after_reply-Upgrades pattern size verdict P sound conn c (ok v) s h reply =
      judged-Upgrades pattern P (verdict v.text v.error) (log_reply put_start_tls v.text c) s h
        (verdict-Fits pattern size verdict P sound conn v.text v.error reply)
  after_reply-Upgrades pattern size verdict P sound conn c (err e) s h reply = elim reply [ ]
  after_reply-Upgrades pattern size verdict P sound conn c panic s h reply = elim reply [ ]
  after_reply-Upgrades pattern size verdict P sound conn c stuck s h reply = inl h

  after_command-Upgrades :
      (pattern : Pattern) (size : ℕ) (verdict : List ℕ → Option Error → Option Error)
      (P : List ℕ → Type 0)
      → Sound verdict P
      → (e : Result (Unit {0})) (c : Conn S) (s : S) → c.tls_conn ≡ none
      → Upgrades pattern P (after_command patterns fuel tls pattern size verdict (e, c, s))
  unfolding after_command
  after_command-Upgrades pattern size verdict P sound (ok u) c s h =
      let (r, s') = read_until_regex (get_underlying_conn c) pattern fuel size [] s in
      after_reply-Upgrades pattern size verdict P sound (get_underlying_conn c) c r s' h
        (read_until_regex-IsReply (get_underlying_conn c) pattern fuel size [] s (omega arith))
  after_command-Upgrades pattern size verdict P sound (err e) c s h = inl h
  after_command-Upgrades pattern size verdict P sound panic c s h = inl h
  after_command-Upgrades pattern size verdict P sound stuck c s h = inl h

  send_plain-Upgrades :
      (pattern : Pattern) (size : ℕ) (verdict : List ℕ → Option Error → Option Error)
      (P : List ℕ → Type 0)
      → Sound verdict P
      → (command : List ℕ) (o : Option (NetConn S)) (c : Conn S) (s : S) → c.tls_conn ≡ none
      → o ≡ none
      → Upgrades pattern P
          (after_command patterns fuel tls pattern size verdict (send_plain o command c s))
  unfolding send_plain
  send_plain-Upgrades pattern size verdict P sound command none c s h k =
      after_command-Upgrades pattern size verdict P sound
        (net_error (c.conn.write command s).0.error) c (c.conn.write command s).1 h
  send_plain-Upgrades pattern size verdict P sound command (some t) c s h k = absurd cc

  -- From a connection without TLS, STARTTLS leaves it without TLS, or the reply that is logged
  -- matches the end pattern and takes up the offer: for SMTP it has at least five bytes, of which
  -- the first is a 2 and the next two are digits, for POP3 it begins with +, and for IMAP with
  -- a001 OK.
  pub start_tls_handshake-Upgrades :
      (c : Conn S) (s : S)
      → c.tls_conn ≡ none
      → Upgrades patterns.smtp AcceptsSmtp (smtp_start_tls_handshake patterns fuel tls c s)
        × Upgrades patterns.pop3
            (Begins (b'+' ∷ []))
            (pop3_start_tls_handshake patterns fuel tls c s)
        × Upgrades patterns.imap (Begins ok_prefix) (imap_start_tls_handshake patterns fuel tls c s)
  unfolding smtp_start_tls_handshake pop3_start_tls_handshake imap_start_tls_handshake
      send_start_tls_command
  start_tls_handshake-Upgrades c s h = (
    send_plain-Upgrades patterns.smtp 256 smtp_verdict AcceptsSmtp smtp_verdict-Sound smtp_command
        c.tls_conn c s h h,
    send_plain-Upgrades patterns.pop3 512 pop3_verdict (Begins (b'+' ∷ []))
        (prefix_verdict-Sound (b'+' ∷ [])) pop3_command c.tls_conn c s h h,
    send_plain-Upgrades patterns.imap 512 imap_verdict (Begins ok_prefix)
        (prefix_verdict-Sound ok_prefix) imap_command c.tls_conn c s h h,
  )

  -- The two refusals, for the connection's `tls_conn`.
  repeated :
      (o : Option (NetConn S)) (t : NetConn S) (c : Conn S) (s : S)
      → o ≡ some t
      → begin_handshake tls o c s ≡ (err (new "Attempted repeat handshake with remote host"), c, s)
  unfolding begin_handshake
  repeated none t c s h = absurd cc
  repeated (some u) t c s h = refl

  refused :
      (command : List ℕ) (pattern : Pattern) (size : ℕ)
      (verdict : List ℕ → Option Error → Option Error) (o : Option (NetConn S)) (t : NetConn S)
      (c : Conn S) (s : S)
      → o ≡ some t
      → after_command patterns fuel tls pattern size verdict (send_plain o command c s)
        ≡ (err (new "Attempt STARTTLS after TLS handshake with remote host"), c, s)
  unfolding send_plain after_command
  refused command pattern size verdict none t c s h = absurd cc
  refused command pattern size verdict (some u) t c s h = refl

  -- On a connection with TLS a second handshake and the three forms of STARTTLS return their
  -- errors, and nothing is sent or changed.
  pub tls_handshake-repeated :
      (t : NetConn S) (c : Conn S) (s : S)
      → c.tls_conn ≡ some t
      → (tls_handshake tls c s ≡ (err (new "Attempted repeat handshake with remote host"), c, s))
        × (smtp_start_tls_handshake patterns fuel tls c s
            ≡ (err (new "Attempt STARTTLS after TLS handshake with remote host"), c, s))
        × (pop3_start_tls_handshake patterns fuel tls c s
            ≡ (err (new "Attempt STARTTLS after TLS handshake with remote host"), c, s))
        × (imap_start_tls_handshake patterns fuel tls c s
            ≡ (err (new "Attempt STARTTLS after TLS handshake with remote host"), c, s))
  unfolding tls_handshake smtp_start_tls_handshake pop3_start_tls_handshake imap_start_tls_handshake
      send_start_tls_command
  tls_handshake-repeated t c s h = (
    repeated c.tls_conn t c s h,
    refused smtp_command patterns.smtp 256 smtp_verdict c.tls_conn t c s h,
    refused pop3_command patterns.pop3 512 pop3_verdict c.tls_conn t c s h,
    refused imap_command patterns.imap 512 imap_verdict c.tls_conn t c s h,
  )
