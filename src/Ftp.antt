-- ===== src/Ftp.antt =====
-- ztools/ftp and `ReadUntilRegex` of ztools/util: replies that end where a pattern matches. The
-- engine of regular expressions is a parameter.
pub mod Replies
pub mod Upgrade
pub mod Line
mod Tests
use tls_banner_grab_go.Base.{
  ℕ, zero, suc, ◌-◌, ◌≡◌, Bool, true, false, List, [], ◌∷◌, ◌++◌, Option, none, some, length, ◌==◌,
  if◌then◌else◌,
}
use tls_banner_grab_go.Net.{
  Error, net, new, Result, ok, err, panic, stuck, ◌>>=◌, NetConn, ReadResult, WriteResult,
}

-- A compiled expression: `Match`, and the first group of `FindStringSubmatch`, where `none` is its
-- nil. The law is what `regexp` says of the two.
pub record Pattern : Type 0 where
  pub matches : List ℕ → Bool
  pub submatch : List ℕ → Option (List ℕ)
  pub matches-submatch :
      (text : List ℕ) → matches text ≡ true → (group : List ℕ) × (submatch text ≡ some group)

-- The bytes in the buffer and the error.
pub record Reply : Type 0 where
  pub text : List ℕ
  pub error : Option Error

-- log.go
pub record FtpLog : Type 0 where
  pub banner : List ℕ
  pub auth_tls_resp : List ℕ
  pub auth_ssl_resp : List ℕ

abbrev buffer_length : ℕ
buffer_length = 1024

-- `strings.HasPrefix(retCode, "2")`
abbrev pub has_prefix_2 : List ℕ → Bool
has_prefix_2 [] = false
has_prefix_2 (b ∷ bs) = b == b'2'

-- `FindStringSubmatch(text)[1]`, and whether it is a success.
pub ret_code_ok : Pattern → List ℕ → Result Bool
ret_code_ok pattern text = elim (pattern.submatch text) [
  | none ↦ panic
  | some code ↦ ok (has_prefix_2 code)
]

module _ {S : Type 0} (conn : NetConn S) (pattern : Pattern) where
  -- The loop of `ReadUntilRegex` with the text read so far, for a buffer of `size` bytes; a match
  -- that fills the buffer is an error. The fuel bounds the reads.
  pub read_until_regex : ℕ → ℕ → List ℕ → S → Result Reply × S
  read_until_regex zero size text s = (stuck, s)
  read_until_regex (suc fuel) size text s =
      let (r, s') = conn.read (size - length text) s in
      let now = text ++ r.bytes in
      let more = read_until_regex fuel size now s' in
      elim r.error [
        | some e ↦ (ok (record { text = now; error = some (net e) }), s')
        | none ↦
            if length now == size
            then (ok (record { text = now; error = some (new "Not enough buffer space") }), s')
            else if pattern.matches now
            then (ok (record { text = now; error = none }), s')
            else more
      ]

  abbrev judge : List ℕ → FtpLog → S → Result (Bool × Option Error) × FtpLog × S
  judge text log s = (ret_code_ok pattern text >>= λ success. ok (success, none), log, s)

  banner_reply : FtpLog → Result Reply × S → Result (Bool × Option Error) × FtpLog × S
  unfolding ret_code_ok
  banner_reply log (ok v, s) =
      let log' = record log { banner = v.text } in
      elim v.error [ some e ↦ (ok (false, some e), log', s) | none ↦ judge v.text log' s ]
  banner_reply log (err e, s) = (err e, log, s)
  banner_reply log (panic, s) = (panic, log, s)
  banner_reply log (stuck, s) = (stuck, log, s)

  -- `GetFTPBanner`
  pub get_ftp_banner : ℕ → FtpLog → S → Result (Bool × Option Error) × FtpLog × S
  unfolding banner_reply
  get_ftp_banner fuel log s = banner_reply log (read_until_regex fuel buffer_length [] s)

  auth_reply :
      (List ℕ → FtpLog → FtpLog)
      → FtpLog
      → Result Reply × S
      → Result (Bool × Option Error) × FtpLog × S
  unfolding ret_code_ok
  auth_reply put log (ok v, s) = elim v.error [
    | some e ↦ (ok (false, some e), log, s)
    | none ↦ judge v.text (put v.text log) s
  ]
  auth_reply put log (err e, s) = (err e, log, s)
  auth_reply put log (panic, s) = (panic, log, s)
  auth_reply put log (stuck, s) = (stuck, log, s)

  abbrev auth_tls : List ℕ
  auth_tls = b'A' ∷ b'U' ∷ b'T' ∷ b'H' ∷ b' ' ∷ b'T' ∷ b'L' ∷ b'S' ∷ 13 ∷ 10 ∷ []

  abbrev auth_ssl : List ℕ
  auth_ssl = b'A' ∷ b'U' ∷ b'T' ∷ b'H' ∷ b' ' ∷ b'S' ∷ b'S' ∷ b'L' ∷ 13 ∷ 10 ∷ []

  abbrev put_tls : List ℕ → FtpLog → FtpLog
  put_tls text log = record log { auth_tls_resp = text }

  abbrev put_ssl : List ℕ → FtpLog → FtpLog
  put_ssl text log = record log { auth_ssl_resp = text }

  -- The second attempt, where the first was answered and refused.
  after_tls :
      ℕ → Result (Bool × Option Error) × FtpLog × S → Result (Bool × Option Error) × FtpLog × S
  unfolding auth_reply
  after_tls fuel (ok (false, none), log, s) =
      auth_reply put_ssl log (read_until_regex fuel buffer_length [] (conn.write auth_ssl s).1)
  after_tls fuel (ok (false, some e), log, s) = (ok (false, some e), log, s)
  after_tls fuel (ok (true, e), log, s) = (ok (true, e), log, s)
  after_tls fuel (err e, log, s) = (err e, log, s)
  after_tls fuel (panic, log, s) = (panic, log, s)
  after_tls fuel (stuck, log, s) = (stuck, log, s)

  -- `SetupFTPS`; the errors of the writes are dropped.
  pub setup_ftps : ℕ → FtpLog → S → Result (Bool × Option Error) × FtpLog × S
  unfolding after_tls
  setup_ftps fuel log s =
      after_tls fuel
        (auth_reply put_tls log (read_until_regex fuel buffer_length [] (conn.write auth_tls s).1))
