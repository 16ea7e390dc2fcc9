-- ===== src/Smb/Session.antt =====
-- ztools/smb/session.go: the exchange of the probe, and what becomes of its answer.
use tls_banner_grab_go.Base.{
  ℕ, ◌+◌, ◌*◌, ◌/◌, ◌%◌, Bool, true, List, [], ◌∷◌, ◌++◌, length, ltb, ◌==◌, if◌then◌else◌,
}
use tls_banner_grab_go.Net.{new, Result, ok, err, panic, stuck, NetConn}
use tls_banner_grab_go.Net.Buffered.{Reader, new_reader, read_full}
use tls_banner_grab_go.Net.Text.{has_prefix}
use tls_banner_grab_go.Smb.Encoder.{
  Asn1, Fields, Read, new_metadata, marshal_fields, unmarshal_fields,
}
use tls_banner_grab_go.Smb.Messages.{
  protocol_smb, status_ok, new_negotiate_req, new_negotiate_res, header_status,
}

-- `SMBLog` of log.go.
pub record SmbLog : Type 0 where
  pub support_v1 : Bool

-- `Session`, as far as the code reads it: its `messageID`.
pub record Session : Type 0 where
  pub message_id : ℕ

-- Big endian, 32 bits.
abbrev pub put_uint32 : ℕ → List ℕ
put_uint32 n = (n / 16777216 % 256) ∷ (n / 65536 % 256) ∷ (n / 256 % 256) ∷ (n % 256) ∷ []

unfoldable pub get_be : ℕ → List ℕ → ℕ
get_be n [] = n
get_be n (b ∷ bs) = get_be (n * 256 + b) bs

abbrev pub max_message : ℕ
max_message = 0x00ffffff

abbrev uint64_limit : ℕ
uint64_limit = 18446744073709551616

-- What `send` ends with.
abbrev pub Sent : Type 0 → Type 0
Sent S = Result (List ℕ) × SmbLog × Session × S

module _ {S : Type 0} where
  unfoldable pub after_data : Result (List ℕ) × Reader × S → Result (List ℕ) × S
  after_data (ok message, reader, s) =
      if ltb (length message) 4 then (err (new "message size invalid"), s) else (ok message, s)
  after_data (err e, reader, s) = (err e, s)
  after_data (panic, reader, s) = (panic, s)
  after_data (stuck, reader, s) = (stuck, s)

  -- The test of the first four bytes.
  unfoldable pub check_protocol : SmbLog → Session → Result (List ℕ) × S → Sent S
  check_protocol log session (ok message, s) =
      if has_prefix message protocol_smb
      then (
        ok message,
        record log { support_v1 = true },
        record session { message_id = (session.message_id + 1) % uint64_limit },
        s,
      )
      else (err (new "protocol not implemented"), log, session, s)
  check_protocol log session (err e, s) = (err e, log, session, s)
  check_protocol log session (panic, s) = (panic, log, session, s)
  check_protocol log session (stuck, s) = (stuck, log, session, s)

module _ {S : Type 0} (conn : NetConn S) (fuel : ℕ) where
  unfoldable pub after_size : Result (List ℕ) × Reader × S → Result (List ℕ) × S
  after_size (ok bs, reader, s) =
      if ltb max_message (get_be 0 bs)
      then (err (new "invalid NetBIOS Session message"), s)
      else after_data (read_full conn fuel (get_be 0 bs) [] reader s)
  after_size (err e, reader, s) = (err e, s)
  after_size (panic, reader, s) = (panic, s)
  after_size (stuck, reader, s) = (stuck, s)

  -- The message that answers: its size in four bytes, and as many bytes.
  unfoldable pub receive : S → Result (List ℕ) × S
  receive s = after_size (read_full conn fuel 4 [] new_reader s)

  -- `send` behind `Marshal`. The request is shorter than the buffer of the writer, and the error of
  -- `Flush` is dropped.
  unfoldable pub send : Result (List ℕ) → SmbLog → Session → S → Sent S
  send (ok buf) log session s =
      check_protocol log session (receive (conn.write (put_uint32 (length buf) ++ buf) s).1)
  send (err e) log session s = (err e, log, session, s)
  send panic log session s = (panic, log, session, s)
  send stuck log session s = (stuck, log, session, s)

-- `Unmarshal` into a new response; the error is dropped, and what was set before it stays.
unfoldable pub decode : {G : Type 0} → Asn1 G → G → List ℕ → Read (Fields G)
decode asn1 empty buf = unmarshal_fields asn1 buf (new_negotiate_res empty) (new_metadata buf)

module _ {S G : Type 0} (close : S → S) where
  unfoldable pub hang_up : Fields G → S → S
  hang_up res s = if header_status res == status_ok then close s else s

  unfoldable pub after_decode : SmbLog → S → Read (Fields G) → Result (Unit {0}) × SmbLog × S
  after_decode log s (res, ok u, m) = (ok tt, log, hang_up res s)
  after_decode log s (res, err e, m) = (ok tt, log, hang_up res s)
  after_decode log s (res, panic, m) = (panic, log, s)
  after_decode log s (res, stuck, m) = (stuck, log, s)

module _ {S G : Type 0} (asn1 : Asn1 G) (empty : G) (close : S → S) where
  unfoldable pub after_send : Sent S → Result (Unit {0}) × SmbLog × S
  after_send (ok buf, log, session, s) = after_decode close log s (decode asn1 empty buf)
  after_send (err e, log, session, s) = (err e, log, s)
  after_send (panic, log, session, s) = (panic, log, s)
  after_send (stuck, log, session, s) = (stuck, log, s)

  module _ (conn : NetConn S) (fuel : ℕ) where
    -- `NegotiateProtocol`
    unfoldable pub negotiate_protocol : SmbLog → Session → S → Result (Unit {0}) × SmbLog × S
    negotiate_protocol log session s =
        after_send (
          send conn fuel (marshal_fields asn1 (new_negotiate_req session.message_id)) log session s)

    -- `GetSMBBanner`
    unfoldable pub get_smb_banner : SmbLog → S → Result (Unit {0}) × SmbLog × S
    get_smb_banner log s = negotiate_protocol log (record { message_id = 0 }) s
