-- ===== src/Smb/Probe.antt =====
-- What the probe says of a peer, and what it says to one that answers with a message.
use tls_banner_grab_go.Base.{
  ℕ, zero, suc, ◌-◌, ◌≤◌, ◌<◌, ◌≡◌, refl, ap, ◌∙◌, inl, inr, true, false, List, [], ◌∷◌, ◌++◌,
  length, take, drop, replicate, ltb, ◌==◌, if◌then◌else◌, arith, Bool-cases, take-length,
}
use tls_banner_grab_go.Net.{new, Result, ok, err, panic, stuck, NetConn, make}
use tls_banner_grab_go.Net.Buffered.{Reader, new_reader, read, read_full}
use tls_banner_grab_go.Net.Buffered.Serves.{Left, read_full-Left}
use tls_banner_grab_go.Net.Gives.{Gives}
use tls_banner_grab_go.Net.Text.{has_prefix}
use tls_banner_grab_go.Smb.Encoder.{
  put_le, size, put_words, Asn1, Fields, Read, new_metadata, marshal_fields,
}
use tls_banner_grab_go.Smb.Messages.{protocol_smb, new_negotiate_req, header}
use tls_banner_grab_go.Smb.Safety.{Tame, unmarshal_fields-Tame}
use tls_banner_grab_go.Smb.Status.{status_of, header_status-decode, new_negotiate_res-FixedFields}
use tls_banner_grab_go.Smb.Session.{
  SmbLog, Session, put_uint32, get_be, max_message, after_data, after_size, receive, check_protocol,
  send, decode, hang_up, after_decode, after_send, negotiate_protocol, get_smb_banner,
}

-- The request in its frame: the header of version 2 under the name of version 1, and one dialect.
unfoldable pub request : List ℕ
request =
    0
    ∷ 0
    ∷ 0
    ∷ 102
    ∷ 0xff
    ∷ b'S'
    ∷ b'M'
    ∷ b'B'
    ∷ 64
    ∷ 0
    ∷ 1
    ∷ 0
    ∷ (make 56 ++ (36 ∷ 0 ∷ 1 ∷ 0 ∷ 1 ∷ 0 ∷ (make 30 ++ (0x10 ∷ 0x02 ∷ []))))

-- What the probe ends with after a message, from its log and the state behind the message.
unfoldable pub outcome :
    {S : Type 0} → (S → S) → SmbLog → List ℕ → S → Result (Unit {0}) × SmbLog × S
outcome close log message s =
    if has_prefix message protocol_smb
    then (ok tt, record log { support_v1 = true }, if status_of message == 0 then close s else s)
    else (err (new "protocol not implemented"), log, s)

-- Where there is no error the log says that version 1 is supported, and otherwise the log is as it
-- was; there is no panic.
abbrev pub Verdict : {S : Type 0} → SmbLog → Result (Unit {0}) × SmbLog × S → Type 0
Verdict log (ok u, log', s) = log'.support_v1 ≡ true
Verdict log (err e, log', s) = log' ≡ log
Verdict log (panic, log', s) = ⊥
Verdict log (stuck, log', s) = log' ≡ log

abbrev NoPanic : {A : Type 0} → Result A → Type 0
NoPanic (ok a) = Unit
NoPanic (err e) = Unit
NoPanic panic = ⊥
NoPanic stuck = Unit

module _ {S : Type 0} (conn : NetConn S) where
  read_full-NoPanic :
      (fuel want : ℕ) (got : List ℕ) (reader : Reader) (s : S)
      → NoPanic (read_full conn fuel want got reader s).0
  unfolding read_full
  read_full-NoPanic zero want got reader s = tt
  read_full-NoPanic (suc fuel) want got reader s =
      let ((more, e, reader'), s') = read conn (want - length got) reader s in
      ground (arith, read_full-NoPanic fuel want (got ++ more) reader' s')

  after_data-NoPanic : (c : Result (List ℕ) × Reader × S) → NoPanic c.0 → NoPanic (after_data c).0
  unfolding after_data
  after_data-NoPanic (ok message, reader, s) h = ground arith
  after_data-NoPanic (err e, reader, s) h = tt
  after_data-NoPanic (panic, reader, s) h = h
  after_data-NoPanic (stuck, reader, s) h = tt

  after_size-NoPanic :
      (fuel : ℕ) (c : Result (List ℕ) × Reader × S)
      → NoPanic c.0
      → NoPanic (after_size conn fuel c).0
  unfolding after_size
  after_size-NoPanic fuel (ok bs, reader, s) h =
      let c = read_full conn fuel (get_be 0 bs) [] reader s in
      ground (arith, after_data-NoPanic c (read_full-NoPanic fuel (get_be 0 bs) [] reader s))
  after_size-NoPanic fuel (err e, reader, s) h = tt
  after_size-NoPanic fuel (panic, reader, s) h = h
  after_size-NoPanic fuel (stuck, reader, s) h = tt

module _ {S G : Type 0} (asn1 : Asn1 G) (empty : G) (close : S → S) where
  after_decode-Tame :
      (log : SmbLog) (s : S) (n : ℕ) (r : Read (Fields G))
      → Tame n r
      → after_decode close log s r ≡ (ok tt, log, hang_up close r.0 s)
  unfolding after_decode
  after_decode-Tame log s n (res, ok u, m) h = refl
  after_decode-Tame log s n (res, err e, m) h = refl
  after_decode-Tame log s n (res, panic, m) h = elim h [ ]
  after_decode-Tame log s n (res, stuck, m) h = elim h [ ]

  after_decode-decode :
      (log : SmbLog) (message : List ℕ) (s : S)
      → after_decode close log s (decode asn1 empty message)
        ≡ (ok tt, log, if status_of message == 0 then close s else s)
  unfolding hang_up decode
  after_decode-decode log message s =
      after_decode-Tame log s (length message) (decode asn1 empty message) (
        unmarshal_fields-Tame asn1 message (new_metadata message)
          (new_negotiate_res-FixedFields empty) (omega arith))
      ∙ rw header_status-decode refl

  module _ (log : SmbLog) (session : Session) where
    answered :
        (message : List ℕ) (s : S)
        → after_send asn1 empty close (check_protocol log session (ok message, s))
          ≡ outcome close log message s
    unfolding after_send check_protocol outcome
    answered message s = elim (Bool-cases (has_prefix message protocol_smb)) [
      | inl e ↦ rw e (after_decode-decode (record log { support_v1 = true }) message s)
      | inr e ↦ rw e refl
    ]

    outcome-Verdict : (message : List ℕ) (s : S) → Verdict log (outcome close log message s)
    unfolding outcome
    outcome-Verdict message s = elim (Bool-cases (has_prefix message protocol_smb)) [
      | inl e ↦ rw e refl
      | inr e ↦ rw e refl
    ]

    answered-Verdict :
        (r : Result (List ℕ) × S)
        → NoPanic r.0
        → Verdict log (after_send asn1 empty close (check_protocol log session r))
    unfolding after_send check_protocol
    answered-Verdict (ok message, s) h = rw (answered message s) (outcome-Verdict message s)
    answered-Verdict (err e, s) h = refl
    answered-Verdict (panic, s) h = h
    answered-Verdict (stuck, s) h = refl

module _ {S G : Type 0} (asn1 : Asn1 G) (empty : G) (close : S → S) (conn : NetConn S) where
  send-request :
      (fuel : ℕ) (log : SmbLog) (s : S)
      → get_smb_banner asn1 empty close conn fuel log s
        ≡ after_send asn1 empty close (
            check_protocol log
              (record { message_id = 0 })
              (receive conn fuel (conn.write request s).1))
  unfolding get_smb_banner negotiate_protocol send request marshal_fields new_negotiate_req header
      put_le size put_words make replicate
  send-request fuel log s = refl

  -- However the peer and the parser of tokens behave, the probe does not panic; where it has no
  -- error the log says that version 1 is supported, and where it has one, or runs out of fuel,
  -- the log is as it was.
  pub get_smb_banner-Verdict :
      (fuel : ℕ) (log : SmbLog) (s : S)
      → Verdict log (get_smb_banner asn1 empty close conn fuel log s)
  unfolding receive
  get_smb_banner-Verdict fuel log s =
      let s' = (conn.write request s).1 in
      let r = read_full conn fuel 4 [] new_reader s' in
      rw send-request (
        answered-Verdict asn1 empty close log (record { message_id = 0 }) (receive conn fuel s')
          (after_size-NoPanic conn fuel r (read_full-NoPanic conn fuel 4 [] new_reader s')))

get_be-put_uint32 : (n : ℕ) → n < 4294967296 → get_be 0 (put_uint32 n) ≡ n
unfolding get_be
get_be-put_uint32 n h = omega arith

-- A message in its frame.
unfoldable pub framed : List ℕ → List ℕ
framed message = put_uint32 (length message) ++ message

module _ {S : Type 0} (conn : NetConn S) (Offers : List ℕ → S → Type 0) (g : Gives conn Offers)
    (fuel : ℕ) (message : List ℕ) where
  -- The message behind its size.
  body-Offers :
      (reader : Reader) (s : S)
      → Left conn Offers g message reader s
      → 4 ≤ length message
      → length message ≤ max_message
      → length message < fuel
      → (s' : S) × (after_size conn fuel (ok (put_uint32 (length message)), reader, s)
          ≡ (ok message, s'))
  unfolding after_size after_data
  body-Offers reader s left low high f =
      let n = length message in
      let (reader', s', e, rest) =
        read_full-Left conn Offers g fuel n n [] message reader s left (omega arith) (omega arith)
          f in
      let fits : ltb max_message n ≡ false = ground arith in
      let long : ltb n 4 ≡ false = ground arith in
      (s', rw (get_be-put_uint32 n (omega arith), fits, e, take-length, long) refl)

  receive-Offers :
      (s : S)
      → Offers (framed message) s
      → 4 ≤ length message
      → length message ≤ max_message
      → length message < fuel
      → (s' : S) × (receive conn fuel s ≡ (ok message, s'))
  unfolding receive framed take drop
  receive-Offers s o low high f =
      let (reader', s', e, left) =
        read_full-Left conn Offers g fuel 4 4 [] (framed message) new_reader s
          ([], framed message, o, refl, refl) refl (omega arith) (omega arith) in
      let (s₁, e') = body-Offers reader' s' left low high f in
      (s₁, ap (after_size conn fuel) e ∙ e')

module _ {S G : Type 0} (asn1 : Asn1 G) (empty : G) (close : S → S) (conn : NetConn S)
    (Offers : List ℕ → S → Type 0) (g : Gives conn Offers) where
  -- A peer sends a message of 4 to 16777215 bytes behind its length, in pieces of any size, once
  -- the request of 106 bytes is written. With fuel for as many reads, and one, the probe reads it
  -- whole. If the message starts with FF and SMB, the log says that version 1 is supported, there
  -- is no error, and the connection is closed exactly if the four bytes at offset 8 are 0 or the
  -- message has no twelve bytes; if not, the error is that the protocol is not implemented, and
  -- the log is as it was.
  pub get_smb_banner-Offers :
      (fuel : ℕ) (log : SmbLog) (message : List ℕ) (s : S)
      → Offers (framed message) (conn.write request s).1
      → 4 ≤ length message
      → length message ≤ max_message
      → length message < fuel
      → (s' : S) × (get_smb_banner asn1 empty close conn fuel log s ≡ outcome close log message s')
  get_smb_banner-Offers fuel log message s o low high f =
      let (s', e) =
        receive-Offers conn Offers g fuel message (conn.write request s).1 o low high f in
      (
        s',
        rw (send-request, e) (answered asn1 empty close log (record { message_id = 0 }) message s'),
      )
