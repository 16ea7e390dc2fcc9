-- ===== src/Siemens/Banner.antt =====
-- `GetS7Banner` and the exchanges of s7.go, over a connection. What `net.Dial` does with the address
-- of the peer, and what `Close` does, are parameters.
pub mod Verdict
use tls_banner_grab_go.Base.{
  ℕ, Bool, true, false, not, List, [], Option, none, some, length, ◌==◌, if◌then◌else◌,
}
use tls_banner_grab_go.Net.{
  NetError, Error, net, Result, ok, err, panic, stuck, ◌>>=◌, NetConn, ReadResult, WriteResult,
  fill, make,
}
use tls_banner_grab_go.Net.Slices.{Slice}
use tls_banner_grab_go.Siemens.{
  S7Packet, s7_request, make_cotp_connection_packet_bytes, make_request_packet_bytes,
  make_negotiate_pdu_param_bytes, make_read_request_bytes, unmarshal_cotp_connection_response,
  unmarshal_read_response,
}
use tls_banner_grab_go.Siemens.Identification.{
  S7Log, parse_component_identification_response, parse_module_identification_request,
}

-- What `net.Dial` returns.
pub data Dialed (S : Type 0) : Type 0 where
  refused : NetError → Dialed S
  connected : NetConn S → Dialed S

abbrev has_bytes : Result Slice → Bool
has_bytes (ok response) = not (response.len == 0)
has_bytes _ = false

-- What the banner ends with.
abbrev pub Ended : Type 0 → Type 0
Ended S = Result (Unit {0}) × S7Log × S

module _ {S : Type 0} where
  -- The error of the write is dropped.
  pub send_request_read_response : NetConn S → List ℕ → S → Result Slice × S
  send_request_read_response conn request s =
      let (r, s') = conn.read 2048 (conn.write request s).1 in
      (
        elim r.error [
          | some e ↦ err (net e)
          | none ↦ ok (record { cells = fill r.bytes (make 2048); len = length r.bytes })
        ],
        s',
      )

  pub read_request : NetConn S → ℕ → S → Result S7Packet × S
  unfolding send_request_read_response
  read_request conn szl_id s = elim (make_read_request_bytes szl_id) [
    | err e ↦ (err e, s)
    | panic ↦ (panic, s)
    | stuck ↦ (stuck, s)
    | ok request ↦
        let (r, s') = send_request_read_response conn request s in
        (r >>= unmarshal_read_response, s')
  ]

  -- The attempt to connect, the second one included: the connection that is used from here on, and
  -- its response.
  second_attempt : Dialed S × S → Result (NetConn S × Slice) × S
  second_attempt (refused e, s) = (err (net e), s)
  second_attempt (connected conn, s) =
      let (r, s') =
        send_request_read_response conn (make_cotp_connection_packet_bytes 0x200 0x100) s in
      (r >>= λ response. ok (conn, response), s')

  pub connect : (S → Dialed S × S) → (S → S) → NetConn S → S → Result (NetConn S × Slice) × S
  unfolding second_attempt
  connect dial close conn s =
      let (r, s') =
        send_request_read_response conn (make_cotp_connection_packet_bytes 0x102 0x100) s in
      if has_bytes r
      then (r >>= λ response. ok (conn, response), s')
      else second_attempt (dial (close s'))

  -- The error of a parser is dropped, which has left the log alone.
  ended : S7Log → Result S7Log → S → Ended S
  ended log (ok log') s = (ok tt, log', s)
  ended log (err e) s = (ok tt, log, s)
  ended log panic s = (panic, log, s)
  ended log stuck s = (stuck, log, s)

  -- An error of the second identification is masked.
  component_identification : S7Log → Result S7Packet × S → Ended S
  unfolding ended
  component_identification log (ok p, s) =
      ended log (parse_component_identification_response log p) s
  component_identification log (err e, s) = (ok tt, log, s)
  component_identification log (panic, s) = (panic, log, s)
  component_identification log (stuck, s) = (stuck, log, s)

  after_module : NetConn S → S7Log → Result S7Log → S → Ended S
  unfolding component_identification
  after_module conn log (ok log') s = component_identification log' (read_request conn 0x1c s)
  after_module conn log (err e) s = component_identification log (read_request conn 0x1c s)
  after_module conn log panic s = (panic, log, s)
  after_module conn log stuck s = (stuck, log, s)

  -- The requests after the log says S7; an error of the first identification ends them.
  module_identification : NetConn S → S7Log → Result S7Packet × S → Ended S
  unfolding after_module
  module_identification conn log (ok p, s) =
      after_module conn log (parse_module_identification_request log p) s
  module_identification conn log (err e, s) = (ok tt, log, s)
  module_identification conn log (panic, s) = (panic, log, s)
  module_identification conn log (stuck, s) = (stuck, log, s)

  negotiated : NetConn S → S7Log → Result Slice × S → Ended S
  unfolding module_identification
  negotiated conn log (ok response, s) =
      let log' = record log { is_s7 = true } in
      module_identification conn log' (read_request conn 0x11 s)
  negotiated conn log (err e, s) = (err e, log, s)
  negotiated conn log (panic, s) = (panic, log, s)
  negotiated conn log (stuck, s) = (stuck, log, s)

  -- Negotiate S7
  negotiate : NetConn S → S7Log → Result (List ℕ) → S → Ended S
  unfolding negotiated
  negotiate conn log (ok request) s =
      negotiated conn log (send_request_read_response conn request s)
  negotiate conn log (err e) s = (err e, log, s)
  negotiate conn log panic s = (panic, log, s)
  negotiate conn log stuck s = (stuck, log, s)

  confirmed : NetConn S → S7Log → Result (Unit {0}) → S → Ended S
  unfolding negotiate
  confirmed conn log (ok _) s =
      negotiate conn log (make_request_packet_bytes s7_request make_negotiate_pdu_param_bytes []) s
  confirmed conn log (err e) s = (err e, log, s)
  confirmed conn log panic s = (panic, log, s)
  confirmed conn log stuck s = (stuck, log, s)

  after_connect : S7Log → Result (NetConn S × Slice) × S → Ended S
  unfolding confirmed
  after_connect log (ok (conn, response), s) =
      confirmed conn log (unmarshal_cotp_connection_response response) s
  after_connect log (err e, s) = (err e, log, s)
  after_connect log (panic, s) = (panic, log, s)
  after_connect log (stuck, s) = (stuck, log, s)

  pub get_s7_banner : (S → Dialed S × S) → (S → S) → NetConn S → S7Log → S → Ended S
  unfolding after_connect
  get_s7_banner dial close conn log s = after_connect log (connect dial close conn s)
