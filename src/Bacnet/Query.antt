-- ===== src/Bacnet/Query.antt =====
-- `SendVLC`, `ReadVLC` and the queries of log.go, over a connection.
pub mod Answers
use tls_banner_grab_go.Base.{
  ℕ, ◌+◌, ◌%◌, Bool, true, false, not, ◌&&◌, List, [], ◌∷◌, ◌++◌, Option, none, some, length, ltb,
  ◌==◌, if◌then◌else◌,
}
use tls_banner_grab_go.Net.{Error, net, new, NetConn, ReadResult, WriteResult}
use tls_banner_grab_go.Bacnet.{
  Parsed, parsed, failed, err_not_bacnet, Vlc, Npdu, Apdu, ReadProperty, marshal_vlc, unmarshal_vlc,
  unmarshal_npdu, unmarshal_apdu, unmarshal_read_property, read_instance_number, read_vendor_id,
  read_string_property, marshal_read_property_request, new_read_property_request,
}

-- log.go
pub record Log : Type 0 where
  pub is_bacnet : Bool
  pub instance_number : ℕ
  pub vendor_id : ℕ
  pub vendor_name : List ℕ
  pub firmware_revision : List ℕ
  pub application_software_revision : List ℕ
  pub object_name : List ℕ
  pub model_name : List ℕ
  pub description : List ℕ
  pub location : List ℕ

-- What `ReadVLC` and `sendReadProperty` return: the bytes left over or the error, and whether the
-- packet was one of BACnet.
pub record Reply : Type 0 where
  pub body : Parsed (List ℕ)
  pub is_bacnet : Bool

abbrev pub oid_any : ℕ
oid_any = 0x023fffff

abbrev pub max_frame_length : ℕ
max_frame_length = 1476

-- The three headers of a packet, read by receivers made with `new`.
unfoldable pub parse_headers : List ℕ → Reply
parse_headers b = elim (unmarshal_vlc b) [
  | parsed (vlc, b1) ↦ elim (unmarshal_npdu b1) [
    | parsed (npdu, b2) ↦ elim (unmarshal_apdu false b2) [
      | parsed (apdu, b3) ↦ record { body = parsed b3; is_bacnet = true }
      | failed e ↦ record { body = failed e; is_bacnet = true }
    ]
    | failed e ↦ record { body = failed e; is_bacnet = true }
  ]
  | failed e ↦ record { body = failed e; is_bacnet = false }
]

-- What `sendReadProperty` makes of the packet that `ReadVLC` read.
parse_reply : Reply → Reply
parse_reply r = elim r.body [
  | parsed b ↦ elim (unmarshal_read_property b) [
    | parsed (rp, rest) ↦ record { body = parsed rest; is_bacnet = true }
    | failed e ↦ record { body = failed e; is_bacnet = r.is_bacnet }
  ]
  | failed e ↦ record { body = failed e; is_bacnet = r.is_bacnet }
]

abbrev no_reply : Error → Reply
no_reply e = record { body = failed e; is_bacnet = false }

module _ {S : Type 0} (conn : NetConn S) where
  -- `SendVLC`
  unfoldable pub send_vlc : List ℕ → S → Option Error × S
  send_vlc payload s =
      if ltb 1472 (length payload)
      then (some (new "payload too long"), s)
      else (let (w, s') =
            conn.write
              (marshal_vlc (record {
                vlc_type = 0x81;
                function = 0x0a;
                len = (4 + length payload % 65536) % 65536;
              })
                ++ payload)
              s in
          (elim w.error [ none ↦ none | some e ↦ some (net e) ], s'))

  -- `ReadVLC`
  unfoldable pub read_vlc : S → Reply × S
  read_vlc s =
      let (r, s') = conn.read max_frame_length s in
      (elim r.error [ some e ↦ no_reply (net e) | none ↦ parse_headers r.bytes ], s')

  -- `sendReadProperty`
  unfoldable pub send_read_property : ℕ → ℕ → S → Reply × S
  unfolding parse_reply
  send_read_property oid pid s =
      let (e, s1) =
        send_vlc (marshal_read_property_request (new_read_property_request oid pid)) s in
      let (r, s2) = read_vlc s1 in elim e [ some e ↦ (no_reply e, s1) | none ↦ (parse_reply r, s2) ]

  string_of : Parsed (List ℕ) → List ℕ × Option Error
  string_of (parsed body) = let (_, value, e) = read_string_property body in (value, e)
  string_of (failed e) = ([], some e)

  -- `queryStringProperty`
  unfoldable pub query_string_property : ℕ → ℕ → S → (List ℕ × Option Error) × S
  unfolding string_of
  query_string_property oid pid s =
      let (r, s') = send_read_property oid pid s in (string_of r.body, s')

  -- The log and the connection, and the error of the last call.
  abbrev pub Query : Type 0
  Query = Log → S → Option Error × Log × S

  device_id_of : Reply → Log → Option Error × Log
  device_id_of r log = elim r.body [
    | failed e ↦ (some e, record log { is_bacnet = r.is_bacnet })
    | parsed body ↦
        if not r.is_bacnet
        then (some err_not_bacnet, record log { is_bacnet = r.is_bacnet })
        else (let (_, n, e) = read_instance_number body in
            elim e [
              | some x ↦ (some x, record log { is_bacnet = r.is_bacnet })
              | none ↦ (none, record log { is_bacnet = r.is_bacnet; instance_number = n })
            ])
  ]

  unfoldable pub query_device_id : Query
  unfolding device_id_of
  query_device_id log s =
      let (r, s') = send_read_property oid_any 75 s in
      let (e, log') = device_id_of r log in (e, log', s')

  vendor_number_of : Reply → Log → Option Error × Log
  vendor_number_of r log = elim r.body [
    | failed e ↦ (some e, log)
    | parsed body ↦
        let (_, n, e) = read_vendor_id body in
        elim e [ some x ↦ (some x, log) | none ↦ (none, record log { vendor_id = n }) ]
  ]

  unfoldable pub query_vendor_number : Query
  unfolding vendor_number_of
  query_vendor_number log s =
      let (r, s') = send_read_property oid_any 0x78 s in
      let (e, log') = vendor_number_of r log in (e, log', s')

  -- The queries of a string set their field whatever the error.
  query_string : ℕ → (List ℕ → Option Error → Log → Log) → Query
  query_string pid put log s =
      let ((value, e), s') = query_string_property oid_any pid s in (e, put value e log, s')

  -- `"0.0"` for an empty revision that came without an error
  or_zero : List ℕ → Option Error → List ℕ
  or_zero value e = elim e [
    | some x ↦ value
    | none ↦ if length value == 0 then b'0' ∷ b'.' ∷ b'0' ∷ [] else value
  ]

  unfoldable pub query_vendor_name : Query
  unfolding query_string
  query_vendor_name = query_string 0x79 (λ v e log. record log { vendor_name = v })

  unfoldable pub query_firmware_revision : Query
  unfolding query_string or_zero
  query_firmware_revision =
      query_string 0x2c (λ v e log. record log { firmware_revision = or_zero v e })

  unfoldable pub query_application_software_revision : Query
  unfolding query_string or_zero
  query_application_software_revision =
      query_string 0x0c (λ v e log. record log { application_software_revision = or_zero v e })

  unfoldable pub query_object_name : Query
  unfolding query_string
  query_object_name = query_string 0x4d (λ v e log. record log { object_name = v })

  unfoldable pub query_model_name : Query
  unfolding query_string
  query_model_name = query_string 0x46 (λ v e log. record log { model_name = v })

  unfoldable pub query_description : Query
  unfolding query_string
  query_description = query_string 0x1c (λ v e log. record log { description = v })

  unfoldable pub query_location : Query
  unfolding query_string
  query_location = query_string 0x3a (λ v e log. record log { location = v })

  -- Calls one after the other, up to the first that returns an error.
  in_turn : List Query → Query
  in_turn [] log s = (none, log, s)
  in_turn (q ∷ qs) log s =
      let (e, log', s') = q log s in
      let rest = in_turn qs log' s' in elim e [ some x ↦ (some x, log', s') | none ↦ rest ]

  abbrev pub new_log : Log
  new_log = record {
    is_bacnet = false;
    instance_number = 0;
    vendor_id = 0;
    vendor_name = [];
    firmware_revision = [];
    application_software_revision = [];
    object_name = [];
    model_name = [];
    description = [];
    location = [];
  }

  -- `BACNetVendorQuery` of zlib/conn.go
  unfoldable pub bacnet_vendor_query : S → Option Error × Log × S
  unfolding in_turn
  bacnet_vendor_query s =
      in_turn
        (query_device_id ∷ query_vendor_number ∷ query_vendor_name ∷ query_firmware_revision
          ∷ query_application_software_revision ∷ query_object_name ∷ query_model_name
          ∷ query_description ∷ query_location ∷ [])
        new_log s
