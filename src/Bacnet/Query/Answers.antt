-- ===== src/Bacnet/Query/Answers.antt =====
-- The queries against the answers of a device.
use tls_banner_grab_go.Base.{
  ◌∙◌, Bool, true, false, ◌==◌, Option, some, none, ℕ, ◌%◌, ◌<◌, ◌≡◌, refl, List, [], ◌∷◌, ◌++◌,
  length, arith, All,
}
use tls_banner_grab_go.Net.{NetConn, NetError, Error, net}
use tls_banner_grab_go.Bacnet.{
  parsed, marshal_vlc, marshal_npdu, marshal_apdu, Npdu, ReadProperty, unmarshal_vlc,
  unmarshal_npdu, unmarshal_apdu, marshal_read_property, put_uint32, marshal_read_property_request,
  new_read_property_request,
}
use tls_banner_grab_go.Bacnet.Codec.{
  encode_string, read_string_property-encode_string, read_instance_number-put_uint32,
  unmarshal_read_property-marshal,
}
use tls_banner_grab_go.Bacnet.Query.{
  Log, oid_any, max_frame_length, Reply, no_reply, parse_headers, parse_reply, send_vlc, read_vlc,
  send_read_property, query_string_property, Query, query_device_id, query_vendor_number,
  query_vendor_name, query_firmware_revision, query_application_software_revision,
  query_object_name, query_model_name, query_description, query_location, in_turn, new_log,
  bacnet_vendor_query,
}

-- The packet of a device that answers: the headers and the property in front of its value.
abbrev pub answer_frame : ℕ → ℕ → ℕ → Npdu → ℕ → ℕ → ReadProperty → List ℕ → List ℕ
answer_frame f hi lo npdu invoke choice rp value =
    0x81
      ∷ f
      ∷ hi
      ∷ lo
      ∷ npdu.version
      ∷ npdu.control
      ∷ 0x30
      ∷ invoke
      ∷ choice
      ∷ marshal_read_property rp
    ++ value

parse_headers-answer_frame :
    (f hi lo invoke choice : ℕ) (npdu : Npdu) (rp : ReadProperty) (value : List ℕ)
    → parse_headers (answer_frame f hi lo npdu invoke choice rp value)
      ≡ record { body = parsed (marshal_read_property rp ++ value); is_bacnet = true }
unfolding parse_headers unmarshal_vlc unmarshal_npdu unmarshal_apdu
parse_headers-answer_frame f hi lo invoke choice npdu rp value = refl

-- The request of the device identifier, byte by byte.
abbrev pub device_id_request : List ℕ
device_id_request =
    0x81 ∷ 0x0a ∷ 0 ∷ 17 ∷ 1 ∷ 4 ∷ 0 ∷ 5 ∷ 1 ∷ 12 ∷ 0x0c ∷ 0x02 ∷ 0x3f ∷ 0xff ∷ 0xff ∷ 0x19 ∷ 75
    ∷ []

-- The request is written and a packet is read without an error, and the packet has at least four
-- bytes, the first of which is 0x81.
pub says_bacnet : Option NetError → Option NetError → List ℕ → Bool
says_bacnet (some e) read_error bytes = false
says_bacnet none (some e) bytes = false
says_bacnet none none (t ∷ f ∷ hi ∷ lo ∷ rest) = t == 0x81
says_bacnet none none bytes = false

-- What is parsed behind the first header changes nothing.
parse_reply-says :
    (b : List ℕ) → (parse_reply (parse_headers b)).is_bacnet ≡ says_bacnet none none b
unfolding parse_reply parse_headers says_bacnet unmarshal_vlc
parse_reply-says [] = refl
parse_reply-says (t ∷ []) = refl
parse_reply-says (t ∷ f ∷ []) = refl
parse_reply-says (t ∷ f ∷ hi ∷ []) = refl
parse_reply-says (t ∷ f ∷ hi ∷ lo ∷ rest) = ground arith

-- The reply of `sendReadProperty`, behind the error of the write.
reply_of : Option NetError → Reply → Reply
reply_of none v = parse_reply v
reply_of (some e) v = no_reply (net e)

reply_of-eq :
    {S : Type 0} (e : Option NetError) (v : Reply × S) (s₁ : S)
    → (let x : Option Error = elim e [ none ↦ none | some y ↦ some (net y) ] in
        let c : Reply × S = elim x [ some y ↦ (no_reply y, s₁) | none ↦ (parse_reply v.0, v.1) ] in
        c.0.is_bacnet)
      ≡ (reply_of e v.0).is_bacnet
unfolding reply_of
reply_of-eq none v s₁ = refl
reply_of-eq (some e) v s₁ = refl

read_reply-says :
    (e : Option NetError) (b : List ℕ)
    → (parse_reply (elim e [ some x ↦ no_reply (net x) | none ↦ parse_headers b ])).is_bacnet
      ≡ says_bacnet none e b
unfolding says_bacnet parse_reply
read_reply-says none b = parse_reply-says b
read_reply-says (some e) b = refl

module _ {S : Type 0} (conn : NetConn S) where
  -- The device takes the request of a property and answers with a frame that holds `value`.
  pub record Answers (pid : ℕ) (value : List ℕ) (s s' : S) : Type 0 where
    pub between : S
    pub function : ℕ
    pub hi : ℕ
    pub lo : ℕ
    pub npdu : Npdu
    pub invoke : ℕ
    pub choice : ℕ
    pub property : ReadProperty
    pub object_fits : property.object < 4294967296
    pub sends :
        send_vlc conn (marshal_read_property_request (new_read_property_request oid_any pid)) s
        ≡ (none, between)
    pub reads : conn.read max_frame_length between ≡ (
      record {
        bytes = answer_frame function hi lo npdu invoke choice property value;
        error = none;
      },
      s',
    )

  send_read_property-Answers :
      (pid : ℕ) (value : List ℕ) {s s' : S}
      → Answers pid value s s'
      → send_read_property conn oid_any pid s
        ≡ (record { body = parsed value; is_bacnet = true }, s')
  unfolding send_read_property read_vlc
  send_read_property-Answers pid value a = ground (
    arith,
    a.sends,
    a.reads,
    parse_headers-answer_frame a.function a.hi a.lo a.invoke a.choice a.npdu a.property value,
    unmarshal_read_property-marshal a.property value a.object_fits,
  )

  -- The string of less than 255 bytes that a device sends in its answer frame is what the query
  -- returns, with no error.
  pub query_string_property-Answers :
      (pid encoding : ℕ) (value : List ℕ) {s s' : S}
      → length value < 255
      → Answers pid (encode_string encoding value ++ (0x3f ∷ [])) s s'
      → query_string_property conn oid_any pid s ≡ ((value, none), s')
  unfolding query_string_property
  query_string_property-Answers pid encoding value h a = ground (
    arith,
    send_read_property-Answers pid (encode_string encoding value ++ (0x3f ∷ [])) a,
    read_string_property-encode_string encoding value [] h,
  )

  -- A device's instance number is logged without its bits above the lowest eighteen.
  pub query_device_id-Answers :
      (n : ℕ) (log : Log) {s s' : S}
      → n < 4294967296
      → Answers 75 (0x3e ∷ 0xc4 ∷ put_uint32 n ++ (0x3f ∷ [])) s s'
      → query_device_id conn log s
        ≡ (none, record log { is_bacnet = true; instance_number = n % 262144 }, s')
  unfolding query_device_id
  query_device_id-Answers n log h a = ground (
    arith,
    send_read_property-Answers 75 (0x3e ∷ 0xc4 ∷ put_uint32 n ++ (0x3f ∷ [])) a,
    read_instance_number-put_uint32 n [] h,
  )

  -- What keeps the verdict of the first query.
  abbrev KeepsVerdict : Query conn → Type 0
  KeepsVerdict q = (log : Log) (s : S) → (q log s).1.is_bacnet ≡ log.is_bacnet

  in_turn-KeepsVerdict :
      (qs : List (Query conn)) → All KeepsVerdict qs → KeepsVerdict (in_turn conn qs)
  unfolding in_turn
  in_turn-KeepsVerdict [] h log s = refl
  in_turn-KeepsVerdict (q ∷ qs) h log s =
      let (e, log', s') = q log s in ground (arith, h.0 log s, in_turn-KeepsVerdict qs h.1 log' s')

  query_vendor_number-KeepsVerdict : KeepsVerdict (query_vendor_number conn)
  unfolding query_vendor_number
  query_vendor_number-KeepsVerdict log s = ground arith

  device_id-verdict :
      (log : Log) (s : S)
      → (query_device_id conn log s).1.is_bacnet
        ≡ (send_read_property conn oid_any 75 s).0.is_bacnet
  unfolding query_device_id
  device_id-verdict log s = ground arith

  -- The packet that is read into `v`, behind a write with the error `e`.
  sent-says :
      (e : Option NetError) (s₁ : S)
      → (let (v, s₂) = read_vlc conn s₁ in reply_of e v).is_bacnet
        ≡ (let (r, s₂) = conn.read 1476 s₁ in says_bacnet e r.error r.bytes)
  unfolding read_vlc says_bacnet reply_of
  sent-says (some e) s₁ = refl
  sent-says none s₁ = let (r, s₂) = conn.read 1476 s₁ in read_reply-says r.error r.bytes

  send_read_property-says :
      (s : S)
      → (send_read_property conn oid_any 75 s).0.is_bacnet ≡ (
          let (w, s₁) = conn.write device_id_request s in
          let (r, s₂) = conn.read 1476 s₁ in says_bacnet w.error r.error r.bytes)
  unfolding send_read_property send_vlc marshal_read_property_request new_read_property_request
      marshal_vlc marshal_npdu marshal_apdu marshal_read_property
  send_read_property-says s =
      let (w, s₁) = conn.write device_id_request s in
      reply_of-eq w.error (read_vlc conn s₁) s₁ ∙ sent-says w.error s₁

  device_id_found :
      (log : Log) (s : S)
      → (query_device_id conn log s).0 ≡ none
      → (query_device_id conn log s).1.is_bacnet ≡ true
  unfolding query_device_id
  device_id_found log s h = ground arith

  abbrev later_queries : List (Query conn)
  later_queries =
      query_vendor_number conn
      ∷ query_vendor_name conn
      ∷ query_firmware_revision conn
      ∷ query_application_software_revision conn
      ∷ query_object_name conn
      ∷ query_model_name conn
      ∷ query_description conn
      ∷ query_location conn
      ∷ []

  later_queries-KeepsVerdict : All KeepsVerdict later_queries
  unfolding query_vendor_name query_firmware_revision query_application_software_revision
      query_object_name query_model_name query_description query_location
  later_queries-KeepsVerdict = (
    query_vendor_number-KeepsVerdict,
    (
      λ log s. refl,
      (
        λ log s. refl,
        (λ log s. refl, (λ log s. refl, (λ log s. refl, (λ log s. refl, (λ log s. refl, tt))))),
      ),
    ),
  )

  -- The log of the nine queries says BACnet exactly if the request of the device identifier is
  -- written and a packet is read, both without an error, which has at least four bytes of which
  -- the first is 81, whatever it holds behind them and the later queries meet.
  pub bacnet_vendor_query-verdict :
      (s : S)
      → (bacnet_vendor_query conn s).1.is_bacnet ≡ (
          let (w, s₁) = conn.write device_id_request s in
          let (r, s₂) = conn.read 1476 s₁ in says_bacnet w.error r.error r.bytes)
  unfolding bacnet_vendor_query
  bacnet_vendor_query-verdict s =
      let (e, log, s') = query_device_id conn (new_log conn) s in
      let later = in_turn-KeepsVerdict later_queries later_queries-KeepsVerdict log s' in
      let same = device_id-verdict (new_log conn) s in
      ground (arith, later, same) ∙ send_read_property-says s

  -- Where no query fails the log says BACnet.
  pub bacnet_vendor_query-found :
      (s : S)
      → (bacnet_vendor_query conn s).0 ≡ none
      → (bacnet_vendor_query conn s).1.is_bacnet ≡ true
  unfolding bacnet_vendor_query
  bacnet_vendor_query-found s h =
      let (e, log, s') = query_device_id conn (new_log conn) s in
      let later = in_turn-KeepsVerdict later_queries later_queries-KeepsVerdict log s' in
      ground (arith, later, device_id_found (new_log conn) s)
