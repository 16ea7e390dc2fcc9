-- ===== src/Bacnet.antt =====
-- ztools/scada/bacnet: the BACnet headers and properties, and the queries of `Log`.
pub mod Codec
pub mod Query
mod Tests
use tls_banner_grab_go.Base.{
  ℕ, zero, suc, ◌+◌, ◌-◌, ◌*◌, ◌/◌, ◌%◌, Bool, true, false, not, ◌&&◌, ◌||◌, List, [], ◌∷◌, ◌++◌,
  Option, none, some, length, take, drop, ltb, leb, ◌==◌, if◌then◌else◌, min,
}
use tls_banner_grab_go.Net.{Error, net, new, eof, NetConn, ReadResult, WriteResult}

abbrev pub err_packet_too_short : Error
err_packet_too_short = new "BACNet packet too short"

abbrev pub err_invalid_packet : Error
err_invalid_packet = new "Invalid BACNet packet"

abbrev pub err_not_bacnet : Error
err_not_bacnet = new "Not a BACNet packet"

-- What a decoder returns: its value, or the error.
pub data Parsed {ℓ} (A : Type ℓ) : Type ℓ where
  parsed : A → Parsed A
  failed : Error → Parsed A

pub record Vlc : Type 0 where
  pub vlc_type : ℕ
  pub function : ℕ
  pub len : ℕ

pub record Npdu : Type 0 where
  pub version : ℕ
  pub control : ℕ

-- `segment_size` is the raw byte of `SegmentSizes`, where it is set.
pub record Apdu : Type 0 where
  pub type_and_flags : ℕ
  pub segment_size : Option ℕ
  pub invoke_id : ℕ
  pub server_choice : ℕ

pub record ReadProperty : Type 0 where
  pub object : ℕ
  pub property : ℕ

pub record ReadPropertyRequest : Type 0 where
  pub npdu : Npdu
  pub apdu : Apdu
  pub selection : ReadProperty

-- An error leaves `Unmarshal` with its input, `leftovers` else.
unfoldable pub marshal_vlc : Vlc → List ℕ
marshal_vlc v = v.vlc_type ∷ v.function ∷ (v.len / 256 % 256) ∷ (v.len % 256) ∷ []

unfoldable pub unmarshal_vlc : List ℕ → Parsed (Vlc × List ℕ)
unmarshal_vlc (t ∷ f ∷ hi ∷ lo ∷ rest) =
    if t == 0x81
    then parsed (record { vlc_type = t; function = f; len = (hi * 256 + lo) % 65536 }, rest)
    else failed err_not_bacnet
unmarshal_vlc b = failed err_packet_too_short

unfoldable pub marshal_npdu : Npdu → List ℕ
marshal_npdu n = n.version ∷ n.control ∷ []

unfoldable pub unmarshal_npdu : List ℕ → Parsed (Npdu × List ℕ)
unmarshal_npdu (v ∷ c ∷ rest) = parsed (record { version = v; control = c }, rest)
unmarshal_npdu b = failed err_packet_too_short

unfoldable pub marshal_apdu : Apdu → List ℕ
marshal_apdu a = elim a.segment_size [
  | none ↦ a.type_and_flags ∷ a.invoke_id ∷ a.server_choice ∷ []
  | some raw ↦ a.type_and_flags ∷ raw ∷ a.invoke_id ∷ a.server_choice ∷ []
]

-- `APDU.Unmarshal` into a receiver whose `SegmentSizes.set` is the first argument.
unfoldable pub unmarshal_apdu : Bool → List ℕ → Parsed (Apdu × List ℕ)
unmarshal_apdu false (t ∷ i ∷ c ∷ rest) =
    parsed
      (record { type_and_flags = t; segment_size = none; invoke_id = i; server_choice = c }, rest)
unmarshal_apdu true (t ∷ raw ∷ i ∷ c ∷ rest) =
    parsed (
      record { type_and_flags = t; segment_size = some raw; invoke_id = i; server_choice = c },
      rest,
    )
unmarshal_apdu _ b = failed err_packet_too_short

-- `binary.BigEndian` on four bytes
abbrev pub put_uint32 : ℕ → List ℕ
put_uint32 n = (n / 16777216 % 256) ∷ (n / 65536 % 256) ∷ (n / 256 % 256) ∷ (n % 256) ∷ []

-- `bytes.Buffer.ReadByte`: the byte or 0, the error, and what is left of the buffer.
abbrev pub read_byte : List ℕ → ℕ × Option Error × List ℕ
read_byte [] = (0, some (net eof), [])
read_byte (b ∷ bs) = (b, none, bs)

-- `binary.Read` of four bytes, two bytes and one byte.
abbrev pub read_uint32 : List ℕ → ℕ × Option Error × List ℕ
read_uint32 (a ∷ b ∷ c ∷ d ∷ bs) = (a * 16777216 + b * 65536 + c * 256 + d, none, bs)
read_uint32 [] = (0, some (net eof), [])
read_uint32 _ = (0, some (new "unexpected EOF"), [])

abbrev pub read_uint16 : List ℕ → ℕ × Option Error × List ℕ
read_uint16 (a ∷ b ∷ bs) = (a * 256 + b, none, bs)
read_uint16 [] = (0, some (net eof), [])
read_uint16 _ = (0, some (new "unexpected EOF"), [])

unfoldable pub marshal_read_property : ReadProperty → List ℕ
marshal_read_property rp = 0x0c ∷ (put_uint32 rp.object ++ (0x19 ∷ rp.property ∷ []))

unfoldable pub unmarshal_read_property : List ℕ → Parsed (ReadProperty × List ℕ)
unmarshal_read_property b =
    let (oid_context_tag, _, b1) = read_byte b in
    if not (oid_context_tag == 0x0c)
    then failed err_invalid_packet
    else (let (oid, e2, b2) = read_uint32 b1 in
        elim e2 [
          | some e ↦ failed e
          | none ↦
              let (pid_context_tag, _, b3) = read_byte b2 in
              if not (pid_context_tag == 0x19)
              then failed err_invalid_packet
              else (let (pid, e4, b4) = read_byte b3 in
                  elim e4 [
                    | some e ↦ failed e
                    | none ↦ parsed (record { object = oid; property = pid }, b4)
                  ])
        ])

-- `readInstanceNumber`: the leftovers, the number and the error. A wrong tag byte returns with the
-- error of its read, which is nil where there was a byte. `& 0x0003ffff` is the remainder.
unfoldable pub read_instance_number : List ℕ → List ℕ × ℕ × Option Error
read_instance_number b =
    let (open_byte, e1, b1) = read_byte b in
    if not (open_byte == 0x3e)
    then (b, 0, e1)
    else (let (app_byte, e2, b2) = read_byte b1 in
        if not (app_byte == 0xc4)
        then (b, 0, e2)
        else (let (n, e3, b3) = read_uint32 b2 in
            elim e3 [
              | some e ↦ (b, n, some e)
              | none ↦
                  let (close_byte, e4, b4) = read_byte b3 in
                  if not (close_byte == 0x3f) then (b, n, e4) else (b4, n % 262144, none)
            ]))

unfoldable pub read_vendor_id : List ℕ → List ℕ × ℕ × Option Error
read_vendor_id b =
    let (open_byte, e1, b1) = read_byte b in
    if not (open_byte == 0x3e)
    then (b, 0, e1)
    else (let (app_byte, e2, b2) = read_byte b1 in
        if not (app_byte == 0x22) && not (app_byte == 0x21)
        then (b, 0, e2)
        else (let (n, e3, b3) = if app_byte == 0x22 then read_uint16 b2 else read_byte b2 in
            elim e3 [
              | some e ↦ (b, n, some e)
              | none ↦
                  let (close_byte, e4, b4) = read_byte b3 in
                  if not (close_byte == 0x3f) then (b, n, e4) else (b4, n, none)
            ]))

-- `bytes.Buffer.Read` into a slice of `n` bytes: an empty buffer is the end, unless `n` is 0.
abbrev read_bytes : ℕ → List ℕ → List ℕ × Option Error × List ℕ
read_bytes n b =
    if length b == 0 && not (n == 0) then ([], some (net eof), []) else (take n b, none, drop n b)

-- The end of `readStringProperty`, behind the length.
pub read_property_bytes : List ℕ → ℕ → List ℕ → List ℕ × List ℕ × Option Error
read_property_bytes b length_byte b3 =
    let (got, e4, b4) = read_bytes length_byte b3 in
    elim e4 [
      | some e ↦ (b, [], some e)
      | none ↦
          if not (length got == length_byte) || ltb length_byte 1
          then (b, [], some err_packet_too_short)
          else (let (close_byte, e5, b5) = read_byte b4 in
              if not (close_byte == 0x3f) then (b, drop 1 got, e5) else (b5, drop 1 got, none))
    ]

-- `appByte&0xF8` and `appByte&0x07` are the upper five and the lower three bits.
unfoldable pub read_string_property : List ℕ → List ℕ × List ℕ × Option Error
unfolding read_property_bytes
read_string_property b =
    let (open_byte, e1, b1) = read_byte b in
    if not (open_byte == 0x3e)
    then (b, [], e1)
    else (let (app_byte, e2, b2) = read_byte b1 in
        if not (app_byte / 8 * 8 == 0x70)
        then (b, [], e2)
        else if app_byte % 8 == 5
        then (let (length_byte, e3, b3) = read_byte b2 in
            elim e3 [ some e ↦ (b, [], some e) | none ↦ read_property_bytes b length_byte b3 ])
        else read_property_bytes b (app_byte % 8) b2)

unfoldable pub marshal_read_property_request : ReadPropertyRequest → List ℕ
marshal_read_property_request rp =
    marshal_npdu rp.npdu ++ (marshal_apdu rp.apdu ++ marshal_read_property rp.selection)

-- `NewReadPropertyRequest`
unfoldable pub new_read_property_request : ℕ → ℕ → ReadPropertyRequest
new_read_property_request oid pid = record {
  npdu = record { version = 0x01; control = 0x04 };
  apdu = record {
    type_and_flags = 0;
    segment_size = some 0x05;
    invoke_id = 1;
    server_choice = 0x0c;
  };
  selection = record { object = oid; property = pid };
}
