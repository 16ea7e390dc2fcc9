-- ===== src/Siemens.antt =====
-- ztools/scada/siemens/messages.go and the packets of s7.go: TPKT, COTP and S7.
-- The bytes that `Unmarshal` is given are a slice with its capacity.
pub mod Banner
pub mod Packets
pub mod Identification
pub mod Panics
mod Tests
use tls_banner_grab_go.Base.{
  ℕ, zero, suc, ◌+◌, ◌%◌, Bool, true, false, not, ◌&&◌, ◌||◌, List, [], ◌∷◌, ◌++◌, Option, none,
  some, length, take, drop, get_elem?, ltb, ◌==◌, if◌then◌else◌,
}
use tls_banner_grab_go.Net.{Error, new, newf, Result, ok, err, panic, stuck, ◌>>=◌}
use tls_banner_grab_go.Net.Slices.{Slice, byte_at, slice_from, put_uint16, uint16_at}

abbrev pub err_s7_packet_too_short : Error
err_s7_packet_too_short = new "S7 packet too short"

abbrev pub err_invalid_packet : Error
err_invalid_packet = new "Invalid S7 packet"

abbrev pub err_not_s7 : Error
err_not_s7 = new "Not a S7 packet"

abbrev or_panic : Option ℕ → Result ℕ
or_panic none = panic
or_panic (some b) = ok b

-- `TPKTPacket`, which is its data
pub marshal_tpkt : List ℕ → List ℕ
marshal_tpkt payload = 3 ∷ 0 ∷ put_uint16 ((length payload + 4) % 65536) ++ payload

pub unmarshal_tpkt : Slice → Result Slice
unmarshal_tpkt s = if ltb s.len 4 then err err_s7_packet_too_short else ok (slice_from 4 s)

pub record CotpConnectionPacket : Type 0 where
  pub destination_ref : ℕ
  pub source_ref : ℕ
  pub destination_tsap : ℕ
  pub source_tsap : ℕ
  pub tpdu_size : ℕ

pub marshal_cotp_connection : CotpConnectionPacket → List ℕ
marshal_cotp_connection c =
    17 ∷ 0xe0 ∷ put_uint16 c.destination_ref
    ++ (put_uint16 c.source_ref
        ++ (0 ∷ 0xc1 ∷ 2 ∷ put_uint16 c.source_tsap
            ++ (0xc2 ∷ 2 ∷ put_uint16 c.destination_tsap ++ (0xc0 ∷ 1 ∷ c.tpdu_size ∷ []))))

-- It checks the bytes and reads no field.
pub unmarshal_cotp_connection : Slice → Result (Unit {0})
unmarshal_cotp_connection s =
    if ltb s.len 2
    then err err_invalid_packet
    else or_panic (byte_at s 0) >>= λ size_byte.
        (if not (size_byte + 1 == s.len)
          then err err_s7_packet_too_short
          else or_panic (byte_at s 1) >>= λ pdu_type.
              (if not (pdu_type == 0xd0)
                then err (new "Not a connection confirmation packet")
                else ok tt))

-- `COTPDataPacket`, which is its data
pub marshal_cotp_data : List ℕ → List ℕ
marshal_cotp_data payload = 2 ∷ 0xf0 ∷ 0x80 ∷ payload

-- `headerSize+1` is a byte.
pub unmarshal_cotp_data : Slice → Result Slice
unmarshal_cotp_data s =
    if ltb s.len 1
    then err err_invalid_packet
    else or_panic (byte_at s 0) >>= λ header_size.
        (if ltb s.len ((header_size + 1) % 256)
          then err err_invalid_packet
          else ok (slice_from ((header_size + 1) % 256) s))

pub record S7Packet : Type 0 where
  pub pdu_type : ℕ
  pub request_id : ℕ
  pub parameters : List ℕ
  pub data_bytes : List ℕ
  pub error : ℕ

abbrev pub s7_request : ℕ
s7_request = 0x01

abbrev pub s7_request_user_data : ℕ
s7_request_user_data = 0x07

abbrev s7_acknowledgement : ℕ
s7_acknowledgement = 0x02

abbrev s7_response : ℕ
s7_response = 0x03

abbrev is_request : ℕ → Bool
is_request pdu_type = pdu_type == s7_request || pdu_type == s7_request_user_data

pub marshal_s7 : S7Packet → Result (List ℕ)
marshal_s7 p =
    if not (is_request p.pdu_type)
    then err (new "Invalid PDU request type")
    else ok (
        0x32 ∷ p.pdu_type ∷ 0 ∷ 0 ∷ put_uint16 p.request_id
        ++ (put_uint16 (length p.parameters % 65536)
            ++ (put_uint16 (length p.data_bytes % 65536) ++ (p.parameters ++ p.data_bytes))))

-- The end of `Unmarshal`, behind the type: its header's length and the error field are known.
pub unmarshal_s7_body : Slice → ℕ → ℕ → ℕ → Result S7Packet
unmarshal_s7_body s pdu_type header_size error = uint16_at s 4 >>= λ request_id.
    (uint16_at s 6 >>= λ param_length.
    (uint16_at s 8 >>= λ data_length.
    (if ltb s.len (header_size + param_length + data_length)
      then err err_invalid_packet
      else ok (record {
        pdu_type = pdu_type;
        request_id = request_id;
        parameters = take param_length (drop header_size s.cells);
        data_bytes = take data_length (drop (header_size + param_length) s.cells);
        error = error;
      }))))

pub unmarshal_s7 : Slice → Result S7Packet
unfolding unmarshal_s7_body
unmarshal_s7 s =
    if ltb s.len 1
    then err err_invalid_packet
    else or_panic (byte_at s 0) >>= λ protocol_id.
        (if not (protocol_id == 0x32)
          then err err_not_s7
          else or_panic (byte_at s 1) >>= λ pdu_type.
              (if pdu_type == s7_acknowledgement || pdu_type == s7_response
                then (uint16_at s 10 >>= λ error. unmarshal_s7_body s pdu_type 12 error)
                else if is_request pdu_type
                then unmarshal_s7_body s pdu_type 10 0
                else err (newf "Unknown PDU type " pdu_type)))

pub make_cotp_connection_packet_bytes : ℕ → ℕ → List ℕ
make_cotp_connection_packet_bytes dst_tsap src_tsap = marshal_tpkt (
    marshal_cotp_connection (record {
      destination_ref = 0;
      source_ref = 4;
      destination_tsap = dst_tsap;
      source_tsap = src_tsap;
      tpdu_size = 0x0a;
    }))

pub make_request_packet_bytes : ℕ → List ℕ → List ℕ → Result (List ℕ)
make_request_packet_bytes pdu_type parameters payload =
    marshal_s7 (record {
      pdu_type = pdu_type;
      request_id = 0;
      parameters = parameters;
      data_bytes = payload;
      error = 0;
    })
    >>= λ bytes. ok (marshal_tpkt (marshal_cotp_data bytes))

abbrev pub make_negotiate_pdu_param_bytes : List ℕ
make_negotiate_pdu_param_bytes = 0xf0 ∷ 0 ∷ put_uint16 1 ++ (put_uint16 1 ++ put_uint16 0x01e0)

-- The argument is not used.
abbrev pub make_read_request_param_bytes : List ℕ → List ℕ
make_read_request_param_bytes data_bytes = 0 ∷ 1 ∷ 0x12 ∷ 4 ∷ 0x11 ∷ 0x44 ∷ 1 ∷ 0 ∷ []

abbrev pub make_read_request_data_bytes : ℕ → List ℕ
make_read_request_data_bytes szl_id =
    0xff ∷ 0x09 ∷ put_uint16 4 ++ (put_uint16 szl_id ++ put_uint16 1)

pub make_read_request_bytes : ℕ → Result (List ℕ)
make_read_request_bytes szl_id =
    make_request_packet_bytes s7_request_user_data
      (make_read_request_param_bytes (make_read_request_data_bytes szl_id))
      (make_read_request_data_bytes szl_id)

pub unmarshal_cotp_connection_response : Slice → Result (Unit {0})
unmarshal_cotp_connection_response s = unmarshal_tpkt s >>= unmarshal_cotp_connection

pub unmarshal_read_response : Slice → Result S7Packet
unmarshal_read_response s = unmarshal_tpkt s >>= λ t. (unmarshal_cotp_data t >>= unmarshal_s7)
