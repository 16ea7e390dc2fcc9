-- ===== src/Modbus.antt =====
-- zlib/modbus.go and `SendModbusEcho` of zlib/conn.go: Modbus over TCP, and the device
-- identification (MEI) in its responses.
pub mod Frame
pub mod Mei
pub mod Names
pub mod Truncated
mod Tests
use tls_banner_grab_go.Base.{
  ℕ, zero, suc, ◌+◌, ◌-◌, ◌*◌, ◌/◌, ◌%◌, bit_and, bit_or, Bool, true, false, not, ◌&&◌, List, [],
  ◌∷◌, ◌++◌, Option, none, some, length, take, drop, replicate, get_elem?, ltb, leb, ◌==◌,
  if◌then◌else◌,
}
use tls_banner_grab_go.Net.{
  Error, net, new, wrap, Result, ok, err, panic, stuck, ◌>>=◌, NetConn, ReadResult, WriteResult,
}
use tls_banner_grab_go.Net.Slices.{put_uint16}

pub record MeiObject : Type 0 where
  pub oid : ℕ
  pub value : List ℕ

pub record MeiResponse : Type 0 where
  pub conformity_level : ℕ
  pub more_follows : Bool
  pub object_count : ℕ
  pub objects : List MeiObject

pub record ExceptionResponse : Type 0 where
  pub exception_function : ℕ
  pub exception_type : ℕ

pub record ModbusEvent : Type 0 where
  pub len : ℕ
  pub unit_id : ℕ
  pub function : ℕ
  pub response : List ℕ
  pub mei_response : Option MeiResponse
  pub exception_response : Option ExceptionResponse

abbrev pub function_code_mei : ℕ
function_code_mei = 0x2b

-- `ModbusEvent.IsException`; `FunctionCode.IsException` compares the masked byte with 0x80.
pub event_is_exception : ModbusEvent → Bool
event_is_exception m = not (bit_and m.function 0x80 == 0)

pub is_exception : ℕ → Bool
is_exception c = bit_and c 0x80 == 0x80

-- `FunctionCode.ExceptionFunctionCode` and `ExceptionFunctionCode.FunctionCode`
pub exception_function_code : ℕ → ℕ
exception_function_code c = bit_or c 0x80

pub function_code : ℕ → ℕ
function_code e = bit_and e 0x79

pub first_byte : List ℕ → ℕ
first_byte [] = 0
first_byte (b ∷ bs) = b

pub parse_exception : ModbusEvent → ModbusEvent
unfolding first_byte
parse_exception m = record m {
  exception_response = some (record {
    exception_function = bit_and m.function 0x7f;
    exception_type = first_byte m.response;
  });
}

-- `parseMEIObject`: how far it went, and the object if it is whole.
pub parse_mei_object : List ℕ → ℕ × Option MeiObject
parse_mei_object [] = (0, none)
parse_mei_object (oid ∷ []) = (1, none)
parse_mei_object (oid ∷ obj_len ∷ bytes) =
    if ltb (length (oid ∷ obj_len ∷ bytes)) (2 + obj_len)
    then (length (oid ∷ obj_len ∷ bytes), none)
    else (2 + obj_len, some (record { oid = oid; value = take obj_len bytes }))

abbrev pub zero_object : MeiObject
zero_object = record { oid = 0; value = [] }

-- The loop over the slots of `objects`, with the slots left and the offset `it`. After an object
-- that is not whole the slots left keep their zero values.
pub parse_objects : ℕ → ℕ → List ℕ → Result (List MeiObject)
parse_objects zero it response = ok []
parse_objects (suc slots) it response =
    let (n, obj) = parse_mei_object (drop it response) in
    let rest = parse_objects slots (it + n) response in
    if ltb (length response) it then panic else elim obj [
      | none ↦ ok (replicate (suc slots) zero_object)
      | some o ↦ rest >>= λ os. ok (o ∷ os)
    ]

-- `parseReponse` behind its test of the function, for the response's bytes.
pub parse_mei : ModbusEvent → List ℕ → Result ModbusEvent
parse_mei m (mei_type ∷ read_type ∷ conformity_level ∷ more ∷ next_object ∷ object_count ∷ bytes) =
    if not (mei_type == 0x0e)
    then ok m
    else if not (read_type == 1)
    then ok m
    else parse_objects object_count 6 m.response >>= λ objects. ok (record m {
      mei_response = some (record {
        conformity_level = conformity_level;
        more_follows = not (more == 0);
        object_count = object_count;
        objects = objects;
      });
    })
parse_mei m _ = ok m

pub parse_response : ModbusEvent → Result ModbusEvent
unfolding parse_mei
parse_response m = if not (m.function == function_code_mei) then ok m else parse_mei m m.response

pub parse_self : ModbusEvent → Result ModbusEvent
parse_self m = if event_is_exception m then ok (parse_exception m) else parse_response m

pub record ModbusRequest : Type 0 where
  pub function : ℕ
  pub payload : List ℕ

pub record ModbusResponse : Type 0 where
  pub len : ℕ
  pub unit_id : ℕ
  pub function : ℕ
  pub payload : List ℕ

abbrev pub modbus_header_bytes : List ℕ
modbus_header_bytes = 0x13 ∷ 0x37 ∷ 0x00 ∷ 0x00 ∷ []

-- `ModbusRequest.MarshalBinary`
pub marshal_binary : ModbusRequest → List ℕ
marshal_binary r =
    modbus_header_bytes
    ++ (put_uint16 ((length r.payload + 2) % 65536) ++ (0 ∷ r.function ∷ r.payload))

-- What a read loop put into its buffer, and its error.
pub record Filled : Type 0 where
  pub got : List ℕ
  pub error : Option Error

module _ {S : Type 0} (conn : NetConn S) where
  read_error : ℕ → List ℕ → Error → Error
  read_error size got e =
      if leb size (length got) then new "modbus: response buffer too small" else e

  -- `ReadMin` into a buffer of `size` bytes, of which `got` are filled. The loop of
  -- `GetModbusResponse` over the body is the same, and leaves by `break` where this returns.
  pub read_min : ℕ → ℕ → ℕ → List ℕ → S → Result Filled × S
  unfolding read_error
  read_min zero size bytes got s =
      (if ltb (length got) bytes then stuck else ok (record { got = got; error = none }), s)
  read_min (suc fuel) size bytes got s =
      let (r, s') = conn.read (size - length got) s in
      let now = got ++ r.bytes in
      let more = read_min fuel size bytes now s' in
      if ltb (length got) bytes
      then elim r.error [
        | some e ↦ (ok (record { got = now; error = some (read_error size now (net e)) }), s')
        | none ↦ more
      ]
      else (ok (record { got = got; error = none }), s)

  -- The end of `GetModbusResponse`: the body buffer holds 1017 bytes, zero but for `got`.
  abbrev body_length : ℕ
  body_length = 1017

  pub make_response : ℕ → ℕ → Filled → ModbusResponse × Option Error
  unfolding first_byte
  make_response msglen unit_id body = (
    record {
      len = msglen;
      unit_id = unit_id;
      function = first_byte body.got;
      payload = drop 1 body.got;
    },
    body.error,
  )

  abbrev no_response : ModbusResponse
  no_response = record { len = 0; unit_id = 0; function = 0; payload = [] }

  abbrev capped : ℕ → ℕ
  capped msglen = if ltb body_length msglen then body_length else msglen

  read_body : ℕ → List ℕ → S → Result (ModbusResponse × Option Error) × S
  read_body fuel (h0 ∷ h1 ∷ h2 ∷ h3 ∷ hi ∷ lo ∷ unit_id ∷ rest) s =
      if h0 == 0x13 && h1 == 0x37 && h2 == 0 && h3 == 0
      then (let msglen = capped (hi * 256 + lo) in
          let (r, s') = read_min fuel body_length (msglen - 1) [] s in
          (r >>= λ body. ok (make_response msglen unit_id body), s'))
      else (ok (no_response, some (new "modbus: not a modbus response")), s)
  read_body fuel _ s = (panic, s)

  with_header : ℕ → Result Filled × S → Result (ModbusResponse × Option Error) × S
  unfolding read_body
  with_header fuel (ok header, s) = elim header.error [
    | some e ↦ (ok (no_response, some (wrap "modbus: could not get response" e)), s)
    | none ↦ read_body fuel header.got s
  ]
  with_header fuel (err e, s) = (err e, s)
  with_header fuel (panic, s) = (panic, s)
  with_header fuel (stuck, s) = (stuck, s)

  -- `GetModbusResponse`; it returns a response beside an error.
  pub get_modbus_response : ℕ → S → Result (ModbusResponse × Option Error) × S
  unfolding with_header
  get_modbus_response fuel s = with_header fuel (read_min fuel 7 7 [] s)

  -- The loop of `SendModbusEcho` that writes what is left of `bytes` after `w` of them.
  pub write_all : ℕ → List ℕ → ℕ → S → Result (ℕ × Option Error) × S
  write_all zero bytes w s = (if ltb w (length bytes) then stuck else ok (w, none), s)
  write_all (suc fuel) bytes w s =
      let (r, s') = conn.write (drop w bytes) s in
      let more = write_all fuel bytes (w + r.count) s' in
      if ltb w (length bytes)
      then elim r.error [
        | some e ↦ (ok (w + r.count, some (new "Could not write modbus request")), s')
        | none ↦ more
      ]
      else (ok (w, none), s)

  abbrev empty_event : ModbusEvent
  empty_event = record {
    len = 0;
    unit_id = 0;
    function = 0;
    response = [];
    mei_response = none;
    exception_response = none;
  }

  event_of : ModbusResponse → ModbusEvent
  event_of res = record {
    len = res.len;
    unit_id = res.unit_id;
    function = res.function;
    response = res.payload;
    mei_response = none;
    exception_response = none;
  }

  echo_response :
      ℕ → Result (ModbusResponse × Option Error) × S → Result (ℕ × Option Error × ModbusEvent) × S
  unfolding event_of
  echo_response w (ok (res, e), s) = (parse_self (event_of res) >>= λ event. ok (w, e, event), s)
  echo_response w (err e, s) = (err e, s)
  echo_response w (panic, s) = (panic, s)
  echo_response w (stuck, s) = (stuck, s)

  after_write : ℕ → Result (ℕ × Option Error) × S → Result (ℕ × Option Error × ModbusEvent) × S
  unfolding echo_response
  after_write fuel (ok (w, some e), s) = (ok (w, some e, empty_event), s)
  after_write fuel (ok (w, none), s) = echo_response w (get_modbus_response fuel s)
  after_write fuel (err e, s) = (err e, s)
  after_write fuel (panic, s) = (panic, s)
  after_write fuel (stuck, s) = (stuck, s)

  -- read device info, product code, object id
  abbrev echo_request : ModbusRequest
  echo_request = record { function = function_code_mei; payload = 0x0e ∷ 0x01 ∷ 0x00 ∷ [] }

  -- `SendModbusEcho`: the bytes written, the error, and the event that it logs.
  pub send_modbus_echo : ℕ → S → Result (ℕ × Option Error × ModbusEvent) × S
  unfolding after_write
  send_modbus_echo fuel s = after_write fuel (write_all fuel (marshal_binary echo_request) 0 s)
