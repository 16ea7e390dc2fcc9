-- ===== src/Modbus/Tests.antt =====
-- Runs of the Modbus code, and its theorems at concrete inputs.
use tls_banner_grab_go.Base.{
  ℕ, ◌≡◌, refl, List, [], ◌∷◌, ◌++◌, none, some, length, replicate, arith, true,
}
use tls_banner_grab_go.Net.{ok}
use tls_banner_grab_go.Net.Stream.{stream, Offers, stream_gives}
use tls_banner_grab_go.Modbus.{
  ModbusEvent, ModbusRequest, MeiObject, parse_objects, parse_self, marshal_binary,
  get_modbus_response,
}
use tls_banner_grab_go.Modbus.Mei.{encode_objects, HasSlots, parse_self_total, parse_self-encode}
use tls_banner_grab_go.Modbus.Names.{vendor, marshal_objects, lookup}
use tls_banner_grab_go.Modbus.Truncated.{parse_objects-vendor}
use tls_banner_grab_go.Modbus.Frame.{get_modbus_response-marshal_binary}

abbrev event : ℕ → List ℕ → ModbusEvent
event function response = record {
  len = length response;
  unit_id = 0;
  function = function;
  response = response;
  mei_response = none;
  exception_response = none;
}

-- Three objects are announced, the second is cut short.
abbrev cut_short : ModbusEvent
cut_short = event 0x2b (0x0e ∷ 1 ∷ 2 ∷ 0 ∷ 0 ∷ 3 ∷ 0 ∷ 1 ∷ b'A' ∷ 1 ∷ 9 ∷ b'B' ∷ [])

parse_self_total_example :
    (n : ModbusEvent) × (parse_self cut_short ≡ ok n) × HasSlots cut_short.response n
parse_self_total_example = parse_self_total cut_short refl

abbrev two_objects : List MeiObject
two_objects = record { oid = 0; value = b'A' ∷ b'B' ∷ [] } ∷ record { oid = 1; value = [] } ∷ []

abbrev identified : ModbusEvent
identified = event 0x2b (0x0e ∷ 1 ∷ 0x81 ∷ 0xff ∷ 0 ∷ 2 ∷ 0 ∷ 2 ∷ b'A' ∷ b'B' ∷ 1 ∷ 0 ∷ 7 ∷ [])

parse_self-encode_example :
    parse_self identified
    ≡ ok (record identified {
      mei_response = some (record {
        conformity_level = 0x81;
        more_follows = true;
        object_count = 2;
        objects = two_objects;
      });
    })
parse_self-encode_example = parse_self-encode identified 0x81 0xff 0 two_objects (7 ∷ []) refl refl

abbrev sent : ModbusRequest
sent = record { function = 0x2b; payload = 0x0e ∷ 1 ∷ 0 ∷ [] }

get_modbus_response-marshal_binary_example :
    (s' : List ℕ) × (get_modbus_response (stream 3) 1017 (marshal_binary sent) ≡ (
      ok (record { len = 5; unit_id = 0; function = 0x2b; payload = 0x0e ∷ 1 ∷ 0 ∷ [] }, none),
      s',
    ))
unfolding marshal_binary
get_modbus_response-marshal_binary_example =
    get_modbus_response-marshal_binary (stream 3) Offers (stream_gives 3 (omega arith)) 1017 sent
      (marshal_binary sent) (refl, omega arith) (omega arith) (omega arith)

parse_objects-vendor_example :
    (objects : List MeiObject) × (parse_objects 4 6 (replicate 6 0 ++ encode_objects two_objects)
      ≡ ok objects)
    × (lookup vendor (marshal_objects objects) ≡ some [])
unfolding replicate
parse_objects-vendor_example =
    parse_objects-vendor two_objects 1 (replicate 6 0) (omega arith, (omega arith, tt))
