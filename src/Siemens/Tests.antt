-- ===== src/Siemens/Tests.antt =====
-- Runs of the Siemens S7 code, and its theorems at concrete inputs.
use tls_banner_grab_go.Base.{
  ℕ, ◌+◌, ◌%◌, ◌≡◌, ◌↔◌, refl, List, [], ◌∷◌, ◌++◌, none, some, length, replicate, get_elem?, arith,
  false, length-replicate,
}
use tls_banner_grab_go.Net.{ok, panic, ReadResult, eof}
use tls_banner_grab_go.Net.Slices.{Slice}
use tls_banner_grab_go.Net.Script.{script}
use tls_banner_grab_go.Siemens.{S7Packet, make_request_packet_bytes, unmarshal_read_response}
use tls_banner_grab_go.Siemens.Identification.{
  S7Log, parse_component_identification_response, parse_module_identification_request,
}
use tls_banner_grab_go.Siemens.Packets.{unmarshal_read_response-make_request_packet_bytes}
use tls_banner_grab_go.Siemens.Panics.{unmarshal_read_response-panic}
use tls_banner_grab_go.Siemens.Identification.Fields.{Parses, parse_identification_total}
use tls_banner_grab_go.Siemens.Banner.{refused, get_s7_banner}
use tls_banner_grab_go.Siemens.Banner.Verdict.{Verdict, get_s7_banner-Verdict}

abbrev new_log : S7Log
new_log = record {
  is_s7 = false;
  system = [];
  module_name = [];
  plant_id = [];
  copyright = [];
  serial_number = [];
  reserved_for_os = [];
  module_type = [];
  memory_serial_number = [];
  cpu_profile = [];
  oem_id = [];
  location = [];
  module_id = [];
  hardware = [];
  firmware = [];
}

unmarshal_read_response-make_request_packet_bytes_example :
    (bytes : List ℕ) × (make_request_packet_bytes 7 (0 ∷ 1 ∷ []) (0xff ∷ 9 ∷ 0 ∷ []) ≡ ok bytes)
    × (unmarshal_read_response (record { cells = bytes ++ (5 ∷ 6 ∷ []); len = length bytes })
        ≡ ok (record {
          pdu_type = 7;
          request_id = 0;
          parameters = 0 ∷ 1 ∷ [];
          data_bytes = 0xff ∷ 9 ∷ 0 ∷ [];
          error = 0;
        }))
unmarshal_read_response-make_request_packet_bytes_example =
    unmarshal_read_response-make_request_packet_bytes 7 (0 ∷ 1 ∷ []) (0xff ∷ 9 ∷ 0 ∷ [])
      (5 ∷ 6 ∷ []) refl (omega arith) (omega arith)

-- Twelve bytes in front of the fields, of which the third is missing its index byte.
abbrev identification : S7Packet
identification = record {
  pdu_type = 7;
  request_id = 0;
  parameters = [];
  data_bytes = replicate 12 0 ++ (1 ∷ b'A' ∷ b'B' ∷ 0 ∷ 0 ∷ 2 ∷ b'C' ∷ 0 ∷ 3 ∷ []);
  error = 0;
}

parse_identification_total_example :
    Parses new_log identification (parse_component_identification_response new_log identification)
    × Parses new_log identification (parse_module_identification_request new_log identification)
parse_identification_total_example = parse_identification_total new_log identification

-- A frame whose packet is the byte of the protocol alone.
abbrev one_byte : Slice
one_byte = record { cells = 3 ∷ 0 ∷ 0 ∷ 8 ∷ 2 ∷ 0xf0 ∷ 0x80 ∷ 0x32 ∷ replicate 2040 0; len = 8 }

one_byte-length : length one_byte.cells ≡ 2048
one_byte-length = omega (arith, length-replicate {A = ℕ} 2040 0)

unmarshal_read_response-panic_example : (unmarshal_read_response one_byte ≡ panic) ↔ (
    (one_byte.len ≡ 5 + (2 + 1) % 256) × (get_elem? one_byte.cells (4 + (2 + 1) % 256) ≡ some 0x32))
unfolding get_elem?
unmarshal_read_response-panic_example =
    unmarshal_read_response-panic one_byte 2 (omega (arith, one_byte-length)) one_byte-length refl

abbrev plain : List ℕ → ReadResult
plain bytes = record { bytes = bytes; error = none }

-- The connection is confirmed, the negotiation is answered, and the stream ends.
abbrev reads : List ReadResult
reads = plain (3 ∷ 0 ∷ 0 ∷ 6 ∷ 1 ∷ 0xd0 ∷ []) ∷ plain (3 ∷ 0 ∷ 0 ∷ 7 ∷ 2 ∷ 0xf0 ∷ 0x80 ∷ []) ∷ []

get_s7_banner-Verdict_example :
    Verdict new_log (
      get_s7_banner
        (λ (s : List ReadResult). (refused eof, s))
        (λ s. s)
        (script 2048)
        new_log
        reads)
get_s7_banner-Verdict_example =
    get_s7_banner-Verdict (λ s. (refused eof, s)) (λ s. s) (script 2048) new_log reads
