-- ===== src/Dnp3.antt =====
-- ztools/scada/dnp3: the checksum, the link-layer requests, and the banner of a DNP3 outstation.
pub mod Banner
pub mod Batch
pub mod Checksum
mod Tests
use tls_banner_grab_go.Base.{
  ℕ, zero, suc, ◌+◌, ◌-◌, ◌*◌, ◌/◌, ◌%◌, ◌^◌, bit_and, bit_or, bit_xor, Bool, true, false, not,
  ◌&&◌, List, [], ◌∷◌, ◌++◌, Option, none, some, length, get_elem?, leb, ◌==◌, if◌then◌else◌,
}
use tls_banner_grab_go.Net.{
  NetError, eof, timeout, other, NetConn, ReadResult, WriteResult, fill, make,
}

abbrev pub crc16table : List ℕ
crc16table =
    0x0000 ∷ 0x365E ∷ 0x6CBC ∷ 0x5AE2 ∷ 0xD978 ∷ 0xEF26 ∷ 0xB5C4 ∷ 0x839A ∷ 0xFF89 ∷ 0xC9D7 ∷ 0x9335
    ∷ 0xA56B ∷ 0x26F1 ∷ 0x10AF ∷ 0x4A4D ∷ 0x7C13 ∷ 0xB26B ∷ 0x8435 ∷ 0xDED7 ∷ 0xE889 ∷ 0x6B13
    ∷ 0x5D4D ∷ 0x07AF ∷ 0x31F1 ∷ 0x4DE2 ∷ 0x7BBC ∷ 0x215E ∷ 0x1700 ∷ 0x949A ∷ 0xA2C4 ∷ 0xF826
    ∷ 0xCE78 ∷ 0x29AF ∷ 0x1FF1 ∷ 0x4513 ∷ 0x734D ∷ 0xF0D7 ∷ 0xC689 ∷ 0x9C6B ∷ 0xAA35 ∷ 0xD626
    ∷ 0xE078 ∷ 0xBA9A ∷ 0x8CC4 ∷ 0x0F5E ∷ 0x3900 ∷ 0x63E2 ∷ 0x55BC ∷ 0x9BC4 ∷ 0xAD9A ∷ 0xF778
    ∷ 0xC126 ∷ 0x42BC ∷ 0x74E2 ∷ 0x2E00 ∷ 0x185E ∷ 0x644D ∷ 0x5213 ∷ 0x08F1 ∷ 0x3EAF ∷ 0xBD35
    ∷ 0x8B6B ∷ 0xD189 ∷ 0xE7D7 ∷ 0x535E ∷ 0x6500 ∷ 0x3FE2 ∷ 0x09BC ∷ 0x8A26 ∷ 0xBC78 ∷ 0xE69A
    ∷ 0xD0C4 ∷ 0xACD7 ∷ 0x9A89 ∷ 0xC06B ∷ 0xF635 ∷ 0x75AF ∷ 0x43F1 ∷ 0x1913 ∷ 0x2F4D ∷ 0xE135
    ∷ 0xD76B ∷ 0x8D89 ∷ 0xBBD7 ∷ 0x384D ∷ 0x0E13 ∷ 0x54F1 ∷ 0x62AF ∷ 0x1EBC ∷ 0x28E2 ∷ 0x7200
    ∷ 0x445E ∷ 0xC7C4 ∷ 0xF19A ∷ 0xAB78 ∷ 0x9D26 ∷ 0x7AF1 ∷ 0x4CAF ∷ 0x164D ∷ 0x2013 ∷ 0xA389
    ∷ 0x95D7 ∷ 0xCF35 ∷ 0xF96B ∷ 0x8578 ∷ 0xB326 ∷ 0xE9C4 ∷ 0xDF9A ∷ 0x5C00 ∷ 0x6A5E ∷ 0x30BC
    ∷ 0x06E2 ∷ 0xC89A ∷ 0xFEC4 ∷ 0xA426 ∷ 0x9278 ∷ 0x11E2 ∷ 0x27BC ∷ 0x7D5E ∷ 0x4B00 ∷ 0x3713
    ∷ 0x014D ∷ 0x5BAF ∷ 0x6DF1 ∷ 0xEE6B ∷ 0xD835 ∷ 0x82D7 ∷ 0xB489 ∷ 0xA6BC ∷ 0x90E2 ∷ 0xCA00
    ∷ 0xFC5E ∷ 0x7FC4 ∷ 0x499A ∷ 0x1378 ∷ 0x2526 ∷ 0x5935 ∷ 0x6F6B ∷ 0x3589 ∷ 0x03D7 ∷ 0x804D
    ∷ 0xB613 ∷ 0xECF1 ∷ 0xDAAF ∷ 0x14D7 ∷ 0x2289 ∷ 0x786B ∷ 0x4E35 ∷ 0xCDAF ∷ 0xFBF1 ∷ 0xA113
    ∷ 0x974D ∷ 0xEB5E ∷ 0xDD00 ∷ 0x87E2 ∷ 0xB1BC ∷ 0x3226 ∷ 0x0478 ∷ 0x5E9A ∷ 0x68C4 ∷ 0x8F13
    ∷ 0xB94D ∷ 0xE3AF ∷ 0xD5F1 ∷ 0x566B ∷ 0x6035 ∷ 0x3AD7 ∷ 0x0C89 ∷ 0x709A ∷ 0x46C4 ∷ 0x1C26
    ∷ 0x2A78 ∷ 0xA9E2 ∷ 0x9FBC ∷ 0xC55E ∷ 0xF300 ∷ 0x3D78 ∷ 0x0B26 ∷ 0x51C4 ∷ 0x679A ∷ 0xE400
    ∷ 0xD25E ∷ 0x88BC ∷ 0xBEE2 ∷ 0xC2F1 ∷ 0xF4AF ∷ 0xAE4D ∷ 0x9813 ∷ 0x1B89 ∷ 0x2DD7 ∷ 0x7735
    ∷ 0x416B ∷ 0xF5E2 ∷ 0xC3BC ∷ 0x995E ∷ 0xAF00 ∷ 0x2C9A ∷ 0x1AC4 ∷ 0x4026 ∷ 0x7678 ∷ 0x0A6B
    ∷ 0x3C35 ∷ 0x66D7 ∷ 0x5089 ∷ 0xD313 ∷ 0xE54D ∷ 0xBFAF ∷ 0x89F1 ∷ 0x4789 ∷ 0x71D7 ∷ 0x2B35
    ∷ 0x1D6B ∷ 0x9EF1 ∷ 0xA8AF ∷ 0xF24D ∷ 0xC413 ∷ 0xB800 ∷ 0x8E5E ∷ 0xD4BC ∷ 0xE2E2 ∷ 0x6178
    ∷ 0x5726 ∷ 0x0DC4 ∷ 0x3B9A ∷ 0xDC4D ∷ 0xEA13 ∷ 0xB0F1 ∷ 0x86AF ∷ 0x0535 ∷ 0x336B ∷ 0x6989
    ∷ 0x5FD7 ∷ 0x23C4 ∷ 0x159A ∷ 0x4F78 ∷ 0x7926 ∷ 0xFABC ∷ 0xCCE2 ∷ 0x9600 ∷ 0xA05E ∷ 0x6E26
    ∷ 0x5878 ∷ 0x029A ∷ 0x34C4 ∷ 0xB75E ∷ 0x8100 ∷ 0xDBE2 ∷ 0xEDBC ∷ 0x91AF ∷ 0xA7F1 ∷ 0xFD13
    ∷ 0xCB4D ∷ 0x48D7 ∷ 0x7E89 ∷ 0x246B ∷ 0x1235 ∷ []

abbrev pub table_at : ℕ → ℕ
table_at i = elim (get_elem? crc16table i) [ none ↦ 0 | some entry ↦ entry ]

-- The body of the loop of `Crc16`. The index has eight bits, so that it is in the table.
pub crc_update : ℕ → ℕ → ℕ
crc_update crc b = bit_xor (crc / 256) (table_at (bit_and (bit_xor crc b) 0xff))

abbrev pub crc_loop : ℕ → List ℕ → ℕ
crc_loop crc [] = crc
crc_loop crc (b ∷ bs) = crc_loop (crc_update crc b) bs

pub crc16 : List ℕ → ℕ
crc16 bs = bit_xor (crc_loop 0 bs) 0xffff

-- `setBit` of a byte: `1 << position` has eight bits.
pub set_bit : ℕ → ℕ → ℕ → ℕ
set_bit b position value =
    if value == 1
    then bit_or b (2 ^ position % 256)
    else if value == 0
    then bit_and b (255 - 2 ^ position % 256)
    else 0

abbrev link_request_status_fc : ℕ
link_request_status_fc = 0x9

abbrev link_unconfirmed_user_data_fc : ℕ
link_unconfirmed_user_data_fc = 0x4

-- `binary.LittleEndian.PutUint16`
abbrev pub put_uint16_le : ℕ → List ℕ
put_uint16_le n = (n % 256) ∷ (n / 256 % 256) ∷ []

pub link_control : ℕ → ℕ
unfolding set_bit
link_control function_code =
    set_bit (set_bit (set_bit (set_bit (function_code % 256) 7 1) 6 1) 5 0) 4 0

-- The header in front of its checksum.
pub link_fields : ℕ → ℕ → ℕ → ℕ → List ℕ
unfolding link_control
link_fields src dst function_code msg_length =
    0x05 ∷ 0x64 ∷ ((5 + msg_length) % 256) ∷ link_control function_code ∷ put_uint16_le dst
    ++ put_uint16_le src

pub make_link_header : ℕ → ℕ → ℕ → ℕ → List ℕ
unfolding link_fields
make_link_header src dst function_code msg_length =
    let fields = link_fields src dst function_code msg_length in
    fields ++ put_uint16_le (crc16 fields)

pub make_link_status_request : ℕ → List ℕ
make_link_status_request dst = make_link_header 0 dst link_request_status_fc 0

pub make_transport_header : List ℕ
unfolding set_bit
make_transport_header = set_bit (set_bit 0 7 1) 6 1 ∷ []

pub make_app_attr_request : List ℕ
unfolding set_bit
make_app_attr_request =
    set_bit (set_bit (set_bit (set_bit 0 7 1) 6 1) 5 0) 4 0
    ∷ 0x01
    ∷ 0x00
    ∷ 0xfe
    ∷ 0x00
    ∷ put_uint16_le 0

pub make_banner_request : ℕ → List ℕ
unfolding make_transport_header make_app_attr_request
make_banner_request dst =
    make_link_header 0 dst link_unconfirmed_user_data_fc
      (length make_transport_header + length make_app_attr_request)
    ++ (make_transport_header ++ make_app_attr_request)

-- The inner loop of `makeLinkRequestBatch`, with the destinations left; an address has 16 bits.
batch_destinations : ℕ → ℕ → ℕ → List ℕ
batch_destinations src zero dest = []
batch_destinations src (suc left) dest =
    make_link_header src dest link_request_status_fc 0
    ++ batch_destinations src left ((dest + 1) % 65536)

-- The outer loop, with the sources left.
batch_sources : ℕ → ℕ → ℕ → ℕ → List ℕ
unfolding batch_destinations
batch_sources zero src starting_dest number_dest = []
batch_sources (suc left) src starting_dest number_dest =
    batch_destinations src number_dest starting_dest
    ++ batch_sources left ((src + 1) % 65536) starting_dest number_dest

pub make_link_request_batch : ℕ → ℕ → ℕ → ℕ → List ℕ
unfolding batch_sources
make_link_request_batch starting_src number_src starting_dest number_dest =
    batch_sources number_src starting_src starting_dest number_dest

-- What `init` makes.
pub link_batch_request : List ℕ
link_batch_request = make_link_request_batch 0 1 0 100

pub record Dnp3Log : Type 0 where
  pub is_dnp3 : Bool
  pub raw_response : List ℕ

-- `binary.BigEndian.Uint16(buffer[0:2]) == LINK_START_FIELD`
starts_link : List ℕ → Bool
starts_link (a ∷ b ∷ bs) = a * 256 + b == 0x0564
starts_link _ = false

record_response : List ℕ → Dnp3Log → Dnp3Log
unfolding starts_link
record_response bytes log =
    if leb 10 (length bytes) && starts_link (fill bytes (make 8192))
    then record { is_dnp3 = true; raw_response = bytes }
    else log

-- What the read decides, by its bytes and its error.
respond : List ℕ → Option NetError → Dnp3Log → Option NetError × Dnp3Log
unfolding record_response
respond bytes none log = (none, record_response bytes log)
respond bytes (some eof) log = (none, record_response bytes log)
respond bytes (some timeout) log = (some timeout, log)
respond bytes (some (other e)) log = (some (other e), log)

module _ {S : Type 0} (conn : NetConn S) where
  -- `GetDNP3Banner`: the error, the log, and the connection. The error of the write is dropped.
  pub get_dnp3_banner : Dnp3Log → S → (Option NetError × Dnp3Log) × S
  unfolding respond
  get_dnp3_banner log s =
      let (r, s') = conn.read 8192 (conn.write link_batch_request s).1 in
      (respond r.bytes r.error log, s')
