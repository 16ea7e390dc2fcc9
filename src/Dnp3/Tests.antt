-- ===== src/Dnp3/Tests.antt =====
-- Runs of the DNP3 code, and its theorems at concrete inputs.
use tls_banner_grab_go.Base.{
  bit_xor, ◌*◌, ◌≡◌, List, [], ◌∷◌, some, none, arith, refl, false, get_elem?,
}
use tls_banner_grab_go.Net.{ReadResult}
use tls_banner_grab_go.Net.Script.{script}
use tls_banner_grab_go.Dnp3.{
  crc_update, crc16, make_link_header, link_fields, make_link_request_batch, Dnp3Log,
  get_dnp3_banner, link_batch_request,
}
use tls_banner_grab_go.Dnp3.Checksum.{remainder, crc16-remainder}
use tls_banner_grab_go.Dnp3.Batch.{read_links, requests, read_links-make_link_request_batch}
use tls_banner_grab_go.Dnp3.Banner.{Outcome, get_dnp3_banner-Outcome}

-- The header of a status request from 0 to 1, with its checksum.
header_run : make_link_header 0 1 9 0 ≡ 0x05 ∷ 0x64 ∷ 5 ∷ 0xc9 ∷ 1 ∷ 0 ∷ 0 ∷ 0 ∷ 0xde ∷ 0x8e ∷ []
unfolding make_link_header link_fields crc16 crc_update get_elem?
header_run = refl

crc16-remainder_example : crc16 (0x05 ∷ 0x64 ∷ []) ≡ bit_xor (remainder 0 (0x05 ∷ 0x64 ∷ [])) 0xffff
crc16-remainder_example = crc16-remainder (0x05 ∷ 0x64 ∷ []) (omega arith, omega arith)

read_links-make_link_request_batch_example :
    read_links (1 * 100) (make_link_request_batch 0 1 65500 100) ≡ some (requests 1 0 100 65500)
read_links-make_link_request_batch_example =
    read_links-make_link_request_batch 0 1 65500 100 (omega arith) (omega arith)

abbrev new_log : Dnp3Log
new_log = record { is_dnp3 = false; raw_response = [] }

abbrev reads : List ReadResult
reads = record { bytes = 0x05 ∷ 0x64 ∷ 5 ∷ 11 ∷ 0 ∷ 0 ∷ 1 ∷ 0 ∷ 1 ∷ 2 ∷ []; error = none } ∷ []

get_dnp3_banner-Outcome_example :
    let r = ((script 8192).read 8192 ((script 8192).write link_batch_request reads).1).0 in
    Outcome new_log r.bytes r.error (get_dnp3_banner (script 8192) new_log reads).0
get_dnp3_banner-Outcome_example = get_dnp3_banner-Outcome (script 8192) new_log reads
