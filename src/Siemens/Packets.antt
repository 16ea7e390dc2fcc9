-- ===== src/Siemens/Packets.antt =====
-- The packets of Siemens S7, written and read back, and where reading them panics.
use tls_banner_grab_go.Base.{
  ℕ, suc, ◌+◌, ◌*◌, ◌/◌, ◌%◌, ◌<◌, ◌≡◌, refl, ap, ◌∙◌, true, List, ◌∷◌, ◌++◌, length, drop,
  get_elem?, arith, length-append, take-append, drop-append, append_assoc, inl, inr, ◌⊎◌,
}
use tls_banner_grab_go.Net.{ok}
use tls_banner_grab_go.Net.Slices.{byte_at, uint16, uint16_at}
use tls_banner_grab_go.Siemens.{
  marshal_tpkt, unmarshal_tpkt, marshal_cotp_data, unmarshal_cotp_data, is_request, marshal_s7,
  unmarshal_s7, unmarshal_s7_body, make_request_packet_bytes, unmarshal_read_response,
}

-- A packet with the ten bytes of a request's header, in front of what follows it.
abbrev request_cells : ℕ → ℕ → ℕ → ℕ → ℕ → List ℕ → List ℕ
request_cells t ph pl dh dl rest = 0x32 ∷ t ∷ 0 ∷ 0 ∷ 0 ∷ 0 ∷ ph ∷ pl ∷ dh ∷ dl ∷ rest

drop-request_cells :
    (k t ph pl dh dl : ℕ) (rest : List ℕ)
    → drop (10 + k) (request_cells t ph pl dh dl rest) ≡ drop k rest
unfolding drop
drop-request_cells k t ph pl dh dl rest =
    let e : 10 + k ≡ suc (suc (suc (suc (suc (suc (suc (suc (suc (suc k))))))))) = omega arith in
    rw e

body-request_cells :
    (t ph pl dh dl len : ℕ) (parameters data_bytes beyond : List ℕ)
    → ph * 256 + pl ≡ length parameters
    → dh * 256 + dl ≡ length data_bytes
    → len ≡ 10 + length parameters + length data_bytes
    → unmarshal_s7_body
        (record {
          cells = request_cells t ph pl dh dl (parameters ++ (data_bytes ++ beyond));
          len = len;
        })
        t
        10
        0
      ≡ ok (record {
        pdu_type = t;
        request_id = 0;
        parameters = parameters;
        data_bytes = data_bytes;
        error = 0;
      })
unfolding unmarshal_s7_body uint16_at uint16 drop
body-request_cells t ph pl dh dl len parameters data_bytes beyond p d l = ground (
  arith,
  drop-request_cells (length parameters) t ph pl dh dl (parameters ++ (data_bytes ++ beyond)),
  take-append parameters (data_bytes ++ beyond),
  drop-append parameters (data_bytes ++ beyond),
  take-append data_bytes beyond,
)

request-cases : (t : ℕ) → is_request t ≡ true → (t ≡ 1) ⊎ (t ≡ 7)
request-cases t r = ground arith

-- `Unmarshal` of a request is its end.
unmarshal_s7-request_cells :
    (t ph pl dh dl len : ℕ) (rest : List ℕ)
    → is_request t ≡ true
    → 1 < len
    → unmarshal_s7 (record { cells = request_cells t ph pl dh dl rest; len = len })
      ≡ unmarshal_s7_body (record { cells = request_cells t ph pl dh dl rest; len = len }) t 10 0
unfolding unmarshal_s7 byte_at get_elem?
unmarshal_s7-request_cells t ph pl dh dl len rest r h = elim (request-cases t r) [
  | inl e ↦ ground arith
  | inr e ↦ ground arith
]

-- The frame of a request.
request_bytes : ℕ → List ℕ → List ℕ → List ℕ
request_bytes t parameters data_bytes =
    let p = length parameters % 65536 in
    let d = length data_bytes % 65536 in
    marshal_tpkt (
      marshal_cotp_data (
        request_cells t (p / 256 % 256) (p % 256) (d / 256 % 256) (d % 256)
          (parameters ++ data_bytes)))

make-request_bytes :
    (t : ℕ) (parameters data_bytes : List ℕ)
    → is_request t ≡ true
    → make_request_packet_bytes t parameters data_bytes ≡ ok (request_bytes t parameters data_bytes)
unfolding make_request_packet_bytes marshal_s7 request_bytes
make-request_bytes t parameters data_bytes r = rw r

-- A frame of a request goes through the two outer layers to `Unmarshal`.
unmarshal_read_response-layers :
    (a b c d len : ℕ) (cells : List ℕ)
    → unmarshal_read_response
        (record { cells = a ∷ b ∷ c ∷ d ∷ marshal_cotp_data cells; len = 7 + len })
      ≡ unmarshal_s7 (record { cells = cells; len = len })
unfolding unmarshal_read_response unmarshal_tpkt unmarshal_cotp_data marshal_cotp_data byte_at
    get_elem? drop
unmarshal_read_response-layers a b c d len cells = ground arith

-- A request whose parameters and data have less than 65536 bytes each comes back through the
-- three layers as it went in, whatever the buffer holds behind it.
pub unmarshal_read_response-make_request_packet_bytes :
    (t : ℕ) (parameters data_bytes beyond : List ℕ)
    → is_request t ≡ true
    → length parameters < 65536
    → length data_bytes < 65536
    → (bytes : List ℕ) × (make_request_packet_bytes t parameters data_bytes ≡ ok bytes)
      × (unmarshal_read_response (record { cells = bytes ++ beyond; len = length bytes })
          ≡ ok (record {
            pdu_type = t;
            request_id = 0;
            parameters = parameters;
            data_bytes = data_bytes;
            error = 0;
          }))
unfolding request_bytes marshal_tpkt marshal_cotp_data
unmarshal_read_response-make_request_packet_bytes t parameters data_bytes beyond r p d =
    let ph = length parameters % 65536 / 256 % 256 in
    let pl = length parameters % 65536 % 256 in
    let dh = length data_bytes % 65536 / 256 % 256 in
    let dl = length data_bytes % 65536 % 256 in
    let len : ℕ = 10 + length parameters + length data_bytes in
    let long : length (request_bytes t parameters data_bytes) ≡ 7 + len =
      omega (arith, length-append parameters data_bytes) in
    let total =
      (length (marshal_cotp_data (request_cells t ph pl dh dl (parameters ++ data_bytes))) + 4)
      % 65536 in
    let frame : request_bytes t parameters data_bytes ++ beyond
        ≡ 3
          ∷ 0
          ∷ (total / 256 % 256)
          ∷ (total % 256)
          ∷ marshal_cotp_data (request_cells t ph pl dh dl (parameters ++ (data_bytes ++ beyond))) =
      ap
        (λ rest.
          3
          ∷ 0
          ∷ (total / 256 % 256)
          ∷ (total % 256)
          ∷ marshal_cotp_data (request_cells t ph pl dh dl rest))
        (append_assoc parameters data_bytes beyond) in
    (
      request_bytes t parameters data_bytes,
      make-request_bytes t parameters data_bytes r,
      rw (long, frame)
          (unmarshal_read_response-layers _ _ _ _ len
              (request_cells t ph pl dh dl (parameters ++ (data_bytes ++ beyond)))
            ∙ unmarshal_s7-request_cells t ph pl dh dl len (parameters ++ (data_bytes ++ beyond)) r
                (omega arith)
            ∙ body-request_cells t ph pl dh dl len parameters data_bytes beyond (omega arith)
                (omega arith) refl),
    )
