-- ===== src/Siemens/Panics.antt =====
-- Where reading a packet of Siemens S7 panics.
use tls_banner_grab_go.Base.{
  ℕ, zero, suc, ◌+◌, ◌*◌, ◌%◌, ◌≤◌, ◌<◌, ◌≡◌, ◌≢◌, ◌↔◌, refl, ap, ◌∙◌, List, [], ◌∷◌, some, length,
  drop, get_elem?, ltb, arith, length-drop, get_elem?-IsSome, inl, inr, Bool-cases,
}
use tls_banner_grab_go.Net.{ok, panic}
use tls_banner_grab_go.Net.Slices.{Slice, byte_at, slice_from, uint16, uint16_at}
use tls_banner_grab_go.Siemens.{
  unmarshal_tpkt, unmarshal_cotp_data, unmarshal_s7, unmarshal_s7_body, unmarshal_read_response,
}

uint16-ok : (bytes : List ℕ) → 2 ≤ length bytes → (n : ℕ) × (uint16 bytes ≡ ok n)
unfolding uint16
uint16-ok [] h = absurd (omega arith)
uint16-ok (b ∷ []) h = absurd (omega arith)
uint16-ok (hi ∷ lo ∷ bytes) h = (hi * 256 + lo, refl)

uint16_at-ok : (s : Slice) (i : ℕ) → i + 2 ≤ length s.cells → (n : ℕ) × (uint16_at s i ≡ ok n)
unfolding uint16_at
uint16_at-ok s i h = uint16-ok (drop i s.cells) (omega (arith, length-drop i s.cells))

unmarshal_s7_body-ne-panic :
    (s : Slice) (t header error : ℕ)
    → 12 ≤ length s.cells
    → unmarshal_s7_body s t header error ≢ panic
unfolding unmarshal_s7_body
unmarshal_s7_body-ne-panic s t header error h =
    let (a, ea) = uint16_at-ok s 4 (omega arith) in
    let (b, eb) = uint16_at-ok s 6 (omega arith) in
    let (c, ec) = uint16_at-ok s 8 (omega arith) in ground arith

-- In a slice with twelve bytes up to its capacity, `Unmarshal` panics exactly on the single byte
-- of the protocol.
unmarshal_s7-panic :
    (s : Slice)
    → s.len ≤ length s.cells
    → 12 ≤ length s.cells
    → (unmarshal_s7 s ≡ panic) ↔ ((s.len ≡ 1) × (get_elem? s.cells 0 ≡ some 0x32))
unfolding unmarshal_s7 byte_at
unmarshal_s7-panic s l h =
    let (b0, e0) = get_elem?-IsSome s.cells 0 (omega arith) in
    let (b1, e1) = get_elem?-IsSome s.cells 1 (omega arith) in
    let (error, e2) = uint16_at-ok s 10 (omega arith) in
    ground
      (arith, unmarshal_s7_body-ne-panic s b1 12 error h, unmarshal_s7_body-ne-panic s b1 10 0 h)

get_elem?-drop : (k i : ℕ) (xs : List ℕ) → get_elem? (drop k xs) i ≡ get_elem? xs (k + i)
unfolding get_elem? drop
get_elem?-drop zero i xs = let e : 0 + i ≡ i = omega arith in rw e
get_elem?-drop (suc k) i [] = refl
get_elem?-drop (suc k) i (x ∷ xs) =
    let e : suc k + i ≡ suc (k + i) = omega arith in rw e (get_elem?-drop k i xs)

-- What the packet is for the bytes behind a header of `4 + k` bytes.
panic-behind :
    (s : Slice) (k : ℕ)
    → s.len ≤ length s.cells
    → length s.cells ≡ 2048
    → k < 256
    → k + 4 ≤ s.len
    → (unmarshal_s7 (slice_from k (slice_from 4 s)) ≡ panic)
      ↔ ((s.len ≡ 5 + k) × (get_elem? s.cells (4 + k) ≡ some 0x32))
panic-behind s k l c h m =
    let inner = slice_from k (slice_from 4 s) in
    let first : get_elem? inner.cells 0 ≡ get_elem? s.cells (4 + k) =
      get_elem?-drop k 0 (drop 4 s.cells)
      ∙ get_elem?-drop 4 (k + 0) s.cells
      ∙ ap (λ j. get_elem? s.cells j) (omega arith) in
    ground (
      arith,
      length-drop k (drop 4 s.cells),
      length-drop 4 s.cells,
      unmarshal_s7-panic inner
          (omega (arith, length-drop k (drop 4 s.cells), length-drop 4 s.cells))
          (omega (arith, length-drop k (drop 4 s.cells), length-drop 4 s.cells)),
      first,
    )

-- A response in a buffer of 2048 bytes panics exactly where the packet behind the COTP header,
-- whose length is the fifth byte and one, is the single byte of the protocol.
pub unmarshal_read_response-panic :
    (s : Slice) (header_size : ℕ)
    → s.len ≤ length s.cells
    → length s.cells ≡ 2048
    → get_elem? s.cells 4 ≡ some header_size
    → (unmarshal_read_response s ≡ panic) ↔ (
        (s.len ≡ 5 + (header_size + 1) % 256)
        × (get_elem? s.cells (4 + (header_size + 1) % 256) ≡ some 0x32))
unfolding unmarshal_read_response unmarshal_tpkt unmarshal_cotp_data byte_at
unmarshal_read_response-panic s header_size l c e =
    let header : get_elem? (drop 4 s.cells) 0 ≡ some header_size = get_elem?-drop 4 0 s.cells ∙ e in
    elim (Bool-cases (ltb s.len ((header_size + 1) % 256 + 4))) [
      | inl h ↦ ground arith
      | inr h ↦
          let behind = panic-behind s ((header_size + 1) % 256) l c (omega arith) (ground arith) in
          ground arith
    ]
