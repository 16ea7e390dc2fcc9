-- ===== src/Bacnet/Codec.antt =====
-- The BACnet headers and properties, written and read back.
use tls_banner_grab_go.Base.{
  ℕ, suc, ◌+◌, ◌*◌, ◌/◌, ◌%◌, ◌<◌, ◌≡◌, ap, ◌∙◌, Bool, true, false, List, [], ◌∷◌, ◌++◌, none, some,
  length, take, drop, leb, if◌then◌else◌, arith, length-append, take-append, drop-append,
}
use tls_banner_grab_go.Bacnet.{
  parsed, Vlc, Apdu, ReadProperty, marshal_vlc, unmarshal_vlc, marshal_apdu, unmarshal_apdu,
  put_uint32, marshal_read_property, unmarshal_read_property, read_instance_number,
  read_string_property, read_property_bytes,
}

-- A VLC header of IP type with a 16-bit length is read back, with what follows it.
pub unmarshal_vlc-marshal_vlc :
    (v : Vlc) (rest : List ℕ)
    → v.vlc_type ≡ 0x81
    → v.len < 65536
    → unmarshal_vlc (marshal_vlc v ++ rest) ≡ parsed (v, rest)
unfolding unmarshal_vlc marshal_vlc
unmarshal_vlc-marshal_vlc v rest t h = ground arith

has_segment : Apdu → Bool
has_segment a = elim a.segment_size [ none ↦ false | some raw ↦ true ]

unmarshal_apdu-marshal_apdu :
    (a : Apdu) (rest : List ℕ)
    → unmarshal_apdu (has_segment a) (marshal_apdu a ++ rest) ≡ parsed (a, rest)
unfolding unmarshal_apdu marshal_apdu has_segment
unmarshal_apdu-marshal_apdu a rest = ground arith

-- A property selection with a 32-bit object is read back, with what follows it.
pub unmarshal_read_property-marshal :
    (rp : ReadProperty) (rest : List ℕ)
    → rp.object < 4294967296
    → unmarshal_read_property (marshal_read_property rp ++ rest) ≡ parsed (rp, rest)
unfolding unmarshal_read_property marshal_read_property
unmarshal_read_property-marshal rp rest h = ground arith

pub read_instance_number-put_uint32 :
    (n : ℕ) (rest : List ℕ)
    → n < 4294967296
    → read_instance_number (0x3e ∷ 0xc4 ∷ put_uint32 n ++ (0x3f ∷ rest)) ≡ (rest, n % 262144, none)
unfolding read_instance_number
read_instance_number-put_uint32 n rest h =
    let whole : n / 16777216 % 256 * 16777216
          + n / 65536 % 256 * 65536
          + n / 256 % 256 * 256
          + n % 256
        ≡ n =
      omega arith in
    rw whole

-- A string behind its encoding byte, with the length in the tag or in a byte of its own.
abbrev pub encode_string : ℕ → List ℕ → List ℕ
encode_string encoding value =
    if leb (length value) 3
    then 0x3e ∷ (0x71 + length value) ∷ encoding ∷ value
    else 0x3e ∷ 0x75 ∷ suc (length value) ∷ encoding ∷ value

read_property_bytes-value :
    (b : List ℕ) (encoding : ℕ) (value rest : List ℕ)
    → read_property_bytes b (suc (length value)) (encoding ∷ value ++ (0x3f ∷ rest))
      ≡ (rest, value, none)
unfolding read_property_bytes take drop
read_property_bytes-value b encoding value rest = ground (
  arith,
  take-append value (0x3f ∷ rest),
  drop-append value (0x3f ∷ rest),
  length-append value (0x3f ∷ rest),
)

encode_string-long :
    (encoding : ℕ) (value : List ℕ)
    → 3 < length value
    → encode_string encoding value ≡ 0x3e ∷ 0x75 ∷ suc (length value) ∷ encoding ∷ value
encode_string-long encoding value h = ground arith

-- A string of less than 255 bytes behind its encoding byte is read back, with what follows its
-- closing tag.
pub read_string_property-encode_string :
    (encoding : ℕ) (value rest : List ℕ)
    → length value < 255
    → read_string_property (encode_string encoding value ++ (0x3f ∷ rest)) ≡ (rest, value, none)
unfolding read_string_property
read_string_property-encode_string encoding [] rest h = read_property_bytes-value _ encoding [] rest
read_string_property-encode_string encoding (a ∷ []) rest h =
    read_property_bytes-value _ encoding (a ∷ []) rest
read_string_property-encode_string encoding (a ∷ b ∷ []) rest h =
    read_property_bytes-value _ encoding (a ∷ b ∷ []) rest
read_string_property-encode_string encoding (a ∷ b ∷ c ∷ []) rest h =
    read_property_bytes-value _ encoding (a ∷ b ∷ c ∷ []) rest
read_string_property-encode_string encoding (a ∷ b ∷ c ∷ d ∷ v) rest h =
    let value : List ℕ = a ∷ b ∷ c ∷ d ∷ v in
    ap (λ t. read_string_property (t ++ (0x3f ∷ rest)))
      (encode_string-long encoding value (omega arith))
    ∙ read_property_bytes-value _ encoding value rest
