-- ===== src/Telnet/Json.antt =====
-- The JSON of an option: `MarshalJSON` and `UnmarshalJSON` of ztools/telnet/telnet.go, with
-- encoding/json as what it makes of the structs with a name and a value.
use tls_banner_grab_go.Base.{
  ℕ, ◌≡◌, ◌<◌, ◌||◌, ◌%◌, refl, arith, true, false, List, String, Bool, if◌then◌else◌,
}
use tls_banner_grab_go.Base.Int.{ℤ, pos, negsuc, ltb_ℤ, pos_part}
use tls_banner_grab_go.Net.{new, Result, ok, err, panic, stuck}
use tls_banner_grab_go.Telnet.Options.{name}

-- The struct that `MarshalJSON` fills; `UnmarshalJSON` has the same one without the name.
pub record OptionJson : Type 0 where
  pub option_name : String
  pub value : ℤ

-- `json.Marshal` of such a struct, and the field `value` that `json.Unmarshal` sets.
pub record Json : Type 0 where
  pub marshal : OptionJson → Result (List ℕ)
  pub unmarshal : List ℕ → Result ℤ
  pub unmarshal-marshal :
      (v : OptionJson) (bs : List ℕ) → marshal v ≡ ok bs → unmarshal bs ≡ ok v.value

-- `aux.Value < 0 || aux.Value > 255`
unfoldable invalid : ℤ → Bool
invalid v = ltb_ℤ v (pos 0) || ltb_ℤ (pos 255) v

invalid-pos_small : (n : ℕ) → n < 256 → invalid (pos n) ≡ false
unfolding invalid
invalid-pos_small n h = ground arith

invalid-pos_large : (n : ℕ) → 255 < n → invalid (pos n) ≡ true
unfolding invalid
invalid-pos_large n h = ground arith

invalid-negsuc : (n : ℕ) → invalid (negsuc n) ≡ true
unfolding invalid
invalid-negsuc n = ground arith

module _ (json : Json) where
  -- `TelnetOption.MarshalJSON`
  unfoldable marshal_json : ℕ → Result (List ℕ)
  marshal_json opt = json.marshal (record { option_name = name opt; value = pos opt })

  -- The value of the struct, put into the option.
  unfoldable set_value : ℕ → Result ℤ → Result (Unit {0}) × ℕ
  set_value opt (ok v) =
      if invalid v then (err (new "Invalid byte value"), opt) else (ok tt, pos_part v % 256)
  set_value opt (err e) = (err e, opt)
  set_value opt panic = (panic, opt)
  set_value opt stuck = (stuck, opt)

  -- `TelnetOption.UnmarshalJSON`, with the option afterwards.
  unfoldable unmarshal_json : ℕ → List ℕ → Result (Unit {0}) × ℕ
  unmarshal_json opt b = set_value opt (json.unmarshal b)

  -- What an option is written as is read as this option, whatever stood there before.
  unmarshal_json-marshal_json :
      (opt old : ℕ) (b : List ℕ)
      → opt < 256
      → marshal_json opt ≡ ok b
      → unmarshal_json old b ≡ (ok tt, opt)
  unfolding marshal_json unmarshal_json set_value
  unmarshal_json-marshal_json opt old b h e =
      let read : json.unmarshal b ≡ ok (pos opt) = json.unmarshal-marshal _ b e in
      let byte : opt % 256 ≡ opt = omega arith in rw (read, invalid-pos_small opt h, byte) refl

  -- A value that no byte has is an error, and leaves the option alone.
  unmarshal_json-above :
      (old n : ℕ) (b : List ℕ)
      → json.unmarshal b ≡ ok (pos n)
      → 255 < n
      → unmarshal_json old b ≡ (err (new "Invalid byte value"), old)
  unfolding unmarshal_json set_value
  unmarshal_json-above old n b e h = rw (e, invalid-pos_large n h) refl

  unmarshal_json-negsuc :
      (old n : ℕ) (b : List ℕ)
      → json.unmarshal b ≡ ok (negsuc n)
      → unmarshal_json old b ≡ (err (new "Invalid byte value"), old)
  unfolding unmarshal_json set_value
  unmarshal_json-negsuc old n b e = rw (e, invalid-negsuc n) refl
