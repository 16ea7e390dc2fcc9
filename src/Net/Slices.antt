-- ===== src/Net/Slices.antt =====
-- Byte slices of Go with their capacity, and `encoding/binary` on 16 bits.
use tls_banner_grab_go.Base.{
  ℕ, ◌+◌, ◌*◌, ◌-◌, ◌/◌, ◌%◌, List, [], ◌∷◌, Option, none, get_elem?, drop, ltb, if◌then◌else◌,
}
use tls_banner_grab_go.Net.{Result, ok, panic}

-- `cells` runs from the slice's first byte to its capacity, and `len` of them are in the slice.
pub record Slice : Type 0 where
  pub cells : List ℕ
  pub len : ℕ

-- `s[i]`; `none` is the panic
unfoldable pub byte_at : Slice → ℕ → Option ℕ
byte_at s i = if ltb i s.len then get_elem? s.cells i else none

-- `s[k:]` where `k` is at most the length
abbrev pub slice_from : ℕ → Slice → Slice
slice_from k s = record { cells = drop k s.cells; len = s.len - k }

abbrev pub put_uint16 : ℕ → List ℕ
put_uint16 n = (n / 256 % 256) ∷ (n % 256) ∷ []

unfoldable pub uint16 : List ℕ → Result ℕ
uint16 (hi ∷ lo ∷ bs) = ok (hi * 256 + lo)
uint16 _ = panic

-- `binary.BigEndian.Uint16(s[i : i+2])`: the upper bound of a slice expression may lie between the
-- length and the capacity.
unfoldable pub uint16_at : Slice → ℕ → Result ℕ
uint16_at s i = uint16 (drop i s.cells)
