-- ===== src/Dnp3/Checksum.antt =====
-- The table of `Crc16` against the division that it stands for.
use tls_banner_grab_go.Base.Xor.{
  zero-bit_xor, bit_xor-zero, bit_xor_step, half-bit_xor, parity-bit_xor, bit_xor_assoc,
  bit_and-byte,
}
use tls_banner_grab_go.Base.{
  ◌+◌, ◌*◌, ◌⊎◌, inl, inr, ap, sym, ◌∙◌, List, [], ◌∷◌, All, bit_and, ℕ, zero, suc, ◌/◌, ◌%◌, ◌<◌,
  ◌≡◌, refl, bit_xor, Bool, true, get_elem?, ◌==◌, if◌then◌else◌, arith,
}
use tls_banner_grab_go.Base.Bits.{all_below, all_below_sound}
use tls_banner_grab_go.Dnp3.{table_at, crc_update, crc_loop, crc16}
use tls_banner_grab_go.Net.{IsByte}

-- One bit of the division by the polynomial of DNP3, 0x3d65, whose digits are reversed here.
abbrev pub divide_bit : ℕ → ℕ
divide_bit r = if r % 2 == 1 then bit_xor (r / 2) 0xa6bc else r / 2

abbrev pub divide_bits : ℕ → ℕ → ℕ
divide_bits zero r = r
divide_bits (suc n) r = divide_bits n (divide_bit r)

mod_two : (n : ℕ) → (n % 2 ≡ 0) ⊎ (n % 2 ≡ 1)
mod_two n = ground arith

-- The check of one byte.
entry_right : ℕ → Bool
entry_right b = crc_update 0 b == divide_bits 8 b

entry_right_all : all_below 256 entry_right ≡ true
unfolding all_below entry_right crc_update get_elem?
entry_right_all = refl

-- From an empty register, the table brings a byte to the remainder of its eight digits.
crc_update-divide_bits : (b : ℕ) → b < 256 → crc_update 0 b ≡ divide_bits 8 b
unfolding entry_right
crc_update-divide_bits b h = ground (arith, all_below_sound 256 entry_right b entry_right_all h)

-- `h` behind `n` digits that are 0.
shift : ℕ → ℕ → ℕ
shift zero h = h
shift (suc n) h = 2 * shift n h

divide_bit-even : (r : ℕ) → r % 2 ≡ 0 → divide_bit r ≡ r / 2
divide_bit-even r h = ground arith

divide_bit-odd : (r : ℕ) → r % 2 ≡ 1 → divide_bit r ≡ bit_xor (r / 2) 0xa6bc
divide_bit-odd r h = ground arith

-- A step of the division leaves what stands above alone.
divide_bit-bit_xor : (g y : ℕ) → divide_bit (bit_xor (2 * g) y) ≡ bit_xor g (divide_bit y)
divide_bit-bit_xor g y =
    let half : bit_xor (2 * g) y / 2 ≡ bit_xor g (y / 2) =
      half-bit_xor (2 * g) y ∙ ap (λ u. bit_xor u (y / 2)) (omega arith) in
    let same : bit_xor (2 * g) y % 2 ≡ y % 2 = omega (arith, parity-bit_xor (2 * g) y) in
    elim (mod_two y) [
      | inl e ↦
          divide_bit-even (bit_xor (2 * g) y) (same ∙ e)
          ∙ half
          ∙ ap (bit_xor g) (sym (divide_bit-even y e))
      | inr e ↦
          divide_bit-odd (bit_xor (2 * g) y) (same ∙ e)
          ∙ ap (λ u. bit_xor u 0xa6bc) half
          ∙ bit_xor_assoc g (y / 2) 0xa6bc
          ∙ ap (bit_xor g) (sym (divide_bit-odd y e))
    ]

divide_bits-shift :
    (n h y : ℕ) → divide_bits n (bit_xor (shift n h) y) ≡ bit_xor h (divide_bits n y)
unfolding shift
divide_bits-shift zero h y = refl
divide_bits-shift (suc n) h y =
    ap (divide_bits n) (divide_bit-bit_xor (shift n h) y) ∙ divide_bits-shift n h (divide_bit y)

-- Digits that do not meet are added.
bit_xor-shift : (n h l : ℕ) → l < shift n 1 → bit_xor (shift n h) l ≡ shift n h + l
unfolding shift
bit_xor-shift zero h l k = let e : l ≡ 0 = omega arith in rw e (omega (arith, bit_xor-zero h))
bit_xor-shift (suc n) h l k =
    let half : 2 * shift n h / 2 ≡ shift n h = omega arith in
    omega (
      arith,
      bit_xor_step (2 * shift n h) l,
      ap (λ u. bit_xor u (l / 2)) half,
      bit_xor-shift n h (l / 2) (omega arith),
    )

-- Eight steps of the division take the lowest byte away.
divide_bits-byte : (x : ℕ) → divide_bits 8 x ≡ bit_xor (x / 256) (divide_bits 8 (x % 256))
unfolding shift
divide_bits-byte x =
    let e : bit_xor (shift 8 (x / 256)) (x % 256) ≡ x =
      omega (arith, bit_xor-shift 8 (x / 256) (x % 256) (omega arith)) in
    ap (divide_bits 8) (sym e) ∙ divide_bits-shift 8 (x / 256) (x % 256)

bit_xor-lt : (n a b : ℕ) → a < shift n 1 → b < shift n 1 → bit_xor a b < shift n 1
unfolding shift
bit_xor-lt zero a b h k = let e : a ≡ 0 = omega arith in rw e (omega (arith, zero-bit_xor b))
bit_xor-lt (suc n) a b h k =
    omega (arith, bit_xor_step a b, bit_xor-lt n (a / 2) (b / 2) (omega arith) (omega arith))

-- A byte leaves the upper digits alone.
bit_xor-div : (r b : ℕ) → b < 256 → bit_xor r b / 256 ≡ r / 256
unfolding shift
bit_xor-div r b h =
    let low = bit_xor (r % 256) b in
    let small : low < 256 = bit_xor-lt 8 (r % 256) b (omega arith) (omega arith) in
    let split : bit_xor (shift 8 (r / 256)) (r % 256) ≡ r =
      omega (arith, bit_xor-shift 8 (r / 256) (r % 256) (omega arith)) in
    omega (
      arith,
      ap (λ u. bit_xor u b) split,
      bit_xor_assoc (shift 8 (r / 256)) (r % 256) b,
      bit_xor-shift 8 (r / 256) low small,
    )

-- The entry of a byte is its remainder.
table_at-divide_bits : (l : ℕ) → l < 256 → table_at l ≡ divide_bits 8 l
unfolding crc_update
table_at-divide_bits l h =
    let e : bit_and (bit_xor 0 l) 0xff ≡ l =
      omega (arith, bit_and-byte (bit_xor 0 l), zero-bit_xor l) in
    sym (ap table_at e) ∙ sym (zero-bit_xor _) ∙ crc_update-divide_bits l h

-- The table does eight steps of the division at once.
crc_update-eight : (r b : ℕ) → b < 256 → crc_update r b ≡ divide_bits 8 (bit_xor r b)
unfolding crc_update
crc_update-eight r b h =
    let x = bit_xor r b in
    ap (λ i. bit_xor (r / 256) (table_at i)) (bit_and-byte x)
    ∙ ap (bit_xor (r / 256)) (table_at-divide_bits (x % 256) (omega arith))
    ∙ ap (λ q. bit_xor q (divide_bits 8 (x % 256))) (sym (bit_xor-div r b h))
    ∙ sym (divide_bits-byte x)

-- The division of a message by the polynomial, digit by digit.
unfoldable pub remainder : ℕ → List ℕ → ℕ
remainder r [] = r
remainder r (b ∷ bs) = remainder (divide_bits 8 (bit_xor r b)) bs

crc_loop-remainder : (r : ℕ) (bs : List ℕ) → All IsByte bs → crc_loop r bs ≡ remainder r bs
unfolding remainder
crc_loop-remainder r [] h = refl
crc_loop-remainder r (b ∷ bs) (h, hs) =
    crc_loop-remainder (crc_update r b) bs hs ∙ ap (λ q. remainder q bs) (crc_update-eight r b h)

-- The checksum of any bytes, which goes by a table, is the inverted remainder that the division
-- by the polynomial 0x3d65 leaves of them digit by digit.
pub crc16-remainder : (bs : List ℕ) → All IsByte bs → crc16 bs ≡ bit_xor (remainder 0 bs) 0xffff
unfolding crc16
crc16-remainder bs h = ap (λ r. bit_xor r 0xffff) (crc_loop-remainder 0 bs h)
