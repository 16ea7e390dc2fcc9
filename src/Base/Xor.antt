-- ===== src/Base/Xor.antt =====
-- The exclusive or and the masks of numbers, by their lowest digits.
use Prim.Native.Nat.{
  ℕ, zero, suc, ◌+◌, ◌-◌, ◌*◌, ◌/◌, ◌%◌, ◌≤◌, ◌<◌, min, differ, bit_and, bit_xor, digits,
  bit_and-bitwise, bit_xor-bitwise,
}
use mathlib.Core.Path.{◌≡◌, refl, sym, ap, ◌∙◌}
use native.Mathlib.Omega.{arith}

-- A number has no more digits than it counts, so that a longer count gives the same.
module _ (z : ℕ → ℕ) (f : ℕ → ℕ → ℕ) where
  digits-suc : (n a b : ℕ) → a ≤ n → digits z f (suc n) a b ≡ digits z f n a b
  digits-suc zero zero b h = refl
  digits-suc (suc n) zero b h = refl
  digits-suc zero (suc a) b h = absurd (omega arith)
  digits-suc (suc n) (suc a) b h =
      ap (λ d. d * 2 + f (suc a % 2) (b % 2)) (digits-suc n (suc a / 2) (b / 2) (omega arith))

  digits-add : (k n a b : ℕ) → a ≤ n → digits z f (k + n) a b ≡ digits z f n a b
  digits-add zero n a b h = ap (λ m. digits z f m a b) (omega arith)
  digits-add (suc k) n a b h =
      let e : suc k + n ≡ suc (k + n) = omega arith in
      ap (λ m. digits z f m a b) e ∙ digits-suc (k + n) a b (omega arith) ∙ digits-add k n a b h

  -- As many digits as half of the number counts.
  digits-half : (a b : ℕ) → digits z f a (suc a / 2) b ≡ digits z f (suc a / 2) (suc a / 2) b
  digits-half a b =
      let k : a ≡ (a - suc a / 2) + suc a / 2 = omega arith in
      ap (λ m. digits z f m (suc a / 2) b) k
      ∙ digits-add (a - suc a / 2) (suc a / 2) (suc a / 2) b (omega arith)

differ-mod : (x y : ℕ) → x < 2 → y < 2 → differ x y ≡ (x + y) % 2
differ-mod zero y p q = omega arith
differ-mod (suc zero) zero p q = refl
differ-mod (suc zero) (suc zero) p q = refl
differ-mod (suc zero) (suc (suc y)) p q = absurd (omega arith)
differ-mod (suc (suc x)) y p q = absurd (omega arith)

pub zero-bit_xor : (b : ℕ) → bit_xor 0 b ≡ b
zero-bit_xor b = bit_xor-bitwise 0 b

pub bit_xor_step : (a b : ℕ) → bit_xor a b ≡ bit_xor (a / 2) (b / 2) * 2 + (a + b) % 2
bit_xor_step zero b = omega (arith, zero-bit_xor b, zero-bit_xor (b / 2))
bit_xor_step (suc a) b = omega (
  arith,
  bit_xor-bitwise (suc a) b,
  bit_xor-bitwise (suc a / 2) (b / 2),
  digits-half (λ d. d) differ a (b / 2),
  differ-mod (suc a % 2) (b % 2) (omega arith) (omega arith),
)

digits-differ_zero : (n a : ℕ) → a ≤ n → digits (λ d. d) differ n a 0 ≡ a
digits-differ_zero zero a h = omega arith
digits-differ_zero (suc n) zero h = refl
digits-differ_zero (suc n) (suc a) h = omega (
  arith,
  digits-differ_zero n (suc a / 2) (omega arith),
  differ-mod (suc a % 2) 0 (omega arith) (omega arith),
)

pub bit_xor-zero : (a : ℕ) → bit_xor a 0 ≡ a
bit_xor-zero a = bit_xor-bitwise a 0 ∙ digits-differ_zero a a (omega arith)

pub half-bit_xor : (a b : ℕ) → bit_xor a b / 2 ≡ bit_xor (a / 2) (b / 2)
half-bit_xor a b = omega (arith, bit_xor_step a b)

pub parity-bit_xor : (a b : ℕ) → bit_xor a b % 2 ≡ (a + b) % 2
parity-bit_xor a b = omega (arith, bit_xor_step a b)

bit_xor_assoc_fuel : (n a b c : ℕ) → a ≤ n → bit_xor (bit_xor a b) c ≡ bit_xor a (bit_xor b c)
bit_xor_assoc_fuel n zero b c h =
    ap (λ u. bit_xor u c) (zero-bit_xor b) ∙ sym (zero-bit_xor (bit_xor b c))
bit_xor_assoc_fuel zero (suc a) b c h = absurd (omega arith)
bit_xor_assoc_fuel (suc n) (suc a) b c h = omega (
  arith,
  bit_xor_step (bit_xor (suc a) b) c,
  bit_xor_step (suc a) (bit_xor b c),
  parity-bit_xor (suc a) b,
  parity-bit_xor b c,
  ap (λ u. bit_xor u (c / 2)) (half-bit_xor (suc a) b),
  ap (λ u. bit_xor (suc a / 2) u) (half-bit_xor b c),
  bit_xor_assoc_fuel n (suc a / 2) (b / 2) (c / 2) (omega arith),
)

pub bit_xor_assoc : (a b c : ℕ) → bit_xor (bit_xor a b) c ≡ bit_xor a (bit_xor b c)
bit_xor_assoc a b c = bit_xor_assoc_fuel a a b c (omega arith)

-- Below an odd mask the lowest digit is kept.
mask_step : (a b : ℕ) → bit_and a (suc (2 * b)) ≡ bit_and (a / 2) b * 2 + a % 2
mask_step zero b = omega (arith, bit_and-bitwise 0 (suc (2 * b)), bit_and-bitwise 0 b)
mask_step (suc a) b =
    let e : suc (2 * b) / 2 ≡ b = omega arith in
    omega (
      arith,
      bit_and-bitwise (suc a) (suc (2 * b)),
      bit_and-bitwise (suc a / 2) b,
      ap (digits (λ d. 0) min a (suc a / 2)) e,
      digits-half (λ d. 0) min a b,
    )

digits-min_zero : (n a : ℕ) → digits (λ d. 0) min n a 0 ≡ 0
digits-min_zero zero a = refl
digits-min_zero (suc n) zero = refl
digits-min_zero (suc n) (suc a) = omega (arith, digits-min_zero n (suc a / 2))

bit_and-zero : (a : ℕ) → bit_and a 0 ≡ 0
bit_and-zero a = bit_and-bitwise a 0 ∙ digits-min_zero a a

bit_and-fifteen : (a : ℕ) → bit_and a 15 ≡ a % 16
bit_and-fifteen a = omega (
  arith,
  mask_step a 7,
  mask_step (a / 2) 3,
  mask_step (a / 2 / 2) 1,
  mask_step (a / 2 / 2 / 2) 0,
  bit_and-zero (a / 2 / 2 / 2 / 2),
)

-- `a & 0xFF`
pub bit_and-byte : (a : ℕ) → bit_and a 255 ≡ a % 256
bit_and-byte a = omega (
  arith,
  mask_step a 127,
  mask_step (a / 2) 63,
  mask_step (a / 2 / 2) 31,
  mask_step (a / 2 / 2 / 2) 15,
  bit_and-fifteen (a / 2 / 2 / 2 / 2),
)
