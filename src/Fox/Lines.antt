-- ===== src/Fox/Lines.antt =====
-- Splitting text into lines and fields, and the numbers of ztools/scada/fox.
use tls_banner_grab_go.Base.{
  length-append, Bool-cases, inl, inr, ℕ, zero, suc, ◌+◌, ◌-◌, ◌*◌, ◌/◌, ◌%◌, ◌^◌, ◌<◌, ◌≡◌, ◌≢◌,
  refl, ◌∙◌, ap, Bool, true, false, not, ◌&&◌, List, [], ◌∷◌, ◌++◌, some, length, ltb, ◌==◌,
  if◌then◌else◌, arith,
}
use tls_banner_grab_go.Fox.{first_part, second, is_digit, after_colon, all_digits, digits_value}
use tls_banner_grab_go.Net.Text.{split, on_first}

-- Whether a text is free of a byte.
unfoldable pub lacks : ℕ → List ℕ → Bool
lacks b [] = true
lacks b (x ∷ xs) = not (x == b) && lacks b xs

pub split-append :
    (sep : ℕ) (text rest : List ℕ)
    → lacks sep text ≡ true
    → split sep (text ++ (sep ∷ rest)) ≡ text ∷ split sep rest
unfolding split lacks
split-append sep [] rest h = ground arith
split-append sep (x ∷ xs) rest h =
    let tail = split-append sep xs rest (ground arith) in
    let other : (x == sep) ≡ false = ground arith in rw (other, tail) refl

pub split-lacks : (sep : ℕ) (text : List ℕ) → lacks sep text ≡ true → split sep text ≡ text ∷ []
unfolding split lacks
split-lacks sep [] h = refl
split-lacks sep (x ∷ xs) h =
    let tail = split-lacks sep xs (ground arith) in
    let other : (x == sep) ≡ false = ground arith in rw (other, tail) refl

-- The first part of a text goes on over bytes that are no separators.
on_first-some :
    (b : ℕ) (parts : List (List ℕ)) → first_part (on_first b parts) ≡ b ∷ first_part parts
on_first-some b [] = refl
on_first-some b (part ∷ parts) = refl

pub first_part-split :
    (sep : ℕ) (text rest : List ℕ)
    → lacks sep text ≡ true
    → first_part (split sep (text ++ rest)) ≡ text ++ first_part (split sep rest)
unfolding split lacks
first_part-split sep [] rest h = refl
first_part-split sep (x ∷ xs) rest h =
    let tail = first_part-split sep xs rest (ground arith) in
    let other : (x == sep) ≡ false = ground arith in
    rw other (on_first-some x (split sep (xs ++ rest)) ∙ ap (λ t. x ∷ t) tail)

pub first_part-lacks :
    (sep : ℕ) (text : List ℕ) → lacks sep text ≡ true → first_part (split sep text) ≡ text
first_part-lacks sep text h = rw (split-lacks sep text h) refl

split-some :
    (sep : ℕ) (text : List ℕ)
    → (parts : List (List ℕ)) × (split sep text ≡ first_part (split sep text) ∷ parts)
unfolding split
split-some sep [] = ([], refl)
split-some sep (x ∷ xs) =
    let (parts, e) = split-some sep xs in
    elim (Bool-cases (x == sep)) [
      | inl same ↦ (split sep xs, rw same refl)
      | inr other ↦ (parts, rw other (rw e refl))
    ]

-- The text behind the first colon ends at the second.
pub after_colon-append :
    (key text : List ℕ)
    → lacks b':' key ≡ true
    → after_colon (key ++ (b':' ∷ text)) ≡ some (first_part (split b':' text))
after_colon-append key text h =
    let (parts, e) = split-some b':' text in
    rw (split-append b':' key text h) (ap (λ ps. second (key ∷ ps)) e)

pub lacks-append :
    (b : ℕ) (xs ys : List ℕ) → lacks b xs ≡ true → lacks b ys ≡ true → lacks b (xs ++ ys) ≡ true
unfolding lacks
lacks-append b [] ys hx hy = hy
lacks-append b (x ∷ xs) ys hx hy = let tail = lacks-append b xs ys (ground arith) hy in ground arith

-- The decimal of a number, of at most `fuel` digits.
unfoldable pub decimal : ℕ → ℕ → List ℕ
decimal zero n = []
decimal (suc fuel) n =
    let front = decimal fuel (n / 10) in
    if ltb n 10 then (b'0' + n) ∷ [] else front ++ ((b'0' + n % 10) ∷ [])

pub digits_value-append :
    (n : ℕ) (xs : List ℕ) (d : ℕ)
    → digits_value n (xs ++ (d ∷ [])) ≡ digits_value n xs * 10 + (d - b'0')
unfolding digits_value
digits_value-append n [] d = refl
digits_value-append n (x ∷ xs) d = digits_value-append (n * 10 + (x - b'0')) xs d

pub all_digits-append :
    (xs : List ℕ) (d : ℕ)
    → d < 10
    → all_digits xs ≡ true
    → all_digits (xs ++ ((b'0' + d) ∷ [])) ≡ true
unfolding all_digits
all_digits-append [] d h k = ground arith
all_digits-append (x ∷ xs) d h k =
    let tail = all_digits-append xs d h (ground arith) in ground arith

single-digit : (n : ℕ) → n < 10 → all_digits ((b'0' + n) ∷ []) ≡ true
unfolding all_digits
single-digit n h = ground arith

pub decimal-value :
    (fuel n : ℕ)
    → n < 10 ^ fuel
    → (digits_value 0 (decimal fuel n) ≡ n) × (all_digits (decimal fuel n) ≡ true)
unfolding decimal digits_value all_digits
decimal-value zero n h = (omega arith, refl)
decimal-value (suc fuel) n h =
    let (value, digits) = decimal-value fuel (n / 10) (omega arith) in
    let front = decimal fuel (n / 10) in
    let longer = digits_value-append 0 front (b'0' + n % 10) in
    let digits' = all_digits-append front (n % 10) (omega arith) digits in
    elim (Bool-cases (ltb n 10)) [
      | inl small ↦ (rw small (omega arith), rw small (single-digit n (ground arith)))
      | inr big ↦ (
        rw big (longer ∙ ap (λ v. v * 10 + (b'0' + n % 10 - b'0')) value ∙ omega arith),
        rw big digits',
      )
    ]

pub decimal-some : (fuel n : ℕ) → length (decimal (suc fuel) n) ≢ 0
unfolding decimal
decimal-some fuel n h = ground (arith, length-append (decimal fuel (n / 10)) ((b'0' + n % 10) ∷ []))

pub all_digits-lacks :
    (b : ℕ) (text : List ℕ) → is_digit b ≡ false → all_digits text ≡ true → lacks b text ≡ true
unfolding all_digits lacks
all_digits-lacks b [] h k = refl
all_digits-lacks b (x ∷ xs) h k = let tail = all_digits-lacks b xs h (ground arith) in ground arith
