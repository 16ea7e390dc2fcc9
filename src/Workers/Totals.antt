-- ===== src/Workers/Totals.antt =====
-- Sums over lists, and their changes at one place.
use tls_banner_grab_go.Base.{
  All, ap, ℕ, zero, suc, ◌+◌, ◌≡◌, refl, List, [], ◌∷◌, ◌++◌, some, length, get_elem?, arith,
}
use mathlib.Core.Path.{subst}
use tls_banner_grab_go.Workers.{set_elem, repeat}

module _ {ℓ} {A : Type ℓ} where
  unfoldable pub total : (A → ℕ) → List A → ℕ
  total f [] = 0
  total f (x ∷ xs) = f x + total f xs

  pub total-append : (f : A → ℕ) (xs ys : List A) → total f (xs ++ ys) ≡ total f xs + total f ys
  unfolding total
  total-append f [] ys = omega arith
  total-append f (x ∷ xs) ys = omega (arith, total-append f xs ys)

  pub total-snoc : (f : A → ℕ) (xs : List A) (y : A) → total f (xs ++ (y ∷ [])) ≡ total f xs + f y
  unfolding total
  total-snoc f xs y = omega (arith, total-append f xs (y ∷ []))

  -- The place gives up what it counts for, and counts for what is put there.
  pub total-set_elem :
      (f : A → ℕ) (i : ℕ) (x y : A) (xs : List A)
      → get_elem? xs i ≡ some x
      → total f (set_elem i y xs) + f x ≡ total f xs + f y
  unfolding total set_elem get_elem?
  total-set_elem f i x y [] h = absurd cc
  total-set_elem f zero x y (z ∷ zs) h = let e : z ≡ x = cc in rw e (omega arith)
  total-set_elem f (suc i) x y (z ∷ zs) h = omega (arith, total-set_elem f i x y zs h)

  pub total-repeat : (f : A → ℕ) (n : ℕ) (x : A) → f x ≡ 0 → total f (repeat n x) ≡ 0
  unfolding total repeat
  total-repeat f zero x h = refl
  total-repeat f (suc n) x h = omega (arith, total-repeat f n x h)

  pub total-repeat_one : (f : A → ℕ) (n : ℕ) (x : A) → f x ≡ 1 → total f (repeat n x) ≡ n
  unfolding total repeat
  total-repeat_one f zero x h = refl
  total-repeat_one f (suc n) x h = omega (arith, total-repeat_one f n x h)

  pub total-head :
      (f : A → ℕ) (x : A) (xs ys : List A) → ys ≡ x ∷ xs → total f ys ≡ f x + total f xs
  unfolding total
  total-head f x xs ys h = rw h refl

  pub length-set_elem : (i : ℕ) (y : A) (xs : List A) → length (set_elem i y xs) ≡ length xs
  unfolding set_elem
  length-set_elem i y [] = refl
  length-set_elem zero y (x ∷ xs) = refl
  length-set_elem (suc i) y (x ∷ xs) = ap suc (length-set_elem i y xs)

  pub length-repeat : (n : ℕ) (x : A) → length (repeat n x) ≡ n
  unfolding repeat
  length-repeat zero x = refl
  length-repeat (suc n) x = ap suc (length-repeat n x)

  pub All-set_elem {κ} :
      (P : A → Type κ) (i : ℕ) (y : A) (xs : List A) → P y → All P xs → All P (set_elem i y xs)
  unfolding set_elem
  All-set_elem P i y [] h hs = hs
  All-set_elem P zero y (x ∷ xs) h (k, ks) = (h, ks)
  All-set_elem P (suc i) y (x ∷ xs) h (k, ks) = (k, All-set_elem P i y xs h ks)

  pub All-get_elem? {κ} :
      (P : A → Type κ) (i : ℕ) (x : A) (xs : List A) → All P xs → get_elem? xs i ≡ some x → P x
  unfolding get_elem?
  All-get_elem? P i x [] hs e = absurd cc
  All-get_elem? P zero x (y ∷ ys) (h, hs) e = let same : y ≡ x = cc in subst P same h
  All-get_elem? P (suc i) x (y ∷ ys) (h, hs) e = All-get_elem? P i x ys hs e

  pub All-repeat {κ} : (P : A → Type κ) (n : ℕ) (x : A) → P x → All P (repeat n x)
  unfolding repeat
  All-repeat P zero x h = tt
  All-repeat P (suc n) x h = (h, All-repeat P n x h)
