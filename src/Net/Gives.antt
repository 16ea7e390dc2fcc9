-- ===== src/Net/Gives.antt =====
-- Peers that send a known stream in pieces, as an interface for the proofs about read loops.
use tls_banner_grab_go.Base.{
  ℕ, zero, suc, ◌+◌, ◌≤◌, ◌<◌, ◌≡◌, refl, sym, ap, ◌∙◌, List, [], ◌∷◌, ◌++◌, none, length, take,
  drop, arith,
}
use tls_banner_grab_go.Net.{NetConn}

-- A peer that has bytes to give: a read into a buffer with room brings some of them, at least one
-- if any are left, and no error.
pub record Gives {S : Type 0} (conn : NetConn S) (Offers : List ℕ → S → Type 0) : Type 0 where
  pub gives :
      (n : ℕ) (xs : List ℕ) (s : S)
      → 0 < n
      → 0 < length xs
      → Offers xs s
      → (k : ℕ) × (s' : S) × (conn.read n s ≡ (record { bytes = take k xs; error = none }, s'))
        × Offers (drop k xs) s'
        × (0 < k)
        × (k ≤ n)
        × (k ≤ length xs)

zero_plus : (k : ℕ) → 0 + k ≡ k
zero_plus k = omega arith

suc_plus : (j k : ℕ) → suc j + k ≡ suc (j + k)
suc_plus j k = omega arith

pub take-nil : (k : ℕ) → take {A = ℕ} k [] ≡ []
unfolding take
take-nil zero = refl
take-nil (suc k) = refl

pub drop-nil : (k : ℕ) → drop {A = ℕ} k [] ≡ []
unfolding drop
drop-nil zero = refl
drop-nil (suc k) = refl

pub take-take-drop : (j k : ℕ) (xs : List ℕ) → take j xs ++ take k (drop j xs) ≡ take (j + k) xs
unfolding take drop
take-take-drop zero k xs = rw zero_plus
take-take-drop (suc j) k [] = take-nil k ∙ sym (take-nil (suc j + k))
take-take-drop (suc j) k (x ∷ xs) = rw suc_plus (ap (λ t. x ∷ t) (take-take-drop j k xs))

pub drop-drop : (j k : ℕ) (xs : List ℕ) → drop k (drop j xs) ≡ drop (j + k) xs
unfolding drop
drop-drop zero k xs = rw zero_plus
drop-drop (suc j) k [] = drop-nil k ∙ sym (drop-nil (suc j + k))
drop-drop (suc j) k (x ∷ xs) = rw suc_plus (drop-drop j k xs)
