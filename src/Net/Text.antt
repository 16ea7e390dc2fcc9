-- ===== src/Net/Text.antt =====
-- What the code takes from `strings` and `bytes`.
use tls_banner_grab_go.Base.{ℕ, Bool, true, false, ◌&&◌, List, [], ◌∷◌, ◌++◌, ◌==◌, if◌then◌else◌}

-- `strings.HasPrefix`
unfoldable pub has_prefix : List ℕ → List ℕ → Bool
has_prefix text [] = true
has_prefix [] (p ∷ ps) = false
has_prefix (b ∷ bs) (p ∷ ps) = b == p && has_prefix bs ps

-- `bytes.Replace` of all occurrences of two bytes.
unfoldable pub replace_all : ℕ → ℕ → List ℕ → List ℕ → List ℕ
replace_all x y new [] = []
replace_all x y new (a ∷ []) = a ∷ []
replace_all x y new (a ∷ b ∷ rest) = elim (a == x && b == y) [
  | true ↦ new ++ replace_all x y new rest
  | false ↦ a ∷ replace_all x y new (b ∷ rest)
]

abbrev pub on_first : ℕ → List (List ℕ) → List (List ℕ)
on_first b [] = (b ∷ []) ∷ []
on_first b (part ∷ parts) = (b ∷ part) ∷ parts

-- `strings.Split` by one byte; there is always a first part.
unfoldable pub split : ℕ → List ℕ → List (List ℕ)
split separator [] = [] ∷ []
split separator (b ∷ bs) =
    if b == separator then [] ∷ split separator bs else on_first b (split separator bs)

-- `a == b` on strings.
unfoldable pub same_bytes : List ℕ → List ℕ → Bool
same_bytes [] [] = true
same_bytes [] (y ∷ ys) = false
same_bytes (x ∷ xs) [] = false
same_bytes (x ∷ xs) (y ∷ ys) = x == y && same_bytes xs ys
