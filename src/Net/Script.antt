-- ===== src/Net/Script.antt =====
-- A connection to a peer that plays a list of reads, at most `limit` bytes of each, and takes every
-- write. It shows that the contract of `NetConn` can be met, and runs the code in tests.
use tls_banner_grab_go.Base.{
  ℕ, zero, suc, ◌%◌, ◌≤◌, ◌<◌, ◌≡◌, refl, ap, List, [], ◌∷◌, map, none, some, length, take,
  replicate, All, min, arith, length-take,
}
use tls_banner_grab_go.Net.{NetConn, ReadResult, eof, IsByte}

pub clip : List ℕ → List ℕ
clip = map (λ b. b % 256)

pub length-clip : (xs : List ℕ) → length (clip xs) ≡ length xs
unfolding clip
length-clip [] = refl
length-clip (x ∷ xs) = ap suc (length-clip xs)

pub clip-IsByte : (xs : List ℕ) → All IsByte (clip xs)
unfolding clip
clip-IsByte [] = tt
clip-IsByte (x ∷ xs) = (omega arith, clip-IsByte xs)

pub clip-eq : (xs : List ℕ) → All IsByte xs → clip xs ≡ xs
unfolding clip
clip-eq [] h = refl
clip-eq (x ∷ xs) h = let e : x % 256 ≡ x = omega arith in rw (e, clip-eq xs h.1)

take-all : (n : ℕ) (xs : List ℕ) → length xs ≤ n → take n xs ≡ xs
unfolding take
take-all zero [] h = refl
take-all zero (x ∷ xs) h = elim h [ ]
take-all (suc n) [] h = refl
take-all (suc n) (x ∷ xs) h = ap (λ t. x ∷ t) (take-all n xs (omega arith))

pub play : ℕ → ℕ → List ReadResult → ReadResult × List ReadResult
unfolding clip
play limit n [] = (record { bytes = []; error = some eof }, [])
play limit n (r ∷ rs) = (record { bytes = clip (take (min n limit) r.bytes); error = r.error }, rs)

pub play-le : (limit n : ℕ) (rs : List ReadResult) → length (play limit n rs).0.bytes ≤ min n limit
unfolding play
play-le limit n [] = omega arith
play-le limit n (r ∷ rs) =
    omega (arith, length-clip (take (min n limit) r.bytes), length-take (min n limit) r.bytes)

pub play-le_buffer : (limit n : ℕ) (rs : List ReadResult) → length (play limit n rs).0.bytes ≤ n
play-le_buffer limit n rs = omega (arith, play-le limit n rs)

pub play-IsByte : (limit n : ℕ) (rs : List ReadResult) → All IsByte (play limit n rs).0.bytes
unfolding play
play-IsByte limit n [] = tt
play-IsByte limit n (r ∷ rs) = clip-IsByte (take (min n limit) r.bytes)

unfoldable pub script : ℕ → NetConn (List ReadResult)
unfolding play
script limit = record {
  read = play limit;
  write = λ bytes s. (record { count = length bytes; error = none }, s);
  read-le = play-le_buffer limit;
  read-IsByte = play-IsByte limit;
}

pub script-le :
    (limit n : ℕ) (rs : List ReadResult) → length ((script limit).read n rs).0.bytes ≤ min n limit
unfolding script
script-le = play-le

-- A read that fits is played as it stands.
pub script-read :
    (limit n : ℕ) (r : ReadResult) (rs : List ReadResult)
    → length r.bytes ≤ min n limit
    → All IsByte r.bytes
    → (script limit).read n (r ∷ rs) ≡ (r, rs)
unfolding script
script-read limit n r rs h b = rw (take-all (min n limit) r.bytes h, clip-eq r.bytes b)

pub replicate-IsByte : (n b : ℕ) → b < 256 → All IsByte (replicate n b)
unfolding replicate
replicate-IsByte zero b h = tt
replicate-IsByte (suc n) b h = (h, replicate-IsByte n b h)
