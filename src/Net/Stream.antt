-- ===== src/Net/Stream.antt =====
-- A connection to a peer that has sent a list of bytes, of which a read brings at most `limit`. It
-- shows that the contract of `NetConn` can be met by a stream that arrives in pieces.
use tls_banner_grab_go.Base.{
  ℕ, zero, suc, ◌≤◌, ◌<◌, ◌≡◌, refl, List, [], ◌∷◌, none, some, length, take, drop, All, min, arith,
  length-take,
}
use tls_banner_grab_go.Net.{NetConn, ReadResult, eof, IsByte}
use tls_banner_grab_go.Net.Gives.{Gives}
use tls_banner_grab_go.Net.Script.{clip, length-clip, clip-IsByte, clip-eq}

-- The bytes that a read brings.
abbrev pub count : ℕ → ℕ → List ℕ → ℕ
count limit n xs = min (min n limit) (length xs)

pub deliver : ℕ → ℕ → List ℕ → ReadResult × List ℕ
deliver limit n [] = (record { bytes = []; error = some eof }, [])
deliver limit n (b ∷ bs) = (
  record { bytes = clip (take (count limit n (b ∷ bs)) (b ∷ bs)); error = none },
  drop (count limit n (b ∷ bs)) (b ∷ bs),
)

pub deliver-le : (limit n : ℕ) (s : List ℕ) → length (deliver limit n s).0.bytes ≤ n
unfolding deliver
deliver-le limit n [] = omega arith
deliver-le limit n (b ∷ bs) = omega (
  arith,
  length-clip (take (count limit n (b ∷ bs)) (b ∷ bs)),
  length-take (count limit n (b ∷ bs)) (b ∷ bs),
)

pub deliver-IsByte : (limit n : ℕ) (s : List ℕ) → All IsByte (deliver limit n s).0.bytes
unfolding deliver
deliver-IsByte limit n [] = tt
deliver-IsByte limit n (b ∷ bs) = clip-IsByte (take (count limit n (b ∷ bs)) (b ∷ bs))

unfoldable pub stream : ℕ → NetConn (List ℕ)
unfolding deliver
stream limit = record {
  read = deliver limit;
  write = λ bytes s. (record { count = length bytes; error = none }, s);
  read-le = deliver-le limit;
  read-IsByte = deliver-IsByte limit;
}

All-take : (k : ℕ) (xs : List ℕ) → All IsByte xs → All IsByte (take k xs)
unfolding take
All-take zero xs h = tt
All-take (suc k) [] h = tt
All-take (suc k) (x ∷ xs) h = (h.0, All-take k xs h.1)

pub All-drop : (k : ℕ) (xs : List ℕ) → All IsByte xs → All IsByte (drop k xs)
unfolding drop
All-drop zero xs h = h
All-drop (suc k) [] h = tt
All-drop (suc k) (x ∷ xs) h = All-drop k xs h.1

-- A read of a stream that is not at its end brings its first bytes.
pub stream-read :
    (limit n : ℕ) (xs : List ℕ)
    → 0 < length xs
    → All IsByte xs
    → (stream limit).read n xs
      ≡ (record { bytes = take (count limit n xs) xs; error = none }, drop (count limit n xs) xs)
unfolding stream
stream-read limit n [] h b = absurd (omega arith)
stream-read limit n (x ∷ xs) h b = rw (
    clip-eq (take (count limit n (x ∷ xs)) (x ∷ xs)) (All-take (count limit n (x ∷ xs)) (x ∷ xs) b))

-- What is left of the stream.
abbrev pub Offers : List ℕ → List ℕ → Type 0
Offers xs s = (s ≡ xs) × All IsByte xs

-- The stream brings some bytes with each read while it has any.
pub stream_gives : (limit : ℕ) → 0 < limit → Gives (stream limit) Offers
stream_gives limit positive = record {
  gives = λ n xs s n_pos xs_pos (e, b). (
    count limit n xs,
    drop (count limit n xs) xs,
    rw e (stream-read limit n xs xs_pos b),
    (refl, All-drop (count limit n xs) xs b),
    omega arith,
    omega arith,
    omega arith,
  );
}
