-- ===== src/Net/Buffered/Serves.antt =====
-- A buffered reader over a peer that gives its stream in pieces.
use tls_banner_grab_go.Base.{
  ℕ, zero, suc, ◌+◌, ◌-◌, ◌≤◌, ◌<◌, ◌≡◌, refl, ap, ◌∙◌, inl, inr, true, false, List, [], ◌∷◌, ◌++◌,
  none, length, take, drop, ltb, leb, min, arith, length-append, length-drop, length-take,
  append_assoc, append-nil, Bool-cases,
}
use tls_banner_grab_go.Net.{NetConn, Result, ok}
use tls_banner_grab_go.Net.Gives.{Gives, take-nil, drop-nil, take-take-drop, drop-drop}
use tls_banner_grab_go.Net.Buffered.{
  Reader, buffer_size, filled, read_on, read, read_full, new_reader,
}

take_within : (k : ℕ) (xs ys : List ℕ) → k ≤ length xs → take k (xs ++ ys) ≡ take k xs
unfolding take
take_within zero xs ys h = refl
take_within (suc k) [] ys h = elim h [ ]
take_within (suc k) (x ∷ xs) ys h = ap (λ t. x ∷ t) (take_within k xs ys (omega arith))

drop_within : (k : ℕ) (xs ys : List ℕ) → k ≤ length xs → drop k (xs ++ ys) ≡ drop k xs ++ ys
unfolding drop
drop_within zero xs ys h = refl
drop_within (suc k) [] ys h = elim h [ ]
drop_within (suc k) (x ∷ xs) ys h = drop_within k xs ys (omega arith)

min-zero : (n : ℕ) → min 0 n ≡ 0
min-zero n = omega arith

min-suc : (n m : ℕ) → min (suc n) (suc m) ≡ suc (min n m)
min-suc n m = omega arith

take-min : (n : ℕ) (xs : List ℕ) → take (min n (length xs)) xs ≡ take n xs
unfolding take
take-min zero xs = rw min-zero refl
take-min (suc n) [] = take-nil (min (suc n) 0)
take-min (suc n) (x ∷ xs) = rw min-suc (ap (λ t. x ∷ t) (take-min n xs))

drop-min : (n : ℕ) (xs : List ℕ) → drop (min n (length xs)) xs ≡ drop n xs
unfolding drop
drop-min zero xs = rw min-zero refl
drop-min (suc n) [] = drop-nil (min (suc n) 0)
drop-min (suc n) (x ∷ xs) = rw min-suc (drop-min n xs)

take-drop : (k : ℕ) (xs : List ℕ) → take k xs ++ drop k xs ≡ xs
unfolding take drop
take-drop zero xs = refl
take-drop (suc k) [] = refl
take-drop (suc k) (x ∷ xs) = ap (λ t. x ∷ t) (take-drop k xs)

module _ {S : Type 0} (conn : NetConn S) (Offers : List ℕ → S → Type 0)
    (g : Gives conn Offers) where
  -- A stream is left: what is read ahead, and what the peer has.
  abbrev pub Left : List ℕ → Reader → S → Type 0
  Left ys reader s =
      (ahead : List ℕ) × (xs : List ℕ) × Offers xs s
      × (ys ≡ ahead ++ xs)
      × (reader ≡ record { ahead = ahead; pending = none })

  -- What a read brings of a stream.
  abbrev Brings : ℕ → List ℕ → Reader → S → Type 0
  Brings n ys reader s =
      (k : ℕ) × (reader' : Reader) × (s' : S) × (read conn n reader s
        ≡ ((take k ys, none, reader'), s'))
      × Left (drop k ys) reader' s'
      × (0 < k)
      × (k ≤ n)
      × (k ≤ length ys)

  serve-Brings :
      (n b : ℕ) (bs xs : List ℕ) (s : S)
      → 0 < n
      → Offers xs s
      → Brings n ((b ∷ bs) ++ xs) (record { ahead = b ∷ bs; pending = none }) s
  unfolding read
  serve-Brings n b bs xs s h o =
      let k : ℕ = min n (length (b ∷ bs)) in
      (
        k,
        record { ahead = drop n (b ∷ bs); pending = none },
        s,
        rw (take_within k (b ∷ bs) xs (omega arith), take-min n (b ∷ bs)) refl,
        (
          drop n (b ∷ bs),
          xs,
          o,
          rw (drop_within k (b ∷ bs) xs (omega arith), drop-min n (b ∷ bs)) refl,
          refl,
        ),
        omega arith,
        omega arith,
        omega (arith, length-append (b ∷ bs) xs),
      )

  direct-Brings :
      (n : ℕ) (ys : List ℕ) (s : S)
      → buffer_size ≤ n
      → 0 < length ys
      → Offers ys s
      → Brings n ys new_reader s
  unfolding read read_on
  direct-Brings n ys s h l o =
      let big : leb buffer_size n ≡ true = ground arith in
      let (k, s', e, o', p, kn, kl) = g.gives n ys s (omega arith) l o in
      (k, new_reader, s', rw (big, e) refl, ([], drop k ys, o', refl, refl), p, kn, kl)

  fill-Brings :
      (n j : ℕ) (ys : List ℕ) (s s' : S)
      → 0 < n
      → n < buffer_size
      → 0 < j
      → j ≤ length ys
      → conn.read buffer_size s ≡ (record { bytes = take j ys; error = none }, s')
      → Offers (drop j ys) s'
      → Brings n ys new_reader s
  unfolding read read_on filled take drop
  fill-Brings n zero ys s s' pos h p l e o = elim p [ ]
  fill-Brings n (suc j) [] s s' pos h p l e o = elim l [ ]
  fill-Brings n (suc j) (y ∷ ys) s s' pos h p l e o =
      let small : leb buffer_size n ≡ false = ground arith in
      let (k, r, s₁, e', left, kp, kn, kl) = serve-Brings n y (take j ys) (drop j ys) s' pos o in
      let same : take j ys ++ drop j ys ≡ ys = take-drop j ys in
      (k, r, s₁, rw (small, e) (rw same at e'), rw same at left, kp, kn, rw same at kl)

  ahead-Brings :
      (n : ℕ) (ahead xs : List ℕ) (s : S)
      → 0 < n
      → 0 < length (ahead ++ xs)
      → Offers xs s
      → Brings n (ahead ++ xs) (record { ahead = ahead; pending = none }) s
  ahead-Brings n (b ∷ bs) xs s h l o = serve-Brings n b bs xs s h o
  ahead-Brings n [] xs s h l o = elim (Bool-cases (ltb n buffer_size)) [
    | inl e ↦
        let (j, s', r, o', p, jn, jl) = g.gives buffer_size xs s (omega arith) l o in
        fill-Brings n j xs s s' h (ground arith) p jl r o'
    | inr e ↦ direct-Brings n xs s (ground arith) l o
  ]

  -- A read of a stream that is not at its end brings some of it.
  read-Brings :
      (n : ℕ) (ys : List ℕ) (reader : Reader) (s : S)
      → 0 < n
      → 0 < length ys
      → Left ys reader s
      → Brings n ys reader s
  read-Brings n ys reader s h l (ahead, xs, o, e, p) =
      rw (p, e) (ahead-Brings n ahead xs s h (rw e at l) o)

  -- The loop has what it wants, or a read brings it that, or it goes on.
  module _ (fuel want : ℕ) (got : List ℕ) (reader : Reader) (s : S) where
    read_full_stop :
        want ≤ length got → read_full conn (suc fuel) want got reader s ≡ (ok got, reader, s)
    unfolding read_full
    read_full_stop h = ground arith

    module _ (more : List ℕ) {reader' : Reader} {s' : S} (low : length got < want)
        (r : read conn (want - length got) reader s ≡ ((more, none, reader'), s')) where
      read_full_last :
          want ≤ length (got ++ more)
          → read_full conn (suc fuel) want got reader s ≡ (ok (got ++ more), reader', s')
      unfolding read_full
      read_full_last h =
          let e : leb want (length got) ≡ false = ground arith in
          let e' : leb want (length (got ++ more)) ≡ true = ground arith in rw (e, r, e') refl

      read_full_more :
          length (got ++ more) < want
          → read_full conn (suc fuel) want got reader s
            ≡ read_full conn fuel want (got ++ more) reader' s'
      unfolding read_full
      read_full_more h = ground arith

  -- What `io.ReadFull` leaves of a stream.
  abbrev Takes : ℕ → List ℕ → List ℕ → Result (List ℕ) × Reader × S → Type 0
  Takes n got ys c =
      (reader' : Reader) × (s' : S) × (c ≡ (ok (got ++ take n ys), reader', s'))
      × Left (drop n ys) reader' s'

  Takes-more :
      (n k j : ℕ) (got ys : List ℕ) (c : Result (List ℕ) × Reader × S)
      → n ≡ k + j
      → Takes j (got ++ take k ys) (drop k ys) c
      → Takes n got ys c
  Takes-more n k j got ys c e (reader', s', r, left) =
      (reader', s', r ∙ rw (append_assoc, take-take-drop, ← e) refl, rw (drop-drop, ← e) at left)

  -- `io.ReadFull` reads on until it has what it wants, and leaves the rest of the stream.
  pub read_full-Left :
      (fuel want n : ℕ) (got ys : List ℕ) (reader : Reader) (s : S)
      → Left ys reader s
      → want ≡ length got + n
      → n ≤ length ys
      → n < fuel
      → Takes n got ys (read_full conn fuel want got reader s)
  unfolding take drop
  read_full-Left zero want n got ys reader s left w high f = absurd (omega arith)
  read_full-Left (suc fuel) want zero got ys reader s left w high f =
      (reader, s, read_full_stop fuel want got reader s (omega arith) ∙ rw append-nil refl, left)
  read_full-Left (suc fuel) want (suc n) got ys reader s left w high f =
      let (k, reader', s', r, left', p, kn, kl) =
        read-Brings (want - length got) ys reader s (omega arith) (omega arith) left in
      let long = length-append got (take k ys) in
      let taken = length-take k ys in
      let dropped = length-drop k ys in
      let lt : length got < want = omega arith in
      elim (Bool-cases (ltb (length (got ++ take k ys)) want)) [
        | inl e' ↦
            let lt' : length (got ++ take k ys) < want = ground arith in
            rw (read_full_more fuel want got reader s (take k ys) lt r lt') (
              Takes-more (suc n) k (suc n - k) got ys _ (omega arith) (
                read_full-Left fuel want (suc n - k) (got ++ take k ys) (drop k ys) reader' s' left'
                  (omega arith) (omega arith) (omega arith)))
        | inr e' ↦
            let whole : want ≤ length (got ++ take k ys) = ground arith in
            let all : suc n ≡ k = omega arith in
            (
              reader',
              s',
              read_full_last fuel want got reader s (take k ys) lt r whole ∙ rw all refl,
              rw all left',
            )
      ]
