-- ===== src/Ftp/Replies.antt =====
-- What a read until a match brings, and what the two exchanges make of it.
use tls_banner_grab_go.Base.{
  ℕ, zero, suc, ◌+◌, ◌-◌, ◌≤◌, ◌<◌, ◌≡◌, refl, ap, ◌∙◌, true, false, List, [], ◌∷◌, ◌++◌, Option,
  none, some, length, take, drop, ◌==◌, arith, length-append, length-take, length-drop, take-length,
  append_assoc, Bool-cases, Option-cases, inl, inr,
}
use tls_banner_grab_go.Net.{Error, Result, ok, err, panic, stuck, NetConn}
use tls_banner_grab_go.Net.Gives.{Gives, take-take-drop}
use tls_banner_grab_go.Ftp.{Pattern, Reply, read_until_regex}

take-drop : (k : ℕ) (xs : List ℕ) → take k xs ++ drop k xs ≡ xs
unfolding take drop
take-drop zero xs = refl
take-drop (suc k) [] = refl
take-drop (suc k) (x ∷ xs) = ap (λ t. x ∷ t) (take-drop k xs)

module _ {S : Type 0} (conn : NetConn S) (pattern : Pattern) where
  -- A reply without an error is a match that leaves room in the buffer.
  abbrev pub Fits : ℕ → List ℕ → Option Error → Type 0
  Fits size text none = (pattern.matches text ≡ true) × (length text < size)
  Fits size text (some e) = length text ≤ size

  abbrev pub IsReply : ℕ → Result Reply → Type 0
  IsReply size (ok v) = Fits size v.text v.error
  IsReply size (err e) = ⊥
  IsReply size panic = ⊥
  IsReply size stuck = Unit

  -- However the peer behaves, ReadUntilRegex neither panics nor runs over its buffer, and where
  -- it returns no error the text matches and leaves room in the buffer.
  pub read_until_regex-IsReply :
      (fuel size : ℕ) (text : List ℕ) (s : S)
      → length text ≤ size
      → IsReply size (read_until_regex conn pattern fuel size text s).0
  unfolding read_until_regex
  read_until_regex-IsReply zero size text s h = tt
  read_until_regex-IsReply (suc fuel) size text s h =
      let (r, s') = conn.read (size - length text) s in
      let now = text ++ r.bytes in
      let short = conn.read-le (size - length text) s in
      let long = length-append text r.bytes in
      let more = read_until_regex-IsReply fuel size now s' (omega arith) in
      elim (Option-cases r.error) [
        | inr (e, p) ↦ rw (read_until_regex, p) (omega arith)
        | inl p ↦ elim (Bool-cases (length now == size)) [
          | inl q ↦ rw (read_until_regex, p, q) (omega arith)
          | inr q ↦ elim (Bool-cases (pattern.matches now)) [
            | inl m ↦ rw (read_until_regex, p, q, m) (m, ground arith)
            | inr m ↦ rw (read_until_regex, p, q, m) more
          ]
        ]
      ]

  -- A read that brings `k` bytes, behind which there is no match yet.
  read_until_regex-more :
      (fuel size k : ℕ) (text xs : List ℕ) (s : S) {s' : S}
      → conn.read (size - length text) s ≡ (record { bytes = take k xs; error = none }, s')
      → length (text ++ take k xs) < size
      → pattern.matches (text ++ take k xs) ≡ false
      → read_until_regex conn pattern (suc fuel) size text s
        ≡ read_until_regex conn pattern fuel size (text ++ take k xs) s'
  unfolding read_until_regex
  read_until_regex-more fuel size k text xs s r l m = ground arith

  read_until_regex-match :
      (fuel size k : ℕ) (text xs : List ℕ) (s : S) {s' : S}
      → conn.read (size - length text) s ≡ (record { bytes = take k xs; error = none }, s')
      → length (text ++ take k xs) < size
      → pattern.matches (text ++ take k xs) ≡ true
      → read_until_regex conn pattern (suc fuel) size text s
        ≡ (ok (record { text = text ++ take k xs; error = none }), s')
  unfolding read_until_regex
  read_until_regex-match fuel size k text xs s r l m = ground arith

  -- A reply that matches as a whole and nowhere before.
  pub record FirstMatch (text xs : List ℕ) : Type 0 where
    pub whole : pattern.matches (text ++ xs) ≡ true
    pub earlier : (k : ℕ) → k < length xs → pattern.matches (text ++ take k xs) ≡ false

module _ {S : Type 0} (conn : NetConn S) (pattern : Pattern) (Offers : List ℕ → S → Type 0)
    (g : Gives conn Offers) where
  FirstMatch-drop :
      (k : ℕ) (text xs : List ℕ)
      → k < length xs
      → FirstMatch conn pattern text xs
      → FirstMatch conn pattern (text ++ take k xs) (drop k xs)
  FirstMatch-drop k text xs h f = record {
    whole = rw (append_assoc, take-drop) f.whole;
    earlier = λ j l.
        rw (append_assoc, take-take-drop) (f.earlier (k + j) (omega (arith, length-drop k xs)));
  }

  -- A peer sends a reply in pieces of any size. If the reply matches as a whole and not before,
  -- and leaves room in the buffer, ReadUntilRegex returns it, with no error, with fuel for as
  -- many reads as it has bytes.
  pub read_until_regex-Offers :
      (fuel size : ℕ) (text xs : List ℕ) (s : S)
      → Offers xs s
      → FirstMatch conn pattern text xs
      → 0 < length xs
      → length text + length xs < size
      → length xs ≤ fuel
      → (s' : S) × (read_until_regex conn pattern fuel size text s
          ≡ (ok (record { text = text ++ xs; error = none }), s'))
  read_until_regex-Offers zero size text xs s o f h l n = absurd (omega arith)
  read_until_regex-Offers (suc fuel) size text xs s o f h l n =
      let (k, s₁, r, o₁, k_pos, kn, kl) = g.gives (size - length text) xs s (omega arith) h o in
      let long = length-append text (take k xs) in
      let taken = length-take k xs in
      let left = length-drop k xs in
      elim (Bool-cases (k == length xs)) [
        | inl e ↦
            let all : take k xs ≡ xs =
              let whole : k ≡ length xs = ground arith in rw whole (take-length xs) in
            let m =
              read_until_regex-match conn pattern fuel size k text xs s r (omega arith)
                (rw all f.whole) in
            (s₁, rw all at m)
        | inr e ↦
            let lt : k < length xs = ground arith in
            let (s₂, q) =
              read_until_regex-Offers fuel size (text ++ take k xs) (drop k xs) s₁ o₁
                (FirstMatch-drop k text xs lt f) (omega arith) (omega arith) (omega arith) in
            (
              s₂,
              read_until_regex-more conn pattern fuel size k text xs s r (omega arith)
                    (f.earlier k lt)
                  ∙ q
                  ∙ ap (λ t. (ok (record { text = t; error = none }), s₂))
                      (append_assoc text (take k xs) (drop k xs)
                        ∙ ap (λ t. text ++ t) (take-drop k xs)),
            )
      ]
