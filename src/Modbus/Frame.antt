-- ===== src/Modbus/Frame.antt =====
-- Modbus frames over a stream that arrives in pieces.
use tls_banner_grab_go.Base.{
  ℕ, zero, suc, ◌+◌, ◌-◌, ◌*◌, ◌/◌, ◌%◌, ◌≤◌, ◌<◌, ◌≡◌, refl, ◌∙◌, List, [], ◌∷◌, ◌++◌, none,
  length, take, drop, ltb, arith, length-append, length-drop, length-take, take-length,
  append_assoc, append-nil, inl, inr, Bool-cases,
}
use tls_banner_grab_go.Net.{Result, ok, NetConn}
use tls_banner_grab_go.Net.Gives.{Gives, take-take-drop, drop-drop}
use tls_banner_grab_go.Modbus.{
  ModbusRequest, capped, Filled, marshal_binary, read_min, make_response, read_body,
  get_modbus_response,
}

module _ {S : Type 0} (conn : NetConn S) where
  read_min_stop :
      (fuel size want : ℕ) (got : List ℕ) (s : S)
      → want ≤ length got
      → read_min conn fuel size want got s ≡ (ok (record { got = got; error = none }), s)
  unfolding read_min
  read_min_stop zero size want got s h = ground arith
  read_min_stop (suc fuel) size want got s h = ground arith

  read_min_more :
      (fuel size want : ℕ) (got more : List ℕ) (s : S) {s' : S}
      → length got < want
      → conn.read (size - length got) s ≡ (record { bytes = more; error = none }, s')
      → read_min conn (suc fuel) size want got s ≡ read_min conn fuel size want (got ++ more) s'
  unfolding read_min
  read_min_more fuel size want got more s h r = ground arith

module _ {S : Type 0} (conn : NetConn S) (Offers : List ℕ → S → Type 0)
    (g : Gives conn Offers) where
  -- What the loop leaves: `k` bytes of the stream are behind `got`.
  abbrev Fills : ℕ → ℕ → List ℕ → List ℕ → Result Filled × S → Type 0
  Fills size want got xs c =
      (k : ℕ) × (s' : S) × (c ≡ (ok (record { got = got ++ take k xs; error = none }), s'))
      × Offers (drop k xs) s'
      × (want ≤ length got + k)
      × (k ≤ length xs)
      × (length got + k ≤ size)

  Fills-none :
      (fuel size want : ℕ) (got xs : List ℕ) (s : S)
      → Offers xs s
      → want ≤ length got
      → length got ≤ size
      → Fills size want got xs (read_min conn fuel size want got s)
  unfolding take drop
  Fills-none fuel size want got xs s o h l = (
    0,
    s,
    rw append-nil (read_min_stop conn fuel size want got s h),
    o,
    omega arith,
    omega arith,
    omega arith,
  )

  -- A read of `j` bytes in front of a run that fills.
  Fills-more :
      (size want j : ℕ) (got xs : List ℕ) (c : Result Filled × S)
      → j ≤ length xs
      → Fills size want (got ++ take j xs) (drop j xs) c
      → Fills size want got xs c
  Fills-more size want j got xs c jl (k, s', e, o, w, kl, ks) =
      let long = length-append got (take j xs) in
      let taken = length-take j xs in
      let left = length-drop j xs in
      (
        j + k,
        s',
        e ∙ rw (append_assoc, take-take-drop),
        rw (← drop-drop) o,
        omega arith,
        omega arith,
        omega arith,
      )

  -- The loop fills the buffer up to the bytes wanted, and further only as one read goes.
  read_min-Offers :
      (fuel size want : ℕ) (got xs : List ℕ) (s : S)
      → Offers xs s
      → want ≤ size
      → want ≤ length got + length xs
      → length got ≤ size
      → want < length got + fuel + 1
      → Fills size want got xs (read_min conn fuel size want got s)
  read_min-Offers zero size want got xs s o h1 h2 h3 h4 =
      Fills-none 0 size want got xs s o (omega arith) h3
  read_min-Offers (suc fuel) size want got xs s o h1 h2 h3 h4 =
      elim (Bool-cases (ltb (length got) want)) [
        | inr e ↦ Fills-none (suc fuel) size want got xs s o (ground arith) h3
        | inl e ↦
            let lt : length got < want = ground arith in
            let (j, s₁, r, o₁, jpos, jn, jl) =
              g.gives (size - length got) xs s (omega arith) (omega arith) o in
            let long = length-append got (take j xs) in
            let taken = length-take j xs in
            let left = length-drop j xs in
            rw (read_min_more conn fuel size want got (take j xs) s lt r) (
              Fills-more size want j got xs _ jl (
                read_min-Offers fuel size want (got ++ take j xs) (drop j xs) s₁ o₁ h1 (omega arith)
                  (omega arith) (omega arith)))
      ]

-- The bytes of a frame, and what its length says.
marshal-header :
    (r : ModbusRequest)
    → (take 7 (marshal_binary r)
        ≡ 0x13
          ∷ 0x37
          ∷ 0
          ∷ 0
          ∷ ((length r.payload + 2) % 65536 / 256 % 256)
          ∷ ((length r.payload + 2) % 65536 % 256)
          ∷ 0
          ∷ [])
      × (drop 7 (marshal_binary r) ≡ r.function ∷ r.payload)
      × (length (marshal_binary r) ≡ 8 + length r.payload)
unfolding marshal_binary take drop
marshal-header r = (refl, refl, omega arith)

take-all : (k : ℕ) (xs : List ℕ) → k ≡ length xs → take k xs ≡ xs
take-all k xs e = rw e (take-length xs)

module _ {S : Type 0} (conn : NetConn S) (Offers : List ℕ → S → Type 0)
    (g : Gives conn Offers) where
  header-Offers :
      (fuel : ℕ) (r : ModbusRequest) (s : S)
      → Offers (marshal_binary r) s
      → 7 ≤ fuel
      → (s' : S) × (read_min conn fuel 7 7 [] s
          ≡ (ok (record { got = take 7 (marshal_binary r); error = none }), s'))
        × Offers (r.function ∷ r.payload) s'
  header-Offers fuel r s o h =
      let (t, d, l) = marshal-header r in
      let (k, s', e, o', w, kl, ks) =
        read_min-Offers conn Offers g fuel 7 7 [] (marshal_binary r) s o (omega arith) (omega arith)
          (omega arith) (omega arith) in
      let seven : k ≡ 7 = omega arith in (s', rw seven at e, rw d at (rw seven at o'))

  body-Offers :
      (fuel : ℕ) (xs : List ℕ) (s : S)
      → Offers xs s
      → length xs ≤ 1016
      → length xs ≤ fuel
      → (s' : S) × (read_min conn fuel 1017 (length xs) [] s
          ≡ (ok (record { got = xs; error = none }), s'))
  body-Offers fuel xs s o h hf =
      let (k, s', e, o', w, kl, ks) =
        read_min-Offers conn Offers g fuel 1017 (length xs) [] xs s o (omega arith) (omega arith)
          (omega arith) (omega arith) in
      (s', rw (take-all k xs (omega arith)) at e)

  -- The response from what the two loops read.
  response-read :
      (fuel hi lo f : ℕ) (bytes : List ℕ) (s : S) {s₁ s₂ : S}
      → hi * 256 + lo ≡ length bytes + 2
      → length bytes ≤ 1015
      → read_min conn fuel 7 7 [] s
        ≡ (ok (record { got = 0x13 ∷ 0x37 ∷ 0 ∷ 0 ∷ hi ∷ lo ∷ 0 ∷ []; error = none }), s₁)
      → read_min conn fuel 1017 (suc (length bytes)) [] s₁
        ≡ (ok (record { got = f ∷ bytes; error = none }), s₂)
      → get_modbus_response conn fuel s ≡ (
        ok (record { len = length bytes + 2; unit_id = 0; function = f; payload = bytes }, none),
        s₂,
      )
  unfolding get_modbus_response read_body make_response drop
  response-read fuel hi lo f bytes s e h p q =
      let cap : capped conn (hi * 256 + lo) ≡ length bytes + 2 = ground arith in
      let want : length bytes + 2 - 1 ≡ suc (length bytes) = omega arith in
      rw (get_modbus_response, p, cap, want, q)

  -- A peer sends a frame that MarshalBinary made of a payload of at most 1015 bytes, in pieces of
  -- any size. With fuel for 1017 reads, as many as the buffer of the body has bytes, the response
  -- is read whole, with no error.
  pub get_modbus_response-marshal_binary :
      (fuel : ℕ) (r : ModbusRequest) (s : S)
      → Offers (marshal_binary r) s
      → length r.payload ≤ 1015
      → 1017 ≤ fuel
      → (s' : S) × (get_modbus_response conn fuel s ≡ (
        ok (
          record {
            len = length r.payload + 2;
            unit_id = 0;
            function = r.function;
            payload = r.payload;
          },
          none,
        ),
        s',
      ))
  get_modbus_response-marshal_binary fuel r s o h hf =
      let (s₁, e₁, o₁) = header-Offers fuel r s o (omega arith) in
      let (t, d, l) = marshal-header r in
      let (s₂, e₂) = body-Offers fuel (r.function ∷ r.payload) s₁ o₁ (omega arith) (omega arith) in
      (s₂, response-read fuel _ _ r.function r.payload s (omega arith) h (rw t at e₁) e₂)
