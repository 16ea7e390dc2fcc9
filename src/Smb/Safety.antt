-- ===== src/Smb/Safety.antt =====
-- Reading a struct without slices of a length that is read, from any bytes.
use tls_banner_grab_go.Base.{
  ℕ, zero, suc, ◌+◌, ◌≤◌, ◌≡◌, refl, ◌⊎◌, inl, inr, false, List, [], ◌∷◌, Option, none, some,
  String, length, take, drop, ltb, arith, length-drop, Bool-cases,
}
use tls_banner_grab_go.Net.{Error, net, eof, new, Result, ok, err, panic, stuck}
use tls_banner_grab_go.Smb.Encoder.{
  Asn1, Width, uint8, uint16, uint32, uint64, size, Tags, Value, Fields, uint, bytes, token, struct,
  end, field, Metadata, new_metadata, advance, refer, read_full, set_uint, Read, set_bytes, join,
  close_struct, unmarshal, unmarshal_fields, set_token,
}

-- A value whose byte slices all have a fixed length.
mutual
  pub data Fixed {G : Type 0} : Tags → Value G → Type 0 where
    fixed_uint : {t : Tags} {w : Width} {n : ℕ} → Fixed t (uint w n)
    fixed_bytes : {t : Tags} {bs : List ℕ} (l : ℕ) → t.fixed ≡ some l → Fixed t (bytes bs)
    fixed_token : {t : Tags} {g : G} → Fixed t (token g)
    fixed_struct : {t : Tags} {fs : Fields G} → FixedFields fs → Fixed t (struct fs)

  pub data FixedFields {G : Type 0} : Fields G → Type 0 where
    fixed_end : FixedFields end
    fixed_field :
        {name : String} {t : Tags} {v : Value G} {fs : Fields G}
        → Fixed t v
        → FixedFields fs
        → FixedFields (field name t v fs)

-- A call ended, with an offset up to the limit if it has no error.
abbrev pub Ends : ℕ → Result (Unit {0}) → Metadata → Type 0
Ends limit (ok u) m = m.curr_offset ≤ limit
Ends limit (err e) m = Unit
Ends limit panic m = ⊥
Ends limit stuck m = ⊥

abbrev pub Tame : {A : Type 0} → ℕ → Read A → Type 0
Tame limit r = Ends limit r.1 r.2

read_full-cases :
    (n : ℕ) (buf : List ℕ)
    → ((e : Error) × (read_full n buf ≡ err e))
      ⊎ ((bs : List ℕ) × (read_full n buf ≡ ok bs) × (n ≤ length buf))
unfolding read_full
read_full-cases zero buf = inr ([], refl, omega arith)
read_full-cases (suc n) [] = inl (net eof, refl)
read_full-cases (suc n) (b ∷ buf) = elim (Bool-cases (ltb (length buf) n)) [
  | inl e ↦ inl (new "unexpected EOF", rw e refl)
  | inr e ↦ inr (b ∷ take n buf, rw e refl, ground arith)
]

curr_offset-refer :
    (w : Width) (t : Tags) (n : ℕ) (m : Metadata) → (refer w t n m).curr_offset ≡ m.curr_offset
unfolding refer
curr_offset-refer uint8 t n m = refl
curr_offset-refer uint16 t n m =
    elim t.len
      as (λ l.
        (elim l as (λ _. Metadata) [
          | none ↦ m
          | some ref ↦ record m { lens = (ref, n) ∷ m.lens }
        ]).curr_offset
        ≡ m.curr_offset) [ none ↦ refl | some ref ↦ refl ]
curr_offset-refer uint32 t n m =
    elim t.offset
      as (λ o.
        (elim o as (λ _. Metadata) [
          | none ↦ m
          | some ref ↦ record m { offsets = (ref, n) ∷ m.offsets }
        ]).curr_offset
        ≡ m.curr_offset) [ none ↦ refl | some ref ↦ refl ]
curr_offset-refer uint64 t n m = refl

module _ {G : Type 0} (asn1 : Asn1 G) where
  uint-Tame :
      (t : Tags) (w : Width) (n : ℕ) (buf : List ℕ) (m : Metadata)
      → Tame (m.curr_offset + length buf) (set_uint {G = G} w t n m (read_full (size w) buf))
  unfolding set_uint
  uint-Tame t w n buf m = elim (read_full-cases (size w) buf) [
    | inl (e, r) ↦ rw r tt
    | inr (bs, r, l) ↦ rw r (omega (arith, curr_offset-refer w t _ m))
  ]

  bytes-Tame :
      (l : ℕ) (old buf : List ℕ) (m : Metadata)
      → Tame (m.curr_offset + length buf) (set_bytes {G = G} old (advance l m) (read_full l buf))
  unfolding set_bytes
  bytes-Tame l old buf m = elim (read_full-cases l buf) [
    | inl (e, r) ↦ rw r tt
    | inr (bs, r, low) ↦ rw r (omega arith)
  ]

  close_struct-Tame :
      (n : ℕ) (m : Metadata) (r : Read (Fields G))
      → Tame n r
      → Tame (m.curr_offset + n) (close_struct m r)
  unfolding close_struct
  close_struct-Tame n m (fs, ok u, m') h = omega arith
  close_struct-Tame n m (fs, err e, m') h = tt
  close_struct-Tame n m (fs, panic, m') h = h
  close_struct-Tame n m (fs, stuck, m') h = h

  join-Tame :
      (n : ℕ) (name : String) (t : Tags) (fs : Fields G) (r : Read (Value G))
      (next : Metadata → Read (Fields G))
      → Tame n r
      → ((m : Metadata) → m.curr_offset ≤ n → Tame n (next m))
      → Tame n (join name t fs r next)
  unfolding join
  join-Tame n name t fs (v, ok u, m) next h k = k m h
  join-Tame n name t fs (v, err e, m) next h k = tt
  join-Tame n name t fs (v, panic, m) next h k = h
  join-Tame n name t fs (v, stuck, m) next h k = h

  set_token-Tame :
      (old : G) (m : Metadata) (n : ℕ) (g : Option G)
      → Tame (m.curr_offset + n) (set_token asn1 old m g)
  unfolding set_token
  set_token-Tame old m n (some g) = omega arith
  set_token-Tame old m n none = tt

  mutual
    unfolding unmarshal

    pub unmarshal-Tame :
        {t : Tags} {v : Value G} (buf : List ℕ) (name : String) (m : Metadata)
        → Fixed t v
        → Tame (m.curr_offset + length buf) (unmarshal asn1 buf name t v m)
    unmarshal-Tame buf name m (fixed_uint {t} {w} {n}) = uint-Tame t w n buf m
    unmarshal-Tame buf name m (fixed_bytes {bs = bs} l e) = rw e (bytes-Tame l bs buf m)
    unmarshal-Tame buf name m (fixed_token {g = g}) =
        set_token-Tame g m (length buf) (asn1.unmarshal buf)
    unmarshal-Tame buf name m (fixed_struct {fs = fs} h) =
        close_struct-Tame (length buf) m (unmarshal_fields asn1 buf fs (new_metadata buf))
          (unmarshal_fields-Tame buf (new_metadata buf) h (omega arith))

    pub unmarshal_fields-Tame :
        {fs : Fields G} (buf : List ℕ) (m : Metadata)
        → FixedFields fs
        → m.curr_offset ≤ length buf
        → Tame (length buf) (unmarshal_fields asn1 buf fs m)
    unmarshal_fields-Tame buf m fixed_end h = h
    unmarshal_fields-Tame buf m (fixed_field {name} {t} {v} {fs} f ff) h =
        let low : ltb (length buf) m.curr_offset ≡ false = ground arith in
        let total : m.curr_offset + length (drop m.curr_offset buf) ≡ length buf =
          omega (arith, length-drop m.curr_offset buf) in
        rw low (
          join-Tame (length buf) name t fs (unmarshal asn1 (drop m.curr_offset buf) name t v m)
            (λ m'. unmarshal_fields asn1 buf fs m')
            (rw total at (unmarshal-Tame (drop m.curr_offset buf) name m f))
            (λ m' h'. unmarshal_fields-Tame buf m' ff h'))
