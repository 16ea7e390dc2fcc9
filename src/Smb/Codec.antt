-- ===== src/Smb/Codec.antt =====
-- Structs of the encoder that have a fixed layout come back as they were.
use native.Mathlib.Numerals.{unary_clauses}
use tls_banner_grab_go.Base.{
  ℕ, zero, suc, ◌+◌, ◌*◌, ◌/◌, ◌^◌, ◌<◌, ◌≡◌, refl, ap, ◌∙◌, false, List, [], ◌∷◌, ◌++◌, none, some,
  String, length, drop, ltb, arith, length-append, drop-append, append_assoc, take-append,
}
use tls_banner_grab_go.Net.{ok}
use tls_banner_grab_go.Smb.Encoder.{
  Asn1, Width, uint8, uint16, uint32, uint64, size, Tags, Value, Fields, uint, bytes, struct, end,
  field, put_le, get_le, Metadata, new_metadata, advance, refer, read_full, set_uint, set_bytes,
  join, close_struct, marshal, marshal_fields, unmarshal, unmarshal_fields,
}

-- A value has the layout of another, and the tags refer to nothing.
mutual
  pub data Like {G : Type 0} : Tags → Value G → Value G → Type 0 where
    like_uint :
        {t : Tags} (w : Width) {old n : ℕ}
        → n < 256 ^ size w
        → t.len ≡ none
        → t.offset ≡ none
        → Like t (uint w old) (uint w n)
    like_bytes :
        {t : Tags} {old bs : List ℕ} → t.fixed ≡ some (length bs) → Like t (bytes old) (bytes bs)
    like_struct : {t : Tags} {fs gs : Fields G} → LikeFields fs gs → Like t (struct fs) (struct gs)

  pub data LikeFields {G : Type 0} : Fields G → Fields G → Type 0 where
    like_end : LikeFields end end
    like_field :
        {name : String} {t : Tags} {v w : Value G} {fs gs : Fields G}
        → Like t v w
        → LikeFields fs gs
        → LikeFields (field name t v fs) (field name t w gs)

pub read_full-append : (bs rest : List ℕ) → read_full (length bs) (bs ++ rest) ≡ ok bs
unfolding read_full
read_full-append [] rest = refl
read_full-append (b ∷ bs) rest =
    let long : ltb (length (bs ++ rest)) (length bs) ≡ false =
      ground (arith, length-append bs rest) in
    rw (long, take-append) refl

length-put_le : (k n : ℕ) → length (put_le k n) ≡ k
unfolding put_le
length-put_le zero n = refl
length-put_le (suc k) n = ap suc (length-put_le k (n / 256))

get_le-put_le : (k n : ℕ) → n < 256 ^ k → get_le (put_le k n) ≡ n
unfolding put_le get_le
get_le-put_le zero n h = omega arith
get_le-put_le (suc k) n h =
    let p : 256 ^ suc k ≡ 256 ^ k * 256 = simp unary_clauses in
    let e = get_le-put_le k (n / 256) (omega (arith, p)) in omega (arith, e)

refer-none :
    (w : Width) (t : Tags) (n : ℕ) (m : Metadata)
    → t.len ≡ none
    → t.offset ≡ none
    → refer w t n m ≡ m
unfolding refer
refer-none uint8 t n m l o = refl
refer-none uint16 t n m l o = rw l refl
refer-none uint32 t n m l o = rw o refl
refer-none uint64 t n m l o = refl

zero_plus : (n : ℕ) → 0 + n ≡ n
zero_plus n = omega arith

plus_zero : (n : ℕ) → n + 0 ≡ n
plus_zero n = omega arith

module _ {G : Type 0} (asn1 : Asn1 G) where
  -- The bytes of a value lie in front of a buffer: it is read, and the offset moves behind it.
  abbrev Reads : Tags → Value G → Value G → Type 0
  Reads t v w =
      (bs : List ℕ) × (marshal asn1 w ≡ ok bs)
      × ((rest : List ℕ) (name : String) (m : Metadata)
          → unmarshal asn1 (bs ++ rest) name t v m ≡ (w, ok tt, advance (length bs) m))

  -- The bytes of fields lie in a buffer from the offset.
  abbrev ReadsFields : Fields G → Fields G → Type 0
  ReadsFields fs gs =
      (bs : List ℕ) × (marshal_fields asn1 gs ≡ ok bs)
      × ((before rest : List ℕ) (m : Metadata)
          → m.curr_offset ≡ length before
          → unmarshal_fields asn1 (before ++ (bs ++ rest)) fs m
            ≡ (gs, ok tt, advance (length bs) m))

  uint-Reads :
      (t : Tags) (w : Width) (old n : ℕ)
      → n < 256 ^ size w
      → t.len ≡ none
      → t.offset ≡ none
      → Reads t (uint w old) (uint w n)
  unfolding marshal unmarshal set_uint
  uint-Reads t w old n h l o = (
    put_le (size w) n,
    refl,
    λ rest name m.
        let r = read_full-append (put_le (size w) n) rest in
        let k = length-put_le (size w) n in
        ap (set_uint w t old m) (rw k at r)
        ∙ rw (get_le-put_le (size w) n h, refer-none w t n m l o, k) refl,
  )

  bytes-Reads :
      (t : Tags) (old bs : List ℕ) → t.fixed ≡ some (length bs) → Reads t (bytes old) (bytes bs)
  unfolding marshal unmarshal set_bytes
  bytes-Reads t old bs f = (bs, refl, λ rest name m. rw (f, read_full-append bs rest) refl)

  struct-Reads : (t : Tags) (fs gs : Fields G) → ReadsFields fs gs → Reads t (struct fs) (struct gs)
  unfolding marshal unmarshal close_struct
  struct-Reads t fs gs (bs, e, h) = (
    bs,
    e,
    λ rest name m.
        ap (close_struct m) (h [] rest (new_metadata (bs ++ rest)) refl) ∙ rw zero_plus refl,
  )

  field_step :
      (buf : List ℕ) (name : String) (t : Tags) (v : Value G) (fs : Fields G) (m : Metadata)
      {w : Value G} {gs : Fields G} {m₁ m₂ : Metadata}
      → ltb (length buf) m.curr_offset ≡ false
      → unmarshal asn1 (drop m.curr_offset buf) name t v m ≡ (w, ok tt, m₁)
      → unmarshal_fields asn1 buf fs m₁ ≡ (gs, ok tt, m₂)
      → unmarshal_fields asn1 buf (field name t v fs) m ≡ (field name t w gs, ok tt, m₂)
  unfolding unmarshal join
  field_step buf name t v fs m low e e' = rw (low, e, e') refl

  field-Reads :
      (name : String) (t : Tags) (v w : Value G) (fs gs : Fields G)
      → Reads t v w
      → ReadsFields fs gs
      → ReadsFields (field name t v fs) (field name t w gs)
  unfolding marshal
  field-Reads name t v w fs gs (bs, e, h) (cs, e', h') = (
    bs ++ cs,
    rw (e, e') refl,
    λ before rest m o.
        let buf : List ℕ = before ++ ((bs ++ cs) ++ rest) in
        let same : (before ++ bs) ++ (cs ++ rest) ≡ buf = rw (append_assoc, append_assoc) refl in
        let low : ltb (length buf) m.curr_offset ≡ false =
          ground (arith, length-append before ((bs ++ cs) ++ rest)) in
        let at_v : drop m.curr_offset buf ≡ bs ++ (cs ++ rest) =
          rw (o, drop-append, append_assoc) refl in
        let o' : m.curr_offset + length bs ≡ length (before ++ bs) =
          omega (arith, o, length-append before bs) in
        let total : (m.curr_offset + length bs) + length cs ≡ m.curr_offset + length (bs ++ cs) =
          omega (arith, length-append bs cs) in
        field_step buf name t v fs m low (rw at_v (h (cs ++ rest) name m))
          (rw same at (h' (before ++ bs) rest (advance (length bs) m) o') ∙ rw total refl),
  )

  mutual
    unfolding marshal unmarshal

    Like-Reads : {t : Tags} {v w : Value G} → Like t v w → Reads t v w
    Like-Reads {t = t} (like_uint w {old} {n} h l o) = uint-Reads t w old n h l o
    Like-Reads {t = t} (like_bytes {old = old} {bs = bs} f) = bytes-Reads t old bs f
    Like-Reads {t = t} (like_struct {fs = fs} {gs = gs} l) = struct-Reads t fs gs (Fields-Reads l)

    Fields-Reads : {fs gs : Fields G} → LikeFields fs gs → ReadsFields fs gs
    Fields-Reads like_end = ([], refl, λ before rest m o. rw plus_zero refl)
    Fields-Reads (like_field {name} {t} {v} {w} {fs} {gs} l ls) =
        field-Reads name t v w fs gs (Like-Reads l) (Fields-Reads ls)

  -- A struct of integers that fit their widths, byte slices of their fixed lengths and such
  -- structs, whose integers have no tags that refer to fields, is read back from the bytes that
  -- it is marshalled to, whatever stands behind them and whatever the struct of the same layout
  -- holds that it is read into.
  pub unmarshal_fields-marshal_fields :
      {fs gs : Fields G} (rest : List ℕ)
      → LikeFields fs gs
      → (bs : List ℕ) × (marshal_fields asn1 gs ≡ ok bs)
        × (unmarshal_fields asn1 (bs ++ rest) fs (new_metadata (bs ++ rest))
            ≡ (gs, ok tt, advance (length bs) (new_metadata (bs ++ rest))))
  unmarshal_fields-marshal_fields rest l =
      let (bs, e, h) = Fields-Reads l in (bs, e, h [] rest (new_metadata (bs ++ rest)) refl)
