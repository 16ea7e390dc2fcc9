-- ===== src/Smb/Encoder.antt =====
-- ztools/smb/encoder/encoder.go and the two methods of gss.go that it calls: structs of fixed
-- integers, byte slices and tokens as bytes, by reflection. `Value` is what reflection sees.
use tls_banner_grab_go.Base.{
  ℕ, zero, suc, ◌+◌, ◌*◌, ◌/◌, ◌%◌, List, [], ◌∷◌, ◌++◌, Option, none, some, String, length, take,
  drop, ltb, if◌then◌else◌,
}
use tls_banner_grab_go.Net.{Error, net, eof, new, Result, ok, err, panic, stuck, ◌>>=◌}
use text.Mathlib.Text

-- `asn1.Marshal` and `asn1.UnmarshalWithParams` on a `NegTokenInit`, whose values are `G`.
pub record Asn1 (G : Type 0) : Type 0 where
  pub marshal : G → Result (List ℕ)
  pub unmarshal : List ℕ → Option G
  pub error : Error

-- The bytes of an unsigned integer.
pub data Width : Type 0 where
  uint8 uint16 uint32 uint64 : Width

unfoldable pub size : Width → ℕ
size uint8 = 1
size uint16 = 2
size uint32 = 4
size uint64 = 8

-- The tag of a field, parsed. The code sets `count` and `asn1` too, and reads neither.
pub record Tags : Type 0 where
  pub len : Option String
  pub offset : Option String
  pub fixed : Option ℕ

-- A value by its kind: an integer, `[]byte`, `[]uint16`, a struct, and a pointer to a token, which is
-- a `BinaryMarshallable`.
mutual
  pub data Value (G : Type 0) : Type 0 where
    uint : Width → ℕ → Value G
    bytes : List ℕ → Value G
    words : List ℕ → Value G
    token : G → Value G
    struct : Fields G → Value G

  pub data Fields (G : Type 0) : Type 0 where
    end : Fields G
    field : String → Tags → Value G → Fields G → Fields G

-- Little endian.
unfoldable pub put_le : ℕ → ℕ → List ℕ
put_le zero n = []
put_le (suc k) n = (n % 256) ∷ put_le k (n / 256)

unfoldable pub get_le : List ℕ → ℕ
get_le [] = 0
get_le (b ∷ bs) = b + 256 * get_le bs

unfoldable pub put_words : List ℕ → List ℕ
put_words [] = []
put_words (w ∷ ws) = put_le 2 w ++ put_words ws

-- `Metadata` while a struct is read. `Tags` and `CurrField` are arguments.
pub record Metadata : Type 0 where
  pub lens : List (String × ℕ)
  pub offsets : List (String × ℕ)
  pub parent_buf : List ℕ
  pub curr_offset : ℕ

abbrev pub new_metadata : List ℕ → Metadata
new_metadata buf = record { lens = []; offsets = []; parent_buf = buf; curr_offset = 0 }

-- The entry of a map that was set last.
unfoldable pub find : String → List (String × ℕ) → Option ℕ
find name [] = none
find name ((key, n) ∷ entries) =
    let rest = find name entries in if Text.◌==◌ name key then some n else rest

abbrev pub advance : ℕ → Metadata → Metadata
advance n m = record m { curr_offset = m.curr_offset + n }

-- The references that an integer sets: its length if it has 16 bits, its offset if it has 32.
unfoldable pub refer : Width → Tags → ℕ → Metadata → Metadata
refer uint16 tags n m = elim tags.len [
  | none ↦ m
  | some ref ↦ record m { lens = (ref, n) ∷ m.lens }
]
refer uint32 tags n m = elim tags.offset [
  | none ↦ m
  | some ref ↦ record m { offsets = (ref, n) ∷ m.offsets }
]
refer _ tags n m = m

-- What a call leaves: the value, which is as it was where nothing was set, its error, and the
-- metadata of the struct around it.
abbrev pub Read : Type 0 → Type 0
Read A = A × Result (Unit {0}) × Metadata

-- `binary.Read` of `n` bytes from the front of a buffer.
unfoldable pub read_full : ℕ → List ℕ → Result (List ℕ)
read_full zero buf = ok []
read_full (suc n) [] = err (net eof)
read_full (suc n) (b ∷ buf) =
    if ltb (length buf) n then err (new "unexpected EOF") else ok (b ∷ take n buf)

-- The end of an integer's case, where it has been read.
unfoldable pub set_uint :
    {G : Type 0} → Width → Tags → ℕ → Metadata → Result (List ℕ) → Read (Value G)
set_uint w tags old m (ok bs) =
    (uint w (get_le bs), ok tt, advance (size w) (refer w tags (get_le bs) m))
set_uint w tags old m (err e) = (uint w old, err e, m)
set_uint w tags old m panic = (uint w old, panic, m)
set_uint w tags old m stuck = (uint w old, stuck, m)

unfoldable pub set_bytes : {G : Type 0} → List ℕ → Metadata → Result (List ℕ) → Read (Value G)
set_bytes old m (ok bs) = (bytes bs, ok tt, m)
set_bytes old m (err e) = (bytes old, err e, m)
set_bytes old m panic = (bytes old, panic, m)
set_bytes old m stuck = (bytes old, stuck, m)

-- `meta.ParentBuf[o : o+l]`
unfoldable pub slice : ℕ → ℕ → List ℕ → Result (List ℕ)
slice o l buf = if ltb (length buf) (o + l) then panic else ok (take l (drop o buf))

-- The bytes of a field without a fixed length, whose length an earlier field gave, and perhaps its
-- offset in the struct's bytes. The current offset stays.
unfoldable pub variable_bytes : String → Metadata → Result (List ℕ)
variable_bytes name m = elim (find name m.lens) [
  | none ↦ err (new "Variable length field missing length reference in struct: ")
  | some l ↦ elim (find name m.offsets) [
    | none ↦ slice m.curr_offset l m.parent_buf
    | some o ↦ slice o l m.parent_buf
  ]
]

-- A field that was read, and then the fields behind it; an error leaves these as they were.
unfoldable pub join :
    {G : Type 0}
    → String
    → Tags
    → Fields G
    → Read (Value G)
    → (Metadata → Read (Fields G))
    → Read (Fields G)
join name tags fs (v, ok u, m) next = let (fs', r, m') = next m in (field name tags v fs', r, m')
join name tags fs (v, err e, m) next = (field name tags v fs, err e, m)
join name tags fs (v, panic, m) next = (field name tags v fs, panic, m)
join name tags fs (v, stuck, m) next = (field name tags v fs, stuck, m)

-- The struct's offset is added to that of the struct around it, where it was read whole.
unfoldable pub close_struct : {G : Type 0} → Metadata → Read (Fields G) → Read (Value G)
close_struct outer (fs, ok u, m) = (struct fs, ok tt, advance m.curr_offset outer)
close_struct outer (fs, err e, m) = (struct fs, err e, outer)
close_struct outer (fs, panic, m) = (struct fs, panic, outer)
close_struct outer (fs, stuck, m) = (struct fs, stuck, outer)

module _ {G : Type 0} (asn1 : Asn1 G) where
  -- `NegTokenInit.MarshalBinary`: an error of asn1 is a panic, and the first byte is overwritten.
  unfoldable pub marshal_token : Result (List ℕ) → Result (List ℕ)
  marshal_token (ok (b ∷ bs)) = ok (0x60 ∷ bs)
  marshal_token (ok []) = panic
  marshal_token (err e) = panic
  marshal_token panic = panic
  marshal_token stuck = stuck

  -- `marshal`, but for the tags `len` and `offset`, which no struct that the program marshals has.
  unfoldable mutual
    pub marshal : Value G → Result (List ℕ)
    marshal (uint w n) = ok (put_le (size w) n)
    marshal (bytes bs) = ok bs
    marshal (words ws) = ok (put_words ws)
    marshal (token g) = marshal_token (asn1.marshal g)
    marshal (struct fs) = marshal_fields fs

    pub marshal_fields : Fields G → Result (List ℕ)
    marshal_fields end = ok []
    marshal_fields (field name tags v fs) =
        marshal v >>= λ buf. marshal_fields fs >>= λ rest. ok (buf ++ rest)

  -- `NegTokenInit.UnmarshalBinary`
  unfoldable pub set_token : G → Metadata → Option G → Read (Value G)
  set_token old m (some g) = (token g, ok tt, m)
  set_token old m none = (token old, err asn1.error, m)

  -- `unmarshal` of a value that stands in a struct. For `[]uint16` the error is returned as the
  -- value, which the field cannot hold: a panic of `reflect`.
  unfoldable mutual
    pub unmarshal : List ℕ → String → Tags → Value G → Metadata → Read (Value G)
    unmarshal buf name tags (uint w n) m = set_uint w tags n m (read_full (size w) buf)
    unmarshal buf name tags (bytes bs) m = elim tags.fixed [
      | some l ↦ set_bytes bs (advance l m) (read_full l buf)
      | none ↦ set_bytes bs m (variable_bytes name m)
    ]
    unmarshal buf name tags (words ws) m = (words ws, panic, m)
    unmarshal buf name tags (token g) m = set_token g m (asn1.unmarshal buf)
    unmarshal buf name tags (struct fs) m =
        close_struct m (unmarshal_fields buf fs (new_metadata buf))

    -- The loop over the fields of a struct; `buf[m.CurrOffset:]` is given to each.
    pub unmarshal_fields : List ℕ → Fields G → Metadata → Read (Fields G)
    unmarshal_fields buf end m = (end, ok tt, m)
    unmarshal_fields buf (field name tags v fs) m =
        let r = unmarshal (drop m.curr_offset buf) name tags v m in
        if ltb (length buf) m.curr_offset
        then (field name tags v fs, panic, m)
        else join name tags fs r (λ m'. unmarshal_fields buf fs m')
