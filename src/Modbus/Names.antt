-- ===== src/Modbus/Names.antt =====
-- The names under which the objects of a device are written as JSON: `Name` and `MarshalJSON` of
-- zlib/modbus.go.
use tls_banner_grab_go.Base.{
  ℕ, suc, ◌<◌, ◌≡◌, refl, sym, ap, ◌∙◌, inl, inr, true, false, List, [], ◌∷◌, Option, none, some,
  drop, get_elem?, ◌==◌, if◌then◌else◌, arith, All, Bool-cases,
}
use tls_banner_grab_go.Base.Bits.{all_below, all_below_sound}
use tls_banner_grab_go.Net.Text.{same_bytes}
use tls_banner_grab_go.Fox.{digits_value}
use tls_banner_grab_go.Fox.Lines.{decimal}
use tls_banner_grab_go.Modbus.{MeiObject}

abbrev pub vendor : List ℕ
vendor = b'v' ∷ b'e' ∷ b'n' ∷ b'd' ∷ b'o' ∷ b'r' ∷ []

-- `meiObjectNames`
abbrev mei_object_names : List (List ℕ)
mei_object_names =
    vendor
    ∷ (b'p' ∷ b'r' ∷ b'o' ∷ b'd' ∷ b'u' ∷ b'c' ∷ b't' ∷ b'_' ∷ b'c' ∷ b'o' ∷ b'd' ∷ b'e' ∷ [])
    ∷ (b'r' ∷ b'e' ∷ b'v' ∷ b'i' ∷ b's' ∷ b'i' ∷ b'o' ∷ b'n' ∷ [])
    ∷ (b'v' ∷ b'e' ∷ b'n' ∷ b'd' ∷ b'o' ∷ b'r' ∷ b'_' ∷ b'u' ∷ b'r' ∷ b'l' ∷ [])
    ∷ (b'p' ∷ b'r' ∷ b'o' ∷ b'd' ∷ b'u' ∷ b'c' ∷ b't' ∷ b'_' ∷ b'n' ∷ b'a' ∷ b'm' ∷ b'e' ∷ [])
    ∷ (b'm' ∷ b'o' ∷ b'd' ∷ b'e' ∷ b'l' ∷ b'_' ∷ b'n' ∷ b'a' ∷ b'm' ∷ b'e' ∷ [])
    ∷ (b'u' ∷ b's' ∷ b'e' ∷ b'r' ∷ b'_' ∷ b'a' ∷ b'p' ∷ b'p' ∷ b'l' ∷ b'i' ∷ b'c' ∷ b'a' ∷ b't'
        ∷ b'i' ∷ b'o' ∷ b'n' ∷ b'_' ∷ b'n' ∷ b'a' ∷ b'm' ∷ b'e' ∷ [])
    ∷ []

-- `MEIObjectID.Name` of an identifier that is a byte.
unfoldable pub object_name : ℕ → List ℕ
object_name oid = elim (get_elem? mei_object_names oid) [
  | some name ↦ name
  | none ↦ b'o' ∷ b'i' ∷ b'd' ∷ b'_' ∷ decimal 3 oid
]

-- A `map[string]string`, in which the entry set last stands first.
abbrev pub Names : Type 0
Names = List (List ℕ × List ℕ)

unfoldable pub set_objects : Names → List MeiObject → Names
set_objects enc [] = enc
set_objects enc (o ∷ os) = set_objects ((object_name o.oid, o.value) ∷ enc) os

-- `MEIObjectSet.MarshalJSON`, up to the map that it hands to `json.Marshal`.
abbrev pub marshal_objects : List MeiObject → Names
marshal_objects = set_objects []

unfoldable pub lookup : List ℕ → Names → Option (List ℕ)
lookup name [] = none
lookup name ((key, value) ∷ entries) =
    let rest = lookup name entries in if same_bytes name key then some value else rest

-- The value of the last object with an identifier.
unfoldable pub last_value : ℕ → Option (List ℕ) → List MeiObject → Option (List ℕ)
last_value oid found [] = found
last_value oid found (o ∷ os) = last_value oid (if oid == o.oid then some o.value else found) os

pub same_bytes_sound : (xs ys : List ℕ) → same_bytes xs ys ≡ true → xs ≡ ys
unfolding same_bytes
same_bytes_sound [] [] h = refl
same_bytes_sound [] (y ∷ ys) h = cc
same_bytes_sound (x ∷ xs) [] h = cc
same_bytes_sound (x ∷ xs) (y ∷ ys) h =
    let e = same_bytes_sound xs ys (ground arith) in let e' : x ≡ y = ground arith in cc

pub same_bytes_refl : (xs : List ℕ) → same_bytes xs xs ≡ true
unfolding same_bytes
same_bytes_refl [] = refl
same_bytes_refl (x ∷ xs) = ground (arith, same_bytes_refl xs)

-- The identifier of a name.
index_of : List ℕ → ℕ → List (List ℕ) → ℕ
index_of name n [] = digits_value 0 (drop 4 name)
index_of name n (t ∷ ts) = if same_bytes name t then n else index_of name (suc n) ts

index_of-object_name : (oid : ℕ) → oid < 256 → index_of (object_name oid) 0 mei_object_names ≡ oid
unfolding index_of object_name same_bytes decimal digits_value get_elem? drop all_below
index_of-object_name oid h =
    let all =
      all_below_sound 256 (λ n. index_of (object_name n) 0 mei_object_names == n) oid refl h in
    ground arith

object_name-same :
    (a b : ℕ) → a < 256 → b < 256 → same_bytes (object_name a) (object_name b) ≡ (a == b)
object_name-same a b ha hb = elim (Bool-cases (same_bytes (object_name a) (object_name b))) [
  | inl e ↦
      let one = same_bytes_sound (object_name a) (object_name b) e in
      let two =
        sym (index_of-object_name a ha)
        ∙ ap (λ t. index_of t 0 mei_object_names) one
        ∙ index_of-object_name b hb in
      let three : (a == b) ≡ true = ground arith in e ∙ sym three
  | inr e ↦ elim (Bool-cases (a == b)) [
    | inr d ↦ e ∙ sym d
    | inl d ↦
        let eq : a ≡ b = ground arith in
        let clash : true ≡ false = sym (same_bytes_refl (object_name b)) ∙ rw eq at e in cc
  ]
]

abbrev pub Bytes : List MeiObject → Type 0
Bytes = All (λ o. o.oid < 256)

lookup-set_objects :
    (oid : ℕ) (enc : Names) (os : List MeiObject)
    → oid < 256
    → Bytes os
    → lookup (object_name oid) (set_objects enc os)
      ≡ last_value oid (lookup (object_name oid) enc) os
unfolding lookup set_objects last_value
lookup-set_objects oid enc [] h hs = refl
lookup-set_objects oid enc (o ∷ os) h (ho, hs) =
    lookup-set_objects oid ((object_name o.oid, o.value) ∷ enc) os h hs
    ∙ rw (object_name-same oid o.oid h ho) refl

-- Under the name of each identifier stands the value of the last object that has it.
pub lookup-marshal_objects :
    (oid : ℕ) (os : List MeiObject)
    → oid < 256
    → Bytes os
    → lookup (object_name oid) (marshal_objects os) ≡ last_value oid none os
unfolding lookup
lookup-marshal_objects oid os h hs = lookup-set_objects oid [] os h hs
