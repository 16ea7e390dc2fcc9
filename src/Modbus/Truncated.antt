-- ===== src/Modbus/Truncated.antt =====
-- A response of a device that is cut: it announces more objects than it holds.
use tls_banner_grab_go.Base.{
  ℕ, zero, suc, ◌+◌, ◌≡◌, refl, sym, ◌∙◌, List, [], ◌∷◌, ◌++◌, Option, none, some, length, drop,
  get_elem?, replicate, ◌==◌, if◌then◌else◌, arith, length-append, append_assoc,
}
use tls_banner_grab_go.Net.{ok}
use tls_banner_grab_go.Modbus.{MeiObject, zero_object, parse_objects, parse_mei_object}
use tls_banner_grab_go.Modbus.Mei.{
  encode_object, encode_objects, parse_objects_step, parse_objects_stop, drop-append_length,
  parse_mei_object-encode,
}
use tls_banner_grab_go.Modbus.Names.{
  Bytes, vendor, object_name, marshal_objects, lookup, last_value, lookup-marshal_objects,
}

-- The objects that the response lacks.
abbrev pub missing : ℕ → List MeiObject
missing k = replicate (suc k) zero_object

zero_plus : (k : ℕ) → 0 + k ≡ k
zero_plus k = omega arith

no_object : (parse_mei_object []).1 ≡ none
unfolding parse_mei_object
no_object = refl

plus_suc : (j k : ℕ) → suc j + k ≡ suc (j + k)
plus_suc j k = omega arith

-- The loop over the announced slots keeps the whole objects, and the zero values behind them.
parse_objects-missing :
    (os : List MeiObject) (k : ℕ) (front : List ℕ) (it : ℕ)
    → it ≡ length front
    → parse_objects (length os + suc k) it (front ++ encode_objects os) ≡ ok (os ++ missing k)
parse_objects-missing [] k front it e =
    let here : drop it (front ++ []) ≡ [] = drop-append_length front [] it e in
    rw zero_plus (
      parse_objects_stop k it (front ++ []) (omega (arith, length-append {A = ℕ} front []))
        (rw here no_object))
parse_objects-missing (o ∷ os) k front it e =
    let rest : List ℕ = encode_objects os in
    let whole : List ℕ = front ++ encode_objects (o ∷ os) in
    let regroup : whole ≡ (front ++ encode_object o) ++ rest =
      sym (append_assoc front (encode_object o) rest) in
    let here : drop it whole ≡ encode_object o ++ rest =
      drop-append_length front (encode_objects (o ∷ os)) it e in
    rw plus_suc (
      parse_objects_step (length os + suc k) it (2 + length o.value) o (os ++ missing k) whole
        (omega (arith, length-append front (encode_objects (o ∷ os))))
        (rw here (parse_mei_object-encode o rest))
        (rw regroup (
          parse_objects-missing os k (front ++ encode_object o) (it + (2 + length o.value))
            (omega (arith, length-append front (encode_object o))))))

last_value-append :
    (oid : ℕ) (os ps : List MeiObject) (found : Option (List ℕ))
    → last_value oid found (os ++ ps) ≡ last_value oid (last_value oid found os) ps
unfolding last_value
last_value-append oid [] ps found = refl
last_value-append oid (o ∷ os) ps found =
    last_value-append oid os ps (if oid == o.oid then some o.value else found)

last_value-missing : (found : Option (List ℕ)) (k : ℕ) → last_value 0 found (missing k) ≡ some []
unfolding last_value replicate
last_value-missing found zero = refl
last_value-missing found (suc k) = last_value-missing (some []) k

Bytes-append : (os ps : List MeiObject) → Bytes os → Bytes ps → Bytes (os ++ ps)
Bytes-append [] ps h k = k
Bytes-append (o ∷ os) ps (h, hs) k = (h, Bytes-append os ps hs k)

Bytes-missing : (k : ℕ) → Bytes (missing k)
unfolding replicate
Bytes-missing zero = (omega arith, tt)
Bytes-missing (suc k) = (omega arith, Bytes-missing k)

-- A response that holds fewer objects than it announces, each of them whole, is parsed without an
-- error, and in the JSON of its objects the name of the vendor stands for the empty text,
-- whatever vendor it holds.
pub parse_objects-vendor :
    (os : List MeiObject) (k : ℕ) (front : List ℕ)
    → Bytes os
    → (objects : List MeiObject) × (parse_objects
          (length os + suc k)
          (length front)
          (front ++ encode_objects os)
        ≡ ok objects)
      × (lookup vendor (marshal_objects objects) ≡ some [])
unfolding object_name get_elem?
parse_objects-vendor os k front h = (
  os ++ missing k,
  parse_objects-missing os k front (length front) refl,
  lookup-marshal_objects 0 (os ++ missing k) (omega arith)
        (Bytes-append os (missing k) h (Bytes-missing k))
      ∙ last_value-append 0 os (missing k) none
      ∙ last_value-missing (last_value 0 none os) k,
)
