-- ===== src/Modbus/Mei.antt =====
-- The device identification in a Modbus response, and exception codes.
use tls_banner_grab_go.Base.{
  Option, ℕ, zero, suc, ◌+◌, ◌≤◌, ◌<◌, ◌≡◌, ◌↔◌, refl, sym, ap, ◌∙◌, bit_and, bit_or, Bool, true,
  false, not, ◌&&◌, List, [], ◌∷◌, ◌++◌, none, some, length, drop, replicate, ◌==◌, if◌then◌else◌,
  arith, length-append, length-drop, length-replicate, take-append, append_assoc, inl, inr,
  Option-cases,
}
use tls_banner_grab_go.Base.Bits.{all_below, all_below_sound}
use tls_banner_grab_go.Net.{Result, ok}
use tls_banner_grab_go.Modbus.{
  MeiObject, MeiResponse, ModbusEvent, event_is_exception, exception_function_code, function_code,
  first_byte, parse_exception, parse_mei_object, zero_object, parse_objects, parse_mei,
  parse_response, parse_self, function_code_mei,
}

-- An object as a device writes it.
abbrev pub encode_object : MeiObject → List ℕ
encode_object o = o.oid ∷ length o.value ∷ o.value

abbrev pub encode_objects : List MeiObject → List ℕ
encode_objects [] = []
encode_objects (o ∷ os) = encode_object o ++ encode_objects os

pub parse_mei_object-encode :
    (o : MeiObject) (rest : List ℕ)
    → parse_mei_object (encode_object o ++ rest) ≡ (2 + length o.value, some o)
unfolding parse_mei_object
parse_mei_object-encode o rest =
    ground (arith, length-append o.value rest, take-append o.value rest)

pub drop-append_length : (xs ys : List ℕ) (k : ℕ) → k ≡ length xs → drop k (xs ++ ys) ≡ ys
unfolding drop
drop-append_length [] ys k e = rw e (unfold drop in refl)
drop-append_length (x ∷ xs) ys zero e = absurd (omega arith)
drop-append_length (x ∷ xs) ys (suc k) e = drop-append_length xs ys k (omega arith)

pub parse_objects_step :
    (slots it n : ℕ) (o : MeiObject) (os : List MeiObject) (response : List ℕ)
    → it ≤ length response
    → parse_mei_object (drop it response) ≡ (n, some o)
    → parse_objects slots (it + n) response ≡ ok os
    → parse_objects (suc slots) it response ≡ ok (o ∷ os)
unfolding parse_objects
parse_objects_step slots it n o os response h p q = ground arith

parse_objects-encode :
    (os : List MeiObject) (front back : List ℕ) (it : ℕ)
    → it ≡ length front
    → parse_objects (length os) it (front ++ (encode_objects os ++ back)) ≡ ok os
parse_objects-encode [] front back it e = unfold parse_objects in refl
parse_objects-encode (o ∷ os) front back it e =
    let rest : List ℕ = encode_objects os ++ back in
    let regroup : front ++ (encode_objects (o ∷ os) ++ back) ≡ (front ++ encode_object o) ++ rest =
      ap (λ t. front ++ t) (append_assoc (encode_object o) (encode_objects os) back)
      ∙ sym (append_assoc front (encode_object o) rest) in
    let whole : List ℕ = front ++ (encode_objects (o ∷ os) ++ back) in
    let here : drop it whole ≡ encode_object o ++ rest =
      drop-append_length front (encode_objects (o ∷ os) ++ back) it e
      ∙ append_assoc (encode_object o) (encode_objects os) back in
    parse_objects_step (length os) it (2 + length o.value) o os whole
      (omega (arith, length-append front (encode_objects (o ∷ os) ++ back)))
      (rw here (parse_mei_object-encode o rest))
      (rw regroup (
        parse_objects-encode os (front ++ encode_object o) back (it + (2 + length o.value))
          (omega (arith, length-append front (encode_object o)))))

-- Whatever a response holds, the loop stays inside it and fills exactly the slots.
parse_mei_object-le : (bytes : List ℕ) → (parse_mei_object bytes).0 ≤ length bytes
unfolding parse_mei_object
parse_mei_object-le [] = omega arith
parse_mei_object-le (a ∷ []) = omega arith
parse_mei_object-le (a ∷ b ∷ bs) = ground arith

pub parse_objects_stop :
    (slots it : ℕ) (response : List ℕ)
    → it ≤ length response
    → (parse_mei_object (drop it response)).1 ≡ none
    → parse_objects (suc slots) it response ≡ ok (replicate (suc slots) zero_object)
unfolding parse_objects
parse_objects_stop slots it response h e = ground arith

parse_objects_next :
    (slots it : ℕ) (o : MeiObject) (os : List MeiObject) (response : List ℕ)
    → it ≤ length response
    → (parse_mei_object (drop it response)).1 ≡ some o
    → parse_objects slots (it + (parse_mei_object (drop it response)).0) response ≡ ok os
    → parse_objects (suc slots) it response ≡ ok (o ∷ os)
unfolding parse_objects
parse_objects_next slots it o os response h e p = ground arith

parse_objects_total :
    (slots it : ℕ) (response : List ℕ)
    → it ≤ length response
    → (os : List MeiObject) × (parse_objects slots it response ≡ ok os) × (length os ≡ slots)
parse_objects_total zero it response h = ([], unfold parse_objects in refl, refl)
parse_objects_total (suc slots) it response h =
    let (n, obj) = parse_mei_object (drop it response) in
    elim (Option-cases obj) [
      | inl e ↦ (
        replicate (suc slots) zero_object,
        parse_objects_stop slots it response h e,
        length-replicate (suc slots) zero_object,
      )
      | inr (o, e) ↦
          let (os, p, l) =
            parse_objects_total slots (it + n) response
              (omega (arith, parse_mei_object-le (drop it response), length-drop it response)) in
          (o ∷ os, parse_objects_next slots it o os response h e p, ap suc l)
    ]

-- A response that is found is one of a device identification, whose sixth byte announces the
-- slots: so many are there, filled or zero.
abbrev SlotsOf : List ℕ → Option MeiResponse → Type 0
SlotsOf bytes none = Unit
SlotsOf bytes (some r) =
    (next : ℕ) × (rest : List ℕ) × (more : ℕ) × (bytes
      ≡ 0x0e ∷ 1 ∷ r.conformity_level ∷ more ∷ next ∷ r.object_count ∷ rest)
    × (r.more_follows ≡ not (more == 0))
    × (length r.objects ≡ r.object_count)

abbrev pub HasSlots : List ℕ → ModbusEvent → Type 0
HasSlots bytes n = SlotsOf bytes n.mei_response

abbrev Parsed : List ℕ → Result ModbusEvent → Type 0
Parsed bytes r = (n : ModbusEvent) × (r ≡ ok n) × HasSlots bytes n

Parsed-if :
    (bytes : List ℕ) (b : Bool) (x y : Result ModbusEvent)
    → Parsed bytes x
    → (b ≡ false → Parsed bytes y)
    → Parsed bytes (if b then x else y)
Parsed-if bytes true x y hx hy = hx
Parsed-if bytes false x y hx hy = hy refl

parse_mei_total :
    (m : ModbusEvent) (bytes : List ℕ)
    → bytes ≡ m.response
    → m.mei_response ≡ none
    → Parsed bytes (parse_mei m bytes)
unfolding parse_mei
parse_mei_total m (a ∷ b ∷ c ∷ d ∷ e ∷ count ∷ bytes) h k =
    let l : length (a ∷ b ∷ c ∷ d ∷ e ∷ count ∷ bytes) ≡ length m.response = ap length h in
    let (os, p, q) = parse_objects_total count 6 m.response (omega arith) in
    let found : ModbusEvent = record m {
      mei_response = some (record {
        conformity_level = c;
        more_follows = not (d == 0);
        object_count = count;
        objects = os;
      });
    } in
    let unchanged : HasSlots (a ∷ b ∷ c ∷ d ∷ e ∷ count ∷ bytes) m = rw k tt in
    Parsed-if _ (not (a == 0x0e)) _ _ (m, refl, unchanged)
      (λ x.
        Parsed-if _ (not (b == 1)) _ _ (m, refl, unchanged)
          (λ y.
            let ha : a ≡ 0x0e = ground arith in
            let hb : b ≡ 1 = ground arith in
            (found, rw p, (e, bytes, d, rw (ha, hb) refl, refl, q))))
parse_mei_total m [] h k = (m, refl, rw k tt)
parse_mei_total m (a ∷ []) h k = (m, refl, rw k tt)
parse_mei_total m (a ∷ b ∷ []) h k = (m, refl, rw k tt)
parse_mei_total m (a ∷ b ∷ c ∷ []) h k = (m, refl, rw k tt)
parse_mei_total m (a ∷ b ∷ c ∷ d ∷ []) h k = (m, refl, rw k tt)
parse_mei_total m (a ∷ b ∷ c ∷ d ∷ e ∷ []) h k = (m, refl, rw k tt)

-- Parsing an event that has no MEI response yet neither panics nor fails on any bytes; and where
-- it finds a response, the bytes begin with 0e and 01, the conformity level, the byte that says
-- whether more follows, one more, and the number of the objects that the response has.
pub parse_self_total :
    (m : ModbusEvent)
    → m.mei_response ≡ none
    → (n : ModbusEvent) × (parse_self m ≡ ok n) × HasSlots m.response n
unfolding parse_self parse_response parse_exception
parse_self_total m e =
    let slots : HasSlots m.response m = rw e tt in
    Parsed-if m.response (event_is_exception m) _ _ (parse_exception m, refl, slots)
      (λ x.
        Parsed-if m.response (not (m.function == function_code_mei)) _ _ (m, refl, slots)
          (λ y. parse_mei_total m m.response refl e))

-- The objects that a device sends about itself, each value behind its length, are what the parsed
-- event holds, in order, whatever follows them.
pub parse_self-encode :
    (m : ModbusEvent) (conformity more next : ℕ) (os : List MeiObject) (back : List ℕ)
    → m.function ≡ function_code_mei
    → m.response ≡ 0x0e ∷ 1 ∷ conformity ∷ more ∷ next ∷ length os ∷ encode_objects os ++ back
    → parse_self m
      ≡ ok (record m {
        mei_response = some (record {
          conformity_level = conformity;
          more_follows = not (more == 0);
          object_count = length os;
          objects = os;
        });
      })
unfolding parse_self parse_response parse_mei event_is_exception
parse_self-encode m conformity more next os back f r = ground (
  arith,
  parse_objects-encode os (0x0e ∷ 1 ∷ conformity ∷ more ∷ next ∷ length os ∷ []) back 6 refl,
)

-- The check of one function code: `FunctionCode` undoes `ExceptionFunctionCode` exactly if the
-- bits 1 and 2 are clear.
undoes : ℕ → Bool
undoes c =
    if bit_and c 6 == 0
    then bit_and (bit_or c 0x80) 0x79 == c
    else not (bit_and (bit_or c 0x80) 0x79 == c)

undoes_all : all_below 128 undoes ≡ true
unfolding all_below undoes
undoes_all = refl

-- For a code below 128, FunctionCode undoes ExceptionFunctionCode exactly if the bits 1 and 2 of
-- the code are clear.
pub function_code-exception_function_code :
    (c : ℕ) → c < 128 → (function_code (exception_function_code c) ≡ c) ↔ (bit_and c 6 ≡ 0)
unfolding function_code exception_function_code undoes
function_code-exception_function_code c h =
    ground (arith, all_below_sound 128 undoes c undoes_all h)

masked : ℕ → Bool
masked c = bit_and (bit_or c 0x80) 0x7f == c && not (bit_and (bit_or c 0x80) 0x80 == 0)

masked_all : all_below 128 masked ≡ true
unfolding all_below masked
masked_all = refl

-- An event whose function is the exception code of c, for c below 128, is parsed as an exception
-- of c, with the first byte of its response, or 0, as its type.
pub parse_self-exception :
    (m : ModbusEvent) (c : ℕ)
    → c < 128
    → m.function ≡ exception_function_code c
    → parse_self m
      ≡ ok (record m {
        exception_response =
            some (record { exception_function = c; exception_type = first_byte m.response });
      })
unfolding parse_self parse_exception event_is_exception exception_function_code masked
parse_self-exception m c h e = ground (arith, all_below_sound 128 masked c masked_all h)
