-- ===== src/Siemens/Identification/Fields.antt =====
-- The fields of an identification.
use tls_banner_grab_go.Base.{
  ◌⊎◌, ℕ, zero, suc, ◌≤◌, ◌<◌, ◌≡◌, refl, ◌∙◌, Bool, true, false, List, [], ◌∷◌, ◌++◌, Option, none,
  some, length, drop, get_elem?, ltb, ◌==◌, if◌then◌else◌, arith, All, Bool-cases, inl, inr,
}
use tls_banner_grab_go.Net.{Result, ok, err}
use tls_banner_grab_go.Siemens.{S7Packet, err_s7_packet_too_short}
use tls_banner_grab_go.Siemens.Identification.{
  S7Log, flush, fields_from, Setter, component_field, module_field, put_system, put_module_name,
  put_plant_id, put_copyright, put_serial_number, put_module_type, put_reserved_for_os,
  put_memory_serial_number, put_cpu_profile, put_oem_id, put_location, put_module_id, put_hardware,
  put_firmware, set_field, set_fields, parse_identification,
  parse_component_identification_response, parse_module_identification_request,
}

abbrev pub NonEmpty : List ℕ → Type 0
NonEmpty field = 0 < length field

flush-NonEmpty :
    (field : List ℕ) (fields : List (List ℕ))
    → All NonEmpty fields
    → All NonEmpty (flush field fields)
flush-NonEmpty [] fields h = h
flush-NonEmpty (b ∷ bs) fields h = (omega arith, h)

fields_from-NonEmpty : (field bytes : List ℕ) → All NonEmpty (fields_from field bytes)
unfolding fields_from
fields_from-NonEmpty field [] = flush-NonEmpty field [] tt
fields_from-NonEmpty field (b ∷ bs) =
    let h = fields_from-NonEmpty [] bs in
    let k = fields_from-NonEmpty (field ++ (b ∷ [])) bs in
    elim (Bool-cases (b == 0)) [
      | inl e ↦ rw e (flush-NonEmpty field (fields_from [] bs) h)
      | inr e ↦ rw e k
    ]

field_at :
    (fields : List (List ℕ)) (i : ℕ)
    → All NonEmpty fields
    → i < length fields
    → (b : ℕ) × (bs : List ℕ) × (get_elem? fields i ≡ some (b ∷ bs))
unfolding get_elem?
field_at [] i h l = absurd (omega arith)
field_at ([] ∷ fields) zero h l = absurd (omega (arith, h.0))
field_at ((b ∷ bs) ∷ fields) zero h l = (b, bs, refl)
field_at (f ∷ fields) (suc i) h l = field_at fields i h.1 (omega arith)

-- A setter that leaves the verdict of the log alone.
data KeepsVerdict : Option Setter → Type 0 where
  none_keeps : KeepsVerdict none
  some_keeps :
      {set : Setter}
      → ((v : List ℕ) (log : S7Log) → (set v log).is_s7 ≡ log.is_s7)
      → KeepsVerdict (some set)

KeepsVerdict-if :
    (b : Bool) (set : Setter) {other : Option Setter}
    → ((v : List ℕ) (log : S7Log) → (set v log).is_s7 ≡ log.is_s7)
    → KeepsVerdict other
    → KeepsVerdict (if b then some set else other)
KeepsVerdict-if true set h k = some_keeps h
KeepsVerdict-if false set h k = k

module_field-KeepsVerdict : (i : ℕ) → KeepsVerdict (module_field i)
unfolding module_field
module_field-KeepsVerdict i =
    KeepsVerdict-if (i == 0) put_module_id (λ v log. refl)
      (KeepsVerdict-if (i == 5) put_hardware (λ v log. refl)
        (KeepsVerdict-if (i == 6) put_firmware (λ v log. refl) none_keeps))

component_field-KeepsVerdict : (i : ℕ) → KeepsVerdict (component_field i)
unfolding component_field
component_field-KeepsVerdict i =
    KeepsVerdict-if (i == 0) put_system (λ v log. refl)
      (KeepsVerdict-if (i == 1) put_module_name (λ v log. refl)
        (KeepsVerdict-if (i == 2) put_plant_id (λ v log. refl)
          (KeepsVerdict-if (i == 3) put_copyright (λ v log. refl)
            (KeepsVerdict-if (i == 4) put_serial_number (λ v log. refl)
              (KeepsVerdict-if (i == 5) put_module_type (λ v log. refl)
                (KeepsVerdict-if (i == 6) put_reserved_for_os (λ v log. refl)
                  (KeepsVerdict-if (i == 7) put_memory_serial_number (λ v log. refl)
                    (KeepsVerdict-if (i == 8) put_cpu_profile (λ v log. refl)
                      (KeepsVerdict-if (i == 9) put_oem_id (λ v log. refl)
                        (KeepsVerdict-if (i == 10) put_location (λ v log. refl) none_keeps))))))))))

-- A result that is a log with the verdict of `log`.
abbrev pub Fills : S7Log → Result S7Log → Type 0
Fills log r = (log' : S7Log) × (r ≡ ok log') × (log'.is_s7 ≡ log.is_s7)

set_field-Fills :
    (setter : Option Setter) (b : ℕ) (bs : List ℕ) (log : S7Log)
    → KeepsVerdict setter
    → Fills log (set_field setter (some (b ∷ bs)) log)
unfolding set_field
set_field-Fills none b bs log none_keeps = (log, refl, refl)
set_field-Fills (some set) b bs log (some_keeps k) = (set bs log, refl, k bs log)

set_fields-Fills :
    (setter : ℕ → Option Setter) (i : ℕ) (fields : List (List ℕ)) (log : S7Log)
    → ((j : ℕ) → KeepsVerdict (setter j))
    → All NonEmpty fields
    → i ≤ length fields
    → Fills log (set_fields setter i fields log)
unfolding set_fields
set_fields-Fills setter zero fields log k h l = (log, refl, refl)
set_fields-Fills setter (suc i) fields log k h l =
    let (b, bs, e) = field_at fields i h (omega arith) in
    let (log1, e1, v1) = set_field-Fills (setter i) b bs log (k i) in
    let (log2, e2, v2) = set_fields-Fills setter i fields log1 k h (omega arith) in
    (log2, rw (e, e1) e2, v2 ∙ v1)

-- What a parser comes to: the error of a short packet, or a log with the verdict of `log`.
abbrev pub Parses : S7Log → S7Packet → Result S7Log → Type 0
Parses log p r =
    ((length p.data_bytes < 12) × (r ≡ err err_s7_packet_too_short))
    ⊎ ((12 ≤ length p.data_bytes) × Fills log r)

parse_identification-Parses :
    (setter : ℕ → Option Setter) (log : S7Log) (p : S7Packet)
    → ((j : ℕ) → KeepsVerdict (setter j))
    → Parses log p (parse_identification setter log p)
unfolding parse_identification
parse_identification-Parses setter log p k =
    let fields = fields_from [] (drop 12 p.data_bytes) in
    let found =
      set_fields-Fills setter (length fields) fields log k
        (fields_from-NonEmpty [] (drop 12 p.data_bytes)) (omega arith) in
    elim (Bool-cases (ltb (length p.data_bytes) 12)) [
      | inl h ↦ inl (ground arith, rw h refl)
      | inr h ↦ inr (ground arith, (found.0, rw h (found.1), found.2))
    ]

-- Neither parser of an identification panics. A packet with fewer than twelve bytes of data is
-- the error of a short packet, and any other is read without an error, to a log with the same
-- verdict.
pub parse_identification_total :
    (log : S7Log) (p : S7Packet)
    → Parses log p (parse_component_identification_response log p)
      × Parses log p (parse_module_identification_request log p)
unfolding parse_component_identification_response parse_module_identification_request
parse_identification_total log p = (
  parse_identification-Parses component_field log p component_field-KeepsVerdict,
  parse_identification-Parses module_field log p module_field-KeepsVerdict,
)
