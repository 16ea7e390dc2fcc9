-- ===== src/Siemens/Identification.antt =====
-- ztools/scada/siemens/log.go and the parsers of s7.go: the fields of an identification.
pub mod Fields
use tls_banner_grab_go.Base.{
  ℕ, zero, suc, ◌+◌, Bool, true, false, List, [], ◌∷◌, ◌++◌, Option, none, some, length, drop,
  get_elem?, ltb, ◌==◌, if◌then◌else◌,
}
use tls_banner_grab_go.Net.{Result, ok, err, panic, stuck, ◌>>=◌}
use tls_banner_grab_go.Siemens.{S7Packet, err_s7_packet_too_short}

-- log.go; the strings are their bytes, and `module_name` is `Module`.
pub record S7Log : Type 0 where
  pub is_s7 : Bool
  pub system : List ℕ
  pub module_name : List ℕ
  pub plant_id : List ℕ
  pub copyright : List ℕ
  pub serial_number : List ℕ
  pub reserved_for_os : List ℕ
  pub module_type : List ℕ
  pub memory_serial_number : List ℕ
  pub cpu_profile : List ℕ
  pub oem_id : List ℕ
  pub location : List ℕ
  pub module_id : List ℕ
  pub hardware : List ℕ
  pub firmware : List ℕ

-- `bytes.FieldsFunc` at the zero bytes, with the field that is being read: the fields that are not
-- empty.
abbrev flush : List ℕ → List (List ℕ) → List (List ℕ)
flush [] fields = fields
flush (b ∷ bs) fields = (b ∷ bs) ∷ fields

pub fields_from : List ℕ → List ℕ → List (List ℕ)
fields_from field [] = flush field []
fields_from field (b ∷ bs) =
    if b == 0 then flush field (fields_from [] bs) else fields_from (field ++ (b ∷ [])) bs

abbrev Setter : Type 0
Setter = List ℕ → S7Log → S7Log

abbrev pub put_system : Setter
put_system v log = record log { system = v }

abbrev pub put_module_name : Setter
put_module_name v log = record log { module_name = v }

abbrev pub put_plant_id : Setter
put_plant_id v log = record log { plant_id = v }

abbrev pub put_copyright : Setter
put_copyright v log = record log { copyright = v }

abbrev pub put_serial_number : Setter
put_serial_number v log = record log { serial_number = v }

abbrev pub put_module_type : Setter
put_module_type v log = record log { module_type = v }

abbrev pub put_reserved_for_os : Setter
put_reserved_for_os v log = record log { reserved_for_os = v }

abbrev pub put_memory_serial_number : Setter
put_memory_serial_number v log = record log { memory_serial_number = v }

abbrev pub put_cpu_profile : Setter
put_cpu_profile v log = record log { cpu_profile = v }

abbrev pub put_oem_id : Setter
put_oem_id v log = record log { oem_id = v }

abbrev pub put_location : Setter
put_location v log = record log { location = v }

abbrev pub put_module_id : Setter
put_module_id v log = record log { module_id = v }

abbrev pub put_hardware : Setter
put_hardware v log = record log { hardware = v }

abbrev pub put_firmware : Setter
put_firmware v log = record log { firmware = v }

-- The `switch` of each parser.
pub component_field : ℕ → Option Setter
component_field i =
    if i == 0
    then some put_system
    else if i == 1
    then some put_module_name
    else if i == 2
    then some put_plant_id
    else if i == 3
    then some put_copyright
    else if i == 4
    then some put_serial_number
    else if i == 5
    then some put_module_type
    else if i == 6
    then some put_reserved_for_os
    else if i == 7
    then some put_memory_serial_number
    else if i == 8
    then some put_cpu_profile
    else if i == 9
    then some put_oem_id
    else if i == 10
    then some put_location
    else none

pub module_field : ℕ → Option Setter
module_field i =
    if i == 0
    then some put_module_id
    else if i == 5
    then some put_hardware
    else if i == 6
    then some put_firmware
    else none

-- `fields[i][1:]` into its field of the log.
set_field : Option Setter → Option (List ℕ) → S7Log → Result S7Log
set_field none field log = ok log
set_field (some set) none log = panic
set_field (some set) (some []) log = panic
set_field (some set) (some (index ∷ value)) log = ok (set value log)

-- The loop from the last field to the first.
pub set_fields : (ℕ → Option Setter) → ℕ → List (List ℕ) → S7Log → Result S7Log
unfolding set_field
set_fields setter zero fields log = ok log
set_fields setter (suc i) fields log =
    set_field (setter i) (get_elem? fields i) log >>= set_fields setter i fields

-- Both parsers; a packet that is too short is an error, with the log as it was.
parse_identification : (ℕ → Option Setter) → S7Log → S7Packet → Result S7Log
unfolding fields_from set_fields
parse_identification setter log p =
    let fields = fields_from [] (drop 12 p.data_bytes) in
    if ltb (length p.data_bytes) 12
    then err err_s7_packet_too_short
    else set_fields setter (length fields) fields log

pub parse_component_identification_response : S7Log → S7Packet → Result S7Log
unfolding parse_identification component_field
parse_component_identification_response = parse_identification component_field

pub parse_module_identification_request : S7Log → S7Packet → Result S7Log
unfolding parse_identification module_field
parse_module_identification_request = parse_identification module_field
