-- ===== src/Bacnet/Tests.antt =====
-- Runs of the BACnet code, and its theorems at concrete inputs.
use tls_banner_grab_go.Base.{ℕ, ◌≡◌, refl, List, [], ◌∷◌, ◌++◌, none, take, drop, arith, true}
use tls_banner_grab_go.Net.{ReadResult}
use tls_banner_grab_go.Net.Script.{script}
use tls_banner_grab_go.Bacnet.{
  parsed, read_vendor_id, unmarshal_npdu, unmarshal_apdu, Vlc, ReadProperty, marshal_vlc,
  unmarshal_vlc, marshal_npdu, marshal_apdu, marshal_read_property, unmarshal_read_property,
  read_instance_number, put_uint32, read_string_property, marshal_read_property_request,
  new_read_property_request,
}
use tls_banner_grab_go.Bacnet.Codec.{
  encode_string, unmarshal_vlc-marshal_vlc, read_instance_number-put_uint32,
}
use tls_banner_grab_go.Bacnet.Query.{
  send_vlc, read_vlc, parse_headers, send_read_property, query_string_property, query_device_id,
  oid_any, query_vendor_number, query_vendor_name, query_firmware_revision,
  query_application_software_revision, query_object_name, query_model_name, query_description,
  query_location, bacnet_vendor_query,
}
use tls_banner_grab_go.Bacnet.Query.Answers.{
  device_id_request, says_bacnet, answer_frame, Answers, query_string_property-Answers,
  bacnet_vendor_query-verdict, bacnet_vendor_query-found,
}

abbrev header : Vlc
header = record { vlc_type = 0x81; function = 0x0a; len = 300 }

unmarshal_vlc_run : unmarshal_vlc (marshal_vlc header ++ (1 ∷ 4 ∷ [])) ≡ parsed (header, 1 ∷ 4 ∷ [])
unmarshal_vlc_run = unmarshal_vlc-marshal_vlc header (1 ∷ 4 ∷ []) refl (omega arith)

abbrev device : ReadProperty
device = record { object = 0x023fffff; property = 75 }

read_instance_number-put_uint32_example :
    read_instance_number (0x3e ∷ 0xc4 ∷ put_uint32 0x02040005 ++ (0x3f ∷ 7 ∷ []))
    ≡ (7 ∷ [], 5, none)
read_instance_number-put_uint32_example =
    read_instance_number-put_uint32 0x02040005 (7 ∷ []) (omega arith)

abbrev hello : List ℕ
hello = b'h' ∷ b'e' ∷ b'l' ∷ b'l' ∷ b'o' ∷ []

abbrev reply : List ℕ → List ReadResult
reply value =
    record {
      bytes = answer_frame 10 0 40 (record { version = 1; control = 0 }) 1 12 device value;
      error = none;
    }
    ∷ []

abbrev string_value : List ℕ
string_value = encode_string 0 hello ++ (0x3f ∷ [])

string_answer : Answers (script 1476) 0x79 string_value (reply string_value) []
unfolding script take send_vlc marshal_vlc marshal_npdu marshal_apdu marshal_read_property_request
    marshal_read_property new_read_property_request
string_answer = record {
  between = reply string_value;
  function = 10;
  hi = 0;
  lo = 40;
  npdu = record { version = 1; control = 0 };
  invoke = 1;
  choice = 12;
  property = device;
  object_fits = omega arith;
  sends = refl;
  reads = refl;
}

query_string_property-Answers_example :
    query_string_property (script 1476) oid_any 0x79 (reply string_value) ≡ ((hello, none), [])
query_string_property-Answers_example =
    query_string_property-Answers (script 1476) 0x79 0 hello (omega arith) string_answer

abbrev id_value : List ℕ
id_value = 0x3e ∷ 0xc4 ∷ put_uint32 0x02040005 ++ (0x3f ∷ [])

id_answer : Answers (script 1476) 75 id_value (reply id_value) []
unfolding script take send_vlc marshal_vlc marshal_npdu marshal_apdu marshal_read_property_request
    marshal_read_property new_read_property_request
id_answer = record {
  between = reply id_value;
  function = 10;
  hi = 0;
  lo = 40;
  npdu = record { version = 1; control = 0 };
  invoke = 1;
  choice = 12;
  property = device;
  object_fits = omega arith;
  sends = refl;
  reads = refl;
}

bacnet_vendor_query-verdict_example :
    (bacnet_vendor_query (script 1476) (reply id_value)).1.is_bacnet ≡ (
      let (w, s₁) = (script 1476).write device_id_request (reply id_value) in
      let (r, s₂) = (script 1476).read 1476 s₁ in says_bacnet w.error r.error r.bytes)
bacnet_vendor_query-verdict_example = bacnet_vendor_query-verdict (script 1476) (reply id_value)

abbrev vendor_value : List ℕ
vendor_value = 0x3e ∷ 0x21 ∷ 7 ∷ 0x3f ∷ []

-- A device that answers all nine queries.
abbrev nine_replies : List ReadResult
nine_replies =
    reply id_value
    ++ (reply vendor_value
        ++ (reply string_value
            ++ (reply string_value
                ++ (reply string_value
                    ++ (reply string_value
                        ++ (reply string_value ++ (reply string_value ++ reply string_value)))))))

no_query_fails : (bacnet_vendor_query (script 1476) nine_replies).0 ≡ none
unfolding script take drop bacnet_vendor_query query_device_id query_vendor_number query_vendor_name
    query_firmware_revision query_application_software_revision query_object_name query_model_name
    query_description query_location send_read_property read_vlc parse_headers query_string_property
    read_instance_number read_vendor_id read_string_property unmarshal_vlc unmarshal_npdu
    unmarshal_apdu unmarshal_read_property send_vlc marshal_vlc marshal_npdu marshal_apdu
    marshal_read_property_request marshal_read_property new_read_property_request
no_query_fails = refl

bacnet_vendor_query_run : (bacnet_vendor_query (script 1476) nine_replies).1.is_bacnet ≡ true
bacnet_vendor_query_run = bacnet_vendor_query-found (script 1476) nine_replies no_query_fails
