-- ===== src/Smb/Tests.antt =====
-- The probe over scripted answers.
use tls_banner_grab_go.Base.{ℕ, ◌≡◌, refl, false, List, [], ◌∷◌, ◌++◌, none, some, length, arith}
use tls_banner_grab_go.Net.{new, ok}
use tls_banner_grab_go.Net.Stream.{stream, Offers, stream_gives}
use tls_banner_grab_go.Smb.Encoder.{
  Asn1, Fields, end, field, uint, uint16, bytes, marshal_fields, unmarshal_fields, advance,
  new_metadata, size,
}
use tls_banner_grab_go.Smb.Messages.{NegTokenInit, empty_token, new_negotiate_res, no_tags}
use tls_banner_grab_go.Smb.Codec.{
  like_uint, like_bytes, like_field, like_end, unmarshal_fields-marshal_fields,
}
use tls_banner_grab_go.Smb.Safety.{Tame, unmarshal_fields-Tame}
use tls_banner_grab_go.Smb.Status.{new_negotiate_res-FixedFields}
use tls_banner_grab_go.Smb.Session.{SmbLog, get_smb_banner}
use tls_banner_grab_go.Smb.Probe.{
  Verdict, outcome, framed, get_smb_banner-Verdict, get_smb_banner-Offers,
}

-- An asn1 that reads no token.
abbrev asn1 : Asn1 NegTokenInit
asn1 = record {
  marshal = λ t. ok (0x30 ∷ 0 ∷ []);
  unmarshal = λ bs. none;
  error = new "asn1: structure error";
}

abbrev no_log : SmbLog
no_log = record { support_v1 = false }

-- Hanging up drops what the peer has left.
abbrev drop_rest : List ℕ → List ℕ
drop_rest s = []

-- The start of an answer of version 1 with a status, and of one of version 2.
abbrev refused_answer : List ℕ
refused_answer = 0xff ∷ b'S' ∷ b'M' ∷ b'B' ∷ 0x72 ∷ 0 ∷ 0 ∷ 0 ∷ 0x0d ∷ 0 ∷ 0 ∷ 0xc0 ∷ 9 ∷ []

abbrev other_answer : List ℕ
other_answer = 0xfe ∷ b'S' ∷ b'M' ∷ b'B' ∷ 64 ∷ 0 ∷ []

get_smb_banner-Offers_example :
    (s' : List ℕ) × (get_smb_banner asn1 empty_token drop_rest
        (stream 3)
        20
        no_log
        ((0 ∷ 0 ∷ 0 ∷ 13 ∷ []) ++ refused_answer)
      ≡ outcome drop_rest no_log refused_answer s')
unfolding framed stream
get_smb_banner-Offers_example =
    get_smb_banner-Offers asn1 empty_token drop_rest (stream 3) Offers
      (stream_gives 3 (omega arith)) 20 no_log refused_answer
      ((0 ∷ 0 ∷ 0 ∷ 13 ∷ []) ++ refused_answer) (refl, omega arith) (omega arith) (omega arith)
      (omega arith)

get_smb_banner-Verdict_example : Verdict no_log (
    get_smb_banner asn1 empty_token drop_rest
      (stream 2)
      9
      no_log
      ((0 ∷ 0 ∷ 0 ∷ 6 ∷ []) ++ other_answer))
get_smb_banner-Verdict_example =
    get_smb_banner-Verdict asn1 empty_token drop_rest (stream 2) 9 no_log
      ((0 ∷ 0 ∷ 0 ∷ 6 ∷ []) ++ other_answer)

unmarshal_fields-Tame_example : Tame (length refused_answer) (
    unmarshal_fields asn1 refused_answer
      (new_negotiate_res empty_token)
      (new_metadata refused_answer))
unmarshal_fields-Tame_example =
    unmarshal_fields-Tame asn1 refused_answer (new_metadata refused_answer)
      (new_negotiate_res-FixedFields empty_token) (omega arith)

abbrev shape : Fields NegTokenInit
shape = field "StructureSize" no_tags (uint uint16 0) (
    field "ClientGuid" (record { len = none; offset = none; fixed = some 2 }) (bytes (0 ∷ 0 ∷ []))
      end)

abbrev sent : Fields NegTokenInit
sent = field "StructureSize" no_tags (uint uint16 300) (
    field "ClientGuid" (record { len = none; offset = none; fixed = some 2 }) (bytes (5 ∷ 6 ∷ []))
      end)

unmarshal_fields-marshal_fields_example :
    (bs : List ℕ) × (marshal_fields asn1 sent ≡ ok bs)
    × (unmarshal_fields asn1 (bs ++ (9 ∷ [])) shape (new_metadata (bs ++ (9 ∷ [])))
        ≡ (sent, ok tt, advance (length bs) (new_metadata (bs ++ (9 ∷ [])))))
unfolding size
unmarshal_fields-marshal_fields_example = unmarshal_fields-marshal_fields asn1 (9 ∷ []) (
    like_field (like_uint uint16 (omega arith) refl refl)
      (like_field (like_bytes {old = 0 ∷ 0 ∷ []} {bs = 5 ∷ 6 ∷ []} refl) like_end))
