-- ===== src/Smb/Messages.antt =====
-- ztools/smb/smb.go: the messages, as reflection sees them. The embedded header is a field.
use tls_banner_grab_go.Base.{ℕ, ◌%◌, ◌^◌, List, [], ◌∷◌, none, some, String, length}
use tls_banner_grab_go.Net.{make}
use tls_banner_grab_go.Smb.Encoder.{
  Fields, Tags, uint, uint16, uint32, uint64, bytes, words, token, struct, end, field,
}

-- `NegTokenInit` of gss.go with its `NegTokenInitData`; a bit string is its bytes and its length.
pub record NegTokenInit : Type 0 where
  pub oid : List ℕ
  pub mech_types : List (List ℕ)
  pub req_flags : List ℕ × ℕ
  pub mech_token : List ℕ
  pub mech_token_mic : List ℕ

-- `&gss.NegTokenInit{}`
abbrev pub empty_token : NegTokenInit
empty_token = record {
  oid = [];
  mech_types = [];
  req_flags = ([], 0);
  mech_token = [];
  mech_token_mic = [];
}

-- `ProtocolSmb`
abbrev pub protocol_smb : List ℕ
protocol_smb = 0xff ∷ b'S' ∷ b'M' ∷ b'B' ∷ []

abbrev pub status_ok : ℕ
status_ok = 0

abbrev command_negotiate : ℕ
command_negotiate = 0

abbrev security_mode_signing_enabled : ℕ
security_mode_signing_enabled = 1

abbrev dialect_smb_2_1 : ℕ
dialect_smb_2_1 = 0x0210

abbrev pub no_tags : Tags
no_tags = record { len = none; offset = none; fixed = none }

abbrev fixed_tag : ℕ → Tags
fixed_tag n = record { len = none; offset = none; fixed = some n }

abbrev len_tag : String → Tags
len_tag name = record { len = some name; offset = none; fixed = none }

abbrev offset_tag : String → Tags
offset_tag name = record { len = none; offset = some name; fixed = none }

abbrev dialects : List ℕ
dialects = dialect_smb_2_1 ∷ []

module _ {G : Type 0} where
  -- `Header`, from the fields that vary.
  unfoldable pub header : ℕ → ℕ → ℕ → Fields G
  header credit_charge command message_id = field "ProtocolID" (fixed_tag 4) (bytes protocol_smb) (
      field "StructureSize" no_tags (uint uint16 64) (
        field "CreditCharge" no_tags (uint uint16 credit_charge) (
          field "Status" no_tags (uint uint32 0) (
            field "Command" no_tags (uint uint16 command) (
              field "Credits" no_tags (uint uint16 0) (
                field "Flags" no_tags (uint uint32 0) (
                  field "NextCommand" no_tags (uint uint32 0) (
                    field "MessageID" no_tags (uint uint64 message_id) (
                      field "Reserved" no_tags (uint uint32 0) (
                        field "TreeID" no_tags (uint uint32 0) (
                          field "SessionID" no_tags (uint uint64 0)
                            (field "Signature" (fixed_tag 16) (bytes (make 16)) end))))))))))))

  unfoldable pub new_header : Fields G
  new_header = header 0 0 0

  -- `Session.NewNegotiateReq`, from the session's `messageID`.
  unfoldable pub new_negotiate_req : ℕ → Fields G
  new_negotiate_req message_id =
      field "Header" no_tags (struct (header 1 command_negotiate message_id)) (
        field "StructureSize" no_tags (uint uint16 36) (
          field "DialectCount" no_tags (uint uint16 (length dialects % 2 ^ 16)) (
            field "SecurityMode" no_tags (uint uint16 security_mode_signing_enabled) (
              field "Reserved" no_tags (uint uint16 0) (
                field "Capabilities" no_tags (uint uint32 0) (
                  field "ClientGuid" (fixed_tag 16) (bytes (make 16)) (
                    field "ClientStartTime" no_tags (uint uint64 0)
                      (field "Dialects" no_tags (words dialects) end))))))))

  -- `NewNegotiateRes`, from an empty token.
  unfoldable pub new_negotiate_res : G → Fields G
  new_negotiate_res empty = field "Header" no_tags (struct new_header) (
      field "StructureSize" no_tags (uint uint16 0) (
        field "SecurityMode" no_tags (uint uint16 0) (
          field "DialectRevision" no_tags (uint uint16 0) (
            field "Reserved" no_tags (uint uint16 0) (
              field "ServerGuid" (fixed_tag 16) (bytes (make 16)) (
                field "Capabilities" no_tags (uint uint32 0) (
                  field "MaxTransactSize" no_tags (uint uint32 0) (
                    field "MaxReadSize" no_tags (uint uint32 0) (
                      field "MaxWriteSize" no_tags (uint uint32 0) (
                        field "SystemTime" no_tags (uint uint64 0) (
                          field "ServerStartTime" no_tags (uint uint64 0) (
                            field "SecurityBufferOffset" (offset_tag "SecurityBlob") (uint uint16 0)
                              (field "SecurityBufferLength" (len_tag "SecurityBlob") (uint uint16 0)
                                (field "Reserved2" no_tags (uint uint32 0)
                                  (field "SecurityBlob" no_tags (token empty) end)))))))))))))))

  -- `negRes.Header.Status`; the fields are those of the two structs above.
  unfoldable pub fourth_uint : Fields G → ℕ
  fourth_uint (field _ _ _ (field _ _ _ (field _ _ _ (field _ _ (uint w n) fs)))) = n
  fourth_uint _ = 0

  unfoldable pub header_status : Fields G → ℕ
  header_status (field _ _ (struct h) fs) = fourth_uint h
  header_status _ = 0
