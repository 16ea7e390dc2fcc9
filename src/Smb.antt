-- ===== src/Smb.antt =====
-- ztools/smb: the probe for version 1 of SMB. Its messages are structs that encoder.go marshals by
-- reflection; encoding/asn1 is a parameter.
pub mod Encoder
pub mod Messages
pub mod Codec
pub mod Safety
pub mod Session
pub mod Status
pub mod Probe
mod Tests
