-- ===== src/Csiq/Tlv.antt =====
-- crates/csiq/src/tlv.rs: the type codes, the byte cursor and the writers of the record codec.
-- A cursor is the list of the bytes it has not read; `encode_payload` and `decode_payload` stand in
-- the children Encode and Decode.
pub mod Types
pub mod Encode
pub mod Decode
pub mod Frames
pub mod Accepts
pub mod Arms
pub mod Writes
pub mod RoundTrip
pub mod Robust
pub mod Typed
pub mod Reencode
