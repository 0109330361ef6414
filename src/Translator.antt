-- ===== src/Translator.antt =====
-- zcbor/zcbor.py, class DataTranslator: validation and decoding of a CBOR object.
pub mod Check
pub mod Build
pub mod Pull
pub mod AddIf
pub mod Members
pub mod Single
pub mod Decode
pub mod Spec
pub mod Sound
pub mod Limits
pub mod Tags
