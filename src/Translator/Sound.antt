-- ===== src/Translator/Sound.antt =====
-- zcbor/zcbor.py, class DataTranslator: what decoding accepts against what the CDDL says, and that it ends.
pub mod Members
pub mod Checks
pub mod AddIf
pub mod Single
pub mod Decode
pub mod Clear
pub mod Validate
