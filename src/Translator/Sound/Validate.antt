-- ===== src/Translator/Sound/Validate.antt =====
-- zcbor/zcbor.py, class DataTranslator: `validate_obj` and `decode_obj` for a whole object.
use zcbor.Elem.{Elem}
use zcbor.Translator.Pull.{Pull}
use zcbor.Translator.Pull.Yields.{Yields}
