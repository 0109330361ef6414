-- ===== src/Translator/Single.antt =====
-- zcbor/zcbor.py, class DataTranslator: `_decode_single_obj` and `_handle_key`.
use zcbor.Prelude.{ℕ, Bool, true, false, List, [], if◌then◌else◌}
use zcbor.Outcome.{Result, ok, raised, Exception, ◌>>=◌, ◌>>◌}
use zcbor.Elem.{Kind, Elem, Cddl, kind, children, resolve}
use zcbor.Data.{Obj, null, key_tuple, to_list, items}
use zcbor.Unambiguous.{is_unambiguous}
use zcbor.Translator.Check.{check_key, check_tag, check_type, check_value}
use zcbor.Translator.Pull.{Pull, lift, settled, iter_is_empty}
use zcbor.Translator.Pull
use zcbor.Translator.Build.{Runtime, construct_obj}
use zcbor.Translator.AddIf.{Calls}
use zcbor.Translator.Members.{decode_members, decode_union}

-- `iter(obj)` of a list or tuple, and the `KeyTuple`s of a dict.
unfoldable pub iter_list : Obj → Result (List Obj)
iter_list (Obj.list xs) = ok (to_list xs)
iter_list (Obj.tuple xs) = ok (to_list xs)
iter_list obj = raised Exception.type_error

unfoldable pub iter_items : Obj → Result (List Obj)
iter_items (Obj.dict m) = ok (items m)
iter_items obj = raised Exception.attribute_error

module _ (rt : Runtime) (cddl : Cddl) (f : ℕ) (self : Calls) where
  -- The case of a "LIST" or "MAP".
  unfoldable pub decode_container : Bool → Elem → List Obj → Bool → Result Obj
  unfolding decode_members construct_obj iter_is_empty
  decode_container expect_key e it do_decode = do
    (my_list, rest) ← settled (decode_members self (λ _. expect_key) do_decode (children e) it [])
    iter_is_empty rest
    construct_obj rt my_list do_decode

  -- The case of a "UNION", where each child decodes the same object.
  unfoldable pub decode_choice : Elem → Obj → Bool → Result Obj
  unfolding decode_union
  decode_choice e obj do_decode = do
    (o, rest) ← settled (
        decode_union rt self do_decode
          (λ c. Pull.◌>>=◌ (lift (self.single c obj do_decode)) (λ o. Pull.pure (o, [])))
          (children e) [])
    ok o

  -- The cases of `self.type`.
  unfoldable pub decode_kind : Kind → Elem → Obj → Bool → Result Obj
  unfolding decode_container decode_choice iter_list iter_items resolve
  decode_kind Kind.other e obj do_decode = do t ← resolve cddl e; self.single t obj do_decode
  decode_kind Kind.list e obj do_decode = do
    it ← iter_list obj
    decode_container false e it do_decode
  decode_kind Kind.map e obj do_decode = do
    it ← iter_items obj
    decode_container true e it do_decode
  decode_kind Kind.union e obj do_decode = decode_choice e obj do_decode
  decode_kind Kind.group e obj do_decode = raised Exception.assertion_error
  decode_kind Kind.untyped e obj do_decode = raised Exception.assertion_error
  decode_kind k e obj do_decode = ok obj

  unfoldable pub decode_single_obj : Elem → Obj → Bool → Result Obj
  unfolding decode_kind check_key check_tag check_type check_value
  decode_single_obj e obj do_decode = do
    check_key obj
    obj' ← check_tag e obj
    check_type e obj'
    check_value cddl e obj'
    decode_kind (kind e) e obj' do_decode

  -- `key_element` is `self.key`.
  unfoldable pub handle_key : Elem → Elem → Obj → Bool → Result Obj
  unfolding decode_single_obj
  handle_key key_element e (key_tuple k v) do_decode = do
    key_res ← self.single key_element k do_decode
    obj_res ← decode_single_obj e v do_decode
    known ← is_unambiguous cddl f key_element
    ok (key_tuple (if known then null else key_res) obj_res)
  handle_key key_element e obj do_decode = raised Exception.validation_error
