-- ===== src/Translator/Members.antt =====
-- zcbor/zcbor.py, class DataTranslator: the loops over `self.value`, of a list, map or group, and of
-- a union (in `_decode_single_obj` and `_decode_obj`).
use zcbor.Prelude.{Bool, false, none, List, [], ◌∷◌, ◌++◌}
use zcbor.Outcome.{Exception}
use zcbor.Elem.{Elem, Elems, no_elems, elems}
use zcbor.Data.{Obj, str}
use zcbor.Translator.Pull.{Pull, gave, threw, spent, after, pure, lift, catch, ◌>>=◌}
use zcbor.Translator.Build.{Runtime, Entry, var_name, construct_obj}
use zcbor.Translator.AddIf.{Calls}

-- `expect` is the argument `expect_key` for a child.
module _ (self : Calls) (expect : Elem → Bool) (do_decode : Bool) where
  unfoldable pub decode_members : Elems → List Obj → List Entry → Pull (List Entry × List Obj)
  decode_members no_elems it my_list = pure (my_list, it)
  decode_members (elems c cs) it my_list = do
    (o, it') ← self.full c it do_decode
    let w = self.add_if c o do_decode (expect c) none
    _ ← lift w.outcome
    decode_members cs it' (my_list ++ w.entries)

-- `run` decodes `obj` or from `it` as one child.
module _ (rt : Runtime) (self : Calls) (do_decode : Bool) (run : Elem → Pull (Obj × List Obj)) where
  abbrev pub with_choice : Elem → List Entry → List Entry
  with_choice c my_list = my_list ++ ("union_choice", str (var_name c)) ∷ []

  -- The body of the `try` after the child is decoded, with `my_list` as it leaves it, also when it
  -- raises.
  unfoldable pub try_result :
      Elem → List Entry → Pull (Obj × List Obj) → List Entry × Pull (Obj × List Obj)
  try_result c my_list (gave (o, it) m) =
      let w = self.add_if c o do_decode false none in
      let so_far = my_list ++ w.entries in
      (
        so_far,
        after m (do
          _ ← lift w.outcome
          u ← lift (construct_obj rt (with_choice c so_far) do_decode)
          pure (u, it)),
      )
  try_result c my_list (threw e m) = (my_list, threw e m)
  try_result c my_list spent = (my_list, spent)

  unfoldable pub try_child : Elem → List Entry → List Entry × Pull (Obj × List Obj)
  unfolding try_result
  try_child c my_list = try_result c my_list (run c)

  unfoldable pub decode_union : Elems → List Entry → Pull (Obj × List Obj)
  unfolding try_child
  decode_union no_elems my_list = threw Exception.validation_error false
  decode_union (elems c cs) my_list =
      let tried = try_child c my_list in catch tried.1 (λ _. decode_union cs tried.0)
