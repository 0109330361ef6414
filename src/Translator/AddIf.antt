-- ===== src/Translator/AddIf.antt =====
-- zcbor/zcbor.py, class DataTranslator: `_add_if`, and `decode_str` and `decode_obj`, which it calls.
use zcbor.Prelude.{
  ℕ, String, Bool, true, false, not, ◌&&◌, ◌||◌, Option, none, some, List, [], ◌∷◌, ◌++◌,
  if◌then◌else◌,
}
use Prim.Native.String.{◌++◌ as str_append}
use zcbor.Outcome.{
  Result, ok, raised, out_of_fuel, Exception, require, or_raise, and_also, ◌>>=◌, ◌>>◌,
}
use zcbor.Elem.{Kind, Elem, Slot, absent, present, Cddl, key, cbor, kind, is_present, resolve}
use zcbor.Data.{Obj, Objs, null, bytes, list, key_tuple, no_objs, objs}
use zcbor.Unambiguous.{is_unambiguous, is_other}
use zcbor.Quantity.{cbor_var_condition}
use zcbor.Translator.Pull.{Pull, gave, threw, spent}
use zcbor.Translator.Build.{Runtime, Entry, var_name, construct_obj}

-- What a call of `_add_if` has appended to `my_list` when it returns or raises.
pub record Appends : Type 0 where
  pub entries : List Entry
  pub outcome : Result (Unit {0})

abbrev pub append : List Entry → Appends
append es = record { entries = es; outcome = ok tt }

-- A call that appends nothing itself, and what follows if it returns.
abbrev pub first_do : {A : Type 0} → Result A → (A → Appends) → Appends
first_do (ok a) k = k a
first_do (raised e) k = record { entries = []; outcome = raised e }
first_do out_of_fuel k = record { entries = []; outcome = out_of_fuel }

abbrev pub and_then : Appends → Appends → Appends
and_then w k = elim w.outcome [
  | ok u ↦ record { entries = w.entries ++ k.entries; outcome = k.outcome }
  | raised e ↦ w
  | out_of_fuel ↦ w
]

-- The recursive calls of the methods, one level down.
pub record Calls : Type 0 where
  pub single : Elem → Obj → Bool → Result Obj
  pub full : Elem → List Obj → Bool → Pull (Obj × List Obj)
  pub add_if : Elem → Obj → Bool → Bool → Option String → Appends

-- `isinstance(o, bytes) for o in obj`.
abbrev pub all_bytes : Objs → Bool
all_bytes no_objs = true
all_bytes (objs (bytes b) xs) = all_bytes xs
all_bytes (objs x xs) = false

abbrev pub is_bstr : Kind → Bool
is_bstr Kind.bstr = true
is_bstr _ = false

-- The check of `decode_obj` is made on the iterator that was given away: it is empty if it was moved.
abbrev pub only_if_moved : Pull (Obj × List Obj) → Result Obj
only_if_moved (gave (o, rest) true) = ok o
only_if_moved (gave (o, rest) false) = raised Exception.validation_error
only_if_moved (threw e m) = raised e
only_if_moved spent = out_of_fuel

module _ (rt : Runtime) (cddl : Cddl) (f : ℕ) (self : Calls) where
  unfoldable pub decode_obj : Elem → Obj → Bool → Result Obj
  decode_obj e obj do_decode = only_if_moved (self.full e (obj ∷ []) do_decode)

  unfoldable pub decode_str : Elem → List ℕ → Result Obj
  unfolding decode_obj
  decode_str e s = do obj ← or_raise Exception.decode_error (rt.loads s); decode_obj e obj true

  unfoldable pub validate_obj : Elem → Obj → Result Bool
  unfolding decode_obj
  validate_obj e obj = do _ ← decode_obj e obj false; ok true

  -- `self.type == "BSTR" and self.cbor_var_condition()`.
  unfoldable pub is_cbor_bstr : Elem → Result Bool
  is_cbor_bstr e = and_also (ok (is_bstr (kind e))) (λ _. cbor_var_condition cddl f e)

  unfoldable pub decode_each : Elem → Objs → Result Objs
  unfolding decode_str
  decode_each c no_objs = ok no_objs
  decode_each c (objs (bytes b) xs) = do o ← decode_str c b; os ← decode_each c xs; ok (objs o os)
  decode_each c (objs x xs) = raised Exception.type_error

  -- The last part of `_add_if`, where `obj` is no `KeyTuple`.
  unfoldable pub add_cbor : Slot → String → Obj → Appends
  unfolding decode_each
  add_cbor absent n obj = append ((n, obj) ∷ [])
  add_cbor (present c) n (list xs) =
      if all_bytes xs
      then first_do (decode_each c xs)
          (λ os. append ((n, list os) ∷ (str_append n "_bstr", list xs) ∷ []))
      else append ((n, list xs) ∷ [])
  add_cbor (present c) n (bytes b) =
      first_do (decode_str c b) (λ o. append ((n, o) ∷ (str_append n "_bstr", bytes b) ∷ []))
  add_cbor (present c) n obj = append ((n, obj) ∷ [])

  unfoldable pub add_value : Elem → String → Obj → Appends
  unfolding is_cbor_bstr add_cbor
  add_value e n obj =
      first_do (is_cbor_bstr e) (λ b. if b then add_cbor (cbor e) n obj else append ((n, obj) ∷ []))

  -- `if key is not None: self.key._add_if(...)`.
  unfoldable pub add_key : Slot → String → Obj → Bool → Appends
  add_key slot n null do_decode = append []
  add_key absent n k do_decode = record { entries = []; outcome = raised Exception.attribute_error }
  add_key (present ke) n k do_decode = self.add_if ke k do_decode false (some (str_append n "_key"))

  -- `name or self.var_name()`.
  unfoldable pub entry_name : Elem → Option String → String
  unfolding var_name
  entry_name e none = var_name e
  entry_name e (some n) = n

  -- `_add_if` from the test for a `KeyTuple` on.
  unfoldable pub add_entry : Elem → Obj → Bool → Option String → Appends
  unfolding add_value add_key var_name entry_name
  add_entry e (key_tuple k v) do_decode name =
      and_then (add_key (key e) (var_name e) k do_decode) (add_value e (entry_name e name) v)
  add_entry e obj do_decode name = add_value e (entry_name e name) obj

  abbrev pub built : Appends → Bool → Result Obj
  built w do_decode = w.outcome >>= λ _. construct_obj rt w.entries do_decode

  -- One round of the loop over a list. Python counts the bytes of the list anew in each round, and no
  -- round changes whether all its elements are bytes.
  unfoldable pub settle_one : Elem → Bool → Bool → Obj → Result Obj
  unfolding add_entry is_cbor_bstr
  settle_one e all do_decode (key_tuple k v) = do
    o ← built (add_entry e (key_tuple k v) do_decode none) do_decode
    _ ← is_cbor_bstr e
    ok o
  settle_one e all do_decode (bytes b) = do
    special ← is_cbor_bstr e
    require Exception.assertion_error (not special || all)
    ok (bytes b)
  settle_one e all do_decode obj = do _ ← is_cbor_bstr e; ok obj

  unfoldable pub settle : Elem → Bool → Bool → Objs → Result Objs
  unfolding settle_one
  settle e all do_decode no_objs = ok no_objs
  settle e all do_decode (objs x xs) = do
    y ← settle_one e all do_decode x
    ys ← settle e all do_decode xs
    ok (objs y ys)

  unfoldable pub add_known : Elem → Obj → Bool → Option String → Appends
  unfolding settle add_entry
  add_known e (list xs) do_decode name =
      first_do (settle e (all_bytes xs) do_decode xs) (λ ys. add_entry e (list ys) do_decode name)
  add_known e obj do_decode name = add_entry e obj do_decode name

  unfoldable pub add_if : Elem → Obj → Bool → Bool → Option String → Appends
  unfolding add_known resolve
  add_if e obj do_decode expect_key name =
      if expect_key && is_other (kind e) && not (is_present (key e))
      then first_do (resolve cddl e) (λ t. self.add_if t obj do_decode false none)
      else first_do (is_unambiguous cddl f e)
          (λ known. if known then append [] else add_known e obj do_decode name)
