-- ===== src/Translator/Decode.antt =====
-- zcbor/zcbor.py, class DataTranslator: `_decode_obj` (`decode_once` here), `_decode_full`, and the
-- methods tied together by fuel, which stands for Python's call stack.
use zcbor.Prelude.{ℕ, zero, suc, ◌-◌, Bool, true, none, some, List, [], ◌∷◌, ◌++◌, if◌then◌else◌}
use zcbor.Outcome.{out_of_fuel, Exception}
use zcbor.Elem.{
  Kind, Elem, Slot, absent, present, Cddl, attrs, key, kind, children, is_present, resolve,
}
use zcbor.Data.{Obj, null, list, tag, of_list}
use zcbor.Unambiguous.{is_unambiguous_repeated}
use zcbor.Quantity.{multi_var_condition}
use zcbor.Translator.Pull.{Pull, threw, spent, after, pure, lift, attempt, iter_next, ◌>>=◌}
use zcbor.Translator.Build.{Runtime, construct_obj}
use zcbor.Translator.AddIf.{Calls, add_if}
use zcbor.Translator.Members.{decode_members, decode_union}
use zcbor.Translator.Single.{decode_single_obj, handle_key}

-- `for i in range(n)`, outside the `try`: every round must succeed.
unfoldable pub decode_times :
    (List Obj → Pull (Obj × List Obj)) → ℕ → List Obj → Pull (List Obj × List Obj)
decode_times step zero it = pure ([], it)
decode_times step (suc n) it = do
  (v, it') ← step it
  (vs, rest) ← decode_times step n it'
  pure (v ∷ vs, rest)

-- `for i in range(n)`, inside the `try`: the first round that fails ends the loop, and the iterator is
-- the copy from before it.
unfoldable pub decode_upto :
    (List Obj → Pull (Obj × List Obj)) → ℕ → List Obj → Pull (List Obj × List Obj)
decode_upto step zero it = pure ([], it)
decode_upto step (suc n) it =
    attempt (step it) (λ (v, it'). do (vs, rest) ← decode_upto step n it'; pure (v ∷ vs, rest))
      (λ _. pure ([], it))

-- `self.max_qty if self.max_qty is not None else self.default_max_qty`.
abbrev pub upper_qty : ℕ → Elem → ℕ
upper_qty default_max_qty e = elim (attrs e).max_qty [ none ↦ default_max_qty | some m ↦ m ]

module _ (rt : Runtime) (cddl : Cddl) (default_max_qty : ℕ) (f : ℕ) (self : Calls) where
  -- `self._decode_single_obj(self._iter_next(it), do_decode)`.
  unfoldable pub decode_next : Elem → List Obj → Bool → Pull (Obj × List Obj)
  unfolding decode_single_obj iter_next
  decode_next e it do_decode = do
    (x, rest) ← iter_next it
    o ← lift (decode_single_obj rt cddl f self e x do_decode)
    pure (o, rest)

  -- The cases of `self.type` in `_decode_obj`, after those of a key and of a tag.
  unfoldable pub decode_as : Kind → Elem → List Obj → Bool → Pull (Obj × List Obj)
  unfolding decode_members decode_union decode_next resolve construct_obj
  decode_as Kind.other e it do_decode = do t ← lift (resolve cddl e); self.full t it do_decode
  decode_as Kind.group e it do_decode = do
    (my_list, rest) ← decode_members self (λ c. is_present (key c)) do_decode (children e) it []
    o ← lift (construct_obj rt my_list do_decode)
    pure (o, rest)
  decode_as Kind.union e it do_decode =
      decode_union rt self do_decode (λ c. self.full c it do_decode) (children e) []
  decode_as k e it do_decode = decode_next e it do_decode

  unfoldable pub decode_plain : Elem → List Obj → Bool → Pull (Obj × List Obj)
  unfolding decode_as
  decode_plain e it do_decode = decode_as (kind e) e it do_decode

  -- The tags of the element, then the iterator: `next` on an empty one raises `StopIteration`.
  unfoldable pub decode_tagged : List ℕ → Elem → List Obj → Bool → Pull (Obj × List Obj)
  unfolding decode_plain
  decode_tagged [] e it do_decode = decode_plain e it do_decode
  decode_tagged (t ∷ tags) e [] do_decode = threw Exception.stop_iteration true
  decode_tagged (t ∷ tags) e (tag n x ∷ rest) do_decode =
      after true
        (do o ← lift (decode_single_obj rt cddl f self e (tag n x) do_decode); pure (o, rest))
  decode_tagged (t ∷ tags) e (x ∷ rest) do_decode = after true (decode_plain e (x ∷ rest) do_decode)

  unfoldable pub decode_keyed : Slot → Elem → List Obj → Bool → Pull (Obj × List Obj)
  unfolding decode_tagged handle_key
  decode_keyed absent e it do_decode = decode_tagged (attrs e).tags e it do_decode
  decode_keyed (present k) e it do_decode = do
    (x, rest) ← iter_next it
    o ← lift (handle_key rt cddl f self k e x do_decode)
    pure (o, rest)

  unfoldable pub decode_once : Elem → List Obj → Bool → Pull (Obj × List Obj)
  unfolding decode_keyed
  decode_once e it do_decode = decode_keyed (key e) e it do_decode

  -- One round of a loop, with what it appends to `retvals`.
  unfoldable pub decode_round : Elem → Bool → List Obj → Pull (Obj × List Obj)
  unfolding decode_once
  decode_round e do_decode it = do
    (v, rest) ← decode_once e it do_decode
    known ← lift (is_unambiguous_repeated cddl f e)
    pure (if known then null else v, rest)

  unfoldable pub decode_repeated : Elem → List Obj → Bool → Pull (Obj × List Obj)
  unfolding decode_times decode_upto decode_round
  decode_repeated e it do_decode = do
    (vs, it') ← decode_times (decode_round e do_decode) (attrs e).min_qty it
    (ws, rest) ←
        decode_upto (decode_round e do_decode) (upper_qty default_max_qty e - (attrs e).min_qty) it'
    pure (list (of_list (vs ++ ws)), rest)

  unfoldable pub decode_full : Elem → List Obj → Bool → Pull (Obj × List Obj)
  unfolding decode_repeated decode_once multi_var_condition
  decode_full e it do_decode =
      if multi_var_condition e then decode_repeated e it do_decode else decode_once e it do_decode

module _ (rt : Runtime) (cddl : Cddl) (default_max_qty : ℕ) where
  -- The methods with `f` nested calls to spend.
  unfoldable pub calls : ℕ → Calls
  unfolding decode_full decode_single_obj add_if
  calls zero = record {
    single = λ e obj d. out_of_fuel;
    full = λ e it d. spent;
    add_if = λ e obj d x n. record { entries = []; outcome = out_of_fuel };
  }
  calls (suc f) =
      let self = calls f in
      record {
        single = decode_single_obj rt cddl (suc f) self;
        full = decode_full rt cddl default_max_qty (suc f) self;
        add_if = add_if rt cddl (suc f) self;
      }
