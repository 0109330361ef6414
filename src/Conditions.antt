-- ===== src/Conditions.antt =====
-- zcbor/zcbor.py, class CddlXcoder: the conditions that choose the variables, types and functions of
-- the C code for an element.
pub mod Integers
use zcbor.Prelude.{
  ℕ, zero, suc, ltb, leb, ◌==◌, ℤ, Bool, true, false, not, ◌&&◌, ◌||◌, List, [], ◌∷◌, is_some,
  if◌then◌else◌,
}
use zcbor.Outcome.{Result, ok, raised, out_of_fuel, Exception, ◌>>=◌, and_also, or_else}
use zcbor.Elem.{
  Kind, Attrs, Elem, Value, Elems, no_elems, elems, Cddl, attrs, value, key, kind, children,
  has_value, is_present, resolve,
}
use zcbor.Unambiguous.{is_other, is_container, is_unambiguous, is_unambiguous_repeated}
use zcbor.Quantity.{count_var_condition, multi_var_condition, cbor_var_condition}

abbrev pub is_union : Kind → Bool
is_union Kind.union = true
is_union _ = false

abbrev pub is_group : Kind → Bool
is_group Kind.group = true
is_group _ = false

-- "LIST" and "MAP".
abbrev pub is_sequence : Kind → Bool
is_sequence Kind.list = true
is_sequence Kind.map = true
is_sequence _ = false

-- "INT", "NINT" and "UINT".
abbrev pub is_integer : Kind → Bool
is_integer Kind.int = true
is_integer Kind.nint = true
is_integer Kind.uint = true
is_integer _ = false

abbrev pub is_uint : Kind → Bool
is_uint Kind.uint = true
is_uint _ = false

-- "BSTR" and "TSTR".
abbrev pub is_string : Kind → Bool
is_string Kind.bstr = true
is_string Kind.tstr = true
is_string _ = false

abbrev pub has_members : Elems → Bool
has_members no_elems = false
has_members (elems c cs) = true

abbrev pub non_empty : List ℕ → Bool
non_empty [] = false
non_empty (t ∷ tags) = true

abbrev pub has_tags : Elem → Bool
has_tags e = non_empty (attrs e).tags

unfoldable pub reduced_key_var_condition : Elem → Bool
reduced_key_var_condition e = is_present (key e)

unfoldable pub choice_var_condition : Elem → Bool
choice_var_condition e = is_union (kind e)

-- `self.value[0].reduced_key_var_condition()`, if there is a first member.
unfoldable pub first_has_key : Elems → Bool
unfolding reduced_key_var_condition
first_has_key no_elems = false
first_has_key (elems c cs) = reduced_key_var_condition c

-- The part of `range_check_condition` that looks at the element itself.
unfoldable pub restricts : Elem → Bool
restricts e =
    let a = attrs e in
    not (has_value (value e))
    && ((is_integer a.kind && (is_some a.min_value || is_some a.max_value))
        || (is_uint a.kind && is_some a.bits)
        || (is_string a.kind && (is_some a.min_size || is_some a.max_size)))

-- `named` tells whether an element is an entry of `my_types`, which Python asks by identity, and
-- `unordered_maps` is the option of that name.
module _ (cddl : Cddl) (named : Elem → Bool) (unordered_maps : Bool) where
  unfoldable pub key_var_condition : ℕ → Elem → Result Bool
  unfolding resolve first_has_key
  key_var_condition zero e = out_of_fuel
  key_var_condition (suc f) e =
      if reduced_key_var_condition e
      then ok true
      else or_else
          (if is_other (kind e) then (resolve cddl e >>= λ t. key_var_condition f t) else ok false)
          (λ _. ok ((is_group (kind e) || is_union (kind e)) && first_has_key (children e)))

  unfoldable pub self_repeated_multi_var_condition : ℕ → Elem → Result Bool
  unfolding key_var_condition choice_var_condition
  self_repeated_multi_var_condition f e =
      or_else (key_var_condition f e)
        (λ _. or_else (cbor_var_condition cddl f e) (λ _. ok (choice_var_condition e)))

  -- `member` stands for the call of `multi_member` on the only member.
  unfoldable pub several : (Elem → Result Bool) → Elems → Result Bool
  several member no_elems = ok false
  several member (elems c no_elems) = member c
  several member (elems c (elems d cs)) = ok true

  unfoldable pub multi_val_by : (Elem → Result Bool) → Elem → Result Bool
  unfolding several
  multi_val_by member e =
      if is_container (kind e) || is_union (kind e) then several member (children e) else ok false

  unfoldable pub repeated_multi_by : (Elem → Result Bool) → ℕ → Elem → Result Bool
  unfolding self_repeated_multi_var_condition multi_val_by
  repeated_multi_by member f e =
      or_else (self_repeated_multi_var_condition f e) (λ _. multi_val_by member e)

  unfoldable pub multi_member : ℕ → Elem → Result Bool
  unfolding repeated_multi_by
  multi_member zero e = out_of_fuel
  multi_member (suc f) e =
      or_else (ok (multi_var_condition e)) (λ _. repeated_multi_by (multi_member f) (suc f) e)

  unfoldable pub multi_val_condition : ℕ → Elem → Result Bool
  unfolding multi_val_by
  multi_val_condition f e = multi_val_by (multi_member f) e

  unfoldable pub repeated_multi_var_condition : ℕ → Elem → Result Bool
  unfolding repeated_multi_by
  repeated_multi_var_condition f e = repeated_multi_by (multi_member f) f e

  unfoldable pub range_check_condition : ℕ → Elem → Result Bool
  unfolding resolve restricts
  range_check_condition zero e = out_of_fuel
  range_check_condition (suc f) e =
      if is_other (kind e)
      then (resolve cddl e >>= λ t. range_check_condition f t)
      else ok (restricts e)

  unfoldable pub type_def_condition : ℕ → Elem → Result Bool
  type_def_condition f e =
      and_also (ok (named e)) (λ _.
        and_also (multi_member f e) (λ _. is_unambiguous cddl f e >>= λ known. ok (not known)))

  unfoldable pub repeated_type_def_condition : ℕ → Elem → Result Bool
  repeated_type_def_condition f e = and_also (repeated_multi_var_condition f e) (λ _.
      and_also (ok (multi_var_condition e))
        (λ _. is_unambiguous_repeated cddl f e >>= λ known. ok (not known)))

  unfoldable pub repeated_single_func_impl_condition : ℕ → Elem → Result Bool
  repeated_single_func_impl_condition f e = or_else (repeated_type_def_condition f e) (λ _.
      or_else (and_also (ok (is_container (kind e))) (λ _. multi_member f e)) (λ _.
        and_also (ok (multi_var_condition e))
          (λ _. or_else (self_repeated_multi_var_condition f e) (λ _. range_check_condition f e))))

  unfoldable pub single_func_impl_condition : ℕ → Elem → Result Bool
  single_func_impl_condition f e = or_else (ok (reduced_key_var_condition e)) (λ _.
      or_else (cbor_var_condition cddl f e) (λ _. or_else (ok (has_tags e && named e)) (λ _.
        or_else (type_def_condition f e) (λ _.
          or_else (ok (is_sequence (kind e) || (is_group (kind e) && has_members (children e))))
            (λ _. and_also (ok (unordered_maps && (attrs e).is_key)) (λ _.
              or_else (repeated_single_func_impl_condition f e)
                (λ _. range_check_condition f e)))))))

  -- `skipped` is the element's field of that name.
  unfoldable pub skip_condition : ℕ → Bool → Elem → Result Bool
  skip_condition f skipped e =
      if skipped
      then ok true
      else if is_container (kind e)
      then (repeated_multi_var_condition f e >>= λ b. ok (not b))
      else ok false
