-- ===== src/Operators.antt =====
-- zcbor/zcbor.py, class CddlParser: the operands of the control operators, and what `.gt`, `.ge`, `.lt`,
-- `.le` and `.default` do to an element.
pub mod Spec
pub mod Unpack
pub mod Default
pub mod Order
pub mod Marks
pub mod Process
pub mod Turns
pub mod Types
use zcbor.Prelude.{
  ℕ, zero, suc, ◌==◌, length, String, str_eq, Bool, true, false, not, ◌&&◌, ◌||◌, any_of, all_of,
  Option, none, some, List, [], ◌∷◌, if◌then◌else◌,
}
use zcbor.Outcome.{
  Result, ok, raised, out_of_fuel, Exception, require, or_raise, ◌>>=◌, ◌>>◌, and_also,
}
use zcbor.Number.{Number, number_eq}
use zcbor.Elem.{
  Kind, Attrs, Elem, elem, Value, no_value, number, text, truth, members, Elems, no_elems, elems,
  Slot, absent, present, Cddl, attrs, value, kind, children, reference, has_value, resolve,
}
use zcbor.Unambiguous.{is_other, is_container, is_constant_kind, is_literal_kind, is_unambiguous}
use zcbor.Conditions.{is_integer, is_uint}
use zcbor.Bounds.{is_float, nesting, set_min_value, set_max_value}
use zcbor.PostValidate.{is_union, is_bstr, is_parent, is_group_kind}

abbrev pub is_nint : Kind → Bool
is_nint Kind.nint = true
is_nint _ = false

abbrev pub is_int : Kind → Bool
is_int Kind.int = true
is_int _ = false

abbrev pub kind_id : Kind → ℕ
kind_id Kind.untyped = 0
kind_id Kind.int = 1
kind_id Kind.uint = 2
kind_id Kind.nint = 3
kind_id Kind.float = 4
kind_id Kind.bstr = 5
kind_id Kind.tstr = 6
kind_id Kind.bool = 7
kind_id Kind.nil = 8
kind_id Kind.undef = 9
kind_id Kind.any = 10
kind_id Kind.list = 11
kind_id Kind.map = 12
kind_id Kind.group = 13
kind_id Kind.union = 14
kind_id Kind.other = 15

-- Two types, which the code compares by their names.
abbrev pub same_kind : Kind → Kind → Bool
same_kind k l = kind_id k == kind_id l

-- No modifiers but the exceptions.
unfoldable pub enforce_no_modifier : List String → Elem → Result (Unit {0})
enforce_no_modifier exceptions e =
    require Exception.parsing_error (all_of (λ m. any_of (str_eq m) exceptions) (attrs e).modifiers)

-- The rounds of the loop of `unpack_value` that go from a group to its only member.
unfoldable pub unpack_groups : Elem → Result Elem
unpack_groups (elem a (members (elems x no_elems)) k c d) =
    if is_group_kind a.kind
    then (enforce_no_modifier ("value" ∷ []) (elem a (members (elems x no_elems)) k c d)
        >> unpack_groups x)
    else ok (elem a (members (elems x no_elems)) k c d)
unpack_groups e = ok e

-- The types of a bound, of a `.default`, and the rule for an "INT" beside a "UINT" or a "NINT".
abbrev pub is_bound_kind : Kind → Bool
is_bound_kind k = is_float k || is_uint k || is_nint k

abbrev pub is_default_kind : Kind → Bool
is_default_kind k = is_literal_kind k || is_union k

abbrev pub agrees : Kind → Kind → Bool
agrees k l = same_kind k l || (is_int k && (is_uint l || is_nint l))

-- `==` on `self.value`, for two elements that hold their values themselves.
unfoldable pub value_eq : Value → Value → Bool
value_eq no_value no_value = true
value_eq (number m) (number n) = number_eq m n
value_eq (text s) (text t) = str_eq s t
value_eq (truth b) (truth c) = if b then c else not c
value_eq v w = false

abbrev pub same_length : Elems → Elems → Bool
same_length no_elems no_elems = true
same_length (elems c cs) (elems d ds) = same_length cs ds
same_length cs ds = false

-- `==` on the keys of two dictionaries.
abbrev pub same_names : List String → List String → Bool
same_names xs ys = all_of (λ m. any_of (str_eq m) ys) xs && all_of (λ m. any_of (str_eq m) xs) ys

-- The number that `extract_unambiguous_val` has found.
abbrev pub number_of : Value → Result Number
number_of (number n) = ok n
number_of v = raised Exception.type_error

module _ (cddl : Cddl) where
  -- `unpack_value`. A chain that meets an element twice meets a type twice, so the names in `seen` stand
  -- for `already_unpacked`.
  unfoldable pub unpack_from : ℕ → List String → Elem → Result Elem
  unpack_from zero seen e = out_of_fuel
  unpack_from (suc f) seen e = do
    g ← unpack_groups e
    if is_other (kind g)
        then (enforce_no_modifier ("value" ∷ []) g
            >> (resolve cddl g >>= λ t.
                require Exception.parsing_error (not (any_of (str_eq (reference g)) seen))
                >> unpack_from f (reference g ∷ seen) t))
        else ok g

  -- A round for each type, and one more.
  unfoldable pub unpack_value : Elem → Result Elem
  unpack_value e = unpack_from (suc (length cddl.types)) [] e

  unfoldable pub extract_unambiguous_val : (Kind → Bool) → Elem → Result Elem
  extract_unambiguous_val valid_types in_obj = do
    obj ← unpack_value in_obj
    enforce_no_modifier ("value" ∷ []) obj
    require Exception.parsing_error (has_value (value obj))
    require Exception.parsing_error (valid_types (kind obj))
    ok obj

  unfoldable pub extract_ineq_val : Elem → Elem → Result Elem
  extract_ineq_val obj e = do
    require Exception.parsing_error (is_float (kind e) || is_integer (kind e))
    require Exception.parsing_error (not (has_value (value e)))
    ineq ← extract_unambiguous_val is_bound_kind obj
    require Exception.parsing_error
        (not (is_int (kind e)) || is_nint (kind ineq) || is_uint (kind ineq))
    require Exception.parsing_error
        (not (is_uint (kind e) || is_nint (kind e)) || same_kind (kind ineq) (kind e))
    ok ineq

  -- The processors of `.gt` and `.ge`, and of `.lt` and `.le`.
  unfoldable pub set_lower : Bool → Elem → Elem → Result Elem
  set_lower inclusive operand (elem a v k c d) = do
    ineq ← extract_ineq_val operand (elem a v k c d)
    n ← number_of (value ineq)
    b ← set_min_value nesting n inclusive a
    ok (elem b v k c d)

  unfoldable pub set_upper : Bool → Elem → Elem → Result Elem
  set_upper inclusive operand (elem a v k c d) = do
    ineq ← extract_ineq_val operand (elem a v k c d)
    n ← number_of (value ineq)
    b ← set_max_value nesting n inclusive a
    ok (elem b v k c d)

  -- `match_elem`, called on the first element.
  unfoldable mutual
    pub match_elem : Elem → Elem → Result Bool
    match_elem other (elem b w k c d) = do
      u ← unpack_value other
      if not (same_kind (kind u) b.kind && same_names (attrs u).modifiers b.modifiers)
          then ok false
          else if is_literal_kind b.kind || same_kind b.kind Kind.nil || same_kind b.kind Kind.undef
          then ok (value_eq (value u) w)
          else (elim (is_container b.kind) [ true ↦ match_value (children u) w | false ↦ ok false ])

    pub match_value : Elems → Value → Result Bool
    match_value cs (members ds) =
        let same = match_elems cs ds in if same_length cs ds then same else ok false
    match_value cs w = ok false

    pub match_elems : Elems → Elems → Result Bool
    match_elems no_elems no_elems = ok true
    match_elems (elems c cs) (elems d ds) = and_also (match_elem c d) (λ _. match_elems cs ds)
    match_elems cs ds = ok false

  -- The loop of `find_matching_child`; the fuel is that of `is_unambiguous`.
  unfoldable pub first_match : ℕ → Elem → Elems → Result (Option Elem)
  first_match f wanted no_elems = ok none
  first_match f wanted (elems c cs) = do
    b ← and_also (is_unambiguous cddl f c) (λ _. match_elem c wanted)
    let rest = first_match f wanted cs in if b then ok (some c) else rest

  unfoldable pub find_matching_child : ℕ → Elem → Elem → Result (Option Elem)
  find_matching_child f wanted e = do
    require Exception.assertion_error (is_parent (kind e))
    first_match f wanted (children e)

  unfoldable pub default_of : ℕ → Elem → Elem → Result Elem
  default_of f operand e =
      if is_union (kind e)
      then (unpack_value operand >>= λ d.
          find_matching_child f d e >>= or_raise Exception.parsing_error)
      else (extract_unambiguous_val is_default_kind operand >>= λ d.
          require Exception.parsing_error (agrees (kind e) (kind d)) >> ok d)

  unfoldable pub set_default : ℕ → Elem → Elem → Result Elem
  set_default f operand (elem a v k c d) = do
    require Exception.parsing_error (is_default_kind a.kind)
    require Exception.parsing_error
        (a.min_qty == 0 && (elim a.max_qty [ none ↦ false | some m ↦ m == 1 ]))
    x ← default_of f operand (elem a v k c d)
    ok (elem a v k c (present x))
