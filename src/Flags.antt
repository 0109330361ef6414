-- ===== src/Flags.antt =====
-- zcbor/zcbor.py, class CodeGenerator: `_num_map_search_flags`, which counts the flags that the search of
-- maps needs, as texts of C expressions.
pub mod Limits
pub mod Related
pub mod Steps
pub mod Total
pub mod Counted
pub mod Room
pub mod Reached
use Prim.Native.Char.{Char, code}
use Prim.Native.String as String
use zcbor.Prelude.{
  ℕ, zero, suc, ◌+◌, ◌*◌, leb, ◌==◌, max, String, str_eq, Bool, true, false, not, ◌&&◌, ◌||◌,
  Option, none, some, List, [], ◌∷◌, map, if◌then◌else◌,
}
use zcbor.Outcome.{
  Result, ok, raised, out_of_fuel, Exception, require, and_also, or_else, ◌>>=◌, ◌>>◌,
}
use zcbor.Elem.{
  Kind, Elem, Elems, no_elems, elems, Slot, absent, present, Cddl, attrs, key, cbor, kind, children,
  resolve,
}
use zcbor.Sizes.{divide_round_up}
use zcbor.Counts.{sum, prod}
use zcbor.Texts.{decimal, isdigit, int_of}
use zcbor.Unambiguous.{is_other}
use zcbor.Quantity.{count_var_condition, present_var_condition}
use zcbor.PostValidate.{is_list, is_map, is_parent, is_union, is_group_kind}
use zcbor.Expressions.{
  is_nothing, highest, s_sum, s_max, s_mult, s_round_bits_to_nearest_byte, in_brackets,
}
use zcbor.Names.{Naming, val_define_name}

-- `total_this`, `total_nested`, `total_multi_decode` and `total_unions`; the first two are texts in the code.
pub record Flags (A : Type 0) : Type 0 where
  pub this : A
  pub nested : A
  pub multi_decode : ℕ
  pub unions : ℕ

-- What the code does with the texts.
pub record Ops (A : Type 0) : Type 0 where
  pub literal : ℕ → A
  pub empty : A
  pub is_empty : A → Bool
  pub is_nothing : A → Bool
  pub sum : List A → A
  pub max : List A → A
  pub mult : List A → A
  pub round_up : A → A
  pub enclose : A → A

abbrev pub expressions : Ops String
expressions = record {
  literal = decimal;
  empty = "";
  is_empty = λ s. str_eq s "";
  is_nothing = is_nothing;
  sum = s_sum;
  max = s_max;
  mult = s_mult;
  round_up = s_round_bits_to_nearest_byte;
  enclose = in_brackets;
}

-- What the methods of these names say of an element: the element's contents, the function for one
-- occurrence, the union that looks at maps, and the text of `val_define_name_or_lit`.
pub record Answers (A : Type 0) : Type 0 where
  pub cbor_var_condition : Elem → Result Bool
  pub repeated_single_func_impl_condition : Elem → Result Bool
  pub implicit_union_condition : Elem → Result Bool
  pub val_define_name_or_lit : String → Elem → Result A

abbrev pub each_empty : {A : Type 0} → Ops A → List (Flags A) → Bool
each_empty ops [] = true
each_empty ops (r ∷ rs) = ops.is_empty r.this && each_empty ops rs

-- `is_in_map` for the members.
abbrev pub in_map_below : Bool → Kind → Bool
in_map_below is_in_map Kind.list = false
in_map_below is_in_map Kind.map = true
in_map_below is_in_map k = is_in_map

abbrev pub deepest : {A : Type 0} → List (Flags A) → ℕ
deepest rs = highest (map (λ r. r.multi_decode) rs)

abbrev pub most_unions : {A : Type 0} → List (Flags A) → ℕ
most_unions rs = highest (map (λ r. r.unions) rs)

-- `self.min_qty == self.max_qty`.
abbrev pub same_qty : ℕ → Option ℕ → Bool
same_qty n none = false
same_qty n (some m) = n == m

abbrev pub only_one : Option ℕ → Bool
only_one none = false
only_one (some m) = m == 1

-- The flags of the type that an element refers to are added.
abbrev pub with_flags : {A : Type 0} → Ops A → Flags A → Flags A → Flags A
with_flags ops t r = record {
  this = ops.sum (t.this ∷ r.this ∷ []);
  nested = ops.sum (t.nested ∷ r.nested ∷ []);
  multi_decode = t.multi_decode + r.multi_decode;
  unions = t.unions + r.unions;
}

module _ {A : Type 0} (ops : Ops A) (answers : Answers A) (cddl : Cddl)
    (unordered_maps : Bool) where
  unfoldable pub multi_decode_w_backup_condition : Elem → Result Bool
  multi_decode_w_backup_condition e =
      and_also (ok (count_var_condition e || present_var_condition e))
        (λ _. answers.repeated_single_func_impl_condition e)

  -- `below` stands for the calls on other elements, whose argument is `is_in_map`.
  module _ (below : Bool → Elem → Result (Flags A)) where
    unfoldable pub with_key : Bool → Slot → Flags A → Result (Flags A)
    with_key is_in_map absent t = ok t
    with_key is_in_map (present k) t = do
      r ← below is_in_map k
      _ ← require Exception.assertion_error (ops.is_empty r.this)
      ok (record t {
        this = ops.sum (t.this ∷ ops.literal 1 ∷ []);
        nested = ops.sum (t.nested ∷ r.nested ∷ []);
      })

    unfoldable pub with_cbor : Slot → Flags A → Result (Flags A)
    with_cbor absent t = raised Exception.attribute_error
    with_cbor (present c) t = do
      r ← below false c
      _ ← require Exception.assertion_error (ops.is_empty r.this)
      ok (record t { nested = ops.sum (t.nested ∷ r.nested ∷ []) })

    unfoldable pub with_contents : Elem → Flags A → Result (Flags A)
    unfolding with_cbor
    with_contents e t = do
      b ← answers.cbor_var_condition e
      if b then with_cbor (cbor e) t else ok t

    unfoldable pub flags_of : Bool → Elems → Result (List (Flags A))
    flags_of is_in_map no_elems = ok []
    flags_of is_in_map (elems c cs) = do
      r ← below is_in_map c
      rs ← flags_of is_in_map cs
      ok (r ∷ rs)

    -- The flags of a map, which become flags of a nested map.
    abbrev pub nest : A → ℕ → Flags A → Flags A
    nest rounded multiplier t =
        let flags =
          if unordered_maps then ops.mult (rounded ∷ ops.literal multiplier ∷ []) else rounded in
        if ops.is_nothing rounded then t else record t { nested = ops.sum (t.nested ∷ flags ∷ []) }

    -- `total_nested` of the longest of the members.
    abbrev pub longest_nested : List (Flags A) → Flags A → Flags A
    longest_nested rs t = record t { nested = ops.max (t.nested ∷ map (λ r. r.nested) rs) }

    abbrev pub add_depth : List (Flags A) → A → ℕ → Flags A → Flags A
    add_depth rs this more t = record (longest_nested rs t) {
      this = this;
      multi_decode = t.multi_decode + deepest rs;
      unions = t.unions + most_unions rs + more;
    }

    unfoldable pub add_members : Kind → Elem → List (Flags A) → Flags A → Result (Flags A)
    add_members k e [] t = raised Exception.value_error
    add_members Kind.map e (r ∷ rs) t = ok (
        nest (ops.round_up (ops.sum (map (λ q. q.this) (r ∷ rs))))
          (1 + deepest (r ∷ rs) + most_unions (r ∷ rs)) (longest_nested (r ∷ rs) t))
    add_members Kind.list e (r ∷ rs) t =
        require Exception.assertion_error (each_empty ops (r ∷ rs)) >>= λ _.
        ok (longest_nested (r ∷ rs) t)
    add_members Kind.group e (r ∷ rs) t =
        ok (add_depth (r ∷ rs) (ops.sum (t.this ∷ map (λ q. q.this) (r ∷ rs))) 0 t)
    add_members k e (r ∷ rs) t = answers.implicit_union_condition e >>= λ implicit. ok (
        add_depth (r ∷ rs) (ops.sum (t.this ∷ ops.max (map (λ q. q.this) (r ∷ rs)) ∷ []))
          (if implicit then 0 else 1) t)

    unfoldable pub with_members : Bool → Elem → Flags A → Result (Flags A)
    unfolding flags_of add_members
    with_members is_in_map e t =
        if is_parent (kind e)
        then (flags_of (in_map_below is_in_map (kind e)) (children e) >>= λ rs.
            add_members (kind e) e rs t)
        else ok t

    unfoldable pub with_type : Bool → Elem → Flags A → Result (Flags A)
    with_type is_in_map e t =
        if is_other (kind e)
        then (resolve cddl e >>= λ d. below is_in_map d >>= λ r. ok (with_flags ops t r))
        else ok t

    unfoldable pub times_max_qty : Elem → Flags A → Result (Flags A)
    times_max_qty e t = do
      qty_expr ←
          answers.val_define_name_or_lit
            (if same_qty (attrs e).min_qty (attrs e).max_qty then "QTY" else "MAX_QTY") e
      let max_qty = if only_one (attrs e).max_qty then ops.literal 1 else qty_expr
      ok (record t {
        this = if ops.is_nothing t.this then ops.empty else ops.mult (t.this ∷ max_qty ∷ []);
        nested = if ops.is_nothing t.nested then ops.empty else ops.enclose t.nested;
      })

    unfoldable pub flags_by : Bool → Elem → Result (Flags A)
    unfolding multi_decode_w_backup_condition with_key with_contents with_members with_type
        times_max_qty
    flags_by is_in_map e = do
      b ← multi_decode_w_backup_condition e
      t ← with_key is_in_map (key e) (record {
        this = ops.empty;
        nested = ops.empty;
        multi_decode = if b then 1 else 0;
        unions = 0;
      })
      t' ← with_contents e t
      t'' ← with_members is_in_map e t'
      t''' ← with_type is_in_map e t''
      times_max_qty e t'''

  unfoldable pub num_map_search_flags_by : ℕ → Bool → Elem → Result (Flags A)
  unfolding flags_by
  num_map_search_flags_by zero is_in_map e = out_of_fuel
  num_map_search_flags_by (suc f) is_in_map e = flags_by (num_map_search_flags_by f) is_in_map e

-- `self.defines` for "QTY" and "MAX_QTY", as a text.
abbrev pub qty_value : String → String → Elem → String
qty_value default_max_qty_define val_type e =
    if str_eq val_type "QTY"
    then decimal (attrs e).min_qty
    else elim (attrs e).max_qty [ none ↦ default_max_qty_define | some n ↦ decimal n ]

module _ (naming : Naming) (cddl : Cddl) (registered : Elem → Bool) (unordered_maps : Bool)
    (f : ℕ) where
  unfoldable pub val_define_name_or_lit : Bool → String → String → Elem → Result String
  val_define_name_or_lit add_defines default_max_qty_define val_type e =
      if add_defines
      then val_define_name naming cddl registered unordered_maps f val_type e
      else ok (qty_value default_max_qty_define val_type e)

unfoldable pub num_map_search_flags :
    {A : Type 0} → Ops A → Answers A → Cddl → Bool → ℕ → Elem → Result A
unfolding num_map_search_flags_by
num_map_search_flags ops answers cddl unordered_maps f e =
    num_map_search_flags_by ops answers cddl unordered_maps f false e >>= λ r. ok r.nested
