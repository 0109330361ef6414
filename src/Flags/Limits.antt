-- ===== src/Flags/Limits.antt =====
-- zcbor/zcbor.py, class CodeGenerator: `_num_map_search_flags` with numbers in place of texts, and the elements
-- whose quantities all have a limit.
use zcbor.Prelude.{
  ℕ, ◌*◌, ◌==◌, ◌≡◌, refl, String, str_eq, Bool, true, false, ◌&&◌, Option, none, some, [], ◌∷◌,
  is_some, if◌then◌else◌,
}
use zcbor.Outcome.{Result, ok}
use zcbor.Elem.{
  Elem, elem, Value, members, Elems, no_elems, elems, Slot, absent, present, attrs, key, cbor,
  children,
}
use zcbor.Sizes.{divide_round_up}
use zcbor.Counts.{sum, prod}
use zcbor.Texts.{decimal}
use zcbor.Flags.{Ops, Answers, qty_value, same_qty, only_one}
use zcbor.Expressions.Shown.{Shows, number, is_nothing-Shows, shown, shown_zero}
use zcbor.Expressions.Products.{s_mult-shown}
use zcbor.Expressions.{is_nothing, s_mult, highest}

abbrev pub numbers : Ops ℕ
numbers = record {
  literal = λ n. n;
  empty = 0;
  is_empty = λ n. n == 0;
  is_nothing = λ n. n == 0;
  sum = sum;
  max = highest;
  mult = prod;
  round_up = λ n. divide_round_up n 8 * 8;
  enclose = λ n. n;
}

-- What the conditions say of an element.
pub record Conditions : Type 0 where
  pub cbor_var : Elem → Result Bool
  pub func_impl : Elem → Result Bool
  pub implicit_union : Elem → Result Bool

-- The quantities as literals, and as numbers.
abbrev pub literal_answers : Conditions → String → Answers String
literal_answers c define = record {
  cbor_var_condition = c.cbor_var;
  repeated_single_func_impl_condition = c.func_impl;
  implicit_union_condition = c.implicit_union;
  val_define_name_or_lit = λ val_type e. ok (qty_value define val_type e);
}

abbrev pub number_value : String → Elem → ℕ
number_value val_type e =
    if str_eq val_type "QTY"
    then (attrs e).min_qty
    else elim (attrs e).max_qty [ none ↦ 0 | some n ↦ n ]

abbrev pub number_answers : Conditions → Answers ℕ
number_answers c = record {
  cbor_var_condition = c.cbor_var;
  repeated_single_func_impl_condition = c.func_impl;
  implicit_union_condition = c.implicit_union;
  val_define_name_or_lit = λ val_type e. ok (number_value val_type e);
}

pub both_true : (a b : Bool) → (a && b) ≡ true → (a ≡ true) × (b ≡ true)
both_true true b h = (refl, h)
both_true false b h = cc

-- Each quantity has a limit.
unfoldable mutual
  pub is_limited : Elem → Bool
  is_limited (elem a v k c d) =
      is_some a.max_qty && (members_limited v && (slot_limited k && slot_limited c))

  pub members_limited : Value → Bool
  members_limited (members cs) = all_limited cs
  members_limited v = true

  pub all_limited : Elems → Bool
  all_limited no_elems = true
  all_limited (elems x xs) = is_limited x && all_limited xs

  pub slot_limited : Slot → Bool
  slot_limited absent = true
  slot_limited (present x) = is_limited x

-- The parts of an element with limits.
pub parts_limited :
    (e : Elem)
    → is_limited e ≡ true
    → (is_some (attrs e).max_qty ≡ true)
      × (all_limited (children e) ≡ true)
      × (slot_limited (key e) ≡ true)
      × (slot_limited (cbor e) ≡ true)
unfolding is_limited
parts_limited (elem a v k c d) l =
    let (qty, rest) = both_true (is_some a.max_qty) _ l in
    let (inside, slots) = both_true (members_limited v) _ rest in
    let (key_l, cbor_l) = both_true (slot_limited k) (slot_limited c) slots in
    (qty, of_value v inside, key_l, cbor_l)
  where
    of_value :
        (v : Value) → members_limited v ≡ true → all_limited (children (elem a v k c d)) ≡ true
    of_value (members cs) h = h
    of_value Value.no_value h = refl
    of_value (Value.number n) h = refl
    of_value (Value.text s) h = refl
    of_value (Value.truth b) h = refl

-- The greatest quantity, as a text and as a number.
pub max_qty-shown :
    (define : String) (e : Elem)
    → is_some (attrs e).max_qty ≡ true
    → (if only_one (attrs e).max_qty
        then decimal 1
        else qty_value define
            (if same_qty (attrs e).min_qty (attrs e).max_qty then "QTY" else "MAX_QTY")
            e)
      ≡ decimal (
          if only_one (attrs e).max_qty
          then 1
          else number_value
              (if same_qty (attrs e).min_qty (attrs e).max_qty then "QTY" else "MAX_QTY")
              e)
max_qty-shown define (elem a v k c d) l = either (only_one a.max_qty) _ _ (limited _ a.max_qty l)
  where
    either :
        (b : Bool) (s : String) (n : ℕ)
        → s ≡ decimal n
        → (if b then decimal 1 else s) ≡ decimal (if b then 1 else n)
    either true s n p = refl
    either false s n p = p

    limited :
        (b : Bool) (o : Option ℕ)
        → is_some o ≡ true
        → (if b then decimal a.min_qty else elim o [ none ↦ define | some n ↦ decimal n ])
          ≡ decimal (if b then a.min_qty else elim o [ none ↦ 0 | some n ↦ n ])
    limited true o h = refl
    limited false none h = cc
    limited false (some n) h = refl

pub times-shown :
    {s : String} {n : ℕ} {t : String} (m : ℕ)
    → Shows s n
    → t ≡ decimal m
    → (if is_nothing s then "" else s_mult (s ∷ t ∷ []))
      ≡ shown (if n == 0 then 0 else prod (n ∷ m ∷ []))
times-shown {s} {n} {t} m p q = rw (is_nothing-Shows p) (chosen (n == 0))
  where
    chosen :
        (b : Bool)
        → (if b then "" else s_mult (s ∷ t ∷ [])) ≡ shown (if b then 0 else prod (n ∷ m ∷ []))
    chosen true = shown_zero
    chosen false = s_mult-shown p (number q)
