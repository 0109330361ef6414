-- ===== src/Elem.antt =====
-- zcbor/zcbor.py: one parsed CDDL element (`CddlParser`), its fields, and the tables of all types.
use zcbor.Prelude.{
  ℕ, ℤ, String, Bool, true, false, Option, none, some, List, [], ◌∷◌, str_eq, if◌then◌else◌,
}
use zcbor.Outcome.{Result, Exception, or_raise}
use zcbor.Number.{Number}

-- `self.type`; `untyped` is Python's `None`, before a type is parsed.
pub data Kind : Type 0 where
  untyped int uint nint float bstr tstr bool nil undef any list map group union other : Kind

-- The fields that hold no other element. `name` is what `get_base_name()` returns.
pub record Attrs : Type 0 where
  pub kind : Kind
  pub name : String
  pub label : Option String
  pub min_value : Option Number
  pub max_value : Option Number
  pub min_value_inclusive : Bool
  pub max_value_inclusive : Bool
  pub min_qty : ℕ
  pub max_qty : Option ℕ
  pub size : Option ℤ
  pub min_size : Option ℤ
  pub max_size : Option ℤ
  pub is_key : Bool
  pub is_socket : Bool
  pub tags : List ℕ
  pub bits : Option String
  pub modifiers : List String

-- `self.value` is a number, a text (a literal, or the name that an "OTHER" refers to), a truth value,
-- or the children of a "LIST", "MAP", "GROUP" or "UNION".
mutual
  pub data Elem : Type 0 where
    elem : Attrs → Value → Slot → Slot → Slot → Elem

  pub data Value : Type 0 where
    no_value : Value
    number : Number → Value
    text : String → Value
    truth : Bool → Value
    members : Elems → Value

  pub data Elems : Type 0 where
    no_elems : Elems
    elems : Elem → Elems → Elems

  -- `self.key`, `self.cbor` and `self.default`: an element or `None`.
  pub data Slot : Type 0 where
    absent : Slot
    present : Elem → Slot

abbrev pub attrs : Elem → Attrs
attrs (elem a v k c d) = a

abbrev pub value : Elem → Value
value (elem a v k c d) = v

abbrev pub key : Elem → Slot
key (elem a v k c d) = k

abbrev pub cbor : Elem → Slot
cbor (elem a v k c d) = c

abbrev pub kind : Elem → Kind
kind e = (attrs e).kind

abbrev pub members_of : Value → Elems
members_of (members cs) = cs
members_of _ = no_elems

-- `self.value` of a "LIST", "MAP", "GROUP" or "UNION", which the parser sets to a list.
abbrev pub children : Elem → Elems
children e = members_of (value e)

abbrev pub text_of : Value → String
text_of (text s) = s
text_of _ = ""

-- `self.value` of an "OTHER", which the parser sets to a name.
abbrev pub reference : Elem → String
reference e = text_of (value e)

abbrev pub has_value : Value → Bool
has_value no_value = false
has_value _ = true

abbrev pub is_present : Slot → Bool
is_present absent = false
is_present (present e) = true

-- `self.my_types` and `self.my_control_groups`, with every entry parsed.
pub record Cddl : Type 0 where
  pub types : List (String × Elem)
  pub control_groups : List (String × Elem)

unfoldable pub find : String → List (String × Elem) → Option Elem
find k [] = none
find k ((j, e) ∷ m) = if str_eq j k then some e else find k m

-- `self.my_types[self.value]`.
unfoldable pub resolve : Cddl → Elem → Result Elem
resolve c e = or_raise Exception.key_error (find (reference e) c.types)
