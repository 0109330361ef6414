-- ===== src/Names.antt =====
-- zcbor/zcbor.py: the names that the C code has for an element (`CddlParser.id`, `CddlXcoder.var_name`), and
-- the constants named after it (`CodeGenerator.val_define_name`).
pub mod Free
use Prim.Native.Char.{Char, code}
use Prim.Native.String as String
use text.Mathlib.Text.{starts_with}
use zcbor.Prelude.{
  ℕ, ◌-◌, ◌==◌, leb, String, str_eq, Bool, true, false, not, ◌&&◌, ◌||◌, List, [], ◌∷◌,
  if◌then◌else◌,
}
use zcbor.Outcome.{Result, ok, raised, Exception, and_also, ◌>>=◌, ◌>>◌, require}
use zcbor.Texts.{nth}
use zcbor.Elem.{Kind, Elem, elem, Value, members, Elems, elems, Cddl, attrs}
use zcbor.Unambiguous.{is_container}
use zcbor.Conditions.{skip_condition}

unfoldable pub c_keywords : List String
c_keywords =
    "alignas" ∷ "alignof" ∷ "atomic_bool" ∷ "atomic_int" ∷ "auto" ∷ "bool" ∷ "break" ∷ "case"
    ∷ "char" ∷ "complex" ∷ "const" ∷ "constexpr" ∷ "continue" ∷ "default" ∷ "do" ∷ "double" ∷ "else"
    ∷ "enum" ∷ "extern" ∷ "false" ∷ "float" ∷ "for" ∷ "goto" ∷ "if" ∷ "imaginary" ∷ "inline" ∷ "int"
    ∷ "long" ∷ "noreturn" ∷ "nullptr" ∷ "register" ∷ "restrict" ∷ "return" ∷ "short" ∷ "signed"
    ∷ "sizeof" ∷ "static" ∷ "static_assert" ∷ "struct" ∷ "switch" ∷ "thread_local" ∷ "true"
    ∷ "typedef" ∷ "typeof" ∷ "typeof_unqual" ∷ "union" ∷ "unsigned" ∷ "void" ∷ "volatile" ∷ "while"
    ∷ []

unfoldable pub c_keywords_underscore : List String
c_keywords_underscore =
    "_Alignas" ∷ "_Alignof" ∷ "_Atomic" ∷ "_BitInt" ∷ "_Bool" ∷ "_Complex" ∷ "_Decimal128"
    ∷ "_Decimal32" ∷ "_Decimal64" ∷ "_Generic" ∷ "_Imaginary" ∷ "_Noreturn" ∷ "_Pragma"
    ∷ "_Static_assert" ∷ "_Thread_local" ∷ []

unfoldable pub is_in : String → List String → Bool
is_in s [] = false
is_in s (t ∷ ts) = str_eq s t || is_in s ts

-- `t in s`.
unfoldable pub contains : String → String → Bool
contains t String.[] = str_eq t ""
contains t (String.◌∷◌ c s) = starts_with (String.◌∷◌ c s) t || contains t s

-- `s.strip("_")`: `drop_front` is `lstrip`, `drop_back` is `rstrip`.
unfoldable pub drop_front : String → String
drop_front String.[] = ""
drop_front (String.◌∷◌ c s) =
    let rest = drop_front s in if code c == b'_' then rest else String.◌∷◌ c s

abbrev pub back : Char → String → String
back c String.[] = if code c == b'_' then "" else String.◌∷◌ c ""
back c (String.◌∷◌ d s) = String.◌∷◌ c (String.◌∷◌ d s)

unfoldable pub drop_back : String → String
drop_back String.[] = ""
drop_back (String.◌∷◌ c s) = back c (drop_back s)

unfoldable pub strip_underscores : String → String
unfolding drop_front drop_back
strip_underscores s = drop_back (drop_front s)

-- `str.upper`, `str.lower` and `str.capitalize`, of ASCII letters: no other letters are in the names.
abbrev pub to_upper : Char → Char
to_upper c =
    if leb b'a' (code c) && leb (code c) b'z'
    then nth "ABCDEFGHIJKLMNOPQRSTUVWXYZ" (code c - 97)
    else c

abbrev pub to_lower : Char → Char
to_lower c =
    if leb b'A' (code c) && leb (code c) b'Z'
    then nth "abcdefghijklmnopqrstuvwxyz" (code c - 65)
    else c

unfoldable pub upper : String → String
upper String.[] = ""
upper (String.◌∷◌ c s) = String.◌∷◌ (to_upper c) (upper s)

unfoldable pub lower : String → String
lower String.[] = ""
lower (String.◌∷◌ c s) = String.◌∷◌ (to_lower c) (lower s)

unfoldable pub capitalize : String → String
unfolding lower
capitalize String.[] = ""
capitalize (String.◌∷◌ c s) = String.◌∷◌ (to_upper c) (lower s)

-- The fields of an element that its prefixes come from, and whether it is skipped.
pub record Naming : Type 0 where
  pub id_prefix : Elem → String
  pub base_stem : Elem → String
  pub short_names : Bool
  pub skipped : Elem → Bool

-- Whether `prefix` is put in front of a name.
unfoldable pub is_prefixed : String → String → Bool
unfolding contains strip_underscores
is_prefixed prefix raw_name =
    not (str_eq prefix "")
    && not (contains (String.◌++◌ prefix "_") raw_name)
    && not (str_eq prefix (strip_underscores raw_name))

abbrev pub with_underscore : String → String → String
with_underscore a b = String.◌++◌ a (String.◌++◌ "_" b)

-- A C keyword is changed.
unfoldable pub no_keyword : String → String
unfolding c_keywords c_keywords_underscore is_in capitalize
no_keyword name =
    if is_in name c_keywords
    then capitalize name
    else if is_in name c_keywords_underscore
    then String.◌++◌ "_" name
    else name

module _ (naming : Naming) where
  unfoldable pub id : Bool → Elem → String
  unfolding is_prefixed
  id with_prefix e =
      let raw_name = (attrs e).name in
      if not with_prefix && naming.short_names
      then raw_name
      else if is_prefixed (naming.id_prefix e) raw_name
      then with_underscore (naming.id_prefix e) raw_name
      else if is_prefixed (naming.base_stem e) raw_name
      then with_underscore (naming.base_stem e) raw_name
      else raw_name

  unfoldable pub own_name : Bool → Elem → Result String
  unfolding no_keyword id
  own_name with_prefix e =
      let name = no_keyword (id with_prefix e) in
      require Exception.assertion_error (not (str_eq name "None")) >> ok name

  -- `f` is the fuel of `skip_condition`.
  module _ (cddl : Cddl) (registered : Elem → Bool) (unordered_maps : Bool) (f : ℕ) where
    unfoldable mutual
      unfolding own_name

      pub var_name : Bool → Bool → Elem → Result String
      var_name with_prefix observe_skipped (elem a v k c d) = do
        let e : Elem = elem a v k c d
        skipped ←
            and_also (ok observe_skipped)
              (λ _. skip_condition cddl registered unordered_maps f (naming.skipped e) e)
        elim (skipped && is_container a.kind) [
          | true ↦ first_name with_prefix v (own_name with_prefix e)
          | false ↦ own_name with_prefix e
        ]

      -- `other` stands for the name without a first member.
      pub first_name : Bool → Value → Result String → Result String
      first_name with_prefix (members (elems x xs)) other = var_name with_prefix true x
      first_name with_prefix v other = other

    -- `val_define_name` without a number.
    unfoldable pub val_define_name : String → Elem → Result String
    unfolding var_name upper
    val_define_name val_type e =
        var_name true true e >>= λ s. ok (with_underscore (upper s) val_type)
