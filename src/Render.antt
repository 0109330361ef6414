-- ===== src/Render.antt =====
-- zcbor/zcbor.py, class CodeRenderer: the typedefs, functions and defines that are written, each once.
pub mod Unique
pub mod Used
use text.Mathlib.Text.{find?}
use zcbor.Prelude.{
  String, str_eq, Bool, true, false, not, ◌&&◌, ◌||◌, is_some, Option, none, some, List, [], ◌∷◌,
  ◌++◌, map, reverse, any_of, if◌then◌else◌,
}
use zcbor.Outcome.{Result, ok, raised, Exception, require, ◌>>=◌, ◌>>◌}
use Prim.Native.String as String

-- A typedef as `type_def` gives it: the lines, and the name.
pub record TypeDef : Type 0 where
  pub lines : List String
  pub type_name : String

-- `XcoderTuple`: the code, and the names of a function and of its type.
pub record Xcoder : Type 0 where
  pub body : String
  pub func_name : String
  pub func_type : String

-- `"".join(lines)`.
abbrev pub join : List String → String
join [] = ""
join (l ∷ ls) = String.◌++◌ l (join ls)

module _ {A : Type 0} (name : A → String) where
  -- The entry of that name; the dictionary of the loops has an entry for each member of their result.
  unfoldable pub named : String → List A → Option A
  named n [] = none
  named n (x ∷ xs) = if str_eq (name x) n then some x else named n xs

  module _ (same : A → A → Bool) (e : Exception) where
    -- One round of the loops: a new name is added, a known one must stand for the same.
    unfoldable pub add : A → List A → Result (List A)
    add x out = elim (named (name x) out) [
      | none ↦ ok (out ++ (x ∷ []))
      | some y ↦ require e (same y x) >> ok out
    ]

    unfoldable pub add_all : List A → List A → Result (List A)
    add_all [] out = ok out
    add_all (x ∷ xs) out = add x out >>= add_all xs

    unfoldable pub add_each : List (List A) → List A → Result (List A)
    add_each [] out = ok out
    add_each (xs ∷ xss) out = add_all xs out >>= add_each xss

abbrev pub same_type : TypeDef → TypeDef → Bool
same_type s t = str_eq (join s.lines) (join t.lines)

-- `mtype.type_def()` for each of `self.sorted_types[mode]` is the argument.
unfoldable pub unique_types : List (List TypeDef) → Result (List TypeDef)
unique_types defs = add_each (λ t. t.type_name) same_type Exception.assertion_error defs []

abbrev pub same_func : Xcoder → Xcoder → Bool
same_func f g = str_eq f.body g.body

-- `mtype.xcoders()` for each of `self.sorted_types[mode]` is the argument.
unfoldable pub unique_funcs : List (List Xcoder) → Result (List Xcoder)
unique_funcs xcoders = add_each (λ f. f.func_name) same_func Exception.assertion_error xcoders []

-- A define is its name and its body.
abbrev pub same_define : String × String → String × String → Bool
same_define a b = str_eq a.1 b.1

-- `name.endswith(suffix)`.
abbrev pub ends_with : String → String → Bool
ends_with s suffix = str_eq s suffix || (elim s [ String.[] ↦ false | String.◌∷◌ c (t → ih) ↦ ih ])

-- The names that the code has, and those of backup counts.
unfoldable pub is_used : String → String × String → Bool
is_used full_code d = is_some (find? full_code d.0) || ends_with d.0 "NUM_BACKUPS"

abbrev pub filter_used : (String × String → Bool) → List (String × String) → List (String × String)
filter_used p [] = []
filter_used p (d ∷ ds) = if p d then d ∷ filter_used p ds else filter_used p ds

abbrev pub bodies : List Xcoder → List String
bodies fs = map (λ f. f.body) fs

-- `chosen` of `used_defines`: `functions` is `self.functions[mode]`, and `defines` what
-- `val_defines_recursive` gives for the sorted types.
unfoldable pub chosen_defines :
    List Xcoder → List (String × String) → Result (List (String × String))
chosen_defines functions defines =
    add_all (λ d. d.0) same_define Exception.value_error
      (filter_used (is_used (join (bodies functions))) defines) []

-- Equality of the tuples.
abbrev pub same_tuple : Xcoder → Xcoder → Bool
same_tuple f g =
    str_eq f.body g.body && str_eq f.func_name g.func_name && str_eq f.func_type g.func_type

-- `called name code` stands for the search of the pattern `name\\W` in the code.
module _ (called : String → String → Bool) where
  -- The loop; `code` is `full_code` and `out` is `out_types`.
  unfoldable pub used_from : List Xcoder → List Xcoder → String → List Xcoder → List Xcoder
  used_from entries [] code out = out
  used_from entries (f ∷ fs) code out =
      elim (not (any_of (same_tuple f) entries) && called f.func_name code) [
        | true ↦ used_from entries fs (String.◌++◌ code f.body) (out ++ (f ∷ []))
        | false ↦ used_from entries fs code out
      ]

  -- `entries` is `mod_entry_types`, and `functions` is `self.functions[mode]`.
  unfoldable pub used_funcs : List Xcoder → List Xcoder → List Xcoder
  used_funcs entries functions =
      reverse (used_from entries (reverse functions) (join (bodies entries)) entries)
