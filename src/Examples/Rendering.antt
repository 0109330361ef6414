-- ===== src/Examples/Rendering.antt =====
-- Counts of list items, and the rendered types and functions, at sample inputs.
use Prim.Native.Char.{code}
use Prim.Native.String as String
use Prim.Native.String.append
use zcbor.Prelude.{
  ℕ, ◌==◌, ◌≡◌, ◌⊎◌, refl, ap, ◌∙◌, String, Bool, true, false, ◌||◌, any_of, some, In, List, [],
  ◌∷◌, ◌++◌, reverse, arith,
}
use zcbor.Outcome.{ok, Ends}
use zcbor.Elem.{Kind, Elem, members, no_elems, elems}
use zcbor.Counts.{list_counts}
use zcbor.Counts.Spec.{Has, occurs, item, of_group, one_time, no_times, one_member, no_members}
use zcbor.Counts.Bounds.{Within, list_counts-Within}
use zcbor.Counts.Enough.{list_counts-Ends}
use zcbor.Rank.{height}
use zcbor.Render.{
  TypeDef, Xcoder, join, same_type, unique_types, same_func, unique_funcs, bodies, same_define,
  is_used, filter_used, chosen_defines, same_tuple, used_funcs,
}
use zcbor.Render.Unique.{
  IsIndex, concat, unique_types-IsIndex, unique_funcs-IsIndex, chosen_defines-IsIndex,
}
use zcbor.Render.Used.{IsCalled, used_funcs-IsClosed}
use zcbor.Examples.Sample.{bare, leaf_of, digit, optional_digit, cddl, rank, cddl-IsRanked}

-- `2*3 (0..9, ? 0..9)`.
abbrev pairs : Elem
pairs =
    leaf_of (record (bare Kind.group) { min_qty = 2; max_qty = some 3 })
      (members (elems digit (elems optional_digit no_elems)))

pairs_counts : list_counts cddl 9 pairs ≡ ok (some 2, some 6)
unfolding list_counts
pairs_counts = refl

digit_once : Has cddl digit 1
digit_once =
    occurs {k = 1} (omega arith) (omega arith)
      (one_time (item refl refl) (no_times refl refl) refl refl)

digit_there : Has cddl optional_digit 1
digit_there =
    occurs {k = 1} (omega arith) (omega arith)
      (one_time (item refl refl) (no_times refl refl) refl refl)

digit_missing : Has cddl optional_digit 0
digit_missing = occurs {k = 0} (omega arith) (omega arith) (no_times refl refl)

-- The optional digit stands in the first of two rounds.
three_items : Has cddl pairs 3
three_items = occurs {k = 2} (omega arith) (omega arith) (
    one_time
      (of_group refl (one_member digit_once (one_member digit_there (no_members refl) refl) refl))
      (one_time
        (of_group refl
          (one_member digit_once (one_member digit_missing (no_members refl) refl) refl))
        (no_times refl refl) refl refl)
      refl refl)

list_counts-Within_example : Within (some 2, some 6) 3
list_counts-Within_example =
    list_counts-Within cddl 9 pairs 3 (some 2, some 6) three_items pairs_counts

list_counts-Ends_example : Ends (list_counts cddl 9 pairs)
list_counts-Ends_example =
    list_counts-Ends rank cddl-IsRanked 9 pairs (unfold height in omega arith)

abbrev typedefs : List (List TypeDef)
typedefs =
    ((record { lines = "struct a {" ∷ "};" ∷ []; type_name = "struct a" }) ∷ [])
    ∷ ((record { lines = "struct b {" ∷ "};" ∷ []; type_name = "struct b" })
        ∷ (record { lines = "struct a " ∷ "{};" ∷ []; type_name = "struct a" })
        ∷ [])
    ∷ []

unique_types-IsIndex_example :
    ((out : List TypeDef)
      → unique_types typedefs ≡ ok out
      → IsIndex (λ t. t.type_name) (λ s t. same_type s t ≡ true) (concat typedefs) out)
    × (((s t : TypeDef)
          → In s (concat typedefs)
          → In t (concat typedefs)
          → t.type_name ≡ s.type_name
          → join t.lines ≡ join s.lines)
        → (out : List TypeDef) × (unique_types typedefs ≡ ok out))
unique_types-IsIndex_example = unique_types-IsIndex typedefs

abbrev decode_a : Xcoder
decode_a = record { body = "decode_b(x)"; func_name = "decode_a"; func_type = "struct a" }

abbrev decode_b : Xcoder
decode_b = record { body = "return x;"; func_name = "b"; func_type = "struct b" }

unique_funcs-IsIndex_example :
    ((out : List Xcoder)
      → unique_funcs ((decode_b ∷ decode_a ∷ []) ∷ (decode_b ∷ []) ∷ []) ≡ ok out
      → IsIndex
          (λ f. f.func_name)
          (λ f g. same_func f g ≡ true)
          (concat ((decode_b ∷ decode_a ∷ []) ∷ (decode_b ∷ []) ∷ []))
          out)
    × (((f g : Xcoder)
          → In f (concat ((decode_b ∷ decode_a ∷ []) ∷ (decode_b ∷ []) ∷ []))
          → In g (concat ((decode_b ∷ decode_a ∷ []) ∷ (decode_b ∷ []) ∷ []))
          → g.func_name ≡ f.func_name
          → g.body ≡ f.body)
        → (out : List Xcoder) × (unique_funcs ((decode_b ∷ decode_a ∷ []) ∷ (decode_b ∷ []) ∷ [])
            ≡ ok out))
unique_funcs-IsIndex_example =
    unique_funcs-IsIndex ((decode_b ∷ decode_a ∷ []) ∷ (decode_b ∷ []) ∷ [])

abbrev defines : List (String × String)
defines = ("decode", "1") ∷ ("other", "2") ∷ ("decode", "1") ∷ []

one_define : chosen_defines (decode_a ∷ []) defines ≡ ok (("decode", "1") ∷ [])
unfolding chosen_defines is_used zcbor.Render.add_all zcbor.Render.add zcbor.Render.named
one_define = refl

chosen_defines-IsIndex_example :
    IsIndex
      (λ (d : String × String). d.0)
      (λ a b. same_define a b ≡ true)
      (filter_used (is_used (join (bodies (decode_a ∷ [])))) defines)
      (("decode", "1") ∷ [])
chosen_defines-IsIndex_example =
    chosen_defines-IsIndex (decode_a ∷ []) defines (("decode", "1") ∷ []) one_define

-- A search for a name of one character.
abbrev has_char : ℕ → String → Bool
has_char c String.[] = false
has_char c (String.◌∷◌ d s) = code d == c || has_char c s

abbrev calls : String → String → Bool
calls String.[] text = false
calls (String.◌∷◌ c s) text = has_char (code c) text

has_char-append :
    (c : ℕ) (s t : String) → has_char c (String.◌++◌ s t) ≡ (has_char c s || has_char c t)
has_char-append c String.[] t = ap (has_char c) (append.nil t)
has_char-append c (String.◌∷◌ d s) t =
    ap (has_char c) (append.cons d s t) ∙ ground (arith, has_char-append c s t)

calls_wider :
    (name text before after : String)
    → calls name text ≡ true
    → calls name (String.◌++◌ before (String.◌++◌ text after)) ≡ true
calls_wider String.[] text before after h = h
calls_wider (String.◌∷◌ c s) text before after h =
    has_char-append (code c) before (String.◌++◌ text after)
    ∙ ground (arith, has_char-append (code c) text after)

both_kept : used_funcs calls (decode_a ∷ []) (decode_b ∷ []) ≡ decode_b ∷ decode_a ∷ []
unfolding used_funcs zcbor.Render.used_from
both_kept = refl

used_funcs-IsClosed_example :
    ((f : Xcoder) → In f (decode_a ∷ []) → In f (used_funcs calls (decode_a ∷ []) (decode_b ∷ [])))
    × ((f g : Xcoder) (earlier later : List Xcoder)
        → decode_b ∷ [] ≡ earlier ++ f ∷ later
        → In g (used_funcs calls (decode_a ∷ []) later)
        → any_of (same_tuple f) (decode_a ∷ []) ≡ false
        → calls f.func_name g.body ≡ true
        → In f (used_funcs calls (decode_a ∷ []) (decode_b ∷ [])))
    × ((f : Xcoder)
        → In f (used_funcs calls (decode_a ∷ []) (decode_b ∷ []))
        → In f (decode_a ∷ [])
          ⊎ (In f (decode_b ∷ [])
              × IsCalled calls
                  (decode_a ∷ [])
                  (reverse (used_funcs calls (decode_a ∷ []) (decode_b ∷ [])))
                  f))
used_funcs-IsClosed_example = used_funcs-IsClosed calls (decode_a ∷ []) (decode_b ∷ []) calls_wider
