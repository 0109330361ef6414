-- ===== src/Flags/Counted.antt =====
-- zcbor/zcbor.py, class CodeGenerator: the texts that `_num_map_search_flags` returns are those of numbers, where
-- no quantity is open.
use zcbor.Prelude.{ℕ, zero, suc, ◌≡◌, refl, String, Bool, true, some}
use zcbor.Outcome.{Result, ok, ◌>>=◌}
use zcbor.Elem.{Elem, Cddl, find}
use zcbor.Flags.{Flags, expressions, num_map_search_flags_by}
use zcbor.Flags.Limits.{numbers, Conditions, literal_answers, number_answers, is_limited}
use zcbor.Flags.Related.{Alike, both, both_raise, both_spent, show_all, Returned}
use zcbor.Flags.Total.{flags_by-Alike}

module _ (cddl : Cddl) (unordered_maps : Bool) (c : Conditions) (define : String) where
  num_map_search_flags-Alike :
      ((name : String) (d : Elem) → find name cddl.types ≡ some d → is_limited d ≡ true)
      → (f : ℕ) (m : Bool) (e : Elem) → is_limited e ≡ true
      → Alike Returned
          (num_map_search_flags_by expressions (literal_answers c define) cddl unordered_maps f m e)
          (num_map_search_flags_by numbers (number_answers c) cddl unordered_maps f m e)
  unfolding num_map_search_flags_by
  num_map_search_flags-Alike types zero m e l = both_spent
  num_map_search_flags-Alike types (suc f) m e l =
      flags_by-Alike cddl unordered_maps c define
        (num_map_search_flags_by expressions (literal_answers c define) cddl unordered_maps f)
        (num_map_search_flags_by numbers (number_answers c) cddl unordered_maps f)
        (λ m x h. num_map_search_flags-Alike types f m x h) m e types l

Returned-eq :
    {r : Result (Flags String)} {s : Result (Flags ℕ)}
    → Alike Returned r s
    → r ≡ (s >>= λ n. ok (show_all n))
unfolding show_all
Returned-eq (both h) = cc (h.this, h.nested, h.multi_decode, h.unions)
Returned-eq (both_raise e) = refl
Returned-eq both_spent = refl

-- Where each quantity of an element and of the types has a limit, and quantities are written as literals,
-- the texts that `_num_map_search_flags` returns are the digits of the numbers that it computes if the
-- texts are numbers, and their sums, products and greatest those of numbers; nothing is the empty text.
pub num_map_search_flags_by-show_all :
    (cddl : Cddl) (unordered_maps : Bool) (c : Conditions) (default_max_qty_define : String)
    → ((name : String) (d : Elem) → find name cddl.types ≡ some d → is_limited d ≡ true)
    → (f : ℕ) (is_in_map : Bool) (e : Elem) → is_limited e ≡ true
    → num_map_search_flags_by expressions
        (literal_answers c default_max_qty_define)
        cddl
        unordered_maps
        f
        is_in_map
        e
      ≡ (num_map_search_flags_by numbers (number_answers c) cddl unordered_maps f is_in_map e
          >>= λ n. ok (show_all n))
num_map_search_flags_by-show_all cddl unordered_maps c default_max_qty_define types f is_in_map e
      l =
    Returned-eq (
      num_map_search_flags-Alike cddl unordered_maps c default_max_qty_define types f is_in_map e l)
