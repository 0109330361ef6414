-- ===== src/Flags/Reached.antt =====
-- zcbor/zcbor.py, class CodeGenerator: the flags that `_num_map_search_flags` counts for nested maps are enough for
-- each element that is reached from the one that it is called on.
use zcbor.Prelude.{ℕ, zero, suc, ◌≤◌, ◌≡◌, Bool, arith}
use zcbor.Outcome.{Result, ok}
use zcbor.Elem.{Elem, Cddl}
use zcbor.Backups.Held.{Inside}
use zcbor.Flags.{Flags, Answers, num_map_search_flags_by}
use zcbor.Flags.Limits.{numbers}
use zcbor.Flags.Room.{Fits, flags_by-Fits}

-- An element, and what is inside it, and what is inside that.
pub data Reached (cddl : Cddl) (cbor_var multi : Elem → Result Bool) : Elem → Elem → Type 0 where
  itself : {e : Elem} → Reached cddl cbor_var multi e e
  inside :
      {e x y : Elem}
      → Inside cddl cbor_var multi e x
      → Reached cddl cbor_var multi x y
      → Reached cddl cbor_var multi e y

-- If the texts are numbers, and `_num_map_search_flags` returns for an element, then it has returned for each
-- element that is reached from it through members, keys, byte strings and types, with no more flags
-- for nested maps.
pub num_map_search_flags_by-Reached :
    (cddl : Cddl) (unordered_maps : Bool) (answers : Answers ℕ) (multi : Elem → Result Bool) (f : ℕ)
    (is_in_map : Bool) (e x : Elem) (t : Flags ℕ)
    → Reached cddl answers.cbor_var_condition multi e x
    → num_map_search_flags_by numbers answers cddl unordered_maps f is_in_map e ≡ ok t
    → (g : ℕ) × (m : Bool) × (r : Flags ℕ) × (num_map_search_flags_by numbers answers cddl
          unordered_maps g m x
        ≡ ok r)
      × (r.nested ≤ t.nested)
unfolding num_map_search_flags_by Fits
num_map_search_flags_by-Reached cddl u answers multi f m e x t itself h = (f, m, t, h, omega arith)
num_map_search_flags_by-Reached cddl u answers multi zero m e x t (inside i p) h = cc
num_map_search_flags_by-Reached cddl u answers multi (suc f) m e x t (inside {x = y} i p) h =
    let below = num_map_search_flags_by numbers answers cddl u f in
    let (n, s, called, le) = flags_by-Fits cddl u answers below m e y t multi h i in
    let (g, o, r, returned, lower) =
      num_map_search_flags_by-Reached cddl u answers multi f n y x s p called in
    (g, o, r, returned, omega arith)
