-- ===== src/Counts.antt =====
-- zcbor/zcbor.py: `or_none` and its four uses, and `CodeGenerator.list_counts`, how many items of a list
-- an element stands for.
pub mod Spec
pub mod Bounds
pub mod Enough
use zcbor.Prelude.{
  ℕ, zero, suc, ◌+◌, ◌*◌, leb, Option, none, some, List, [], ◌∷◌, map, if◌then◌else◌,
}
use zcbor.Outcome.{Result, ok, raised, out_of_fuel, Exception, ◌>>=◌}
use zcbor.Elem.{Kind, Elem, Elems, no_elems, elems, Cddl, attrs, kind, children, resolve}

abbrev pub cons_some : ℕ → Option (List ℕ) → Option (List ℕ)
cons_some n none = none
cons_some n (some ns) = some (n ∷ ns)

-- `it`, unless one of its members is `None`.
abbrev pub all_some : List (Option ℕ) → Option (List ℕ)
all_some [] = some []
all_some (none ∷ it) = none
all_some (some n ∷ it) = cons_some n (all_some it)

abbrev pub apply_op : (List ℕ → Result ℕ) → Option (List ℕ) → Result (Option ℕ)
apply_op op none = ok none
apply_op op (some ns) = op ns >>= λ n. ok (some n)

-- With the default `None`, as all calls have it.
unfoldable pub or_none : List (Option ℕ) → (List ℕ → Result ℕ) → Result (Option ℕ)
or_none it op = apply_op op (all_some it)

-- Python's `sum`, `math.prod`, `min` and `max`; the last two raise for an empty list.
abbrev pub sum : List ℕ → ℕ
sum [] = 0
sum (n ∷ ns) = n + sum ns

abbrev pub prod : List ℕ → ℕ
prod [] = 1
prod (n ∷ ns) = n * prod ns

abbrev pub least : ℕ → List ℕ → ℕ
least n [] = n
least n (m ∷ ms) = least (if leb n m then n else m) ms

abbrev pub greatest : ℕ → List ℕ → ℕ
greatest n [] = n
greatest n (m ∷ ms) = greatest (if leb m n then n else m) ms

abbrev pub min_of : List ℕ → Result ℕ
min_of [] = raised Exception.value_error
min_of (n ∷ ns) = ok (least n ns)

abbrev pub max_of : List ℕ → Result ℕ
max_of [] = raised Exception.value_error
max_of (n ∷ ns) = ok (greatest n ns)

unfoldable pub sum_or_none : List (Option ℕ) → Result (Option ℕ)
unfolding or_none
sum_or_none it = or_none it (λ ns. ok (sum ns))

unfoldable pub min_or_none : List (Option ℕ) → Result (Option ℕ)
unfolding or_none
min_or_none it = or_none it min_of

unfoldable pub max_or_none : List (Option ℕ) → Result (Option ℕ)
unfolding or_none
max_or_none it = or_none it max_of

unfoldable pub mult_or_none : List (Option ℕ) → Result (Option ℕ)
unfolding or_none
mult_or_none it = or_none it (λ ns. ok (prod ns))

-- The least and the greatest number of items, `None` standing for no limit.
abbrev pub Range : Type 0
Range = Option ℕ × Option ℕ

abbrev pub lows : List Range → List (Option ℕ)
lows rs = map (λ r. r.0) rs

abbrev pub highs : List Range → List (Option ℕ)
highs rs = map (λ r. r.1) rs

-- `self.min_qty` and `self.max_qty` times the counts of one occurrence.
unfoldable pub times_qty : Elem → Option ℕ → Option ℕ → Result Range
unfolding mult_or_none
times_qty e low high = do
  lo ← mult_or_none (some (attrs e).min_qty ∷ low ∷ [])
  hi ← mult_or_none ((attrs e).max_qty ∷ high ∷ [])
  ok (lo, hi)

-- `c.list_counts() for c in self.value`.
unfoldable pub counts_of : (Elem → Result Range) → Elems → Result (List Range)
counts_of p no_elems = ok []
counts_of p (elems c cs) = do r ← p c; rs ← counts_of p cs; ok (r ∷ rs)

module _ (cddl : Cddl) where
  -- `below` stands for the recursive calls.
  unfoldable pub counts_by : (Elem → Result Range) → Kind → Elem → Result Range
  unfolding times_qty counts_of sum_or_none min_or_none max_or_none resolve
  counts_by below Kind.group e = do
    rs ← counts_of below (children e)
    low ← sum_or_none (lows rs)
    high ← sum_or_none (highs rs)
    times_qty e low high
  counts_by below Kind.union e = do
    rs ← counts_of below (children e)
    low ← min_or_none (lows rs)
    high ← max_or_none (highs rs)
    times_qty e low high
  counts_by below Kind.other e = do t ← resolve cddl e; r ← below t; times_qty e r.0 r.1
  counts_by below Kind.untyped e = raised Exception.key_error
  counts_by below k e = ok (some (attrs e).min_qty, (attrs e).max_qty)

  unfoldable pub list_counts : ℕ → Elem → Result Range
  unfolding counts_by
  list_counts zero e = out_of_fuel
  list_counts (suc f) e = counts_by (list_counts f) (kind e) e
