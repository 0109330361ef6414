-- ===== src/Counts/Enough.antt =====
-- zcbor/zcbor.py: the recursion of `list_counts` ends where no type refers to itself.
use zcbor.Prelude.{ℕ, zero, suc, ◌≤◌, ◌<◌, Option, none, some, List, [], ◌∷◌, String, arith}
use zcbor.Outcome.{Result, ok, Exception, Ends, returns, raises, Ensures-bind}
use zcbor.Elem.{Kind, Elem, Elems, no_elems, elems, Cddl, attrs, kind, children}
use zcbor.Counts.{
  all_some, apply_op, min_of, max_of, sum, prod, sum_or_none, min_or_none, max_or_none, Range, lows,
  highs, times_qty, counts_of, counts_by, list_counts,
}
use zcbor.Rank.{IsRanked, height, height_elems, children-lt, head-le, tail-le, resolve-Ensures}

apply_op-Ends :
    (op : List ℕ → Result ℕ)
    → ((ns : List ℕ) → Ends (op ns))
    → (o : Option (List ℕ)) → Ends (apply_op op o)
apply_op-Ends op h none = returns tt
apply_op-Ends op h (some ns) = Ensures-bind (h ns) (λ _ _. returns tt)

min_of-Ends : (ns : List ℕ) → Ends (min_of ns)
min_of-Ends [] = raises Exception.value_error
min_of-Ends (n ∷ ns) = returns tt

max_of-Ends : (ns : List ℕ) → Ends (max_of ns)
max_of-Ends [] = raises Exception.value_error
max_of-Ends (n ∷ ns) = returns tt

times_qty-Ends : (e : Elem) (low high : Option ℕ) → Ends (times_qty e low high)
unfolding times_qty
times_qty-Ends e low high =
    Ensures-bind
      (apply_op-Ends (λ ns. ok (prod ns)) (λ _. returns tt)
        (all_some (some (attrs e).min_qty ∷ low ∷ [])))
      (λ _ _.
        Ensures-bind
          (apply_op-Ends (λ ns. ok (prod ns)) (λ _. returns tt)
            (all_some ((attrs e).max_qty ∷ high ∷ [])))
          (λ _ _. returns tt))

module _ (rank : String → ℕ) {cddl : Cddl} (ranked : IsRanked rank cddl) where
  module _ (n : ℕ) (p : Elem → Result Range)
      (below : (e : Elem) → height rank e < n → Ends (p e)) where
    counts_of-Ends : (cs : Elems) → height_elems rank cs < n → Ends (counts_of p cs)
    unfolding counts_of
    counts_of-Ends no_elems h = returns tt
    counts_of-Ends (elems c cs) h =
        Ensures-bind (below c (omega (arith, head-le rank c cs))) (λ _ _.
          Ensures-bind (counts_of-Ends cs (omega (arith, tail-le rank c cs))) (λ _ _. returns tt))

    counts_by-Ends : (k : Kind) (e : Elem) → height rank e ≤ n → Ends (counts_by cddl p k e)
    unfolding counts_by sum_or_none min_or_none max_or_none
    counts_by-Ends Kind.group e h =
        Ensures-bind (counts_of-Ends (children e) (omega (arith, children-lt rank e))) (λ rs _.
          Ensures-bind (apply_op-Ends (λ ns. ok (sum ns)) (λ _. returns tt) (all_some (lows rs)))
            (λ low _.
              Ensures-bind
                (apply_op-Ends (λ ns. ok (sum ns)) (λ _. returns tt) (all_some (highs rs)))
                (λ high _. times_qty-Ends e low high)))
    counts_by-Ends Kind.union e h =
        Ensures-bind (counts_of-Ends (children e) (omega (arith, children-lt rank e))) (λ rs _.
          Ensures-bind (apply_op-Ends min_of min_of-Ends (all_some (lows rs))) (λ low _.
            Ensures-bind (apply_op-Ends max_of max_of-Ends (all_some (highs rs)))
              (λ high _. times_qty-Ends e low high)))
    counts_by-Ends Kind.other e h =
        Ensures-bind (resolve-Ensures rank ranked e)
          (λ t r. Ensures-bind (below t (omega (arith, r.1))) (λ u _. times_qty-Ends e u.0 u.1))
    counts_by-Ends Kind.untyped e h = raises Exception.key_error
    counts_by-Ends k e h = returns tt

  -- With fuel above the height of an element, in a CDDL where no type refers to itself, `list_counts`
  -- ends.
  pub list_counts-Ends : (f : ℕ) (e : Elem) → height rank e < f → Ends (list_counts cddl f e)
  unfolding list_counts
  list_counts-Ends zero e h = absurd (omega arith)
  list_counts-Ends (suc f) e h =
      counts_by-Ends f (list_counts cddl f) (list_counts-Ends f) (kind e) e (omega arith)
