-- ===== src/Counts/Bounds.antt =====
-- zcbor/zcbor.py: the limits that `list_counts` gives, against the counts that an element can have.
use native.Mathlib.Nat.{mul-le-mul_right}
use zcbor.Prelude.{
  In, ℕ, zero, suc, ◌+◌, ◌*◌, ◌≤◌, ◌≡◌, refl, inl, inr, Option-cases, leb, true, Option, none, some,
  List, [], ◌∷◌, if◌then◌else◌, arith,
}
use zcbor.Outcome.{first_returns, Result, ok}
use zcbor.Elem.{Kind, Elem, Elems, no_elems, elems, Cddl, attrs, kind, children, resolve}
use zcbor.Translator.Spec.{Among, here, there}
use zcbor.Counts.{
  all_some, cons_some, apply_op, sum, least, greatest, min_of, max_of, sum_or_none, min_or_none,
  max_or_none, Range, lows, highs, times_qty, counts_of, counts_by, list_counts,
}
use zcbor.Counts.Spec.{
  is_item, AtMost, Once, item, of_group, of_union, of_type, Has, occurs, Times, no_times, one_time,
  Each, no_members, one_member,
}

-- No less than the limit, if there is one.
abbrev pub AtLeast : Option ℕ → ℕ → Type 0
AtLeast none n = Unit
AtLeast (some l) n = l ≤ n

-- `n` lies between the limits.
abbrev pub Within : Range → ℕ → Type 0
Within r n = AtLeast r.0 n × AtMost n r.1

abbrev pub mul : Option ℕ → Option ℕ → Option ℕ
mul none b = none
mul (some a) none = none
mul (some a) (some b) = some (a * (b * 1))

abbrev pub sum_all : Option (List ℕ) → Option ℕ
sum_all none = none
sum_all (some ns) = some (sum ns)

pub times_qty-mul :
    (e : Elem) (low high : Option ℕ)
    → times_qty e low high ≡ ok (mul (some (attrs e).min_qty) low, mul (attrs e).max_qty high)
unfolding times_qty
times_qty-mul e none none = ground arith
times_qty-mul e none (some h) = ground arith
times_qty-mul e (some l) none = ground arith
times_qty-mul e (some l) (some h) = ground arith

-- `k` occurrences of `n` items each, where `n` lies between limits.
scale_low : (k m l n : ℕ) → m ≤ k → k * l ≤ n → m * (l * 1) ≤ n
scale_low k m l n h p = omega (arith, mul-le-mul_right l h)

scale_high : (k m u n : ℕ) → k ≤ m → n ≤ k * u → n ≤ m * (u * 1)
scale_high k m u n h p = omega (arith, mul-le-mul_right u h)

-- The limits of one occurrence, as they are found for each kind.
pub data Unit1 (cddl : Cddl) (f : ℕ) (e : Elem) : Range → Type 0 where
  one_item : {u : Range} → is_item (kind e) ≡ true → u ≡ (some 1, some 1) → Unit1 cddl f e u
  group_sum :
      {u : Range} {rs : List Range}
      → kind e ≡ Kind.group
      → counts_of (list_counts cddl f) (children e) ≡ ok rs
      → sum_or_none (lows rs) ≡ ok u.0
      → sum_or_none (highs rs) ≡ ok u.1
      → Unit1 cddl f e u
  union_range :
      {u : Range} {rs : List Range}
      → kind e ≡ Kind.union
      → counts_of (list_counts cddl f) (children e) ≡ ok rs
      → min_or_none (lows rs) ≡ ok u.0
      → max_or_none (highs rs) ≡ ok u.1
      → Unit1 cddl f e u
  type_range :
      {u : Range} {t : Elem}
      → kind e ≡ Kind.other
      → resolve cddl e ≡ ok t
      → list_counts cddl f t ≡ ok u
      → Unit1 cddl f e u

abbrev Scaled : Elem → Range → Range → Type 0
Scaled e u r = r ≡ (mul (some (attrs e).min_qty) u.0, mul (attrs e).max_qty u.1)

scaled :
    (e : Elem) (low high : Option ℕ) (r : Range)
    → times_qty e low high ≡ ok r
    → Scaled e (low, high) r
scaled e low high r h = cc (times_qty-mul e low high)

unit_item :
    (lo : ℕ) (hi : Option ℕ)
    → ◌≡◌ {A = Range} (some lo, hi) (mul (some lo) (some 1), mul hi (some 1))
unit_item lo none = ground arith
unit_item lo (some h) = ground arith

module _ (cddl : Cddl) (f : ℕ) (e : Elem) where
  by_kind :
      (k : Kind) {r : Range}
      → kind e ≡ k
      → counts_by cddl (list_counts cddl f) k e ≡ ok r
      → (u : Range) × Unit1 cddl f e u × Scaled e u r
  unfolding counts_by
  by_kind Kind.group {r} k h =
      let (rs, counted, h1) = first_returns (counts_of (list_counts cddl f) (children e)) _ h in
      let (low, sum_low, h2) = first_returns (sum_or_none (lows rs)) _ h1 in
      let (high, sum_high, h3) = first_returns (sum_or_none (highs rs)) _ h2 in
      ((low, high), group_sum k counted sum_low sum_high, scaled e low high r h3)
  by_kind Kind.union {r} k h =
      let (rs, counted, h1) = first_returns (counts_of (list_counts cddl f) (children e)) _ h in
      let (low, min_low, h2) = first_returns (min_or_none (lows rs)) _ h1 in
      let (high, max_high, h3) = first_returns (max_or_none (highs rs)) _ h2 in
      ((low, high), union_range k counted min_low max_high, scaled e low high r h3)
  by_kind Kind.other {r} k h =
      let (t, found, h1) = first_returns (resolve cddl e) _ h in
      let (u, counted, h2) = first_returns (list_counts cddl f t) _ h1 in
      (u, type_range k found counted, scaled e u.0 u.1 r h2)
  by_kind Kind.untyped k h = cc
  by_kind k {r} p h = (
    (some 1, some 1),
    one_item (rw p refl) refl,
    cc (unit_item (attrs e).min_qty (attrs e).max_qty),
  )

  pub counts-cases :
      {r : Range}
      → list_counts cddl (suc f) e ≡ ok r
      → (u : Range) × Unit1 cddl f e u × Scaled e u r
  unfolding list_counts
  counts-cases h = by_kind (kind e) refl h

abbrev pub AllLows : List Range → ℕ → Type 0
AllLows rs n = AtLeast (sum_all (all_some (lows rs))) n

abbrev pub AllHighs : List Range → ℕ → Type 0
AllHighs rs n = AtMost n (sum_all (all_some (highs rs)))

cons_some_low :
    (l n m : ℕ) (ls : Option (List ℕ))
    → l ≤ n
    → AtLeast (sum_all ls) m
    → AtLeast (sum_all (cons_some l ls)) (n + m)
cons_some_low l n m none h k = tt
cons_some_low l n m (some ls) h k = omega arith

cons_some_high :
    (l n m : ℕ) (ls : Option (List ℕ))
    → n ≤ l
    → AtMost m (sum_all ls)
    → AtMost (n + m) (sum_all (cons_some l ls))
cons_some_high l n m none h k = tt
cons_some_high l n m (some ls) h k = omega arith

cons_low :
    (low : Option ℕ) (os : List (Option ℕ)) (n m : ℕ)
    → AtLeast low n
    → AtLeast (sum_all (all_some os)) m
    → AtLeast (sum_all (all_some (low ∷ os))) (n + m)
cons_low none os n m h k = tt
cons_low (some l) os n m h k = cons_some_low l n m (all_some os) h k

cons_high :
    (high : Option ℕ) (os : List (Option ℕ)) (n m : ℕ)
    → AtMost n high
    → AtMost m (sum_all (all_some os))
    → AtMost (n + m) (sum_all (all_some (high ∷ os)))
cons_high none os n m h k = tt
cons_high (some l) os n m h k = cons_some_high l n m (all_some os) h k

least-le : (l n : ℕ) (ns : List ℕ) → In l (n ∷ ns) → least n ns ≤ l
least-le l n [] (inl e) = omega arith
least-le l n [] (inr i) = absurd i
least-le l n (m ∷ ns) (inl e) =
    ground (arith, least-le (if leb n m then n else m) (if leb n m then n else m) ns (inl refl))
least-le l n (m ∷ ns) (inr (inl e)) =
    ground (arith, least-le (if leb n m then n else m) (if leb n m then n else m) ns (inl refl))
least-le l n (m ∷ ns) (inr (inr i)) = least-le l (if leb n m then n else m) ns (inr i)

le-greatest : (l n : ℕ) (ns : List ℕ) → In l (n ∷ ns) → l ≤ greatest n ns
le-greatest l n [] (inl e) = omega arith
le-greatest l n [] (inr i) = absurd i
le-greatest l n (m ∷ ns) (inl e) =
    ground (arith, le-greatest (if leb m n then n else m) (if leb m n then n else m) ns (inl refl))
le-greatest l n (m ∷ ns) (inr (inl e)) =
    ground (arith, le-greatest (if leb m n then n else m) (if leb m n then n else m) ns (inl refl))
le-greatest l n (m ∷ ns) (inr (inr i)) = le-greatest l (if leb m n then n else m) ns (inr i)

pub all_some-In :
    (o : Option ℕ) (os : List (Option ℕ)) (ns : List ℕ)
    → In o os
    → all_some os ≡ some ns
    → (l : ℕ) × (o ≡ some l) × In l ns
all_some-In o [] ns i h = absurd i
all_some-In o (none ∷ os) ns i h = cc
all_some-In o (some m ∷ os) ns i h = elim (Option-cases (all_some os)) [
  | inl p ↦ absurd (none_differs (rw p at h))
  | inr (ms, p) ↦
      let e : some (m ∷ ms) ≡ some ns = rw p at h in
      elim i [
        | inl q ↦ (m, q, let r : ns ≡ m ∷ ms = cc in rw r (inl refl))
        | inr j ↦
            let (l, q, k) = all_some-In o os ms j p in
            (l, q, let r : ns ≡ m ∷ ms = cc in rw r (inr k))
      ]
]
  where
    none_differs : ◌≡◌ {A = Option (List ℕ)} none (some ns) → ⊥
    none_differs q = cc

low_of_min :
    (o : Option ℕ) (os : List (Option ℕ)) (low : Option ℕ) (n : ℕ)
    → min_or_none os ≡ ok low
    → In o os
    → AtLeast o n
    → AtLeast low n
unfolding min_or_none
low_of_min o os low n h i a = go (all_some os) refl h
  where
    chosen :
        (ns : List ℕ) (l : ℕ) → apply_op min_of (some ns) ≡ ok low → In l ns → l ≤ n → AtLeast low n
    chosen [] l h k a = absurd k
    chosen (m ∷ ms) l h k a =
        let e : low ≡ some (least m ms) = cc in rw e (omega (arith, least-le l m ms k))

    go : (ns : Option (List ℕ)) → all_some os ≡ ns → apply_op min_of ns ≡ ok low → AtLeast low n
    go none p h = let e : low ≡ none = cc in rw e tt
    go (some ns) p h = let (l, q, k) = all_some-In o os ns i p in chosen ns l h k (rw q at a)

high_of_max :
    (o : Option ℕ) (os : List (Option ℕ)) (high : Option ℕ) (n : ℕ)
    → max_or_none os ≡ ok high
    → In o os
    → AtMost n o
    → AtMost n high
unfolding max_or_none
high_of_max o os high n h i a = go (all_some os) refl h
  where
    chosen :
        (ns : List ℕ) (l : ℕ)
        → apply_op max_of (some ns) ≡ ok high
        → In l ns
        → n ≤ l
        → AtMost n high
    chosen [] l h k a = absurd k
    chosen (m ∷ ms) l h k a =
        let e : high ≡ some (greatest m ms) = cc in rw e (omega (arith, le-greatest l m ms k))

    go : (ns : Option (List ℕ)) → all_some os ≡ ns → apply_op max_of ns ≡ ok high → AtMost n high
    go none p h = let e : high ≡ none = cc in rw e tt
    go (some ns) p h = let (l, q, k) = all_some-In o os ns i p in chosen ns l h k (rw q at a)

pub sum_or_none-all : (os : List (Option ℕ)) → sum_or_none os ≡ ok (sum_all (all_some os))
unfolding sum_or_none
sum_or_none-all os = go (all_some os)
  where
    go : (ns : Option (List ℕ)) → apply_op (λ ns. ok (sum ns)) ns ≡ ok (sum_all ns)
    go none = refl
    go (some ns) = refl

-- The limits of `k` occurrences.
abbrev Repeated : Range → ℕ → ℕ → Type 0
Repeated u k n = AtLeast (mul (some k) u.0) n × AtMost n (mul (some k) u.1)

no_rounds : (u : Range) → Repeated u 0 0
no_rounds (none, none) = (tt, tt)
no_rounds (none, some h) = (tt, omega arith)
no_rounds (some l, none) = (omega arith, tt)
no_rounds (some l, some h) = (omega arith, omega arith)

one_more : (u : Range) (k n m : ℕ) → Within u n → Repeated u k m → Repeated u (suc k) (n + m)
one_more (none, none) k n m w r = (tt, tt)
one_more (none, some h) k n m w r = (tt, grind arith)
one_more (some l, none) k n m w r = (grind arith, tt)
one_more (some l, some h) k n m w r = (grind arith, grind arith)

rounds-Within :
    (e : Elem) (u : Range) (k n : ℕ)
    → (attrs e).min_qty ≤ k
    → AtMost k (attrs e).max_qty
    → Repeated u k n
    → Within (mul (some (attrs e).min_qty) u.0, mul (attrs e).max_qty u.1) n
rounds-Within e u k n low high r = (lower u.0 r.0, upper (attrs e).max_qty u.1 high r.1)
  where
    lower : (l : Option ℕ) → AtLeast (mul (some k) l) n → AtLeast (mul (some (attrs e).min_qty) l) n
    lower none h = tt
    lower (some l) h = scale_low k (attrs e).min_qty l n low (omega arith)

    upper : (m u : Option ℕ) → AtMost k m → AtMost n (mul (some k) u) → AtMost n (mul m u)
    upper none u h a = tt
    upper (some m) none h a = tt
    upper (some m) (some u) h a = scale_high k m u n h (omega arith)

module _ (cddl : Cddl) where
  -- A member of a choice is among those that are counted.
  Among-In :
      (p : Elem → Result Range) {c : Elem} {cs : Elems} {rs : List Range}
      → Among c cs
      → counts_of p cs ≡ ok rs
      → (r : Range) × (p c ≡ ok r) × In r.0 (lows rs) × In r.1 (highs rs)
  unfolding counts_of
  Among-In p {cs = no_elems} a h = elim a [ ]
  Among-In p {c} {cs = elems d cs} {rs} here h =
      let (r, q, h1) = first_returns (p c) _ h in
      let (rs', q', h2) = first_returns (counts_of p cs) _ h1 in
      let e : rs ≡ r ∷ rs' = cc in (r, q, rw e (inl refl), rw e (inl refl))
  Among-In p {c} {cs = elems d cs} {rs} (there a) h =
      let (r, q, h1) = first_returns (p d) _ h in
      let (rs', q', h2) = first_returns (counts_of p cs) _ h1 in
      let (r', k, low, high) = Among-In p a q' in
      let e : rs ≡ r ∷ rs' = cc in (r', k, rw e (inr low), rw e (inr high))

  same_type :
      (e : Elem) (f : ℕ) {s t : Elem} {r : Range}
      → resolve cddl e ≡ ok s
      → resolve cddl e ≡ ok t
      → list_counts cddl f t ≡ ok r
      → list_counts cddl f s ≡ ok r
  same_type e f {s} {t} p q h = let e : s ≡ t = cc in rw e h

  none_counted : (e : Elem) {r : Range} → list_counts cddl 0 e ≡ ok r → ⊥
  unfolding list_counts
  none_counted e h = cc

  mutual
    unfolding counts_of

    Has-Within :
        (f : ℕ) {e : Elem} {n : ℕ} {r : Range}
        → Has cddl e n
        → list_counts cddl f e ≡ ok r
        → Within r n
    Has-Within zero {e} a h = absurd (none_counted e h)
    Has-Within (suc f) {e} {n} {r} (occurs {k = k} low high t) h =
        let (u, unit, scaled) = counts-cases cddl f e h in
        rw scaled (rounds-Within e u k n low high (Times-Repeated f u unit t))

    Times-Repeated :
        (f : ℕ) {e : Elem} {k n : ℕ} (u : Range)
        → Unit1 cddl f e u
        → Times cddl e k n
        → Repeated u k n
    Times-Repeated f u unit (no_times p q) = rw (p, q) (no_rounds u)
    Times-Repeated f u unit (one_time {j = j} {n = n} {m = m} o t p q) =
        rw (p, q) (one_more u j n m (Once-Within f u unit o) (Times-Repeated f u unit t))

    Once-Within :
        (f : ℕ) {e : Elem} {n : ℕ} (u : Range) → Unit1 cddl f e u → Once cddl e n → Within u n
    Once-Within f {e} u (one_item k v) (item p q) = rw (v, q) (omega arith, omega arith)
    Once-Within f {e} u (group_sum k c l h) (item p q) = absurd (ground arith)
    Once-Within f {e} u (union_range k c l h) (item p q) = absurd (ground arith)
    Once-Within f {e} u (type_range k t' c) (item p q) = absurd (ground arith)
    Once-Within f {e} u (one_item k v) (of_group p s) = absurd (ground arith)
    Once-Within f {e} u (group_sum {rs = rs} k c l h) (of_group p s) =
        let (low, high) = Each-Within f s c in
        let lo : u.0 ≡ sum_all (all_some (lows rs)) = cc (l, sum_or_none-all (lows rs)) in
        let hi : u.1 ≡ sum_all (all_some (highs rs)) = cc (h, sum_or_none-all (highs rs)) in
        (rw lo low, rw hi high)
    Once-Within f {e} u (union_range k c l h) (of_group p s) = absurd (ground arith)
    Once-Within f {e} u (type_range k t' c) (of_group p s) = absurd (ground arith)
    Once-Within f {e} u (one_item k v) (of_union p a s) = absurd (ground arith)
    Once-Within f {e} u (group_sum k c l h) (of_union p a s) = absurd (ground arith)
    Once-Within f {e} u (union_range {rs = rs} k c l h) (of_union p a s) =
        let (r, counted, low, high) = Among-In (list_counts cddl f) a c in
        let (least, most) = Has-Within f s counted in
        (low_of_min r.0 (lows rs) u.0 _ l low least, high_of_max r.1 (highs rs) u.1 _ h high most)
    Once-Within f {e} u (type_range k t' c) (of_union p a s) = absurd (ground arith)
    Once-Within f {e} u (one_item k v) (of_type p t s) = absurd (ground arith)
    Once-Within f {e} u (group_sum k c l h) (of_type p t s) = absurd (ground arith)
    Once-Within f {e} u (union_range k c l h) (of_type p t s) = absurd (ground arith)
    Once-Within f {e} u (type_range k t' c) (of_type p t s) = Has-Within f s (same_type e f t t' c)

    Each-Within :
        (f : ℕ) {cs : Elems} {n : ℕ} {rs : List Range}
        → Each cddl cs n
        → counts_of (list_counts cddl f) cs ≡ ok rs
        → AtLeast (sum_all (all_some (lows rs))) n × AtMost n (sum_all (all_some (highs rs)))
    Each-Within f {rs = rs} (no_members p) h =
        let e : rs ≡ [] = cc in rw (e, p) (omega arith, omega arith)
    Each-Within f {rs = rs} (one_member {c = c} {cs = cs} {n = n} {m = m} o s p) h =
        let (r, counted, h1) = first_returns (list_counts cddl f c) _ h in
        let (rs', rest, h2) = first_returns (counts_of (list_counts cddl f) cs) _ h1 in
        let (low, high) = Has-Within f o counted in
        let (lows_le, highs_ge) = Each-Within f s rest in
        let e : rs ≡ r ∷ rs' = cc in
        rw (e, p)
          (cons_low r.0 (lows rs') n m low lows_le, cons_high r.1 (highs rs') n m high highs_ge)

-- Where `list_counts` returns limits for an element, each number of items that the element can stand for
-- lies between them.
pub list_counts-Within :
    (cddl : Cddl) (f : ℕ) (e : Elem) (n : ℕ) (r : Range)
    → Has cddl e n
    → list_counts cddl f e ≡ ok r
    → Within r n
list_counts-Within cddl f e n r h k = Has-Within cddl f h k
