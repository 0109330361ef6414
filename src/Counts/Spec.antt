-- ===== src/Counts/Spec.antt =====
-- How many items of a list a CDDL element can stand for, as a relation: what zcbor/zcbor.py's
-- `list_counts` is held against.
use zcbor.Prelude.{ℕ, suc, ◌+◌, ◌≤◌, ◌≡◌, true, false, Bool, Option, none, some}
use zcbor.Outcome.{ok}
use zcbor.Elem.{Kind, Elem, Elems, no_elems, elems, Cddl, attrs, kind, children, resolve}
use zcbor.Translator.Spec.{Among}

-- The kinds that are one item: values, lists and maps.
abbrev pub is_item : Kind → Bool
is_item Kind.group = false
is_item Kind.union = false
is_item Kind.other = false
is_item Kind.untyped = false
is_item _ = true

-- No more than the limit, if there is one.
abbrev pub AtMost : ℕ → Option ℕ → Type 0
AtMost n none = Unit
AtMost n (some m) = n ≤ m

module _ (cddl : Cddl) where
  mutual
    -- One occurrence of the element has `n` items.
    pub data Once : Elem → ℕ → Type 0 where
      item : {e : Elem} {n : ℕ} → is_item (kind e) ≡ true → n ≡ 1 → Once e n
      of_group : {e : Elem} {n : ℕ} → kind e ≡ Kind.group → Each (children e) n → Once e n
      of_union :
          {e c : Elem} {n : ℕ} → kind e ≡ Kind.union → Among c (children e) → Has c n → Once e n
      of_type :
          {e t : Elem} {n : ℕ} → kind e ≡ Kind.other → resolve cddl e ≡ ok t → Has t n → Once e n

    -- The element with its quantifier has `n` items.
    pub data Has : Elem → ℕ → Type 0 where
      occurs :
          {e : Elem} {k n : ℕ}
          → (attrs e).min_qty ≤ k
          → AtMost k (attrs e).max_qty
          → Times e k n
          → Has e n

    pub data Times : Elem → ℕ → ℕ → Type 0 where
      no_times : {e : Elem} {k n : ℕ} → k ≡ 0 → n ≡ 0 → Times e k n
      one_time :
          {e : Elem} {j k n m l : ℕ} → Once e n → Times e j m → k ≡ suc j → l ≡ n + m → Times e k l

    pub data Each : Elems → ℕ → Type 0 where
      no_members : {n : ℕ} → n ≡ 0 → Each no_elems n
      one_member :
          {c : Elem} {cs : Elems} {n m l : ℕ}
          → Has c n
          → Each cs m
          → l ≡ n + m
          → Each (elems c cs) l
