-- ===== src/Flatten/Lists.antt =====
-- The counts of list items that elements and lists of elements can have, from one list of members to
-- another: what the proofs about zcbor/zcbor.py's `flatten` take apart.
use zcbor.Prelude.{
  ℕ, ◌+◌, ◌≡◌, ◌≤◌, refl, sym, ap, ◌∙◌, ◌↔◌, ◌⊎◌, inl, inr, some, List, [], ◌∷◌, ◌++◌, arith,
}
use zcbor.Elem.{Kind, Elem, Elems, no_elems, elems, Cddl, attrs, kind, children, resolve}
use zcbor.Translator.Spec.{Among, here, there}
use zcbor.Counts.Spec.{
  Once, item, of_group, of_union, of_type, Has, occurs, Times, no_times, one_time, Each, no_members,
  one_member,
}
use zcbor.Flatten.{elems_of, list_of}

pub elems_of-list_of : (cs : Elems) → elems_of (list_of cs) ≡ cs
elems_of-list_of no_elems = refl
elems_of-list_of (elems c cs) = ap (elems c) (elems_of-list_of cs)

module _ (cddl : Cddl) where
  -- A member of the choice has `n` items.
  abbrev pub Some : Elems → ℕ → Type 0
  Some cs n = (c : Elem) × Among c cs × Has cddl c n

  pub Each-append :
      (xs ys : List Elem) {n m l : ℕ}
      → Each cddl (elems_of xs) n
      → Each cddl (elems_of ys) m
      → l ≡ n + m
      → Each cddl (elems_of (xs ++ ys)) l
  Each-append [] ys {n} {m} {l} (no_members p) b q = let e : l ≡ m = omega arith in rw e b
  Each-append (x ∷ xs) ys {l = l} (one_member {n = i} {m = j} h hs p) b q =
      one_member h (Each-append xs ys hs b refl) (omega arith)

  pub Each-split :
      (xs ys : List Elem) {l : ℕ}
      → Each cddl (elems_of (xs ++ ys)) l
      → (n : ℕ) × (m : ℕ) × Each cddl (elems_of xs) n × Each cddl (elems_of ys) m × (l ≡ n + m)
  Each-split [] ys {l} h = (0, l, no_members refl, h, omega arith)
  Each-split (x ∷ xs) ys (one_member {n = i} h hs p) =
      let (n, m, a, b, q) = Each-split xs ys hs in (i + n, m, one_member h a refl, b, omega arith)

  pub Among-left :
      {c : Elem} (xs ys : List Elem) → Among c (elems_of xs) → Among c (elems_of (xs ++ ys))
  Among-left (x ∷ xs) ys here = here
  Among-left (x ∷ xs) ys (there a) = there (Among-left xs ys a)
  Among-left [] ys a = elim a [ ]

  pub Among-right :
      {c : Elem} (xs ys : List Elem) → Among c (elems_of ys) → Among c (elems_of (xs ++ ys))
  Among-right [] ys a = a
  Among-right (x ∷ xs) ys a = there (Among-right xs ys a)

  pub Among-split :
      {c : Elem} (xs ys : List Elem)
      → Among c (elems_of (xs ++ ys))
      → Among c (elems_of xs) ⊎ Among c (elems_of ys)
  Among-split [] ys a = inr a
  Among-split (x ∷ xs) ys here = inl here
  Among-split (x ∷ xs) ys (there a) = elim (Among-split xs ys a) [
    | inl b ↦ inl (there b)
    | inr b ↦ inr b
  ]

  -- The two elements have the same counts.
  abbrev pub SameCounts : Elem → Elem → Type 0
  SameCounts e e' = (n : ℕ) → Has cddl e n ↔ Has cddl e' n

  abbrev pub SameOnce : Elem → Elem → Type 0
  SameOnce e e' = (n : ℕ) → Once cddl e n ↔ Once cddl e' n

  Times-map :
      {e e' : Elem} {k n : ℕ}
      → ((m : ℕ) → Once cddl e m → Once cddl e' m)
      → Times cddl e k n
      → Times cddl e' k n
  Times-map f (no_times p q) = no_times p q
  Times-map f (one_time {n = n} o t p q) = one_time (f n o) (Times-map f t) p q

  pub Has-same :
      (e e' : Elem)
      → (attrs e).min_qty ≡ (attrs e').min_qty
      → (attrs e).max_qty ≡ (attrs e').max_qty
      → SameOnce e e'
      → SameCounts e e'
  Has-same e e' low high same n = (λ h. forth h, λ h. back h)
    where
      forth : Has cddl e n → Has cddl e' n
      forth (occurs {k = k} a b t) =
          occurs (rw (← low) a) (rw (← high) b) (Times-map (λ m. (same m).0) t)

      back : Has cddl e' n → Has cddl e n
      back (occurs {k = k} a b t) = occurs (rw low a) (rw high b) (Times-map (λ m. (same m).1) t)

  -- One occurrence is the same where the kinds are, the references, and the members.
  pub Once-same :
      (e e' : Elem)
      → kind e ≡ kind e'
      → resolve cddl e ≡ resolve cddl e'
      → (kind e ≡ Kind.group → (n : ℕ) → Each cddl (children e) n ↔ Each cddl (children e') n)
      → (kind e ≡ Kind.union → (n : ℕ) → Some (children e) n ↔ Some (children e') n)
      → SameOnce e e'
  Once-same e e' k r gs us n = (λ o. forth o, λ o. back o)
    where
      forth : Once cddl e n → Once cddl e' n
      forth (item p q) = item (rw (← k) p) q
      forth (of_group p h) = of_group (sym k ∙ p) ((gs p n).0 h)
      forth (of_union {c = c} p a h) =
          let (c', a', h') = (us p n).0 (c, a, h) in of_union (sym k ∙ p) a' h'
      forth (of_type p found h) = of_type (sym k ∙ p) (sym r ∙ found) h

      back : Once cddl e' n → Once cddl e n
      back (item p q) = item (rw k p) q
      back (of_group p h) = of_group (k ∙ p) ((gs (k ∙ p) n).1 h)
      back (of_union {c = c} p a h) =
          let (c', a', h') = (us (k ∙ p) n).1 (c, a, h) in of_union (k ∙ p) a' h'
      back (of_type p found h) = of_type (k ∙ p) (r ∙ found) h

  -- An element that occurs once.
  pub Has-once :
      (e : Elem)
      → (attrs e).min_qty ≡ 1
      → (attrs e).max_qty ≡ some 1
      → (n : ℕ) → Has cddl e n ↔ Once cddl e n
  Has-once e low high n = (
    λ h. forth h,
    λ o.
        occurs {k = 1} (omega arith) (rw high (omega arith))
          (one_time o (no_times refl refl) refl (omega arith)),
  )
    where
      single : {k : ℕ} → k ≡ 1 → Times cddl e k n → Once cddl e n
      single p (no_times q r) = absurd (omega arith)
      single p (one_time {n = m} o (no_times q' r') q r) = let s : n ≡ m = omega arith in rw s o
      single p (one_time o (one_time o' t q' r') q r) = absurd (omega arith)

      forth : Has cddl e n → Once cddl e n
      forth (occurs {k = k} a b t) = let below : k ≤ 1 = rw high at b in single (omega arith) t
