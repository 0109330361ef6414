-- ===== src/Bounds/Apart.antt =====
-- zcbor/zcbor.py, class CddlParser: `set_min_value` and `set_max_value` keep apart. Each changes the fields
-- of its own bound only and does not look at those of the other, and Bounds/Order puts them together.
use zcbor.Prelude.{ℕ, zero, suc, ◌≡◌, refl, sym, ap, ◌∙◌, ℤ, Bool, true, false, not, ◌&&◌, some}
use zcbor.Outcome.{Result, ok, raised, out_of_fuel, first_returns, ◌>>=◌}
use zcbor.Number.{Number}
use zcbor.Elem.{Attrs}
use zcbor.Conditions.{is_integer, is_uint}
use zcbor.Bounds.{
  at_least, at_most, size_at_least, size_at_most, is_zero, no_bound, check_byte_count, bytes_of,
  least_of, most_of, set_min_size_by, set_min_value, set_max_size_by, set_max_value,
}

-- The fields of a bound, taken from `b`.
abbrev pub lower_of : Attrs → Attrs → Attrs
lower_of b a = record a {
  min_value = b.min_value;
  min_value_inclusive = b.min_value_inclusive;
  min_size = b.min_size;
}

abbrev pub upper_of : Attrs → Attrs → Attrs
upper_of b a = record a {
  max_value = b.max_value;
  max_value_inclusive = b.max_value_inclusive;
  max_size = b.max_size;
}

module _ {A : Type 0} where
  -- What is done to the result of a call or of a branch.
  bind_after :
      (r : Result A) (k : A → Result Attrs) {k' : A → Result Attrs} (f : Attrs → Attrs)
      → ((x : A) → k' x ≡ (k x >>= λ b. ok (f b)))
      → (r >>= k') ≡ ((r >>= k) >>= λ b. ok (f b))
  bind_after (ok x) k f h = h x
  bind_after (raised e) k f h = refl
  bind_after out_of_fuel k f h = refl

pick_after :
    (b : Bool) (s t : Result Attrs) {s' t' : Result Attrs} (f : Attrs → Attrs)
    → s' ≡ (s >>= λ b. ok (f b))
    → t' ≡ (t >>= λ b. ok (f b))
    → (elim b [ true ↦ s' | false ↦ t' ]) ≡ ((elim b [ true ↦ s | false ↦ t ]) >>= λ b. ok (f b))
pick_after true s t f p q = p
pick_after false s t f p q = q

-- Two changes that keep apart.
changes_after :
    (r : Result Attrs) {r' : Result Attrs} (f g : Attrs → Attrs)
    → ((b : Attrs) → g (f b) ≡ f (g b))
    → r' ≡ (r >>= λ b. ok (f b))
    → (r' >>= λ b. ok (g b)) ≡ ((r >>= λ b. ok (g b)) >>= λ b. ok (f b))
changes_after r f g h p = rw p (go r)
  where
    go :
        (r : Result Attrs)
        → ((r >>= λ b. ok (f b)) >>= λ b. ok (g b)) ≡ ((r >>= λ b. ok (g b)) >>= λ b. ok (f b))
    go (ok b) = ap ok (h b)
    go (raised e) = refl
    go out_of_fuel = refl

module _ (m : Attrs) where
  set_min_size_by-upper :
      (g : Number → Attrs → Result Attrs) (s : ℤ) (a : Attrs)
      → ((v : Number) → g v (upper_of m a) ≡ (g v a >>= λ b. ok (upper_of m b)))
      → set_min_size_by g s (upper_of m a) ≡ (set_min_size_by g s a >>= λ b. ok (upper_of m b))
  unfolding set_min_size_by
  set_min_size_by-upper g s a h = bind_after (check_byte_count a.kind s) _ (upper_of m) (λ _.
      pick_after (size_at_least a.min_size s) _ _ (upper_of m) refl (
        changes_after _ (upper_of m) (λ b. record b { min_size = some s }) (λ b. refl)
          (pick_after (is_uint a.kind) _ _ (upper_of m) (h (least_of s)) refl)))

  pub set_min_value-upper :
      (f : ℕ) (v : Number) (i : Bool) (a : Attrs)
      → set_min_value f v i (upper_of m a) ≡ (set_min_value f v i a >>= λ b. ok (upper_of m b))
  unfolding set_min_value
  set_min_value-upper zero v i a = refl
  set_min_value-upper (suc f) v i a = pick_after (at_least a.min_value v) _ _ (upper_of m) refl (
      pick_after (is_integer a.kind) _ _ (upper_of m)
        (bind_after (bytes_of v) _ (upper_of m) (λ s.
          set_min_size_by-upper (λ v c. set_min_value f v true c) s
            (record a { min_value = some v; min_value_inclusive = i })
            (λ w.
              set_min_value-upper f w true
                (record a { min_value = some v; min_value_inclusive = i }))))
        refl)

  set_max_size_by-lower :
      (g : Number → Attrs → Result Attrs) (s : ℤ) (a : Attrs)
      → ((v : Number) → g v (lower_of m a) ≡ (g v a >>= λ b. ok (lower_of m b)))
      → set_max_size_by g s (lower_of m a) ≡ (set_max_size_by g s a >>= λ b. ok (lower_of m b))
  unfolding set_max_size_by
  set_max_size_by-lower g s a h = pick_after (size_at_most a.max_size s) _ _ (lower_of m) refl (
      bind_after (check_byte_count a.kind s) _ (lower_of m) (λ _.
        changes_after _ (lower_of m) (λ b. record b { max_size = some s }) (λ b. refl)
          (pick_after (is_uint a.kind && not (is_zero s) && no_bound a.max_value) _ _ (lower_of m)
            (h (most_of s)) refl)))

  pub set_max_value-lower :
      (f : ℕ) (v : Number) (i : Bool) (a : Attrs)
      → set_max_value f v i (lower_of m a) ≡ (set_max_value f v i a >>= λ b. ok (lower_of m b))
  unfolding set_max_value
  set_max_value-lower zero v i a = refl
  set_max_value-lower (suc f) v i a = pick_after (at_most a.max_value v) _ _ (lower_of m) refl (
      pick_after (is_integer a.kind) _ _ (lower_of m)
        (bind_after (bytes_of v) _ (lower_of m) (λ s.
          set_max_size_by-lower (λ v c. set_max_value f v true c) s
            (record a { max_value = some v; max_value_inclusive = i })
            (λ w.
              set_max_value-lower f w true
                (record a { max_value = some v; max_value_inclusive = i }))))
        refl)

-- Where a call returns, it has changed the fields of its bound only.
pick_own :
    (b : Bool) {s t : Result Attrs} {c : Attrs} {P : Type 0}
    → (s ≡ ok c → P)
    → (t ≡ ok c → P)
    → (elim b [ true ↦ s | false ↦ t ]) ≡ ok c
    → P
pick_own true p q e = p e
pick_own false p q e = q e

same_lower : (a c : Attrs) → ok a ≡ ok c → c ≡ lower_of c a
same_lower a c h = let e : c ≡ a = cc in rw e refl

set_min_size_by-lower :
    (g : Number → Attrs → Result Attrs) (s : ℤ) (a c : Attrs)
    → ((v : Number) (b : Attrs) → g v a ≡ ok b → b ≡ lower_of b a)
    → set_min_size_by g s a ≡ ok c
    → c ≡ lower_of c a
unfolding set_min_size_by
set_min_size_by-lower g s a c h e =
    let (u, checked, e1) = first_returns (check_byte_count a.kind s) _ e in
    pick_own (size_at_least a.min_size s) (same_lower a c)
      (λ e2.
        let (b, p, q) =
          first_returns (elim (is_uint a.kind) [ true ↦ g (least_of s) a | false ↦ ok a ]) _ e2 in
        let own : b ≡ lower_of b a =
          pick_own (is_uint a.kind) (h (least_of s) b) (same_lower a b) p in
        let last : c ≡ record b { min_size = some s } = cc in
        last
        ∙ ap {A = Attrs} (λ x. record x { min_size = some s }) own
        ∙ sym (ap (λ x. lower_of x a) last))
      e1

pub set_min_value-lower :
    (f : ℕ) (v : Number) (i : Bool) (a c : Attrs) → set_min_value f v i a ≡ ok c → c ≡ lower_of c a
unfolding set_min_value
set_min_value-lower zero v i a c h = cc
set_min_value-lower (suc f) v i a c h =
    let b : Attrs = record a { min_value = some v; min_value_inclusive = i } in
    pick_own (at_least a.min_value v) (same_lower a c)
      (pick_own (is_integer a.kind)
        (λ e.
          let (s, counted, e1) = first_returns (bytes_of v) _ e in
          set_min_size_by-lower (λ w x. set_min_value f w true x) s b c
            (λ w x. set_min_value-lower f w true b x) e1)
        (same_lower b c))
      h

same_upper : (a c : Attrs) → ok a ≡ ok c → c ≡ upper_of c a
same_upper a c h = let e : c ≡ a = cc in rw e refl

set_max_size_by-upper :
    (g : Number → Attrs → Result Attrs) (s : ℤ) (a c : Attrs)
    → ((v : Number) (b : Attrs) → g v a ≡ ok b → b ≡ upper_of b a)
    → set_max_size_by g s a ≡ ok c
    → c ≡ upper_of c a
unfolding set_max_size_by
set_max_size_by-upper g s a c h e =
    pick_own (size_at_most a.max_size s) (same_upper a c)
      (λ e1.
        let (u, checked, e2) = first_returns (check_byte_count a.kind s) _ e1 in
        let sets : Bool = is_uint a.kind && not (is_zero s) && no_bound a.max_value in
        let (b, p, q) = first_returns (elim sets [ true ↦ g (most_of s) a | false ↦ ok a ]) _ e2 in
        let own : b ≡ upper_of b a = pick_own sets (h (most_of s) b) (same_upper a b) p in
        let last : c ≡ record b { max_size = some s } = cc in
        last
        ∙ ap {A = Attrs} (λ x. record x { max_size = some s }) own
        ∙ sym (ap (λ x. upper_of x a) last))
      e

pub set_max_value-upper :
    (f : ℕ) (v : Number) (i : Bool) (a c : Attrs) → set_max_value f v i a ≡ ok c → c ≡ upper_of c a
unfolding set_max_value
set_max_value-upper zero v i a c h = cc
set_max_value-upper (suc f) v i a c h =
    let b : Attrs = record a { max_value = some v; max_value_inclusive = i } in
    pick_own (at_most a.max_value v) (same_upper a c)
      (pick_own (is_integer a.kind)
        (λ e.
          let (s, counted, e1) = first_returns (bytes_of v) _ e in
          set_max_size_by-upper (λ w x. set_max_value f w true x) s b c
            (λ w x. set_max_value-upper f w true b x) e1)
        (same_upper b c))
      h
