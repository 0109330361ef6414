-- ===== src/Bounds/Order.antt =====
-- zcbor/zcbor.py, class CddlParser: the order of `set_min_value` and `set_max_value` does not matter.
use zcbor.Prelude.{ℕ, ◌≡◌, sym, ap, ◌∙◌, ◌↔◌, Bool}
use zcbor.Outcome.{Result, ok, first_returns, ◌>>=◌}
use zcbor.Number.{Number}
use zcbor.Elem.{Attrs}
use zcbor.Bounds.{set_min_value, set_max_value}
use zcbor.Bounds.Apart.{
  lower_of, upper_of, set_min_value-upper, set_max_value-lower, set_min_value-lower,
  set_max_value-upper,
}

-- What the two calls leave, whichever is first.
record Both (f g : ℕ) (v w : Number) (i j : Bool) (a c : Attrs) : Type 0 where
  lower : Attrs
  upper : Attrs
  low_set : set_min_value f v i a ≡ ok lower
  up_set : set_max_value g w j a ≡ ok upper
  low_kept : lower ≡ lower_of lower a
  up_kept : upper ≡ upper_of upper a
  result : c ≡ lower_of lower upper

ok_after :
    (r : Result Attrs) (f : Attrs → Attrs) (c : Attrs)
    → (r >>= λ b. ok (f b)) ≡ ok c
    → (d : Attrs) × (r ≡ ok d) × (c ≡ f d)
ok_after r f c h = let (d, p, q) = first_returns r (λ b. ok (f b)) h in (d, p, cc)

-- The lower bound first, then the upper one.
min_then_max :
    (f g : ℕ) (v w : Number) (i j : Bool) (a c : Attrs)
    → (set_min_value f v i a >>= set_max_value g w j) ≡ ok c
    → Both f g v w i j a c
min_then_max f g v w i j a c h =
    let (b, low, high) = first_returns (set_min_value f v i a) (set_max_value g w j) h in
    let own = set_min_value-lower f v i a b low in
    let moved : (set_max_value g w j a >>= λ d. ok (lower_of b d)) ≡ ok c =
      sym (set_max_value-lower b g w j a) ∙ sym (ap (set_max_value g w j) own) ∙ high in
    let (d, up, e) = ok_after (set_max_value g w j a) (lower_of b) c moved in
    record {
      lower = b;
      upper = d;
      low_set = low;
      up_set = up;
      low_kept = own;
      up_kept = set_max_value-upper g w j a d up;
      result = e;
    }

max_then_min :
    (f g : ℕ) (v w : Number) (i j : Bool) (a c : Attrs)
    → (set_max_value g w j a >>= set_min_value f v i) ≡ ok c
    → Both f g v w i j a c
max_then_min f g v w i j a c h =
    let (d, up, low) = first_returns (set_max_value g w j a) (set_min_value f v i) h in
    let own = set_max_value-upper g w j a d up in
    let moved : (set_min_value f v i a >>= λ b. ok (upper_of d b)) ≡ ok c =
      sym (set_min_value-upper d f v i a) ∙ sym (ap (set_min_value f v i) own) ∙ low in
    let (b, low', e) = ok_after (set_min_value f v i a) (upper_of d) c moved in
    let kept = set_min_value-lower f v i a b low' in
    record {
      lower = b;
      upper = d;
      low_set = low';
      up_set = up;
      low_kept = kept;
      up_kept = own;
      result = e ∙ ap (upper_of d) kept ∙ sym (ap (lower_of b) own);
    }

Both-orders :
    (f g : ℕ) (v w : Number) (i j : Bool) (a c : Attrs)
    → Both f g v w i j a c
    → ((set_min_value f v i a >>= set_max_value g w j) ≡ ok c)
      × ((set_max_value g w j a >>= set_min_value f v i) ≡ ok c)
Both-orders f g v w i j a c b = (
  ap (λ r. r >>= set_max_value g w j) b.low_set
      ∙ ap (set_max_value g w j) b.low_kept
      ∙ set_max_value-lower b.lower g w j a
      ∙ ap (λ r. r >>= λ d. ok (lower_of b.lower d)) b.up_set
      ∙ ap ok (sym b.result),
  ap (λ r. r >>= set_min_value f v i) b.up_set
      ∙ ap (set_min_value f v i) b.up_kept
      ∙ set_min_value-upper b.upper f v i a
      ∙ ap (λ r. r >>= λ d. ok (upper_of b.upper d)) b.low_set
      ∙ ap (λ d. ok (upper_of b.upper d)) b.low_kept
      ∙ ap (λ d. ok (lower_of b.lower d)) (sym b.up_kept)
      ∙ ap ok (sym b.result),
)

-- One order returns what the other does.
pub min_max_swap :
    (f g : ℕ) (v w : Number) (i j : Bool) (a c : Attrs)
    → ((set_min_value f v i a >>= set_max_value g w j) ≡ ok c)
      ↔ ((set_max_value g w j a >>= set_min_value f v i) ≡ ok c)
min_max_swap f g v w i j a c = (
  λ h. (Both-orders f g v w i j a c (min_then_max f g v w i j a c h)).1,
  λ h. (Both-orders f g v w i j a c (max_then_min f g v w i j a c h)).0,
)
