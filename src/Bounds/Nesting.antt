-- ===== src/Bounds/Nesting.antt =====
-- zcbor/zcbor.py, class CddlParser: how deep the calls among the methods that set bounds and sizes nest.
use zcbor.Prelude.{
  ℕ, suc, ◌^◌, ◌<◌, ◌≤◌, ◌≡◌, refl, ◌∙◌, ap, inl, inr, leb_ℤ, ℤ, pos, negsuc, Bool, true, false,
  not, ◌&&◌, ◌||◌, some, arith,
}
use zcbor.Outcome.{
  Result, ok, Exception, require, ◌>>=◌, ◌>>◌, Ensures, returns, raises, Ends, Ensures-self,
  Ensures-bind,
}
use zcbor.Number.{Number, number_le}
use zcbor.Elem.{Kind, Attrs}
use zcbor.Conditions.{is_integer, is_uint}
use zcbor.Bounds.{
  at_least, size_at_least, check_byte_count, bytes_of, least_of, set_min_size_by, set_min_value,
}
use zcbor.Bounds.Bits.{bytes, up_to_8, least_bytes, least_bytes_le}
use zcbor.Bounds.Kept.{le→leb_ℤ, set_min_value-stop}

in_range : (t : ℤ) → (leb_ℤ (pos 0) t && leb_ℤ t (pos 8)) ≡ true → (s : ℕ) × (t ≡ pos s) × (s ≤ 8)
in_range (pos s) h = (s, refl, ground arith)
in_range (negsuc s) h = absurd (ground arith)

Ends-require2 : (x y : Exception) (b c : Bool) → Ends (require x b >> require y c)
Ends-require2 x y true true = returns tt
Ends-require2 x y true false = raises y
Ends-require2 x y false c = raises x

-- A size of an unsigned element that passes the check lies from 0 to 8.
pub counted :
    (k : Kind) (t : ℤ)
    → Ensures (λ _. is_uint k ≡ true → (s : ℕ) × (t ≡ pos s) × (s ≤ 8)) (check_byte_count k t)
unfolding check_byte_count
counted k t =
    first (not (is_integer k) || (leb_ℤ (pos 0) t && leb_ℤ t (pos 8))) _
      (λ h u. in_range t (unsigned k u h))
      (Ends-require2 Exception.parsing_error Exception.parsing_error _ _)
  where
    unsigned :
        (k : Kind)
        → is_uint k ≡ true
        → (not (is_integer k) || (leb_ℤ (pos 0) t && leb_ℤ t (pos 8))) ≡ true
        → (leb_ℤ (pos 0) t && leb_ℤ t (pos 8)) ≡ true
    unsigned k u h = ground arith

    first :
        {Q : Type 0} (b : Bool) (rest : Result (Unit {0}))
        → (b ≡ true → Q)
        → Ends rest
        → Ensures (λ _. Q) (require Exception.parsing_error b >> rest)
    first true rest h (returns e) = returns (h refl)
    first true rest h (raises x) = raises x
    first false rest h e = raises Exception.parsing_error

-- `set_min_size` ends where the call that it makes ends.
pub min_size_Ends :
    (g : Number → Attrs → Result Attrs) (a : Attrs) (t : ℤ)
    → ((s : ℕ) → t ≡ pos s → s ≤ 8 → Ends (g (Number.int (pos (least_bytes s))) a))
    → Ends (set_min_size_by g t a)
unfolding set_min_size_by least_of
min_size_Ends g a t h =
    Ensures-bind (counted a.kind t) (λ _ c. go (size_at_least a.min_size t) (is_uint a.kind) c)
  where
    go :
        (b u : Bool)
        → (u ≡ true → (s : ℕ) × (t ≡ pos s) × (s ≤ 8))
        → Ends {A = Attrs} (elim b [
          | true ↦ ok a
          | false ↦ (elim u [ true ↦ g (least_of t) a | false ↦ ok a ]) >>= λ c.
              ok (record c { min_size = some t })
        ])
    go true u c = returns tt
    go false false c = returns tt
    go false true c =
        let (s, e, top) = c refl in
        let inner : Ends (g (least_of t) a) = rw e (h s e top) in
        Ensures-bind inner (λ _ _. returns tt)

least_bytes_lt : (s : ℕ) → s ≤ 8 → least_bytes s < 2 ^ 64
least_bytes_lt s h = elim (up_to_8 s h) [
  | inl e ↦ ground arith
  | inr (inl e) ↦ rw e (omega arith)
  | inr (inr (inl e)) ↦ rw e (omega arith)
  | inr (inr (inr (inl e))) ↦ rw e (omega arith)
  | inr (inr (inr (inr (inl e)))) ↦ rw e (omega arith)
  | inr (inr (inr (inr (inr (inl e))))) ↦ rw e (omega arith)
  | inr (inr (inr (inr (inr (inr (inl e)))))) ↦ rw e (omega arith)
  | inr (inr (inr (inr (inr (inr (inr e)))))) ↦ rw e (omega arith)
]

pub bytes_of-Ends : (x : Number) → Ends (bytes_of x)
unfolding bytes_of
bytes_of-Ends (Number.int n) = returns tt
bytes_of-Ends (Number.float y) = raises Exception.attribute_error

-- `set_min_value` ends where the nested calls end.
min_value_Ends :
    (f : ℕ) (i : Bool) (x : Number) (a : Attrs)
    → ((c : Attrs) (s : ℕ)
        → c.min_value ≡ some x
        → bytes_of x ≡ ok (pos s)
        → s ≤ 8
        → Ends (set_min_value f (Number.int (pos (least_bytes s))) true c))
    → Ends (set_min_value (suc f) x i a)
unfolding set_min_value
min_value_Ends f i x a h =
    go (record a { min_value = some x; min_value_inclusive = i }) refl (at_least a.min_value x)
      (is_integer a.kind)
  where
    go :
        (own : Attrs)
        → own.min_value ≡ some x
        → (b k : Bool)
        → Ends {A = Attrs} (elim b [
          | true ↦ ok a
          | false ↦ elim k [
            | true ↦ bytes_of x >>= λ s. set_min_size_by (λ v c. set_min_value f v true c) s own
            | false ↦ ok own
          ]
        ])
    go own set true k = returns tt
    go own set false false = returns tt
    go own set false true = Ensures-bind (Ensures-self (bytes_of-Ends x)) (λ t counts.
        min_size_Ends (λ v c. set_min_value f v true c) own t
          (λ s e top. h own s set (counts ∙ ap ok e) top))

-- A least number of a size is its own least.
settled :
    (s s' : ℕ) (d : Attrs)
    → s ≤ 8
    → d.min_value ≡ some (Number.int (pos (least_bytes s)))
    → bytes_of (Number.int (pos (least_bytes s))) ≡ ok (pos s')
    → at_least d.min_value (Number.int (pos (least_bytes s'))) ≡ true
unfolding bytes_of number_le
settled s s' d top set counts =
    let same : bytes (least_bytes s) ≡ s' = cc in
    rw (set, ← same)
      (le→leb_ℤ (least_bytes (bytes (least_bytes s))) (least_bytes s)
        (least_bytes_le (least_bytes s) (least_bytes_lt s top)))

-- For any element and bound, `set_min_value` ends with at most three calls of it nested.
pub set_min_value-Ends : (x : Number) (i : Bool) (a : Attrs) → Ends (set_min_value 3 x i a)
set_min_value-Ends x i a = min_value_Ends 2 i x a (λ c s _ _ top.
    min_value_Ends 1 true (Number.int (pos (least_bytes s))) c (λ d s' set counts _.
      let stops =
        set_min_value-stop 0 d (Number.int (pos (least_bytes s'))) true
          (settled s s' d top set counts) in
      rw stops (returns tt)))
