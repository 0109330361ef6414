-- ===== src/Operators/Marks.antt =====
-- zcbor/zcbor.py, class CddlParser: the methods that give an element a label, a key, a quantifier, a tag,
-- contents or bits, once the text of these has been parsed.
use zcbor.Prelude.{
  Bool, if◌then◌else◌, ℕ, zero, suc, ◌≤◌, ◌≡◌, ◌↔◌, String, not, true, Option, none, some, [], ◌∷◌,
  ◌++◌, arith,
}
use zcbor.Outcome.{Result, ok, Exception, require, first_returns, ◌>>=◌, ◌>>◌}
use zcbor.Elem.{attrs, Kind, Attrs, Elem, elem, present, kind, reference, is_present}
use zcbor.Unambiguous.{is_other}
use zcbor.Conditions.{is_uint}
use zcbor.Bounds.{add_modifier}
use zcbor.Counts.Spec.{AtMost}
use zcbor.PostValidate.{is_bstr, is_group_kind}
use zcbor.Flatten.{put_modifier}
use zcbor.Operators.{same_kind}

unfoldable pub set_label : String → Elem → Result Elem
set_label label (elem a v k c d) = do
  require Exception.parsing_error (same_kind a.kind Kind.untyped)
  ok (elem (record a { label = some label }) v k c d)

unfoldable pub set_cbor : Elem → Elem → Result Elem
set_cbor contents (elem a v k c d) = do
  require Exception.parsing_error (is_bstr a.kind)
  ok (elem a v k (present contents) d)

unfoldable pub set_cborseq : Elem → Elem → Result Elem
set_cborseq (elem b w k' c' d') e = set_cbor (elem (record b { max_qty = none }) w k' c' d') e

-- `bits` is kept by the name of the type.
unfoldable pub set_bits : Elem → Elem → Result Elem
set_bits names (elem a v k c d) = do
  require Exception.parsing_error (is_uint a.kind)
  require Exception.parsing_error (is_other (kind names))
  ok (elem (record a { bits = some (reference names) }) v k c d)

-- `key` is what `parse_one` has returned.
unfoldable pub set_key : Elem → Elem → Result Elem
set_key (elem b w k' c' d') (elem a v k c d) = do
  require Exception.parsing_error (not (is_present k))
  require Exception.parsing_error (not (is_group_kind b.kind))
  a' ← add_modifier "key" a
  ok (elem a' v (present (elem (record b { is_key = true }) w k' c' d')) c d)

-- `known` tells the names in `my_types`, and `key` is what `parse_one` returns for the text.
unfoldable pub set_key_or_label : (String → Bool) → String → Elem → Elem → Result Elem
set_key_or_label known key_or_label key e =
    if known key_or_label
    then (set_key key e >>= λ e'.
        require Exception.assertion_error (is_other (kind key))
        >> (elim (attrs e').label [ none ↦ set_label key_or_label e' | some l ↦ ok e' ]))
    else set_label key_or_label e

unfoldable pub add_tag : ℕ → Elem → Elem
add_tag tag (elem a v k c d) =
    let b = put_modifier "tag" a in elem (record b { tags = b.tags ++ tag ∷ [] }) v k c d

-- "?", "*", "+", and two numbers around "*" or "**", of which the second may be missing.
pub data Quantifier : Type 0 where
  maybe any_number at_least_one : Quantifier
  between : ℕ → Option ℕ → Quantifier

-- `int(...) or None`.
abbrev pub limit_of : Option ℕ → Option ℕ
limit_of none = none
limit_of (some zero) = none
limit_of (some (suc n)) = some (suc n)

abbrev pub least_qty : Quantifier → ℕ
least_qty maybe = 0
least_qty any_number = 0
least_qty at_least_one = 1
least_qty (between low high) = low

abbrev pub greatest_qty : Quantifier → Option ℕ
greatest_qty maybe = some 1
greatest_qty any_number = none
greatest_qty at_least_one = none
greatest_qty (between low high) = limit_of high

unfoldable pub set_quantifier : Quantifier → Attrs → Result Attrs
set_quantifier q a = do
  require Exception.parsing_error (same_kind a.kind Kind.untyped)
  b ← add_modifier "quantifier" a
  ok (record b { min_qty = least_qty q; max_qty = greatest_qty q })

-- The numbers of occurrences that CDDL gives to a quantifier.
abbrev pub Allows : Quantifier → ℕ → Type 0
Allows maybe n = n ≤ 1
Allows any_number n = Unit
Allows at_least_one n = 1 ≤ n
Allows (between low high) n = (low ≤ n) × AtMost n high

abbrev pub IsZeroLimit : Quantifier → Type 0
IsZeroLimit (between low (some zero)) = Unit
IsZeroLimit q = ⊥

abbrev pub Within : Attrs → ℕ → Type 0
Within a n = (a.min_qty ≤ n) × AtMost n a.max_qty

allows :
    (q : Quantifier) (n : ℕ)
    → (IsZeroLimit q → ⊥)
    → Allows q n ↔ ((least_qty q ≤ n) × AtMost n (greatest_qty q))
allows maybe n z = (λ h. (omega arith, h), λ h. h.1)
allows any_number n z = (λ h. (omega arith, tt), λ h. tt)
allows at_least_one n z = (λ h. (h, tt), λ h. h.0)
allows (between low none) n z = (λ h. h, λ h. h)
allows (between low (some zero)) n z = absurd (z tt)
allows (between low (some (suc m))) n z = (λ h. h, λ h. h)

-- Where `set_quantifier` returns, and the quantifier does not end in 0, the element may occur as often
-- as its quantifier allows.
pub set_quantifier-Allows :
    (q : Quantifier) (a b : Attrs) (n : ℕ)
    → (IsZeroLimit q → ⊥)
    → set_quantifier q a ≡ ok b
    → Allows q n ↔ Within b n
unfolding set_quantifier
set_quantifier-Allows q a b n z h =
    let (u, typed, h1) =
      first_returns (require Exception.parsing_error (same_kind a.kind Kind.untyped)) _ h in
    let (x, added, h2) = first_returns (add_modifier "quantifier" a) _ h1 in
    let e : b ≡ record x { min_qty = least_qty q; max_qty = greatest_qty q } = cc in
    rw e (allows q n z)

-- Where `set_quantifier` returns for a quantifier that ends in 0, every number of occurrences from the
-- first number of the quantifier on is allowed.
pub zero_limit_opens :
    (low n : ℕ) (a b : Attrs)
    → set_quantifier (between low (some 0)) a ≡ ok b
    → Within b n ↔ (low ≤ n)
unfolding set_quantifier
zero_limit_opens low n a b h =
    let (u, typed, h1) =
      first_returns (require Exception.parsing_error (same_kind a.kind Kind.untyped)) _ h in
    let (x, added, h2) = first_returns (add_modifier "quantifier" a) _ h1 in
    let e : b ≡ record x { min_qty = low; max_qty = none } = cc in rw e (λ h. h.0, λ h. (h, tt))
