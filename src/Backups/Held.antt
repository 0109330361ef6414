-- ===== src/Backups/Held.antt =====
-- zcbor/zcbor.py, class CodeGenerator: the backups that are held at the same time, against `num_backups`.
use zcbor.Prelude.{ℕ, zero, suc, ◌+◌, max, ◌≤◌, ◌≡◌, Bool, true, arith, if◌then◌else◌}
use zcbor.Outcome.{Result, ok, first_returns, ◌>>=◌}
use zcbor.Elem.{Elem, Elems, no_elems, elems, present, Cddl, key, cbor, kind, children, resolve}
use zcbor.Unambiguous.{is_other}
use zcbor.PostValidate.{is_parent}
use zcbor.Translator.Spec.{Among, here, there}
use zcbor.Backups.{
  num_backups_self, slot_backups, cbor_backups, most_backups, num_backups_by, num_backups,
}

module _ (cddl : Cddl) (cbor_var multi_decode : Elem → Result Bool) where
  -- `e` is coded in the course of coding the element: as its key, in its byte string, as a member, or as
  -- the type that it refers to.
  pub data Inside : Elem → Elem → Type 0 where
    as_key : {e k : Elem} → key e ≡ present k → Inside e k
    as_contents : {e c : Elem} → cbor_var e ≡ ok true → cbor e ≡ present c → Inside e c
    as_member : {e c : Elem} → is_parent (kind e) ≡ true → Among c (children e) → Inside e c
    as_type : {e t : Elem} → is_other (kind e) ≡ true → resolve cddl e ≡ ok t → Inside e t

  -- The backups of an element, and of elements each inside the one before, that are held at the same time.
  pub data Held : Elem → ℕ → Type 0 where
    own : {e : Elem} {n : ℕ} → num_backups_self cddl cbor_var multi_decode e ≡ ok n → Held e n
    and_inside :
        {e x : Elem} {n m : ℕ}
        → num_backups_self cddl cbor_var multi_decode e ≡ ok n
        → Inside e x
        → Held x m
        → Held e (n + m)

  module _ (below : Elem → Result ℕ) where
    most-Among :
        {c : Elem} {cs : Elems} {n : ℕ}
        → Among c cs
        → most_backups cddl cbor_var multi_decode below cs ≡ ok n
        → (m : ℕ) × (below c ≡ ok m) × (m ≤ n)
    unfolding most_backups
    most-Among {cs = no_elems} a h = elim a [ ]
    most-Among {c} {cs = elems d cs} {n} here h =
        let (m, p, h1) = first_returns (below d) _ h in
        let (r, q, h2) = first_returns (most_backups cddl cbor_var multi_decode below cs) _ h1 in
        let e : n ≡ max m r = cc in (m, p, rw (e) (omega arith))
    most-Among {c} {cs = elems d cs} {n} (there a) h =
        let (m, p, h1) = first_returns (below d) _ h in
        let (r, q, h2) = first_returns (most_backups cddl cbor_var multi_decode below cs) _ h1 in
        let (k, u, l) = most-Among a q in let e : n ≡ max m r = cc in (k, u, rw (e) (omega arith))

    -- The summands of `num_backups`.
    record Summands (e : Elem) (total : ℕ) : Type 0 where
      in_key : ℕ
      has_cbor : Bool
      in_cbor : ℕ
      in_members : ℕ
      in_type : ℕ
      alone : ℕ
      key_eq : slot_backups cddl cbor_var multi_decode below (key e) ≡ ok in_key
      has_eq : cbor_var e ≡ ok has_cbor
      cbor_eq : cbor_backups cddl cbor_var multi_decode below has_cbor (cbor e) ≡ ok in_cbor
      members_eq :
          (if is_parent (kind e)
            then most_backups cddl cbor_var multi_decode below (children e)
            else ok 0)
          ≡ ok in_members
      type_eq : (if is_other (kind e) then (resolve cddl e >>= below) else ok 0) ≡ ok in_type
      alone_eq : num_backups_self cddl cbor_var multi_decode e ≡ ok alone
      total_eq : in_key + in_cbor + in_members + in_type + alone ≡ total

    num_backups_by-Summands :
        (e : Elem) (total : ℕ)
        → num_backups_by cddl cbor_var multi_decode below e ≡ ok total
        → Summands e total
    unfolding num_backups_by
    num_backups_by-Summands e total h =
        let (in_key, key_eq, h1) =
          first_returns (slot_backups cddl cbor_var multi_decode below (key e)) _ h in
        let (has_cbor, has_eq, h2) = first_returns (cbor_var e) _ h1 in
        let (in_cbor, cbor_eq, h3) =
          first_returns (cbor_backups cddl cbor_var multi_decode below has_cbor (cbor e)) _ h2 in
        let (in_members, members_eq, h4) =
          first_returns
            (if is_parent (kind e)
              then most_backups cddl cbor_var multi_decode below (children e)
              else ok 0)
            _ h3 in
        let (in_type, type_eq, h5) =
          first_returns (if is_other (kind e) then (resolve cddl e >>= below) else ok 0) _ h4 in
        let (alone, alone_eq, h6) =
          first_returns (num_backups_self cddl cbor_var multi_decode e) _ h5 in
        record {
          in_key = in_key;
          has_cbor = has_cbor;
          in_cbor = in_cbor;
          in_members = in_members;
          in_type = in_type;
          alone = alone;
          key_eq = key_eq;
          has_eq = has_eq;
          cbor_eq = cbor_eq;
          members_eq = members_eq;
          type_eq = type_eq;
          alone_eq = alone_eq;
          total_eq = cc;
        }

    -- What is inside needs no more than is added for it.
    inside-le :
        {e x : Elem} {total : ℕ} (s : Summands e total)
        → Inside e x
        → (m : ℕ) × (below x ≡ ok m) × (m + s.alone ≤ total)
    unfolding slot_backups cbor_backups
    inside-le s (as_key p) = (s.in_key, rw p at s.key_eq, omega (arith, s.total_eq))
    inside-le s (as_contents p q) =
        let b : s.has_cbor ≡ true = cc (s.has_eq, p) in
        (s.in_cbor, rw (b, q) at s.cbor_eq, omega (arith, s.total_eq))
    inside-le s (as_member p a) =
        let (m, q, l) = most-Among a (rw p at s.members_eq) in (m, q, omega (arith, s.total_eq))
    inside-le s (as_type p q) = (s.in_type, rw (p, q) at s.type_eq, omega (arith, s.total_eq))

  pub Held-le :
      (f : ℕ) {e : Elem} {n total : ℕ}
      → Held e n
      → num_backups cddl cbor_var multi_decode f e ≡ ok total
      → n ≤ total
  unfolding num_backups
  Held-le zero h p = cc
  Held-le (suc f) {e} {n} {total} (own p) q =
      let s = num_backups_by-Summands (num_backups cddl cbor_var multi_decode f) e total q in
      let same : n ≡ s.alone = cc (p, s.alone_eq) in omega (arith, s.total_eq)
  Held-le (suc f) {e} {total = total} (and_inside {n = n} p i h) q =
      let s = num_backups_by-Summands (num_backups cddl cbor_var multi_decode f) e total q in
      let (k, r, l) = inside-le (num_backups cddl cbor_var multi_decode f) s i in
      let same : n ≡ s.alone = cc (p, s.alone_eq) in let le = Held-le f h r in omega arith
