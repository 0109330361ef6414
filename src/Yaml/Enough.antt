-- ===== src/Yaml/Enough.antt =====
-- zcbor/zcbor.py, class DataTranslator: the recursion of `_to_yaml_obj` through byte strings ends.
use zcbor.Prelude.{
  ℕ, zero, suc, ◌+◌, ◌<◌, ◌≤◌, refl, Bool, true, false, length, List, [], ◌∷◌, arith,
}
use zcbor.Outcome.{
  Result, ok, raised, out_of_fuel, Exception, Ends, returns, raises, Ensures, Ensures-bind,
  Ensures-self, Ensures-if, Ensures-ne, ◌>>=◌,
}
use zcbor.Data.{
  Obj, null, undefined, int, float, bool, str, bytes, list, tuple, dict, tag, key_tuple, named,
  Objs, no_objs, objs, Pairs, no_pairs, pair, Fields, no_fields, field,
}
use zcbor.Texts.{hex}
use zcbor.Yaml.{
  Codec, is_str, is_hashable, assign, strict_loads, catch_decode, to_yaml_by, to_objs, to_fields,
  to_pairs, to_yaml_obj,
}
use zcbor.Yaml.Spec.{IsCodec, longest, longest_objs, longest_pairs, longest_fields}

assign-Ends : (k v : Obj) (m : Pairs) → Ends (assign k v m)
unfolding assign
assign-Ends k v m = Ensures-if (is_hashable k) (λ _. returns tt) (λ _. raises Exception.type_error)

pick-Ends :
    {A : Type 0} (b : Bool) {r s : Result A}
    → Ends r
    → Ends s
    → Ends (elim b [ true ↦ r | false ↦ s ])
pick-Ends true p q = p
pick-Ends false p q = q

module _ (codec : Codec) (laws : IsCodec codec) (ends : (b : List ℕ) → Ends (codec.decode b)) where
  -- What is decoded is below the length of the bytes.
  strict_loads-Ensures : (b : List ℕ) → Ensures (λ x. longest x < length b) (strict_loads codec b)
  unfolding strict_loads
  strict_loads-Ensures b =
      Ensures-bind (Ensures-self (ends b))
        (λ p decoded. whole p.0 p.1 (laws.shorter b p.1 p.0 decoded))
    where
      whole :
          (x : Obj) (r : List ℕ)
          → longest x < length b
          → Ensures
              (λ y. longest y < length b)
              (elim r [ [] ↦ ok x | _ ∷ _ ↦ raised Exception.decode_error ])
      whole x [] h = returns h
      whole x (c ∷ r) h = raises Exception.decode_error

  catch-Ends : (r : Result Obj) (other : Obj) → Ends r → Ends (catch_decode codec r other)
  catch-Ends (ok x) other h = returns tt
  catch-Ends (raised Exception.decode_error) other h = returns tt
  catch-Ends (raised e) other h = raises e
  catch-Ends out_of_fuel other h = absurd (Ensures-ne h refl)

  module _ (n : ℕ) (inner : Obj → Result Obj)
      (below : (x : Obj) → longest x < n → Ends (inner x)) where
    mutual
      unfolding to_yaml_by longest

      by-Ends : (x : Obj) → longest x ≤ n → Ends (to_yaml_by codec inner x)
      by-Ends (list xs) h = Ensures-bind (objs-Ends xs h) (λ _ _. returns tt)
      by-Ends (tuple xs) h = Ensures-bind (objs-Ends xs h) (λ _ _. returns tt)
      by-Ends (key_tuple k v) h =
          Ensures-bind (by-Ends k (omega arith))
            (λ _ _. Ensures-bind (by-Ends v (omega arith)) (λ _ _. returns tt))
      by-Ends (named fs) h = Ensures-bind (fields-Ends fs h) (λ _ _. returns tt)
      by-Ends (dict m) h = Ensures-bind (pairs-Ends m 0 no_pairs h) (λ _ _. returns tt)
      by-Ends (bytes b) h =
          Ensures-bind
            (catch-Ends (strict_loads codec b >>= inner) (str (hex b))
              (Ensures-bind (strict_loads-Ensures b) (λ x l. below x (omega arith))))
            (λ _ _. returns tt)
      by-Ends (tag m x) h = Ensures-bind (by-Ends x h) (λ _ _. returns tt)
      by-Ends undefined h = returns tt
      by-Ends null h = returns tt
      by-Ends (int m) h = returns tt
      by-Ends (float m) h = returns tt
      by-Ends (bool m) h = returns tt
      by-Ends (str m) h = returns tt

      objs-Ends : (xs : Objs) → longest_objs xs ≤ n → Ends (to_objs codec inner xs)
      objs-Ends no_objs h = returns tt
      objs-Ends (objs x xs) h =
          Ensures-bind (by-Ends x (omega arith))
            (λ _ _. Ensures-bind (objs-Ends xs (omega arith)) (λ _ _. returns tt))

      fields-Ends : (fs : Fields) → longest_fields fs ≤ n → Ends (to_fields codec inner fs)
      fields-Ends no_fields h = returns tt
      fields-Ends (field l x fs) h =
          Ensures-bind (by-Ends x (omega arith))
            (λ _ _. Ensures-bind (fields-Ends fs (omega arith)) (λ _ _. returns tt))

      pairs-Ends :
          (m : Pairs) (i : ℕ) (r : Pairs) → longest_pairs m ≤ n → Ends (to_pairs codec inner m i r)
      pairs-Ends no_pairs i r h = returns tt
      pairs-Ends (pair k v m) i r h =
          pick-Ends (is_str k)
            (Ensures-bind (by-Ends v (omega arith))
              (λ v' _. Ensures-bind (assign-Ends k v' r) (λ r' _. pairs-Ends m i r' (omega arith))))
            (Ensures-bind (by-Ends k (omega arith)) (λ _ _.
              Ensures-bind (by-Ends v (omega arith)) (λ _ _.
                Ensures-bind (assign-Ends _ _ r) (λ r' _. pairs-Ends m (i + 1) r' (omega arith)))))

-- Where the decoder of cbor2 ends, and the byte strings it returns are shorter than its bytes,
-- `_to_yaml_obj` ends, with fuel from the length of the longest byte string on.
pub to_yaml_obj-Ends :
    (codec : Codec)
    → IsCodec codec
    → ((b : List ℕ) → Ends (codec.decode b))
    → (f : ℕ) (x : Obj) → longest x ≤ f
    → Ends (to_yaml_obj codec f x)
unfolding to_yaml_obj
to_yaml_obj-Ends codec laws ends zero x h =
    by-Ends codec laws ends zero (λ _. out_of_fuel) (λ y l. absurd (omega arith)) x h
to_yaml_obj-Ends codec laws ends (suc f) x h =
    by-Ends codec laws ends (suc f) (to_yaml_obj codec f)
      (λ y l. to_yaml_obj-Ends codec laws ends f y (omega arith)) x h
