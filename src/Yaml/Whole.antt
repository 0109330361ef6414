-- ===== src/Yaml/Whole.antt =====
-- zcbor/zcbor.py, class DataTranslator: what `_to_yaml_obj` writes is read back, for whole objects.
use zcbor.Prelude.{
  ℕ, zero, suc, ◌+◌, ◌<◌, ◌≤◌, ◌≡◌, refl, sym, ap, ◌∙◌, length, String, Bool, true, false, List, [],
  ◌∷◌, arith,
}
use zcbor.Outcome.{Result, ok, raised, out_of_fuel, Exception, first_returns}
use zcbor.Data.{Obj, str, list, tuple, dict, Objs, no_objs, objs, Pairs, no_pairs, pair}
use zcbor.Yaml.{
  Codec, is_str, is_text, is_hashable, all_hashable, is_mark, as_key, keyval_name, from_yaml_obj,
  from_objs, from_pairs, strict_loads, to_yaml_by, to_objs, to_pairs, to_yaml_obj,
}
use zcbor.Yaml.Spec.{
  IsCodec, longest, longest_objs, longest_pairs, clashes, Kept, scalar, as_hex, as_object,
  kept_list, kept_tag, kept_dict, KeptObjs, none_left, one_kept, KeptPairs, no_items, one_item,
  text_key, value_key, tuple_key,
}
use zcbor.Yaml.Dicts.{
  join, join_one, join-empty, assign-Absent, Apart-Absent, Apart-next, Room-Absent_text,
  Room-Absent_name, Room-text, Room-name, str_ne, not_keyval,
}
use zcbor.Yaml.Back.{
  Back, same_end, same_key, is_empty, BackObjs, BackPairs, BackKey, scalar-Back, hex-Back,
  object-Back, list-Back, tag-Back, dict-Back,
}

module _ (codec : Codec) (laws : IsCodec codec) (can : Bool) (inner : Obj → Result Obj) where
  is_mark-eq :
      (x y : Obj) (xs ys : Objs)
      → is_text "zcbor_undefined" x ≡ is_text "zcbor_undefined" y
      → is_empty codec laws can xs ≡ is_empty codec laws can ys
      → is_mark (objs x xs) ≡ is_mark (objs y ys)
  is_mark-eq x y no_objs no_objs p q = p
  is_mark-eq x y (objs a xs) (objs b ys) p q = refl
  is_mark-eq x y no_objs (objs b ys) p q = cc
  is_mark-eq x y (objs a xs) no_objs p q = cc

  no_objs-BackObjs : BackObjs codec laws can (to_objs codec inner) no_objs
  unfolding to_yaml_by from_yaml_obj
  no_objs-BackObjs = record {
    images = no_objs;
    written = refl;
    read = refl;
    same_mark = refl;
    same_end = refl;
  }

  objs-BackObjs :
      (x : Obj) (xs : Objs)
      → Back codec laws can (to_yaml_by codec inner) x
      → BackObjs codec laws can (to_objs codec inner) xs
      → BackObjs codec laws can (to_objs codec inner) (objs x xs)
  unfolding to_yaml_by from_yaml_obj
  objs-BackObjs x xs one rest = record {
    images = objs one.image rest.images;
    written = rw (to_objs, one.written, rest.written) refl;
    read = rw (from_objs, one.read, rest.read) refl;
    same_mark =
        is_mark-eq one.image x rest.images xs (one.same_text "zcbor_undefined") rest.same_end;
    same_end = refl;
  }

  no_pairs-BackPairs : (i : ℕ) → BackPairs codec laws can (to_pairs codec inner) no_pairs i
  unfolding to_yaml_by from_yaml_obj
  no_pairs-BackPairs i = record {
    images = no_pairs;
    written = λ r a. ap ok (sym (join-empty r));
    read = λ r a. ap ok (sym (join-empty r));
    keys = same_end;
  }

  -- An item with a text for a key.
  text-Back :
      (s : String) (v : Obj) (m : Pairs) (i : ℕ)
      → codec.is_keyval s ≡ false
      → clashes (str s) m ≡ false
      → Back codec laws can (to_yaml_by codec inner) v
      → BackPairs codec laws can (to_pairs codec inner) m i
      → BackPairs codec laws can (to_pairs codec inner) (pair (str s) v m) i
  unfolding to_yaml_by from_yaml_obj is_hashable
  text-Back s v m i p c one rest = record {
    images = pair (str s) one.image rest.images;
    written = λ r a.
        rw
          (
            to_pairs,
            one.written,
            assign-Absent (str s) one.image r refl (Room-Absent_text r m i s v a),
          )
          (rest.written (join r (pair (str s) one.image no_pairs))
              (Room-text codec laws can r m i s v one.image a c p)
            ∙ ap ok (join_one r rest.images (str s) one.image));
    read = λ r a.
        rw (from_pairs, p, one.read, assign-Absent (str s) v r refl (Apart-Absent r m (str s) v a))
          (rest.read (join r (pair (str s) v no_pairs)) (Apart-next r m (str s) v v a c)
            ∙ ap ok (join_one r m (str s) v));
    keys = same_key (λ t q h. h) rest.keys;
  }

  -- An item with another key, which becomes a value of a "zcbor_keyval".
  value-Back :
      (k v : Obj) (m : Pairs) (i : ℕ)
      → is_str k ≡ false
      → clashes k m ≡ false
      → KeptPairs codec can m
      → BackKey codec laws can (to_yaml_by codec inner) k
      → Back codec laws can (to_yaml_by codec inner) v
      → BackPairs codec laws can (to_pairs codec inner) m (i + 1)
      → BackPairs codec laws can (to_pairs codec inner) (pair k v m) i
  unfolding to_yaml_by from_yaml_obj is_hashable
  value-Back k v m i p c kept key one rest =
      let entry : Obj = dict (pair (str "key") key.image (pair (str "val") one.image no_pairs)) in
      let name : Obj = str (keyval_name i) in
      record {
        images = pair name entry rest.images;
        written = λ r a.
            rw
              (
                to_pairs,
                p,
                key.written,
                one.written,
                assign-Absent name entry r refl (Room-Absent_name r (pair k v m) i a),
              )
              (rest.written (join r (pair name entry no_pairs))
                  (Room-name codec laws can r m i k v entry a kept)
                ∙ ap ok (join_one r rest.images name entry));
        read = λ r a.
            rw
              (
                from_pairs,
                laws.keyvals i,
                key.read,
                one.read,
                key.key,
                assign-Absent k v r key.hashed (Apart-Absent r m k v a),
              )
              (rest.read (join r (pair k v no_pairs)) (Apart-next r m k v v a c)
                ∙ ap ok (join_one r m k v));
        keys =
            same_key (λ t q h. str_ne (keyval_name i) t (not_keyval codec laws can t i q).0)
              rest.keys;
      }

  as_key-hashable : (k : Obj) → is_hashable k ≡ true → as_key k ≡ k
  unfolding is_hashable
  as_key-hashable (list xs) h = cc
  as_key-hashable k h = refl

  value_key-BackKey :
      (k : Obj)
      → is_hashable k ≡ true
      → Back codec laws can (to_yaml_by codec inner) k
      → BackKey codec laws can (to_yaml_by codec inner) k
  value_key-BackKey k h back = record {
    image = back.image;
    value = k;
    written = back.written;
    read = back.read;
    key = as_key-hashable k h;
    hashed = h;
  }

  tuple_key-BackKey :
      (xs : Objs)
      → is_mark xs ≡ false
      → all_hashable xs ≡ true
      → BackObjs codec laws can (to_objs codec inner) xs
      → BackKey codec laws can (to_yaml_by codec inner) (tuple xs)
  unfolding to_yaml_by from_yaml_obj is_hashable
  tuple_key-BackKey xs h hashed back = record {
    image = list back.images;
    value = list xs;
    written = rw (to_yaml_by, back.written) refl;
    read = rw (from_yaml_obj, back.same_mark ∙ h, back.read) refl;
    key = refl;
    hashed = hashed;
  }

  module _ (n : ℕ)
      (below : (x : Obj) → Kept codec can x → longest x < n → Back codec laws can inner x) where
    bytes_below :
        (b : List ℕ) (x : Obj) → strict_loads codec b ≡ ok x → length b ≤ n → longest x < n
    unfolding strict_loads
    bytes_below b x h le =
        let (p, decoded, rest) = first_returns (codec.decode b) _ h in
        let e : p.0 ≡ x = whole p.0 p.1 rest in
        let less = laws.shorter b p.1 p.0 decoded in rw (← e) (omega arith)
      where
        whole :
            (y : Obj) (r : List ℕ)
            → (elim r [ [] ↦ ok y | _ ∷ _ ↦ raised Exception.decode_error ]) ≡ ok x
            → y ≡ x
        whole y [] h = cc
        whole y (c ∷ r) h = cc

    mutual
      unfolding longest

      all-Back :
          {x : Obj}
          → Kept codec can x
          → longest x ≤ n
          → Back codec laws can (to_yaml_by codec inner) x
      all-Back {x} (scalar p) h = scalar-Back codec laws can inner x p
      all-Back (as_hex {b} p q) h = hex-Back codec laws can inner b p q
      all-Back (as_object {b} {x} p q kept r) h =
          object-Back codec laws can inner b x p q r (below x kept (bytes_below b x p h))
      all-Back (kept_list {xs} p ks) h =
          list-Back codec laws can inner xs p (all_objs-BackObjs ks h)
      all-Back (kept_tag {n = m} {x} p k) h =
          tag-Back codec laws can inner m x (laws.tags m x p) (all-Back k h)
      all-Back (kept_dict {m} p ks) h =
          dict-Back codec laws can inner m p (all_pairs-BackPairs ks 0 h)

      all_objs-BackObjs :
          {xs : Objs}
          → KeptObjs codec can xs
          → longest_objs xs ≤ n
          → BackObjs codec laws can (to_objs codec inner) xs
      all_objs-BackObjs none_left h = no_objs-BackObjs
      all_objs-BackObjs (one_kept {x} {xs} k ks) h =
          objs-BackObjs x xs (all-Back k (omega arith)) (all_objs-BackObjs ks (omega arith))

      all_pairs-BackPairs :
          {m : Pairs}
          → KeptPairs codec can m
          → (i : ℕ) → longest_pairs m ≤ n
          → BackPairs codec laws can (to_pairs codec inner) m i
      all_pairs-BackPairs no_items i h = no_pairs-BackPairs i
      all_pairs-BackPairs (one_item {v = v} {m} (text_key {s} p) k c ks) i h =
          text-Back s v m i p c (all-Back k (omega arith)) (all_pairs-BackPairs ks i (omega arith))
      all_pairs-BackPairs (one_item {v = v} {m} (value_key {k = key} p q r) k c ks) i h =
          value-Back key v m i p c ks (value_key-BackKey key q (all-Back r (omega arith)))
            (all-Back k (omega arith)) (all_pairs-BackPairs ks (i + 1) (omega arith))
      all_pairs-BackPairs (one_item {v = v} {m} (tuple_key {xs} p q r) k c ks) i h =
          value-Back (tuple xs) v m i refl c ks
            (tuple_key-BackKey xs p q (all_objs-BackObjs r (omega arith)))
            (all-Back k (omega arith)) (all_pairs-BackPairs ks (i + 1) (omega arith))

to_yaml_obj-Back :
    (codec : Codec) (laws : IsCodec codec) (can : Bool) (f : ℕ) (x : Obj)
    → Kept codec can x
    → longest x ≤ f
    → Back codec laws can (to_yaml_obj codec f) x
unfolding to_yaml_obj
to_yaml_obj-Back codec laws can zero x k h =
    all-Back codec laws can (λ _. out_of_fuel) zero (λ y _ l. absurd (omega arith)) k h
to_yaml_obj-Back codec laws can (suc f) x k h =
    all-Back codec laws can (to_yaml_obj codec f) (suc f)
      (λ y ky l. to_yaml_obj-Back codec laws can f y ky (omega arith)) k h

-- An object that is not taken for another one is written as YAML or JSON, with fuel from the length of its
-- longest byte string on, and what is written is read back as the same object.
pub from_yaml_obj-to_yaml_obj :
    (codec : Codec) (laws : IsCodec codec) (can : Bool) (f : ℕ) (x : Obj)
    → Kept codec can x
    → longest x ≤ f
    → (y : Obj) × (to_yaml_obj codec f x ≡ ok y) × (from_yaml_obj codec can y ≡ ok x)
from_yaml_obj-to_yaml_obj codec laws can f x k h =
    let back = to_yaml_obj-Back codec laws can f x k h in (back.image, back.written, back.read)
