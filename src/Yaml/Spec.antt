-- ===== src/Yaml/Spec.antt =====
-- The objects that zcbor/zcbor.py can write as YAML or JSON and read back, and what is relied on of cbor2 and
-- of the pattern of a "zcbor_keyval".
use zcbor.Prelude.{ℕ, ◌^◌, ◌<◌, ◌≡◌, pos, max, length, String, Bool, true, false, ◌||◌, All, List}
use zcbor.Outcome.{ok, raised, Exception}
use zcbor.Data.{
  Obj, null, undefined, int, float, bool, str, bytes, list, tuple, dict, tag, key_tuple, named,
  Objs, no_objs, objs, Pairs, no_pairs, pair, Fields, no_fields, field,
}
use zcbor.Yaml.{
  Codec, shape, plain, is_mark, is_str, keyval_name, key_eq, is_hashable, all_hashable,
  strict_loads,
}

-- The length of the longest byte string.
unfoldable mutual
  pub longest : Obj → ℕ
  longest (bytes b) = length b
  longest (list xs) = longest_objs xs
  longest (tuple xs) = longest_objs xs
  longest (dict m) = longest_pairs m
  longest (tag n x) = longest x
  longest (key_tuple k v) = max (longest k) (longest v)
  longest (named fs) = longest_fields fs
  longest obj = 0

  pub longest_objs : Objs → ℕ
  longest_objs no_objs = 0
  longest_objs (objs x xs) = max (longest x) (longest_objs xs)

  pub longest_pairs : Pairs → ℕ
  longest_pairs no_pairs = 0
  longest_pairs (pair k v m) = max (longest k) (max (longest v) (longest_pairs m))

  pub longest_fields : Fields → ℕ
  longest_fields no_fields = 0
  longest_fields (field n x fs) = max (longest x) (longest_fields fs)

-- A byte string that is decoded is shorter than the bytes it comes from; a tag of 64 bits can be made;
-- "zcbor_keyval" with a number matches the pattern, and the three other names do not.
pub record IsCodec (codec : Codec) : Type 0 where
  pub shorter : (b rest : List ℕ) (x : Obj) → codec.decode b ≡ ok (x, rest) → longest x < length b
  pub tags : (n : ℕ) (x : Obj) → n < 2 ^ 64 → codec.make_tag (int (pos n)) x ≡ ok (tag n x)
  pub keyvals : (i : ℕ) → codec.is_keyval (keyval_name i) ≡ true
  pub not_bstr : codec.is_keyval "zcbor_bstr" ≡ false
  pub not_tag : codec.is_keyval "zcbor_tag" ≡ false
  pub not_tag_val : codec.is_keyval "zcbor_tag_val" ≡ false

-- Another key of the dictionary is the same.
unfoldable pub clashes : Obj → Pairs → Bool
clashes k no_pairs = false
clashes k (pair j v m) = key_eq k j || clashes k m

abbrev pub is_scalar : Obj → Bool
is_scalar null = true
is_scalar undefined = true
is_scalar (int n) = true
is_scalar (float x) = true
is_scalar (bool b) = true
is_scalar (str s) = true
is_scalar obj = false

module _ (codec : Codec) (can : Bool) where
  -- The object is not taken for another one. A byte string is no CBOR, or it is the encoding of an object
  -- that is no text; no list is the mark of "undefined", no dictionary that of a byte string or a tag,
  -- no key is a "zcbor_keyval" with a number. Tuples are keys only, and hold no tuple.
  mutual
    pub data Kept : Obj → Type 0 where
      scalar : {obj : Obj} → is_scalar obj ≡ true → Kept obj
      as_hex :
          {b : List ℕ}
          → All (λ n. n < 256) b
          → strict_loads codec b ≡ raised Exception.decode_error
          → Kept (bytes b)
      as_object :
          {b : List ℕ} {x : Obj}
          → strict_loads codec b ≡ ok x
          → is_str x ≡ false
          → Kept x
          → codec.dumps can x ≡ ok b
          → Kept (bytes b)
      kept_list : {xs : Objs} → is_mark xs ≡ false → KeptObjs xs → Kept (list xs)
      kept_tag : {n : ℕ} {x : Obj} → n < 2 ^ 64 → Kept x → Kept (tag n x)
      kept_dict : {m : Pairs} → shape m ≡ plain → KeptPairs m → Kept (dict m)

    pub data KeptObjs : Objs → Type 0 where
      none_left : KeptObjs no_objs
      one_kept : {x : Obj} {xs : Objs} → Kept x → KeptObjs xs → KeptObjs (objs x xs)

    pub data KeptPairs : Pairs → Type 0 where
      no_items : KeptPairs no_pairs
      one_item :
          {k v : Obj} {m : Pairs}
          → KeptKey k
          → Kept v
          → clashes k m ≡ false
          → KeptPairs m
          → KeptPairs (pair k v m)

    pub data KeptKey : Obj → Type 0 where
      text_key : {s : String} → codec.is_keyval s ≡ false → KeptKey (str s)
      value_key : {k : Obj} → is_str k ≡ false → is_hashable k ≡ true → Kept k → KeptKey k
      tuple_key :
          {xs : Objs}
          → is_mark xs ≡ false
          → all_hashable xs ≡ true
          → KeptObjs xs
          → KeptKey (tuple xs)
