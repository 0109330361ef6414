-- ===== src/Yaml/Back.antt =====
-- zcbor/zcbor.py, class DataTranslator: `_from_yaml_obj` takes back what `_to_yaml_obj` does to one level of
-- byte strings.
use zcbor.Prelude.{
  ℕ, ◌<◌, ◌≡◌, refl, ap, ◌∙◌, All, pos, String, Bool, true, false, ◌&&◌, if◌then◌else◌, List,
}
use zcbor.Outcome.{Result, ok, raised, Exception, ◌>>=◌}
use zcbor.Data.{
  Obj, null, undefined, int, float, bool, str, bytes, list, dict, tag, Objs, no_objs, objs, Pairs,
  no_pairs, pair,
}
use zcbor.Texts.{hex}
use zcbor.Texts.Exact.{from_hex-hex}
use zcbor.Yaml.{
  Codec, is_str, is_text, is_hashable, bstr, tagged, plain, shape, is_mark, as_key, bstr_of,
  from_yaml_obj, from_objs, from_pairs, strict_loads, to_yaml_by, to_objs, to_pairs,
}
use zcbor.Yaml.Spec.{IsCodec, is_scalar}
use zcbor.Yaml.Dicts.{join, Apart, Room}

module _ (codec : Codec) (laws : IsCodec codec) (can : Bool) where
  -- The object is written, read back, and not taken for a text.
  pub record Back (to : Obj → Result Obj) (x : Obj) : Type 0 where
    pub image : Obj
    pub written : to x ≡ ok image
    pub read : from_yaml_obj codec can image ≡ ok x
    pub same_str : is_str image ≡ is_str x
    pub same_text : (t : String) → is_text t image ≡ is_text t x

  -- A key of the image: the same text, or the name of a "zcbor_keyval".
  abbrev pub KeyOf : Obj → Obj → Type 0
  KeyOf k l = (t : String) → codec.is_keyval t ≡ false → is_text t k ≡ false → is_text t l ≡ false

  pub data SameKeys : Pairs → Pairs → Type 0 where
    same_end : SameKeys no_pairs no_pairs
    same_key :
        {k l v w : Obj} {m n : Pairs}
        → KeyOf k l
        → SameKeys m n
        → SameKeys (pair k v m) (pair l w n)

  not_tag :
      (b c b' c' : Bool)
      → (if b && c then tagged else plain) ≡ plain
      → (b ≡ false → b' ≡ false)
      → (c ≡ false → c' ≡ false)
      → (if b' && c' then tagged else plain) ≡ plain
  not_tag true true b' c' h p q = cc
  not_tag false c b' c' h p q = rw (p refl) refl
  not_tag true false true c' h p q = rw (q refl) refl
  not_tag true false false c' h p q = refl

  same_shape : {m n : Pairs} → SameKeys m n → shape m ≡ plain → shape n ≡ plain
  same_shape same_end h = refl
  same_shape (same_key {k} {l} p same_end) h =
      let q = p "zcbor_bstr" laws.not_bstr (not_bstr (is_text "zcbor_bstr" k) h) in rw q refl
    where
      not_bstr : (b : Bool) → (if b then bstr else plain) ≡ plain → b ≡ false
      not_bstr true h = cc
      not_bstr false h = refl
  same_shape (same_key {k} {l} p (same_key {k = k'} {l = l'} q same_end)) h =
      not_tag (is_text "zcbor_tag" k) (is_text "zcbor_tag_val" k') (is_text "zcbor_tag" l)
        (is_text "zcbor_tag_val" l') h (p "zcbor_tag" laws.not_tag)
        (q "zcbor_tag_val" laws.not_tag_val)
  same_shape (same_key p (same_key q (same_key r s))) h = refl

  abbrev pub is_empty : Objs → Bool
  is_empty no_objs = true
  is_empty xs = false

  pub record BackObjs (to : Objs → Result Objs) (xs : Objs) : Type 0 where
    pub images : Objs
    pub written : to xs ≡ ok images
    pub read : from_objs codec can images ≡ ok xs
    pub same_mark : is_mark images ≡ is_mark xs
    pub same_end : is_empty images ≡ is_empty xs

  pub record BackPairs (to : Pairs → ℕ → Pairs → Result Pairs) (m : Pairs) (i : ℕ) : Type 0 where
    pub images : Pairs
    pub written : (r : Pairs) → Room r m i → to m i r ≡ ok (join r images)
    pub read : (r : Pairs) → Apart r m → from_pairs codec can images r ≡ ok (join r m)
    pub keys : SameKeys m images

  pub record BackKey (to : Obj → Result Obj) (k : Obj) : Type 0 where
    pub image : Obj
    pub value : Obj
    pub written : to k ≡ ok image
    pub read : from_yaml_obj codec can image ≡ ok value
    pub key : as_key value ≡ k
    pub hashed : is_hashable k ≡ true

  module _ (inner : Obj → Result Obj) where
    pub scalar-Back : (x : Obj) → is_scalar x ≡ true → Back (to_yaml_by codec inner) x
    unfolding to_yaml_by from_yaml_obj
    scalar-Back null h = record {
      image = null;
      written = refl;
      read = refl;
      same_str = refl;
      same_text = λ t. refl;
    }
    scalar-Back undefined h = record {
      image = list (objs (str "zcbor_undefined") no_objs);
      written = refl;
      read = refl;
      same_str = refl;
      same_text = λ t. refl;
    }
    scalar-Back (int m) h = record {
      image = int m;
      written = refl;
      read = refl;
      same_str = refl;
      same_text = λ t. refl;
    }
    scalar-Back (float x) h = record {
      image = float x;
      written = refl;
      read = refl;
      same_str = refl;
      same_text = λ t. refl;
    }
    scalar-Back (bool b) h = record {
      image = bool b;
      written = refl;
      read = refl;
      same_str = refl;
      same_text = λ t. refl;
    }
    scalar-Back (str s) h = record {
      image = str s;
      written = refl;
      read = refl;
      same_str = refl;
      same_text = λ t. refl;
    }
    scalar-Back x h = cc

    -- A byte string whose contents have been written as `y`.
    pub hex-Back :
        (b : List ℕ)
        → All (λ m. m < 256) b
        → strict_loads codec b ≡ raised Exception.decode_error
        → Back (to_yaml_by codec inner) (bytes b)
    unfolding to_yaml_by from_yaml_obj bstr_of
    hex-Back b h fails = record {
      image = dict (pair (str "zcbor_bstr") (str (hex b)) no_pairs);
      written = rw (to_yaml_by, fails) refl;
      read = ap (λ r. r >>= λ c. ok (bytes c)) (from_hex-hex b h);
      same_str = refl;
      same_text = λ t. refl;
    }

    no_text :
        (y : Obj) (r : Result Obj)
        → is_str y ≡ false
        → bstr_of codec can y r ≡ (r >>= λ x. codec.dumps can x >>= λ b. ok (bytes b))
    unfolding bstr_of
    no_text (str s) r h = cc
    no_text y r h = refl

    pub object-Back :
        (b : List ℕ) (x : Obj)
        → strict_loads codec b ≡ ok x
        → is_str x ≡ false
        → codec.dumps can x ≡ ok b
        → Back inner x
        → Back (to_yaml_by codec inner) (bytes b)
    unfolding to_yaml_by from_yaml_obj
    object-Back b x loaded plain_x dumped back = record {
      image = dict (pair (str "zcbor_bstr") back.image no_pairs);
      written = rw (to_yaml_by, loaded, back.written) refl;
      read =
          no_text back.image (from_yaml_obj codec can back.image) (back.same_str ∙ plain_x)
          ∙ rw (back.read, dumped) refl;
      same_str = refl;
      same_text = λ t. refl;
    }

    pub list-Back :
        (xs : Objs)
        → is_mark xs ≡ false
        → BackObjs (to_objs codec inner) xs
        → Back (to_yaml_by codec inner) (list xs)
    unfolding to_yaml_by from_yaml_obj
    list-Back xs h back = record {
      image = list back.images;
      written = rw (to_yaml_by, back.written) refl;
      read = rw (from_yaml_obj, back.same_mark ∙ h, back.read) refl;
      same_str = refl;
      same_text = λ t. refl;
    }

    pub tag-Back :
        (m : ℕ) (x : Obj)
        → codec.make_tag (int (pos m)) x ≡ ok (tag m x)
        → Back (to_yaml_by codec inner) x
        → Back (to_yaml_by codec inner) (tag m x)
    unfolding to_yaml_by from_yaml_obj
    tag-Back m x made back = record {
      image =
          dict
            (pair (str "zcbor_tag") (int (pos m)) (pair (str "zcbor_tag_val") back.image no_pairs));
      written = rw (to_yaml_by, back.written) refl;
      read = rw (from_yaml_obj, back.read, made) refl;
      same_str = refl;
      same_text = λ t. refl;
    }

    pub dict-Back :
        (m : Pairs)
        → shape m ≡ plain
        → BackPairs (to_pairs codec inner) m 0
        → Back (to_yaml_by codec inner) (dict m)
    unfolding to_yaml_by from_yaml_obj
    dict-Back m h back = record {
      image = dict back.images;
      written = rw (to_yaml_by, back.written no_pairs tt) refl;
      read = rw (from_yaml_obj, same_shape back.keys h, back.read no_pairs tt) refl;
      same_str = refl;
      same_text = λ t. refl;
    }
