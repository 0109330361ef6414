-- ===== src/Data.antt =====
-- zcbor/zcbor.py: the Python objects that the code decodes, builds and converts, as `cbor2` and `yaml`
-- give them.
use zcbor.Prelude.{ℕ, ℤ, String, Bool, List, [], ◌∷◌}
use zcbor.Number.{Float}

-- `key_tuple` is a `KeyTuple`, `named` a `namedtuple` with its field names.
mutual
  pub data Obj : Type 0 where
    null undefined : Obj
    int : ℤ → Obj
    float : Float → Obj
    bool : Bool → Obj
    str : String → Obj
    bytes : List ℕ → Obj
    list : Objs → Obj
    tuple : Objs → Obj
    dict : Pairs → Obj
    tag : ℕ → Obj → Obj
    key_tuple : Obj → Obj → Obj
    named : Fields → Obj

  pub data Objs : Type 0 where
    no_objs : Objs
    objs : Obj → Objs → Objs

  pub data Pairs : Type 0 where
    no_pairs : Pairs
    pair : Obj → Obj → Pairs → Pairs

  pub data Fields : Type 0 where
    no_fields : Fields
    field : String → Obj → Fields → Fields

abbrev pub to_list : Objs → List Obj
to_list no_objs = []
to_list (objs x xs) = x ∷ to_list xs

abbrev pub of_list : List Obj → Objs
of_list [] = no_objs
of_list (x ∷ xs) = objs x (of_list xs)

-- `KeyTuple(item) for item in obj.items()`.
abbrev pub items : Pairs → List Obj
items no_pairs = []
items (pair k v m) = key_tuple k v ∷ items m
