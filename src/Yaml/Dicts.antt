-- ===== src/Yaml/Dicts.antt =====
-- Assignments to keys that a dictionary does not have yet, in zcbor/zcbor.py's conversions to and from YAML.
use package.text.Mathlib.TextEquality.{eq_iff}
use package.text.Mathlib.TextLemmas.{append_cancel_left}
use zcbor.Prelude.{
  ℕ, suc, ◌+◌, ◌≤◌, ◌≡◌, refl, sym, ap, ◌≢◌, inl, inr, String, str_eq, Bool, true, false, ◌&&◌,
  ◌||◌, Bool-cases, arith,
}
use zcbor.Outcome.{ok}
use zcbor.Data.{Obj, str, Pairs, no_pairs, pair}
use zcbor.Texts.Exact.{decimal_inj}
use zcbor.Yaml.{Codec, is_str, key_eq, is_hashable, put, assign, keyval_name}
use zcbor.Yaml.Spec.{IsCodec, clashes, text_key, value_key, tuple_key, KeptPairs, one_item}

abbrev pub join : Pairs → Pairs → Pairs
join no_pairs n = n
join (pair k v m) n = pair k v (join m n)

pub join_one : (m n : Pairs) (k v : Obj) → join (join m (pair k v no_pairs)) n ≡ join m (pair k v n)
join_one no_pairs n k v = refl
join_one (pair j w m) n k v = ap (pair j w) (join_one m n k v)

pub join-empty : (m : Pairs) → join m no_pairs ≡ m
join-empty no_pairs = refl
join-empty (pair j w m) = ap (pair j w) (join-empty m)

abbrev pub Absent : Obj → Pairs → Type 0
Absent k no_pairs = Unit
Absent k (pair j w m) = (key_eq j k ≡ false) × Absent k m

put-Absent : (k v : Obj) (m : Pairs) → Absent k m → put k v m ≡ join m (pair k v no_pairs)
unfolding put
put-Absent k v no_pairs h = refl
put-Absent k v (pair j w m) (h, hs) = rw (h, put) (ap (pair j w) (put-Absent k v m hs))

pub assign-Absent :
    (k v : Obj) (m : Pairs)
    → is_hashable k ≡ true
    → Absent k m
    → assign k v m ≡ ok (join m (pair k v no_pairs))
unfolding assign
assign-Absent k v m h a = rw (h, assign) (ap ok (put-Absent k v m a))

-- No key that is there is a key of `m`.
abbrev pub Apart : Pairs → Pairs → Type 0
Apart no_pairs m = Unit
Apart (pair j w r) m = (clashes j m ≡ false) × Apart r m

pub Apart-Absent : (r m : Pairs) (k v : Obj) → Apart r (pair k v m) → Absent k r
unfolding clashes
Apart-Absent no_pairs m k v h = tt
Apart-Absent (pair j w r) m k v (h, hs) = (ground arith, Apart-Absent r m k v hs)

pub Apart-next :
    (r m : Pairs) (k v v' : Obj)
    → Apart r (pair k v m)
    → clashes k m ≡ false
    → Apart (join r (pair k v' no_pairs)) m
unfolding clashes
Apart-next no_pairs m k v v' h c = (c, tt)
Apart-next (pair j w r) m k v v' (h, hs) c = (ground arith, Apart-next r m k v v' hs c)

-- A key is one of the texts in `m`.
unfoldable pub text_clash : Obj → Pairs → Bool
text_clash j no_pairs = false
text_clash j (pair k v m) = (is_str k && key_eq j k) || text_clash j m

-- No key that is there is a text in `m`, or a name from the number `i` on.
abbrev pub Room : Pairs → Pairs → ℕ → Type 0
Room no_pairs m i = Unit
Room (pair j w r) m i =
    (text_clash j m ≡ false)
    × ((l : ℕ) → i ≤ l → key_eq j (str (keyval_name l)) ≡ false)
    × Room r m i

pub Room-Absent_text :
    (r m : Pairs) (i : ℕ) (s : String) (v : Obj) → Room r (pair (str s) v m) i → Absent (str s) r
unfolding text_clash
Room-Absent_text no_pairs m i s v h = tt
Room-Absent_text (pair j w r) m i s v (h, k, hs) = (ground arith, Room-Absent_text r m i s v hs)

pub Room-Absent_name : (r m : Pairs) (i : ℕ) → Room r m i → Absent (str (keyval_name i)) r
Room-Absent_name no_pairs m i h = tt
Room-Absent_name (pair j w r) m i (h, k, hs) = (k i (omega arith), Room-Absent_name r m i hs)

text_clash-le : (j : Obj) (m : Pairs) → clashes j m ≡ false → text_clash j m ≡ false
unfolding clashes text_clash
text_clash-le j no_pairs h = refl
text_clash-le j (pair k v m) h = ground (arith, text_clash-le j m)

pub str_ne : (s t : String) → s ≢ t → str_eq s t ≡ false
str_ne s t h = elim (Bool-cases (str_eq s t)) [ inl p ↦ absurd (h ((eq_iff s t).0 p)) | inr p ↦ p ]

keyval_ne : (i l : ℕ) → suc i ≤ l → keyval_name l ≢ keyval_name i
keyval_ne i l h e =
    let same : l ≡ i = decimal_inj l i (append_cancel_left "zcbor_keyval" _ _ e) in
    absurd (omega arith)

module _ (codec : Codec) (laws : IsCodec codec) (can : Bool) where
  pub not_keyval :
      (s : String) (l : ℕ) → codec.is_keyval s ≡ false → (keyval_name l ≢ s) × (s ≢ keyval_name l)
  not_keyval s l h = (λ e. clash e, λ e. clash (sym e))
    where
      clash : keyval_name l ≡ s → ⊥
      clash e = let t = laws.keyvals l in cc (ap codec.is_keyval e)

  name_clash :
      (i : ℕ) (m : Pairs) → KeptPairs codec can m → text_clash (str (keyval_name i)) m ≡ false
  unfolding text_clash key_eq
  name_clash i no_pairs h = refl
  name_clash i (pair k v m) (one_item (text_key {s} p) w c hs) =
      let other = str_ne s (keyval_name i) (not_keyval s i p).1 in
      let rest = name_clash i m hs in ground arith
  name_clash i (pair k v m) (one_item (value_key p q w') w c hs) =
      let rest = name_clash i m hs in ground arith
  name_clash i (pair k v m) (one_item (tuple_key p q ws) w c hs) = name_clash i m hs

  -- A text of `m`, or the name with the number `i`, has been assigned.
  pub Room-text :
      (r m : Pairs) (i : ℕ) (s : String) (v v' : Obj)
      → Room r (pair (str s) v m) i
      → clashes (str s) m ≡ false
      → codec.is_keyval s ≡ false
      → Room (join r (pair (str s) v' no_pairs)) m i
  unfolding text_clash key_eq
  Room-text no_pairs m i s v v' h c p =
      (text_clash-le (str s) m c, (λ l le. str_ne (keyval_name l) s (not_keyval s l p).0), tt)
  Room-text (pair j w r) m i s v v' (h, k, hs) c p =
      (ground arith, k, Room-text r m i s v v' hs c p)

  pub Room-name :
      (r m : Pairs) (i : ℕ) (k v v' : Obj)
      → Room r (pair k v m) i
      → KeptPairs codec can m
      → Room (join r (pair (str (keyval_name i)) v' no_pairs)) m (i + 1)
  unfolding text_clash key_eq
  Room-name no_pairs m i k v v' h kept = (
    name_clash i m kept,
    (λ l le. str_ne (keyval_name l) (keyval_name i) (keyval_ne i l (omega arith))),
    tt,
  )
  Room-name (pair j w r) m i k v v' (h, names, hs) kept =
      (ground arith, (λ l le. names l (omega arith)), Room-name r m i k v v' hs kept)
