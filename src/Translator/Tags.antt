-- ===== src/Translator/Tags.antt =====
-- zcbor/zcbor.py, class DataTranslator: `_check_tag` against the tags that an object carries.
use mathlib.Core.List.{Perm}
use mathlib.Core.List.Perm
use zcbor.Prelude.{
  ℕ, ◌==◌, ◌≡◌, refl, ap, Bool, true, false, Bool-cases, inl, inr, List, [], ◌∷◌, arith,
}
use zcbor.Outcome.{ok}
use zcbor.Elem.{Kind, Elem, attrs, kind}
use zcbor.Data.{Obj, tag}
use zcbor.Translator.Check.{
  has_tag, remove_tag, is_indirect, is_any, all_found, strip_tags, check_tag,
}

-- The object with the tags around it, the first one outermost.
abbrev pub wrap : List ℕ → Obj → Obj
wrap [] obj = obj
wrap (t ∷ tags) obj = tag t (wrap tags obj)

abbrev pub is_tagged : Obj → Bool
is_tagged (tag t obj) = true
is_tagged obj = false

remove_tag-perm :
    (t : ℕ) (tags : List ℕ) → has_tag t tags ≡ true → Perm (t ∷ remove_tag t tags) tags
remove_tag-perm t [] h = cc
remove_tag-perm t (s ∷ tags) h = elim (Bool-cases (s == t)) [
  | inl same ↦ rw same (let e : s ≡ t = ground arith in rw e (Perm.refl (t ∷ tags)))
  | inr other ↦ rw other (
      Perm.trans (Perm.swap s t (remove_tag t tags))
        (Perm.cons s (remove_tag-perm t tags (ground arith))))
]

-- What the loop of `_check_tag` finds.
abbrev Found : List ℕ → Obj → Obj → Type 0
Found tags obj inner =
    (ts : List ℕ) × (obj ≡ wrap ts inner) × Perm ts tags × (is_tagged inner ≡ false)

Found-untagged :
    (tags : List ℕ) (obj inner : Obj)
    → is_tagged obj ≡ false
    → all_found tags obj ≡ ok inner
    → Found tags obj inner
Found-untagged [] obj inner p h = ([], cc, Perm.refl [], (let e : obj ≡ inner = cc in rw e at p))
Found-untagged (t ∷ tags) obj inner p h = cc

strip_tags-Found :
    (k : Kind) (tags : List ℕ) (obj inner : Obj)
    → is_any k ≡ false
    → is_indirect k ≡ false
    → strip_tags k tags obj ≡ ok inner
    → Found tags obj inner
unfolding strip_tags
strip_tags-Found k tags (tag t obj) inner a i h = elim (Bool-cases (has_tag t tags)) [
  | inl among ↦
      let (ts, p, perm, plain) =
        strip_tags-Found k (remove_tag t tags) obj inner a i (ground arith) in
      (t ∷ ts, ap (tag t) p, Perm.trans (Perm.cons t perm) (remove_tag-perm t tags among), plain)
  | inr foreign ↦ absurd (ground arith)
]
strip_tags-Found k tags obj inner a i h = Found-untagged tags obj inner refl h

-- For an element that holds its value itself and is not "any", `_check_tag` returns what is left when
-- all tags of the object are taken off, and these are the element's tags in some order.
pub check_tag-perm :
    (e : Elem) (obj inner : Obj)
    → is_any (kind e) ≡ false
    → is_indirect (kind e) ≡ false
    → check_tag e obj ≡ ok inner
    → (ts : List ℕ) × (obj ≡ wrap ts inner) × Perm ts (attrs e).tags × (is_tagged inner ≡ false)
unfolding check_tag
check_tag-perm e obj inner a i h = strip_tags-Found (kind e) (attrs e).tags obj inner a i h
