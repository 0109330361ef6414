-- ===== src/Translator/Pull.antt =====
-- zcbor/zcbor.py, class DataTranslator: calls that read from an iterator, which is the list of the
-- objects that are left. A call also tells whether it called `next`, on the iterator or on a `tee` of
-- it, since that moves the iterator that was given to it, whatever the call returns or raises.
pub mod Yields
use zcbor.Prelude.{Bool, true, false, ◌||◌, List, [], ◌∷◌}
use zcbor.Outcome.{Result, ok, raised, out_of_fuel, Exception}
use zcbor.Data.{Obj}

pub data Pull (A : Type 0) : Type 0 where
  gave : A → Bool → Pull A
  threw : Exception → Bool → Pull A
  spent : Pull A

-- Something has called `next` before.
abbrev pub after : {A : Type 0} → Bool → Pull A → Pull A
after moved (gave a m) = gave a (moved || m)
after moved (threw e m) = threw e (moved || m)
after moved spent = spent

infixl 5 ◌>>=◌
abbrev pub ◌>>=◌ : {A B : Type 0} → Pull A → (A → Pull B) → Pull B
gave a m >>= f = after m (f a)
threw e m >>= f = threw e m
spent >>= f = spent

abbrev pub pure : {A : Type 0} → A → Pull A
pure a = gave a false

-- A call that reads from no iterator of ours.
abbrev pub lift : {A : Type 0} → Result A → Pull A
lift (ok a) = gave a false
lift (raised e) = threw e false
lift out_of_fuel = spent

-- What a call returns or raises.
abbrev pub settled : {A : Type 0} → Pull A → Result A
settled (gave a m) = ok a
settled (threw e m) = raised e
settled spent = out_of_fuel

-- `except CddlValidationError`.
abbrev pub catch : {A : Type 0} → Pull A → (Unit {0} → Pull A) → Pull A
catch (gave a m) k = gave a m
catch (threw Exception.validation_error m) k = after m (k tt)
catch (threw e m) k = threw e m
catch spent k = spent

-- `try: a = m; k(a) except CddlValidationError: handler()`, where what follows is outside the `try`.
abbrev pub attempt : {A B : Type 0} → Pull A → (A → Pull B) → (Unit {0} → Pull B) → Pull B
attempt (gave a m) k handler = after m (k a)
attempt (threw Exception.validation_error m) k handler = after m (handler tt)
attempt (threw e m) k handler = threw e m
attempt spent k handler = spent

-- `_iter_next`, with the iterator that is left.
unfoldable pub iter_next : List Obj → Pull (Obj × List Obj)
iter_next [] = threw Exception.validation_error true
iter_next (x ∷ rest) = gave (x, rest) true

unfoldable pub iter_is_empty : List Obj → Result (Unit {0})
iter_is_empty [] = ok tt
iter_is_empty (x ∷ rest) = raised Exception.validation_error
