-- ===== src/Texts/Exact.antt =====
-- The texts of bytes and numbers read back: zcbor/zcbor.py's `bytes.hex` and `bytes.fromhex`, and the number
-- of a "zcbor_keyval".
use Prim.Native.Char.{Char, code}
use Prim.Native.String as String
use Prim.Native.String.append
use zcbor.Prelude.{
  ℕ, zero, suc, ◌+◌, ◌-◌, ◌*◌, ◌/◌, ◌%◌, ◌<◌, ◌≤◌, ltb, ◌==◌, ◌≡◌, refl, sym, ap, ◌∙◌, inl, inr,
  String, Bool, true, false, not, ◌&&◌, Bool-cases, Option, none, some, List, [], ◌∷◌, All, arith,
}
use zcbor.Outcome.{ok}
use zcbor.Texts.{
  digit, digit_value, is_space, byte_of, hex, from_hex, digits, decimal, is_digit, digits_only,
  isdigit, read_from, int_of,
}

-- What is checked for each digit holds for each digit.
tested : (ℕ → Bool) → ℕ → ℕ → Bool
tested good i zero = true
tested good i (suc n) = good i && tested good (i + 1) n

tested-good :
    (good : ℕ → Bool) (n i d : ℕ) → tested good i n ≡ true → i ≤ d → d < i + n → good d ≡ true
unfolding tested
tested-good good zero i d h low high = absurd (omega arith)
tested-good good (suc n) i d h low high = elim (Bool-cases (d == i)) [
  | inl e ↦ let s : d ≡ i = ground arith in rw (s) (ground arith)
  | inr ne ↦ tested-good good n (i + 1) d (ground arith) (ground arith) (omega arith)
]

abbrev is_value : Option ℕ → ℕ → Bool
is_value none n = false
is_value (some m) n = m == n

abbrev reads : ℕ → Bool
reads n = is_value (digit_value (digit n)) n && not (is_space (digit n))

read_table : tested reads 0 16 ≡ true
unfolding tested digit_value is_space
read_table = refl

is_value-eq : (o : Option ℕ) (n : ℕ) → is_value o n ≡ true → o ≡ some n
is_value-eq none n h = cc
is_value-eq (some m) n h = ground arith

digit_value-digit : (n : ℕ) → n < 16 → digit_value (digit n) ≡ some n
digit_value-digit n h =
    let t = tested-good reads 16 0 n read_table (omega arith) h in
    is_value-eq (digit_value (digit n)) n (ground arith)

is_space-digit : (n : ℕ) → n < 16 → is_space (digit n) ≡ false
is_space-digit n h = let t = tested-good reads 16 0 n read_table (omega arith) h in ground arith

byte_of-digit : (b : ℕ) → b < 256 → byte_of (digit (b / 16)) (digit (b % 16)) ≡ ok b
unfolding byte_of
byte_of-digit b h =
    rw (byte_of, digit_value-digit (b / 16) (omega arith), digit_value-digit (b % 16) (omega arith))
      (ap ok (omega arith))

-- Bytes, written and read again.
pub from_hex-hex : (bs : List ℕ) → All (λ b. b < 256) bs → from_hex (hex bs) ≡ ok bs
unfolding hex from_hex
from_hex-hex [] h = refl
from_hex-hex (b ∷ bs) (h, hs) =
    rw (from_hex, is_space-digit (b / 16) (omega arith), byte_of-digit b h, from_hex-hex bs hs) refl

read_from-append :
    (n : ℕ) (s : String) (c : Char)
    → read_from n (String.◌++◌ s (String.◌∷◌ c String.[])) ≡ 10 * read_from n s + (code c - 48)
unfolding read_from
read_from-append n String.[] c = ap (read_from n) (append.nil (String.◌∷◌ c String.[]))
read_from-append n (String.◌∷◌ d s) c =
    ap (read_from n) (append.cons d s (String.◌∷◌ c String.[]))
    ∙ read_from-append (10 * n + (code d - 48)) s c

decimal_table : tested (λ n. code (digit n) == 48 + n) 0 10 ≡ true
unfolding tested
decimal_table = refl

code-digit : (n : ℕ) → n < 10 → code (digit n) - 48 ≡ n
code-digit n h =
    let t = tested-good (λ n. code (digit n) == 48 + n) 10 0 n decimal_table (omega arith) h in
    ground arith

read-digits : (f n : ℕ) → n < f → read_from 0 (digits f n) ≡ n
unfolding digits
read-digits zero n h = absurd (omega arith)
read-digits (suc f) n h = elim (Bool-cases (ltb n 10)) [
  | inl p ↦ rw (p, digits) (unfold read_from in omega (arith, code-digit n (ground arith)))
  | inr p ↦
      let rest = read-digits f (n / 10) (ground arith) in
      rw (p, digits)
        (read_from-append 0 (digits f (n / 10)) (digit (n % 10))
          ∙ (let c = code-digit (n % 10) (omega arith) in omega arith))
]

pub decimal_inj : (m n : ℕ) → decimal m ≡ decimal n → m ≡ n
unfolding decimal
decimal_inj m n h =
    sym (read-digits (suc m) m (omega arith))
    ∙ ap (read_from 0) h
    ∙ read-digits (suc n) n (omega arith)

is_digit_table : tested (λ n. is_digit (digit n)) 0 10 ≡ true
unfolding tested
is_digit_table = refl

is_digit-digit : (n : ℕ) → n < 10 → is_digit (digit n) ≡ true
is_digit-digit n h = tested-good (λ n. is_digit (digit n)) 10 0 n is_digit_table (omega arith) h

digits_only-append :
    (s : String) (c : Char)
    → digits_only s ≡ true
    → is_digit c ≡ true
    → digits_only (String.◌++◌ s (String.◌∷◌ c String.[])) ≡ true
digits_only-append String.[] c h d = rw (append.nil) (rw (d) refl)
digits_only-append (String.◌∷◌ b s) c h d =
    rw (append.cons b s (String.◌∷◌ c String.[]))
      (ground (arith, digits_only-append s c (ground arith) d))

isdigit-append :
    (s : String) (c : Char)
    → digits_only s ≡ true
    → is_digit c ≡ true
    → isdigit (String.◌++◌ s (String.◌∷◌ c String.[])) ≡ true
unfolding isdigit
isdigit-append String.[] c h d = rw (append.nil) (rw (d) refl)
isdigit-append (String.◌∷◌ b s) c h d =
    rw (append.cons b s (String.◌∷◌ c String.[]))
      (ground (arith, digits_only-append s c (ground arith) d))

digits_only-digits : (f n : ℕ) → digits_only (digits f n) ≡ true
unfolding digits
digits_only-digits zero n = refl
digits_only-digits (suc f) n = elim (Bool-cases (ltb n 10)) [
  | inl p ↦ rw (p, digits, is_digit-digit n (ground arith)) refl
  | inr p ↦
      rw (p, digits)
        (digits_only-append (digits f (n / 10)) (digit (n % 10)) (digits_only-digits f (n / 10))
          (is_digit-digit (n % 10) (omega arith)))
]

isdigit-digits : (f n : ℕ) → isdigit (digits (suc f) n) ≡ true
unfolding digits
isdigit-digits f n = elim (Bool-cases (ltb n 10)) [
  | inl p ↦ rw (p, digits) (unfold isdigit in rw (is_digit-digit n (ground arith)) refl)
  | inr p ↦
      rw (p, digits)
        (isdigit-append (digits f (n / 10)) (digit (n % 10)) (digits_only-digits f (n / 10))
          (is_digit-digit (n % 10) (omega arith)))
]

pub digits_only-decimal : (n : ℕ) → digits_only (decimal n) ≡ true
unfolding decimal
digits_only-decimal n = digits_only-digits (suc n) n

pub int_of-decimal : (n : ℕ) → int_of (decimal n) ≡ n
unfolding decimal int_of
int_of-decimal n = read-digits (suc n) n (omega arith)

pub isdigit-decimal : (n : ℕ) → isdigit (decimal n) ≡ true
unfolding decimal
isdigit-decimal n = isdigit-digits n n
