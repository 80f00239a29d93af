-- ===== src/Base/Decimal.antt =====
-- Decimal numerals as `std::to_chars` writes them and `std::from_chars` reads them.
use Prim.Native.Nat.{ℕ, zero, suc, ◌+◌, ◌-◌, ◌*◌, ◌/◌, ◌%◌, ◌≤◌, ◌<◌}
use mathlib.Core.Path.{◌≡◌, refl, ap, ◌∙◌}
use mathlib.Core.Logic.{inl, inr}
use mathlib.Core.Bool.{Bool, true, false, ◌&&◌}
use mathlib.Core.List.{[], ◌∷◌, ◌++◌, append_assoc}
use native.Mathlib.Omega.{arith}
use xredis_client.Base.Tests.{ltb, leb, if◌then◌else◌, Bool-cases}
use xredis_client.Base.Lists.{Bytes}
use xredis_client.Base.Int.{ℤ, pos, negsuc}

abbrev pub is_digit : ℕ → Bool
is_digit c = leb b'0' c && leb c b'9'

-- The digits of `n`, most significant first; `f` bounds their number.
unfoldable pub digits : ℕ → ℕ → Bytes
digits zero n = []
digits (suc f) n =
    let rest = digits f (n / 10) in
    if ltb n 10 then (b'0' + n) ∷ [] else rest ++ ((b'0' + n % 10) ∷ [])

-- `std::to_chars` of an unsigned number. The fuel is enough, since dividing by ten makes it fall.
unfoldable pub to_chars : ℕ → Bytes
unfolding digits
to_chars n = digits (suc n) n

-- `std::to_chars` of a signed number.
unfoldable pub to_chars_signed : ℤ → Bytes
unfolding to_chars
to_chars_signed (pos n) = to_chars n
to_chars_signed (negsuc n) = b'-' ∷ to_chars (suc n)

-- The longest run of digits, as a number above what `a` holds, and what follows it.
unfoldable pub scan : ℕ → Bytes → ℕ × Bytes
scan a [] = (a, [])
scan a (c ∷ cs) =
    let rest = scan (a * 10 + (c - b'0')) cs in if is_digit c then rest else (a, c ∷ cs)

-- What `std::from_chars` reports: no number, a number too large (with what follows it), or a number
-- and what follows it.
pub data Scanned : Type 0 where
  invalid : Scanned
  too_large : Bytes → Scanned
  scanned : ℕ → Bytes → Scanned

-- `std::from_chars` into an unsigned type with the largest value `top`.
unfoldable pub from_chars : ℕ → Bytes → Scanned
from_chars top [] = invalid
from_chars top (c ∷ cs) =
    let (n, rest) = scan 0 (c ∷ cs) in
    if is_digit c then (if leb n top then scanned n rest else too_large rest) else invalid

abbrev pub NoDigit : Bytes → Type 0
NoDigit [] = Unit {0}
NoDigit (c ∷ cs) = is_digit c ≡ false

scan-NoDigit : (n : ℕ) (rest : Bytes) → NoDigit rest → scan n rest ≡ (n, rest)
unfolding scan
scan-NoDigit n [] h = refl
scan-NoDigit n (c ∷ cs) h = rw h

scan-cons :
    (a c : ℕ) (cs : Bytes) → is_digit c ≡ true → scan a (c ∷ cs) ≡ scan (a * 10 + (c - b'0')) cs
unfolding scan
scan-cons a c cs h = rw h

scan-digits : (f n : ℕ) (rest : Bytes) → n < f → scan 0 (digits f n ++ rest) ≡ scan n rest
unfolding digits
scan-digits zero n rest h = elim h [ ]
scan-digits (suc f) n rest h = elim (Bool-cases (ltb n 10)) [
  | inl one ↦
      rw one (scan-cons 0 (b'0' + n) rest (ground arith) ∙ ap (λ k. scan k rest) (omega arith))
  | inr more ↦
      rw (more, append_assoc)
        (scan-digits f (n / 10) ((b'0' + n % 10) ∷ rest) (ground arith)
          ∙ scan-cons (n / 10) (b'0' + n % 10) rest (ground arith)
          ∙ ap (λ k. scan k rest) (omega arith))
]

-- A numeral begins with a digit.
abbrev Begins : Bytes → Type 0
Begins bs = (c : ℕ) × (cs : Bytes) × (bs ≡ c ∷ cs) × (is_digit c ≡ true)

digits-Begins : (f n : ℕ) → n < f → Begins (digits f n)
unfolding digits
digits-Begins zero n h = elim h [ ]
digits-Begins (suc f) n h = elim (Bool-cases (ltb n 10)) [
  | inl one ↦ (b'0' + n, [], rw one, ground arith)
  | inr more ↦
      let (c, cs, e, d) = digits-Begins f (n / 10) (ground arith) in
      (c, cs ++ ((b'0' + n % 10) ∷ []), rw (more, e), d)
]

pub to_chars-Begins : (n : ℕ) → Begins (to_chars n)
unfolding to_chars
to_chars-Begins n = digits-Begins (suc n) n (omega arith)

from_chars-cons :
    (top c : ℕ) (cs : Bytes) {n : ℕ} {rest : Bytes}
    → is_digit c ≡ true
    → scan 0 (c ∷ cs) ≡ (n, rest)
    → n ≤ top
    → from_chars top (c ∷ cs) ≡ scanned n rest
unfolding from_chars
from_chars-cons top c cs d e h = ground (arith, d, e)

-- Reading back what was written, with no digit behind it.
pub from_chars-digits :
    (top f n : ℕ) (rest : Bytes)
    → n < f
    → n ≤ top
    → NoDigit rest
    → from_chars top (digits f n ++ rest) ≡ scanned n rest
from_chars-digits top f n rest l h nd =
    let (c, cs, e, d) = digits-Begins f n l in
    let read = scan-digits f n rest l ∙ scan-NoDigit n rest nd in
    rw e (from_chars-cons top c (cs ++ rest) d (rw e at read) h)

pub from_chars-to_chars :
    (top n : ℕ) (rest : Bytes)
    → n ≤ top
    → NoDigit rest
    → from_chars top (to_chars n ++ rest) ≡ scanned n rest
unfolding to_chars
from_chars-to_chars top n rest h nd = from_chars-digits top (suc n) n rest (omega arith) h nd

-- Nothing but digits.
abbrev pub Digits : Bytes → Type 0
Digits [] = Unit {0}
Digits (c ∷ cs) = (is_digit c ≡ true) × Digits cs

Digits-append : (xs ys : Bytes) → Digits xs → Digits ys → Digits (xs ++ ys)
Digits-append [] ys h k = k
Digits-append (x ∷ xs) ys h k = (h.0, Digits-append xs ys h.1 k)

pub digits-Digits : (f n : ℕ) → Digits (digits f n)
unfolding digits
digits-Digits zero n = tt
digits-Digits (suc f) n = elim (Bool-cases (ltb n 10)) [
  | inl one ↦ rw one (ground arith, tt)
  | inr more ↦ rw more (
      Digits-append (digits f (n / 10)) ((b'0' + n % 10) ∷ []) (digits-Digits f (n / 10))
        (ground arith, tt))
]

pub to_chars-Digits : (n : ℕ) → Digits (to_chars n)
unfolding to_chars
to_chars-Digits n = digits-Digits (suc n) n
