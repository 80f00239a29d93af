-- ===== src/Parser/Numbers.antt =====
-- `stoll_view` of src/RedisParser.cpp on decimal numerals.
use xredis_client.Base.{
  ℕ, suc, ◌-◌, ◌^◌, ◌<◌, Bytes, true, false, [], ◌∷◌, ◌==◌, ◌≡◌, refl, ◌∙◌, append-nil, arith,
}
use xredis_client.Base.Int.{ℤ, pos, negsuc}
use xredis_client.Base.Decimal.{
  scanned, from_chars, to_chars, to_chars_signed, is_digit, to_chars-Begins, from_chars-to_chars,
  to_chars-Digits, Digits,
}
use xredis_client.Outcome.{ok}
use xredis_client.Parser.{stoll_view, whole}
use xredis_client.Parser.Newlines.{NoLf}

-- The values of `int64_t`.
abbrev pub IsInt64 : ℤ → Type 0
IsInt64 (pos n) = n < 2 ^ 63
IsInt64 (negsuc n) = n < 2 ^ 63

stoll_view-digit :
    (c : ℕ) (cs : Bytes)
    → is_digit c ≡ true
    → stoll_view (c ∷ cs) ≡ whole pos (from_chars (2 ^ 63 - 1) (c ∷ cs))
unfolding stoll_view
stoll_view-digit c cs d = let e : (c == b'-') ≡ false = ground arith in rw e

pub stoll_view-to_chars : (n : ℕ) → n < 2 ^ 63 → stoll_view (to_chars n) ≡ ok (pos n)
stoll_view-to_chars n h =
    let (c, cs, e, d) = to_chars-Begins n in
    let read : from_chars (2 ^ 63 - 1) (to_chars n) ≡ scanned n [] =
      rw append-nil at (from_chars-to_chars (2 ^ 63 - 1) n [] (omega arith) tt) in
    rw e (stoll_view-digit c cs d ∙ rw (← e) (rw read (unfold whole in refl)))

-- `stoll_view` gives back any 64-bit integer written in decimal.
pub stoll_view-to_chars_signed : (i : ℤ) → IsInt64 i → stoll_view (to_chars_signed i) ≡ ok i
unfolding to_chars_signed stoll_view
stoll_view-to_chars_signed (pos n) h = stoll_view-to_chars n h
stoll_view-to_chars_signed (negsuc n) h =
    let read : from_chars (2 ^ 63) (to_chars (suc n)) ≡ scanned (suc n) [] =
      rw append-nil at (from_chars-to_chars (2 ^ 63) (suc n) [] (omega arith) tt) in
    rw read refl

-- Numerals hold no newline.
Digits-NoLf : (bs : Bytes) → Digits bs → NoLf bs
Digits-NoLf [] d = tt
Digits-NoLf (c ∷ cs) d = (ground (arith, d.0), Digits-NoLf cs d.1)

pub to_chars-NoLf : (n : ℕ) → NoLf (to_chars n)
to_chars-NoLf n = Digits-NoLf (to_chars n) (to_chars-Digits n)

pub to_chars_signed-NoLf : (i : ℤ) → NoLf (to_chars_signed i)
unfolding to_chars_signed
to_chars_signed-NoLf (pos n) = to_chars-NoLf n
to_chars_signed-NoLf (negsuc n) = (omega arith, to_chars-NoLf (suc n))
