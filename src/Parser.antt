-- ===== src/Parser.antt =====
-- src/RedisParser.cpp and include/RedisParser.h: the streaming parser of replies. The socket is the
-- list `incoming` of what the coming calls of `recv` return. The coroutines and the `try_` functions
-- have the same text but for the call of `recv`: at the end of the list the former still wait
-- (`suspended`) and the latter get EAGAIN. `stod_view` is `std::from_chars` into a `double`, which is
-- a parameter, as is `max_elements`, the length above which `std::vector::reserve` throws.
pub mod Replies
pub mod Stream
pub mod Newlines
pub mod Buffered
pub mod Lines
pub mod Bulks
pub mod Numbers
pub mod Encode
pub mod Bodies
pub mod RoundTrip
pub mod Progress
pub mod Takes
pub mod Total
pub mod Replay
pub mod Batches
pub mod Partial
pub mod Idle
mod Tests
use xredis_client.Base.{
  ℕ, zero, suc, ◌+◌, ◌-◌, ◌*◌, ◌%◌, ◌^◌, Bytes, Bool, true, false, ◌&&◌, ◌||◌, not, List, [], ◌∷◌,
  ◌++◌, Option, none, some, ltb, leb, ◌==◌, if◌then◌else◌, length, take, drop, get_or,
}
use xredis_client.Base.Int.{ℤ, pos, negsuc, is_negative, to_size}
use xredis_client.Base.Decimal.{Scanned, invalid, too_large, scanned, scan, from_chars}
use xredis_client.Outcome.{
  Error, Result, ok, err, no_crlf, bulk_no_crlf, bad_prefix, einval, erange, eoverflow, econnreset,
  eagain, suspended, terminated, out_of_fuel, is_eagain, os,
}
use xredis_client.Value.{
  Value, Values, Pairs, nullptr, array, push, setv, mapv, simple_string, simple_error, bulk_string,
  big_number, bulk_error, verbatim_string, integer, boolean, doublev, attribute, nil, cons,
  no_pairs, pair,
}

-- What one `recv` returns: bytes (none at the end of the stream), EAGAIN or another errno.
pub data Recv : Type 0 where
  got : Bytes → Recv
  would_block : Recv
  fails : ℕ → Recv

pub record Parser : Type 0 where
  pub linebuffer : Bytes
  pub position : ℕ
  pub incoming : List Recv

abbrev pub max_bulk_size : ℕ
max_bulk_size = 1024 * 1024 * 512

-- `std::string::find(c, from)`
unfoldable pub find_from : ℕ → ℕ → Bytes → Option ℕ
find_from c i [] = none
find_from c zero (x ∷ xs) =
    if x == c then some 0 else elim (find_from c zero xs) [ none ↦ none | some k ↦ some (suc k) ]
find_from c (suc i) (x ∷ xs) = elim (find_from c i xs) [ none ↦ none | some k ↦ some (suc k) ]

abbrev pub is_empty {ℓ} : {A : Type ℓ} → List A → Bool
is_empty [] = true
is_empty (x ∷ xs) = false

-- Subtraction of `size_t` wraps.
abbrev pub sub_size : ℕ → ℕ → ℕ
sub_size a b = (a + 2 ^ 64 - b) % 2 ^ 64

-- The line that ends with the newline at `fd`: its first byte, and the rest without CR and LF.
unfoldable pub take_line : Bytes → ℕ → ℕ → List Recv → Result (ℕ × Bytes) × Parser
take_line buf p fd inc =
    if fd == p || not (get_or buf (fd - 1) 0 == b'\r')
    then (err no_crlf, record { linebuffer = buf; position = p; incoming = inc })
    else (
      ok (get_or buf p 0, take (sub_size fd (p + 2)) (drop (p + 1) buf)),
      record { linebuffer = buf; position = fd + 1; incoming = inc },
    )

-- The loop of `read_line`: a round looks for a newline from `fd` on, and without one calls `recv`.
unfoldable pub read_line_loop : Error → List Recv → ℕ → Bytes → ℕ → Result (ℕ × Bytes) × Parser
unfolding find_from take_line
read_line_loop idle [] fd buf p = elim (find_from b'\n' fd buf) [
  | some k ↦ take_line buf p k []
  | none ↦ (err idle, record { linebuffer = buf; position = p; incoming = [] })
]
read_line_loop idle (fails e ∷ rest) fd buf p = elim (find_from b'\n' fd buf) [
  | some k ↦ take_line buf p k (fails e ∷ rest)
  | none ↦ (err (os e), record { linebuffer = buf; position = p; incoming = rest })
]
read_line_loop idle (would_block ∷ rest) fd buf p = elim (find_from b'\n' fd buf) [
  | some k ↦ take_line buf p k (would_block ∷ rest)
  | none ↦ (err eagain, record { linebuffer = buf; position = p; incoming = rest })
]
read_line_loop idle (got bs ∷ rest) fd buf p =
    let more = read_line_loop idle rest (length buf) (buf ++ bs) p in
    elim (find_from b'\n' fd buf) [
      | some k ↦ take_line buf p k (got bs ∷ rest)
      | none ↦
          if is_empty bs
          then (err econnreset, record { linebuffer = buf; position = p; incoming = rest })
          else if leb max_bulk_size (length buf + length bs)
          then (err eoverflow, record { linebuffer = buf; position = p; incoming = rest })
          else more
    ]

unfoldable pub read_line_or : Error → Parser → Result (ℕ × Bytes) × Parser
unfolding read_line_loop
read_line_or idle s = read_line_loop idle s.incoming s.position s.linebuffer s.position

unfoldable pub read_line : Parser → Result (ℕ × Bytes) × Parser
unfolding read_line_or
read_line = read_line_or suspended

unfoldable pub try_read_line : Parser → Result (ℕ × Bytes) × Parser
unfolding read_line_or
try_read_line = read_line_or eagain

-- The body of the bulk of `n` bytes at `p`, once it is there with the two bytes behind it.
unfoldable pub take_bulk : ℕ → Bytes → ℕ → List Recv → Result Bytes × Parser
take_bulk n buf p inc =
    let base = drop p buf in
    if not (get_or base n 0 == b'\r') || not (get_or base (n + 1) 0 == b'\n')
    then (err bulk_no_crlf, record { linebuffer = buf; position = p; incoming = inc })
    else (ok (take n base), record { linebuffer = buf; position = p + (n + 2); incoming = inc })

-- The loop of `read_bulk`. The position never passes the end of the buffer, so `-` does not wrap.
unfoldable pub read_bulk_loop : Error → ℕ → List Recv → Bytes → ℕ → Result Bytes × Parser
unfolding take_bulk
read_bulk_loop idle n [] buf p =
    if leb (n + 2) (length buf - p)
    then take_bulk n buf p []
    else (err idle, record { linebuffer = buf; position = p; incoming = [] })
read_bulk_loop idle n (fails e ∷ rest) buf p =
    if leb (n + 2) (length buf - p)
    then take_bulk n buf p (fails e ∷ rest)
    else (err (os e), record { linebuffer = buf; position = p; incoming = rest })
read_bulk_loop idle n (would_block ∷ rest) buf p =
    if leb (n + 2) (length buf - p)
    then take_bulk n buf p (would_block ∷ rest)
    else (err eagain, record { linebuffer = buf; position = p; incoming = rest })
read_bulk_loop idle n (got bs ∷ rest) buf p =
    let more = read_bulk_loop idle n rest (buf ++ bs) p in
    if leb (n + 2) (length buf - p)
    then take_bulk n buf p (got bs ∷ rest)
    else if is_empty bs
    then (err econnreset, record { linebuffer = buf; position = p; incoming = rest })
    else more

unfoldable pub read_bulk_or : Error → ℕ → Parser → Result Bytes × Parser
unfolding read_bulk_loop
read_bulk_or idle n s =
    if leb max_bulk_size n
    then (err eoverflow, s)
    else read_bulk_loop idle n s.incoming s.linebuffer s.position

unfoldable pub read_bulk : ℕ → Parser → Result Bytes × Parser
unfolding read_bulk_or
read_bulk = read_bulk_or suspended

unfoldable pub try_read_bulk : ℕ → Parser → Result Bytes × Parser
unfolding read_bulk_or
try_read_bulk = read_bulk_or eagain

unfoldable pub consume : Parser → Parser
consume s = record s { linebuffer = drop s.position s.linebuffer; position = 0 }

unfoldable pub reset : Parser → Parser
reset s = record s { linebuffer = []; position = 0 }

-- `std::from_chars` into an `int64_t`, and the code of `stoll_view`: the whole view must be read.
unfoldable pub whole : (ℕ → ℤ) → Scanned → Result ℤ
whole sign invalid = err einval
whole sign (too_large rest) = err erange
whole sign (scanned n rest) = if is_empty rest then ok (sign n) else err einval

abbrev pub negate : ℕ → ℤ
negate zero = pos zero
negate (suc n) = negsuc n

unfoldable pub stoll_view : Bytes → Result ℤ
unfolding whole from_chars scan
stoll_view [] = err einval
stoll_view (c ∷ cs) =
    if c == b'-'
    then whole negate (from_chars (2 ^ 63) cs)
    else whole pos (from_chars (2 ^ 63 - 1) (c ∷ cs))
