-- ===== src/Parser/Buffered.antt =====
-- `read_line` of src/RedisParser.cpp: a line that stands in the buffer, and a round of the loop.
use xredis_client.Base.{
  ℕ, suc, ◌+◌, ◌-◌, ◌^◌, ◌<◌, Bytes, false, List, [], ◌∷◌, ◌++◌, none, some, leb, ◌==◌, length,
  take, drop, get_or, ◌≡◌, ◌≢◌, refl, arith, take-append,
}
use xredis_client.Outcome.{Error, ok}
use xredis_client.Parser.{
  Recv, got, would_block, fails, max_bulk_size, find_from, sub_size, take_line, read_line_loop,
}
use xredis_client.Parser.Newlines.{crlf, get_or-append, drop-append_add}

-- The line that stands in the buffer behind `before`.
module _ (before line b : Bytes) (ch : ℕ) (inc : List Recv) where
  unfoldable pub buffered : Bytes
  buffered = before ++ (ch ∷ (line ++ crlf b))

  abbrev pub lf_at : ℕ
  lf_at = length before + suc (suc (length line))

  ends_cr : get_or buffered (lf_at - 1) 0 ≡ b'\r'
  unfolding buffered
  ends_cr =
      let e : lf_at - 1 ≡ length before + suc (length line) = omega arith in
      let e' : length line + 0 ≡ length line = omega arith in
      rw (e, get_or-append before (ch ∷ (line ++ crlf b)) (suc (length line)) 0)
        (rw e' at (get_or-append line (crlf b) 0 0))

  first_byte : get_or buffered (length before) 0 ≡ ch
  unfolding buffered
  first_byte =
      let e : length before + 0 ≡ length before = omega arith in
      rw e at (get_or-append before (ch ∷ (line ++ crlf b)) 0 0)

  rest_of_line : take (length line) (drop (length before + 1) buffered) ≡ line
  unfolding buffered
  rest_of_line = rw (drop-append_add before (ch ∷ (line ++ crlf b)) 1) (take-append line (crlf b))

  view_size : length line < 2 ^ 64 → sub_size lf_at (length before + 2) ≡ length line
  view_size h = omega arith

  pub take_line-buffered :
      length line < 2 ^ 64
      → take_line buffered (length before) lf_at inc
        ≡ (ok (ch, line), record { linebuffer = buffered; position = lf_at + 1; incoming = inc })
  unfolding take_line
  take_line-buffered h =
      let e : (lf_at == length before) ≡ false = ground arith in
      rw (e, ends_cr, first_byte, view_size h, rest_of_line) refl

pub read_line_loop-found :
    (idle : Error) (inc : List Recv) (fd : ℕ) (buf : Bytes) (p k : ℕ)
    → find_from b'\n' fd buf ≡ some k
    → read_line_loop idle inc fd buf p ≡ take_line buf p k inc
unfolding read_line_loop
read_line_loop-found idle [] fd buf p k e = rw (e, read_line_loop)
read_line_loop-found idle (fails x ∷ inc) fd buf p k e = rw (e, read_line_loop)
read_line_loop-found idle (would_block ∷ inc) fd buf p k e = rw (e, read_line_loop)
read_line_loop-found idle (got bs ∷ inc) fd buf p k e = rw (e, read_line_loop)

pub read_line_loop-more :
    (idle : Error) (bs : Bytes) (inc : List Recv) (fd : ℕ) (buf : Bytes) (p : ℕ)
    → find_from b'\n' fd buf ≡ none
    → bs ≢ []
    → length buf + length bs < max_bulk_size
    → read_line_loop idle (got bs ∷ inc) fd buf p
      ≡ read_line_loop idle inc (length buf) (buf ++ bs) p
unfolding read_line_loop
read_line_loop-more idle [] inc fd buf p e ne h = absurd (ne refl)
read_line_loop-more idle (b ∷ bs) inc fd buf p e ne h =
    let t : leb max_bulk_size (length buf + length (b ∷ bs)) ≡ false = ground arith in
    rw (e, read_line_loop) (rw t refl)
