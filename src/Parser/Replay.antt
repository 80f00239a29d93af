-- ===== src/Parser/Replay.antt =====
-- The round trip at the level of `parse` and `try_parse`, and a header that ends the process.
use xredis_client.Base.{
  ℕ, suc, ◌^◌, ◌<◌, Bytes, true, ◌++◌, ltb, length, length-append, length-drop, drop, ◌≡◌, refl, ap,
  arith,
}
use xredis_client.Base.Decimal.{to_chars}
use xredis_client.Outcome.{Error, Result, ok, err, suspended, eagain, terminated}
use xredis_client.Value.{Value}
use xredis_client.Parser.{Parser, consume}
use xredis_client.Parser.Replies.{
  continue, classify, switch, vector_body, delivered, fuel_for, parse_recursion_or, parse_recursion,
  try_parse_recursion, consume_if_ok, rewind, parse, try_parse,
}
use xredis_client.Parser.Numbers.{to_chars-NoLf}
use xredis_client.Parser.Stream.{Ready}
use xredis_client.Parser.Lines.{read_line-Reads}
use xredis_client.Parser.Progress.{stream}
use xredis_client.Parser.Encode.{line_of, encode, IsEncodable}
use xredis_client.Parser.Bodies.{check_count-to_chars}
use xredis_client.Parser.RoundTrip.{parse_recursion-encode}

module _ {D : Type 0} (show : D → Bytes) (stod_view : Bytes → Result D) (max_elements : ℕ) where
  pub enough_fuel :
      (v : Value D) (s : Parser) (rest : Bytes)
      → Ready s (encode show v ++ rest)
      → length (encode show v) < fuel_for s
  unfolding fuel_for
  enough_fuel v s rest r = omega (
    arith,
    ap length r.ahead,
    length-append {0} (encode show v) rest,
    length-append {0} (drop s.position s.linebuffer) (delivered s.incoming),
    length-drop s.position s.linebuffer,
  )

  consumed :
      (v : Value D) (r : Result (Value D) × Parser) (s : Parser) (rest : Bytes)
      → r ≡ (ok v, s)
      → Ready s rest
      → (s' : Parser) × (consume_if_ok r ≡ (ok v, s')) × (s'.position ≡ 0) × (stream s' ≡ rest)
  unfolding consume_if_ok
  consumed v r s rest e ready = (consume s, rw e refl, refl, ready.ahead)

  -- `parse` and `try_parse` return any encodable value whose bytes are ahead, in whatever packets
  -- they arrive, and erase exactly those bytes: the stream starts with what came behind them. All
  -- that is buffered or on its way (`Ready`) is below the limit of a bulk.
  pub parse-encode :
      (v : Value D) (s : Parser) (rest : Bytes)
      → IsEncodable show stod_view max_elements v
      → Ready s (encode show v ++ rest)
      → ((s' : Parser) × (parse stod_view max_elements s ≡ (ok v, s'))
          × (s'.position ≡ 0)
          × (stream s' ≡ rest))
        × ((s' : Parser) × (try_parse stod_view max_elements s ≡ (ok v, s'))
            × (s'.position ≡ 0)
            × (stream s' ≡ rest))
  unfolding parse try_parse parse_recursion try_parse_recursion rewind
  parse-encode v s rest h r =
      let l = enough_fuel v s rest r in
      let (t, e, ready) =
        parse_recursion-encode show stod_view max_elements suspended v (fuel_for s) s rest h l r in
      let (u, e', ready') =
        parse_recursion-encode show stod_view max_elements eagain v (fuel_for s) s rest h l r in
      let (t', q, z, w) = consumed v _ t rest e ready in
      let (u', q', z', w') = consumed v _ u rest e' ready' in
      ((t', q, z, w), (record u' { position = 0 }, ap rewind q', refl, w'))

-- In a build with -fno-exceptions, the header of an array of more elements than a vector can hold, and
-- fewer than 2^63, ends the process, before any element arrives, while all that is buffered or on
-- its way is below the limit of a bulk.
pub huge_array_terminates :
    {D : Type 0} (stod_view : Bytes → Result D) (max_elements n : ℕ) (idle : Error) (f : ℕ)
    (s : Parser) (rest : Bytes)
    → max_elements < n
    → n < 2 ^ 63
    → Ready s (line_of b'*' (to_chars n) ++ rest)
    → (parse_recursion_or stod_view max_elements idle (suc f) s).0 ≡ err terminated
unfolding parse_recursion_or switch classify vector_body
huge_array_terminates stod_view max_elements n idle f s rest big small r =
    let (s', e, _) =
      read_line-Reads idle b'*' (to_chars n) (omega arith, to_chars-NoLf n) s rest r in
    let t : ltb max_elements n ≡ true = ground arith in
    rw (e, continue) (rw (check_count-to_chars n small) (rw (t, continue) refl))
