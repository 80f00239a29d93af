-- ===== src/Parser/Bodies.antt =====
-- The recursive parser of src/RedisParser.cpp, a level at a time: a line, and what its prefix asks for.
use xredis_client.Base.{
  ◌/◌, ℕ, suc, ◌≤◌, ◌<◌, ◌^◌, Bytes, [], ◌∷◌, ◌++◌, false, ◌≡◌, refl, ltb, some, length, append-nil,
  arith,
}
use xredis_client.Base.Decimal.{to_chars}
use xredis_client.Outcome.{Error, Result, ok}
use xredis_client.Value.{Value, Values, Pairs, bulk_string, values_length, pairs_length}
use xredis_client.Parser.{max_bulk_size, read_line_or, read_bulk_or, stoll_view}
use xredis_client.Parser.Replies.{
  M, reserve, classify, check_count, check_length, elements, pairs, bulk_body, null_or_bulk,
  vector_body, map_body, switch, parse_recursion_or,
}
use xredis_client.Parser.Stream.{Reads, Reads-bind, Reads-map, Reads-lift}
use xredis_client.Parser.Newlines.{NoLf, crlf}
use xredis_client.Parser.Lines.{read_line-Reads}
use xredis_client.Parser.Bulks.{read_bulk-Reads}
use xredis_client.Parser.Numbers.{stoll_view-to_chars}
use xredis_client.Parser.Encode.{line_of, IsCount}

pub check_count-to_chars : (n : ℕ) → n < 2 ^ 63 → check_count (stoll_view (to_chars n)) ≡ ok n
unfolding check_count
check_count-to_chars n h = rw (stoll_view-to_chars n h) refl

reserve-Reads : (max_elements n : ℕ) → n ≤ max_elements → Reads (reserve max_elements n) tt []
reserve-Reads max_elements n h s rest r =
    let t : ltb max_elements n ≡ false = ground arith in rw t (s, refl, r)

module _ {D : Type 0} (stod_view : Bytes → Result D) (max_elements : ℕ) (idle : Error) where
  abbrev rec : ℕ → M (Value D)
  rec = parse_recursion_or stod_view max_elements idle

  -- A value is a line and what its prefix asks for.
  pub value-Reads :
      (f : ℕ) (ch : ℕ) (text : Bytes) (v : Value D) (body : Bytes)
      → NoLf (ch ∷ text)
      → Reads (switch stod_view max_elements (read_bulk_or idle) (rec f) (classify ch) text) v body
      → Reads (rec (suc f)) v (line_of ch text ++ body)
  unfolding parse_recursion_or
  value-Reads f ch text v body clean h =
      Reads-bind (read_line_or idle) _ (ch, text) v (line_of ch text) body
        (read_line-Reads idle ch text clean) h

  pub leaf-Reads :
      (f : ℕ) (ch : ℕ) (text : Bytes) (v : Value D)
      → NoLf (ch ∷ text)
      → Reads (switch stod_view max_elements (read_bulk_or idle) (rec f) (classify ch) text) v []
      → Reads (rec (suc f)) v (line_of ch text)
  leaf-Reads f ch text v clean h = rw append-nil at (value-Reads f ch text v [] clean h)

  pub bulk_body-Reads :
      (make : Bytes → Value D) (s : Bytes)
      → length s < max_bulk_size
      → Reads
          (bulk_body stod_view max_elements (read_bulk_or idle) make (to_chars (length s)))
          (make s)
          (s ++ crlf [])
  unfolding bulk_body
  bulk_body-Reads make s h =
      Reads-lift _ _ (length s) (make s) _ (check_count-to_chars (length s) (omega arith))
        (Reads-map _ make s _ (read_bulk-Reads idle s h))

  pub vector_body-Reads :
      (f : ℕ) (make : Values D → Value D) (vs : Values D)
      → IsCount max_elements (values_length vs)
      → (bytes : Bytes) → Reads (elements (rec f) (values_length vs)) vs bytes
      → Reads
          (vector_body stod_view max_elements (rec f) make (to_chars (values_length vs)))
          (make vs)
          bytes
  unfolding vector_body
  vector_body-Reads f make vs c bytes h =
      Reads-lift _ _ (values_length vs) (make vs) bytes (check_count-to_chars _ c.1) (
        Reads-bind (reserve max_elements (values_length vs)) _ tt (make vs) [] bytes
          (reserve-Reads max_elements (values_length vs) c.0) (Reads-map _ make vs bytes h))

  pub map_body-Reads :
      (f : ℕ) (ps : Pairs D)
      → IsCount (max_elements / 2) (pairs_length ps)
      → (bytes : Bytes) → Reads (pairs (rec f) (pairs_length ps)) ps bytes
      → Reads (map_body stod_view max_elements (rec f) (to_chars (pairs_length ps))) ps bytes
  unfolding map_body
  map_body-Reads f ps c bytes h =
      Reads-lift _ _ (pairs_length ps) ps bytes (check_count-to_chars _ c.1) (
        Reads-bind (reserve (max_elements / 2) (pairs_length ps)) _ tt ps [] bytes
          (reserve-Reads (max_elements / 2) (pairs_length ps) c.0) h)

  pub null_or_bulk-Reads :
      (s : Bytes)
      → length s < max_bulk_size
      → Reads
          (null_or_bulk stod_view max_elements (read_bulk_or idle) (some (length s)))
          (bulk_string s)
          (s ++ crlf [])
  unfolding null_or_bulk
  null_or_bulk-Reads s h = Reads-map _ bulk_string s _ (read_bulk-Reads idle s h)

  pub check_length-to_chars :
      (n : ℕ) → n < 2 ^ 63 → check_length (stoll_view (to_chars n)) ≡ ok (some n)
  unfolding check_length
  check_length-to_chars n h = rw (stoll_view-to_chars n h) refl
