-- ===== src/Parser/RoundTrip.antt =====
-- The recursive parser of src/RedisParser.cpp on the encoding of a value.
use xredis_client.Base.{
  ℕ, zero, suc, ◌<◌, Bytes, [], ◌∷◌, ◌++◌, Bool, true, false, ◌≡◌, some, length, length-append,
  arith,
}
use xredis_client.Base.Decimal.{to_chars}
use xredis_client.Outcome.{Error, Result, ok}
use xredis_client.Value.{
  Value, Values, Pairs, nullptr, array, push, setv, mapv, simple_string, simple_error, bulk_string,
  big_number, bulk_error, verbatim_string, integer, boolean, doublev, attribute, nil, cons,
  no_pairs, pair, values_length, pairs_length,
}
use xredis_client.Parser.{Parser}
use xredis_client.Parser.Replies.{
  M, classify, boolean_of, elements, pairs, switch, parse_recursion_or,
}
use xredis_client.Parser.Stream.{Ready, Reads, Reads-bind, Reads-pure, Reads-map, Reads-lift}
use xredis_client.Parser.Newlines.{crlf}
use xredis_client.Parser.Numbers.{stoll_view-to_chars_signed, to_chars-NoLf, to_chars_signed-NoLf}
use xredis_client.Parser.Encode.{
  line_of, encode, encode_values, encode_pairs, IsEncodable, AreEncodable, PairsEncodable,
}
use xredis_client.Parser.Bodies.{
  value-Reads, leaf-Reads, bulk_body-Reads, vector_body-Reads, map_body-Reads, null_or_bulk-Reads,
  check_length-to_chars,
}

module _ {D : Type 0} (show : D → Bytes) (stod_view : Bytes → Result D) (max_elements : ℕ)
    (idle : Error) where
  abbrev again : ℕ → M (Value D)
  again = parse_recursion_or stod_view max_elements idle

  abbrev ReadsValue : Value D → Type 0
  ReadsValue v =
      IsEncodable show stod_view max_elements v
      → (f : ℕ) → length (encode show v) < f
      → Reads (again f) v (encode show v)

  abbrev ReadsValues : Values D → Type 0
  ReadsValues vs =
      AreEncodable show stod_view max_elements vs
      → (f : ℕ) → length (encode_values show vs) < f
      → Reads (elements (again f) (values_length vs)) vs (encode_values show vs)

  abbrev ReadsPairs : Pairs D → Type 0
  ReadsPairs ps =
      PairsEncodable show stod_view max_elements ps
      → (f : ℕ) → length (encode_pairs show ps) < f
      → Reads (pairs (again f) (pairs_length ps)) ps (encode_pairs show ps)

  abbrev AllAbove : ℕ → (ℕ → Type 0) → Type 0
  AllAbove n P = (f : ℕ) → n < f → P f

  -- Fuel above a bound has one unit to one_level.
  one_level :
      (P : ℕ → Type 0) {n : ℕ} (after : (rest : ℕ) → n < suc rest → P (suc rest)) → AllAbove n P
  one_level P after zero h = absurd (omega arith)
  one_level P after (suc rest) h = after rest h

  body_lt :
      (c n f : ℕ) (body : Bytes) → length (line_of c (to_chars n) ++ body) < suc f → length body < f
  body_lt c n f body h = omega (
    arith,
    length-append {0} (line_of c (to_chars n)) body,
    length-append {0} (to_chars n) (crlf []),
  )

  left_lt : (xs ys : Bytes) (f : ℕ) → length (xs ++ ys) < f → length xs < f
  left_lt xs ys f h = omega (arith, length-append {0} xs ys)

  right_lt : (xs ys : Bytes) (f : ℕ) → length (xs ++ ys) < f → length ys < f
  right_lt xs ys f h = omega (arith, length-append {0} xs ys)

  boolean-Reads : (b : Bool) → ReadsValue (boolean b)
  unfolding encode switch classify boolean_of
  boolean-Reads true h =
      one_level (λ f. Reads (again f) (boolean true) (encode show (boolean true)))
        λ f l.
          leaf-Reads stod_view max_elements idle f b'#' (b't' ∷ []) (boolean true)
            (omega arith, (omega arith, tt)) (Reads-pure (boolean true))
  boolean-Reads false h =
      one_level (λ f. Reads (again f) (boolean false) (encode show (boolean false)))
        λ f l.
          leaf-Reads stod_view max_elements idle f b'#' (b'f' ∷ []) (boolean false)
            (omega arith, (omega arith, tt)) (Reads-pure (boolean false))

  encode-Reads : (v : Value D) → ReadsValue v
  unfolding encode IsEncodable switch classify elements pairs boolean_of
  encode-Reads v = elim v as ReadsValue ReadsValues ReadsPairs [
    | nullptr ↦ λ h.
        one_level (λ f. Reads (again f) (nullptr) (encode show (nullptr)))
          λ f l.
            leaf-Reads stod_view max_elements idle f b'_' [] (nullptr) (omega arith, tt)
              (Reads-pure nullptr)
    | array (vs → ih) ↦ λ h.
        one_level (λ f. Reads (again f) (array vs) (encode show (array vs)))
          λ f l.
            value-Reads stod_view max_elements idle f b'*' _ (array vs) _
              (omega arith, to_chars-NoLf _)
              (vector_body-Reads stod_view max_elements idle f array vs h.0 _
                (ih h.1 f (body_lt b'*' _ f _ l)))
    | push (vs → ih) ↦ λ h.
        one_level (λ f. Reads (again f) (push vs) (encode show (push vs)))
          λ f l.
            value-Reads stod_view max_elements idle f b'>' _ (push vs) _
              (omega arith, to_chars-NoLf _)
              (vector_body-Reads stod_view max_elements idle f push vs h.0 _
                (ih h.1 f (body_lt b'>' _ f _ l)))
    | setv (vs → ih) ↦ λ h.
        one_level (λ f. Reads (again f) (setv vs) (encode show (setv vs)))
          λ f l.
            value-Reads stod_view max_elements idle f b'~' _ (setv vs) _
              (omega arith, to_chars-NoLf _)
              (vector_body-Reads stod_view max_elements idle f setv vs h.0 _
                (ih h.1 f (body_lt b'~' _ f _ l)))
    | mapv (ps → ih) ↦ λ h.
        one_level (λ f. Reads (again f) (mapv ps) (encode show (mapv ps)))
          λ f l.
            value-Reads stod_view max_elements idle f b'%' _ (mapv ps) _
              (omega arith, to_chars-NoLf _)
              (Reads-map _ mapv ps _ (
                map_body-Reads stod_view max_elements idle f ps h.0 _
                  (ih h.1 f (body_lt b'%' _ f _ l))))
    | simple_string s ↦ λ h.
        one_level (λ f. Reads (again f) (simple_string s) (encode show (simple_string s)))
          λ f l.
            leaf-Reads stod_view max_elements idle f b'+' _ (simple_string s) (omega arith, h)
              (Reads-pure (simple_string s))
    | simple_error s ↦ λ h.
        one_level (λ f. Reads (again f) (simple_error s) (encode show (simple_error s)))
          λ f l.
            leaf-Reads stod_view max_elements idle f b'-' _ (simple_error s) (omega arith, h)
              (Reads-pure (simple_error s))
    | bulk_string s ↦ λ h.
        one_level (λ f. Reads (again f) (bulk_string s) (encode show (bulk_string s)))
          λ f l.
            value-Reads stod_view max_elements idle f b'$' _ (bulk_string s) _
              (omega arith, to_chars-NoLf _)
              (Reads-lift _ _ (some (length s)) (bulk_string s) _
                (check_length-to_chars stod_view max_elements idle (length s) (omega arith))
                (null_or_bulk-Reads stod_view max_elements idle s h))
    | big_number s ↦ λ h.
        one_level (λ f. Reads (again f) (big_number s) (encode show (big_number s)))
          λ f l.
            leaf-Reads stod_view max_elements idle f b'(' _ (big_number s) (omega arith, h)
              (Reads-pure (big_number s))
    | bulk_error s ↦ λ h.
        one_level (λ f. Reads (again f) (bulk_error s) (encode show (bulk_error s)))
          λ f l.
            value-Reads stod_view max_elements idle f b'!' _ (bulk_error s) _
              (omega arith, to_chars-NoLf _)
              (bulk_body-Reads stod_view max_elements idle bulk_error s h)
    | verbatim_string s ↦ λ h.
        one_level (λ f. Reads (again f) (verbatim_string s) (encode show (verbatim_string s)))
          λ f l.
            value-Reads stod_view max_elements idle f b'=' _ (verbatim_string s) _
              (omega arith, to_chars-NoLf _)
              (bulk_body-Reads stod_view max_elements idle verbatim_string s h)
    | integer i ↦ λ h.
        one_level (λ f. Reads (again f) (integer i) (encode show (integer i)))
          λ f l.
            leaf-Reads stod_view max_elements idle f b':' _ (integer i)
              (omega arith, to_chars_signed-NoLf i)
              (Reads-lift _ _ i (integer i) [] (stoll_view-to_chars_signed i h)
                (Reads-pure (integer i)))
    | boolean b ↦ boolean-Reads b
    | doublev d ↦ λ h.
        one_level (λ f. Reads (again f) (doublev d) (encode show (doublev d)))
          λ f l.
            leaf-Reads stod_view max_elements idle f b',' _ (doublev d) (omega arith, h.0)
              (Reads-lift _ _ d (doublev d) [] h.1 (Reads-pure (doublev d)))
    | attribute (ps → ihp) (w → ih) ↦ λ h.
        one_level (λ f. Reads (again f) (attribute ps w) (encode show (attribute ps w)))
          λ f l.
            value-Reads stod_view max_elements idle f b'|' _ (attribute ps w) _
              (omega arith, to_chars-NoLf _)
              (Reads-bind _ _ ps (attribute ps w) _ (encode show w)
                (map_body-Reads stod_view max_elements idle f ps h.0 _
                  (ihp h.1 f (left_lt _ _ f (body_lt b'|' _ f _ l))))
                (Reads-map _ (attribute ps) w _ (ih h.2 f (right_lt _ _ f (body_lt b'|' _ f _ l)))))
    | nil ↦ λ h f l. Reads-pure nil
    | cons (w → ih) (vs → ihs) ↦ λ h f l.
        Reads-bind _ _ w (cons w vs) (encode show w) _ (ih h.0 f (left_lt _ _ f l))
          (Reads-map _ (cons w) vs _ (ihs h.1 f (right_lt _ _ f l)))
    | no_pairs ↦ λ h f l. Reads-pure no_pairs
    | pair (k → ihk) (w → ih) (ps → ihs) ↦ λ h f l.
        let l' = right_lt (encode show k) _ f l in
        Reads-bind _ _ k (pair k w ps) (encode show k) _ (ihk h.0 f (left_lt _ _ f l)) (
          Reads-bind _ _ w (pair k w ps) (encode show w) _ (ih h.1 f (left_lt _ _ f l'))
            (Reads-map _ (pair k w) ps _ (ihs h.2 f (right_lt _ _ f l'))))
  ]

-- Any encodable value whose bytes are ahead of the parser, in whatever packets they arrive and with
-- anything behind them, is read by both parsers (`idle` tells them apart), which then stand exactly
-- behind it; fuel above the number of its bytes is enough.
pub parse_recursion-encode :
    {D : Type 0} (show : D → Bytes) (stod_view : Bytes → Result D) (max_elements : ℕ) (idle : Error)
    (v : Value D) (f : ℕ) (s : Parser) (rest : Bytes)
    → IsEncodable show stod_view max_elements v
    → length (encode show v) < f
    → Ready s (encode show v ++ rest)
    → (s' : Parser) × (parse_recursion_or stod_view max_elements idle f s ≡ (ok v, s'))
      × Ready s' rest
parse_recursion-encode show stod_view max_elements idle v f s rest h l r =
    encode-Reads show stod_view max_elements idle v h f l s rest r
