-- ===== src/Parser/Encode.antt =====
-- RESP as the protocol describes it, independently of the parser: the bytes of a value. `show` writes
-- a `double`.
use xredis_client.Base.{◌/◌, ℕ, ◌^◌, ◌≤◌, ◌<◌, Bytes, [], ◌∷◌, ◌++◌, ◌≡◌, if◌then◌else◌, length}
use xredis_client.Base.Decimal.{to_chars, to_chars_signed}
use xredis_client.Outcome.{Result, ok}
use xredis_client.Value.{
  Value, Values, Pairs, nullptr, array, push, setv, mapv, simple_string, simple_error, bulk_string,
  big_number, bulk_error, verbatim_string, integer, boolean, doublev, attribute, nil, cons,
  no_pairs, pair, values_length, pairs_length,
}
use xredis_client.Parser.{max_bulk_size}
use xredis_client.Parser.Newlines.{NoLf, crlf}
use xredis_client.Parser.Numbers.{IsInt64}

abbrev pub line_of : ℕ → Bytes → Bytes
line_of c text = c ∷ (text ++ crlf [])

abbrev pub bulk_of : ℕ → Bytes → Bytes
bulk_of c s = line_of c (to_chars (length s)) ++ (s ++ crlf [])

module _ {D : Type 0} (show : D → Bytes) where
  unfoldable mutual
    pub encode : Value D → Bytes
    encode nullptr = line_of b'_' []
    encode (array vs) = line_of b'*' (to_chars (values_length vs)) ++ encode_values vs
    encode (push vs) = line_of b'>' (to_chars (values_length vs)) ++ encode_values vs
    encode (setv vs) = line_of b'~' (to_chars (values_length vs)) ++ encode_values vs
    encode (mapv ps) = line_of b'%' (to_chars (pairs_length ps)) ++ encode_pairs ps
    encode (simple_string s) = line_of b'+' s
    encode (simple_error s) = line_of b'-' s
    encode (bulk_string s) = bulk_of b'$' s
    encode (big_number s) = line_of b'(' s
    encode (bulk_error s) = bulk_of b'!' s
    encode (verbatim_string s) = bulk_of b'=' s
    encode (integer i) = line_of b':' (to_chars_signed i)
    encode (boolean b) = line_of b'#' ((if b then b't' else b'f') ∷ [])
    encode (doublev d) = line_of b',' (show d)
    encode (attribute ps v) =
        line_of b'|' (to_chars (pairs_length ps)) ++ (encode_pairs ps ++ encode v)

    pub encode_values : Values D → Bytes
    encode_values nil = []
    encode_values (cons v vs) = encode v ++ encode_values vs

    pub encode_pairs : Pairs D → Bytes
    encode_pairs no_pairs = []
    encode_pairs (pair k v ps) = encode k ++ (encode v ++ encode_pairs ps)

-- A count that fits an `int64_t` and a vector.
abbrev pub IsCount : ℕ → ℕ → Type 0
IsCount max_elements n = (n ≤ max_elements) × (n < 2 ^ 63)

module _ {D : Type 0} (show : D → Bytes) (stod_view : Bytes → Result D) (max_elements : ℕ) where
  -- What the protocol and the limits of the parser ask of a value: no newline in a text that is one
  -- line, bulks below the limit, numbers and counts in range, doubles that their text determines.
  unfoldable mutual
    pub IsEncodable : Value D → Type 0
    IsEncodable nullptr = Unit
    IsEncodable (array vs) = IsCount max_elements (values_length vs) × AreEncodable vs
    IsEncodable (push vs) = IsCount max_elements (values_length vs) × AreEncodable vs
    IsEncodable (setv vs) = IsCount max_elements (values_length vs) × AreEncodable vs
    IsEncodable (mapv ps) = IsCount (max_elements / 2) (pairs_length ps) × PairsEncodable ps
    IsEncodable (simple_string s) = NoLf s
    IsEncodable (simple_error s) = NoLf s
    IsEncodable (bulk_string s) = length s < max_bulk_size
    IsEncodable (big_number s) = NoLf s
    IsEncodable (bulk_error s) = length s < max_bulk_size
    IsEncodable (verbatim_string s) = length s < max_bulk_size
    IsEncodable (integer i) = IsInt64 i
    IsEncodable (boolean b) = Unit
    IsEncodable (doublev d) = NoLf (show d) × (stod_view (show d) ≡ ok d)
    IsEncodable (attribute ps v) =
        IsCount (max_elements / 2) (pairs_length ps) × PairsEncodable ps × IsEncodable v

    pub AreEncodable : Values D → Type 0
    AreEncodable nil = Unit
    AreEncodable (cons v vs) = IsEncodable v × AreEncodable vs

    pub PairsEncodable : Pairs D → Type 0
    PairsEncodable no_pairs = Unit
    PairsEncodable (pair k v ps) = IsEncodable k × IsEncodable v × PairsEncodable ps
