-- ===== src/Value/Dump.antt =====
-- src/RedisValue.cpp, dump_recursion: a value as JSON. What the function appends to its buffer is what
-- these definitions return; `show` is `std::to_string` of a `double`.
use xredis_client.Base.{Bytes, [], ◌∷◌, ◌++◌, if◌then◌else◌, codes}
use xredis_client.Base.Decimal.{to_chars_signed}
use xredis_client.Value.{
  Value, Values, Pairs, nullptr, array, push, setv, mapv, simple_string, simple_error, bulk_string,
  big_number, bulk_error, verbatim_string, integer, boolean, doublev, attribute, nil, cons,
  no_pairs, pair,
}
use xredis_client.Value.Escape.{escape_string}

abbrev pub quoted : Bytes → Bytes
quoted text = b'"' ∷ (text ++ (b'"' ∷ []))

module _ {D : Type 0} (show : D → Bytes) where
  unfoldable mutual
    unfolding escape_string

    pub dump_recursion : Value D → Bytes
    dump_recursion nullptr = codes "null"
    dump_recursion (integer i) = to_chars_signed i
    dump_recursion (doublev d) = show d
    dump_recursion (boolean b) = if b then codes "true" else codes "false"
    dump_recursion (simple_string s) = quoted (escape_string s)
    dump_recursion (simple_error s) = quoted (escape_string s)
    dump_recursion (bulk_string s) = quoted (escape_string s)
    dump_recursion (big_number s) = quoted (escape_string s)
    dump_recursion (bulk_error s) = quoted (escape_string s)
    dump_recursion (verbatim_string s) = quoted (escape_string s)
    dump_recursion (array vs) = codes "[" ++ (dump_values vs ++ codes "]")
    dump_recursion (push vs) =
        codes "{\"type\":\"push\",\"data\":[" ++ (dump_values vs ++ codes "]}")
    dump_recursion (setv vs) =
        codes "{\"type\":\"set\",\"data\":[" ++ (dump_values vs ++ codes "]}")
    dump_recursion (mapv ps) = codes "{\"type\":\"map\",\"data\":[" ++ (dump_pairs ps ++ codes "]}")
    dump_recursion (attribute ps v) =
        codes "{\"type\":\"attribute\",\"attributes\":["
        ++ (dump_pairs ps ++ (codes "],\"data\":" ++ (dump_recursion v ++ codes "}")))

    -- The elements with commas between them.
    pub dump_values : Values D → Bytes
    dump_values nil = []
    dump_values (cons v vs) = dump_recursion v ++ dump_more vs

    pub dump_more : Values D → Bytes
    dump_more nil = []
    dump_more (cons v vs) = b',' ∷ (dump_recursion v ++ dump_more vs)

    pub dump_pairs : Pairs D → Bytes
    dump_pairs no_pairs = []
    dump_pairs (pair k v ps) =
        codes "["
        ++ (dump_recursion k
            ++ (codes "," ++ (dump_recursion v ++ (codes "]" ++ dump_more_pairs ps))))

    pub dump_more_pairs : Pairs D → Bytes
    dump_more_pairs no_pairs = []
    dump_more_pairs (pair k v ps) =
        codes ",["
        ++ (dump_recursion k
            ++ (codes "," ++ (dump_recursion v ++ (codes "]" ++ dump_more_pairs ps))))
