-- ===== src/Value/Tests.antt =====
-- Values as JSON.
use xredis_client.Base.{Bytes, codes, ◌∷◌, some, ◌≡◌, refl}
use xredis_client.Base.Int.{negsuc}
use xredis_client.Base.Decimal.{to_chars, to_chars_signed}
use xredis_client.Value.{
  Value, array, integer, bulk_string, setv, mapv, nil, cons, no_pairs, pair, nullptr,
}
use xredis_client.Value.Escape.{plain, read_json, escape_string, read-escape_string}
use xredis_client.Value.Dump.{dump_recursion}

-- A double as its own text.
abbrev same : Bytes → Bytes
same s = s

abbrev value : Value Bytes
value = array (
    cons (integer (negsuc 6))
      (cons (bulk_string (codes "a\"\nb")) (cons (mapv (pair nullptr (setv nil) no_pairs)) nil)))

dump-value :
    dump_recursion same value
    ≡ codes "[-7,\"a\\\"\\nb\",{\"type\":\"map\",\"data\":[[null,{\"type\":\"set\",\"data\":[]}]]}]"
unfolding dump_recursion escape_string to_chars_signed to_chars
dump-value = refl

read-escape_string_example :
    read_json plain (escape_string (27 ∷ codes "[0m\"")) ≡ some (27 ∷ codes "[0m\"")
read-escape_string_example = read-escape_string (27 ∷ codes "[0m\"")
