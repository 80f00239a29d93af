-- ===== src/Parser/Tests.antt =====
-- Runs of the parser on small inputs, and its theorems at inputs that meet their hypotheses.
use xredis_client.Base.{ℕ, ◌^◌, Bytes, codes, [], ◌∷◌, ◌++◌, ◌≡◌, ◌≢◌, refl, arith}
use xredis_client.Base.Decimal.{to_chars, to_chars_signed}
use xredis_client.Base.Int.{pos}
use xredis_client.Outcome.{Result, ok, err, einval, eagain, out_of_fuel, terminated, suspended}
use xredis_client.Value.{Value, simple_string, nullptr, array, integer, bulk_string, nil, cons}
use xredis_client.Parser.{got, would_block, Parser}
use xredis_client.Parser.Replies.{parse, parse_recursion_or, delivered}
use xredis_client.Parser.Stream.{Ready}
use xredis_client.Parser.Encode.{encode, IsEncodable}
use xredis_client.Parser.Replies.{try_parse_n}
use xredis_client.Parser.Batches.{encode_all, AllEncodable, Delivers, try_parse_n-encode}
use xredis_client.Parser.Progress.{stream}
use xredis_client.Parser.Total.{parse_returns, try_parse_resumes}
use xredis_client.Parser.Replay.{parse-encode, huge_array_terminates}
use xredis_client.Parser.Encode.{line_of}
use xredis_client.Parser.Replies.{try_parse}

-- A double as its own text.
abbrev view : Bytes → Result Bytes
view = ok

abbrev same : Bytes → Bytes
same s = s

abbrev limit : ℕ
limit = 2 ^ 59

-- [12, "hi", null]
abbrev reply : Value Bytes
reply = array (cons (integer (pos 12)) (cons (bulk_string (codes "hi")) (cons nullptr nil)))

abbrev packets : Parser
packets = record {
  linebuffer = codes "+OK\r\n*3\r";
  position = 5;
  incoming = got (codes "\n:12\r\n$2") ∷ got (codes "\r\nhi\r\n_\r\n+next") ∷ [];
}

reply_encodes : encode same reply ≡ codes "*3\r\n:12\r\n$2\r\nhi\r\n_\r\n"
unfolding encode to_chars to_chars_signed
reply_encodes = refl

parse-packets :
    parse view limit packets
    ≡ (ok reply, record { linebuffer = codes "+next"; position = 0; incoming = [] })
unfolding parse
parse-packets = refl

null_array :
    (parse view limit (record { linebuffer = codes "*-1\r\n"; position = 0; incoming = [] })).0
    ≡ err einval
unfolding parse
null_array = refl

packets-Ready : Ready packets (encode same reply ++ codes "+next")
unfolding encode delivered to_chars to_chars_signed
packets-Ready = record {
  inside = omega arith;
  ahead = refl;
  flowing = ((λ e. cc), ((λ e. cc), tt));
  small = omega arith;
}

reply-IsEncodable : IsEncodable same view limit reply
unfolding IsEncodable
reply-IsEncodable = omega arith

parse-encode_example :
    ((s' : Parser) × (parse view limit packets ≡ (ok reply, s'))
      × (s'.position ≡ 0)
      × (stream s' ≡ codes "+next"))
    × ((s' : Parser) × (try_parse view limit packets ≡ (ok reply, s'))
        × (s'.position ≡ 0)
        × (stream s' ≡ codes "+next"))
parse-encode_example =
    parse-encode same view limit reply packets (codes "+next") reply-IsEncodable packets-Ready

-- A reply of which only the front has arrived.
abbrev partial_reply : Parser
partial_reply = record {
  linebuffer = codes "*2\r\n:1\r\n$5\r\nhe";
  position = 0;
  incoming = would_block ∷ [];
}

abbrev stopped_reply : Parser
stopped_reply = record { linebuffer = codes "*2\r\n:1\r\n$5\r\nhe"; position = 0; incoming = [] }

view_sound : (line : Bytes) → view line ≢ err out_of_fuel
view_sound line e = cc

parse_returns_example :
    ((parse view limit partial_reply).0 ≢ err out_of_fuel)
    × ((try_parse view limit partial_reply).0 ≢ err out_of_fuel)
parse_returns_example = parse_returns view limit view_sound partial_reply (omega arith)

partial_stops : try_parse view limit partial_reply ≡ (err eagain, stopped_reply)
unfolding try_parse
partial_stops = refl

try_parse_resumes_example :
    (stopped_reply.position ≡ 0) × (stream stopped_reply ≡ stream partial_reply)
try_parse_resumes_example =
    try_parse_resumes view limit view_sound partial_reply (omega arith) partial_stops (λ e. cc)

-- The header of an array of 2^62 elements.
abbrev huge : Parser
huge = record {
  linebuffer = [];
  position = 0;
  incoming = got (codes "*4611686018427387904\r\n") ∷ [];
}

huge-Ready : Ready huge (line_of b'*' (to_chars (2 ^ 62)) ++ [])
unfolding delivered to_chars
huge-Ready = record {
  inside = omega arith;
  ahead = refl;
  flowing = ((λ e. cc), tt);
  small = omega arith;
}

huge_array_terminates_example : (parse_recursion_or view limit suspended 1 huge).0 ≡ err terminated
huge_array_terminates_example =
    huge_array_terminates view limit (2 ^ 62) suspended 0 huge [] (omega arith) (omega arith)
      huge-Ready

-- Two replies in two packets, the front of a third behind them.
abbrev two : Parser
two = record {
  linebuffer = codes "+OK\r\n:1";
  position = 0;
  incoming = got (codes "2\r\n$5\r\nhe") ∷ [];
}

two-Ready : Ready two (
    encode_all same view limit (simple_string (codes "OK") ∷ integer (pos 12) ∷ [])
    ++ codes "$5\r\nhe")
unfolding encode delivered to_chars to_chars_signed
two-Ready = record {
  inside = omega arith;
  ahead = refl;
  flowing = ((λ e. cc), tt);
  small = omega arith;
}

two-AllEncodable : AllEncodable same view limit (simple_string (codes "OK") ∷ integer (pos 12) ∷ [])
unfolding IsEncodable
two-AllEncodable = ((omega arith, (omega arith, tt)), (omega arith, tt))

try_parse_n-encode_example :
    Delivers same view limit
      (try_parse_n view limit 2 two)
      (simple_string (codes "OK") ∷ integer (pos 12) ∷ [])
      (codes "$5\r\nhe")
try_parse_n-encode_example =
    try_parse_n-encode same view limit (simple_string (codes "OK") ∷ integer (pos 12) ∷ []) two
      (codes "$5\r\nhe") two-AllEncodable two-Ready

-- A batch of three where the third reply is not complete.
abbrev two_and_more : Parser
two_and_more = record {
  linebuffer = codes "+OK\r\n:1";
  position = 0;
  incoming = got (codes "2\r\n$5\r\nhe") ∷ would_block ∷ [];
}

two_and_more_left : (try_parse_n view limit 3 two_and_more).1.linebuffer ≡ codes "$5\r\nhe"
unfolding try_parse_n
two_and_more_left = refl
