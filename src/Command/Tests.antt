-- ===== src/Command/Tests.antt =====
-- The requests at concrete arguments.
use xredis_client.Base.{◌^◌, Bytes, codes, List, [], ◌∷◌, ◌++◌, ◌≡◌, refl, arith}
use xredis_client.Base.Decimal.{to_chars}
use xredis_client.Outcome.{Result, ok}
use xredis_client.Value.{array}
use xredis_client.Parser.{Parser, got}
use xredis_client.Parser.Replies.{parse, delivered}
use xredis_client.Parser.Progress.{stream}
use xredis_client.Parser.Stream.{Ready}
use xredis_client.Command.{build_commands}
use xredis_client.Command.Builder.{bulks, parse-build_commands}

abbrev view : Bytes → Result Bytes
view = ok

abbrev same : Bytes → Bytes
same s = s

-- A value with a line break in it.
abbrev args : List Bytes
args = codes "SET" ∷ codes "k" ∷ codes "a\r\nb" ∷ []

build_commands-args : build_commands args ≡ codes "*3\r\n$3\r\nSET\r\n$1\r\nk\r\n$4\r\na\r\nb\r\n"
unfolding build_commands to_chars
build_commands-args = refl

-- The request arrives in two packets, with the next one behind it.
abbrev peer : Parser
peer = record {
  linebuffer = codes "*3\r\n$3\r\nSE";
  position = 0;
  incoming = got (codes "T\r\n$1\r\nk\r\n$4\r\na\r\nb\r\n*1\r\n") ∷ [];
}

peer-Ready : Ready peer (build_commands args ++ codes "*1\r\n")
unfolding build_commands delivered to_chars
peer-Ready = record {
  inside = omega arith;
  ahead = refl;
  flowing = ((λ e. cc), tt);
  small = omega arith;
}

parse-build_commands_example :
    (s' : Parser) × (parse view (2 ^ 59) peer ≡ (ok (array (bulks args)), s'))
    × (s'.position ≡ 0)
    × (stream s' ≡ codes "*1\r\n")
parse-build_commands_example =
    parse-build_commands same view (2 ^ 59) args peer (codes "*1\r\n")
      (omega arith, (omega arith, (omega arith, tt))) (omega arith) (omega arith) peer-Ready
