-- ===== src/Connection/Tests.antt =====
-- Slots and addresses at concrete inputs.
use xredis_client.Base.{ℕ, ◌*◌, ◌%◌, ◌<◌, codes, ◌≡◌, ◌≢◌, refl, arith, take}
use xredis_client.Base.Decimal.{to_chars}
use xredis_client.Connection.{get_slot, crc16, crc_byte, shift_bit, iterate, uint32toip, iptouint32}
use xredis_client.Base.{none, some, false}
use xredis_client.Base.Int.{pos}
use xredis_client.Base.Decimal.{to_chars_signed}
use xredis_client.Base.{zero, suc, ◌^◌, Bytes, List, [], ◌∷◌, ◌++◌, length, length-drop}
use xredis_client.Command.{build_commands}
use xredis_client.Outcome.{Result, ok, err, econnreset}
use xredis_client.Value.{
  Value, mapv, pair, no_pairs, simple_string, integer, array, nil, is_map, is_array,
}
use xredis_client.Parser.{Parser, got}
use xredis_client.Parser.Replies.{delivered}
use xredis_client.Parser.Stream.{Ready}
use xredis_client.Parser.Encode.{encode, IsEncodable}
use xredis_client.Connection.Open.{
  connect_spot, Sends, connect_spot-opens, ClosedOnError, connect_spot-closes,
}
use xredis_client.Connection.Seeds.{
  ClusterConnectionOption, Seed, cluster_opening, connect_cluster, AllFail, sent_to, hello_of,
  connect_cluster-finds, try_seed,
}
use xredis_client.Connection.Hello.{
  ConnectionOption, opening, auth_words, set_option, to_option, to_option-set_option,
}
use xredis_client.Connection.Slots.{tagged, get_slot-tagged, crc_byte-xmodem}
use xredis_client.Connection.Address.{uint32toip_wrong}

-- The slots that the Redis documentation gives.
slot_of_foo : get_slot (codes "foo") ≡ 12182
unfolding get_slot
slot_of_foo = refl

get_slot-tagged_example :
    (get_slot (tagged (codes "a") (codes "user") (codes ".x")) ≡ crc16 (codes "user") % 16384)
    × (get_slot (tagged (codes "a") (codes "user") (codes ".x")) < 16384)
get_slot-tagged_example =
    get_slot-tagged (codes "a") (codes "user") (codes ".x") ((λ e. omega arith), tt)
      ((λ e. omega arith), ((λ e. omega arith), ((λ e. omega arith), ((λ e. omega arith), tt))))
      (λ e. cc)

crc_byte-xmodem_example : crc_byte 0 0x31 ≡ iterate 8 shift_bit (0x31 * 256)
crc_byte-xmodem_example = crc_byte-xmodem 0x31 (omega arith)

-- 127.0.0.1
abbrev localhost : ℕ
localhost = 0x7f000001

localhost_text : uint32toip localhost ≡ (codes "127.0.0.1", 8)
unfolding uint32toip to_chars
localhost_text = refl

uint32toip_wrong_example :
    iptouint32 (take (uint32toip localhost).1 (uint32toip localhost).0) ≢ localhost
uint32toip_wrong_example = uint32toip_wrong localhost (omega arith) (omega arith)

abbrev option : ConnectionOption
option = record {
  ip = some (codes "10.0.0.1");
  username = none;
  password = some (codes "secret");
  clientname = none;
  db = pos 2;
  resp = pos 3;
  port = 6379;
}

opening_bytes :
    opening option
    ≡ codes
        "*4\r\n$5\r\nHELLO\r\n$1\r\n3\r\n$4\r\nAUTH\r\n$6\r\nsecret\r\n*2\r\n$6\r\nSELECT\r\n$1\r\n2\r\n"
unfolding opening to_chars to_chars_signed
opening_bytes = refl

to_option-set_option_example :
    (to_option (set_option option) ≡ option)
    × (opening (to_option (set_option option)) ≡ opening option)
to_option-set_option_example =
    to_option-set_option option ((λ e. cc), (λ e. cc), (λ e. cc), (λ e. cc))

-- The bytes go out in two pieces; the server sends two replies in two packets, and more.
abbrev view : Bytes → Result Bytes
view = ok

abbrev same : Bytes → Bytes
same s = s

abbrev max : ℕ
max = 2 ^ 59

abbrev ones : ℕ → List (Result ℕ)
ones zero = []
ones (suc n) = ok 1 ∷ ones n

abbrev hello_reply : Value Bytes
hello_reply = mapv (pair (simple_string (codes "proto")) (integer (pos 3)) no_pairs)

abbrev server : Parser
server = record {
  linebuffer = [];
  position = 0;
  incoming = got (codes "%1\r\n+proto\r\n:") ∷ got (codes "3\r\n+OK\r\n+next") ∷ [];
}

server-Ready :
    Ready server
      (encode same hello_reply ++ (encode same (simple_string (codes "OK")) ++ codes "+next"))
unfolding encode delivered to_chars to_chars_signed
server-Ready = record {
  inside = omega arith;
  ahead = refl;
  flowing = ((λ e. cc), ((λ e. cc), tt));
  small = omega arith;
}

hello_reply-IsEncodable : IsEncodable same view max hello_reply
unfolding IsEncodable
hello_reply-IsEncodable = (
  (omega arith, omega arith),
  (
    (
      (λ e. omega arith),
      ((λ e. omega arith), ((λ e. omega arith), ((λ e. omega arith), ((λ e. omega arith), tt)))),
    ),
    omega arith,
    tt,
  ),
)

length-opening : length (opening option) ≡ 67
unfolding opening to_chars to_chars_signed
length-opening = refl

abbrev pieces : List (Result ℕ)
pieces = ok 20 ∷ ok 47 ∷ ones 65

pieces-Sends : Sends pieces (opening option)
pieces-Sends = (
  omega arith,
  omega (arith, length-opening),
  λ h. (
    omega arith,
    omega (arith, length-opening, length-drop 20 (opening option)),
    λ k. absurd (omega (arith, k, length-opening, length-drop 20 (opening option))),
  ),
)

connect_spot-opens_example :
    (q : Parser) × (connect_spot view max option (ok tt) pieces server
      ≡ record { result = ok hello_reply; sent = opening option; parser = q; closed = false })
    × Ready q (codes "+next")
unfolding is_map is_array
connect_spot-opens_example =
    connect_spot-opens same view max option pieces server hello_reply (codes "+next")
      (omega (arith, length-opening)) pieces-Sends hello_reply-IsEncodable refl server-Ready

connect_spot-closes_example :
    ClosedOnError same view max (connect_spot view max option (ok tt) pieces server)
connect_spot-closes_example = connect_spot-closes same view max option (ok tt) pieces server

-- A cluster whose first seed refuses the connection.
abbrev cluster_option : ClusterConnectionOption
cluster_option = record { username = none; password = none; clientname = none; resp = pos 3 }

length-cluster_opening : length (cluster_opening cluster_option) ≡ 50
unfolding cluster_opening to_chars auth_words
length-cluster_opening = refl

abbrev all_at_once : List (Result ℕ)
all_at_once = ok 50 ∷ ones 49

all_at_once-Sends : Sends all_at_once (cluster_opening cluster_option)
all_at_once-Sends = (
  omega arith,
  omega (arith, length-cluster_opening),
  λ h. absurd (omega (arith, h, length-cluster_opening)),
)

abbrev no_slots : Value Bytes
no_slots = array nil

abbrev dead_seed : Seed
dead_seed = record { tcp = err econnreset; results = []; parser = server }

abbrev live_seed : Seed
live_seed = record {
  tcp = ok tt;
  results = all_at_once;
  parser = record {
    linebuffer = [];
    position = 0;
    incoming = got (codes "%1\r\n+proto\r\n:3\r\n*0\r\n") ∷ [];
  };
}

live_seed-Ready : Ready live_seed.parser (encode same hello_reply ++ (encode same no_slots ++ []))
unfolding encode delivered to_chars to_chars_signed
live_seed-Ready = record {
  inside = omega arith;
  ahead = refl;
  flowing = ((λ e. cc), tt);
  small = omega arith;
}

no_slots-IsEncodable : IsEncodable same view max no_slots
unfolding IsEncodable
no_slots-IsEncodable = ((omega arith, omega arith), tt)

dead_seed-AllFail : AllFail view max cluster_option (dead_seed ∷ [])
unfolding try_seed
dead_seed-AllFail = (refl, tt)

connect_cluster-finds_example :
    connect_cluster view max cluster_option ((dead_seed ∷ []) ++ (live_seed ∷ [])) ≡ (
      ok no_slots,
      sent_to view max cluster_option (dead_seed ∷ [])
          ++ ((build_commands (hello_of cluster_option)
                ++ build_commands (codes "CLUSTER" ∷ codes "SLOTS" ∷ []))
              ∷ []),
    )
unfolding is_map is_array
connect_cluster-finds_example =
    connect_cluster-finds same view max cluster_option (dead_seed ∷ []) [] live_seed hello_reply
      no_slots [] dead_seed-AllFail refl (omega (arith, length-cluster_opening)) all_at_once-Sends
      hello_reply-IsEncodable no_slots-IsEncodable refl refl live_seed-Ready
