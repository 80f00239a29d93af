-- ===== src/Cluster/Tests.antt =====
-- Redirections and the table of shards at concrete inputs.
use xredis_client.Base.{ℕ, ◌<◌, codes, ◌++◌, some, none, false, ◌≡◌, ◌⊎◌, refl, arith}
use xredis_client.Base.Decimal.{to_chars}
use xredis_client.Connection.{ip_text}
use xredis_client.Outcome.{eproto}
use xredis_client.Cluster.{
  moved, ask, no_redirect, failed, parse_error, Shard, Shards, is_at, find_shard,
}
use xredis_client.Base.{Bytes, List, [], ◌∷◌}
use xredis_client.Value.{array, bulk_string, nil, cons}
use xredis_client.Cluster.Slots.{
  Range, AllInRange, Loaded, loaded, refused, load_slots, nothing_loaded, reply_of, owner,
  reply_then, with_replica, load_slots-owner, replicas-refused,
}
use xredis_client.Cluster.Redirection.{target, parse_error-target}
use xredis_client.Cluster.Table.{Found, find_shard-stable}

-- 127.0.0.1
abbrev localhost : ℕ
localhost = 0x7f000001

moved_text : codes "MOVED " ++ target 3999 localhost 6381 ≡ codes "MOVED 3999 127.0.0.1:6381"
unfolding ip_text to_chars
moved_text = refl

-- A slot that does not exist is taken, and so is a port with a tail.
odd_target : parse_error (codes "MOVED 99999 127.0.0.1:6381x") ≡ moved 99999 localhost 6381
unfolding parse_error
odd_target = refl

no_port : parse_error (codes "ASK 1 127.0.0.1") ≡ failed eproto
unfolding parse_error
no_port = refl

other_error : parse_error (codes "ERR unknown command") ≡ no_redirect
unfolding parse_error
other_error = refl

parse_error-target_example :
    (parse_error (codes "MOVED " ++ target 3999 localhost 6381) ≡ moved 3999 localhost 6381)
    × (parse_error (codes "ASK " ++ target 3999 localhost 6381) ≡ ask 3999 localhost 6381)
parse_error-target_example =
    parse_error-target 3999 localhost 6381 (omega arith) (omega arith) (omega arith) (omega arith)

abbrev empty_table : Shards
empty_table i = none

find_shard-stable_example :
    let (o, t') = find_shard 4 localhost 6381 empty_table in
    ((idx : ℕ) × (o ≡ some idx)
      × Found 4 localhost 6381 empty_table idx t' (find_shard 4 localhost 6381 t'))
    ⊎ ((o ≡ none)
        × (t' ≡ empty_table)
        × ((j : ℕ)
            → j < 4
            → (s : Shard) × (empty_table j ≡ some s) × (is_at s localhost 6381 ≡ false)))
find_shard-stable_example = find_shard-stable 4 localhost 6381 empty_table (omega arith)

-- Two masters, of which the second takes over a part of the first one's slots.
abbrev first_range : Range Bytes
first_range = record { begin = 0; last = 8191; ip = localhost; port = 7000; more = nil }

abbrev second_range : Range Bytes
second_range = record {
  begin = 8000;
  last = 16383;
  ip = localhost;
  port = 7001;
  more = cons (bulk_string (codes "id")) nil;
}

abbrev ranges : List (Range Bytes)
ranges = first_range ∷ second_range ∷ []

ranges-AllInRange : AllInRange ranges
ranges-AllInRange = (
  (omega arith, omega arith, omega arith, omega arith, omega arith),
  ((omega arith, omega arith, omega arith, omega arith, omega arith), tt),
)

load_slots-owner_example :
    (t : Loaded) × (load_slots (reply_of ranges) nothing_loaded ≡ loaded t)
    × ((i : ℕ) → t.owners i ≡ owner ranges i)
load_slots-owner_example = load_slots-owner ranges ranges-AllInRange

owner_8100 : owner ranges 8100 ≡ some (record { ip = localhost; port = 7001 })
owner_8100 = refl

replicas-refused_example :
    load_slots
      (reply_then (first_range ∷ []) (cons (with_replica second_range (array nil) nil) nil))
      nothing_loaded
    ≡ refused eproto
replicas-refused_example =
    replicas-refused (first_range ∷ []) second_range (array nil) nil nil (ranges-AllInRange.0, tt)
