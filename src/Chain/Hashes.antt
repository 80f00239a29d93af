-- ===== src/Chain/Hashes.antt =====
-- include/RedisCommander.hpp, the Hash commands of a pipeline.
use xredis_client.Base.{Bytes, List, [], ◌∷◌, codes, ◌≡◌, refl, ℕ, Option, some}
use xredis_client.Base.Decimal.{to_chars_signed}
use xredis_client.Client.Hashes.{
  HashCommand, hdel, hexists, hexpire, hexpireat, hexpiretime, hget, hgetall, hgetdel, hgetex,
  hincrby, hincrbyfloat, hkeys, hlen, hmget, hpersist, hpexpire, hpexpireat, hpexpiretime, hpttl,
  hrandfield, hscan, hset, hsetex, hsetnx, hstrlen, httl, hvals, hash_args, hash_route,
}
use xredis_client.Chain.{routed}

module _ {D : Type 0} (show : D → Bytes) where
  -- The words that CommandAwaiter chains.
  unfoldable pub hash_chained : HashCommand D → List Bytes
  hash_chained (hdel key first_field other_fields) = codes "HDEL" ∷ key ∷ first_field ∷ other_fields
  hash_chained (hexists key field) = codes "HEXISTS" ∷ key ∷ field ∷ []
  hash_chained (hexpire key seconds fields) =
      codes "HEXPIRE" ∷ key ∷ to_chars_signed seconds ∷ fields
  hash_chained (hexpireat key timestamp fields) =
      codes "HEXPIREAT" ∷ key ∷ to_chars_signed timestamp ∷ fields
  hash_chained (hexpiretime key fields) = codes "HEXPIRETIME" ∷ key ∷ fields
  hash_chained (hget key field) = codes "HGET" ∷ key ∷ field ∷ []
  hash_chained (hgetall key) = codes "HGETALL" ∷ key ∷ []
  hash_chained (hgetdel key field) = codes "HGETDEL" ∷ key ∷ field ∷ []
  hash_chained (hgetex key field args) = codes "HGETEX" ∷ key ∷ field ∷ args
  hash_chained (hincrby key field increment) =
      codes "HINCRBY" ∷ key ∷ field ∷ to_chars_signed increment ∷ []
  hash_chained (hincrbyfloat key field increment) =
      codes "HINCRBYFLOAT" ∷ key ∷ field ∷ show increment ∷ []
  hash_chained (hkeys key) = codes "HKEYS" ∷ key ∷ []
  hash_chained (hlen key) = codes "HLEN" ∷ key ∷ []
  hash_chained (hmget key first_field other_fields) =
      codes "HMGET" ∷ key ∷ first_field ∷ other_fields
  hash_chained (hpersist key fields) = codes "HPERSIST" ∷ key ∷ fields
  hash_chained (hpexpire key milliseconds fields) =
      codes "HPEXPIRE" ∷ key ∷ to_chars_signed milliseconds ∷ fields
  hash_chained (hpexpireat key milliseconds_timestamp fields) =
      codes "HPEXPIREAT" ∷ key ∷ to_chars_signed milliseconds_timestamp ∷ fields
  hash_chained (hpexpiretime key fields) = codes "HPEXPIRETIME" ∷ key ∷ fields
  hash_chained (hpttl key fields) = codes "HPTTL" ∷ key ∷ fields
  hash_chained (hrandfield key args) = codes "HRANDFIELD" ∷ key ∷ args
  hash_chained (hscan key cursor args) = codes "HSCAN" ∷ key ∷ to_chars_signed cursor ∷ args
  hash_chained (hset key args) = codes "HSET" ∷ key ∷ args
  hash_chained (hsetex key args) = codes "HSETEX" ∷ key ∷ args
  hash_chained (hsetnx key field value) = codes "HSETNX" ∷ key ∷ field ∷ value ∷ []
  hash_chained (hstrlen key field) = codes "HSTRLEN" ∷ key ∷ field ∷ []
  hash_chained (httl key fields) = codes "HTTL" ∷ key ∷ fields
  hash_chained (hvals key) = codes "HVALS" ∷ key ∷ []

  -- The words that RedisCommandOperation chains, outside a cluster.
  unfoldable pub hash_appended : HashCommand D → List Bytes
  hash_appended (hdel key first_field other_fields) =
      codes "HDEL" ∷ key ∷ first_field ∷ other_fields
  hash_appended (hexists key field) = codes "HEXISTS" ∷ key ∷ field ∷ []
  hash_appended (hexpire key seconds fields) =
      codes "HEXPIRE" ∷ key ∷ to_chars_signed seconds ∷ fields
  hash_appended (hexpireat key timestamp fields) =
      codes "HEXPIREAT" ∷ key ∷ to_chars_signed timestamp ∷ fields
  hash_appended (hexpiretime key fields) = codes "HEXPIRETIME" ∷ key ∷ fields
  hash_appended (hget key field) = codes "HGET" ∷ key ∷ field ∷ []
  hash_appended (hgetall key) = codes "HGETALL" ∷ key ∷ []
  hash_appended (hgetdel key field) = codes "HGETDEL" ∷ key ∷ field ∷ []
  hash_appended (hgetex key field args) = codes "HGETEX" ∷ key ∷ field ∷ args
  hash_appended (hincrby key field increment) =
      codes "HINCRBY" ∷ key ∷ field ∷ to_chars_signed increment ∷ []
  hash_appended (hincrbyfloat key field increment) =
      codes "HINCRBYFLOAT" ∷ key ∷ field ∷ show increment ∷ []
  hash_appended (hkeys key) = codes "HKEYS" ∷ key ∷ []
  hash_appended (hlen key) = codes "HLEN" ∷ key ∷ []
  hash_appended (hmget key first_field other_fields) =
      codes "HMGET" ∷ key ∷ first_field ∷ other_fields
  hash_appended (hpersist key fields) = codes "HPERSIST" ∷ key ∷ fields
  hash_appended (hpexpire key milliseconds fields) =
      codes "HPEXPIRE" ∷ key ∷ to_chars_signed milliseconds ∷ fields
  hash_appended (hpexpireat key milliseconds_timestamp fields) =
      codes "HPEXPIREAT" ∷ key ∷ to_chars_signed milliseconds_timestamp ∷ fields
  hash_appended (hpexpiretime key fields) = codes "HPEXPIRETIME" ∷ key ∷ fields
  hash_appended (hpttl key fields) = codes "HPTTL" ∷ key ∷ fields
  hash_appended (hrandfield key args) = codes "HRANDFIELD" ∷ key ∷ args
  hash_appended (hscan key cursor args) = codes "HSCAN" ∷ key ∷ to_chars_signed cursor ∷ args
  hash_appended (hset key args) = codes "HSET" ∷ key ∷ args
  hash_appended (hsetex key args) = codes "HSETEX" ∷ key ∷ args
  hash_appended (hsetnx key field value) = codes "HSETNX" ∷ key ∷ field ∷ value ∷ []
  hash_appended (hstrlen key field) = codes "HSTRLEN" ∷ key ∷ field ∷ []
  hash_appended (httl key fields) = codes "HTTL" ∷ key ∷ fields
  hash_appended (hvals key) = codes "HVALS" ∷ key ∷ []

  -- The slot and the words that RedisCommandOperation chains in a cluster; none where the call does not
  -- compile.
  unfoldable pub hash_appended_route : HashCommand D → Option (ℕ × List Bytes)
  unfolding hash_appended
  hash_appended_route c = routed (hash_appended c)

  pub hash_chained-args : (c : HashCommand D) → hash_chained c ≡ hash_args show c
  unfolding hash_chained hash_args
  hash_chained-args (hdel key first_field other_fields) = refl
  hash_chained-args (hexists key field) = refl
  hash_chained-args (hexpire key seconds fields) = refl
  hash_chained-args (hexpireat key timestamp fields) = refl
  hash_chained-args (hexpiretime key fields) = refl
  hash_chained-args (hget key field) = refl
  hash_chained-args (hgetall key) = refl
  hash_chained-args (hgetdel key field) = refl
  hash_chained-args (hgetex key field args) = refl
  hash_chained-args (hincrby key field increment) = refl
  hash_chained-args (hincrbyfloat key field increment) = refl
  hash_chained-args (hkeys key) = refl
  hash_chained-args (hlen key) = refl
  hash_chained-args (hmget key first_field other_fields) = refl
  hash_chained-args (hpersist key fields) = refl
  hash_chained-args (hpexpire key milliseconds fields) = refl
  hash_chained-args (hpexpireat key milliseconds_timestamp fields) = refl
  hash_chained-args (hpexpiretime key fields) = refl
  hash_chained-args (hpttl key fields) = refl
  hash_chained-args (hrandfield key args) = refl
  hash_chained-args (hscan key cursor args) = refl
  hash_chained-args (hset key args) = refl
  hash_chained-args (hsetex key args) = refl
  hash_chained-args (hsetnx key field value) = refl
  hash_chained-args (hstrlen key field) = refl
  hash_chained-args (httl key fields) = refl
  hash_chained-args (hvals key) = refl

  pub hash_appended-args : (c : HashCommand D) → hash_appended c ≡ hash_args show c
  unfolding hash_appended hash_args
  hash_appended-args (hdel key first_field other_fields) = refl
  hash_appended-args (hexists key field) = refl
  hash_appended-args (hexpire key seconds fields) = refl
  hash_appended-args (hexpireat key timestamp fields) = refl
  hash_appended-args (hexpiretime key fields) = refl
  hash_appended-args (hget key field) = refl
  hash_appended-args (hgetall key) = refl
  hash_appended-args (hgetdel key field) = refl
  hash_appended-args (hgetex key field args) = refl
  hash_appended-args (hincrby key field increment) = refl
  hash_appended-args (hincrbyfloat key field increment) = refl
  hash_appended-args (hkeys key) = refl
  hash_appended-args (hlen key) = refl
  hash_appended-args (hmget key first_field other_fields) = refl
  hash_appended-args (hpersist key fields) = refl
  hash_appended-args (hpexpire key milliseconds fields) = refl
  hash_appended-args (hpexpireat key milliseconds_timestamp fields) = refl
  hash_appended-args (hpexpiretime key fields) = refl
  hash_appended-args (hpttl key fields) = refl
  hash_appended-args (hrandfield key args) = refl
  hash_appended-args (hscan key cursor args) = refl
  hash_appended-args (hset key args) = refl
  hash_appended-args (hsetex key args) = refl
  hash_appended-args (hsetnx key field value) = refl
  hash_appended-args (hstrlen key field) = refl
  hash_appended-args (httl key fields) = refl
  hash_appended-args (hvals key) = refl

  pub hash_appended_route-route :
      (c : HashCommand D) → hash_appended_route c ≡ some (hash_route show c)
  unfolding hash_appended_route hash_appended hash_route
  hash_appended_route-route (hdel key first_field other_fields) = refl
  hash_appended_route-route (hexists key field) = refl
  hash_appended_route-route (hexpire key seconds fields) = refl
  hash_appended_route-route (hexpireat key timestamp fields) = refl
  hash_appended_route-route (hexpiretime key fields) = refl
  hash_appended_route-route (hget key field) = refl
  hash_appended_route-route (hgetall key) = refl
  hash_appended_route-route (hgetdel key field) = refl
  hash_appended_route-route (hgetex key field args) = refl
  hash_appended_route-route (hincrby key field increment) = refl
  hash_appended_route-route (hincrbyfloat key field increment) = refl
  hash_appended_route-route (hkeys key) = refl
  hash_appended_route-route (hlen key) = refl
  hash_appended_route-route (hmget key first_field other_fields) = refl
  hash_appended_route-route (hpersist key fields) = refl
  hash_appended_route-route (hpexpire key milliseconds fields) = refl
  hash_appended_route-route (hpexpireat key milliseconds_timestamp fields) = refl
  hash_appended_route-route (hpexpiretime key fields) = refl
  hash_appended_route-route (hpttl key fields) = refl
  hash_appended_route-route (hrandfield key args) = refl
  hash_appended_route-route (hscan key cursor args) = refl
  hash_appended_route-route (hset key args) = refl
  hash_appended_route-route (hsetex key args) = refl
  hash_appended_route-route (hsetnx key field value) = refl
  hash_appended_route-route (hstrlen key field) = refl
  hash_appended_route-route (httl key fields) = refl
  hash_appended_route-route (hvals key) = refl
