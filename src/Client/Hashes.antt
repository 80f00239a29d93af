-- ===== src/Client/Hashes.antt =====
-- include/RedisClient.hpp and include/RedisCluster.hpp, the Hash commands.
use xredis_client.Base.{Bytes, List, [], ◌∷◌, codes, ◌≡◌, refl, ℕ}
use xredis_client.Base.Int.{ℤ}
use xredis_client.Base.Decimal.{to_chars_signed}
use xredis_client.Connection.{get_slot}
use xredis_client.Client.{command, word, key_position}

pub data HashCommand (D : Type 0) : Type 0 where
  hdel : Bytes → Bytes → List Bytes → HashCommand D
  hexists : Bytes → Bytes → HashCommand D
  hexpire : Bytes → ℤ → List Bytes → HashCommand D
  hexpireat : Bytes → ℤ → List Bytes → HashCommand D
  hexpiretime : Bytes → List Bytes → HashCommand D
  hget : Bytes → Bytes → HashCommand D
  hgetall : Bytes → HashCommand D
  hgetdel : Bytes → Bytes → HashCommand D
  hgetex : Bytes → Bytes → List Bytes → HashCommand D
  hincrby : Bytes → Bytes → ℤ → HashCommand D
  hincrbyfloat : Bytes → Bytes → D → HashCommand D
  hkeys : Bytes → HashCommand D
  hlen : Bytes → HashCommand D
  hmget : Bytes → Bytes → List Bytes → HashCommand D
  hpersist : Bytes → List Bytes → HashCommand D
  hpexpire : Bytes → ℤ → List Bytes → HashCommand D
  hpexpireat : Bytes → ℤ → List Bytes → HashCommand D
  hpexpiretime : Bytes → List Bytes → HashCommand D
  hpttl : Bytes → List Bytes → HashCommand D
  hrandfield : Bytes → List Bytes → HashCommand D
  hscan : Bytes → ℤ → List Bytes → HashCommand D
  hset : Bytes → List Bytes → HashCommand D
  hsetex : Bytes → List Bytes → HashCommand D
  hsetnx : Bytes → Bytes → Bytes → HashCommand D
  hstrlen : Bytes → Bytes → HashCommand D
  httl : Bytes → List Bytes → HashCommand D
  hvals : Bytes → HashCommand D

-- `show` is the decimal text of a `double`.
module _ {D : Type 0} (show : D → Bytes) where
  -- The words that `RedisClient` sends.
  unfoldable pub hash_args : HashCommand D → List Bytes
  hash_args (hdel key first_field other_fields) = codes "HDEL" ∷ key ∷ first_field ∷ other_fields
  hash_args (hexists key field) = codes "HEXISTS" ∷ key ∷ field ∷ []
  hash_args (hexpire key seconds fields) = codes "HEXPIRE" ∷ key ∷ to_chars_signed seconds ∷ fields
  hash_args (hexpireat key timestamp fields) =
      codes "HEXPIREAT" ∷ key ∷ to_chars_signed timestamp ∷ fields
  hash_args (hexpiretime key fields) = codes "HEXPIRETIME" ∷ key ∷ fields
  hash_args (hget key field) = codes "HGET" ∷ key ∷ field ∷ []
  hash_args (hgetall key) = codes "HGETALL" ∷ key ∷ []
  hash_args (hgetdel key field) = codes "HGETDEL" ∷ key ∷ field ∷ []
  hash_args (hgetex key field args) = codes "HGETEX" ∷ key ∷ field ∷ args
  hash_args (hincrby key field increment) =
      codes "HINCRBY" ∷ key ∷ field ∷ to_chars_signed increment ∷ []
  hash_args (hincrbyfloat key field increment) =
      codes "HINCRBYFLOAT" ∷ key ∷ field ∷ show increment ∷ []
  hash_args (hkeys key) = codes "HKEYS" ∷ key ∷ []
  hash_args (hlen key) = codes "HLEN" ∷ key ∷ []
  hash_args (hmget key first_field other_fields) = codes "HMGET" ∷ key ∷ first_field ∷ other_fields
  hash_args (hpersist key fields) = codes "HPERSIST" ∷ key ∷ fields
  hash_args (hpexpire key milliseconds fields) =
      codes "HPEXPIRE" ∷ key ∷ to_chars_signed milliseconds ∷ fields
  hash_args (hpexpireat key milliseconds_timestamp fields) =
      codes "HPEXPIREAT" ∷ key ∷ to_chars_signed milliseconds_timestamp ∷ fields
  hash_args (hpexpiretime key fields) = codes "HPEXPIRETIME" ∷ key ∷ fields
  hash_args (hpttl key fields) = codes "HPTTL" ∷ key ∷ fields
  hash_args (hrandfield key args) = codes "HRANDFIELD" ∷ key ∷ args
  hash_args (hscan key cursor args) = codes "HSCAN" ∷ key ∷ to_chars_signed cursor ∷ args
  hash_args (hset key args) = codes "HSET" ∷ key ∷ args
  hash_args (hsetex key args) = codes "HSETEX" ∷ key ∷ args
  hash_args (hsetnx key field value) = codes "HSETNX" ∷ key ∷ field ∷ value ∷ []
  hash_args (hstrlen key field) = codes "HSTRLEN" ∷ key ∷ field ∷ []
  hash_args (httl key fields) = codes "HTTL" ∷ key ∷ fields
  hash_args (hvals key) = codes "HVALS" ∷ key ∷ []

  -- The slot and the words of `RedisCluster`.
  unfoldable pub hash_route : HashCommand D → ℕ × List Bytes
  hash_route (hdel key first_field other_fields) =
      command (codes "HDEL") key (first_field ∷ other_fields)
  hash_route (hexists key field) = command (codes "HEXISTS") key (field ∷ [])
  hash_route (hexpire key seconds fields) =
      command (codes "HEXPIRE") key (to_chars_signed seconds ∷ fields)
  hash_route (hexpireat key timestamp fields) =
      command (codes "HEXPIREAT") key (to_chars_signed timestamp ∷ fields)
  hash_route (hexpiretime key fields) = command (codes "HEXPIRETIME") key fields
  hash_route (hget key field) = command (codes "HGET") key (field ∷ [])
  hash_route (hgetall key) = command (codes "HGETALL") key []
  hash_route (hgetdel key field) = command (codes "HGETDEL") key (field ∷ [])
  hash_route (hgetex key field args) = command (codes "HGETEX") key (field ∷ args)
  hash_route (hincrby key field increment) =
      command (codes "HINCRBY") key (field ∷ to_chars_signed increment ∷ [])
  hash_route (hincrbyfloat key field increment) =
      command (codes "HINCRBYFLOAT") key (field ∷ show increment ∷ [])
  hash_route (hkeys key) = command (codes "HKEYS") key []
  hash_route (hlen key) = command (codes "HLEN") key []
  hash_route (hmget key first_field other_fields) =
      command (codes "HMGET") key (first_field ∷ other_fields)
  hash_route (hpersist key fields) = command (codes "HPERSIST") key fields
  hash_route (hpexpire key milliseconds fields) =
      command (codes "HPEXPIRE") key (to_chars_signed milliseconds ∷ fields)
  hash_route (hpexpireat key milliseconds_timestamp fields) =
      command (codes "HPEXPIREAT") key (to_chars_signed milliseconds_timestamp ∷ fields)
  hash_route (hpexpiretime key fields) = command (codes "HPEXPIRETIME") key fields
  hash_route (hpttl key fields) = command (codes "HPTTL") key fields
  hash_route (hrandfield key args) = command (codes "HRANDFIELD") key args
  hash_route (hscan key cursor args) = command (codes "HSCAN") key (to_chars_signed cursor ∷ args)
  hash_route (hset key args) = command (codes "HSET") key args
  hash_route (hsetex key args) = command (codes "HSETEX") key args
  hash_route (hsetnx key field value) = command (codes "HSETNX") key (field ∷ value ∷ [])
  hash_route (hstrlen key field) = command (codes "HSTRLEN") key (field ∷ [])
  hash_route (httl key fields) = command (codes "HTTL") key fields
  hash_route (hvals key) = command (codes "HVALS") key []

  -- The cluster client sends what the single client sends, to the slot of the first key, for every
  -- command of this family. Where the first key stands is known from the name of the command.
  pub hash_route-keyed :
      (c : HashCommand D)
      → hash_route c
        ≡ (get_slot (word (key_position (word 0 (hash_args c))) (hash_args c)), hash_args c)
  unfolding hash_route hash_args
  hash_route-keyed (hdel key first_field other_fields) = refl
  hash_route-keyed (hexists key field) = refl
  hash_route-keyed (hexpire key seconds fields) = refl
  hash_route-keyed (hexpireat key timestamp fields) = refl
  hash_route-keyed (hexpiretime key fields) = refl
  hash_route-keyed (hget key field) = refl
  hash_route-keyed (hgetall key) = refl
  hash_route-keyed (hgetdel key field) = refl
  hash_route-keyed (hgetex key field args) = refl
  hash_route-keyed (hincrby key field increment) = refl
  hash_route-keyed (hincrbyfloat key field increment) = refl
  hash_route-keyed (hkeys key) = refl
  hash_route-keyed (hlen key) = refl
  hash_route-keyed (hmget key first_field other_fields) = refl
  hash_route-keyed (hpersist key fields) = refl
  hash_route-keyed (hpexpire key milliseconds fields) = refl
  hash_route-keyed (hpexpireat key milliseconds_timestamp fields) = refl
  hash_route-keyed (hpexpiretime key fields) = refl
  hash_route-keyed (hpttl key fields) = refl
  hash_route-keyed (hrandfield key args) = refl
  hash_route-keyed (hscan key cursor args) = refl
  hash_route-keyed (hset key args) = refl
  hash_route-keyed (hsetex key args) = refl
  hash_route-keyed (hsetnx key field value) = refl
  hash_route-keyed (hstrlen key field) = refl
  hash_route-keyed (httl key fields) = refl
  hash_route-keyed (hvals key) = refl
