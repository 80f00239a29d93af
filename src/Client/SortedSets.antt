-- ===== src/Client/SortedSets.antt =====
-- include/RedisClient.hpp and include/RedisCluster.hpp, the ZSet commands.
use xredis_client.Base.{Bytes, List, [], ◌∷◌, codes, ◌≡◌, refl, ℕ}
use xredis_client.Base.Decimal.{to_chars}
use xredis_client.Connection.{get_slot}
use xredis_client.Client.{command, to_slot_of, word, key_position}

pub data ZSetCommand (D : Type 0) : Type 0 where
  zadd : Bytes → List Bytes → ZSetCommand D
  zcard : Bytes → ZSetCommand D
  zcount : Bytes → D → D → ZSetCommand D
  zdiff : ℕ → Bytes → List Bytes → ZSetCommand D
  zdiffstore : Bytes → ℕ → Bytes → List Bytes → ZSetCommand D
  zincrby : Bytes → D → Bytes → ZSetCommand D
  zinter : ℕ → Bytes → List Bytes → ZSetCommand D
  zintercard : ℕ → Bytes → List Bytes → ZSetCommand D
  zmpop : ℕ → Bytes → List Bytes → ZSetCommand D
  zmscore : Bytes → Bytes → List Bytes → ZSetCommand D
  zrandmember : Bytes → List Bytes → ZSetCommand D
  zrange : Bytes → Bytes → Bytes → List Bytes → ZSetCommand D
  zrank : Bytes → Bytes → List Bytes → ZSetCommand D
  zrem : Bytes → Bytes → List Bytes → ZSetCommand D
  zscan : Bytes → ℕ → List Bytes → ZSetCommand D
  zscore : Bytes → Bytes → ZSetCommand D
  zunion : ℕ → Bytes → List Bytes → ZSetCommand D
  zunionstore : Bytes → ℕ → Bytes → List Bytes → ZSetCommand D

-- `show` is the decimal text of a `double`.
module _ {D : Type 0} (show : D → Bytes) where
  -- The words that `RedisClient` sends.
  unfoldable pub zset_args : ZSetCommand D → List Bytes
  zset_args (zadd key args) = codes "ZADD" ∷ key ∷ args
  zset_args (zcard key) = codes "ZCARD" ∷ key ∷ []
  zset_args (zcount key min max) = codes "ZCOUNT" ∷ key ∷ show min ∷ show max ∷ []
  zset_args (zdiff numkeys first_key other_keys) =
      codes "ZDIFF" ∷ to_chars numkeys ∷ first_key ∷ other_keys
  zset_args (zdiffstore destination numkeys first_key other_keys) =
      codes "ZDIFFSTORE" ∷ destination ∷ to_chars numkeys ∷ first_key ∷ other_keys
  zset_args (zincrby key increment member) = codes "ZINCRBY" ∷ key ∷ show increment ∷ member ∷ []
  zset_args (zinter numkeys first_key other_keys) =
      codes "ZINTER" ∷ to_chars numkeys ∷ first_key ∷ other_keys
  zset_args (zintercard numkeys first_key args) =
      codes "ZINTERCARD" ∷ to_chars numkeys ∷ first_key ∷ args
  zset_args (zmpop numkeys first_key args) = codes "ZMPOP" ∷ to_chars numkeys ∷ first_key ∷ args
  zset_args (zmscore key first_member other_members) =
      codes "ZMSCORE" ∷ key ∷ first_member ∷ other_members
  zset_args (zrandmember key args) = codes "ZRANDMEMBER" ∷ key ∷ args
  zset_args (zrange key start stop options) = codes "ZRANGE" ∷ key ∷ start ∷ stop ∷ options
  zset_args (zrank key member args) = codes "ZRANK" ∷ key ∷ member ∷ args
  zset_args (zrem key first_member other_members) =
      codes "ZREM" ∷ key ∷ first_member ∷ other_members
  zset_args (zscan key cursor args) = codes "ZSCAN" ∷ key ∷ to_chars cursor ∷ args
  zset_args (zscore key member) = codes "ZSCORE" ∷ key ∷ member ∷ []
  zset_args (zunion numkeys first_key other_keys) =
      codes "ZUNION" ∷ to_chars numkeys ∷ first_key ∷ other_keys
  zset_args (zunionstore destination numkeys first_key other_keys) =
      codes "ZUNIONSTORE" ∷ destination ∷ to_chars numkeys ∷ first_key ∷ other_keys

  -- The slot and the words of `RedisCluster`.
  unfoldable pub zset_route : ZSetCommand D → ℕ × List Bytes
  zset_route (zadd key args) = command (codes "ZADD") key args
  zset_route (zcard key) = command (codes "ZCARD") key []
  zset_route (zcount key min max) = command (codes "ZCOUNT") key (show min ∷ show max ∷ [])
  zset_route (zdiff numkeys first_key other_keys) =
      to_slot_of first_key (codes "ZDIFF" ∷ to_chars numkeys ∷ first_key ∷ other_keys)
  zset_route (zdiffstore destination numkeys first_key other_keys) =
      command (codes "ZDIFFSTORE") destination (to_chars numkeys ∷ first_key ∷ other_keys)
  zset_route (zincrby key increment member) =
      command (codes "ZINCRBY") key (show increment ∷ member ∷ [])
  zset_route (zinter numkeys first_key other_keys) =
      to_slot_of first_key (codes "ZINTER" ∷ to_chars numkeys ∷ first_key ∷ other_keys)
  zset_route (zintercard numkeys first_key args) =
      to_slot_of first_key (codes "ZINTERCARD" ∷ to_chars numkeys ∷ first_key ∷ args)
  zset_route (zmpop numkeys first_key args) =
      to_slot_of first_key (codes "ZMPOP" ∷ to_chars numkeys ∷ first_key ∷ args)
  zset_route (zmscore key first_member other_members) =
      command (codes "ZMSCORE") key (first_member ∷ other_members)
  zset_route (zrandmember key args) = command (codes "ZRANDMEMBER") key args
  zset_route (zrange key start stop options) = command (codes "ZRANGE") key (start ∷ stop ∷ options)
  zset_route (zrank key member args) = command (codes "ZRANK") key (member ∷ args)
  zset_route (zrem key first_member other_members) =
      command (codes "ZREM") key (first_member ∷ other_members)
  zset_route (zscan key cursor args) = command (codes "ZSCAN") key (to_chars cursor ∷ args)
  zset_route (zscore key member) = command (codes "ZSCORE") key (member ∷ [])
  zset_route (zunion numkeys first_key other_keys) =
      to_slot_of first_key (codes "ZUNION" ∷ to_chars numkeys ∷ first_key ∷ other_keys)
  zset_route (zunionstore destination numkeys first_key other_keys) =
      command (codes "ZUNIONSTORE") destination (to_chars numkeys ∷ first_key ∷ other_keys)

  -- The cluster client sends what the single client sends, to the slot of the first key, for every
  -- command of this family. Where the first key stands is known from the name of the command.
  pub zset_route-keyed :
      (c : ZSetCommand D)
      → zset_route c
        ≡ (get_slot (word (key_position (word 0 (zset_args c))) (zset_args c)), zset_args c)
  unfolding zset_route zset_args
  zset_route-keyed (zadd key args) = refl
  zset_route-keyed (zcard key) = refl
  zset_route-keyed (zcount key min max) = refl
  zset_route-keyed (zdiff numkeys first_key other_keys) = refl
  zset_route-keyed (zdiffstore destination numkeys first_key other_keys) = refl
  zset_route-keyed (zincrby key increment member) = refl
  zset_route-keyed (zinter numkeys first_key other_keys) = refl
  zset_route-keyed (zintercard numkeys first_key args) = refl
  zset_route-keyed (zmpop numkeys first_key args) = refl
  zset_route-keyed (zmscore key first_member other_members) = refl
  zset_route-keyed (zrandmember key args) = refl
  zset_route-keyed (zrange key start stop options) = refl
  zset_route-keyed (zrank key member args) = refl
  zset_route-keyed (zrem key first_member other_members) = refl
  zset_route-keyed (zscan key cursor args) = refl
  zset_route-keyed (zscore key member) = refl
  zset_route-keyed (zunion numkeys first_key other_keys) = refl
  zset_route-keyed (zunionstore destination numkeys first_key other_keys) = refl
