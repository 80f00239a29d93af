-- ===== src/Chain/SortedSets.antt =====
-- include/RedisCommander.hpp, the ZSet commands of a pipeline.
use xredis_client.Base.{
  Bytes, Bool, true, false, List, [], ◌∷◌, codes, ◌≡◌, refl, ℕ, Option, some, arith,
}
use xredis_client.Base.Decimal.{to_chars}
use xredis_client.Client.{to_slot_of}
use xredis_client.Client.SortedSets.{
  ZSetCommand, zadd, zcard, zcount, zdiff, zdiffstore, zincrby, zinter, zintercard, zmpop, zmscore,
  zrandmember, zrange, zrank, zrem, zscan, zscore, zunion, zunionstore, zset_args, zset_route,
}
use xredis_client.Chain.{routed}

abbrev pub is_zmpop : {D : Type 0} → ZSetCommand D → Bool
is_zmpop (zmpop numkeys first_key args) = true
is_zmpop c = false

module _ {D : Type 0} (show : D → Bytes) where
  -- The words that CommandAwaiter chains.
  unfoldable pub zset_chained : ZSetCommand D → List Bytes
  zset_chained (zadd key args) = codes "ZADD" ∷ key ∷ args
  zset_chained (zcard key) = codes "ZCARD" ∷ key ∷ []
  zset_chained (zcount key min max) = codes "ZCOUNT" ∷ key ∷ show min ∷ show max ∷ []
  zset_chained (zdiff numkeys first_key other_keys) =
      codes "ZDIFF" ∷ to_chars numkeys ∷ first_key ∷ other_keys
  zset_chained (zdiffstore destination numkeys first_key other_keys) =
      codes "ZDIFFSTORE" ∷ destination ∷ to_chars numkeys ∷ first_key ∷ other_keys
  zset_chained (zincrby key increment member) = codes "ZINCRBY" ∷ key ∷ show increment ∷ member ∷ []
  zset_chained (zinter numkeys first_key other_keys) =
      codes "ZINTER" ∷ to_chars numkeys ∷ first_key ∷ other_keys
  zset_chained (zintercard numkeys first_key args) =
      codes "ZINTERCARD" ∷ to_chars numkeys ∷ first_key ∷ args
  zset_chained (zmpop numkeys first_key args) = codes "ZMPOP" ∷ to_chars numkeys ∷ first_key ∷ args
  zset_chained (zmscore key first_member other_members) =
      codes "ZMSCORE" ∷ key ∷ first_member ∷ other_members
  zset_chained (zrandmember key args) = codes "ZRANDMEMBER" ∷ key ∷ args
  zset_chained (zrange key start stop options) = codes "ZRANGE" ∷ key ∷ start ∷ stop ∷ options
  zset_chained (zrank key member args) = codes "ZRANK" ∷ key ∷ member ∷ args
  zset_chained (zrem key first_member other_members) =
      codes "ZREM" ∷ key ∷ first_member ∷ other_members
  zset_chained (zscan key cursor args) = codes "ZSCAN" ∷ key ∷ to_chars cursor ∷ args
  zset_chained (zscore key member) = codes "ZSCORE" ∷ key ∷ member ∷ []
  zset_chained (zunion numkeys first_key other_keys) =
      codes "ZUNION" ∷ to_chars numkeys ∷ first_key ∷ other_keys
  zset_chained (zunionstore destination numkeys first_key other_keys) =
      codes "ZUNIONSTORE" ∷ destination ∷ to_chars numkeys ∷ first_key ∷ other_keys

  -- The words that RedisCommandOperation chains, outside a cluster.
  unfoldable pub zset_appended : ZSetCommand D → List Bytes
  zset_appended (zadd key args) = codes "ZADD" ∷ key ∷ args
  zset_appended (zcard key) = codes "ZCARD" ∷ key ∷ []
  zset_appended (zcount key min max) = codes "ZCOUNT" ∷ key ∷ show min ∷ show max ∷ []
  zset_appended (zdiff numkeys first_key other_keys) =
      codes "ZDIFF" ∷ to_chars numkeys ∷ first_key ∷ other_keys
  zset_appended (zdiffstore destination numkeys first_key other_keys) =
      codes "ZDIFFSTORE" ∷ destination ∷ to_chars numkeys ∷ first_key ∷ other_keys
  zset_appended (zincrby key increment member) =
      codes "ZINCRBY" ∷ key ∷ show increment ∷ member ∷ []
  zset_appended (zinter numkeys first_key other_keys) =
      codes "ZINTER" ∷ to_chars numkeys ∷ first_key ∷ other_keys
  zset_appended (zintercard numkeys first_key args) =
      codes "ZINTERCARD" ∷ to_chars numkeys ∷ first_key ∷ args
  zset_appended (zmpop numkeys first_key args) =
      codes "ZINTERCARD" ∷ to_chars numkeys ∷ first_key ∷ args
  zset_appended (zmscore key first_member other_members) =
      codes "ZMSCORE" ∷ key ∷ first_member ∷ other_members
  zset_appended (zrandmember key args) = codes "ZRANDMEMBER" ∷ key ∷ args
  zset_appended (zrange key start stop options) = codes "ZRANGE" ∷ key ∷ start ∷ stop ∷ options
  zset_appended (zrank key member args) = codes "ZRANK" ∷ key ∷ member ∷ args
  zset_appended (zrem key first_member other_members) =
      codes "ZREM" ∷ key ∷ first_member ∷ other_members
  zset_appended (zscan key cursor args) = codes "ZSCAN" ∷ key ∷ to_chars cursor ∷ args
  zset_appended (zscore key member) = codes "ZSCORE" ∷ key ∷ member ∷ []
  zset_appended (zunion numkeys first_key other_keys) =
      codes "ZUNION" ∷ to_chars numkeys ∷ first_key ∷ other_keys
  zset_appended (zunionstore destination numkeys first_key other_keys) =
      codes "ZUNIONSTORE" ∷ destination ∷ to_chars numkeys ∷ first_key ∷ other_keys

  -- The slot and the words that RedisCommandOperation chains in a cluster; none where the call does not
  -- compile.
  unfoldable pub zset_appended_route : ZSetCommand D → Option (ℕ × List Bytes)
  unfolding zset_appended
  zset_appended_route (zdiff numkeys first_key other_keys) =
      some (to_slot_of first_key (codes "ZDIFF" ∷ to_chars numkeys ∷ first_key ∷ other_keys))
  zset_appended_route (zinter numkeys first_key other_keys) =
      some (to_slot_of first_key (codes "ZINTER" ∷ to_chars numkeys ∷ first_key ∷ other_keys))
  zset_appended_route (zintercard numkeys first_key args) =
      some (to_slot_of first_key (codes "ZINTERCARD" ∷ to_chars numkeys ∷ first_key ∷ args))
  zset_appended_route (zmpop numkeys first_key args) =
      some (to_slot_of first_key (codes "ZINTERCARD" ∷ to_chars numkeys ∷ first_key ∷ args))
  zset_appended_route (zunion numkeys first_key other_keys) =
      some (to_slot_of first_key (codes "ZUNION" ∷ to_chars numkeys ∷ first_key ∷ other_keys))
  zset_appended_route c = routed (zset_appended c)

  pub zset_chained-args : (c : ZSetCommand D) → zset_chained c ≡ zset_args show c
  unfolding zset_chained zset_args
  zset_chained-args (zadd key args) = refl
  zset_chained-args (zcard key) = refl
  zset_chained-args (zcount key min max) = refl
  zset_chained-args (zdiff numkeys first_key other_keys) = refl
  zset_chained-args (zdiffstore destination numkeys first_key other_keys) = refl
  zset_chained-args (zincrby key increment member) = refl
  zset_chained-args (zinter numkeys first_key other_keys) = refl
  zset_chained-args (zintercard numkeys first_key args) = refl
  zset_chained-args (zmpop numkeys first_key args) = refl
  zset_chained-args (zmscore key first_member other_members) = refl
  zset_chained-args (zrandmember key args) = refl
  zset_chained-args (zrange key start stop options) = refl
  zset_chained-args (zrank key member args) = refl
  zset_chained-args (zrem key first_member other_members) = refl
  zset_chained-args (zscan key cursor args) = refl
  zset_chained-args (zscore key member) = refl
  zset_chained-args (zunion numkeys first_key other_keys) = refl
  zset_chained-args (zunionstore destination numkeys first_key other_keys) = refl

  pub zset_appended-args :
      (c : ZSetCommand D) → is_zmpop c ≡ false → zset_appended c ≡ zset_args show c
  unfolding zset_appended zset_args
  zset_appended-args (zadd key args) h = refl
  zset_appended-args (zcard key) h = refl
  zset_appended-args (zcount key min max) h = refl
  zset_appended-args (zdiff numkeys first_key other_keys) h = refl
  zset_appended-args (zdiffstore destination numkeys first_key other_keys) h = refl
  zset_appended-args (zincrby key increment member) h = refl
  zset_appended-args (zinter numkeys first_key other_keys) h = refl
  zset_appended-args (zintercard numkeys first_key args) h = refl
  zset_appended-args (zmpop numkeys first_key args) h = absurd (ground (arith, h))
  zset_appended-args (zmscore key first_member other_members) h = refl
  zset_appended-args (zrandmember key args) h = refl
  zset_appended-args (zrange key start stop options) h = refl
  zset_appended-args (zrank key member args) h = refl
  zset_appended-args (zrem key first_member other_members) h = refl
  zset_appended-args (zscan key cursor args) h = refl
  zset_appended-args (zscore key member) h = refl
  zset_appended-args (zunion numkeys first_key other_keys) h = refl
  zset_appended-args (zunionstore destination numkeys first_key other_keys) h = refl

  pub zset_appended_route-route :
      (c : ZSetCommand D) → is_zmpop c ≡ false → zset_appended_route c ≡ some (zset_route show c)
  unfolding zset_appended_route zset_appended zset_route
  zset_appended_route-route (zadd key args) h = refl
  zset_appended_route-route (zcard key) h = refl
  zset_appended_route-route (zcount key min max) h = refl
  zset_appended_route-route (zdiff numkeys first_key other_keys) h = refl
  zset_appended_route-route (zdiffstore destination numkeys first_key other_keys) h = refl
  zset_appended_route-route (zincrby key increment member) h = refl
  zset_appended_route-route (zinter numkeys first_key other_keys) h = refl
  zset_appended_route-route (zintercard numkeys first_key args) h = refl
  zset_appended_route-route (zmpop numkeys first_key args) h = absurd (ground (arith, h))
  zset_appended_route-route (zmscore key first_member other_members) h = refl
  zset_appended_route-route (zrandmember key args) h = refl
  zset_appended_route-route (zrange key start stop options) h = refl
  zset_appended_route-route (zrank key member args) h = refl
  zset_appended_route-route (zrem key first_member other_members) h = refl
  zset_appended_route-route (zscan key cursor args) h = refl
  zset_appended_route-route (zscore key member) h = refl
  zset_appended_route-route (zunion numkeys first_key other_keys) h = refl
  zset_appended_route-route (zunionstore destination numkeys first_key other_keys) h = refl
