-- ===== src/Chain/Sets.antt =====
-- include/RedisCommander.hpp, the Set commands of a pipeline.
use xredis_client.Base.{Bytes, List, [], ◌∷◌, codes, ◌≡◌, refl, ℕ, Option, some}
use xredis_client.Base.Decimal.{to_chars_signed}
use xredis_client.Client.{to_slot_of}
use xredis_client.Client.Sets.{
  SetCommand, sadd, scard, sdiff, sdiffstore, sinter, sintercard, sinterstore, sismember, smembers,
  smismember, smove, spop, srandmember, srem, sscan, sunion, sunionstore, set_args, set_route,
}
use xredis_client.Chain.{routed}

module _ {D : Type 0} (show : D → Bytes) where
  -- The words that CommandAwaiter chains.
  unfoldable pub set_chained : SetCommand D → List Bytes
  set_chained (sadd key first_member other_members) =
      codes "SADD" ∷ key ∷ first_member ∷ other_members
  set_chained (scard key) = codes "SCARD" ∷ key ∷ []
  set_chained (sdiff first_key other_keys) = codes "SDIFF" ∷ first_key ∷ other_keys
  set_chained (sdiffstore destination first_key other_keys) =
      codes "SDIFFSTORE" ∷ destination ∷ first_key ∷ other_keys
  set_chained (sinter first_key other_keys) = codes "SINTER" ∷ first_key ∷ other_keys
  set_chained (sintercard numkeys first_key args) =
      codes "SINTERCARD" ∷ to_chars_signed numkeys ∷ first_key ∷ args
  set_chained (sinterstore destination first_key other_keys) =
      codes "SINTERSTORE" ∷ destination ∷ first_key ∷ other_keys
  set_chained (sismember key member) = codes "SISMEMBER" ∷ key ∷ member ∷ []
  set_chained (smembers key) = codes "SMEMBERS" ∷ key ∷ []
  set_chained (smismember key first_member other_members) =
      codes "SMISMEMBER" ∷ key ∷ first_member ∷ other_members
  set_chained (smove source destination member) = codes "SMOVE" ∷ source ∷ destination ∷ member ∷ []
  set_chained (spop key count) = codes "SPOP" ∷ key ∷ count
  set_chained (srandmember key count) = codes "SRANDMEMBER" ∷ key ∷ count
  set_chained (srem key first_member other_members) =
      codes "SREM" ∷ key ∷ first_member ∷ other_members
  set_chained (sscan key cursor args) = codes "SSCAN" ∷ key ∷ to_chars_signed cursor ∷ args
  set_chained (sunion first_key other_keys) = codes "SUNION" ∷ first_key ∷ other_keys
  set_chained (sunionstore destination first_key other_keys) =
      codes "SUNIONSTORE" ∷ destination ∷ first_key ∷ other_keys

  -- The words that RedisCommandOperation chains, outside a cluster.
  unfoldable pub set_appended : SetCommand D → List Bytes
  set_appended (sadd key first_member other_members) =
      codes "SADD" ∷ key ∷ first_member ∷ other_members
  set_appended (scard key) = codes "SCARD" ∷ key ∷ []
  set_appended (sdiff first_key other_keys) = codes "SDIFF" ∷ first_key ∷ other_keys
  set_appended (sdiffstore destination first_key other_keys) =
      codes "SDIFFSTORE" ∷ destination ∷ first_key ∷ other_keys
  set_appended (sinter first_key other_keys) = codes "SINTER" ∷ first_key ∷ other_keys
  set_appended (sintercard numkeys first_key args) =
      codes "SINTERCARD" ∷ to_chars_signed numkeys ∷ first_key ∷ args
  set_appended (sinterstore destination first_key other_keys) =
      codes "SINTERSTORE" ∷ destination ∷ first_key ∷ other_keys
  set_appended (sismember key member) = codes "SISMEMBER" ∷ key ∷ member ∷ []
  set_appended (smembers key) = codes "SMEMBERS" ∷ key ∷ []
  set_appended (smismember key first_member other_members) =
      codes "SMISMEMBER" ∷ key ∷ first_member ∷ other_members
  set_appended (smove source destination member) =
      codes "SMOVE" ∷ source ∷ destination ∷ member ∷ []
  set_appended (spop key count) = codes "SPOP" ∷ key ∷ count
  set_appended (srandmember key count) = codes "SRANDMEMBER" ∷ key ∷ count
  set_appended (srem key first_member other_members) =
      codes "SREM" ∷ key ∷ first_member ∷ other_members
  set_appended (sscan key cursor args) = codes "SSCAN" ∷ key ∷ to_chars_signed cursor ∷ args
  set_appended (sunion first_key other_keys) = codes "SUNION" ∷ first_key ∷ other_keys
  set_appended (sunionstore destination first_key other_keys) =
      codes "SUNIONSTORE" ∷ destination ∷ first_key ∷ other_keys

  -- The slot and the words that RedisCommandOperation chains in a cluster; none where the call does not
  -- compile.
  unfoldable pub set_appended_route : SetCommand D → Option (ℕ × List Bytes)
  unfolding set_appended
  set_appended_route (sintercard numkeys first_key args) =
      some (to_slot_of first_key (codes "SINTERCARD" ∷ to_chars_signed numkeys ∷ first_key ∷ args))
  set_appended_route c = routed (set_appended c)

  pub set_chained-args : (c : SetCommand D) → set_chained c ≡ set_args show c
  unfolding set_chained set_args
  set_chained-args (sadd key first_member other_members) = refl
  set_chained-args (scard key) = refl
  set_chained-args (sdiff first_key other_keys) = refl
  set_chained-args (sdiffstore destination first_key other_keys) = refl
  set_chained-args (sinter first_key other_keys) = refl
  set_chained-args (sintercard numkeys first_key args) = refl
  set_chained-args (sinterstore destination first_key other_keys) = refl
  set_chained-args (sismember key member) = refl
  set_chained-args (smembers key) = refl
  set_chained-args (smismember key first_member other_members) = refl
  set_chained-args (smove source destination member) = refl
  set_chained-args (spop key count) = refl
  set_chained-args (srandmember key count) = refl
  set_chained-args (srem key first_member other_members) = refl
  set_chained-args (sscan key cursor args) = refl
  set_chained-args (sunion first_key other_keys) = refl
  set_chained-args (sunionstore destination first_key other_keys) = refl

  pub set_appended-args : (c : SetCommand D) → set_appended c ≡ set_args show c
  unfolding set_appended set_args
  set_appended-args (sadd key first_member other_members) = refl
  set_appended-args (scard key) = refl
  set_appended-args (sdiff first_key other_keys) = refl
  set_appended-args (sdiffstore destination first_key other_keys) = refl
  set_appended-args (sinter first_key other_keys) = refl
  set_appended-args (sintercard numkeys first_key args) = refl
  set_appended-args (sinterstore destination first_key other_keys) = refl
  set_appended-args (sismember key member) = refl
  set_appended-args (smembers key) = refl
  set_appended-args (smismember key first_member other_members) = refl
  set_appended-args (smove source destination member) = refl
  set_appended-args (spop key count) = refl
  set_appended-args (srandmember key count) = refl
  set_appended-args (srem key first_member other_members) = refl
  set_appended-args (sscan key cursor args) = refl
  set_appended-args (sunion first_key other_keys) = refl
  set_appended-args (sunionstore destination first_key other_keys) = refl

  pub set_appended_route-route : (c : SetCommand D) → set_appended_route c ≡ some (set_route show c)
  unfolding set_appended_route set_appended set_route
  set_appended_route-route (sadd key first_member other_members) = refl
  set_appended_route-route (scard key) = refl
  set_appended_route-route (sdiff first_key other_keys) = refl
  set_appended_route-route (sdiffstore destination first_key other_keys) = refl
  set_appended_route-route (sinter first_key other_keys) = refl
  set_appended_route-route (sintercard numkeys first_key args) = refl
  set_appended_route-route (sinterstore destination first_key other_keys) = refl
  set_appended_route-route (sismember key member) = refl
  set_appended_route-route (smembers key) = refl
  set_appended_route-route (smismember key first_member other_members) = refl
  set_appended_route-route (smove source destination member) = refl
  set_appended_route-route (spop key count) = refl
  set_appended_route-route (srandmember key count) = refl
  set_appended_route-route (srem key first_member other_members) = refl
  set_appended_route-route (sscan key cursor args) = refl
  set_appended_route-route (sunion first_key other_keys) = refl
  set_appended_route-route (sunionstore destination first_key other_keys) = refl
