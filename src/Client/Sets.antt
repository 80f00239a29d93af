-- ===== src/Client/Sets.antt =====
-- include/RedisClient.hpp and include/RedisCluster.hpp, the Set commands.
use xredis_client.Base.{Bytes, List, [], ◌∷◌, codes, ◌≡◌, refl, ℕ}
use xredis_client.Base.Int.{ℤ}
use xredis_client.Base.Decimal.{to_chars_signed}
use xredis_client.Connection.{get_slot}
use xredis_client.Client.{command, to_slot_of, word, key_position}

pub data SetCommand (D : Type 0) : Type 0 where
  sadd : Bytes → Bytes → List Bytes → SetCommand D
  scard : Bytes → SetCommand D
  sdiff : Bytes → List Bytes → SetCommand D
  sdiffstore : Bytes → Bytes → List Bytes → SetCommand D
  sinter : Bytes → List Bytes → SetCommand D
  sintercard : ℤ → Bytes → List Bytes → SetCommand D
  sinterstore : Bytes → Bytes → List Bytes → SetCommand D
  sismember : Bytes → Bytes → SetCommand D
  smembers : Bytes → SetCommand D
  smismember : Bytes → Bytes → List Bytes → SetCommand D
  smove : Bytes → Bytes → Bytes → SetCommand D
  spop : Bytes → List Bytes → SetCommand D
  srandmember : Bytes → List Bytes → SetCommand D
  srem : Bytes → Bytes → List Bytes → SetCommand D
  sscan : Bytes → ℤ → List Bytes → SetCommand D
  sunion : Bytes → List Bytes → SetCommand D
  sunionstore : Bytes → Bytes → List Bytes → SetCommand D

-- `show` is the decimal text of a `double`.
module _ {D : Type 0} (show : D → Bytes) where
  -- The words that `RedisClient` sends.
  unfoldable pub set_args : SetCommand D → List Bytes
  set_args (sadd key first_member other_members) = codes "SADD" ∷ key ∷ first_member ∷ other_members
  set_args (scard key) = codes "SCARD" ∷ key ∷ []
  set_args (sdiff first_key other_keys) = codes "SDIFF" ∷ first_key ∷ other_keys
  set_args (sdiffstore destination first_key other_keys) =
      codes "SDIFFSTORE" ∷ destination ∷ first_key ∷ other_keys
  set_args (sinter first_key other_keys) = codes "SINTER" ∷ first_key ∷ other_keys
  set_args (sintercard numkeys first_key args) =
      codes "SINTERCARD" ∷ to_chars_signed numkeys ∷ first_key ∷ args
  set_args (sinterstore destination first_key other_keys) =
      codes "SINTERSTORE" ∷ destination ∷ first_key ∷ other_keys
  set_args (sismember key member) = codes "SISMEMBER" ∷ key ∷ member ∷ []
  set_args (smembers key) = codes "SMEMBERS" ∷ key ∷ []
  set_args (smismember key first_member other_members) =
      codes "SMISMEMBER" ∷ key ∷ first_member ∷ other_members
  set_args (smove source destination member) = codes "SMOVE" ∷ source ∷ destination ∷ member ∷ []
  set_args (spop key count) = codes "SPOP" ∷ key ∷ count
  set_args (srandmember key count) = codes "SRANDMEMBER" ∷ key ∷ count
  set_args (srem key first_member other_members) = codes "SREM" ∷ key ∷ first_member ∷ other_members
  set_args (sscan key cursor args) = codes "SSCAN" ∷ key ∷ to_chars_signed cursor ∷ args
  set_args (sunion first_key other_keys) = codes "SUNION" ∷ first_key ∷ other_keys
  set_args (sunionstore destination first_key other_keys) =
      codes "SUNIONSTORE" ∷ destination ∷ first_key ∷ other_keys

  -- The slot and the words of `RedisCluster`.
  unfoldable pub set_route : SetCommand D → ℕ × List Bytes
  set_route (sadd key first_member other_members) =
      command (codes "SADD") key (first_member ∷ other_members)
  set_route (scard key) = command (codes "SCARD") key []
  set_route (sdiff first_key other_keys) = command (codes "SDIFF") first_key other_keys
  set_route (sdiffstore destination first_key other_keys) =
      command (codes "SDIFFSTORE") destination (first_key ∷ other_keys)
  set_route (sinter first_key other_keys) = command (codes "SINTER") first_key other_keys
  set_route (sintercard numkeys first_key args) =
      to_slot_of first_key (codes "SINTERCARD" ∷ to_chars_signed numkeys ∷ first_key ∷ args)
  set_route (sinterstore destination first_key other_keys) =
      command (codes "SINTERSTORE") destination (first_key ∷ other_keys)
  set_route (sismember key member) = command (codes "SISMEMBER") key (member ∷ [])
  set_route (smembers key) = command (codes "SMEMBERS") key []
  set_route (smismember key first_member other_members) =
      command (codes "SMISMEMBER") key (first_member ∷ other_members)
  set_route (smove source destination member) =
      command (codes "SMOVE") source (destination ∷ member ∷ [])
  set_route (spop key count) = command (codes "SPOP") key count
  set_route (srandmember key count) = command (codes "SRANDMEMBER") key count
  set_route (srem key first_member other_members) =
      command (codes "SREM") key (first_member ∷ other_members)
  set_route (sscan key cursor args) = command (codes "SSCAN") key (to_chars_signed cursor ∷ args)
  set_route (sunion first_key other_keys) = command (codes "SUNION") first_key other_keys
  set_route (sunionstore destination first_key other_keys) =
      command (codes "SUNIONSTORE") destination (first_key ∷ other_keys)

  -- The cluster client sends what the single client sends, to the slot of the first key, for every
  -- command of this family. Where the first key stands is known from the name of the command.
  pub set_route-keyed :
      (c : SetCommand D)
      → set_route c
        ≡ (get_slot (word (key_position (word 0 (set_args c))) (set_args c)), set_args c)
  unfolding set_route set_args
  set_route-keyed (sadd key first_member other_members) = refl
  set_route-keyed (scard key) = refl
  set_route-keyed (sdiff first_key other_keys) = refl
  set_route-keyed (sdiffstore destination first_key other_keys) = refl
  set_route-keyed (sinter first_key other_keys) = refl
  set_route-keyed (sintercard numkeys first_key args) = refl
  set_route-keyed (sinterstore destination first_key other_keys) = refl
  set_route-keyed (sismember key member) = refl
  set_route-keyed (smembers key) = refl
  set_route-keyed (smismember key first_member other_members) = refl
  set_route-keyed (smove source destination member) = refl
  set_route-keyed (spop key count) = refl
  set_route-keyed (srandmember key count) = refl
  set_route-keyed (srem key first_member other_members) = refl
  set_route-keyed (sscan key cursor args) = refl
  set_route-keyed (sunion first_key other_keys) = refl
  set_route-keyed (sunionstore destination first_key other_keys) = refl
