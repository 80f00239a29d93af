-- ===== src/Client/Streams.antt =====
-- include/RedisClient.hpp and include/RedisCluster.hpp, the Stream commands.
use xredis_client.Base.{
  Bytes, List, [], ◌∷◌, codes, ◌≡◌, refl, ℕ, ◌⊎◌, inl, inr, Option, none, some,
}
use xredis_client.Base.Decimal.{to_chars}
use xredis_client.Connection.{get_slot}
use xredis_client.Client.{command, word}

pub data StreamCommand (D : Type 0) : Type 0 where
  xadd : Bytes → List Bytes → StreamCommand D
  xack : Bytes → Bytes → Bytes → List Bytes → StreamCommand D
  xautoclaim : Bytes → Bytes → Bytes → ℕ → Bytes → List Bytes → StreamCommand D
  xdel : Bytes → Bytes → List Bytes → StreamCommand D
  xgroup_create : Bytes → Bytes → Bytes → List Bytes → StreamCommand D
  xgroup_createconsumer : Bytes → Bytes → Bytes → StreamCommand D
  xgroup_delconsumer : Bytes → Bytes → Bytes → StreamCommand D
  xgroup_destroy : Bytes → Bytes → StreamCommand D
  xgroup_setid : Bytes → Bytes → Bytes → List Bytes → StreamCommand D
  xinfo_consumers : Bytes → Bytes → StreamCommand D
  xinfo_groups : Bytes → StreamCommand D
  xinfo_stream : Bytes → List Bytes → StreamCommand D
  xlen : Bytes → StreamCommand D
  xpending : Bytes → Bytes → List Bytes → StreamCommand D
  xrange : Bytes → Bytes → Bytes → List Bytes → StreamCommand D
  xread : List Bytes → StreamCommand D
  xreadgroup : Bytes → Bytes → Bytes → List Bytes → StreamCommand D
  xtrim : Bytes → List Bytes → StreamCommand D

-- `show` is the decimal text of a `double`.
module _ {D : Type 0} (show : D → Bytes) where
  -- The words that `RedisClient` sends.
  unfoldable pub stream_args : StreamCommand D → List Bytes
  stream_args (xadd key args) = codes "XADD" ∷ key ∷ args
  stream_args (xack key group first_id other_ids) =
      codes "XACK" ∷ key ∷ group ∷ first_id ∷ other_ids
  stream_args (xautoclaim key group consumer min_idle_time start args) =
      codes "XAUTOCLAIM" ∷ key ∷ group ∷ consumer ∷ to_chars min_idle_time ∷ start ∷ args
  stream_args (xdel key first_id other_ids) = codes "XDEL" ∷ key ∷ first_id ∷ other_ids
  stream_args (xgroup_create key group id args) =
      codes "XGROUP" ∷ codes "CREATE" ∷ key ∷ group ∷ id ∷ args
  stream_args (xgroup_createconsumer key group consumer) =
      codes "XGROUP" ∷ codes "CREATECONSUMER" ∷ key ∷ group ∷ consumer ∷ []
  stream_args (xgroup_delconsumer key group consumer) =
      codes "XGROUP" ∷ codes "DELCONSUMER" ∷ key ∷ group ∷ consumer ∷ []
  stream_args (xgroup_destroy key group) = codes "XGROUP" ∷ codes "DESTROY" ∷ key ∷ group ∷ []
  stream_args (xgroup_setid key group id args) =
      codes "XGROUP" ∷ codes "SETID" ∷ key ∷ group ∷ id ∷ args
  stream_args (xinfo_consumers key group) = codes "XINFO" ∷ codes "CONSUMERS" ∷ key ∷ group ∷ []
  stream_args (xinfo_groups key) = codes "XINFO" ∷ codes "GROUPS" ∷ key ∷ []
  stream_args (xinfo_stream key args) = codes "XINFO" ∷ codes "STREAM" ∷ key ∷ args
  stream_args (xlen key) = codes "XLEN" ∷ key ∷ []
  stream_args (xpending key group args) = codes "XPENDING" ∷ key ∷ group ∷ args
  stream_args (xrange key start stop args) = codes "XRANGE" ∷ key ∷ start ∷ stop ∷ args
  stream_args (xread args) = codes "XREAD" ∷ args
  stream_args (xreadgroup group_keyword group consumer args) =
      codes "XREADGROUP" ∷ group_keyword ∷ group ∷ consumer ∷ args
  stream_args (xtrim key args) = codes "XTRIM" ∷ key ∷ args

  -- The slot and the words of `RedisCluster`, none where it has no such function.
  unfoldable pub stream_route : StreamCommand D → Option (ℕ × List Bytes)
  stream_route (xadd key args) = some (command (codes "XADD") key args)
  stream_route (xack key group first_id other_ids) =
      some (command (codes "XACK") key (group ∷ first_id ∷ other_ids))
  stream_route (xautoclaim key group consumer min_idle_time start args) =
      some (
        command (codes "XAUTOCLAIM") key (group ∷ consumer ∷ to_chars min_idle_time ∷ start ∷ args))
  stream_route (xdel key first_id other_ids) =
      some (command (codes "XDEL") key (first_id ∷ other_ids))
  stream_route (xgroup_create key group id args) =
      some (command (codes "XGROUP") (codes "CREATE") (key ∷ group ∷ id ∷ args))
  stream_route (xgroup_createconsumer key group consumer) =
      some (command (codes "XGROUP") (codes "CREATECONSUMER") (key ∷ group ∷ consumer ∷ []))
  stream_route (xgroup_delconsumer key group consumer) =
      some (command (codes "XGROUP") (codes "DELCONSUMER") (key ∷ group ∷ consumer ∷ []))
  stream_route (xgroup_destroy key group) =
      some (command (codes "XGROUP") (codes "DESTROY") (key ∷ group ∷ []))
  stream_route (xgroup_setid key group id args) =
      some (command (codes "XGROUP") (codes "SETID") (key ∷ group ∷ id ∷ args))
  stream_route (xinfo_consumers key group) =
      some (command (codes "XINFO") (codes "CONSUMERS") (key ∷ group ∷ []))
  stream_route (xinfo_groups key) = some (command (codes "XINFO") (codes "GROUPS") (key ∷ []))
  stream_route (xinfo_stream key args) =
      some (command (codes "XINFO") (codes "STREAM") (key ∷ args))
  stream_route (xlen key) = some (command (codes "XLEN") key [])
  stream_route (xpending key group args) = some (command (codes "XPENDING") key (group ∷ args))
  stream_route (xrange key start stop args) =
      some (command (codes "XRANGE") key (start ∷ stop ∷ args))
  stream_route (xread args) = none
  stream_route (xreadgroup group_keyword group consumer args) =
      some (command (codes "XREADGROUP") group_keyword (group ∷ consumer ∷ args))
  stream_route (xtrim key args) = some (command (codes "XTRIM") key args)

  -- What the cluster client sends is what the single client sends, and its slot is always that of the
  -- word behind the command's name, which for XGROUP and XINFO is the subcommand and no key. A command that the
  -- cluster client does not have is the only exception.
  pub stream_route-second :
      (c : StreamCommand D)
      → (stream_route c ≡ some (get_slot (word 1 (stream_args c)), stream_args c))
        ⊎ (stream_route c ≡ none)
  unfolding stream_route stream_args
  stream_route-second (xadd key args) = inl refl
  stream_route-second (xack key group first_id other_ids) = inl refl
  stream_route-second (xautoclaim key group consumer min_idle_time start args) = inl refl
  stream_route-second (xdel key first_id other_ids) = inl refl
  stream_route-second (xgroup_create key group id args) = inl refl
  stream_route-second (xgroup_createconsumer key group consumer) = inl refl
  stream_route-second (xgroup_delconsumer key group consumer) = inl refl
  stream_route-second (xgroup_destroy key group) = inl refl
  stream_route-second (xgroup_setid key group id args) = inl refl
  stream_route-second (xinfo_consumers key group) = inl refl
  stream_route-second (xinfo_groups key) = inl refl
  stream_route-second (xinfo_stream key args) = inl refl
  stream_route-second (xlen key) = inl refl
  stream_route-second (xpending key group args) = inl refl
  stream_route-second (xrange key start stop args) = inl refl
  stream_route-second (xread args) = inr refl
  stream_route-second (xreadgroup group_keyword group consumer args) = inl refl
  stream_route-second (xtrim key args) = inl refl
