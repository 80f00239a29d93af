-- ===== src/Chain/Streams.antt =====
-- include/RedisCommander.hpp, the Stream commands of a pipeline.
use xredis_client.Base.{
  Bytes, Bool, true, false, List, [], ◌∷◌, codes, ◌≡◌, refl, ℕ, Option, none, some, if◌then◌else◌,
}
use xredis_client.Base.Decimal.{to_chars}
use xredis_client.Client.Streams.{
  StreamCommand, xadd, xack, xautoclaim, xdel, xgroup_create, xgroup_createconsumer,
  xgroup_delconsumer, xgroup_destroy, xgroup_setid, xinfo_consumers, xinfo_groups, xinfo_stream,
  xlen, xpending, xrange, xread, xreadgroup, xtrim, stream_args, stream_route,
}
use xredis_client.Chain.{routed, and_then}

-- Which of the commands a pipeline has.
abbrev pub stream_pipelines : {D : Type 0} → StreamCommand D → Bool
stream_pipelines (xread args) = false
stream_pipelines c = true

module _ {D : Type 0} (show : D → Bytes) where
  -- The words that CommandAwaiter chains.
  unfoldable pub stream_chained : StreamCommand D → Option (List Bytes)
  stream_chained (xadd key args) = some (codes "XADD" ∷ key ∷ args)
  stream_chained (xack key group first_id other_ids) =
      some (codes "XACK" ∷ key ∷ group ∷ first_id ∷ other_ids)
  stream_chained (xautoclaim key group consumer min_idle_time start args) =
      some (codes "XAUTOCLAIM" ∷ key ∷ group ∷ consumer ∷ to_chars min_idle_time ∷ start ∷ args)
  stream_chained (xdel key first_id other_ids) = some (codes "XDEL" ∷ key ∷ first_id ∷ other_ids)
  stream_chained (xgroup_create key group id args) =
      some (codes "XGROUP" ∷ codes "CREATE" ∷ key ∷ group ∷ id ∷ args)
  stream_chained (xgroup_createconsumer key group consumer) =
      some (codes "XGROUP" ∷ codes "CREATECONSUMER" ∷ key ∷ group ∷ consumer ∷ [])
  stream_chained (xgroup_delconsumer key group consumer) =
      some (codes "XGROUP" ∷ codes "DELCONSUMER" ∷ key ∷ group ∷ consumer ∷ [])
  stream_chained (xgroup_destroy key group) =
      some (codes "XGROUP" ∷ codes "DESTROY" ∷ key ∷ group ∷ [])
  stream_chained (xgroup_setid key group id args) =
      some (codes "XGROUP" ∷ codes "SETID" ∷ key ∷ group ∷ id ∷ args)
  stream_chained (xinfo_consumers key group) =
      some (codes "XINFO" ∷ codes "CONSUMERS" ∷ key ∷ group ∷ [])
  stream_chained (xinfo_groups key) = some (codes "XINFO" ∷ codes "GROUPS" ∷ key ∷ [])
  stream_chained (xinfo_stream key args) = some (codes "XINFO" ∷ codes "STREAM" ∷ key ∷ args)
  stream_chained (xlen key) = some (codes "XLEN" ∷ key ∷ [])
  stream_chained (xpending key group args) = some (codes "XPENDING" ∷ key ∷ group ∷ args)
  stream_chained (xrange key start stop args) = some (codes "XRANGE" ∷ key ∷ start ∷ stop ∷ args)
  stream_chained (xread args) = none
  stream_chained (xreadgroup group_keyword group consumer args) =
      some (codes "XREADGROUP" ∷ group_keyword ∷ group ∷ consumer ∷ args)
  stream_chained (xtrim key args) = some (codes "XTRIM" ∷ key ∷ args)

  -- The words that RedisCommandOperation chains, outside a cluster.
  unfoldable pub stream_appended : StreamCommand D → Option (List Bytes)
  stream_appended (xadd key args) = some (codes "XADD" ∷ key ∷ args)
  stream_appended (xack key group first_id other_ids) =
      some (codes "XACK" ∷ key ∷ group ∷ first_id ∷ other_ids)
  stream_appended (xautoclaim key group consumer min_idle_time start args) =
      some (codes "XAUTOCLAIM" ∷ key ∷ group ∷ consumer ∷ to_chars min_idle_time ∷ start ∷ args)
  stream_appended (xdel key first_id other_ids) = some (codes "XDEL" ∷ key ∷ first_id ∷ other_ids)
  stream_appended (xgroup_create key group id args) =
      some (codes "XGROUP" ∷ codes "CREATE" ∷ key ∷ group ∷ id ∷ args)
  stream_appended (xgroup_createconsumer key group consumer) =
      some (codes "XGROUP" ∷ codes "CREATECONSUMER" ∷ key ∷ group ∷ consumer ∷ [])
  stream_appended (xgroup_delconsumer key group consumer) =
      some (codes "XGROUP" ∷ codes "DELCONSUMER" ∷ key ∷ group ∷ consumer ∷ [])
  stream_appended (xgroup_destroy key group) =
      some (codes "XGROUP" ∷ codes "DESTROY" ∷ key ∷ group ∷ [])
  stream_appended (xgroup_setid key group id args) =
      some (codes "XGROUP" ∷ codes "SETID" ∷ key ∷ group ∷ id ∷ args)
  stream_appended (xinfo_consumers key group) =
      some (codes "XINFO" ∷ codes "CONSUMERS" ∷ key ∷ group ∷ [])
  stream_appended (xinfo_groups key) = some (codes "XINFO" ∷ codes "GROUPS" ∷ key ∷ [])
  stream_appended (xinfo_stream key args) = some (codes "XINFO" ∷ codes "STREAM" ∷ key ∷ args)
  stream_appended (xlen key) = some (codes "XLEN" ∷ key ∷ [])
  stream_appended (xpending key group args) = some (codes "XPENDING" ∷ key ∷ group ∷ args)
  stream_appended (xrange key start stop args) = some (codes "XRANGE" ∷ key ∷ start ∷ stop ∷ args)
  stream_appended (xread args) = none
  stream_appended (xreadgroup group_keyword group consumer args) =
      some (codes "XREADGROUP" ∷ group_keyword ∷ group ∷ consumer ∷ args)
  stream_appended (xtrim key args) = some (codes "XTRIM" ∷ key ∷ args)

  -- The slot and the words that RedisCommandOperation chains in a cluster; none where the call does not
  -- compile.
  unfoldable pub stream_appended_route : StreamCommand D → Option (ℕ × List Bytes)
  unfolding stream_appended
  stream_appended_route (xread args) = none
  stream_appended_route c = and_then (stream_appended c) routed

  pub stream_chained-args :
      (c : StreamCommand D)
      → stream_chained c ≡ (if stream_pipelines c then some (stream_args show c) else none)
  unfolding stream_chained stream_args
  stream_chained-args (xadd key args) = refl
  stream_chained-args (xack key group first_id other_ids) = refl
  stream_chained-args (xautoclaim key group consumer min_idle_time start args) = refl
  stream_chained-args (xdel key first_id other_ids) = refl
  stream_chained-args (xgroup_create key group id args) = refl
  stream_chained-args (xgroup_createconsumer key group consumer) = refl
  stream_chained-args (xgroup_delconsumer key group consumer) = refl
  stream_chained-args (xgroup_destroy key group) = refl
  stream_chained-args (xgroup_setid key group id args) = refl
  stream_chained-args (xinfo_consumers key group) = refl
  stream_chained-args (xinfo_groups key) = refl
  stream_chained-args (xinfo_stream key args) = refl
  stream_chained-args (xlen key) = refl
  stream_chained-args (xpending key group args) = refl
  stream_chained-args (xrange key start stop args) = refl
  stream_chained-args (xread args) = refl
  stream_chained-args (xreadgroup group_keyword group consumer args) = refl
  stream_chained-args (xtrim key args) = refl

  pub stream_appended-args :
      (c : StreamCommand D)
      → stream_appended c ≡ (if stream_pipelines c then some (stream_args show c) else none)
  unfolding stream_appended stream_args
  stream_appended-args (xadd key args) = refl
  stream_appended-args (xack key group first_id other_ids) = refl
  stream_appended-args (xautoclaim key group consumer min_idle_time start args) = refl
  stream_appended-args (xdel key first_id other_ids) = refl
  stream_appended-args (xgroup_create key group id args) = refl
  stream_appended-args (xgroup_createconsumer key group consumer) = refl
  stream_appended-args (xgroup_delconsumer key group consumer) = refl
  stream_appended-args (xgroup_destroy key group) = refl
  stream_appended-args (xgroup_setid key group id args) = refl
  stream_appended-args (xinfo_consumers key group) = refl
  stream_appended-args (xinfo_groups key) = refl
  stream_appended-args (xinfo_stream key args) = refl
  stream_appended-args (xlen key) = refl
  stream_appended-args (xpending key group args) = refl
  stream_appended-args (xrange key start stop args) = refl
  stream_appended-args (xread args) = refl
  stream_appended-args (xreadgroup group_keyword group consumer args) = refl
  stream_appended-args (xtrim key args) = refl

  pub stream_appended_route-route :
      (c : StreamCommand D)
      → stream_appended_route c ≡ (if stream_pipelines c then stream_route show c else none)
  unfolding stream_appended_route stream_appended stream_route
  stream_appended_route-route (xadd key args) = refl
  stream_appended_route-route (xack key group first_id other_ids) = refl
  stream_appended_route-route (xautoclaim key group consumer min_idle_time start args) = refl
  stream_appended_route-route (xdel key first_id other_ids) = refl
  stream_appended_route-route (xgroup_create key group id args) = refl
  stream_appended_route-route (xgroup_createconsumer key group consumer) = refl
  stream_appended_route-route (xgroup_delconsumer key group consumer) = refl
  stream_appended_route-route (xgroup_destroy key group) = refl
  stream_appended_route-route (xgroup_setid key group id args) = refl
  stream_appended_route-route (xinfo_consumers key group) = refl
  stream_appended_route-route (xinfo_groups key) = refl
  stream_appended_route-route (xinfo_stream key args) = refl
  stream_appended_route-route (xlen key) = refl
  stream_appended_route-route (xpending key group args) = refl
  stream_appended_route-route (xrange key start stop args) = refl
  stream_appended_route-route (xread args) = refl
  stream_appended_route-route (xreadgroup group_keyword group consumer args) = refl
  stream_appended_route-route (xtrim key args) = refl
