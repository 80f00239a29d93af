-- ===== src/Chain/Words.antt =====
-- include/RedisCommander.hpp: the commands of all families in a pipeline, against those of the clients.
use xredis_client.Base.{
  ℕ, Bytes, Bool, true, false, List, Option, none, some, if◌then◌else◌, ◌≡◌, ap,
}
use xredis_client.Client.Routes.{
  AnyCommand, keyed, of_string, of_hash, of_list, of_set, of_zset, of_bitmap, of_stream, of_generic,
  of_script, of_server, keyed_args, keyed_route, client_args, cluster_route,
}
use xredis_client.Chain.Server.{
  server_chained, server_appended, server_appended_route, is_stray, server_chained-args,
  server_appended-args, server_appended_route-route,
}
use xredis_client.Chain.Strings.{
  string_chained, string_appended, string_appended_route, string_chained-args, string_appended-args,
  string_appended_route-route,
}
use xredis_client.Chain.Hashes.{
  hash_chained, hash_appended, hash_appended_route, hash_chained-args, hash_appended-args,
  hash_appended_route-route,
}
use xredis_client.Chain.Lists.{
  list_chained, list_appended, list_appended_route, list_chained-args, list_appended-args,
  list_appended_route-route,
}
use xredis_client.Chain.Sets.{
  set_chained, set_appended, set_appended_route, set_chained-args, set_appended-args,
  set_appended_route-route,
}
use xredis_client.Chain.SortedSets.{
  zset_chained, zset_appended, zset_appended_route, zset_chained-args, zset_appended-args,
  zset_appended_route-route, is_zmpop,
}
use xredis_client.Chain.Bitmaps.{
  bitmap_chained, bitmap_appended, bitmap_appended_route, bitmap_chained-args, bitmap_appended-args,
  bitmap_appended_route-route,
}
use xredis_client.Chain.Streams.{
  stream_chained, stream_appended, stream_appended_route, stream_chained-args, stream_appended-args,
  stream_appended_route-route, stream_pipelines,
}
use xredis_client.Chain.Keys.{
  generic_chained, generic_appended, generic_appended_route, generic_chained-args,
  generic_appended-args, generic_appended_route-route, generic_pipelines,
}
use xredis_client.Chain.Scripts.{
  script_chained, script_appended, script_appended_route, script_chained-args, script_appended-args,
  script_appended_route-route, script_pipelines,
}

-- Which commands a pipeline has: not XREAD, MULTI, WAIT and WAITAOF.
abbrev pub pipelines : {D : Type 0} → AnyCommand D → Bool
pipelines (keyed c) = true
pipelines (of_stream c) = stream_pipelines c
pipelines (of_generic c) = generic_pipelines c
pipelines (of_script c) = script_pipelines c
pipelines (of_server c) = true

abbrev pub names_zmpop : {D : Type 0} → AnyCommand D → Bool
names_zmpop (keyed (of_zset c)) = is_zmpop c
names_zmpop c = false

-- The commands that a pipeline in a cluster takes otherwise than the cluster client.
abbrev pub strays : {D : Type 0} → AnyCommand D → Bool
strays (of_server c) = is_stray c
strays c = names_zmpop c

abbrev pub if_some : {A : Type 0} → Bool → A → Option A
if_some b a = if b then some a else none

module _ {D : Type 0} (show : D → Bytes) where
  -- The words that a command chains to a CommandAwaiter, and those that it chains to a
  -- RedisCommandOperation.
  unfoldable pub chained : AnyCommand D → Option (List Bytes)
  chained (keyed (of_string c)) = some (string_chained show c)
  chained (keyed (of_hash c)) = some (hash_chained show c)
  chained (keyed (of_list c)) = some (list_chained show c)
  chained (keyed (of_set c)) = some (set_chained show c)
  chained (keyed (of_zset c)) = some (zset_chained show c)
  chained (keyed (of_bitmap c)) = some (bitmap_chained show c)
  chained (of_stream c) = stream_chained show c
  chained (of_generic c) = generic_chained show c
  chained (of_script c) = script_chained show c
  chained (of_server c) = some (server_chained c)

  unfoldable pub appended : AnyCommand D → Option (List Bytes)
  appended (keyed (of_string c)) = some (string_appended show c)
  appended (keyed (of_hash c)) = some (hash_appended show c)
  appended (keyed (of_list c)) = some (list_appended show c)
  appended (keyed (of_set c)) = some (set_appended show c)
  appended (keyed (of_zset c)) = some (zset_appended show c)
  appended (keyed (of_bitmap c)) = some (bitmap_appended show c)
  appended (of_stream c) = stream_appended show c
  appended (of_generic c) = generic_appended show c
  appended (of_script c) = script_appended show c
  appended (of_server c) = some (server_appended c)

  -- The slot and the words that it chains in a cluster.
  unfoldable pub appended_route : AnyCommand D → Option (ℕ × List Bytes)
  appended_route (keyed (of_string c)) = string_appended_route show c
  appended_route (keyed (of_hash c)) = hash_appended_route show c
  appended_route (keyed (of_list c)) = list_appended_route show c
  appended_route (keyed (of_set c)) = set_appended_route show c
  appended_route (keyed (of_zset c)) = zset_appended_route show c
  appended_route (keyed (of_bitmap c)) = bitmap_appended_route show c
  appended_route (of_stream c) = stream_appended_route show c
  appended_route (of_generic c) = generic_appended_route show c
  appended_route (of_script c) = script_appended_route show c
  appended_route (of_server c) = server_appended_route c

  -- A command chained to a single request sends what it sends on its own, for every command but
  -- XREAD, MULTI, WAIT and WAITAOF, which a pipeline does not have.
  pub chained-client : (c : AnyCommand D) → chained c ≡ if_some (pipelines c) (client_args show c)
  unfolding chained client_args keyed_args
  chained-client (keyed (of_string c)) = ap some (string_chained-args show c)
  chained-client (keyed (of_hash c)) = ap some (hash_chained-args show c)
  chained-client (keyed (of_list c)) = ap some (list_chained-args show c)
  chained-client (keyed (of_set c)) = ap some (set_chained-args show c)
  chained-client (keyed (of_zset c)) = ap some (zset_chained-args show c)
  chained-client (keyed (of_bitmap c)) = ap some (bitmap_chained-args show c)
  chained-client (of_stream c) = stream_chained-args show c
  chained-client (of_generic c) = generic_chained-args show c
  chained-client (of_script c) = script_chained-args show c
  chained-client (of_server c) = ap some (server_chained-args c)

  -- A command chained to two requests or more sends what it sends on its own, but for ZMPOP and for
  -- XREAD, MULTI, WAIT and WAITAOF, which a pipeline does not have.
  pub appended-client :
      (c : AnyCommand D)
      → names_zmpop c ≡ false
      → appended c ≡ if_some (pipelines c) (client_args show c)
  unfolding appended client_args keyed_args
  appended-client (keyed (of_string c)) h = ap some (string_appended-args show c)
  appended-client (keyed (of_hash c)) h = ap some (hash_appended-args show c)
  appended-client (keyed (of_list c)) h = ap some (list_appended-args show c)
  appended-client (keyed (of_set c)) h = ap some (set_appended-args show c)
  appended-client (keyed (of_zset c)) h = ap some (zset_appended-args show c h)
  appended-client (keyed (of_bitmap c)) h = ap some (bitmap_appended-args show c)
  appended-client (of_stream c) h = stream_appended-args show c
  appended-client (of_generic c) h = generic_appended-args show c
  appended-client (of_script c) h = script_appended-args show c
  appended-client (of_server c) h = ap some (server_appended-args c)

  -- A command chained to two requests or more in a cluster goes to the slot to which the cluster client
  -- sends it, with the same words, or neither has it, but for these: ZMPOP; SELECT, FLUSHALL,
  -- FLUSHDB and a SHUTDOWN with arguments; and XREAD, MULTI, WAIT and WAITAOF, which a pipeline does
  -- not have.
  pub appended_route-cluster :
      (c : AnyCommand D)
      → strays c ≡ false
      → appended_route c ≡ (if pipelines c then cluster_route show c else none)
  unfolding appended_route cluster_route keyed_route
  appended_route-cluster (keyed (of_string c)) h = string_appended_route-route show c
  appended_route-cluster (keyed (of_hash c)) h = hash_appended_route-route show c
  appended_route-cluster (keyed (of_list c)) h = list_appended_route-route show c
  appended_route-cluster (keyed (of_set c)) h = set_appended_route-route show c
  appended_route-cluster (keyed (of_zset c)) h = zset_appended_route-route show c h
  appended_route-cluster (keyed (of_bitmap c)) h = bitmap_appended_route-route show c
  appended_route-cluster (of_stream c) h = stream_appended_route-route show c
  appended_route-cluster (of_generic c) h = generic_appended_route-route show c
  appended_route-cluster (of_script c) h = script_appended_route-route show c
  appended_route-cluster (of_server c) h = server_appended_route-route c h
