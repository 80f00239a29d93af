-- ===== src/Client/Routes.antt =====
-- include/RedisClient.hpp and include/RedisCluster.hpp: the commands of all families together, in
-- their two clients.
use xredis_client.Base.{ℕ, Bytes, List, Option, some, ◌≡◌}
use xredis_client.Connection.{get_slot}
use xredis_client.Client.{word, key_position}
use xredis_client.Client.Strings.{StringCommand, string_args, string_route, string_route-keyed}
use xredis_client.Client.Hashes.{HashCommand, hash_args, hash_route, hash_route-keyed}
use xredis_client.Client.Lists.{ListCommand, list_args, list_route, list_route-keyed}
use xredis_client.Client.Sets.{SetCommand, set_args, set_route, set_route-keyed}
use xredis_client.Client.SortedSets.{ZSetCommand, zset_args, zset_route, zset_route-keyed}
use xredis_client.Client.Bitmaps.{BitmapCommand, bitmap_args, bitmap_route, bitmap_route-keyed}
use xredis_client.Client.Streams.{StreamCommand, stream_args, stream_route}
use xredis_client.Client.Keys.{GenericCommand, generic_args, generic_route}
use xredis_client.Client.Server.{ServerCommand, server_args, server_route}
use xredis_client.Client.Scripts.{ScriptCommand, script_args, script_route}

-- The commands of the families of which every command names a key.
pub data KeyedCommand (D : Type 0) : Type 0 where
  of_string : StringCommand D → KeyedCommand D
  of_hash : HashCommand D → KeyedCommand D
  of_list : ListCommand D → KeyedCommand D
  of_set : SetCommand D → KeyedCommand D
  of_zset : ZSetCommand D → KeyedCommand D
  of_bitmap : BitmapCommand D → KeyedCommand D

pub data AnyCommand (D : Type 0) : Type 0 where
  keyed : KeyedCommand D → AnyCommand D
  of_stream : StreamCommand D → AnyCommand D
  of_generic : GenericCommand D → AnyCommand D
  of_script : ScriptCommand D → AnyCommand D
  of_server : ServerCommand → AnyCommand D

module _ {D : Type 0} (show : D → Bytes) where
  unfoldable pub keyed_args : KeyedCommand D → List Bytes
  keyed_args (of_string c) = string_args show c
  keyed_args (of_hash c) = hash_args show c
  keyed_args (of_list c) = list_args show c
  keyed_args (of_set c) = set_args show c
  keyed_args (of_zset c) = zset_args show c
  keyed_args (of_bitmap c) = bitmap_args show c

  unfoldable pub keyed_route : KeyedCommand D → ℕ × List Bytes
  keyed_route (of_string c) = string_route show c
  keyed_route (of_hash c) = hash_route show c
  keyed_route (of_list c) = list_route show c
  keyed_route (of_set c) = set_route show c
  keyed_route (of_zset c) = zset_route show c
  keyed_route (of_bitmap c) = bitmap_route show c

  -- The words that RedisClient sends.
  unfoldable pub client_args : AnyCommand D → List Bytes
  unfolding keyed_args
  client_args (keyed c) = keyed_args c
  client_args (of_stream c) = stream_args show c
  client_args (of_generic c) = generic_args show c
  client_args (of_script c) = script_args show c
  client_args (of_server c) = server_args c

  -- The slot and the words of RedisCluster, if it has the command.
  unfoldable pub cluster_route : AnyCommand D → Option (ℕ × List Bytes)
  unfolding keyed_route
  cluster_route (keyed c) = some (keyed_route c)
  cluster_route (of_stream c) = stream_route show c
  cluster_route (of_generic c) = generic_route show c
  cluster_route (of_script c) = some (script_route show c)
  cluster_route (of_server c) = server_route c

  -- The cluster client sends what the single client sends, to the slot of the first key, for every
  -- command of the families for strings, hashes, lists, sets, sorted sets, bitmaps and HyperLogLog.
  -- Where the first key stands is known from the name of the command.
  pub keyed_route-key :
      (c : KeyedCommand D)
      → keyed_route c
        ≡ (get_slot (word (key_position (word 0 (keyed_args c))) (keyed_args c)), keyed_args c)
  unfolding keyed_route keyed_args
  keyed_route-key (of_string c) = string_route-keyed show c
  keyed_route-key (of_hash c) = hash_route-keyed show c
  keyed_route-key (of_list c) = list_route-keyed show c
  keyed_route-key (of_set c) = set_route-keyed show c
  keyed_route-key (of_zset c) = zset_route-keyed show c
  keyed_route-key (of_bitmap c) = bitmap_route-keyed show c
