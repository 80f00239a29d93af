-- ===== src/Chain/Server.antt =====
-- include/RedisCommander.hpp, the commands of a pipeline for the server and for channels.
use xredis_client.Base.{Bytes, Bool, true, false, List, [], ◌∷◌, codes, ◌≡◌, refl, ℕ, Option, arith}
use xredis_client.Base.Decimal.{to_chars}
use xredis_client.Client.Server.{
  ServerCommand, ping, dbsize, save, select, flushall, flushdb, shutdown, publish, spublish, mode,
  server_args, server_route,
}
use xredis_client.Chain.{routed}

-- The words that CommandAwaiter chains.
unfoldable pub server_chained : ServerCommand → List Bytes
server_chained ping = codes "PING" ∷ []
server_chained (select index) = codes "SELECT" ∷ to_chars index ∷ []
server_chained (flushall async) = codes "FLUSHALL" ∷ mode async ∷ []
server_chained (flushdb async) = codes "FLUSHDB" ∷ mode async ∷ []
server_chained dbsize = codes "DBSIZE" ∷ []
server_chained save = codes "SAVE" ∷ []
server_chained (shutdown args) = codes "SHUTDOWN" ∷ args
server_chained (publish channel message) = codes "PUBLISH" ∷ channel ∷ message ∷ []
server_chained (spublish shardchannel message) = codes "SPUBLISH" ∷ shardchannel ∷ message ∷ []

-- The words that RedisCommandOperation chains, outside a cluster.
unfoldable pub server_appended : ServerCommand → List Bytes
server_appended ping = codes "PING" ∷ []
server_appended (select index) = codes "SELECT" ∷ to_chars index ∷ []
server_appended (flushall async) = codes "FLUSHALL" ∷ mode async ∷ []
server_appended (flushdb async) = codes "FLUSHDB" ∷ mode async ∷ []
server_appended dbsize = codes "DBSIZE" ∷ []
server_appended save = codes "SAVE" ∷ []
server_appended (shutdown args) = codes "SHUTDOWN" ∷ args
server_appended (publish channel message) = codes "PUBLISH" ∷ channel ∷ message ∷ []
server_appended (spublish shardchannel message) = codes "SPUBLISH" ∷ shardchannel ∷ message ∷ []

-- The slot and the words that RedisCommandOperation chains in a cluster; none where the call does not
-- compile.
unfoldable pub server_appended_route : ServerCommand → Option (ℕ × List Bytes)
unfolding server_appended
server_appended_route c = routed (server_appended c)

-- The commands that a pipeline in a cluster takes, though the cluster client does not have them.
abbrev pub is_stray : ServerCommand → Bool
is_stray (select index) = true
is_stray (flushall async) = true
is_stray (flushdb async) = true
is_stray (shutdown (arg ∷ args)) = true
is_stray c = false

pub server_chained-args : (c : ServerCommand) → server_chained c ≡ server_args c
unfolding server_chained server_args
server_chained-args ping = refl
server_chained-args (select index) = refl
server_chained-args (flushall async) = refl
server_chained-args (flushdb async) = refl
server_chained-args dbsize = refl
server_chained-args save = refl
server_chained-args (shutdown args) = refl
server_chained-args (publish channel message) = refl
server_chained-args (spublish shardchannel message) = refl

pub server_appended-args : (c : ServerCommand) → server_appended c ≡ server_args c
unfolding server_appended server_args
server_appended-args ping = refl
server_appended-args (select index) = refl
server_appended-args (flushall async) = refl
server_appended-args (flushdb async) = refl
server_appended-args dbsize = refl
server_appended-args save = refl
server_appended-args (shutdown args) = refl
server_appended-args (publish channel message) = refl
server_appended-args (spublish shardchannel message) = refl

pub server_appended_route-route :
    (c : ServerCommand) → is_stray c ≡ false → server_appended_route c ≡ server_route c
unfolding server_appended_route server_appended server_route
server_appended_route-route ping h = refl
server_appended_route-route dbsize h = refl
server_appended_route-route save h = refl
server_appended_route-route (select index) h = absurd (ground (arith, h))
server_appended_route-route (flushall async) h = absurd (ground (arith, h))
server_appended_route-route (flushdb async) h = absurd (ground (arith, h))
server_appended_route-route (shutdown []) h = refl
server_appended_route-route (shutdown (arg ∷ args)) h = absurd (ground (arith, h))
server_appended_route-route (publish channel message) h = refl
server_appended_route-route (spublish shardchannel message) h = refl
