-- ===== src/Client/Server.antt =====
-- include/RedisClient.hpp and include/RedisCluster.hpp, the commands for the server and for channels.
use xredis_client.Base.{Bytes, Bool, List, [], ◌∷◌, codes, ℕ, Option, none, some, if◌then◌else◌}
use xredis_client.Base.Decimal.{to_chars}
use xredis_client.Client.{command}

pub data ServerCommand : Type 0 where
  ping dbsize save : ServerCommand
  select : (index : ℕ) → ServerCommand
  flushall flushdb : (async : Bool) → ServerCommand
  shutdown : (args : List Bytes) → ServerCommand
  publish : (channel message : Bytes) → ServerCommand
  spublish : (shardchannel message : Bytes) → ServerCommand

abbrev pub mode : Bool → Bytes
mode async = if async then codes "ASYNC" else codes "SYNC"

-- The words that `RedisClient` sends.
unfoldable pub server_args : ServerCommand → List Bytes
server_args ping = codes "PING" ∷ []
server_args (select index) = codes "SELECT" ∷ to_chars index ∷ []
server_args (flushall async) = codes "FLUSHALL" ∷ mode async ∷ []
server_args (flushdb async) = codes "FLUSHDB" ∷ mode async ∷ []
server_args dbsize = codes "DBSIZE" ∷ []
server_args save = codes "SAVE" ∷ []
server_args (shutdown args) = codes "SHUTDOWN" ∷ args
server_args (publish channel message) = codes "PUBLISH" ∷ channel ∷ message ∷ []
server_args (spublish shardchannel message) = codes "SPUBLISH" ∷ shardchannel ∷ message ∷ []

-- The slot and the words of `RedisCluster`, which has two of them.
unfoldable pub server_route : ServerCommand → Option (ℕ × List Bytes)
server_route (publish channel message) = some (command (codes "PUBLISH") channel (message ∷ []))
server_route (spublish shardchannel message) =
    some (command (codes "SPUBLISH") shardchannel (message ∷ []))
server_route c = none
