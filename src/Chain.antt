-- ===== src/Chain.antt =====
-- include/RedisCommander.hpp: the commands of a pipeline. `CommandAwaiter` holds one request and makes
-- an operation of two, `RedisCommandOperation` adds one request to those that it holds; each
-- function for a command passes its words to `command`.
pub mod Strings
pub mod Hashes
pub mod Lists
pub mod Sets
pub mod SortedSets
pub mod Bitmaps
pub mod Streams
pub mod Keys
pub mod Scripts
pub mod Server
pub mod Words
mod Tests
use Prim.Native.String.{String}
use xredis_client.Base.{ℕ, Bytes, List, [], ◌∷◌, ◌++◌, Option, none, some, codes}
use xredis_client.Client.{command}
use xredis_client.Command.{build_commands}

-- The requests of an operation and, in a cluster, their slots.
pub record Operation : Type 0 where
  pub slots : List ℕ
  pub ops : List Bytes

-- `CommandAwaiter::command`
unfoldable pub chain_two : Bytes → List Bytes → Operation
chain_two data_ words = record { slots = []; ops = data_ ∷ build_commands words ∷ [] }

-- `RedisCommandOperation::command` outside a cluster
unfoldable pub chain_more : Operation → List Bytes → Operation
chain_more o words = record o { ops = o.ops ++ (build_commands words ∷ []) }

-- and in a cluster, with the slot of the request.
unfoldable pub chain_routed : Operation → ℕ × List Bytes → Operation
chain_routed o (slot, words) = record {
  slots = o.slots ++ (slot ∷ []);
  ops = o.ops ++ (build_commands words ∷ []);
}

-- The words of `exec`; in a cluster it goes to the slot of the first request.
abbrev pub exec_words : List Bytes
exec_words = codes "EXEC" ∷ []

unfoldable pub exec_route : Operation → Option (ℕ × List Bytes)
exec_route o = elim o.slots [ [] ↦ none | slot ∷ rest ↦ some (slot, exec_words) ]

-- `_command` in a cluster: the slot is that of the word behind the command's name, which must be there.
abbrev pub routed : List Bytes → Option (ℕ × List Bytes)
routed [] = none
routed (cmd ∷ []) = none
routed (cmd ∷ key ∷ args) = some (command cmd key args)

abbrev pub and_then : {A B : Type 0} → Option A → (A → Option B) → Option B
and_then none f = none
and_then (some a) f = f a
