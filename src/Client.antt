-- ===== src/Client.antt =====
-- include/RedisClient.hpp and include/RedisCluster.hpp, what their functions send: the words of a
-- request and, in a cluster, the slot that it goes to.
pub mod Strings
pub mod Hashes
pub mod Lists
pub mod Sets
pub mod SortedSets
pub mod Bitmaps
pub mod Streams
pub mod Keys
pub mod Scripts
pub mod Server
pub mod Routes
pub mod Writer
pub mod Worker
pub mod Outage
pub mod Reader
pub mod Served
pub mod Matching
mod Tests
use Prim.Native.String.{String}
use xredis_client.Base.{
  ℕ, Bytes, Bool, true, false, ◌&&◌, ◌||◌, List, [], ◌∷◌, ◌==◌, if◌then◌else◌, same_word, codes,
  get_or,
}
use xredis_client.Connection.{get_slot}

-- `RedisCluster::command`: the slot is that of the word behind the command's name.
abbrev pub command : Bytes → Bytes → List Bytes → ℕ × List Bytes
command cmd key args = (get_slot key, cmd ∷ key ∷ args)

-- A request that is built in place, with the slot of the key that the function chooses.
abbrev pub to_slot_of : Bytes → List Bytes → ℕ × List Bytes
to_slot_of key args = (get_slot key, args)

abbrev pub word : ℕ → List Bytes → Bytes
word i args = get_or args i []

abbrev one_of : Bytes → List Bytes → Bool
one_of w [] = false
one_of w (x ∷ xs) = same_word w x || one_of w xs

-- Where the Redis documentation places the first key of a command: behind the name, but behind the
-- number of keys for some commands and behind the operation for BITOP; BLMPOP has a timeout too.
abbrev pub key_position : Bytes → ℕ
key_position name =
    if one_of name (codes "BLMPOP" ∷ [])
    then 3
    else if one_of name (
        codes "LMPOP"
        ∷ codes "SINTERCARD"
        ∷ codes "ZDIFF"
        ∷ codes "ZINTER"
        ∷ codes "ZINTERCARD"
        ∷ codes "ZMPOP"
        ∷ codes "ZUNION"
        ∷ codes "BITOP"
        ∷ [])
    then 2
    else 1
