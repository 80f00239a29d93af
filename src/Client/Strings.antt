-- ===== src/Client/Strings.antt =====
-- include/RedisClient.hpp and include/RedisCluster.hpp, the String commands.
use xredis_client.Base.{Bytes, List, [], ◌∷◌, codes, ◌≡◌, refl, ℕ}
use xredis_client.Base.Int.{ℤ}
use xredis_client.Base.Decimal.{to_chars_signed}
use xredis_client.Connection.{get_slot}
use xredis_client.Client.{command, word, key_position}

pub data StringCommand (D : Type 0) : Type 0 where
  append : Bytes → Bytes → StringCommand D
  decr : Bytes → StringCommand D
  decrby : Bytes → ℤ → StringCommand D
  get : Bytes → StringCommand D
  getdel : Bytes → StringCommand D
  getex : Bytes → List Bytes → StringCommand D
  getrange : Bytes → ℤ → ℤ → StringCommand D
  incr : Bytes → StringCommand D
  incrby : Bytes → ℤ → StringCommand D
  incrbyfloat : Bytes → D → StringCommand D
  lcs : Bytes → Bytes → List Bytes → StringCommand D
  mget : Bytes → List Bytes → StringCommand D
  mset : Bytes → Bytes → List Bytes → StringCommand D
  msetnx : Bytes → Bytes → List Bytes → StringCommand D
  psetex : Bytes → ℤ → Bytes → StringCommand D
  set : Bytes → Bytes → List Bytes → StringCommand D
  setex : Bytes → ℤ → Bytes → StringCommand D
  setnx : Bytes → Bytes → StringCommand D
  setrange : Bytes → ℤ → Bytes → StringCommand D
  strlen : Bytes → StringCommand D

-- `show` is the decimal text of a `double`.
module _ {D : Type 0} (show : D → Bytes) where
  -- The words that `RedisClient` sends.
  unfoldable pub string_args : StringCommand D → List Bytes
  string_args (append key value) = codes "APPEND" ∷ key ∷ value ∷ []
  string_args (decr key) = codes "DECR" ∷ key ∷ []
  string_args (decrby key decrement) = codes "DECRBY" ∷ key ∷ to_chars_signed decrement ∷ []
  string_args (get key) = codes "GET" ∷ key ∷ []
  string_args (getdel key) = codes "GETDEL" ∷ key ∷ []
  string_args (getex key args) = codes "GETEX" ∷ key ∷ args
  string_args (getrange key start stop) =
      codes "GETRANGE" ∷ key ∷ to_chars_signed start ∷ to_chars_signed stop ∷ []
  string_args (incr key) = codes "INCR" ∷ key ∷ []
  string_args (incrby key increment) = codes "INCRBY" ∷ key ∷ to_chars_signed increment ∷ []
  string_args (incrbyfloat key increment) = codes "INCRBYFLOAT" ∷ key ∷ show increment ∷ []
  string_args (lcs key1 key2 args) = codes "LCS" ∷ key1 ∷ key2 ∷ args
  string_args (mget first_key other_keys) = codes "MGET" ∷ first_key ∷ other_keys
  string_args (mset first second rest) = codes "MSET" ∷ first ∷ second ∷ rest
  string_args (msetnx first second rest) = codes "MSETNX" ∷ first ∷ second ∷ rest
  string_args (psetex key milliseconds value) =
      codes "PSETEX" ∷ key ∷ to_chars_signed milliseconds ∷ value ∷ []
  string_args (set key value args) = codes "SET" ∷ key ∷ value ∷ args
  string_args (setex key seconds value) = codes "SETEX" ∷ key ∷ to_chars_signed seconds ∷ value ∷ []
  string_args (setnx key value) = codes "SETNX" ∷ key ∷ value ∷ []
  string_args (setrange key offset value) =
      codes "SETRANGE" ∷ key ∷ to_chars_signed offset ∷ value ∷ []
  string_args (strlen key) = codes "STRLEN" ∷ key ∷ []

  -- The slot and the words of `RedisCluster`.
  unfoldable pub string_route : StringCommand D → ℕ × List Bytes
  string_route (append key value) = command (codes "APPEND") key (value ∷ [])
  string_route (decr key) = command (codes "DECR") key []
  string_route (decrby key decrement) =
      command (codes "DECRBY") key (to_chars_signed decrement ∷ [])
  string_route (get key) = command (codes "GET") key []
  string_route (getdel key) = command (codes "GETDEL") key []
  string_route (getex key args) = command (codes "GETEX") key args
  string_route (getrange key start stop) =
      command (codes "GETRANGE") key (to_chars_signed start ∷ to_chars_signed stop ∷ [])
  string_route (incr key) = command (codes "INCR") key []
  string_route (incrby key increment) =
      command (codes "INCRBY") key (to_chars_signed increment ∷ [])
  string_route (incrbyfloat key increment) = command (codes "INCRBYFLOAT") key (show increment ∷ [])
  string_route (lcs key1 key2 args) = command (codes "LCS") key1 (key2 ∷ args)
  string_route (mget first_key other_keys) = command (codes "MGET") first_key other_keys
  string_route (mset first second rest) = command (codes "MSET") first (second ∷ rest)
  string_route (msetnx first second rest) = command (codes "MSETNX") first (second ∷ rest)
  string_route (psetex key milliseconds value) =
      command (codes "PSETEX") key (to_chars_signed milliseconds ∷ value ∷ [])
  string_route (set key value args) = command (codes "SET") key (value ∷ args)
  string_route (setex key seconds value) =
      command (codes "SETEX") key (to_chars_signed seconds ∷ value ∷ [])
  string_route (setnx key value) = command (codes "SETNX") key (value ∷ [])
  string_route (setrange key offset value) =
      command (codes "SETRANGE") key (to_chars_signed offset ∷ value ∷ [])
  string_route (strlen key) = command (codes "STRLEN") key []

  -- The cluster client sends what the single client sends, to the slot of the first key, for every
  -- command of this family. Where the first key stands is known from the name of the command.
  pub string_route-keyed :
      (c : StringCommand D)
      → string_route c
        ≡ (get_slot (word (key_position (word 0 (string_args c))) (string_args c)), string_args c)
  unfolding string_route string_args
  string_route-keyed (append key value) = refl
  string_route-keyed (decr key) = refl
  string_route-keyed (decrby key decrement) = refl
  string_route-keyed (get key) = refl
  string_route-keyed (getdel key) = refl
  string_route-keyed (getex key args) = refl
  string_route-keyed (getrange key start stop) = refl
  string_route-keyed (incr key) = refl
  string_route-keyed (incrby key increment) = refl
  string_route-keyed (incrbyfloat key increment) = refl
  string_route-keyed (lcs key1 key2 args) = refl
  string_route-keyed (mget first_key other_keys) = refl
  string_route-keyed (mset first second rest) = refl
  string_route-keyed (msetnx first second rest) = refl
  string_route-keyed (psetex key milliseconds value) = refl
  string_route-keyed (set key value args) = refl
  string_route-keyed (setex key seconds value) = refl
  string_route-keyed (setnx key value) = refl
  string_route-keyed (setrange key offset value) = refl
  string_route-keyed (strlen key) = refl
