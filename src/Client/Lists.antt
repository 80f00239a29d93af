-- ===== src/Client/Lists.antt =====
-- include/RedisClient.hpp and include/RedisCluster.hpp, the List commands.
use xredis_client.Base.{Bytes, List, [], ◌∷◌, codes, ◌≡◌, refl, ℕ}
use xredis_client.Base.Int.{ℤ}
use xredis_client.Base.Decimal.{to_chars_signed}
use xredis_client.Connection.{get_slot}
use xredis_client.Client.{command, to_slot_of, word, key_position}

pub data ListCommand (D : Type 0) : Type 0 where
  blmove : Bytes → Bytes → Bytes → Bytes → D → ListCommand D
  blmpop : D → ℤ → Bytes → List Bytes → ListCommand D
  blpop : Bytes → List Bytes → ListCommand D
  brpop : Bytes → List Bytes → ListCommand D
  lindex : Bytes → ℤ → ListCommand D
  linsert : Bytes → Bytes → Bytes → Bytes → ListCommand D
  llen : Bytes → ListCommand D
  lmove : Bytes → Bytes → Bytes → Bytes → ListCommand D
  lmpop : ℤ → Bytes → List Bytes → ListCommand D
  lpop : Bytes → List Bytes → ListCommand D
  lpos : Bytes → Bytes → List Bytes → ListCommand D
  lpush : Bytes → Bytes → List Bytes → ListCommand D
  lpushx : Bytes → Bytes → List Bytes → ListCommand D
  lrange : Bytes → ℤ → ℤ → ListCommand D
  lrem : Bytes → ℤ → Bytes → ListCommand D
  lset : Bytes → ℤ → Bytes → ListCommand D
  ltrim : Bytes → ℤ → ℤ → ListCommand D
  rpop : Bytes → ListCommand D
  rpush : Bytes → Bytes → List Bytes → ListCommand D
  rpushx : Bytes → Bytes → List Bytes → ListCommand D

-- `show` is the decimal text of a `double`.
module _ {D : Type 0} (show : D → Bytes) where
  -- The words that `RedisClient` sends.
  unfoldable pub list_args : ListCommand D → List Bytes
  list_args (blmove source destination wherefrom whereto timeout) =
      codes "BLMOVE" ∷ source ∷ destination ∷ wherefrom ∷ whereto ∷ show timeout ∷ []
  list_args (blmpop timeout numkeys first_key args) =
      codes "BLMPOP" ∷ show timeout ∷ to_chars_signed numkeys ∷ first_key ∷ args
  list_args (blpop first_key other_keys_and_timeout) =
      codes "BLPOP" ∷ first_key ∷ other_keys_and_timeout
  list_args (brpop first_key other_keys_and_timeout) =
      codes "BRPOP" ∷ first_key ∷ other_keys_and_timeout
  list_args (lindex key db_index) = codes "LINDEX" ∷ key ∷ to_chars_signed db_index ∷ []
  list_args (linsert key side pivot element) = codes "LINSERT" ∷ key ∷ side ∷ pivot ∷ element ∷ []
  list_args (llen key) = codes "LLEN" ∷ key ∷ []
  list_args (lmove source destination wherefrom whereto) =
      codes "LMOVE" ∷ source ∷ destination ∷ wherefrom ∷ whereto ∷ []
  list_args (lmpop numkeys first_key args) =
      codes "LMPOP" ∷ to_chars_signed numkeys ∷ first_key ∷ args
  list_args (lpop key count) = codes "LPOP" ∷ key ∷ count
  list_args (lpos key element args) = codes "LPOS" ∷ key ∷ element ∷ args
  list_args (lpush key first_val other_vals) = codes "LPUSH" ∷ key ∷ first_val ∷ other_vals
  list_args (lpushx key first_val other_vals) = codes "LPUSHX" ∷ key ∷ first_val ∷ other_vals
  list_args (lrange key start stop) =
      codes "LRANGE" ∷ key ∷ to_chars_signed start ∷ to_chars_signed stop ∷ []
  list_args (lrem key count element) = codes "LREM" ∷ key ∷ to_chars_signed count ∷ element ∷ []
  list_args (lset key db_index element) =
      codes "LSET" ∷ key ∷ to_chars_signed db_index ∷ element ∷ []
  list_args (ltrim key start stop) =
      codes "LTRIM" ∷ key ∷ to_chars_signed start ∷ to_chars_signed stop ∷ []
  list_args (rpop key) = codes "RPOP" ∷ key ∷ []
  list_args (rpush key first_val other_vals) = codes "RPUSH" ∷ key ∷ first_val ∷ other_vals
  list_args (rpushx key first_val other_vals) = codes "RPUSHX" ∷ key ∷ first_val ∷ other_vals

  -- The slot and the words of `RedisCluster`.
  unfoldable pub list_route : ListCommand D → ℕ × List Bytes
  list_route (blmove source destination wherefrom whereto timeout) =
      command (codes "BLMOVE") source (destination ∷ wherefrom ∷ whereto ∷ show timeout ∷ [])
  list_route (blmpop timeout numkeys first_key args) =
      to_slot_of first_key
        (codes "BLMPOP" ∷ show timeout ∷ to_chars_signed numkeys ∷ first_key ∷ args)
  list_route (blpop first_key other_keys_and_timeout) =
      command (codes "BLPOP") first_key other_keys_and_timeout
  list_route (brpop first_key other_keys_and_timeout) =
      command (codes "BRPOP") first_key other_keys_and_timeout
  list_route (lindex key db_index) = command (codes "LINDEX") key (to_chars_signed db_index ∷ [])
  list_route (linsert key side pivot element) =
      command (codes "LINSERT") key (side ∷ pivot ∷ element ∷ [])
  list_route (llen key) = command (codes "LLEN") key []
  list_route (lmove source destination wherefrom whereto) =
      command (codes "LMOVE") source (destination ∷ wherefrom ∷ whereto ∷ [])
  list_route (lmpop numkeys first_key args) =
      to_slot_of first_key (codes "LMPOP" ∷ to_chars_signed numkeys ∷ first_key ∷ args)
  list_route (lpop key count) = command (codes "LPOP") key count
  list_route (lpos key element args) = command (codes "LPOS") key (element ∷ args)
  list_route (lpush key first_val other_vals) = command (codes "LPUSH") key (first_val ∷ other_vals)
  list_route (lpushx key first_val other_vals) =
      command (codes "LPUSHX") key (first_val ∷ other_vals)
  list_route (lrange key start stop) =
      command (codes "LRANGE") key (to_chars_signed start ∷ to_chars_signed stop ∷ [])
  list_route (lrem key count element) =
      command (codes "LREM") key (to_chars_signed count ∷ element ∷ [])
  list_route (lset key db_index element) =
      command (codes "LSET") key (to_chars_signed db_index ∷ element ∷ [])
  list_route (ltrim key start stop) =
      command (codes "LTRIM") key (to_chars_signed start ∷ to_chars_signed stop ∷ [])
  list_route (rpop key) = command (codes "RPOP") key []
  list_route (rpush key first_val other_vals) = command (codes "RPUSH") key (first_val ∷ other_vals)
  list_route (rpushx key first_val other_vals) =
      command (codes "RPUSHX") key (first_val ∷ other_vals)

  -- The cluster client sends what the single client sends, to the slot of the first key, for every
  -- command of this family. Where the first key stands is known from the name of the command.
  pub list_route-keyed :
      (c : ListCommand D)
      → list_route c
        ≡ (get_slot (word (key_position (word 0 (list_args c))) (list_args c)), list_args c)
  unfolding list_route list_args
  list_route-keyed (blmove source destination wherefrom whereto timeout) = refl
  list_route-keyed (blmpop timeout numkeys first_key args) = refl
  list_route-keyed (blpop first_key other_keys_and_timeout) = refl
  list_route-keyed (brpop first_key other_keys_and_timeout) = refl
  list_route-keyed (lindex key db_index) = refl
  list_route-keyed (linsert key side pivot element) = refl
  list_route-keyed (llen key) = refl
  list_route-keyed (lmove source destination wherefrom whereto) = refl
  list_route-keyed (lmpop numkeys first_key args) = refl
  list_route-keyed (lpop key count) = refl
  list_route-keyed (lpos key element args) = refl
  list_route-keyed (lpush key first_val other_vals) = refl
  list_route-keyed (lpushx key first_val other_vals) = refl
  list_route-keyed (lrange key start stop) = refl
  list_route-keyed (lrem key count element) = refl
  list_route-keyed (lset key db_index element) = refl
  list_route-keyed (ltrim key start stop) = refl
  list_route-keyed (rpop key) = refl
  list_route-keyed (rpush key first_val other_vals) = refl
  list_route-keyed (rpushx key first_val other_vals) = refl
