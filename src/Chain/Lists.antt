-- ===== src/Chain/Lists.antt =====
-- include/RedisCommander.hpp, the List commands of a pipeline.
use xredis_client.Base.{Bytes, List, [], ◌∷◌, codes, ◌≡◌, refl, ℕ, Option, some}
use xredis_client.Base.Decimal.{to_chars_signed}
use xredis_client.Client.{to_slot_of}
use xredis_client.Client.Lists.{
  ListCommand, blmove, blmpop, blpop, brpop, lindex, linsert, llen, lmove, lmpop, lpop, lpos, lpush,
  lpushx, lrange, lrem, lset, ltrim, rpop, rpush, rpushx, list_args, list_route,
}
use xredis_client.Chain.{routed}

module _ {D : Type 0} (show : D → Bytes) where
  -- The words that CommandAwaiter chains.
  unfoldable pub list_chained : ListCommand D → List Bytes
  list_chained (blmove source destination wherefrom whereto timeout) =
      codes "BLMOVE" ∷ source ∷ destination ∷ wherefrom ∷ whereto ∷ show timeout ∷ []
  list_chained (blmpop timeout numkeys first_key args) =
      codes "BLMPOP" ∷ show timeout ∷ to_chars_signed numkeys ∷ first_key ∷ args
  list_chained (blpop first_key other_keys_and_timeout) =
      codes "BLPOP" ∷ first_key ∷ other_keys_and_timeout
  list_chained (brpop first_key other_keys_and_timeout) =
      codes "BRPOP" ∷ first_key ∷ other_keys_and_timeout
  list_chained (lindex key db_index) = codes "LINDEX" ∷ key ∷ to_chars_signed db_index ∷ []
  list_chained (linsert key side pivot element) =
      codes "LINSERT" ∷ key ∷ side ∷ pivot ∷ element ∷ []
  list_chained (llen key) = codes "LLEN" ∷ key ∷ []
  list_chained (lmove source destination wherefrom whereto) =
      codes "LMOVE" ∷ source ∷ destination ∷ wherefrom ∷ whereto ∷ []
  list_chained (lmpop numkeys first_key args) =
      codes "LMPOP" ∷ to_chars_signed numkeys ∷ first_key ∷ args
  list_chained (lpop key count) = codes "LPOP" ∷ key ∷ count
  list_chained (lpos key element args) = codes "LPOS" ∷ key ∷ element ∷ args
  list_chained (lpush key first_val other_vals) = codes "LPUSH" ∷ key ∷ first_val ∷ other_vals
  list_chained (lpushx key first_val other_vals) = codes "LPUSHX" ∷ key ∷ first_val ∷ other_vals
  list_chained (lrange key start stop) =
      codes "LRANGE" ∷ key ∷ to_chars_signed start ∷ to_chars_signed stop ∷ []
  list_chained (lrem key count element) = codes "LREM" ∷ key ∷ to_chars_signed count ∷ element ∷ []
  list_chained (lset key db_index element) =
      codes "LSET" ∷ key ∷ to_chars_signed db_index ∷ element ∷ []
  list_chained (ltrim key start stop) =
      codes "LTRIM" ∷ key ∷ to_chars_signed start ∷ to_chars_signed stop ∷ []
  list_chained (rpop key) = codes "RPOP" ∷ key ∷ []
  list_chained (rpush key first_val other_vals) = codes "RPUSH" ∷ key ∷ first_val ∷ other_vals
  list_chained (rpushx key first_val other_vals) = codes "RPUSHX" ∷ key ∷ first_val ∷ other_vals

  -- The words that RedisCommandOperation chains, outside a cluster.
  unfoldable pub list_appended : ListCommand D → List Bytes
  list_appended (blmove source destination wherefrom whereto timeout) =
      codes "BLMOVE" ∷ source ∷ destination ∷ wherefrom ∷ whereto ∷ show timeout ∷ []
  list_appended (blmpop timeout numkeys first_key args) =
      codes "BLMPOP" ∷ show timeout ∷ to_chars_signed numkeys ∷ first_key ∷ args
  list_appended (blpop first_key other_keys_and_timeout) =
      codes "BLPOP" ∷ first_key ∷ other_keys_and_timeout
  list_appended (brpop first_key other_keys_and_timeout) =
      codes "BRPOP" ∷ first_key ∷ other_keys_and_timeout
  list_appended (lindex key db_index) = codes "LINDEX" ∷ key ∷ to_chars_signed db_index ∷ []
  list_appended (linsert key side pivot element) =
      codes "LINSERT" ∷ key ∷ side ∷ pivot ∷ element ∷ []
  list_appended (llen key) = codes "LLEN" ∷ key ∷ []
  list_appended (lmove source destination wherefrom whereto) =
      codes "LMOVE" ∷ source ∷ destination ∷ wherefrom ∷ whereto ∷ []
  list_appended (lmpop numkeys first_key args) =
      codes "LMPOP" ∷ to_chars_signed numkeys ∷ first_key ∷ args
  list_appended (lpop key count) = codes "LPOP" ∷ key ∷ count
  list_appended (lpos key element args) = codes "LPOS" ∷ key ∷ element ∷ args
  list_appended (lpush key first_val other_vals) = codes "LPUSH" ∷ key ∷ first_val ∷ other_vals
  list_appended (lpushx key first_val other_vals) = codes "LPUSHX" ∷ key ∷ first_val ∷ other_vals
  list_appended (lrange key start stop) =
      codes "LRANGE" ∷ key ∷ to_chars_signed start ∷ to_chars_signed stop ∷ []
  list_appended (lrem key count element) = codes "LREM" ∷ key ∷ to_chars_signed count ∷ element ∷ []
  list_appended (lset key db_index element) =
      codes "LSET" ∷ key ∷ to_chars_signed db_index ∷ element ∷ []
  list_appended (ltrim key start stop) =
      codes "LTRIM" ∷ key ∷ to_chars_signed start ∷ to_chars_signed stop ∷ []
  list_appended (rpop key) = codes "RPOP" ∷ key ∷ []
  list_appended (rpush key first_val other_vals) = codes "RPUSH" ∷ key ∷ first_val ∷ other_vals
  list_appended (rpushx key first_val other_vals) = codes "RPUSHX" ∷ key ∷ first_val ∷ other_vals

  -- The slot and the words that RedisCommandOperation chains in a cluster; none where the call does not
  -- compile.
  unfoldable pub list_appended_route : ListCommand D → Option (ℕ × List Bytes)
  unfolding list_appended
  list_appended_route (blmpop timeout numkeys first_key args) = some (
      to_slot_of first_key
        (codes "BLMPOP" ∷ show timeout ∷ to_chars_signed numkeys ∷ first_key ∷ args))
  list_appended_route (lmpop numkeys first_key args) =
      some (to_slot_of first_key (codes "LMPOP" ∷ to_chars_signed numkeys ∷ first_key ∷ args))
  list_appended_route c = routed (list_appended c)

  pub list_chained-args : (c : ListCommand D) → list_chained c ≡ list_args show c
  unfolding list_chained list_args
  list_chained-args (blmove source destination wherefrom whereto timeout) = refl
  list_chained-args (blmpop timeout numkeys first_key args) = refl
  list_chained-args (blpop first_key other_keys_and_timeout) = refl
  list_chained-args (brpop first_key other_keys_and_timeout) = refl
  list_chained-args (lindex key db_index) = refl
  list_chained-args (linsert key side pivot element) = refl
  list_chained-args (llen key) = refl
  list_chained-args (lmove source destination wherefrom whereto) = refl
  list_chained-args (lmpop numkeys first_key args) = refl
  list_chained-args (lpop key count) = refl
  list_chained-args (lpos key element args) = refl
  list_chained-args (lpush key first_val other_vals) = refl
  list_chained-args (lpushx key first_val other_vals) = refl
  list_chained-args (lrange key start stop) = refl
  list_chained-args (lrem key count element) = refl
  list_chained-args (lset key db_index element) = refl
  list_chained-args (ltrim key start stop) = refl
  list_chained-args (rpop key) = refl
  list_chained-args (rpush key first_val other_vals) = refl
  list_chained-args (rpushx key first_val other_vals) = refl

  pub list_appended-args : (c : ListCommand D) → list_appended c ≡ list_args show c
  unfolding list_appended list_args
  list_appended-args (blmove source destination wherefrom whereto timeout) = refl
  list_appended-args (blmpop timeout numkeys first_key args) = refl
  list_appended-args (blpop first_key other_keys_and_timeout) = refl
  list_appended-args (brpop first_key other_keys_and_timeout) = refl
  list_appended-args (lindex key db_index) = refl
  list_appended-args (linsert key side pivot element) = refl
  list_appended-args (llen key) = refl
  list_appended-args (lmove source destination wherefrom whereto) = refl
  list_appended-args (lmpop numkeys first_key args) = refl
  list_appended-args (lpop key count) = refl
  list_appended-args (lpos key element args) = refl
  list_appended-args (lpush key first_val other_vals) = refl
  list_appended-args (lpushx key first_val other_vals) = refl
  list_appended-args (lrange key start stop) = refl
  list_appended-args (lrem key count element) = refl
  list_appended-args (lset key db_index element) = refl
  list_appended-args (ltrim key start stop) = refl
  list_appended-args (rpop key) = refl
  list_appended-args (rpush key first_val other_vals) = refl
  list_appended-args (rpushx key first_val other_vals) = refl

  pub list_appended_route-route :
      (c : ListCommand D) → list_appended_route c ≡ some (list_route show c)
  unfolding list_appended_route list_appended list_route
  list_appended_route-route (blmove source destination wherefrom whereto timeout) = refl
  list_appended_route-route (blmpop timeout numkeys first_key args) = refl
  list_appended_route-route (blpop first_key other_keys_and_timeout) = refl
  list_appended_route-route (brpop first_key other_keys_and_timeout) = refl
  list_appended_route-route (lindex key db_index) = refl
  list_appended_route-route (linsert key side pivot element) = refl
  list_appended_route-route (llen key) = refl
  list_appended_route-route (lmove source destination wherefrom whereto) = refl
  list_appended_route-route (lmpop numkeys first_key args) = refl
  list_appended_route-route (lpop key count) = refl
  list_appended_route-route (lpos key element args) = refl
  list_appended_route-route (lpush key first_val other_vals) = refl
  list_appended_route-route (lpushx key first_val other_vals) = refl
  list_appended_route-route (lrange key start stop) = refl
  list_appended_route-route (lrem key count element) = refl
  list_appended_route-route (lset key db_index element) = refl
  list_appended_route-route (ltrim key start stop) = refl
  list_appended_route-route (rpop key) = refl
  list_appended_route-route (rpush key first_val other_vals) = refl
  list_appended_route-route (rpushx key first_val other_vals) = refl
