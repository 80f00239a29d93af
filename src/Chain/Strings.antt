-- ===== src/Chain/Strings.antt =====
-- include/RedisCommander.hpp, the String commands of a pipeline.
use xredis_client.Base.{Bytes, List, [], ◌∷◌, codes, ◌≡◌, refl, ℕ, Option, some}
use xredis_client.Base.Decimal.{to_chars_signed}
use xredis_client.Client.Strings.{
  StringCommand, append, decr, decrby, get, getdel, getex, getrange, incr, incrby, incrbyfloat, lcs,
  mget, mset, msetnx, psetex, set, setex, setnx, setrange, strlen, string_args, string_route,
}
use xredis_client.Chain.{routed}

module _ {D : Type 0} (show : D → Bytes) where
  -- The words that CommandAwaiter chains.
  unfoldable pub string_chained : StringCommand D → List Bytes
  string_chained (append key value) = codes "APPEND" ∷ key ∷ value ∷ []
  string_chained (decr key) = codes "DECR" ∷ key ∷ []
  string_chained (decrby key decrement) = codes "DECRBY" ∷ key ∷ to_chars_signed decrement ∷ []
  string_chained (get key) = codes "GET" ∷ key ∷ []
  string_chained (getdel key) = codes "GETDEL" ∷ key ∷ []
  string_chained (getex key args) = codes "GETEX" ∷ key ∷ args
  string_chained (getrange key start stop) =
      codes "GETRANGE" ∷ key ∷ to_chars_signed start ∷ to_chars_signed stop ∷ []
  string_chained (incr key) = codes "INCR" ∷ key ∷ []
  string_chained (incrby key increment) = codes "INCRBY" ∷ key ∷ to_chars_signed increment ∷ []
  string_chained (incrbyfloat key increment) = codes "INCRBYFLOAT" ∷ key ∷ show increment ∷ []
  string_chained (lcs key1 key2 args) = codes "LCS" ∷ key1 ∷ key2 ∷ args
  string_chained (mget first_key other_keys) = codes "MGET" ∷ first_key ∷ other_keys
  string_chained (mset first second rest) = codes "MSET" ∷ first ∷ second ∷ rest
  string_chained (msetnx first second rest) = codes "MSETNX" ∷ first ∷ second ∷ rest
  string_chained (psetex key milliseconds value) =
      codes "PSETEX" ∷ key ∷ to_chars_signed milliseconds ∷ value ∷ []
  string_chained (set key value args) = codes "SET" ∷ key ∷ value ∷ args
  string_chained (setex key seconds value) =
      codes "SETEX" ∷ key ∷ to_chars_signed seconds ∷ value ∷ []
  string_chained (setnx key value) = codes "SETNX" ∷ key ∷ value ∷ []
  string_chained (setrange key offset value) =
      codes "SETRANGE" ∷ key ∷ to_chars_signed offset ∷ value ∷ []
  string_chained (strlen key) = codes "STRLEN" ∷ key ∷ []

  -- The words that RedisCommandOperation chains, outside a cluster.
  unfoldable pub string_appended : StringCommand D → List Bytes
  string_appended (append key value) = codes "APPEND" ∷ key ∷ value ∷ []
  string_appended (decr key) = codes "DECR" ∷ key ∷ []
  string_appended (decrby key decrement) = codes "DECRBY" ∷ key ∷ to_chars_signed decrement ∷ []
  string_appended (get key) = codes "GET" ∷ key ∷ []
  string_appended (getdel key) = codes "GETDEL" ∷ key ∷ []
  string_appended (getex key args) = codes "GETEX" ∷ key ∷ args
  string_appended (getrange key start stop) =
      codes "GETRANGE" ∷ key ∷ to_chars_signed start ∷ to_chars_signed stop ∷ []
  string_appended (incr key) = codes "INCR" ∷ key ∷ []
  string_appended (incrby key increment) = codes "INCRBY" ∷ key ∷ to_chars_signed increment ∷ []
  string_appended (incrbyfloat key increment) = codes "INCRBYFLOAT" ∷ key ∷ show increment ∷ []
  string_appended (lcs key1 key2 args) = codes "LCS" ∷ key1 ∷ key2 ∷ args
  string_appended (mget first_key other_keys) = codes "MGET" ∷ first_key ∷ other_keys
  string_appended (mset first second rest) = codes "MSET" ∷ first ∷ second ∷ rest
  string_appended (msetnx first second rest) = codes "MSETNX" ∷ first ∷ second ∷ rest
  string_appended (psetex key milliseconds value) =
      codes "PSETEX" ∷ key ∷ to_chars_signed milliseconds ∷ value ∷ []
  string_appended (set key value args) = codes "SET" ∷ key ∷ value ∷ args
  string_appended (setex key seconds value) =
      codes "SETEX" ∷ key ∷ to_chars_signed seconds ∷ value ∷ []
  string_appended (setnx key value) = codes "SETNX" ∷ key ∷ value ∷ []
  string_appended (setrange key offset value) =
      codes "SETRANGE" ∷ key ∷ to_chars_signed offset ∷ value ∷ []
  string_appended (strlen key) = codes "STRLEN" ∷ key ∷ []

  -- The slot and the words that RedisCommandOperation chains in a cluster; none where the call does not
  -- compile.
  unfoldable pub string_appended_route : StringCommand D → Option (ℕ × List Bytes)
  unfolding string_appended
  string_appended_route c = routed (string_appended c)

  pub string_chained-args : (c : StringCommand D) → string_chained c ≡ string_args show c
  unfolding string_chained string_args
  string_chained-args (append key value) = refl
  string_chained-args (decr key) = refl
  string_chained-args (decrby key decrement) = refl
  string_chained-args (get key) = refl
  string_chained-args (getdel key) = refl
  string_chained-args (getex key args) = refl
  string_chained-args (getrange key start stop) = refl
  string_chained-args (incr key) = refl
  string_chained-args (incrby key increment) = refl
  string_chained-args (incrbyfloat key increment) = refl
  string_chained-args (lcs key1 key2 args) = refl
  string_chained-args (mget first_key other_keys) = refl
  string_chained-args (mset first second rest) = refl
  string_chained-args (msetnx first second rest) = refl
  string_chained-args (psetex key milliseconds value) = refl
  string_chained-args (set key value args) = refl
  string_chained-args (setex key seconds value) = refl
  string_chained-args (setnx key value) = refl
  string_chained-args (setrange key offset value) = refl
  string_chained-args (strlen key) = refl

  pub string_appended-args : (c : StringCommand D) → string_appended c ≡ string_args show c
  unfolding string_appended string_args
  string_appended-args (append key value) = refl
  string_appended-args (decr key) = refl
  string_appended-args (decrby key decrement) = refl
  string_appended-args (get key) = refl
  string_appended-args (getdel key) = refl
  string_appended-args (getex key args) = refl
  string_appended-args (getrange key start stop) = refl
  string_appended-args (incr key) = refl
  string_appended-args (incrby key increment) = refl
  string_appended-args (incrbyfloat key increment) = refl
  string_appended-args (lcs key1 key2 args) = refl
  string_appended-args (mget first_key other_keys) = refl
  string_appended-args (mset first second rest) = refl
  string_appended-args (msetnx first second rest) = refl
  string_appended-args (psetex key milliseconds value) = refl
  string_appended-args (set key value args) = refl
  string_appended-args (setex key seconds value) = refl
  string_appended-args (setnx key value) = refl
  string_appended-args (setrange key offset value) = refl
  string_appended-args (strlen key) = refl

  pub string_appended_route-route :
      (c : StringCommand D) → string_appended_route c ≡ some (string_route show c)
  unfolding string_appended_route string_appended string_route
  string_appended_route-route (append key value) = refl
  string_appended_route-route (decr key) = refl
  string_appended_route-route (decrby key decrement) = refl
  string_appended_route-route (get key) = refl
  string_appended_route-route (getdel key) = refl
  string_appended_route-route (getex key args) = refl
  string_appended_route-route (getrange key start stop) = refl
  string_appended_route-route (incr key) = refl
  string_appended_route-route (incrby key increment) = refl
  string_appended_route-route (incrbyfloat key increment) = refl
  string_appended_route-route (lcs key1 key2 args) = refl
  string_appended_route-route (mget first_key other_keys) = refl
  string_appended_route-route (mset first second rest) = refl
  string_appended_route-route (msetnx first second rest) = refl
  string_appended_route-route (psetex key milliseconds value) = refl
  string_appended_route-route (set key value args) = refl
  string_appended_route-route (setex key seconds value) = refl
  string_appended_route-route (setnx key value) = refl
  string_appended_route-route (setrange key offset value) = refl
  string_appended_route-route (strlen key) = refl
