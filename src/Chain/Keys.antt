-- ===== src/Chain/Keys.antt =====
-- include/RedisCommander.hpp, the Generic commands of a pipeline.
use xredis_client.Base.{
  Bytes, Bool, true, false, List, [], ◌∷◌, codes, ◌≡◌, refl, ℕ, Option, none, some, if◌then◌else◌,
}
use xredis_client.Base.Decimal.{to_chars}
use xredis_client.Client.Keys.{
  GenericCommand, copy, del, dump, exists, expire, expireat, expiretime, keys, move, persist,
  pexpire, pexpireat, pexpiretime, pttl, randomkey, rename, renamenx, scan, sort, sort_ro, touch,
  ttl, type, unlink, wait, waitaof, generic_args, generic_route,
}
use xredis_client.Chain.{routed, and_then}

-- Which of the commands a pipeline has.
abbrev pub generic_pipelines : {D : Type 0} → GenericCommand D → Bool
generic_pipelines (wait numreplicas timeout) = false
generic_pipelines (waitaof numlocal numreplicas timeout) = false
generic_pipelines c = true

module _ {D : Type 0} (show : D → Bytes) where
  -- The words that CommandAwaiter chains.
  unfoldable pub generic_chained : GenericCommand D → Option (List Bytes)
  generic_chained (copy source destination args) = some (codes "COPY" ∷ source ∷ destination ∷ args)
  generic_chained (del first_key other_keys) = some (codes "DEL" ∷ first_key ∷ other_keys)
  generic_chained (dump key) = some (codes "DUMP" ∷ key ∷ [])
  generic_chained (exists key) = some (codes "EXISTS" ∷ key ∷ [])
  generic_chained (expire key seconds args) = some (codes "EXPIRE" ∷ key ∷ to_chars seconds ∷ args)
  generic_chained (expireat key unix_time_seconds args) =
      some (codes "EXPIREAT" ∷ key ∷ to_chars unix_time_seconds ∷ args)
  generic_chained (expiretime key) = some (codes "EXPIRETIME" ∷ key ∷ [])
  generic_chained (keys glob) = some (codes "KEYS" ∷ glob ∷ [])
  generic_chained (move key db) = some (codes "MOVE" ∷ key ∷ to_chars db ∷ [])
  generic_chained (persist key) = some (codes "PERSIST" ∷ key ∷ [])
  generic_chained (pexpire key milliseconds args) =
      some (codes "PEXPIRE" ∷ key ∷ to_chars milliseconds ∷ args)
  generic_chained (pexpireat key unix_time_milliseconds args) =
      some (codes "PEXPIREAT" ∷ key ∷ to_chars unix_time_milliseconds ∷ args)
  generic_chained (pexpiretime key) = some (codes "PEXPIRETIME" ∷ key ∷ [])
  generic_chained (pttl key) = some (codes "PTTL" ∷ key ∷ [])
  generic_chained randomkey = some (codes "RANDOMKEY" ∷ [])
  generic_chained (rename key newkey) = some (codes "RENAME" ∷ key ∷ newkey ∷ [])
  generic_chained (renamenx key newkey) = some (codes "RENAMENX" ∷ key ∷ newkey ∷ [])
  generic_chained (scan cursor args) = some (codes "SCAN" ∷ to_chars cursor ∷ args)
  generic_chained (sort key args) = some (codes "SORT" ∷ key ∷ args)
  generic_chained (sort_ro key args) = some (codes "SORT_RO" ∷ key ∷ args)
  generic_chained (touch first_key other_keys) = some (codes "TOUCH" ∷ first_key ∷ other_keys)
  generic_chained (ttl key) = some (codes "TTL" ∷ key ∷ [])
  generic_chained (type key) = some (codes "TYPE" ∷ key ∷ [])
  generic_chained (unlink first_key other_keys) = some (codes "UNLINK" ∷ first_key ∷ other_keys)
  generic_chained (wait numreplicas timeout) = none
  generic_chained (waitaof numlocal numreplicas timeout) = none

  -- The words that RedisCommandOperation chains, outside a cluster.
  unfoldable pub generic_appended : GenericCommand D → Option (List Bytes)
  generic_appended (copy source destination args) =
      some (codes "COPY" ∷ source ∷ destination ∷ args)
  generic_appended (del first_key other_keys) = some (codes "DEL" ∷ first_key ∷ other_keys)
  generic_appended (dump key) = some (codes "DUMP" ∷ key ∷ [])
  generic_appended (exists key) = some (codes "EXISTS" ∷ key ∷ [])
  generic_appended (expire key seconds args) = some (codes "EXPIRE" ∷ key ∷ to_chars seconds ∷ args)
  generic_appended (expireat key unix_time_seconds args) =
      some (codes "EXPIREAT" ∷ key ∷ to_chars unix_time_seconds ∷ args)
  generic_appended (expiretime key) = some (codes "EXPIRETIME" ∷ key ∷ [])
  generic_appended (keys glob) = some (codes "KEYS" ∷ glob ∷ [])
  generic_appended (move key db) = some (codes "MOVE" ∷ key ∷ to_chars db ∷ [])
  generic_appended (persist key) = some (codes "PERSIST" ∷ key ∷ [])
  generic_appended (pexpire key milliseconds args) =
      some (codes "PEXPIRE" ∷ key ∷ to_chars milliseconds ∷ args)
  generic_appended (pexpireat key unix_time_milliseconds args) =
      some (codes "PEXPIREAT" ∷ key ∷ to_chars unix_time_milliseconds ∷ args)
  generic_appended (pexpiretime key) = some (codes "PEXPIRETIME" ∷ key ∷ [])
  generic_appended (pttl key) = some (codes "PTTL" ∷ key ∷ [])
  generic_appended randomkey = some (codes "RANDOMKEY" ∷ [])
  generic_appended (rename key newkey) = some (codes "RENAME" ∷ key ∷ newkey ∷ [])
  generic_appended (renamenx key newkey) = some (codes "RENAMENX" ∷ key ∷ newkey ∷ [])
  generic_appended (scan cursor args) = some (codes "SCAN" ∷ to_chars cursor ∷ args)
  generic_appended (sort key args) = some (codes "SORT" ∷ key ∷ args)
  generic_appended (sort_ro key args) = some (codes "SORT_RO" ∷ key ∷ args)
  generic_appended (touch first_key other_keys) = some (codes "TOUCH" ∷ first_key ∷ other_keys)
  generic_appended (ttl key) = some (codes "TTL" ∷ key ∷ [])
  generic_appended (type key) = some (codes "TYPE" ∷ key ∷ [])
  generic_appended (unlink first_key other_keys) = some (codes "UNLINK" ∷ first_key ∷ other_keys)
  generic_appended (wait numreplicas timeout) = none
  generic_appended (waitaof numlocal numreplicas timeout) = none

  -- The slot and the words that RedisCommandOperation chains in a cluster; none where the call does not
  -- compile.
  unfoldable pub generic_appended_route : GenericCommand D → Option (ℕ × List Bytes)
  unfolding generic_appended
  generic_appended_route (wait numreplicas timeout) = none
  generic_appended_route (waitaof numlocal numreplicas timeout) = none
  generic_appended_route c = and_then (generic_appended c) routed

  pub generic_chained-args :
      (c : GenericCommand D)
      → generic_chained c ≡ (if generic_pipelines c then some (generic_args show c) else none)
  unfolding generic_chained generic_args
  generic_chained-args (copy source destination args) = refl
  generic_chained-args (del first_key other_keys) = refl
  generic_chained-args (dump key) = refl
  generic_chained-args (exists key) = refl
  generic_chained-args (expire key seconds args) = refl
  generic_chained-args (expireat key unix_time_seconds args) = refl
  generic_chained-args (expiretime key) = refl
  generic_chained-args (keys glob) = refl
  generic_chained-args (move key db) = refl
  generic_chained-args (persist key) = refl
  generic_chained-args (pexpire key milliseconds args) = refl
  generic_chained-args (pexpireat key unix_time_milliseconds args) = refl
  generic_chained-args (pexpiretime key) = refl
  generic_chained-args (pttl key) = refl
  generic_chained-args randomkey = refl
  generic_chained-args (rename key newkey) = refl
  generic_chained-args (renamenx key newkey) = refl
  generic_chained-args (scan cursor args) = refl
  generic_chained-args (sort key args) = refl
  generic_chained-args (sort_ro key args) = refl
  generic_chained-args (touch first_key other_keys) = refl
  generic_chained-args (ttl key) = refl
  generic_chained-args (type key) = refl
  generic_chained-args (unlink first_key other_keys) = refl
  generic_chained-args (wait numreplicas timeout) = refl
  generic_chained-args (waitaof numlocal numreplicas timeout) = refl

  pub generic_appended-args :
      (c : GenericCommand D)
      → generic_appended c ≡ (if generic_pipelines c then some (generic_args show c) else none)
  unfolding generic_appended generic_args
  generic_appended-args (copy source destination args) = refl
  generic_appended-args (del first_key other_keys) = refl
  generic_appended-args (dump key) = refl
  generic_appended-args (exists key) = refl
  generic_appended-args (expire key seconds args) = refl
  generic_appended-args (expireat key unix_time_seconds args) = refl
  generic_appended-args (expiretime key) = refl
  generic_appended-args (keys glob) = refl
  generic_appended-args (move key db) = refl
  generic_appended-args (persist key) = refl
  generic_appended-args (pexpire key milliseconds args) = refl
  generic_appended-args (pexpireat key unix_time_milliseconds args) = refl
  generic_appended-args (pexpiretime key) = refl
  generic_appended-args (pttl key) = refl
  generic_appended-args randomkey = refl
  generic_appended-args (rename key newkey) = refl
  generic_appended-args (renamenx key newkey) = refl
  generic_appended-args (scan cursor args) = refl
  generic_appended-args (sort key args) = refl
  generic_appended-args (sort_ro key args) = refl
  generic_appended-args (touch first_key other_keys) = refl
  generic_appended-args (ttl key) = refl
  generic_appended-args (type key) = refl
  generic_appended-args (unlink first_key other_keys) = refl
  generic_appended-args (wait numreplicas timeout) = refl
  generic_appended-args (waitaof numlocal numreplicas timeout) = refl

  pub generic_appended_route-route :
      (c : GenericCommand D)
      → generic_appended_route c ≡ (if generic_pipelines c then generic_route show c else none)
  unfolding generic_appended_route generic_appended generic_route
  generic_appended_route-route (copy source destination args) = refl
  generic_appended_route-route (del first_key other_keys) = refl
  generic_appended_route-route (dump key) = refl
  generic_appended_route-route (exists key) = refl
  generic_appended_route-route (expire key seconds args) = refl
  generic_appended_route-route (expireat key unix_time_seconds args) = refl
  generic_appended_route-route (expiretime key) = refl
  generic_appended_route-route (keys glob) = refl
  generic_appended_route-route (move key db) = refl
  generic_appended_route-route (persist key) = refl
  generic_appended_route-route (pexpire key milliseconds args) = refl
  generic_appended_route-route (pexpireat key unix_time_milliseconds args) = refl
  generic_appended_route-route (pexpiretime key) = refl
  generic_appended_route-route (pttl key) = refl
  generic_appended_route-route randomkey = refl
  generic_appended_route-route (rename key newkey) = refl
  generic_appended_route-route (renamenx key newkey) = refl
  generic_appended_route-route (scan cursor args) = refl
  generic_appended_route-route (sort key args) = refl
  generic_appended_route-route (sort_ro key args) = refl
  generic_appended_route-route (touch first_key other_keys) = refl
  generic_appended_route-route (ttl key) = refl
  generic_appended_route-route (type key) = refl
  generic_appended_route-route (unlink first_key other_keys) = refl
  generic_appended_route-route (wait numreplicas timeout) = refl
  generic_appended_route-route (waitaof numlocal numreplicas timeout) = refl
