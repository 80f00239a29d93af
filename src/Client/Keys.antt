-- ===== src/Client/Keys.antt =====
-- include/RedisClient.hpp and include/RedisCluster.hpp, the Generic commands.
use xredis_client.Base.{
  Bytes, List, [], ◌∷◌, codes, ◌≡◌, refl, ℕ, ◌⊎◌, inl, inr, Option, none, some,
}
use xredis_client.Base.Decimal.{to_chars}
use xredis_client.Connection.{get_slot}
use xredis_client.Client.{command, word}

pub data GenericCommand (D : Type 0) : Type 0 where
  copy : Bytes → Bytes → List Bytes → GenericCommand D
  del : Bytes → List Bytes → GenericCommand D
  dump : Bytes → GenericCommand D
  exists : Bytes → GenericCommand D
  expire : Bytes → ℕ → List Bytes → GenericCommand D
  expireat : Bytes → ℕ → List Bytes → GenericCommand D
  expiretime : Bytes → GenericCommand D
  keys : Bytes → GenericCommand D
  move : Bytes → ℕ → GenericCommand D
  persist : Bytes → GenericCommand D
  pexpire : Bytes → ℕ → List Bytes → GenericCommand D
  pexpireat : Bytes → ℕ → List Bytes → GenericCommand D
  pexpiretime : Bytes → GenericCommand D
  pttl : Bytes → GenericCommand D
  randomkey : GenericCommand D
  rename : Bytes → Bytes → GenericCommand D
  renamenx : Bytes → Bytes → GenericCommand D
  scan : ℕ → List Bytes → GenericCommand D
  sort : Bytes → List Bytes → GenericCommand D
  sort_ro : Bytes → List Bytes → GenericCommand D
  touch : Bytes → List Bytes → GenericCommand D
  ttl : Bytes → GenericCommand D
  type : Bytes → GenericCommand D
  unlink : Bytes → List Bytes → GenericCommand D
  wait : ℕ → ℕ → GenericCommand D
  waitaof : ℕ → ℕ → ℕ → GenericCommand D

-- `show` is the decimal text of a `double`.
module _ {D : Type 0} (show : D → Bytes) where
  -- The words that `RedisClient` sends.
  unfoldable pub generic_args : GenericCommand D → List Bytes
  generic_args (copy source destination args) = codes "COPY" ∷ source ∷ destination ∷ args
  generic_args (del first_key other_keys) = codes "DEL" ∷ first_key ∷ other_keys
  generic_args (dump key) = codes "DUMP" ∷ key ∷ []
  generic_args (exists key) = codes "EXISTS" ∷ key ∷ []
  generic_args (expire key seconds args) = codes "EXPIRE" ∷ key ∷ to_chars seconds ∷ args
  generic_args (expireat key unix_time_seconds args) =
      codes "EXPIREAT" ∷ key ∷ to_chars unix_time_seconds ∷ args
  generic_args (expiretime key) = codes "EXPIRETIME" ∷ key ∷ []
  generic_args (keys glob) = codes "KEYS" ∷ glob ∷ []
  generic_args (move key db) = codes "MOVE" ∷ key ∷ to_chars db ∷ []
  generic_args (persist key) = codes "PERSIST" ∷ key ∷ []
  generic_args (pexpire key milliseconds args) =
      codes "PEXPIRE" ∷ key ∷ to_chars milliseconds ∷ args
  generic_args (pexpireat key unix_time_milliseconds args) =
      codes "PEXPIREAT" ∷ key ∷ to_chars unix_time_milliseconds ∷ args
  generic_args (pexpiretime key) = codes "PEXPIRETIME" ∷ key ∷ []
  generic_args (pttl key) = codes "PTTL" ∷ key ∷ []
  generic_args randomkey = codes "RANDOMKEY" ∷ []
  generic_args (rename key newkey) = codes "RENAME" ∷ key ∷ newkey ∷ []
  generic_args (renamenx key newkey) = codes "RENAMENX" ∷ key ∷ newkey ∷ []
  generic_args (scan cursor args) = codes "SCAN" ∷ to_chars cursor ∷ args
  generic_args (sort key args) = codes "SORT" ∷ key ∷ args
  generic_args (sort_ro key args) = codes "SORT_RO" ∷ key ∷ args
  generic_args (touch first_key other_keys) = codes "TOUCH" ∷ first_key ∷ other_keys
  generic_args (ttl key) = codes "TTL" ∷ key ∷ []
  generic_args (type key) = codes "TYPE" ∷ key ∷ []
  generic_args (unlink first_key other_keys) = codes "UNLINK" ∷ first_key ∷ other_keys
  generic_args (wait numreplicas timeout) =
      codes "WAIT" ∷ to_chars numreplicas ∷ to_chars timeout ∷ []
  generic_args (waitaof numlocal numreplicas timeout) =
      codes "WAITAOF" ∷ to_chars numlocal ∷ to_chars numreplicas ∷ to_chars timeout ∷ []

  -- The slot and the words of `RedisCluster`, none where it has no such function.
  unfoldable pub generic_route : GenericCommand D → Option (ℕ × List Bytes)
  generic_route (copy source destination args) =
      some (command (codes "COPY") source (destination ∷ args))
  generic_route (del first_key other_keys) = some (command (codes "DEL") first_key other_keys)
  generic_route (dump key) = some (command (codes "DUMP") key [])
  generic_route (exists key) = some (command (codes "EXISTS") key [])
  generic_route (expire key seconds args) =
      some (command (codes "EXPIRE") key (to_chars seconds ∷ args))
  generic_route (expireat key unix_time_seconds args) =
      some (command (codes "EXPIREAT") key (to_chars unix_time_seconds ∷ args))
  generic_route (expiretime key) = some (command (codes "EXPIRETIME") key [])
  generic_route (keys glob) = some (command (codes "KEYS") glob [])
  generic_route (move key db) = some (command (codes "MOVE") key (to_chars db ∷ []))
  generic_route (persist key) = some (command (codes "PERSIST") key [])
  generic_route (pexpire key milliseconds args) =
      some (command (codes "PEXPIRE") key (to_chars milliseconds ∷ args))
  generic_route (pexpireat key unix_time_milliseconds args) =
      some (command (codes "PEXPIREAT") key (to_chars unix_time_milliseconds ∷ args))
  generic_route (pexpiretime key) = some (command (codes "PEXPIRETIME") key [])
  generic_route (pttl key) = some (command (codes "PTTL") key [])
  generic_route randomkey = none
  generic_route (rename key newkey) = some (command (codes "RENAME") key (newkey ∷ []))
  generic_route (renamenx key newkey) = some (command (codes "RENAMENX") key (newkey ∷ []))
  generic_route (scan cursor args) = some (command (codes "SCAN") (to_chars cursor) args)
  generic_route (sort key args) = some (command (codes "SORT") key args)
  generic_route (sort_ro key args) = some (command (codes "SORT_RO") key args)
  generic_route (touch first_key other_keys) = some (command (codes "TOUCH") first_key other_keys)
  generic_route (ttl key) = some (command (codes "TTL") key [])
  generic_route (type key) = some (command (codes "TYPE") key [])
  generic_route (unlink first_key other_keys) = some (command (codes "UNLINK") first_key other_keys)
  generic_route (wait numreplicas timeout) = none
  generic_route (waitaof numlocal numreplicas timeout) = none

  -- What the cluster client sends is what the single client sends, and its slot is always that of the
  -- word behind the command's name, which for KEYS and SCAN is no key. A command that the
  -- cluster client does not have is the only exception.
  pub generic_route-second :
      (c : GenericCommand D)
      → (generic_route c ≡ some (get_slot (word 1 (generic_args c)), generic_args c))
        ⊎ (generic_route c ≡ none)
  unfolding generic_route generic_args
  generic_route-second (copy source destination args) = inl refl
  generic_route-second (del first_key other_keys) = inl refl
  generic_route-second (dump key) = inl refl
  generic_route-second (exists key) = inl refl
  generic_route-second (expire key seconds args) = inl refl
  generic_route-second (expireat key unix_time_seconds args) = inl refl
  generic_route-second (expiretime key) = inl refl
  generic_route-second (keys glob) = inl refl
  generic_route-second (move key db) = inl refl
  generic_route-second (persist key) = inl refl
  generic_route-second (pexpire key milliseconds args) = inl refl
  generic_route-second (pexpireat key unix_time_milliseconds args) = inl refl
  generic_route-second (pexpiretime key) = inl refl
  generic_route-second (pttl key) = inl refl
  generic_route-second randomkey = inr refl
  generic_route-second (rename key newkey) = inl refl
  generic_route-second (renamenx key newkey) = inl refl
  generic_route-second (scan cursor args) = inl refl
  generic_route-second (sort key args) = inl refl
  generic_route-second (sort_ro key args) = inl refl
  generic_route-second (touch first_key other_keys) = inl refl
  generic_route-second (ttl key) = inl refl
  generic_route-second (type key) = inl refl
  generic_route-second (unlink first_key other_keys) = inl refl
  generic_route-second (wait numreplicas timeout) = inr refl
  generic_route-second (waitaof numlocal numreplicas timeout) = inr refl
