-- ===== src/Client/Scripts.antt =====
-- include/RedisClient.hpp and include/RedisCluster.hpp, the Scripting and Transaction commands.
use xredis_client.Base.{Bytes, List, [], ◌∷◌, codes, ℕ}
use xredis_client.Base.Decimal.{to_chars}
use xredis_client.Client.{command, to_slot_of}

pub data ScriptCommand (D : Type 0) : Type 0 where
  eval : Bytes → ℕ → List Bytes → ScriptCommand D
  evalsha : Bytes → ℕ → List Bytes → ScriptCommand D
  script_load : Bytes → ScriptCommand D
  watch : Bytes → List Bytes → ScriptCommand D
  unwatch : Bytes → ScriptCommand D
  multi : Bytes → ScriptCommand D

-- `show` is the decimal text of a `double`.
module _ {D : Type 0} (show : D → Bytes) where
  -- The words that `RedisClient` sends.
  unfoldable pub script_args : ScriptCommand D → List Bytes
  script_args (eval script numkeys args) = codes "EVAL" ∷ script ∷ to_chars numkeys ∷ args
  script_args (evalsha sha1 numkeys args) = codes "EVALSHA" ∷ sha1 ∷ to_chars numkeys ∷ args
  script_args (script_load script) = codes "SCRIPT" ∷ codes "LOAD" ∷ script ∷ []
  script_args (watch first_key other_keys) = codes "WATCH" ∷ first_key ∷ other_keys
  script_args (unwatch tag) = codes "UNWATCH" ∷ []
  script_args (multi tag) = codes "MULTI" ∷ []

  -- The slot and the words of `RedisCluster`.
  unfoldable pub script_route : ScriptCommand D → ℕ × List Bytes
  script_route (eval script numkeys args) = command (codes "EVAL") script (to_chars numkeys ∷ args)
  script_route (evalsha sha1 numkeys args) =
      command (codes "EVALSHA") sha1 (to_chars numkeys ∷ args)
  script_route (script_load script) = command (codes "SCRIPT") (codes "LOAD") (script ∷ [])
  script_route (watch first_key other_keys) = command (codes "WATCH") first_key other_keys
  script_route (unwatch tag) = to_slot_of tag (codes "UNWATCH" ∷ [])
  script_route (multi tag) = to_slot_of tag (codes "MULTI" ∷ [])
