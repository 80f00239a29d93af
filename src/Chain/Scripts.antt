-- ===== src/Chain/Scripts.antt =====
-- include/RedisCommander.hpp, the Scripting and Transaction commands of a pipeline.
use xredis_client.Base.{
  Bytes, Bool, true, false, List, [], ◌∷◌, codes, ◌≡◌, refl, ℕ, Option, none, some, if◌then◌else◌,
}
use xredis_client.Base.Decimal.{to_chars}
use xredis_client.Client.{to_slot_of}
use xredis_client.Client.Scripts.{
  ScriptCommand, eval, evalsha, script_load, watch, unwatch, multi, script_args, script_route,
}
use xredis_client.Chain.{routed, and_then}

-- Which of the commands a pipeline has.
abbrev pub script_pipelines : {D : Type 0} → ScriptCommand D → Bool
script_pipelines (multi tag) = false
script_pipelines c = true

module _ {D : Type 0} (show : D → Bytes) where
  -- The words that CommandAwaiter chains.
  unfoldable pub script_chained : ScriptCommand D → Option (List Bytes)
  script_chained (eval script numkeys args) = some (codes "EVAL" ∷ script ∷ to_chars numkeys ∷ args)
  script_chained (evalsha sha1 numkeys args) =
      some (codes "EVALSHA" ∷ sha1 ∷ to_chars numkeys ∷ args)
  script_chained (script_load script) = some (codes "SCRIPT" ∷ codes "LOAD" ∷ script ∷ [])
  script_chained (watch first_key other_keys) = some (codes "WATCH" ∷ first_key ∷ other_keys)
  script_chained (unwatch tag) = some (codes "UNWATCH" ∷ [])
  script_chained (multi tag) = none

  -- The words that RedisCommandOperation chains, outside a cluster.
  unfoldable pub script_appended : ScriptCommand D → Option (List Bytes)
  script_appended (eval script numkeys args) =
      some (codes "EVAL" ∷ script ∷ to_chars numkeys ∷ args)
  script_appended (evalsha sha1 numkeys args) =
      some (codes "EVALSHA" ∷ sha1 ∷ to_chars numkeys ∷ args)
  script_appended (script_load script) = some (codes "SCRIPT" ∷ codes "LOAD" ∷ script ∷ [])
  script_appended (watch first_key other_keys) = some (codes "WATCH" ∷ first_key ∷ other_keys)
  script_appended (unwatch tag) = some (codes "UNWATCH" ∷ [])
  script_appended (multi tag) = none

  -- The slot and the words that RedisCommandOperation chains in a cluster; none where the call does not
  -- compile.
  unfoldable pub script_appended_route : ScriptCommand D → Option (ℕ × List Bytes)
  unfolding script_appended
  script_appended_route (unwatch tag) = some (to_slot_of tag (codes "UNWATCH" ∷ []))
  script_appended_route (multi tag) = none
  script_appended_route c = and_then (script_appended c) routed

  pub script_chained-args :
      (c : ScriptCommand D)
      → script_chained c ≡ (if script_pipelines c then some (script_args show c) else none)
  unfolding script_chained script_args
  script_chained-args (eval script numkeys args) = refl
  script_chained-args (evalsha sha1 numkeys args) = refl
  script_chained-args (script_load script) = refl
  script_chained-args (watch first_key other_keys) = refl
  script_chained-args (unwatch tag) = refl
  script_chained-args (multi tag) = refl

  pub script_appended-args :
      (c : ScriptCommand D)
      → script_appended c ≡ (if script_pipelines c then some (script_args show c) else none)
  unfolding script_appended script_args
  script_appended-args (eval script numkeys args) = refl
  script_appended-args (evalsha sha1 numkeys args) = refl
  script_appended-args (script_load script) = refl
  script_appended-args (watch first_key other_keys) = refl
  script_appended-args (unwatch tag) = refl
  script_appended-args (multi tag) = refl

  pub script_appended_route-route :
      (c : ScriptCommand D)
      → script_appended_route c ≡ (if script_pipelines c then some (script_route show c) else none)
  unfolding script_appended_route script_appended script_route
  script_appended_route-route (eval script numkeys args) = refl
  script_appended_route-route (evalsha sha1 numkeys args) = refl
  script_appended_route-route (script_load script) = refl
  script_appended_route-route (watch first_key other_keys) = refl
  script_appended_route-route (unwatch tag) = refl
  script_appended_route-route (multi tag) = refl
