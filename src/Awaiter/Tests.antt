-- ===== src/Awaiter/Tests.antt =====
-- Operations of two requests at concrete states. A result is a number.
use xredis_client.Base.{ℕ, some, ◌≡◌, refl, arith}
use xredis_client.Awaiter.{
  State, resume, store, count, wake, finish, push_all, work, Reach, initial, later, ClusterReach,
}
use xredis_client.Awaiter.Single.{Settled, woken-once}
use xredis_client.Awaiter.Cluster.{resumed-twice}
use native.Mathlib.Decide.{ℕ_discrete}

-- The second worker has its reply and has counted itself, the first still waits.
abbrev half_way : (s : State ℕ) × Reach 2 s
unfolding ℕ_discrete
half_way = (
  _,
  later
      (later (later (later initial (push_all refl)) (work 1 (omega arith) (resume 20)))
        (work 1 (omega arith) store))
      (work 1 (omega arith) count),
)

woken-once_example : Settled 2 half_way.0
unfolding ℕ_discrete half_way
woken-once_example = woken-once (omega arith) half_way.1

-- Both have counted themselves, and the one that was last has resumed the coroutine.
abbrev complete : (s : State ℕ) × Reach 2 s
unfolding ℕ_discrete half_way
complete = (
  _,
  later
      (later
        (later
          (later (later half_way.1 (work 1 (omega arith) finish))
            (work 0 (omega arith) (resume 10)))
          (work 0 (omega arith) store))
        (work 0 (omega arith) count))
      (work 0 (omega arith) wake),
)

complete-resumed : complete.0.op.resumed ≡ 1
unfolding ℕ_discrete half_way complete
complete-resumed = refl

complete-results : (complete.0.op.results 0 ≡ some 10) × (complete.0.op.results 1 ≡ some 20)
unfolding ℕ_discrete half_way complete
complete-results = (refl, refl)

resumed-twice_example : (s : State ℕ) × ClusterReach 2 s × (s.op.resumed ≡ 2)
resumed-twice_example = resumed-twice 2 7 (omega arith)
