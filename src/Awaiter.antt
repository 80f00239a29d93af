-- ===== src/Awaiter.antt =====
-- include/RedisCommander.hpp: the awaiters of an operation of `n` requests, in which `n` workers, one
-- for each request, collect the replies. A worker is a coroutine that the reader of a connection
-- resumes; the workers of an operation may run on several threads, and their accesses to what they
-- share interleave in any order. `V` is the type of a result.
pub mod Sums
pub mod Workers
pub mod Single
pub mod Cluster
pub mod Command
mod Tests
use xredis_client.Base.{ℕ, ◌+◌, ◌<◌, Bool, true, false, Option, none, some, ◌==◌, ◌≡◌, ◌≢◌}
use xredis_client.Shared.{update}

-- The members of the awaiter that the workers change, and how often its coroutine was resumed.
pub record Operation (V : Type 0) : Type 0 where
  pub done : ℕ
  pub resumed : ℕ
  pub results : ℕ → Option V

-- Where a worker stands.
pub data Pc (V : Type 0) : Type 0 where
  created : Pc V  -- before its handle is in a ring
  waiting : Pc V
  got : (v : V) → Pc V  -- resumed, with the reply in `details::result()`
  stored : Pc V
  counted : (need_resume : Bool) → Pc V
  ended : Pc V
  destroyed : Pc V

-- Where the coroutine that awaits the operation stands, in `await_suspend`.
pub data Caller : Type 0 where
  starting : Caller
  pushing : (idx : ℕ) → Caller  -- `push_pipe<idx>`
  refused : (idx : ℕ) → Caller  -- before `done` is increased for a request that was not pushed
  checking : Caller  -- before the last test of `done`
  suspended : Caller
  returned : Caller  -- `await_suspend` gave false, and the coroutine runs on

pub record State (V : Type 0) : Type 0 where
  pub op : Operation V
  pub workers : ℕ → Pc V
  pub caller : Caller

module _ {V : Type 0} (n : ℕ) where
  -- A step of worker `i`.
  pub data Work (i : ℕ) (o : Operation V) : Pc V → Operation V → Pc V → Type 0 where
    resume : (v : V) → Work i o waiting o (got v)
    store : {v : V} → Work i o (got v) (record o { results = update o.results i (some v) }) stored
    count : Work i o stored (record o { done = o.done + 1 }) (counted (o.done + 1 == n))
    wake : Work i o (counted true) (record o { resumed = o.resumed + 1 }) ended
    finish : Work i o (counted false) o ended

  abbrev pub fresh : State V
  fresh = record {
    op = record { done = 0; resumed = 0; results = λ _. none };
    workers = λ _. created;
    caller = starting;
  }

  -- RedisCommandOperationAwaiter, and ClusterCommandOperationAwaiter for a transaction: all requests are
  -- pushed at once, or all are refused, with one error for each result.
  pub data Step (s : State V) : State V → Type 0 where
    push_all :
        s.caller ≡ starting → Step s (record s { workers = λ _. waiting; caller = suspended })
    refuse_all :
        (error : V)
        → s.caller ≡ starting
        → Step s (record {
          op = record { done = s.op.done; resumed = s.op.resumed + 1; results = λ _. some error };
          workers = λ _. destroyed;
          caller = returned;
        })
    work :
        (i : ℕ) {o : Operation V} {p : Pc V}
        → i < n
        → Work i s.op (s.workers i) o p
        → Step s (record s { op = o; workers = update s.workers i p })

  pub data Reach : State V → Type 0 where
    initial : Reach fresh
    later : {s t : State V} → Reach s → Step s t → Reach t

  -- ClusterCommandOperationAwaiter: one request after the other goes to the ring of its own connection.
  pub data ClusterStep (s : State V) : State V → Type 0 where
    start : s.caller ≡ starting → ClusterStep s (record s { caller = pushing 0 })
    push_one :
        {idx : ℕ}
        → s.caller ≡ pushing idx
        → idx < n
        → ClusterStep s
            (record s { workers = update s.workers idx waiting; caller = pushing (idx + 1) })
    refuse_one :
        {idx : ℕ} (error : V)
        → s.caller ≡ pushing idx
        → idx < n
        → ClusterStep s (record {
          op = record s.op { results = update s.op.results idx (some error) };
          workers = update s.workers idx destroyed;
          caller = refused idx;
        })
    count_refused :
        {idx : ℕ}
        → s.caller ≡ refused idx
        → ClusterStep s
            (record s { op = record s.op { done = s.op.done + 1 }; caller = pushing (idx + 1) })
    pushed_all : s.caller ≡ pushing n → ClusterStep s (record s { caller = checking })
    complete_early :
        s.caller ≡ checking
        → s.op.done ≡ n
        → ClusterStep s
            (record s { op = record s.op { resumed = s.op.resumed + 1 }; caller = returned })
    suspend : s.caller ≡ checking → s.op.done ≢ n → ClusterStep s (record s { caller = suspended })
    work :
        (i : ℕ) {o : Operation V} {p : Pc V}
        → i < n
        → Work i s.op (s.workers i) o p
        → ClusterStep s (record s { op = o; workers = update s.workers i p })

  pub data ClusterReach : State V → Type 0 where
    initial : ClusterReach fresh
    later : {s t : State V} → ClusterReach s → ClusterStep s t → ClusterReach t
