-- ===== src/Awaiter/Cluster.antt =====
-- include/RedisCommander.hpp, an operation whose requests are pushed one after the other, to several
-- connections: a run in which the replies come while the caller is still in `await_suspend`.
use xredis_client.Base.{
  ℕ, zero, suc, ◌+◌, ◌<◌, ◌≤◌, Bool, true, false, some, ◌==◌, ◌≡◌, ◌≢◌, refl, ap, subst, sym, ◌∙◌,
  arith,
}
use xredis_client.Shared.{update}
use xredis_client.Awaiter.{
  Operation, Pc, waiting, got, stored, counted, ended, pushing, checking, State, Work, resume,
  store, count, wake, finish, fresh, start, push_one, pushed_all, complete_early, work,
  ClusterReach, initial, later,
}

module _ {V : Type 0} (n : ℕ) (v : V) where
  -- All requests up to `k` were pushed, and no reply came.
  record PushedTo (k : ℕ) : Type 0 where
    at : State V
    reached : ClusterReach n at
    caller : at.caller ≡ pushing k
    nothing : (at.op.done ≡ 0) × (at.op.resumed ≡ 0)
    waits : (i : ℕ) → i < k → at.workers i ≡ waiting

  push_to : (k : ℕ) → k ≤ n → PushedTo k
  push_to zero h = record {
    at = record (fresh n) { caller = pushing 0 };
    reached = later initial (start refl);
    caller = refl;
    nothing = (refl, refl);
    waits = λ i lt. absurd (omega arith);
  }
  push_to (suc k) h =
      let p = push_to k (omega arith) in
      record {
        at = record p.at { workers = update p.at.workers k waiting; caller = pushing (k + 1) };
        reached = later p.reached (push_one p.caller (omega arith));
        caller = ap pushing (omega arith);
        nothing = p.nothing;
        waits = λ i lt. ground (arith, lt, p.waits i);
      }

  -- Worker `i` gets its reply and goes on to its count.
  record Counted (s : State V) (i : ℕ) (b : Bool) : Type 0 where
    at : State V
    reached : ClusterReach n at
    caller : at.caller ≡ s.caller
    done : at.op.done ≡ s.op.done + 1
    resumed : at.op.resumed ≡ s.op.resumed
    here : at.workers i ≡ counted b
    others : (j : ℕ) → j ≢ i → at.workers j ≡ s.workers j

  abbrev moved : State V → ℕ → Operation V → Pc V → State V
  moved s i o p = record s { op = o; workers = update s.workers i p }

  moves :
      (s : State V) (i : ℕ) {o : Operation V} {p p' : Pc V}
      → ClusterReach n s
      → i < n
      → s.workers i ≡ p
      → Work n i s.op p o p'
      → ClusterReach n (moved s i o p')
  moves s i {o} {p} {p'} r lt e mv =
      later r (work i lt (subst (λ q. Work n i s.op q o p') (sym e) mv))

  runs_to_count :
      (s : State V) (i : ℕ)
      → ClusterReach n s
      → i < n
      → s.workers i ≡ waiting
      → Counted s i (s.op.done + 1 == n)
  runs_to_count s i r lt e =
      let s1 = moved s i s.op (got v) in
      let s2 = moved s1 i (record s.op { results = update s.op.results i (some v) }) stored in
      let s3 = moved s2 i (record s2.op { done = s.op.done + 1 }) (counted (s.op.done + 1 == n)) in
      let r1 : ClusterReach n s1 = moves s i r lt e (resume v) in
      let r2 : ClusterReach n s2 = moves s1 i r1 lt (ground arith) store in
      record {
        at = s3;
        reached = moves s2 i r2 lt (ground arith) count;
        caller = refl;
        done = refl;
        resumed = refl;
        here = ground arith;
        others = λ j ne. ground (arith, ne);
      }

  -- `k` workers came to their end while the caller has still its last test to do.
  record EndedTo (k : ℕ) : Type 0 where
    at : State V
    reached : ClusterReach n at
    caller : at.caller ≡ pushing n
    done : at.op.done ≡ k
    resumed : at.op.resumed ≡ 0
    waits : (i : ℕ) → k ≤ i → i < n → at.workers i ≡ waiting

  end_none : 0 < n → PushedTo n → EndedTo 0
  end_none h p = record {
    at = p.at;
    reached = p.reached;
    caller = p.caller;
    done = p.nothing.0;
    resumed = p.nothing.1;
    waits = λ i a lt. p.waits i lt;
  }

  ends_next :
      {k : ℕ} (p : EndedTo k) → suc k < n → Counted p.at k (p.at.op.done + 1 == n) → EndedTo (suc k)
  ends_next {k} p h c =
      let no : (p.at.op.done + 1 == n) ≡ false = ground (arith, h, p.done) in
      record {
        at = moved c.at k c.at.op ended;
        reached = moves c.at k c.reached (omega arith) (c.here ∙ ap counted no) finish;
        caller = c.caller ∙ p.caller;
        done = omega (arith, c.done, p.done);
        resumed = c.resumed ∙ p.resumed;
        waits = λ i a lt. ground (arith, a, c.others i, p.waits i (omega (arith, a)) lt);
      }

  end_to : (k : ℕ) → k < n → EndedTo k
  end_to zero h = end_none h (push_to n (omega arith))
  end_to (suc k) h =
      let p = end_to k (omega arith) in
      ends_next p h
        (runs_to_count p.at k p.reached (omega arith) (p.waits k (omega arith) (omega arith)))

  Twice : Type 0
  Twice = (s : State V) × ClusterReach n s × (s.op.resumed ≡ 2)

  ends_twice : {k : ℕ} (p : EndedTo k) → suc k ≡ n → Counted p.at k (p.at.op.done + 1 == n) → Twice
  unfolding Twice
  ends_twice {k} p h c =
      let yes : (p.at.op.done + 1 == n) ≡ true = ground (arith, h, p.done) in
      let woken = moved c.at k (record c.at.op { resumed = c.at.op.resumed + 1 }) ended in
      let r : ClusterReach n woken =
        moves c.at k c.reached (omega (arith, h)) (c.here ∙ ap counted yes) wake in
      let r' : ClusterReach n (record woken { caller = checking }) =
        later r (pushed_all (c.caller ∙ p.caller)) in
      (
        _,
        later r' (complete_early refl (omega (arith, c.done, p.done, h))),
        omega (arith, c.resumed, p.resumed),
      )

  -- For each number of requests there is a run in which the coroutine is resumed twice: by the last
  -- worker, and by `await_suspend`, which finds all workers done.
  pub resumed-twice : 0 < n → (s : State V) × ClusterReach n s × (s.op.resumed ≡ 2)
  unfolding Twice
  resumed-twice room = last n refl room
    where
      last : (m : ℕ) → m ≡ n → 0 < m → Twice
      last zero e r = absurd (omega arith)
      last (suc k) e r =
          let p = end_to k (omega (arith, e)) in
          ends_twice p e (
            runs_to_count p.at k p.reached (omega (arith, e))
              (p.waits k (omega arith) (omega (arith, e))))
