-- ===== src/Awaiter/Single.antt =====
-- include/RedisCommander.hpp, an operation whose requests are pushed at once: in every interleaving of
-- its workers.
use xredis_client.Base.{
  ℕ, zero, suc, ◌+◌, ◌<◌, Bool, true, false, ◌&&◌, Option, none, some, ◌≡◌, ◌≢◌, ◌⊎◌, inl, inr,
  refl, ap, subst, sym, ◌∙◌, arith,
}
use xredis_client.Shared.{update}
use xredis_client.Awaiter.{
  Operation, Pc, created, waiting, got, stored, counted, ended, destroyed, Caller, starting,
  suspended, returned, pushing, checking, refused, State, Work, resume, store, Step, push_all,
  refuse_all, work, Reach, initial, later,
}
use xredis_client.Awaiter.Sums.{
  sum, sum-constant, sum-zero_at, sum-positive_at, sum-full, sum-full_at,
}
use native.Mathlib.Decide.{ℕ_discrete}
use xredis_client.Awaiter.Workers.{passed, waking, passed_le, HasStored, Running, Work-Running}

module _ {V : Type 0} where
  -- All results are there.
  abbrev pub is_some : Option V → Bool
  is_some none = false
  is_some (some v) = true

  abbrev pub all_there : ℕ → (ℕ → Option V) → Bool
  all_there zero rs = true
  all_there (suc n) rs = let before = all_there n rs in is_some (rs n) && before

  is_some-ne : (r : Option V) → r ≢ none → is_some r ≡ true
  is_some-ne none h = absurd (h refl)
  is_some-ne (some v) h = refl

  all_there-each :
      (n : ℕ) (rs : ℕ → Option V) → ((i : ℕ) → i < n → rs i ≢ none) → all_there n rs ≡ true
  all_there-each zero rs h = refl
  all_there-each (suc n) rs h =
      let before = all_there-each n rs (λ i lt. h i (omega arith)) in
      let last : is_some (rs n) ≡ true = is_some-ne (rs n) (h n (omega arith)) in
      rw (last, before) refl

  -- A worker is still to come to its end.
  abbrev pub Pending : ℕ → State V → Type 0
  Pending n s = (i : ℕ) × (i < n) × (s.workers i ≢ ended)

  -- What holds in each state.
  abbrev Phase : ℕ → State V → Caller → Type 0
  Phase n s starting = (s.op.done ≡ 0) × (s.op.resumed ≡ 0) × (s.workers ≡ λ _. created)
  Phase n s suspended = Running n s.op s.workers
  Phase n s returned =
      (s.op.resumed ≡ 1) × (all_there n s.op.results ≡ true) × (s.workers ≡ λ _. destroyed)
  Phase n s c = ⊥

  Work-from :
      {n i : ℕ} {o o' : Operation V} {p p' : Pc V}
      → Work n i o p o' p'
      → (p ≢ created) × (p ≢ destroyed)
  Work-from (resume v) = ((λ e. ground (arith, e)), (λ e. ground (arith, e)))
  Work-from store = ((λ e. ground (arith, e)), (λ e. ground (arith, e)))
  Work-from mv = ((λ e. ground (arith, e)), (λ e. ground (arith, e)))

  begins :
      (n : ℕ) (o : Operation V) → 0 < n → o.done ≡ 0 → o.resumed ≡ 0 → Running n o (λ _. waiting)
  begins n o room d r =
      let w : ◌≡◌ {A = ℕ} (sum (waking {V = V}) n (λ _. waiting)) 0 =
        sum-constant waking n waiting refl in
      record {
        counts = omega (arith, d, sum-constant passed n waiting refl);
        wakes = ground (arith, room, d, r, w);
        has = λ i. tt;
      }

  Work-Phase :
      {n i : ℕ} {o' : Operation V} {p' : Pc V} (s : State V) (c : Caller)
      → Work n i s.op (s.workers i) o' p'
      → i < n
      → Phase n s c
      → Phase n (record s { op = o'; workers = update s.workers i p' }) c
  Work-Phase {i = i} s starting mv lt (a, b, e) = absurd ((Work-from mv).0 (ap (λ g. g i) e))
  Work-Phase s suspended mv lt r = Work-Running s.workers mv refl lt r
  Work-Phase {i = i} s returned mv lt (a, b, e) = absurd ((Work-from mv).1 (ap (λ g. g i) e))
  Work-Phase s (pushing k) mv lt r = r
  Work-Phase s (refused k) mv lt r = r
  Work-Phase s checking mv lt r = r

  Step-Phase :
      {n : ℕ} {s t : State V} → 0 < n → Step n s t → Phase n s s.caller → Phase n t t.caller
  Step-Phase {n} {s} room (push_all e) r =
      let (a, b, _) = subst (Phase n s) e r in begins n s.op room a b
  Step-Phase {n} {s} room (refuse_all error e) r =
      let (a, b, _) = subst (Phase n s) e r in
      (omega (arith, b), all_there-each n (λ _. some error) (λ i lt k. ground (arith, k)), refl)
  Step-Phase {n} {s} room (work i lt mv) r = Work-Phase s s.caller mv lt r

  Reach-Phase : {n : ℕ} {s : State V} → 0 < n → Reach n s → Phase n s s.caller
  Reach-Phase room initial = (refl, refl, refl)
  Reach-Phase room (later r step) = Step-Phase room step (Reach-Phase room r)

  abbrev pub Settled : ℕ → State V → Type 0
  Settled n s =
      ((s.op.resumed ≡ 0) × Pending n s) ⊎ ((s.op.resumed ≡ 1) × (all_there n s.op.results ≡ true))

  stored_of_passed :
      (o : Operation V) (i : ℕ) (p : Pc V) → passed p ≡ 1 → HasStored o i p → o.results i ≢ none
  stored_of_passed o i (counted b) e h = h
  stored_of_passed o i ended e h = h
  stored_of_passed o i created e h = absurd (omega (arith, e))
  stored_of_passed o i waiting e h = absurd (omega (arith, e))
  stored_of_passed o i (got v) e h = absurd (omega (arith, e))
  stored_of_passed o i stored e h = absurd (omega (arith, e))
  stored_of_passed o i destroyed e h = absurd (omega (arith, e))

  Running-Settled : (n : ℕ) (s : State V) → Running n s.op s.workers → Settled n s
  Running-Settled n s r = elim (ℕ_discrete s.op.done n) [
    | yes full ↦
        let one : sum waking n s.workers + s.op.resumed ≡ 1 = ground (arith, full, r.wakes) in
        elim (ℕ_discrete s.op.resumed 0) [
          | yes z ↦
              let (i, lt, ne) = sum-positive_at waking n s.workers (omega (arith, one, z)) in
              inl (z, (i, lt, λ e. ne (ap waking e)))
          | no nz ↦ inr (
            omega (arith, one, nz),
            all_there-each n s.op.results (λ i lt.
                stored_of_passed s.op i (s.workers i)
                  (sum-full_at passed n s.workers passed_le (omega (arith, full, r.counts)) i lt)
                  (r.has i)),
          )
        ]
    | no less ↦
        let none_yet : s.op.resumed ≡ 0 = ground (arith, less, r.wakes) in
        let (i, lt, z) =
          sum-zero_at passed n s.workers
            (omega (arith, less, r.counts, sum-full passed n s.workers passed_le)) in
        inl (none_yet, (i, lt, λ e. omega (arith, z, ap passed e)))
  ]

  Phase-Settled : (n : ℕ) (s : State V) (c : Caller) → 0 < n → Phase n s c → Settled n s
  Phase-Settled n s starting room (a, b, e) =
      inl (b, (0, room, λ k. ground (arith, sym (ap (λ g. g 0) e) ∙ k)))
  Phase-Settled n s suspended room r = Running-Settled n s r
  Phase-Settled n s returned room (a, b, e) = inr (a, b)
  Phase-Settled n s (pushing k) room r = absurd r
  Phase-Settled n s (refused k) room r = absurd r
  Phase-Settled n s checking room r = absurd r

  -- In every reachable state of an operation whose requests are pushed at once, of at least one request:
  -- either the coroutine that awaits it was not resumed, and a worker is still to come to its end;
  -- or it was resumed exactly once, and all results are there.
  pub woken-once : {n : ℕ} {s : State V} → 0 < n → Reach n s → Settled n s
  woken-once {n} {s} room r = Phase-Settled n s s.caller room (Reach-Phase room r)
