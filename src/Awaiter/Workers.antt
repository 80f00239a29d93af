-- ===== src/Awaiter/Workers.antt =====
-- include/RedisCommander.hpp, what a step of a worker does once all requests are pushed.
use xredis_client.Base.{
  ℕ, ◌+◌, ◌<◌, ◌≤◌, true, if◌then◌else◌, none, ◌==◌, ◌≡◌, ◌≢◌, refl, ap, subst, sym, ◌∙◌, arith,
}
use xredis_client.Shared.{update}
use xredis_client.Awaiter.{
  Operation, Pc, created, waiting, got, stored, counted, ended, destroyed, Work, resume, store,
  count, wake, finish,
}
use xredis_client.Awaiter.Sums.{sum, sum-update, sum-full}
use native.Mathlib.Decide.{ℕ_discrete}

module _ {V : Type 0} where
  abbrev pub passed : Pc V → ℕ
  passed (counted b) = 1
  passed ended = 1
  passed _ = 0

  abbrev pub waking : Pc V → ℕ
  waking (counted true) = 1
  waking _ = 0

  pub passed_le : (p : Pc V) → passed p ≤ 1
  passed_le p = ground arith

  -- A worker that has stored its result.
  abbrev pub HasStored : Operation V → ℕ → Pc V → Type 0
  HasStored o i stored = o.results i ≢ none
  HasStored o i (counted b) = o.results i ≢ none
  HasStored o i ended = o.results i ≢ none
  HasStored o i destroyed = ⊥
  HasStored o i created = ⊥
  HasStored o i _ = Unit

  -- What holds once the requests are pushed.
  pub record Running (n : ℕ) (o : Operation V) (g : ℕ → Pc V) : Type 0 where
    pub counts : o.done ≡ sum passed n g
    pub wakes : sum waking n g + o.resumed ≡ (if o.done == n then 1 else 0)
    pub has : (i : ℕ) → HasStored o i (g i)

  update-same : (g : ℕ → Pc V) (i : ℕ) (p : Pc V) → update g i p i ≡ p
  update-same g i p = ground arith

  update-other : (g : ℕ → Pc V) (i j : ℕ) (p : Pc V) → j ≢ i → update g i p j ≡ g j
  update-other g i j p ne = ground (arith, ne)

  Work-counts :
      {n i : ℕ} {o o' : Operation V} {p p' : Pc V}
      → Work n i o p o' p'
      → o'.done + passed p ≡ o.done + passed p'
  Work-counts (resume v) = omega arith
  Work-counts store = omega arith
  Work-counts count = omega arith
  Work-counts wake = omega arith
  Work-counts finish = omega arith

  Work-wakes :
      {n i : ℕ} {o o' : Operation V} {p p' : Pc V} (a b : ℕ)
      → Work n i o p o' p'
      → b + waking p ≡ a + waking p'
      → o'.done ≤ n
      → a + o.resumed ≡ (if o.done == n then 1 else 0)
      → b + o'.resumed ≡ (if o'.done == n then 1 else 0)
  Work-wakes a b (resume v) d l h = ground (arith, d, h)
  Work-wakes a b store d l h = ground (arith, d, h)
  Work-wakes a b count d l h = ground (arith, d, h, l)
  Work-wakes a b wake d l h = ground (arith, d, h)
  Work-wakes a b finish d l h = ground (arith, d, h)

  Work-own :
      {n i : ℕ} {o o' : Operation V} {p p' : Pc V}
      → Work n i o p o' p'
      → HasStored o i p
      → HasStored o' i p'
  Work-own (resume v) h = tt
  Work-own store h = ground arith
  Work-own count h = h
  Work-own wake h = h
  Work-own finish h = h

  Work-results :
      {n i : ℕ} {o o' : Operation V} {p p' : Pc V}
      → Work n i o p o' p'
      → (j : ℕ) → j ≢ i
      → o'.results j ≡ o.results j
  Work-results (resume v) j ne = refl
  Work-results store j ne = ground (arith, ne)
  Work-results mv j ne = refl

  HasStored-kept :
      (o o' : Operation V) (j : ℕ) (p : Pc V)
      → o'.results j ≡ o.results j
      → HasStored o j p
      → HasStored o' j p
  HasStored-kept o o' j created e h = h
  HasStored-kept o o' j waiting e h = h
  HasStored-kept o o' j (got v) e h = h
  HasStored-kept o o' j stored e h = λ k. h (sym e ∙ k)
  HasStored-kept o o' j (counted b) e h = λ k. h (sym e ∙ k)
  HasStored-kept o o' j ended e h = λ k. h (sym e ∙ k)
  HasStored-kept o o' j destroyed e h = h

  pub Work-Running :
      {n i : ℕ} {o o' : Operation V} {p p' : Pc V} (g : ℕ → Pc V)
      → Work n i o p o' p'
      → g i ≡ p
      → i < n
      → Running n o g
      → Running n o' (update g i p')
  Work-Running {n} {i} {o} {o'} {p} {p'} g mv e lt r = record {
    counts = counts;
    wakes =
        Work-wakes (sum waking n g) (sum waking n (update g i p')) mv
          (omega (arith, sum-update waking n g i p' lt, ap waking e))
          (omega (arith, counts, sum-full passed n (update g i p') passed_le)) r.wakes;
    has = λ j. elim (ℕ_discrete j i) [
      | yes q ↦
          let own : HasStored o' i p' = Work-own mv (subst (HasStored o i) e (r.has i)) in
          subst (λ k. HasStored o' k (update g i p' k)) (sym q)
            (subst (HasStored o' i) (sym (update-same g i p')) own)
      | no ne ↦
          subst (HasStored o' j) (sym (update-other g i j p' ne))
            (HasStored-kept o o' j (g j) (Work-results mv j ne) (r.has j))
    ];
  }
    where
      counts : o'.done ≡ sum passed n (update g i p')
      counts = omega (arith, r.counts, Work-counts mv, sum-update passed n g i p' lt, ap passed e)
