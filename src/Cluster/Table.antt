-- ===== src/Cluster/Table.antt =====
-- The table of the shards of include/RedisCluster.hpp: what find_shard finds, keeps and refuses.
use native.Mathlib.Nat.{mod-lt, mod-eq_of_lt, mod-eq-sub-mod}
use native.Mathlib.Decide.{dec_le}
use xredis_client.Base.{
  ℕ, zero, suc, ◌+◌, ◌%◌, true, false, Option, none, some, ◌==◌, Bool-cases, inl, inr, ◌⊎◌, ◌≡◌,
  ◌≢◌, ◌<◌, ◌-◌, refl, sym, ap, ◌∙◌, arith,
}
use xredis_client.Cluster.{Shard, Shards, put, is_at, hash, probe, find_shard}

Option-cases : {A : Type 0} (o : Option A) → (o ≡ none) ⊎ ((s : A) × (o ≡ some s))
Option-cases none = inl refl
Option-cases (some s) = inr (s, refl)

put-same : (t : Shards) (i : ℕ) (s : Shard) → put t i s i ≡ some s
put-same t i s = let e : (i == i) ≡ true = ground arith in rw e refl

put-other : (t : Shards) (i j : ℕ) (s : Shard) → j ≢ i → put t i s j ≡ t j
put-other t i j s ne = let e : (j == i) ≡ false = ground (arith, ne) in rw e refl

-- What a search leaves: a cell that was taken keeps its shard, and the cell found is that of the
-- address, where the next search finds it again.
abbrev Kept : Shards → Shards → Type 0
Kept t t' = (j : ℕ) (s : Shard) → t j ≡ some s → t' j ≡ some s

module _ (max_num_shards ip port : ℕ) where
  abbrev shard : Shard
  shard = record { ip = ip; port = port }

  abbrev cell : ℕ → ℕ → ℕ
  cell start i = (start + i) % max_num_shards

  abbrev search : ℕ → ℕ → ℕ → Shards → Option ℕ × Shards
  search = probe max_num_shards ip port

  -- The three ways a round can go.
  probe-free :
      (start n i : ℕ) (t : Shards)
      → t (cell start i) ≡ none
      → search start (suc n) i t ≡ (some (cell start i), put t (cell start i) shard)
  unfolding probe
  probe-free start n i t e = rw (e, probe) refl

  probe-hit :
      (start n i : ℕ) (t : Shards) (s : Shard)
      → t (cell start i) ≡ some s
      → is_at s ip port ≡ true
      → search start (suc n) i t ≡ (some (cell start i), t)
  unfolding probe
  probe-hit start n i t s e h = rw (e, probe) (rw (h, probe) refl)

  probe-miss :
      (start n i : ℕ) (t : Shards) (s : Shard)
      → t (cell start i) ≡ some s
      → is_at s ip port ≡ false
      → search start (suc n) i t ≡ search start n (i + 1) t
  unfolding probe
  probe-miss start n i t s e h = rw (e, probe) (rw (h, probe) refl)

  is_at-shard : is_at shard ip port ≡ true
  is_at-shard = ground arith

  put-Kept : (t : Shards) (i : ℕ) (s : Shard) → t i ≡ none → Kept t (put t i s)
  put-Kept t i s free j x h = put-other t i j s (λ e. none_some (sym free ∙ sym (ap t e) ∙ h)) ∙ h
    where
      none_some : {A : Type 0} {x : A} → ◌≡◌ {A = Option A} none (some x) → ⊥
      none_some e = cc

  -- What a search that found a cell says of it.
  pub record Found (t : Shards) (idx : ℕ) (t' : Shards) (again : Option ℕ × Shards) : Type 0 where
    pub kept : Kept t t'
    pub there : (s : Shard) × (t' idx ≡ some s) × (is_at s ip port ≡ true)
    pub same : again ≡ (some idx, t')

  -- The cells of `n` rounds from round `i` on hold other addresses.
  abbrev Taken : ℕ → ℕ → ℕ → Shards → Type 0
  Taken start n i t =
      (k : ℕ) → k < n → (s : Shard) × (t (cell start (i + k)) ≡ some s) × (is_at s ip port ≡ false)

  Taken-suc :
      (start n i : ℕ) (t : Shards) (s : Shard)
      → t (cell start i) ≡ some s
      → is_at s ip port ≡ false
      → Taken start n (i + 1) t
      → Taken start (suc n) i t
  Taken-suc start n i t s e h more zero lt = let z : i + 0 ≡ i = omega arith in (s, rw z e, h)
  Taken-suc start n i t s e h more (suc k) lt =
      let z : i + suc k ≡ i + 1 + k = omega arith in rw z (more k (omega arith))

  -- A search for the address either finds its cell, or no cell was free.
  Searched : ℕ → ℕ → ℕ → Shards → Type 0
  Searched start n i t =
      let (o, t') = search start n i t in
      ((idx : ℕ) × (o ≡ some idx) × Found t idx t' (search start n i t'))
      ⊎ ((o ≡ none) × (t' ≡ t) × Taken start n i t)

  probe-Searched : (start n i : ℕ) (t : Shards) → Searched start n i t
  unfolding Searched
  probe-Searched start zero i t =
      inr (unfold probe in refl, unfold probe in refl, λ k lt. absurd (omega arith))
  probe-Searched start (suc n) i t = elim (Option-cases (t (cell start i))) [
    | inl free ↦
        let t' = put t (cell start i) shard in
        rw (probe-free start n i t free) (
          inl (
            cell start i,
            refl,
            record {
              kept = put-Kept t (cell start i) shard free;
              there = (shard, put-same t (cell start i) shard, is_at-shard);
              same = probe-hit start n i t' shard (put-same t (cell start i) shard) is_at-shard;
            },
          ))
    | inr (s, e) ↦ elim (Bool-cases (is_at s ip port)) [
      | inl h ↦ rw (probe-hit start n i t s e h) (
          inl (
            cell start i,
            refl,
            record { kept = λ j x k. k; there = (s, e, h); same = probe-hit start n i t s e h },
          ))
      | inr h ↦ rw (probe-miss start n i t s e h) (elim (probe-Searched start n (i + 1) t) [
        | inl (idx, p, f) ↦ inl (
          idx,
          p,
          record {
            kept = f.kept;
            there = f.there;
            same = probe-miss start n i _ s (f.kept _ s e) h ∙ f.same;
          },
        )
        | inr (none_free, unchanged, more) ↦
            inr (none_free, unchanged, Taken-suc start n i t s e h more)
      ])
    ]
  ]

-- Every cell is visited: round `k` for some `k` below the number of cells.
round_of : (n start j : ℕ) → start < n → j < n → (k : ℕ) × (k < n) × ((start + (0 + k)) % n ≡ j)
round_of n start j h l = elim (dec_le start j) [
  | yes le ↦
      let e : start + (0 + (j - start)) ≡ j = omega arith in
      (j - start, omega arith, rw e (mod-eq_of_lt l))
  | no gt ↦
      let e : start + (0 + (j + n - start)) ≡ j + n = omega (arith, h, gt) in
      let e' : j + n - n ≡ j = omega arith in
      (
        j + n - start,
        omega (arith, gt),
        rw e (
            mod-eq-sub-mod {n = j + n} {m = n} (omega arith) ∙ ap (λ x. x % n) e' ∙ mod-eq_of_lt l),
      )
]

hash_lt :
    (max_num_shards ip port : ℕ) → 0 < max_num_shards → hash max_num_shards ip port < max_num_shards
unfolding hash
hash_lt max_num_shards ip port p = mod-lt _ p

-- `find_shard` returns the cell of the address, new or not, and takes no cell from a shard that is
-- there; asked again for the same address, it returns the same cell and changes nothing. Only if
-- every cell is taken by another address, it returns none (the null pointer) and changes nothing. The
-- table has at least one cell.
pub find_shard-stable :
    (max_num_shards ip port : ℕ) (t : Shards)
    → 0 < max_num_shards
    → let (o, t') = find_shard max_num_shards ip port t in
      ((idx : ℕ) × (o ≡ some idx)
        × Found max_num_shards ip port t idx t' (find_shard max_num_shards ip port t'))
      ⊎ ((o ≡ none)
          × (t' ≡ t)
          × ((j : ℕ)
              → j < max_num_shards
              → (s : Shard) × (t j ≡ some s) × (is_at s ip port ≡ false)))
unfolding find_shard Searched
find_shard-stable max_num_shards ip port t p =
    elim (probe-Searched max_num_shards ip port (hash max_num_shards ip port) max_num_shards 0 t) [
      | inl found ↦ inl found
      | inr (o, e, taken) ↦ inr (
        o,
        e,
        λ j l.
            let (k, lt, r) =
              round_of max_num_shards (hash max_num_shards ip port) j
                (hash_lt max_num_shards ip port p) l in
            rw r at (taken k lt),
      )
    ]
