-- ===== src/Shared/Invariant.antt =====
-- include/mpsc_ring.hpp, the shared ring: what the counters, the cells and the local variables of the
-- threads have to do with the requests that were admitted.
use xredis_client.Base.{
  ℕ, zero, suc, ◌+◌, ◌-◌, ◌%◌, ◌^◌, ◌<◌, ◌≤◌, List, [], ◌∷◌, ◌++◌, Option, none, some, ◌≡◌,
}
use xredis_client.Ring.{Slot, payloads_of, handles_of}
use xredis_client.Shared.{
  World, Pc, checking, writing, half, waiting, publishing, Cpc, popping, holding, starting, ending,
  filling, draining, resuming, finished,
}

-- The `n` requests from ticket `a` on.
abbrev pub tickets : (ℕ → Slot) → ℕ → ℕ → List Slot
tickets log a zero = []
tickets log a (suc n) = tickets log a n ++ (log (a + n) ∷ [])

-- The ticket that a thread holds in `push`.
abbrev pub ticket : Pc → Option ℕ
ticket (writing s t) = some t
ticket (half s t) = some t
ticket (waiting s t) = some t
ticket (publishing s t) = some t
ticket _ = none

abbrev pub stop_bit : Cpc → ℕ
stop_bit (draining old) = 2 ^ 63
stop_bit (resuming i old) = 2 ^ 63
stop_bit finished = 2 ^ 63
stop_bit _ = 0

-- How far the payloads were handed out, and how far the handles were resumed.
abbrev pub written_to : World → Cpc → ℕ
written_to w (filling i last) = i
written_to w _ = w.ring.head_committed

abbrev pub resumed_to : World → Cpc → ℕ
resumed_to w (resuming i old) = i
resumed_to w finished = w.count
resumed_to w _ = w.ring.head

module _ (cap : ℕ) where
  pub record Owns (w : World) (s : Slot) (t : ℕ) : Type 0 where
    pub ahead : w.ring.tail ≤ t
    pub given : t < w.count
    pub logged : w.log t ≡ s

  -- What the local variables of a thread in `push` say.
  abbrev pub IsFresh : World → Pc → Type 0
  IsFresh w (checking s t h) = h ≤ w.ring.head
  IsFresh w (writing s t) = Owns w s t
  IsFresh w (half s t) = Owns w s t × (w.ring.handles (t % cap) ≡ s.handle)
  IsFresh w (waiting s t) =
      Owns w s t × (w.ring.handles (t % cap) ≡ s.handle) × (w.ring.payloads (t % cap) ≡ s.payload)
  IsFresh w (publishing s t) =
      Owns w s t
      × (w.ring.handles (t % cap) ≡ s.handle)
      × (w.ring.payloads (t % cap) ≡ s.payload)
      × (w.ring.tail ≡ t)
  IsFresh w _ = Unit

  -- What those of the thread of the connection say.
  abbrev pub IsTaking : World → Cpc → Type 0
  IsTaking w (popping h) = (h ≡ w.ring.head) × (h < w.ring.head_committed)
  IsTaking w (holding h s) = (h ≡ w.ring.head) × (h < w.ring.head_committed) × (s ≡ w.log h)
  IsTaking w (starting a) = a ≡ w.ring.head_committed
  IsTaking w (ending a b) = (a ≡ w.ring.head_committed) × (a ≤ b) × (b ≤ w.ring.tail)
  IsTaking w (filling i last) = (w.ring.head ≤ i) × (i ≤ last) × (last ≡ w.ring.head_committed)
  IsTaking w (draining old) = old ≡ w.count
  IsTaking w (resuming i old) =
      (old ≡ w.count) × (w.ring.tail ≡ old) × (w.ring.head ≤ i) × (i ≤ old)
  IsTaking w finished = w.ring.tail ≡ w.count
  IsTaking w _ = Unit

  pub record Inv (w : World) (pc : ℕ → Pc) (c : Cpc) : Type 0 where
    pub roomy : 0 < cap
    pub few : w.count < 2 ^ 63
    pub allocated : w.ring.tail_allocated ≡ w.count + stop_bit c
    pub sent : w.ring.head ≤ w.ring.head_committed
    pub known : w.ring.head_committed ≤ w.ring.tail
    pub shown : w.ring.tail ≤ w.count
    pub bounded : w.count ≤ w.ring.head + cap
    pub handles :
        (t : ℕ) → w.ring.head ≤ t → t < w.ring.tail → w.ring.handles (t % cap) ≡ (w.log t).handle
    pub payloads :
        (t : ℕ) → w.ring.head ≤ t → t < w.ring.tail → w.ring.payloads (t % cap) ≡ (w.log t).payload
    pub fresh : (i : ℕ) → IsFresh w (pc i)
    pub unique : (i j t : ℕ) → ticket (pc i) ≡ some t → ticket (pc j) ≡ some t → i ≡ j
    pub covered : (t : ℕ) → w.ring.tail ≤ t → t < w.count → (i : ℕ) × (ticket (pc i) ≡ some t)
    pub taking : IsTaking w c
    pub popped : w.popped ≡ tickets w.log 0 w.ring.head
    pub written : w.written ≡ payloads_of (tickets w.log 0 (written_to w c))
    pub resumed : w.resumed ≡ handles_of (tickets w.log w.ring.head (resumed_to w c - w.ring.head))
