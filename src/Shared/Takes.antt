-- ===== src/Shared/Takes.antt =====
-- include/mpsc_ring.hpp, the shared ring: a step of the thread of the connection keeps the invariant.
use xredis_client.Base.{
  ℕ, suc, ◌+◌, ◌-◌, ◌%◌, ◌<◌, ◌≤◌, List, [], ◌∷◌, ◌++◌, ◌≡◌, refl, sym, ◌∙◌, ap, ap₂, arith,
}
use xredis_client.Ring.{Slot, payloads_of, handles_of, add_size}
use xredis_client.Shared.{
  World, Pc, Cpc, cell_at, Take, pop_load, pop_read, pop_store, load_committed, load_end, commit,
  fill, filled, set_stop, await_tail, begin_resume, resume, finish,
}
use xredis_client.Shared.Invariant.{tickets, stop_bit, written_to, resumed_to, IsTaking, Inv}
use xredis_client.Shared.Moves.{Undisturbed, IsFresh-kept}
use xredis_client.Shared.Pushes.{ticket-range}

pub payloads_of-append :
    (xs ys : List Slot) → payloads_of (xs ++ ys) ≡ payloads_of xs ++ payloads_of ys
payloads_of-append [] ys = refl
payloads_of-append (x ∷ xs) ys = ap (◌∷◌ x.payload) (payloads_of-append xs ys)

pub handles_of-append : (xs ys : List Slot) → handles_of (xs ++ ys) ≡ handles_of xs ++ handles_of ys
handles_of-append [] ys = refl
handles_of-append (x ∷ xs) ys = ap (◌∷◌ x.handle) (handles_of-append xs ys)

module _ {cap : ℕ} {w : World} {pc : ℕ → Pc} {c : Cpc} (inv : Inv cap w pc c) where
  -- The counters after a step of the thread of the connection.
  record Moved (w' : World) (c' : Cpc) : Type 0 where
    head_grows : w.ring.head ≤ w'.ring.head
    sent : w'.ring.head ≤ w'.ring.head_committed
    known : w'.ring.head_committed ≤ w.ring.tail
    allocated : w'.ring.tail_allocated ≡ w.count + stop_bit c'

  Take-Moved :
      {w' : World} {k c' : Cpc} → Take cap w k w' c' → c ≡ k → IsTaking cap w k → Moved w' c'
  Take-Moved (pop_load a) e t = record {
    head_grows = omega arith;
    sent = inv.sent;
    known = inv.known;
    allocated = inv.allocated ∙ ap (λ x. w.count + stop_bit x) e;
  }
  Take-Moved pop_store e (t, u, v) = record {
    head_grows = ground (arith, t, inv.few, inv.sent, inv.known, inv.shown);
    sent = ground (arith, t, u, inv.few, inv.known, inv.shown);
    known = inv.known;
    allocated = inv.allocated ∙ ap (λ x. w.count + stop_bit x) e;
  }
  Take-Moved (commit size) e (t, u, v) = record {
    head_grows = omega arith;
    sent = ground (arith, t, u, v, inv.few, inv.sent, inv.known, inv.shown);
    known = ground (arith, t, u, v, inv.few, inv.sent, inv.known, inv.shown);
    allocated = inv.allocated ∙ ap (λ x. w.count + stop_bit x) e;
  }
  Take-Moved set_stop e t = record {
    head_grows = omega arith;
    sent = inv.sent;
    known = inv.known;
    allocated = ground (arith, inv.few, inv.allocated, ap stop_bit e);
  }
  Take-Moved mv e t = record {
    head_grows = omega arith;
    sent = inv.sent;
    known = inv.known;
    allocated = inv.allocated ∙ ap (λ x. w.count + stop_bit x) e;
  }

  log_at : (i : ℕ) → w.ring.head ≤ i → i < w.ring.tail → cell_at cap w.ring i ≡ w.log i
  log_at i a b =
      ap₂ (λ h p. record { handle = h; payload = p }) (inv.handles i a b) (inv.payloads i a b)

  Take-IsTaking :
      {w' : World} {k c' : Cpc} → Take cap w k w' c' → c ≡ k → IsTaking cap w k → IsTaking cap w' c'
  Take-IsTaking (pop_load a) ce t = (refl, a)
  Take-IsTaking pop_read ce (t, u) =
      (t, u, log_at _ (omega (arith, t)) (omega (arith, u, inv.known)))
  Take-IsTaking pop_store ce t = tt
  Take-IsTaking load_committed ce t = refl
  Take-IsTaking load_end ce t = (t, omega (arith, t, inv.known), omega arith)
  Take-IsTaking (commit size) ce (t, u, v) =
      ground (arith, t, u, v, inv.few, inv.sent, inv.known, inv.shown)
  Take-IsTaking (fill a) ce (t, u, v) = (omega (arith, t), omega (arith, u, a), v)
  Take-IsTaking (filled e) ce t = tt
  Take-IsTaking set_stop ce t = omega (arith, inv.allocated, ap stop_bit ce)
  Take-IsTaking (await_tail a) ce t = t
  Take-IsTaking (begin_resume e) ce t = (t, e, omega arith, omega (arith, e, inv.sent, inv.known))
  Take-IsTaking (resume a) ce (t, u, v, x) = ground (arith, a, t, u, v, x, inv.few, inv.shown)
  Take-IsTaking (finish e) ce (t, u, v, x) = u ∙ t

  Take-popped :
      {w' : World} {k c' : Cpc}
      → Take cap w k w' c'
      → IsTaking cap w k
      → w'.popped ≡ tickets w'.log 0 w'.ring.head
  Take-popped (pop_load a) t = inv.popped
  Take-popped (pop_store {h} {s}) (t, u, v) =
      let e : add_size h 1 ≡ suc w.ring.head =
        ground (arith, t, u, inv.few, inv.known, inv.shown) in
      let e' : w.log h ≡ w.log (0 + w.ring.head) = ap w.log (omega (arith, t)) in
      rw e (ap₂ (λ xs x. xs ++ (x ∷ [])) inv.popped (v ∙ e'))
  Take-popped mv t = inv.popped

  written_at : {k : Cpc} → c ≡ k → w.written ≡ payloads_of (tickets w.log 0 (written_to w k))
  written_at e = inv.written ∙ ap (λ x. payloads_of (tickets w.log 0 (written_to w x))) e

  resumed_at :
      {k : Cpc}
      → c ≡ k
      → w.resumed ≡ handles_of (tickets w.log w.ring.head (resumed_to w k - w.ring.head))
  resumed_at e =
      inv.resumed
      ∙ ap (λ x. handles_of (tickets w.log w.ring.head (resumed_to w x - w.ring.head))) e

  Take-written :
      {w' : World} {k c' : Cpc}
      → Take cap w k w' c'
      → c ≡ k
      → IsTaking cap w k
      → w'.written ≡ payloads_of (tickets w'.log 0 (written_to w' c'))
  Take-written (pop_load a) e t = written_at e
  Take-written (commit size) e (t, u, v) =
      written_at e ∙ ap (λ n. payloads_of (tickets w.log 0 n)) (sym t)
  Take-written (fill {i} a) e (t, u, v) =
      let q : w.ring.payloads (i % cap) ≡ (w.log (0 + i)).payload =
        inv.payloads i t (omega (arith, u, v, a, inv.known))
        ∙ ap (λ n. (w.log n).payload) (omega arith) in
      let n : i + 1 ≡ suc i = omega arith in
      rw n (
        ap₂ (λ xs x. xs ++ (x ∷ [])) (written_at e) q
        ∙ sym (payloads_of-append (tickets w.log 0 i) (w.log (0 + i) ∷ [])))
  Take-written (filled a) e (t, u, v) =
      written_at e ∙ ap (λ n. payloads_of (tickets w.log 0 n)) (a ∙ v)
  Take-written mv e t = written_at e

  Take-resumed :
      {w' : World} {k c' : Cpc}
      → Take cap w k w' c'
      → c ≡ k
      → IsTaking cap w k
      → w'.resumed ≡ handles_of (tickets w'.log w'.ring.head (resumed_to w' c' - w'.ring.head))
  Take-resumed (pop_load a) e t = resumed_at e
  Take-resumed (pop_store {h} {s}) e t =
      let z : w.ring.head - w.ring.head ≡ 0 = omega arith in
      let z' : add_size h 1 - add_size h 1 ≡ 0 = omega arith in
      resumed_at e ∙ ap (λ n. handles_of (tickets w.log w.ring.head n)) z ∙ rw z' refl
  Take-resumed (resume {i} {old} a) e (t, u, v, x) =
      let n : add_size i 1 - w.ring.head ≡ suc (i - w.ring.head) =
        ground (arith, a, t, u, v, x, inv.few, inv.shown) in
      let m : w.ring.head + (i - w.ring.head) ≡ i = omega (arith, v) in
      let q : w.ring.handles (i % cap) ≡ (w.log (w.ring.head + (i - w.ring.head))).handle =
        inv.handles i v (omega (arith, a, u, x)) ∙ ap (λ n. (w.log n).handle) (sym m) in
      rw n (
        ap₂ (λ xs x. xs ++ (x ∷ [])) (resumed_at e) q
        ∙ sym (
            handles_of-append (tickets w.log w.ring.head (i - w.ring.head))
              (w.log (w.ring.head + (i - w.ring.head)) ∷ [])))
  Take-resumed (finish a) e (t, u, v, x) =
      resumed_at e ∙ ap (λ n. handles_of (tickets w.log w.ring.head (n - w.ring.head))) (a ∙ t)
  Take-resumed mv e t = resumed_at e

  pub Take-cells :
      {w' : World} {k c' : Cpc}
      → Take cap w k w' c'
      → (w'.ring.tail ≡ w.ring.tail)
        × (w'.count ≡ w.count)
        × (w'.log ≡ w.log)
        × (w'.ring.handles ≡ w.ring.handles)
        × (w'.ring.payloads ≡ w.ring.payloads)
  Take-cells (pop_load a) = (refl, refl, refl, refl, refl)
  Take-cells mv = (refl, refl, refl, refl, refl)

  Take-Undisturbed :
      {w' : World} {k c' : Cpc}
      → Take cap w k w' c'
      → (t : ℕ) → w.ring.tail ≤ t
      → Undisturbed inv 0 w' t
  Take-Undisturbed mv t a =
      let (x, y, z, h, p) = Take-cells mv in
      record {
        tail_below = omega (arith, x, a);
        tail_kept = λ e. x ∙ e;
        count_kept = omega (arith, y);
        log_kept = ap (λ f. f t) z;
        handle_kept = ap (λ f. f (t % cap)) h;
        payload_kept = ap (λ f. f (t % cap)) p;
      }

  pub Take-Inv : {w' : World} {c' : Cpc} → Take cap w c w' c' → Inv cap w' pc c'
  Take-Inv {w'} {c'} mv = record {
    roomy = inv.roomy;
    few = omega (arith, same.1, inv.few);
    allocated = m.allocated ∙ ap (λ n. n + stop_bit c') (sym same.1);
    sent = m.sent;
    known = omega (arith, m.known, same.0);
    shown = omega (arith, inv.shown, same.0, same.1);
    bounded = omega (arith, inv.bounded, m.head_grows, same.1);
    handles = λ t a b.
        ap (λ f. f (t % cap)) same.3
        ∙ inv.handles t (omega (arith, a, m.head_grows)) (omega (arith, b, same.0))
        ∙ ap (λ (f : ℕ → Slot). (f t).handle) (sym same.2);
    payloads = λ t a b.
        ap (λ f. f (t % cap)) same.4
        ∙ inv.payloads t (omega (arith, a, m.head_grows)) (omega (arith, b, same.0))
        ∙ ap (λ (f : ℕ → Slot). (f t).payload) (sym same.2);
    fresh = λ j.
        IsFresh-kept inv 0 (pc j) (inv.fresh j) m.head_grows
          (λ t h. Take-Undisturbed mv t (ticket-range cap w (pc j) (inv.fresh j) t h).0);
    unique = inv.unique;
    covered = λ t a b. inv.covered t (omega (arith, a, same.0)) (omega (arith, b, same.1));
    taking = Take-IsTaking mv refl inv.taking;
    popped = Take-popped mv inv.taking;
    written = Take-written mv refl inv.taking;
    resumed = Take-resumed mv refl inv.taking;
  }
    where
      m : Moved w' c'
      m = Take-Moved mv refl inv.taking

      same :
          (w'.ring.tail ≡ w.ring.tail)
          × (w'.count ≡ w.count)
          × (w'.log ≡ w.log)
          × (w'.ring.handles ≡ w.ring.handles)
          × (w'.ring.payloads ≡ w.ring.payloads)
      same = Take-cells mv
