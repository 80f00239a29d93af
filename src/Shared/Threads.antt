-- ===== src/Shared/Threads.antt =====
-- include/mpsc_ring.hpp, the shared ring: a step of `push` keeps the whole invariant.
use xredis_client.Base.{ℕ, ◌-◌, ◌^◌, ◌<◌, ◌≤◌, ◌≡◌, refl, sym, ◌∙◌, ap, ap₂, subst, arith}
use xredis_client.Ring.{payloads_of, handles_of}
use xredis_client.Shared.{
  update, World, Pc, Cpc, resting, popping, holding, starting, ending, filling, draining, resuming,
  finished, Push, call, win,
}
use xredis_client.Shared.Invariant.{
  tickets, stop_bit, written_to, resumed_to, IsFresh, IsTaking, Inv,
}
use xredis_client.Shared.Moves.{Counted, Push-Counted, win-count}
use xredis_client.Shared.Pushes.{
  tickets-same, Push-handles, Push-payloads, Push-unique, Push-IsFresh, Push-log, Push-covered,
}

module _ {cap : ℕ} {w : World} {pc : ℕ → Pc} {c : Cpc} (inv : Inv cap w pc c) (i : ℕ) where
  -- No request is admitted after `drain` has begun.
  pub Push-count :
      {w' : World} {p p' : Pc} → Push cap w p w' p' → stop_bit c ≡ 2 ^ 63 → w'.count ≡ w.count
  Push-count (call s) h = refl
  Push-count (win a b e) h = let (x, y) = win-count inv i a e in absurd (omega (arith, y, h))
  Push-count mv h = refl

  Push-IsTaking :
      {w' : World} {p p' : Pc}
      → Push cap w p w' p'
      → IsFresh cap w p
      → (k : Cpc) → c ≡ k
      → IsTaking cap w k
      → IsTaking cap w' k
  Push-IsTaking mv f resting e t = tt
  Push-IsTaking mv f (popping h) e (t, u) =
      let n = Push-Counted inv i mv f in (t ∙ sym n.head_same, omega (arith, u, n.committed_same))
  Push-IsTaking mv f (holding h s) e (t, u, v) =
      let n = Push-Counted inv i mv f in
      (
        t ∙ sym n.head_same,
        omega (arith, u, n.committed_same),
        v ∙ sym (Push-log inv i mv h (omega (arith, u, inv.known, inv.shown))),
      )
  Push-IsTaking mv f (starting a) e t = t ∙ sym (Push-Counted inv i mv f).committed_same
  Push-IsTaking mv f (ending a b) e (t, u, v) =
      let n = Push-Counted inv i mv f in
      (t ∙ sym n.committed_same, u, omega (arith, v, n.tail_grows))
  Push-IsTaking mv f (filling a b) e (t, u, v) =
      let n = Push-Counted inv i mv f in
      (omega (arith, t, n.head_same), u, v ∙ sym n.committed_same)
  Push-IsTaking mv f (draining old) e t = t ∙ sym (Push-count mv (ap stop_bit e))
  Push-IsTaking mv f (resuming a old) e (t, u, v, x) =
      let n = Push-Counted inv i mv f in
      let m = Push-count mv (ap stop_bit e) in
      (t ∙ sym m, omega (arith, t, u, m, n.tail_grows, n.shown), omega (arith, v, n.head_same), x)
  Push-IsTaking mv f finished e t =
      let n = Push-Counted inv i mv f in
      let m = Push-count mv (ap stop_bit e) in omega (arith, t, m, n.tail_grows, n.shown)

  -- What has been handed out does not change in a step of `push`.
  Push-outputs :
      {w' : World} {p p' : Pc}
      → Push cap w p w' p'
      → (w'.popped ≡ w.popped) × (w'.written ≡ w.written) × (w'.resumed ≡ w.resumed)
  Push-outputs (call s) = (refl, refl, refl)
  Push-outputs mv = (refl, refl, refl)

  written_to-same :
      {w' : World} {p p' : Pc}
      → Push cap w p w' p'
      → IsFresh cap w p
      → (k : Cpc) → IsTaking cap w k
      → (written_to w' k ≡ written_to w k) × (written_to w k ≤ w.count)
  written_to-same mv f (filling a b) (t, u, v) = (refl, omega (arith, u, v, inv.known, inv.shown))
  written_to-same mv f k t =
      ((Push-Counted inv i mv f).committed_same, omega (arith, inv.known, inv.shown))

  resumed_to-same :
      {w' : World} {p p' : Pc}
      → Push cap w p w' p'
      → IsFresh cap w p
      → (k : Cpc) → c ≡ k
      → IsTaking cap w k
      → (resumed_to w' k ≡ resumed_to w k) × (resumed_to w k ≤ w.count)
  resumed_to-same mv f (resuming a old) e (t, u, v, x) = (refl, omega (arith, t, x))
  resumed_to-same mv f finished e t = (Push-count mv (ap stop_bit e), omega arith)
  resumed_to-same mv f k e t =
      ((Push-Counted inv i mv f).head_same, omega (arith, inv.sent, inv.known, inv.shown))

  pub Push-Inv :
      {w' : World} {p p' : Pc}
      → Push cap w p w' p'
      → pc i ≡ p
      → w'.count < 2 ^ 63
      → Inv cap w' (update pc i p') c
  Push-Inv {w'} {p} {p'} mv e small = record {
    roomy = inv.roomy;
    few = small;
    allocated = n.allocated;
    sent = omega (arith, n.head_same, n.committed_same, inv.sent);
    known = omega (arith, n.committed_same, n.tail_grows, inv.known);
    shown = n.shown;
    bounded = n.bounded;
    handles = λ t a b. Push-handles inv i mv own t (omega (arith, a, n.head_same)) b;
    payloads = λ t a b. Push-payloads inv i mv own t (omega (arith, a, n.head_same)) b;
    fresh = Push-IsFresh inv i mv e;
    unique = Push-unique inv i mv e;
    covered = Push-covered inv i mv e own;
    taking = Push-IsTaking mv own c refl inv.taking;
    popped =
        o.0
        ∙ inv.popped
        ∙ tickets-same w.log w'.log 0 w.ring.head
            (λ t h. sym (Push-log inv i mv t (omega (arith, h, inv.sent, inv.known, inv.shown))))
        ∙ ap (tickets w'.log 0) (sym n.head_same);
    written =
        o.1
        ∙ inv.written
        ∙ ap payloads_of (
            tickets-same w.log w'.log 0 (written_to w c) (λ t h.
              sym (Push-log inv i mv t (omega (arith, h, (written_to-same mv own c inv.taking).1))))
            ∙ ap (tickets w'.log 0) (sym (written_to-same mv own c inv.taking).0));
    resumed =
        o.2
        ∙ inv.resumed
        ∙ ap handles_of (
            tickets-same w.log w'.log w.ring.head (resumed_to w c - w.ring.head) (λ t h.
              sym (Push-log inv i mv t (omega (arith, h, r.1, inv.sent, inv.known, inv.shown))))
            ∙ ap₂ (λ a b. tickets w'.log a (b - a)) (sym n.head_same) (sym r.0));
  }
    where
      own : IsFresh cap w p
      own = subst (IsFresh cap w) e (inv.fresh i)

      n : Counted inv i w'
      n = Push-Counted inv i mv own

      o : (w'.popped ≡ w.popped) × (w'.written ≡ w.written) × (w'.resumed ≡ w.resumed)
      o = Push-outputs mv

      r : (resumed_to w' c ≡ resumed_to w c) × (resumed_to w c ≤ w.count)
      r = resumed_to-same mv own c refl inv.taking
