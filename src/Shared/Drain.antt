-- ===== src/Shared/Drain.antt =====
-- include/mpsc_ring.hpp, the shared ring: how `drain` comes to its end.
use xredis_client.Base.{ℕ, zero, suc, ◌+◌, ◌-◌, ◌^◌, ◌<◌, ◌++◌, ◌≡◌, refl, sym, ◌∙◌, subst, arith}
use xredis_client.Ring.{handles_of}
use xredis_client.Shared.{
  World, Cpc, draining, resuming, finished, Take, begin_resume, resume, finish, System, Step, push,
  take, Reach, later,
}
use xredis_client.Shared.Invariant.{tickets, IsTaking}
use xredis_client.Shared.Queue.{Reach-Inv, finished-handles}
use xredis_client.Shared.Progress.{Pushes, rest, and_step, Pushes-Reach, all-published}

module _ (cap : ℕ) where
  -- Steps of any threads, one after the other.
  pub data Runs : System cap → System cap → Type 0 where
    stay : {x : System cap} → Runs x x
    go : {x y z : System cap} → Step cap x y → Runs y z → Runs x z

  Runs-join : {x y z : System cap} → Runs x y → Runs y z → Runs x z
  Runs-join stay q = q
  Runs-join (go s p) q = go s (Runs-join p q)

  Pushes-Runs : {x y : System cap} → Pushes cap x y → Runs x y
  Pushes-Runs rest = stay
  Pushes-Runs (and_step i mv p) = go (push i mv) (Pushes-Runs p)

  Pushes-consumer : {x y : System cap} → Pushes cap x y → y.consumer ≡ x.consumer
  Pushes-consumer rest = refl
  Pushes-consumer (and_step i mv p) = Pushes-consumer p

  Runs-Reach : {x y : System cap} → Reach cap x → Runs x y → Reach cap y
  Runs-Reach r stay = r
  Runs-Reach r (go s p) = Runs-Reach (later r s) p

  -- A step of the consumer, which stands at `k`.
  take_at :
      (x : System cap) (k : Cpc) {w : World} {c : Cpc}
      → x.consumer ≡ k
      → Take cap x.world k w c
      → Step cap x (record x { world = w; consumer = c })
  take_at x k {w} {c} e mv = take (subst (λ z. Take cap x.world z w c) (sym e) mv)

  resumes :
      (n : ℕ) (x : System cap) (i old : ℕ)
      → x.consumer ≡ resuming i old
      → i + n ≡ old
      → old < 2 ^ 63
      → (y : System cap) × Runs x y × (y.consumer ≡ finished) × (y.world.count ≡ x.world.count)
  resumes zero x i old e h small = (
    record x { consumer = finished },
    go (take_at x (resuming i old) e (finish (omega (arith, h)))) stay,
    refl,
    refl,
  )
  resumes (suc n) x i old e h small =
      let s = take_at x (resuming i old) e (resume (omega (arith, h))) in
      let (y, runs, f, c) = resumes n _ _ old refl (omega (arith, h, small)) small in
      (y, go s runs, f, c)

  -- From every reachable state in which `drain` waits for the threads in `push`, with fewer than 2^63
  -- requests admitted to a ring with a slot, steps of these threads and then of `drain` lead to its
  -- end; on the way no request is admitted, and at the end each that was admitted was either
  -- popped or its handle resumed, once, in the order of the tickets.
  pub drain-ends :
      {x : System cap} {old : ℕ}
      → 0 < cap
      → Reach cap x
      → x.world.count < 2 ^ 63
      → x.consumer ≡ draining old
      → (y : System cap) × Runs x y
        × (y.consumer ≡ finished)
        × (y.world.count ≡ x.world.count)
        × (handles_of y.world.popped ++ y.world.resumed
            ≡ handles_of (tickets y.world.log 0 y.world.count))
  drain-ends {x} {old} room r small e =
      let (y, pushes, shown, same) = all-published cap x room r small in
      let few : y.world.count < 2 ^ 63 = omega (arith, same, small) in
      let inv = Reach-Inv cap room (Pushes-Reach cap r pushes) few in
      let at : y.consumer ≡ draining old = Pushes-consumer pushes ∙ e in
      let all : old ≡ y.world.count = subst (IsTaking cap y.world) at inv.taking in
      let begin = take_at y (draining old) at (begin_resume (shown ∙ sym all)) in
      let h = y.world.ring.head in
      let (z, ends, f, c) =
        resumes (old - h) (record y { consumer = resuming h old }) h old refl
          (omega (arith, all, inv.sent, inv.known, inv.shown)) (omega (arith, all, few)) in
      let runs = Runs-join (Pushes-Runs pushes) (go begin ends) in
      (
        z,
        runs,
        f,
        c ∙ same,
        finished-handles cap (Reach-Inv cap room (Runs-Reach r runs) (omega (arith, c, few))) f,
      )
