-- ===== src/Client/Outage.antt =====
-- include/RedisClient.hpp, `worker`: what happens from the break of a connection to the next one, or to
-- the end of the client, while requests are pushed.
use xredis_client.Base.{
  ℕ, zero, suc, ◌+◌, ◌*◌, ◌^◌, ◌<◌, ◌≤◌, true, false, List, [], ◌∷◌, ◌++◌, none, some, min, length,
  ◌≡◌, refl, sym, ap, ap₂, subst, ◌∙◌, append_assoc, append-nil, arith,
}
use xredis_client.Parser.{Parser}
use xredis_client.Ring.{Slot, Ring, handles_of, push, drain}
use xredis_client.Ring.Queue.{IsValid, waiting, drain-queue}
use xredis_client.Ring.Many.{push_all, push_all-PushedTo, push_all-queue, push_all-append}
use xredis_client.Client.Worker.{
  Worker, Event, Failure, Closing, serving, connecting, sleeping, gone, race_ended, connect_ended,
  timer_ended, request, while_connecting, while_sleeping, max_backoff, backoff, drain_pipe,
  request_pipe, advance_worker, run_worker,
}

-- The events of an outage, before those of `es`.
abbrev pub requests : List Slot → List Event → List Event
requests [] es = es
requests (s ∷ ss) es = request s ∷ requests ss es

abbrev pub failures : List Failure → List Event → List Event
failures [] es = es
failures (f ∷ fs) es = requests f.before (
    connect_ended (some f.code) true f.parser
    ∷ requests f.asleep (timer_ended true ∷ failures fs es))

abbrev pub closing : Closing → List Event → List Event
closing (while_connecting ss r p) es = requests ss (connect_ended r false p ∷ es)
closing (while_sleeping f) es =
    requests f.before
      (connect_ended (some f.code) true f.parser ∷ requests f.asleep (timer_ended false ∷ es))

-- The requests among them.
abbrev pub asked : List Failure → List Slot
asked [] = []
asked (f ∷ fs) = f.before ++ (f.asleep ++ asked fs)

abbrev pub asked_closing : Closing → List Slot
asked_closing (while_connecting ss r p) = ss
asked_closing (while_sleeping f) = f.before ++ f.asleep

-- 1, 2, 4, 8, 16, 32, 32, … from the `i`th on.
abbrev pub delays : ℕ → ℕ → List ℕ
delays i zero = []
delays i (suc n) = min (2 ^ i) max_backoff ∷ delays (suc i) n

backoff-min : (i : ℕ) → backoff (min (2 ^ i) max_backoff) ≡ min (2 ^ suc i) max_backoff
backoff-min i = let p : 2 ^ suc i ≡ 2 * 2 ^ i = omega arith in ground (arith, p)

module _ (cap : ℕ) where
  run-connecting :
      (ss : List Slot) (w : Worker) (es : List Event)
      → run_worker cap (record w { phase = connecting }) (requests ss es)
        ≡ run_worker cap (record w { phase = connecting; ring = push_all cap w.ring ss }) es
  unfolding run_worker advance_worker request_pipe
  run-connecting [] w es = refl
  run-connecting (s ∷ ss) w es = run-connecting ss (request_pipe cap w s) es

  run-sleeping :
      (ss : List Slot) (w : Worker) (es : List Event)
      → run_worker cap (record w { phase = sleeping }) (requests ss es)
        ≡ run_worker cap (record w { phase = sleeping; ring = push_all cap w.ring ss }) es
  unfolding run_worker advance_worker request_pipe
  run-sleeping [] w es = refl
  run-sleeping (s ∷ ss) w es = run-sleeping ss (request_pipe cap w s) es

  -- The worker before the attempt behind `i` failures.
  abbrev attempt : Worker → ℕ → Worker
  attempt w i = record w { phase = connecting; timed = min (2 ^ i) max_backoff }

  -- What a failed attempt and the requests that come with it leave, before the timer ends.
  abbrev asleep_after : Worker → ℕ → Failure → Worker
  asleep_after w i f = record w {
    phase = sleeping;
    parser = f.parser;
    timed = min (2 ^ i) max_backoff;
    slept = w.slept ++ (min (2 ^ i) max_backoff ∷ []);
    ring = push_all cap w.ring (f.before ++ f.asleep);
  }

  run-failure :
      (f : Failure) (i : ℕ) (w : Worker) (es : List Event)
      → run_worker cap
          (attempt w i)
          (requests f.before (connect_ended (some f.code) true f.parser ∷ requests f.asleep es))
        ≡ run_worker cap (asleep_after w i f) es
  unfolding run_worker advance_worker
  run-failure f i w es =
      run-connecting f.before (attempt w i) _
      ∙ run-sleeping f.asleep (record (asleep_after w i f) { ring = push_all cap w.ring f.before })
          es
      ∙ ap (λ r. run_worker cap (record (asleep_after w i f) { ring = r }) es)
          (sym (push_all-append cap f.before f.asleep w.ring))

  run-failures :
      (fs : List Failure) (i : ℕ) (w : Worker) (es : List Event)
      → (p : Parser) × (run_worker cap (attempt w i) (failures fs es)
          ≡ run_worker cap
              (record (attempt w (i + length fs)) {
                parser = p;
                slept = w.slept ++ delays i (length fs);
                ring = push_all cap w.ring (asked fs);
              })
              es)
  unfolding run_worker advance_worker
  run-failures [] i w es =
      let z : i + 0 ≡ i = omega arith in
      (
        w.parser,
        ap₂ (λ s n. run_worker cap (record (attempt w n) { slept = s }) es)
            (sym (append-nil w.slept)) (sym z),
      )
  run-failures (f ∷ fs) i w es =
      let d = min (2 ^ i) max_backoff in
      let w' = record (asleep_after w i f) {
        phase = connecting;
        timed = min (2 ^ suc i) max_backoff;
      } in
      let (p, same) = run-failures fs (suc i) w' es in
      let n : suc i + length fs ≡ i + suc (length fs) = omega arith in
      let ring : push_all cap w'.ring (asked fs) ≡ push_all cap w.ring (asked (f ∷ fs)) =
        sym (push_all-append cap (f.before ++ f.asleep) (asked fs) w.ring)
        ∙ ap (push_all cap w.ring) (append_assoc f.before f.asleep (asked fs)) in
      (
        p,
        run-failure f i w (timer_ended true ∷ failures fs es)
            ∙ ap (λ t. run_worker cap (record w' { timed = t }) (failures fs es)) (backoff-min i)
            ∙ same
            ∙ ap₂
                (λ s m.
                  run_worker cap
                    (record (attempt w m) {
                      parser = p;
                      slept = s;
                      ring = push_all cap w'.ring (asked fs);
                    })
                    es)
                (append_assoc w.slept (d ∷ []) (delays (suc i) (length fs))) n
            ∙ ap
                (λ r.
                  run_worker cap
                    (record (attempt w (i + suc (length fs))) {
                      parser = p;
                      slept = w.slept ++ (d ∷ delays (suc i) (length fs));
                      ring = r;
                    })
                    es)
                ring,
      )

  -- The worker once the connection broke: those that waited were resumed.
  abbrev broken : Worker → Worker
  broken w =
      let d = drain_pipe cap w in
      record d {
        parser = xredis_client.Parser.reset d.parser;
        ring = xredis_client.Ring.reset d.ring;
      }

  outage :
      (w : Worker) (fs : List Failure) (es : List Event)
      → w.phase ≡ serving
      → w.timed ≡ 1
      → (p : Parser) × (run_worker cap w (race_ended true ∷ failures fs es)
          ≡ run_worker cap
              (record (attempt (broken w) (0 + length fs)) {
                parser = p;
                slept = w.slept ++ delays 0 (length fs);
                ring = push_all cap (broken w).ring (asked fs);
              })
              es)
  unfolding run_worker advance_worker drain_pipe
  outage w fs es a b =
      let (p, same) = run-failures fs 0 (broken w) es in
      let start : advance_worker cap w w.phase (race_ended true) ≡ attempt (broken w) 0 =
        ap (λ x. advance_worker cap w x (race_ended true)) a
        ∙ ap (λ t. record (broken w) { phase = connecting; timed = t }) b in
      (p, ap (λ x. run_worker cap x (failures fs es)) start ∙ same)

  broken_lem :
      (w : Worker)
      → IsValid cap w.ring
      → (waiting cap (broken w).ring ≡ [])
        × IsValid cap (broken w).ring
        × ((broken w).ring.tail ≡ 0)
        × ((broken w).resumed ≡ w.resumed ++ handles_of (waiting cap w.ring))
  unfolding drain_pipe xredis_client.Ring.reset
  broken_lem w v =
      let (h, _, z, valid) = drain-queue cap w.ring (record { handle = 0; payload = [] }) v in
      (z, valid, refl, ap (◌++◌ w.resumed) h)

  -- What was pushed since the connection broke waits, if the ring has room for it.
  broken-queue :
      (w : Worker) (ss : List Slot)
      → IsValid cap w.ring
      → length ss ≤ cap
      → cap < 2 ^ 63
      → (waiting cap (push_all cap (broken w).ring ss) ≡ ss)
        × IsValid cap (push_all cap (broken w).ring ss)
  broken-queue w ss v room small =
      let (z, valid, t, _) = broken_lem w v in
      let few : (broken w).ring.tail + length ss < 2 ^ 63 = omega (arith, t, room, small) in
      let empty : length (waiting cap (broken w).ring) ≡ 0 = ap length z in
      (
        push_all-queue cap ss (broken w).ring valid few (omega (arith, empty, room))
            ∙ ap (λ l. l ++ ss) z,
        (push_all-PushedTo cap ss (broken w).ring valid few).valid,
      )

  -- `q` serves again, after the failed attempts `fs` and one with the parser `p` that succeeded; `ss`
  -- was pushed since the connection broke.
  abbrev pub Reconnected : Worker → List Failure → List Slot → Parser → Worker → Type 0
  Reconnected w fs ss p q =
      (q.phase ≡ serving)
      × (q.parser ≡ p)
      × (q.timed ≡ 1)
      × (waiting cap q.ring ≡ ss)
      × IsValid cap q.ring
      × (q.resumed ≡ w.resumed ++ handles_of (waiting cap w.ring))
      × (q.slept ≡ w.slept ++ delays 0 (length fs))

  -- Suppose that the connection of a live client breaks while the delay is 1 and the ring well formed, that some
  -- attempts to connect fail, and that no more requests than the capacity, below 2^63, are pushed
  -- before one succeeds. Then all that waited when it broke are resumed once, oldest first, the
  -- delays are 1, 2, 4 and so on up to 32 seconds, and the worker serves again, with the delay back at 1 and a
  -- well-formed ring, in which the requests that were pushed meanwhile wait in their order.
  pub worker-reconnects :
      (w : Worker) (fs : List Failure) (last : List Slot) (p : Parser)
      → w.phase ≡ serving
      → w.timed ≡ 1
      → IsValid cap w.ring
      → length (asked fs ++ last) ≤ cap
      → cap < 2 ^ 63
      → Reconnected w fs (asked fs ++ last) p (
          run_worker cap w
            (race_ended true ∷ failures fs (requests last (connect_ended none true p ∷ []))))
  unfolding run_worker advance_worker
  worker-reconnects w fs last p a b v room small =
      let (q, same) = outage w fs (requests last (connect_ended none true p ∷ [])) a b in
      let (z, valid) = broken-queue w (asked fs ++ last) v room small in
      let at_last = record (attempt (broken w) (0 + length fs)) {
        parser = q;
        slept = w.slept ++ delays 0 (length fs);
        ring = push_all cap (broken w).ring (asked fs);
      } in
      let ring = push_all-append cap (asked fs) last (broken w).ring in
      subst (Reconnected w fs (asked fs ++ last) p)
        (sym (same ∙ run-connecting last at_last (connect_ended none true p ∷ [])))
        (
          refl,
          refl,
          refl,
          ap (waiting cap) (sym ring) ∙ z,
          subst (IsValid cap) ring valid,
          (broken_lem w v).3,
          refl,
        )

  gone-event : (w : Worker) (e : Event) → advance_worker cap w gone e ≡ w
  unfolding advance_worker
  gone-event w (race_ended b) = refl
  gone-event w (connect_ended x b q) = refl
  gone-event w (timer_ended b) = refl
  gone-event w (request s) = refl

  gone-same : (w : Worker) (es : List Event) → w.phase ≡ gone → run_worker cap w es ≡ w
  unfolding run_worker advance_worker
  gone-same w [] h = refl
  gone-same w (e ∷ es) h =
      ap (λ x. run_worker cap x es) (ap (λ x. advance_worker cap w x e) h ∙ gone-event w e)
      ∙ gone-same w es h

  -- The worker ended with the requests `ss` in the ring.
  abbrev pub Lost : Worker → List Slot → Worker → Type 0
  Lost w ss q =
      (q.phase ≡ gone)
      × (q.resumed ≡ w.resumed ++ handles_of (waiting cap w.ring))
      × (waiting cap q.ring ≡ ss)

  Lost-closing :
      (w x : Worker) (i : ℕ) (ss : List Slot) (c : Closing) (es : List Event)
      → x.resumed ≡ w.resumed ++ handles_of (waiting cap w.ring)
      → waiting cap (push_all cap x.ring (asked_closing c)) ≡ ss
      → Lost w ss (run_worker cap (attempt x i) (closing c es))
  unfolding run_worker advance_worker
  Lost-closing w x i ss (while_connecting us r p) es h k =
      let end = record (attempt x i) { phase = gone; parser = p; ring = push_all cap x.ring us } in
      subst (Lost w ss)
        (sym
          (run-connecting us (attempt x i) (connect_ended r false p ∷ es) ∙ gone-same end es refl))
        (refl, h, k)
  Lost-closing w x i ss (while_sleeping f) es h k =
      let end = record (asleep_after x i f) { phase = gone } in
      subst (Lost w ss) (sym (run-failure f i x (timer_ended false ∷ es) ∙ gone-same end es refl))
        (refl, h, k)

  -- Suppose that the connection of a live client breaks while the delay is 1 and the ring well formed,
  -- that some attempts to connect fail, that the client is closed during a later attempt or in the
  -- sleep behind one, and that no more requests than the capacity, below 2^63, are pushed in
  -- between. Then, whatever comes later, the pipe is gone; the handles that waited when the
  -- connection broke were resumed, and none of a request that was pushed since: these were still
  -- in the ring when the pipe was deleted.
  pub closed-loses :
      (w : Worker) (fs : List Failure) (c : Closing) (es : List Event)
      → w.phase ≡ serving
      → w.timed ≡ 1
      → IsValid cap w.ring
      → length (asked fs ++ asked_closing c) ≤ cap
      → cap < 2 ^ 63
      → Lost w
          (asked fs ++ asked_closing c)
          (run_worker cap w (race_ended true ∷ failures fs (closing c es)))
  closed-loses w fs c es a b v room small =
      let (q, same) = outage w fs (closing c es) a b in
      let (z, _) = broken-queue w (asked fs ++ asked_closing c) v room small in
      let x = record (broken w) {
        parser = q;
        slept = w.slept ++ delays 0 (length fs);
        ring = push_all cap (broken w).ring (asked fs);
      } in
      subst (Lost w (asked fs ++ asked_closing c)) (sym same) (
        Lost-closing w x (0 + length fs) (asked fs ++ asked_closing c) c es (broken_lem w v).3 (
          ap (waiting cap) (sym (push_all-append cap (asked fs) (asked_closing c) (broken w).ring))
          ∙ z))
