-- ===== src/Ring/Tests.antt =====
-- The ring at concrete states.
use xredis_client.Base.{
  ℕ, ◌+◌, ◌%◌, ◌<◌, Bytes, codes, [], ◌∷◌, ◌++◌, ◌≡◌, ◌⊎◌, refl, arith, length, take, drop,
}
use xredis_client.Base.Int.{pos}
use xredis_client.Ring.{
  Slot, Ring, push, pop, push_n, prep_writev, drain, reset, stopped_code, full_code, handles_of,
  payloads_of, total_bytes,
}
use xredis_client.Ring.Queue.{
  IsValid, waiting, unsent, push-queue, pop-queue, prep_writev-queue, drain-queue,
}
use xredis_client.Ring.Overflow.{push_n_overwrites}

abbrev request : ℕ → Bytes → Slot
request h p = record { handle = h; payload = p }

-- A ring of four slots that went round: three requests wait, one of which was written.
abbrev ring : Ring
ring = record {
  head = 3;
  head_committed = 4;
  tail = 6;
  handles = λ i. 40 + i;
  payloads = λ i. codes "*1\r\n$4\r\nPING\r\n";
}

ring-IsValid : IsValid 4 ring
ring-IsValid = record {
  room = omega arith;
  sent = omega arith;
  known = omega arith;
  bounded = omega arith;
  counted = omega arith;
}

ring-waiting : handles_of (waiting 4 ring) ≡ 43 ∷ 40 ∷ 41 ∷ []
ring-waiting = refl

push-queue_example :
    ((length (waiting 4 ring) < 4)
      × (waiting 4 (push 4 ring (request 7 [])).1 ≡ waiting 4 ring ++ (request 7 [] ∷ []))
      × (unsent 4 (push 4 ring (request 7 [])).1 ≡ unsent 4 ring ++ (request 7 [] ∷ []))
      × IsValid 4 (push 4 ring (request 7 [])).1)
    ⊎ ((length (waiting 4 ring) ≡ 4) × (push 4 ring (request 7 []) ≡ (full_code, ring)))
push-queue_example = push-queue 4 ring (request 7 []) ring-IsValid (omega arith)

pop-queue_example :
    (waiting 4 ring ≡ (pop 4 ring).0 ∷ waiting 4 (pop 4 ring).1)
    × (unsent 4 (pop 4 ring).1 ≡ unsent 4 ring)
    × IsValid 4 (pop 4 ring).1
pop-queue_example = pop-queue 4 ring ring-IsValid (omega arith)

prep_writev-queue_example :
    let ((iov, bytes), r') = prep_writev 4 1 ring in
    (iov ≡ payloads_of (take 1 (unsent 4 ring)))
    × (bytes ≡ total_bytes iov)
    × (unsent 4 r' ≡ drop 1 (unsent 4 ring))
    × (waiting 4 r' ≡ waiting 4 ring)
    × IsValid 4 r'
prep_writev-queue_example = prep_writev-queue 4 1 ring ring-IsValid

drain-queue_example :
    ((drain 4 ring).0 ≡ handles_of (waiting 4 ring))
    × (push 4 (drain 4 ring).1 (request 7 []) ≡ (stopped_code, (drain 4 ring).1))
    × (waiting 4 (reset (drain 4 ring).1) ≡ [])
    × IsValid 4 (reset (drain 4 ring).1)
drain-queue_example = drain-queue 4 ring (request 7 []) ring-IsValid

push_n_overwrites_example :
    ((push_n 4 ring (request 8 [] ∷ request 9 [] ∷ [])).0 ≡ pos (ring.tail % 4))
    × ((pop 4 (push_n 4 ring (request 8 [] ∷ request 9 [] ∷ [])).1).0 ≡ request 9 [])
push_n_overwrites_example =
    push_n_overwrites 4 ring (request 8 []) (request 9 []) ring-IsValid (omega arith) refl
