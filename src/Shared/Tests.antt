-- ===== src/Shared/Tests.antt =====
-- The shared ring with two slots: two threads that push, and the thread of the connection.
use xredis_client.Base.{◌%◌, ◌++◌, some, ◌≡◌, ◌≢◌, inr, refl, codes, arith}
use native.Mathlib.Decide.{ℕ_discrete}
use xredis_client.Ring.{Slot, payloads_of, handles_of, full_code}
use xredis_client.Shared.{
  finished, Push, call, load_tail, load_head, refuse_full, win, write_handle, write_payload,
  see_tail, publish, pop_load, pop_read, pop_store, load_committed, load_end, commit, fill, filled,
  set_stop, begin_resume, resume, finish, System, push, take, Reach, initial, later, ready,
}
use xredis_client.Shared.Invariant.{tickets}
use xredis_client.Shared.Queue.{IsPrefix, served-in-order, cells-apart, drained-all, stale-refused}
use xredis_client.Shared.Drain.{Runs, drain-ends}

abbrev first : Slot
first = record { handle = 7; payload = codes "a" }

abbrev second : Slot
second = record { handle = 8; payload = codes "b" }

abbrev Reached : Type 0
Reached = (x : System 2) × Reach 2 x

-- Thread 1 loads the tail; thread 0 pushes a request, which is written and popped.
abbrev loaded_stale : Reached
unfolding ℕ_discrete
loaded_stale = (_, later (later initial (push 1 (call second))) (push 1 load_tail))

abbrev one_pushed : Reached
unfolding ℕ_discrete loaded_stale
one_pushed = (
  _,
  later
      (later
        (later
          (later
            (later
              (later (later (later loaded_stale.1 (push 0 (call first))) (push 0 load_tail))
                (push 0 load_head))
              (push 0 (win refl (omega arith) refl)))
            (push 0 write_handle))
          (push 0 write_payload))
        (push 0 (see_tail refl)))
      (push 0 publish),
)

abbrev one_served : Reached
unfolding ℕ_discrete loaded_stale one_pushed
one_served = (
  _,
  later
      (later
        (later
          (later
            (later
              (later (later (later one_pushed.1 (take load_committed)) (take load_end))
                (take (commit 16)))
              (take (fill (λ e. ground (arith, e)))))
            (take (filled refl)))
          (take (pop_load (omega arith))))
        (take pop_read))
      (take pop_store),
)

served-in-order_example :
    let w = one_served.0.world in
    (w.popped ≡ tickets w.log 0 w.ring.head)
    × IsPrefix (payloads_of w.popped) w.written
    × IsPrefix w.written (payloads_of (tickets w.log 0 w.count))
unfolding ℕ_discrete loaded_stale one_pushed one_served
served-in-order_example = served-in-order 2 (omega arith) one_served.1 (omega arith)

-- Two threads with a ticket each.
abbrev two_tickets : Reached
unfolding ℕ_discrete loaded_stale
two_tickets = (
  _,
  later
      (later
        (later
          (later (later (later initial (push 0 (call first))) (push 0 load_tail))
            (push 0 load_head))
          (push 0 (win refl (omega arith) refl)))
        (push 1 (call second)))
      (push 1 load_tail),
)

abbrev two_winners : Reached
unfolding ℕ_discrete loaded_stale two_tickets
two_winners =
    (_, later (later two_tickets.1 (push 1 load_head)) (push 1 (win refl (omega arith) refl)))

cells-apart_example : 0 % 2 ≢ 1 % 2
unfolding ℕ_discrete loaded_stale two_tickets two_winners
cells-apart_example =
    cells-apart 2 (omega arith) two_winners.1 (omega arith) 0 0 1 refl
      (inr (1, (λ e. omega (arith, e)), refl))

-- The ring is empty, and the thread that has a stale tail loads the head.
abbrev head_past : Reached
unfolding ℕ_discrete loaded_stale one_pushed one_served
head_past = (_, later one_served.1 (push 1 load_head))

stale-refused_example :
    let x = head_past.0 in
    (x.world ≡ x.world)
    × (ready (some full_code) ≡ ready (some full_code))
    × Push 2 x.world (x.pc 1) x.world (ready (some full_code))
unfolding ℕ_discrete loaded_stale one_pushed one_served head_past
stale-refused_example =
    stale-refused 2 1 (omega arith) (omega arith) head_past.1 (omega arith) refl (omega arith)
      (refuse_full refl (omega arith))

head_past-empty : head_past.0.world.ring.head ≡ head_past.0.world.count
unfolding ℕ_discrete loaded_stale one_pushed one_served head_past
head_past-empty = refl

abbrev drained : Reached
unfolding ℕ_discrete loaded_stale one_pushed
drained = (
  _,
  later
      (later (later (later one_pushed.1 (take set_stop)) (take (begin_resume refl)))
        (take (resume (λ e. ground (arith, e)))))
      (take (finish refl)),
)

drained-all_example :
    let x = drained.0 in
    (handles_of x.world.popped ++ x.world.resumed
      ≡ handles_of (tickets x.world.log 0 x.world.count))
    × (x.world.count ≡ x.world.count)
unfolding ℕ_discrete loaded_stale one_pushed drained
drained-all_example = drained-all 2 (omega arith) drained.1 (omega arith) refl (push 1 load_head)

-- A thread has a ticket and has written nothing.
abbrev unfinished : Reached
unfolding ℕ_discrete loaded_stale
unfinished = (
  _,
  later
      (later (later (later loaded_stale.1 (push 0 (call first))) (push 0 load_tail))
        (push 0 load_head))
      (push 0 (win refl (omega arith) refl)),
)

-- The connection breaks while that thread is at work.
abbrev stopping : Reached
unfolding ℕ_discrete loaded_stale unfinished
stopping = (_, later unfinished.1 (take set_stop))

drain-ends_example :
    (y : System 2) × Runs 2 stopping.0 y
    × (y.consumer ≡ finished)
    × (y.world.count ≡ stopping.0.world.count)
    × (handles_of y.world.popped ++ y.world.resumed
        ≡ handles_of (tickets y.world.log 0 y.world.count))
unfolding ℕ_discrete loaded_stale unfinished stopping
drain-ends_example = drain-ends 2 (omega arith) stopping.1 (omega arith) refl
