-- ===== src/Awaiter/Command.antt =====
-- include/RedisCommander.hpp, `CommandAwaiter::await_suspend`: one command. What the hook of the
-- promise answers is an argument, true where there is none; the write to the event that wakes the
-- writer, on the branch that waits, is not in the model.
use xredis_client.Base.{
  ℕ, zero, suc, ◌+◌, ◌-◌, ◌^◌, ◌<◌, Bytes, Bool, true, false, [], ◌∷◌, ◌++◌, Option, none, some,
  codes, length, ◌≡◌, ◌⊎◌, inl, inr, ap, arith,
}
use xredis_client.Base.Int.{ℤ, pos, negsuc}
use xredis_client.Ring.{Slot, Ring, push, drain}
use xredis_client.Ring.Order.{length-window}
use xredis_client.Ring.Queue.{IsValid, waiting, push-queue, push_code, drain-queue}

-- Whether the coroutine is suspended, the error that it is given otherwise, and the ring.
abbrev pub Suspension : Type 0
Suspension = Bool × Option Bytes × Ring

abbrev pub op_cancelled : Bytes
op_cancelled = codes "OP CANCELLED"

abbrev pub ring_overflow : Bytes
ring_overflow = codes "RING OVERFLOW"

abbrev pub conn_err : Bytes
conn_err = codes "CONN ERR"

-- By the code that `push` returned.
abbrev pub after_push : ℤ × Ring → Suspension
after_push (pos i, r) = (true, none, r)
after_push (negsuc zero, r) = (false, some ring_overflow, r)
after_push (negsuc (suc n), r) = (false, some conn_err, r)

module _ (cap : ℕ) where
  unfoldable pub await_suspend : Bool → Ring → Slot → Suspension
  await_suspend false r s = (false, some op_cancelled, r)
  await_suspend true r s = after_push (push cap r s)

  -- On a well-formed ring, a command whose hook agrees waits exactly if its request was put behind
  -- those that wait; in a full ring it goes on at once with RING OVERFLOW, and the ring stays.
  await_suspend-queue :
      (r : Ring) (s : Slot)
      → IsValid cap r
      → r.tail + 1 < 2 ^ 63
      → ((await_suspend true r s ≡ (true, none, (push cap r s).1))
          × (waiting cap (push cap r s).1 ≡ waiting cap r ++ (s ∷ []))
          × IsValid cap (push cap r s).1)
        ⊎ ((length (waiting cap r) ≡ cap)
            × (await_suspend true r s ≡ (false, some ring_overflow, r)))
  unfolding await_suspend
  await_suspend-queue r s v k = elim (push-queue cap r s v k) [
    | inl (a, b, c, d) ↦
        inl (
          ap (λ (z : ℤ). after_push (z, (push cap r s).1)) (push_code cap r s v (below r v a)),
          b,
          d,
        )
    | inr (a, e) ↦ inr (a, ap after_push e)
  ]
    where
      below : (r : Ring) → IsValid cap r → length (waiting cap r) < cap → r.tail < r.head + cap
      below r v a = omega (arith, v, a, length-window cap r r.head (r.tail - r.head))

  -- After the connection broke, and until the ring is reset, it goes on at once with CONN ERR.
  await_suspend-drain :
      (r : Ring) (s : Slot)
      → IsValid cap r
      → await_suspend true (drain cap r).1 s ≡ (false, some conn_err, (drain cap r).1)
  unfolding await_suspend
  await_suspend-drain r s v = ap after_push (drain-queue cap r s v).1
