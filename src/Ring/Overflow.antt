-- ===== src/Ring/Overflow.antt =====
-- `push_n` of include/mpsc_ring.hpp on a ring with one free slot.
use native.Mathlib.Nat.{mod-add-mod, mod-eq-sub-mod}
use xredis_client.Base.{
  ℕ, ◌+◌, ◌%◌, ◌<◌, true, false, [], ◌∷◌, leb, ◌==◌, ◌≡◌, refl, ap, ◌∙◌, arith,
}
use xredis_client.Base.Int.{pos}
use xredis_client.Parser.{sub_size}
use xredis_client.Ring.{Slot, Ring, is_stopped, write_slot, write_slots, push_n, pop}
use xredis_client.Ring.Queue.{IsValid}

-- On a well-formed ring with one slot free and a capacity above 1, a push of two (which a redirection by ASK makes) is accepted, and the second
-- entry lands in the slot of the request that has waited longest: the next reply is handed to the
-- newcomer, whatever request was there.
pub push_n_overwrites :
    (cap : ℕ) (r : Ring) (a b : Slot)
    → IsValid cap r
    → 1 < cap
    → r.tail + 1 ≡ r.head + cap
    → ((push_n cap r (a ∷ b ∷ [])).0 ≡ pos (r.tail % cap))
      × ((pop cap (push_n cap r (a ∷ b ∷ [])).1).0 ≡ b)
unfolding push_n write_slots write_slot pop
push_n_overwrites cap r a b v h e =
    let live : is_stopped r.tail ≡ false = ground (arith, v.counted) in
    let room : leb cap (sub_size r.tail r.head) ≡ false =
      ground (arith, v.counted, v.sent, v.known, e) in
    let second : (r.tail % cap + (0 + 1)) % cap ≡ r.head % cap =
      mod-add-mod r.tail cap 1
      ∙ ap (λ n. n % cap) e
      ∙ mod-eq-sub-mod {n = r.head + cap} {m = cap} (omega arith)
      ∙ ap (λ n. n % cap) (omega arith) in
    let same : (r.head % cap == r.head % cap) ≡ true = ground arith in
    rw (live, room) (refl, rw second (rw same refl))
