-- ===== src/Ring.antt =====
-- include/mpsc_ring.hpp, the ring of waiting requests of a connection that one thread uses
-- (`noshared_ring`). A coroutine handle is a number. The two arrays are functions of the index, of
-- which only the indices below the capacity are used; the capacity is a power of two, so that
-- `i & mask` is `i % cap`.
pub mod Order
pub mod Queue
pub mod Many
pub mod Overflow
mod Tests
use xredis_client.Base.{
  ℕ, zero, suc, ◌+◌, ◌-◌, ◌*◌, ◌/◌, ◌%◌, ◌^◌, Bytes, Bool, true, false, List, [], ◌∷◌, ◌++◌, leb,
  ltb, ◌==◌, if◌then◌else◌, length,
}
use xredis_client.Base.Int.{ℤ, pos, negsuc}
use xredis_client.Parser.{sub_size}

-- A handle with its payload.
pub record Slot : Type 0 where
  pub handle : ℕ
  pub payload : Bytes

pub record Ring : Type 0 where
  pub head : ℕ
  pub head_committed : ℕ
  pub tail : ℕ
  pub handles : ℕ → ℕ
  pub payloads : ℕ → Bytes

abbrev pub update {ℓ} : {A : Type ℓ} → (ℕ → A) → ℕ → A → ℕ → A
update f i v j = if j == i then v else f j

abbrev pub add_size : ℕ → ℕ → ℕ
add_size a b = (a + b) % 2 ^ 64

-- `tail & STOP_BIT`
abbrev pub is_stopped : ℕ → Bool
is_stopped t = leb (2 ^ 63) (t % 2 ^ 64)

-- `tail | STOP_BIT`
abbrev pub stop : ℕ → ℕ
stop t = if is_stopped t then t else t + 2 ^ 63

-- The codes of `push`: -2 for a drained ring, -1 for a full one.
abbrev pub stopped_code : ℤ
stopped_code = negsuc 1

abbrev pub full_code : ℤ
full_code = negsuc 0

unfoldable pub empty_ring : Ring
empty_ring = record { head = 0; head_committed = 0; tail = 0; handles = λ _. 0; payloads = λ _. [] }

unfoldable pub write_slot : Ring → ℕ → Slot → Ring
write_slot r i s = record r {
  handles = update r.handles i s.handle;
  payloads = update r.payloads i s.payload;
}

abbrev pub payloads_of : List Slot → List Bytes
payloads_of [] = []
payloads_of (s ∷ ss) = s.payload ∷ payloads_of ss

abbrev pub handles_of : List Slot → List ℕ
handles_of [] = []
handles_of (s ∷ ss) = s.handle ∷ handles_of ss

abbrev pub total_bytes : List Bytes → ℕ
total_bytes [] = 0
total_bytes (b ∷ bs) = length b + total_bytes bs

module _ (cap : ℕ) where
  abbrev pub slot_at : Ring → ℕ → Slot
  slot_at r i = record { handle = r.handles (i % cap); payload = r.payloads (i % cap) }

  unfoldable pub push : Ring → Slot → ℤ × Ring
  unfolding write_slot
  push r s =
      if is_stopped r.tail
      then (stopped_code, r)
      else if leb cap (sub_size r.tail r.head)
      then (full_code, r)
      else (pos (r.tail % cap), write_slot (record r { tail = add_size r.tail 1 }) (r.tail % cap) s)

  unfoldable pub pop : Ring → Slot × Ring
  pop r = (slot_at r r.head, record r { head = add_size r.head 1 })

  -- The loop of `push_n`, at index `(p + i) & mask`.
  unfoldable pub write_slots : Ring → ℕ → ℕ → List Slot → Ring
  unfolding write_slot
  write_slots r p i [] = r
  write_slots r p i (s ∷ ss) = write_slots (write_slot r ((p + i) % cap) s) p (i + 1) ss

  unfoldable pub push_n : Ring → List Slot → ℤ × Ring
  unfolding write_slots
  push_n r ss =
      if is_stopped r.tail
      then (stopped_code, r)
      else if leb cap (sub_size r.tail r.head)
      then (full_code, r)
      else (
        pos (r.tail % cap),
        write_slots (record r { tail = add_size r.tail (length ss) }) (r.tail % cap) 0 ss,
      )

  -- The slots from index `i` on, going round at the capacity.
  abbrev pub window : Ring → ℕ → ℕ → List Slot
  window r i zero = []
  window r i (suc n) = slot_at r i ∷ window r (i + 1) n

  -- `iov` is filled with the payloads that come next, `size` of them at most; with it come their
  -- total number of bytes.
  unfoldable pub prep_writev : ℕ → Ring → (List Bytes × ℕ) × Ring
  prep_writev size r =
      let left = sub_size r.tail r.head_committed in
      let num_evs = if ltb left size then left else size in
      let iov = payloads_of (window r r.head_committed num_evs) in
      ((iov, total_bytes iov), record r { head_committed = add_size r.head_committed num_evs })

  -- Stops the ring and resumes, with CONN ERR as their result, the handles that wait.
  unfoldable pub drain : Ring → List ℕ × Ring
  drain r = (handles_of (window r r.head (sub_size r.tail r.head)), record r { tail = stop r.tail })

unfoldable pub reset : Ring → Ring
reset r = record r { head = 0; head_committed = 0; tail = 0 }
