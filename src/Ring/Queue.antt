-- ===== src/Ring/Queue.antt =====
-- The ring of include/mpsc_ring.hpp as a queue: the requests that wait for their replies, those not
-- written yet, and what each operation does to the two.
use xredis_client.Base.{
  ℕ, zero, suc, ◌+◌, ◌-◌, ◌%◌, ◌^◌, ◌≤◌, ◌<◌, true, false, List, [], ◌∷◌, ◌++◌, leb, ltb, ltb→lt,
  Bool-cases, length, append-nil, take, drop, ◌≡◌, ◌⊎◌, inl, inr, refl, sym, ap, ◌∙◌, arith,
}
use xredis_client.Base.Int.{ℤ, pos}
use xredis_client.Parser.{sub_size}
use xredis_client.Ring.{
  Slot, Ring, add_size, is_stopped, stopped_code, full_code, window, payloads_of, handles_of,
  total_bytes, write_slot, push, pop, prep_writev, drain, reset,
}
use xredis_client.Ring.Order.{length-window, window-push, window-pop, window-take-drop}
use native.Mathlib.Decide.{dec_lt}

-- Fewer than 2^63 requests were pushed since the last reset, so that no counter wraps and the stop
-- bit is not set by counting.
pub record IsValid (cap : ℕ) (r : Ring) : Type 0 where
  pub room : 0 < cap
  pub sent : r.head ≤ r.head_committed
  pub known : r.head_committed ≤ r.tail
  pub bounded : r.tail ≤ r.head + cap
  pub counted : r.tail < 2 ^ 63

take-drop_all :
    {A : Type 0} (n : ℕ) (xs : List A) → length xs ≤ n → (take n xs ≡ xs) × (drop n xs ≡ [])
take-drop_all zero [] h = (refl, refl)
take-drop_all zero (x ∷ xs) h = absurd (omega arith)
take-drop_all (suc n) [] h = (refl, refl)
take-drop_all (suc n) (x ∷ xs) h =
    let (p, q) = take-drop_all n xs (omega arith) in (ap (◌∷◌ x) p, q)

module _ (cap : ℕ) where
  -- The requests that wait for a reply, and those of them that were not written yet.
  abbrev pub waiting : Ring → List Slot
  waiting r = window cap r r.head (r.tail - r.head)

  abbrev pub unsent : Ring → List Slot
  unsent r = window cap r r.head_committed (r.tail - r.head_committed)

  pushed : Ring → Slot → Ring
  pushed r s = write_slot (record r { tail = r.tail + 1 }) (r.tail % cap) s

  push_ok :
      (r : Ring) (s : Slot)
      → IsValid cap r
      → r.tail < r.head + cap
      → push cap r s ≡ (pos (r.tail % cap), pushed r s)
  unfolding push pushed
  push_ok r s v h =
      let a : is_stopped r.tail ≡ false = ground (arith, v.counted) in
      let b : leb cap (sub_size r.tail r.head) ≡ false =
        ground (arith, v.counted, v.sent, v.known) in
      let c : add_size r.tail 1 ≡ r.tail + 1 = omega (arith, v.counted) in rw (a, b, c) refl

  pub push_code :
      (r : Ring) (s : Slot)
      → IsValid cap r
      → r.tail < r.head + cap
      → (push cap r s).0 ≡ pos (r.tail % cap)
  push_code r s v h = ap (λ (x : ℤ × Ring). x.0) (push_ok r s v h)

  push_full :
      (r : Ring) (s : Slot) → IsValid cap r → r.head + cap ≤ r.tail → push cap r s ≡ (full_code, r)
  unfolding push
  push_full r s v h =
      let a : is_stopped r.tail ≡ false = ground (arith, v.counted) in
      let b : leb cap (sub_size r.tail r.head) ≡ true =
        ground (arith, v.counted, v.sent, v.known) in
      rw (a, b) refl

  pushed-IsValid :
      (r : Ring) (s : Slot)
      → IsValid cap r
      → r.tail < r.head + cap
      → r.tail + 1 < 2 ^ 63
      → IsValid cap (pushed r s)
  unfolding pushed write_slot
  pushed-IsValid r s v h k = ground (arith, v)

  pushed-waiting :
      (r : Ring) (s : Slot)
      → IsValid cap r
      → r.tail < r.head + cap
      → (waiting (pushed r s) ≡ waiting r ++ (s ∷ []))
        × (unsent (pushed r s) ≡ unsent r ++ (s ∷ []))
  unfolding pushed write_slot
  pushed-waiting r s v h = (
    unfold write_slot in window-push cap r r.head r.tail s (omega (arith, v)) h,
    unfold write_slot in
        window-push cap r r.head_committed r.tail s (omega (arith, v)) (omega (arith, v)),
  )

  -- On a well-formed ring to which fewer than 2^63 - 1 requests were pushed since the last reset, `push`
  -- adds a request behind those that wait, and behind those not written yet, when fewer than `cap`
  -- wait. Otherwise it refuses it with the code for a full ring and changes nothing.
  pub push-queue :
      (r : Ring) (s : Slot)
      → IsValid cap r
      → r.tail + 1 < 2 ^ 63
      → ((length (waiting r) < cap)
          × (waiting (push cap r s).1 ≡ waiting r ++ (s ∷ []))
          × (unsent (push cap r s).1 ≡ unsent r ++ (s ∷ []))
          × IsValid cap (push cap r s).1)
        ⊎ ((length (waiting r) ≡ cap) × (push cap r s ≡ (full_code, r)))
  push-queue r s v k = elim (dec_lt r.tail (r.head + cap)) [
    | yes h ↦
        let e = ap (λ (x : ℤ × Ring). x.1) (push_ok r s v h) in
        let (p, q) = pushed-waiting r s v h in
        inl (
          omega (arith, v, length-window cap r r.head (r.tail - r.head)),
          rw e p,
          rw e q,
          rw e (pushed-IsValid r s v h k),
        )
    | no h ↦ inr (
      omega (arith, v, h, length-window cap r r.head (r.tail - r.head)),
      push_full r s v (omega arith),
    )
  ]

  -- What `push` keeps, whether it takes the request or refuses it.
  pub record PushedTo (r r' : Ring) (n : ℕ) : Type 0 where
    pub valid : IsValid cap r'
    pub head_same : r'.head ≡ r.head
    pub committed_same : r'.head_committed ≡ r.head_committed
    pub few : r'.tail ≤ r.tail + n
    pub waits : (more : List Slot) × (waiting r' ≡ waiting r ++ more)

  pub push-PushedTo :
      (r : Ring) (s : Slot) → IsValid cap r → r.tail + 1 < 2 ^ 63 → PushedTo r (push cap r s).1 1
  unfolding pushed write_slot
  push-PushedTo r s v k = elim (dec_lt r.tail (r.head + cap)) [
    | yes h ↦ rw (push_ok r s v h) record {
      valid = pushed-IsValid r s v h k;
      head_same = refl;
      committed_same = refl;
      few = omega arith;
      waits = (s ∷ [], (pushed-waiting r s v h).0);
    }
    | no h ↦ rw (push_full r s v (omega arith)) record {
      valid = v;
      head_same = refl;
      committed_same = refl;
      few = omega arith;
      waits = ([], sym (append-nil (waiting r)));
    }
  ]

  -- On a well-formed ring, `pop` takes the request that has waited longest, if it was written (the reader only pops when a
  -- reply came).
  pub pop-queue :
      (r : Ring)
      → IsValid cap r
      → r.head < r.head_committed
      → (waiting r ≡ (pop cap r).0 ∷ waiting (pop cap r).1)
        × (unsent (pop cap r).1 ≡ unsent r)
        × IsValid cap (pop cap r).1
  unfolding pop
  pop-queue r v h =
      let e : add_size r.head 1 ≡ r.head + 1 = omega (arith, v) in
      (rw e (window-pop cap r r.head r.tail (omega (arith, v))), refl, rw e (ground (arith, v)))

  abbrev Prepared : Ring → ℕ → ℕ → Type 0
  Prepared r n size =
      let r' = record r { head_committed = add_size r.head_committed n } in
      (payloads_of (window cap r r.head_committed n) ≡ payloads_of (take size (unsent r)))
      × (unsent r' ≡ drop size (unsent r))
      × IsValid cap r'

  prepared : (r : Ring) (n : ℕ) → IsValid cap r → n ≤ r.tail - r.head_committed → Prepared r n n
  prepared r n v h =
      let e : add_size r.head_committed n ≡ r.head_committed + n = omega (arith, v) in
      let e' : r.tail - (r.head_committed + n) ≡ r.tail - r.head_committed - n = omega arith in
      let (p, q) = window-take-drop cap r r.head_committed (r.tail - r.head_committed) n h in
      (ap payloads_of p, rw (e, e') q, rw e (ground (arith, v)))

  Prepared-all :
      (r : Ring) (size : ℕ)
      → IsValid cap r
      → r.tail - r.head_committed ≤ size
      → Prepared r (r.tail - r.head_committed) size
  Prepared-all r size v h =
      let l = length-window cap r r.head_committed (r.tail - r.head_committed) in
      let (p, q, w) = prepared r (r.tail - r.head_committed) v (omega arith) in
      let (t, d) = take-drop_all (r.tail - r.head_committed) (unsent r) (omega (arith, l)) in
      let (t', d') = take-drop_all size (unsent r) (omega (arith, l)) in
      (p ∙ ap payloads_of (t ∙ sym t'), q ∙ d ∙ sym d', w)

  -- On a well-formed ring, `prep_writev` hands out, in order, the payloads that were not written yet, `size` of them at
  -- most, with the sum of their lengths; they still wait for their replies.
  pub prep_writev-queue :
      (size : ℕ) (r : Ring)
      → IsValid cap r
      → let ((iov, bytes), r') = prep_writev cap size r in
        (iov ≡ payloads_of (take size (unsent r)))
        × (bytes ≡ total_bytes iov)
        × (unsent r' ≡ drop size (unsent r))
        × (waiting r' ≡ waiting r)
        × IsValid cap r'
  unfolding prep_writev
  prep_writev-queue size r v =
      let w : sub_size r.tail r.head_committed ≡ r.tail - r.head_committed = omega (arith, v) in
      elim (Bool-cases (ltb (r.tail - r.head_committed) size)) [
        | inl t ↦
            let (p, q, x) = Prepared-all r size v (omega (arith, ltb→lt _ _ t)) in
            rw (w, t) (p, refl, q, refl, x)
        | inr t ↦
            let (p, q, x) = prepared r size v (ground (arith, t)) in rw (w, t) (p, refl, q, refl, x)
      ]

  -- On a well-formed ring, `drain` resumes every waiting request once, the oldest first, and refuses all that follow with
  -- the code for a stopped ring until `reset` makes the ring empty again.
  pub drain-queue :
      (r : Ring) (s : Slot)
      → IsValid cap r
      → ((drain cap r).0 ≡ handles_of (waiting r))
        × (push cap (drain cap r).1 s ≡ (stopped_code, (drain cap r).1))
        × (waiting (reset (drain cap r).1) ≡ [])
        × IsValid cap (reset (drain cap r).1)
  unfolding drain push reset
  drain-queue r s v =
      let w : sub_size r.tail r.head ≡ r.tail - r.head = omega (arith, v) in
      let n : is_stopped r.tail ≡ false = ground (arith, v.counted) in
      let t : is_stopped (r.tail + 2 ^ 63) ≡ true = ground (arith, v.counted) in
      (rw w refl, rw (n, t) refl, refl, ground (arith, v.room))
