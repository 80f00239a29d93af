-- ===== src/Shared/Queue.antt =====
-- include/mpsc_ring.hpp, the shared ring, in every state that the steps of its threads lead to.
use xredis_client.Base.{
  ℕ, zero, suc, ◌+◌, ◌-◌, ◌%◌, ◌^◌, ◌<◌, ◌≤◌, List, [], ◌∷◌, ◌++◌, some, ◌≡◌, ◌≢◌, ◌⊎◌, inl, inr,
  refl, sym, ◌∙◌, ap, subst, false, append-nil, append_assoc, arith,
}
use xredis_client.Ring.{Slot, payloads_of, handles_of, is_stopped, full_code}
use xredis_client.Parser.{sub_size}
use xredis_client.Ring.Order.{mod_ne}
use xredis_client.Shared.{
  World, Pc, Cpc, resting, finished, filling, ready, checking, refuse_stopped, refuse_full, lose,
  Push, call, win, pop_load, System, Step, push, take, Take, Reach, initial, later,
}
use xredis_client.Shared.Invariant.{
  tickets, ticket, written_to, resumed_to, stop_bit, IsTaking, IsFresh, Inv,
}
use xredis_client.Shared.Moves.{apart}
use xredis_client.Shared.Pushes.{ticket-range}
use xredis_client.Shared.Threads.{Push-Inv, Push-count}
use xredis_client.Shared.Takes.{Take-Inv, payloads_of-append, handles_of-append}

abbrev pub IsPrefix : {A : Type 0} → List A → List A → Type 0
IsPrefix {A} xs ys = (zs : List A) × (ys ≡ xs ++ zs)

tickets-add :
    (log : ℕ → Slot) (a n m : ℕ) → tickets log a (n + m) ≡ tickets log a n ++ tickets log (a + n) m
tickets-add log a n zero =
    let e : n + 0 ≡ n = omega arith in rw e (sym (append-nil (tickets log a n)))
tickets-add log a n (suc m) =
    let e : n + suc m ≡ suc (n + m) = omega arith in
    let e' : a + (n + m) ≡ a + n + m = omega arith in
    rw (e, e')
      (ap (λ xs. xs ++ (log (a + n + m) ∷ [])) (tickets-add log a n m)
        ∙ append_assoc (tickets log a n) (tickets log (a + n) m) (log (a + n + m) ∷ []))

tickets-split :
    (log : ℕ → Slot) (n m : ℕ) → n ≤ m → tickets log 0 m ≡ tickets log 0 n ++ tickets log n (m - n)
tickets-split log n m h =
    let e : n + (m - n) ≡ m = omega (arith, h) in
    let z : 0 + n ≡ n = omega arith in
    ap (tickets log 0) (sym e)
    ∙ tickets-add log 0 n (m - n)
    ∙ ap (λ k. tickets log 0 n ++ tickets log k (m - n)) z

module _ (cap : ℕ) where
  Push-count_le : {w w' : World} {p p' : Pc} → Push cap w p w' p' → w.count ≤ w'.count
  Push-count_le (call s) = omega arith
  Push-count_le (win a b e) = omega arith
  Push-count_le mv = omega arith

  Step-count_le : {x y : System cap} → Step cap x y → x.world.count ≤ y.world.count
  Step-count_le (push i mv) = Push-count_le mv
  Step-count_le (take (pop_load a)) = omega arith
  Step-count_le (take mv) = omega arith

  Step-Inv :
      {x y : System cap}
      → Step cap x y
      → Inv cap x.world x.pc x.consumer
      → y.world.count < 2 ^ 63
      → Inv cap y.world y.pc y.consumer
  Step-Inv (push i mv) inv small = Push-Inv inv i mv refl small
  Step-Inv (take mv) inv small = Take-Inv inv mv

  pub Reach-Inv :
      {x : System cap}
      → 0 < cap
      → Reach cap x
      → x.world.count < 2 ^ 63
      → Inv cap x.world x.pc x.consumer
  Reach-Inv room initial small = record {
    roomy = room;
    few = small;
    allocated = refl;
    sent = omega arith;
    known = omega arith;
    shown = omega arith;
    bounded = omega arith;
    handles = λ t a b. absurd (omega arith);
    payloads = λ t a b. absurd (omega arith);
    fresh = λ i. tt;
    unique = λ i j t a b. absurd (ground (arith, a));
    covered = λ t a b. absurd (omega arith);
    taking = tt;
    popped = refl;
    written = refl;
    resumed = refl;
  }
  Reach-Inv room (later r step) small =
      Step-Inv step (Reach-Inv room r (omega (arith, Step-count_le step))) small

  -- What a consumer hands out lies between what was answered and what is published.
  written-between :
      {w : World} {pc : ℕ → Pc} {c : Cpc}
      → Inv cap w pc c
      → (k : Cpc) → IsTaking cap w k
      → (w.ring.head ≤ written_to w k) × (written_to w k ≤ w.count)
  written-between inv (filling i last) (t, u, v) = (t, omega (arith, u, v, inv.known, inv.shown))
  written-between inv resting t = (inv.sent, omega (arith, inv.known, inv.shown))
  written-between inv k t = (inv.sent, omega (arith, inv.known, inv.shown))

  tickets-prefix :
      (log : ℕ → Slot) (n m : ℕ)
      → n ≤ m
      → IsPrefix (payloads_of (tickets log 0 n)) (payloads_of (tickets log 0 m))
  tickets-prefix log n m h = (
    payloads_of (tickets log n (m - n)),
    ap payloads_of (tickets-split log n m h)
        ∙ payloads_of-append (tickets log 0 n) (tickets log n (m - n)),
  )

  -- However the threads interleave, as long as fewer than 2^63 requests were admitted to a ring with a
  -- slot: the requests that `pop` has returned are the oldest of those admitted, in the order of
  -- their tickets; what was handed out to be written begins with their payloads; and it is the
  -- beginning of the payloads of all that were admitted.
  pub served-in-order :
      {x : System cap}
      → 0 < cap
      → Reach cap x
      → x.world.count < 2 ^ 63
      → (x.world.popped ≡ tickets x.world.log 0 x.world.ring.head)
        × IsPrefix (payloads_of x.world.popped) x.world.written
        × IsPrefix x.world.written (payloads_of (tickets x.world.log 0 x.world.count))
  served-in-order {x} room r small =
      let inv = Reach-Inv room r small in
      let (a, b) = written-between inv x.consumer inv.taking in
      (
        inv.popped,
        rw (inv.popped, inv.written)
            (tickets-prefix x.world.log x.world.ring.head (written_to x.world x.consumer) a),
        rw inv.written (tickets-prefix x.world.log (written_to x.world x.consumer) x.world.count b),
      )

  -- The ticket `u` of a request that is published and waits, or that a thread other than `i` has.
  abbrev pub InUse : System cap → ℕ → ℕ → Type 0
  InUse x i u =
      ((x.world.ring.head ≤ u) × (u < x.world.ring.tail))
      ⊎ ((j : ℕ) × (i ≢ j) × (ticket (x.pc j) ≡ some u))

  -- At most `cap` requests were admitted and not popped.
  within-capacity :
      {x : System cap}
      → 0 < cap
      → Reach cap x
      → x.world.count < 2 ^ 63
      → x.world.count ≤ x.world.ring.head + cap
  within-capacity room r small = omega (arith, (Reach-Inv room r small).bounded)

  -- However the threads interleave, as long as fewer than 2^63 requests were admitted to a ring with a
  -- slot: the cell of a ticket that a thread in `push` holds is not that of a ticket that another one
  -- holds, nor that of a published request that waits.
  pub cells-apart :
      {x : System cap}
      → 0 < cap
      → Reach cap x
      → x.world.count < 2 ^ 63
      → (i t u : ℕ) → ticket (x.pc i) ≡ some t
      → InUse x i u
      → t % cap ≢ u % cap
  cells-apart {x} room r small i t u a other =
      let inv = Reach-Inv room r small in
      let (l, m) = ticket-range cap x.world (x.pc i) (inv.fresh i) t a in
      let full = within-capacity room r small in
      elim other [
        | inl (h, k) ↦ λ e. mod_ne cap u t (omega (arith, k, l)) (omega (arith, m, h, full)) (sym e)
        | inr (j, ne, b) ↦
            let (l', m') = ticket-range cap x.world (x.pc j) (inv.fresh j) u b in
            apart inv 0 t u l m l' m' (λ e. ne (inv.unique i j t a (b ∙ ap some (sym e))))
      ]

  Take-count : {w w' : World} {k c : Cpc} → Take cap w k w' c → w'.count ≡ w.count
  Take-count (pop_load a) = refl
  Take-count mv = refl

  Step-count :
      {x y : System cap}
      → Inv cap x.world x.pc x.consumer
      → Step cap x y
      → x.consumer ≡ finished
      → y.world.count ≡ x.world.count
  Step-count inv (push i mv) e = Push-count inv i mv (ap stop_bit e)
  Step-count inv (take mv) e = Take-count mv

  -- What `drain` leaves: each request was popped, or its handle resumed.
  pub finished-handles :
      {x : System cap}
      → Inv cap x.world x.pc x.consumer
      → x.consumer ≡ finished
      → handles_of x.world.popped ++ x.world.resumed
        ≡ handles_of (tickets x.world.log 0 x.world.count)
  finished-handles {x} inv e =
      let h = x.world.ring.head in
      let k : h ≤ x.world.count = omega (arith, inv.sent, inv.known, inv.shown) in
      let t : x.world.resumed ≡ handles_of (tickets x.world.log h (x.world.count - h)) =
        inv.resumed ∙ ap (λ c. handles_of (tickets x.world.log h (resumed_to x.world c - h))) e in
      rw (inv.popped, t)
        (sym (
            handles_of-append (tickets x.world.log 0 h) (tickets x.world.log h (x.world.count - h)))
          ∙ ap handles_of (sym (tickets-split x.world.log h x.world.count k)))

  -- However the threads interleave, as long as fewer than 2^63 requests were admitted to a ring with a
  -- slot: when `drain` has come to its end, each request that was admitted was either popped or its
  -- handle resumed, once, in the order of the tickets, and no step of any thread admits another.
  pub drained-all :
      {x : System cap}
      → 0 < cap
      → Reach cap x
      → x.world.count < 2 ^ 63
      → x.consumer ≡ finished
      → {y : System cap} → Step cap x y
      → (handles_of x.world.popped ++ x.world.resumed
          ≡ handles_of (tickets x.world.log 0 x.world.count))
        × (y.world.count ≡ x.world.count)
  drained-all room r small e step =
      let inv = Reach-Inv room r small in (finished-handles inv e, Step-count inv step e)

  only-refused :
      {s : Slot} {t h : ℕ} {w w' : World} {p' : Pc}
      → is_stopped t ≡ false
      → cap ≤ sub_size t h
      → Push cap w (checking s t h) w' p'
      → (w' ≡ w) × (p' ≡ ready (some full_code))
  only-refused n b (refuse_stopped x) = absurd (ground (arith, n, x))
  only-refused n b (refuse_full x y) = (refl, refl)
  only-refused n b (win x y z) = absurd (omega (arith, b, y))
  only-refused n b (lose x y) = absurd (omega (arith, b, y))

  -- In every reachable state of a ring with at least one slot and no more than 2^63, to which fewer
  -- than 2^63 requests were admitted, a thread that loaded the head after it had gone past the tail
  -- that the thread had loaded can only be refused as if the ring were full, however few requests wait.
  pub stale-refused :
      {x : System cap} (i : ℕ) {s : Slot} {t h : ℕ}
      → 0 < cap
      → cap ≤ 2 ^ 63
      → Reach cap x
      → x.world.count < 2 ^ 63
      → x.pc i ≡ checking s t h
      → t < h
      → {w : World} {p : Pc} → Push cap x.world (x.pc i) w p
      → (w ≡ x.world)
        × (p ≡ ready (some full_code))
        × Push cap x.world (x.pc i) x.world (ready (some full_code))
  stale-refused {x} i {s} {t} {h} room wide r small e lt {w} {p} mv =
      let inv = Reach-Inv room r small in
      let f : h ≤ x.world.ring.head = subst (IsFresh cap x.world) e (inv.fresh i) in
      let n : is_stopped t ≡ false = ground (arith, lt, f, small, inv.sent, inv.known, inv.shown) in
      let b : cap ≤ sub_size t h =
        ground (arith, wide, lt, f, small, inv.sent, inv.known, inv.shown) in
      (
        (only-refused n b (subst (λ k. Push cap x.world k w p) e mv)).0,
        (only-refused n b (subst (λ k. Push cap x.world k w p) e mv)).1,
        subst (λ k. Push cap x.world k x.world (ready (some full_code))) (sym e) (refuse_full n b),
      )
