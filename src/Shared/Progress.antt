-- ===== src/Shared/Progress.antt =====
-- include/mpsc_ring.hpp, the shared ring: how the calls of `push` that have a ticket come to their end.
use xredis_client.Base.{
  ℕ, zero, suc, ◌+◌, ◌%◌, ◌^◌, ◌<◌, ◌≤◌, some, ◌≡◌, refl, sym, ◌∙◌, ap, subst, arith,
}
use xredis_client.Ring.{Slot}
use xredis_client.Base.Int.{pos}
use xredis_client.Shared.{
  update, World, Pc, ready, start, loaded, checking, writing, half, waiting, publishing, Push,
  write_handle, write_payload, see_tail, publish, with_handle, with_payload, published, System,
  push, Reach, later,
}
use xredis_client.Shared.Invariant.{ticket}
use xredis_client.Shared.Queue.{Reach-Inv}
use native.Mathlib.Decide.{dec_lt}

module _ (cap : ℕ) where
  abbrev moved : System cap → ℕ → World → Pc → System cap
  moved x i w p = record x { world = w; pc = update x.pc i p }

  -- Steps of threads in `push` that hold a ticket; the thread of the connection does nothing.
  pub data Pushes : System cap → System cap → Type 0 where
    rest : {x : System cap} → Pushes x x
    and_step :
        {x y : System cap} (i : ℕ) {w : World} {p : Pc}
        → Push cap x.world (x.pc i) w p
        → Pushes (moved x i w p) y
        → Pushes x y

  Pushes-join : {x y z : System cap} → Pushes x y → Pushes y z → Pushes x z
  Pushes-join rest q = q
  Pushes-join (and_step i mv p) q = and_step i mv (Pushes-join p q)

  pub Pushes-Reach : {x y : System cap} → Reach cap x → Pushes x y → Reach cap y
  Pushes-Reach r rest = r
  Pushes-Reach r (and_step i mv p) = Pushes-Reach (later r (push i mv)) p

  -- The next ticket is published.
  Advanced : System cap → Type 0
  Advanced x =
      (y : System cap) × Pushes x y
      × (y.world.ring.tail ≡ x.world.ring.tail + 1)
      × (y.world.count ≡ x.world.count)

  module _ (i : ℕ) (s : Slot) (t : ℕ) where
    here : (x : System cap) (w : World) (p : Pc) → (moved x i w p).pc i ≡ p
    here x w p = ground arith

    step_first :
        (x : System cap) {w : World} {p p' : Pc}
        → x.pc i ≡ p
        → Push cap x.world p w p'
        → w.count ≡ x.world.count
        → w.ring.tail ≡ x.world.ring.tail
        → Advanced (moved x i w p')
        → Advanced x
    unfolding Advanced
    step_first x {w} {p} {p'} e mv c a (y, q, b, d) = (
      y,
      and_step i (subst (λ k. Push cap x.world k w p') (sym e) mv) q,
      b ∙ ap (λ n. n + 1) a,
      d ∙ c,
    )

    from_publishing :
        (x : System cap)
        → x.pc i ≡ publishing s t
        → x.world.ring.tail ≡ t
        → t + 1 < 2 ^ 64
        → Advanced x
    unfolding Advanced
    from_publishing x e a small = (
      moved x i (published cap x.world t) (ready (some (pos (t % cap)))),
      and_step i
          (subst (λ k. Push cap x.world k (published cap x.world t) (ready (some (pos (t % cap)))))
            (sym e) publish)
          rest,
      omega (arith, a, small),
      refl,
    )

    from_waiting :
        (x : System cap)
        → x.pc i ≡ waiting s t
        → x.world.ring.tail ≡ t
        → t + 1 < 2 ^ 64
        → Advanced x
    from_waiting x e a small = step_first x e (see_tail a) refl refl (
        from_publishing (moved x i x.world (publishing s t)) (here x x.world (publishing s t)) a
          small)

    from_half :
        (x : System cap) → x.pc i ≡ half s t → x.world.ring.tail ≡ t → t + 1 < 2 ^ 64 → Advanced x
    from_half x e a small = step_first x e write_payload refl refl (
        from_waiting (moved x i (with_payload cap x.world s t) (waiting s t))
          (here x (with_payload cap x.world s t) (waiting s t)) a small)

    from_writing :
        (x : System cap)
        → x.pc i ≡ writing s t
        → x.world.ring.tail ≡ t
        → t + 1 < 2 ^ 64
        → Advanced x
    from_writing x e a small = step_first x e write_handle refl refl (
        from_half (moved x i (with_handle cap x.world s t) (half s t))
          (here x (with_handle cap x.world s t) (half s t)) a small)

  from_holder :
      (x : System cap) (i t : ℕ) (q : Pc)
      → x.pc i ≡ q
      → ticket q ≡ some t
      → x.world.ring.tail ≡ t
      → t + 1 < 2 ^ 64
      → Advanced x
  from_holder x i t (writing s u) e h a small =
      let k : u ≡ t = ground (arith, h) in
      from_writing i s u x e (a ∙ sym k) (omega (arith, k, small))
  from_holder x i t (half s u) e h a small =
      let k : u ≡ t = ground (arith, h) in from_half i s u x e (a ∙ sym k) (omega (arith, k, small))
  from_holder x i t (waiting s u) e h a small =
      let k : u ≡ t = ground (arith, h) in
      from_waiting i s u x e (a ∙ sym k) (omega (arith, k, small))
  from_holder x i t (publishing s u) e h a small =
      let k : u ≡ t = ground (arith, h) in
      from_publishing i s u x e (a ∙ sym k) (omega (arith, k, small))
  from_holder x i t (ready code) e h a small = absurd (ground (arith, h))
  from_holder x i t (start s) e h a small = absurd (ground (arith, h))
  from_holder x i t (loaded s u) e h a small = absurd (ground (arith, h))
  from_holder x i t (checking s u v) e h a small = absurd (ground (arith, h))

  publishes_within :
      (n : ℕ) (x : System cap)
      → 0 < cap
      → Reach cap x
      → x.world.count < 2 ^ 63
      → x.world.count ≤ x.world.ring.tail + n
      → (y : System cap) × Pushes x y
        × (y.world.ring.tail ≡ y.world.count)
        × (y.world.count ≡ x.world.count)
  unfolding Advanced
  publishes_within zero x room r small h =
      (x, rest, omega (arith, h, (Reach-Inv cap room r small).shown), refl)
  publishes_within (suc n) x room r small h = elim (dec_lt x.world.ring.tail x.world.count) [
    | yes lt ↦
        let inv = Reach-Inv cap room r small in
        let (i, held) = inv.covered x.world.ring.tail (omega arith) lt in
        let (y, p, a, b) =
          from_holder x i x.world.ring.tail (x.pc i) refl held refl (omega (arith, lt, small)) in
        let (z, q, c, d) =
          publishes_within n y room (Pushes-Reach r p) (omega (arith, small, b))
            (omega (arith, h, a, b)) in
        (z, Pushes-join p q, c, d ∙ b)
    | no ge ↦ (x, rest, omega (arith, ge, (Reach-Inv cap room r small).shown), refl)
  ]

  -- The threads in `push` can, by their own steps alone, publish all that was admitted.
  pub all-published :
      (x : System cap)
      → 0 < cap
      → Reach cap x
      → x.world.count < 2 ^ 63
      → (y : System cap) × Pushes x y
        × (y.world.ring.tail ≡ y.world.count)
        × (y.world.count ≡ x.world.count)
  all-published x room r small = publishes_within x.world.count x room r small (omega arith)
