-- ===== src/Shared/Moves.antt =====
-- include/mpsc_ring.hpp, the shared ring: a step of `push` keeps each part of the invariant.
use xredis_client.Base.{ℕ, ◌+◌, ◌%◌, ◌<◌, ◌≤◌, some, ◌≡◌, ◌≢◌, refl, sym, ◌∙◌, false, arith}
use xredis_client.Ring.{Slot, is_stopped}
use xredis_client.Ring.Order.{mod_ne}
use xredis_client.Shared.{
  World, Pc, ready, start, loaded, checking, writing, half, waiting, publishing, Cpc, Push, call,
  load_tail, load_head, refuse_stopped, win, write_handle, write_payload, publish, see_tail,
  refuse_full, lose, relax,
}
use xredis_client.Shared.Invariant.{ticket, stop_bit, Owns, IsFresh, Inv}
use native.Mathlib.Decide.{dec_lt}

module _ {cap : ℕ} {w : World} {pc : ℕ → Pc} {c : Cpc} (inv : Inv cap w pc c) (i : ℕ) where
  -- What a step does not do to the cell and the request of a ticket that its thread does not hold.
  pub record Undisturbed (w' : World) (t : ℕ) : Type 0 where
    pub tail_below : w'.ring.tail ≤ t
    pub tail_kept : w.ring.tail ≡ t → w'.ring.tail ≡ t
    pub count_kept : w.count ≤ w'.count
    pub log_kept : w'.log t ≡ w.log t
    pub handle_kept : w'.ring.handles (t % cap) ≡ w.ring.handles (t % cap)
    pub payload_kept : w'.ring.payloads (t % cap) ≡ w.ring.payloads (t % cap)

  Owns-kept : {w' : World} {s : Slot} {t : ℕ} → Undisturbed w' t → Owns cap w s t → Owns cap w' s t
  Owns-kept u o = record {
    ahead = u.tail_below;
    given = omega (arith, u.count_kept, o.given);
    logged = u.log_kept ∙ o.logged;
  }

  pub IsFresh-kept :
      {w' : World} (q : Pc)
      → IsFresh cap w q
      → w.ring.head ≤ w'.ring.head
      → ((t : ℕ) → ticket q ≡ some t → Undisturbed w' t)
      → IsFresh cap w' q
  IsFresh-kept (ready code) f h u = tt
  IsFresh-kept (start s) f h u = tt
  IsFresh-kept (loaded s t) f h u = tt
  IsFresh-kept (checking s t h_loaded) f h u = omega arith
  IsFresh-kept (writing s t) f h u = Owns-kept (u t refl) f
  IsFresh-kept (half s t) (o, x) h u = (Owns-kept (u t refl) o, (u t refl).handle_kept ∙ x)
  IsFresh-kept (waiting s t) (o, x, y) h u =
      (Owns-kept (u t refl) o, (u t refl).handle_kept ∙ x, (u t refl).payload_kept ∙ y)
  IsFresh-kept (publishing s t) (o, x, y, e) h u = (
    Owns-kept (u t refl) o,
    (u t refl).handle_kept ∙ x,
    (u t refl).payload_kept ∙ y,
    (u t refl).tail_kept e,
  )

  -- Two tickets that are held have different cells.
  pub apart :
      (t t' : ℕ)
      → w.ring.tail ≤ t
      → t < w.count
      → w.ring.tail ≤ t'
      → t' < w.count
      → t ≢ t'
      → t % cap ≢ t' % cap
  apart t t' a b a' b' ne e = elim (dec_lt t t') [
    | yes lt ↦ mod_ne cap t t' lt (omega (arith, inv.bounded, inv.sent, inv.known)) e
    | no ge ↦
        mod_ne cap t' t (omega arith) (omega (arith, inv.bounded, inv.sent, inv.known)) (sym e)
  ]

  pub Push-Undisturbed :
      {w' : World} {p p' : Pc}
      → Push cap w p w' p'
      → IsFresh cap w p
      → (t : ℕ) → w.ring.tail ≤ t
      → t < w.count
      → ((t' : ℕ) → ticket p ≡ some t' → t ≢ t')
      → Undisturbed w' t
  Push-Undisturbed (call s) f t a b ne = record {
    tail_below = a;
    tail_kept = λ x. x;
    count_kept = omega arith;
    log_kept = refl;
    handle_kept = refl;
    payload_kept = refl;
  }
  Push-Undisturbed (win x y z) f t a b ne = record {
    tail_below = a;
    tail_kept = λ x. x;
    count_kept = omega arith;
    log_kept = ground arith;
    handle_kept = refl;
    payload_kept = refl;
  }
  Push-Undisturbed (write_handle {s} {t = t0}) f t a b ne =
      let d = apart t t0 a b f.ahead f.given (ne t0 refl) in
      record {
        tail_below = a;
        tail_kept = λ x. x;
        count_kept = omega arith;
        log_kept = refl;
        handle_kept = ground (arith, d);
        payload_kept = refl;
      }
  Push-Undisturbed (write_payload {s} {t = t0}) f t a b ne =
      let d = apart t t0 a b f.0.ahead f.0.given (ne t0 refl) in
      record {
        tail_below = a;
        tail_kept = λ x. x;
        count_kept = omega arith;
        log_kept = refl;
        handle_kept = refl;
        payload_kept = ground (arith, d);
      }
  Push-Undisturbed (publish {s} {t = t0}) (o, x, y, e) t a b ne =
      let d = ne t0 refl in
      record {
        tail_below = ground (arith, e, o.given, inv.few);
        tail_kept = λ z. absurd (d (sym z ∙ e));
        count_kept = omega arith;
        log_kept = refl;
        handle_kept = refl;
        payload_kept = refl;
      }
  Push-Undisturbed mv f t a b ne = record {
    tail_below = a;
    tail_kept = λ x. x;
    count_kept = omega arith;
    log_kept = refl;
    handle_kept = refl;
    payload_kept = refl;
  }

  pub win-count :
      {t : ℕ} → is_stopped t ≡ false → w.ring.tail_allocated ≡ t → (t ≡ w.count) × (stop_bit c ≡ 0)
  win-count a e = ground (arith, a, e, inv.few, inv.allocated)

  pub Push-own : {w' : World} {p p' : Pc} → Push cap w p w' p' → IsFresh cap w p → IsFresh cap w' p'
  Push-own (call s) f = tt
  Push-own load_tail f = tt
  Push-own load_head f = omega arith
  Push-own (refuse_stopped a) f = tt
  Push-own (refuse_full a b) f = tt
  Push-own (win a b e) f =
      let (x, y) = win-count a e in
      record {
        ahead = omega (arith, x, inv.shown);
        given = omega (arith, x);
        logged = ground (arith, x);
      }
  Push-own (lose a b) f = tt
  Push-own write_handle f =
      (record { ahead = f.ahead; given = f.given; logged = f.logged }, ground arith)
  Push-own write_payload (o, x) =
      (record { ahead = o.ahead; given = o.given; logged = o.logged }, x, ground arith)
  Push-own (relax a) f = f
  Push-own (see_tail e) (o, x, y) = (o, x, y, e)
  Push-own publish f = tt

  -- What a thread in `push` does to the counters.
  pub record Counted (w' : World) : Type 0 where
    pub allocated : w'.ring.tail_allocated ≡ w'.count + stop_bit c
    pub head_same : w'.ring.head ≡ w.ring.head
    pub committed_same : w'.ring.head_committed ≡ w.ring.head_committed
    pub tail_grows : w.ring.tail ≤ w'.ring.tail
    pub shown : w'.ring.tail ≤ w'.count
    pub bounded : w'.count ≤ w'.ring.head + cap
    pub grows : w.count ≤ w'.count

  pub Push-Counted : {w' : World} {p p' : Pc} → Push cap w p w' p' → IsFresh cap w p → Counted w'
  Push-Counted (call s) f = record {
    allocated = inv.allocated;
    head_same = refl;
    committed_same = refl;
    tail_grows = omega arith;
    shown = inv.shown;
    bounded = inv.bounded;
    grows = omega arith;
  }
  Push-Counted (win a b e) f =
      let (x, y) = win-count a e in
      record {
        allocated = omega (arith, x, y, inv.few);
        head_same = refl;
        committed_same = refl;
        tail_grows = omega arith;
        shown = omega (arith, inv.shown);
        bounded = ground (arith, x, f, b, inv.sent, inv.known, inv.shown, inv.few);
        grows = omega arith;
      }
  Push-Counted (publish {t}) (o, x, y, e) = record {
    allocated = inv.allocated;
    head_same = refl;
    committed_same = refl;
    tail_grows = ground (arith, e, o.given, inv.few);
    shown = ground (arith, e, o.given, inv.few);
    bounded = inv.bounded;
    grows = omega arith;
  }
  Push-Counted mv f = record {
    allocated = inv.allocated;
    head_same = refl;
    committed_same = refl;
    tail_grows = omega arith;
    shown = inv.shown;
    bounded = inv.bounded;
    grows = omega arith;
  }
