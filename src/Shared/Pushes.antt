-- ===== src/Shared/Pushes.antt =====
-- include/mpsc_ring.hpp, the shared ring: a step of `push` and the requests that are published, held
-- and admitted.
use xredis_client.Base.{
  ℕ, zero, suc, ◌+◌, ◌%◌, ◌<◌, ◌≤◌, [], ◌∷◌, ◌++◌, some, ◌≡◌, ◌≢◌, ◌⊎◌, inl, inr, refl, sym, ◌∙◌,
  ap, ap₂, subst, arith,
}
use xredis_client.Ring.{Slot}
use xredis_client.Ring.Order.{mod_ne}
use xredis_client.Shared.{
  update, World, Pc, ready, start, loaded, checking, writing, half, waiting, publishing, Cpc, Push,
  call, load_tail, load_head, refuse_stopped, win, write_handle, write_payload, publish,
  refuse_full, lose,
}
use xredis_client.Shared.Invariant.{tickets, ticket, IsFresh, Inv}
use xredis_client.Shared.Moves.{IsFresh-kept, Push-Undisturbed, Push-own, Push-Counted, win-count}
use native.Mathlib.Decide.{ℕ_discrete, dec_lt}

pub ticket-range :
    (cap : ℕ) (w : World) (q : Pc)
    → IsFresh cap w q
    → (t : ℕ) → ticket q ≡ some t
    → (w.ring.tail ≤ t) × (t < w.count)
ticket-range cap w (ready code) f t e = absurd (ground (arith, e))
ticket-range cap w (start s) f t e = absurd (ground (arith, e))
ticket-range cap w (loaded s a) f t e = absurd (ground (arith, e))
ticket-range cap w (checking s a h) f t e = absurd (ground (arith, e))
ticket-range cap w (writing s a) f t e = ground (arith, e, f.ahead, f.given)
ticket-range cap w (half s a) f t e = ground (arith, e, f.0.ahead, f.0.given)
ticket-range cap w (waiting s a) f t e = ground (arith, e, f.0.ahead, f.0.given)
ticket-range cap w (publishing s a) f t e = ground (arith, e, f.0.ahead, f.0.given)

-- Requests whose tickets are below the count stay as they are when one more is admitted.
pub tickets-same :
    (f g : ℕ → Slot) (a n : ℕ) → ((t : ℕ) → t < a + n → f t ≡ g t) → tickets f a n ≡ tickets g a n
tickets-same f g a zero h = refl
tickets-same f g a (suc n) h =
    ap₂ ◌++◌ (tickets-same f g a n (λ t k. h t (omega arith)))
      (ap (λ s. s ∷ []) (h (a + n) (omega arith)))

module _ {cap : ℕ} {w : World} {pc : ℕ → Pc} {c : Cpc} (inv : Inv cap w pc c) (i : ℕ) where
  pub Push-handles :
      {w' : World} {p p' : Pc}
      → Push cap w p w' p'
      → IsFresh cap w p
      → (t : ℕ) → w.ring.head ≤ t
      → t < w'.ring.tail
      → w'.ring.handles (t % cap) ≡ (w'.log t).handle
  Push-handles (call s) f t a b = inv.handles t a b
  Push-handles (win x y z) f t a b = ground (arith, inv.handles t a b, inv.shown)
  Push-handles (write_handle {t = t0}) f t a b =
      let d = mod_ne cap t t0 (omega (arith, f.ahead)) (omega (arith, f.given, inv.bounded)) in
      ground (arith, d, inv.handles t a b)
  Push-handles (publish {t = t0}) (o, x, y, e) t a b = elim (dec_lt t w.ring.tail) [
    | yes lt ↦ inv.handles t a lt
    | no ge ↦
        let q : t ≡ t0 = ground (arith, e, o.given, inv.few) in
        ap (λ k. w.ring.handles (k % cap)) q
        ∙ x
        ∙ ap (λ (s : Slot). s.handle) (sym o.logged ∙ ap w.log (sym q))
  ]
  Push-handles mv f t a b = inv.handles t a b

  pub Push-payloads :
      {w' : World} {p p' : Pc}
      → Push cap w p w' p'
      → IsFresh cap w p
      → (t : ℕ) → w.ring.head ≤ t
      → t < w'.ring.tail
      → w'.ring.payloads (t % cap) ≡ (w'.log t).payload
  Push-payloads (call s) f t a b = inv.payloads t a b
  Push-payloads (win x y z) f t a b = ground (arith, inv.payloads t a b, inv.shown)
  Push-payloads (write_payload {t = t0}) (o, _) t a b =
      let d = mod_ne cap t t0 (omega (arith, o.ahead)) (omega (arith, o.given, inv.bounded)) in
      ground (arith, d, inv.payloads t a b)
  Push-payloads (publish {t = t0}) (o, x, y, e) t a b = elim (dec_lt t w.ring.tail) [
    | yes lt ↦ inv.payloads t a lt
    | no ge ↦
        let q : t ≡ t0 = ground (arith, e, o.given, inv.few) in
        ap (λ k. w.ring.payloads (k % cap)) q
        ∙ y
        ∙ ap (λ (s : Slot). s.payload) (sym o.logged ∙ ap w.log (sym q))
  ]
  Push-payloads mv f t a b = inv.payloads t a b

  -- The ticket of a thread after its step is the one that it held, or a new one.
  Push-ticket :
      {w' : World} {p p' : Pc}
      → Push cap w p w' p'
      → (t : ℕ) → ticket p' ≡ some t
      → (ticket p ≡ some t) ⊎ (t ≡ w.count)
  Push-ticket (call s) t e = absurd (ground (arith, e))
  Push-ticket load_tail t e = absurd (ground (arith, e))
  Push-ticket load_head t e = absurd (ground (arith, e))
  Push-ticket (refuse_stopped a) t e = absurd (ground (arith, e))
  Push-ticket (refuse_full a b) t e = absurd (ground (arith, e))
  Push-ticket (win a b z) t e = inr (let (x, y) = win-count inv i a z in ground (arith, x, e))
  Push-ticket (lose a b) t e = absurd (ground (arith, e))
  Push-ticket publish t e = absurd (ground (arith, e))
  Push-ticket mv t e = inl e

  pub Push-unique :
      {w' : World} {p p' : Pc}
      → Push cap w p w' p'
      → pc i ≡ p
      → (a b t : ℕ) → ticket (update pc i p' a) ≡ some t
      → ticket (update pc i p' b) ≡ some t
      → a ≡ b
  Push-unique mv e a b t qa qb = ground (
    arith,
    Push-ticket mv t,
    inv.unique a b t,
    inv.unique i b t,
    inv.unique a i t,
    ticket-range cap w (pc a) (inv.fresh a) t,
    ticket-range cap w (pc b) (inv.fresh b) t,
  )

  pub Push-IsFresh :
      {w' : World} {p p' : Pc}
      → Push cap w p w' p'
      → pc i ≡ p
      → (j : ℕ) → IsFresh cap w' (update pc i p' j)
  Push-IsFresh {w'} {p} {p'} mv e j = elim (ℕ_discrete j i) [
    | yes same ↦ rw (same_pc same) (Push-own inv i mv own)
    | no other ↦ rw (other_pc other) (
        IsFresh-kept inv i (pc j) (inv.fresh j)
          (omega (arith, (Push-Counted inv i mv own).head_same))
          (λ t h.
            let (a, b) = ticket-range cap w (pc j) (inv.fresh j) t h in
            Push-Undisturbed inv i mv own t a b
              (λ t' h' same. other (inv.unique j i t h (ap ticket e ∙ h' ∙ ap some (sym same))))))
  ]
    where
      own : IsFresh cap w p
      own = subst (IsFresh cap w) e (inv.fresh i)

      same_pc : j ≡ i → update pc i p' j ≡ p'
      same_pc h = ground (arith, h)

      other_pc : j ≢ i → update pc i p' j ≡ pc j
      other_pc h = ground (arith, h)

  pub Push-log :
      {w' : World} {p p' : Pc} → Push cap w p w' p' → (t : ℕ) → t < w.count → w'.log t ≡ w.log t
  Push-log (call s) t h = refl
  Push-log (win a b e) t h = ground arith
  Push-log mv t h = refl

  -- Each ticket that is not published yet is still held.
  pub Push-covered :
      {w' : World} {p p' : Pc}
      → Push cap w p w' p'
      → pc i ≡ p
      → IsFresh cap w p
      → (t : ℕ) → w'.ring.tail ≤ t
      → t < w'.count
      → (j : ℕ) × (ticket (update pc i p' j) ≡ some t)
  Push-covered (call s) e f t a b = let (j, h) = inv.covered t a b in (j, ground arith)
  Push-covered (win x y z) e f t a b = elim (dec_lt t w.count) [
    | yes lt ↦ let (j, h) = inv.covered t a lt in (j, ground arith)
    | no ge ↦ let (u, v) = win-count inv i x z in (i, ground arith)
  ]
  Push-covered publish e (o, _, _, _) t a b =
      let (j, h) = inv.covered t (ground (arith, o.given, inv.few)) b in
      (j, ground (arith, o.given, inv.few, a))
  Push-covered mv e f t a b = let (j, h) = inv.covered t a b in (j, ground arith)
