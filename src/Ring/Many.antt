-- ===== src/Ring/Many.antt =====
-- include/mpsc_ring.hpp, the ring that one thread uses: several calls of `push`, one after the other.
use xredis_client.Base.{
  ℕ, ◌+◌, ◌^◌, ◌≤◌, ◌<◌, List, [], ◌∷◌, ◌++◌, length, ◌≡◌, inl, inr, refl, sym, ◌∙◌, ap, subst,
  append-nil, append_assoc, length-append, arith,
}
use xredis_client.Ring.{Slot, Ring, push}
use xredis_client.Ring.Queue.{IsValid, waiting, push-queue, PushedTo, push-PushedTo}

module _ (cap : ℕ) where
  abbrev pub push_all : Ring → List Slot → Ring
  push_all r [] = r
  push_all r (s ∷ ss) = push_all (push cap r s).1 ss

  pub push_all-append :
      (ss us : List Slot) (r : Ring) → push_all r (ss ++ us) ≡ push_all (push_all r ss) us
  push_all-append [] us r = refl
  push_all-append (s ∷ ss) us r = push_all-append ss us (push cap r s).1

  pub PushedTo-join :
      (r r' r'' : Ring) (n m : ℕ)
      → PushedTo cap r r' n
      → PushedTo cap r' r'' m
      → PushedTo cap r r'' (n + m)
  PushedTo-join r r' r'' n m a b = record {
    valid = b.valid;
    head_same = b.head_same ∙ a.head_same;
    committed_same = b.committed_same ∙ a.committed_same;
    few = omega (arith, a.few, b.few);
    waits = (
      a.waits.0 ++ b.waits.0,
      b.waits.1
          ∙ ap (λ l. l ++ b.waits.0) a.waits.1
          ∙ append_assoc (waiting cap r) a.waits.0 b.waits.0,
    );
  }

  pub push_all-PushedTo :
      (ss : List Slot) (r : Ring)
      → IsValid cap r
      → r.tail + length ss < 2 ^ 63
      → PushedTo cap r (push_all r ss) (length ss)
  push_all-PushedTo [] r v k = record {
    valid = v;
    head_same = refl;
    committed_same = refl;
    few = omega arith;
    waits = ([], sym (append-nil (waiting cap r)));
  }
  push_all-PushedTo (s ∷ ss) r v k =
      let a = push-PushedTo cap r s v (omega (arith, k)) in
      let e : 1 + length ss ≡ length (s ∷ ss) = omega arith in
      subst (PushedTo cap r (push_all (push cap r s).1 ss)) e (
        PushedTo-join r (push cap r s).1 (push_all (push cap r s).1 ss) 1 (length ss) a
          (push_all-PushedTo ss (push cap r s).1 a.valid (omega (arith, k, a.few))))

  -- As long as there is room, all of them wait.
  pub push_all-queue :
      (ss : List Slot) (r : Ring)
      → IsValid cap r
      → r.tail + length ss < 2 ^ 63
      → length (waiting cap r) + length ss ≤ cap
      → waiting cap (push_all r ss) ≡ waiting cap r ++ ss
  push_all-queue [] r v k room = sym (append-nil (waiting cap r))
  push_all-queue (s ∷ ss) r v k room = elim (push-queue cap r s v (omega (arith, k))) [
    | inl (a, b, c, d) ↦
        push_all-queue ss (push cap r s).1 d
          (omega (arith, k, (push-PushedTo cap r s v (omega (arith, k))).few))
          (omega (arith, room, ap length b, length-append (waiting cap r) (s ∷ [])))
        ∙ ap (λ l. l ++ ss) b
        ∙ append_assoc (waiting cap r) (s ∷ []) ss
    | inr (a, b) ↦ absurd (omega (arith, a, room))
  ]
