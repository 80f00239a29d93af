-- ===== src/Client/Served.antt =====
-- include/RedisClient.hpp, `reader`: what one reply and a list of replies do to the pipe.
use xredis_client.Base.{
  ℕ, suc, ◌+◌, ◌*◌, ◌^◌, ◌<◌, ◌≤◌, Bytes, List, [], ◌∷◌, ◌++◌, ◌≡◌, refl, sym, ap, subst, ◌∙◌,
  length, length-append, append-nil, append_assoc, arith,
}
use native.Mathlib.Nat.{add-mul, suc-mul}
use xredis_client.Outcome.{Result}
use xredis_client.Value.{Value}
use xredis_client.Ring.{Slot, Ring, pop}
use xredis_client.Ring.Queue.{IsValid, waiting, pop-queue, PushedTo}
use xredis_client.Ring.Many.{push_all, push_all-PushedTo}
use xredis_client.Client.Reader.{Pipe, deliver, deliver_all}

-- The requests with their replies.
abbrev pub answers : {D : Type 0} → List Slot → List (Value D) → List (ℕ × Value D)
answers [] vs = []
answers (s ∷ ss) [] = []
answers (s ∷ ss) (v ∷ vs) = (s.handle, v) ∷ answers ss vs

module _ {D : Type 0} (stod_view : Bytes → Result D) (max_elements cap : ℕ)
    (run : ℕ → Value D → Ring → Ring) where
  -- A coroutine that runs until it waits again may push requests, `most` of them at most.
  pub record OnlyPushes (most : ℕ) : Type 0 where
    pub pushes :
        (h : ℕ) (v : Value D) (r : Ring)
        → (ss : List Slot) × (length ss ≤ most) × (run h v r ≡ push_all cap r ss)

  -- From `p` to `q` the requests `ws` got the replies `vs`; `rest` still waits, with what came since.
  pub record Served (most : ℕ) (p q : Pipe D) (ws rest : List Slot) (vs : List (Value D))
      : Type 0 where
    pub resumed : q.resumed ≡ p.resumed ++ answers ws vs
    pub valid : IsValid cap q.ring
    pub head_moved : q.ring.head ≡ p.ring.head + length vs
    pub committed_same : q.ring.head_committed ≡ p.ring.head_committed
    pub few : q.ring.tail ≤ p.ring.tail + length vs * most
    pub waits : (more : List Slot) × (waiting cap q.ring ≡ rest ++ more)

  cons-injective :
      {x y : Slot} {xs ys : List Slot} → ◌≡◌ {A = List Slot} (x ∷ xs) (y ∷ ys) → (x ≡ y) × (xs ≡ ys)
  cons-injective e = (cc, cc)

  pop-head :
      (r : Ring)
      → IsValid cap r
      → r.head < r.head_committed
      → ((pop cap r).1.head ≡ r.head + 1) × ((pop cap r).1.head_committed ≡ r.head_committed)
  unfolding pop
  pop-head r v lt = (omega (arith, v, lt), refl)

  answers-append :
      (ws us : List Slot) (vs xs : List (Value D))
      → length ws ≡ length vs
      → answers (ws ++ us) (vs ++ xs) ≡ answers ws vs ++ answers us xs
  answers-append [] us [] xs h = refl
  answers-append (w ∷ ws) us (v ∷ vs) xs h =
      ap (◌∷◌ (w.handle, v)) (answers-append ws us vs xs (omega (arith, h)))
  answers-append [] us (v ∷ vs) xs h = absurd (omega (arith, h))
  answers-append (w ∷ ws) us [] xs h = absurd (omega (arith, h))

  pub Served-none :
      (most : ℕ) (p : Pipe D) (rest : List Slot)
      → IsValid cap p.ring
      → waiting cap p.ring ≡ rest
      → Served most p p [] rest []
  Served-none most p rest v e = record {
    resumed = sym (append-nil p.resumed);
    valid = v;
    head_moved = omega arith;
    committed_same = refl;
    few = omega arith;
    waits = ([], e ∙ sym (append-nil rest));
  }

  pub Served-join :
      (most : ℕ) (p q s : Pipe D) (ws us rest more : List Slot) (vs xs : List (Value D))
      → length ws ≡ length vs
      → Served most p q ws (us ++ rest) vs
      → Served most q s us (rest ++ more) xs
      → Served most p s (ws ++ us) rest (vs ++ xs)
  Served-join most p q s ws us rest more vs xs h a b = record {
    resumed =
        b.resumed
        ∙ ap (λ l. l ++ answers us xs) a.resumed
        ∙ append_assoc p.resumed (answers ws vs) (answers us xs)
        ∙ ap (◌++◌ p.resumed) (sym (answers-append ws us vs xs h));
    valid = b.valid;
    head_moved = omega (arith, a.head_moved, b.head_moved, length-append vs xs);
    committed_same = b.committed_same ∙ a.committed_same;
    few = omega (
      arith,
      a.few,
      b.few,
      ap (λ n. n * most) (length-append vs xs),
      add-mul (length vs) (length xs) most,
    );
    waits = (more ++ b.waits.0, b.waits.1 ∙ append_assoc rest more b.waits.0);
  }

  pop-tail : (r : Ring) → (pop cap r).1.tail ≡ r.tail
  unfolding pop
  pop-tail r = refl

  module _ (most : ℕ) (k : OnlyPushes most) where
    pub deliver-Served :
        (v : Value D) (p : Pipe D) (s : Slot) (rest : List Slot)
        → IsValid cap p.ring
        → p.ring.head < p.ring.head_committed
        → waiting cap p.ring ≡ s ∷ rest
        → p.ring.tail + most < 2 ^ 63
        → Served most p (deliver stod_view max_elements cap run v p) (s ∷ []) rest (v ∷ [])
    unfolding deliver
    deliver-Served v p s rest ok_ring lt e small =
        let (q, _, valid) = pop-queue cap p.ring ok_ring lt in
        let (n, m) = pop-head p.ring ok_ring lt in
        let (a, b) = cons-injective (sym q ∙ e) in
        let (h, r) = pop cap p.ring in
        let (ss, l, same) = k.pushes h.handle v r in
        let t : r.tail ≡ p.ring.tail = pop-tail p.ring in
        let to =
          subst (λ x. PushedTo cap r x (length ss)) (sym same)
            (push_all-PushedTo cap ss r valid (omega (arith, l, t, small))) in
        record {
          resumed = ap (λ (x : Slot). p.resumed ++ ((x.handle, v) ∷ [])) a;
          valid = to.valid;
          head_moved = to.head_same ∙ n;
          committed_same = to.committed_same ∙ m;
          few = omega (arith, to.few, l, t);
          waits = (to.waits.0, to.waits.1 ∙ ap (λ l. l ++ to.waits.0) b);
        }

    pub deliver_all-Served :
        (vs : List (Value D)) (p : Pipe D) (ws rest : List Slot)
        → IsValid cap p.ring
        → p.ring.head + length vs ≤ p.ring.head_committed
        → waiting cap p.ring ≡ ws ++ rest
        → length ws ≡ length vs
        → p.ring.tail + length vs * most < 2 ^ 63
        → Served most p (deliver_all stod_view max_elements cap run vs p) ws rest vs
    unfolding deliver_all
    deliver_all-Served [] p [] rest v lt e h small = Served-none most p rest v e
    deliver_all-Served (x ∷ vs) p (w ∷ ws) rest v lt e h small =
        let n : suc (length vs) * most ≡ length vs * most + most = suc-mul (length vs) most in
        let a =
          deliver-Served x p w (ws ++ rest) v (omega (arith, lt)) e (omega (arith, small, n)) in
        let (more, u) = a.waits in
        let b =
          deliver_all-Served vs _ ws (rest ++ more) a.valid
            (omega (arith, lt, a.head_moved, a.committed_same)) (u ∙ append_assoc ws rest more)
            (omega (arith, h)) (omega (arith, small, n, a.few)) in
        Served-join most p _ _ (w ∷ []) ws rest more (x ∷ []) vs refl a b
    deliver_all-Served [] p (w ∷ ws) rest v lt e h small = absurd (omega (arith, h))
    deliver_all-Served (x ∷ vs) p [] rest v lt e h small = absurd (omega (arith, h))
