-- ===== src/Client/Matching.antt =====
-- include/RedisClient.hpp, `reader`: which request gets which reply.
use xredis_client.Base.{
  ℕ, zero, suc, ◌+◌, ◌*◌, ◌^◌, ◌<◌, ◌≤◌, Bytes, List, [], ◌∷◌, ◌++◌, ◌≡◌, refl, sym, ap, ap₂, subst,
  length-take, length-drop, ◌∙◌, length, take, drop, take-append-drop, append_assoc, arith,
}
use native.Mathlib.Nat.{add-mul, suc-mul}
use xredis_client.Outcome.{Error, Result, suspended}
use xredis_client.Value.{Value}
use xredis_client.Parser.{Parser}
use xredis_client.Parser.Replies.{parse, try_parse_n}
use xredis_client.Parser.Stream.{Ready}
use xredis_client.Parser.Batches.{encode_all, AllEncodable}
use xredis_client.Parser.Idle.{parse-idle, parse-next, batch-Ready}
use xredis_client.Ring.{Slot, Ring}
use xredis_client.Ring.Queue.{IsValid, waiting}
use xredis_client.Client.Reader.{
  batch_size, Pipe, deliver, deliver_all, after_batch, after_reply, reader,
}
use xredis_client.Client.Served.{
  OnlyPushes, Served, Served-none, Served-join, deliver-Served, deliver_all-Served,
}

same-length :
    {A B : Type 0} (n : ℕ) (xs : List A) (ys : List B)
    → length xs ≡ length ys
    → length (take n xs) ≡ length (take n ys)
same-length n xs ys h = omega (arith, h, length-take n xs, length-take n ys)

module _ {D : Type 0} (show : D → Bytes) (stod_view : Bytes → Result D) (max_elements cap : ℕ)
    (run : ℕ → Value D → Ring → Ring) where
  module _ (most : ℕ) (k : OnlyPushes stod_view max_elements cap run most) where
    split_mul :
        (n : ℕ) (vs : List (Value D))
        → length vs * most ≡ length (take n vs) * most + length (drop n vs) * most
    split_mul n vs =
        let e : length vs ≡ length (take n vs) + length (drop n vs) =
          omega (arith, length-take n vs, length-drop n vs) in
        ap (λ m. m * most) e ∙ add-mul (length (take n vs)) (length (drop n vs)) most

    Served-parser :
        (p q : Pipe D) (t : Parser) (ws rest : List Slot) (vs : List (Value D))
        → Served stod_view max_elements cap run most (record p { parser = t }) q ws rest vs
        → Served stod_view max_elements cap run most p q ws rest vs
    Served-parser p q t ws rest vs a = record {
      resumed = a.resumed;
      valid = a.valid;
      head_moved = a.head_moved;
      committed_same = a.committed_same;
      few = a.few;
      waits = a.waits;
    }

    AllEncodable-drop :
        (n : ℕ) (vs : List (Value D))
        → AllEncodable show stod_view max_elements vs
        → AllEncodable show stod_view max_elements (drop n vs)
    AllEncodable-drop zero vs h = h
    AllEncodable-drop (suc n) [] h = h
    AllEncodable-drop (suc n) (v ∷ vs) h = AllEncodable-drop n vs h.1

    deliver_all-parser :
        (vs : List (Value D)) (p : Pipe D)
        → (deliver_all stod_view max_elements cap run vs p).parser ≡ p.parser
    unfolding deliver_all deliver
    deliver_all-parser [] p = refl
    deliver_all-parser (v ∷ vs) p =
        deliver_all-parser vs (deliver stod_view max_elements cap run v p)

    -- One round: a reply that `parse` waits for, and the batch behind it.
    Round : Pipe D → Value D → List (Value D) → Slot → List Slot → List Slot → Type 0
    Round p x vs w ws rest =
        (q : Pipe D) × ((next : Pipe D → Error × Pipe D)
          → after_reply stod_view max_elements cap run next p
              (parse stod_view max_elements p.parser)
            ≡ next q)
        × Served stod_view max_elements cap run most p q (w ∷ take batch_size ws)
            (drop batch_size ws ++ rest) (x ∷ take batch_size vs)
        × Ready q.parser (encode_all show stod_view max_elements (drop batch_size vs))

    round :
        (x : Value D) (vs : List (Value D)) (p : Pipe D) (w : Slot) (ws rest : List Slot)
        → AllEncodable show stod_view max_elements (x ∷ vs)
        → Ready p.parser (encode_all show stod_view max_elements (x ∷ vs))
        → IsValid cap p.ring
        → p.ring.head + suc (length vs) ≤ p.ring.head_committed
        → waiting cap p.ring ≡ w ∷ (ws ++ rest)
        → length ws ≡ length vs
        → p.ring.tail + suc (length vs) * most < 2 ^ 63
        → Round p x vs w ws rest
    unfolding Round after_reply after_batch deliver try_parse_n
    round x vs p w ws rest h r v lt e l small =
        let all = suc-mul (length vs) most in
        let parts = split_mul batch_size vs in
        let (t, parsed, ahead) = parse-next show stod_view max_elements x p.parser _ h.0 r in
        let p1 = record p { parser = t } in
        let q1 = deliver stod_view max_elements cap run x p1 in
        let a =
          deliver-Served stod_view max_elements cap run most k x p1 w (ws ++ rest) v
            (omega (arith, lt)) e (omega (arith, small, all)) in
        let few : q1.ring.tail ≤ p.ring.tail + most = omega (arith, a.few) in
        let (more, u) = a.waits in
        let (t', batched, ahead') =
          batch-Ready show stod_view max_elements batch_size vs [] t h.1 ahead in
        let p2 = record q1 { parser = t' } in
        let q2 = deliver_all stod_view max_elements cap run (take batch_size vs) p2 in
        let split : ws ++ rest ≡ take batch_size ws ++ (drop batch_size ws ++ rest) =
          ap (λ z. z ++ rest) (sym (take-append-drop batch_size ws))
          ∙ append_assoc (take batch_size ws) (drop batch_size ws) rest in
        let b =
          deliver_all-Served stod_view max_elements cap run most k (take batch_size vs) p2
            (take batch_size ws) ((drop batch_size ws ++ rest) ++ more) a.valid
            (omega (arith, lt, a.head_moved, a.committed_same, length-take batch_size vs))
            (u
              ∙ ap (λ z. z ++ more) split
              ∙ append_assoc (take batch_size ws) (drop batch_size ws ++ rest) more)
            (same-length batch_size ws vs l) (omega (arith, small, all, parts, few)) in
        (
          q2,
          (λ next.
              ap (after_reply stod_view max_elements cap run next p) parsed
              ∙ ap (after_batch stod_view max_elements cap run next q1) batched),
          Served-join stod_view max_elements cap run most p q1 q2 (w ∷ []) (take batch_size ws)
              (drop batch_size ws ++ rest) more (x ∷ []) (take batch_size vs) refl
              (Served-parser p q1 t _ _ _ (
                subst (λ z. Served stod_view max_elements cap run most p1 q1 (w ∷ []) z (x ∷ []))
                  split a))
              (Served-parser q1 q2 t' _ _ _ b),
          subst (λ z. Ready z (encode_all show stod_view max_elements (drop batch_size vs)))
              (sym (deliver_all-parser (take batch_size vs) p2)) ahead',
        )

    -- The reader waits in the state `q`, where all bytes were read.
    Waits : ℕ → Pipe D → List Slot → List Slot → List (Value D) → Type 0
    Waits fuel p ws rest vs =
        (q : Pipe D) × (reader stod_view max_elements cap run fuel p ≡ (suspended, q))
        × Served stod_view max_elements cap run most p q ws rest vs
        × Ready q.parser []

    reader-rounds :
        (fuel : ℕ) (vs : List (Value D)) (p : Pipe D) (ws rest : List Slot)
        → length vs < fuel
        → AllEncodable show stod_view max_elements vs
        → Ready p.parser (encode_all show stod_view max_elements vs)
        → IsValid cap p.ring
        → p.ring.head + length vs ≤ p.ring.head_committed
        → waiting cap p.ring ≡ ws ++ rest
        → length ws ≡ length vs
        → p.ring.tail + length vs * most < 2 ^ 63
        → Waits fuel p ws rest vs
    unfolding Waits Round reader after_reply after_batch
    reader-rounds zero vs p ws rest f h r v lt e l small = absurd (omega (arith, f))
    reader-rounds (suc fuel) [] p [] rest f h r v lt e l small = (
      p,
      ap (after_reply stod_view max_elements cap run (reader stod_view max_elements cap run fuel) p)
          (parse-idle show stod_view max_elements p.parser r),
      Served-none stod_view max_elements cap run most p rest v e,
      r,
    )
    reader-rounds (suc fuel) (x ∷ vs) p (w ∷ ws) rest f h r v lt e l small =
        let (q, goes, a, ahead) = round x vs p w ws rest h r v lt e (omega (arith, l)) small in
        let (more, u) = a.waits in
        let (s, waits, b, last) =
          reader-rounds fuel (drop batch_size vs) q (drop batch_size ws) (rest ++ more)
            (omega (arith, f, length-drop batch_size vs)) (AllEncodable-drop batch_size vs h.1)
            ahead a.valid
            (omega (
              arith,
              lt,
              a.head_moved,
              a.committed_same,
              length-take batch_size vs,
              length-drop batch_size vs,
            ))
            (u ∙ append_assoc (drop batch_size ws) rest more)
            (omega (arith, l, length-drop batch_size ws, length-drop batch_size vs))
            (omega (
              arith,
              small,
              suc-mul (length vs) most,
              suc-mul (length (take batch_size vs)) most,
              split_mul batch_size vs,
              a.few,
            )) in
        (
          s,
          goes (reader stod_view max_elements cap run fuel) ∙ waits,
          subst
              (λ (z : List Slot × List (Value D)).
                Served stod_view max_elements cap run most p s (w ∷ z.0) rest (x ∷ z.1))
              (ap₂ (λ y z. (y, z)) (take-append-drop batch_size ws)
                (take-append-drop batch_size vs))
              (Served-join stod_view max_elements cap run most p q s (w ∷ take batch_size ws)
                (drop batch_size ws) rest more (x ∷ take batch_size vs) (drop batch_size vs)
                (ap suc (same-length batch_size ws vs (omega (arith, l)))) a b),
          last,
        )
    reader-rounds (suc fuel) [] p (w ∷ ws) rest f h r v lt e l small = absurd (omega (arith, l))
    reader-rounds (suc fuel) (x ∷ vs) p [] rest f h r v lt e l small = absurd (omega (arith, l))

    -- Suppose that the replies `vs` lie ahead, in whatever packets, each call of recv giving bytes until
    -- all of them came, within the limit of a bulk, and that in the well-formed ring as many requests `ws`, all of them written,
    -- wait before `rest`. Suppose further that each coroutine that is resumed does no more to the ring
    -- than push, `most` requests at most, and that with these the ring counts to less than 2^63. Then
    -- the reader gives each of `ws` its reply, in the order in which both came, and waits with
    -- nothing ahead; `rest` waits still, with what was pushed since and found room. One round more than
    -- there are replies is enough.
    pub reader-answers :
        (fuel : ℕ) (vs : List (Value D)) (p : Pipe D) (ws rest : List Slot)
        → length vs < fuel
        → AllEncodable show stod_view max_elements vs
        → Ready p.parser (encode_all show stod_view max_elements vs)
        → IsValid cap p.ring
        → p.ring.head + length vs ≤ p.ring.head_committed
        → waiting cap p.ring ≡ ws ++ rest
        → length ws ≡ length vs
        → p.ring.tail + length vs * most < 2 ^ 63
        → (q : Pipe D) × (reader stod_view max_elements cap run fuel p ≡ (suspended, q))
          × Served stod_view max_elements cap run most p q ws rest vs
          × Ready q.parser []
    unfolding Waits
    reader-answers fuel vs p ws rest f h r v lt e l small =
        reader-rounds fuel vs p ws rest f h r v lt e l small
