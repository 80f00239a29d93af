-- ===== src/Parser/Idle.antt =====
-- The parser when fewer replies lie ahead than are asked for: nothing, or a batch that is not full.
use xredis_client.Base.{
  ℕ, zero, suc, ◌≤◌, Bytes, List, [], ◌∷◌, ◌++◌, none, ◌≡◌, refl, sym, ap, ◌∙◌, length, length-drop,
  take, drop, append_assoc, append-nil, arith,
}
use xredis_client.Outcome.{Error, Result, ok, err, eagain, suspended}
use xredis_client.Value.{Value}
use xredis_client.Parser.{
  Parser, Recv, got, would_block, fails, find_from, read_line_loop, read_line_or, consume,
}
use xredis_client.Parser.Replies.{
  continue, parse_recursion_or, parse_recursion, try_parse_recursion, parse, consume_if_ok,
  fuel_for, delivered, try_parse_n_from, next_in_batch, stop_batch,
}
use xredis_client.Parser.Stream.{Ready, Flowing}
use xredis_client.Parser.Encode.{encode, IsEncodable}
use xredis_client.Parser.RoundTrip.{parse_recursion-encode}
use xredis_client.Parser.Replay.{enough_fuel}
use xredis_client.Parser.Batches.{encode_all, AllEncodable, step}

find_from-beyond : (c i : ℕ) (xs : Bytes) → length xs ≤ i → find_from c i xs ≡ none
unfolding find_from
find_from-beyond c i [] h = refl
find_from-beyond c zero (x ∷ xs) h = absurd (omega arith)
find_from-beyond c (suc i) (x ∷ xs) h = rw (find_from-beyond c i xs (omega arith)) refl

nothing_incoming : (inc : List Recv) → Flowing inc → delivered inc ≡ [] → inc ≡ []
unfolding delivered
nothing_incoming [] f e = refl
nothing_incoming (got [] ∷ rest) f e = absurd (f.0 refl)
nothing_incoming (got (b ∷ bs) ∷ rest) f e = absurd (omega (arith, ap length e))
nothing_incoming (would_block ∷ rest) f e = absurd f
nothing_incoming (fails x ∷ rest) f e = absurd f

empty_left : (xs ys : Bytes) → xs ++ ys ≡ [] → (xs ≡ []) × (ys ≡ [])
empty_left [] ys e = (refl, e)
empty_left (x ∷ xs) ys e = absurd (omega (arith, ap length e))

-- With nothing ahead the socket has nothing more, and the position is at the end of the buffer.
record Empty (s : Parser) : Type 0 where
  no_more : s.incoming ≡ []
  at_end : length s.linebuffer ≤ s.position

Ready-Empty : (s : Parser) → Ready s [] → Empty s
Ready-Empty s r =
    let (x, y) = empty_left (drop s.position s.linebuffer) (delivered s.incoming) r.ahead in
    record {
      no_more = nothing_incoming s.incoming r.flowing y;
      at_end = omega (arith, ap length x, length-drop s.position s.linebuffer);
    }

idle_line :
    (idle : Error) (inc : List Recv) (p : ℕ) (buf : Bytes)
    → inc ≡ []
    → length buf ≤ p
    → read_line_loop idle inc p buf p
      ≡ (err idle, record { linebuffer = buf; position = p; incoming = inc })
unfolding read_line_loop
idle_line idle [] p buf e h = rw (find_from-beyond b'\n' p buf h, read_line_loop) refl
idle_line idle (x ∷ inc) p buf e h = absurd (omega (arith, ap length e))

consume-Ready : (s : Parser) (bytes : Bytes) → Ready s bytes → Ready (consume s) bytes
unfolding consume
consume-Ready s bytes r = record {
  inside = omega arith;
  ahead = r.ahead;
  flowing = r.flowing;
  small = omega (arith, r.small, length-drop s.position s.linebuffer);
}

module _ {D : Type 0} (show : D → Bytes) (stod_view : Bytes → Result D) (max_elements : ℕ) where
  idle_recursion :
      (idle : Error) (f : ℕ) (s : Parser)
      → Empty s
      → parse_recursion_or stod_view max_elements idle (suc f) s ≡ (err idle, s)
  unfolding parse_recursion_or read_line_or
  idle_recursion idle f s e =
      rw (idle_line idle s.incoming s.position s.linebuffer e.no_more e.at_end, continue) refl

  -- `parse` waits where nothing is ahead.
  pub parse-idle : (s : Parser) → Ready s [] → (parse stod_view max_elements s ≡ (err suspended, s))
  unfolding parse parse_recursion consume_if_ok fuel_for
  parse-idle s r = ap consume_if_ok (idle_recursion suspended _ s (Ready-Empty s r))

  pub parse-next :
      (v : Value D) (s : Parser) (rest : Bytes)
      → IsEncodable show stod_view max_elements v
      → Ready s (encode show v ++ rest)
      → (t : Parser) × (parse stod_view max_elements s ≡ (ok v, t)) × Ready t rest
  unfolding parse parse_recursion consume_if_ok
  parse-next v s rest h r =
      let (t, e, ready) =
        parse_recursion-encode show stod_view max_elements suspended v (fuel_for s) s rest h
          (enough_fuel show stod_view max_elements v s rest r) r in
      (consume t, ap consume_if_ok e, consume-Ready t rest ready)

  -- The batch ends where nothing is ahead.
  end :
      (n : ℕ) (done : List (Value D)) (s : Parser)
      → Empty s
      → try_parse_n_from stod_view max_elements (suc n) done s
        ≡ (record { values = done; error = none }, consume s)
  unfolding try_parse_n_from try_parse_recursion consume
  end n done s e =
      ap (next_in_batch (try_parse_n_from stod_view max_elements n) done s.position)
        (idle_recursion eagain _ s e)
      ∙ refl

  pub batch-Ready :
      (n : ℕ) (vs done : List (Value D)) (s : Parser)
      → AllEncodable show stod_view max_elements vs
      → Ready s (encode_all show stod_view max_elements vs)
      → (t : Parser) × (try_parse_n_from stod_view max_elements n done s
          ≡ (record { values = done ++ take n vs; error = none }, t))
        × Ready t (encode_all show stod_view max_elements (drop n vs))
  unfolding try_parse_n_from next_in_batch try_parse_recursion stop_batch
  batch-Ready zero vs done s h r = (
    consume s,
    ap (λ xs. (record { values = xs; error = none }, consume s)) (sym (append-nil done)),
    consume-Ready s _ r,
  )
  batch-Ready (suc n) [] done s h r = (
    consume s,
    end n done s (Ready-Empty s r)
        ∙ ap (λ xs. (record { values = xs; error = none }, consume s)) (sym (append-nil done)),
    consume-Ready s [] r,
  )
  batch-Ready (suc n) (v ∷ vs) done s h r =
      let (t, e, ready) =
        parse_recursion-encode show stod_view max_elements eagain v (fuel_for s) s _ h.0
          (enough_fuel show stod_view max_elements v s _ r) r in
      let (u, q, last) = batch-Ready n vs (done ++ (v ∷ [])) t h.1 ready in
      (
        u,
        step show stod_view max_elements n done v s t e
            ∙ q
            ∙ ap (λ xs. (record { values = xs; error = none }, u))
                (append_assoc done (v ∷ []) (take n vs)),
        last,
      )
