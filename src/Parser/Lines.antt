-- ===== src/Parser/Lines.antt =====
-- `read_line` of src/RedisParser.cpp on a line that arrives in packets.
use xredis_client.Base.{
  ℕ, suc, ◌+◌, ◌^◌, ◌<◌, Bytes, List, [], ◌∷◌, ◌++◌, Option, none, some, length, length-append,
  take, drop, ◌≡◌, ◌⊎◌, inl, inr, refl, sym, ap, ◌∙◌, append_assoc, append-nil, arith,
  take-append-drop, length-take,
}
use xredis_client.Outcome.{Error, Result, ok}
use xredis_client.Parser.{
  Recv, got, would_block, fails, Parser, max_bulk_size, find_from, take_line, read_line_loop,
  read_line_or,
}
use xredis_client.Parser.Replies.{delivered}
use xredis_client.Parser.Stream.{Flowing, Ready, Reads}
use xredis_client.Parser.Newlines.{
  NoLf, NoLf-append, first_lf, no_lf, Found, find_from-Found, shift, find_from-append, crlf,
  drop-append_add,
}
use xredis_client.Parser.Buffered.{
  buffered, lf_at, take_line-buffered, read_line_loop-found, read_line_loop-more,
}

module _ (idle : Error) (before line rest : Bytes) (ch : ℕ) (clean : NoLf (ch ∷ line)) where
  abbrev LineRead : Result (ℕ × Bytes) × Parser → Type 0
  LineRead r = (s : Parser) × (r ≡ (ok (ch, line), s)) × Ready s rest

  found_line :
      (inc : List Recv) (old us bs : Bytes)
      → NoLf old
      → NoLf us
      → Flowing inc
      → (old ++ (us ++ (b'\n' ∷ bs))) ++ delivered inc ≡ ch ∷ (line ++ crlf rest)
      → length (before ++ (old ++ (us ++ (b'\n' ∷ bs)))) + length (delivered inc) < max_bulk_size
      → LineRead (
          take_line
            (before ++ (old ++ (us ++ (b'\n' ∷ bs))))
            (length before)
            (length (before ++ old) + length us)
            inc)
  unfolding buffered
  found_line inc old us bs o u f e small =
      rw (text, index)
        (
          record {
            linebuffer = buffered before line bs ch inc;
            position = lf_at before line bs ch inc + 1;
            incoming = inc;
          },
          take_line-buffered before line bs ch inc fits,
          record {
            inside = omega (
              arith,
              length-append {0} before (ch ∷ (line ++ crlf bs)),
              length-append {0} line (crlf bs),
            );
            ahead = rw (past, split.1);
            flowing = f;
            small = rw text at small;
          },
        )
    where
      split : (old ++ us ≡ ch ∷ (line ++ (b'\r' ∷ []))) × (bs ++ delivered inc ≡ rest)
      split =
          first_lf (old ++ us) (ch ∷ (line ++ (b'\r' ∷ []))) (bs ++ delivered inc) rest
            (NoLf-append old us o u)
            (clean.0, NoLf-append line (b'\r' ∷ []) clean.1 (omega arith, tt))
            (simp append_assoc (simp append_assoc at e))

      text : before ++ (old ++ (us ++ (b'\n' ∷ bs))) ≡ buffered before line bs ch inc
      text = ap (◌++◌ before) (
          sym (append_assoc old us (b'\n' ∷ bs))
          ∙ ap (λ t. t ++ (b'\n' ∷ bs)) split.0
          ∙ ap (◌∷◌ ch) (append_assoc line (b'\r' ∷ []) (b'\n' ∷ bs)))

      index : length (before ++ old) + length us ≡ lf_at before line bs ch inc
      index = omega (
        arith,
        length-append {0} before old,
        length-append {0} old us,
        ap length split.0,
        length-append {0} line (b'\r' ∷ []),
      )

      fits : length line < 2 ^ 64
      fits = omega (
        arith,
        small,
        ap length text,
        length-append {0} before (ch ∷ (line ++ crlf bs)),
        length-append {0} line (crlf bs),
      )

      past : drop (lf_at before line bs ch inc + 1) (buffered before line bs ch inc) ≡ bs
      past =
          let e : lf_at before line bs ch inc + 1 ≡ length before + (suc (length line + 2)) =
            omega arith in
          rw (e, drop-append_add before (ch ∷ (line ++ crlf bs)) (suc (length line + 2)))
            (drop-append_add line (crlf bs) 2)

  -- What the search of a round gives: the buffer holds `before`, then `old`, searched already, then
  -- `new`, which came last.
  abbrev Search : Bytes → Bytes → Type 0
  Search old new =
      ((us : Bytes) × (bs : Bytes) × (new ≡ us ++ (b'\n' ∷ bs))
        × NoLf us
        × (find_from b'\n' (length (before ++ old)) (before ++ (old ++ new))
            ≡ some (length (before ++ old) + length us)))
      ⊎ (NoLf new × (find_from b'\n' (length (before ++ old)) (before ++ (old ++ new)) ≡ none))

  Search-new : (old new : Bytes) → Search old new
  Search-new old new = cases (find_from b'\n' 0 new) refl (find_from-Found new)
    where
      at_new :
          find_from b'\n' (length (before ++ old)) (before ++ (old ++ new))
          ≡ shift (length (before ++ old)) (find_from b'\n' 0 new)
      at_new = rw (← append_assoc) (find_from-append b'\n' (before ++ old) new)

      cases : (o : Option ℕ) → find_from b'\n' 0 new ≡ o → Found new o → Search old new
      cases none q n = inr (n, at_new ∙ ap (shift (length (before ++ old))) q)
      cases (some k) q (us, bs, t, u, l) =
          inl (us, bs, t, u, rw l (at_new ∙ ap (shift (length (before ++ old))) q))

  abbrev LoopReads : List Recv → Bytes → Bytes → Type 0
  LoopReads inc old new =
      NoLf old
      → Flowing inc
      → (old ++ new) ++ delivered inc ≡ ch ∷ (line ++ crlf rest)
      → length (before ++ (old ++ new)) + length (delivered inc) < max_bulk_size
      → LineRead (
          read_line_loop idle inc (length (before ++ old)) (before ++ (old ++ new)) (length before))

  loop_found :
      (inc : List Recv) (old new us bs : Bytes)
      → new ≡ us ++ (b'\n' ∷ bs)
      → NoLf us
      → find_from b'\n' (length (before ++ old)) (before ++ (old ++ new))
        ≡ some (length (before ++ old) + length us)
      → LoopReads inc old new
  loop_found inc old new us bs t u q o f e small =
      rw (read_line_loop-found idle inc _ _ (length before) _ q)
        (rw t (found_line inc old us bs o u f (rw t at e) (rw t at small)))

  line_loop : (inc : List Recv) (old new : Bytes) → LoopReads inc old new
  unfolding delivered
  line_loop [] old new o f e small = elim (Search-new old new) [
    | inl (us, bs, t, u, q) ↦ loop_found [] old new us bs t u q o f e small
    | inr (n, q) ↦ absurd (
        no_lf (old ++ new) (ch ∷ (line ++ (b'\r' ∷ []))) rest (NoLf-append old new o n)
          (rw append-nil at e ∙ ap (◌∷◌ ch) (sym (append_assoc line (b'\r' ∷ []) (b'\n' ∷ rest)))))
  ]
  line_loop (fails x ∷ inc) old new o f e small = absurd f
  line_loop (would_block ∷ inc) old new o f e small = absurd f
  line_loop (got bs ∷ inc) old new o f e small = elim (Search-new old new) [
    | inl (us, cs, t, u, q) ↦ loop_found (got bs ∷ inc) old new us cs t u q o f e small
    | inr (n, q) ↦
        rw
          (read_line_loop-more idle bs inc _ _ (length before) q f.0
            (omega (arith, small, length-append {0} bs (delivered inc))))
          (rw (append_assoc before (old ++ new) bs) (
            line_loop inc (old ++ new) bs (NoLf-append old new o n) f.1
              (rw (append_assoc (old ++ new) bs (delivered inc)) e)
              (omega (
                arith,
                small,
                length-append {0} bs (delivered inc),
                length-append {0} before ((old ++ new) ++ bs),
                length-append {0} before (old ++ new),
                length-append {0} (old ++ new) bs,
              ))))
  ]

line_at :
    (idle : Error) (before seen line rest : Bytes) (ch : ℕ) (inc : List Recv) (buf : Bytes) (p : ℕ)
    → NoLf (ch ∷ line)
    → buf ≡ before ++ seen
    → p ≡ length before
    → Flowing inc
    → seen ++ delivered inc ≡ ch ∷ (line ++ crlf rest)
    → length buf + length (delivered inc) < max_bulk_size
    → (s : Parser) × (read_line_loop idle inc p buf p ≡ (ok (ch, line), s)) × Ready s rest
line_at idle before seen line rest ch inc buf p clean eb ep f e small =
    rw (eb, ep)
      (rw append-nil at
        (line_loop idle before line rest ch clean inc [] seen tt f e (rw eb at small)))

-- `read_line` takes one line off the stream, and gives its first byte and the rest of it.
pub read_line-Reads :
    (idle : Error) (ch : ℕ) (line : Bytes)
    → NoLf (ch ∷ line)
    → Reads (read_line_or idle) (ch, line) (ch ∷ (line ++ crlf []))
unfolding read_line_or
read_line-Reads idle ch line clean s rest r =
    let (s', e, r') =
      line_at idle (take s.position s.linebuffer) (drop s.position s.linebuffer) line rest ch
        s.incoming s.linebuffer s.position clean (sym (take-append-drop s.position s.linebuffer))
        (omega (arith, length-take s.position s.linebuffer)) r.flowing
        (r.ahead ∙ ap (◌∷◌ ch) (append_assoc line (crlf []) rest)) r.small in
    (s', e, r')
