-- ===== src/Parser/Bulks.antt =====
-- `read_bulk` of src/RedisParser.cpp on a bulk that arrives in packets.
use xredis_client.Base.{
  ℕ, ◌+◌, ◌-◌, ◌≤◌, ◌<◌, Bytes, true, false, List, [], ◌∷◌, ◌++◌, leb, leb→le, le→leb, Bool-cases,
  length, length-append, length-take, take, drop, get_or, ◌≡◌, ◌≢◌, inl, inr, refl, sym, ap, ◌∙◌,
  append_assoc, arith, take-append, take-append-drop,
}
use xredis_client.Outcome.{Error, Result, ok}
use xredis_client.Parser.{
  Recv, got, would_block, fails, Parser, max_bulk_size, take_bulk, read_bulk_loop, read_bulk_or,
}
use xredis_client.Parser.Replies.{delivered}
use xredis_client.Parser.Newlines.{crlf, get_or-append, drop-append_add}
use xredis_client.Parser.Stream.{Flowing, Ready, Reads}

-- Of two splits of one text, the longer left part begins with the shorter one.
prefix_split :
    (xs us ys vs : Bytes)
    → length us ≤ length xs
    → xs ++ ys ≡ us ++ vs
    → (bs : Bytes) × (xs ≡ us ++ bs) × (bs ++ ys ≡ vs)
prefix_split xs [] ys vs h e = (xs, refl, e)
prefix_split [] (u ∷ us) ys vs h e = absurd (omega arith)
prefix_split (x ∷ xs) (u ∷ us) ys vs h e =
    let (bs, p, q) = prefix_split xs us ys vs (omega arith) (cc) in (bs, cc, q)

module _ (before s b : Bytes) (inc : List Recv) where
  abbrev held : Bytes
  held = before ++ (s ++ crlf b)

  take_bulk-held : take_bulk (length s) held (length before) inc ≡ (
    ok s,
    record { linebuffer = held; position = length before + (length s + 2); incoming = inc },
  )
  unfolding take_bulk
  take_bulk-held =
      let e : length before + 0 ≡ length before = omega arith in
      let base : drop (length before) held ≡ s ++ crlf b =
        rw e at (drop-append_add before (s ++ crlf b) 0) in
      let e' : length s + 0 ≡ length s = omega arith in
      let cr : get_or (s ++ crlf b) (length s) 0 ≡ b'\r' =
        rw e' at (get_or-append s (crlf b) 0 0) in
      let lf : get_or (s ++ crlf b) (length s + 1) 0 ≡ b'\n' = get_or-append s (crlf b) 1 0 in
      rw (base, cr, lf, take-append s (crlf b)) refl

read_bulk_loop-found :
    (idle : Error) (n : ℕ) (inc : List Recv) (buf : Bytes) (p : ℕ)
    → leb (n + 2) (length buf - p) ≡ true
    → read_bulk_loop idle n inc buf p ≡ take_bulk n buf p inc
unfolding read_bulk_loop
read_bulk_loop-found idle n [] buf p e = rw e
read_bulk_loop-found idle n (fails x ∷ inc) buf p e = rw e
read_bulk_loop-found idle n (would_block ∷ inc) buf p e = rw e
read_bulk_loop-found idle n (got bs ∷ inc) buf p e = rw e

read_bulk_loop-more :
    (idle : Error) (n : ℕ) (bs : Bytes) (inc : List Recv) (buf : Bytes) (p : ℕ)
    → leb (n + 2) (length buf - p) ≡ false
    → bs ≢ []
    → read_bulk_loop idle n (got bs ∷ inc) buf p ≡ read_bulk_loop idle n inc (buf ++ bs) p
unfolding read_bulk_loop
read_bulk_loop-more idle n [] inc buf p e ne = absurd (ne refl)
read_bulk_loop-more idle n (b ∷ bs) inc buf p e ne = rw e

module _ (idle : Error) (before s rest : Bytes) where
  abbrev BulkRead : Result Bytes × Parser → Type 0
  BulkRead r = (s' : Parser) × (r ≡ (ok s, s')) × Ready s' rest

  found_bulk :
      (inc : List Recv) (seen : Bytes)
      → Flowing inc
      → length s + 2 ≤ length seen
      → seen ++ delivered inc ≡ s ++ crlf rest
      → length (before ++ seen) + length (delivered inc) < max_bulk_size
      → BulkRead (take_bulk (length s) (before ++ seen) (length before) inc)
  found_bulk inc seen f enough e small =
      let (b, t, r) =
        prefix_split seen (s ++ crlf []) (delivered inc) rest
          (omega (arith, length-append {0} s (crlf [])))
          (e ∙ sym (append_assoc s (crlf []) rest)) in
      let text : seen ≡ s ++ crlf b = t ∙ append_assoc s (crlf []) b in
      rw text (
        record {
          linebuffer = held before s b inc;
          position = length before + (length s + 2);
          incoming = inc;
        },
        take_bulk-held before s b inc,
        record {
          inside =
              omega (arith, length-append {0} before (s ++ crlf b), length-append {0} s (crlf b));
          ahead =
              rw (drop-append_add before (s ++ crlf b) (length s + 2), drop-append_add s (crlf b) 2)
                r;
          flowing = f;
          small = rw text at small;
        },
      )

  abbrev LoopReads : List Recv → Bytes → Type 0
  LoopReads inc seen =
      Flowing inc
      → seen ++ delivered inc ≡ s ++ crlf rest
      → length (before ++ seen) + length (delivered inc) < max_bulk_size
      → BulkRead (read_bulk_loop idle (length s) inc (before ++ seen) (length before))

  enough_seen :
      (seen : Bytes)
      → leb (length s + 2) (length (before ++ seen) - length before) ≡ true
      → length s + 2 ≤ length seen
  enough_seen seen q = omega (arith, leb→le (length s + 2) _ q, length-append {0} before seen)

  loop_found :
      (inc : List Recv) (seen : Bytes)
      → leb (length s + 2) (length (before ++ seen) - length before) ≡ true
      → LoopReads inc seen
  loop_found inc seen q f e small =
      rw (read_bulk_loop-found idle (length s) inc _ (length before) q)
        (found_bulk inc seen f (enough_seen seen q) e small)

  bulk_loop : (inc : List Recv) (seen : Bytes) → LoopReads inc seen
  unfolding delivered
  bulk_loop [] seen f e small =
      loop_found [] seen
        (le→leb _ _ (
          omega (
            arith,
            ap length e,
            length-append {0} seen [],
            length-append {0} s (crlf rest),
            length-append {0} before seen,
          )))
        f e small
  bulk_loop (fails x ∷ inc) seen f e small = absurd f
  bulk_loop (would_block ∷ inc) seen f e small = absurd f
  bulk_loop (got bs ∷ inc) seen f e small =
      elim (Bool-cases (leb (length s + 2) (length (before ++ seen) - length before))) [
        | inl q ↦ loop_found (got bs ∷ inc) seen q f e small
        | inr q ↦ rw (read_bulk_loop-more idle (length s) bs inc _ (length before) q f.0) (
            rw (append_assoc before seen bs) (
              bulk_loop inc (seen ++ bs) f.1 (rw (append_assoc seen bs (delivered inc)) e) (
                omega (
                  arith,
                  small,
                  length-append {0} bs (delivered inc),
                  length-append {0} before (seen ++ bs),
                  length-append {0} before seen,
                  length-append {0} seen bs,
                ))))
      ]

bulk_at :
    (idle : Error) (before seen s rest : Bytes) (inc : List Recv) (buf : Bytes) (p : ℕ)
    → buf ≡ before ++ seen
    → p ≡ length before
    → Flowing inc
    → seen ++ delivered inc ≡ s ++ crlf rest
    → length buf + length (delivered inc) < max_bulk_size
    → (s' : Parser) × (read_bulk_loop idle (length s) inc buf p ≡ (ok s, s')) × Ready s' rest
bulk_at idle before seen s rest inc buf p eb ep f e small =
    rw (eb, ep) (bulk_loop idle before s rest inc seen f e (rw eb at small))

-- `read_bulk` takes a bulk of the length asked for, and CR and LF behind it, off the stream.
pub read_bulk-Reads :
    (idle : Error) (s : Bytes)
    → length s < max_bulk_size
    → Reads (read_bulk_or idle (length s)) s (s ++ crlf [])
unfolding read_bulk_or
read_bulk-Reads idle s short p rest r =
    let t : leb max_bulk_size (length s) ≡ false = ground arith in
    rw t (
      bulk_at idle (take p.position p.linebuffer) (drop p.position p.linebuffer) s rest p.incoming
        p.linebuffer p.position (sym (take-append-drop p.position p.linebuffer))
        (omega (arith, length-take p.position p.linebuffer)) r.flowing
        (r.ahead ∙ append_assoc s (crlf []) rest) r.small)
