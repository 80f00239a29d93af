-- ===== src/Parser/Takes.antt =====
-- `read_line` and `read_bulk` of src/RedisParser.cpp on any input: fuel, progress and the bytes kept.
use xredis_client.Base.{
  ℕ, zero, suc, ◌+◌, ◌-◌, ◌≤◌, ◌<◌, Bytes, true, List, [], ◌∷◌, ◌++◌, Option, none, some, leb,
  Bool-cases, Option-cases, length, length-append, ◌≡◌, ◌≢◌, inl, inr, refl, ap, append_assoc,
  arith,
}
use xredis_client.Outcome.{Error, Result, ok, err, eoverflow, eagain, econnreset, os, out_of_fuel}
use xredis_client.Parser.{
  Recv, got, would_block, fails, Parser, max_bulk_size, find_from, take_line, read_line_loop,
  read_line_or, take_bulk, read_bulk_loop, read_bulk_or,
}
use xredis_client.Parser.Replies.{delivered}
use xredis_client.Parser.Progress.{Tame, remaining}

abbrev pub Takes : {A : Type 0} → Parser → Result A × Parser → Type 0
Takes s (ok a, s') = remaining s' < remaining s
Takes s (err e, s') = Unit {0}

abbrev pub Good : {A : Type 0} → Parser → Result A × Parser → Type 0
Good s r = Tame s r × Takes s r

abbrev InBounds : ℕ → Bytes → Option ℕ → Type 0
InBounds i xs none = Unit {0}
InBounds i xs (some k) = (i ≤ k) × (k < length xs)

find_from-InBounds : (c i : ℕ) (xs : Bytes) → InBounds i xs (find_from c i xs)
unfolding find_from
find_from-InBounds c i [] = tt
find_from-InBounds c zero (x ∷ xs) = ground (arith, find_from-InBounds c zero xs)
find_from-InBounds c (suc i) (x ∷ xs) = ground (arith, find_from-InBounds c i xs)

abbrev state : Bytes → ℕ → List Recv → Parser
state buf p inc = record { linebuffer = buf; position = p; incoming = inc }

take_line-Good :
    (buf : Bytes) (p fd : ℕ) (inc : List Recv)
    → p ≤ fd
    → fd < length buf
    → Good (state buf p inc) (take_line buf p fd inc)
unfolding take_line
take_line-Good buf p fd inc h l = ground arith

-- A step from the state with one more packet in the buffer, seen from the state before.
Good-got :
    {A : Type 0} (buf bs : Bytes) (p : ℕ) (inc : List Recv) (r : Result A × Parser)
    → Good (state (buf ++ bs) p inc) r
    → Good (state buf p (got bs ∷ inc)) r
unfolding delivered
Good-got buf bs p inc (ok a, s') (t, k) = (
  record {
    fuelled = t.fuelled;
    inside = t.inside;
    moves_on =
        omega (arith, t.moves_on, length-append {0} buf bs, length-append {0} bs (delivered inc));
    keeps = ground (arith, t.keeps, append_assoc buf bs (delivered inc));
  },
  omega (arith, k, length-append {0} buf bs, length-append {0} bs (delivered inc)),
)
Good-got buf bs p inc (err e, s') (t, k) = (
  record {
    fuelled = t.fuelled;
    inside = t.inside;
    moves_on =
        omega (arith, t.moves_on, length-append {0} buf bs, length-append {0} bs (delivered inc));
    keeps = ground (arith, t.keeps, append_assoc buf bs (delivered inc));
  },
  tt,
)

found-Good :
    (inc : List Recv) (fd : ℕ) (buf : Bytes) (p k : ℕ)
    → p ≤ fd
    → find_from b'\n' fd buf ≡ some k
    → Good (state buf p inc) (take_line buf p k inc)
found-Good inc fd buf p k h q =
    let b : InBounds fd buf (some k) = rw q at (find_from-InBounds b'\n' fd buf) in
    take_line-Good buf p k inc (omega arith) b.1

-- A step that fails, with all bytes where they were.
fails-Good :
    {A : Type 0} (s : Parser) (e : Error) (inc : List Recv)
    → e ≢ out_of_fuel
    → s.position ≤ length s.linebuffer
    → delivered inc ≡ delivered s.incoming
    → Good {A = A} s (err e, state s.linebuffer s.position inc)
fails-Good s e inc ne i d = (
  record {
    fuelled = λ x. ne (cc);
    inside = i;
    moves_on = omega (arith, ap length d);
    keeps = inr (ap (◌++◌ s.linebuffer) d);
  },
  tt,
)

-- EOVERFLOW drops the packet that was too much.
overflow-Good :
    {A : Type 0} (buf bs : Bytes) (p : ℕ) (inc : List Recv)
    → p ≤ length buf
    → Good {A = A} (state buf p (got bs ∷ inc)) (err eoverflow, state buf p inc)
unfolding delivered
overflow-Good buf bs p inc i = (
  record {
    fuelled = cc;
    inside = i;
    moves_on = omega (arith, length-append {0} bs (delivered inc));
    keeps = inl refl;
  },
  tt,
)

module _ (idle : Error) (sound : idle ≢ out_of_fuel) where
  line_loop-Good :
      (inc : List Recv) (fd : ℕ) (buf : Bytes) (p : ℕ)
      → p ≤ fd
      → p ≤ length buf
      → Good (state buf p inc) (read_line_loop idle inc fd buf p)
  unfolding read_line_loop delivered
  line_loop-Good [] fd buf p h l = elim (Option-cases (find_from b'\n' fd buf)) [
    | inl q ↦ rw (q, read_line_loop) (fails-Good (state buf p []) idle [] sound l refl)
    | inr (k, q) ↦ rw (q, read_line_loop) (found-Good [] fd buf p k h q)
  ]
  line_loop-Good (would_block ∷ inc) fd buf p h l = elim (Option-cases (find_from b'\n' fd buf)) [
    | inl q ↦
        rw (q, read_line_loop) (fails-Good (state buf p (would_block ∷ inc)) eagain inc (cc) l refl)
    | inr (k, q) ↦ rw (q, read_line_loop) (found-Good (would_block ∷ inc) fd buf p k h q)
  ]
  line_loop-Good (fails e ∷ inc) fd buf p h l = elim (Option-cases (find_from b'\n' fd buf)) [
    | inl q ↦
        rw (q, read_line_loop) (fails-Good (state buf p (fails e ∷ inc)) (os e) inc (cc) l refl)
    | inr (k, q) ↦ rw (q, read_line_loop) (found-Good (fails e ∷ inc) fd buf p k h q)
  ]
  line_loop-Good (got [] ∷ inc) fd buf p h l = elim (Option-cases (find_from b'\n' fd buf)) [
    | inl q ↦
        rw (q, read_line_loop) (fails-Good (state buf p (got [] ∷ inc)) econnreset inc (cc) l refl)
    | inr (k, q) ↦ rw (q, read_line_loop) (found-Good (got [] ∷ inc) fd buf p k h q)
  ]
  line_loop-Good (got (b ∷ bs) ∷ inc) fd buf p h l =
      let more : Good (state buf p (got (b ∷ bs) ∷ inc))
          (read_line_loop idle inc (length buf) (buf ++ (b ∷ bs)) p) =
        Good-got buf (b ∷ bs) p inc _ (
          line_loop-Good inc (length buf) (buf ++ (b ∷ bs)) p l
            (omega (arith, length-append {0} buf (b ∷ bs)))) in
      elim (Option-cases (find_from b'\n' fd buf)) [
        | inr (k, q) ↦ rw (q, read_line_loop) (found-Good (got (b ∷ bs) ∷ inc) fd buf p k h q)
        | inl q ↦
            rw (q, read_line_loop)
              (elim (Bool-cases (leb max_bulk_size (length buf + length (b ∷ bs)))) [
                | inl t ↦ rw t (overflow-Good buf (b ∷ bs) p inc l)
                | inr t ↦ rw t more
              ])
      ]

  take_bulk-Good :
      (n : ℕ) (buf : Bytes) (p : ℕ) (inc : List Recv)
      → leb (n + 2) (length buf - p) ≡ true
      → Good (state buf p inc) (take_bulk n buf p inc)
  unfolding take_bulk
  take_bulk-Good n buf p inc t = ground arith

  bulk_loop-Good :
      (n : ℕ) (inc : List Recv) (buf : Bytes) (p : ℕ)
      → p ≤ length buf
      → Good (state buf p inc) (read_bulk_loop idle n inc buf p)
  unfolding read_bulk_loop delivered
  bulk_loop-Good n [] buf p l = elim (Bool-cases (leb (n + 2) (length buf - p))) [
    | inl t ↦ rw t (take_bulk-Good n buf p [] t)
    | inr t ↦ rw t (fails-Good (state buf p []) idle [] sound l refl)
  ]
  bulk_loop-Good n (would_block ∷ inc) buf p l = elim (Bool-cases (leb (n + 2) (length buf - p))) [
    | inl t ↦ rw t (take_bulk-Good n buf p (would_block ∷ inc) t)
    | inr t ↦ rw t (fails-Good (state buf p (would_block ∷ inc)) eagain inc (cc) l refl)
  ]
  bulk_loop-Good n (fails e ∷ inc) buf p l = elim (Bool-cases (leb (n + 2) (length buf - p))) [
    | inl t ↦ rw t (take_bulk-Good n buf p (fails e ∷ inc) t)
    | inr t ↦ rw t (fails-Good (state buf p (fails e ∷ inc)) (os e) inc (cc) l refl)
  ]
  bulk_loop-Good n (got [] ∷ inc) buf p l = elim (Bool-cases (leb (n + 2) (length buf - p))) [
    | inl t ↦ rw t (take_bulk-Good n buf p (got [] ∷ inc) t)
    | inr t ↦ rw t (fails-Good (state buf p (got [] ∷ inc)) econnreset inc (cc) l refl)
  ]
  bulk_loop-Good n (got (b ∷ bs) ∷ inc) buf p l = elim (Bool-cases (leb (n + 2) (length buf - p))) [
    | inl t ↦ rw t (take_bulk-Good n buf p (got (b ∷ bs) ∷ inc) t)
    | inr t ↦ rw t (
        Good-got buf (b ∷ bs) p inc _ (
          bulk_loop-Good n inc (buf ++ (b ∷ bs)) p (omega (arith, length-append {0} buf (b ∷ bs)))))
  ]

  pub read_line-Good :
      (s : Parser) → s.position ≤ length s.linebuffer → Good s (read_line_or idle s)
  unfolding read_line_or
  read_line-Good s l = line_loop-Good s.incoming s.position s.linebuffer s.position (omega arith) l

  pub read_bulk-Good :
      (n : ℕ) (s : Parser) → s.position ≤ length s.linebuffer → Good s (read_bulk_or idle n s)
  unfolding read_bulk_or
  read_bulk-Good n s l = elim (Bool-cases (leb max_bulk_size n)) [
    | inl t ↦
        rw t (record { fuelled = cc; inside = l; moves_on = omega arith; keeps = inl refl }, tt)
    | inr t ↦ rw t (bulk_loop-Good n s.incoming s.linebuffer s.position l)
  ]
