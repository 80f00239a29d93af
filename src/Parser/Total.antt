-- ===== src/Parser/Total.antt =====
-- `parse` and `try_parse` on any input and any behaviour of the socket.
use xredis_client.Base.{
  ◌/◌, ℕ, zero, suc, ◌≤◌, ◌<◌, Bytes, [], ◌∷◌, Option, none, some, ltb, ◌==◌, Bool-cases, length,
  ◌≡◌, ◌≢◌, inl, inr, arith,
}
use xredis_client.Base.Int.{ℤ, pos, negsuc}
use xredis_client.Base.Decimal.{Scanned}
use xredis_client.Outcome.{
  Error, Result, ok, err, eoverflow, eagain, suspended, terminated, out_of_fuel,
}
use xredis_client.Value.{
  Value, Values, nullptr, array, push, setv, mapv, simple_string, simple_error, bulk_string,
  big_number, bulk_error, verbatim_string, integer, doublev, attribute, nil, cons, no_pairs, pair,
}
use xredis_client.Parser.{Parser, read_line_or, read_bulk_or, stoll_view, whole, negate}
use xredis_client.Parser.Replies.{
  M, continue, lift, reserve, Prefix, plus, minus, colon, dollar, star, underscore, hash, comma,
  paren, bang, equals, percent, bar, tilde, greater, other, classify, check_count, check_length,
  boolean_of, elements, pairs, bulk_body, null_or_bulk, vector_body, map_body, switch,
  parse_recursion_or, parse_recursion, try_parse_recursion, fuel_for, consume_if_ok, rewind, parse,
  try_parse,
}
use xredis_client.Parser.Progress.{
  Tame, TameStep, remaining, stream, Tame-pure, Tame-lift, Tame-bind,
}
use xredis_client.Parser.Takes.{Good, read_line-Good, read_bulk-Good}

abbrev Fuelled : {A : Type 0} → Result A → Type 0
Fuelled r = r ≢ err out_of_fuel

whole-Fuelled : (sign : ℕ → ℤ) (r : Scanned) → Fuelled (whole sign r)
unfolding whole
whole-Fuelled sign r = ground arith

stoll_view-Fuelled : (line : Bytes) → Fuelled (stoll_view line)
unfolding stoll_view
stoll_view-Fuelled [] = cc
stoll_view-Fuelled (c ∷ cs) = elim (Bool-cases (c == b'-')) [
  | inl t ↦ rw t (whole-Fuelled negate _)
  | inr t ↦ rw t (whole-Fuelled pos _)
]

check_count-Fuelled : (r : Result ℤ) → Fuelled r → Fuelled (check_count r)
unfolding check_count
check_count-Fuelled (ok n) h = ground arith
check_count-Fuelled (err e) h = λ x. h (cc)

check_length-Fuelled : (r : Result ℤ) → Fuelled r → Fuelled (check_length r)
unfolding check_length
check_length-Fuelled (ok (pos n)) h = cc
check_length-Fuelled (ok (negsuc zero)) h = cc
check_length-Fuelled (ok (negsuc (suc n))) h = cc
check_length-Fuelled (err e) h = λ x. h (cc)

boolean_of-Fuelled : {D : Type 0} (line : Bytes) → Fuelled {A = Value D} (boolean_of line)
unfolding boolean_of
boolean_of-Fuelled [] = cc
boolean_of-Fuelled (c ∷ []) = ground arith
boolean_of-Fuelled (c ∷ d ∷ cs) = cc

module _ {D : Type 0} (stod_view : Bytes → Result D) (max_elements : ℕ) (idle : Error)
    (sound : idle ≢ out_of_fuel)
    (view_sound : (line : Bytes) → stod_view line ≢ err out_of_fuel) where
  reserve-Tame : (most f n : ℕ) → TameStep f (reserve most n)
  reserve-Tame most f n s i h = elim (Bool-cases (ltb most n)) [
    | inl t ↦ rw t (Tame-lift f (err terminated) (cc) s i h)
    | inr t ↦ rw t (Tame-lift f (ok tt) (cc) s i h)
  ]

  bulk-Tame : (f n : ℕ) → TameStep f (read_bulk_or idle n)
  bulk-Tame f n s i h = (read_bulk-Good idle sound n s i).0

  module _ (f : ℕ) (value : M (Value D)) (tame : TameStep f value) where
    elements-Tame : (n : ℕ) → TameStep f (elements value n)
    unfolding elements
    elements-Tame zero = Tame-pure f nil
    elements-Tame (suc n) =
        Tame-bind f value _ tame
          λ v. Tame-bind f (elements value n) _ (elements-Tame n) λ vs. Tame-pure f (cons v vs)

    pairs-Tame : (n : ℕ) → TameStep f (pairs value n)
    unfolding pairs
    pairs-Tame zero = Tame-pure f no_pairs
    pairs-Tame (suc n) = Tame-bind f value _ tame λ k.
        Tame-bind f value _ tame
          λ v. Tame-bind f (pairs value n) _ (pairs-Tame n) λ ps. Tame-pure f (pair k v ps)

    bulk_body-Tame :
        (make : Bytes → Value D) (line : Bytes)
        → TameStep f (bulk_body stod_view max_elements (read_bulk_or idle) make line)
    unfolding bulk_body
    bulk_body-Tame make line =
        Tame-bind f (lift (check_count (stoll_view line))) _
          (Tame-lift f _ (check_count-Fuelled _ (stoll_view-Fuelled line)))
          λ n. Tame-bind f (read_bulk_or idle n) _ (bulk-Tame f n) λ s. Tame-pure f (make s)

    vector_body-Tame :
        (make : Values D → Value D) (line : Bytes)
        → TameStep f (vector_body stod_view max_elements value make line)
    unfolding vector_body
    vector_body-Tame make line =
        Tame-bind f (lift (check_count (stoll_view line))) _
          (Tame-lift f _ (check_count-Fuelled _ (stoll_view-Fuelled line)))
          λ n.
            Tame-bind f (reserve max_elements n) _ (reserve-Tame max_elements f n)
              λ _. Tame-bind f (elements value n) _ (elements-Tame n) λ vs. Tame-pure f (make vs)

    map_body-Tame : (line : Bytes) → TameStep f (map_body stod_view max_elements value line)
    unfolding map_body
    map_body-Tame line =
        Tame-bind f (lift (check_count (stoll_view line))) _
          (Tame-lift f _ (check_count-Fuelled _ (stoll_view-Fuelled line)))
          λ n.
            Tame-bind f (reserve (max_elements / 2) n) _ (reserve-Tame (max_elements / 2) f n)
              λ _. pairs-Tame n

    null_or_bulk-Tame :
        (n : Option ℕ) → TameStep f (null_or_bulk stod_view max_elements (read_bulk_or idle) n)
    unfolding null_or_bulk
    null_or_bulk-Tame none = Tame-pure f nullptr
    null_or_bulk-Tame (some n) =
        Tame-bind f (read_bulk_or idle n) _ (bulk-Tame f n) λ s. Tame-pure f (bulk_string s)

    switch-Tame :
        (c : Prefix) (line : Bytes)
        → TameStep f (switch stod_view max_elements (read_bulk_or idle) value c line)
    unfolding switch
    switch-Tame plus line = Tame-pure f (simple_string line)
    switch-Tame minus line = Tame-pure f (simple_error line)
    switch-Tame colon line =
        Tame-bind f (lift (stoll_view line)) _ (Tame-lift f _ (stoll_view-Fuelled line))
          λ n. Tame-pure f (integer n)
    switch-Tame dollar line =
        Tame-bind f (lift (check_length (stoll_view line))) _
          (Tame-lift f _ (check_length-Fuelled _ (stoll_view-Fuelled line))) null_or_bulk-Tame
    switch-Tame star line = vector_body-Tame array line
    switch-Tame underscore line = Tame-pure f nullptr
    switch-Tame hash line = Tame-lift f (boolean_of line) (boolean_of-Fuelled line)
    switch-Tame comma line =
        Tame-bind f (lift (stod_view line)) _ (Tame-lift f _ (view_sound line))
          λ d. Tame-pure f (doublev d)
    switch-Tame paren line = Tame-pure f (big_number line)
    switch-Tame bang line = bulk_body-Tame bulk_error line
    switch-Tame equals line = bulk_body-Tame verbatim_string line
    switch-Tame percent line =
        Tame-bind f (map_body stod_view max_elements value line) _ (map_body-Tame line)
          λ ps. Tame-pure f (mapv ps)
    switch-Tame bar line =
        Tame-bind f (map_body stod_view max_elements value line) _ (map_body-Tame line)
          λ ps. Tame-bind f value _ tame λ v. Tame-pure f (attribute ps v)
    switch-Tame tilde line = vector_body-Tame setv line
    switch-Tame greater line = vector_body-Tame push line
    switch-Tame other line = Tame-lift f (err _) (cc)

  -- A line, and then what its prefix asks for, on one unit of fuel less.
  after_line :
      (f : ℕ) (s : Parser) (r : Result (ℕ × Bytes) × Parser) (k : ℕ × Bytes → M (Value D))
      → remaining s < suc f
      → Good s r
      → ((a : ℕ × Bytes) → TameStep f (k a))
      → Tame s (continue r k)
  after_line f s (err e, s') k h (t, _) each = record {
    fuelled = λ x. t.fuelled (cc);
    inside = t.inside;
    moves_on = t.moves_on;
    keeps = ground (arith, t.keeps);
  }
  after_line f s (ok a, s') k h (t, less) each =
      let u = each a s' t.inside (omega arith) in
      record {
        fuelled = u.fuelled;
        inside = u.inside;
        moves_on = omega (arith, less, u.moves_on);
        keeps = ground (arith, t.keeps, u.keeps);
      }

  pub recursion-Tame : (f : ℕ) → TameStep f (parse_recursion_or stod_view max_elements idle f)
  unfolding parse_recursion_or
  recursion-Tame zero s i h = absurd (omega arith)
  recursion-Tame (suc f) s i h =
      after_line f s (read_line_or idle s) _ h (read_line-Good idle sound s i) λ a.
        switch-Tame f (parse_recursion_or stod_view max_elements idle f) (recursion-Tame f)
          (classify a.0) a.1

  pub recursion_in_fuel :
      (s : Parser)
      → s.position ≤ length s.linebuffer
      → Tame s (parse_recursion_or stod_view max_elements idle (fuel_for s) s)
  unfolding fuel_for
  recursion_in_fuel s i = recursion-Tame (fuel_for s) s i (omega arith)

module _ {D : Type 0} (stod_view : Bytes → Result D) (max_elements : ℕ)
    (view_sound : (line : Bytes) → stod_view line ≢ err out_of_fuel) where
  consume_if_ok-Fuelled :
      (r : Result (Value D) × Parser) → Fuelled r.0 → Fuelled (consume_if_ok r).0
  unfolding consume_if_ok
  consume_if_ok-Fuelled (ok v, s) h = cc
  consume_if_ok-Fuelled (err e, s) h = h

  -- Whatever the socket does, `parse` and `try_parse`, called with the position inside the buffer, return within the fuel that the model gives
  -- them: the recursion always ends. (`view_sound`: the code of `stod_view` is one of the program's.)
  pub parse_returns :
      (s : Parser)
      → s.position ≤ length s.linebuffer
      → ((parse stod_view max_elements s).0 ≢ err out_of_fuel)
        × ((try_parse stod_view max_elements s).0 ≢ err out_of_fuel)
  unfolding parse try_parse parse_recursion try_parse_recursion rewind
  parse_returns s i = (
    consume_if_ok-Fuelled _
        (recursion_in_fuel stod_view max_elements suspended (cc) view_sound s i).fuelled,
    consume_if_ok-Fuelled _
        (recursion_in_fuel stod_view max_elements eagain (cc) view_sound s i).fuelled,
  )

  rewound :
      (s : Parser) (r : Result (Value D) × Parser) {e : Error} {s' : Parser}
      → Tame s r
      → rewind (consume_if_ok r) ≡ (err e, s')
      → e ≢ eoverflow
      → (s'.position ≡ 0) × (stream s' ≡ stream s)
  unfolding rewind consume_if_ok
  rewound s (ok v, t) tame q ne = absurd (absurd_ok v _ q)
    where
      absurd_ok :
          (v : Value D) (t : Parser) {e : Error} {s' : Parser}
          → ◌≡◌ {A = Result (Value D) × Parser} (ok v, t) (err e, s')
          → ⊥
      absurd_ok v t q = cc
  rewound s (err e, t) tame q ne = ground (arith, tame.keeps)

  -- When `try_parse` does not complete a value (EAGAIN among others, but EOVERFLOW, which drops a
  -- packet), no byte is lost and the parser is back at the start of the buffer: the next call sees
  -- the whole of the value again, with what arrives later behind it.
  pub try_parse_resumes :
      (s : Parser) {e : Error} {s' : Parser}
      → s.position ≤ length s.linebuffer
      → try_parse stod_view max_elements s ≡ (err e, s')
      → e ≢ eoverflow
      → (s'.position ≡ 0) × (stream s' ≡ stream s)
  unfolding try_parse try_parse_recursion
  try_parse_resumes s i q ne =
      rewound s _ (recursion_in_fuel stod_view max_elements eagain (cc) view_sound s i) q ne
