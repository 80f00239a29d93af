-- ===== src/Parser/Replies.antt =====
-- src/RedisParser.cpp: `parse_recursion` and `try_parse_recursion` with what calls them. The `switch`
-- of both is one definition over the functions that read a line, a bulk and a nested value.
use xredis_client.Base.{
  ◌/◌, ℕ, zero, suc, ◌+◌, Bytes, ◌||◌, List, [], ◌∷◌, ◌++◌, Option, none, some, ltb, ◌==◌,
  if◌then◌else◌, length, drop,
}
use xredis_client.Base.Int.{ℤ, pos, negsuc, is_negative, to_size}
use xredis_client.Outcome.{
  Error, Result, ok, err, bad_prefix, einval, eagain, suspended, terminated, out_of_fuel, is_eagain,
}
use xredis_client.Value.{
  Value, Values, Pairs, nullptr, array, push, setv, mapv, simple_string, simple_error, bulk_string,
  big_number, bulk_error, verbatim_string, integer, boolean, doublev, attribute, nil, cons,
  no_pairs, pair,
}
use xredis_client.Parser.{
  Recv, got, would_block, fails, Parser, read_line_or, read_bulk_or, consume, stoll_view,
}

-- A step on the parser's state. An error keeps the state that it left.
abbrev pub M : Type 0 → Type 0
M A = Parser → Result A × Parser

abbrev pub continue : {A B : Type 0} → Result A × Parser → (A → M B) → Result B × Parser
continue (ok a, s) f = f a s
continue (err e, s) f = (err e, s)

infixl 5 ◌>>=◌ ◌>>◌
abbrev pub ◌>>=◌ : {A B : Type 0} → M A → (A → M B) → M B
◌>>=◌ m f s = continue (m s) f

abbrev pub ◌>>◌ : {A B : Type 0} → M A → M B → M B
m >> k = m >>= λ _. k

abbrev pub pure : {A : Type 0} → A → M A
pure a s = (ok a, s)

abbrev pub throw : {A : Type 0} → Error → M A
throw e s = (err e, s)

abbrev pub lift : {A : Type 0} → Result A → M A
lift r s = (r, s)

-- The cases of the `switch`.
pub data Prefix : Type 0 where
  plus minus colon dollar star underscore hash comma paren bang equals percent bar tilde greater :
      Prefix
  other : Prefix

unfoldable pub classify : ℕ → Prefix
classify c =
    if c == b'+'
    then plus
    else if c == b'-'
    then minus
    else if c == b':'
    then colon
    else if c == b'$'
    then dollar
    else if c == b'*'
    then star
    else if c == b'_'
    then underscore
    else if c == b'#'
    then hash
    else if c == b','
    then comma
    else if c == b'('
    then paren
    else if c == b'!'
    then bang
    else if c == b'='
    then equals
    else if c == b'%'
    then percent
    else if c == b'|'
    then bar
    else if c == b'~'
    then tilde
    else if c == b'>'
    then greater
    else other

-- `if(err || count < 0) return err ? err : EINVAL;`
unfoldable pub check_count : Result ℤ → Result ℕ
check_count (err e) = err e
check_count (ok n) = if is_negative n then err einval else ok (to_size n)

-- The same for `$`, where -1 stands for the null value.
unfoldable pub check_length : Result ℤ → Result (Option ℕ)
check_length (err e) = err e
check_length (ok (pos n)) = ok (some n)
check_length (ok (negsuc zero)) = ok none
check_length (ok (negsuc (suc n))) = err einval

unfoldable pub boolean_of : {D : Type 0} → Bytes → Result (Value D)
boolean_of (c ∷ []) = if c == b't' || c == b'f' then ok (boolean (c == b't')) else err einval
boolean_of _ = err einval

-- `reserve(count)` throws above the largest length of a vector; built with -fno-exceptions, as the
-- Release flags have it, this ends the process.
abbrev pub reserve : ℕ → ℕ → M (Unit {0})
reserve max_elements n s = (if ltb max_elements n then err terminated else ok tt, s)

module _ {D : Type 0} where
  -- The loop of an array, a set or a push.
  unfoldable pub elements : M (Value D) → ℕ → M (Values D)
  elements value zero = pure nil
  elements value (suc n) = do v ← value; vs ← elements value n; pure (cons v vs)

  -- The loop of a map or of the metadata of an attribute.
  unfoldable pub pairs : M (Value D) → ℕ → M (Pairs D)
  pairs value zero = pure no_pairs
  pairs value (suc n) = do k ← value; v ← value; ps ← pairs value n; pure (pair k v ps)

module _ {D : Type 0} (stod_view : Bytes → Result D) (max_elements : ℕ) where
  -- A bulk that follows its length: `!` and `=`.
  unfoldable pub bulk_body : (ℕ → M Bytes) → (Bytes → Value D) → Bytes → M (Value D)
  unfolding check_count stoll_view
  bulk_body bulk make line = do n ← lift (check_count (stoll_view line)); s ← bulk n; pure (make s)

  unfoldable pub null_or_bulk : (ℕ → M Bytes) → Option ℕ → M (Value D)
  null_or_bulk bulk none = pure nullptr
  null_or_bulk bulk (some n) = do s ← bulk n; pure (bulk_string s)

  unfoldable pub vector_body : M (Value D) → (Values D → Value D) → Bytes → M (Value D)
  unfolding check_count stoll_view elements
  vector_body value make line = do
    n ← lift (check_count (stoll_view line))
    reserve max_elements n
    vs ← elements value n
    pure (make vs)

  -- A pair is as long as two values, so a vector holds half as many.
  unfoldable pub map_body : M (Value D) → Bytes → M (Pairs D)
  unfolding check_count stoll_view pairs
  map_body value line = do
    n ← lift (check_count (stoll_view line))
    reserve (max_elements / 2) n
    pairs value n

  unfoldable pub switch : (ℕ → M Bytes) → M (Value D) → Prefix → Bytes → M (Value D)
  unfolding bulk_body null_or_bulk vector_body map_body check_length stoll_view boolean_of
  switch bulk value plus line = pure (simple_string line)
  switch bulk value minus line = pure (simple_error line)
  switch bulk value colon line = do n ← lift (stoll_view line); pure (integer n)
  switch bulk value dollar line = do n ← lift (check_length (stoll_view line)); null_or_bulk bulk n
  switch bulk value star line = vector_body value array line
  switch bulk value underscore line = pure nullptr
  switch bulk value hash line = lift (boolean_of line)
  switch bulk value comma line = do d ← lift (stod_view line); pure (doublev d)
  switch bulk value paren line = pure (big_number line)
  switch bulk value bang line = bulk_body bulk bulk_error line
  switch bulk value equals line = bulk_body bulk verbatim_string line
  switch bulk value percent line = do ps ← map_body value line; pure (mapv ps)
  switch bulk value bar line = do ps ← map_body value line; v ← value; pure (attribute ps v)
  switch bulk value tilde line = vector_body value setv line
  switch bulk value greater line = vector_body value push line
  switch bulk value other line = throw bad_prefix

  -- The nesting is unbounded in the program; `f` bounds it in the model.
  unfoldable pub parse_recursion_or : Error → ℕ → M (Value D)
  unfolding switch classify read_line_or read_bulk_or
  parse_recursion_or idle zero = throw out_of_fuel
  parse_recursion_or idle (suc f) = do
    (ch, line) ← read_line_or idle
    switch (read_bulk_or idle) (parse_recursion_or idle f) (classify ch) line

  unfoldable pub parse_recursion : ℕ → M (Value D)
  unfolding parse_recursion_or
  parse_recursion = parse_recursion_or suspended

  unfoldable pub try_parse_recursion : ℕ → M (Value D)
  unfolding parse_recursion_or
  try_parse_recursion = parse_recursion_or eagain

-- The bytes that the socket still delivers.
unfoldable pub delivered : List Recv → Bytes
delivered [] = []
delivered (got bs ∷ rest) = bs ++ delivered rest
delivered (would_block ∷ rest) = delivered rest
delivered (fails e ∷ rest) = delivered rest

-- Each value takes at least one byte, so this many levels are never used up.
unfoldable pub fuel_for : Parser → ℕ
unfolding delivered
fuel_for s = suc (length s.linebuffer + length (delivered s.incoming))

module _ {D : Type 0} where
  unfoldable pub consume_if_ok : Result (Value D) × Parser → Result (Value D) × Parser
  unfolding consume
  consume_if_ok (ok v, s) = (ok v, consume s)
  consume_if_ok (err e, s) = (err e, s)

  unfoldable pub rewind : Result (Value D) × Parser → Result (Value D) × Parser
  rewind (r, s) = (r, record s { position = 0 })

-- What `try_parse_n` gives back: the values parsed and the error that stopped it, if it was not EAGAIN.
pub record Batch (D : Type 0) : Type 0 where
  pub values : List (Value D)
  pub error : Option Error

module _ {D : Type 0} where
  -- The end of `try_parse_n` after `vs` values: on EAGAIN the bytes before `pivot` are erased.
  unfoldable pub stop_batch : List (Value D) → ℕ → Error → Parser → Batch D × Parser
  stop_batch vs pivot e s =
      if is_eagain e
      then (
        record { values = vs; error = none },
        record s { linebuffer = drop pivot s.linebuffer; position = 0 },
      )
      else (record { values = vs; error = some e }, record s { position = 0 })

  unfoldable pub next_in_batch :
      (List (Value D) → Parser → Batch D × Parser)
      → List (Value D)
      → ℕ
      → Result (Value D) × Parser
      → Batch D × Parser
  unfolding stop_batch
  next_in_batch next vs pivot (ok v, s) = next (vs ++ (v ∷ [])) s
  next_in_batch next vs pivot (err e, s) = stop_batch vs pivot e s

module _ {D : Type 0} (stod_view : Bytes → Result D) (max_elements : ℕ) where
  unfoldable pub parse : M (Value D)
  unfolding parse_recursion consume_if_ok fuel_for
  parse s = consume_if_ok (parse_recursion stod_view max_elements (fuel_for s) s)

  unfoldable pub try_parse : M (Value D)
  unfolding try_parse_recursion consume_if_ok fuel_for rewind
  try_parse s = rewind (consume_if_ok (try_parse_recursion stod_view max_elements (fuel_for s) s))

  -- The loop of `try_parse_n`, with `n` rounds left and the values so far.
  unfoldable pub try_parse_n_from : ℕ → List (Value D) → Parser → Batch D × Parser
  unfolding next_in_batch try_parse_recursion fuel_for consume
  try_parse_n_from zero vs s = (record { values = vs; error = none }, consume s)
  try_parse_n_from (suc n) vs s =
      next_in_batch (try_parse_n_from n) vs s.position
        (try_parse_recursion stod_view max_elements (fuel_for s) s)

  unfoldable pub try_parse_n : ℕ → Parser → Batch D × Parser
  unfolding try_parse_n_from
  try_parse_n n s = try_parse_n_from n [] s
