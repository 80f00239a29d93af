-- ===== src/Connection/Open.antt =====
-- src/RedisConnection.cpp, `connect_spot` without TLS: the TCP connection, the loop that sends the first
-- requests, and the two replies. The results of `connect` and of each `send` are given; a timeout is
-- one of their codes.
use xredis_client.Base.{
  ℕ, zero, suc, ◌<◌, ◌≤◌, Bytes, Bool, true, false, ◌||◌, not, List, [], ◌∷◌, ◌++◌, ◌==◌,
  if◌then◌else◌, codes, same_word, length, take, drop, Bool-cases, inl, inr, length-drop,
  length-append, take-append-drop, ◌≡◌, refl, ap, ◌∙◌, arith,
}
use xredis_client.Outcome.{Error, Result, ok, err, suspended, econnreset, einval, is_code, code_or}
use xredis_client.Value.{Value, is_map, is_array, is_simple_string, as_string, simple_string}
use xredis_client.Parser.{Parser}
use xredis_client.Parser.Replies.{parse}
use xredis_client.Parser.Stream.{Ready}
use xredis_client.Parser.Encode.{encode, IsEncodable}
use xredis_client.Parser.Idle.{parse-next}
use xredis_client.Base.Decimal.{to_chars, to_chars_signed}
use xredis_client.Command.{build_commands, unpack_all, command_unpack, argc_line, crlf}
use xredis_client.Connection.Hello.{ConnectionOption, hello_words, db_index, opening}

-- The loop round `send`: the result, and the bytes that go out. The coroutine waits (`suspended`) where
-- no more results come.
unfoldable pub send_all : List (Result ℕ) → Bytes → Result (Unit {0}) × Bytes
send_all [] data_ = (err suspended, [])
send_all (err e ∷ results) data_ = (err e, [])
send_all (ok n ∷ results) data_ =
    let (r, more) = send_all results (drop n data_) in
    if n == 0
    then (err econnreset, [])
    else if length data_ == n
    then (ok tt, take n data_)
    else (r, take n data_ ++ more)

-- Each call sends something, and no more than there is, until all is sent.
abbrev pub Sends : List (Result ℕ) → Bytes → Type 0
Sends [] data_ = Unit {0}
Sends (err e ∷ results) data_ = ⊥
Sends (ok n ∷ results) data_ =
    (0 < n) × (n ≤ length data_) × (n < length data_ → Sends results (drop n data_))

take-whole : (n : ℕ) (xs : Bytes) → length xs ≤ n → take n xs ≡ xs
take-whole zero [] h = refl
take-whole zero (x ∷ xs) h = absurd (omega arith)
take-whole (suc n) [] h = refl
take-whole (suc n) (x ∷ xs) h = ap (◌∷◌ x) (take-whole n xs (omega arith))

pub send_all-whole :
    (results : List (Result ℕ)) (data_ : Bytes)
    → 0 < length data_
    → length data_ ≤ length results
    → Sends results data_
    → send_all results data_ ≡ (ok tt, data_)
unfolding send_all
send_all-whole [] data_ p l s = absurd (omega arith)
send_all-whole (err e ∷ results) data_ p l s = absurd s
send_all-whole (ok n ∷ results) data_ p l s =
    let positive : (n == 0) ≡ false = ground (arith, s.0) in
    elim (Bool-cases (length data_ == n)) [
      | inl t ↦ rw (positive, t) (ap (λ b. (ok tt, b)) (take-whole n data_ (ground (arith, t))))
      | inr t ↦
          let less : n < length data_ = ground (arith, t, s.1) in
          let rest =
            send_all-whole results (drop n data_) (omega (arith, less, length-drop n data_))
              (omega (arith, l, s.0, length-drop n data_)) (s.2 less) in
          rw (positive, t, rest) (ap (λ b. (ok tt, b)) (take-append-drop n data_))
    ]

-- The function came to its end, with a code.
abbrev pub has_failed : {A : Type 0} → Result A → Bool
has_failed (ok a) = false
has_failed (err e) = is_code e

-- What became of an attempt: its result, the bytes sent, the parser, and whether the client was closed.
pub record Attempt (D : Type 0) : Type 0 where
  pub result : Result (Value D)
  pub sent : Bytes
  pub parser : Parser
  pub closed : Bool

module _ {D : Type 0} (stod_view : Bytes → Result D) (max_elements : ℕ) where
  -- `client.close()` and the code, if there is one.
  unfoldable pub fails_with : Error → Bytes → Parser → Attempt D
  fails_with e sent p = record { result = err e; sent = sent; parser = p; closed = is_code e }

  -- The reply to SELECT.
  unfoldable pub check_select : Value D → Bytes → Result (Value D) × Parser → Attempt D
  unfolding fails_with is_simple_string as_string
  check_select hello sent (err e, p) = fails_with (code_or einval e) sent p
  check_select hello sent (ok v, p) =
      if not (is_simple_string v) || not (same_word (as_string v) (codes "OK"))
      then fails_with einval sent p
      else record { result = ok hello; sent = sent; parser = p; closed = false }

  -- The reply to HELLO.
  unfoldable pub check_hello : Bytes → Result (Value D) × Parser → Attempt D
  unfolding fails_with check_select is_map is_array
  check_hello sent (err e, p) = fails_with (code_or einval e) sent p
  check_hello sent (ok v, p) =
      let next = check_select v sent (parse stod_view max_elements p) in
      if not (is_map v || is_array v) then fails_with einval sent p else next

  unfoldable pub after_send : Parser → Result (Unit {0}) × Bytes → Attempt D
  unfolding fails_with check_hello
  after_send p (err e, sent) = fails_with e sent p
  after_send p (ok t, sent) = check_hello sent (parse stod_view max_elements p)

  unfoldable pub connect_spot :
      ConnectionOption → Result (Unit {0}) → List (Result ℕ) → Parser → Attempt D
  unfolding fails_with after_send send_all opening
  connect_spot o (err e) results p = fails_with e [] p
  connect_spot o (ok t) results p = after_send p (send_all results (opening o))

pub length-unpack_all :
    (acc : Bytes) (args : List Bytes) → length acc ≤ length (unpack_all acc args)
unfolding unpack_all command_unpack
length-unpack_all acc [] = omega arith
length-unpack_all acc (arg ∷ args) = omega (
  arith,
  length-unpack_all (command_unpack acc arg) args,
  length-append {0} acc (b'$' ∷ (to_chars (length arg) ++ (crlf ++ (arg ++ crlf)))),
)

opening-positive : (o : ConnectionOption) → 0 < length (opening o)
unfolding opening build_commands
opening-positive o =
    let select = build_commands (codes "SELECT" ∷ to_chars_signed (db_index o.db) ∷ []) in
    omega (
      arith,
      length-append {0} (build_commands (hello_words o)) select,
      length-unpack_all (argc_line (length (hello_words o))) (hello_words o),
    )

ok_reply-IsEncodable :
    {D : Type 0} (show : D → Bytes) (stod_view : Bytes → Result D) (max_elements : ℕ)
    → IsEncodable show stod_view max_elements (simple_string (codes "OK"))
unfolding IsEncodable
ok_reply-IsEncodable show stod_view max_elements = (omega arith, (omega arith, tt))

module _ {D : Type 0} (show : D → Bytes) (stod_view : Bytes → Result D) (max_elements : ℕ) where
  -- If the server takes the bytes that are sent, in as many pieces as there are bytes at most, and its
  -- replies, in whatever packets and within the limit of a bulk, are a map or an array and then OK, connect_spot sends each of the first
  -- requests once and whole, gives back the reply to HELLO with the connection open, and has read no byte behind
  -- the two replies.
  pub connect_spot-opens :
      (o : ConnectionOption) (results : List (Result ℕ)) (p : Parser) (hello : Value D)
      (rest : Bytes)
      → length (opening o) ≤ length results
      → Sends results (opening o)
      → IsEncodable show stod_view max_elements hello
      → (is_map hello || is_array hello) ≡ true
      → Ready p (encode show hello ++ (encode show (simple_string (codes "OK")) ++ rest))
      → (q : Parser) × (connect_spot stod_view max_elements o (ok tt) results p
          ≡ record { result = ok hello; sent = opening o; parser = q; closed = false })
        × Ready q rest
  unfolding connect_spot after_send check_hello check_select is_simple_string as_string
  connect_spot-opens o results p hello rest l s h m r =
      let sends = send_all-whole results (opening o) (opening-positive o) l s in
      let (p1, first, r1) = parse-next show stod_view max_elements hello p _ h r in
      let (p2, second, r2) =
        parse-next show stod_view max_elements (simple_string (codes "OK")) p1 rest
          (ok_reply-IsEncodable show stod_view max_elements) r1 in
      (
        p2,
        ap (after_send stod_view max_elements p) sends
            ∙ ap (check_hello stod_view max_elements (opening o)) first
            ∙ rw m refl
            ∙ ap (check_select stod_view max_elements hello (opening o)) second,
        r2,
      )

  -- The connection is closed exactly if the attempt came to its end with a code.
  abbrev pub ClosedOnError : Attempt D → Type 0
  ClosedOnError a = a.closed ≡ has_failed a.result

  check_select-closes :
      (hello : Value D) (sent : Bytes) (r : Result (Value D) × Parser)
      → ClosedOnError (check_select stod_view max_elements hello sent r)
  unfolding check_select fails_with
  check_select-closes hello sent (err e, p) = refl
  check_select-closes hello sent (ok v, p) =
      elim (Bool-cases (not (is_simple_string v) || not (same_word (as_string v) (codes "OK")))) [
        | inl t ↦ rw t refl
        | inr t ↦ rw t refl
      ]

  check_hello-closes :
      (sent : Bytes) (r : Result (Value D) × Parser)
      → ClosedOnError (check_hello stod_view max_elements sent r)
  unfolding check_hello fails_with
  check_hello-closes sent (err e, p) = refl
  check_hello-closes sent (ok v, p) = elim (Bool-cases (not (is_map v || is_array v))) [
    | inl t ↦ rw t refl
    | inr t ↦ rw t (check_select-closes v sent (parse stod_view max_elements p))
  ]

  after_send-closes :
      (p : Parser) (r : Result (Unit {0}) × Bytes)
      → ClosedOnError (after_send stod_view max_elements p r)
  unfolding after_send fails_with
  after_send-closes p (err e, sent) = refl
  after_send-closes p (ok t, sent) = check_hello-closes sent (parse stod_view max_elements p)

  -- Whatever the options, the results of `connect` and `send`, and the replies are: `connect_spot` closes
  -- the connection exactly if it comes to its end with a code. It is open on success, while the
  -- coroutine still waits, and where the process ends.
  pub connect_spot-closes :
      (o : ConnectionOption) (tcp : Result (Unit {0})) (results : List (Result ℕ)) (p : Parser)
      → ClosedOnError (connect_spot stod_view max_elements o tcp results p)
  unfolding connect_spot fails_with
  connect_spot-closes o (err e) results p = refl
  connect_spot-closes o (ok t) results p = after_send-closes p (send_all results (opening o))
