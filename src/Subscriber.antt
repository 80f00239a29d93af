-- ===== src/Subscriber.antt =====
-- include/RedisSubscriber.hpp: the requests of a subscriber and the loop that sends them. Its
-- `connect` is `connect_spot`, and `read_one_packet` the `parse` of the parser.
mod Tests
use xredis_client.Base.{
  ℕ, zero, suc, ◌+◌, ◌-◌, ◌<◌, ◌≤◌, Bytes, List, [], ◌∷◌, ◌++◌, codes, length, length-drop, take,
  drop, take-append-drop, ◌≡◌, refl, sym, ap, ◌∙◌, arith,
}
use xredis_client.Outcome.{Result, ok, err, suspended}
use xredis_client.Parser.{Parser, reset}
use xredis_client.Command.{build_commands, build_commands_from_range}
use xredis_client.Command.Builder.{range-build_commands}

pub data Request : Type 0 where
  subscribe unsubscribe psubscribe punsubscribe :
      (channel : Bytes) (channels : List Bytes) → Request
  subscribe_range unsubscribe_range psubscribe_range punsubscribe_range :
      (channels : List Bytes) → Request

unfoldable pub request_bytes : Request → Bytes
unfolding build_commands build_commands_from_range
request_bytes (subscribe c cs) = build_commands (codes "SUBSCRIBE" ∷ c ∷ cs)
request_bytes (unsubscribe c cs) = build_commands (codes "UNSUBSCRIBE" ∷ c ∷ cs)
request_bytes (psubscribe c cs) = build_commands (codes "PSUBSCRIBE" ∷ c ∷ cs)
request_bytes (punsubscribe c cs) = build_commands (codes "PUNSUBSCRIBE" ∷ c ∷ cs)
request_bytes (subscribe_range cs) = build_commands_from_range (codes "SUBSCRIBE") cs
request_bytes (unsubscribe_range cs) = build_commands_from_range (codes "UNSUBSCRIBE") cs
request_bytes (psubscribe_range cs) = build_commands_from_range (codes "PSUBSCRIBE") cs
request_bytes (punsubscribe_range cs) = build_commands_from_range (codes "PUNSUBSCRIBE") cs

-- The loop, with the bytes that are left: its result, and what goes out.
unfoldable pub send_while : List (Result ℕ) → Bytes → Result (Unit {0}) × Bytes
send_while results [] = (ok tt, [])
send_while [] (b ∷ bs) = (err suspended, [])
send_while (err e ∷ results) (b ∷ bs) = (err e, [])
send_while (ok n ∷ results) (b ∷ bs) =
    let (r, more) = send_while results (drop n (b ∷ bs)) in (r, take n (b ∷ bs) ++ more)

unfoldable pub send_request : List (Result ℕ) → Request → Result (Unit {0}) × Bytes
unfolding send_while request_bytes
send_request results q = send_while results (request_bytes q)

unfoldable pub close_subscriber : Parser → Parser
unfolding reset
close_subscriber p = reset p

-- The words of a request.
abbrev pub request_words : Request → List Bytes
request_words (subscribe c cs) = codes "SUBSCRIBE" ∷ c ∷ cs
request_words (unsubscribe c cs) = codes "UNSUBSCRIBE" ∷ c ∷ cs
request_words (psubscribe c cs) = codes "PSUBSCRIBE" ∷ c ∷ cs
request_words (punsubscribe c cs) = codes "PUNSUBSCRIBE" ∷ c ∷ cs
request_words (subscribe_range cs) = codes "SUBSCRIBE" ∷ cs
request_words (unsubscribe_range cs) = codes "UNSUBSCRIBE" ∷ cs
request_words (psubscribe_range cs) = codes "PSUBSCRIBE" ∷ cs
request_words (punsubscribe_range cs) = codes "PUNSUBSCRIBE" ∷ cs

request_bytes-build_commands : (q : Request) → request_bytes q ≡ build_commands (request_words q)
unfolding request_bytes
request_bytes-build_commands (subscribe c cs) = refl
request_bytes-build_commands (unsubscribe c cs) = refl
request_bytes-build_commands (psubscribe c cs) = refl
request_bytes-build_commands (punsubscribe c cs) = refl
request_bytes-build_commands (subscribe_range cs) =
    (range-build_commands (codes "SUBSCRIBE") [] cs).0
request_bytes-build_commands (unsubscribe_range cs) =
    (range-build_commands (codes "UNSUBSCRIBE") [] cs).0
request_bytes-build_commands (psubscribe_range cs) =
    (range-build_commands (codes "PSUBSCRIBE") [] cs).0
request_bytes-build_commands (punsubscribe_range cs) =
    (range-build_commands (codes "PUNSUBSCRIBE") [] cs).0

-- Each call succeeds; `done` counts the bytes.
abbrev pub total : List (Result ℕ) → ℕ
total [] = 0
total (err e ∷ results) = 0
total (ok n ∷ results) = n + total results

pub send_while-whole :
    (results : List (Result ℕ)) (bs : Bytes)
    → length bs ≤ total results
    → send_while results bs ≡ (ok tt, bs)
unfolding send_while
send_while-whole results [] h = refl
send_while-whole [] (b ∷ bs) h = absurd (omega arith)
send_while-whole (err e ∷ results) (b ∷ bs) h = absurd (omega arith)
send_while-whole (ok n ∷ results) (b ∷ bs) h =
    let rest : send_while results (drop n (b ∷ bs)) ≡ (ok tt, drop n (b ∷ bs)) =
      send_while-whole results (drop n (b ∷ bs)) (omega (arith, h, length-drop n (b ∷ bs))) in
    rw rest (ap (λ x. (ok tt, x)) (take-append-drop n (b ∷ bs)))

-- If the calls of `send` that succeed before one fails count as many bytes as the request has,
-- whatever zeros are among them, the request goes out whole and once: its command and its channels
-- as a RESP array, also where they come from a range.
pub send_request-sent :
    (results : List (Result ℕ)) (q : Request)
    → length (build_commands (request_words q)) ≤ total results
    → send_request results q ≡ (ok tt, build_commands (request_words q))
unfolding send_request
send_request-sent results q h =
    ap (send_while results) (request_bytes-build_commands q)
    ∙ send_while-whole results (build_commands (request_words q)) h
