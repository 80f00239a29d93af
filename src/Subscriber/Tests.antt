-- ===== src/Subscriber/Tests.antt =====
-- A subscription whose request goes out in two pieces.
use xredis_client.Base.{ℕ, List, [], ◌∷◌, codes, length, ◌≡◌, refl, arith}
use xredis_client.Base.Decimal.{to_chars}
use xredis_client.Outcome.{Result, ok}
use xredis_client.Command.{build_commands}
use xredis_client.Subscriber.{
  Request, subscribe_range, request_words, send_request, send_request-sent,
}

abbrev request : Request
request = subscribe_range (codes "news" ∷ [])

abbrev pieces : List (Result ℕ)
pieces = ok 10 ∷ ok 0 ∷ ok 30 ∷ []

length-build_commands : length (build_commands (request_words request)) ≡ 29
unfolding build_commands to_chars
length-build_commands = refl

send_request-sent_example :
    send_request pieces request ≡ (ok tt, build_commands (request_words request))
send_request-sent_example = send_request-sent pieces request (omega (arith, length-build_commands))
