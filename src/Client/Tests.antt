-- ===== src/Client/Tests.antt =====
-- Commands at concrete arguments.
use xredis_client.Base.{ℕ, arith, List, refl, Bytes, codes, [], ◌∷◌, ◌≡◌, none}
use xredis_client.Base.Int.{pos}
use xredis_client.Connection.{get_slot}
use xredis_client.Client.{word, key_position}
use xredis_client.Outcome.{Result, ok}
use xredis_client.Client.Writer.{joined, advance, send_batch, Progress, send_batch-joined}
use xredis_client.Client.Lists.{blmpop}
use xredis_client.Client.Routes.{KeyedCommand, of_list, keyed_args, keyed_route, keyed_route-key}
use xredis_client.Base.{◌+◌, ◌^◌}
use xredis_client.Base.Decimal.{to_chars, to_chars_signed}
use xredis_client.Outcome.{suspended}
use xredis_client.Value.{Value, simple_string, integer}
use xredis_client.Parser.{got}
use xredis_client.Parser.Replies.{delivered}
use xredis_client.Parser.Stream.{Ready}
use xredis_client.Parser.Encode.{encode, IsEncodable}
use xredis_client.Parser.Batches.{encode_all, AllEncodable}
use xredis_client.Ring.{Slot, Ring}
use xredis_client.Ring.Queue.{IsValid}
use xredis_client.Base.{true, ◌++◌}
use xredis_client.Outcome.{econnreset, eagain}
use xredis_client.Parser.{Parser}
use xredis_client.Client.Worker.{
  Worker, Failure, serving, race_ended, connect_ended, run_worker, Closing, while_sleeping,
}
use xredis_client.Client.Outage.{
  requests, failures, closing, asked, asked_closing, delays, Reconnected, Lost, worker-reconnects,
  closed-loses,
}
use xredis_client.Ring.Many.{push_all}
use xredis_client.Client.Reader.{Pipe, reader}
use xredis_client.Client.Served.{OnlyPushes, Served}
use xredis_client.Client.Matching.{reader-answers}

-- A double as its own text.
abbrev same : Bytes → Bytes
same s = s

abbrev request : KeyedCommand Bytes
request = of_list (blmpop (codes "0.5") (pos 1) (codes "l") (codes "LEFT" ∷ []))

keyed_route-key_example : keyed_route same request ≡ (
  get_slot (word (key_position (word 0 (keyed_args same request))) (keyed_args same request)),
  keyed_args same request,
)
keyed_route-key_example = keyed_route-key same request

-- Two buffers, sent in two calls.
abbrev buffers : List Bytes
buffers = codes "ab" ∷ codes "cde" ∷ []

abbrev calls : List (Result ℕ)
calls = ok 3 ∷ ok 2 ∷ ok 1 ∷ ok 1 ∷ ok 1 ∷ []

calls-Progress : Progress calls buffers
unfolding advance
calls-Progress =
    (omega arith, omega arith, λ h. (omega arith, omega arith, λ k. absurd (omega arith)))

send_batch-joined_example : send_batch calls 5 0 buffers ≡ (ok tt, joined buffers)
send_batch-joined_example =
    send_batch-joined calls 5 0 buffers (omega arith) refl (omega arith) calls-Progress

-- Two replies, of which the second is in two packets, for two of three requests that wait.
abbrev replies : List (Value Bytes)
replies = simple_string (codes "OK") ∷ integer (pos 12) ∷ []

abbrev view : Bytes → Result Bytes
view = ok

abbrev limit : ℕ
limit = 2 ^ 59

abbrev waiting_at : ℕ → Slot
waiting_at h = record { handle = h; payload = codes "x" }

abbrev pipe : Pipe Bytes
pipe = record {
  parser = record {
    linebuffer = [];
    position = 0;
    incoming = got (codes "+OK\r\n:1") ∷ got (codes "2\r\n") ∷ [];
  };
  ring = record {
    head = 0;
    head_committed = 2;
    tail = 3;
    handles = λ i. 7 + i;
    payloads = λ _. codes "x";
  };
  resumed = [];
}

-- Each coroutine sends one request more.
abbrev asks_again : ℕ → Value Bytes → Ring → Ring
asks_again h v r = push_all 4 r (waiting_at (h + 20) ∷ [])

asks_again-OnlyPushes : OnlyPushes view limit 4 asks_again 1
asks_again-OnlyPushes = record { pushes = λ h v r. (waiting_at (h + 20) ∷ [], omega arith, refl) }

pipe-Ready : Ready pipe.parser (encode_all same view limit replies)
unfolding encode delivered to_chars to_chars_signed
pipe-Ready = record {
  inside = omega arith;
  ahead = refl;
  flowing = ((λ e. cc), ((λ e. cc), tt));
  small = omega arith;
}

pipe-IsValid : IsValid 4 pipe.ring
pipe-IsValid = record {
  room = omega arith;
  sent = omega arith;
  known = omega arith;
  bounded = omega arith;
  counted = omega arith;
}

replies-AllEncodable : AllEncodable same view limit replies
unfolding IsEncodable
replies-AllEncodable = ((omega arith, (omega arith, tt)), (omega arith, tt))

reader-answers_example :
    (q : Pipe Bytes) × (reader view limit 4 asks_again 3 pipe ≡ (suspended, q))
    × Served view limit 4 asks_again 1 pipe q
        (waiting_at 7 ∷ waiting_at 8 ∷ [])
        (waiting_at 9 ∷ [])
        replies
    × Ready q.parser []
reader-answers_example =
    reader-answers same view limit 4 asks_again 1 asks_again-OnlyPushes 3 replies pipe
      (waiting_at 7 ∷ waiting_at 8 ∷ []) (waiting_at 9 ∷ []) (omega arith) replies-AllEncodable
      pipe-Ready pipe-IsValid (omega arith) refl refl (omega arith)

-- The connection breaks, two attempts fail, and the third succeeds.
abbrev serving_worker : Worker
serving_worker = record {
  phase = serving;
  parser = pipe.parser;
  ring = pipe.ring;
  timed = 1;
  resumed = [];
  slept = [];
}

abbrev fresh_parser : Parser
fresh_parser = record { linebuffer = []; position = 0; incoming = [] }

abbrev attempts : List Failure
attempts =
    record {
      before = waiting_at 20 ∷ [];
      code = econnreset;
      parser = fresh_parser;
      asleep = waiting_at 21 ∷ [];
    }
    ∷ record { before = []; code = eagain; parser = fresh_parser; asleep = [] }
    ∷ []

abbrev last_asked : List Slot
last_asked = waiting_at 22 ∷ []

worker-reconnects_example :
    Reconnected 4 serving_worker attempts (asked attempts ++ last_asked) fresh_parser (
      run_worker 4 serving_worker (
        race_ended true
        ∷ failures attempts (requests last_asked (connect_ended none true fresh_parser ∷ []))))
worker-reconnects_example =
    worker-reconnects 4 serving_worker attempts last_asked fresh_parser refl refl pipe-IsValid
      (omega arith) (omega arith)

slept_two : delays 0 7 ≡ 1 ∷ 2 ∷ 4 ∷ 8 ∷ 16 ∷ 32 ∷ 32 ∷ []
slept_two = refl

-- Closed in the sleep behind the third attempt.
abbrev closed_late : Closing
closed_late =
    while_sleeping
      record { before = []; code = econnreset; parser = fresh_parser; asleep = waiting_at 23 ∷ [] }

closed-loses_example :
    Lost 4 serving_worker
      (asked attempts ++ asked_closing closed_late)
      (run_worker 4 serving_worker (race_ended true ∷ failures attempts (closing closed_late [])))
closed-loses_example =
    closed-loses 4 serving_worker attempts closed_late [] refl refl pipe-IsValid (omega arith)
      (omega arith)
