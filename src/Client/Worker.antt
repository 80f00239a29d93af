-- ===== src/Client/Worker.antt =====
-- include/RedisClient.hpp, `worker`: the coroutine that keeps the connection of a pipe. Each event is
-- the end of what it waits for, with the value of `alive` that it then reads; `connect_spot`, the
-- reader and the writer are known by their results only. Requests may be pushed at any time.
use xredis_client.Base.{
  ℕ, ◌*◌, Bool, true, false, List, [], ◌∷◌, ◌++◌, Option, none, some, leb, if◌then◌else◌,
}
use xredis_client.Outcome.{Error}
use xredis_client.Parser.{Parser}
use xredis_client.Ring.{Slot, Ring, handles_of, push, drain}

pub data Phase : Type 0 where
  serving connecting sleeping gone : Phase

-- The pipe, the delay of the next attempt in seconds, the handles that were resumed with CONN ERR, and
-- the delays that were slept.
pub record Worker : Type 0 where
  pub phase : Phase
  pub parser : Parser
  pub ring : Ring
  pub timed : ℕ
  pub resumed : List ℕ
  pub slept : List ℕ

pub data Event : Type 0 where
  race_ended : (alive : Bool) → Event
  connect_ended : (e : Option Error) (alive : Bool) (parser : Parser) → Event
  timer_ended : (alive : Bool) → Event
  request : (s : Slot) → Event

abbrev pub max_backoff : ℕ
max_backoff = 32

abbrev pub backoff : ℕ → ℕ
backoff t = if leb (t * 2) max_backoff then t * 2 else max_backoff

-- An attempt to connect that fails, with the requests that come while it lasts and during the sleep
-- behind it.
pub record Failure : Type 0 where
  pub before : List Slot
  pub code : Error
  pub parser : Parser
  pub asleep : List Slot

-- The client is closed during an attempt, or in the sleep behind one.
pub data Closing : Type 0 where
  while_connecting : (before : List Slot) (r : Option Error) (p : Parser) → Closing
  while_sleeping : (f : Failure) → Closing

module _ (cap : ℕ) where
  unfoldable pub drain_pipe : Worker → Worker
  drain_pipe w =
      let (handles, r) = drain cap w.ring in record w { ring = r; resumed = w.resumed ++ handles }

  unfoldable pub request_pipe : Worker → Slot → Worker
  request_pipe w s = record w { ring = (push cap w.ring s).1 }

  unfoldable pub advance_worker : Worker → Phase → Event → Worker
  unfolding drain_pipe request_pipe
  advance_worker w serving (race_ended false) = record (drain_pipe w) { phase = gone }
  advance_worker w serving (race_ended true) =
      let d = drain_pipe w in
      record d {
        phase = connecting;
        parser = xredis_client.Parser.reset d.parser;
        ring = xredis_client.Ring.reset d.ring;
      }
  advance_worker w connecting (connect_ended e false p) = record w { phase = gone; parser = p }
  advance_worker w connecting (connect_ended (some e) true p) = record w {
    phase = sleeping;
    parser = p;
    slept = w.slept ++ (w.timed ∷ []);
  }
  advance_worker w connecting (connect_ended none true p) = record w {
    phase = serving;
    parser = p;
    timed = 1;
  }
  advance_worker w sleeping (timer_ended false) = record w { phase = gone }
  advance_worker w sleeping (timer_ended true) = record w {
    phase = connecting;
    timed = backoff w.timed;
  }
  advance_worker w gone (request s) = w
  advance_worker w phase (request s) = request_pipe w s
  advance_worker w phase event = w

  unfoldable pub run_worker : Worker → List Event → Worker
  unfolding advance_worker
  run_worker w [] = w
  run_worker w (e ∷ es) = run_worker (advance_worker w w.phase e) es
