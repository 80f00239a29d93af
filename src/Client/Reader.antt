-- ===== src/Client/Reader.antt =====
-- include/RedisClient.hpp, `reader`: it takes the replies from the parser and resumes for each the
-- handle whose turn it is in the ring. What a resumed coroutine does to the ring before it waits
-- again is a parameter.
use xredis_client.Base.{ℕ, zero, suc, Bytes, List, [], ◌∷◌, ◌++◌, none, some}
use xredis_client.Outcome.{Error, Result, ok, err, out_of_fuel}
use xredis_client.Value.{Value}
use xredis_client.Parser.{Parser}
use xredis_client.Parser.Replies.{parse, try_parse_n, Batch}
use xredis_client.Ring.{Ring, pop}

-- XREDIS_PIPELINE_BATCH_SIZE
abbrev pub batch_size : ℕ
batch_size = 64

-- The pipe as the reader sees it, with the handles that were resumed and the result of each.
pub record Pipe (D : Type 0) : Type 0 where
  pub parser : Parser
  pub ring : Ring
  pub resumed : List (ℕ × Value D)

module _ {D : Type 0} (stod_view : Bytes → Result D) (max_elements cap : ℕ)
    (run : ℕ → Value D → Ring → Ring) where
  -- `pop`, the result, and `handle.resume()`.
  unfoldable pub deliver : Value D → Pipe D → Pipe D
  deliver v p =
      let (s, r) = pop cap p.ring in
      record p { ring = run s.handle v r; resumed = p.resumed ++ ((s.handle, v) ∷ []) }

  unfoldable pub deliver_all : List (Value D) → Pipe D → Pipe D
  unfolding deliver
  deliver_all [] p = p
  deliver_all (v ∷ vs) p = deliver_all vs (deliver v p)

  -- The end of a round, with the batch that `try_parse_n` gave.
  unfoldable pub after_batch :
      (Pipe D → Error × Pipe D) → Pipe D → Batch D × Parser → Error × Pipe D
  unfolding deliver_all
  after_batch next p (b, s) =
      let q = deliver_all b.values (record p { parser = s }) in
      elim b.error [ none ↦ next q | some e ↦ (e, q) ]

  unfoldable pub after_reply :
      (Pipe D → Error × Pipe D) → Pipe D → Result (Value D) × Parser → Error × Pipe D
  unfolding after_batch deliver
  after_reply next p (err e, s) = (e, record p { parser = s })
  after_reply next p (ok v, s) =
      let q = deliver v (record p { parser = s }) in
      after_batch next q (try_parse_n stod_view max_elements batch_size q.parser)

  -- `fuel` rounds at most.
  unfoldable pub reader : ℕ → Pipe D → Error × Pipe D
  unfolding after_reply
  reader zero p = (out_of_fuel, p)
  reader (suc fuel) p = after_reply (reader fuel) p (parse stod_view max_elements p.parser)
