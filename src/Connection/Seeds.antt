-- ===== src/Connection/Seeds.antt =====
-- src/RedisConnection.cpp, `connect_cluster` without TLS: the seeds are tried one after the other until
-- one gives its slots.
use xredis_client.Base.{
  ℕ, ◌<◌, ◌≤◌, Bytes, true, ◌||◌, not, List, [], ◌∷◌, ◌++◌, Option, if◌then◌else◌, codes, length,
  length-append, ◌≡◌, refl, ap, ◌∙◌, arith,
}
use xredis_client.Base.Int.{ℤ}
use xredis_client.Outcome.{Error, Result, ok, err, einval, is_code, code_or}
use xredis_client.Value.{Value, is_map, is_array}
use xredis_client.Parser.{Parser}
use xredis_client.Parser.Replies.{parse}
use xredis_client.Parser.Stream.{Ready}
use xredis_client.Parser.Encode.{encode, IsEncodable}
use xredis_client.Parser.Idle.{parse-next}
use xredis_client.Command.{build_commands, argc_line}
use xredis_client.Connection.Hello.{resp_version, auth_words}
use xredis_client.Connection.Open.{send_all, Sends, send_all-whole, length-unpack_all, has_failed}

pub record ClusterConnectionOption : Type 0 where
  pub username : Option Bytes
  pub password : Option Bytes
  pub clientname : Option Bytes
  pub resp : ℤ

-- What one seed does: the result of `connect`, those of `send`, and what it then sends.
pub record Seed : Type 0 where
  pub tcp : Result (Unit {0})
  pub results : List (Result ℕ)
  pub parser : Parser

abbrev pub hello_of : ClusterConnectionOption → List Bytes
hello_of o = codes "HELLO" ∷ resp_version o.resp ∷ auth_words o.username o.password o.clientname

unfoldable pub cluster_opening : ClusterConnectionOption → Bytes
unfolding build_commands
cluster_opening o =
    build_commands (hello_of o) ++ build_commands (codes "CLUSTER" ∷ codes "SLOTS" ∷ [])

module _ {D : Type 0} (stod_view : Bytes → Result D) (max_elements : ℕ) where
  -- The reply to CLUSTER SLOTS.
  unfoldable pub check_slots : Result (Value D) × Parser → Result (Value D)
  unfolding is_array
  check_slots (err e, p) = err (code_or einval e)
  check_slots (ok v, p) = if not (is_array v) then err einval else ok v

  unfoldable pub seed_hello : Result (Value D) × Parser → Result (Value D)
  unfolding check_slots is_map is_array
  seed_hello (err e, p) = err (code_or einval e)
  seed_hello (ok v, p) =
      let next = check_slots (parse stod_view max_elements p) in
      if not (is_map v || is_array v) then err einval else next

  -- The result of a seed, with the bytes that it was sent.
  unfoldable pub seed_sent : Parser → Result (Unit {0}) × Bytes → Result (Value D) × Bytes
  unfolding seed_hello
  seed_sent p (err e, sent) = (err e, sent)
  seed_sent p (ok t, sent) = (seed_hello (parse stod_view max_elements p), sent)

  abbrev pub connected :
      ClusterConnectionOption → Seed → Result (Unit {0}) → Result (Value D) × Bytes
  connected o s (err e) = (err e, [])
  connected o s (ok t) = seed_sent s.parser (send_all s.results (cluster_opening o))

  -- One round of the loop.
  unfoldable pub try_seed : ClusterConnectionOption → Seed → Result (Value D) × Bytes
  unfolding seed_sent send_all cluster_opening
  try_seed o s = connected o s s.tcp

  -- After the first seed: a code leads to the next one, and what is no code ends the loop there.
  abbrev pub or_next :
      Result (Value D) × Bytes
      → (Error → Result (Value D) × List Bytes)
      → Result (Value D) × List Bytes
  or_next (ok v, sent) next = (ok v, sent ∷ [])
  or_next (err e, sent) next =
      let (r, more) = next e in if is_code e then (r, sent ∷ more) else (err e, sent ∷ [])

  -- The loop, with what was sent to each seed that was tried; the code of the last failure is what is
  -- left.
  unfoldable pub try_seeds :
      ClusterConnectionOption → Error → List Seed → Result (Value D) × List Bytes
  unfolding try_seed
  try_seeds o last [] = (err last, [])
  try_seeds o last (s ∷ ss) = or_next (try_seed o s) (λ e. try_seeds o e ss)

  unfoldable pub connect_cluster :
      ClusterConnectionOption → List Seed → Result (Value D) × List Bytes
  unfolding try_seeds
  connect_cluster o seeds = try_seeds o einval seeds

  -- Each seed comes to an end with a code.
  abbrev pub AllFail : ClusterConnectionOption → List Seed → Type 0
  AllFail o [] = Unit {0}
  AllFail o (s ∷ ss) = (has_failed (try_seed o s).0 ≡ true) × AllFail o ss

  -- What goes out to seeds that are tried one after the other.
  abbrev pub sent_to : ClusterConnectionOption → List Seed → List Bytes
  sent_to o [] = []
  sent_to o (s ∷ ss) = (try_seed o s).1 ∷ sent_to o ss

  or_next-skips :
      (r : Result (Value D) × Bytes) (next : Error → Result (Value D) × List Bytes) (v : Value D)
      (more : List Bytes)
      → has_failed r.0 ≡ true
      → ((e : Error) → next e ≡ (ok v, more))
      → or_next r next ≡ (ok v, r.1 ∷ more)
  or_next-skips (ok w, sent) next v more e h = absurd (ground (arith, e))
  or_next-skips (err x, sent) next v more e h = rw (h x, e) refl

  passes_failing :
      (o : ClusterConnectionOption) (last : Error) (failing ss : List Seed) (v : Value D)
      (more : List Bytes)
      → AllFail o failing
      → ((e : Error) → try_seeds o e ss ≡ (ok v, more))
      → try_seeds o last (failing ++ ss) ≡ (ok v, sent_to o failing ++ more)
  unfolding try_seeds
  passes_failing o last [] ss v more f h = h last
  passes_failing o last (s ∷ failing) ss v more (bad, f) h =
      or_next-skips (try_seed o s) (λ e. try_seeds o e (failing ++ ss)) v
        (sent_to o failing ++ more) bad (λ e. passes_failing o e failing ss v more f h)

cluster_opening-positive : (o : ClusterConnectionOption) → 0 < length (cluster_opening o)
unfolding cluster_opening build_commands
cluster_opening-positive o = omega (
  arith,
  length-append {0} (build_commands (hello_of o))
      (build_commands (codes "CLUSTER" ∷ codes "SLOTS" ∷ [])),
  length-unpack_all (argc_line (length (hello_of o))) (hello_of o),
)

module _ {D : Type 0} (show : D → Bytes) (stod_view : Bytes → Result D) (max_elements : ℕ) where
  -- If each seed before it fails with a code, a seed to which the client connects, that takes the bytes that
  -- are sent, in as many pieces as there are bytes at most, and whose replies, in whatever packets
  -- and within the limit of a bulk, are a map or an array and then an array, gives
  -- connect_cluster its second reply. It is sent HELLO with the options and CLUSTER SLOTS, once and
  -- whole, and of all the seeds only it and those before it are tried.
  pub connect_cluster-finds :
      (o : ClusterConnectionOption) (failing ss : List Seed) (good : Seed) (hello slots : Value D)
      (rest : Bytes)
      → AllFail stod_view max_elements o failing
      → good.tcp ≡ ok tt
      → length (cluster_opening o) ≤ length good.results
      → Sends good.results (cluster_opening o)
      → IsEncodable show stod_view max_elements hello
      → IsEncodable show stod_view max_elements slots
      → (is_map hello || is_array hello) ≡ true
      → is_array slots ≡ true
      → Ready good.parser (encode show hello ++ (encode show slots ++ rest))
      → connect_cluster stod_view max_elements o (failing ++ (good ∷ ss)) ≡ (
        ok slots,
        sent_to stod_view max_elements o failing
            ++ ((build_commands (hello_of o)
                  ++ build_commands (codes "CLUSTER" ∷ codes "SLOTS" ∷ []))
                ∷ []),
      )
  unfolding connect_cluster try_seeds try_seed seed_sent seed_hello check_slots cluster_opening
  connect_cluster-finds o failing ss good hello slots rest f t l s h h' m m' r =
      let sends =
        send_all-whole good.results (cluster_opening o) (cluster_opening-positive o) l s in
      let (p1, first, r1) = parse-next show stod_view max_elements hello good.parser _ h r in
      let (p2, second, r2) = parse-next show stod_view max_elements slots p1 rest h' r1 in
      let found : try_seed stod_view max_elements o good ≡ (ok slots, cluster_opening o) =
        ap (connected stod_view max_elements o good) t
        ∙ ap (seed_sent stod_view max_elements good.parser) sends
        ∙ ap (λ x. (seed_hello stod_view max_elements x, cluster_opening o)) first
        ∙ rw m refl
        ∙ ap (λ x. (check_slots stod_view max_elements x, cluster_opening o)) second
        ∙ rw m' refl in
      passes_failing stod_view max_elements o einval failing (good ∷ ss) slots
        (cluster_opening o ∷ []) f
        (λ e.
          ap (λ x. or_next stod_view max_elements x (λ z. try_seeds stod_view max_elements o z ss))
            found)
