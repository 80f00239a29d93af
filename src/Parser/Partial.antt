-- ===== src/Parser/Partial.antt =====
-- `try_parse_n` of src/RedisParser.cpp where it stops before it has all that it was asked for.
use xredis_client.Base.{ℕ, Bytes, List, [], ◌∷◌, ◌++◌, length, drop, ◌≡◌, ◌⊎◌}
use xredis_client.Outcome.{Result, ok, err, eagain}
use xredis_client.Value.{Value}
use xredis_client.Parser.{Parser}
use xredis_client.Parser.Replies.{Batch, try_parse_recursion, fuel_for}
use xredis_client.Parser.Progress.{stream}

module _ {D : Type 0} (stod_view : Bytes → Result D) (max_elements : ℕ) where
  -- One value after the other is parsed, from `s` on; `u` is the parser behind the last one.
  abbrev pub Parses : List (Value D) → Parser → Parser → Type 0
  Parses [] s u = s ≡ u
  Parses (v ∷ vs) s u =
      (t : Parser) × (try_parse_recursion stod_view max_elements (fuel_for s) s ≡ (ok v, t))
      × Parses vs t u

  abbrev pub Stopped : ℕ → List (Value D) → Parser → Batch D × Parser → Type 0
  Stopped n done s r =
      (vs : List (Value D)) × (u : Parser) × (r.0.values ≡ done ++ vs)
      × Parses vs s u
      × ((length vs ≡ n)
          ⊎ ((try_parse_recursion stod_view max_elements (fuel_for u) u).0 ≡ err eagain))
      × (r.1.position ≡ 0)
      × (stream r.1 ≡ drop u.position (stream s))
