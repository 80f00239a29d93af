-- ===== src/Parser/Batches.antt =====
-- `try_parse_n` on replies that lie one behind the other.
use xredis_client.Base.{
  ℕ, suc, Bytes, List, [], ◌∷◌, ◌++◌, none, length, ◌≡◌, refl, sym, append_assoc, append-nil,
}
use xredis_client.Outcome.{Result, ok, eagain}
use xredis_client.Value.{Value}
use xredis_client.Parser.{Parser, consume}
use xredis_client.Parser.Replies.{
  Batch, next_in_batch, try_parse_n_from, try_parse_n, try_parse_recursion, parse_recursion_or,
  fuel_for,
}
use xredis_client.Parser.Stream.{Ready}
use xredis_client.Parser.Progress.{stream}
use xredis_client.Parser.Encode.{encode, IsEncodable}
use xredis_client.Parser.RoundTrip.{parse_recursion-encode}
use xredis_client.Parser.Replay.{enough_fuel}

module _ {D : Type 0} (show : D → Bytes) (stod_view : Bytes → Result D) (max_elements : ℕ) where
  abbrev pub encode_all : List (Value D) → Bytes
  encode_all [] = []
  encode_all (v ∷ vs) = encode show v ++ encode_all vs

  abbrev pub AllEncodable : List (Value D) → Type 0
  AllEncodable [] = Unit {0}
  AllEncodable (v ∷ vs) = IsEncodable show stod_view max_elements v × AllEncodable vs

  -- The batch holds `vs`, and the stream goes on with `rest`.
  abbrev pub Delivers : Batch D × Parser → List (Value D) → Bytes → Type 0
  Delivers r vs rest =
      (r.0.values ≡ vs) × (r.0.error ≡ none) × (r.1.position ≡ 0) × (stream r.1 ≡ rest)

  pub step :
      (n : ℕ) (done : List (Value D)) (v : Value D) (s t : Parser)
      → parse_recursion_or stod_view max_elements eagain (fuel_for s) s ≡ (ok v, t)
      → try_parse_n_from stod_view max_elements (suc n) done s
        ≡ try_parse_n_from stod_view max_elements n (done ++ (v ∷ [])) t
  unfolding try_parse_n_from next_in_batch try_parse_recursion
  step n done v s t e = rw e refl

  batch :
      (vs done : List (Value D)) (s : Parser) (rest : Bytes)
      → AllEncodable vs
      → Ready s (encode_all vs ++ rest)
      → Delivers (try_parse_n_from stod_view max_elements (length vs) done s) (done ++ vs) rest
  unfolding try_parse_n_from consume
  batch [] done s rest h r = (sym (append-nil done), refl, refl, r.ahead)
  batch (v ∷ vs) done s rest h r =
      let r' : Ready s (encode show v ++ (encode_all vs ++ rest)) = rw append_assoc at r in
      let (t, e, ready) =
        parse_recursion-encode show stod_view max_elements eagain v (fuel_for s) s _ h.0
          (enough_fuel show stod_view max_elements v s _ r') r' in
      rw (step (length vs) done v s t e, ← (append_assoc done (v ∷ []) vs))
        (batch vs (done ++ (v ∷ [])) t rest h.1 ready)

  -- `try_parse_n` for as many replies as lie ahead returns all of them, in order and without an
  -- error, and erases exactly their bytes, in whatever packets they arrive. All that is buffered or on
  -- its way (`Ready`) is below the limit of a bulk.
  pub try_parse_n-encode :
      (vs : List (Value D)) (s : Parser) (rest : Bytes)
      → AllEncodable vs
      → Ready s (encode_all vs ++ rest)
      → Delivers (try_parse_n stod_view max_elements (length vs) s) vs rest
  unfolding try_parse_n
  try_parse_n-encode vs s rest h r = batch vs [] s rest h r
