-- ===== src/Command/Builder.antt =====
-- The builders of include/RedisCommander.hpp against the encoding of RESP arrays.
use xredis_client.Base.{
  ℕ, suc, ◌≤◌, ◌<◌, ◌^◌, Bytes, List, [], ◌∷◌, ◌++◌, append_assoc, append-nil, length, ◌≡◌, refl,
  sym, ap, ◌∙◌, arith,
}
use xredis_client.Outcome.{Result, ok}
use xredis_client.Value.{Values, array, bulk_string, nil, cons, values_length}
use xredis_client.Parser.{Parser, max_bulk_size}
use xredis_client.Parser.Replies.{parse}
use xredis_client.Parser.Progress.{stream}
use xredis_client.Parser.Stream.{Ready}
use xredis_client.Parser.Encode.{encode, encode_values, IsEncodable, AreEncodable}
use xredis_client.Parser.Replay.{parse-encode}
use xredis_client.Command.{
  command_unpack, unpack_all, argc_line, build_commands, build_commands_from_range,
  build_commands_from_key_range,
}

module _ {D : Type 0} where
  abbrev pub bulks : List Bytes → Values D
  bulks [] = nil
  bulks (arg ∷ args) = cons (bulk_string arg) (bulks args)

length-bulks : (D : Type 0) (args : List Bytes) → values_length (bulks {D = D} args) ≡ length args
length-bulks D [] = refl
length-bulks D (arg ∷ args) = ap suc (length-bulks D args)

module _ {D : Type 0} where
  unpack_all-encode :
      (show : D → Bytes) (args : List Bytes) (wbuffer : Bytes)
      → unpack_all wbuffer args ≡ wbuffer ++ encode_values show (bulks args)
  unfolding unpack_all command_unpack encode
  unpack_all-encode show [] wbuffer = sym (append-nil wbuffer)
  unpack_all-encode show (arg ∷ args) wbuffer =
      unpack_all-encode show args (command_unpack wbuffer arg) ∙ simp append_assoc

  -- A request is the array of its arguments as bulk strings, written by the protocol.
  pub build_commands-encode :
      (show : D → Bytes) (args : List Bytes)
      → build_commands args ≡ encode show (array (bulks args))
  unfolding build_commands encode
  build_commands-encode show args =
      unpack_all-encode show args (argc_line (length args)) ∙ rw (length-bulks D args) refl

-- The builders from a range write what the variadic builder writes for the same arguments.
pub range-build_commands :
    (cmd key : Bytes) (range : List Bytes)
    → (build_commands_from_range cmd range ≡ build_commands (cmd ∷ range))
      × (build_commands_from_key_range cmd key range ≡ build_commands (cmd ∷ key ∷ range))
unfolding build_commands_from_range build_commands_from_key_range build_commands
range-build_commands cmd key range = (
  ap (λ n. unpack_all (command_unpack (argc_line n) cmd) range) (omega arith),
  ap (λ n. unpack_all (command_unpack (command_unpack (argc_line n) cmd) key) range) (omega arith),
)

-- Arguments below the limit of a bulk.
abbrev pub AllShort : List Bytes → Type 0
AllShort [] = Unit {0}
AllShort (arg ∷ args) = (length arg < max_bulk_size) × AllShort args

module _ {D : Type 0} (show : D → Bytes) (stod_view : Bytes → Result D) (max_elements : ℕ) where
  bulks-AreEncodable :
      (args : List Bytes) → AllShort args → AreEncodable show stod_view max_elements (bulks args)
  unfolding IsEncodable
  bulks-AreEncodable [] h = tt
  bulks-AreEncodable (arg ∷ args) h = (h.0, bulks-AreEncodable args h.1)

  request-IsEncodable :
      (args : List Bytes)
      → AllShort args
      → length args ≤ max_elements
      → length args < 2 ^ 63
      → IsEncodable show stod_view max_elements (array (bulks args))
  unfolding IsEncodable
  request-IsEncodable args h few small =
      ((rw (length-bulks D args) few, rw (length-bulks D args) small), bulks-AreEncodable args h)

  -- What a peer with this parser reads off a request is its arguments, each whole and in order
  -- whatever bytes it holds, in whatever packets the request arrives; then comes the next request.
  -- The arguments are below the limit of a bulk, as is all that is buffered or on its way (`Ready`),
  -- and they are fewer than 2^63 and no more than a vector can hold.
  pub parse-build_commands :
      (args : List Bytes) (s : Parser) (rest : Bytes)
      → AllShort args
      → length args ≤ max_elements
      → length args < 2 ^ 63
      → Ready s (build_commands args ++ rest)
      → (s' : Parser) × (parse stod_view max_elements s ≡ (ok (array (bulks args)), s'))
        × (s'.position ≡ 0)
        × (stream s' ≡ rest)
  parse-build_commands args s rest h few small r =
      (parse-encode show stod_view max_elements (array (bulks args)) s rest
        (request-IsEncodable args h few small) (rw (build_commands-encode show args) at r)).0
