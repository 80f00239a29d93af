-- ===== src/Command.antt =====
-- include/RedisCommander.hpp, the functions that write a request. A pack of string views is a list of
-- byte strings.
pub mod Builder
mod Tests
use xredis_client.Base.{
  ℕ, ◌+◌, ◌*◌, Bytes, List, [], ◌∷◌, ◌++◌, map, codes, length, Option, none, some,
}
use xredis_client.Base.Decimal.{to_chars}

abbrev pub crlf : Bytes
crlf = b'\r' ∷ b'\n' ∷ []

-- Appends `$<len>\r\n<arg>\r\n` to the buffer.
unfoldable pub command_unpack : Bytes → Bytes → Bytes
command_unpack wbuffer arg = wbuffer ++ (b'$' ∷ (to_chars (length arg) ++ (crlf ++ (arg ++ crlf))))

unfoldable pub unpack_all : Bytes → List Bytes → Bytes
unfolding command_unpack
unpack_all wbuffer [] = wbuffer
unpack_all wbuffer (arg ∷ args) = unpack_all (command_unpack wbuffer arg) args

-- `*<argc>\r\n`
abbrev pub argc_line : ℕ → Bytes
argc_line n = b'*' ∷ (to_chars n ++ crlf)

unfoldable pub build_commands : List Bytes → Bytes
unfolding unpack_all
build_commands args = unpack_all (argc_line (length args)) args

-- The range holds exactly `count` views.
unfoldable pub build_commands_from_range : Bytes → List Bytes → Bytes
unfolding unpack_all command_unpack
build_commands_from_range cmd range =
    unpack_all (command_unpack (argc_line (1 + length range)) cmd) range

unfoldable pub build_commands_from_key_range : Bytes → Bytes → List Bytes → Bytes
unfolding unpack_all command_unpack
build_commands_from_key_range cmd key range =
    unpack_all (command_unpack (command_unpack (argc_line (2 + length range)) cmd) key) range
