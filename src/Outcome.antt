-- ===== src/Outcome.antt =====
-- The `int` codes that the functions return, and `xnet::io_result`: a value, or a code that is not 0.
-- `no_crlf`, `bulk_no_crlf` and `bad_prefix` are -1, -2 and -3; `os n` is any other errno of a system
-- call. Three have no code in the program: `suspended` is a coroutine that still waits for the
-- socket, `terminated` a throw, which ends the process in a build with -fno-exceptions, and `out_of_fuel` a recursion
-- that the model cut off.
use xredis_client.Base.{ℕ, Bool, true, false}

pub data Error : Type 0 where
  no_crlf bulk_no_crlf bad_prefix einval erange eoverflow econnreset eagain eproto : Error
  suspended terminated out_of_fuel : Error
  os : ℕ → Error

abbrev pub is_eagain : Error → Bool
is_eagain eagain = true
is_eagain _ = false

pub data Result {ℓ} (A : Type ℓ) : Type ℓ where
  ok : A → Result A
  err : Error → Result A

-- Without a code, the function has not come to its end.
abbrev pub is_code : Error → Bool
is_code suspended = false
is_code terminated = false
is_code out_of_fuel = false
is_code _ = true

-- What a caller that replaces every code by `e` makes of an outcome.
abbrev pub code_or : Error → Error → Error
code_or e suspended = suspended
code_or e terminated = terminated
code_or e out_of_fuel = out_of_fuel
code_or e _ = e
