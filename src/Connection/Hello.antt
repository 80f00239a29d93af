-- ===== src/Connection/Hello.antt =====
-- src/RedisConnection.cpp and include/RedisConnection.h: the first requests of a connection, and the
-- copy of the options that a reconnection uses. A pointer that may be null is an Option; the options
-- of TLS are left out.
use xredis_client.Base.{
  ℕ, Bytes, Bool, true, false, ◌&&◌, List, [], ◌∷◌, ◌++◌, Option, none, some, ◌==◌, if◌then◌else◌,
  codes, same_word, ◌≡◌, ◌≢◌, refl, ap,
}
use xredis_client.Base.Int.{ℤ, pos, negsuc}
use xredis_client.Base.Decimal.{to_chars_signed}
use xredis_client.Command.{build_commands}

pub record ConnectionOption : Type 0 where
  pub ip : Option Bytes
  pub username : Option Bytes
  pub password : Option Bytes
  pub clientname : Option Bytes
  pub db : ℤ
  pub resp : ℤ
  pub port : ℕ

pub record XLongLastOption : Type 0 where
  pub ip : Bytes
  pub username : Bytes
  pub password : Bytes
  pub clientname : Bytes
  pub db : ℤ
  pub resp : ℤ
  pub port : ℕ

abbrev pub or_empty : Option Bytes → Bytes
or_empty none = []
or_empty (some s) = s

abbrev pub or_null : Bytes → Option Bytes
or_null [] = none
or_null (c ∷ cs) = some (c ∷ cs)

unfoldable pub set_option : ConnectionOption → XLongLastOption
set_option o = record {
  ip = or_empty o.ip;
  username = or_empty o.username;
  password = or_empty o.password;
  clientname = or_empty o.clientname;
  db = o.db;
  resp = o.resp;
  port = o.port;
}

unfoldable pub to_option : XLongLastOption → ConnectionOption
to_option o = record {
  ip = or_null o.ip;
  username = or_null o.username;
  password = or_null o.password;
  clientname = or_null o.clientname;
  db = o.db;
  resp = o.resp;
  port = o.port;
}

abbrev pub resp_version : ℤ → Bytes
resp_version (pos n) = if n == 3 then codes "3" else codes "2"
resp_version (negsuc n) = codes "2"

-- The words behind the version, from the user name, the password and the client name.
unfoldable pub auth_words : Option Bytes → Option Bytes → Option Bytes → List Bytes
auth_words (some u) (some p) (some c) = codes "AUTH" ∷ u ∷ p ∷ codes "SETNAME" ∷ c ∷ []
auth_words none (some p) (some c) = codes "AUTH" ∷ codes "default" ∷ p ∷ codes "SETNAME" ∷ c ∷ []
auth_words u (some p) none = codes "AUTH" ∷ p ∷ []
auth_words u none (some c) = codes "SETNAME" ∷ c ∷ []
auth_words u none none = []

unfoldable pub hello_words : ConnectionOption → List Bytes
unfolding auth_words
hello_words o = codes "HELLO" ∷ resp_version o.resp ∷ auth_words o.username o.password o.clientname

abbrev pub db_index : ℤ → ℤ
db_index (pos n) = pos n
db_index (negsuc n) = pos 0

-- What `connect_spot` sends first.
unfoldable pub opening : ConnectionOption → Bytes
unfolding hello_words build_commands
opening o =
    build_commands (hello_words o)
    ++ build_commands (codes "SELECT" ∷ to_chars_signed (db_index o.db) ∷ [])

-- What the documentation of HELLO allows behind the version: AUTH with a user name and a password,
-- and SETNAME with a name.
unfoldable pub hello_options : List Bytes → Bool
hello_options [] = true
hello_options (w ∷ []) = false
hello_options (w ∷ a ∷ []) = same_word w (codes "SETNAME")
hello_options (w ∷ a ∷ b ∷ rest) =
    let named = hello_options (b ∷ rest) in
    let rest_ok = hello_options rest in
    if same_word w (codes "AUTH") then rest_ok else same_word w (codes "SETNAME") && named

abbrev pub present : Option Bytes → Bool
present none = false
present (some s) = true

-- The words of HELLO are what the server's documentation allows exactly if a password comes with a
-- client name or there is no password: with a password alone, AUTH lacks the user name.
pub hello_words-allowed :
    (o : ConnectionOption)
    → hello_options (auth_words o.username o.password o.clientname)
      ≡ (if present o.password then present o.clientname else true)
unfolding auth_words hello_options
hello_words-allowed o = go o.username o.password o.clientname
  where
    go :
        (u p c : Option Bytes)
        → hello_options (auth_words u p c) ≡ (if present p then present c else true)
    go (some u) (some p) (some c) = refl
    go none (some p) (some c) = refl
    go (some u) (some p) none = refl
    go none (some p) none = refl
    go (some u) none (some c) = refl
    go none none (some c) = refl
    go (some u) none none = refl
    go none none none = refl

-- No string that is given is empty.
abbrev pub GivenFull : ConnectionOption → Type 0
GivenFull o =
    (o.ip ≢ some []) × (o.username ≢ some []) × (o.password ≢ some []) × (o.clientname ≢ some [])

or_null-or_empty : (s : Option Bytes) → s ≢ some [] → or_null (or_empty s) ≡ s
or_null-or_empty none h = refl
or_null-or_empty (some []) h = absurd (h refl)
or_null-or_empty (some (c ∷ cs)) h = refl

same_options : (o : ConnectionOption) → GivenFull o → to_option (set_option o) ≡ o
unfolding to_option set_option
same_options o h =
    rw (or_null-or_empty o.ip h.0, or_null-or_empty o.username h.1)
      (rw (or_null-or_empty o.password h.2, or_null-or_empty o.clientname h.3) refl)

-- A reconnection has the options of the first connection and sends the same bytes first, if no
-- string that was given is empty.
pub to_option-set_option :
    (o : ConnectionOption)
    → GivenFull o
    → (to_option (set_option o) ≡ o) × (opening (to_option (set_option o)) ≡ opening o)
to_option-set_option o h = (same_options o h, ap opening (same_options o h))
