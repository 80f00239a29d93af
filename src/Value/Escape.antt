-- ===== src/Value/Escape.antt =====
-- src/RedisValue.cpp, escape_string: the text of a string in JSON, and a reader of JSON strings.
use xredis_client.Base.{
  ℕ, zero, suc, ◌+◌, ◌-◌, ◌*◌, ◌/◌, ◌%◌, ◌<◌, Bytes, true, false, ◌||◌, ◌&&◌, [], ◌∷◌, ◌++◌, Option,
  none, some, ltb, leb, ◌==◌, ==_iff, ltb→lt, if◌then◌else◌, Bool-cases, inl, inr, ◌≡◌, refl, ap,
  ◌∙◌, arith,
}

-- `hex[d]`
abbrev pub hex : ℕ → ℕ
hex d = if ltb d 10 then b'0' + d else b'a' + (d - 10)

unfoldable pub escape_char : ℕ → Bytes
escape_char ch =
    if ch == b'"'
    then b'\\' ∷ b'"' ∷ []
    else if ch == b'\\'
    then b'\\' ∷ b'\\' ∷ []
    else if ch == 8
    then b'\\' ∷ b'b' ∷ []
    else if ch == 12
    then b'\\' ∷ b'f' ∷ []
    else if ch == 10
    then b'\\' ∷ b'n' ∷ []
    else if ch == 13
    then b'\\' ∷ b'r' ∷ []
    else if ch == 9
    then b'\\' ∷ b't' ∷ []
    else if ltb ch 0x20
    then b'\\' ∷ b'u' ∷ b'0' ∷ b'0' ∷ hex (ch / 16) ∷ hex (ch % 16) ∷ []
    else ch ∷ []

-- What `escape_string` appends.
unfoldable pub escape_string : Bytes → Bytes
unfolding escape_char
escape_string [] = []
escape_string (ch ∷ rest) = escape_char ch ++ escape_string rest

-- A reader of the inside of a JSON string: after a character, after a backslash, or inside the digits
-- of `\u`, with the number of digits behind the next one and the value so far.
pub data Mode : Type 0 where
  plain : Mode
  backslash : Mode
  unicode : ℕ → ℕ → Mode

abbrev unhex : ℕ → Option ℕ
unhex c =
    if leb b'0' c && leb c b'9'
    then some (c - b'0')
    else if leb b'a' c && leb c b'f'
    then some (c - b'a' + 10)
    else none

abbrev named : ℕ → Option ℕ
named c =
    if c == b'"'
    then some b'"'
    else if c == b'\\'
    then some b'\\'
    else if c == b'b'
    then some 8
    else if c == b'f'
    then some 12
    else if c == b'n'
    then some 10
    else if c == b'r'
    then some 13
    else if c == b't'
    then some 9
    else none

abbrev prepend : ℕ → Option Bytes → Option Bytes
prepend c none = none
prepend c (some cs) = some (c ∷ cs)

-- A control character or a quote must not stand for itself.
unfoldable pub read_json : Mode → Bytes → Option Bytes
read_json plain [] = some []
read_json backslash [] = none
read_json (unicode k n) [] = none
read_json plain (c ∷ cs) = elim (c == b'\\') [
  | true ↦ read_json backslash cs
  | false ↦ if ltb c 0x20 || c == b'"' then none else prepend c (read_json plain cs)
]
read_json backslash (c ∷ cs) = elim (c == b'u') [
  | true ↦ read_json (unicode 3 0) cs
  | false ↦ elim (named c) [ none ↦ none | some d ↦ prepend d (read_json plain cs) ]
]
read_json (unicode zero n) (c ∷ cs) = elim (unhex c) [
  | none ↦ none
  | some d ↦ prepend (n * 16 + d) (read_json plain cs)
]
read_json (unicode (suc k) n) (c ∷ cs) = elim (unhex c) [
  | none ↦ none
  | some d ↦ read_json (unicode k (n * 16 + d)) cs
]

unhex-hex : (d : ℕ) → d < 16 → unhex (hex d) ≡ some d
unhex-hex d h = elim (Bool-cases (ltb d 10)) [
  | inl t ↦ rw t (ground arith)
  | inr t ↦ rw t (ground arith)
]

-- A control character in six characters.
read-control :
    (c : ℕ) (rest : Bytes)
    → c < 0x20
    → read_json plain (b'\\' ∷ b'u' ∷ b'0' ∷ b'0' ∷ hex (c / 16) ∷ hex (c % 16) ∷ rest)
      ≡ prepend c (read_json plain rest)
unfolding read_json
read-control c rest h =
    let whole : (0 + c / 16) * 16 + c % 16 ≡ c = omega arith in
    rw (unhex-hex (c / 16) (omega arith), read_json)
      (rw (unhex-hex (c % 16) (omega arith), read_json) (rw whole refl))

read-escape_char :
    (c : ℕ) (rest : Bytes)
    → read_json plain (escape_char c ++ rest) ≡ prepend c (read_json plain rest)
unfolding read_json escape_char
read-escape_char c rest = elim (Bool-cases (c == b'"')) [
  | inl t ↦ rw ((==_iff c b'"').0 t) refl
  | inr t0 ↦ elim (Bool-cases (c == b'\\')) [
    | inl t ↦ rw ((==_iff c b'\\').0 t) refl
    | inr t1 ↦ elim (Bool-cases (c == 8)) [
      | inl t ↦ rw ((==_iff c 8).0 t) refl
      | inr t2 ↦ elim (Bool-cases (c == 12)) [
        | inl t ↦ rw ((==_iff c 12).0 t) refl
        | inr t3 ↦ elim (Bool-cases (c == 10)) [
          | inl t ↦ rw ((==_iff c 10).0 t) refl
          | inr t4 ↦ elim (Bool-cases (c == 13)) [
            | inl t ↦ rw ((==_iff c 13).0 t) refl
            | inr t5 ↦ elim (Bool-cases (c == 9)) [
              | inl t ↦ rw ((==_iff c 9).0 t) refl
              | inr t6 ↦ elim (Bool-cases (ltb c 0x20)) [
                | inl t7 ↦
                    rw (t0, t1, t2, t3, t4, t5, t6, t7, escape_char)
                      (read-control c rest (ltb→lt c 0x20 t7))
                | inr t7 ↦
                    rw (t0, t1, t2, t3, t4, t5, t6, t7, escape_char)
                      (rw (t1, read_json) (rw (t7, t0) refl))
              ]
            ]
          ]
        ]
      ]
    ]
  ]
]

-- A reader of JSON gets back every string from what `escape_string` writes.
pub read-escape_string : (text : Bytes) → read_json plain (escape_string text) ≡ some text
unfolding escape_string read_json
read-escape_string [] = refl
read-escape_string (c ∷ text) =
    read-escape_char c (escape_string text) ∙ ap (prepend c) (read-escape_string text)
