-- ===== src/Cluster.antt =====
-- include/RedisCluster.hpp: the reading of a redirection, and the table of the connections to the
-- shards. A connection is an address and a port.
pub mod Redirection
pub mod Table
pub mod Slots
mod Tests
use xredis_client.Base.{
  ℕ, zero, suc, ◌+◌, ◌-◌, ◌*◌, ◌/◌, ◌%◌, ◌^◌, Bytes, Bool, true, false, ◌&&◌, List, [], ◌∷◌, ◌++◌,
  Option, none, some, ◌==◌, if◌then◌else◌, codes, take, drop,
}
use Prim.Native.Nat.{bit_xor, bit_or}
use Prim.Native.String.{String}
use xredis_client.Base.Decimal.{Scanned, invalid, too_large, scanned, from_chars}
use xredis_client.Outcome.{Error, einval, eproto}
use xredis_client.Parser.{find_from}
use xredis_client.Connection.{iptouint32}

-- What `parse_error` returns: 0 and 1 with the place to go to, 2, or an errno.
pub data Redirect : Type 0 where
  moved : ℕ → ℕ → ℕ → Redirect
  ask : ℕ → ℕ → ℕ → Redirect
  no_redirect : Redirect
  failed : Error → Redirect

-- `starts_with`, and what is behind the prefix.
unfoldable pub behind : Bytes → Bytes → Option Bytes
behind [] s = some s
behind (p ∷ ps) [] = none
behind (p ∷ ps) (c ∷ cs) = if p == c then behind ps cs else none

-- The part of the view up to the first `c`, and the part behind it.
unfoldable pub split_at : ℕ → Bytes → Option (Bytes × Bytes)
unfolding find_from
split_at c s = elim (find_from c 0 s) [ none ↦ none | some k ↦ some (take k s, drop (k + 1) s) ]

unfoldable pub finish : (ℕ → ℕ → ℕ → Redirect) → ℕ → Scanned → Scanned → Redirect
finish make ip (scanned slot _) (scanned port _) = make slot ip port
finish make ip (scanned slot _) _ = failed einval
finish make ip _ _ = failed einval

-- The text behind the prefix: a slot, a space, an address, a colon and a port. What follows the
-- digits of the slot and of the port is not looked at.
unfoldable pub read_target : (ℕ → ℕ → ℕ → Redirect) → Bytes → Redirect
unfolding split_at iptouint32 from_chars finish
read_target make s = elim (split_at b' ' s) [
  | none ↦ failed eproto
  | some (slot_sv, addr_sv) ↦ elim (split_at b':' addr_sv) [
    | none ↦ failed eproto
    | some (ip_str, port_sv) ↦
        if iptouint32 ip_str == 0
        then failed eproto
        else finish make (iptouint32 ip_str) (from_chars (2 ^ 64 - 1) slot_sv)
            (from_chars (2 ^ 16 - 1) port_sv)
  ]
]

unfoldable pub parse_error : Bytes → Redirect
unfolding behind read_target
parse_error error_str = elim (behind (codes "MOVED ") error_str) [
  | some s ↦ read_target moved s
  | none ↦ elim (behind (codes "ASK ") error_str) [
    | some s ↦ read_target ask s
    | none ↦ no_redirect
  ]
]

-- The address and the port of a connection.
pub record Shard : Type 0 where
  pub ip : ℕ
  pub port : ℕ

-- The cell of an address and a port, mixed on 64 bits.
abbrev shift_mix : ℕ → ℕ
shift_mix h = bit_xor h (h / 2 ^ 33)

module _ (max_num_shards : ℕ) where
  unfoldable pub hash : ℕ → ℕ → ℕ
  hash ip port =
      let combined = bit_or (ip * 2 ^ 16 % 2 ^ 64) port in
      let combined = shift_mix combined * 0xff51afd7ed558ccd % 2 ^ 64 in
      let combined = shift_mix combined * 0xc4ceb9fe1a85ec53 % 2 ^ 64 in
      shift_mix combined % max_num_shards

-- The table is a function of the index.
abbrev pub Shards : Type 0
Shards = ℕ → Option Shard

abbrev pub put : Shards → ℕ → Shard → Shards
put t i s j = if j == i then some s else t j

abbrev pub is_at : Shard → ℕ → ℕ → Bool
is_at s ip port = s.ip == ip && s.port == port

module _ (max_num_shards : ℕ) where
  -- The loop of `find_shard` from round `i` on, with `n` rounds left: the shard's cell and the table,
  -- in which a free cell was taken if the shard was not there; none for a table that is full.
  unfoldable pub probe : ℕ → ℕ → ℕ → ℕ → ℕ → Shards → Option ℕ × Shards
  probe ip port start zero i t = (none, t)
  probe ip port start (suc n) i t =
      let rest = probe ip port start n (i + 1) t in
      let idx = (start + i) % max_num_shards in
      elim (t idx) [
        | none ↦ (some idx, put t idx (record { ip = ip; port = port }))
        | some s ↦ if is_at s ip port then (some idx, t) else rest
      ]

  unfoldable pub find_shard : ℕ → ℕ → Shards → Option ℕ × Shards
  unfolding probe hash
  find_shard ip port t = probe ip port (hash max_num_shards ip port) max_num_shards 0 t
