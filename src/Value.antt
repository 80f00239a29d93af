-- ===== src/Value.antt =====
-- include/RedisValue.h and src/RedisValue.cpp: the tagged union of a reply. A constructor stands for
-- the tag together with the member of the union that it selects; ownership and `delete` are not
-- modelled. `D` is the type `double`.
pub mod Escape
pub mod Dump
mod Tests
use xredis_client.Base.{Bytes, Bool, true, false, ◌||◌, [], ℕ}
use xredis_client.Base.Int.{ℤ}
use xredis_client.Base.{zero, suc}

mutual
  pub data Value (D : Type 0) : Type 0 where
    nullptr : Value D
    array : Values D → Value D
    push : Values D → Value D
    setv : Values D → Value D
    mapv : Pairs D → Value D
    simple_string : Bytes → Value D
    simple_error : Bytes → Value D
    bulk_string : Bytes → Value D
    big_number : Bytes → Value D
    bulk_error : Bytes → Value D
    verbatim_string : Bytes → Value D
    integer : ℤ → Value D
    boolean : Bool → Value D
    doublev : D → Value D
    attribute : Pairs D → Value D → Value D

  -- `std::vector<RedisValue>`
  pub data Values (D : Type 0) : Type 0 where
    nil : Values D
    cons : Value D → Values D → Values D

  -- `std::vector<std::pair<RedisValue, RedisValue>>`
  pub data Pairs (D : Type 0) : Type 0 where
    no_pairs : Pairs D
    pair : Value D → Value D → Pairs D → Pairs D

module _ {D : Type 0} where
  unfoldable pub is_array : Value D → Bool
  is_array (array _) = true
  is_array _ = false

  unfoldable pub is_map : Value D → Bool
  is_map (mapv _) = true
  is_map _ = false

  unfoldable pub is_integer : Value D → Bool
  is_integer (integer _) = true
  is_integer _ = false

  unfoldable pub is_simple_string : Value D → Bool
  is_simple_string (simple_string _) = true
  is_simple_string _ = false

  unfoldable pub is_bulk_string : Value D → Bool
  is_bulk_string (bulk_string _) = true
  is_bulk_string _ = false

  unfoldable pub is_verbatim_string : Value D → Bool
  is_verbatim_string (verbatim_string _) = true
  is_verbatim_string _ = false

  unfoldable pub is_simple_error : Value D → Bool
  is_simple_error (simple_error _) = true
  is_simple_error _ = false

  unfoldable pub is_bulk_error : Value D → Bool
  is_bulk_error (bulk_error _) = true
  is_bulk_error _ = false

  unfoldable pub is_string_type : Value D → Bool
  unfolding is_simple_string is_bulk_string is_verbatim_string
  is_string_type v = is_simple_string v || is_bulk_string v || is_verbatim_string v

  unfoldable pub is_error : Value D → Bool
  unfolding is_simple_error is_bulk_error
  is_error v = is_simple_error v || is_bulk_error v

  unfoldable pub as_string : Value D → Bytes
  as_string (simple_string s) = s
  as_string (bulk_string s) = s
  as_string (verbatim_string s) = s
  as_string _ = []

  unfoldable pub as_error : Value D → Bytes
  as_error (simple_error s) = s
  as_error (bulk_error s) = s
  as_error _ = []

  abbrev pub values_length : Values D → ℕ
  values_length nil = zero
  values_length (cons v vs) = suc (values_length vs)

  abbrev pub pairs_length : Pairs D → ℕ
  pairs_length no_pairs = zero
  pairs_length (pair k v ps) = suc (pairs_length ps)
