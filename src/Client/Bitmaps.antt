-- ===== src/Client/Bitmaps.antt =====
-- include/RedisClient.hpp and include/RedisCluster.hpp, the HyperLogLog and Bitmap commands.
use xredis_client.Base.{Bytes, List, [], ◌∷◌, codes, ◌≡◌, refl, ℕ}
use xredis_client.Base.Int.{ℤ}
use xredis_client.Base.Decimal.{to_chars, to_chars_signed}
use xredis_client.Connection.{get_slot}
use xredis_client.Client.{command, to_slot_of, word, key_position}

pub data BitmapCommand (D : Type 0) : Type 0 where
  pfadd : Bytes → List Bytes → BitmapCommand D
  pfcount : Bytes → List Bytes → BitmapCommand D
  pfmerge : Bytes → Bytes → List Bytes → BitmapCommand D
  setbit : Bytes → ℕ → Bytes → BitmapCommand D
  getbit : Bytes → ℕ → BitmapCommand D
  bitcount : Bytes → ℤ → ℤ → List Bytes → BitmapCommand D
  bitpos : Bytes → Bytes → List Bytes → BitmapCommand D
  bitop : Bytes → Bytes → Bytes → List Bytes → BitmapCommand D
  bitfield : Bytes → List Bytes → BitmapCommand D
  bitfield_ro : Bytes → List Bytes → BitmapCommand D

-- `show` is the decimal text of a `double`.
module _ {D : Type 0} (show : D → Bytes) where
  -- The words that `RedisClient` sends.
  unfoldable pub bitmap_args : BitmapCommand D → List Bytes
  bitmap_args (pfadd key elements) = codes "PFADD" ∷ key ∷ elements
  bitmap_args (pfcount first_key other_keys) = codes "PFCOUNT" ∷ first_key ∷ other_keys
  bitmap_args (pfmerge destkey first_srckey other_srckeys) =
      codes "PFMERGE" ∷ destkey ∷ first_srckey ∷ other_srckeys
  bitmap_args (setbit key offset value) = codes "SETBIT" ∷ key ∷ to_chars offset ∷ value ∷ []
  bitmap_args (getbit key offset) = codes "GETBIT" ∷ key ∷ to_chars offset ∷ []
  bitmap_args (bitcount key start stop args) =
      codes "BITCOUNT" ∷ key ∷ to_chars_signed start ∷ to_chars_signed stop ∷ args
  bitmap_args (bitpos key bit args) = codes "BITPOS" ∷ key ∷ bit ∷ args
  bitmap_args (bitop operation destkey first_srckey other_srckeys) =
      codes "BITOP" ∷ operation ∷ destkey ∷ first_srckey ∷ other_srckeys
  bitmap_args (bitfield key args) = codes "BITFIELD" ∷ key ∷ args
  bitmap_args (bitfield_ro key args) = codes "BITFIELD_RO" ∷ key ∷ args

  -- The slot and the words of `RedisCluster`.
  unfoldable pub bitmap_route : BitmapCommand D → ℕ × List Bytes
  bitmap_route (pfadd key elements) = command (codes "PFADD") key elements
  bitmap_route (pfcount first_key other_keys) = command (codes "PFCOUNT") first_key other_keys
  bitmap_route (pfmerge destkey first_srckey other_srckeys) =
      command (codes "PFMERGE") destkey (first_srckey ∷ other_srckeys)
  bitmap_route (setbit key offset value) =
      command (codes "SETBIT") key (to_chars offset ∷ value ∷ [])
  bitmap_route (getbit key offset) = command (codes "GETBIT") key (to_chars offset ∷ [])
  bitmap_route (bitcount key start stop args) =
      command (codes "BITCOUNT") key (to_chars_signed start ∷ to_chars_signed stop ∷ args)
  bitmap_route (bitpos key bit args) = command (codes "BITPOS") key (bit ∷ args)
  bitmap_route (bitop operation destkey first_srckey other_srckeys) =
      to_slot_of destkey (codes "BITOP" ∷ operation ∷ destkey ∷ first_srckey ∷ other_srckeys)
  bitmap_route (bitfield key args) = command (codes "BITFIELD") key args
  bitmap_route (bitfield_ro key args) = command (codes "BITFIELD_RO") key args

  -- The cluster client sends what the single client sends, to the slot of the first key, for every
  -- command of this family. Where the first key stands is known from the name of the command.
  pub bitmap_route-keyed :
      (c : BitmapCommand D)
      → bitmap_route c
        ≡ (get_slot (word (key_position (word 0 (bitmap_args c))) (bitmap_args c)), bitmap_args c)
  unfolding bitmap_route bitmap_args
  bitmap_route-keyed (pfadd key elements) = refl
  bitmap_route-keyed (pfcount first_key other_keys) = refl
  bitmap_route-keyed (pfmerge destkey first_srckey other_srckeys) = refl
  bitmap_route-keyed (setbit key offset value) = refl
  bitmap_route-keyed (getbit key offset) = refl
  bitmap_route-keyed (bitcount key start stop args) = refl
  bitmap_route-keyed (bitpos key bit args) = refl
  bitmap_route-keyed (bitop operation destkey first_srckey other_srckeys) = refl
  bitmap_route-keyed (bitfield key args) = refl
  bitmap_route-keyed (bitfield_ro key args) = refl
