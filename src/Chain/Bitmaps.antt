-- ===== src/Chain/Bitmaps.antt =====
-- include/RedisCommander.hpp, the HyperLogLog and Bitmap commands of a pipeline.
use xredis_client.Base.{Bytes, List, [], ◌∷◌, codes, ◌≡◌, refl, ℕ, Option, some}
use xredis_client.Base.Decimal.{to_chars, to_chars_signed}
use xredis_client.Client.{to_slot_of}
use xredis_client.Client.Bitmaps.{
  BitmapCommand, pfadd, pfcount, pfmerge, setbit, getbit, bitcount, bitpos, bitop, bitfield,
  bitfield_ro, bitmap_args, bitmap_route,
}
use xredis_client.Chain.{routed}

module _ {D : Type 0} (show : D → Bytes) where
  -- The words that CommandAwaiter chains.
  unfoldable pub bitmap_chained : BitmapCommand D → List Bytes
  bitmap_chained (pfadd key elements) = codes "PFADD" ∷ key ∷ elements
  bitmap_chained (pfcount first_key other_keys) = codes "PFCOUNT" ∷ first_key ∷ other_keys
  bitmap_chained (pfmerge destkey first_srckey other_srckeys) =
      codes "PFMERGE" ∷ destkey ∷ first_srckey ∷ other_srckeys
  bitmap_chained (setbit key offset value) = codes "SETBIT" ∷ key ∷ to_chars offset ∷ value ∷ []
  bitmap_chained (getbit key offset) = codes "GETBIT" ∷ key ∷ to_chars offset ∷ []
  bitmap_chained (bitcount key start stop args) =
      codes "BITCOUNT" ∷ key ∷ to_chars_signed start ∷ to_chars_signed stop ∷ args
  bitmap_chained (bitpos key bit args) = codes "BITPOS" ∷ key ∷ bit ∷ args
  bitmap_chained (bitop operation destkey first_srckey other_srckeys) =
      codes "BITOP" ∷ operation ∷ destkey ∷ first_srckey ∷ other_srckeys
  bitmap_chained (bitfield key args) = codes "BITFIELD" ∷ key ∷ args
  bitmap_chained (bitfield_ro key args) = codes "BITFIELD_RO" ∷ key ∷ args

  -- The words that RedisCommandOperation chains, outside a cluster.
  unfoldable pub bitmap_appended : BitmapCommand D → List Bytes
  bitmap_appended (pfadd key elements) = codes "PFADD" ∷ key ∷ elements
  bitmap_appended (pfcount first_key other_keys) = codes "PFCOUNT" ∷ first_key ∷ other_keys
  bitmap_appended (pfmerge destkey first_srckey other_srckeys) =
      codes "PFMERGE" ∷ destkey ∷ first_srckey ∷ other_srckeys
  bitmap_appended (setbit key offset value) = codes "SETBIT" ∷ key ∷ to_chars offset ∷ value ∷ []
  bitmap_appended (getbit key offset) = codes "GETBIT" ∷ key ∷ to_chars offset ∷ []
  bitmap_appended (bitcount key start stop args) =
      codes "BITCOUNT" ∷ key ∷ to_chars_signed start ∷ to_chars_signed stop ∷ args
  bitmap_appended (bitpos key bit args) = codes "BITPOS" ∷ key ∷ bit ∷ args
  bitmap_appended (bitop operation destkey first_srckey other_srckeys) =
      codes "BITOP" ∷ operation ∷ destkey ∷ first_srckey ∷ other_srckeys
  bitmap_appended (bitfield key args) = codes "BITFIELD" ∷ key ∷ args
  bitmap_appended (bitfield_ro key args) = codes "BITFIELD_RO" ∷ key ∷ args

  -- The slot and the words that RedisCommandOperation chains in a cluster; none where the call does not
  -- compile.
  unfoldable pub bitmap_appended_route : BitmapCommand D → Option (ℕ × List Bytes)
  unfolding bitmap_appended
  bitmap_appended_route (bitop operation destkey first_srckey other_srckeys) =
      some (to_slot_of destkey (codes "BITOP" ∷ operation ∷ destkey ∷ first_srckey ∷ other_srckeys))
  bitmap_appended_route c = routed (bitmap_appended c)

  pub bitmap_chained-args : (c : BitmapCommand D) → bitmap_chained c ≡ bitmap_args show c
  unfolding bitmap_chained bitmap_args
  bitmap_chained-args (pfadd key elements) = refl
  bitmap_chained-args (pfcount first_key other_keys) = refl
  bitmap_chained-args (pfmerge destkey first_srckey other_srckeys) = refl
  bitmap_chained-args (setbit key offset value) = refl
  bitmap_chained-args (getbit key offset) = refl
  bitmap_chained-args (bitcount key start stop args) = refl
  bitmap_chained-args (bitpos key bit args) = refl
  bitmap_chained-args (bitop operation destkey first_srckey other_srckeys) = refl
  bitmap_chained-args (bitfield key args) = refl
  bitmap_chained-args (bitfield_ro key args) = refl

  pub bitmap_appended-args : (c : BitmapCommand D) → bitmap_appended c ≡ bitmap_args show c
  unfolding bitmap_appended bitmap_args
  bitmap_appended-args (pfadd key elements) = refl
  bitmap_appended-args (pfcount first_key other_keys) = refl
  bitmap_appended-args (pfmerge destkey first_srckey other_srckeys) = refl
  bitmap_appended-args (setbit key offset value) = refl
  bitmap_appended-args (getbit key offset) = refl
  bitmap_appended-args (bitcount key start stop args) = refl
  bitmap_appended-args (bitpos key bit args) = refl
  bitmap_appended-args (bitop operation destkey first_srckey other_srckeys) = refl
  bitmap_appended-args (bitfield key args) = refl
  bitmap_appended-args (bitfield_ro key args) = refl

  pub bitmap_appended_route-route :
      (c : BitmapCommand D) → bitmap_appended_route c ≡ some (bitmap_route show c)
  unfolding bitmap_appended_route bitmap_appended bitmap_route
  bitmap_appended_route-route (pfadd key elements) = refl
  bitmap_appended_route-route (pfcount first_key other_keys) = refl
  bitmap_appended_route-route (pfmerge destkey first_srckey other_srckeys) = refl
  bitmap_appended_route-route (setbit key offset value) = refl
  bitmap_appended_route-route (getbit key offset) = refl
  bitmap_appended_route-route (bitcount key start stop args) = refl
  bitmap_appended_route-route (bitpos key bit args) = refl
  bitmap_appended_route-route (bitop operation destkey first_srckey other_srckeys) = refl
  bitmap_appended_route-route (bitfield key args) = refl
  bitmap_appended_route-route (bitfield_ro key args) = refl
