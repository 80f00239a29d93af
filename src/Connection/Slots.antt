-- ===== src/Connection/Slots.antt =====
-- The hash tag of a key (get_slot of src/RedisConnection.cpp), and the table of crc16 against the
-- bitwise CRC-16/XMODEM.
use xredis_client.Base.{
  ℕ, zero, suc, ◌+◌, ◌-◌, ◌*◌, ◌%◌, ◌<◌, Bytes, Bool, true, ◌&&◌, [], ◌∷◌, ◌++◌, some, ltb, lt→ltb,
  ◌==◌, ==_iff, length, take-append, length-append, ◌≡◌, ◌≢◌, refl, sym, ap, ◌∙◌, append_assoc,
  arith,
}
use xredis_client.Parser.{find_from}
use xredis_client.Parser.Newlines.{
  Without, shift, find_from-append, find_from-first, drop-append_add,
}
use xredis_client.Connection.{hashed_part, get_slot, crc16, crc_byte, shift_bit, iterate}

-- A key with a hash tag.
abbrev pub tagged : Bytes → Bytes → Bytes → Bytes
tagged before tag after = before ++ (b'{' ∷ (tag ++ (b'}' ∷ after)))

module _ (before tag after : Bytes) (open_first : Without b'{' before)
    (close_first : Without b'}' tag) where
  right_brace :
      find_from b'}' (length before + 1) (tagged before tag after)
      ≡ some (length before + 1 + length tag)
  right_brace =
      let e : length before + 1 ≡ length (before ++ (b'{' ∷ [])) = length_snoc before in
      let t : tagged before tag after ≡ (before ++ (b'{' ∷ [])) ++ (tag ++ (b'}' ∷ after)) =
        sym (append_assoc before (b'{' ∷ []) (tag ++ (b'}' ∷ after))) in
      rw (e, t)
        (find_from-append b'}' (before ++ (b'{' ∷ [])) (tag ++ (b'}' ∷ after))
          ∙ ap (shift (length (before ++ (b'{' ∷ []))))
              (find_from-first b'}' tag after close_first))
    where
      length_snoc : (xs : Bytes) → length xs + 1 ≡ length (xs ++ (b'{' ∷ []))
      length_snoc xs = omega (arith, length-append {0} xs (b'{' ∷ []))

  pub hashed_part-tagged : tag ≢ [] → hashed_part (tagged before tag after) ≡ tag
  unfolding hashed_part
  hashed_part-tagged ne =
      rw (find_from-first b'{' before (tag ++ (b'}' ∷ after)) open_first, hashed_part)
        (rw (right_brace, hashed_part)
          (rw (width, long)
            (rw (drop-append_add before (b'{' ∷ (tag ++ (b'}' ∷ after))) 1)
              (take-append tag (b'}' ∷ after)))))
    where
      width : length before + 1 + length tag - length before - 1 ≡ length tag
      width = omega arith

      pos_length : (xs : Bytes) → xs ≢ [] → 0 < length xs
      pos_length [] h = absurd (h refl)
      pos_length (x ∷ xs) h = omega arith

      long : ltb 0 (length tag) ≡ true
      long = lt→ltb 0 (length tag) (pos_length tag ne)

-- Keys with the same non-empty hash tag are in one slot, whatever stands round it: the slot is the
-- CRC of the tag alone, below the number of slots.
pub get_slot-tagged :
    (before tag after : Bytes)
    → Without b'{' before
    → Without b'}' tag
    → tag ≢ []
    → (get_slot (tagged before tag after) ≡ crc16 tag % 16384)
      × (get_slot (tagged before tag after) < 16384)
unfolding get_slot
get_slot-tagged before tag after o c ne =
    (ap (λ k. crc16 k % 16384) (hashed_part-tagged before tag after o c ne), omega arith)

and_true : (p q : Bool) → (p && q) ≡ true → (p ≡ true) × (q ≡ true)
and_true p q h = (ground (arith, h), ground (arith, h))

-- Whether the table agrees with the shifts at the `k` bytes from `b` on.
table_agrees : ℕ → ℕ → Bool
unfolding crc_byte
table_agrees b zero = true
table_agrees b (suc k) = (crc_byte 0 b == iterate 8 shift_bit (b * 256)) && table_agrees (b + 1) k

table_agrees-at :
    (b k i : ℕ)
    → table_agrees b k ≡ true
    → i < k
    → crc_byte 0 (b + i) ≡ iterate 8 shift_bit ((b + i) * 256)
unfolding table_agrees
table_agrees-at b zero i h lt = absurd (omega arith)
table_agrees-at b (suc k) zero h lt =
    let e : b + 0 ≡ b = omega arith in rw e ((==_iff _ _).0 (and_true _ _ h).0)
table_agrees-at b (suc k) (suc i) h lt =
    let e : b + suc i ≡ b + 1 + i = omega arith in
    rw e (table_agrees-at (b + 1) k i (and_true _ _ h).1 (omega arith))

table_checks : table_agrees 0 256 ≡ true
unfolding table_agrees crc_byte
table_checks = refl

-- Each of the 256 entries of the table is what eight shifts of CRC-16/XMODEM, with the polynomial
-- 0x1021, make of its byte: the table of the program is the published one.
pub crc_byte-xmodem : (b : ℕ) → b < 256 → crc_byte 0 b ≡ iterate 8 shift_bit (b * 256)
crc_byte-xmodem b h =
    let e : 0 + b ≡ b = omega arith in rw e at (table_agrees-at 0 256 b table_checks h)
