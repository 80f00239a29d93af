-- ===== src/Connection/Address.antt =====
-- iptouint32 and uint32toip of src/RedisConnection.cpp: addresses as text and as 32-bit numbers.
use xredis_client.Base.{
  ℕ, suc, ◌+◌, ◌-◌, ◌*◌, ◌/◌, ◌%◌, ◌^◌, ◌≤◌, ◌<◌, Bytes, [], ◌∷◌, ◌++◌, some, ltb, Bool-cases, inl,
  inr, if◌then◌else◌, length, length-append, take, take-append, append_assoc, append-nil, ◌≡◌, ◌≢◌,
  refl, sym, ap, ◌∙◌, arith,
}
use xredis_client.Base.Decimal.{
  scanned, from_chars, to_chars, from_chars-to_chars, from_chars-digits, digits, NoDigit,
}
use xredis_client.Connection.{octet, ip_text, uint32toip, octets_from, finish_ip, iptouint32}

octet_lt : (ip i : ℕ) → octet ip i ≤ 255
octet_lt ip i = omega arith

octet_step :
    (i result o : ℕ) (rest : Bytes)
    → o ≤ 255
    → octets_from (suc (suc i)) result (to_chars o ++ (b'.' ∷ rest))
      ≡ octets_from (suc i) (result + o * 2 ^ (8 * suc i)) rest
unfolding octets_from
octet_step i result o rest h =
    let nd : NoDigit (b'.' ∷ rest) = ground arith in
    rw (from_chars-to_chars 255 o (b'.' ∷ rest) h nd, octets_from) refl

octet_last : (result o : ℕ) → o ≤ 255 → octets_from 1 result (to_chars o) ≡ some (result + o, [])
unfolding octets_from
octet_last result o h =
    let read : from_chars 255 (to_chars o) ≡ scanned o [] =
      rw append-nil at (from_chars-to_chars 255 o [] h tt) in
    rw (read, octets_from) refl

-- The address without its last octet.
abbrev three : ℕ → ℕ
three ip = 0 + octet ip 0 * 2 ^ 24 + octet ip 1 * 2 ^ 16 + octet ip 2 * 2 ^ 8

abbrev head_text : ℕ → Bytes → Bytes
head_text ip last =
    to_chars (octet ip 0)
    ++ (b'.' ∷ (to_chars (octet ip 1) ++ (b'.' ∷ (to_chars (octet ip 2) ++ (b'.' ∷ last)))))

read_head :
    (ip : ℕ) (last : Bytes) → octets_from 4 0 (head_text ip last) ≡ octets_from 1 (three ip) last
read_head ip last =
    octet_step 2 0 (octet ip 0) _ (octet_lt ip 0)
    ∙ octet_step 1 _ (octet ip 1) _ (octet_lt ip 1)
    ∙ octet_step 0 _ (octet ip 2) last (octet_lt ip 2)

three-add : (ip : ℕ) → ip < 2 ^ 32 → three ip + octet ip 3 ≡ ip
three-add ip h = omega arith

-- The text that `uint32toip` writes is read back by `iptouint32`, for every 32-bit address.
pub iptouint32-ip_text : (ip : ℕ) → ip < 2 ^ 32 → iptouint32 (ip_text ip) ≡ ip
unfolding iptouint32 ip_text
iptouint32-ip_text ip h =
    ap finish_ip
      (read_head ip (to_chars (octet ip 3)) ∙ octet_last (three ip) (octet ip 3) (octet_lt ip 3))
    ∙ three-add ip h

-- A numeral is its front and its last digit.
abbrev front : ℕ → Bytes
front n = if ltb n 10 then [] else digits n (n / 10)

to_chars-front : (n : ℕ) → to_chars n ≡ front n ++ ((b'0' + n % 10) ∷ [])
unfolding to_chars digits
to_chars-front n = elim (Bool-cases (ltb n 10)) [
  | inl t ↦ rw t (ap (λ d. d ∷ []) (ground arith))
  | inr t ↦ rw t refl
]

take-snoc : (xs : Bytes) (d : ℕ) → take (length (xs ++ (d ∷ [])) - 1) (xs ++ (d ∷ [])) ≡ xs
take-snoc xs d =
    let e : length (xs ++ (d ∷ [])) - 1 ≡ length xs =
      omega (arith, length-append {0} xs (d ∷ [])) in
    rw e (take-append xs (d ∷ []))

returned_text :
    (ip : ℕ) → take (uint32toip ip).1 (uint32toip ip).0 ≡ head_text ip (front (octet ip 3))
unfolding uint32toip ip_text
returned_text ip =
    let d = b'0' + octet ip 3 % 10 in
    let e : ip_text ip ≡ head_text ip (front (octet ip 3)) ++ (d ∷ []) =
      rw (to_chars-front (octet ip 3)) (simp append_assoc) in
    rw e (take-snoc (head_text ip (front (octet ip 3))) d)

octets-front :
    (result o : ℕ)
    → o ≤ 255
    → finish_ip (octets_from 1 result (front o)) ≡ (if ltb o 10 then 0 else result + o / 10)
unfolding octets_from finish_ip
octets-front result o h = elim (Bool-cases (ltb o 10)) [
  | inl t ↦ rw t refl
  | inr t ↦
      let read : from_chars 255 (digits o (o / 10)) ≡ scanned (o / 10) [] =
        rw append-nil at (from_chars-digits 255 o (o / 10) [] (ground arith) (omega arith) tt) in
      rw t (rw (read, octets_from) refl)
]

-- The text of the length that `uint32toip` returns is never read back as the address it was
-- written for, when that address is not 0.
pub uint32toip_wrong :
    (ip : ℕ) → 0 < ip → ip < 2 ^ 32 → iptouint32 (take (uint32toip ip).1 (uint32toip ip).0) ≢ ip
unfolding iptouint32
uint32toip_wrong ip p h e =
    let o = octet ip 3 in
    let back : (if ltb o 10 then 0 else three ip + o / 10) ≡ ip =
      sym (octets-front (three ip) o (octet_lt ip 3))
      ∙ (sym (ap finish_ip (read_head ip (front o)))
          ∙ (sym (ap iptouint32 (returned_text ip)) ∙ e)) in
    let whole : three ip + o ≡ ip = three-add ip h in ground arith
