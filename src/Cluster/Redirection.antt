-- ===== src/Cluster/Redirection.antt =====
-- parse_error of include/RedisCluster.hpp on the text of a redirection.
use xredis_client.Base.{
  ℕ, ◌^◌, ◌<◌, ◌≤◌, Bytes, false, [], ◌∷◌, ◌++◌, some, ◌==◌, codes, take-append, append-nil, ◌≡◌,
  ◌⊎◌, inl, inr, ◌-◌, refl, arith,
}
use xredis_client.Base.Decimal.{
  scanned, from_chars, from_chars-to_chars, to_chars, to_chars-Digits, Digits,
}
use xredis_client.Parser.Newlines.{Without, find_from-first, drop-append_add}
use xredis_client.Connection.{ip_text, octet}
use xredis_client.Connection.Address.{iptouint32-ip_text}
use xredis_client.Cluster.{Redirect, moved, ask, split_at, finish, read_target, behind, parse_error}

split_at-first :
    (c : ℕ) (xs ys : Bytes) → Without c xs → split_at c (xs ++ (c ∷ ys)) ≡ some (xs, ys)
unfolding split_at
split_at-first c xs ys h =
    rw (find_from-first c xs ys h, split_at)
      (rw (take-append xs (c ∷ ys), drop-append_add xs (c ∷ ys) 1) refl)

Digits-Without : (c : ℕ) (xs : Bytes) → (c < 48) ⊎ (57 < c) → Digits xs → Without c xs
Digits-Without c [] h d = tt
Digits-Without c (x ∷ xs) h d = (ground (arith, h, d.0), Digits-Without c xs h d.1)

Without-append : (c : ℕ) (xs ys : Bytes) → Without c xs → Without c ys → Without c (xs ++ ys)
Without-append c [] ys h k = k
Without-append c (x ∷ xs) ys h k = (h.0, Without-append c xs ys h.1 k)

to_chars-Without : (c n : ℕ) → (c < 48) ⊎ (57 < c) → Without c (to_chars n)
to_chars-Without c n h = Digits-Without c (to_chars n) h (to_chars-Digits n)

ip_text-Without : (ip : ℕ) → Without b':' (ip_text ip)
unfolding ip_text
ip_text-Without ip =
    let part : (i : ℕ) → Without b':' (to_chars (octet ip i)) =
      λ i. to_chars-Without b':' (octet ip i) (inr (omega arith)) in
    let dot : (xs : Bytes) → Without b':' xs → Without b':' (b'.' ∷ xs) =
      λ xs h. (omega arith, h) in
    Without-append b':' _ _ (part 0) (
      dot _ (
        Without-append b':' _ _ (part 1)
          (dot _ (Without-append b':' _ _ (part 2) (dot _ (part 3))))))

-- The place that a redirection names: a slot, an address and a port.
abbrev pub target : ℕ → ℕ → ℕ → Bytes
target slot ip port = to_chars slot ++ (b' ' ∷ (ip_text ip ++ (b':' ∷ to_chars port)))

read : (top n : ℕ) → n ≤ top → from_chars top (to_chars n) ≡ scanned n []
read top n h = rw append-nil at (from_chars-to_chars top n [] h tt)

read_target-target :
    (make : ℕ → ℕ → ℕ → Redirect) (slot ip port : ℕ)
    → slot < 2 ^ 64
    → 0 < ip
    → ip < 2 ^ 32
    → port < 2 ^ 16
    → read_target make (target slot ip port) ≡ make slot ip port
unfolding read_target
read_target-target make slot ip port s p i q =
    let e =
      split_at-first b' ' (to_chars slot) (ip_text ip ++ (b':' ∷ to_chars port))
        (to_chars-Without b' ' slot (inl (omega arith))) in
    let e' = split_at-first b':' (ip_text ip) (to_chars port) (ip_text-Without ip) in
    let ne : (ip == 0) ≡ false = ground arith in
    rw (e, read_target)
      (rw (e', read_target)
        (rw (iptouint32-ip_text ip i) (
          rw (ne, read (2 ^ 64 - 1) slot (omega arith), read (2 ^ 16 - 1) port (omega arith))
            (unfold finish in refl))))

-- `parse_error` reads the slot, the address and the port that a server writes into MOVED or ASK,
-- for every address but 0. The slot may be any number of 64 bits, not just a slot that exists.
pub parse_error-target :
    (slot ip port : ℕ)
    → slot < 2 ^ 64
    → 0 < ip
    → ip < 2 ^ 32
    → port < 2 ^ 16
    → (parse_error (codes "MOVED " ++ target slot ip port) ≡ moved slot ip port)
      × (parse_error (codes "ASK " ++ target slot ip port) ≡ ask slot ip port)
unfolding parse_error behind
parse_error-target slot ip port s p i q =
    (read_target-target moved slot ip port s p i q, read_target-target ask slot ip port s p i q)
