-- ===== src/Client/Writer.antt =====
-- include/RedisClient.hpp, the part of `writer` that sends one batch of buffers. Each call of writev
-- gives a number of bytes or a code; the bytes that it counts are the first ones of the buffers.
use xredis_client.Base.{
  ℕ, zero, suc, ◌+◌, ◌-◌, ◌<◌, ◌≤◌, Bytes, false, List, [], ◌∷◌, ◌++◌, leb, ◌==◌, if◌then◌else◌,
  Bool-cases, inl, inr, length, length-drop, take, drop, take-append-drop, ◌≡◌, refl, sym, ap, ◌∙◌,
  arith,
}
use xredis_client.Outcome.{Result, ok, err, suspended, econnreset}

abbrev pub joined : List Bytes → Bytes
joined [] = []
joined (b ∷ bs) = b ++ joined bs

-- The inner loop: buffers that were sent are passed over, and one that was sent in part is cut.
unfoldable pub advance : ℕ → List Bytes → List Bytes
advance n [] = []
advance n (b ∷ bs) =
    let rest = advance (n - length b) bs in if leb (length b) n then rest else drop n b ∷ bs

-- What goes out before `sent_then` does.
abbrev pub after : Bytes → Result (Unit {0}) × Bytes → Result (Unit {0}) × Bytes
after now (r, more) = (r, now ++ more)

-- The loop round writev: the result, and the bytes that go out. The coroutine waits (`suspended`) where
-- no more results come.
unfoldable pub send_batch : List (Result ℕ) → ℕ → ℕ → List Bytes → Result (Unit {0}) × Bytes
unfolding advance
send_batch [] total bytes iov = (err suspended, [])
send_batch (err e ∷ results) total bytes iov = (err e, [])
send_batch (ok n ∷ results) total bytes iov =
    let rest = send_batch results total (bytes + n) (advance n iov) in
    if n == 0
    then (err econnreset, [])
    else if bytes + n == total
    then (ok tt, take n (joined iov))
    else after (take n (joined iov)) rest

-- Each call sends something, and no more than there is.
abbrev pub Progress : List (Result ℕ) → List Bytes → Type 0
Progress [] iov = Unit {0}
Progress (err e ∷ results) iov = ⊥
Progress (ok n ∷ results) iov =
    (0 < n)
    × (n ≤ length (joined iov))
    × (n < length (joined iov) → Progress results (advance n iov))

drop-append_ge :
    (xs ys : Bytes) (n : ℕ) → length xs ≤ n → drop n (xs ++ ys) ≡ drop (n - length xs) ys
drop-append_ge [] ys n h = let e : n - 0 ≡ n = omega arith in rw e refl
drop-append_ge (x ∷ xs) ys zero h = absurd (omega arith)
drop-append_ge (x ∷ xs) ys (suc n) h =
    let e : suc n - suc (length xs) ≡ n - length xs = omega arith in
    rw e (drop-append_ge xs ys n (omega arith))

drop-append_le : (xs ys : Bytes) (n : ℕ) → n ≤ length xs → drop n (xs ++ ys) ≡ drop n xs ++ ys
drop-append_le xs ys zero h = refl
drop-append_le [] ys (suc n) h = absurd (omega arith)
drop-append_le (x ∷ xs) ys (suc n) h = drop-append_le xs ys n (omega arith)

drop-nil : (n : ℕ) → ◌≡◌ {A = Bytes} (drop n []) []
drop-nil zero = refl
drop-nil (suc n) = refl

advance-joined : (n : ℕ) (iov : List Bytes) → joined (advance n iov) ≡ drop n (joined iov)
unfolding advance
advance-joined n [] = sym (drop-nil n)
advance-joined n (b ∷ bs) = elim (Bool-cases (leb (length b) n)) [
  | inl t ↦
      rw t (
        advance-joined (n - length b) bs ∙ sym (drop-append_ge b (joined bs) n (ground (arith, t))))
  | inr t ↦ rw t (sym (drop-append_le b (joined bs) n (ground (arith, t))))
]

take-all : (n : ℕ) (xs : Bytes) → length xs ≤ n → take n xs ≡ xs
take-all zero [] h = refl
take-all zero (x ∷ xs) h = absurd (omega arith)
take-all (suc n) [] h = refl
take-all (suc n) (x ∷ xs) h = ap (◌∷◌ x) (take-all n xs (omega arith))

-- If every call of writev sends something and no more than there is, at most as many calls as there
-- are bytes send the batch: all buffers, whole and in order, each byte once.
pub send_batch-joined :
    (results : List (Result ℕ)) (total bytes : ℕ) (iov : List Bytes)
    → 0 < length (joined iov)
    → bytes + length (joined iov) ≡ total
    → length (joined iov) ≤ length results
    → Progress results iov
    → send_batch results total bytes iov ≡ (ok tt, joined iov)
unfolding send_batch
send_batch-joined [] total bytes iov p e l g = absurd (omega arith)
send_batch-joined (err x ∷ results) total bytes iov p e l g = absurd g
send_batch-joined (ok n ∷ results) total bytes iov p e l g =
    let positive : (n == 0) ≡ false = ground (arith, g.0) in
    elim (Bool-cases (bytes + n == total)) [
      | inl t ↦
          let all : take n (joined iov) ≡ joined iov =
            take-all n (joined iov) (ground (arith, t, e)) in
          rw (positive, t) (ap (λ b. (ok tt, b)) all)
      | inr t ↦
          let less : n < length (joined iov) = ground (arith, t, e, g.1) in
          let left : length (joined (advance n iov)) ≡ length (joined iov) - n =
            ap length (advance-joined n iov) ∙ length-drop n (joined iov) in
          let rest =
            send_batch-joined results total (bytes + n) (advance n iov) (omega arith)
              (omega (arith, g.1)) (omega (arith, g.0)) (g.2 less) in
          rw (positive, t)
            (ap (after (take n (joined iov))) rest
              ∙ ap (λ b. (ok tt, b))
                  (ap (◌++◌ (take n (joined iov))) (advance-joined n iov)
                    ∙ take-append-drop n (joined iov)))
    ]
