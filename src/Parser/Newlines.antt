-- ===== src/Parser/Newlines.antt =====
-- Newlines in a text: the first one, and where `find` sees it.
use xredis_client.Base.{
  true, false, ℕ, suc, ◌+◌, Bytes, [], ◌∷◌, ◌++◌, Option, none, some, ◌==◌, if◌then◌else◌,
  Bool-cases, length, drop, get_or, ◌≡◌, ◌≢◌, inl, inr, refl, ap, arith,
}
use xredis_client.Parser.{find_from}

abbrev pub NoLf : Bytes → Type 0
NoLf [] = Unit {0}
NoLf (c ∷ cs) = (c ≢ b'\n') × NoLf cs

pub NoLf-append : (xs ys : Bytes) → NoLf xs → NoLf ys → NoLf (xs ++ ys)
NoLf-append [] ys h k = k
NoLf-append (x ∷ xs) ys h k = (h.0, NoLf-append xs ys h.1 k)

-- Two texts that split at their first newline split alike.
pub first_lf :
    (xs us ys bs : Bytes)
    → NoLf xs
    → NoLf us
    → xs ++ (b'\n' ∷ ys) ≡ us ++ (b'\n' ∷ bs)
    → (xs ≡ us) × (ys ≡ bs)
first_lf [] [] ys bs h k e = (refl, cc)
first_lf [] (a ∷ us) ys bs h k e = absurd (k.0 (cc))
first_lf (x ∷ xs) [] ys bs h k e = absurd (h.0 (cc))
first_lf (x ∷ xs) (a ∷ us) ys bs h k e = let (p, q) = first_lf xs us ys bs h.1 k.1 (cc) in (cc, q)

pub no_lf : (xs us bs : Bytes) → NoLf xs → xs ≡ us ++ (b'\n' ∷ bs) → ⊥
no_lf [] [] bs h e = cc
no_lf [] (a ∷ us) bs h e = cc
no_lf (x ∷ xs) [] bs h e = h.0 (cc)
no_lf (x ∷ xs) (a ∷ us) bs h e = no_lf xs us bs h.1 (cc)

-- What a search for the newline says of the text.
abbrev pub Found : Bytes → Option ℕ → Type 0
Found ys none = NoLf ys
Found ys (some k) =
    (us : Bytes) × (bs : Bytes) × (ys ≡ us ++ (b'\n' ∷ bs)) × NoLf us × (length us ≡ k)

pub find_from-Found : (ys : Bytes) → Found ys (find_from b'\n' 0 ys)
unfolding find_from
find_from-Found [] = tt
find_from-Found (y ∷ ys) = step (find_from b'\n' 0 ys) (find_from-Found ys)
  where
    step :
        (o : Option ℕ)
        → Found ys o
        → Found
            (y ∷ ys)
            (if y == b'\n' then some 0 else elim o [ none ↦ none | some k ↦ some (suc k) ])
    step none h = elim (Bool-cases (y == b'\n')) [
      | inl e ↦ rw e ([], ys, ground arith, tt, refl)
      | inr e ↦ rw e (ground arith, h)
    ]
    step (some k) (us, bs, e, n, l) = elim (Bool-cases (y == b'\n')) [
      | inl t ↦ rw t ([], ys, ground arith, tt, refl)
      | inr t ↦ rw t (y ∷ us, bs, ap (◌∷◌ y) e, (ground arith, n), ap suc l)
    ]

abbrev pub shift : ℕ → Option ℕ → Option ℕ
shift n none = none
shift n (some k) = some (n + k)

shift-suc :
    (n : ℕ) (o : Option ℕ)
    → elim (shift n o) [ none ↦ none | some k ↦ some (suc k) ] ≡ shift (suc n) o
shift-suc n none = refl
shift-suc n (some k) = ap some (omega arith)

shift-zero : (o : Option ℕ) → o ≡ shift 0 o
shift-zero none = refl
shift-zero (some k) = ap some (omega arith)

pub find_from-append :
    (c : ℕ) (xs ys : Bytes)
    → find_from c (length xs) (xs ++ ys) ≡ shift (length xs) (find_from c 0 ys)
unfolding find_from
find_from-append c [] ys = shift-zero (find_from c 0 ys)
find_from-append c (x ∷ xs) ys =
    rw (find_from-append c xs ys) (shift-suc (length xs) (find_from c 0 ys))

-- The first occurrence of a byte.
abbrev pub Without : ℕ → Bytes → Type 0
Without c [] = Unit {0}
Without c (x ∷ xs) = (x ≢ c) × Without c xs

pub find_from-first :
    (c : ℕ) (xs ys : Bytes) → Without c xs → find_from c 0 (xs ++ (c ∷ ys)) ≡ some (length xs)
unfolding find_from
find_from-first c [] ys h = let e : (c == c) ≡ true = ground arith in rw e refl
find_from-first c (x ∷ xs) ys h =
    let e : (x == c) ≡ false = ground (arith, h.0) in rw (e, find_from-first c xs ys h.1) refl

abbrev pub crlf : Bytes → Bytes
crlf rest = b'\r' ∷ b'\n' ∷ rest

pub get_or-append : (xs ys : Bytes) (i d : ℕ) → get_or (xs ++ ys) (length xs + i) d ≡ get_or ys i d
get_or-append [] ys i d = let e : 0 + i ≡ i = omega arith in rw e
get_or-append (x ∷ xs) ys i d =
    let e : suc (length xs) + i ≡ suc (length xs + i) = omega arith in
    rw e (get_or-append xs ys i d)

pub drop-append_add : (xs ys : Bytes) (i : ℕ) → drop (length xs + i) (xs ++ ys) ≡ drop i ys
drop-append_add [] ys i = let e : 0 + i ≡ i = omega arith in rw e
drop-append_add (x ∷ xs) ys i =
    let e : suc (length xs) + i ≡ suc (length xs + i) = omega arith in
    rw e (drop-append_add xs ys i)
