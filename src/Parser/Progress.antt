-- ===== src/Parser/Progress.antt =====
-- What a tame step of the parser is, on any input and whatever `recv` returns: fuel left, the position
-- inside the buffer, and the bytes received kept unless it reports EOVERFLOW.
use xredis_client.Base.{ℕ, ◌+◌, ◌-◌, ◌≤◌, ◌<◌, Bytes, ◌++◌, length, ◌≡◌, ◌≢◌, ◌⊎◌, inr, refl, arith}
use xredis_client.Outcome.{Result, ok, err, eoverflow, out_of_fuel}
use xredis_client.Parser.{Parser}
use xredis_client.Parser.Replies.{M, continue, ◌>>=◌, pure, lift, delivered}

-- All bytes received or still to come that were not consumed.
abbrev pub stream : Parser → Bytes
stream s = s.linebuffer ++ delivered s.incoming

abbrev pub remaining : Parser → ℕ
remaining s = length s.linebuffer + length (delivered s.incoming) - s.position

pub record Tame {A : Type 0} (s : Parser) (r : Result A × Parser) : Type 0 where
  pub fuelled : r.0 ≢ err out_of_fuel
  pub inside : r.1.position ≤ length r.1.linebuffer
  pub moves_on : remaining r.1 ≤ remaining s
  pub keeps : (r.0 ≡ err eoverflow) ⊎ (stream r.1 ≡ stream s)

abbrev pub TameStep : {A : Type 0} → ℕ → M A → Type 0
TameStep f m = (s : Parser) → s.position ≤ length s.linebuffer → remaining s < f → Tame s (m s)

pub Tame-pure : {A : Type 0} (f : ℕ) (a : A) → TameStep f (pure a)
Tame-pure f a s i h = record { fuelled = cc; inside = i; moves_on = omega arith; keeps = inr refl }

pub Tame-lift : {A : Type 0} (f : ℕ) (r : Result A) → r ≢ err out_of_fuel → TameStep f (lift r)
Tame-lift f r ne s i h = record {
  fuelled = ne;
  inside = i;
  moves_on = omega arith;
  keeps = inr refl;
}

-- What follows a tame step, if every continuation is tame.
Tame-continue :
    {A B : Type 0} (f : ℕ) (s : Parser) (r : Result A × Parser) (k : A → M B)
    → remaining s < f
    → Tame s r
    → ((a : A) → TameStep f (k a))
    → Tame s (continue r k)
Tame-continue f s (err e, s') k h t each = record {
  fuelled = λ x. t.fuelled (cc);
  inside = t.inside;
  moves_on = t.moves_on;
  keeps = ground (arith, t.keeps);
}
Tame-continue f s (ok a, s') k h t each =
    let u = each a s' t.inside (omega (arith, t.moves_on)) in
    record {
      fuelled = u.fuelled;
      inside = u.inside;
      moves_on = omega (arith, t.moves_on, u.moves_on);
      keeps = ground (arith, t.keeps, u.keeps);
    }

pub Tame-bind :
    {A B : Type 0} (f : ℕ) (m : M A) (k : A → M B)
    → TameStep f m
    → ((a : A) → TameStep f (k a))
    → TameStep f (m >>= k)
Tame-bind f m k first each s i h = Tame-continue f s (m s) k h (first s i h) each
