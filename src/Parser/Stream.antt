-- ===== src/Parser/Stream.antt =====
-- The bytes ahead of the parser: what the buffer holds behind the position, then what the socket
-- still delivers. `Reads` says of a step that it takes exactly some bytes off them.
use xredis_client.Base.{
  ◌+◌, ◌≤◌, ◌<◌, Bytes, List, [], ◌∷◌, ◌++◌, ◌≡◌, ◌≢◌, refl, ◌∙◌, append-nil, append_assoc, length,
  drop,
}
use xredis_client.Outcome.{Result, ok}
use xredis_client.Parser.{Recv, got, would_block, fails, Parser, max_bulk_size}
use xredis_client.Parser.Replies.{M, continue, ◌>>=◌, pure, lift, delivered}

-- Each `recv` still to come returns at least one byte.
abbrev pub Flowing : List Recv → Type 0
Flowing [] = Unit {0}
Flowing (got bs ∷ rest) = (bs ≢ []) × Flowing rest
Flowing (would_block ∷ rest) = ⊥
Flowing (fails e ∷ rest) = ⊥

-- `bytes` are ahead of the parser, in whatever pieces, and all that it holds stays below the limit.
pub record Ready (s : Parser) (bytes : Bytes) : Type 0 where
  pub inside : s.position ≤ length s.linebuffer
  pub ahead : drop s.position s.linebuffer ++ delivered s.incoming ≡ bytes
  pub flowing : Flowing s.incoming
  pub small : length s.linebuffer + length (delivered s.incoming) < max_bulk_size

-- The step returns `a`, having taken `bytes` and no more, however they are cut into packets.
abbrev pub Reads : {A : Type 0} → M A → A → Bytes → Type 0
Reads m a bytes =
    (s : Parser) (rest : Bytes)
    → Ready s (bytes ++ rest)
    → (s' : Parser) × (m s ≡ (ok a, s')) × Ready s' rest

Ready-append :
    (xs ys rest : Bytes) (s : Parser) → Ready s ((xs ++ ys) ++ rest) → Ready s (xs ++ (ys ++ rest))
Ready-append xs ys rest s r = rw append_assoc at r

continue-ok :
    {A B : Type 0} (r : Result A × Parser) (k : A → M B) {a : A} {s : Parser}
    → r ≡ (ok a, s)
    → continue r k ≡ k a s
continue-ok r k e = rw e

pub Reads-bind :
    {A B : Type 0} (m : M A) (k : A → M B) (a : A) (b : B) (xs ys : Bytes)
    → Reads m a xs
    → Reads (k a) b ys
    → Reads (m >>= k) b (xs ++ ys)
Reads-bind m k a b xs ys first second s rest r =
    let (s', e, r') = first s (ys ++ rest) (Ready-append xs ys rest s r) in
    let (s'', e', r'') = second s' rest r' in (s'', continue-ok (m s) k e ∙ e', r'')

pub Reads-pure : {A : Type 0} (a : A) → Reads (pure a) a []
Reads-pure a s rest r = (s, refl, r)

-- A step that ends by a pure one, and one that begins with a result at hand.
pub Reads-map :
    {A B : Type 0} (m : M A) (g : A → B) (a : A) (xs : Bytes)
    → Reads m a xs
    → Reads (m >>= λ x. pure (g x)) (g a) xs
Reads-map m g a xs first =
    rw append-nil at (Reads-bind m (λ x. pure (g x)) a (g a) xs [] first (Reads-pure (g a)))

pub Reads-lift :
    {A B : Type 0} (r : Result A) (k : A → M B) (a : A) (b : B) (ys : Bytes)
    → r ≡ ok a
    → Reads (k a) b ys
    → Reads (lift r >>= k) b ys
Reads-lift r k a b ys e second = rw e second
