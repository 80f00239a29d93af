-- ===== src/Cluster/Slots.antt =====
-- include/RedisCluster.hpp, `connect`: from the reply to CLUSTER SLOTS to the shard of each slot. A shard
-- is its address and port. What the code reads or writes without a test is `undefined` where the
-- reply has nothing there.
use xredis_client.Base.{
  ℕ, ◌-◌, ◌%◌, ◌^◌, ◌<◌, Bool, true, false, ◌&&◌, ◌||◌, not, List, [], ◌∷◌, Option, none, some, leb,
  ◌==◌, if◌then◌else◌, ◌≡◌, refl, ap, ◌∙◌, arith,
}
use xredis_client.Base.Int.{ℤ, pos, negsuc}
use xredis_client.Outcome.{Error, eproto}
use xredis_client.Value.{
  Value, Values, array, integer, bulk_string, nil, cons, is_integer, is_simple_string,
  is_bulk_string, as_string,
}
use xredis_client.Connection.{iptouint32, ip_text}
use xredis_client.Connection.Address.{iptouint32-ip_text}
use xredis_client.Cluster.{Shard, is_at}

-- The conversions of int64_t to size_t and to uint16_t.
abbrev pub size_of : ℤ → ℕ
size_of (pos n) = n % 2 ^ 64
size_of (negsuc n) = 2 ^ 64 - 1 - n % 2 ^ 64

abbrev pub port_of : ℤ → ℕ
port_of (pos n) = n % 2 ^ 16
port_of (negsuc n) = 2 ^ 16 - 1 - n % 2 ^ 16

pub data Entry : Type 0 where
  good : (begin last : ℕ) (shard : Shard) → Entry
  bad : Entry  -- EPROTO
  undefined : Entry

module _ {D : Type 0} where
  -- `as<integer_t>()` of a value that was tested.
  abbrev pub int_of : Value D → ℤ
  int_of (integer i) = i
  int_of v = pos 0

  unfoldable pub read_node : ℕ → ℕ → Values D → Entry
  unfolding is_simple_string is_bulk_string is_integer as_string
  read_node begin last nil = undefined
  read_node begin last (cons host nil) =
      if is_simple_string host || is_bulk_string host then undefined else bad
  read_node begin last (cons host (cons p more)) =
      let ip = iptouint32 (as_string host) in
      if not (is_simple_string host || is_bulk_string host) || not (is_integer p)
      then bad
      else if ip == 0
      then bad
      else good begin last (record { ip = ip; port = port_of (int_of p) })

  unfoldable pub read_parts : Value D → Value D → Value D → Entry
  unfolding read_node is_integer
  read_parts b e (array info) =
      let node = read_node (size_of (int_of b)) (size_of (int_of e)) info in
      if not (is_integer b) || not (is_integer e) then bad else node
  read_parts b e info = bad

  -- An entry must have three parts, no less and no more.
  unfoldable pub read_entry : Value D → Entry
  unfolding read_parts
  read_entry (array (cons b (cons e (cons info nil)))) = read_parts b e info
  read_entry (array vs) = bad
  read_entry v = undefined

-- The slots, and the shards in the order in which they were met.
pub record Loaded : Type 0 where
  pub owners : ℕ → Option Shard
  pub shards : List Shard

pub data Load : Type 0 where
  loaded : Loaded → Load
  refused : Error → Load
  lost : Load  -- undefined behaviour

abbrev pub add_shard : List Shard → Shard → List Shard
add_shard [] s = s ∷ []
add_shard (x ∷ xs) s = let rest = add_shard xs s in if is_at x s.ip s.port then x ∷ xs else x ∷ rest

abbrev pub covers : ℕ → ℕ → ℕ → Bool
covers begin last i = leb begin i && leb i last

abbrev pub num_slot : ℕ
num_slot = 16384

-- The loop that sets the slots from `begin` to `last`.
abbrev pub assign : Loaded → ℕ → ℕ → Shard → Loaded
assign t begin last s = record {
  owners = λ i. if covers begin last i then some s else t.owners i;
  shards = add_shard t.shards s;
}

unfoldable pub take_entry : (Loaded → Load) → Loaded → Entry → Load
take_entry next t bad = refused eproto
take_entry next t undefined = lost
take_entry next t (good begin last s) =
    let rest = next (assign t begin last s) in
    if leb begin last && leb num_slot last then lost else rest

module _ {D : Type 0} where
  unfoldable pub load_slots : Values D → Loaded → Load
  unfolding take_entry read_entry
  load_slots nil t = loaded t
  load_slots (cons v vs) t = take_entry (load_slots vs) t (read_entry v)

abbrev pub nothing_loaded : Loaded
nothing_loaded = record { owners = λ _. none; shards = [] }

-- A range of slots with the address of its node, and what the server says of the node besides.
pub record Range (D : Type 0) : Type 0 where
  pub begin : ℕ
  pub last : ℕ
  pub ip : ℕ
  pub port : ℕ
  pub more : Values D

abbrev pub or_else : {A : Type 0} → Option A → Option A → Option A
or_else none b = b
or_else (some a) b = some a

or_else-if :
    (a : Option Shard) (b : Bool) (s : Shard) (c : Option Shard)
    → or_else a (if b then some s else c) ≡ or_else (or_else a (if b then some s else none)) c
or_else-if none true s c = refl
or_else-if none false s c = refl
or_else-if (some x) b s c = refl

or_else-none : (a : Option Shard) → or_else a none ≡ a
or_else-none none = refl
or_else-none (some x) = refl

module _ {D : Type 0} where
  abbrev pub InRange : Range D → Type 0
  InRange r =
      (r.begin < num_slot) × (r.last < num_slot) × (0 < r.ip) × (r.ip < 2 ^ 32) × (r.port < 2 ^ 16)

  abbrev pub AllInRange : List (Range D) → Type 0
  AllInRange [] = Unit {0}
  AllInRange (r ∷ rs) = InRange r × AllInRange rs

  abbrev pub shard_of : Range D → Shard
  shard_of r = record { ip = r.ip; port = r.port }

  -- The reply of a server without replicas.
  abbrev pub entry_of : Range D → Value D
  entry_of r = array (
      cons (integer (pos r.begin)) (
        cons (integer (pos r.last)) (
          cons (array (cons (bulk_string (ip_text r.ip)) (cons (integer (pos r.port)) r.more)))
            nil)))

  abbrev pub reply_of : List (Range D) → Values D
  reply_of [] = nil
  reply_of (r ∷ rs) = cons (entry_of r) (reply_of rs)

  -- The shard of the last range with the slot.
  abbrev pub owner : List (Range D) → ℕ → Option Shard
  owner [] i = none
  owner (r ∷ rs) i =
      or_else (owner rs i) (if covers r.begin r.last i then some (shard_of r) else none)

  read_entry-entry_of :
      (r : Range D) → InRange r → read_entry (entry_of r) ≡ good r.begin r.last (shard_of r)
  unfolding read_entry read_parts read_node is_simple_string is_bulk_string is_integer as_string
  read_entry-entry_of r (a, b, c, d, e) =
      let ip : iptouint32 (ip_text r.ip) ≡ r.ip = iptouint32-ip_text r.ip d in
      let nz : (r.ip == 0) ≡ false = ground (arith, c) in
      let first : r.begin % 2 ^ 64 ≡ r.begin = omega (arith, a) in
      let end : r.last % 2 ^ 64 ≡ r.last = omega (arith, b) in
      let port : r.port % 2 ^ 16 ≡ r.port = omega (arith, e) in
      rw (ip, nz) (rw (first, end, port) refl)

  Loads : List (Range D) → Loaded → Load → Type 0
  Loads rs t l =
      (u : Loaded) × (l ≡ loaded u) × ((i : ℕ) → u.owners i ≡ or_else (owner rs i) (t.owners i))

  loads :
      (rs : List (Range D)) (t : Loaded) → AllInRange rs → Loads rs t (load_slots (reply_of rs) t)
  unfolding Loads load_slots take_entry
  loads [] t h = (t, refl, λ i. refl)
  loads (r ∷ rs) t (k, h) =
      let small : (leb r.begin r.last && leb num_slot r.last) ≡ false = ground (arith, k.1) in
      let (u, e, o) = loads rs (assign t r.begin r.last (shard_of r)) h in
      (
        u,
        ap (take_entry (load_slots (reply_of rs)) t) (read_entry-entry_of r k) ∙ rw small e,
        λ i. o i ∙ or_else-if (owner rs i) (covers r.begin r.last i) (shard_of r) (t.owners i),
      )

  -- From the reply of a server without replicas, with ranges of slots below 16384 and addresses that are
  -- not 0, each slot gets the shard of the last range that has it, and no shard if none has it.
  pub load_slots-owner :
      (rs : List (Range D))
      → AllInRange rs
      → (t : Loaded) × (load_slots (reply_of rs) nothing_loaded ≡ loaded t)
        × ((i : ℕ) → t.owners i ≡ owner rs i)
  unfolding Loads
  load_slots-owner rs h =
      let (t, e, o) = loads rs nothing_loaded h in (t, e, λ i. o i ∙ or_else-none (owner rs i))

  abbrev pub reply_then : List (Range D) → Values D → Values D
  reply_then [] tail = tail
  reply_then (r ∷ rs) tail = cons (entry_of r) (reply_then rs tail)

  -- An entry with a replica: a fourth part.
  abbrev pub with_replica : Range D → Value D → Values D → Value D
  with_replica r replica others = array (
      cons (integer (pos r.begin)) (
        cons (integer (pos r.last)) (
          cons (array (cons (bulk_string (ip_text r.ip)) (cons (integer (pos r.port)) r.more)))
            (cons replica others))))

  refuses :
      (rs : List (Range D)) (t : Loaded) (r : Range D) (replica : Value D) (others tail : Values D)
      → AllInRange rs
      → load_slots (reply_then rs (cons (with_replica r replica others) tail)) t ≡ refused eproto
  unfolding load_slots take_entry read_entry
  refuses [] t r replica others tail h = refl
  refuses (x ∷ rs) t r replica others tail (k, h) =
      let small : (leb x.begin x.last && leb num_slot x.last) ≡ false = ground (arith, k.1) in
      ap (take_entry (load_slots (reply_then rs (cons (with_replica r replica others) tail))) t)
        (read_entry-entry_of x k)
      ∙ rw small (refuses rs (assign t x.begin x.last (shard_of x)) r replica others tail h)

  -- A reply in which an entry behind any number of entries with a master only, with ranges below 16384
  -- and addresses that are not 0, names a replica is refused with
  -- EPROTO, whatever else it holds.
  pub replicas-refused :
      (rs : List (Range D)) (r : Range D) (replica : Value D) (others tail : Values D)
      → AllInRange rs
      → load_slots (reply_then rs (cons (with_replica r replica others) tail)) nothing_loaded
        ≡ refused eproto
  replicas-refused rs r replica others tail h = refuses rs nothing_loaded r replica others tail h
