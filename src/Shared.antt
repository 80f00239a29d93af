-- ===== src/Shared.antt =====
-- include/mpsc_ring.hpp, the ring of waiting requests that several threads use (`shared_ring`), one
-- shared access at a time: any number of threads call `push`, one thread calls `pop`,
-- `prep_writev` and `drain`. Accesses are interleaved in any order, each seen by all threads at once:
-- the relaxed orders of the atomics are not modelled. `reset`, which the connection calls when it is
-- set up again, starts a new history and is not a step.
pub mod Invariant
pub mod Moves
pub mod Pushes
pub mod Threads
pub mod Takes
pub mod Queue
pub mod Progress
pub mod Drain
mod Tests
use xredis_client.Base.{
  ℕ, zero, suc, ◌+◌, ◌%◌, ◌^◌, ◌<◌, ◌≤◌, Bytes, Bool, true, false, List, [], ◌∷◌, ◌++◌, ltb,
  if◌then◌else◌, Option, none, some, ◌≡◌, ◌≢◌,
}
use xredis_client.Base.Int.{ℤ, pos}
use xredis_client.Parser.{sub_size}
use mathlib.Core.Logic.{ite}
use native.Mathlib.Decide.{ℕ_discrete}
use xredis_client.Ring.{Slot, add_size, is_stopped, stop, stopped_code, full_code}

abbrev pub update {ℓ} : {A : Type ℓ} → (ℕ → A) → ℕ → A → ℕ → A
update f i v j = ite (ℕ_discrete j i) v (f j)

pub record SharedRing : Type 0 where
  pub head : ℕ
  pub head_committed : ℕ
  pub tail_allocated : ℕ
  pub tail : ℕ
  pub handles : ℕ → ℕ
  pub payloads : ℕ → Bytes

-- The ring with its history: the requests that were admitted, in the order of their tickets, how many
-- they are, and what `pop`, `prep_writev` and `drain` have handed out.
pub record World : Type 0 where
  pub ring : SharedRing
  pub count : ℕ
  pub log : ℕ → Slot
  pub popped : List Slot
  pub written : List Bytes
  pub resumed : List ℕ

-- Where a thread stands in `push`, with the local variables that are live there.
pub data Pc : Type 0 where
  ready : (code : Option ℤ) → Pc  -- not in `push`; the code that it returned last
  start : (s : Slot) → Pc  -- head of the loop
  loaded : (s : Slot) (t_alloc : ℕ) → Pc
  checking : (s : Slot) (t_alloc h : ℕ) → Pc  -- before the tests and the compare-exchange
  writing : (s : Slot) (t_alloc : ℕ) → Pc
  half : (s : Slot) (t_alloc : ℕ) → Pc  -- the handle is written
  waiting : (s : Slot) (t_alloc : ℕ) → Pc  -- the loop that waits for the tail
  publishing : (s : Slot) (t_alloc : ℕ) → Pc

-- Where the thread of the connection stands.
pub data Cpc : Type 0 where
  resting : Cpc
  popping : (h_val : ℕ) → Cpc
  holding : (h_val : ℕ) (s : Slot) → Cpc
  starting : (first : ℕ) → Cpc  -- `prep_writev`
  ending : (first last : ℕ) → Cpc
  filling : (i last : ℕ) → Cpc
  draining : (old : ℕ) → Cpc
  resuming : (i old : ℕ) → Cpc
  finished : Cpc  -- after `drain`

module _ (cap : ℕ) where
  abbrev pub cell_at : SharedRing → ℕ → Slot
  cell_at r i = record { handle = r.handles (i % cap); payload = r.payloads (i % cap) }

  abbrev pub admitted : World → Slot → ℕ → World
  admitted w s t = record w {
    ring = record w.ring { tail_allocated = add_size t 1 };
    count = w.count + 1;
    log = update w.log w.count s;
  }

  abbrev pub with_handle : World → Slot → ℕ → World
  with_handle w s t = record w {
    ring = record w.ring { handles = update w.ring.handles (t % cap) s.handle };
  }

  abbrev pub with_payload : World → Slot → ℕ → World
  with_payload w s t = record w {
    ring = record w.ring { payloads = update w.ring.payloads (t % cap) s.payload };
  }

  abbrev pub published : World → ℕ → World
  published w t = record w { ring = record w.ring { tail = add_size t 1 } }

  -- A step of `push`. The compare-exchange is the weak one, which may fail at any time.
  pub data Push (w : World) : Pc → World → Pc → Type 0 where
    call : {c : Option ℤ} (s : Slot) → Push w (ready c) w (start s)
    load_tail : {s : Slot} → Push w (start s) w (loaded s w.ring.tail_allocated)
    load_head : {s : Slot} {t : ℕ} → Push w (loaded s t) w (checking s t w.ring.head)
    refuse_stopped :
        {s : Slot} {t h : ℕ}
        → is_stopped t ≡ true
        → Push w (checking s t h) w (ready (some stopped_code))
    refuse_full :
        {s : Slot} {t h : ℕ}
        → is_stopped t ≡ false
        → cap ≤ sub_size t h
        → Push w (checking s t h) w (ready (some full_code))
    win :
        {s : Slot} {t h : ℕ}
        → is_stopped t ≡ false
        → sub_size t h < cap
        → w.ring.tail_allocated ≡ t
        → Push w (checking s t h) (admitted w s t) (writing s t)
    lose :
        {s : Slot} {t h : ℕ}
        → is_stopped t ≡ false
        → sub_size t h < cap
        → Push w (checking s t h) w (start s)
    write_handle : {s : Slot} {t : ℕ} → Push w (writing s t) (with_handle w s t) (half s t)
    write_payload : {s : Slot} {t : ℕ} → Push w (half s t) (with_payload w s t) (waiting s t)
    relax : {s : Slot} {t : ℕ} → w.ring.tail ≢ t → Push w (waiting s t) w (waiting s t)
    see_tail : {s : Slot} {t : ℕ} → w.ring.tail ≡ t → Push w (waiting s t) w (publishing s t)
    publish :
        {s : Slot} {t : ℕ} → Push w (publishing s t) (published w t) (ready (some (pos (t % cap))))

  abbrev pub num_evs : ℕ → ℕ → ℕ → ℕ
  num_evs first last size = if ltb (sub_size last first) size then sub_size last first else size

  -- A step of the thread of the connection. The reader pops when a reply came, so that the request
  -- was written.
  pub data Take (w : World) : Cpc → World → Cpc → Type 0 where
    pop_load : w.ring.head < w.ring.head_committed → Take w resting w (popping w.ring.head)
    pop_read : {h : ℕ} → Take w (popping h) w (holding h (cell_at w.ring h))
    pop_store :
        {h : ℕ} {s : Slot}
        → Take w
            (holding h s)
            (record w {
              ring = record w.ring { head = add_size h 1 };
              popped = w.popped ++ (s ∷ []);
            })
            resting
    load_committed : Take w resting w (starting w.ring.head_committed)
    load_end : {first : ℕ} → Take w (starting first) w (ending first w.ring.tail)
    commit :
        {first last : ℕ} (size : ℕ)
        → Take w
            (ending first last)
            (record w {
              ring = record w.ring {
                head_committed = add_size w.ring.head_committed (num_evs first last size);
              };
            })
            (filling first (add_size first (num_evs first last size)))
    fill :
        {i last : ℕ}
        → i ≢ last
        → Take w
            (filling i last)
            (record w { written = w.written ++ (w.ring.payloads (i % cap) ∷ []) })
            (filling (i + 1) last)
    filled : {i last : ℕ} → i ≡ last → Take w (filling i last) w resting
    set_stop :
        Take w resting
          (record w { ring = record w.ring { tail_allocated = stop w.ring.tail_allocated } })
          (draining w.ring.tail_allocated)
    await_tail : {old : ℕ} → w.ring.tail ≢ old → Take w (draining old) w (draining old)
    begin_resume :
        {old : ℕ} → w.ring.tail ≡ old → Take w (draining old) w (resuming w.ring.head old)
    resume :
        {i old : ℕ}
        → i ≢ old
        → Take w
            (resuming i old)
            (record w { resumed = w.resumed ++ (w.ring.handles (i % cap) ∷ []) })
            (resuming (add_size i 1) old)
    finish : {i old : ℕ} → i ≡ old → Take w (resuming i old) w finished

  pub record System : Type 0 where
    pub world : World
    pub pc : ℕ → Pc
    pub consumer : Cpc

  pub data Step (x : System) : System → Type 0 where
    push :
        (i : ℕ) {w : World} {p : Pc}
        → Push x.world (x.pc i) w p
        → Step x (record x { world = w; pc = update x.pc i p })
    take :
        {w : World} {c : Cpc}
        → Take x.world x.consumer w c
        → Step x (record x { world = w; consumer = c })

  abbrev pub empty_world : World
  empty_world = record {
    ring = record {
      head = 0;
      head_committed = 0;
      tail_allocated = 0;
      tail = 0;
      handles = λ _. 0;
      payloads = λ _. [];
    };
    count = 0;
    log = λ _. record { handle = 0; payload = [] };
    popped = [];
    written = [];
    resumed = [];
  }

  abbrev pub init : System
  init = record { world = empty_world; pc = λ _. ready none; consumer = resting }

  pub data Reach : System → Type 0 where
    initial : Reach init
    later : {x y : System} → Reach x → Step x y → Reach y
