-- ===== src/Runtime/Recovery.antt =====
-- runtime.rs, `RecoveryCell` and `RecoverySlots`: the lanes of dropped runs come back to their runtime
-- through fixed slots and a lock-free stack of the filled ones. Drops run on any threads, the runtime
-- is the only consumer, and each access of shared memory is a step.
pub mod Chain
pub mod Invariant
pub mod Keeps
pub mod Consume
pub mod Safety
pub mod Drain
mod Tests
use st_zrt.Common.{
  ℕ, ◌≡◌, Bool, true, false, Option, none, some, List, [], ◌∷◌, ◌++◌, get_elem?, set, replicate,
  ◌==◌, usize_max,
}

module _ {ℓ} (V : Type ℓ) where
  -- Where the lane of a slot is: with its runtime, out as an owned run, at a step of `recover` with
  -- its value (and the observed head), on the stack, or at a step of the consumer.
  pub data At : Type ℓ where
    in_service out clearing lost : At
    publishing writing loading queued popped leaked : V → At
    linking swapping : V → ℕ → At

-- `slots[k]` and `ready_next[k]`; and what was dropped into the slot and taken from it so far.
pub record Slot {ℓ} (V : Type ℓ) : Type ℓ where
  pub value : Option V
  pub occupied : Bool
  pub next : ℕ
  pub at : At V
  pub dropped : List V
  pub taken : List V

-- Where the consumer stands: in `pop_ready` with the head, or with the head and its successor, or
-- with a slot that it has popped, before and after it has taken the value.
pub data Consumer : Type 0 where
  idle : Consumer
  peeked : ℕ → Consumer
  followed : ℕ → ℕ → Consumer
  holding : ℕ → Consumer
  emptied : ℕ → Consumer

pub record RecoverySlots {ℓ} (V : Type ℓ) : Type ℓ where
  pub slots : List (Slot V)
  pub ready_head : ℕ
  pub consumer : Consumer

-- What a step does to the stack.
pub data Effect : Type 0 where
  silent : Effect
  pushed popped_off : ℕ → Effect

module _ {ℓ} {V : Type ℓ} where
  abbrev pub empty_slot : Slot V
  empty_slot = record {
    value = none;
    occupied = false;
    next = usize_max;
    at = in_service;
    dropped = [];
    taken = [];
  }

  -- `RecoverySlots::new`
  unfoldable pub new : ℕ → RecoverySlots V
  new capacity = record {
    slots = replicate capacity empty_slot;
    ready_head = usize_max;
    consumer = idle;
  }

  -- `RecoveryCell::publish`: the slot is reserved, then written.
  pub data PublishStep (c : Slot V) : Slot V → Type ℓ where
    -- The slot is occupied: the lane is leaked.
    refuse :
        (v : V)
        → c.at ≡ publishing v
        → c.occupied ≡ true
        → PublishStep c (record c { at = leaked v })
    reserve :
        (v : V)
        → c.at ≡ publishing v
        → c.occupied ≡ false
        → PublishStep c (record c { at = writing v; occupied = true })
    write : (v : V) → c.at ≡ writing v → PublishStep c (record c { at = loading v; value = some v })

  -- A step of the lane of slot `k`, with the head of the stack: it is given out and completed, or it is
  -- dropped and goes through `recover` and `publish`.
  pub data LaneStep (k head : ℕ) (c : Slot V) : ℕ → Slot V → Effect → Type ℓ where
    give_out : c.at ≡ in_service → LaneStep k head c head (record c { at = out }) silent
    complete : c.at ≡ out → LaneStep k head c head (record c { at = in_service }) silent
    drop :
        (v : V)
        → c.at ≡ out
        → LaneStep k head c head
            (record c { at = publishing v; dropped = c.dropped ++ v ∷ [] })
            silent
    publishes : {d : Slot V} → PublishStep c d → LaneStep k head c head d silent
    load :
        (v : V)
        → c.at ≡ loading v
        → LaneStep k head c head (record c { at = linking v head }) silent
    link :
        (v : V) (h : ℕ)
        → c.at ≡ linking v h
        → LaneStep k head c head (record c { at = swapping v h; next = h }) silent
    -- A weak compare-exchange may fail whatever the head is.
    exchange_fails :
        (v : V) (h : ℕ)
        → c.at ≡ swapping v h
        → LaneStep k head c head (record c { at = linking v head }) silent
    push :
        (v : V) (h : ℕ)
        → c.at ≡ swapping v h
        → head ≡ h
        → LaneStep k head c k (record c { at = queued v }) (pushed k)

  -- The lane goes from the stack to the consumer.
  unfoldable pub off_stack : At V → At V
  off_stack (queued v) = popped v
  off_stack a = a

  -- `pop_ready`, then `take`, then the return of the lane to its bucket.
  pub data ConsumerStep (s : RecoverySlots V) : RecoverySlots V → Effect → Type ℓ where
    see_none : s.consumer ≡ idle → s.ready_head ≡ usize_max → ConsumerStep s s silent
    peek :
        s.consumer ≡ idle
        → (s.ready_head == usize_max) ≡ false
        → ConsumerStep s (record s { consumer = peeked s.ready_head }) silent
    follow :
        (h : ℕ) {c : Slot V}
        → s.consumer ≡ peeked h
        → get_elem? s.slots h ≡ some c
        → ConsumerStep s (record s { consumer = followed h c.next }) silent
    observe :
        (h n : ℕ)
        → s.consumer ≡ followed h n
        → (s.ready_head == usize_max) ≡ false
        → ConsumerStep s (record s { consumer = peeked s.ready_head }) silent
    observe_none :
        (h n : ℕ)
        → s.consumer ≡ followed h n
        → s.ready_head ≡ usize_max
        → ConsumerStep s (record s { consumer = idle }) silent
    pop :
        (h n : ℕ) {c : Slot V}
        → s.consumer ≡ followed h n
        → s.ready_head ≡ h
        → get_elem? s.slots h ≡ some c
        → ConsumerStep s
            (record {
              slots = set s.slots h (record c { at = off_stack c.at });
              ready_head = n;
              consumer = holding h;
            })
            (popped_off h)
    take :
        (h : ℕ) (v : V) {c : Slot V}
        → s.consumer ≡ holding h
        → get_elem? s.slots h ≡ some c
        → c.value ≡ some v
        → ConsumerStep s
            (record s {
              slots =
                  set s.slots h
                    (record c { value = none; at = clearing; taken = c.taken ++ v ∷ [] });
              consumer = emptied h;
            })
            silent
    -- The popped slot is empty: there is no lane to return.
    take_none :
        (h : ℕ) {c : Slot V}
        → s.consumer ≡ holding h
        → get_elem? s.slots h ≡ some c
        → c.value ≡ none
        → ConsumerStep s
            (record s {
              slots = set s.slots h (record c { occupied = false; at = lost });
              consumer = idle;
            })
            silent
    free :
        (h : ℕ) {c : Slot V}
        → s.consumer ≡ emptied h
        → get_elem? s.slots h ≡ some c
        → ConsumerStep s
            (record s {
              slots = set s.slots h (record c { occupied = false; at = in_service });
              consumer = idle;
            })
            silent

  pub data Step (s : RecoverySlots V) : RecoverySlots V → Effect → Type ℓ where
    moves :
        (k : ℕ) {head : ℕ} {c d : Slot V} {e : Effect}
        → get_elem? s.slots k ≡ some c
        → LaneStep k s.ready_head c head d e
        → Step s (record s { slots = set s.slots k d; ready_head = head }) e
    consumes : {t : RecoverySlots V} {e : Effect} → ConsumerStep s t e → Step s t e

  pub data Reach (capacity : ℕ) : RecoverySlots V → Type ℓ where
    here : Reach capacity (new capacity)
    later : {s t : RecoverySlots V} {e : Effect} → Reach capacity s → Step s t e → Reach capacity t
