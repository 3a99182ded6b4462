-- ===== src/Spsc.antt =====
-- st-zrt/src/spsc.rs: the bounded single-producer/single-consumer ring. This file has the shared
-- `Inner` and the operations of both halves, each run without interruption; Spsc/Threads has the
-- same operations load by load and store by store.
pub mod Queue
pub mod Represents
pub mod Refine
pub mod Create
pub mod Run
pub mod Blocking
pub mod Release
pub mod Threads
mod Tests
use st_zrt.Common.{
  ℕ, zero, suc, ◌+◌, ◌-◌, ◌*◌, ◌^◌, ◌≡◌, Bool, true, false, ◌&&◌, ◌||◌, Option, none, some, List,
  [], ◌∷◌, bit_and, ltb, leb, ◌==◌, if◌then◌else◌, length, get_elem?, set, replicate, wrapping_add,
  wrapping_sub, usize_mod, Result, ok, err,
}

-- `MaybeUninit<T>` in a slot: `none` before a write and after the value is moved out.
abbrev pub Slot {ℓ} : Type ℓ → Type ℓ
Slot A = Option A

-- The park and unpark handles carry no data and are left out.
pub record Inner {ℓ} (A : Type ℓ) : Type ℓ where
  pub slots : List (Slot A)
  pub mask : ℕ
  pub head : ℕ
  pub tail : ℕ
  pub sender_closed : Bool
  pub receiver_closed : Bool
  pub spins : ℕ

pub data TrySendError {ℓ} (A : Type ℓ) : Type ℓ where
  full : A → TrySendError A
  closed : A → TrySendError A

pub data TryRecvError : Type 0 where
  empty closed : TryRecvError

-- `usize::checked_next_power_of_two`: the least power of two that is not below `n`, from `2 ^ k` on,
-- with `fuel` exponents left.
unfoldable pub next_power_from : ℕ → ℕ → ℕ → Option ℕ
next_power_from zero k n = none
next_power_from (suc fuel) k n =
    let above = next_power_from fuel (suc k) n in if leb n (2 ^ k) then some (2 ^ k) else above

unfoldable pub checked_next_power_of_two : ℕ → Option ℕ
unfolding next_power_from
checked_next_power_of_two n = next_power_from 64 0 n

module _ {ℓ} {A : Type ℓ} where
  abbrev pub fresh : ℕ → ℕ → Inner A
  fresh capacity spins = record {
    slots = replicate capacity none;
    mask = capacity - 1;
    head = 0;
    tail = 0;
    sender_closed = false;
    receiver_closed = false;
    spins = spins;
  }

  -- `none` where the source panics: a capacity of 0, one whose power of two is no word, and slots of
  -- more than `isize::MAX` bytes together.
  unfoldable pub new : (slot_size capacity spins : ℕ) → Option (Inner A)
  unfolding checked_next_power_of_two
  new slot_size capacity spins =
      if ltb 0 capacity
      then elim (checked_next_power_of_two capacity) [
        | none ↦ none
        | some c ↦ if leb (2 ^ 63) (c * slot_size) then none else some (fresh c spins)
      ]
      else none

  abbrev pub capacity : Inner A → ℕ
  capacity q = length q.slots

  unfoldable pub len : Inner A → ℕ
  len q = wrapping_sub q.tail q.head

  abbrev pub is_empty : Inner A → Bool
  is_empty q = len q == 0

  -- `SpscSender::is_closed`
  abbrev pub sender_sees_closed : Inner A → Bool
  sender_sees_closed q = q.sender_closed || q.receiver_closed

  -- `SpscReceiver::is_closed`
  abbrev pub receiver_sees_closed : Inner A → Bool
  receiver_sees_closed q = q.receiver_closed || (q.sender_closed && is_empty q)

  abbrev pub close_sender : Inner A → Inner A
  close_sender q = record q { sender_closed = true }

  abbrev pub close_receiver : Inner A → Inner A
  close_receiver q = record q { receiver_closed = true }

  -- The write through the slot pointer; `none` is the panic of an index out of range.
  unfoldable pub write_slot : Inner A → ℕ → Slot A → Option (Inner A)
  write_slot q i v =
      if ltb i (length q.slots) then some (record q { slots = set q.slots i v }) else none

  unfoldable pub try_send : Inner A → A → Option (Inner A × Result (Unit {0}) (TrySendError A))
  unfolding write_slot
  try_send q value =
      if sender_sees_closed q
      then some (q, err (TrySendError.closed value))
      else if wrapping_sub q.tail q.head == capacity q
      then some (q, err (full value))
      else elim (write_slot q (bit_and q.tail q.mask) (some value)) [
        | none ↦ none
        | some q' ↦ some (record q' { tail = wrapping_add q.tail 1 }, ok tt)
      ]

  -- `none` is the panic of an index out of range, or the read of a slot that holds no value.
  unfoldable pub take_slot : Inner A → ℕ → Option (A × Inner A)
  take_slot q i = elim (get_elem? q.slots i) [
    | none ↦ none
    | some none ↦ none
    | some (some v) ↦ some (v, record q { slots = set q.slots i none })
  ]

  unfoldable pub try_recv : Inner A → Option (Inner A × Result A TryRecvError)
  unfolding take_slot
  try_recv q =
      if q.head == q.tail
      then some (q, err (if q.sender_closed then TryRecvError.closed else empty))
      else elim (take_slot q (bit_and q.head q.mask)) [
        | none ↦ none
        | some (v, q') ↦ some (record q' { head = wrapping_add q.head 1 }, ok v)
      ]
