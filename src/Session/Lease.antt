-- ===== src/Session/Lease.antt =====
-- session.rs, `CapturedGraphLease`: the word that counts the runs of a captured graph, and the threads
-- that begin, end and await runs. Each load, store, compare-exchange and lock operation is a step, and
-- the steps of the threads interleave freely.
pub mod Word
pub mod Invariant
pub mod Steps
pub mod Keeps
pub mod Safety
pub mod Progress
use st_zrt.Common.{
  ℕ, ◌+◌, ◌-◌, ◌^◌, ◌≡◌, Bool, true, false, not, some, List, map, replicate, get_elem?, set, ◌&&◌,
  ◌==◌, ltb, bit_and, bit_or,
}

-- The high bit says that a release is in progress, the others count the active runs.
abbrev pub graph_lease_releasing : ℕ
graph_lease_releasing = 2 ^ 63

abbrev pub graph_lease_active_mask : ℕ
graph_lease_active_mask = graph_lease_releasing - 1

unfoldable pub is_releasing : ℕ → Bool
is_releasing word = not (bit_and word graph_lease_releasing == 0)

unfoldable pub active_runs : ℕ → ℕ
active_runs word = bit_and word graph_lease_active_mask

unfoldable pub with_releasing : ℕ → ℕ
with_releasing word = bit_or word graph_lease_releasing

-- The state that the clones of one lease share: the atomic word, and whether `wait_lock` is held.
pub record CapturedGraphLeaseState : Type 0 where
  pub state : ℕ
  pub locked : Bool

-- `begin_run` or `begin_release`.
pub data Call : Type 0 where
  run release : Call

-- What a thread waits for on the condition variable: the end of a release, before it tries its call
-- again, or the end of the last run.
pub data Wait : Type 0 where
  unreleased : Call → Wait
  drained : Wait

-- Where a thread stands. `entering` is the top of the loop of a call, `loaded` holds `current`,
-- `active` holds a `CapturedGraphRunGuard`, `dropping` holds `previous`; `releasing` is between the
-- return of `begin_release` and the call of `end_release`. A thread at `checking`, `about_to_sleep`,
-- `notifying`, `ending` or `announcing` holds `wait_lock`.
pub data Position : Type 0 where
  idle active releasing end_locking ending announcing notify_locking notifying panicked : Position
  entering : Call → Position
  loaded : Call → ℕ → Position
  locking checking about_to_sleep asleep : Wait → Position
  dropping : ℕ → Position

-- The test of a wait loop.
unfoldable pub keeps_waiting : Wait → ℕ → Bool
keeps_waiting (unreleased c) word = is_releasing word
keeps_waiting drained word = not (active_runs word == 0)

-- The guard that drops was the last one that a release waits for.
unfoldable pub was_last : ℕ → Bool
was_last previous = is_releasing previous && (active_runs previous == 1)

-- `Drop for CapturedGraphRunGuard`, one step of one thread on the shared state.
pub data DropStep (s : CapturedGraphLeaseState)
    : Position → CapturedGraphLeaseState → Position → Type 0 where
  begin_drop : DropStep s active s (dropping s.state)
  unaccounted :
      (previous : ℕ) → (active_runs previous == 0) ≡ true → DropStep s (dropping previous) s idle
  observe :
      (previous : ℕ)
      → (active_runs previous == 0) ≡ false
      → DropStep s (dropping previous) s (dropping s.state)
  leave :
      (previous : ℕ)
      → (active_runs previous == 0) ≡ false
      → s.state ≡ previous
      → was_last previous ≡ false
      → DropStep s (dropping previous) (record s { state = previous - 1 }) idle
  leave_last :
      (previous : ℕ)
      → (active_runs previous == 0) ≡ false
      → s.state ≡ previous
      → was_last previous ≡ true
      → DropStep s (dropping previous) (record s { state = previous - 1 }) notify_locking
  lock_to_notify :
      s.locked ≡ false → DropStep s notify_locking (record s { locked = true }) notifying

-- One step of one thread on the shared state, in the methods of a lease or in a drop.
pub data Local (s : CapturedGraphLeaseState)
    : Position → CapturedGraphLeaseState → Position → Type 0 where
  -- begin_run and begin_release
  call : (c : Call) → Local s idle s (entering c)
  see_releasing :
      (c : Call) → is_releasing s.state ≡ true → Local s (entering c) s (locking (unreleased c))
  load_run :
      is_releasing s.state ≡ false
      → ltb s.state graph_lease_active_mask ≡ true
      → Local s (entering run) s (loaded run s.state)
  overflow :
      is_releasing s.state ≡ false
      → ltb s.state graph_lease_active_mask ≡ false
      → Local s (entering run) s panicked
  load_release :
      is_releasing s.state ≡ false → Local s (entering release) s (loaded release s.state)
  -- A weak compare-exchange may fail whatever the word is.
  exchange_fails : (c : Call) (current : ℕ) → Local s (loaded c current) s (entering c)
  begin_run :
      (current : ℕ)
      → s.state ≡ current
      → Local s (loaded run current) (record s { state = current + 1 }) active
  begin_release :
      (current : ℕ)
      → s.state ≡ current
      → Local s
          (loaded release current)
          (record s { state = with_releasing current })
          (locking drained)
  -- The wait loops, under `wait_lock`
  lock :
      (w : Wait) → s.locked ≡ false → Local s (locking w) (record s { locked = true }) (checking w)
  must_wait :
      (w : Wait) → keeps_waiting w s.state ≡ true → Local s (checking w) s (about_to_sleep w)
  sleep : (w : Wait) → Local s (about_to_sleep w) (record s { locked = false }) (asleep w)
  wake : (w : Wait) → Local s (asleep w) s (locking w)
  try_again :
      (c : Call)
      → keeps_waiting (unreleased c) s.state ≡ false
      → Local s (checking (unreleased c)) (record s { locked = false }) (entering c)
  all_drained :
      keeps_waiting drained s.state ≡ false
      → Local s (checking drained) (record s { locked = false }) releasing
  -- The drop of a guard
  drops : {p q : Position} {t : CapturedGraphLeaseState} → DropStep s p t q → Local s p t q
  -- end_release
  begin_end : Local s releasing s end_locking
  lock_to_end : s.locked ≡ false → Local s end_locking (record s { locked = true }) ending
  store : Local s ending (record s { state = 0 }) announcing

-- `notify_all`: every sleeping thread goes on to take the lock again.
unfoldable pub woken : Position → Position
woken (asleep w) = locking w
woken p = p

pub record System : Type 0 where
  pub lease : CapturedGraphLeaseState
  pub threads : List Position

pub data Step (s : System) : System → Type 0 where
  acts :
      (i : ℕ) {p q : Position} {t : CapturedGraphLeaseState}
      → get_elem? s.threads i ≡ some p
      → Local s.lease p t q
      → Step s (record { lease = t; threads = set s.threads i q })
  -- The last guard's drop, and `end_release`, notify and give the lock back.
  notifies :
      (i : ℕ)
      → get_elem? s.threads i ≡ some notifying
      → Step s (record {
        lease = record (s.lease) { locked = false };
        threads = map woken (set s.threads i idle);
      })
  announces :
      (i : ℕ)
      → get_elem? s.threads i ≡ some announcing
      → Step s (record {
        lease = record (s.lease) { locked = false };
        threads = map woken (set s.threads i idle);
      })

-- `CapturedGraphLease::new`, shared by any number of threads.
abbrev pub start : ℕ → System
start threads = record {
  lease = record { state = 0; locked = false };
  threads = replicate threads idle;
}

pub data Reach (threads : ℕ) : System → Type 0 where
  here : Reach threads (start threads)
  later : {s t : System} → Reach threads s → Step s t → Reach threads t
