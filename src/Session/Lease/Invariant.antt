-- ===== src/Session/Lease/Invariant.antt =====
-- session.rs: what the threads of a captured-graph lease add up to.
use st_zrt.Common.{ℕ, ◌+◌, ◌*◌, ◌≤◌, ◌<◌, ◌≡◌, ◌%◌, true, false, some, List, get_elem?, total}
use st_zrt.Session.Lease.{
  graph_lease_releasing, graph_lease_active_mask, CapturedGraphLeaseState, System, Position, run,
  release, unreleased, drained, active, releasing, end_locking, ending, announcing, notify_locking,
  notifying, loaded, locking, checking, about_to_sleep, asleep, dropping,
}

-- Weights of one thread: it holds a guard.
abbrev pub guards : Position → ℕ
guards active = 1
guards (dropping previous) = 1
guards p = 0

-- It has set the flag and not cleared it.
abbrev pub releasers : Position → ℕ
releasers (locking drained) = 1
releasers (checking drained) = 1
releasers (about_to_sleep drained) = 1
releasers (asleep drained) = 1
releasers releasing = 1
releasers end_locking = 1
releasers ending = 1
releasers p = 0

-- It has seen that all runs ended.
abbrev pub owners : Position → ℕ
owners releasing = 1
owners end_locking = 1
owners ending = 1
owners p = 0

-- It holds `wait_lock`.
abbrev pub holders : Position → ℕ
holders (checking w) = 1
holders (about_to_sleep w) = 1
holders notifying = 1
holders ending = 1
holders announcing = 1
holders p = 0

-- It will notify as the last guard, or after a release.
abbrev pub notifiers : Position → ℕ
notifiers notify_locking = 1
notifiers notifying = 1
notifiers p = 0

abbrev pub announcers : Position → ℕ
announcers announcing = 1
announcers p = 0

-- It sleeps, or is about to, until the last run ends.
abbrev pub drain_sleepers : Position → ℕ
drain_sleepers (about_to_sleep drained) = 1
drain_sleepers (asleep drained) = 1
drain_sleepers p = 0

-- It sleeps, or is about to, until the release ends.
abbrev pub flag_sleepers : Position → ℕ
flag_sleepers (about_to_sleep (unreleased c)) = 1
flag_sleepers (asleep (unreleased c)) = 1
flag_sleepers p = 0

-- What a thread remembers of the word.
abbrev pub Sane : Position → Type 0
Sane (loaded run current) = current < graph_lease_active_mask
Sane (loaded release current) = current < graph_lease_releasing
Sane (dropping previous) = 0 < previous % graph_lease_releasing
Sane p = Unit {0}

-- The state against the sums of the weights.
pub record Balanced (s : CapturedGraphLeaseState) (g r o h n a d f : ℕ) : Type 0 where
  pub word : s.state ≡ r * graph_lease_releasing + g
  pub one : r ≤ 1
  pub few : g < graph_lease_releasing
  pub emptied : 0 < o → g ≡ 0
  pub open_lock : s.locked ≡ false → h ≡ 0
  pub held : s.locked ≡ true → h ≡ 1
  pub one_holder : h ≤ 1
  pub drain_woken : 0 < d → g ≡ 0 → 0 < n
  pub flag_woken : 0 < f → r ≡ 0 → 0 < a

abbrev pub Balance : CapturedGraphLeaseState → List Position → Type 0
Balance s ts =
    Balanced s (total guards ts) (total releasers ts) (total owners ts) (total holders ts)
      (total notifiers ts) (total announcers ts) (total drain_sleepers ts) (total flag_sleepers ts)

pub record Inv (s : System) : Type 0 where
  pub balance : Balance s.lease s.threads
  pub sane : (i : ℕ) (p : Position) → get_elem? s.threads i ≡ some p → Sane p
