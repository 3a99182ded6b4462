-- ===== src/Session/Tests.antt =====
-- session.rs: two threads at one captured-graph lease, a run and a release, step by step.
use st_zrt.Common.{
  ℕ, ◌+◌, ◌≡◌, ◌≢◌, ◌^◌, ◌<◌, zero, suc, Bool, true, false, some, [], ◌∷◌, get_elem?, total, refl,
  ◌⊎◌,
}
use st_zrt.Session.Lease.{
  System, Position, run, release, unreleased, drained, idle, active, releasing, announcing,
  notify_locking, asleep, dropping, is_releasing, active_runs, with_releasing, keeps_waiting,
  was_last, woken, call, see_releasing, load_run, load_release, begin_run, begin_release, lock,
  must_wait, sleep, all_drained, begin_drop, drops, leave_last, lock_to_notify, begin_end,
  lock_to_end, store, acts, notifies, Reach, here, later, graph_lease_releasing,
}
use st_zrt.Session.Lease.Invariant.{guards, releasers, notifiers}
use st_zrt.Session.Lease.Safety.{release_excludes_runs, active_runs_counted, release_wakeup_kept}
use st_zrt.Session.Lease.Progress.{lease_never_stuck, Progress, Awaited}

abbrev at_word : ℕ → Bool → Position → Position → System
at_word word held p q = record {
  lease = record { state = word; locked = held };
  threads = p ∷ q ∷ [];
}

-- Thread 0 holds a guard.
running : Reach 2 (at_word 1 false active idle)
unfolding is_releasing
running =
    later (later (later here (acts 0 refl (call run))) (acts 0 refl (load_run refl refl)))
      (acts 0 refl (begin_run 0 refl))

-- Thread 1 releases the graph, and sleeps until the guard is dropped.
waiting : Reach 2 (at_word (2 ^ 63 + 1) false active (asleep drained))
unfolding is_releasing with_releasing keeps_waiting active_runs
waiting =
    later
      (later
        (later
          (later
            (later (later running (acts 1 refl (call release))) (acts 1 refl (load_release refl)))
            (acts 1 refl (begin_release 1 refl)))
          (acts 1 refl (lock drained refl)))
        (acts 1 refl (must_wait drained refl)))
      (acts 1 refl (sleep drained))

dropping_now : Reach 2 (at_word (2 ^ 63 + 1) false (dropping (2 ^ 63 + 1)) (asleep drained))
dropping_now = later waiting (acts 0 refl (drops begin_drop))

dropped : Reach 2 (at_word (2 ^ 63) false notify_locking (asleep drained))
unfolding was_last is_releasing active_runs
dropped = later dropping_now (acts 0 refl (drops (leave_last (2 ^ 63 + 1) refl refl refl)))

released : Reach 2 (at_word (2 ^ 63) false idle releasing)
unfolding woken keeps_waiting active_runs
released =
    later
      (later (later (later dropped (acts 0 refl (drops (lock_to_notify refl)))) (notifies 0 refl))
        (acts 1 refl (lock drained refl)))
      (acts 1 refl (all_drained refl))

-- Thread 0 begins another run meanwhile, and sleeps until the release has ended.
held_back : Reach 2 (at_word (2 ^ 63) false (asleep (unreleased run)) releasing)
unfolding is_releasing keeps_waiting
held_back =
    later
      (later
        (later
          (later (later released (acts 0 refl (call run))) (acts 0 refl (see_releasing run refl)))
          (acts 0 refl (lock (unreleased run) refl)))
        (acts 0 refl (must_wait (unreleased run) refl)))
      (acts 0 refl (sleep (unreleased run)))

ended : Reach 2 (at_word 0 true (asleep (unreleased run)) announcing)
ended =
    later (later (later held_back (acts 1 refl begin_end)) (acts 1 refl (lock_to_end refl)))
      (acts 1 refl store)

release_excludes_runs_example :
    (is_releasing (2 ^ 63) ≡ true)
    × (guards (asleep (unreleased run)) ≡ 0)
    × (◌≡◌ {A = ℕ} 1 0 ⊎ (releasers (asleep (unreleased run)) ≡ 0))
release_excludes_runs_example = release_excludes_runs held_back 1 0 refl refl refl

active_runs_counted_example :
    (active_runs (2 ^ 63 + 1) ≡ total guards (active ∷ asleep drained ∷ []))
    × (total guards (active ∷ asleep drained ∷ []) < graph_lease_releasing)
active_runs_counted_example = active_runs_counted waiting

release_wakeup_kept_example :
    (j : ℕ) × (q : Position) × (get_elem? (notify_locking ∷ asleep drained ∷ []) j ≡ some q)
    × (notifiers q ≡ 1)
unfolding total
release_wakeup_kept_example = release_wakeup_kept dropped 1 refl refl

-- A run sleeps, the release is about to notify it, and no other thread could.
not_in_hands : (j : ℕ) → get_elem? (asleep (unreleased run) ∷ announcing ∷ []) j ≢ some active
not_in_hands zero = λ e. cc
not_in_hands (suc zero) = λ e. cc
not_in_hands (suc (suc j)) = λ e. cc

not_releasing : (j : ℕ) → get_elem? (asleep (unreleased run) ∷ announcing ∷ []) j ≢ some releasing
not_releasing zero = λ e. cc
not_releasing (suc zero) = λ e. cc
not_releasing (suc (suc j)) = λ e. cc

lease_never_stuck_example :
    let s : System = at_word 0 true (asleep (unreleased run)) announcing in
    Progress s × Awaited s (asleep (unreleased run))
lease_never_stuck_example = lease_never_stuck ended 0 refl refl not_in_hands not_releasing
