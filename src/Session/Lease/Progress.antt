-- ===== src/Session/Lease/Progress.antt =====
-- session.rs: threads inside the calls of a captured-graph lease never wait for each other for ever.
use st_zrt.Common.{
  ℕ, ◌<◌, ◌≡◌, ◌≢◌, ◌==◌, Bool, true, false, not, some, get_elem?, arith, total, total-pos, ltb,
  Bool-cases, ==_iff, inl, inr, ◌⊎◌, refl, dec_lt, ℕ_discrete,
}
use st_zrt.Session.Lease.{
  graph_lease_active_mask, CapturedGraphLeaseState, System, Position, Call, Wait, run, release,
  unreleased, drained, idle, active, releasing, end_locking, ending, announcing, notify_locking,
  notifying, panicked, entering, loaded, locking, checking, about_to_sleep, asleep, dropping,
  is_releasing, active_runs, keeps_waiting, was_last, Local, see_releasing, load_run, overflow,
  load_release, exchange_fails, begin_run, begin_release, lock, must_wait, sleep, wake, try_again,
  all_drained, drops, unaccounted, observe, leave, leave_last, lock_to_notify, lock_to_end, store,
  Reach,
}
use st_zrt.Session.Lease.Invariant.{guards, releasers, holders, notifiers}
use st_zrt.Session.Lease.Steps.{flag_up}
use st_zrt.Session.Lease.Keeps.{Reach-Inv}
use st_zrt.Session.Lease.Safety.{release_wakeup_kept, call_wakeup_kept}

-- The thread is inside a call of the lease, and not in the code that uses it.
abbrev pub in_call : Position → Bool
in_call idle = false
in_call active = false
in_call releasing = false
in_call panicked = false
in_call p = true

-- The thread needs no other one to go on; a sleeping thread needs a notification.
abbrev pub enabled : Bool → Position → Bool
enabled locked (locking w) = not locked
enabled locked notify_locking = not locked
enabled locked end_locking = not locked
enabled locked (asleep w) = false
enabled locked p = in_call p

-- A step that the code does not count on: waking without a notification, and a weak compare-exchange
-- that fails on the expected word.
abbrev pub spurious :
    (s : CapturedGraphLeaseState) {p q : Position} {t : CapturedGraphLeaseState}
    → Local s p t q
    → Bool
spurious s (wake w) = true
spurious s (exchange_fails c current) = s.state == current
spurious s step = false

-- A step of the thread at `p` that leaves it elsewhere.
abbrev Moves : CapturedGraphLeaseState → Position → Type 0
Moves s p =
    (t : CapturedGraphLeaseState) × (q : Position) × (step : Local s p t q) × (spurious s step
      ≡ false)
    × (q ≢ p)

enabled-Moves :
    (s : CapturedGraphLeaseState) (p : Position)
    → enabled s.locked p ≡ true
    → p ≢ notifying
    → p ≢ announcing
    → Moves s p
enabled-Moves s (entering run) e x y = elim (Bool-cases (is_releasing s.state)) [
  | inl up ↦ (s, locking (unreleased run), see_releasing run up, refl, λ q. cc)
  | inr down ↦ elim (Bool-cases (ltb s.state graph_lease_active_mask)) [
    | inl room ↦ (s, loaded run s.state, load_run down room, refl, λ q. cc)
    | inr full ↦ (s, panicked, overflow down full, refl, λ q. cc)
  ]
]
enabled-Moves s (entering release) e x y = elim (Bool-cases (is_releasing s.state)) [
  | inl up ↦ (s, locking (unreleased release), see_releasing release up, refl, λ q. cc)
  | inr down ↦ (s, loaded release s.state, load_release down, refl, λ q. cc)
]
enabled-Moves s (loaded c w) e x y = elim (Bool-cases (s.state == w)) [
  | inl same ↦ exchanged c ((==_iff s.state w).0 same)
  | inr changed ↦ (s, entering c, exchange_fails c w, changed, λ q. cc)
]
  where
    exchanged : (c : Call) → s.state ≡ w → Moves s (loaded c w)
    exchanged run same = (_, active, begin_run w same, refl, λ q. cc)
    exchanged release same = (_, locking drained, begin_release w same, refl, λ q. cc)
enabled-Moves s (locking w) e x y = (_, checking w, lock w (ground arith), refl, λ q. cc)
enabled-Moves s (checking w) e x y = elim (Bool-cases (keeps_waiting w s.state)) [
  | inl waits ↦ (s, about_to_sleep w, must_wait w waits, refl, λ q. cc)
  | inr goes ↦ checked w goes
]
  where
    checked : (w : Wait) → keeps_waiting w s.state ≡ false → Moves s (checking w)
    checked (unreleased c) goes = (_, entering c, try_again c goes, refl, λ q. cc)
    checked drained goes = (_, releasing, all_drained goes, refl, λ q. cc)
enabled-Moves s (about_to_sleep w) e x y = (_, asleep w, sleep w, refl, λ q. cc)
enabled-Moves s (asleep w) e x y = absurd (cc)
enabled-Moves s (dropping w) e x y = elim (Bool-cases (active_runs w == 0)) [
  | inl uncounted ↦ (s, idle, drops (unaccounted w uncounted), refl, λ q. cc)
  | inr counted ↦ elim (ℕ_discrete s.state w) [
    | yes same ↦ elim (Bool-cases (was_last w)) [
      | inl last ↦ (_, notify_locking, drops (leave_last w counted same last), refl, λ q. cc)
      | inr others ↦ (_, idle, drops (leave w counted same others), refl, λ q. cc)
    ]
    | no changed ↦ (s, dropping s.state, drops (observe w counted), refl, λ q. changed (drop_inj q))
  ]
]
  where
    drop_inj : {a b : ℕ} → dropping a ≡ dropping b → a ≡ b
    drop_inj h = cc
enabled-Moves s notify_locking e x y =
    (_, notifying, drops (lock_to_notify (ground arith)), refl, λ q. cc)
enabled-Moves s notifying e x y = absurd (x refl)
enabled-Moves s end_locking e x y = (_, ending, lock_to_end (ground arith), refl, λ q. cc)
enabled-Moves s ending e x y = (_, announcing, store, refl, λ q. cc)
enabled-Moves s announcing e x y = absurd (y refl)
enabled-Moves s idle e x y = absurd (cc)
enabled-Moves s active e x y = absurd (cc)
enabled-Moves s releasing e x y = absurd (cc)
enabled-Moves s panicked e x y = absurd (cc)

-- Thread `j` can take a step.
abbrev Can : System → Type 0
Can s =
    (j : ℕ) × (q : Position) × (get_elem? s.threads j ≡ some q) × (enabled s.lease.locked q ≡ true)

holder_enabled : (l : Bool) (q : Position) → 0 < holders q → enabled l q ≡ true
holder_enabled l (checking w) h = refl
holder_enabled l (about_to_sleep w) h = refl
holder_enabled l notifying h = refl
holder_enabled l ending h = refl
holder_enabled l announcing h = refl
holder_enabled l q h = absurd (omega arith)

notifier_enabled : (q : Position) → notifiers q ≡ 1 → enabled false q ≡ true
notifier_enabled notify_locking h = refl
notifier_enabled notifying h = refl
notifier_enabled q h = absurd (omega arith)

-- The application's turn is over: no thread holds a guard that it uses, and none releases.
module _ {n : ℕ} {s : System} (reach : Reach n s)
    (no_run : (j : ℕ) → get_elem? s.threads j ≢ some active)
    (no_release : (j : ℕ) → get_elem? s.threads j ≢ some releasing) where
  module _ (free : s.lease.locked ≡ false) where
    guard_enabled :
        (j : ℕ) (q : Position)
        → get_elem? s.threads j ≡ some q
        → 0 < guards q
        → enabled s.lease.locked q ≡ true
    guard_enabled j active e h = absurd (no_run j e)
    guard_enabled j (dropping w) e h = refl
    guard_enabled j q e h = absurd (omega arith)

    drain_Can : (i : ℕ) → get_elem? s.threads i ≡ some (asleep drained) → Can s
    drain_Can i at = elim (dec_lt 0 (total guards s.threads)) [
      | yes held ↦
          let (j, q, e, h) = total-pos guards s.threads held in (j, q, e, guard_enabled j q e h)
      | no none_held ↦
          let (j, q, e, h) = release_wakeup_kept reach i at (omega arith) in
          (j, q, e, rw free (notifier_enabled q h))
    ]

    releaser_Can : (j : ℕ) (q : Position) → get_elem? s.threads j ≡ some q → 0 < releasers q → Can s
    releaser_Can j (asleep drained) e h = drain_Can j e
    releaser_Can j (locking drained) e h = (j, locking drained, e, rw free refl)
    releaser_Can j (checking drained) e h = (j, checking drained, e, refl)
    releaser_Can j (about_to_sleep drained) e h = (j, about_to_sleep drained, e, refl)
    releaser_Can j releasing e h = absurd (no_release j e)
    releaser_Can j end_locking e h = (j, end_locking, e, rw free refl)
    releaser_Can j ending e h = (j, ending, e, refl)
    releaser_Can j q e h = absurd (omega arith)

    caller_Can : (i : ℕ) (p : Position) → get_elem? s.threads i ≡ some p → in_call p ≡ true → Can s
    caller_Can i (asleep drained) e h = drain_Can i e
    caller_Can i (asleep (unreleased c)) e h = elim (Bool-cases (is_releasing s.lease.state)) [
      | inl up ↦
          let one = flag_up (Reach-Inv reach).balance up in
          let (j, q, at, r) = total-pos releasers s.threads (omega arith) in releaser_Can j q at r
      | inr down ↦ let (j, at) = call_wakeup_kept reach i e down in (j, announcing, at, refl)
    ]
    caller_Can i (locking w) e h = (i, locking w, e, rw free refl)
    caller_Can i notify_locking e h = (i, notify_locking, e, rw free refl)
    caller_Can i end_locking e h = (i, end_locking, e, rw free refl)
    caller_Can i p e h = (i, p, e, h)

  some-Can : (i : ℕ) (p : Position) → get_elem? s.threads i ≡ some p → in_call p ≡ true → Can s
  some-Can i p e h = elim (Bool-cases s.lease.locked) [
    | inl taken ↦
        let one = (Reach-Inv reach).balance.held taken in
        let (j, q, at, k) = total-pos holders s.threads (omega arith) in
        (j, q, at, holder_enabled s.lease.locked q k)
    | inr free ↦ caller_Can free i p e h
  ]

enabled-in_call : (locked : Bool) (p : Position) → enabled locked p ≡ true → in_call p ≡ true
enabled-in_call locked (locking w) e = refl
enabled-in_call locked notify_locking e = refl
enabled-in_call locked end_locking e = refl
enabled-in_call locked (asleep w) e = absurd (cc)
enabled-in_call locked p e = e

-- A step that some thread inside a call can take now and that leaves it elsewhere: one that is not
-- spurious, or a notification with the lock held. A new call of an idle thread is none.
pub data Progress (s : System) : Type 0 where
  moved :
      (j : ℕ) {p q : Position} {t : CapturedGraphLeaseState}
      → get_elem? s.threads j ≡ some p
      → in_call p ≡ true
      → (step : Local s.lease p t q) → spurious s.lease step ≡ false
      → q ≢ p
      → Progress s
  notified : (j : ℕ) → get_elem? s.threads j ≡ some notifying → Progress s
  announced : (j : ℕ) → get_elem? s.threads j ≡ some announcing → Progress s

Can-Progress : {s : System} → Can s → Progress s
Can-Progress (j, notifying, at, e) = notified j at
Can-Progress (j, announcing, at, e) = announced j at
Can-Progress {s} (j, p, at, e) =
    let (t, q, step, real, away) = enabled-Moves s.lease p e (λ x. cc) (λ x. cc) in
    moved j at (enabled-in_call s.lease.locked p e) step real away

-- What a sleeping thread sleeps for: a release for a guard that is still held, a call for a release
-- that still has the flag set; or a thread is on its way to notify it.
abbrev pub Awaited : System → Position → Type 0
Awaited s (asleep drained) =
    (0 < total guards s.threads)
    ⊎ ((j : ℕ) × (q : Position) × (get_elem? s.threads j ≡ some q) × (notifiers q ≡ 1))
Awaited s (asleep (unreleased c)) =
    (is_releasing s.lease.state ≡ true) ⊎ ((j : ℕ) × (get_elem? s.threads j ≡ some announcing))
Awaited s p = Unit {0}

reach-Awaited :
    {n : ℕ} {s : System} (reach : Reach n s) (i : ℕ) (p : Position)
    → get_elem? s.threads i ≡ some p
    → Awaited s p
reach-Awaited {n} {s} reach i (asleep drained) at = elim (dec_lt 0 (total guards s.threads)) [
  | yes held ↦ inl held
  | no none_held ↦ inr (release_wakeup_kept reach i at (omega arith))
]
reach-Awaited {n} {s} reach i (asleep (unreleased c)) at =
    elim (Bool-cases (is_releasing s.lease.state)) [
      | inl up ↦ inl up
      | inr down ↦ inr (call_wakeup_kept reach i at down)
    ]
reach-Awaited reach i p at = tt

-- The calls of a lease do not deadlock: while any thread is inside one, and no guard is in the hands of
-- the application nor a release between its begin and its end, some thread that is inside a call can
-- take a step that is not spurious. And if that thread sleeps, what it sleeps for has not come yet, or
-- a thread is on its way to notify it.
pub lease_never_stuck :
    {n : ℕ} {s : System} (reach : Reach n s) (i : ℕ) {p : Position}
    → get_elem? s.threads i ≡ some p
    → in_call p ≡ true
    → ((j : ℕ) → get_elem? s.threads j ≢ some active)
    → ((j : ℕ) → get_elem? s.threads j ≢ some releasing)
    → Progress s × Awaited s p
lease_never_stuck reach i {p} at inside no_run no_release =
    (Can-Progress (some-Can reach no_run no_release i p at inside), reach-Awaited reach i p at)
