-- ===== src/Session/Lease/Safety.antt =====
-- session.rs: what a captured-graph lease promises to runs and to releases.
use st_zrt.Common.{
  ℕ, ◌+◌, ◌≤◌, ◌<◌, ◌≡◌, ◌==◌, true, false, some, get_elem?, dec_lt, ℕ_discrete, arith, total,
  le-total, two-le-total, total-pos, ap, ◌∙◌, inl, inr, ◌⊎◌, refl,
}
use st_zrt.Session.Lease.{
  graph_lease_releasing, System, Position, Call, unreleased, drained, idle, announcing,
  notify_locking, locking, checking, about_to_sleep, asleep, dropping, is_releasing, active_runs,
  Reach,
}
use st_zrt.Session.Lease.Word.{is_releasing-set, active_runs_lem}
use st_zrt.Session.Lease.Invariant.{
  guards, releasers, owners, notifiers, announcers, drain_sleepers, flag_sleepers,
}
use st_zrt.Session.Lease.Steps.{runs_lem, flag_down}
use st_zrt.Session.Lease.Keeps.{Reach-Inv}

owners-le-releasers : (p : Position) → owners p ≤ releasers p
owners-le-releasers (locking drained) = omega arith
owners-le-releasers (checking drained) = omega arith
owners-le-releasers (about_to_sleep drained) = omega arith
owners-le-releasers (asleep drained) = omega arith
owners-le-releasers p = omega arith

-- From the return of `begin_release` to the store of `end_release`, with any number of threads in any
-- interleaving: the flag is set, so that no run can begin; no thread holds a run guard, and no other
-- thread releases or has set the flag.
pub release_excludes_runs :
    {n : ℕ} {s : System} (reach : Reach n s) (i j : ℕ) {p q : Position}
    → get_elem? s.threads i ≡ some p
    → owners p ≡ 1
    → get_elem? s.threads j ≡ some q
    → (is_releasing s.lease.state ≡ true) × (guards q ≡ 0) × ((i ≡ j) ⊎ (releasers q ≡ 0))
release_excludes_runs {n} {s} reach i j {p} {q} at owns e =
    let b = (Reach-Inv reach).balance in
    let mine = owners-le-releasers p in
    let counted = le-total releasers s.threads i at in
    let no_guard = b.emptied (omega (arith, le-total owners s.threads i at)) in
    let whole : s.lease.state ≡ graph_lease_releasing + 0 = omega (arith, b.word, b.one) in
    (
      ap is_releasing whole ∙ is_releasing-set 0 (omega arith),
      omega (arith, le-total guards s.threads j e),
      elim (ℕ_discrete i j) [
        | yes same ↦ inl same
        | no other ↦ inr (elim (dec_lt i j) [
          | yes before ↦ omega (arith, b.one, two-le-total releasers s.threads i j before at e)
          | no after ↦
              let below : j < i = ground arith in
              omega (arith, b.one, two-le-total releasers s.threads j i below e at)
        ])
      ],
    )

-- The low bits of the word are the number of guards that threads hold, and these are fewer than 2^63.
pub active_runs_counted :
    {n : ℕ} {s : System}
    → Reach n s
    → (active_runs s.lease.state ≡ total guards s.threads)
      × (total guards s.threads < graph_lease_releasing)
active_runs_counted {n} {s} reach = let v = Reach-Inv reach in (runs_lem v.balance, v.balance.few)

-- A guard that drops finds itself counted in the word that it has read.
pub dropping_guard_counted :
    {n : ℕ} {s : System} (reach : Reach n s) (i previous : ℕ)
    → get_elem? s.threads i ≡ some (dropping previous)
    → (active_runs previous == 0) ≡ false
dropping_guard_counted reach i previous e =
    let sane = (Reach-Inv reach).sane i (dropping previous) e in
    ground (arith, active_runs_lem previous)

-- While a release sleeps although no guard is held, a thread that dropped a guard is about to notify.
pub release_wakeup_kept :
    {n : ℕ} {s : System} (reach : Reach n s) (i : ℕ)
    → get_elem? s.threads i ≡ some (asleep drained)
    → total guards s.threads ≡ 0
    → (j : ℕ) × (q : Position) × (get_elem? s.threads j ≡ some q) × (notifiers q ≡ 1)
release_wakeup_kept {n} {s} reach i at free =
    let b = (Reach-Inv reach).balance in
    let (j, q, e, h) =
      total-pos notifiers s.threads
        (b.drain_woken (omega (arith, le-total drain_sleepers s.threads i at)) free) in
    (j, q, e, omega (arith, small q))
  where
    small : (q : Position) → notifiers q ≤ 1
    small notify_locking = omega arith
    small q = omega arith

-- While a thread sleeps for the end of a release although the flag is clear, the release is about to
-- notify.
pub call_wakeup_kept :
    {n : ℕ} {s : System} (reach : Reach n s) (i : ℕ) {c : Call}
    → get_elem? s.threads i ≡ some (asleep (unreleased c))
    → is_releasing s.lease.state ≡ false
    → (j : ℕ) × (get_elem? s.threads j ≡ some announcing)
call_wakeup_kept {n} {s} reach i at down =
    let b = (Reach-Inv reach).balance in
    let (j, q, e, h) =
      total-pos announcers s.threads
        (b.flag_woken (omega (arith, le-total flag_sleepers s.threads i at)) (flag_down b down)) in
    (j, e ∙ ap some (only q h))
  where
    only : (q : Position) → 0 < announcers q → q ≡ announcing
    only announcing h = refl
    only idle h = elim h [ ]
    only q h = absurd (omega arith)
