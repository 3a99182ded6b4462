-- ===== src/Session/Lease/Steps.antt =====
-- session.rs: every step of a thread keeps the sums of the lease in balance.
use st_zrt.Common.{ℕ, ◌+◌, ◌≤◌, ◌<◌, ◌≡◌, ◌≢◌, true, false, arith, dec_lt, ap, ◌∙◌}
use st_zrt.Session.Lease.{
  graph_lease_releasing, CapturedGraphLeaseState, Position, Call, is_releasing, active_runs, run,
  release, unreleased, drained, Local, call, see_releasing, load_run, overflow, load_release,
  exchange_fails, begin_run, begin_release, lock, must_wait, sleep, wake, try_again, all_drained,
  begin_drop, unaccounted, observe, drops, leave, leave_last, lock_to_notify, begin_end,
  lock_to_end, store, keeps_waiting, was_last,
}
use st_zrt.Session.Lease.Word.{
  active_runs_lem, is_releasing-clear, is_releasing-set, with_releasing_lem,
}
use st_zrt.Session.Lease.Invariant.{
  guards, releasers, owners, holders, notifiers, announcers, drain_sleepers, flag_sleepers, Sane,
  Balanced,
}

module _ {s : CapturedGraphLeaseState} {g r o h n a d f : ℕ} (b : Balanced s g r o h n a d f) where
  pub runs_lem : active_runs s.state ≡ g
  runs_lem = omega (arith, active_runs_lem s.state, b.word, b.one, b.few)

  pub flag_up : is_releasing s.state ≡ true → r ≡ 1
  flag_up e = elim (dec_lt 0 r) [
    | yes p ↦ omega (arith, b.one)
    | no none_releases ↦
        let low : s.state < graph_lease_releasing = omega (arith, b.word, b.few) in
        absurd (cc (is_releasing-clear s.state low))
  ]

  pub flag_down : is_releasing s.state ≡ false → r ≡ 0
  flag_down e = elim (dec_lt 0 r) [
    | yes p ↦
        let whole : s.state ≡ graph_lease_releasing + g = omega (arith, b.word, b.one) in
        absurd (cc (is_releasing-set g b.few, ap is_releasing whole))
    | no none_releases ↦ omega arith
  ]

  pub drained_lem : keeps_waiting drained s.state ≡ false → g ≡ 0
  unfolding keeps_waiting
  drained_lem e = ground (arith, runs_lem)

  pub undrained_lem : keeps_waiting drained s.state ≡ true → 0 < g
  unfolding keeps_waiting
  undrained_lem e = ground (arith, runs_lem)

  pub waits_for_flag : (c : Call) → keeps_waiting (unreleased c) s.state ≡ true → r ≡ 1
  unfolding keeps_waiting
  waits_for_flag c e = flag_up e

  -- A guard that is not the last one, during a release, leaves another.
  pub other_left : was_last s.state ≡ false → r ≡ 1 → g ≢ 1
  unfolding was_last
  other_left e x y =
      let whole : s.state ≡ graph_lease_releasing + g = omega (arith, b.word, x) in
      let up : is_releasing s.state ≡ true = ap is_releasing whole ∙ is_releasing-set g b.few in
      ground (arith, runs_lem)

-- How the sums change when one thread goes from `p` to `q`.
pub record Change (p q : Position) (g r o h n a d f g' r' o' h' n' a' d' f' : ℕ) : Type 0 where
  pub guards_change : g' + guards p ≡ g + guards q
  pub releasers_change : r' + releasers p ≡ r + releasers q
  pub owners_change : o' + owners p ≡ o + owners q
  pub holders_change : h' + holders p ≡ h + holders q
  pub notifiers_change : n' + notifiers p ≡ n + notifiers q
  pub announcers_change : a' + announcers p ≡ a + announcers q
  pub drains_change : d' + drain_sleepers p ≡ d + drain_sleepers q
  pub flags_change : f' + flag_sleepers p ≡ f + flag_sleepers q
  pub before : d + o ≤ r
  pub after : d' + o' ≤ r'

pub Local-Balanced :
    {s t : CapturedGraphLeaseState} {p q : Position} {g r o h n a d f g' r' o' h' n' a' d' f' : ℕ}
    → Balanced s g r o h n a d f
    → Change p q g r o h n a d f g' r' o' h' n' a' d' f'
    → Sane p
    → Local s p t q
    → Balanced t g' r' o' h' n' a' d' f'
Local-Balanced b m sane (call c) = ground (arith, b.word)
Local-Balanced b m sane (see_releasing c e) = ground (arith, b.word)
Local-Balanced b m sane (load_run e x) = ground (arith, b.word)
Local-Balanced b m sane (overflow e x) = ground (arith, b.word)
Local-Balanced b m sane (load_release e) = ground (arith, b.word)
Local-Balanced b m sane (exchange_fails run w) = ground (arith, b.word)
Local-Balanced b m sane (exchange_fails release w) = ground (arith, b.word)
Local-Balanced b m sane (begin_run w e) = ground (arith, b.word)
Local-Balanced b m sane (begin_release w e) = ground (arith, with_releasing_lem w sane)
Local-Balanced b m sane (lock (unreleased c) e) = ground (arith, b.word)
Local-Balanced b m sane (lock drained e) = ground (arith, b.word)
Local-Balanced b m sane (must_wait (unreleased c) e) = ground (arith, waits_for_flag b c e)
Local-Balanced b m sane (must_wait drained e) = ground (arith, undrained_lem b e)
Local-Balanced b m sane (sleep (unreleased c)) = ground (arith, b.word)
Local-Balanced b m sane (sleep drained) = ground (arith, b.word)
Local-Balanced b m sane (wake (unreleased c)) = ground (arith, b.word)
Local-Balanced b m sane (wake drained) = ground (arith, b.word)
Local-Balanced b m sane (try_again c e) = ground (arith, b.word)
Local-Balanced b m sane (all_drained e) = ground (arith, drained_lem b e)
Local-Balanced b m sane (drops begin_drop) = ground (arith, b.word)
Local-Balanced b m sane (drops (unaccounted w e)) = absurd (ground (arith, active_runs_lem w))
Local-Balanced b m sane (drops (observe w e)) = ground (arith, b.word)
Local-Balanced b m sane (drops (leave w e x l)) = ground (arith, other_left b (ap was_last x ∙ l))
Local-Balanced b m sane (drops (leave_last w e x l)) = ground (arith, b.word)
Local-Balanced b m sane (drops (lock_to_notify e)) = ground (arith, b.word)
Local-Balanced b m sane begin_end = ground (arith, b.word)
Local-Balanced b m sane (lock_to_end e) = ground (arith, b.word)
Local-Balanced b m sane store = ground (arith, b.word)
