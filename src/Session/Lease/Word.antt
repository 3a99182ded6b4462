-- ===== src/Session/Lease/Word.antt =====
-- session.rs: the word of a captured-graph lease, read as a flag and a number of runs.
use st_zrt.Common.{
  ℕ, ◌+◌, ◌<◌, ◌≡◌, ◌%◌, true, false, refl, and_mask, and_flag_clear, and_flag_set, or_flag,
}
use st_zrt.Session.Lease.{graph_lease_releasing, is_releasing, active_runs, with_releasing}

pub active_runs_lem : (word : ℕ) → active_runs word ≡ word % graph_lease_releasing
unfolding active_runs
active_runs_lem word = and_mask 63 word

pub is_releasing-clear : (word : ℕ) → word < graph_lease_releasing → is_releasing word ≡ false
unfolding is_releasing
is_releasing-clear word h = rw (and_flag_clear 63 word h) refl

pub is_releasing-set :
    (runs : ℕ) → runs < graph_lease_releasing → is_releasing (graph_lease_releasing + runs) ≡ true
unfolding is_releasing
is_releasing-set runs h = rw (and_flag_set 63 runs h) refl

pub with_releasing_lem :
    (word : ℕ) → word < graph_lease_releasing → with_releasing word ≡ graph_lease_releasing + word
unfolding with_releasing
with_releasing_lem word h = or_flag 63 word h
