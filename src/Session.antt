-- ===== src/Session.antt =====
-- session.rs: the ids and the leases of captured graphs.
pub mod Lease
pub mod Tests
use st_zrt.Common.{ℕ, suc, ◌^◌, Result, ok, err, ltb, if◌then◌else◌}

-- `allocate_captured_graph_id` on the process's `AtomicI32`, which starts at 1: the number after the
-- last one, and the id, unless the number would not fit.
unfoldable pub allocate_captured_graph_id : ℕ → ℕ × Result ℕ (Unit {0})
allocate_captured_graph_id next_id =
    if ltb (suc next_id) (2 ^ 31) then (suc next_id, ok next_id) else (next_id, err tt)
