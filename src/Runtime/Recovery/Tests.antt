-- ===== src/Runtime/Recovery/Tests.antt =====
-- runtime.rs: a lane dropped into its recovery slot, and taken back, step by step.
use st_zrt.Common.{
  ℕ, ◌+◌, ◌*◌, ◌≡◌, ◌≢◌, Bool, true, false, Option, some, none, List, [], ◌∷◌, ◌++◌, length,
  usize_max, refl, arith, ◌≤◌, ◌⊎◌,
}
use st_zrt.Runtime.Recovery.{
  Slot, At, in_service, lost, queued, leaked, swapping, Consumer, idle, RecoverySlots, pushed,
  empty_slot, new, publishes, give_out, drop, reserve, write, load, link, push, off_stack, peek,
  peeked, observe, follow, pop, take, free, Step, moves, consumes, Reach, here, later,
}
use st_zrt.Runtime.Recovery.Chain.{Chain}
use st_zrt.Runtime.Recovery.Invariant.{transit, Acts}
use st_zrt.Runtime.Recovery.Safety.{recovery_refines_stack, recovered_exactly_once}
use st_zrt.Runtime.Recovery.Drain.{Runs, stop, goes, AtEnd, GoesOn, reclaim_ends}

abbrev slot : Option ℕ → Bool → At ℕ → List ℕ → List ℕ → Slot ℕ
slot value occupied at dropped taken = record {
  value = value;
  occupied = occupied;
  next = usize_max;
  at = at;
  dropped = dropped;
  taken = taken;
}

abbrev two : Slot ℕ → ℕ → Consumer → RecoverySlots ℕ
two c head consumer = record { slots = c ∷ empty_slot ∷ []; ready_head = head; consumer = consumer }

-- The lane of slot 0 is dropped with the value 7, and its link is written.
linked : Reach 2 (two (slot (some 7) true (swapping 7 usize_max) (7 ∷ []) []) usize_max idle)
unfolding new
linked =
    later
      (later
        (later
          (later (later (later here (moves 0 refl (give_out refl))) (moves 0 refl (drop 7 refl)))
            (moves 0 refl (publishes (reserve 7 refl refl))))
          (moves 0 refl (publishes (write 7 refl))))
        (moves 0 refl (load 7 refl)))
      (moves 0 refl (link 7 usize_max refl))

pushes :
    Step
      (two (slot (some 7) true (swapping 7 usize_max) (7 ∷ []) []) usize_max idle)
      (two (slot (some 7) true (queued 7) (7 ∷ []) []) 0 idle)
      (pushed 0)
pushes = moves 0 refl (push 7 usize_max refl refl)

waiting : Reach 2 (two (slot (some 7) true (queued 7) (7 ∷ []) []) 0 idle)
waiting = later linked pushes

taken_back : Reach 2 (two (slot none false in_service (7 ∷ []) (7 ∷ [])) usize_max idle)
unfolding off_stack
taken_back =
    later
      (later
        (later (later (later waiting (consumes (peek refl refl))) (consumes (follow 0 refl refl)))
          (consumes (pop 0 usize_max refl refl refl)))
        (consumes (take 0 7 refl refl refl)))
      (consumes (free 0 refl refl))

recovery_refines_stack_example :
    (ks : List ℕ) × (ks' : List ℕ) × Chain
      (slot (some 7) true (swapping 7 usize_max) (7 ∷ []) [] ∷ empty_slot ∷ [])
      usize_max
      ks
    × Acts (pushed 0) ks ks'
    × Chain (slot (some 7) true (queued 7) (7 ∷ []) [] ∷ empty_slot ∷ []) 0 ks'
recovery_refines_stack_example = recovery_refines_stack {n = 2} (omega arith) linked pushes

recovered_exactly_once_example :
    (◌≡◌ {A = List ℕ} (7 ∷ []) ([] ++ transit (queued 7)))
    × (◌≢◌ {A = At ℕ} (queued 7) (leaked 7))
    × (◌≢◌ {A = At ℕ} (queued 7) lost)
recovered_exactly_once_example = recovered_exactly_once {n = 2} (omega arith) waiting 0 refl 7

-- The consumer looks at the top slot, and its exchange fails once.
abbrev looking : Consumer → RecoverySlots ℕ
looking c = two (slot (some 7) true (queued 7) (7 ∷ []) []) 0 c

one_failure : Runs (looking idle) 3 1 (looking (peeked 0))
one_failure =
    goes (peek refl refl) refl
      (goes (follow 0 refl refl) refl (goes (observe 0 usize_max refl refl) refl (stop _)))

reclaim_ends_example :
    (ks : List ℕ) × Chain (slot (some 7) true (queued 7) (7 ∷ []) [] ∷ empty_slot ∷ []) 0 ks
    × (3 ≤ 5 * length ks + 2 * 1)
    × (AtEnd (looking (peeked 0)) ⊎ GoesOn (looking (peeked 0)))
reclaim_ends_example = reclaim_ends {n = 2} (omega arith) waiting refl one_failure
