-- ===== src/Spsc/Tests.antt =====
-- Concrete rings of spsc.rs, and the theorems at them.
use st_zrt.Common.{
  ℕ, ◌^◌, ◌-◌, ◌≤◌, ◌<◌, ◌≡◌, refl, ◌≢◌, true, false, some, List, [], ◌∷◌, ◌++◌, arith, err, ok,
  length, if◌then◌else◌, ◌==◌, bit_and, none, replicate,
}
use st_zrt.Spsc.{
  Inner, full, fresh, new, try_send, try_recv, checked_next_power_of_two, write_slot, take_slot,
}
use st_zrt.Spsc.Queue.{Fifo}
use st_zrt.Spsc.Represents.{Represents}
use st_zrt.Spsc.Blocking.{
  ReceiverCall, takes, SenderCall, gives, send, recv, returned, Sent, Received,
}
use st_zrt.Spsc.Blocking.Sends.{SendDone, send_ends}
use st_zrt.Spsc.Blocking.Receives.{RecvDone, recv_ends}
use st_zrt.Spsc.Create.{Made, empty_fifo, fresh-Represents}
use st_zrt.Spsc.Run.{Call, sends, receives, closes_sender, run, run_fifo, run_refines}
use st_zrt.Spsc.Release.{drop_inner, drop_inner_lem}
use st_zrt.Spsc.Threads.{System, room, reading, Reach, Step, got_closed}
use st_zrt.Spsc.Threads.Safety.{interleaved_fifo, slots_race_free}
use st_zrt.Spsc.Threads.Lost.{closed_before_drained, filled, filled-Reach}

-- Two elements in a ring of two slots, whose tail counter has wrapped.
abbrev wrapped : Inner ℕ
wrapped = record {
  slots = some 9 ∷ some 8 ∷ [];
  mask = 1;
  head = 2 ^ 64 - 1;
  tail = 1;
  sender_closed = false;
  receiver_closed = false;
  spins = 256;
}

abbrev wrapped_fifo : Fifo ℕ
wrapped_fifo = record { items = 8 ∷ 9 ∷ []; sender_closed = false; receiver_closed = false }

wrapped-Represents : Represents 1 wrapped wrapped_fifo
wrapped-Represents = record {
  small = omega arith;
  size = refl;
  masked = refl;
  head_in = omega arith;
  tail_at = refl;
  fits = omega arith;
  holds = (refl, (refl, tt));
  sender = refl;
  receiver = refl;
}

rounded_up : checked_next_power_of_two 5 ≡ some 8
unfolding checked_next_power_of_two
rounded_up = refl

wrapped_is_full : try_send wrapped 7 ≡ some (wrapped, err (full 7))
unfolding try_send
wrapped_is_full = refl

abbrev calls : List (Call ℕ)
calls = sends 1 ∷ receives ∷ receives ∷ sends 2 ∷ closes_sender ∷ sends 3 ∷ receives ∷ receives ∷ []

run_refines_example :
    (j : ℕ) × (3 ≤ 2 ^ j)
    × ((i : ℕ) → i < j → 2 ^ i < 3)
    × Made j 8 (new 8 3 256) (λ q. run q calls ≡ some (run_fifo (2 ^ j) empty_fifo calls))
run_refines_example = run_refines 8 3 256 calls (omega arith) (omega arith)

made : new {A = ℕ} 8 3 256 ≡ some (fresh 4 256)
unfolding new checked_next_power_of_two
made = refl

too_wide : new {A = ℕ} 16 (2 ^ 59) 256 ≡ none
unfolding new checked_next_power_of_two
too_wide = refl

drop_inner_lem_example : drop_inner wrapped ≡ some []
drop_inner_lem_example = drop_inner_lem wrapped-Represents

-- A ring of four slots, once with the element 5 sent between the receiver's two loads.
abbrev four : Represents {A = ℕ} 2 (fresh 4 256) empty_fifo
four = fresh-Represents 2 256 (omega arith)

interleaved_fifo_example :
    (rest : List ℕ) × ((filled four 5).history ≡ (filled four 5).delivered ++ rest)
    × (length rest ≤ 4)
interleaved_fifo_example = interleaved_fifo four (filled-Reach four 5)

slots_race_free_example :
    let s : System ℕ = filled four 5 in
    ((v : ℕ)
      → s.sender ≡ room v
      → (q : Inner ℕ) × (write_slot s.ring (bit_and s.ring.tail s.ring.mask) (some v) ≡ some q))
    × (s.receiver ≡ reading
        → (x : ℕ) × (q : Inner ℕ) × (take_slot s.ring (bit_and s.ring.head s.ring.mask)
            ≡ some (x, q)))
    × ((v : ℕ)
        → s.sender ≡ room v
        → s.receiver ≡ reading
        → bit_and s.ring.tail s.ring.mask ≢ bit_and s.ring.head s.ring.mask)
slots_race_free_example = slots_race_free four (filled-Reach four 5)

closed_before_drained_example :
    (s t : System ℕ) × Reach (fresh 4 256) s
    × Step s got_closed t
    × (t.history ≡ 5 ∷ [])
    × (t.delivered ≡ [])
    × Represents 2 t.ring (record { items = 5 ∷ []; sender_closed = true; receiver_closed = false })
closed_before_drained_example = closed_before_drained four 5

-- The receiver takes an element at the third turn.
abbrev takes_at_two : ℕ → List ReceiverCall
takes_at_two turn = if turn == 2 then takes ∷ [] else []

send_ends_example :
    (r : Sent ℕ) × (send takes_at_two 4 wrapped 7 ≡ some (returned r)) × SendDone 1 7 r
send_ends_example =
    send_ends 1 takes_at_two 7 4 2 wrapped-Represents (λ e. absurd (cc)) (omega arith)

-- The sender sends at some turn, and closes.
abbrev gives_at : ℕ → ℕ → List (SenderCall ℕ)
gives_at at turn = if turn == at then gives 5 ∷ SenderCall.shuts ∷ [] else []

recv_ends_example :
    (r : Received ℕ) × (recv (gives_at 2) 4 (fresh 4 0) ≡ some (returned r))
    × RecvDone 2 (gives_at 2) (fresh 4 0) r
recv_ends_example =
    recv_ends 2 (gives_at 2) 4 2 (fresh-Represents 2 0 (omega arith)) refl (λ e. absurd (cc))
      (omega arith)

-- Between two tries the element is received; between the two loads of a try it is not.
given_between_tries :
    (q : Inner ℕ) × (recv (gives_at 2) 4 (fresh 4 1) ≡ some (returned (q, some 5)))
unfolding recv try_send
given_between_tries = (_, refl)

given_between_loads :
    (q : Inner ℕ) × (recv (gives_at 1) 3 (fresh 4 1) ≡ some (returned (q, none)))
    × (try_recv q ≡ some (record q { slots = replicate 4 none; head = 1 }, ok 5))
unfolding recv try_send try_recv
given_between_loads = (_, refl, refl)

sent_when_taken :
    (q : Inner ℕ) × (send takes_at_two 4 (record wrapped { spins = 0 }) 7
      ≡ some (returned (q, ok tt)))
unfolding send try_send try_recv
sent_when_taken = (_, refl)
