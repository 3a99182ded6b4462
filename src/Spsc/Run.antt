-- ===== src/Spsc/Run.antt =====
-- Histories of calls on one queue: the ring of spsc.rs against the bounded FIFO.
use st_zrt.Common.{
  ℕ, ◌^◌, ◌≤◌, ◌<◌, ◌≡◌, refl, inl, inr, true, Option, none, some, List, [], ◌∷◌, Result,
}
use st_zrt.Spsc.Queue.{Fifo, push, pop}
use st_zrt.Spsc.Represents.{Represents}
use st_zrt.Spsc.Refine.{try_send_refines, try_recv_refines}
use st_zrt.Spsc.Create.{empty_fifo, Made, new-Represents}
use st_zrt.Spsc.{
  Inner, TrySendError, TryRecvError, try_send, try_recv, close_sender, close_receiver, new,
}

-- The calls that the two halves make.
pub data Call {ℓ} (A : Type ℓ) : Type ℓ where
  sends : A → Call A
  receives closes_sender closes_receiver : Call A

pub data Reply {ℓ} (A : Type ℓ) : Type ℓ where
  answers : Result (Unit {0}) (TrySendError A) → Reply A
  yields : Result A TryRecvError → Reply A
  silent : Reply A

module _ {ℓ} {A : Type ℓ} where
  -- `none` if some call panics or reads a slot without a value.
  pub run : Inner A → List (Call A) → Option (List (Reply A))
  run q [] = some []
  run q (sends v ∷ cs) = elim (try_send q v) [
    | none ↦ none
    | some (q', r) ↦ elim (run q' cs) [ none ↦ none | some rs ↦ some (answers r ∷ rs) ]
  ]
  run q (receives ∷ cs) = elim (try_recv q) [
    | none ↦ none
    | some (q', r) ↦ elim (run q' cs) [ none ↦ none | some rs ↦ some (yields r ∷ rs) ]
  ]
  run q (closes_sender ∷ cs) = elim (run (close_sender q) cs) [
    | none ↦ none
    | some rs ↦ some (silent ∷ rs)
  ]
  run q (closes_receiver ∷ cs) = elim (run (close_receiver q) cs) [
    | none ↦ none
    | some rs ↦ some (silent ∷ rs)
  ]

  pub run_fifo : ℕ → Fifo A → List (Call A) → List (Reply A)
  run_fifo cap f [] = []
  run_fifo cap f (sends v ∷ cs) = let (f', r) = push cap f v in answers r ∷ run_fifo cap f' cs
  run_fifo cap f (receives ∷ cs) = let (f', r) = pop f in yields r ∷ run_fifo cap f' cs
  run_fifo cap f (closes_sender ∷ cs) = silent ∷ run_fifo cap (record f { sender_closed = true }) cs
  run_fifo cap f (closes_receiver ∷ cs) =
      silent ∷ run_fifo cap (record f { receiver_closed = true }) cs

  pub close_sender-Represents :
      {k : ℕ} {q : Inner A} {f : Fifo A}
      → Represents k q f
      → Represents k (close_sender q) (record f { sender_closed = true })
  close_sender-Represents r = record {
    small = r.small;
    size = r.size;
    masked = r.masked;
    head_in = r.head_in;
    tail_at = r.tail_at;
    fits = r.fits;
    holds = r.holds;
    sender = refl;
    receiver = r.receiver;
  }

  pub close_receiver-Represents :
      {k : ℕ} {q : Inner A} {f : Fifo A}
      → Represents k q f
      → Represents k (close_receiver q) (record f { receiver_closed = true })
  close_receiver-Represents r = record {
    small = r.small;
    size = r.size;
    masked = r.masked;
    head_in = r.head_in;
    tail_at = r.tail_at;
    fits = r.fits;
    holds = r.holds;
    sender = r.sender;
    receiver = refl;
  }

  run_Represents :
      (cs : List (Call A)) {k : ℕ} {q : Inner A} {f : Fifo A}
      → Represents k q f
      → run q cs ≡ some (run_fifo (2 ^ k) f cs)
  unfolding run run_fifo
  run_Represents [] r = refl
  run_Represents (sends v ∷ cs) r =
      let (q', e, r') = try_send_refines r v in rw (e, run, run_Represents cs r')
  run_Represents (receives ∷ cs) r =
      let (q', e, r') = try_recv_refines r in rw (e, run, run_Represents cs r')
  run_Represents (closes_sender ∷ cs) r = rw (run, run_Represents cs (close_sender-Represents r))
  run_Represents (closes_receiver ∷ cs) r =
      rw (run, run_Represents cs (close_receiver-Represents r))

  -- Whatever calls are made, in whatever order, on a queue made with a capacity from 1 to `2 ^ 63`,
  -- none of them panics, and their answers are those of a FIFO bounded by the least power of two
  -- that is not below the requested capacity. The queue is made unless as many slots have `2 ^ 63`
  -- bytes or more, and then the call that makes it panics.
  pub run_refines :
      (slot_size n spins : ℕ) (cs : List (Call A))
      → 0 < n
      → n ≤ 2 ^ 63
      → (j : ℕ) × (n ≤ 2 ^ j)
        × ((i : ℕ) → i < j → 2 ^ i < n)
        × Made j slot_size
            (new slot_size n spins)
            (λ q. run q cs ≡ some (run_fifo (2 ^ j) empty_fifo cs))
  run_refines slot_size n spins cs pos h =
      let (j, above, least, made) = new-Represents {A = A} slot_size n spins pos h in
      (
        j,
        above,
        least,
        elim made [
          | inl panicked ↦ inl panicked
          | inr (sized, q, made_q, r) ↦ inr (sized, q, made_q, run_Represents cs r)
        ],
      )
