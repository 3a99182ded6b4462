-- ===== src/Spsc/Queue.antt =====
-- What spsc.rs promises: a FIFO of at most `cap` elements that each side can close.
use st_zrt.Common.{ℕ, Bool, ◌||◌, List, [], ◌∷◌, ◌++◌, length, ◌==◌, if◌then◌else◌, Result, ok, err}
use st_zrt.Spsc.{TrySendError, full, TryRecvError, empty}

pub record Fifo {ℓ} (A : Type ℓ) : Type ℓ where
  pub items : List A
  pub sender_closed : Bool
  pub receiver_closed : Bool

module _ {ℓ} {A : Type ℓ} where
  unfoldable pub push : ℕ → Fifo A → A → Fifo A × Result (Unit {0}) (TrySendError A)
  push cap f v =
      if f.sender_closed || f.receiver_closed
      then (f, err (TrySendError.closed v))
      else if length f.items == cap
      then (f, err (full v))
      else (record f { items = f.items ++ v ∷ [] }, ok tt)

  pop_items : Fifo A → List A → Fifo A × Result A TryRecvError
  pop_items f [] = (f, err (if f.sender_closed then TryRecvError.closed else empty))
  pop_items f (x ∷ xs) = (record f { items = xs }, ok x)

  unfoldable pub pop : Fifo A → Fifo A × Result A TryRecvError
  unfolding pop_items
  pop f = pop_items f f.items
