-- ===== src/Spsc/Blocking.antt =====
-- spsc.rs: the loops of `send` and `recv`, which try, spin and park until the other side has acted. The
-- other side is a list of calls for each turn. The receiver has its turn after a try that failed and
-- while the sender is parked. The sender has one before each load of the receiver's of what the
-- sender stores, that of `tail` and that of `sender_closed`, and one while the receiver is parked.
pub mod Loop
pub mod Sends
pub mod Turns
pub mod Receives
use st_zrt.Common.{
  ℕ, zero, suc, Option, none, some, List, [], ◌∷◌, Result, ok, err, ◌==◌, if◌then◌else◌, bit_and,
  wrapping_add,
}
use st_zrt.Spsc.{
  Inner, TrySendError, full, try_send, try_recv, take_slot, close_sender, close_receiver,
}

-- A loop is left with a result, or goes on at a turn.
pub data Attempt {ℓ} (S R : Type ℓ) : Type ℓ where
  returned : R → Attempt S R
  goes_on : ℕ → S → Attempt S R

module _ {ℓ} {S R : Type ℓ} (attempt park : ℕ → S → Option (Attempt S R)) where
  -- The inner loop, with that many spins left.
  unfoldable pub spin : ℕ → ℕ → S → Option (Attempt S R)
  spin zero turn s = some (goes_on turn s)
  spin (suc spins) turn s = elim (attempt turn s) [
    | none ↦ none
    | some (returned r) ↦ some (returned r)
    | some (goes_on next s') ↦ spin spins next s'
  ]

  -- One round of the outer loop.
  unfoldable pub round : ℕ → ℕ → S → Option (Attempt S R)
  unfolding spin
  round spins turn s = elim (attempt turn s) [
    | none ↦ none
    | some (returned r) ↦ some (returned r)
    | some (goes_on next s') ↦ elim (spin spins next s') [
      | none ↦ none
      | some (returned r) ↦ some (returned r)
      | some (goes_on parked s'') ↦ park parked s''
    ]
  ]

  -- `none` is a panic, and `goes_on` that the fuel is used up.
  unfoldable pub loop : ℕ → ℕ → ℕ → S → Option (Attempt S R)
  unfolding round
  loop zero spins turn s = some (goes_on turn s)
  loop (suc fuel) spins turn s = elim (round spins turn s) [
    | none ↦ none
    | some (returned r) ↦ some (returned r)
    | some (goes_on next s') ↦ loop fuel spins next s'
  ]

-- What the receiver does in the sender's loop, and the sender in the receiver's.
pub data ReceiverCall : Type 0 where
  takes shuts : ReceiverCall

pub data SenderCall {ℓ} (A : Type ℓ) : Type ℓ where
  gives : A → SenderCall A
  shuts : SenderCall A

-- The queue and the value that is still to be sent, and what `send` and `recv` return.
abbrev pub Sending {ℓ} : Type ℓ → Type ℓ
Sending A = Inner A × A

abbrev pub Sent {ℓ} : Type ℓ → Type ℓ
Sent A = Inner A × Result (Unit {0}) A

abbrev pub Received {ℓ} : Type ℓ → Type ℓ
Received A = Inner A × Option A

module _ {ℓ} {A : Type ℓ} where
  unfoldable pub receiver_acts : List ReceiverCall → Inner A → Option (Inner A)
  receiver_acts [] q = some q
  receiver_acts (takes ∷ cs) q = elim (try_recv q) [
    | none ↦ none
    | some (q', r) ↦ receiver_acts cs q'
  ]
  receiver_acts (ReceiverCall.shuts ∷ cs) q = receiver_acts cs (close_receiver q)

  unfoldable pub sender_acts : List (SenderCall A) → Inner A → Option (Inner A)
  sender_acts [] q = some q
  sender_acts (gives v ∷ cs) q = elim (try_send q v) [
    | none ↦ none
    | some (q', r) ↦ sender_acts cs q'
  ]
  sender_acts (SenderCall.shuts ∷ cs) q = sender_acts cs (close_sender q)

  module _ (peer : ℕ → List ReceiverCall) where
    -- The receiver's turn.
    unfoldable pub send_waits : ℕ → Sending A → Option (Attempt (Sending A) (Sent A))
    unfolding receiver_acts
    send_waits turn (q, v) = elim (receiver_acts (peer turn) q) [
      | none ↦ none
      | some q' ↦ some (goes_on (suc turn) (q', v))
    ]

    unfoldable pub send_attempt : ℕ → Sending A → Option (Attempt (Sending A) (Sent A))
    unfolding send_waits
    send_attempt turn (q, v) = elim (try_send q v) [
      | none ↦ none
      | some (q', ok _) ↦ some (returned (q', ok tt))
      | some (q', err (TrySendError.closed back)) ↦ some (returned (q', err back))
      | some (q', err (full back)) ↦ send_waits turn (q', back)
    ]

    unfoldable pub send : ℕ → Inner A → A → Option (Attempt (Sending A) (Sent A))
    unfolding loop send_attempt send_waits
    send fuel q v = loop send_attempt send_waits fuel q.spins 0 (q, v)

  -- `tail` was found ahead: what the sender does from here on does not touch the slot at `head`.
  unfoldable pub recv_head : Inner A → Option (Attempt (Inner A) (Received A))
  unfolding take_slot
  recv_head q = elim (take_slot q (bit_and q.head q.mask)) [
    | none ↦ none
    | some (v, q') ↦ some (returned (record q' { head = wrapping_add q.head 1 }, some v))
  ]

  module _ (peer : ℕ → List (SenderCall A)) where
    unfoldable pub recv_waits : ℕ → Inner A → Option (Attempt (Inner A) (Received A))
    unfolding sender_acts
    recv_waits turn q = elim (sender_acts (peer turn) q) [
      | none ↦ none
      | some q' ↦ some (goes_on (suc turn) q')
    ]

    -- `tail` was found at `head`, and the sender goes on before the load of `sender_closed`.
    unfoldable pub recv_empty : ℕ → Inner A → Option (Attempt (Inner A) (Received A))
    unfolding sender_acts
    recv_empty turn q = elim (sender_acts (peer turn) q) [
      | none ↦ none
      | some q' ↦
          if q'.sender_closed then some (returned (q', none)) else some (goes_on (suc turn) q')
    ]

    unfoldable pub recv_attempt : ℕ → Inner A → Option (Attempt (Inner A) (Received A))
    unfolding recv_empty recv_head
    recv_attempt turn q = elim (sender_acts (peer turn) q) [
      | none ↦ none
      | some q' ↦ if q'.head == q'.tail then recv_empty (suc turn) q' else recv_head q'
    ]

    unfoldable pub recv : ℕ → Inner A → Option (Attempt (Inner A) (Received A))
    unfolding loop recv_attempt recv_waits
    recv fuel q = loop recv_attempt recv_waits fuel q.spins 0 q
