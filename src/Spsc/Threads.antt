-- ===== src/Spsc/Threads.antt =====
-- spsc.rs with the two halves on two threads: each load or store of shared state is a step, and the
-- steps interleave freely. Each index is stored by one thread only, so the release and acquire
-- orderings of the source make its loads and stores behave as interleaved steps.
pub mod Send
pub mod Receive
pub mod Safety
pub mod Invariant
pub mod Lost
use st_zrt.Common.{
  ℕ, ◌≡◌, Bool, true, false, Option, none, some, List, [], ◌∷◌, ◌++◌, bit_and, ◌==◌, wrapping_add,
  wrapping_sub,
}
use st_zrt.Spsc.{
  Inner, capacity, write_slot, take_slot, sender_sees_closed, close_sender, close_receiver,
}

-- Where the sender stands inside `try_send`: the flags are checked, room is seen, the slot is written.
pub data SenderAt {ℓ} (A : Type ℓ) : Type ℓ where
  idle : SenderAt A
  opened room written : A → SenderAt A

-- Where the receiver stands inside `try_recv`: `head == tail` or not is seen, the value is read.
pub data ReceiverAt {ℓ} (A : Type ℓ) : Type ℓ where
  idle maybe_empty reading : ReceiverAt A
  taken : A → ReceiverAt A

-- What a step returns to its caller.
pub data Event {ℓ} (A : Type ℓ) : Type ℓ where
  inner : Event A
  sent sent_full sent_closed : A → Event A
  got : A → Event A
  got_empty got_closed : Event A

pub record System {ℓ} (A : Type ℓ) : Type ℓ where
  pub ring : Inner A
  pub sender : SenderAt A
  pub receiver : ReceiverAt A
  -- What has been published and what has been returned so far, oldest first.
  pub history : List A
  pub delivered : List A

module _ {ℓ} {A : Type ℓ} where
  pub data SenderStep (s : System A) : Event A → System A → Type ℓ where
    refuse :
        (v : A)
        → s.sender ≡ SenderAt.idle
        → sender_sees_closed s.ring ≡ true
        → SenderStep s (sent_closed v) s
    begin :
        (v : A)
        → s.sender ≡ SenderAt.idle
        → sender_sees_closed s.ring ≡ false
        → SenderStep s inner (record s { sender = opened v })
    see_full :
        (v : A)
        → s.sender ≡ opened v
        → (wrapping_sub s.ring.tail s.ring.head == capacity s.ring) ≡ true
        → SenderStep s (sent_full v) (record s { sender = SenderAt.idle })
    see_room :
        (v : A)
        → s.sender ≡ opened v
        → (wrapping_sub s.ring.tail s.ring.head == capacity s.ring) ≡ false
        → SenderStep s inner (record s { sender = room v })
    write :
        (v : A) (q : Inner A)
        → s.sender ≡ room v
        → write_slot s.ring (bit_and s.ring.tail s.ring.mask) (some v) ≡ some q
        → SenderStep s inner (record s { ring = q; sender = written v })
    publish :
        (v : A)
        → s.sender ≡ written v
        → SenderStep s (sent v) (record s {
          ring = record (s.ring) { tail = wrapping_add s.ring.tail 1 };
          sender = SenderAt.idle;
          history = s.history ++ v ∷ [];
        })
    shut : s.sender ≡ SenderAt.idle → SenderStep s inner (record s { ring = close_sender s.ring })

  pub data ReceiverStep (s : System A) : Event A → System A → Type ℓ where
    see_empty :
        s.receiver ≡ ReceiverAt.idle
        → (s.ring.head == s.ring.tail) ≡ true
        → ReceiverStep s inner (record s { receiver = maybe_empty })
    see_some :
        s.receiver ≡ ReceiverAt.idle
        → (s.ring.head == s.ring.tail) ≡ false
        → ReceiverStep s inner (record s { receiver = reading })
    report_closed :
        s.receiver ≡ maybe_empty
        → s.ring.sender_closed ≡ true
        → ReceiverStep s got_closed (record s { receiver = ReceiverAt.idle })
    report_empty :
        s.receiver ≡ maybe_empty
        → s.ring.sender_closed ≡ false
        → ReceiverStep s got_empty (record s { receiver = ReceiverAt.idle })
    read :
        (v : A) (q : Inner A)
        → s.receiver ≡ reading
        → take_slot s.ring (bit_and s.ring.head s.ring.mask) ≡ some (v, q)
        → ReceiverStep s inner (record s { ring = q; receiver = taken v })
    release :
        (v : A)
        → s.receiver ≡ taken v
        → ReceiverStep s (got v) (record s {
          ring = record (s.ring) { head = wrapping_add s.ring.head 1 };
          receiver = ReceiverAt.idle;
          delivered = s.delivered ++ v ∷ [];
        })
    shut :
        s.receiver ≡ ReceiverAt.idle
        → ReceiverStep s inner (record s { ring = close_receiver s.ring })

  pub data Step (s : System A) (e : Event A) (t : System A) : Type ℓ where
    sends : SenderStep s e t → Step s e t
    receives : ReceiverStep s e t → Step s e t

  abbrev pub start : Inner A → System A
  start q = record {
    ring = q;
    sender = SenderAt.idle;
    receiver = ReceiverAt.idle;
    history = [];
    delivered = [];
  }

  pub data Reach (q : Inner A) : System A → Type ℓ where
    here : Reach q (start q)
    later : {s t : System A} {e : Event A} → Reach q s → Step s e t → Reach q t
