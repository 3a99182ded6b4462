-- ===== src/Spsc/Threads/Lost.antt =====
-- An interleaving in which the receiver is told that the queue is closed before it is drained.
use st_zrt.Common.{ℕ, ◌≡◌, refl, true, false, some, [], ◌∷◌, bit_and, set, arith, pow-pos}
use st_zrt.Spsc.{Inner, write_slot, len, close_sender}
use st_zrt.Spsc.Represents.{Represents, len_lem}
use st_zrt.Spsc.Refine.{sent, sent-Represents, tail_slot-lt}
use st_zrt.Spsc.Create.{empty_fifo}
use st_zrt.Spsc.Run.{close_sender-Represents}
use st_zrt.Spsc.Threads.{
  System, SenderAt, ReceiverAt, maybe_empty, Reach, here, later, Step, sends, receives, SenderStep,
  ReceiverStep, got_closed,
}

module _ {ℓ} {A : Type ℓ} {k : ℕ} {q : Inner A} (r : Represents k q empty_fifo) (v : A) where
  -- The receiver has seen the ring empty; then a whole send and the close take place.
  pub filled : System A
  filled = record {
    ring = close_sender (sent r v);
    sender = SenderAt.idle;
    receiver = maybe_empty;
    history = v ∷ [];
    delivered = [];
  }

  slot_written : Inner A
  slot_written = record q { slots = set q.slots (bit_and q.tail q.mask) (some v) }

  pub filled-Reach : Reach q filled
  unfolding filled slot_written write_slot len
  filled-Reach =
      later
        (later
          (later
            (later
              (later
                (later here
                  (receives (ReceiverStep.see_empty refl (ground (arith, r.tail_at, r.head_in)))))
                (sends (SenderStep.begin v refl (rw (r.sender, r.receiver)))))
              (sends (SenderStep.see_room v refl (ground (arith, len_lem r, r.size, pow-pos k)))))
            (sends (SenderStep.write v slot_written refl (rw (tail_slot-lt r)))))
          (sends (SenderStep.publish v refl)))
        (sends (SenderStep.shut refl))

  -- From every empty open ring and for every value there is an interleaving after which `try_recv`
  -- answers that the queue is closed while that value is still in it.
  pub closed_before_drained :
      (s t : System A) × Reach q s
      × Step s got_closed t
      × (t.history ≡ v ∷ [])
      × (t.delivered ≡ [])
      × Represents k t.ring
          (record { items = v ∷ []; sender_closed = true; receiver_closed = false })
  unfolding filled
  closed_before_drained = (
    filled,
    record filled { receiver = ReceiverAt.idle },
    filled-Reach,
    receives (ReceiverStep.report_closed refl refl),
    refl,
    refl,
    close_sender-Represents (sent-Represents r v (omega (arith, pow-pos k))),
  )
