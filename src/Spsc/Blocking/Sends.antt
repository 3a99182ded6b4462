-- ===== src/Spsc/Blocking/Sends.antt =====
-- `send` of spsc.rs, when the receiver acts at some turn.
use native.Mathlib.Nat.{add-zero, add-suc, suc-add, zero-add}
use st_zrt.Common.{
  ℕ, zero, suc, ◌+◌, ◌^◌, ◌≤◌, ◌<◌, ◌≡◌, ◌≢◌, refl, ap, Bool, true, false, Bool-cases, ◌||◌, some,
  List, [], ◌∷◌, ◌++◌, length, ◌==◌, ok, err, arith, ◌⊎◌, inl, inr, List-cases, pow-pos,
}
use st_zrt.Spsc.{Inner, TrySendError, full, try_send}
use st_zrt.Spsc.Queue.{Fifo, push, pop}
use st_zrt.Spsc.Represents.{Represents}
use st_zrt.Spsc.Refine.{try_send_refines, try_recv_refines}
use st_zrt.Spsc.Run.{close_receiver-Represents}
use st_zrt.Spsc.Blocking.{
  returned, goes_on, ReceiverCall, takes, Sending, Sent, receiver_acts, send_waits, send_attempt,
  send,
}
use st_zrt.Spsc.Blocking.Loop.{Nears, loop_ends}

shut_either : (b : Bool) → (b || true) ≡ true
shut_either true = refl
shut_either false = refl

module _ {ℓ} {A : Type ℓ} (k : ℕ) where
  -- A try to send would not find the queue full.
  abbrev pub Open : Fifo A → Type 0
  Open f = ((f.sender_closed || f.receiver_closed) ≡ true) ⊎ (length f.items < 2 ^ k)

  pop-Open : (f : Fifo A) → length f.items ≤ 2 ^ k → Open (pop f).0
  unfolding pop
  pop-Open f h = elim (List-cases f.items) [
    | inl e ↦ inr (rw e (pow-pos k))
    | inr (x, xs, e) ↦ inr (rw e (rw e at h))
  ]

  -- After the receiver's calls the ring holds a queue again, open if it was open or if there was a call.
  acted :
      (cs : List ReceiverCall) {q : Inner A} {f : Fifo A}
      → Represents k q f
      → Open f ⊎ (cs ≢ [])
      → (q' : Inner A) × (g : Fifo A) × (receiver_acts cs q ≡ some q') × Represents k q' g × Open g
  unfolding receiver_acts
  acted [] r o = elim o [ inl h ↦ (_, _, refl, r, h) | inr ne ↦ absurd (ne refl) ]
  acted (takes ∷ cs) {f = f} r o =
      let (q', e, r') = try_recv_refines r in
      let (q'', g, e', r'', h) = acted cs r' (inl (pop-Open f r.fits)) in
      (q'', g, rw (e, receiver_acts) e', r'', h)
  acted (ReceiverCall.shuts ∷ cs) {f = f} r o =
      let (q'', g, e', r'', h) =
        acted cs (close_receiver-Represents r) (inl (inl (shut_either f.sender_closed))) in
      (q'', g, e', r'', h)

  -- Open or not.
  still :
      (cs : List ReceiverCall) {q : Inner A} {f : Fifo A}
      → Represents k q f
      → (q' : Inner A) × (g : Fifo A) × (receiver_acts cs q ≡ some q') × Represents k q' g
  unfolding receiver_acts
  still [] r = (_, _, refl, r)
  still (c ∷ cs) r =
      let (q', g, e, r', h) = acted (c ∷ cs) r (inr (λ e. absurd (cc))) in (q', g, e, r')

  filled_stuck :
      (f : Fifo A)
      → (length f.items == 2 ^ k) ≡ true
      → (f.sender_closed || f.receiver_closed) ≡ false
      → ¬ Open f
  filled_stuck f filled opened (inl shut) = absurd (cc)
  filled_stuck f filled opened (inr lt) = grind arith

  -- The three answers of a try.
  send_cases :
      {q : Inner A} {f : Fifo A}
      → Represents k q f
      → (w : A)
      → ((q' : Inner A) × (try_send q w ≡ some (q', err (TrySendError.closed w)))
          × Represents k q' f
          × ((f.sender_closed || f.receiver_closed) ≡ true))
        ⊎ (((q' : Inner A) × (try_send q w ≡ some (q', ok tt))
              × Represents k q' (record f { items = f.items ++ w ∷ [] }))
            ⊎ ((q' : Inner A) × (try_send q w ≡ some (q', err (full w)))
                × Represents k q' f
                × ¬ Open f))
  unfolding push
  send_cases {f = f} r w =
      let (q', e, r') = try_send_refines r w in
      elim (Bool-cases (f.sender_closed || f.receiver_closed)) [
        | inl shut ↦ inl (q', rw shut at e, rw shut at r', shut)
        | inr opened ↦ elim (Bool-cases (length f.items == 2 ^ k)) [
          | inl filled ↦ inr (
              inr (
                q',
                rw (opened, filled) at e,
                rw (opened, filled) at r',
                filled_stuck f filled opened,
              ))
          | inr room ↦ inr (inl (q', rw (opened, room) at e, rw (opened, room) at r'))
        ]
      ]

  -- The value is in the queue, at its end, or it comes back and the queue is closed.
  abbrev pub SendDone : A → Sent A → Type ℓ
  SendDone v r =
      (f : Fifo A) × Represents k r.0 f
      × (((r.1 ≡ ok tt) × (xs : List A) × (f.items ≡ xs ++ v ∷ []))
          ⊎ ((r.1 ≡ err v) × ((f.sender_closed || f.receiver_closed) ≡ true)))

  module _ (peer : ℕ → List ReceiverCall) (v : A) where
    -- The queue is open, or the receiver makes a call after that many turns.
    abbrev pub Due : ℕ → ℕ → Sending A → Type ℓ
    Due d turn s =
        (s.1 ≡ v)
        × (f : Fifo A) × Represents k s.0 f
        × (Open f ⊎ ((e : ℕ) × (d ≡ suc e) × (peer (turn + e) ≢ [])))

    waits-Due :
        (d turn : ℕ) {q : Inner A} {f : Fifo A}
        → Represents k q f
        → peer (turn + d) ≢ []
        → (q' : Inner A) × (send_waits peer turn (q, v) ≡ some (goes_on (suc turn) (q', v)))
          × Due d (suc turn) (q', v)
    unfolding send_waits
    waits-Due zero turn r ne =
        let (q', g, e, r', h) = acted (peer turn) r (inr (rw add-zero at ne)) in
        (q', rw (e, send_waits), (refl, g, r', inl h))
    waits-Due (suc d) turn r ne =
        let (q', g, e, r') = still (peer turn) r in
        (q', rw (e, send_waits), (refl, g, r', inr (d, refl, rw (add-suc, ← suc-add) at ne)))

    tries-Due :
        (d turn : ℕ) (s : Sending A)
        → Due d turn s
        → Nears (send_attempt peer) (send_waits peer) Due (SendDone v) d (send_attempt peer turn s)
    unfolding send_attempt
    tries-Due d turn (q, w) (same, f, r, due) = elim (send_cases r w) [
      | inl (q', e, r', shut) ↦
          inl ((q', err w), rw (e, send_attempt), (f, r', inr (ap err same, shut)))
      | inr (inl (q', e, r')) ↦
          inl ((q', ok tt), rw (e, send_attempt), (_, r', inl (refl, f.items, rw same refl)))
      | inr (inr (q', e, r', stuck)) ↦ elim due [
        | inl o ↦ absurd (stuck o)
        | inr (d', at, ne) ↦
            let (q'', e', due') = waits-Due d' turn r' ne in
            inr (d', suc turn, (q'', v), rw at (omega arith), rw (e, send_attempt, same, e'), due')
      ]
    ]

    parks-Due :
        (d turn : ℕ) (s : Sending A)
        → Due d turn s
        → Nears
            (send_attempt peer)
            (send_waits peer)
            Due
            (SendDone v)
            (suc d)
            (send_waits peer turn s)
    unfolding send_waits
    parks-Due d turn (q, w) (same, f, r, due) = elim due [
      | inl o ↦
          let (q', g, e, r', o') = acted (peer turn) r (inl o) in
          inr (d, suc turn, (q', w), omega arith, rw (e, send_waits), (same, g, r', inl o'))
      | inr (d', at, ne) ↦
          let (q', e, due') = waits-Due d' turn r ne in
          inr (d', suc turn, (q', v), rw at (omega arith), rw (same, e), due')
    ]

    -- `send` on a ring that holds a queue returns, if at some turn the receiver takes an element or
    -- closes: it takes no more rounds than turns up to there and two. The ring then holds a queue
    -- that has the value at its end, or the value has come back and the queue is closed.
    pub send_ends :
        (fuel turn : ℕ) {q : Inner A} {f : Fifo A}
        → Represents k q f
        → peer turn ≢ []
        → suc turn < fuel
        → (r : Sent A) × (send peer fuel q v ≡ some (returned r)) × SendDone v r
    unfolding send
    send_ends fuel turn {q = q} {f = f} r ne lt =
        loop_ends (send_attempt peer) (send_waits peer) Due (SendDone v) tries-Due parks-Due fuel
          q.spins (suc turn) 0 (q, v) (refl, f, r, inr (turn, refl, rw (zero-add) ne)) lt
