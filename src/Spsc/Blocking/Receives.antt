-- ===== src/Spsc/Blocking/Receives.antt =====
-- `recv` of spsc.rs, when the sender acts at some turn.
use native.Mathlib.Nat.{add-zero, add-suc, suc-add, zero-add}
use st_zrt.Common.{
  ℕ, zero, suc, ◌+◌, ◌<◌, ◌≡◌, ◌≢◌, refl, ◌∙◌, true, false, Bool-cases, none, some, List, [], ◌++◌,
  ◌==◌, ok, arith, ◌⊎◌, inl, inr, List-cases, ◌-◌,
}
use st_zrt.Spsc.{Inner, try_recv, take_slot}
use st_zrt.Spsc.Queue.{Fifo}
use st_zrt.Spsc.Represents.{Represents}
use st_zrt.Spsc.Refine.{received, head_slot_holds, head-ne-tail, head-eq-tail, try_recv-some}
use st_zrt.Spsc.Blocking.{
  returned, SenderCall, Received, sender_acts, recv_waits, recv_attempt, recv, recv_empty,
  recv_head,
}
use st_zrt.Spsc.Blocking.Loop.{Nears, loop_ends}
use st_zrt.Spsc.Blocking.Turns.{Ready, Acted, acted, still, acts-append}

module _ {ℓ} {A : Type ℓ} (k : ℕ) where
  module _ (peer : ℕ → List (SenderCall A)) where
    -- The sender's calls before a turn.
    pub calls_before : ℕ → List (SenderCall A)
    calls_before zero = []
    calls_before (suc turn) = calls_before turn ++ peer turn

    -- What a load of `tail` tells.
    loads :
        {q : Inner A} {f : Fifo A}
        → Represents k q f
        → ((f.items ≡ []) × ((q.head == q.tail) ≡ true))
          ⊎ ((x : A) × (q' : Inner A) × ((q.head == q.tail) ≡ false)
              × (recv_head q ≡ some (returned (q', some x)))
              × (try_recv q ≡ some (q', ok x)))
    unfolding recv_head take_slot
    loads {f = f} r = elim (List-cases f.items) [
      | inl nothing ↦ inl (nothing, head-eq-tail r nothing)
      | inr (x, xs, left) ↦ inr (
        x,
        received r,
        head-ne-tail r x xs left,
        rw (recv_head, head_slot_holds r x xs left) refl,
        try_recv-some r x xs left,
      )
    ]

    module _ (start : Inner A) where
      -- The ring and the queue that it holds when the sender has had its turns before that one.
      abbrev Reached : ℕ → Inner A → Fifo A → Type ℓ
      Reached turn q f = (sender_acts (calls_before turn) start ≡ some q) × Represents k q f

      -- A value that a `try_recv` at some turn gives; or at some turn the queue was empty, and when the
      -- sender had had the next one it had closed.
      abbrev pub RecvDone : Received A → Type ℓ
      RecvDone r =
          (turn : ℕ) × (q : Inner A) × (f : Fifo A) × Reached turn q f
          × (((x : A) × (r.1 ≡ some x) × (try_recv q ≡ some (r.0, ok x)))
              ⊎ ((r.1 ≡ none)
                  × (f.items ≡ [])
                  × (sender_acts (peer turn) q ≡ some r.0)
                  × (r.0.sender_closed ≡ true)))

      -- The queue is ready, or the sender makes a call after less than that many turns.
      abbrev Soon : ℕ → ℕ → Fifo A → Type ℓ
      Soon d turn f = Ready k f ⊎ ((e : ℕ) × (e < d) × (peer (turn + e) ≢ []))

      abbrev pub Due : ℕ → ℕ → Inner A → Type ℓ
      Due d turn q = (f : Fifo A) × Reached turn q f × (f.receiver_closed ≡ false) × Soon d turn f

      reached_next :
          (turn : ℕ) {q q' : Inner A}
          → sender_acts (calls_before turn) start ≡ some q
          → sender_acts (peer turn) q ≡ some q'
          → sender_acts (calls_before (suc turn)) start ≡ some q'
      unfolding calls_before
      reached_next turn e e' = acts-append k (calls_before turn) (peer turn) start e e'

      -- The sender's turn: then the queue is ready, or there is one turn less to go.
      turn_passes :
          (d turn : ℕ) {q : Inner A} {f : Fifo A}
          → Reached turn q f
          → f.receiver_closed ≡ false
          → Soon d turn f
          → (q' : Inner A) × (g : Fifo A) × Acted k (peer turn) q f q' g
            × Reached (suc turn) q' g
            × (Ready k g ⊎ ((e : ℕ) × (suc e < d) × (peer (suc turn + e) ≢ [])))
      turn_passes d turn (at, r) opened (inl h) =
          let (q', g, h', (e, r', still_open, kept)) = acted k (peer turn) r opened (inl h) in
          (q', g, (e, r', still_open, kept), (reached_next turn at e, r'), inl h')
      turn_passes d turn (at, r) opened (inr (zero, lt, ne)) =
          let (q', g, h', (e, r', still_open, kept)) =
            acted k (peer turn) r opened (inr (rw add-zero at ne)) in
          (q', g, (e, r', still_open, kept), (reached_next turn at e, r'), inl h')
      turn_passes d turn (at, r) opened (inr (suc e, lt, ne)) =
          let (q', g, (acts, r', still_open, kept)) = still k (peer turn) r opened in
          (
            q',
            g,
            (acts, r', still_open, kept),
            (reached_next turn at acts, r'),
            inr (e, lt, rw (add-suc, ← suc-add) at ne),
          )

      -- The load of `sender_closed`, after `tail` was found at `head`.
      empty-Due :
          (d turn : ℕ) {q : Inner A} {f : Fifo A}
          → Reached turn q f
          → f.receiver_closed ≡ false
          → f.items ≡ []
          → Soon d turn f
          → Nears
              (recv_attempt peer)
              (recv_waits peer)
              Due
              RecvDone
              (suc d)
              (recv_empty peer turn q)
      unfolding recv_empty
      empty-Due d turn {q} {f} reached opened nothing soon =
          let (q', g, (acts, r', opened', kept), reached', left) =
            turn_passes d turn reached opened soon in
          elim (Bool-cases q'.sender_closed) [
            | inl shut ↦ inl (
              (q', none),
              rw (acts, recv_empty, shut) refl,
              (turn, q, f, reached, inr (refl, nothing, acts, shut)),
            )
            | inr live ↦ inr (
              d - 1,
              suc turn,
              q',
              omega arith,
              rw (acts, recv_empty, live) refl,
              (
                g,
                reached',
                opened',
                elim left [ inl h ↦ inl h | inr (e, lt, ne) ↦ inr (e, omega arith, ne) ],
              ),
            )
          ]

      -- A sender that had closed has closed still.
      shut_stays :
          (turn : ℕ) {q : Inner A} {f : Fifo A}
          → Reached turn q f
          → f.receiver_closed ≡ false
          → f.items ≡ []
          → Ready k f
          → (q' : Inner A) × (sender_acts (peer turn) q ≡ some q') × (q'.sender_closed ≡ true)
      shut_stays turn reached opened nothing h =
          let (q', g, (acts, r', opened', kept), reached', left) =
            turn_passes 0 turn reached opened (inl h) in
          elim h [
            | inl shut ↦ (q', acts, r'.sender ∙ kept shut)
            | inr some_left ↦ absurd (some_left nothing)
          ]

      tries-Due :
          (d turn : ℕ) (q : Inner A)
          → Due d turn q
          → Nears (recv_attempt peer) (recv_waits peer) Due RecvDone d (recv_attempt peer turn q)
      unfolding recv_attempt
      tries-Due d turn q (f, reached, opened, soon) =
          let (q', g, (acts, r', opened', kept), reached', left) =
            turn_passes d turn reached opened soon in
          elim (loads r') [
            | inr (x, q'', ahead, taken, tried) ↦ inl (
              (q'', some x),
              rw (acts, recv_attempt, ahead, taken) refl,
              (suc turn, q', g, reached', inl (x, refl, tried)),
            )
            | inl (nothing, level) ↦ elim left [
              | inl h ↦
                  let (q'', none_sent, shut) = shut_stays (suc turn) reached' opened' nothing h in
                  inl (
                    (q'', none),
                    rw (acts, recv_attempt, level, recv_empty, none_sent, shut) refl,
                    (suc turn, q', g, reached', inr (refl, nothing, none_sent, shut)),
                  )
              | inr (e, lt, ne) ↦
                  elim (empty-Due (suc e) (suc turn) reached' opened' nothing
                    (inr (e, omega arith, ne))) [
                      | inl (answer, e', post) ↦
                          inl (answer, rw (acts, recv_attempt, level) e', post)
                      | inr (d', next, q'', lt', e', due) ↦
                          inr (d', next, q'', omega arith, rw (acts, recv_attempt, level) e', due)
                    ]
            ]
          ]

      parks-Due :
          (d turn : ℕ) (q : Inner A)
          → Due d turn q
          → Nears
              (recv_attempt peer)
              (recv_waits peer)
              Due
              RecvDone
              (suc d)
              (recv_waits peer turn q)
      unfolding recv_waits
      parks-Due d turn q (f, reached, opened, soon) =
          let (q', g, (acts, r', opened', kept), reached', left) =
            turn_passes d turn reached opened soon in
          inr (
            d,
            suc turn,
            q',
            omega arith,
            rw (acts, recv_waits) refl,
            (
              g,
              reached',
              opened',
              elim left [ inl h ↦ inl h | inr (e, lt, ne) ↦ inr (e, omega arith, ne) ],
            ),
          )

    -- `recv` on a ring that holds a queue and whose receiver is open returns, if at some turn the
    -- sender sends or closes: it takes no more rounds than turns up to there and two. It gives what
    -- a `try_recv` gives at some turn; or `none`, when the queue was empty at some turn and the
    -- sender had closed by the next one, whether or not it had sent elements in between.
    pub recv_ends :
        (fuel turn : ℕ) {q : Inner A} {f : Fifo A}
        → Represents k q f
        → f.receiver_closed ≡ false
        → peer turn ≢ []
        → suc turn < fuel
        → (r : Received A) × (recv peer fuel q ≡ some (returned r)) × RecvDone q r
    unfolding recv calls_before sender_acts
    recv_ends fuel turn {q = q} {f = f} r opened ne lt =
        loop_ends (recv_attempt peer) (recv_waits peer) (Due q) (RecvDone q) (tries-Due q)
          (parks-Due q) fuel q.spins (suc turn) 0 q
          (f, (refl, r), opened, inr (turn, omega arith, rw zero-add ne)) lt
