-- ===== src/Spsc/Blocking/Turns.antt =====
-- What the sender's calls during `recv` of spsc.rs do to the queue that the ring holds.

use st_zrt.Common.{
  ℕ, ◌^◌, ◌≡◌, ◌≢◌, refl, ◌∙◌, true, false, Bool-cases, ◌||◌, some, List, [], ◌∷◌, ◌++◌, length,
  ◌==◌, arith, ◌⊎◌, inl, inr, pow-pos, Option-cases, sym, subst,
}
use mathlib.Core.Option.{some-injective}
use st_zrt.Spsc.{Inner, try_send, close_sender}
use st_zrt.Spsc.Queue.{Fifo, push}
use st_zrt.Spsc.Represents.{Represents}
use st_zrt.Spsc.Refine.{try_send_refines}
use st_zrt.Spsc.Run.{close_sender-Represents}
use st_zrt.Spsc.Blocking.{SenderCall, gives, sender_acts}

module _ {ℓ} {A : Type ℓ} (k : ℕ) where
  -- A try to receive would not find the queue empty.
  abbrev pub Ready : Fifo A → Type ℓ
  Ready f = (f.sender_closed ≡ true) ⊎ (f.items ≢ [])

  nonempty : (xs : List A) (x : A) → xs ++ x ∷ [] ≢ []
  nonempty [] x e = absurd (cc)
  nonempty (y ∷ xs) x e = absurd (cc)

  full_nonempty : (xs : List A) → (length xs == 2 ^ k) ≡ true → xs ≢ []
  full_nonempty [] filled e = grind (arith, pow-pos k)
  full_nonempty (x ∷ xs) filled e = absurd (cc)

  push-Ready : (f : Fifo A) (v : A) → f.receiver_closed ≡ false → Ready (push (2 ^ k) f v).0
  unfolding push
  push-Ready f v opened = elim (Bool-cases f.sender_closed) [
    | inl shut ↦ rw shut (inl refl)
    | inr live ↦ elim (Bool-cases (length f.items == 2 ^ k)) [
      | inl filled ↦ rw (live, opened, filled) (inr (full_nonempty f.items filled))
      | inr room ↦ rw (live, opened, room) (inr (nonempty f.items v))
    ]
  ]

  push-receiver : (f : Fifo A) (v : A) → (push (2 ^ k) f v).0.receiver_closed ≡ f.receiver_closed
  unfolding push
  push-receiver f v = elim (Bool-cases (f.sender_closed || f.receiver_closed)) [
    | inl shut ↦ rw shut refl
    | inr opened ↦ elim (Bool-cases (length f.items == 2 ^ k)) [
      | inl filled ↦ rw (opened, filled) refl
      | inr room ↦ rw (opened, room) refl
    ]
  ]

  push-sender : (f : Fifo A) (v : A) → (push (2 ^ k) f v).0.sender_closed ≡ f.sender_closed
  unfolding push
  push-sender f v = elim (Bool-cases (f.sender_closed || f.receiver_closed)) [
    | inl shut ↦ rw shut refl
    | inr opened ↦ elim (Bool-cases (length f.items == 2 ^ k)) [
      | inl filled ↦ rw (opened, filled) refl
      | inr room ↦ rw (opened, room) refl
    ]
  ]

  -- After the sender's calls the ring holds a queue again, whose receiver is open and whose sender has
  -- closed if it had.
  abbrev pub Acted : List (SenderCall A) → Inner A → Fifo A → Inner A → Fifo A → Type ℓ
  Acted cs q f q' g =
      (sender_acts cs q ≡ some q')
      × Represents k q' g
      × (g.receiver_closed ≡ false)
      × (f.sender_closed ≡ true → g.sender_closed ≡ true)

  -- The queue is ready then if it was ready or if there was a call.
  pub acted :
      (cs : List (SenderCall A)) {q : Inner A} {f : Fifo A}
      → Represents k q f
      → f.receiver_closed ≡ false
      → Ready f ⊎ (cs ≢ [])
      → (q' : Inner A) × (g : Fifo A) × Ready g × Acted cs q f q' g
  unfolding sender_acts
  acted [] r opened o = elim o [
    | inl h ↦ (_, _, h, (refl, r, opened, λ shut. shut))
    | inr ne ↦ absurd (ne refl)
  ]
  acted (gives v ∷ cs) {f = f} r opened o =
      let (q', e, r') = try_send_refines r v in
      let (q'', g, h, (e', r'', opened', kept)) =
        acted cs r' (push-receiver f v ∙ opened) (inl (push-Ready f v opened)) in
      (q'', g, h, (rw (e, sender_acts) e', r'', opened', λ shut. kept (push-sender f v ∙ shut)))
  acted (SenderCall.shuts ∷ cs) {f = f} r opened o =
      let (q'', g, h, (e', r'', opened', kept)) =
        acted cs (close_sender-Represents r) opened (inl (inl refl)) in
      (q'', g, h, (e', r'', opened', λ shut. kept refl))

  -- Ready or not.
  pub still :
      (cs : List (SenderCall A)) {q : Inner A} {f : Fifo A}
      → Represents k q f
      → f.receiver_closed ≡ false
      → (q' : Inner A) × (g : Fifo A) × Acted cs q f q' g
  unfolding sender_acts
  still [] r opened = (_, _, (refl, r, opened, λ shut. shut))
  still (c ∷ cs) r opened =
      let (q', g, h, done) = acted (c ∷ cs) r opened (inr (λ e. absurd (cc))) in (q', g, done)

  pub acts-append :
      (cs ds : List (SenderCall A)) (q : Inner A) {q' q'' : Inner A}
      → sender_acts cs q ≡ some q'
      → sender_acts ds q' ≡ some q''
      → sender_acts (cs ++ ds) q ≡ some q''
  unfolding sender_acts
  acts-append [] ds q {q'} {q''} e e' =
      subst (λ p. sender_acts ds p ≡ some q'') (some-injective q' q (sym e)) e'
  acts-append (gives v ∷ cs) ds q e e' = elim (Option-cases (try_send q v)) [
    | inl panicked ↦ let clash = rw (panicked, sender_acts) at e in absurd (cc)
    | inr ((q1, answer), sent) ↦
        rw (sent, sender_acts) (acts-append cs ds q1 (rw (sent, sender_acts) at e) e')
  ]
  acts-append (SenderCall.shuts ∷ cs) ds q e e' = acts-append cs ds (close_sender q) e e'
