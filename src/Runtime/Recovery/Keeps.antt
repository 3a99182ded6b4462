-- ===== src/Runtime/Recovery/Keeps.antt =====
-- runtime.rs: each step of a lane on its way through the recovery slots keeps the invariant.
use st_zrt.Common.{
  ℕ, ◌<◌, ◌≡◌, ◌≢◌, inl, inr, some, List, [], ◌∷◌, ◌++◌, length, get_elem?, set, refl, sym, ap, ◌∙◌,
  subst, append-nil, get_elem?-set_cases, get_elem?-set_self, length-set, lt_of_get_elem?,
  get_elem?-set_ne, arith,
}
use st_zrt.Runtime.Recovery.{
  Slot, At, clearing, queued, popped, Consumer, idle, peeked, followed, holding, emptied,
  RecoverySlots, Effect, silent, LaneStep, publishes, give_out, complete, drop, refuse, reserve,
  write, load, link, exchange_fails, push,
}
use st_zrt.Runtime.Recovery.Chain.{Member, Absent, Absent-ne, Chain, Chain-set, Absent-queued}
use st_zrt.Runtime.Recovery.Invariant.{transit, Fits, SlotInv, Watches, Inv, Acts, rests, adds}

module _ {ℓ} {V : Type ℓ} where
  module _ {c : Slot V} (v : SlotInv c) {a : At V} (e : c.at ≡ a) where
    pub Fits-at : Fits a c
    Fits-at = subst (λ (b : At V). Fits b c) e v.fits

    pub logged_at : c.dropped ≡ c.taken ++ transit a
    logged_at = v.logged ∙ ap (λ (b : At V). c.taken ++ transit b) e

  LaneStep-SlotInv :
      {k head head' : ℕ} {c d : Slot V} {e : Effect}
      → SlotInv c
      → LaneStep k head c head' d e
      → SlotInv d
  LaneStep-SlotInv v (give_out e) = record { fits = Fits-at v e; logged = logged_at v e }
  LaneStep-SlotInv v (complete e) = record { fits = Fits-at v e; logged = logged_at v e }
  LaneStep-SlotInv {c = c} v (drop x e) = record {
    fits = Fits-at v e;
    logged = ap (λ (l : List V). l ++ x ∷ []) (logged_at v e ∙ append-nil c.taken);
  }
  LaneStep-SlotInv v (publishes (refuse x e full)) = absurd (cc (full, (Fits-at v e).0))
  LaneStep-SlotInv v (publishes (reserve x e free)) = record { fits = tt; logged = logged_at v e }
  LaneStep-SlotInv v (publishes (write x e)) = record { fits = refl; logged = logged_at v e }
  LaneStep-SlotInv v (load x e) = record { fits = Fits-at v e; logged = logged_at v e }
  LaneStep-SlotInv v (link x h e) = record { fits = (Fits-at v e, refl); logged = logged_at v e }
  LaneStep-SlotInv v (exchange_fails x h e) = record {
    fits = (Fits-at v e).0;
    logged = logged_at v e;
  }
  LaneStep-SlotInv v (push x h e same) = record { fits = (Fits-at v e).0; logged = logged_at v e }

  -- The lane is not on the stack and not with the consumer.
  abbrev Off : At V → Type 0
  Off (queued v) = ⊥
  Off (popped v) = ⊥
  Off clearing = ⊥
  Off a = Unit {0}

  LaneStep-Off :
      {k head head' : ℕ} {c d : Slot V} {e : Effect} → LaneStep k head c head' d e → Off c.at
  LaneStep-Off (give_out e) = subst Off (sym e) tt
  LaneStep-Off (complete e) = subst Off (sym e) tt
  LaneStep-Off (drop x e) = subst Off (sym e) tt
  LaneStep-Off (publishes (refuse x e full)) = subst Off (sym e) tt
  LaneStep-Off (publishes (reserve x e free)) = subst Off (sym e) tt
  LaneStep-Off (publishes (write x e)) = subst Off (sym e) tt
  LaneStep-Off (load x e) = subst Off (sym e) tt
  LaneStep-Off (link x h e) = subst Off (sym e) tt
  LaneStep-Off (exchange_fails x h e) = subst Off (sym e) tt
  LaneStep-Off (push x h e same) = subst Off (sym e) tt

  not_queued : {a : At V} → Off a → (v : V) → a ≢ queued v
  not_queued off v e = subst Off e off

  -- One step of the stack, the chain after it, and who is on it.
  abbrev Lays : ℕ → Slot V → List (Slot V) → ℕ → List ℕ → Effect → Type ℓ
  Lays k d slots head ks e =
      (ks' : List ℕ) × Acts e ks ks'
      × Chain slots head ks'
      × ((x : V) → d.at ≡ queued x → Member k ks')
      × ((j : ℕ) → Member j ks → Member j ks')

  module _ (slots : List (Slot V)) (ks : List ℕ) (k : ℕ) (away : Absent k ks)
      (within : k < length slots) where
    abbrev still :
        (head : ℕ) (d : Slot V)
        → Chain slots head ks
        → ((x : V) → d.at ≢ queued x)
        → Lays k d (set slots k d) head ks silent
    still head d ch off =
        (ks, rests ks, Chain-set slots head ks k d away ch, λ x e. absurd (off x e), λ j m. m)

    LaneStep-Lays :
        {head head' : ℕ} {c d : Slot V} {e : Effect}
        → Chain slots head ks
        → SlotInv c
        → LaneStep k head c head' d e
        → Lays k d (set slots k d) head' ks e
    LaneStep-Lays ch v (give_out e) = still _ _ ch (λ x q. cc)
    LaneStep-Lays ch v (complete e) = still _ _ ch (λ x q. cc)
    LaneStep-Lays ch v (drop x e) = still _ _ ch (λ x q. cc)
    LaneStep-Lays ch v (publishes (refuse x e full)) = still _ _ ch (λ x q. cc)
    LaneStep-Lays ch v (publishes (reserve x e free)) = still _ _ ch (λ x q. cc)
    LaneStep-Lays ch v (publishes (write x e)) = still _ _ ch (λ x q. cc)
    LaneStep-Lays ch v (load x e) = still _ _ ch (λ x q. cc)
    LaneStep-Lays ch v (link x h e) = still _ _ ch (λ x q. cc)
    LaneStep-Lays ch v (exchange_fails x h e) = still _ _ ch (λ x q. cc)
    LaneStep-Lays {head = head} {c = c} ch v (push x h e same) =
        let d : Slot V = record c { at = queued x } in
        let linked : head ≡ c.next = same ∙ sym (Fits-at v e).1 in
        (
          k ∷ ks,
          adds k ks,
          (
            refl,
            d,
            get_elem?-set_self slots k d within,
            (x, refl),
            away,
            subst (λ (n : ℕ). Chain (set slots k d) n ks) linked
                (Chain-set slots head ks k d away ch),
          ),
          λ y q. inl refl,
          λ j m. inr m,
        )

  -- What the consumer watches is not touched by a lane that is elsewhere.
  Watches-set :
      (slots : List (Slot V)) (ks ks' : List ℕ) (k : ℕ) {c : Slot V} (d : Slot V)
      → get_elem? slots k ≡ some c
      → Off c.at
      → Absent k ks
      → ((j : ℕ) → Member j ks → Member j ks')
      → (w : Consumer) → Watches slots ks w
      → Watches (set slots k d) ks' w
  Watches-set slots ks ks' k d at off away more idle ok = tt
  Watches-set slots ks ks' k d at off away more (peeked h) (m, u) = (more h m, u)
  Watches-set slots ks ks' k d at off away more (followed h n) (m, c', at', e) =
      (more h m, c', get_elem?-set_ne slots k h d (Absent-ne ks k h away m) ∙ at', e)
  Watches-set slots ks ks' k {c} d at off away more (holding h) (c', at', x, e) =
      let apart : k ≢ h =
        λ q. let same : c ≡ c' = cc in subst Off (ap (λ (y : Slot V). y.at) same ∙ e) off in
      (c', get_elem?-set_ne slots k h d apart ∙ at', x, e)
  Watches-set slots ks ks' k {c} d at off away more (emptied h) (c', at', e) =
      let apart : k ≢ h =
        λ q. let same : c ≡ c' = cc in subst Off (ap (λ (y : Slot V). y.at) same ∙ e) off in
      (c', get_elem?-set_ne slots k h d apart ∙ at', e)

  -- A step of a lane keeps the invariant, and acts on the stack as its effect says.
  pub LaneStep-Inv :
      {s : RecoverySlots V} {ks : List ℕ} (k : ℕ) {head : ℕ} {c d : Slot V} {e : Effect}
      → Inv s ks
      → get_elem? s.slots k ≡ some c
      → LaneStep k s.ready_head c head d e
      → (ks' : List ℕ) × Acts e ks ks'
        × Inv (record s { slots = set s.slots k d; ready_head = head }) ks'
  LaneStep-Inv {s} {ks} k {head} {c} {d} inv at step =
      let own = inv.each k c at in
      let off = LaneStep-Off step in
      let away = Absent-queued s.slots s.ready_head ks k at (not_queued off) inv.chain in
      let (ks', acts, ch, here_on, more) =
        LaneStep-Lays s.slots ks k away (lt_of_get_elem? s.slots k at) inv.chain own step in
      (
        ks',
        acts,
        record {
          sized = omega (arith, inv.sized, length-set s.slots k d);
          chain = ch;
          on_stack = λ j c' x at' q. elim (get_elem?-set_cases s.slots k j d at') [
            | inl (same, now) ↦
                subst (λ (i : ℕ). Member i ks') same (here_on x (ap (λ (y : Slot V). y.at) now ∙ q))
            | inr (apart, old) ↦ more j (inv.on_stack j c' x old q)
          ];
          each = λ j c' at'. elim (get_elem?-set_cases s.slots k j d at') [
            | inl (same, now) ↦ subst SlotInv now (LaneStep-SlotInv own step)
            | inr (apart, old) ↦ inv.each j c' old
          ];
          watches = Watches-set s.slots ks ks' k d at off away more s.consumer inv.watches;
        },
      )
