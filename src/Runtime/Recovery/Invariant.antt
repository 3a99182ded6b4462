-- ===== src/Runtime/Recovery/Invariant.antt =====
-- runtime.rs: the invariant of the recovery slots and their stack.
use st_zrt.Common.{ℕ, ◌≤◌, ◌≡◌, false, some, List, [], ◌∷◌, ◌++◌, length, get_elem?, usize_max}
use st_zrt.Runtime.Recovery.{
  Slot, At, in_service, out, clearing, lost, publishing, writing, loading, queued, popped, leaked,
  linking, swapping, Consumer, idle, peeked, followed, holding, emptied, RecoverySlots, Effect,
  silent, pushed, popped_off,
}
use st_zrt.Runtime.Recovery.Chain.{Member, Chain}

module _ {ℓ} {V : Type ℓ} where
  -- The value of a lane that was dropped and not yet taken by the consumer.
  abbrev pub transit : At V → List V
  transit (publishing v) = v ∷ []
  transit (writing v) = v ∷ []
  transit (loading v) = v ∷ []
  transit (linking v h) = v ∷ []
  transit (swapping v h) = v ∷ []
  transit (queued v) = v ∷ []
  transit (popped v) = v ∷ []
  transit a = []

  -- What the cell holds, by where its lane is.
  abbrev pub Fits : At V → Slot V → Type ℓ
  Fits in_service c = (c.occupied ≡ false) × Unit {ℓ}
  Fits out c = (c.occupied ≡ false) × Unit {ℓ}
  Fits (publishing v) c = (c.occupied ≡ false) × Unit {ℓ}
  Fits (writing v) c = Unit {ℓ}
  Fits (loading v) c = c.value ≡ some v
  Fits (linking v h) c = c.value ≡ some v
  Fits (swapping v h) c = (c.value ≡ some v) × (c.next ≡ h)
  Fits (queued v) c = c.value ≡ some v
  Fits (popped v) c = c.value ≡ some v
  Fits clearing c = Unit {ℓ}
  Fits (leaked v) c = ⊥ × Unit {ℓ}
  Fits lost c = ⊥ × Unit {ℓ}

  pub record SlotInv (c : Slot V) : Type ℓ where
    pub fits : Fits c.at c
    pub logged : c.dropped ≡ c.taken ++ transit c.at

  abbrev pub Watches : List (Slot V) → List ℕ → Consumer → Type ℓ
  Watches slots ks idle = Unit {ℓ}
  Watches slots ks (peeked h) = Member h ks × Unit {ℓ}
  Watches slots ks (followed h n) =
      Member h ks × (c : Slot V) × (get_elem? slots h ≡ some c) × (c.next ≡ n)
  Watches slots ks (holding h) =
      (c : Slot V) × (get_elem? slots h ≡ some c) × (v : V) × (c.at ≡ popped v)
  Watches slots ks (emptied h) = (c : Slot V) × (get_elem? slots h ≡ some c) × (c.at ≡ clearing)

  -- `ks` are the slots on the stack, the last pushed one first.
  pub record Inv (s : RecoverySlots V) (ks : List ℕ) : Type ℓ where
    pub sized : length s.slots ≤ usize_max
    pub chain : Chain s.slots s.ready_head ks
    pub on_stack :
        (k : ℕ) (c : Slot V) (v : V) → get_elem? s.slots k ≡ some c → c.at ≡ queued v → Member k ks
    pub each : (k : ℕ) (c : Slot V) → get_elem? s.slots k ≡ some c → SlotInv c
    pub watches : Watches s.slots ks s.consumer

-- What a step does to the stack seen as a list.
pub data Acts : Effect → List ℕ → List ℕ → Type 0 where
  rests : (ks : List ℕ) → Acts silent ks ks
  adds : (k : ℕ) (ks : List ℕ) → Acts (pushed k) ks (k ∷ ks)
  removes : (k : ℕ) (ks : List ℕ) → Acts (popped_off k) (k ∷ ks) ks
