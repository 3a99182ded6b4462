-- ===== src/Runtime/Recovery/Safety.antt =====
-- runtime.rs: what the recovery slots promise to the runs that are dropped into them.
use st_zrt.Common.{
  ℕ, zero, suc, ◌≤◌, ◌≡◌, ◌≢◌, some, List, [], ◌∷◌, ◌++◌, length, replicate, get_elem?, usize_max,
  refl, subst, ap, length-replicate, lt_of_get_elem?, arith,
}
use st_zrt.Runtime.Recovery.{
  Slot, At, lost, queued, leaked, RecoverySlots, Effect, new, empty_slot, Step, moves, consumes,
  Reach, here, later,
}
use st_zrt.Runtime.Recovery.Chain.{Member, Chain}
use st_zrt.Runtime.Recovery.Invariant.{transit, Fits, SlotInv, Inv, Acts}
use st_zrt.Runtime.Recovery.Keeps.{LaneStep-Inv}
use st_zrt.Runtime.Recovery.Consume.{ConsumerStep-Inv}

module _ {ℓ} {V : Type ℓ} where
  new_slot : (n k : ℕ) {c : Slot V} → get_elem? (replicate n empty_slot) k ≡ some c → empty_slot ≡ c
  new_slot zero k e = absurd (cc)
  new_slot (suc n) zero e = cc
  new_slot (suc n) (suc k) e = new_slot n k e

  new-Inv : (n : ℕ) → n ≤ usize_max → Inv {V = V} (new n) []
  unfolding new
  new-Inv n small = record {
    sized = rw length-replicate small;
    chain = (refl, tt);
    on_stack = λ k c v at e.
        let free = ap (λ (x : Slot V). x.at) (new_slot n k at) in absurd (cc (free, e));
    each = λ k c at. subst SlotInv (new_slot n k at) (record { fits = (refl, tt); logged = refl });
    watches = tt;
  }

  Step-Inv :
      {s t : RecoverySlots V} {ks : List ℕ} {e : Effect}
      → Inv s ks
      → Step s t e
      → (ks' : List ℕ) × Acts e ks ks' × Inv t ks'
  Step-Inv inv (moves k at step) = LaneStep-Inv k inv at step
  Step-Inv inv (consumes step) = ConsumerStep-Inv inv step

  module _ {n : ℕ} (small : n ≤ usize_max) where
    pub Reach-Inv : {s : RecoverySlots V} → Reach n s → (ks : List ℕ) × Inv s ks
    Reach-Inv here = ([], new-Inv n small)
    Reach-Inv (later reach step) =
        let (ks, inv) = Reach-Inv reach in let (ks', acts, inv') = Step-Inv inv step in (ks', inv')

-- The links are a stack at every moment, with drops on any threads and one consumer: they run from the
-- head through different slots with queued lanes, and a step pushes its slot on top, pops the top one,
-- or leaves the stack as it is. So a head that changes and changes back cannot mislead a pop.
pub recovery_refines_stack {ℓ} :
    {V : Type ℓ} {n : ℕ} {s t : RecoverySlots V} {e : Effect}
    → n ≤ usize_max
    → Reach n s
    → Step s t e
    → (ks : List ℕ) × (ks' : List ℕ) × Chain s.slots s.ready_head ks
      × Acts e ks ks'
      × Chain t.slots t.ready_head ks'
recovery_refines_stack small reach step =
    let (ks, inv) = Reach-Inv small reach in
    let (ks', acts, inv') = Step-Inv inv step in (ks, ks', inv.chain, acts, inv'.chain)

-- Of the lanes dropped into a slot the consumer takes each once and in order: what was dropped is what
-- was taken, and the lane on its way if there is one. A drop never finds its slot occupied, and a pop
-- never finds it empty, so that no lane is leaked.
pub recovered_exactly_once {ℓ} :
    {V : Type ℓ} {n : ℕ} {s : RecoverySlots V}
    → n ≤ usize_max
    → Reach n s
    → (k : ℕ) {c : Slot V} → get_elem? s.slots k ≡ some c
    → (v : V) → (c.dropped ≡ c.taken ++ transit c.at) × (c.at ≢ leaked v) × (c.at ≢ lost)
recovered_exactly_once {V = A} small reach k {c} at v =
    let (ks, inv) = Reach-Inv small reach in
    let own = inv.each k c at in
    (
      own.logged,
      λ e. (subst (λ (a : At A). Fits a c) e own.fits).0,
      λ e. (subst (λ (a : At A). Fits a c) e own.fits).0,
    )

-- When the consumer finds the end of the stack, no lane waits on it.
pub none_left_behind {ℓ} :
    {V : Type ℓ} {n : ℕ} {s : RecoverySlots V}
    → n ≤ usize_max
    → Reach n s
    → s.ready_head ≡ usize_max
    → (k : ℕ) {c : Slot V} → get_elem? s.slots k ≡ some c
    → (v : V) → c.at ≢ queued v
none_left_behind {s = s} small reach ends k {c} at v =
    let (ks, inv) = Reach-Inv small reach in
    λ e. empty ks inv.sized inv.chain (inv.on_stack k c v at e)
  where
    empty :
        (ks : List ℕ) → length s.slots ≤ usize_max → Chain s.slots s.ready_head ks → Member k ks → ⊥
    empty [] sized ch m = m
    empty (x ∷ ks) sized (first, d, at_x, on, fresh, rest) m =
        omega (arith, lt_of_get_elem? s.slots x at_x)
