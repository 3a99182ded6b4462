-- ===== src/Runtime/Recovery/Drain.antt =====
-- runtime.rs: every run of the loop of `reclaim_dropped_runs_inner` ends, when no lane is dropped
-- meanwhile.
use st_zrt.Common.{
  ℕ, suc, ◌+◌, ◌-◌, ◌*◌, ◌≤◌, ◌<◌, ◌≡◌, ◌⊎◌, inl, inr, Bool, true, false, List, [], ◌∷◌, length,
  usize_max, refl, sym, ap, subst, arith, ◌==◌, Bool-cases, ==_iff,
}
use st_zrt.Runtime.Recovery.{
  Consumer, idle, peeked, followed, holding, emptied, RecoverySlots, Effect, silent, popped_off,
  ConsumerStep, see_none, peek, follow, observe, observe_none, pop, take, take_none, free, Reach,
}
use st_zrt.Runtime.Recovery.Chain.{Member, Chain, Member-queued}
use st_zrt.Runtime.Recovery.Invariant.{Inv, Watches, Acts, rests, removes}
use st_zrt.Runtime.Recovery.Keeps.{Fits-at}
use st_zrt.Runtime.Recovery.Consume.{ConsumerStep-Inv, head-Member}
use st_zrt.Runtime.Recovery.Safety.{Reach-Inv}

-- The steps that are left, without failures: five for each slot of the stack, less those already
-- done for the first one.
abbrev ahead : Consumer → ℕ → ℕ
ahead idle n = 5 * n
ahead (peeked h) n = 5 * n - 1
ahead (followed h m) n = 5 * n - 2
ahead (holding h) n = 5 * n + 2
ahead (emptied h) n = 5 * n + 1

Member-pos : (h : ℕ) (ks : List ℕ) → Member h ks → 0 < length ks
Member-pos h [] m = elim m [ ]
Member-pos h (k ∷ ks) m = omega arith

kept : {ks ks' : List ℕ} → Acts silent ks ks' → length ks ≡ length ks'
kept (rests ks) = refl

one_less : {h : ℕ} {ks ks' : List ℕ} → Acts (popped_off h) ks ks' → length ks ≡ suc (length ks')
one_less (removes k ks) = refl

at_place : {c d : Consumer} (ks : List ℕ) → c ≡ d → ahead c (length ks) ≡ ahead d (length ks)
at_place ks e = ap (λ c. ahead c (length ks)) e

module _ {ℓ} {V : Type ℓ} where
  -- The loop has seen the end of the stack.
  abbrev pub sees_end : {s t : RecoverySlots V} {e : Effect} → ConsumerStep s t e → Bool
  sees_end (see_none at ends) = true
  sees_end (observe_none h n at ends) = true
  sees_end step = false

  -- The compare-exchange has failed: alone, the consumer meets this only as a spurious failure.
  abbrev pub failed : {s t : RecoverySlots V} {e : Effect} → ConsumerStep s t e → ℕ
  failed (observe h n at more) = 1
  failed step = 0

  -- Steps of the consumer alone before it sees the end of the stack, and the failed exchanges among
  -- them.
  pub data Runs : RecoverySlots V → ℕ → ℕ → RecoverySlots V → Type ℓ where
    stop : (s : RecoverySlots V) → Runs s 0 0 s
    goes :
        {s t u : RecoverySlots V} {e : Effect} {steps failures : ℕ}
        → (step : ConsumerStep s t e) → sees_end step ≡ false
        → Runs t steps failures u
        → Runs s (suc steps) (failed step + failures) u

  -- A step brings the end nearer, a failed exchange takes back two.
  nearer :
      {s t : RecoverySlots V} {e : Effect} {ks ks' : List ℕ}
      → Inv s ks
      → (step : ConsumerStep s t e) → sees_end step ≡ false
      → Acts e ks ks'
      → suc (ahead t.consumer (length ks')) ≤ ahead s.consumer (length ks) + 2 * failed step
  nearer {s} {ks = ks} inv (see_none at ends) on acts = absurd (cc)
  nearer {s} {ks = ks} inv (peek at more) on acts =
      let some_left =
        Member-pos s.ready_head ks (head-Member s.slots s.ready_head ks inv.chain more) in
      omega (arith, at_place ks at, kept acts, some_left)
  nearer {s} {ks = ks} inv (follow h at there) on acts =
      let (m, u) = subst (Watches s.slots ks) at inv.watches in
      omega (arith, at_place ks at, kept acts, Member-pos h ks m)
  nearer {s} {ks = ks} inv (observe h n at more) on acts =
      let (m, c, there, next) = subst (Watches s.slots ks) at inv.watches in
      omega (arith, at_place ks at, kept acts, Member-pos h ks m)
  nearer {s} {ks = ks} inv (observe_none h n at ends) on acts = absurd (cc)
  nearer {s} {ks = ks} inv (pop h n at top there) on acts =
      omega (arith, at_place ks at, one_less acts)
  nearer {s} {ks = ks} inv (take h v at there held) on acts =
      omega (arith, at_place ks at, kept acts)
  nearer {s} {ks = ks} inv (take_none h at there held) on acts =
      omega (arith, at_place ks at, kept acts)
  nearer {s} {ks = ks} inv (free h at there) on acts = omega (arith, at_place ks at, kept acts)

  Runs-bound :
      {s t : RecoverySlots V} {steps failures : ℕ} {ks : List ℕ}
      → Inv s ks
      → Runs s steps failures t
      → (ks' : List ℕ) × Inv t ks'
        × (steps + ahead t.consumer (length ks') ≤ ahead s.consumer (length ks) + 2 * failures)
  Runs-bound {ks = ks} inv (stop s) = (ks, inv, omega arith)
  Runs-bound inv (goes step on run) =
      let (ks₁, acts, inv₁) = ConsumerStep-Inv inv step in
      let (ks₂, inv₂, bound) = Runs-bound inv₁ run in
      (ks₂, inv₂, omega (arith, bound, nearer inv step on acts))

  -- The head that the consumer has read is the head still: it is alone.
  abbrev HeadSeen : RecoverySlots V → Consumer → Type 0
  HeadSeen s (peeked h) = s.ready_head ≡ h
  HeadSeen s (followed h n) = s.ready_head ≡ h
  HeadSeen s c = Unit

  step-HeadSeen :
      {s t : RecoverySlots V} {e : Effect}
      → ConsumerStep s t e
      → HeadSeen s s.consumer
      → HeadSeen t t.consumer
  step-HeadSeen (see_none at ends) seen = seen
  step-HeadSeen (peek at more) seen = refl
  step-HeadSeen {s} (follow h at there) seen = subst (HeadSeen s) at seen
  step-HeadSeen (observe h n at more) seen = refl
  step-HeadSeen (observe_none h n at ends) seen = tt
  step-HeadSeen (pop h n at top there) seen = tt
  step-HeadSeen (take h v at there held) seen = tt
  step-HeadSeen (take_none h at there held) seen = tt
  step-HeadSeen (free h at there) seen = tt

  Runs-HeadSeen :
      {s t : RecoverySlots V} {steps failures : ℕ}
      → Runs s steps failures t
      → HeadSeen s s.consumer
      → HeadSeen t t.consumer
  Runs-HeadSeen (stop s) seen = seen
  Runs-HeadSeen (goes step on run) seen = Runs-HeadSeen run (step-HeadSeen step seen)

  -- The loop's next look at the stack finds its end.
  abbrev pub AtEnd : RecoverySlots V → Type 0
  AtEnd t = (t.consumer ≡ idle) × (t.ready_head ≡ usize_max)

  -- A step that is not the loop's last and does not fail.
  abbrev pub GoesOn : RecoverySlots V → Type ℓ
  GoesOn t =
      (u : RecoverySlots V) × (e : Effect) × (step : ConsumerStep t u e) × (sees_end step ≡ false)
      × (failed step ≡ 0)

  goes_on :
      {t : RecoverySlots V} {ks : List ℕ} (c : Consumer)
      → Inv t ks
      → t.consumer ≡ c
      → Watches t.slots ks c
      → HeadSeen t c
      → AtEnd t ⊎ GoesOn t
  goes_on {t} idle inv at w seen = elim (Bool-cases (t.ready_head == usize_max)) [
    | inl ends ↦ inl (at, (==_iff _ _).0 ends)
    | inr more ↦ inr (_, _, peek at more, refl, refl)
  ]
  goes_on {t} {ks} (peeked h) inv at (m, u) seen =
      let (c, there, v, on) = Member-queued t.slots t.ready_head ks h m inv.chain in
      inr (_, _, follow h at there, refl, refl)
  goes_on (followed h n) inv at (m, c, there, next) seen =
      inr (_, _, pop h n at seen there, refl, refl)
  goes_on (holding h) inv at (c, there, v, on) seen =
      inr (_, _, take h v at there (Fits-at (inv.each h c there) on), refl, refl)
  goes_on (emptied h) inv at (c, there, on) seen = inr (_, _, free h at there, refl, refl)

-- The loop of `reclaim_dropped_runs_inner` ends, when no lane is dropped meanwhile: with `ks` on the
-- stack, the consumer alone, however its weak exchanges fail, takes at most five steps for each of
-- them and two for each failure before it sees the end of the stack. And as long as it has not come
-- there, it can go on by a step that is no failure.
pub reclaim_ends {ℓ} :
    {V : Type ℓ} {n : ℕ} {s t : RecoverySlots V} {steps failures : ℕ}
    → n ≤ usize_max
    → Reach n s
    → s.consumer ≡ idle
    → Runs s steps failures t
    → (ks : List ℕ) × Chain s.slots s.ready_head ks
      × (steps ≤ 5 * length ks + 2 * failures)
      × (AtEnd t ⊎ GoesOn t)
reclaim_ends {s = s} {t} small reach e run =
    let (ks, inv) = Reach-Inv small reach in
    let (ks', inv', bound) = Runs-bound inv run in
    let seen = Runs-HeadSeen run (subst (HeadSeen s) (sym e) tt) in
    (
      ks,
      inv.chain,
      omega (arith, bound, at_place ks e),
      goes_on t.consumer inv' refl inv'.watches seen,
    )
