-- ===== src/Runtime/Recovery/Consume.antt =====
-- runtime.rs: `pop_ready` and `take` keep the invariant of the recovery slots.
use st_zrt.Common.{
  ℕ, ◌≡◌, ◌≢◌, inl, inr, false, some, none, List, [], ◌∷◌, ◌++◌, get_elem?, set, usize_max, refl,
  sym, ap, ◌∙◌, subst, append-nil, get_elem?-set_cases, get_elem?-set_self, length-set,
  lt_of_get_elem?, arith, ◌==◌,
}
use st_zrt.Runtime.Recovery.{
  Slot, At, in_service, clearing, queued, popped, Consumer, idle, peeked, followed, holding,
  emptied, RecoverySlots, Effect, popped_off, off_stack, ConsumerStep, see_none, peek, follow,
  observe, observe_none, pop, take, take_none, free,
}
use st_zrt.Runtime.Recovery.Chain.{Member, Absent, Chain, Chain-set, Absent-queued}
use st_zrt.Runtime.Recovery.Invariant.{SlotInv, Watches, Inv, Acts, rests, removes}
use st_zrt.Runtime.Recovery.Keeps.{Fits-at, logged_at}

module _ {ℓ} {V : Type ℓ} where
  pub head-Member :
      (slots : List (Slot V)) (head : ℕ) (ks : List ℕ)
      → Chain slots head ks
      → (head == usize_max) ≡ false
      → Member head ks
  head-Member slots head [] (e, u) differs = absurd (ground (arith))
  head-Member slots head (k ∷ ks) (e, c, at, on, fresh, rest) differs = inl e

  watching :
      {s : RecoverySlots V} {ks : List ℕ} (w : Consumer)
      → Inv s ks
      → Watches s.slots ks w
      → Inv (record s { consumer = w }) ks
  watching w inv ok = record {
    sized = inv.sized;
    chain = inv.chain;
    on_stack = inv.on_stack;
    each = inv.each;
    watches = ok;
  }

  same_slot :
      (slots : List (Slot V)) (h : ℕ) {c d : Slot V} {a : At V}
      → get_elem? slots h ≡ some c
      → get_elem? slots h ≡ some d
      → d.at ≡ a
      → c.at ≡ a
  same_slot slots h {c} {d} e f g = let same : c ≡ d = cc in ap (λ (y : Slot V). y.at) same ∙ g

  -- The consumer writes a slot that is not on the stack.
  settled :
      {s : RecoverySlots V} {ks : List ℕ} (h : ℕ) {c : Slot V} (d : Slot V) (w : Consumer)
      → Inv s ks
      → get_elem? s.slots h ≡ some c
      → ((v : V) → c.at ≢ queued v)
      → ((v : V) → d.at ≢ queued v)
      → SlotInv d
      → Watches (set s.slots h d) ks w
      → Inv (record s { slots = set s.slots h d; consumer = w }) ks
  settled {s} {ks} h {c} d w inv at before after own ok =
      let away = Absent-queued s.slots s.ready_head ks h at before inv.chain in
      record {
        sized = omega (arith, inv.sized, length-set s.slots h d);
        chain = Chain-set s.slots s.ready_head ks h d away inv.chain;
        on_stack = λ j c' x at' q. elim (get_elem?-set_cases s.slots h j d at') [
          | inl (same, now) ↦ absurd (after x (ap (λ (y : Slot V). y.at) now ∙ q))
          | inr (apart, old) ↦ inv.on_stack j c' x old q
        ];
        each = λ j c' at'. elim (get_elem?-set_cases s.slots h j d at') [
          | inl (same, now) ↦ subst SlotInv now own
          | inr (apart, old) ↦ inv.each j c' old
        ];
        watches = ok;
      }

  take-SlotInv :
      {c : Slot V} (own : SlotInv c) {x v : V}
      → c.at ≡ popped x
      → c.value ≡ some v
      → SlotInv (record c { value = none; at = clearing; taken = c.taken ++ v ∷ [] })
  take-SlotInv {c} own {x} {v} e f =
      let held = Fits-at own e in
      let same : x ≡ v = cc in
      record {
        fits = tt;
        logged =
            logged_at own e
            ∙ ap (λ (y : V). c.taken ++ y ∷ []) same
            ∙ sym (append-nil (c.taken ++ v ∷ []));
      }

  popped-SlotInv :
      {c : Slot V} (own : SlotInv c) {v : V}
      → c.at ≡ queued v
      → SlotInv (record c { at = off_stack c.at })
  unfolding off_stack
  popped-SlotInv {c} own {v} on =
      let now : off_stack c.at ≡ popped v = ap off_stack on in
      subst (λ (a : At V). SlotInv (record c { at = a })) (sym now)
        (record { fits = Fits-at own on; logged = logged_at own on })

  popped_off_queue : {a : At V} {v : V} → a ≡ queued v → (x : V) → off_stack a ≢ queued x
  unfolding off_stack
  popped_off_queue e x = λ q. cc (ap off_stack e, q)

  -- The pop takes the first slot of the stack; its successor is the rest's.
  popped-Inv :
      {s : RecoverySlots V} (ks : List ℕ) (h n : ℕ) {c : Slot V}
      → Inv s ks
      → Chain s.slots s.ready_head ks
      → Watches s.slots ks (followed h n)
      → s.ready_head ≡ h
      → get_elem? s.slots h ≡ some c
      → (ks' : List ℕ) × Acts (popped_off h) ks ks'
        × Inv
            (record {
              slots = set s.slots h (record c { at = off_stack c.at });
              ready_head = n;
              consumer = holding h;
            })
            ks'
  unfolding off_stack
  popped-Inv [] h n inv ch (m, c', at', next) top at = elim m [ ]
  popped-Inv {s} (x ∷ ks) h n {c} inv (first, d, at_x, (v, on), fresh, rest) (m, c', at', next) top
        at =
      let here : x ≡ h = sym first ∙ top in
      let at_h : get_elem? s.slots h ≡ some d = ap (get_elem? s.slots) (sym here) ∙ at_x in
      let queue : c.at ≡ queued v = same_slot s.slots h at at_h on in
      let onward : d.next ≡ n = let same : d ≡ c' = cc in ap (λ (y : Slot V). y.next) same ∙ next in
      let away : Absent h ks = subst (λ (k : ℕ). Absent k ks) here fresh in
      let d' : Slot V = record c { at = off_stack c.at } in
      let after : (y : V) → d'.at ≢ queued y = popped_off_queue queue in
      (
        ks,
        subst (λ (k : ℕ). Acts (popped_off h) (k ∷ ks) ks) (sym here) (removes h ks),
        record {
          sized = omega (arith, inv.sized, length-set s.slots h d');
          chain =
              subst (λ (k : ℕ). Chain (set s.slots h d') k ks) onward
                (Chain-set s.slots d.next ks h d' away rest);
          on_stack = λ j c'' y at'' q. elim (get_elem?-set_cases s.slots h j d' at'') [
            | inl (same, now) ↦ absurd (after y (ap (λ (z : Slot V). z.at) now ∙ q))
            | inr (apart, old) ↦ elim (inv.on_stack j c'' y old q) [
              | inl top_one ↦ absurd (apart (sym here ∙ sym top_one))
              | inr below ↦ below
            ]
          ];
          each = λ j c'' at''. elim (get_elem?-set_cases s.slots h j d' at'') [
            | inl (same, now) ↦ subst SlotInv now (popped-SlotInv (inv.each h c at) queue)
            | inr (apart, old) ↦ inv.each j c'' old
          ];
          watches = (
            d',
            get_elem?-set_self s.slots h d' (lt_of_get_elem? s.slots h at),
            v,
            ap off_stack queue,
          );
        },
      )

  pub ConsumerStep-Inv :
      {s t : RecoverySlots V} {ks : List ℕ} {e : Effect}
      → Inv s ks
      → ConsumerStep s t e
      → (ks' : List ℕ) × Acts e ks ks' × Inv t ks'
  ConsumerStep-Inv {ks = ks} inv (see_none e f) = (ks, rests ks, inv)
  ConsumerStep-Inv {s} {ks = ks} inv (peek e f) = (
    ks,
    rests ks,
    watching (peeked s.ready_head) inv (head-Member s.slots s.ready_head ks inv.chain f, tt),
  )
  ConsumerStep-Inv {s} {ks = ks} inv (follow h {c} e at) =
      let (m, u) = subst (Watches s.slots ks) e inv.watches in
      (ks, rests ks, watching (followed h c.next) inv (m, c, at, refl))
  ConsumerStep-Inv {s} {ks = ks} inv (observe h n e f) = (
    ks,
    rests ks,
    watching (peeked s.ready_head) inv (head-Member s.slots s.ready_head ks inv.chain f, tt),
  )
  ConsumerStep-Inv {ks = ks} inv (observe_none h n e f) = (ks, rests ks, watching idle inv tt)
  ConsumerStep-Inv {s} {ks = ks} inv (pop h n e top at) =
      popped-Inv ks h n inv inv.chain (subst (Watches s.slots ks) e inv.watches) top at
  ConsumerStep-Inv {s} {ks = ks} inv (take h v {c} e at f) =
      let (c', at', x, p) = subst (Watches s.slots ks) e inv.watches in
      let on = same_slot s.slots h at at' p in
      let d : Slot V = record c { value = none; at = clearing; taken = c.taken ++ v ∷ [] } in
      (
        ks,
        rests ks,
        settled h d (emptied h) inv at (λ y q. cc (q, on)) (λ y q. cc)
            (take-SlotInv (inv.each h c at) on f)
            (d, get_elem?-set_self s.slots h d (lt_of_get_elem? s.slots h at), refl),
      )
  ConsumerStep-Inv {s} {ks = ks} inv (take_none h {c} e at f) =
      let (c', at', x, p) = subst (Watches s.slots ks) e inv.watches in
      let held = Fits-at (inv.each h c at) (same_slot s.slots h at at' p) in absurd (cc (held, f))
  ConsumerStep-Inv {s} {ks = ks} inv (free h {c} e at) =
      let (c', at', p) = subst (Watches s.slots ks) e inv.watches in
      let on = same_slot s.slots h at at' p in
      let d : Slot V = record c { occupied = false; at = in_service } in
      (
        ks,
        rests ks,
        settled h d idle inv at (λ y q. cc (q, on)) (λ y q. cc)
            (record { fits = (refl, tt); logged = logged_at (inv.each h c at) on }) tt,
      )
