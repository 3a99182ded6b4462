-- ===== src/Session/Lease/Keeps.antt =====
-- session.rs: the invariant of a captured-graph lease holds in every state that threads can reach.
use st_zrt.Common.{
  ℕ, zero, suc, ◌+◌, ◌≤◌, ◌≡◌, false, some, List, [], ◌∷◌, get_elem?, set, map, replicate, arith,
  total, total-set, total-add, total_mono, total-replicate, le-total, refl, subst, get_elem?-map,
  inl, inr, get_elem?-set_cases, ltb→lt,
}
use st_zrt.Session.Lease.{
  CapturedGraphLeaseState, System, Position, Wait, unreleased, drained, idle, announcing, notifying,
  locking, checking, about_to_sleep, asleep, Local, load_run, load_release, begin_drop, observe,
  drops, Step, acts, notifies, announces, Reach, here, later, start, woken,
}
use st_zrt.Session.Lease.Invariant.{
  guards, releasers, owners, holders, notifiers, announcers, drain_sleepers, flag_sleepers, Sane,
  Balanced, Balance, Inv,
}
use st_zrt.Session.Lease.Steps.{Change, Local-Balanced, flag_down}

-- A release that has gone to sleep, or that owns the graph, has set the flag.
sleepers-le-releasers :
    (ts : List Position) → total drain_sleepers ts + total owners ts ≤ total releasers ts
sleepers-le-releasers ts = omega (
  arith,
  total-add drain_sleepers owners ts,
  total_mono (λ p. drain_sleepers p + owners p) releasers ts each,
)
  where
    each : (p : Position) → drain_sleepers p + owners p ≤ releasers p
    each (locking drained) = omega arith
    each (checking drained) = omega arith
    each (about_to_sleep drained) = omega arith
    each (asleep drained) = omega arith
    each p = omega arith

module _ (ts : List Position) (i : ℕ) {p : Position} (q : Position)
    (at : get_elem? ts i ≡ some p) where
  set-Change :
      Change p q
        (total guards ts)
        (total releasers ts)
        (total owners ts)
        (total holders ts)
        (total notifiers ts)
        (total announcers ts)
        (total drain_sleepers ts)
        (total flag_sleepers ts)
        (total guards (set ts i q))
        (total releasers (set ts i q))
        (total owners (set ts i q))
        (total holders (set ts i q))
        (total notifiers (set ts i q))
        (total announcers (set ts i q))
        (total drain_sleepers (set ts i q))
        (total flag_sleepers (set ts i q))
  set-Change = record {
    guards_change = total-set guards ts i q at;
    releasers_change = total-set releasers ts i q at;
    owners_change = total-set owners ts i q at;
    holders_change = total-set holders ts i q at;
    notifiers_change = total-set notifiers ts i q at;
    announcers_change = total-set announcers ts i q at;
    drains_change = total-set drain_sleepers ts i q at;
    flags_change = total-set flag_sleepers ts i q at;
    before = sleepers-le-releasers ts;
    after = sleepers-le-releasers (set ts i q);
  }

-- What a thread remembers after a step is true of the word at that step.
Local-Sane :
    {s t : CapturedGraphLeaseState} {p q : Position} {g r o h n a d f : ℕ}
    → Balanced s g r o h n a d f
    → guards p ≤ g
    → Local s p t q
    → Sane q
Local-Sane b k (load_run e x) = ltb→lt _ _ x
Local-Sane b k (load_release e) = omega (arith, flag_down b e, b.word, b.few)
Local-Sane b k (drops begin_drop) = omega (arith, b.word, b.few, b.one)
Local-Sane b k (drops (observe w e)) = omega (arith, b.word, b.few, b.one)
Local-Sane b k other = tt

-- A weight that waking does not change.
total-woken :
    (w : Position → ℕ) (ts : List Position)
    → ((v : Wait) → w (asleep v) ≡ w (locking v))
    → total w (map woken ts) ≡ total w ts
unfolding total woken
total-woken w [] same = refl
total-woken w (asleep v ∷ ts) same = omega (arith, total-woken w ts same, same v)
total-woken w (p ∷ ts) same = ground (arith, total-woken w ts same)

waking_sleepers :
    (ts : List Position)
    → total drain_sleepers (map woken ts) + total flag_sleepers (map woken ts) ≤ total holders ts
unfolding total woken
waking_sleepers [] = omega arith
waking_sleepers (about_to_sleep (unreleased c) ∷ ts) = omega (arith, waking_sleepers ts)
waking_sleepers (about_to_sleep drained ∷ ts) = omega (arith, waking_sleepers ts)
waking_sleepers (asleep (unreleased c) ∷ ts) = omega (arith, waking_sleepers ts)
waking_sleepers (asleep drained ∷ ts) = omega (arith, waking_sleepers ts)
waking_sleepers (p ∷ ts) = omega (arith, waking_sleepers ts)

woken-Sane : (p : Position) → Sane p → Sane (woken p)
unfolding woken
woken-Sane (asleep w) h = tt
woken-Sane p h = h

-- A thread that holds the lock and has the flag's sum as an idle one notifies and gives it back.
module _ (s : CapturedGraphLeaseState) (ts : List Position) (i : ℕ) (p : Position)
    (b : Balance s ts) (at : get_elem? ts i ≡ some p) where
  abbrev rest : List Position
  rest = map woken (set ts i idle)

  woken-Balance :
      guards p ≡ 0
      → releasers p ≡ 0
      → owners p ≡ 0
      → holders p ≡ 1
      → Balance (record s { locked = false }) rest
  woken-Balance ge re oe he =
      let ts' = set ts i idle in
      let c = set-Change ts i idle at in
      let asleep_gone = waking_sleepers ts' in
      let gw = total-woken guards ts' (λ v. refl) in
      let rw' = total-woken releasers ts' (λ v. elim v [ unreleased k ↦ refl | drained ↦ refl ]) in
      let ow = total-woken owners ts' (λ v. refl) in
      let hw = total-woken holders ts' (λ v. refl) in
      let nw = total-woken notifiers ts' (λ v. refl) in
      record {
        word = omega (arith, b.word, c.guards_change, c.releasers_change);
        one = omega (arith, b.one, c.releasers_change);
        few = omega (arith, b.few, c.guards_change);
        emptied = λ h. omega (arith, b.emptied (omega (arith, c.owners_change)), c.guards_change);
        open_lock = λ e. omega (arith, c.holders_change, b.one_holder);
        held = λ e. absurd (cc);
        one_holder = omega (arith, c.holders_change, b.one_holder);
        drain_woken = λ h. absurd (omega (arith, c.holders_change, b.one_holder));
        flag_woken = λ h. absurd (omega (arith, c.holders_change, b.one_holder));
      }

  rest-Sane :
      ((j : ℕ) (q : Position) → get_elem? ts j ≡ some q → Sane q)
      → (j : ℕ) (q : Position) → get_elem? rest j ≡ some q
      → Sane q
  rest-Sane sane j q e =
      let (q', old, same) = get_elem?-map woken (set ts i idle) j e in
      subst Sane same (
        woken-Sane q' (elim (get_elem?-set_cases ts i j idle old) [
          | inl (here_now, now) ↦ subst Sane now tt
          | inr (away, before) ↦ sane j q' before
        ]))

Step-Inv : {s t : System} → Inv s → Step s t → Inv t
Step-Inv {s} v (acts i {p} {q} at local) = record {
  balance = Local-Balanced v.balance (set-Change s.threads i q at) (v.sane i p at) local;
  sane = λ j q' e. elim (get_elem?-set_cases s.threads i j q e) [
    | inl (same, now) ↦ subst Sane now (Local-Sane v.balance (le-total guards s.threads i at) local)
    | inr (away, before) ↦ v.sane j q' before
  ];
}
Step-Inv {s} v (notifies i at) = record {
  balance = woken-Balance s.lease s.threads i notifying v.balance at refl refl refl refl;
  sane = rest-Sane s.lease s.threads i notifying v.balance at v.sane;
}
Step-Inv {s} v (announces i at) = record {
  balance = woken-Balance s.lease s.threads i announcing v.balance at refl refl refl refl;
  sane = rest-Sane s.lease s.threads i announcing v.balance at v.sane;
}

get_elem?-idle : (n i : ℕ) {p : Position} → get_elem? (replicate n idle) i ≡ some p → idle ≡ p
get_elem?-idle zero i e = absurd (cc)
get_elem?-idle (suc n) zero e = cc
get_elem?-idle (suc n) (suc i) e = get_elem?-idle n i e

start-Inv : (n : ℕ) → Inv (start n)
start-Inv n =
    let none_of = λ (w : Position → ℕ) (e : w idle ≡ 0). total-replicate w n idle e in
    record {
      balance = record {
        word = omega (arith, none_of guards refl, none_of releasers refl);
        one = omega (arith, none_of releasers refl);
        few = omega (arith, none_of guards refl);
        emptied = λ h. none_of guards refl;
        open_lock = λ e. none_of holders refl;
        held = λ e. absurd (cc);
        one_holder = omega (arith, none_of holders refl);
        drain_woken = λ h. absurd (omega (arith, none_of drain_sleepers refl));
        flag_woken = λ h. absurd (omega (arith, none_of flag_sleepers refl));
      };
      sane = λ i p e. subst Sane (get_elem?-idle n i e) tt;
    }

pub Reach-Inv : {n : ℕ} {s : System} → Reach n s → Inv s
Reach-Inv {n} here = start-Inv n
Reach-Inv (later r step) = Step-Inv (Reach-Inv r) step
