-- ===== src/Runtime/Handles/Keeps.antt =====
-- Generations only grow.
use st_zrt.Common.{
  ℕ, zero, suc, ◌<◌, ◌≡◌, ◌≢◌, refl, sym, ap, ◌∙◌, subst, ◌⊎◌, inl, inr, Option, none, some, List,
  [], ◌∷◌, ◌++◌, arith, length, get_elem?, set, u32_max, leb, Option-cases, Bool-cases, List-cases,
  lt_of_get_elem?, get_elem?-append_left, get_elem?-set_self, get_elem?-set_ne, ℕ_discrete, ==_refl,
}
use st_zrt.Runtime.{PreparedBucketId}
use st_zrt.Runtime.Handles.{
  Handles, allocate_prepared_bucket_id, retire_prepared_bucket_id, retire_each, repair_one,
  repair_rest, skip, repair_prepared_bucket_indices_from,
}
use st_zrt.Runtime.Handles.Linked.{Linked, entry}
use st_zrt.Runtime.Handles.Retire.{Retires, retire-Retires, retire_first-Linked}
use st_zrt.Runtime.Handles.Repair.{repair_one-Linked, skip_next}

abbrev pub Unlisted : Handles → ℕ → Type 0
Unlisted h s = (k : ℕ) → get_elem? h.free k ≢ some s

-- Every slot keeps its generation or gets a later one, and an idle slot that is not free stays so.
pub record Keeps (h h' : Handles) : Type 0 where
  pub ages :
      (s g : ℕ) (o : Option ℕ)
      → get_elem? h.slots s ≡ some (entry g o)
      → (g' : ℕ) × (o' : Option ℕ) × (get_elem? h'.slots s ≡ some (entry g' o'))
        × ((g < g') ⊎ ((g' ≡ g) × (o ≡ none → Unlisted h s → (o' ≡ none) × Unlisted h' s)))

pub Keeps-refl : (h : Handles) → Keeps h h
Keeps-refl h = record { ages = λ s g o e. (g, o, e, inr (refl, λ idle out. (idle, out))) }

pub Keeps-trans : {h h' h'' : Handles} → Keeps h h' → Keeps h' h'' → Keeps h h''
Keeps-trans p q = record {
  ages = λ s g o e.
      let (g', o', e', first) = p.ages s g o e in
      let (g'', o'', e'', second) = q.ages s g' o' e' in
      (
        g'',
        o'',
        e'',
        elim first [
          | inl older ↦ inl (elim second [
            | inl more ↦ omega (arith, older, more)
            | inr (same, _) ↦ omega (arith, older, same)
          ])
          | inr (same, kept) ↦ elim second [
            | inl more ↦ inl (omega (arith, same, more))
            | inr (same', kept') ↦
                inr
                  (same' ∙ same, λ idle out. let (idle', out') = kept idle out in kept' idle' out')
          ]
        ],
      );
}

-- A change of one slot that keeps its generation, while no new slot becomes free.
change_one :
    (h h' : Handles) (slot g : ℕ) (o o' : Option ℕ)
    → get_elem? h.slots slot ≡ some (entry g o)
    → get_elem? h'.slots slot ≡ some (entry g o')
    → ((s : ℕ) → slot ≢ s → get_elem? h'.slots s ≡ get_elem? h.slots s)
    → ((s : ℕ) → Unlisted h s → Unlisted h' s)
    → (o ≡ none → Unlisted h slot → o' ≡ none)
    → Keeps h h'
change_one h h' slot g o o' old new others lists idle = record {
  ages = λ s x y e. elim (ℕ_discrete slot s) [
    | yes same ↦
        let at_slot : get_elem? h.slots slot ≡ some (entry x y) = ap (get_elem? h.slots) same ∙ e in
        let gens : g ≡ x = cc (old, at_slot) in
        let values : o ≡ y = cc (old, at_slot) in
        (
          g,
          o',
          sym (ap (get_elem? h'.slots) same) ∙ new,
          inr (
            gens,
            λ empty out. (idle (values ∙ empty) (subst (Unlisted h) (sym same) out), lists s out),
          ),
        )
    | no away ↦ (x, y, others s away ∙ e, inr (refl, λ empty out. (empty, lists s out)))
  ];
}

pub retire-Keeps :
    (h : Handles) (id : PreparedBucketId) {k : ℕ}
    → get_elem? h.slots id.slot ≡ some (entry id.generation (some k))
    → Keeps h (retire_prepared_bucket_id h id)
retire-Keeps h id {k} e = record {
  ages = λ s g o f. elim (ℕ_discrete id.slot s) [
    | yes same ↦
        let at_slot : get_elem? h.slots id.slot ≡ some (entry g o) =
          ap (get_elem? h.slots) same ∙ f in
        let gens : id.generation ≡ g = cc (e, at_slot) in
        let held : some k ≡ o = cc (e, at_slot) in
        elim r.freed [
          | inl (now, _) ↦ (
            suc id.generation,
            none,
            sym (ap (get_elem? h'.slots) same) ∙ now,
            inl (omega (arith, gens)),
          )
          | inr (now, _) ↦ (
            id.generation,
            none,
            sym (ap (get_elem? h'.slots) same) ∙ now,
            inr (gens, λ empty out. absurd (cc (held, empty))),
          )
        ]
    | no away ↦ (
      g,
      o,
      r.others s away ∙ f,
      inr (
        refl,
        λ empty out. (
          empty,
          λ j listed. elim r.freed [
            | inl (_, grown) ↦ elsewhere j s away out (rw grown at listed)
            | inr (_, kept) ↦ out j (rw kept at listed)
          ],
        ),
      ),
    )
  ];
}
  where
    h' : Handles
    h' = retire_prepared_bucket_id h id

    r : Retires h h' id
    r = retire-Retires h id e

    elsewhere : (j s : ℕ) → id.slot ≢ s → Unlisted h s → get_elem? (id.slot ∷ h.free) j ≢ some s
    elsewhere zero s away out listed = away (cc)
    elsewhere (suc j) s away out listed = out j listed

repair_one-Keeps :
    (h : Handles) (ids : List PreparedBucketId) (i : ℕ) (id : PreparedBucketId)
    → Linked h ids i
    → get_elem? ids i ≡ some id
    → Keeps h (repair_one h i id)
unfolding repair_one
repair_one-Keeps h ids i id l e =
    let (k, found, _) = l.present i id e in
    let inside = lt_of_get_elem? h.slots id.slot found in
    rw (repair_one, found, ==_refl id.generation)
      (change_one h (record h { slots = set h.slots id.slot (entry id.generation (some i)) })
        id.slot id.generation (some k) (some i) found (get_elem?-set_self h.slots id.slot _ inside)
        (λ s away. get_elem?-set_ne h.slots id.slot s _ away) (λ s out. out)
        (λ q _. absurd (cc (q))))

repair_rest-Keeps :
    (rest ids : List PreparedBucketId) (h : Handles) (i : ℕ)
    → skip i ids ≡ rest
    → Linked h ids i
    → Keeps h (repair_rest h i rest)
unfolding repair_rest
repair_rest-Keeps [] ids h i e l = Keeps-refl h
repair_rest-Keeps (id ∷ rest) ids h i e l =
    let (at_i, next) = skip_next i ids id rest e in
    Keeps-trans (repair_one-Keeps h ids i id l at_i) (
      repair_rest-Keeps rest ids (repair_one h i id) (suc i) next
        (repair_one-Linked h ids i id l at_i))

pub repair-Keeps :
    (h : Handles) (ids : List PreparedBucketId) (start : ℕ)
    → Linked h ids start
    → Keeps h (repair_prepared_bucket_indices_from h ids start)
unfolding repair_prepared_bucket_indices_from
repair-Keeps h ids start l = repair_rest-Keeps (skip start ids) ids h start refl l

pub retire_each-Keeps :
    (ids : List PreparedBucketId) (h : Handles) → Linked h ids 0 → Keeps h (retire_each h ids)
unfolding retire_each
retire_each-Keeps [] h l = Keeps-refl h
retire_each-Keeps (id ∷ ids) h l =
    let (k, found, _) = l.present 0 id refl in
    Keeps-trans (retire-Keeps h id found)
      (retire_each-Keeps ids (retire_prepared_bucket_id h id) (retire_first-Linked h id ids l))

leads_to :
    (h h' : Handles) (index : ℕ)
    → (allocate_prepared_bucket_id h index).0 ≡ h'
    → Keeps h h'
    → Keeps h (allocate_prepared_bucket_id h index).0
leads_to h h' index same p = subst (Keeps h) (sym same) p

pop_free :
    (h : Handles) (slot : ℕ) (rest : List ℕ)
    → h.free ≡ slot ∷ rest
    → Keeps h (record h { free = rest })
pop_free h slot rest free = record {
  ages = λ s g o e.
      (g, o, e, inr (refl, λ empty out. (empty, λ k listed. out (suc k) (rw free listed))));
}

pub allocate-Keeps : (h : Handles) (index : ℕ) → Keeps h (allocate_prepared_bucket_id h index).0
unfolding allocate_prepared_bucket_id
allocate-Keeps h index = elim (List-cases h.free) [
  | inl used_up ↦ elim (Bool-cases (leb (length h.slots) u32_max)) [
    | inl fits ↦
        leads_to h (record h { slots = h.slots ++ entry 1 (some index) ∷ [] }) index
          (ground (arith, used_up, fits))
          (record {
            ages = λ s g o e. (
              g,
              o,
              get_elem?-append_left h.slots (entry 1 (some index) ∷ []) s
                    (lt_of_get_elem? h.slots s e)
                  ∙ e,
              inr (refl, λ empty out. (empty, out)),
            );
          })
    | inr full ↦ leads_to h h index (ground (arith, used_up, full)) (Keeps-refl h)
  ]
  | inr (slot, rest, free) ↦
      let popped = pop_free h slot rest free in
      elim (Option-cases (get_elem? h.slots slot)) [
        | inl missing ↦
            leads_to h (record h { free = rest }) index (ground (arith, free, missing)) popped
        | inr (e, found) ↦ elim (Option-cases e.bucket_index) [
          | inr (i, busy) ↦
              leads_to h (record h { free = rest }) index (ground (arith, free, found, busy)) popped
          | inl idle ↦
              let reused : Handles = record {
                slots = set h.slots slot (entry e.generation (some index));
                free = rest;
              } in
              leads_to h reused index (ground (arith, free, found, idle)) (
                change_one h reused slot e.generation none (some index)
                  (found ∙ ap some (ap (entry e.generation) idle))
                  (get_elem?-set_self h.slots slot _ (lt_of_get_elem? h.slots slot found))
                  (λ s away. get_elem?-set_ne h.slots slot s _ away)
                  (λ s out k listed. out (suc k) (rw free listed))
                  (λ _ out. absurd (out 0 (rw free))))
        ]
      ]
]
