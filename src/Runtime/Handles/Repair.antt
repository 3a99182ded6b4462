-- ===== src/Runtime/Handles/Repair.antt =====
-- The repair of indices completes the table.
use st_zrt.Common.{
  ℕ, zero, suc, ◌<◌, ◌≤◌, ◌≡◌, ◌≢◌, refl, ap, ◌∙◌, subst, inl, inr, some, List, [], ◌∷◌, arith,
  length, get_elem?, set, ltb, Bool-cases, lt_of_get_elem?, get_elem?-set_cases, get_elem?-set_self,
  get_elem?-set_ne, ℕ_discrete, swap_remove, ==_refl,
}
use st_zrt.Runtime.{PreparedBucketId, PreparedBucketSlot}
use st_zrt.Runtime.Handles.{
  Handles, repair_one, repair_rest, skip, forget_at, repair_prepared_bucket_indices_from,
}
use st_zrt.Runtime.Handles.Retire.{retire-Linked}
use st_zrt.Runtime.Handles.Linked.{Linked, entry}

pub repair_one-Linked :
    (h : Handles) (ids : List PreparedBucketId) (i : ℕ) (id : PreparedBucketId)
    → Linked h ids i
    → get_elem? ids i ≡ some id
    → Linked (repair_one h i id) ids (suc i)
unfolding repair_one
repair_one-Linked h ids i id l e =
    rw (repair_one, here.1, ==_refl id.generation)
      (record {
        present = λ j a f. elim (ℕ_discrete id.slot a.slot) [
          | yes same ↦
              let equal : id ≡ a = cc (e, f, ap (get_elem? ids) (l.distinct i j id a e f same)) in
              (
                i,
                subst
                    (λ (x : PreparedBucketId).
                      get_elem? slots' x.slot ≡ some (entry x.generation (some i)))
                    equal (get_elem?-set_self h.slots id.slot _ inside),
                λ _. l.distinct i j id a e f same,
              )
          | no away ↦
              let (k, found, known) = l.present j a f in
              (
                k,
                get_elem?-set_ne h.slots id.slot a.slot _ away ∙ found,
                λ before. known (omega (arith, before, apart j a f away)),
              )
        ];
        owned = λ s g k f.
            elim (get_elem?-set_cases h.slots id.slot s (entry id.generation (some i)) f) [
              | inl (same, value) ↦
                  let gens : id.generation ≡ g =
                    ap (λ (x : PreparedBucketSlot). x.generation) value in
                  (i, e ∙ ap some (cc (same, gens)))
              | inr (_, old) ↦ l.owned s g k old
            ];
        distinct = l.distinct;
        free_idle = λ k s f.
            let (g, idle) = l.free_idle k s f in
            (
              g,
              get_elem?-set_ne h.slots id.slot s _
                    (λ same. cc (idle, here.1, ap (get_elem? h.slots) same))
                  ∙ idle,
            );
        free_distinct = l.free_distinct;
      })
  where
    here : (k : ℕ) × (get_elem? h.slots id.slot ≡ some (entry id.generation (some k)))
    here = let (k, found, _) = l.present i id e in (k, found)

    inside : id.slot < length h.slots
    inside = lt_of_get_elem? h.slots id.slot here.1

    slots' : List PreparedBucketSlot
    slots' = set h.slots id.slot (entry id.generation (some i))

    apart : (j : ℕ) (a : PreparedBucketId) → get_elem? ids j ≡ some a → id.slot ≢ a.slot → j ≢ i
    apart j a f away same =
        let equal : id ≡ a = cc (e, f, ap (get_elem? ids) same) in
        away (ap (λ (x : PreparedBucketId). x.slot) equal)

pub skip_next :
    (i : ℕ) (ids : List PreparedBucketId) (id : PreparedBucketId) (rest : List PreparedBucketId)
    → skip i ids ≡ id ∷ rest
    → (get_elem? ids i ≡ some id) × (skip (suc i) ids ≡ rest)
skip_next zero [] id rest e = absurd (cc)
skip_next zero (x ∷ ids) id rest e = (cc, cc)
skip_next (suc i) [] id rest e = absurd (cc)
skip_next (suc i) (x ∷ ids) id rest e = skip_next i ids id rest e

skip_none : (i : ℕ) (ids : List PreparedBucketId) → skip i ids ≡ [] → length ids ≤ i
skip_none zero [] e = omega arith
skip_none zero (x ∷ ids) e = absurd (cc)
skip_none (suc i) [] e = omega arith
skip_none (suc i) (x ∷ ids) e = omega (arith, skip_none i ids e)

all_known :
    {h : Handles} {ids : List PreparedBucketId} {i : ℕ} (n : ℕ)
    → length ids ≤ i
    → Linked h ids i
    → Linked h ids n
all_known {h} {ids} {i} n le l = record {
  present = λ j a f.
      let (k, found, known) = l.present j a f in
      (k, found, λ _. known (omega (arith, le, lt_of_get_elem? ids j f)));
  owned = l.owned;
  distinct = l.distinct;
  free_idle = l.free_idle;
  free_distinct = l.free_distinct;
}

repair_rest-Linked :
    (rest ids : List PreparedBucketId) (h : Handles) (i : ℕ)
    → skip i ids ≡ rest
    → Linked h ids i
    → Linked (repair_rest h i rest) ids (length ids)
unfolding repair_rest
repair_rest-Linked [] ids h i e l = all_known (length ids) (skip_none i ids e) l
repair_rest-Linked (id ∷ rest) ids h i e l =
    let (at_i, next) = skip_next i ids id rest e in
    repair_rest-Linked rest ids (repair_one h i id) (suc i) next
      (repair_one-Linked h ids i id l at_i)

-- The repair from an index on completes a table that knows the indices before it.
pub repair-Linked :
    (h : Handles) (ids : List PreparedBucketId) (start : ℕ)
    → Linked h ids start
    → Linked (repair_prepared_bucket_indices_from h ids start) ids (length ids)
unfolding repair_prepared_bucket_indices_from
repair-Linked h ids start l = repair_rest-Linked (skip start ids) ids h start refl l

-- The removal of a bucket leaves a table that knows the others.
pub forget_at-Linked :
    (h : Handles) (ids : List PreparedBucketId) (index : ℕ) (id : PreparedBucketId)
    → Linked h ids (length ids)
    → get_elem? ids index ≡ some id
    → Linked (forget_at h ids index id) (swap_remove ids index) (length (swap_remove ids index))
unfolding forget_at
forget_at-Linked h ids index id l e =
    let known = retire-Linked h ids index id l e in
    elim (Bool-cases (ltb index (length (swap_remove ids index)))) [
      | inl inside ↦ simp inside (repair-Linked _ (swap_remove ids index) index known)
      | inr last ↦ simp last (all_known _ (ground arith) known)
    ]
