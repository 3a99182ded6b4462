-- ===== src/Runtime/Handles/Allocate.antt =====
-- A new handle keeps the table right.
use st_zrt.Common.{
  ℕ, suc, ◌<◌, ◌≡◌, ◌≢◌, sym, ap, ◌∙◌, ◌⊎◌, inl, inr, none, some, List, [], ◌∷◌, ◌++◌, arith,
  length, get_elem?, set, u32_max, leb, ok, err, Option-cases, Bool-cases, List-cases,
  lt_of_get_elem?, get_elem?-append_left, get_elem?-append_last, get_elem?-snoc_cases,
  get_elem?-set_self, get_elem?-set_ne,
}
use st_zrt.Runtime.{PreparedBucketId}
use st_zrt.Runtime.Handles.{Handles, slots_exhausted, allocate_prepared_bucket_id}
use st_zrt.Runtime.Handles.Linked.{Linked, at, entry, link_new}

grow-Linked :
    (h : Handles) (ids : List PreparedBucketId)
    → Linked h ids (length ids)
    → let id = at (length h.slots) 1 in
      Linked
        (record h { slots = h.slots ++ entry 1 (some (length ids)) ∷ [] })
        (ids ++ id ∷ [])
        (length (ids ++ id ∷ []))
grow-Linked h ids l =
    let grown : Handles = record h { slots = h.slots ++ entry 1 (some (length ids)) ∷ [] } in
    link_new h grown ids (length h.slots) 1 l
      (get_elem?-append_last h.slots (entry 1 (some (length ids))))
      (λ s away. elim (Option-cases (get_elem? h.slots s)) [
        | inl missing ↦ beyond s away missing
        | inr (e, found) ↦
            get_elem?-append_left h.slots (entry 1 (some (length ids)) ∷ []) s
              (lt_of_get_elem? h.slots s found)
      ])
      (λ k g' e. omega (arith, lt_of_get_elem? h.slots (length h.slots) e))
      (λ k s e.
        let (g, idle) = l.free_idle k s e in
        (λ same. omega (arith, same, lt_of_get_elem? h.slots s idle), k, e))
      l.free_distinct
  where
    beyond :
        (s : ℕ)
        → length h.slots ≢ s
        → get_elem? h.slots s ≡ none
        → get_elem? (h.slots ++ entry 1 (some (length ids)) ∷ []) s ≡ get_elem? h.slots s
    beyond s away missing =
        elim (Option-cases (get_elem? (h.slots ++ entry 1 (some (length ids)) ∷ []) s)) [
          | inl out ↦ out ∙ sym missing
          | inr (e, found) ↦
              elim (get_elem?-snoc_cases h.slots (entry 1 (some (length ids))) s found) [
                | inl old ↦ absurd (cc (old, missing))
                | inr (last, _) ↦ absurd (away (sym last))
              ]
        ]

reuse-Linked :
    (h : Handles) (ids : List PreparedBucketId) (slot g : ℕ) (rest : List ℕ)
    → Linked h ids (length ids)
    → h.free ≡ slot ∷ rest
    → get_elem? h.slots slot ≡ some (entry g none)
    → let id = at slot g in
      Linked
        (record { slots = set h.slots slot (entry g (some (length ids))); free = rest })
        (ids ++ id ∷ [])
        (length (ids ++ id ∷ []))
reuse-Linked h ids slot g rest l free idle =
    let reused : Handles = record {
      slots = set h.slots slot (entry g (some (length ids)));
      free = rest;
    } in
    link_new h reused ids slot g l
      (get_elem?-set_self h.slots slot _ (lt_of_get_elem? h.slots slot idle))
      (λ s away. get_elem?-set_ne h.slots slot s _ away) (λ k g' e. cc (idle, e))
      (λ k s e. (
        λ same. omega (arith, l.free_distinct 0 (suc k) s (first same) (later k s e)),
        suc k,
        later k s e,
      ))
      (λ i j s e f. omega (arith, l.free_distinct (suc i) (suc j) s (later i s e) (later j s f)))
  where
    later : (k s : ℕ) → get_elem? rest k ≡ some s → get_elem? h.free (suc k) ≡ some s
    later k s e = rw free e

    first : {s : ℕ} → slot ≡ s → get_elem? h.free 0 ≡ some s
    first same = rw free (ap some same)

-- On a table that knows all buckets, a new bucket at the end gets a handle and the table then knows
-- it too, or the 2^32 slots are used up and nothing changes: a free slot is never inconsistent.
pub allocate-Linked :
    (h : Handles) (ids : List PreparedBucketId)
    → Linked h ids (length ids)
    → ((h' : Handles) × (id : PreparedBucketId) × (allocate_prepared_bucket_id h (length ids)
          ≡ (h', ok id))
        × Linked h' (ids ++ id ∷ []) (length (ids ++ id ∷ [])))
      ⊎ ((allocate_prepared_bucket_id h (length ids) ≡ (h, err slots_exhausted))
          × (u32_max < length h.slots))
unfolding allocate_prepared_bucket_id
allocate-Linked h ids l = elim (List-cases h.free) [
  | inl used_up ↦ elim (Bool-cases (leb (length h.slots) u32_max)) [
    | inl fits ↦ inl (_, _, ground (arith, used_up, fits), grow-Linked h ids l)
    | inr full ↦ inr (ground (arith, used_up, full), ground arith)
  ]
  | inr (slot, rest, free) ↦
      let (g, idle) = l.free_idle 0 slot (rw free) in
      inl (
        _,
        _,
        rw (allocate_prepared_bucket_id, free, idle),
        reuse-Linked h ids slot g rest l free idle,
      )
]
