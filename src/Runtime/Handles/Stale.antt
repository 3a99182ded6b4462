-- ===== src/Runtime/Handles/Stale.antt =====
-- Which handles resolve, in every table that the operations can reach.
use st_zrt.Common.{
  ◌↔◌, ℕ, suc, ◌<◌, ◌≡◌, refl, ap, ◌∙◌, subst, ◌⊎◌, inl, inr, false, Option, none, some, List, [],
  ◌∷◌, ◌++◌, arith, length, get_elem?, ltb, ◌==◌, ok, err, Bool-cases, swap_remove, ==_refl,
}
use st_zrt.Runtime.{PreparedBucketId}
use st_zrt.Runtime.Handles.{
  Handles, no_handles, HandleError, allocate_prepared_bucket_id, prepared_bucket_index, entry_index,
  retire_prepared_bucket_id, retire_each, forget_at,
}
use st_zrt.Runtime.Handles.Linked.{Linked, entry, no_handles-Linked}
use st_zrt.Runtime.Handles.Allocate.{allocate-Linked}
use st_zrt.Runtime.Handles.Retire.{retire-Retires, retire-Linked, retire_each-Linked}
use st_zrt.Runtime.Handles.Repair.{forget_at-Linked}
use st_zrt.Runtime.Handles.Keeps.{
  Keeps, Unlisted, Keeps-refl, Keeps-trans, allocate-Keeps, retire-Keeps, repair-Keeps,
  retire_each-Keeps,
}
use st_zrt.Runtime.Handles.Resolve.{prepared_bucket_index_iff}

-- The tables and buckets that the operations of a runtime reach from `h` and `ids`.
pub data Later (h : Handles) (ids : List PreparedBucketId)
    : Handles → List PreparedBucketId → Type 0 where
  here : Later h ids h ids
  adds :
      {g g' : Handles} {js : List PreparedBucketId} (id : PreparedBucketId)
      → Later h ids g js
      → allocate_prepared_bucket_id g (length js) ≡ (g', ok id)
      → Later h ids g' (js ++ id ∷ [])
  refuses :
      {g g' : Handles} {js : List PreparedBucketId} (x : HandleError)
      → Later h ids g js
      → allocate_prepared_bucket_id g (length js) ≡ (g', err x)
      → Later h ids g' js
  removes :
      {g : Handles} {js : List PreparedBucketId} (i : ℕ) (id : PreparedBucketId)
      → Later h ids g js
      → get_elem? js i ≡ some id
      → Later h ids (forget_at g js i id) (swap_remove js i)
  clears :
      {g : Handles} {js : List PreparedBucketId}
      → Later h ids g js
      → Later h ids (retire_each g js) []

pub forget_indices :
    {h : Handles} {ids : List PreparedBucketId} {n : ℕ} → Linked h ids n → Linked h ids 0
forget_indices l = record {
  present =
      λ j a f. let (k, found, _) = l.present j a f in (k, found, λ q. absurd (omega (arith, q)));
  owned = l.owned;
  distinct = l.distinct;
  free_idle = l.free_idle;
  free_distinct = l.free_distinct;
}

added-Linked :
    {g g' : Handles} {js : List PreparedBucketId} {id : PreparedBucketId}
    → Linked g js (length js)
    → allocate_prepared_bucket_id g (length js) ≡ (g', ok id)
    → Linked g' (js ++ id ∷ []) (length (js ++ id ∷ []))
added-Linked {g} {g'} {js} {id} l e = elim (allocate-Linked g js l) [
  | inr (full, _) ↦ absurd (cc (e, full))
  | inl (g'', id', e', l') ↦
      let table : g'' ≡ g' = cc (e, e') in
      let handle : id' ≡ id = cc (e, e') in
      subst (λ (x : PreparedBucketId). Linked g' (js ++ x ∷ []) (length (js ++ x ∷ []))) handle
        (subst (λ (x : Handles). Linked x (js ++ id' ∷ []) (length (js ++ id' ∷ []))) table l')
]

refused_same :
    {g g' : Handles} {js : List PreparedBucketId} {x : HandleError}
    → Linked g js (length js)
    → allocate_prepared_bucket_id g (length js) ≡ (g', err x)
    → g ≡ g'
refused_same {g} {g'} {js} l e = elim (allocate-Linked g js l) [
  | inr (full, _) ↦ cc (e, full)
  | inl (g'', id', e', l') ↦ absurd (cc (e, e'))
]

-- Whatever buckets are added, removed or cleared, the table knows all buckets.
pub Later-Linked :
    {h : Handles} {ids : List PreparedBucketId} {g : Handles} {js : List PreparedBucketId}
    → Linked h ids (length ids)
    → Later h ids g js
    → Linked g js (length js)
Later-Linked l here = l
Later-Linked l (adds id p e) = added-Linked (Later-Linked l p) e
Later-Linked l (refuses {g} {g'} {js} x p e) =
    let known = Later-Linked l p in
    subst (λ (t : Handles). Linked t js (length js)) (refused_same known e) known
Later-Linked l (removes {g} {js} i id p e) = forget_at-Linked g js i id (Later-Linked l p) e
Later-Linked l (clears {g} {js} p) = retire_each-Linked js g (forget_indices (Later-Linked l p))

forget_at-Keeps :
    (h : Handles) (ids : List PreparedBucketId) (i : ℕ) (id : PreparedBucketId)
    → Linked h ids (length ids)
    → get_elem? ids i ≡ some id
    → Keeps (retire_prepared_bucket_id h id) (forget_at h ids i id)
unfolding forget_at
forget_at-Keeps h ids i id l e = elim (Bool-cases (ltb i (length (swap_remove ids i)))) [
  | inl inside ↦ simp inside (repair-Keeps _ (swap_remove ids i) i (retire-Linked h ids i id l e))
  | inr last ↦ simp last (Keeps-refl _)
]

retire_listed-Keeps :
    (h : Handles) (ids : List PreparedBucketId) (i : ℕ) (id : PreparedBucketId)
    → Linked h ids (length ids)
    → get_elem? ids i ≡ some id
    → Keeps h (retire_prepared_bucket_id h id)
retire_listed-Keeps h ids i id l e = let (k, found, _) = l.present i id e in retire-Keeps h id found

Later-Keeps :
    {h : Handles} {ids : List PreparedBucketId} {g : Handles} {js : List PreparedBucketId}
    → Linked h ids (length ids)
    → Later h ids g js
    → Keeps h g
Later-Keeps l here = Keeps-refl _
Later-Keeps {h} l (adds {g} {g'} {js} id p e) =
    Keeps-trans (Later-Keeps l p) (subst (Keeps g) (ap (λ r. r.0) e) (allocate-Keeps g (length js)))
Later-Keeps {h} l (refuses {g} {g'} {js} x p e) =
    Keeps-trans (Later-Keeps l p) (subst (Keeps g) (ap (λ r. r.0) e) (allocate-Keeps g (length js)))
Later-Keeps l (removes {g} {js} i id p e) =
    let known = Later-Linked l p in
    Keeps-trans (Later-Keeps l p)
      (Keeps-trans (retire_listed-Keeps g js i id known e) (forget_at-Keeps g js i id known e))
Later-Keeps l (clears {g} {js} p) =
    Keeps-trans (Later-Keeps l p) (retire_each-Keeps js g (forget_indices (Later-Linked l p)))

-- The slot of a dead handle has a later generation, or is idle and will stay so.
Dead : Handles → PreparedBucketId → Type 0
Dead h id =
    (g : ℕ) × (o : Option ℕ) × (get_elem? h.slots id.slot ≡ some (entry g o))
    × ((id.generation < g) ⊎ ((g ≡ id.generation) × (o ≡ none) × Unlisted h id.slot))

Keeps-Dead : {h h' : Handles} (id : PreparedBucketId) → Keeps h h' → Dead h id → Dead h' id
unfolding Dead
Keeps-Dead id p (g, o, e, why) =
    let (g', o', e', aged) = p.ages id.slot g o e in
    (
      g',
      o',
      e',
      elim why [
        | inl older ↦ inl (elim aged [
          | inl more ↦ omega (arith, older, more)
          | inr (same, _) ↦ omega (arith, older, same)
        ])
        | inr (last, idle, out) ↦ elim aged [
          | inl more ↦ inl (omega (arith, last, more))
          | inr (same, kept) ↦ let (idle', out') = kept idle out in inr (same ∙ last, idle', out')
        ]
      ],
    )

retired-Dead :
    (h : Handles) (ids : List PreparedBucketId) (i : ℕ) (id : PreparedBucketId)
    → Linked h ids (length ids)
    → get_elem? ids i ≡ some id
    → Dead (retire_prepared_bucket_id h id) id
unfolding Dead
retired-Dead h ids i id l e =
    let (k, found, _) = l.present i id e in
    let r = retire-Retires h id found in
    elim r.freed [
      | inl (now, _) ↦ (suc id.generation, none, now, inl (omega arith))
      | inr (now, kept) ↦ (
        id.generation,
        none,
        now,
        inr (
          refl,
          refl,
          λ j listed. let (g, idle) = l.free_idle j id.slot (rw kept at listed) in cc (idle, found),
        ),
      )
    ]

Dead-unresolved :
    (h : Handles) (ids : List PreparedBucketId) (id : PreparedBucketId)
    → Dead h id
    → prepared_bucket_index h ids id ≡ none
unfolding Dead prepared_bucket_index entry_index
Dead-unresolved h ids id (g, o, e, why) = elim why [
  | inl older ↦
      let differs : (g == id.generation) ≡ false = ground (arith, older) in
      rw (prepared_bucket_index, entry_index, e, differs)
  | inr (last, idle, _) ↦
      rw (prepared_bucket_index, entry_index, e, last, ==_refl id.generation, idle)
]

-- Once a bucket is removed, its handle resolves to no bucket, whatever buckets are added, removed or
-- cleared afterwards: also when a later bucket has the same slot.
pub stale_handle :
    {h g : Handles} {ids js : List PreparedBucketId} (i : ℕ) (id : PreparedBucketId)
    → Linked h ids (length ids)
    → get_elem? ids i ≡ some id
    → Later (forget_at h ids i id) (swap_remove ids i) g js
    → prepared_bucket_index g js id ≡ none
stale_handle {h} {g} {ids} {js} i id l e p =
    let removed = forget_at-Linked h ids i id l e in
    Dead-unresolved g js id (
      Keeps-Dead id (Later-Keeps removed p)
        (Keeps-Dead id (forget_at-Keeps h ids i id l e) (retired-Dead h ids i id l e)))

-- In every table and list of buckets reached from the empty ones, a handle resolves to an index
-- exactly when the bucket there has that handle.
pub handle_resolves :
    {g : Handles} {js : List PreparedBucketId} (id : PreparedBucketId) (i : ℕ)
    → Later no_handles [] g js
    → (prepared_bucket_index g js id ≡ some i) ↔ (get_elem? js i ≡ some id)
handle_resolves {g} {js} id i p =
    prepared_bucket_index_iff g js id i (Later-Linked no_handles-Linked p)
