-- ===== src/Runtime/Handles/Linked.antt =====
-- The handle table agrees with the buckets.
use st_zrt.Common.{
  ℕ, ◌<◌, ◌≡◌, ◌≢◌, sym, ap, ◌∙◌, subst, inl, inr, Option, none, some, List, [], ◌∷◌, ◌++◌, length,
  get_elem?, lt_of_get_elem?, get_elem?-append_left, get_elem?-append_last, get_elem?-snoc_cases,
  ℕ_discrete,
}
use st_zrt.Runtime.{PreparedBucketId, PreparedBucketSlot}
use st_zrt.Runtime.Handles.{Handles, no_handles}

abbrev pub at : ℕ → ℕ → PreparedBucketId
at s g = record { slot = s; generation = g }

abbrev pub entry : ℕ → Option ℕ → PreparedBucketSlot
entry g o = record { generation = g; bucket_index = o }

-- The table `h` knows the buckets whose ids are `ids`, and the indices of those before `upto`.
pub record Linked (h : Handles) (ids : List PreparedBucketId) (upto : ℕ) : Type 0 where
  pub present :
      (j : ℕ) (id : PreparedBucketId)
      → get_elem? ids j ≡ some id
      → (k : ℕ) × (get_elem? h.slots id.slot ≡ some (entry id.generation (some k)))
        × (j < upto → k ≡ j)
  pub owned :
      (s g k : ℕ)
      → get_elem? h.slots s ≡ some (entry g (some k))
      → (j : ℕ) × (get_elem? ids j ≡ some (at s g))
  pub distinct :
      (i j : ℕ) (a b : PreparedBucketId)
      → get_elem? ids i ≡ some a
      → get_elem? ids j ≡ some b
      → a.slot ≡ b.slot
      → i ≡ j
  pub free_idle :
      (k s : ℕ)
      → get_elem? h.free k ≡ some s
      → (g : ℕ) × (get_elem? h.slots s ≡ some (entry g none))
  pub free_distinct :
      (i j s : ℕ) → get_elem? h.free i ≡ some s → get_elem? h.free j ≡ some s → i ≡ j

pub no_handles-Linked : Linked no_handles [] 0
no_handles-Linked = record {
  present = λ j id e. absurd (cc);
  owned = λ s g k e. absurd (cc);
  distinct = λ i j a b e f q. absurd (cc);
  free_idle = λ k s e. absurd (cc);
  free_distinct = λ i j s e f. absurd (cc);
}

-- The bucket that a new entry at `slot` is for is the last one.
pub link_new :
    (h h' : Handles) (ids : List PreparedBucketId) (slot g : ℕ)
    → Linked h ids (length ids)
    → get_elem? h'.slots slot ≡ some (entry g (some (length ids)))
    → ((s : ℕ) → slot ≢ s → get_elem? h'.slots s ≡ get_elem? h.slots s)
    → ((k : ℕ) (g' : ℕ) → get_elem? h.slots slot ≢ some (entry g' (some k)))
    → ((k s : ℕ)
        → get_elem? h'.free k ≡ some s
        → (slot ≢ s) × (l : ℕ) × (get_elem? h.free l ≡ some s))
    → ((i j s : ℕ) → get_elem? h'.free i ≡ some s → get_elem? h'.free j ≡ some s → i ≡ j)
    → Linked h' (ids ++ at slot g ∷ []) (length (ids ++ at slot g ∷ []))
link_new h h' ids slot g l here there was_idle from_free distinct = record {
  present = λ j id e. elim (get_elem?-snoc_cases ids (at slot g) j e) [
    | inl old ↦
        let (k, found, index) = l.present j id old in
        (
          k,
          there id.slot (λ same. other j id old same) ∙ found,
          λ _. index (lt_of_get_elem? ids j old),
        )
    | inr (last, same) ↦ (
      length ids,
      subst
          (λ (i : PreparedBucketId).
            get_elem? h'.slots i.slot ≡ some (entry i.generation (some (length ids))))
          same here,
      λ _. sym last,
    )
  ];
  owned = λ s g' k e. elim (ℕ_discrete slot s) [
    | yes same ↦
        let e' : get_elem? h'.slots slot ≡ some (entry g' (some k)) =
          ap (get_elem? h'.slots) same ∙ e in
        let gens : g ≡ g' = cc (here, e') in
        (length ids, get_elem?-append_last ids (at slot g) ∙ ap some (cc (same, gens)))
    | no away ↦
        let (j, found) = l.owned s g' k (sym (there s away) ∙ e) in
        (j, get_elem?-append_left ids (at slot g ∷ []) j (lt_of_get_elem? ids j found) ∙ found)
  ];
  distinct = λ i j a b e f q. elim (get_elem?-snoc_cases ids (at slot g) i e) [
    | inl old_i ↦ elim (get_elem?-snoc_cases ids (at slot g) j f) [
      | inl old_j ↦ l.distinct i j a b old_i old_j q
      | inr (_, same) ↦ absurd (other i a old_i (ap (λ x. x.slot) same ∙ sym q))
    ]
    | inr (last_i, same_i) ↦ elim (get_elem?-snoc_cases ids (at slot g) j f) [
      | inl old_j ↦ absurd (other j b old_j (ap (λ x. x.slot) same_i ∙ q))
      | inr (last_j, _) ↦ last_i ∙ sym last_j
    ]
  ];
  free_idle = λ k s e.
      let (away, i, e') = from_free k s e in
      let (g', idle) = l.free_idle i s e' in (g', there s away ∙ idle);
  free_distinct = distinct;
}
  where
    other : (j : ℕ) (id : PreparedBucketId) → get_elem? ids j ≡ some id → slot ≢ id.slot
    other j id e same =
        let (k, found, _) = l.present j id e in
        was_idle k id.generation (ap (get_elem? h.slots) same ∙ found)
