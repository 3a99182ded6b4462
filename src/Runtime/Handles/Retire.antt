-- ===== src/Runtime/Handles/Retire.antt =====
-- The retirement of ids and of buckets keeps the table right.
use st_zrt.Common.{
  ℕ, zero, suc, ◌-◌, ◌<◌, ◌≡◌, ◌≢◌, refl, sym, ap, ◌∙◌, ◌⊎◌, inl, inr, none, some, List, [], ◌∷◌,
  arith, length, get_elem?, u32_max, ltb, Bool-cases, lt_of_get_elem?, get_elem?-set_self,
  get_elem?-set_ne, ℕ_discrete, swap_remove, swap_remove_cases, swap_remove_kept, ==_refl,
}
use st_zrt.Runtime.{PreparedBucketId}
use st_zrt.Runtime.Handles.{Handles, retire_entry, retire_prepared_bucket_id, retire_each}
use st_zrt.Runtime.Handles.Linked.{Linked, at, entry}

-- What the retirement of a bucket's id does to the table: its slot is idle, with a higher generation
-- and in the free list, or with the last generation and in the free list no more; nothing else
-- changes.
pub record Retires (h h' : Handles) (id : PreparedBucketId) : Type 0 where
  pub gone : (g : ℕ) × (get_elem? h'.slots id.slot ≡ some (entry g none))
  pub others : (s : ℕ) → id.slot ≢ s → get_elem? h'.slots s ≡ get_elem? h.slots s
  pub freed :
      ((get_elem? h'.slots id.slot ≡ some (entry (suc id.generation) none))
        × (h'.free ≡ id.slot ∷ h.free))
      ⊎ ((get_elem? h'.slots id.slot ≡ some (entry id.generation none)) × (h'.free ≡ h.free))

pub retire-Retires :
    (h : Handles) (id : PreparedBucketId) {k : ℕ}
    → get_elem? h.slots id.slot ≡ some (entry id.generation (some k))
    → Retires h (retire_prepared_bucket_id h id) id
unfolding retire_prepared_bucket_id retire_entry
retire-Retires h id {k} e =
    let inside = lt_of_get_elem? h.slots id.slot e in
    elim (Bool-cases (ltb id.generation u32_max)) [
      | inl more ↦
          rw (retire_prepared_bucket_id, e, ==_refl id.generation, retire_entry, more)
            (record {
              gone = (suc id.generation, get_elem?-set_self h.slots id.slot _ inside);
              others = λ s away. get_elem?-set_ne h.slots id.slot s _ away;
              freed = inl (get_elem?-set_self h.slots id.slot _ inside, refl);
            })
      | inr last ↦
          rw (retire_prepared_bucket_id, e, ==_refl id.generation, retire_entry, last)
            (record {
              gone = (id.generation, get_elem?-set_self h.slots id.slot _ inside);
              others = λ s away. get_elem?-set_ne h.slots id.slot s _ away;
              freed = inr (get_elem?-set_self h.slots id.slot _ inside, refl);
            })
    ]

-- After the retirement of the id at `index`, the table knows any list of the other ids, and the
-- indices that have not moved.
retire_from :
    (h : Handles) (ids ids' : List PreparedBucketId) (index upto upto' : ℕ) (id : PreparedBucketId)
    → Linked h ids upto
    → get_elem? ids index ≡ some id
    → ((j : ℕ) (a : PreparedBucketId)
        → get_elem? ids' j ≡ some a
        → (o : ℕ) × (get_elem? ids o ≡ some a) × (index ≢ o) × (j < upto' → (o < upto) × (o ≡ j)))
    → ((o : ℕ) (a : PreparedBucketId)
        → get_elem? ids o ≡ some a
        → index ≢ o
        → (j : ℕ) × (get_elem? ids' j ≡ some a))
    → ((i j : ℕ) (a : PreparedBucketId)
        → get_elem? ids' i ≡ some a
        → get_elem? ids' j ≡ some a
        → i ≡ j)
    → Linked (retire_prepared_bucket_id h id) ids' upto'
retire_from h ids ids' index upto upto' id l e origin kept once = record {
  present = λ j a f.
      let (o, old, away, unmoved) = origin j a f in
      let (k, found, known) = l.present o a old in
      (
        k,
        r.others a.slot (apart o a old away) ∙ found,
        λ before. let (early, same) = unmoved before in known early ∙ same,
      );
  owned = λ s g k f. elim (ℕ_discrete id.slot s) [
    | yes same ↦ absurd (cc (r.gone.1, f, ap (get_elem? h'.slots) same))
    | no away ↦
        let (j, found) = l.owned s g k (sym (r.others s away) ∙ f) in
        kept j (at s g) found (λ same. away (same_slot j s g found same))
  ];
  distinct = λ i j a b f f' q.
      let (o, old, _, _) = origin i a f in
      let (o', old', _, _) = origin j b f' in
      let equal : a ≡ b = cc (old, old', ap (get_elem? ids) (l.distinct o o' a b old old' q)) in
      once i j b (f ∙ ap some equal) f';
  free_idle = λ k s f. elim r.freed [
    | inl (now, grown) ↦ in_grown k s now (rw grown at f)
    | inr (_, kept) ↦ still_idle k s (rw kept at f)
  ];
  free_distinct = λ i j s f f'. elim r.freed [
    | inl (now, grown) ↦ grown_distinct i j s (rw grown at f) (rw grown at f')
    | inr (_, kept) ↦ l.free_distinct i j s (rw kept at f) (rw kept at f')
  ];
}
  where
    h' : Handles
    h' = retire_prepared_bucket_id h id

    here : (k : ℕ) × (get_elem? h.slots id.slot ≡ some (entry id.generation (some k)))
    here = let (k, found, _) = l.present index id e in (k, found)

    r : Retires h h' id
    r = retire-Retires h id here.1

    same_slot : (j s g : ℕ) → get_elem? ids j ≡ some (at s g) → index ≡ j → id.slot ≡ s
    same_slot j s g found same =
        let equal : id ≡ at s g = cc (e, found, ap (get_elem? ids) same) in
        ap (λ (x : PreparedBucketId). x.slot) equal

    apart : (o : ℕ) (a : PreparedBucketId) → get_elem? ids o ≡ some a → index ≢ o → id.slot ≢ a.slot
    apart o a f away q = away (l.distinct index o id a e f q)

    not_free : (k s : ℕ) → get_elem? h.free k ≡ some s → id.slot ≢ s
    not_free k s f same =
        let (g, idle) = l.free_idle k s f in cc (idle, here.1, ap (get_elem? h.slots) same)

    still_idle :
        (k s : ℕ)
        → get_elem? h.free k ≡ some s
        → (g : ℕ) × (get_elem? h'.slots s ≡ some (entry g none))
    still_idle k s f = let (g, idle) = l.free_idle k s f in (g, r.others s (not_free k s f) ∙ idle)

    in_grown :
        (k s : ℕ)
        → get_elem? h'.slots id.slot ≡ some (entry (suc id.generation) none)
        → get_elem? (id.slot ∷ h.free) k ≡ some s
        → (g : ℕ) × (get_elem? h'.slots s ≡ some (entry g none))
    in_grown zero s now f = (suc id.generation, cc (now, f))
    in_grown (suc k) s now f = still_idle k s f

    grown_distinct :
        (i j s : ℕ)
        → get_elem? (id.slot ∷ h.free) i ≡ some s
        → get_elem? (id.slot ∷ h.free) j ≡ some s
        → i ≡ j
    grown_distinct zero zero s f f' = refl
    grown_distinct zero (suc j) s f f' = absurd (not_free j s f' (cc))
    grown_distinct (suc i) zero s f f' = absurd (not_free i s f (cc))
    grown_distinct (suc i) (suc j) s f f' = ap suc (l.free_distinct i j s f f')

-- After the retirement of the id at `index` and the removal of its bucket, the table knows the other
-- buckets, and the indices of those before the place of the removed one.
pub retire-Linked :
    (h : Handles) (ids : List PreparedBucketId) (index : ℕ) (id : PreparedBucketId)
    → Linked h ids (length ids)
    → get_elem? ids index ≡ some id
    → Linked (retire_prepared_bucket_id h id) (swap_remove ids index) index
retire-Linked h ids index id l e =
    retire_from h ids (swap_remove ids index) index (length ids) index id l e origin
      (λ o a f away. swap_remove_kept ids index o (lt_of_get_elem? ids index e) f away) once
  where
    origin :
        (j : ℕ) (a : PreparedBucketId)
        → get_elem? (swap_remove ids index) j ≡ some a
        → (o : ℕ) × (get_elem? ids o ≡ some a)
          × (index ≢ o)
          × (j < index → (o < length ids) × (o ≡ j))
    origin j a f =
        let (before, from) = swap_remove_cases ids index j f in
        elim from [
          | inl (at_index, last) ↦ (
            length ids - 1,
            last,
            λ q. omega (arith, at_index, q, before),
            λ q. absurd (omega (arith, q, at_index)),
          )
          | inr (away, same) ↦ (j, same, away, λ _. (omega (arith, before), refl))
        ]

    once :
        (i j : ℕ) (a : PreparedBucketId)
        → get_elem? (swap_remove ids index) i ≡ some a
        → get_elem? (swap_remove ids index) j ≡ some a
        → i ≡ j
    once i j a f f' =
        let (before_i, from_i) = swap_remove_cases ids index i f in
        let (before_j, from_j) = swap_remove_cases ids index j f' in
        elim from_i [
          | inl (here_i, last_i) ↦ elim from_j [
            | inl (here_j, _) ↦ sym here_i ∙ here_j
            | inr (_, at_j) ↦ absurd (omega (arith, l.distinct _ j a a last_i at_j refl, before_j))
          ]
          | inr (_, at_i) ↦ elim from_j [
            | inl (_, last_j) ↦
                absurd (omega (arith, l.distinct i _ a a at_i last_j refl, before_i))
            | inr (_, at_j) ↦ l.distinct i j a a at_i at_j refl
          ]
        ]

pub retire_first-Linked :
    (h : Handles) (id : PreparedBucketId) (ids : List PreparedBucketId)
    → Linked h (id ∷ ids) 0
    → Linked (retire_prepared_bucket_id h id) ids 0
retire_first-Linked h id ids l =
    retire_from h (id ∷ ids) ids 0 0 0 id l refl
      (λ j a f. (suc j, f, (λ q. omega (arith, q)), λ q. absurd (omega (arith, q))))
      (λ o a f away. elim (Zero-cases o) [
        | inl first ↦ absurd (away (sym first))
        | inr (k, next) ↦ (k, rw next at f)
      ])
      (λ i j a f f'. omega (arith, l.distinct (suc i) (suc j) a a f f' refl))
  where
    Zero-cases : (n : ℕ) → (n ≡ 0) ⊎ ((k : ℕ) × (n ≡ suc k))
    Zero-cases zero = inl refl
    Zero-cases (suc n) = inr (n, refl)

-- After the retirement of every id the table knows no bucket.
pub retire_each-Linked :
    (ids : List PreparedBucketId) (h : Handles) → Linked h ids 0 → Linked (retire_each h ids) [] 0
unfolding retire_each
retire_each-Linked [] h l = l
retire_each-Linked (id ∷ ids) h l =
    retire_each-Linked ids (retire_prepared_bucket_id h id) (retire_first-Linked h id ids l)
