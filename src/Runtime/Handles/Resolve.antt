-- ===== src/Runtime/Handles/Resolve.antt =====
-- A handle resolves to the bucket that has it.
use st_zrt.Common.{
  ℕ, ◌≡◌, ap, ◌∙◌, inl, inr, true, some, List, arith, length, get_elem?, Option-cases, Bool-cases,
  lt_of_get_elem?, ==_refl,
}
use st_zrt.Runtime.{PreparedBucketId, id_eqb}
use st_zrt.Runtime.Handles.{Handles, prepared_bucket_index, entry_index}
use st_zrt.Runtime.Handles.Linked.{Linked}
use st_zrt.Common.{◌↔◌}

id_eqb_refl : (a : PreparedBucketId) → id_eqb a a ≡ true
id_eqb_refl a = ground arith

id_eqb_eq : (a b : PreparedBucketId) → id_eqb a b ≡ true → a ≡ b
id_eqb_eq a b e =
    let slots : a.slot ≡ b.slot = ground arith in
    let gens : a.generation ≡ b.generation = ground arith in cc (slots, gens)

resolved_has_id :
    (h : Handles) (ids : List PreparedBucketId) (id : PreparedBucketId) (i : ℕ)
    → prepared_bucket_index h ids id ≡ some i
    → get_elem? ids i ≡ some id
unfolding prepared_bucket_index
resolved_has_id h ids id i e = elim (Option-cases (entry_index h id)) [
  | inl gone ↦ absurd (cc (rw (prepared_bucket_index, gone) at e))
  | inr (k, found) ↦ elim (Option-cases (get_elem? ids k)) [
    | inl out ↦ absurd (cc (rw (prepared_bucket_index, found, out) at e))
    | inr (other, there) ↦ elim (Bool-cases (id_eqb other id)) [
      | inr different ↦ absurd (cc (rw (prepared_bucket_index, found, there, different) at e))
      | inl equal ↦
          let place : some k ≡ some i = rw (prepared_bucket_index, found, there, equal) at e in
          let same : k ≡ i = cc (place) in
          cc (there, id_eqb_eq other id equal, ap (get_elem? ids) same)
    ]
  ]
]

-- On a table that knows all buckets, a handle resolves to an index exactly when the bucket there has
-- that handle.
pub prepared_bucket_index_iff :
    (h : Handles) (ids : List PreparedBucketId) (id : PreparedBucketId) (i : ℕ)
    → Linked h ids (length ids)
    → (prepared_bucket_index h ids id ≡ some i) ↔ (get_elem? ids i ≡ some id)
unfolding prepared_bucket_index entry_index
prepared_bucket_index_iff h ids id i l = (
  resolved_has_id h ids id i,
  λ e.
      let (k, found, known) = l.present i id e in
      let place : k ≡ i = known (lt_of_get_elem? ids i e) in
      let there : get_elem? ids k ≡ some id = ap (get_elem? ids) place ∙ e in
      rw (prepared_bucket_index, entry_index, found, ==_refl id.generation, there, id_eqb_refl id)
        (ap some place),
)
