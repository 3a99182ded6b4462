-- ===== src/Runtime/Cache/Ids.antt =====
-- The ids of the buckets, and what a resolved handle gives.
use st_zrt.Common.{
  ℕ, zero, suc, ◌-◌, ◌≡◌, refl, sym, ap, ◌∙◌, inl, inr, some, List, [], ◌∷◌, length, get_elem?, set,
  swap_remove, drop_last, Option-cases, arith, get_elem?-some,
}
use st_zrt.Runtime.{PreparedBucketId}
use st_zrt.Runtime.Handles.{prepared_bucket_index}
use st_zrt.Runtime.Cache.{ShapeBucket, Runtime, bucket_ids, resolve}

pub length-bucket_ids : (bs : List ShapeBucket) → length (bucket_ids bs) ≡ length bs
length-bucket_ids [] = refl
length-bucket_ids (b ∷ bs) = ap suc (length-bucket_ids bs)

pub get_elem?-bucket_ids :
    (bs : List ShapeBucket) (i : ℕ) {b : ShapeBucket}
    → get_elem? bs i ≡ some b
    → get_elem? (bucket_ids bs) i ≡ some b.id
get_elem?-bucket_ids [] i e = absurd (cc)
get_elem?-bucket_ids (x ∷ bs) zero {b} e =
    let same : x ≡ b = cc (e) in ap some (ap (λ (y : ShapeBucket). y.id) same)
get_elem?-bucket_ids (x ∷ bs) (suc i) e = get_elem?-bucket_ids bs i e

pub bucket_ids-set :
    (bs : List ShapeBucket) (i : ℕ) (b b' : ShapeBucket)
    → get_elem? bs i ≡ some b
    → b'.id ≡ b.id
    → bucket_ids (set bs i b') ≡ bucket_ids bs
bucket_ids-set [] i b b' e same = refl
bucket_ids-set (x ∷ bs) zero b b' e same =
    let first : x ≡ b = cc (e) in
    ap (λ (k : PreparedBucketId). k ∷ bucket_ids bs)
      (same ∙ ap (λ (y : ShapeBucket). y.id) (sym first))
bucket_ids-set (x ∷ bs) (suc i) b b' e same =
    ap (λ (ks : List PreparedBucketId). x.id ∷ ks) (bucket_ids-set bs i b b' e same)

set_ids :
    (bs : List ShapeBucket) (i : ℕ) (b : ShapeBucket)
    → bucket_ids (set bs i b) ≡ set (bucket_ids bs) i b.id
set_ids [] i b = refl
set_ids (x ∷ bs) zero b = refl
set_ids (x ∷ bs) (suc i) b = ap (λ (ks : List PreparedBucketId). x.id ∷ ks) (set_ids bs i b)

drop_last_ids : (bs : List ShapeBucket) → bucket_ids (drop_last bs) ≡ drop_last (bucket_ids bs)
drop_last_ids [] = refl
drop_last_ids (x ∷ []) = refl
drop_last_ids (x ∷ y ∷ bs) = ap (λ (ks : List PreparedBucketId). x.id ∷ ks) (drop_last_ids (y ∷ bs))

pub bucket_ids-swap_remove :
    (bs : List ShapeBucket) (i : ℕ) → bucket_ids (swap_remove bs i) ≡ swap_remove (bucket_ids bs) i
unfolding swap_remove
bucket_ids-swap_remove [] i = refl
bucket_ids-swap_remove (x ∷ bs) i =
    let (last, at) = get_elem?-some (x ∷ bs) (length (x ∷ bs) - 1) (omega arith) in
    let at_ids : get_elem? (bucket_ids (x ∷ bs)) (length (bucket_ids (x ∷ bs)) - 1) ≡ some last.id =
      ap (λ n. get_elem? (bucket_ids (x ∷ bs)) (n - 1)) (length-bucket_ids (x ∷ bs))
      ∙ get_elem?-bucket_ids (x ∷ bs) (length (x ∷ bs) - 1) at in
    rw (swap_remove, at, at_ids)
      (set_ids (drop_last (x ∷ bs)) i last ∙ ap (λ ks. set ks i last.id) (drop_last_ids (x ∷ bs)))

-- A resolved handle gives a bucket at its index.
pub resolve-some :
    (rt : Runtime) (id : PreparedBucketId) {i : ℕ} {b : ShapeBucket}
    → resolve rt id ≡ some (i, b)
    → get_elem? rt.buckets i ≡ some b
unfolding resolve
resolve-some rt id {i} {b} e =
    elim (Option-cases (prepared_bucket_index rt.handles (bucket_ids rt.buckets) id)) [
      | inl gone ↦ absurd (cc (rw (resolve, gone) at e))
      | inr (j, found) ↦ elim (Option-cases (get_elem? rt.buckets j)) [
        | inl out ↦ absurd (cc (rw (resolve, found, out) at e))
        | inr (c, there) ↦
            let pair : some (j, c) ≡ some (i, b) = rw (resolve, found, there) at e in
            let index : j ≡ i = cc (pair) in
            let bucket : c ≡ b = cc (pair) in
            ap (get_elem? rt.buckets) (sym index) ∙ there ∙ ap some bucket
      ]
    ]
