-- ===== src/Runtime/Cache/Reap.antt =====
-- The loop of `reap_retired_buckets` sees every retired bucket.
use st_zrt.Common.{
  ℕ, zero, suc, ◌+◌, ◌≤◌, ◌<◌, ◌≡◌, sym, ap, ◌∙◌, inl, inr, Bool, false, some, List, length,
  get_elem?, lt_of_get_elem?, get_elem?-some, swap_remove, length-swap_remove, swap_remove_cases,
  Option-cases, Bool-cases, dec_lt, ℕ_discrete, arith,
}
use st_zrt.Runtime.Lane.{Provider}
use st_zrt.Runtime.Cache.{ShapeBucket}
use st_zrt.Runtime.Cache.Lanes.{Setup}
use st_zrt.ShapePlan.{Floats}
use st_zrt.Runtime.Cache.Buckets.{reap_from}

module _ {W E : Type 0} (p : Provider W E) (s : Setup W E) (fl : Floats)
    (done : ShapeBucket → Bool) where
  -- Up to place `i` no release has ended.
  abbrev Pending : ℕ → List ShapeBucket → Type 0
  Pending i bs = (j : ℕ) (b : ShapeBucket) → get_elem? bs j ≡ some b → j < i → done b ≡ false

  removed-Pending : (bs : List ShapeBucket) (i : ℕ) → Pending i bs → Pending i (swap_remove bs i)
  removed-Pending bs i h j b e before = elim (swap_remove_cases bs i j e).1 [
    | inl (same, last) ↦ absurd (omega (arith, same))
    | inr (away, old) ↦ h j b old before
  ]

  next-Pending :
      (bs : List ShapeBucket) (i : ℕ) {b : ShapeBucket}
      → Pending i bs
      → get_elem? bs i ≡ some b
      → done b ≡ false
      → Pending (suc i) bs
  next-Pending bs i {b} h there waits j c e before = elim (ℕ_discrete j i) [
    | yes same ↦
        let at_i : get_elem? bs i ≡ some c = ap (get_elem? bs) (sym same) ∙ e in
        let bucket : b ≡ c = cc (there, at_i) in ap done (sym bucket) ∙ waits
    | no other ↦ h j c e (omega (arith, other))
  ]

  -- With a turn for each bucket left, no bucket whose release has ended stays.
  pub reap_from_lem :
      (fuel i : ℕ) (bs : List ShapeBucket)
      → length bs ≤ i + fuel
      → Pending i bs
      → (j : ℕ) (b : ShapeBucket) → get_elem? (reap_from p s fl done fuel i bs) j ≡ some b
      → done b ≡ false
  unfolding reap_from
  reap_from_lem zero i bs enough h j b e = h j b e (omega (arith, lt_of_get_elem? bs j e))
  reap_from_lem (suc fuel) i bs enough h j b e = elim (Option-cases (get_elem? bs i)) [
    | inl out ↦ elim (dec_lt j i) [
      | yes before ↦ h j b (rw (reap_from, out) at e) before
      | no after ↦
          let e' : get_elem? bs j ≡ some b = rw (reap_from, out) at e in
          let (c, there) = get_elem?-some bs i (omega (arith, lt_of_get_elem? bs j e', after)) in
          absurd (cc (there, out))
    ]
    | inr (c, there) ↦ elim (Bool-cases (done c)) [
      | inl ended ↦
          reap_from_lem fuel i (swap_remove bs i) (omega (arith, enough, length-swap_remove bs i))
            (removed-Pending bs i h) j b (rw (reap_from, there, ended) at e)
      | inr waits ↦
          reap_from_lem fuel (suc i) bs (omega arith) (next-Pending bs i h there waits) j b
            (rw (reap_from, there, waits) at e)
    ]
  ]
