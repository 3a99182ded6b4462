-- ===== src/Runtime/Cache/Lookup.antt =====
-- What the lookup and the choice of a bucket to evict find.
use st_zrt.Common.{
  ℕ, zero, suc, ◌+◌, ◌≤◌, ◌≡◌, ◌≢◌, refl, sym, ap, ◌∙◌, subst, ◌⊎◌, inl, inr, Bool, true, false,
  Option, none, some, List, [], ◌∷◌, length, get_elem?, arith, Option-cases, Bool-cases, ltb, ◌==◌,
  ==_iff, ◌↔◌,
}
use st_zrt.ShapePlan.{Shapes}
use st_zrt.ShapePlan.Compare.{zip_equal, zip_refl}
use st_zrt.Runtime.Cache.{
  ShapeBucket, Runtime, key_matches, position_from, hot_match, find_bucket_index, earlier,
  oldest_from,
}

pub position_from-some :
    {A : Type 0} (test : A → Bool) (xs : List A) (i : ℕ) {n : ℕ}
    → position_from test i xs ≡ some n
    → (k : ℕ) × (x : A) × (n ≡ i + k) × (get_elem? xs k ≡ some x) × (test x ≡ true)
unfolding position_from
position_from-some test [] i e = absurd (cc)
position_from-some test (x ∷ xs) i {n} e = elim (Bool-cases (test x)) [
  | inl hit ↦
      let place : some i ≡ some n = rw hit at e in
      let same : i ≡ n = cc (place) in (0, x, omega (arith, same), refl, hit)
  | inr miss ↦
      let (k, y, at, there, passes) = position_from-some test xs (suc i) {n = n} (rw miss at e) in
      (suc k, y, omega (arith, at), there, passes)
]

position_from-none :
    {A : Type 0} (test : A → Bool) (xs : List A) (i k : ℕ) {x : A}
    → position_from test i xs ≡ none
    → get_elem? xs k ≡ some x
    → test x ≡ false
unfolding position_from
position_from-none test [] i k e at = absurd (cc)
position_from-none test (y ∷ xs) i zero {x} e at = elim (Bool-cases (test y)) [
  | inl hit ↦ absurd (cc (rw hit at e))
  | inr miss ↦ let same : y ≡ x = cc (at) in ap test (sym same) ∙ miss
]
position_from-none test (y ∷ xs) i (suc k) e at = elim (Bool-cases (test y)) [
  | inl hit ↦ absurd (cc (rw hit at e))
  | inr miss ↦ position_from-none test xs (suc i) k (rw miss at e) at
]

hot_match-some :
    (bs : List ShapeBucket) (hot : Option ℕ) (inputs outputs : Shapes) {n : ℕ}
    → hot_match bs hot inputs outputs ≡ some n
    → (b : ShapeBucket) × (get_elem? bs n ≡ some b) × (key_matches inputs outputs b ≡ true)
unfolding hot_match
hot_match-some bs none inputs outputs e = absurd (cc)
hot_match-some bs (some i) inputs outputs {n} e = elim (Option-cases (get_elem? bs i)) [
  | inl out ↦ absurd (cc (rw (hot_match, out) at e))
  | inr (b, there) ↦ elim (Bool-cases (key_matches inputs outputs b)) [
    | inr different ↦ absurd (cc (rw (hot_match, there, different) at e))
    | inl matches ↦
        let place : some i ≡ some n = rw (hot_match, there, matches) at e in
        let same : i ≡ n = cc (place) in (b, ap (get_elem? bs) (sym same) ∙ there, matches)
  ]
]

-- In terms of the code's own test.
pub lookup_cases :
    (rt : Runtime) (inputs outputs : Shapes)
    → ((i : ℕ) × (b : ShapeBucket) × (find_bucket_index rt inputs outputs ≡ some i)
        × (get_elem? rt.buckets i ≡ some b)
        × (key_matches inputs outputs b ≡ true))
      ⊎ ((find_bucket_index rt inputs outputs ≡ none)
          × ((i : ℕ) (b : ShapeBucket)
              → get_elem? rt.buckets i ≡ some b
              → key_matches inputs outputs b ≡ false))
unfolding find_bucket_index
lookup_cases rt inputs outputs = elim (Bool-cases (ltb 1 (length rt.buckets))) [
  | inr few ↦ elim (Option-cases searched) [
    | inl missed ↦ inr (
      rw (find_bucket_index, few, missed),
      λ i b at. position_from-none test rt.buckets 0 i missed at,
    )
    | inr (i, found) ↦
        let (k, b, at, there, matches) = position_from-some test rt.buckets 0 found in
        let same : k ≡ i = omega (arith, at) in
        inl (
          i,
          b,
          rw (find_bucket_index, few, found),
          ap (get_elem? rt.buckets) (sym same) ∙ there,
          matches,
        )
  ]
  | inl many ↦ elim (Option-cases (hot_match rt.buckets rt.hot_bucket inputs outputs)) [
    | inr (i, hot) ↦
        let (b, there, matches) = hot_match-some rt.buckets rt.hot_bucket inputs outputs hot in
        inl (i, b, rw (find_bucket_index, many, hot), there, matches)
    | inl cold ↦ elim (Option-cases searched) [
      | inl missed ↦ inr (
        rw (find_bucket_index, many, cold, missed),
        λ i b at. position_from-none test rt.buckets 0 i missed at,
      )
      | inr (i, found) ↦
          let (k, b, at, there, matches) = position_from-some test rt.buckets 0 found in
          let same : k ≡ i = omega (arith, at) in
          inl (
            i,
            b,
            rw (find_bucket_index, many, cold, found),
            ap (get_elem? rt.buckets) (sym same) ∙ there,
            matches,
          )
    ]
  ]
]
  where
    test : ShapeBucket → Bool
    test = key_matches inputs outputs

    searched : Option ℕ
    searched = position_from test 0 rt.buckets

-- Every bucket has as many input and output shapes as the model, which are given here. In the source
-- this is in the types: both sides are arrays of `INPUTS` and `OUTPUTS` shapes.
abbrev pub HasArity : ℕ → ℕ → Runtime → Type 0
HasArity n m rt =
    (i : ℕ) (b : ShapeBucket)
    → get_elem? rt.buckets i ≡ some b
    → (length b.inputs ≡ n) × (length b.outputs ≡ m)

pub key_matches_iff :
    (inputs outputs : Shapes) (b : ShapeBucket)
    → length b.inputs ≡ length inputs
    → length b.outputs ≡ length outputs
    → (key_matches inputs outputs b ≡ true) ↔ ((b.inputs ≡ inputs) × (b.outputs ≡ outputs))
key_matches_iff inputs outputs b n m = (
  λ h. (
    zip_equal b.inputs inputs n (ground (arith, h)),
    zip_equal b.outputs outputs m (ground (arith, h)),
  ),
  λ h.
      let ins = zip_refl b.inputs inputs h.0 in
      let outs = zip_refl b.outputs outputs h.1 in ground (arith, ins, outs),
)

-- In a cache of the model's numbers of inputs and outputs, the lookup gives the index of a bucket whose
-- input and output shapes are those asked for, or no bucket has both: whatever bucket the hot index
-- names, and also when it names none.
pub find_bucket_index_lem :
    (rt : Runtime) (inputs outputs : Shapes)
    → HasArity (length inputs) (length outputs) rt
    → ((i : ℕ) × (b : ShapeBucket) × (find_bucket_index rt inputs outputs ≡ some i)
        × (get_elem? rt.buckets i ≡ some b)
        × (b.inputs ≡ inputs)
        × (b.outputs ≡ outputs))
      ⊎ ((find_bucket_index rt inputs outputs ≡ none)
          × ((i : ℕ) (b : ShapeBucket)
              → get_elem? rt.buckets i ≡ some b
              → ¬ ((b.inputs ≡ inputs) × (b.outputs ≡ outputs))))
find_bucket_index_lem rt inputs outputs arity = elim (lookup_cases rt inputs outputs) [
  | inl (i, b, found, there, matches) ↦
      let (n, m) = arity i b there in
      let (ins, outs) = (key_matches_iff inputs outputs b n m).0 matches in
      inl (i, b, found, there, ins, outs)
  | inr (missed, apart) ↦ inr (
    missed,
    λ i b there same.
        let (n, m) = arity i b there in
        let matches = (key_matches_iff inputs outputs b n m).1 same in
        let differs = apart i b there in absurd (cc),
  )
]

-- No bucket without detached lanes, or the one used longest ago.
unfoldable pub Oldest : List ShapeBucket → Option (ℕ × ℕ) → ℕ → Type 0
Oldest bs none i = (k : ℕ) (b : ShapeBucket) → get_elem? bs k ≡ some b → b.detached_lanes ≢ 0
Oldest bs (some (n, used)) i =
    (k : ℕ) × (b : ShapeBucket) × (n ≡ i + k)
    × (get_elem? bs k ≡ some b)
    × (b.detached_lanes ≡ 0)
    × (b.last_used ≡ used)
    × ((j : ℕ) (c : ShapeBucket)
        → get_elem? bs j ≡ some c
        → c.detached_lanes ≡ 0
        → used ≤ c.last_used)

skip_busy :
    (r : Option (ℕ × ℕ)) (b : ShapeBucket) (bs : List ShapeBucket) (i : ℕ)
    → (b.detached_lanes == 0) ≡ false
    → Oldest bs r (suc i)
    → Oldest (b ∷ bs) r i
unfolding Oldest
skip_busy none b bs i busy o = never
  where
    never : (k : ℕ) (c : ShapeBucket) → get_elem? (b ∷ bs) k ≡ some c → c.detached_lanes ≢ 0
    never zero c at =
        let same : b ≡ c = cc (at) in
        subst (λ (x : ShapeBucket). x.detached_lanes ≢ 0) same (λ q. ground (arith, busy, q))
    never (suc k) c at = o k c at
skip_busy (some (n, used)) b bs i busy (k, c, place, there, idle, same_use, least) =
    (suc k, c, omega (arith, place), there, idle, same_use, older)
  where
    older :
        (j : ℕ) (d : ShapeBucket)
        → get_elem? (b ∷ bs) j ≡ some d
        → d.detached_lanes ≡ 0
        → used ≤ d.last_used
    older zero d at q =
        let same : b ≡ d = cc (at) in
        absurd (ground (arith, busy, ap (λ (x : ShapeBucket). x.detached_lanes) same, q))
    older (suc j) d at q = least j d at q

take_earlier :
    (r : Option (ℕ × ℕ)) (b : ShapeBucket) (bs : List ShapeBucket) (i : ℕ)
    → b.detached_lanes ≡ 0
    → Oldest bs r (suc i)
    → Oldest (b ∷ bs) (earlier b i r) i
unfolding Oldest
take_earlier none b bs i idle o = (0, b, omega arith, refl, idle, refl, only)
  where
    only :
        (j : ℕ) (d : ShapeBucket)
        → get_elem? (b ∷ bs) j ≡ some d
        → d.detached_lanes ≡ 0
        → b.last_used ≤ d.last_used
    only zero d at q =
        let same : b ≡ d = cc (at) in omega (arith, ap (λ (x : ShapeBucket). x.last_used) same)
    only (suc j) d at q = absurd (o j d at q)
take_earlier (some (n, used)) b bs i idle (k, c, place, there, free, same_use, least) =
    elim (Bool-cases (ltb used b.last_used)) [
      | inl later ↦ simp later (suc k, c, omega (arith, place), there, free, same_use, kept later)
      | inr first ↦ simp first (0, b, omega arith, refl, idle, refl, taken first)
    ]
  where
    kept :
        ltb used b.last_used ≡ true
        → (j : ℕ) (d : ShapeBucket) → get_elem? (b ∷ bs) j ≡ some d
        → d.detached_lanes ≡ 0
        → used ≤ d.last_used
    kept later zero d at q =
        let same : b ≡ d = cc (at) in
        ground (arith, later, ap (λ (x : ShapeBucket). x.last_used) same)
    kept later (suc j) d at q = least j d at q

    taken :
        ltb used b.last_used ≡ false
        → (j : ℕ) (d : ShapeBucket) → get_elem? (b ∷ bs) j ≡ some d
        → d.detached_lanes ≡ 0
        → b.last_used ≤ d.last_used
    taken first zero d at q =
        let same : b ≡ d = cc (at) in omega (arith, ap (λ (x : ShapeBucket). x.last_used) same)
    taken first (suc j) d at q = ground (arith, first, least j d at q)

-- The search for a bucket to evict finds one without detached lanes that was used longest ago among
-- those without detached lanes, or every bucket has detached lanes.
pub oldest_from-Oldest : (bs : List ShapeBucket) (i : ℕ) → Oldest bs (oldest_from i bs) i
unfolding oldest_from Oldest
oldest_from-Oldest [] i = λ k b at. absurd (cc (at))
oldest_from-Oldest (b ∷ bs) i =
    let rest = oldest_from-Oldest bs (suc i) in
    elim (Bool-cases (b.detached_lanes == 0)) [
      | inl idle ↦
          simp idle (take_earlier (oldest_from (suc i) bs) b bs i ((==_iff _ _).0 idle) rest)
      | inr busy ↦ simp busy (skip_busy (oldest_from (suc i) bs) b bs i busy rest)
    ]
