-- ===== src/Spsc/Blocking/Loop.antt =====
-- The loops of spsc.rs, for any try and any park: how many turns they take.
use st_zrt.Common.{ℕ, zero, suc, ◌<◌, ◌≡◌, refl, Option, some, ◌⊎◌, inl, inr, arith}
use st_zrt.Spsc.Blocking.{Attempt, returned, goes_on, spin, round, loop}

module _ {ℓ κ} {S R : Type ℓ} (attempt park : ℕ → S → Option (Attempt S R))
    (Due : ℕ → ℕ → S → Type κ) (Post : R → Type κ) where
  -- The loop is left with a result, or goes on with fewer turns due.
  abbrev pub Nears : ℕ → Option (Attempt S R) → Type (ℓ ⊔ κ)
  Nears d o =
      ((r : R) × (o ≡ some (returned r)) × Post r)
      ⊎ ((e : ℕ) × (next : ℕ) × (s : S) × (e < d) × (o ≡ some (goes_on next s)) × Due e next s)

  module _ (tries : (d turn : ℕ) (s : S) → Due d turn s → Nears d (attempt turn s))
      (parks : (d turn : ℕ) (s : S) → Due d turn s → Nears (suc d) (park turn s)) where
    spin-Nears : (n d turn : ℕ) (s : S) → Due d turn s → Nears (suc d) (spin attempt park n turn s)
    unfolding spin
    spin-Nears zero d turn s due = inr (d, turn, s, omega arith, refl, due)
    spin-Nears (suc n) d turn s due = elim (tries d turn s due) [
      | inl (r, e, post) ↦ inl (r, rw (e, spin), post)
      | inr (d', next, s', lt, e, due') ↦ elim (spin-Nears n d' next s' due') [
        | inl (r, e', post) ↦ inl (r, rw (e, spin, e'), post)
        | inr (d'', next', s'', lt', e', due'') ↦
            inr (d'', next', s'', omega arith, rw (e, spin, e'), due'')
      ]
    ]

    round-Nears : (n d turn : ℕ) (s : S) → Due d turn s → Nears d (round attempt park n turn s)
    unfolding round
    round-Nears n d turn s due = elim (tries d turn s due) [
      | inl (r, e, post) ↦ inl (r, rw (e, round), post)
      | inr (d', next, s', lt, e, due') ↦ elim (spin-Nears n d' next s' due') [
        | inl (r, e', post) ↦ inl (r, rw (e, round, e'), post)
        | inr (d'', next', s'', lt', e', due'') ↦ elim (parks d'' next' s'' due'') [
          | inl (r, e'', post) ↦ inl (r, rw (e, round, e', round, e''), post)
          | inr (d3, next3, s3, lt3, e3, due3) ↦
              inr (d3, next3, s3, omega arith, rw (e, round, e', round, e3), due3)
        ]
      ]
    ]

    pub loop_ends :
        (fuel n d turn : ℕ) (s : S)
        → Due d turn s
        → d < fuel
        → (r : R) × (loop attempt park fuel n turn s ≡ some (returned r)) × Post r
    unfolding loop
    loop_ends zero n d turn s due lt = absurd (omega arith)
    loop_ends (suc fuel) n d turn s due lt = elim (round-Nears n d turn s due) [
      | inl (r, e, post) ↦ (r, rw (e, loop), post)
      | inr (d', next, s', lt', e, due') ↦
          let (r, e', post) = loop_ends fuel n d' next s' due' (omega arith) in
          (r, rw (e, loop, e'), post)
    ]
