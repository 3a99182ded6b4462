-- ===== src/Runtime/Recovery/Chain.antt =====
-- runtime.rs: the recovery stack as the list of slots that its links run through.
use st_zrt.Common.{
  ℕ, ◌≡◌, ◌≢◌, ◌⊎◌, inl, inr, some, List, [], ◌∷◌, get_elem?, set, usize_max, All, sym, ◌∙◌, ap,
  get_elem?-set_ne,
}
use st_zrt.Runtime.Recovery.{Slot, queued}

abbrev pub Member : ℕ → List ℕ → Type 0
Member k [] = ⊥
Member k (x ∷ xs) = (k ≡ x) ⊎ Member k xs

abbrev pub Absent : ℕ → List ℕ → Type 0
Absent k xs = All (λ x. x ≢ k) xs

pub Absent-ne : (ks : List ℕ) (k j : ℕ) → Absent k ks → Member j ks → k ≢ j
Absent-ne [] k j away m = elim m [ ]
Absent-ne (x ∷ ks) k j (other, away) (inl same) = λ e. other (sym (e ∙ same))
Absent-ne (x ∷ ks) k j (other, away) (inr m) = Absent-ne ks k j away m

module _ {ℓ} {V : Type ℓ} where
  -- From `head` the links run through the slots `ks`, all different and with queued lanes, to the end.
  abbrev pub Chain : List (Slot V) → ℕ → List ℕ → Type ℓ
  Chain slots head [] = (head ≡ usize_max) × Unit {ℓ}
  Chain slots head (k ∷ ks) =
      (head ≡ k)
      × (c : Slot V) × (get_elem? slots k ≡ some c)
      × ((v : V) × (c.at ≡ queued v))
      × Absent k ks
      × Chain slots c.next ks

  pub Chain-set :
      (slots : List (Slot V)) (head : ℕ) (ks : List ℕ) (k : ℕ) (d : Slot V)
      → Absent k ks
      → Chain slots head ks
      → Chain (set slots k d) head ks
  Chain-set slots head [] k d away (e, u) = (e, u)
  Chain-set slots head (x ∷ ks) k d (other, away) (e, c, at, on, fresh, rest) = (
    e,
    c,
    get_elem?-set_ne slots k x d (λ q. other (sym q)) ∙ at,
    on,
    fresh,
    Chain-set slots c.next ks k d away rest,
  )

  pub Member-queued :
      (slots : List (Slot V)) (head : ℕ) (ks : List ℕ) (k : ℕ)
      → Member k ks
      → Chain slots head ks
      → (c : Slot V) × (get_elem? slots k ≡ some c) × (v : V) × (c.at ≡ queued v)
  Member-queued slots head [] k m ch = elim m [ ]
  Member-queued slots head (x ∷ ks) k (inl same) (e, c, at, (v, on), fresh, rest) =
      (c, ap (get_elem? slots) same ∙ at, v, on)
  Member-queued slots head (x ∷ ks) k (inr m) (e, c, at, on, fresh, rest) =
      Member-queued slots c.next ks k m rest

  pub Absent-queued :
      (slots : List (Slot V)) (head : ℕ) (ks : List ℕ) (k : ℕ) {c : Slot V}
      → get_elem? slots k ≡ some c
      → ((v : V) → c.at ≢ queued v)
      → Chain slots head ks
      → Absent k ks
  Absent-queued slots head [] k at off ch = tt
  Absent-queued slots head (x ∷ ks) k {c} at off (e, d, at', (v, on), fresh, rest) = (
    λ same. let same_slot : c ≡ d = cc in off v (ap (λ (y : Slot V). y.at) same_slot ∙ on),
    Absent-queued slots d.next ks k at off rest,
  )
