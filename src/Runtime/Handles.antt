-- ===== src/Runtime/Handles.antt =====
-- `allocate_prepared_bucket_id`, `prepared_bucket_index`, `retire_prepared_bucket_id` and
-- `repair_prepared_bucket_indices_from`: the table of handles of a `DynamicIoRuntime`. The buckets
-- are seen through the list of their ids.
pub mod Linked
pub mod Allocate
pub mod Retire
pub mod Repair
pub mod Keeps
pub mod Resolve
pub mod Stale
use st_zrt.Common.{
  ℕ, zero, suc, ◌≡◌, Bool, true, false, Option, none, some, List, [], ◌∷◌, ◌++◌, ltb, leb, ◌==◌,
  if◌then◌else◌, length, get_elem?, set, u32_max, Result, ok, err, swap_remove,
}
use st_zrt.Runtime.{PreparedBucketId, PreparedBucketSlot, id_eqb}

-- `prepared_slots`, and `free_prepared_slots` with the last slot pushed at its head.
pub record Handles : Type 0 where
  pub slots : List PreparedBucketSlot
  pub free : List ℕ

pub data HandleError : Type 0 where
  free_slot_invalid free_slot_inconsistent slots_exhausted : HandleError

abbrev pub no_handles : Handles
no_handles = record { slots = []; free = [] }

unfoldable pub allocate_prepared_bucket_id :
    Handles → ℕ → Handles × Result PreparedBucketId HandleError
allocate_prepared_bucket_id h index = elim h.free [
  | [] ↦
      if leb (length h.slots) u32_max
      then (
        record h { slots = h.slots ++ record { generation = 1; bucket_index = some index } ∷ [] },
        ok (record { slot = length h.slots; generation = 1 }),
      )
      else (h, err slots_exhausted)
  | slot ∷ rest ↦ elim (get_elem? h.slots slot) [
    | none ↦ (record h { free = rest }, err free_slot_invalid)
    | some entry ↦ elim entry.bucket_index [
      | some _ ↦ (record h { free = rest }, err free_slot_inconsistent)
      | none ↦ (
        record {
          slots = set h.slots slot (record entry { bucket_index = some index });
          free = rest;
        },
        ok (record { slot = slot; generation = entry.generation }),
      )
    ]
  ]
]

-- The index of a slot's entry that still has the handle's generation.
unfoldable pub entry_index : Handles → PreparedBucketId → Option ℕ
entry_index h id = elim (get_elem? h.slots id.slot) [
  | none ↦ none
  | some entry ↦ if entry.generation == id.generation then entry.bucket_index else none
]

unfoldable pub prepared_bucket_index : Handles → List PreparedBucketId → PreparedBucketId → Option ℕ
unfolding entry_index
prepared_bucket_index h ids id = elim (entry_index h id) [
  | none ↦ none
  | some index ↦ elim (get_elem? ids index) [
    | none ↦ none
    | some found ↦ if id_eqb found id then some index else none
  ]
]

-- A slot whose generation cannot be counted up is never free again.
unfoldable pub retire_entry : Handles → PreparedBucketId → PreparedBucketSlot → Handles
retire_entry h id entry =
    if ltb entry.generation u32_max
    then record {
      slots =
          set h.slots id.slot (record { generation = suc entry.generation; bucket_index = none });
      free = id.slot ∷ h.free;
    }
    else record h { slots = set h.slots id.slot (record entry { bucket_index = none }) }

unfoldable pub retire_prepared_bucket_id : Handles → PreparedBucketId → Handles
unfolding retire_entry
retire_prepared_bucket_id h id = elim (get_elem? h.slots id.slot) [
  | none ↦ h
  | some entry ↦ elim entry.bucket_index [
    | none ↦ h
    | some _ ↦ if entry.generation == id.generation then retire_entry h id entry else h
  ]
]

unfoldable pub retire_each : Handles → List PreparedBucketId → Handles
retire_each h [] = h
retire_each h (id ∷ ids) = retire_each (retire_prepared_bucket_id h id) ids

-- One round of the repair, for the bucket at `index`.
unfoldable pub repair_one : Handles → ℕ → PreparedBucketId → Handles
repair_one h index id = elim (get_elem? h.slots id.slot) [
  | none ↦ h
  | some entry ↦
      if entry.generation == id.generation
      then record h { slots = set h.slots id.slot (record entry { bucket_index = some index }) }
      else h
]

-- The rounds for the buckets from `index` on, whose ids are given.
unfoldable pub repair_rest : Handles → ℕ → List PreparedBucketId → Handles
repair_rest h index [] = h
repair_rest h index (id ∷ ids) = repair_rest (repair_one h index id) (suc index) ids

abbrev pub skip : ℕ → List PreparedBucketId → List PreparedBucketId
skip zero ids = ids
skip (suc n) [] = []
skip (suc n) (id ∷ ids) = skip n ids

unfoldable pub repair_prepared_bucket_indices_from : Handles → List PreparedBucketId → ℕ → Handles
unfolding repair_rest
repair_prepared_bucket_indices_from h ids start = repair_rest h start (skip start ids)

-- What the retirement of the bucket at `index` does to the table, once its bucket is swapped out.
unfoldable pub forget_at : Handles → List PreparedBucketId → ℕ → PreparedBucketId → Handles
unfolding repair_prepared_bucket_indices_from
forget_at h ids index id =
    let left = swap_remove ids index in
    if ltb index (length left)
    then repair_prepared_bucket_indices_from (retire_prepared_bucket_id h id) left index
    else retire_prepared_bucket_id h id
