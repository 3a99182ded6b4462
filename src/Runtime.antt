-- ===== src/Runtime.antt =====
-- st-zrt/src/runtime.rs: serving lanes and the dynamic cache of shape buckets. This file has the
-- generation-checked handles of prepared buckets, which the cache and the owned runs share.
pub mod Handles
pub mod Lane
pub mod Cache
pub mod Recovery
pub mod Options
pub mod Tests
use st_zrt.Common.{ℕ, ◌≡◌, Bool, true, ◌&&◌, Option, none, some, List, ◌==◌}

pub record PreparedBucketId : Type 0 where
  pub slot : ℕ
  pub generation : ℕ

-- The derived equality.
abbrev pub id_eqb : PreparedBucketId → PreparedBucketId → Bool
id_eqb a b = (a.slot == b.slot) && (a.generation == b.generation)

pub record PreparedBucketSlot : Type 0 where
  pub generation : ℕ
  pub bucket_index : Option ℕ
