-- ===== src/Lib.antt =====
-- A model of the parts of st-zrt (a Rust runtime over ONNX Runtime) that decide something by
-- themselves, and the theorems that make them correct. Paths are from the repository's root.
--
-- Parts:
-- Common: Boolean tests, lists, results and machine words over the native numbers.
-- Spsc (st-zrt/src/spsc.rs): the bounded queue between one producer and one consumer. `Inner` is
--   the shared ring, `try_send` and `try_recv` are the operations of the two halves; an index out
--   of range or a read of a slot without a value is `none`. Spsc/Queue is the bounded FIFO that
--   the ring implements, Spsc/Represents the relation between them, Spsc/Run a sequence of calls.
--   Spsc/Threads has the two halves on two threads, each load or store of shared state a step;
--   the acquire and release orderings are taken as giving these steps. Spsc/Release is the drop.
--   Spsc/Blocking is `send` and `recv`: the calls of the other side are a list for each turn,
--   which it makes after a failed try and while the caller is parked, and the sender also between
--   the two loads of a try to receive (so that `recv` may give `none` while an element is
--   queued). Their fuel counts rounds of the outer loop; two more than the turns until the other
--   side acts are enough.
-- Tensor (st-zrt/src/tensor.rs): Tensor/Elements has the element types, counts and byte lengths
--   (with `checked_element_count` of type_info.rs, `element_size` and `tensor_byte_len` of
--   lib.rs), Tensor/Prefault `prefault_slice`, Tensor/Mapping `MmapBuffer::map_file`, its drop
--   and `map_file_range` over the mappings and locked ranges of the process, Tensor/Spec
--   `BufferSpec` and `zeros_with` up to `from_storage`. The answers of the system are parameters;
--   `IsPosix` is what is assumed of pages and of `mmap`.
-- ShapePlan (st-zrt/src/shape_plan.rs): the plan of serving shapes. ShapePlan/Builder is
--   `ServingShapePlanBuilder` (`build`, `validate_shapes`), ShapePlan/Hash the FNV hash and the
--   map from hashes to ids, ShapePlan/Plan `ServingShapePlan` (`classify`, `classify_padded`),
--   ShapePlan/Counts the element counts in `u128`, ShapePlan/Compare the comparison of shapes.
--   f32 and f64 are the parameters `Floats`: no law of theirs is assumed.
-- Runtime (st-zrt/src/runtime.rs): Runtime/Handles is the table of generation-checked handles of
--   a `DynamicIoRuntime` (`allocate_prepared_bucket_id`, `retire_prepared_bucket_id`,
--   `repair_prepared_bucket_indices_from`), with the buckets seen through their ids. Runtime/Lane
--   is `ServingLane` and its runs; the calls of ONNX Runtime and CUDA are the parameter
--   `Provider`, and Runtime/Lane/Fence says what is assumed of them. Runtime/Cache is the cache
--   of shape buckets: the lookup, the way of a lane into an owned run and back (Cache/Runs:
--   `enqueue_prepared`, `complete_owned`), eviction and removal (Cache/Retirement), and the
--   sealed serving plan in front of it (Cache/Planned: `validate_planned_shape`). Cache/Arity is
--   about the model's numbers of inputs and outputs, which the lookup relies on. Cache/Buckets is `get_or_create_bucket_inner` and its callers, Cache/Lanes what it does
--   with the lanes of a new bucket (the graph id, the eager capture), Cache/Creation their
--   insertion, and Cache/Clear `clear_buckets` and the drop. The calls that build lanes, make run
--   options and release graphs are the parameter `Setup`; what is assumed of them is that a set
--   has a lane for each of the runtime's. The loop that reaps retired buckets has a turn for each
--   of them (Cache/Reap: it sees them all). The lanes of dropped runs wait in a list there;
--   Runtime/Recovery has the slots and the lock-free stack that hold them (`RecoveryCell`,
--   `RecoverySlots`), with drops on any threads and the runtime as the one consumer, in
--   interleaved steps; Runtime/Recovery/Drain is the consumer's loop when no lane is dropped
--   meanwhile. Runtime/Options is `DynamicIoOptions` and its two checks.
-- Session (st-zrt/src/session.rs): the counter of graph ids, and in Session/Lease
--   `CapturedGraphLease`, with any number of threads that begin runs, drop guards and release the
--   graph; each access of the word, the lock and the condition variable is a step, and wake-ups
--   and failed weak exchanges may be spurious. A lane of Runtime/Lane holds such a guard while
--   its run may still be pending.
--
-- Bounds: `usize` and `u64` have 64 bits and `u128` has 128, with their wrap-around or overflow
--   checks written out; a dimension is an integer, whose cast to `u64` is taken modulo `2 ^ 64`.
--   `checked_next_power_of_two` tries the 64 exponents of a word, which is all there are. Slots
--   and generations of handles are `u32`; a generation that cannot be counted up is used no more.
--   The size of a slot and of an element is a parameter, and `isize::MAX` bytes bound an
--   allocation.
--
-- Not modelled: the constructors of lanes, warming runs, lane pools and GPU chains of the
--   runtime; everything that only passes calls on to ONNX Runtime, CUDA or the system (the rest
--   of a session, the values and views of tensors, allocators, execution providers, bindings);
--   parking of threads; formatting of errors.
pub mod Common
pub mod Spsc
pub mod ShapePlan
pub mod Runtime
pub mod Session
pub mod Tensor
