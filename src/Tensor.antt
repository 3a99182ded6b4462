-- ===== src/Tensor.antt =====
-- st-zrt/src/tensor.rs: what a tensor decides before memory is handed to ONNX Runtime. Element counts
-- and byte lengths (with the helpers of lib.rs and type_info.rs), the pages that `prefault_slice`
-- touches, the file ranges of memory-mapped buffers, and the storage that a `BufferSpec` selects.
pub mod Elements
pub mod Packed
pub mod Prefault
pub mod Mapping
pub mod Mapped
pub mod Spec
pub mod Honoured
mod Tests
