-- ===== src/Binalloc.antt =====
-- The size-class allocator of benchmarks/binalloc, namespace `sgc2`: one module for each of its
-- parts, from the arithmetic of sizes and addresses up to the thread's bins.
pub mod Word
pub mod Config
pub mod Address
pub mod Stack
pub mod Memory
pub mod PageList
pub mod Heap
mod Tests
mod HeapTests
