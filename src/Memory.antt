-- ===== src/Memory.antt =====
-- Memory blocks and pools: cpp/mrc/src/internal/memory and cpp/mrc/include/mrc/data.
pub mod Blocks
pub mod Transient
