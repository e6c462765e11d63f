-- ===== src/RegisterAllocator/Scan.antt =====
-- The linear scan: variables whose live ranges overlap get different registers. It is about
-- `scanRegisters`.
pub mod Extend
pub mod Steps
pub mod Round
pub mod Order
pub mod Apart
