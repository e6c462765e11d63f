-- ===== src/Tests.antt =====
-- Runs of the model on small inputs, and each theorem at an input that meets its hypotheses.
mod Heap
mod Registers
mod Codes
mod Values
mod Tables
mod Scanner
mod Collector
mod Messages
mod Collections
mod Sweeping
