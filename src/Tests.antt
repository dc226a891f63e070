-- ===== src/Tests.antt =====
-- The development at concrete inputs: runs of the definitions, and uses of the theorems.
mod Systems
mod Pools
mod Workers
mod Simple
mod Wakers
mod Runtimes
mod Benchmarks
