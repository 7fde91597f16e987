-- ===== src/Benchmarks.antt =====
-- benchmarks/framework.py: the worker pools and the statistics of the benchmarks.
pub mod Workers
pub mod Runs
pub mod Percentile
pub mod Strides
pub mod Phases
