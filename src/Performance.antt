-- ===== src/Performance.antt =====
-- MultiNic/internal/controller/openstackconfig_performance_optimized.go: the caches, the rate
-- limiter, the client pool and the batches of the optimised reconciler.
pub mod Caches
pub mod Limiter
pub mod Pool
pub mod Batch
