-- ===== src/Types.antt =====
-- The helpers of MultiNic/internal/types/optimization.go.
pub mod Cache
pub mod Retry
pub mod Metrics
