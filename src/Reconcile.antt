-- ===== src/Reconcile.antt =====
-- The OpenstackConfig controller, MultiNic/internal/controller/openstackconfig_controller.go: what a
-- pass meets, what it changes and how it ends. The other children hold its phases and their laws.
pub mod Environment
pub mod Changes
pub mod Store
pub mod Normal
pub mod Deletion
pub mod Loop
pub mod LostUpdate
pub mod Committed
pub mod Replaced
pub mod Atomicity
pub mod Cleanup
pub mod Integrity
pub mod Progress
pub mod Completion
