-- ===== src/Operator.antt =====
-- MultiNicOperatorReconciler of MultiNic/internal/controller/multinicoperator_controller.go and the
-- builders of multinicoperator_helpers.go: what a pass gets from outside and the state it works on.
pub mod Credentials
pub mod Quantities
pub mod Workloads
pub mod Services
pub mod Compare
pub mod Surroundings
pub mod Apply
pub mod Ready
pub mod Status
pub mod Loop
pub mod Ensured
pub mod States
pub mod Finished
pub mod Convergence
pub mod Passes
pub mod Untouched
pub mod Frame
pub mod Handover
pub mod Complete
pub mod Running
pub mod Reports
pub mod Unchanged
pub mod Reflexive
pub mod Fresh
pub mod Panics
pub mod Preserved
