-- ===== src/Examples.antt =====
-- Concrete inputs at which the theorems apply.
mod Data
mod Operators
mod Operating
mod Handing
mod Tables
mod Pass
mod Completing
mod Requests
mod Protecting
mod Timing
mod Connecting
mod Searching
mod Helpers
mod Performing
