-- ===== src/Setup.antt =====
-- How the operator is put together: the calls of controller-runtime and quarks-utils that the
-- set-up functions make, each of which may fail and end the set-up.
pub mod Plans
pub mod Hooks
pub mod Controllers
pub mod Manager
pub mod Command
