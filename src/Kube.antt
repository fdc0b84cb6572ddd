-- ===== src/Kube.antt =====
-- The Kubernetes API as the operator sees it: its objects, the calls that are made of it, and the
-- environment that answers them.
pub mod Types
pub mod Calls
pub mod Env
pub mod Client
pub mod Equality
pub mod Admission
pub mod Copies
pub mod Schema
