-- ===== src/Client.antt =====
-- The typed client of QuarksStatefulSets (pkg/kube/client): the real one, the fake one, the lister.
pub mod Requests
pub mod Real
pub mod Actions
pub mod Fake
pub mod Lister
pub mod Config
