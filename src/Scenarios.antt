-- ===== src/Scenarios.antt =====
-- A fake cluster, and the theorems at concrete inputs.
mod Fake
mod Objects
mod Rollout
mod Webhook
mod Quarks
mod Made
mod Overwritten
mod Setup
mod Probes
mod Copies
mod Client
mod Update
