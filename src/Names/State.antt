-- ===== src/Names/State.antt =====
-- The states of a rollout: statefulset_rollout_reconciler.go.
use quarks_statefulset.Prelude.{String}

abbrev pub pending : String
pending = "Pending"

abbrev pub canary : String
canary = "Canary"

abbrev pub rollout : String
rollout = "Rollout"

abbrev pub done : String
done = "Done"

abbrev pub failed : String
failed = "Failed"

abbrev pub canary_upscale : String
canary_upscale = "CanaryUpscale"
