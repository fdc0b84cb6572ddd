-- ===== src/Names/Annotation.antt =====
-- Annotation keys: v1alpha1/types.go and statefulset_rollout_reconciler.go.
use quarks_statefulset.Prelude.{String}

abbrev pub version : String
version = "quarks.cloudfoundry.org/version"

abbrev pub zones : String
zones = "quarks.cloudfoundry.org/zones"

abbrev pub canary_rollout_enabled : String
canary_rollout_enabled = "quarks.cloudfoundry.org/canary-rollout-enabled"

abbrev pub canary_rollout : String
canary_rollout = "quarks.cloudfoundry.org/canary-rollout"

abbrev pub canary_watch_time : String
canary_watch_time = "quarks.cloudfoundry.org/canary-watch-time-ms"

abbrev pub update_watch_time : String
update_watch_time = "quarks.cloudfoundry.org/update-watch-time-ms"

abbrev pub update_start_time : String
update_start_time = "quarks.cloudfoundry.org/update-start-time"
