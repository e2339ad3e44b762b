-- ===== src/Tests/Runs.antt =====
-- The thresholds of core/src/server.rs.
use taskchampion_sync_server.Prelude.{◌≡◌, refl}
use taskchampion_sync_server.Core.Types.{SnapshotUrgency}
use taskchampion_sync_server.Core.Urgency.{default_config, for_days, for_versions_since}
use taskchampion_sync_server.Prelude.Int.{pos}

-- snapshot_urgency_for_days, with the thresholds 14 and 21
for_days_thresholds :
    (for_days default_config (pos 13) ≡ SnapshotUrgency.none)
    × (for_days default_config (pos 14) ≡ SnapshotUrgency.low)
    × (for_days default_config (pos 20) ≡ SnapshotUrgency.low)
    × (for_days default_config (pos 21) ≡ SnapshotUrgency.high)
unfolding for_days
for_days_thresholds = (refl, refl, refl, refl)

-- snapshot_urgency_for_versions_since, with the thresholds 100 and 150
for_versions_since_thresholds :
    (for_versions_since default_config 99 ≡ SnapshotUrgency.none)
    × (for_versions_since default_config 100 ≡ SnapshotUrgency.low)
    × (for_versions_since default_config 149 ≡ SnapshotUrgency.low)
    × (for_versions_since default_config 150 ≡ SnapshotUrgency.high)
unfolding for_versions_since
for_versions_since_thresholds = (refl, refl, refl, refl)
