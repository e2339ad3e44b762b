-- ===== src/Core/Urgency.antt =====
-- `ServerConfig` and `SnapshotUrgency` of core/src/server.rs. The products wrap around, as they do
-- where overflow checks are off (release builds).
pub mod Thresholds
use taskchampion_sync_server.Prelude.{ℕ, ◌*◌, ◌/◌, ◌%◌, ◌^◌, leb, if◌then◌else◌}
use taskchampion_sync_server.Prelude.Int.{ℤ, pos, leb_ℤ, quot, scale, wrap_i64}
use taskchampion_sync_server.Core.Types.{ServerConfig, SnapshotUrgency}

abbrev pub default_config : ServerConfig
default_config = record { snapshot_days = pos 14; snapshot_versions = 100 }

unfoldable pub for_days : ServerConfig → ℤ → SnapshotUrgency
for_days config days =
    if leb_ℤ (quot (wrap_i64 (scale config.snapshot_days 3)) 2) days
    then SnapshotUrgency.high
    else if leb_ℤ config.snapshot_days days
    then SnapshotUrgency.low
    else SnapshotUrgency.none

unfoldable pub for_versions_since : ServerConfig → ℕ → SnapshotUrgency
for_versions_since config versions_since =
    if leb (config.snapshot_versions * 3 % 2 ^ 32 / 2) versions_since
    then SnapshotUrgency.high
    else if leb config.snapshot_versions versions_since
    then SnapshotUrgency.low
    else SnapshotUrgency.none

-- `std::cmp::max` by the derived order None < Low < High
unfoldable pub max_urgency : SnapshotUrgency → SnapshotUrgency → SnapshotUrgency
max_urgency SnapshotUrgency.none b = b
max_urgency SnapshotUrgency.low SnapshotUrgency.none = SnapshotUrgency.low
max_urgency SnapshotUrgency.low SnapshotUrgency.low = SnapshotUrgency.low
max_urgency SnapshotUrgency.low SnapshotUrgency.high = SnapshotUrgency.high
max_urgency SnapshotUrgency.high b = SnapshotUrgency.high
