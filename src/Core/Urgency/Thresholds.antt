-- ===== src/Core/Urgency/Thresholds.antt =====
-- When a snapshot is asked for.
use taskchampion_sync_server.Prelude.{
  ℕ, ◌+◌, ◌-◌, ◌*◌, ◌/◌, ◌^◌, ◌≤◌, ◌<◌, ◌≡◌, ◌↔◌, arith, Bool, true, false, leb, none, some, Option,
}
use taskchampion_sync_server.Prelude.Int.{ℤ, pos, leb_ℤ}
use taskchampion_sync_server.Core.Types.{ServerConfig, SnapshotUrgency, Snapshot}
use taskchampion_sync_server.Core.Urgency.{for_days, for_versions_since, max_urgency}
use taskchampion_sync_server.Core.Server.{Env, urgency}

-- The order None < Low < High, as numbers.
abbrev pub rank : SnapshotUrgency → ℕ
rank SnapshotUrgency.none = 0
rank SnapshotUrgency.low = 1
rank SnapshotUrgency.high = 2

abbrev pub passed : Bool → ℕ
passed true = 1
passed false = 0

max_urgency-le_iff :
    (a b : SnapshotUrgency) (n : ℕ) → (rank (max_urgency a b) ≤ n) ↔ ((rank a ≤ n) × (rank b ≤ n))
unfolding max_urgency
max_urgency-le_iff a b n = (λ h. ground arith, λ h. ground arith)

-- Where three times the target number of versions fits a `u32`, the urgency is raised by one step
-- from the target on, and by one more from one and a half of it on, rounded down.
pub for_versions_since-rank :
    (config : ServerConfig) (n : ℕ)
    → config.snapshot_versions * 3 < 2 ^ 32
    → rank (for_versions_since config n)
      ≡ passed (leb config.snapshot_versions n)
        + passed (leb (config.snapshot_versions * 3) (2 * n + 1))
unfolding for_versions_since
for_versions_since-rank config n fits = ground arith

-- Where three times a target of `d` days, not negative, fits an `i64`, the same holds of days.
pub for_days-rank :
    (config : ServerConfig) (d : ℕ) (days : ℤ)
    → config.snapshot_days ≡ pos d
    → d * 3 < 2 ^ 63
    → rank (for_days config days)
      ≡ passed (leb_ℤ (pos d) days) + passed (leb_ℤ (pos (d * 3 / 2)) days)
unfolding for_days
for_days-rank config d days is fits = rw is (ground arith)

-- For every target of versions, also where the product wraps around, more versions since the
-- snapshot never lower the urgency.
pub for_versions_since_mono :
    (config : ServerConfig) (n m : ℕ)
    → n ≤ m
    → rank (for_versions_since config n) ≤ rank (for_versions_since config m)
unfolding for_versions_since
for_versions_since_mono config n m h = ground arith

-- For every target of versions from 2 ^ 32 / 3 to 2 ^ 32 - 3 the product wraps around, and with one
-- version less than the target the urgency is high.
pub for_versions_since-overflow :
    (config : ServerConfig)
    → 2 ^ 32 ≤ config.snapshot_versions * 3
    → config.snapshot_versions < 2 ^ 32 - 2
    → for_versions_since config (config.snapshot_versions - 1) ≡ SnapshotUrgency.high
unfolding for_versions_since
for_versions_since-overflow config over word = ground arith

-- Both ages of the snapshot are of at most the urgency `n`; no snapshot is of high urgency.
abbrev pub AtMost : ServerConfig → Env → Option Snapshot → ℕ → Type 0
AtMost config env none n = 2 ≤ n
AtMost config env (some snap) n =
    (rank (for_days config (env.num_days env.now snap.timestamp)) ≤ n)
    × (rank (for_versions_since config snap.versions_since) ≤ n)

-- The urgency that `add_version` reports is high for a client with no snapshot, and else at most
-- `n` exactly if that of the snapshot's age in days and that of its age in versions are.
pub urgency-le_iff :
    (config : ServerConfig) (env : Env) (snapshot : Option Snapshot) (n : ℕ)
    → (rank (urgency config env snapshot) ≤ n) ↔ AtMost config env snapshot n
unfolding urgency max_urgency
urgency-le_iff config env none n = (λ h. h, λ h. h)
urgency-le_iff config env (some snap) n =
    max_urgency-le_iff (for_days config (env.num_days env.now snap.timestamp))
      (for_versions_since config snap.versions_since) n
