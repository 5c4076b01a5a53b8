-- ===== src/Client/Snapshot.antt =====
-- client/inflight.go: the read-only views of the registry, for logs and for the staleness monitor.
-- Ages are signed differences of clock readings.
pub mod Order
pub mod Stale
mod Tests
use vectrify_agent_runner.Base.{
  ℕ, zero, suc, ◌+◌, ◌-◌, ◌≤◌, ◌<◌, ◌≡◌, refl, ◌⊎◌, inl, inr, Bool, true, false, not, ◌&&◌, Option,
  none, some, List, [], ◌∷◌, ◌++◌, map, Text, arith, leb, ltb, if◌then◌else◌, ℤ, pos, negsuc,
  pos_part, neg_part, sub_ℕ, int_lt, int_le, int_eq, text_lt, take, length,
}
use vectrify_agent_runner.Base.Sort.{stable_sort}
use vectrify_agent_runner.Client.Registry.{Entry, Entries, Registry}

pub record Snapshot : Type 0 where
  pub cmd_id : Text
  pub cmd_type : Text
  pub age : ℤ

abbrev pub snapshot_of : ℕ → Text × Entry → Snapshot
snapshot_of now (id, e) = record { cmd_id = id; cmd_type = e.cmd_type; age = sub_ℕ now e.start }

-- The test of `sortSnapshotsOldestFirst`.
unfoldable pub older : Snapshot → Snapshot → Bool
older s t = if int_eq s.age t.age then text_lt s.cmd_id t.cmd_id else int_lt t.age s.age

unfoldable pub sort_snapshots_oldest_first : List Snapshot → List Snapshot
sort_snapshots_oldest_first = stable_sort older

-- `snapshotLocked`; the order of the entries is that of the iteration over the map.
unfoldable pub snapshot : ℕ → Entries → List Snapshot
unfolding sort_snapshots_oldest_first
snapshot now entries = sort_snapshots_oldest_first (map (snapshot_of now) entries)

abbrev pub newly_stale : ℕ → ℕ → Entry → Bool
newly_stale threshold now e = not e.warned_stale && int_le (pos threshold) (sub_ℕ now e.start)

abbrev pub warn_entry : ℕ → ℕ → Entry → Entry
warn_entry threshold now e =
    if newly_stale threshold now e then record e { warned_stale = true } else e

-- The loop of `checkStale`: the entries it leaves, and `out`.
unfoldable pub mark_stale : ℕ → ℕ → Entries → Entries
mark_stale threshold now [] = []
mark_stale threshold now ((id, e) ∷ es) =
    (id, warn_entry threshold now e) ∷ mark_stale threshold now es

unfoldable pub stale_entries : ℕ → ℕ → Entries → List Snapshot
stale_entries threshold now [] = []
stale_entries threshold now ((id, e) ∷ es) =
    let rest = stale_entries threshold now es in
    if newly_stale threshold now e then snapshot_of now (id, e) ∷ rest else rest

unfoldable pub check_stale : ℕ → ℕ → Registry → Registry × List Snapshot
unfolding mark_stale stale_entries
check_stale threshold now r = (
  record r { entries = mark_stale threshold now r.entries },
  sort_snapshots_oldest_first (stale_entries threshold now r.entries),
)

-- `truncateForLog`: at most 64 bytes, or 64 and the three of an ellipsis.
abbrev pub max_log_field_len : ℕ
max_log_field_len = 64

unfoldable pub truncate_for_log : Text → Text
truncate_for_log s =
    if leb (length s) max_log_field_len
    then s
    else take max_log_field_len s ++ 0xe2 ∷ 0x80 ∷ 0xa6 ∷ []
