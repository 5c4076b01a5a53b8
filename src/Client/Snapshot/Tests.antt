-- ===== src/Client/Snapshot/Tests.antt =====
-- Snapshots and staleness scans of a registry with two commands.
use mathlib.Core.List.{Perm}
use mathlib.Core.List.Perm
use vectrify_agent_runner.Base.{ℕ, ◌≡◌, refl, false, [], ◌∷◌, codes, text_eq, map, length}
use vectrify_agent_runner.Base.Sort.{IsSorted, stable_sort}
use vectrify_agent_runner.Client.Classify.{light}
use vectrify_agent_runner.Client.Registry.{Entry, Entries, Registry}
use vectrify_agent_runner.Client.Snapshot.{snapshot_of, older, snapshot, truncate_for_log}
use vectrify_agent_runner.Client.Snapshot.Order.{snapshot-determined}

abbrev read_at : ℕ → Entry
read_at t = record {
  cmd_type = codes "read_file";
  class = light;
  start = t;
  ref_count = 1;
  warned_stale = false;
}

abbrev two_reads : Entries
two_reads = (codes "a", read_at 10) ∷ (codes "b", read_at 4) ∷ []

abbrev two_reads_swapped : Entries
two_reads_swapped = (codes "b", read_at 4) ∷ (codes "a", read_at 10) ∷ []

abbrev reading : Registry
reading = record { entries = two_reads; wait_ch = 0 }

oldest_first : snapshot 20 two_reads ≡ map (snapshot_of 20) two_reads_swapped
unfolding snapshot stable_sort older
oldest_first = refl

cut :
    length (
      truncate_for_log
        (codes "0123456789012345678901234567890123456789012345678901234567890123456789"))
    ≡ 67
unfolding truncate_for_log
cut = refl

snapshot-determined_example :
    Perm (snapshot 20 two_reads) (map (snapshot_of 20) two_reads)
    × IsSorted older (snapshot 20 two_reads)
    × (snapshot 20 two_reads ≡ snapshot 20 two_reads_swapped)
unfolding text_eq
snapshot-determined_example =
    snapshot-determined 20 two_reads two_reads_swapped ((refl, tt), (tt, tt)) (Perm.swap _ _ _)
