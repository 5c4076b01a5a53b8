-- ===== src/Client/Snapshot/Order.antt =====
-- The order of the snapshots is strict and total on distinct ids, so that it determines the sort.
use vectrify_agent_runner.Base.{
  ℕ, ◌≡◌, false, [], ◌∷◌, map, Text, text_eq_iff, arith, text_lt, text_lt_asym, text_lt_trans,
  text_lt_total, All, IsDict, Fresh,
}
use mathlib.Core.List.{Perm}
use mathlib.Core.List.Perm
use vectrify_agent_runner.Base.Sort.{
  StrictOrder, Comparable, AllComparable, IsSorted, stable_sort-perm, stable_sort-IsSorted,
  stable_sort-Perm,
}
use vectrify_agent_runner.Client.Registry.{Entry, Entries}
use vectrify_agent_runner.Client.Snapshot.{
  Snapshot, snapshot_of, older, snapshot, sort_snapshots_oldest_first,
}

text_lt_cotrans :
    (xs ys zs : Text) → text_lt ys xs ≡ false → text_lt zs ys ≡ false → text_lt zs xs ≡ false
text_lt_cotrans xs ys zs h k = ground (arith, text_lt_total xs ys, text_lt_trans zs xs ys)

pub older-StrictOrder : StrictOrder Snapshot older
unfolding older
older-StrictOrder = record {
  asymmetric = λ x y h. ground (arith, text_lt_asym x.cmd_id y.cmd_id);
  transitive = λ x y z h k. ground (arith, text_lt_trans x.cmd_id y.cmd_id z.cmd_id);
  cotransitive = λ x y z h k. ground (arith, text_lt_cotrans x.cmd_id y.cmd_id z.cmd_id);
}

Comparable-ids :
    (now : ℕ) (p : Text × Entry) (es : Entries)
    → Fresh p.0 es
    → All (Comparable older older-StrictOrder (snapshot_of now p)) (map (snapshot_of now) es)
unfolding older
Comparable-ids now p [] h = tt
Comparable-ids now p ((j, e) ∷ es) h =
    (ground (arith, text_lt_total p.0 j, text_eq_iff j p.0), Comparable-ids now p es h.1)

snapshots-AllComparable :
    (now : ℕ) (es : Entries)
    → IsDict es
    → AllComparable older older-StrictOrder (map (snapshot_of now) es)
snapshots-AllComparable now [] h = tt
snapshots-AllComparable now ((j, e) ∷ es) h =
    (Comparable-ids now (j, e) es h.0, snapshots-AllComparable now es h.1)

Snapshot-set : IsSet Snapshot
Snapshot-set = hlevel

-- A snapshot has each entry once, is sorted with none older or equally old and of a smaller id
-- behind another, and is the same for every order in which the map may be iterated.
pub snapshot-determined :
    (now : ℕ) (es fs : Entries)
    → IsDict es
    → Perm es fs
    → Perm (snapshot now es) (map (snapshot_of now) es)
      × IsSorted older (snapshot now es)
      × (snapshot now es ≡ snapshot now fs)
unfolding snapshot sort_snapshots_oldest_first
snapshot-determined now es fs d p = (
  stable_sort-perm older (map (snapshot_of now) es),
  stable_sort-IsSorted older older-StrictOrder (map (snapshot_of now) es),
  stable_sort-Perm older older-StrictOrder Snapshot-set (Perm.map (snapshot_of now) p)
      (snapshots-AllComparable now es d),
)
