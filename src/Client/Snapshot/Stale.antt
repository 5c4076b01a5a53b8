-- ===== src/Client/Snapshot/Stale.antt =====
-- client/inflight.go, `checkStale`, and its repeated scans by `monitorStale` in client/ws_client.go.
use vectrify_agent_runner.Base.{
  ℕ, ◌+◌, ◌≡◌, refl, Bool, false, not, ◌&&◌, ◌||◌, Option, none, some, List, [], ◌∷◌, Text, text_eq,
  text_eq_iff, arith, lookup, IsDict, Fresh, int_le, sub_ℕ, pos, sum, Bool-cases,
}
use vectrify_agent_runner.Base.Sort.{insert_sorted, stable_sort}
use vectrify_agent_runner.Client.Registry.{Entry, Entries, Registry}
use vectrify_agent_runner.Client.Registry.Laws.{one_if}
use vectrify_agent_runner.Client.Snapshot.{
  Snapshot, older, sort_snapshots_oldest_first, newly_stale, mark_stale, stale_entries, check_stale,
}

-- How many snapshots of a list are of one command.
abbrev pub reports : Text → List Snapshot → ℕ
reports id = sum (λ s. one_if (text_eq s.cmd_id id))

reports-insert :
    (id : Text) (s : Snapshot) (ss : List Snapshot)
    → reports id (insert_sorted older s ss) ≡ one_if (text_eq s.cmd_id id) + reports id ss
unfolding insert_sorted
reports-insert id s [] = refl
reports-insert id s (t ∷ ts) = ground (arith, reports-insert id s ts)

reports-sort :
    (id : Text) (ss : List Snapshot) → reports id (sort_snapshots_oldest_first ss) ≡ reports id ss
unfolding sort_snapshots_oldest_first stable_sort
reports-sort id [] = refl
reports-sort id (s ∷ ss) =
    omega (arith, reports-insert id s (sort_snapshots_oldest_first ss), reports-sort id ss)

-- Whether an entry is reported by a scan, 0 or 1.
abbrev stale_units : ℕ → ℕ → Option Entry → ℕ
stale_units threshold now none = 0
stale_units threshold now (some e) = one_if (newly_stale threshold now e)

reports-absent :
    (id : Text) (threshold now : ℕ) (es : Entries)
    → Fresh id es
    → reports id (stale_entries threshold now es) ≡ 0
unfolding stale_entries
reports-absent id threshold now [] h = refl
reports-absent id threshold now ((j, e) ∷ es) h =
    ground (arith, reports-absent id threshold now es h.1)

reports-stale_entries :
    (id : Text) (threshold now : ℕ) (es : Entries)
    → IsDict es
    → reports id (stale_entries threshold now es) ≡ stale_units threshold now (lookup id es)
unfolding stale_entries lookup
reports-stale_entries id threshold now [] h = refl
reports-stale_entries id threshold now ((j, e) ∷ es) h = ground (
  arith,
  reports-stale_entries id threshold now es h.1,
  reports-absent j threshold now es h.0,
  text_eq_iff j id,
)

-- The scans of `monitorStale` at the given times: how often they report one command.
unfoldable pub scan_reports : ℕ → Text → Registry → List ℕ → ℕ
scan_reports threshold id r [] = 0
scan_reports threshold id r (now ∷ times) =
    let (r', stale) = check_stale threshold now r in
    reports id stale + scan_reports threshold id r' times

-- Some scan finds the entry at or past the threshold.
abbrev pub comes_due : ℕ → Entry → List ℕ → Bool
comes_due threshold e [] = false
comes_due threshold e (now ∷ times) =
    int_le (pos threshold) (sub_ℕ now e.start) || comes_due threshold e times

abbrev pub due_units : ℕ → Option Entry → List ℕ → ℕ
due_units threshold none times = 0
due_units threshold (some e) times = one_if (not e.warned_stale && comes_due threshold e times)

mark_stale-Fresh :
    (id : Text) (threshold now : ℕ) (es : Entries)
    → Fresh id es
    → Fresh id (mark_stale threshold now es)
unfolding mark_stale
mark_stale-Fresh id threshold now [] h = tt
mark_stale-Fresh id threshold now ((j, e) ∷ es) h = (h.0, mark_stale-Fresh id threshold now es h.1)

pub mark_stale-IsDict :
    (threshold now : ℕ) (es : Entries) → IsDict es → IsDict (mark_stale threshold now es)
unfolding mark_stale
mark_stale-IsDict threshold now [] h = tt
mark_stale-IsDict threshold now ((j, e) ∷ es) h =
    (mark_stale-Fresh j threshold now es h.0, mark_stale-IsDict threshold now es h.1)

due_units-mark_stale :
    (id : Text) (threshold now : ℕ) (times : List ℕ) (es : Entries)
    → stale_units threshold now (lookup id es)
        + due_units threshold (lookup id (mark_stale threshold now es)) times
      ≡ due_units threshold (lookup id es) (now ∷ times)
unfolding lookup mark_stale
due_units-mark_stale id threshold now times [] = refl
due_units-mark_stale id threshold now times ((j, e) ∷ es) = ground (
  arith,
  due_units-mark_stale id threshold now times es,
  Bool-cases (int_le (pos threshold) (sub_ℕ now e.start)),
  Bool-cases e.warned_stale,
  Bool-cases (text_eq j id),
)

due_units-nil : (threshold : ℕ) (o : Option Entry) → 0 ≡ due_units threshold o []
due_units-nil threshold none = refl
due_units-nil threshold (some e) = ground arith

-- Over any number of scans, with no other change of the registry between them, a command is
-- reported exactly once if it had not been reported before and one of the scans finds it at or past
-- the threshold, and otherwise not at all.
pub scan_reports_once :
    (threshold : ℕ) (id : Text) (r : Registry) (times : List ℕ)
    → IsDict r.entries
    → scan_reports threshold id r times ≡ due_units threshold (lookup id r.entries) times
unfolding scan_reports check_stale
scan_reports_once threshold id r [] h = due_units-nil threshold (lookup id r.entries)
scan_reports_once threshold id r (now ∷ times) h = omega (
  arith,
  reports-sort id (stale_entries threshold now r.entries),
  reports-stale_entries id threshold now r.entries h,
  due_units-mark_stale id threshold now times r.entries,
  scan_reports_once threshold id (record r { entries = mark_stale threshold now r.entries }) times
      (mark_stale-IsDict threshold now r.entries h),
)
