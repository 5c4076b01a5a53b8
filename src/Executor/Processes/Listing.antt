-- ===== src/Executor/Processes/Listing.antt =====
-- executor/process.go: `List`. The order of the entries is the order of the map.
use vectrify_agent_runner.Base.{
  ℕ, ◌≡◌, inl, inr, refl, Bool, not, Option, none, some, List, [], ◌∷◌, Text, lookup, get_elem?,
  suc, ℤ,
}
use vectrify_agent_runner.Executor.Processes.{Process, ProcessManager}
use vectrify_agent_runner.Executor.Processes.Kept.{nothing_found, lookup_cons}

pub record ProcessInfo : Type 0 where
  pub id : Text
  pub pid : ℕ
  pub command : Text
  pub working_dir : Text
  pub started_at : ℕ
  pub running : Bool
  pub exit_code : ℤ
  pub exit_error : Text

unfoldable pub snapshot : Process → ProcessInfo
snapshot p = record {
  id = p.id;
  pid = p.pid;
  command = p.command;
  working_dir = p.working_dir;
  started_at = p.started_at;
  running = not p.exited;
  exit_code = p.exit_code;
  exit_error = p.exit_err;
}

-- An entry of the map always has its object.
unfoldable pub append_snapshot : Option Process → List ProcessInfo → List ProcessInfo
unfolding snapshot
append_snapshot none out = out
append_snapshot (some p) out = snapshot p ∷ out

unfoldable pub list_entries : List Process → List (Text × ℕ) → List ProcessInfo
unfolding append_snapshot
list_entries objects [] = []
list_entries objects ((id, h) ∷ entries) =
    append_snapshot (get_elem? objects h) (list_entries objects entries)

-- `List`
unfoldable pub list : ProcessManager → List ProcessInfo
unfolding list_entries
list m = list_entries m.objects m.processes

get_elem?-append_snapshot :
    (found : Option Process) (out : List ProcessInfo) (k : ℕ) (info : ProcessInfo)
    → get_elem? out k ≡ some info
    → (n : ℕ) × (get_elem? (append_snapshot found out) n ≡ some info)
unfolding append_snapshot
get_elem?-append_snapshot none out k info e = (k, e)
get_elem?-append_snapshot (some p) out k info e = (suc k, e)

list_entries-lookup :
    (objects : List Process) (entries : List (Text × ℕ)) (id : Text) (h : ℕ) (p : Process)
    → lookup id entries ≡ some h
    → get_elem? objects h ≡ some p
    → (n : ℕ) × (get_elem? (list_entries objects entries) n ≡ some (snapshot p))
unfolding list_entries append_snapshot
list_entries-lookup objects [] id h p e o = absurd (nothing_found id e)
list_entries-lookup objects ((i, g) ∷ entries) id h p e o = elim (lookup_cons id i g h entries e) [
  | inl (t, q) ↦ (0, rw (q, o) refl)
  | inr (t, q) ↦
      let (k, f) = list_entries-lookup objects entries id h p q o in
      get_elem?-append_snapshot (get_elem? objects g) (list_entries objects entries) k (snapshot p)
        f
]

-- The process that an identifier stands for is listed as it is at that moment.
list-lookup :
    (m : ProcessManager) (id : Text) (h : ℕ) (p : Process)
    → lookup id m.processes ≡ some h
    → get_elem? m.objects h ≡ some p
    → (n : ℕ) × (get_elem? (list m) n ≡ some (snapshot p))
unfolding list
list-lookup m id h p = list_entries-lookup m.objects m.processes id h p
