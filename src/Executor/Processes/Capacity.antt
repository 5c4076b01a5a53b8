-- ===== src/Executor/Processes/Capacity.antt =====
-- executor/process.go: the limit on processes, which `Start` checks under its first lock only.
use vectrify_agent_runner.Base.{
  is_zero, ℕ, suc, ◌+◌, ◌≤◌, ◌<◌, ◌≡◌, ◌⊎◌, inl, inr, refl, Bool, not, ◌&&◌, Option, none, some,
  List, [], ◌∷◌, Text, text_eq, leb, lookup, insert, erase, get_elem?, set, length, sum, sum-append,
  sum-set, Bool-cases, Option-cases, arith, ℤ,
}
use vectrify_agent_runner.Executor.Processes.{
  Process, WaitResult, Removal, to_kill, to_reap, to_discard, ended, Phase, checked, launched,
  grace, started, refused, already_in_use, ProcessManager, new_manager, default_limit,
}
use vectrify_agent_runner.Executor.Processes.Start.{
  Launch, fails, runs, begin_start, check_start, launch, launch_from, register, register_from,
  register_object, register_process, register_found, set_phase, put_object, finish_start,
  finish_from, finish_object, start_reply, wait_for_exit, wait_object,
}
use vectrify_agent_runner.Executor.Processes.Stop.{
  stop, stop_at, reap_once, shutdown, kept, is_old, kill_from, kill_removed,
}
use vectrify_agent_runner.Executor.Processes.Steps.{
  Event, begins, launches, registers, finishes, exits, stops, reaps, shuts_down, kills, step, run,
}
use vectrify_agent_runner.Executor.Processes.Limit.{run-max}

-- Whether a call of `Start` stands between its two locks.
abbrev pub pending : Phase → ℕ
pending (checked id command dir) = 1
pending (launched h) = 1
pending (grace h) = 0
pending (started h) = 0
pending (refused e) = 0

abbrev pub pending_starts : ProcessManager → ℕ
pending_starts m = sum pending m.starts

-- Never more than `c` calls of `Start` between their two locks.
abbrev pub HasAtMostPending : ℕ → ProcessManager → List Event → Type 0
HasAtMostPending c m [] = pending_starts m ≤ c
HasAtMostPending c m (e ∷ es) = (pending_starts m ≤ c) × HasAtMostPending c (step m e) es

pending_head :
    (c : ℕ) (m : ProcessManager) (es : List Event) → HasAtMostPending c m es → pending_starts m ≤ c
pending_head c m [] p = p
pending_head c m (e ∷ es) p = p.0

abbrev IsWithin : ℕ → ProcessManager → Type 0
IsWithin c m = length m.processes + pending_starts m + 1 ≤ m.max_processes + c

length-insert :
    (id : Text) (h : ℕ) (processes : List (Text × ℕ))
    → length (insert id h processes) ≤ suc (length processes)
unfolding insert
length-insert id h [] = ground arith
length-insert id h ((i, g) ∷ processes) = ground (arith, length-insert id h processes)

length-erase :
    (id : Text) (processes : List (Text × ℕ)) → length (erase id processes) ≤ length processes
unfolding erase
length-erase id [] = ground arith
length-erase id ((i, g) ∷ processes) = ground (arith, length-erase id processes)

length-kept :
    (old : ℕ → Bool) (processes : List (Text × ℕ)) → length (kept old processes) ≤ length processes
unfolding kept
length-kept old [] = ground arith
length-kept old ((i, g) ∷ processes) = ground (arith, length-kept old processes)

check_start-pending :
    (m : ProcessManager) (id command dir : Text)
    → (pending (check_start m id command dir) ≡ 0)
      ⊎ ((pending (check_start m id command dir) ≡ 1) × (length m.processes < m.max_processes))
unfolding check_start
check_start-pending m id command dir = elim (Bool-cases (text_eq id [])) [
  | inl a ↦ rw a (inl refl)
  | inr a ↦ elim (Bool-cases (text_eq command [])) [
    | inl b ↦ rw (a, b) (inl refl)
    | inr b ↦ elim (Bool-cases m.shutting_down) [
      | inl c ↦ rw (a, b, c) (inl refl)
      | inr c ↦ elim (Option-cases (lookup id m.processes)) [
        | inr (h, d) ↦ rw (a, b, c, d) (inl refl)
        | inl d ↦ elim (Bool-cases (leb m.max_processes (length m.processes))) [
          | inl e ↦ rw (a, b, c, d, e) (inl refl)
          | inr e ↦ rw (a, b, c, d, e) (inr (refl, ground (arith, e)))
        ]
      ]
    ]
  ]
]

-- A start that moves on.
set-pending :
    (starts : List Phase) (k : ℕ) (old new : Phase)
    → get_elem? starts k ≡ some old
    → sum pending (set starts k new) + pending old ≡ sum pending starts + pending new
set-pending starts k old new e = sum-set pending starts k new e

begin_start-IsWithin :
    (c : ℕ) (m : ProcessManager) (id command dir : Text)
    → IsWithin c m
    → pending_starts (begin_start m id command dir) ≤ c
    → IsWithin c (begin_start m id command dir)
unfolding begin_start
begin_start-IsWithin c m id command dir w p =
    let q = sum-append pending m.starts (check_start m id command dir ∷ []) in
    elim (check_start-pending m id command dir) [
      | inl e ↦ ground (arith, e, q, w)
      | inr (e, l) ↦ ground (arith, e, q, l, p)
    ]

launch_from-IsWithin :
    (c : ℕ) (m : ProcessManager) (k now : ℕ) (answer : Launch) (phase : Option Phase)
    → get_elem? m.starts k ≡ phase
    → IsWithin c m
    → IsWithin c (launch_from m k now answer phase)
unfolding launch_from set_phase
launch_from-IsWithin c m k now (fails x) (some (checked id command dir)) e w =
    ground (arith, w, sum-set pending m.starts k (refused x) e)
launch_from-IsWithin c m k now (runs pid tree log_path) (some (checked id command dir)) e w =
    ground (arith, w, sum-set pending m.starts k (launched (length m.objects)) e)
launch_from-IsWithin c m k now (fails x) phase e w = w
launch_from-IsWithin c m k now (runs pid tree log_path) phase e w = w

register_found-IsWithin :
    (c : ℕ) (m : ProcessManager) (k h : ℕ) (p : Process) (found : Option ℕ)
    → get_elem? m.starts k ≡ some (launched h)
    → IsWithin c m
    → IsWithin c (register_found m k h p found)
unfolding register_found set_phase put_object
register_found-IsWithin c m k h p none e w =
    ground (arith, w, sum-set pending m.starts k (grace h) e, length-insert p.id h m.processes)
register_found-IsWithin c m k h p (some o) e w =
    ground (arith, w, sum-set pending m.starts k (refused already_in_use) e)

register_object-IsWithin :
    (c : ℕ) (m : ProcessManager) (k h : ℕ) (p : Option Process)
    → get_elem? m.starts k ≡ some (launched h)
    → IsWithin c m
    → IsWithin c (register_object m k h p)
unfolding register_object register_process
register_object-IsWithin c m k h none e w = w
register_object-IsWithin c m k h (some p) e w =
    register_found-IsWithin c m k h p (lookup p.id m.processes) e w

register_from-IsWithin :
    (c : ℕ) (m : ProcessManager) (k : ℕ) (phase : Option Phase)
    → get_elem? m.starts k ≡ phase
    → IsWithin c m
    → IsWithin c (register_from m k phase)
unfolding register_from
register_from-IsWithin c m k (some (launched h)) e w =
    register_object-IsWithin c m k h (get_elem? m.objects h) e w
register_from-IsWithin c m k phase e w = w

start_reply-pending : (h : ℕ) (p : Process) → pending (start_reply h p) ≡ 0
unfolding start_reply
start_reply-pending h p = elim (Bool-cases (p.exited && not (is_zero p.exit_code))) [
  | inl e ↦ rw e refl
  | inr e ↦ rw e refl
]

finish_object-IsWithin :
    (c : ℕ) (m : ProcessManager) (k h : ℕ) (p : Option Process)
    → get_elem? m.starts k ≡ some (grace h)
    → IsWithin c m
    → IsWithin c (finish_object m k h p)
unfolding finish_object set_phase
finish_object-IsWithin c m k h none e w = w
finish_object-IsWithin c m k h (some p) e w =
    ground (arith, w, sum-set pending m.starts k (start_reply h p) e, start_reply-pending h p)

finish_from-IsWithin :
    (c : ℕ) (m : ProcessManager) (k : ℕ) (phase : Option Phase)
    → get_elem? m.starts k ≡ phase
    → IsWithin c m
    → IsWithin c (finish_from m k phase)
unfolding finish_from
finish_from-IsWithin c m k (some (grace h)) e w =
    finish_object-IsWithin c m k h (get_elem? m.objects h) e w
finish_from-IsWithin c m k phase e w = w

wait_object-IsWithin :
    (c : ℕ) (m : ProcessManager) (h now : ℕ) (result : WaitResult) (p : Option Process)
    → IsWithin c m
    → IsWithin c (wait_object m h now result p)
unfolding wait_object put_object
wait_object-IsWithin c m h now result none w = w
wait_object-IsWithin c m h now result (some p) w =
    elim (Bool-cases (p.waited_for && not p.exited)) [ inl e ↦ rw e w | inr e ↦ rw e w ]

stop_at-IsWithin :
    (c : ℕ) (m : ProcessManager) (id : Text) (found : Option ℕ)
    → IsWithin c m
    → IsWithin c (stop_at m id found).0
unfolding stop_at
stop_at-IsWithin c m id none w = w
stop_at-IsWithin c m id (some h) w = ground (arith, w, length-erase id m.processes)

shutdown-IsWithin : (c : ℕ) (m : ProcessManager) → IsWithin c m → IsWithin c (shutdown m)
unfolding shutdown
shutdown-IsWithin c m w = elim (Bool-cases m.shutting_down) [
  | inl e ↦ rw e w
  | inr e ↦ rw e (ground (arith, w))
]

kill_from-IsWithin :
    (c : ℕ) (m : ProcessManager) (k : ℕ) (found : Option Removal)
    → IsWithin c m
    → IsWithin c (kill_from m k found)
unfolding kill_from
kill_from-IsWithin c m k none w = w
kill_from-IsWithin c m k (some ended) w = w
kill_from-IsWithin c m k (some (to_kill h)) w = w
kill_from-IsWithin c m k (some (to_reap h)) w = w
kill_from-IsWithin c m k (some (to_discard h)) w = w

step-IsWithin :
    (c : ℕ) (m : ProcessManager) (e : Event)
    → IsWithin c m
    → pending_starts (step m e) ≤ c
    → IsWithin c (step m e)
unfolding step launch register finish_start wait_for_exit stop reap_once kill_removed
step-IsWithin c m (begins id command dir) w p = begin_start-IsWithin c m id command dir w p
step-IsWithin c m (launches k now answer) w p =
    launch_from-IsWithin c m k now answer (get_elem? m.starts k) refl w
step-IsWithin c m (registers k) w p = register_from-IsWithin c m k (get_elem? m.starts k) refl w
step-IsWithin c m (finishes k) w p = finish_from-IsWithin c m k (get_elem? m.starts k) refl w
step-IsWithin c m (exits h now result) w p =
    wait_object-IsWithin c m h now result (get_elem? m.objects h) w
step-IsWithin c m (stops id) w p = stop_at-IsWithin c m id (lookup id m.processes) w
step-IsWithin c m (reaps now) w p = ground (arith, w, length-kept (is_old m now) m.processes)
step-IsWithin c m shuts_down w p = shutdown-IsWithin c m w
step-IsWithin c m (kills k) w p = kill_from-IsWithin c m k (get_elem? m.removals k) w

run-IsWithin :
    (c : ℕ) (m : ProcessManager) (es : List Event)
    → IsWithin c m
    → HasAtMostPending c m es
    → IsWithin c (run m es)
unfolding run
run-IsWithin c m [] w p = w
run-IsWithin c m (e ∷ es) w p =
    run-IsWithin c (step m e) es (step-IsWithin c m e w (pending_head c (step m e) es p.1)) p.1

-- With never more than `c` calls of `Start` between their two locks, the pool and those calls together
-- stay below the limit plus `c`. So the pool keeps within the limit when one call runs at a time.
pub run-bounded :
    (c : ℕ) (root : Text) (limit : ℤ) (age : ℕ) (es : List Event)
    → HasAtMostPending c (new_manager root limit age) es
    → let n = run (new_manager root limit age) es in
      length n.processes + pending_starts n < (new_manager root limit age).max_processes + c
unfolding new_manager default_limit
run-bounded c root limit age es p =
    let w = run-IsWithin c (new_manager root limit age) es (ground arith) p in
    ground (arith, w, run-max (new_manager root limit age) es)
