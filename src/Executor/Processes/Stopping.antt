-- ===== src/Executor/Processes/Stopping.antt =====
-- executor/process.go: what shutting down leaves behind.
use vectrify_agent_runner.Base.{
  is_zero, ℕ, ◌≡◌, ◌≢◌, inl, inr, refl, sym, ◌∙◌, subst, Bool, true, false, not, ◌&&◌, Option, none,
  some, List, [], ◌∷◌, Text, text_eq, lookup, get_elem?, All, All-set, All-append, get_elem?-All,
  Bool-cases, ℤ,
}
use vectrify_agent_runner.Executor.Processes.{
  Process, WaitResult, Phase, checked, launched, grace, started, refused, ProcessManager,
  new_manager, Removal, to_kill, to_reap, to_discard, ended,
}
use vectrify_agent_runner.Executor.Processes.Start.{
  Launch, fails, runs, begin_start, check_start, launch, launch_from, register, register_from,
  set_phase, put_object, finish_start, finish_from, finish_object, start_reply, wait_for_exit,
  wait_object,
}
use vectrify_agent_runner.Executor.Processes.Stop.{
  stop, stop_at, reap_once, shutdown, kept, is_old, kill_from, kill_removed,
}
use vectrify_agent_runner.Executor.Processes.Steps.{
  Event, begins, launches, registers, finishes, exits, stops, reaps, shuts_down, kills, step, run,
}
use vectrify_agent_runner.Executor.Processes.Accounting.{IsLoose, IsSound}
use vectrify_agent_runner.Executor.Processes.Preserved.{step-IsSound, run-IsSound}
use vectrify_agent_runner.Executor.Processes.Removals.{IsDoomed, ended-IsDoomed}

-- A call of `Start` that is past its second lock, or was refused.
abbrev pub IsSettled : Phase → Type 0
IsSettled (checked id command dir) = ⊥
IsSettled (launched h) = ⊥
IsSettled (grace h) = Unit
IsSettled (started h) = Unit
IsSettled (refused e) = Unit

abbrev IsClosed : ProcessManager → Type 0
IsClosed m = (m.shutting_down ≡ true) × (m.processes ≡ []) × All IsSettled m.starts

check_start-IsSettled :
    (m : ProcessManager) (id command dir : Text)
    → m.shutting_down ≡ true
    → IsSettled (check_start m id command dir)
unfolding check_start
check_start-IsSettled m id command dir e = elim (Bool-cases (text_eq id [])) [
  | inl a ↦ rw a tt
  | inr a ↦ elim (Bool-cases (text_eq command [])) [
    | inl b ↦ rw (a, b) tt
    | inr b ↦ rw (a, b, e) tt
  ]
]

launch_from-IsClosed :
    (m : ProcessManager) (k now : ℕ) (answer : Launch) (phase : Option Phase)
    → get_elem? m.starts k ≡ phase
    → IsClosed m
    → IsClosed (launch_from m k now answer phase)
unfolding launch_from
launch_from-IsClosed m k now answer (some (checked id command dir)) e c =
    absurd (get_elem?-All IsSettled m.starts k c.2 e)
launch_from-IsClosed m k now (fails x) phase e c = c
launch_from-IsClosed m k now (runs pid tree log_path) phase e c = c

register_from-IsClosed :
    (m : ProcessManager) (k : ℕ) (phase : Option Phase)
    → get_elem? m.starts k ≡ phase
    → IsClosed m
    → IsClosed (register_from m k phase)
unfolding register_from
register_from-IsClosed m k (some (launched h)) e c =
    absurd (get_elem?-All IsSettled m.starts k c.2 e)
register_from-IsClosed m k phase e c = c

start_reply-IsSettled : (h : ℕ) (p : Process) → IsSettled (start_reply h p)
unfolding start_reply
start_reply-IsSettled h p = elim (Bool-cases (p.exited && not (is_zero p.exit_code))) [
  | inl a ↦ rw a tt
  | inr a ↦ rw a tt
]

finish_object-IsClosed :
    (m : ProcessManager) (k h : ℕ) (p : Option Process)
    → IsClosed m
    → IsClosed (finish_object m k h p)
unfolding finish_object set_phase
finish_object-IsClosed m k h none c = c
finish_object-IsClosed m k h (some p) c =
    (c.0, c.1, All-set IsSettled m.starts k (start_reply h p) c.2 (start_reply-IsSettled h p))

finish_from-IsClosed :
    (m : ProcessManager) (k : ℕ) (phase : Option Phase)
    → IsClosed m
    → IsClosed (finish_from m k phase)
unfolding finish_from
finish_from-IsClosed m k (some (grace h)) c = finish_object-IsClosed m k h (get_elem? m.objects h) c
finish_from-IsClosed m k phase c = c

wait_object-IsClosed :
    (m : ProcessManager) (h now : ℕ) (result : WaitResult) (p : Option Process)
    → IsClosed m
    → IsClosed (wait_object m h now result p)
unfolding wait_object put_object
wait_object-IsClosed m h now result none c = c
wait_object-IsClosed m h now result (some p) c = elim (Bool-cases (p.waited_for && not p.exited)) [
  | inl e ↦ rw e c
  | inr e ↦ rw e c
]

shutdown_again : (m : ProcessManager) → m.shutting_down ≡ true → shutdown m ≡ m
unfolding shutdown
shutdown_again m e = rw e refl

stop_at-IsClosed :
    (m : ProcessManager) (id : Text) (found : Option ℕ)
    → found ≡ none
    → IsClosed m
    → IsClosed (stop_at m id found).0
unfolding stop_at
stop_at-IsClosed m id none e c = c
stop_at-IsClosed m id (some h) e c = cc

kill_from-IsClosed :
    (m : ProcessManager) (k : ℕ) (found : Option Removal)
    → IsClosed m
    → IsClosed (kill_from m k found)
unfolding kill_from
kill_from-IsClosed m k none c = c
kill_from-IsClosed m k (some ended) c = c
kill_from-IsClosed m k (some (to_kill h)) c = c
kill_from-IsClosed m k (some (to_reap h)) c = c
kill_from-IsClosed m k (some (to_discard h)) c = c

lookup_empty :
    (id : Text) (processes : List (Text × ℕ)) → processes ≡ [] → lookup id processes ≡ none
unfolding lookup
lookup_empty id processes e = rw e refl

kept_empty :
    (old : ℕ → Bool) (processes : List (Text × ℕ)) → processes ≡ [] → kept old processes ≡ []
unfolding kept
kept_empty old processes e = rw e refl

step-IsClosed : (m : ProcessManager) (e : Event) → IsClosed m → IsClosed (step m e)
unfolding step begin_start launch register finish_start wait_for_exit stop reap_once kill_removed
step-IsClosed m (begins id command dir) c = (
  c.0,
  c.1,
  All-append IsSettled m.starts (check_start m id command dir ∷ []) c.2
      (check_start-IsSettled m id command dir c.0, tt),
)
step-IsClosed m (launches k now answer) c =
    launch_from-IsClosed m k now answer (get_elem? m.starts k) refl c
step-IsClosed m (registers k) c = register_from-IsClosed m k (get_elem? m.starts k) refl c
step-IsClosed m (finishes k) c = finish_from-IsClosed m k (get_elem? m.starts k) c
step-IsClosed m (exits h now result) c =
    wait_object-IsClosed m h now result (get_elem? m.objects h) c
step-IsClosed m (stops id) c =
    stop_at-IsClosed m id (lookup id m.processes) (lookup_empty id m.processes c.1) c
step-IsClosed m (reaps now) c = (c.0, kept_empty (is_old m now) m.processes c.1, c.2)
step-IsClosed m shuts_down c = subst IsClosed (sym (shutdown_again m c.0)) c
step-IsClosed m (kills k) c = kill_from-IsClosed m k (get_elem? m.removals k) c

run-IsClosed :
    (m : ProcessManager) (es : List Event)
    → IsSound m
    → IsClosed m
    → IsSound (run m es) × IsClosed (run m es)
unfolding run
run-IsClosed m [] s c = (s, c)
run-IsClosed m (e ∷ es) s c = run-IsClosed (step m e) es (step-IsSound m e s) (step-IsClosed m e c)

some-ne-none : {h : ℕ} → some h ≢ none
some-ne-none e = cc

closed-IsDoomed :
    (m : ProcessManager)
    → IsSound m
    → IsClosed m
    → (h : ℕ) (p : Process) → get_elem? m.objects h ≡ some p
    → IsLoose p
    → IsDoomed h m.removals
closed-IsDoomed m s c h p e l = elim (s.1 h p e l) [
  | inl (inl x) ↦ absurd (some-ne-none (sym x ∙ lookup_empty p.id m.processes c.1))
  | inl (inr x) ↦ x
  | inr (k, x) ↦ absurd (get_elem?-All IsSettled m.starts k c.2 x)
]

shutdown-IsClosed :
    (m : ProcessManager) → m.shutting_down ≡ false → All IsSettled m.starts → IsClosed (shutdown m)
unfolding shutdown
shutdown-IsClosed m e a = rw e (refl, refl, a)

-- A shutdown at a moment at which no call of `Start` stands between its two locks: whatever the
-- goroutines do before and afterwards, the pool is empty from then on, and a process that was ever
-- started with a tracker attached has been signalled, or is known to have exited, or is one that
-- `Stop`, `reapOnce` or `Shutdown` took out of the pool, or `Start` refused, and has yet to kill. Once those are done with,
-- every such process has been signalled or is known to have exited.
pub shutdown-final :
    (root : Text) (limit : ℤ) (age : ℕ) (before after : List Event)
    → (run (new_manager root limit age) before).shutting_down ≡ false
    → All IsSettled (run (new_manager root limit age) before).starts
    → let n = run (shutdown (run (new_manager root limit age) before)) after in
      (n.processes ≡ [])
      × ((h : ℕ) (p : Process) → get_elem? n.objects h ≡ some p → IsLoose p → IsDoomed h n.removals)
      × (All (λ r. r ≡ ended) n.removals
          → (h : ℕ) (p : Process) → get_elem? n.objects h ≡ some p
          → ¬ IsLoose p)
shutdown-final root limit age before after e a =
    let m = run (new_manager root limit age) before in
    let n = run (shutdown m) after in
    let (s, c) =
      run-IsClosed (shutdown m) after
        (unfold step in step-IsSound m shuts_down (run-IsSound root limit age before))
        (shutdown-IsClosed m e a) in
    (
      c.1,
      closed-IsDoomed n s c,
      λ done h p f l. ended-IsDoomed h n.removals done (closed-IsDoomed n s c h p f l),
    )
