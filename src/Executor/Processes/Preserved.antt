-- ===== src/Executor/Processes/Preserved.antt =====
-- executor/process.go: the accounts of the pool under every interleaving.
use mathlib.Core.Option.{some-injective}
use vectrify_agent_runner.Base.{
  ◌++◌, map, ap, ◌⊎◌, ==_iff, ℕ, ◌≡◌, ◌≢◌, inl, inr, refl, sym, ◌∙◌, subst, true, false, not, ◌&&◌,
  Option, none, some, List, [], ◌∷◌, Text, text_eq, text_eq_iff, text_eq_refl, ◌==◌, lookup, insert,
  erase, lookup-insert, lookup-erase, insert-IsDict, erase-IsDict, IsDict, get_elem?, set,
  get_elem?-set_cases, Bool-cases, arith, ℤ,
}
use vectrify_agent_runner.Executor.Processes.{
  Process, WaitResult, Phase, launched, grace, refused, already_in_use, ProcessManager, new_manager,
  kill_process, Removal, to_kill, to_reap, to_discard, ended, modify,
}
use vectrify_agent_runner.Executor.Processes.Removals.{
  target, Misses, append-IsDoomed, append-IsDoomed_new, set-IsDoomed, removed_or_missed,
}
use vectrify_agent_runner.Executor.Processes.Start.{
  launch, register, register_from, register_object, register_process, register_found, discard,
  set_phase, put_object, finish_start, finish_from, finish_object, start_reply, wait_for_exit,
  wait_object, exit_process,
}
use vectrify_agent_runner.Executor.Processes.Stop.{
  stop, stop_at, reap_once, shutdown, kept, dropped, handles, is_old, reap_process, kill_from,
  kill_removed,
}
use vectrify_agent_runner.Executor.Processes.Steps.{
  Event, begins, launches, registers, finishes, exits, stops, reaps, shuts_down, kills, step, run,
}
use vectrify_agent_runner.Executor.Processes.Accounting.{
  IsAccounted, IsSound, kill_process-Settles, reap_process-Settles, discard-Settles,
  exit_process-Settles, set-loose, modify-loose, Settles, set-launched, starts-IsAccounted,
  begin_start-IsSound, launch_from-IsSound,
}
use vectrify_agent_runner.Executor.Processes.Kept.{lookup_cons, lookup-kept, kept-IsDict}

launched-ne : {h j : ℕ} → (h == j) ≡ false → launched h ≢ launched j
launched-ne {h} {j} n e = let q : h ≡ j = cc in ground (arith, n, q)

-- The start at `k` gives up the process at `h`, which is to be killed.
discarded-IsAccounted :
    (processes : List (Text × ℕ)) (removals : List Removal) (objects : List Process)
    (starts : List Phase) (k h : ℕ) (new : Phase)
    → get_elem? starts k ≡ some (launched h)
    → IsAccounted processes removals objects starts
    → IsAccounted processes (removals ++ to_discard h ∷ []) objects (set starts k new)
discarded-IsAccounted processes removals objects starts k h new e a j q f l = elim (a j q f l) [
  | inl (inl x) ↦ inl (inl x)
  | inl (inr x) ↦ inl (inr (append-IsDoomed j removals (to_discard h ∷ []) x))
  | inr (i, x) ↦ elim (Bool-cases (h == j)) [
    | inl n ↦ inl (
        inr (
          append-IsDoomed_new j removals (to_discard h ∷ [])
            (inl (ap (λ i. some i) ((==_iff h j).0 n)))))
    | inr n ↦ inr (i, set-launched starts k i j (launched h) new e (launched-ne n) x)
  ]
]

map_left : {A B D : Type 0} → (A → B) → A ⊎ D → B ⊎ D
map_left f (inl a) = inl (f a)
map_left f (inr d) = inr d

lookup-other :
    (id key : Text) (h j : ℕ) (processes : List (Text × ℕ))
    → lookup id processes ≡ none
    → lookup key processes ≡ some j
    → lookup key (insert id h processes) ≡ some j
lookup-other id key h j processes n e = elim (Bool-cases (text_eq id key)) [
  | inl t ↦
      let u = (text_eq_iff id key).0 t in
      let w : lookup key processes ≡ none = subst (λ x. lookup x processes ≡ none) u n in cc
  | inr t ↦ lookup-insert id key h processes ∙ rw t e
]

lookup-new :
    (id : Text) (h : ℕ) (processes : List (Text × ℕ)) → lookup id (insert id h processes) ≡ some h
lookup-new id h processes = lookup-insert id id h processes ∙ rw (text_eq_refl id) refl

registered-IsAccounted :
    (processes : List (Text × ℕ)) (removals : List Removal) (objects : List Process)
    (starts : List Phase) (k h : ℕ) (p : Process)
    → get_elem? starts k ≡ some (launched h)
    → lookup p.id processes ≡ none
    → IsAccounted processes removals objects starts
    → IsAccounted
        (insert p.id h processes)
        removals
        (set objects h (record p { waited_for = true }))
        (set starts k (grace h))
registered-IsAccounted processes removals objects starts k h p e n a j q f l =
    elim (get_elem?-set_cases objects h (record p { waited_for = true }) j f) [
      | inl (x, y) ↦ inl (inl (rw (x, y) (lookup-new p.id h processes)))
      | inr (x, y) ↦ elim (a j q y l) [
        | inl z ↦ inl (map_left (lookup-other p.id q.id h j processes n) z)
        | inr (i, z) ↦ inr (i, set-launched starts k i j (launched h) (grace h) e (launched-ne x) z)
      ]
    ]

register_found-IsSound :
    (m : ProcessManager) (k h : ℕ) (p : Process) (found : Option ℕ)
    → lookup p.id m.processes ≡ found
    → get_elem? m.starts k ≡ some (launched h)
    → IsSound m
    → IsSound (register_found m k h p found)
unfolding register_found set_phase put_object
register_found-IsSound m k h p none n e (d, a) = (
  insert-IsDict p.id h m.processes d,
  registered-IsAccounted m.processes m.removals m.objects m.starts k h p e n a,
)
register_found-IsSound m k h p (some o) n e (d, a) = (
  d,
  discarded-IsAccounted m.processes m.removals m.objects m.starts k h (refused already_in_use) e a,
)

register_object-IsSound :
    (m : ProcessManager) (k h : ℕ) (p : Option Process)
    → get_elem? m.starts k ≡ some (launched h)
    → IsSound m
    → IsSound (register_object m k h p)
unfolding register_object register_process
register_object-IsSound m k h none e s = s
register_object-IsSound m k h (some p) e s =
    register_found-IsSound m k h p (lookup p.id m.processes) refl e s

register_from-IsSound :
    (m : ProcessManager) (k : ℕ) (phase : Option Phase)
    → get_elem? m.starts k ≡ phase
    → IsSound m
    → IsSound (register_from m k phase)
unfolding register_from
register_from-IsSound m k (some (launched h)) e s =
    register_object-IsSound m k h (get_elem? m.objects h) e s
register_from-IsSound m k phase e s = s

finish_object-IsSound :
    (m : ProcessManager) (k h : ℕ) (p : Option Process)
    → get_elem? m.starts k ≡ some (grace h)
    → IsSound m
    → IsSound (finish_object m k h p)
unfolding finish_object set_phase
finish_object-IsSound m k h none e s = s
finish_object-IsSound m k h (some p) e (d, a) = (
  d,
  starts-IsAccounted m.processes m.removals m.objects m.starts k (grace h) (start_reply h p) e
      (λ i. λ q. cc) a,
)

finish_from-IsSound :
    (m : ProcessManager) (k : ℕ) (phase : Option Phase)
    → get_elem? m.starts k ≡ phase
    → IsSound m
    → IsSound (finish_from m k phase)
unfolding finish_from
finish_from-IsSound m k (some (grace h)) e s =
    finish_object-IsSound m k h (get_elem? m.objects h) e s
finish_from-IsSound m k phase e s = s

wait_object-IsSound :
    (m : ProcessManager) (h now : ℕ) (result : WaitResult) (p : Option Process)
    → IsSound m
    → IsSound (wait_object m h now result p)
unfolding wait_object put_object
wait_object-IsSound m h now result none s = s
wait_object-IsSound m h now result (some p) (d, a) =
    elim (Bool-cases (p.waited_for && not p.exited)) [
      | inl e ↦ rw e (
        d,
        λ j q f l.
            a j q
              (set-loose m.objects h j q (exit_process now result p)
                (exit_process-Settles now result p) f l).1
              l,
      )
      | inr e ↦ rw e (d, a)
    ]

lookup-spared :
    (id key : Text) (h j : ℕ) (processes : List (Text × ℕ))
    → IsDict processes
    → lookup id processes ≡ some h
    → (h == j) ≡ false
    → lookup key processes ≡ some j
    → lookup key (erase id processes) ≡ some j
lookup-spared id key h j processes d e n f = elim (Bool-cases (text_eq id key)) [
  | inl t ↦
      let u = (text_eq_iff id key).0 t in
      let w : lookup key processes ≡ some h = subst (λ x. lookup x processes ≡ some h) u e in
      ground (arith, n, some-injective _ _ (sym w ∙ f))
  | inr t ↦ lookup-erase id key processes d ∙ rw t f
]

stop_at-IsSound :
    (m : ProcessManager) (id : Text) (found : Option ℕ)
    → lookup id m.processes ≡ found
    → IsSound m
    → IsSound (stop_at m id found).0
unfolding stop_at
stop_at-IsSound m id none e s = s
stop_at-IsSound m id (some h) e (d, a) = (
  erase-IsDict id m.processes d,
  λ j q f l. elim (a j q f l) [
    | inl (inr x) ↦ inl (inr (append-IsDoomed j m.removals (to_kill h ∷ []) x))
    | inl (inl x) ↦ elim (Bool-cases (h == j)) [
      | inl n ↦ inl (
          inr (
            append-IsDoomed_new j m.removals (to_kill h ∷ [])
              (inl (ap (λ i. some i) ((==_iff h j).0 n)))))
      | inr n ↦ inl (inl (lookup-spared id q.id h j m.processes d e n x))
    ]
    | inr x ↦ inr x
  ],
)

lookup-handles :
    (id : Text) (j : ℕ) (processes : List (Text × ℕ))
    → Misses j (handles processes)
    → lookup id processes ≡ some j
    → ⊥
unfolding handles lookup
lookup-handles id j [] a e = cc
lookup-handles id j ((i, h) ∷ processes) a e = elim (lookup_cons id i h j processes e) [
  | inl (t, q) ↦ ground (arith, a.0, q)
  | inr (t, q) ↦ lookup-handles id j processes a.1 q
]

-- Entries are taken out of the pool, and those processes are to be killed.
removed-IsAccounted :
    (processes rest : List (Text × ℕ)) (removals : List Removal) (objects : List Process)
    (starts : List Phase) (make : ℕ → Removal) (hs : List ℕ)
    → ((h : ℕ) → target (make h) ≡ some h)
    → ((id : Text) (j : ℕ) → Misses j hs → lookup id processes ≡ some j → lookup id rest ≡ some j)
    → IsAccounted processes removals objects starts
    → IsAccounted rest (removals ++ map make hs) objects starts
removed-IsAccounted processes rest removals objects starts make hs t keep a j q f l =
    elim (a j q f l) [
      | inl (inr x) ↦ inl (inr (append-IsDoomed j removals (map make hs) x))
      | inl (inl x) ↦ elim (removed_or_missed make j hs t) [
        | inl n ↦ inl (inl (keep q.id j n x))
        | inr n ↦ inl (inr (append-IsDoomed_new j removals (map make hs) n))
      ]
      | inr x ↦ inr x
    ]

reap_once-IsSound : (m : ProcessManager) (now : ℕ) → IsSound m → IsSound (reap_once m now)
unfolding reap_once
reap_once-IsSound m now (d, a) = (
  kept-IsDict (is_old m now) m.processes d,
  removed-IsAccounted m.processes (kept (is_old m now) m.processes) m.removals m.objects m.starts
      to_reap (dropped (is_old m now) m.processes) (λ h. refl)
      (λ id j n x. lookup-kept (is_old m now) id j m.processes n x) a,
)

shutdown-IsSound : (m : ProcessManager) → IsSound m → IsSound (shutdown m)
unfolding shutdown
shutdown-IsSound m (d, a) = elim (Bool-cases m.shutting_down) [
  | inl e ↦ rw e (d, a)
  | inr e ↦ rw e (
    tt,
    removed-IsAccounted m.processes [] m.removals m.objects m.starts to_kill (handles m.processes)
        (λ h. refl) (λ id j n x. absurd (lookup-handles id j m.processes n x)) a,
  )
]

-- A removal is done with once its process is settled.
killed-IsAccounted :
    (m : ProcessManager) (k h : ℕ) (r : Removal) (f : Process → Process)
    → get_elem? m.removals k ≡ some r
    → target r ≡ some h
    → Settles f
    → IsAccounted m.processes m.removals m.objects m.starts
    → IsAccounted m.processes (set m.removals k ended) (modify f m.objects h) m.starts
killed-IsAccounted m k h r f e t s a j q g l =
    let (n, b) = modify-loose f m.objects h j q s g l in
    elim (a j q b l) [
      | inl (inl x) ↦ inl (inl x)
      | inl (inr x) ↦ inl (inr (set-IsDoomed m.removals k h j r e t n x))
      | inr x ↦ inr x
    ]

kill_from-IsSound :
    (m : ProcessManager) (k : ℕ) (found : Option Removal)
    → get_elem? m.removals k ≡ found
    → IsSound m
    → IsSound (kill_from m k found)
unfolding kill_from
kill_from-IsSound m k none e s = s
kill_from-IsSound m k (some ended) e s = s
kill_from-IsSound m k (some (to_kill h)) e (d, a) =
    (d, killed-IsAccounted m k h (to_kill h) kill_process e refl kill_process-Settles a)
kill_from-IsSound m k (some (to_reap h)) e (d, a) =
    (d, killed-IsAccounted m k h (to_reap h) reap_process e refl reap_process-Settles a)
kill_from-IsSound m k (some (to_discard h)) e (d, a) =
    (d, killed-IsAccounted m k h (to_discard h) discard e refl discard-Settles a)

pub step-IsSound : (m : ProcessManager) (e : Event) → IsSound m → IsSound (step m e)
unfolding step launch register finish_start wait_for_exit stop kill_removed
step-IsSound m (begins id command dir) s = begin_start-IsSound m id command dir s
step-IsSound m (launches k now answer) s =
    launch_from-IsSound m k now answer (get_elem? m.starts k) refl s
step-IsSound m (registers k) s = register_from-IsSound m k (get_elem? m.starts k) refl s
step-IsSound m (finishes k) s = finish_from-IsSound m k (get_elem? m.starts k) refl s
step-IsSound m (exits h now result) s = wait_object-IsSound m h now result (get_elem? m.objects h) s
step-IsSound m (stops id) s = stop_at-IsSound m id (lookup id m.processes) refl s
step-IsSound m (reaps now) s = reap_once-IsSound m now s
step-IsSound m shuts_down s = shutdown-IsSound m s
step-IsSound m (kills k) s = kill_from-IsSound m k (get_elem? m.removals k) refl s

run-IsSound_from : (m : ProcessManager) (es : List Event) → IsSound m → IsSound (run m es)
unfolding run
run-IsSound_from m [] s = s
run-IsSound_from m (e ∷ es) s = run-IsSound_from (step m e) es (step-IsSound m e s)

-- Whatever the goroutines do, and in whatever order: no identifier stands twice in the pool, and a
-- process whose tracker is attached, was not signalled and is not known to have exited stands in the pool
-- under its identifier, or its `Start` has not yet taken the lock again, or the `Stop`, `reapOnce` or
-- `Shutdown` that has taken it out of the pool, or the `Start` that was refused, has yet to kill it.
pub run-IsSound :
    (root : Text) (limit : ℤ) (age : ℕ) (es : List Event)
    → IsSound (run (new_manager root limit age) es)
unfolding new_manager
run-IsSound root limit age es = run-IsSound_from (new_manager root limit age) es (tt, λ j q f l. cc)
