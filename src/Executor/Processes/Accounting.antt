-- ===== src/Executor/Processes/Accounting.antt =====
-- executor/process.go: no process that runs is lost from the pool.
use mathlib.Core.Option.{some-injective}
use vectrify_agent_runner.Base.{
  ℕ, ◌≡◌, ◌≢◌, ◌⊎◌, inl, inr, refl, sym, ◌∙◌, subst, true, false, Option, none, some, List, [], ◌∷◌,
  Text, ◌==◌, ==_iff, lookup, IsDict, if◌then◌else◌, get_elem?, set, length, get_elem?-set_cases,
  get_elem?-set_ne, get_elem?-set_self, get_elem?-push, get_elem?-append, Bool-cases, Option-cases,
  arith,
}
use vectrify_agent_runner.Executor.Processes.{
  Kill, untouched, Process, Tree, no_tree, idle_tree, live_tree, WaitResult, clean_exit, exit_error,
  wait_error, Phase, checked, launched, refused, ProcessManager, kill_by, kill_process, modify,
  at_place, Removal,
}
use vectrify_agent_runner.Executor.Processes.Removals.{IsDoomed}
use vectrify_agent_runner.Executor.Processes.Start.{
  Launch, fails, runs, begin_start, check_start, launch_from, discard_by, discard, set_phase,
  new_process, exit_process,
}
use vectrify_agent_runner.Executor.Processes.Stop.{reap_process}

-- A process that has a tracker attached, was not signalled, and is not known to have exited.
abbrev pub IsLoose : Process → Type 0
IsLoose p = (p.kill ≡ untouched) × (p.exited ≡ false) × (p.tree ≡ live_tree)

-- No process of the list is loose that is in none of the three places.
abbrev pub IsAccounted : List (Text × ℕ) → List Removal → List Process → List Phase → Type 0
IsAccounted processes removals objects starts =
    (h : ℕ) (p : Process)
    → get_elem? objects h ≡ some p
    → IsLoose p
    → ((lookup p.id processes ≡ some h) ⊎ IsDoomed h removals)
      ⊎ ((k : ℕ) × (get_elem? starts k ≡ some (launched h)))

abbrev pub IsSound : ProcessManager → Type 0
IsSound m = IsDict m.processes × IsAccounted m.processes m.removals m.objects m.starts

-- A change after which no process is loose.
abbrev pub Settles : (Process → Process) → Type 0
Settles f = (p : Process) → ¬ IsLoose (f p)

kill_by-loose : (t : Tree) (sent : Kill) → kill_by t sent ≡ untouched → t ≡ live_tree → ⊥
unfolding kill_by
kill_by-loose no_tree sent e l = cc
kill_by-loose idle_tree sent e l = cc
kill_by-loose live_tree sent e l = cc

discard_by-loose : (t : Tree) (sent : Kill) → discard_by t sent ≡ untouched → t ≡ live_tree → ⊥
unfolding discard_by
discard_by-loose no_tree sent e l = cc
discard_by-loose idle_tree sent e l = cc
discard_by-loose live_tree sent e l = cc

pub kill_process-Settles : Settles kill_process
unfolding kill_process
kill_process-Settles p l = kill_by-loose p.tree p.kill l.0 l.2

pub reap_process-Settles : Settles reap_process
unfolding reap_process
reap_process-Settles p l = elim (Bool-cases p.exited) [
  | inl e ↦ ground (arith, e, l.1)
  | inr e ↦
      let q : (record (if p.exited then p else kill_process p) { log_removed = true })
          ≡ record (kill_process p) { log_removed = true } =
        rw e refl in
      kill_process-Settles p (subst IsLoose q l)
]

pub discard-Settles : Settles discard
unfolding discard
discard-Settles p l = discard_by-loose p.tree p.kill l.0 l.2

pub exit_process-Settles : (now : ℕ) (result : WaitResult) → Settles (exit_process now result)
unfolding exit_process
exit_process-Settles now clean_exit p l = ground (arith, l.1)
exit_process-Settles now (exit_error text code) p l = ground (arith, l.1)
exit_process-Settles now (wait_error text) p l = ground (arith, l.1)

-- A loose process after a change is one that was not changed.
pub set-loose :
    (ps : List Process) (h j : ℕ) (p q : Process)
    → ¬ IsLoose q
    → get_elem? (set ps h q) j ≡ some p
    → IsLoose p
    → ((h == j) ≡ false) × (get_elem? ps j ≡ some p)
set-loose ps h j p q n e l = elim (get_elem?-set_cases ps h q j e) [
  | inl (a, b) ↦ absurd (n (subst IsLoose b l))
  | inr c ↦ c
]

some-ne-none : {p : Process} {o : Option Process} → o ≡ some p → o ≡ none → ⊥
some-ne-none a b = cc

pub modify-loose :
    (f : Process → Process) (ps : List Process) (h j : ℕ) (p : Process)
    → Settles f
    → get_elem? (modify f ps h) j ≡ some p
    → IsLoose p
    → ((h == j) ≡ false) × (get_elem? ps j ≡ some p)
unfolding modify at_place
modify-loose f ps h j p s e l = elim (Option-cases (get_elem? ps h)) [
  | inl n ↦
      let e' : get_elem? ps j ≡ some p = sym (rw n refl) ∙ e in
      elim (Bool-cases (h == j)) [
        | inl q ↦ absurd (some-ne-none e' (subst (λ i. get_elem? ps i ≡ none) ((==_iff h j).0 q) n))
        | inr q ↦ (q, e')
      ]
  | inr (o, n) ↦ set-loose ps h j p (f o) (s o) (sym (rw n refl) ∙ e) l
]

-- A place among the starts that another phase held.
pub set-launched :
    (starts : List Phase) (k i h : ℕ) (old new : Phase)
    → get_elem? starts k ≡ some old
    → old ≢ launched h
    → get_elem? starts i ≡ some (launched h)
    → get_elem? (set starts k new) i ≡ some (launched h)
set-launched starts k i h old new e n f = elim (Bool-cases (k == i)) [
  | inl q ↦
      let g : get_elem? starts k ≡ some (launched h) =
        subst (λ x. get_elem? starts x ≡ some (launched h)) (sym ((==_iff k i).0 q)) f in
      absurd (n (some-injective _ _ (sym e ∙ g)))
  | inr q ↦ get_elem?-set_ne starts k i new q ∙ f
]

-- A start that was not at `launched` moves on, and a change that settles processes.
pub starts-IsAccounted :
    (processes : List (Text × ℕ)) (removals : List Removal) (objects : List Process)
    (starts : List Phase) (k : ℕ) (old new : Phase)
    → get_elem? starts k ≡ some old
    → ((h : ℕ) → old ≢ launched h)
    → IsAccounted processes removals objects starts
    → IsAccounted processes removals objects (set starts k new)
starts-IsAccounted processes removals objects starts k old new e n a h p f l = elim (a h p f l) [
  | inl x ↦ inl x
  | inr (i, x) ↦ inr (i, set-launched starts k i h old new e (n h) x)
]

pub begin_start-IsSound :
    (m : ProcessManager) (id command dir : Text)
    → IsSound m
    → IsSound (begin_start m id command dir)
unfolding begin_start
begin_start-IsSound m id command dir (d, a) = (
  d,
  λ h p f l. elim (a h p f l) [
    | inl x ↦ inl x
    | inr (k, x) ↦ inr (k, get_elem?-append m.starts (check_start m id command dir ∷ []) k x)
  ],
)

pub launch_from-IsSound :
    (m : ProcessManager) (k now : ℕ) (answer : Launch) (phase : Option Phase)
    → get_elem? m.starts k ≡ phase
    → IsSound m
    → IsSound (launch_from m k now answer phase)
unfolding launch_from set_phase
launch_from-IsSound m k now (fails x) (some (checked id command dir)) e (d, a) = (
  d,
  starts-IsAccounted m.processes m.removals m.objects m.starts k (checked id command dir)
      (refused x) e (λ h. λ q. cc) a,
)
launch_from-IsSound m k now (runs pid tree log_path) (some (checked id command dir)) e (d, a) = (
  d,
  λ h p f l.
      elim (get_elem?-push m.objects (new_process id command dir now pid tree log_path) h f) [
        | inl g ↦
            starts-IsAccounted m.processes m.removals m.objects m.starts k (checked id command dir)
              (launched (length m.objects)) e (λ i. λ q. cc) a h p g l
        | inr (x, y) ↦ inr (k, rw x (get_elem?-set_self m.starts k (launched (length m.objects)) e))
      ],
)
launch_from-IsSound m k now answer phase e s = s
