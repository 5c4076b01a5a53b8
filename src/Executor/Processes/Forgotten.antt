-- ===== src/Executor/Processes/Forgotten.antt =====
-- executor/process.go: the race between the second lock of `Start` and `Shutdown`.
use mathlib.Core.Option.{some-injective}
use vectrify_agent_runner.Base.{
  map, ap, ==_iff, arith, ℕ, ◌≡◌, ◌≢◌, inl, inr, refl, ◌∙◌, true, false, Option, none, some, List,
  [], ◌∷◌, text_eq_refl, ◌==◌, lookup, insert, get_elem?, All, All-set, All-append, get_elem?-All,
  get_elem?-set_ne, get_elem?-set_self, Bool-cases, Option-cases,
}
use vectrify_agent_runner.Executor.Processes.{
  Process, launched, ProcessManager, kill_process, Removal, to_kill, to_reap, to_discard, ended,
  modify, at_place,
}
use vectrify_agent_runner.Executor.Processes.Start.{
  discard, register, register_from, register_object, register_process, register_found, set_phase,
  put_object,
}
use vectrify_agent_runner.Executor.Processes.Stop.{
  shutdown, handles, kill_from, kill_removed, reap_process,
}
use vectrify_agent_runner.Executor.Processes.Removals.{target, IsDoomed, Misses}

modify_other :
    (f : Process → Process) (ps : List Process) (h j : ℕ)
    → (h == j) ≡ false
    → get_elem? (modify f ps h) j ≡ get_elem? ps j
unfolding modify at_place
modify_other f ps h j n = elim (Option-cases (get_elem? ps h)) [
  | inl e ↦ rw e refl
  | inr (p, e) ↦ rw e (get_elem?-set_ne ps h j (f p) n)
]

-- No removal is one of the process.
abbrev IsSpared : ℕ → List Removal → Type 0
IsSpared h = All (λ r. target r ≢ some h)

spared : (h : ℕ) (rs : List Removal) → ¬ IsDoomed h rs → IsSpared h rs
spared h [] n = tt
spared h (r ∷ rs) n = (λ e. n (inl e), spared h rs (λ d. n (inr d)))

to_kill-IsSpared : (h : ℕ) (hs : List ℕ) → Misses h hs → IsSpared h (map to_kill hs)
to_kill-IsSpared h [] n = tt
to_kill-IsSpared h (g ∷ hs) n =
    (λ e. ground (arith, n.0, some-injective _ _ e), to_kill-IsSpared h hs n.1)

-- What is left alone where a removal of another process is carried out.
record IsLeft (h : ℕ) (m n : ProcessManager) : Type 0 where
  same_starts : n.starts ≡ m.starts
  same_processes : n.processes ≡ m.processes
  same_closing : n.shutting_down ≡ m.shutting_down
  same_object : get_elem? n.objects h ≡ get_elem? m.objects h
  still_spared : IsSpared h n.removals

target-ne : (g h : ℕ) → some g ≢ some h → (g == h) ≡ false
target-ne g h n = elim (Bool-cases (g == h)) [
  | inl e ↦ absurd (n (ap (λ x. some x) ((==_iff g h).0 e)))
  | inr e ↦ e
]

kill_from-IsLeft :
    (m : ProcessManager) (k h : ℕ) (found : Option Removal)
    → get_elem? m.removals k ≡ found
    → IsSpared h m.removals
    → IsLeft h m (kill_from m k found)
unfolding kill_from
kill_from-IsLeft m k h none e s = record {
  same_starts = refl;
  same_processes = refl;
  same_closing = refl;
  same_object = refl;
  still_spared = s;
}
kill_from-IsLeft m k h (some ended) e s = record {
  same_starts = refl;
  same_processes = refl;
  same_closing = refl;
  same_object = refl;
  still_spared = s;
}
kill_from-IsLeft m k h (some (to_kill g)) e s = record {
  same_starts = refl;
  same_processes = refl;
  same_closing = refl;
  same_object =
      modify_other kill_process m.objects g h
        (target-ne g h (get_elem?-All (λ r. target r ≢ some h) m.removals k s e));
  still_spared = All-set (λ r. target r ≢ some h) m.removals k ended s (λ u. cc);
}
kill_from-IsLeft m k h (some (to_reap g)) e s = record {
  same_starts = refl;
  same_processes = refl;
  same_closing = refl;
  same_object =
      modify_other reap_process m.objects g h
        (target-ne g h (get_elem?-All (λ r. target r ≢ some h) m.removals k s e));
  still_spared = All-set (λ r. target r ≢ some h) m.removals k ended s (λ u. cc);
}
kill_from-IsLeft m k h (some (to_discard g)) e s = record {
  same_starts = refl;
  same_processes = refl;
  same_closing = refl;
  same_object =
      modify_other discard m.objects g h
        (target-ne g h (get_elem?-All (λ r. target r ≢ some h) m.removals k s e));
  still_spared = All-set (λ r. target r ≢ some h) m.removals k ended s (λ u. cc);
}

-- Any of the removals, in any order.
abbrev pub kill_all : ProcessManager → List ℕ → ProcessManager
kill_all m [] = m
kill_all m (k ∷ ks) = kill_all (kill_removed m k) ks

kill_all-IsLeft :
    (m : ProcessManager) (ks : List ℕ) (h : ℕ) → IsSpared h m.removals → IsLeft h m (kill_all m ks)
unfolding kill_removed
kill_all-IsLeft m [] h s = record {
  same_starts = refl;
  same_processes = refl;
  same_closing = refl;
  same_object = refl;
  still_spared = s;
}
kill_all-IsLeft m (k ∷ ks) h s =
    let a = kill_from-IsLeft m k h (get_elem? m.removals k) refl s in
    let b = kill_all-IsLeft (kill_removed m k) ks h a.still_spared in
    record {
      same_starts = b.same_starts ∙ a.same_starts;
      same_processes = b.same_processes ∙ a.same_processes;
      same_closing = b.same_closing ∙ a.same_closing;
      same_object = b.same_object ∙ a.same_object;
      still_spared = b.still_spared;
    }

shutdown-removals :
    (m : ProcessManager) (h : ℕ)
    → m.shutting_down ≡ false
    → Misses h (handles m.processes)
    → ¬ IsDoomed h m.removals
    → IsSpared h (shutdown m).removals
unfolding shutdown
shutdown-removals m h e n d = rw e (
    All-append (λ r. target r ≢ some h) m.removals (map to_kill (handles m.processes))
      (spared h m.removals d) (to_kill-IsSpared h (handles m.processes) n))

shutdown-empty :
    (m : ProcessManager)
    → m.shutting_down ≡ false
    → (shutdown m).processes ≡ []
      × ((shutdown m).starts ≡ m.starts)
      × ((shutdown m).objects ≡ m.objects)
      × ((shutdown m).shutting_down ≡ true)
unfolding shutdown
shutdown-empty m e = rw e (refl, refl, refl, refl)

registered :
    (m : ProcessManager) (k h : ℕ) (p : Process)
    → m.shutting_down ≡ true
    → m.processes ≡ []
    → get_elem? m.starts k ≡ some (launched h)
    → get_elem? m.objects h ≡ some p
    → let n = register m k in
      (lookup p.id n.processes ≡ some h)
      × (get_elem? n.objects h ≡ some (record p { waited_for = true }))
      × (shutdown n ≡ n)
unfolding shutdown register register_from register_object register_process register_found lookup
    insert put_object set_phase
registered m k h p c e f g =
    rw (f, g, e, c, text_eq_refl p.id)
      (refl, get_elem?-set_self m.objects h (record p { waited_for = true }) g, refl)

-- A process that was launched and not yet registered when the runner shut down: however many of the
-- processes in the pool `Shutdown` has killed by then, its `Start` registers it all the same, it is not
-- signalled, and another `Shutdown` does nothing.
pub shutdown_forgets :
    (m : ProcessManager) (k h : ℕ) (p : Process) (killed : List ℕ)
    → m.shutting_down ≡ false
    → get_elem? m.starts k ≡ some (launched h)
    → get_elem? m.objects h ≡ some p
    → Misses h (handles m.processes)
    → ¬ IsDoomed h m.removals
    → let n = register (kill_all (shutdown m) killed) k in
      (lookup p.id n.processes ≡ some h)
      × (get_elem? n.objects h ≡ some (record p { waited_for = true }))
      × (shutdown n ≡ n)
shutdown_forgets m k h p killed e f g n d =
    let (a, b, c, s) = shutdown-empty m e in
    let l = kill_all-IsLeft (shutdown m) killed h (shutdown-removals m h e n d) in
    registered (kill_all (shutdown m) killed) k h p (l.same_closing ∙ s) (l.same_processes ∙ a)
      (ap (λ x. get_elem? x k) (l.same_starts ∙ b) ∙ f)
      (l.same_object ∙ (ap (λ x. get_elem? x h) c ∙ g))
