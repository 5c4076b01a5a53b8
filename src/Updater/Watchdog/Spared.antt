-- ===== src/Updater/Watchdog/Spared.antt =====
-- A release is not blamed for a machine that cannot start the service.
use vectrify_agent_runner.Base.{
  ℕ, ◌≡◌, ◌≢◌, ◌≤◌, refl, sym, ap, ◌∙◌, subst, false, Option, none, some, List, [], ◌∷◌, ◌++◌, All,
  pos, sub_ℕ, int_lt, Bool-cases, inl, inr, arith,
}
use vectrify_agent_runner.Updater.Watchdog.{
  SvcState, stopped, pending, running, Started, started, env_error, bin_error, Observation, Params,
  Watch, new_watch, is_new, note_start, observe_down, start_service, observe_state, Decision,
  healthy, gave_up, roll_back, watching, limited, observe, round, expired, watch,
}

-- No new process is seen, and a start that is refused is refused by the environment.
abbrev pub IsUnseen : Params → Observation → Type 0
IsUnseen p o =
    ((state : SvcState) (pid : ℕ) → o.status ≡ some (state, pid) → is_new p pid ≡ false)
    × (o.start ≢ bin_error)

-- What holds of the watch as long as that is so, with at least `n` refused starts.
abbrev Calm : ℕ → Watch → Type 0
Calm n w =
    (w.saw_new ≡ false) × (w.cur_pid ≡ 0) × (w.crashes ≡ 0) × (w.bin_errs ≡ 0) × (n ≤ w.env_errs)

-- A decision that goes on calmly, gives up, or blames the binary where no start was refused.
abbrev CalmOn : ℕ → Decision → Type 0
CalmOn n healthy = ⊥
CalmOn n gave_up = Unit
CalmOn n roll_back = n ≡ 0
CalmOn n (watching w) = Calm n w

note_start-Calm :
    (n now : ℕ) (w : Watch) (s : Started) → s ≢ bin_error → Calm n w → Calm n (note_start w now s)
unfolding note_start
note_start-Calm n now w started b c = c
note_start-Calm n now w env_error b c = ground (arith, c)
note_start-Calm n now w bin_error b c = elim (b refl) [ ]

observe_state-Calm :
    (n now : ℕ) (p : Params) (w : Watch) (state : SvcState) (s : Started)
    → s ≢ bin_error
    → Calm n w
    → Calm n (observe_state p w state now s)
unfolding observe_state start_service observe_down
observe_state-Calm n now p w stopped s b c = ground (arith, note_start-Calm n now w s b c)
observe_state-Calm n now p w pending s b c = c
observe_state-Calm n now p w running s b c = c

limited-CalmOn :
    (n : ℕ) (p : Params) (w : Watch)
    → 1 ≤ p.max_crashes
    → 1 ≤ p.max_bin_errors
    → Calm n w
    → CalmOn n (limited p w)
unfolding limited
limited-CalmOn n p w h k c = ground (arith, c)

round-CalmOn :
    (n : ℕ) (p : Params) (w : Watch) (now : ℕ) (s : Started) (state : SvcState) (pid : ℕ)
    → 1 ≤ p.max_crashes
    → 1 ≤ p.max_bin_errors
    → is_new p pid ≡ false
    → s ≢ bin_error
    → Calm n w
    → CalmOn n (observe p w now s state pid)
unfolding observe
round-CalmOn n p w now s state pid h k i b c =
    let l =
      limited-CalmOn n p (observe_state p w state now s) h k
        (observe_state-Calm n now p w state s b c) in
    rw i l

status-CalmOn :
    (n : ℕ) (p : Params) (w : Watch) (now : ℕ) (s : Started) (o : Option (SvcState × ℕ))
    → 1 ≤ p.max_crashes
    → 1 ≤ p.max_bin_errors
    → ((state : SvcState) (pid : ℕ) → o ≡ some (state, pid) → is_new p pid ≡ false)
    → s ≢ bin_error
    → Calm n w
    → CalmOn n (elim o [ none ↦ watching w | some (state, pid) ↦ observe p w now s state pid ])
status-CalmOn n p w now s none h k i b c = c
status-CalmOn n p w now s (some (state, pid)) h k i b c =
    round-CalmOn n p w now s state pid h k (i state pid refl) b c

expired-CalmOn : (n : ℕ) (w : Watch) → Calm n w → CalmOn n (expired w)
unfolding expired
expired-CalmOn n w c = ground (arith, c)

watch-CalmOn :
    (n begin : ℕ) (p : Params) (w : Watch) (os : List Observation)
    → 1 ≤ p.max_crashes
    → 1 ≤ p.max_bin_errors
    → All (IsUnseen p) os
    → Calm n w
    → CalmOn n (watch p begin w os)
unfolding watch round
watch-CalmOn n begin p w [] h k u c = c
watch-CalmOn n begin p w (o ∷ os) h k u c =
    let goes_on : CalmOn n (round p w o)
        → CalmOn n (elim (round p w o) [
          | healthy ↦ healthy
          | gave_up ↦ gave_up
          | roll_back ↦ roll_back
          | watching w' ↦ watch p begin w' os
        ]) =
      elim (round p w o)
        as (λ d.
          CalmOn n d
          → CalmOn n (elim d [
            | healthy ↦ healthy
            | gave_up ↦ gave_up
            | roll_back ↦ roll_back
            | watching w' ↦ watch p begin w' os
          ])) [
            | healthy ↦ λ x. x
            | gave_up ↦ λ x. x
            | roll_back ↦ λ x. x
            | watching w' ↦ λ x. watch-CalmOn n begin p w' os h k u.1 x
          ] in
    let d = goes_on (status-CalmOn n p w o.now o.start o.status h k u.0.0 u.0.1 c) in
    elim (Bool-cases (int_lt (sub_ℕ o.clock begin) (pos p.deadline))) [
      | inl early ↦ rw early d
      | inr late ↦ rw late (expired-CalmOn n w c)
    ]

abbrev continues : ℕ → Params → List Observation → Decision → Decision
continues begin p qs healthy = healthy
continues begin p qs gave_up = gave_up
continues begin p qs roll_back = roll_back
continues begin p qs (watching w) = watch p begin w qs

-- A watch of more observations goes on from where that of the first stands.
watch-append :
    (begin : ℕ) (p : Params) (w : Watch) (os qs : List Observation)
    → watch p begin w (os ++ qs) ≡ continues begin p qs (watch p begin w os)
unfolding watch expired
watch-append begin p w [] qs = refl
watch-append begin p w (o ∷ os) qs =
    let same : elim (round p w o) [
      | healthy ↦ healthy
      | gave_up ↦ gave_up
      | roll_back ↦ roll_back
      | watching w' ↦ watch p begin w' (os ++ qs)
    ]
        ≡ continues begin p qs (elim (round p w o) [
          | healthy ↦ healthy
          | gave_up ↦ gave_up
          | roll_back ↦ roll_back
          | watching w' ↦ watch p begin w' os
        ]) =
      elim (round p w o)
        as (λ d.
          elim d [
            | healthy ↦ healthy
            | gave_up ↦ gave_up
            | roll_back ↦ roll_back
            | watching w' ↦ watch p begin w' (os ++ qs)
          ]
          ≡ continues begin p qs (elim d [
            | healthy ↦ healthy
            | gave_up ↦ gave_up
            | roll_back ↦ roll_back
            | watching w' ↦ watch p begin w' os
          ])) [
            | healthy ↦ refl
            | gave_up ↦ refl
            | roll_back ↦ refl
            | watching w' ↦ watch-append begin p w' os qs
          ] in
    elim (Bool-cases (int_lt (sub_ℕ o.clock begin) (pos p.deadline))) [
      | inl early ↦ rw early same
      | inr late ↦ rw late (ground arith)
    ]

-- While no new process is seen and every start that is refused is refused by the environment, a
-- watchdog that has been refused a start declares the new version neither healthy nor to be rolled
-- back, whatever follows in the same vein: it goes on or gives up.
pub watch-spares :
    (begin : ℕ) (p : Params) (before after : List Observation) (w : Watch)
    → 1 ≤ p.max_crashes
    → 1 ≤ p.max_bin_errors
    → All (IsUnseen p) before
    → All (IsUnseen p) after
    → watch p begin (new_watch begin) before ≡ watching w
    → 1 ≤ w.env_errs
    → (watch p begin (new_watch begin) (before ++ after) ≢ roll_back)
      × (watch p begin (new_watch begin) (before ++ after) ≢ healthy)
unfolding new_watch
watch-spares begin p before after w h k u v e r =
    let c : CalmOn 0 (watching w) = subst (CalmOn 0) e (
      watch-CalmOn 0 begin p (new_watch begin) before h k u
        (refl, refl, refl, refl, omega arith)) in
    let d : CalmOn 1 (watch p begin w after) =
      watch-CalmOn 1 begin p w after h k v (c.0, c.1, c.2, c.3, r) in
    let q = watch-append begin p (new_watch begin) before after ∙ ap (continues begin p after) e in
    (λ x. omega (arith, subst (CalmOn 1) (sym q ∙ x) d), λ x. subst (CalmOn 1) (sym q ∙ x) d)
