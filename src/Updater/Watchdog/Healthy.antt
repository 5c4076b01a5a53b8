-- ===== src/Updater/Watchdog/Healthy.antt =====
-- What a watchdog has seen of a version that it calls healthy.
use vectrify_agent_runner.Base.{
  ℕ, ◌+◌, ◌≡◌, ◌≢◌, ◌≤◌, ◌==◌, ◌⊎◌, refl, sym, ◌∙◌, subst, true, false, ◌&&◌, Option, none, some,
  List, [], ◌∷◌, if◌then◌else◌, pos, sub_ℕ, int_lt, Bool-cases, inl, inr, arith,
}
use vectrify_agent_runner.Updater.Watchdog.{
  SvcState, stopped, pending, running, Started, started, env_error, bin_error, Observation, Params,
  Watch, new_watch, since_at_least, is_new, note_start, observe_new, observe_down, start_service,
  observe_state, Decision, healthy, gave_up, roll_back, watching, limited, is_running, observe,
  round, expired, watch,
}

-- A reading of the service that does not show that the process `pid` has ended: a failed query, that
-- process, or a transition of no other new process.
abbrev pub IsUndisturbed : Params → ℕ → Option (SvcState × ℕ) → Type 0
IsUndisturbed p pid none = Unit
IsUndisturbed p pid (some (state, q)) = (q ≡ pid) ⊎ ((is_new p q ≡ false) × (state ≢ stopped))

-- The process `pid`, seen since the given time, is undisturbed until it is seen running and has been
-- up for the whole of the stable time.
abbrev pub Lasts : Params → ℕ → ℕ → List Observation → Type 0
Lasts p pid since [] = ⊥
Lasts p pid since (o ∷ os) =
    ((o.status ≡ some (running, pid)) × (since + p.stable_for ≤ o.now))
    ⊎ (IsUndisturbed p pid o.status × Lasts p pid since os)

-- At some observation a new process is seen which lasts from then on.
abbrev pub Appears : Params → List Observation → Type 0
Appears p [] = ⊥
Appears p (o ∷ os) =
    ((state : SvcState) × (pid : ℕ) × (o.status ≡ some (state, pid))
      × (is_new p pid ≡ true)
      × Lasts p pid o.now (o ∷ os))
    ⊎ Appears p os

-- How one round changes the process that is watched.
abbrev Follows : Params → Watch → ℕ → Option (SvcState × ℕ) → Watch → Type 0
Follows p w now st v =
    (v.cur_pid ≡ 0)
    ⊎ ((v.cur_pid ≡ w.cur_pid) × (v.cur_since ≡ w.cur_since) × IsUndisturbed p w.cur_pid st)
    ⊎ ((state : SvcState) × (st ≡ some (state, v.cur_pid))
        × (is_new p v.cur_pid ≡ true)
        × (v.cur_since ≡ now))

abbrev Shows : Params → Watch → ℕ → Option (SvcState × ℕ) → Decision → Type 0
Shows p w now st healthy =
    (pid : ℕ) × (st ≡ some (running, pid))
    × (is_new p pid ≡ true)
    × (((pid ≡ w.cur_pid) × (w.cur_since + p.stable_for ≤ now)) ⊎ (p.stable_for ≡ 0))
Shows p w now st gave_up = Unit
Shows p w now st roll_back = Unit
Shows p w now st (watching v) = Follows p w now st v

limited-Shows :
    (p : Params) (w v : Watch) (now : ℕ) (st : Option (SvcState × ℕ))
    → Follows p w now st v
    → Shows p w now st (limited p v)
unfolding limited
limited-Shows p w v now st f = ground (arith, f)

start_service-cur_pid :
    (p : Params) (w : Watch) (now : ℕ) (s : Started) → (start_service p w now s).cur_pid ≡ w.cur_pid
unfolding start_service note_start
start_service-cur_pid p w now started = ground arith
start_service-cur_pid p w now env_error = ground arith
start_service-cur_pid p w now bin_error = ground arith

observe_down-cur_pid : (w : Watch) (now : ℕ) → (observe_down w now).cur_pid ≡ 0
unfolding observe_down
observe_down-cur_pid w now = ground arith

observe_state-Follows :
    (p : Params) (w : Watch) (now pid : ℕ) (s : Started) (state : SvcState)
    → is_new p pid ≡ false
    → Follows p w now (some (state, pid)) (observe_state p w state now s)
unfolding observe_state
observe_state-Follows p w now pid s stopped n =
    inl (start_service-cur_pid p (observe_down w now) now s ∙ observe_down-cur_pid w now)
observe_state-Follows p w now pid s pending n = inr (inl (refl, refl, inr (n, λ e. ground arith)))
observe_state-Follows p w now pid s running n = inr (inl (refl, refl, inr (n, λ e. ground arith)))

observe_new-Follows :
    (p : Params) (w : Watch) (now pid : ℕ) (state : SvcState)
    → is_new p pid ≡ true
    → Follows p w now (some (state, pid)) (observe_new w pid now)
unfolding observe_new
observe_new-Follows p w now pid state n = elim (Bool-cases (pid == w.cur_pid)) [
  | inl same ↦ inr (inl (ground arith, ground arith, inl (ground arith)))
  | inr other ↦ rw other (inr (inr (state, refl, n, refl)))
]

observe_new-long :
    (p : Params) (w : Watch) (now pid : ℕ)
    → since_at_least p.stable_for (observe_new w pid now).cur_since now ≡ true
    → ((pid ≡ w.cur_pid) × (w.cur_since + p.stable_for ≤ now)) ⊎ (p.stable_for ≡ 0)
unfolding observe_new
observe_new-long p w now pid h = ground arith

new-Shows :
    (p : Params) (w : Watch) (now pid : ℕ) (state : SvcState)
    → is_new p pid ≡ true
    → let w' = observe_new w pid now in
      Shows p w now (some (state, pid)) (
        if is_running state && since_at_least p.stable_for w'.cur_since now
        then healthy
        else limited p w')
new-Shows p w now pid stopped n =
    limited-Shows p w (observe_new w pid now) now _ (observe_new-Follows p w now pid stopped n)
new-Shows p w now pid pending n =
    limited-Shows p w (observe_new w pid now) now _ (observe_new-Follows p w now pid pending n)
new-Shows p w now pid running n =
    elim (Bool-cases (since_at_least p.stable_for (observe_new w pid now).cur_since now)) [
      | inl long ↦ rw long (pid, refl, n, observe_new-long p w now pid long)
      | inr short ↦ rw short (
          limited-Shows p w (observe_new w pid now) now _
            (observe_new-Follows p w now pid running n))
    ]

observe-Shows :
    (p : Params) (w : Watch) (now pid : ℕ) (s : Started) (state : SvcState)
    → Shows p w now (some (state, pid)) (observe p w now s state pid)
unfolding observe
observe-Shows p w now pid s state = elim (Bool-cases (is_new p pid)) [
  | inr old ↦ rw old (
      limited-Shows p w (observe_state p w state now s) now (some (state, pid))
        (observe_state-Follows p w now pid s state old))
  | inl new ↦ rw new (new-Shows p w now pid state new)
]

status-Shows :
    (p : Params) (w : Watch) (now : ℕ) (s : Started) (st : Option (SvcState × ℕ))
    → Shows p w now st
        (elim st [ none ↦ watching w | some (state, pid) ↦ observe p w now s state pid ])
status-Shows p w now s none = inr (inl (refl, refl, tt))
status-Shows p w now s (some (state, pid)) = observe-Shows p w now pid s state

-- What is known of a watch that ends healthy.
abbrev Found : Params → Watch → List Observation → Type 0
Found p w os = ((w.cur_pid ≢ 0) × Lasts p w.cur_pid w.cur_since os) ⊎ Appears p os

Follows-Found :
    (p : Params) (w v : Watch) (o : Observation) (os : List Observation)
    → Follows p w o.now o.status v
    → Found p v os
    → Found p w (o ∷ os)
Follows-Found p w v o os f (inr a) = inr (inr a)
Follows-Found p w v o os (inl z) (inl (c, l)) = elim (c z) [ ]
Follows-Found p w v o os (inr (inl (e, s, u))) (inl (c, l)) = inl (
  λ z. c (e ∙ z),
  inr (u, subst (λ q. Lasts p q w.cur_since os) e (subst (λ q. Lasts p v.cur_pid q os) s l)),
)
Follows-Found p w v o os (inr (inr (state, e, n, s))) (inl (c, l)) = inr (
    inl (
      state,
      v.cur_pid,
      e,
      n,
      inr (
        subst (IsUndisturbed p v.cur_pid) (sym e) (inl refl),
        subst (λ q. Lasts p v.cur_pid q os) s l,
      ),
    ))

Healthy-Found :
    (p : Params) (w : Watch) (o : Observation) (os : List Observation)
    → Shows p w o.now o.status healthy
    → Found p w (o ∷ os)
Healthy-Found p w o os (pid, e, n, inl (c, l)) =
    inl (λ z. ground (arith, n, c, z), inl (subst (λ q. o.status ≡ some (running, q)) c e, l))
Healthy-Found p w o os (pid, e, n, inr z) =
    inr (inl (running, pid, e, n, inl (e, omega (arith, z))))

watch-Found :
    (p : Params) (begin : ℕ) (w : Watch) (os : List Observation)
    → watch p begin w os ≡ healthy
    → Found p w os
unfolding watch round expired
watch-Found p begin w [] e = ground arith
watch-Found p begin w (o ∷ os) e =
    let found : Shows p w o.now o.status (round p w o)
        → elim (round p w o) [
          | healthy ↦ healthy
          | gave_up ↦ gave_up
          | roll_back ↦ roll_back
          | watching w' ↦ watch p begin w' os
        ]
          ≡ healthy
        → Found p w (o ∷ os) =
      elim (round p w o)
        as (λ d.
          Shows p w o.now o.status d
          → elim d [
            | healthy ↦ healthy
            | gave_up ↦ gave_up
            | roll_back ↦ roll_back
            | watching w' ↦ watch p begin w' os
          ]
            ≡ healthy
          → Found p w (o ∷ os)) [
            | healthy ↦ λ s x. Healthy-Found p w o os s
            | gave_up ↦ λ s x. ground arith
            | roll_back ↦ λ s x. ground arith
            | watching v ↦ λ s x. Follows-Found p w v o os s (watch-Found p begin v os x)
          ] in
    elim (Bool-cases (int_lt (sub_ℕ o.clock begin) (pos p.deadline))) [
      | inl early ↦ found (status-Shows p w o.now o.start o.status) (ground (arith, e, early))
      | inr late ↦ ground (arith, e, late)
    ]

-- A version is called healthy only if at some observation a new process was seen (neither none nor the
-- one that was replaced) which no later reading showed to be stopped or replaced until it was seen
-- running when it had been up for the whole of the stable time.
pub watch-healthy :
    (p : Params) (begin : ℕ) (os : List Observation)
    → watch p begin (new_watch begin) os ≡ healthy
    → Appears p os
unfolding new_watch
watch-healthy p begin os e = elim (watch-Found p begin (new_watch begin) os e) [
  | inl (c, l) ↦ elim (c refl) [ ]
  | inr a ↦ a
]
