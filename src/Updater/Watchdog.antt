-- ===== src/Updater/Watchdog.antt =====
-- updater/watchdog.go: the loop of `runWatchdog` and the rollback. Each round of the loop reads the
-- clock, the service and the clock again, and may start the service; what these calls answer is an
-- observation, and a run is the list of them.
pub mod Healthy
pub mod Spared
mod Tests
use vectrify_agent_runner.Base.{
  ℕ, zero, suc, ◌+◌, ◌≡◌, ◌==◌, refl, Bool, true, false, not, ◌&&◌, ◌||◌, Option, none, some, List,
  [], ◌∷◌, ◌++◌, if◌then◌else◌, leb, ltb, pos, sub_ℕ, int_le, int_lt,
}

pub data SvcState : Type 0 where
  stopped pending running : SvcState

-- What `Start` answers: no error, one of the environment, or one that implicates the binary.
pub data Started : Type 0 where
  started env_error bin_error : Started

pub record Observation : Type 0 where
  pub clock : ℕ
  pub status : Option (SvcState × ℕ)
  pub now : ℕ
  pub start : Started

-- `watchdogParams`: the durations in nanoseconds, and the two limits.
pub record Params : Type 0 where
  pub old_pid : ℕ
  pub restart_grace : ℕ
  pub start_retry : ℕ
  pub stable_for : ℕ
  pub deadline : ℕ
  pub max_crashes : ℕ
  pub max_bin_errors : ℕ

abbrev pub second : ℕ
second = 1000000000

unfoldable pub default_watchdog_params : ℕ → Params
default_watchdog_params old_pid = record {
  old_pid = old_pid;
  restart_grace = 20000000000;
  start_retry = 15000000000;
  stable_for = 45000000000;
  deadline = 240000000000;
  max_crashes = 3;
  max_bin_errors = 3;
}

-- The variables of the loop.
pub record Watch : Type 0 where
  pub cur_pid : ℕ
  pub cur_since : ℕ
  pub crashes : ℕ
  pub down_since : ℕ
  pub last_start : Option ℕ
  pub env_errs : ℕ
  pub bin_errs : ℕ
  pub saw_new : Bool

unfoldable pub new_watch : ℕ → Watch
new_watch begin = record {
  cur_pid = 0;
  cur_since = 0;
  crashes = 0;
  down_since = begin;
  last_start = none;
  env_errs = 0;
  bin_errs = 0;
  saw_new = false;
}

-- now.Sub(t) >= d
abbrev pub since_at_least : ℕ → ℕ → ℕ → Bool
since_at_least d t now = int_le (pos d) (sub_ℕ now t)

-- A process that is not the one that is replaced.
abbrev pub is_new : Params → ℕ → Bool
is_new p pid = not (pid == 0) && not (pid == p.old_pid)

-- The first case of the `switch`, without its return.
unfoldable pub observe_new : Watch → ℕ → ℕ → Watch
observe_new w pid now = if pid == w.cur_pid then record w { saw_new = true } else record w {
  saw_new = true;
  crashes = if w.cur_pid == 0 then w.crashes else w.crashes + 1;
  cur_pid = pid;
  cur_since = now;
}

unfoldable pub note_start : Watch → ℕ → Started → Watch
note_start w now started = record w { last_start = some now }
note_start w now env_error = record w { last_start = some now; env_errs = w.env_errs + 1 }
note_start w now bin_error = record w { last_start = some now; bin_errs = w.bin_errs + 1 }

abbrev pub may_retry : Params → ℕ → Option ℕ → Bool
may_retry p now none = true
may_retry p now (some last) = since_at_least p.start_retry last now

unfoldable pub observe_down : Watch → ℕ → Watch
observe_down w now =
    if w.cur_pid == 0
    then w
    else record w { crashes = w.crashes + 1; cur_pid = 0; down_since = now }

unfoldable pub start_service : Params → Watch → ℕ → Started → Watch
unfolding note_start
start_service p w now start =
    if since_at_least p.restart_grace w.down_since now && may_retry p now w.last_start
    then note_start w now start
    else w

-- The second case of the `switch`, and the transitions that it waits for.
unfoldable pub observe_state : Params → Watch → SvcState → ℕ → Started → Watch
unfolding observe_down start_service
observe_state p w stopped now start = start_service p (observe_down w now) now start
observe_state p w pending now start = w
observe_state p w running now start = w

-- Where a round ends.
pub data Decision : Type 0 where
  healthy gave_up roll_back : Decision
  watching : Watch → Decision

unfoldable pub limited : Params → Watch → Decision
limited p w =
    if leb p.max_bin_errors w.bin_errs || leb p.max_crashes w.crashes then roll_back else watching w

abbrev pub is_running : SvcState → Bool
is_running running = true
is_running other = false

unfoldable pub observe : Params → Watch → ℕ → Started → SvcState → ℕ → Decision
unfolding observe_new observe_state limited
observe p w now start state pid =
    let w' = observe_new w pid now in
    if not (is_new p pid)
    then limited p (observe_state p w state now start)
    else if is_running state && since_at_least p.stable_for w'.cur_since now
    then healthy
    else limited p w'

unfoldable pub round : Params → Watch → Observation → Decision
unfolding observe
round p w o = elim o.status [
  | none ↦ watching w
  | some (state, pid) ↦ observe p w o.now o.start state pid
]

-- After the loop.
unfoldable pub expired : Watch → Decision
expired w = if not w.saw_new && ltb 0 w.env_errs && (w.bin_errs == 0) then gave_up else roll_back

-- The loop. What is left when the observations end before the deadline is the watch so far.
unfoldable pub watch : Params → ℕ → Watch → List Observation → Decision
unfolding round expired
watch p begin w [] = watching w
watch p begin w (o ∷ os) =
    if int_lt (sub_ℕ o.clock begin) (pos p.deadline)
    then elim (round p w o) [
      | healthy ↦ healthy
      | gave_up ↦ gave_up
      | roll_back ↦ roll_back
      | watching w' ↦ watch p begin w' os
    ]
    else expired w
