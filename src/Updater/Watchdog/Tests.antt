-- ===== src/Updater/Watchdog/Tests.antt =====
-- Watchdogs with the default parameters.
use vectrify_agent_runner.Base.{
  ℕ, ◌*◌, ◌≡◌, ◌≢◌, refl, false, Option, none, some, List, [], ◌∷◌, ◌++◌, arith,
}
use vectrify_agent_runner.Updater.Watchdog.{
  SvcState, stopped, pending, running, Started, started, env_error, bin_error, Observation, Params,
  default_watchdog_params, second, Watch, new_watch, healthy, roll_back, watching, watch, round,
  observe, observe_new, observe_state, observe_down, start_service, note_start, limited, expired,
}
use vectrify_agent_runner.Updater.Watchdog.Healthy.{Appears, watch-healthy}
use vectrify_agent_runner.Updater.Watchdog.Spared.{IsUnseen, watch-spares}

abbrev params : Params
params = default_watchdog_params 7

-- The service at a number of seconds, and what a start of it answers.
abbrev at : ℕ → Option (SvcState × ℕ) → Started → Observation
at seconds status start = record {
  clock = seconds * second;
  status = status;
  now = seconds * second;
  start = start;
}

-- The old process goes, the service is restarted, and the new process stays up.
abbrev restarted : List Observation
restarted =
    at 0 (some (running, 7)) started
    ∷ at 3 (some (stopped, 0)) started
    ∷ at 6 (some (pending, 9)) started
    ∷ at 30 none started
    ∷ at 52 (some (running, 9)) started
    ∷ []

is_healthy : watch params 0 (new_watch 0) restarted ≡ healthy
unfolding watch round observe observe_new observe_state observe_down start_service note_start
    limited expired new_watch default_watchdog_params
is_healthy = refl

watch-healthy_example : Appears params restarted
watch-healthy_example = watch-healthy params 0 restarted is_healthy

-- The new process ends three times.
crashing :
    watch params 0 (new_watch 0) (
      at 1 (some (running, 8)) started
      ∷ at 9 (some (stopped, 0)) started
      ∷ at 14 (some (running, 9)) started
      ∷ at 20 (some (running, 10)) started
      ∷ at 21 (some (running, 11)) started
      ∷ [])
    ≡ roll_back
unfolding watch round observe observe_new observe_state observe_down start_service note_start
    limited expired new_watch default_watchdog_params
crashing = refl

-- The service cannot log on.
abbrev locked_out : List Observation
locked_out = at 0 (some (stopped, 0)) started ∷ at 25 (some (stopped, 0)) env_error ∷ []

abbrev refused : Watch
refused = record {
  cur_pid = 0;
  cur_since = 0;
  crashes = 0;
  down_since = 0;
  last_start = some (25 * second);
  env_errs = 1;
  bin_errs = 0;
  saw_new = false;
}

locked_out_waits : watch params 0 (new_watch 0) locked_out ≡ watching refused
unfolding watch round observe observe_new observe_state observe_down start_service note_start
    limited expired new_watch default_watchdog_params
locked_out_waits = refl

down-IsUnseen :
    (seconds : ℕ) (s : Started) → s ≢ bin_error → IsUnseen params (at seconds (some (stopped, 0)) s)
down-IsUnseen seconds s b = (λ state pid e. ground (arith, e), b)

abbrev later : List Observation
later = at 100 (some (stopped, 0)) env_error ∷ at 250 (some (stopped, 0)) env_error ∷ []

watch-spares_example :
    (watch params 0 (new_watch 0) (locked_out ++ later) ≢ roll_back)
    × (watch params 0 (new_watch 0) (locked_out ++ later) ≢ healthy)
unfolding default_watchdog_params
watch-spares_example =
    watch-spares 0 params locked_out later refused (omega arith) (omega arith)
      (
        down-IsUnseen 0 started (λ e. ground arith),
        (down-IsUnseen 25 env_error (λ e. ground arith), tt),
      )
      (
        down-IsUnseen 100 env_error (λ e. ground arith),
        (down-IsUnseen 250 env_error (λ e. ground arith), tt),
      )
      locked_out_waits (omega arith)
