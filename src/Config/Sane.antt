-- ===== src/Config/Sane.antt =====
-- config/config.go, `applyDefaults`: whatever stands in the file, the settings end up in range.
use vectrify_agent_runner.Base.{
  ℕ, ◌≤◌, ◌<◌, ◌≡◌, ◌≢◌, refl, Bool, false, Option, none, some, List, [], ◌∷◌, Text, codes, arith,
  text_eq, if◌then◌else◌, ℤ, pos, negsuc, pos_part, not_positive,
}
use vectrify_agent_runner.Config.{
  Config, Key, Warning, default_log_level, default_backoff, default_concurrency,
  default_update_check, default_update_idle, default_slot_timeout, default_heavy,
  default_browser_sessions, default_browser_idle, default_headless, default_background_processes,
  default_background_age, max_concurrency, update_check_interval_seconds, update_idle_seconds,
  slot_acquire_timeout_seconds, max_browser_sessions, browser_idle_timeout_seconds,
  max_background_processes, background_process_max_age_seconds, clamped, warned, floored,
  floor_warned, derive_default_heavy_concurrency, heavy_for, heavy_warned, clamped_heavy,
  apply_defaults, headless_or_true,
}

-- A positive setting that is at most `max`.
abbrev pub InRange : ℕ → ℤ → ℕ → Type 0
InRange min (pos n) max = (min ≤ n) × (n ≤ max)
InRange min (negsuc n) max = ⊥

clamped-InRange :
    (x : ℤ) (default max : ℕ) → 1 ≤ default → default ≤ max → InRange 1 (clamped x default max) max
clamped-InRange (pos n) default max p q = ground arith
clamped-InRange (negsuc n) default max p q = ground arith

floored-InRange : (x : ℤ) → InRange 30 (floored x 300 30 86400) 86400
floored-InRange (pos n) = ground arith
floored-InRange (negsuc n) = ground arith

-- With a limit of at least 2, the derived heavy limit lies between 1 and the limit minus one; with
-- a limit of 1 it is 1.
pub derive_default-bounds :
    (global : ℕ)
    → 1 ≤ global
    → (1 ≤ derive_default_heavy_concurrency global)
      × (derive_default_heavy_concurrency global ≤ global)
      × (2 ≤ global → derive_default_heavy_concurrency global < global)
unfolding derive_default_heavy_concurrency
derive_default-bounds global h = ground arith

heavy_for-bounds :
    (global : ℕ) (x : ℤ)
    → 1 ≤ global
    → (1 ≤ heavy_for global x)
      × (heavy_for global x ≤ global)
      × (2 ≤ global → heavy_for global x < global)
unfolding heavy_for clamped_heavy
heavy_for-bounds global (pos n) h = ground (arith, derive_default-bounds global h)
heavy_for-bounds global (negsuc n) h = derive_default-bounds global h

pub record IsSane (c : Config) : Type 0 where
  pub concurrency : InRange 1 c.max_concurrency 1000
  pub heavy : InRange 1 c.max_heavy_concurrency (pos_part c.max_concurrency)
  pub reserved :
      2 ≤ pos_part c.max_concurrency → pos_part c.max_heavy_concurrency < pos_part c.max_concurrency
  pub check_interval : InRange 30 c.update_check_interval_seconds 86400
  pub idle : InRange 1 c.update_idle_seconds 86400
  pub slot_timeout : InRange 1 c.slot_acquire_timeout_seconds 300
  pub sessions : InRange 1 c.max_browser_sessions 20
  pub browser_idle : InRange 1 c.browser_idle_timeout_seconds 3600
  pub processes : InRange 1 c.max_background_processes 20
  pub process_age : InRange 1 c.background_process_max_age_seconds 86400
  pub backoff : not_positive c.reconnect_max_backoff ≡ false
  pub level : text_eq c.log_level [] ≡ false
  pub headless : c.browser_headless ≢ none

positive_clamped : (x : ℤ) → 1 ≤ pos_part (clamped x 32 1000)
positive_clamped (pos n) = ground arith
positive_clamped (negsuc n) = ground arith

backoff_positive : (x : ℤ) → not_positive (if not_positive x then pos 60 else x) ≡ false
backoff_positive (pos n) = ground arith
backoff_positive (negsuc n) = ground arith

level_given : (l : Text) → text_eq (if text_eq l [] then codes "info" else l) [] ≡ false
unfolding text_eq
level_given [] = refl
level_given (c ∷ l) = refl

headless_given : (o : Option Bool) → headless_or_true o ≢ none
headless_given none = λ e. cc
headless_given (some b) = λ e. cc

-- Whatever integers stand in the file, after `applyDefaults` every setting lies in its range: in
-- particular the heavy limit is at least 1 and, unless the concurrency limit is 1, below it.
pub apply_defaults-IsSane : (c : Config) → IsSane (apply_defaults c)
unfolding apply_defaults default_log_level default_backoff default_concurrency default_update_check
    default_update_idle default_slot_timeout default_heavy default_browser_sessions
    default_browser_idle default_headless default_background_processes default_background_age
apply_defaults-IsSane c =
    let bounds =
      heavy_for-bounds (pos_part (clamped c.max_concurrency 32 1000)) c.max_heavy_concurrency
        (positive_clamped c.max_concurrency) in
    record {
      concurrency = clamped-InRange c.max_concurrency 32 1000 (omega arith) (omega arith);
      heavy = (bounds.0, bounds.1);
      reserved = bounds.2;
      check_interval = floored-InRange c.update_check_interval_seconds;
      idle = clamped-InRange c.update_idle_seconds 300 86400 (omega arith) (omega arith);
      slot_timeout =
          clamped-InRange c.slot_acquire_timeout_seconds 3 300 (omega arith) (omega arith);
      sessions = clamped-InRange c.max_browser_sessions 3 20 (omega arith) (omega arith);
      browser_idle =
          clamped-InRange c.browser_idle_timeout_seconds 300 3600 (omega arith) (omega arith);
      processes = clamped-InRange c.max_background_processes 5 20 (omega arith) (omega arith);
      process_age =
          clamped-InRange c.background_process_max_age_seconds 3600 86400 (omega arith)
            (omega arith);
      backoff = backoff_positive c.reconnect_max_backoff;
      level = level_given c.log_level;
      headless = headless_given c.browser_headless;
    }

clamped_same : (x : ℤ) (default max : ℕ) → InRange 1 x max → clamped x default max ≡ x
clamped_same (pos n) default max h = ground arith
clamped_same (negsuc n) default max h = absurd h

warned_same :
    (key : Key) (x : ℤ) (max : ℕ) (ws : List Warning) → InRange 1 x max → warned key x max ws ≡ ws
warned_same key (pos n) max ws h = ground arith
warned_same key (negsuc n) max ws h = absurd h

floored_same : (x : ℤ) → InRange 30 x 86400 → floored x 300 30 86400 ≡ x
floored_same (pos n) h = ground arith
floored_same (negsuc n) h = absurd h

floor_warned_same :
    (key : Key) (x : ℤ) (ws : List Warning)
    → InRange 30 x 86400
    → floor_warned key x 30 86400 ws ≡ ws
floor_warned_same key (pos n) ws h = ground arith
floor_warned_same key (negsuc n) ws h = absurd h

heavy_for_same :
    (global : ℕ) (x : ℤ) → InRange 1 x global → pos_part x < global → pos (heavy_for global x) ≡ x
unfolding heavy_for
heavy_for_same global (pos n) h l = ground arith
heavy_for_same global (negsuc n) h l = absurd h

heavy_warned_same :
    (global : ℕ) (x : ℤ) (ws : List Warning)
    → InRange 1 x global
    → pos_part x < global
    → heavy_warned global x ws ≡ ws
unfolding heavy_warned
heavy_warned_same global (pos n) ws h l = ground arith
heavy_warned_same global (negsuc n) ws h l = absurd h

headless_same : (o : Option Bool) → o ≢ none → headless_or_true o ≡ o
headless_same none h = absurd (h refl)
headless_same (some b) h = refl

module _ (c : Config) (v : IsSane c) where
  default_log_level_same : default_log_level c ≡ c
  unfolding default_log_level
  default_log_level_same = rw (v.level) refl

  default_backoff_same : default_backoff c ≡ c
  unfolding default_backoff
  default_backoff_same = rw (v.backoff) refl

  default_concurrency_same : default_concurrency c ≡ c
  unfolding default_concurrency
  default_concurrency_same =
      rw
        (
          clamped_same c.max_concurrency 32 1000 v.concurrency,
          warned_same max_concurrency c.max_concurrency 1000 c.warnings v.concurrency,
        )
        refl

  default_update_check_same : default_update_check c ≡ c
  unfolding default_update_check
  default_update_check_same =
      rw
        (
          floored_same c.update_check_interval_seconds v.check_interval,
          floor_warned_same update_check_interval_seconds c.update_check_interval_seconds c.warnings
              v.check_interval,
        )
        refl

  default_update_idle_same : default_update_idle c ≡ c
  unfolding default_update_idle
  default_update_idle_same =
      rw
        (
          clamped_same c.update_idle_seconds 300 86400 v.idle,
          warned_same update_idle_seconds c.update_idle_seconds 86400 c.warnings v.idle,
        )
        refl

  default_slot_timeout_same : default_slot_timeout c ≡ c
  unfolding default_slot_timeout
  default_slot_timeout_same =
      rw
        (
          clamped_same c.slot_acquire_timeout_seconds 3 300 v.slot_timeout,
          warned_same slot_acquire_timeout_seconds c.slot_acquire_timeout_seconds 300 c.warnings
              v.slot_timeout,
        )
        refl

  default_browser_sessions_same : default_browser_sessions c ≡ c
  unfolding default_browser_sessions
  default_browser_sessions_same =
      rw
        (
          clamped_same c.max_browser_sessions 3 20 v.sessions,
          warned_same max_browser_sessions c.max_browser_sessions 20 c.warnings v.sessions,
        )
        refl

  default_browser_idle_same : default_browser_idle c ≡ c
  unfolding default_browser_idle
  default_browser_idle_same =
      rw
        (
          clamped_same c.browser_idle_timeout_seconds 300 3600 v.browser_idle,
          warned_same browser_idle_timeout_seconds c.browser_idle_timeout_seconds 3600 c.warnings
              v.browser_idle,
        )
        refl

  default_headless_same : default_headless c ≡ c
  unfolding default_headless
  default_headless_same = rw (headless_same c.browser_headless v.headless) refl

  default_background_processes_same : default_background_processes c ≡ c
  unfolding default_background_processes
  default_background_processes_same =
      rw
        (
          clamped_same c.max_background_processes 5 20 v.processes,
          warned_same max_background_processes c.max_background_processes 20 c.warnings v.processes,
        )
        refl

  default_background_age_same : default_background_age c ≡ c
  unfolding default_background_age
  default_background_age_same =
      rw
        (
          clamped_same c.background_process_max_age_seconds 3600 86400 v.process_age,
          warned_same background_process_max_age_seconds c.background_process_max_age_seconds 86400
              c.warnings v.process_age,
        )
        refl

  default_heavy_same :
      pos_part c.max_heavy_concurrency < pos_part c.max_concurrency → default_heavy c ≡ c
  unfolding default_heavy
  default_heavy_same l =
      rw
        (
          heavy_for_same (pos_part c.max_concurrency) c.max_heavy_concurrency v.heavy l,
          heavy_warned_same (pos_part c.max_concurrency) c.max_heavy_concurrency c.warnings v.heavy
              l,
        )
        refl

  -- Settings that are all in range, with the heavy limit below the concurrency limit, are left
  -- exactly as they are, and no warning is added.
  pub apply_defaults-unchanged :
      pos_part c.max_heavy_concurrency < pos_part c.max_concurrency → apply_defaults c ≡ c
  unfolding apply_defaults
  apply_defaults-unchanged l =
      rw
        (
          default_log_level_same,
          default_backoff_same,
          default_concurrency_same,
          default_update_check_same,
          default_update_idle_same,
          default_slot_timeout_same,
          default_heavy_same l,
          default_browser_sessions_same,
          default_browser_idle_same,
          default_headless_same,
          default_background_processes_same,
          default_background_age_same,
        )
        refl
