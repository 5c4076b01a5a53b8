-- ===== src/Updater/Gate.antt =====
-- updater/options.go: the idle gate of the updater. Times are clock readings in nanoseconds, and the
-- zero time is `none`; a difference of two readings is signed.
pub mod Deferral
mod Tests
use vectrify_agent_runner.Base.{
  ℕ, ◌+◌, ◌*◌, ◌≤◌, ◌<◌, ◌≡◌, refl, Bool, true, false, Option, none, some, if◌then◌else◌, ℤ, pos,
  negsuc, sub_ℕ, int_lt, int_le, not_positive, arith,
}

abbrev pub minute : ℕ
minute = 60000000000

abbrev pub default_check_interval : ℤ
default_check_interval = pos (5 * minute)

abbrev pub default_idle_window : ℤ
default_idle_window = pos (5 * minute)

abbrev pub max_deferral : ℕ
max_deferral = 360 * minute

abbrev pub defer_reminder_every : ℕ
defer_reminder_every = 60 * minute

pub record Activity : Type 0 where
  pub busy : Bool
  pub last_active : Option ℕ

-- The durations of `Options`; its callback is called in `evaluate`, and what it returns there is an
-- argument.
pub record Options : Type 0 where
  pub check_interval : ℤ
  pub idle_window : ℤ

unfoldable pub with_defaults : Options → Options
with_defaults o = record {
  check_interval =
      if not_positive o.check_interval then default_check_interval else o.check_interval;
  idle_window = if not_positive o.idle_window then default_idle_window else o.idle_window;
}

pub record Gate : Type 0 where
  pub opts : Options
  pub deferred_since : Option ℕ
  pub last_reminder : Option ℕ

unfoldable pub new_gate : Options → Gate
unfolding with_defaults
new_gate o = record { opts = with_defaults o; deferred_since = none; last_reminder = none }

-- What the gate reads on one check: the activity (none without a callback), the clock of
-- `busyReason`, and that of `evaluate` itself.
pub record Reading : Type 0 where
  pub activity : Option Activity
  pub seen : ℕ
  pub now : ℕ

-- The reasons of `busyReason`; the empty one is `idle`.
pub data Reason : Type 0 where
  idle in_flight recent : Reason

abbrev pub quiet_since : Options → ℕ → Option ℕ → Reason
quiet_since o seen none = idle
quiet_since o seen (some last) = if int_lt (sub_ℕ seen last) o.idle_window then recent else idle

unfoldable pub busy_reason : Options → ℕ → Option Activity → Reason
busy_reason o seen none = idle
busy_reason o seen (some a) = if a.busy then in_flight else quiet_since o seen a.last_active

unfoldable pub reset : Gate → Gate
reset g = record g { deferred_since = none; last_reminder = none }

-- What `evaluate` logs: nothing, the first deferral, the end of patience, a reminder, or a line at
-- DEBUG.
pub data Note : Type 0 where
  silent deferring capped reminder debug : Note

pub record Verdict : Type 0 where
  pub gate : Gate
  pub proceed : Bool
  pub forced : Bool
  pub note : Note

-- now.Sub(t) for a time that may be zero, tested against a duration; a time that is zero is centuries
-- ago.
unfoldable pub elapsed : ℕ → ℕ → Option ℕ → Bool
elapsed duration now none = true
elapsed duration now (some t) = int_le (pos duration) (sub_ℕ now t)

-- The part of `evaluate` behind its first return.
unfoldable pub defer_update : Gate → ℕ → Option ℕ → Verdict
unfolding elapsed
defer_update g now none = record {
  gate = record g { deferred_since = some now; last_reminder = some now };
  proceed = false;
  forced = false;
  note = deferring;
}
defer_update g now (some since) =
    if elapsed max_deferral now (some since)
    then record { gate = g; proceed = true; forced = true; note = capped }
    else if elapsed defer_reminder_every now g.last_reminder
    then record {
      gate = record g { last_reminder = some now };
      proceed = false;
      forced = false;
      note = reminder;
    }
    else record { gate = g; proceed = false; forced = false; note = debug }

-- `evaluate` on what `busyReason` has returned.
unfoldable pub evaluate_reason : Gate → ℕ → Reason → Verdict
unfolding reset defer_update
evaluate_reason g now idle = record {
  gate = reset g;
  proceed = true;
  forced = false;
  note = silent;
}
evaluate_reason g now in_flight = defer_update g now g.deferred_since
evaluate_reason g now recent = defer_update g now g.deferred_since

unfoldable pub evaluate : Gate → Reading → Verdict
unfolding busy_reason evaluate_reason
evaluate g r = evaluate_reason g r.now (busy_reason g.opts r.seen r.activity)
