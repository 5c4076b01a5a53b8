-- ===== src/Updater/Gate/Tests.antt =====
-- The gate on a run of checks.
use vectrify_agent_runner.Base.{
  ℕ, ◌+◌, ◌*◌, ◌≤◌, ◌≡◌, refl, ◌↔◌, ◌⊎◌, true, false, some, [], ◌∷◌, pos,
}
use vectrify_agent_runner.Updater.Gate.{
  minute, max_deferral, Options, Gate, Reading, new_gate, evaluate, with_defaults,
}
use vectrify_agent_runner.Updater.Gate.Deferral.{deferrals, deferrals-bounded, IsQuietFor, window}

abbrev options : Options
options = record { check_interval = pos 0; idle_window = pos (10 * minute) }

-- A command is in flight at this time.
abbrev busy_at : ℕ → Reading
busy_at t = record {
  activity = some (record { busy = true; last_active = some t });
  seen = t;
  now = t + 1;
}

-- The last command ended 3 minutes before this time.
abbrev recent_at : ℕ → Reading
recent_at t = record {
  activity = some (record { busy = false; last_active = some t });
  seen = t + 3 * minute;
  now = t + 3 * minute;
}

abbrev deferring_gate : Gate
deferring_gate = record {
  opts = with_defaults options;
  deferred_since = some 1;
  last_reminder = some (70 * minute + 1);
}

checks :
    deferrals
      (new_gate options)
      0
      (busy_at 0 ∷ recent_at (20 * minute) ∷ busy_at (70 * minute) ∷ [])
    ≡ some (deferring_gate, 2)
unfolding deferrals evaluate new_gate with_defaults
checks = refl

deferrals-bounded_example :
    let v = evaluate deferring_gate (recent_at (358 * minute)) in
    let IsQuiet = IsQuietFor (window options) (361 * minute) (recent_at (358 * minute)).activity in
    ((v.proceed ≡ true) ↔ (IsQuiet ⊎ (1 + max_deferral ≤ 361 * minute)))
    × ((v.forced ≡ true) ↔ ((¬ IsQuiet) × (1 + max_deferral ≤ 361 * minute)))
    × (IsQuiet → v.gate ≡ new_gate options)
    × (2 ≤ 6)
deferrals-bounded_example =
    deferrals-bounded options (busy_at 0) (recent_at (358 * minute))
      (recent_at (20 * minute) ∷ busy_at (70 * minute) ∷ []) deferring_gate 2 checks
