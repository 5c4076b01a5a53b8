-- ===== src/Startup.antt =====
-- How the settings that config/config.go loads become the limits that client/ws_client.go dispatches
-- under.
mod Tests
use vectrify_agent_runner.Base.{Bool, [], ◌∷◌, ◌++◌, sym, ◌+◌, true, List, Text, pos_part}
use vectrify_agent_runner.Config.{Config, Result}
use vectrify_agent_runner.Config.Sane.{IsSane}
use vectrify_agent_runner.Client.Registry.{Registry}
use vectrify_agent_runner.Client.Waiters.{Limits}
use vectrify_agent_runner.Client.System.{System, waiting, touch}

-- The settings that `dispatchOne` hands to `acquire`; they are positive once loaded.
unfoldable pub limits_of : Config → Limits
limits_of c = record {
  max_concurrency = pos_part c.max_concurrency;
  max_heavy_concurrency = pos_part c.max_heavy_concurrency;
}

-- The client once it has taken a command in.
abbrev taken_in : System → Text → Text → System
taken_in s id cmd_type = record {
  shared = record (touch s.shared) { pending_waiters = s.shared.pending_waiters + 1 };
  tasks = s.tasks ++ record { cmd_id = id; cmd_type = cmd_type; phase = waiting } ∷ [];
}
