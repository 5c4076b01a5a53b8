-- ===== src/Startup/Tests.antt =====
-- A runner that loads a small file and then runs one shell command.
use mathlib.Core.Option.{get_or}
use vectrify_agent_runner.Base.{true, Option, some, List, [], ◌∷◌, Text, codes, pos}
use vectrify_agent_runner.Config.{Config, Abs, seed}
use vectrify_agent_runner.Client.System.{
  System, Event, command, act, attempt, let_go, new_client, run,
}
use vectrify_agent_runner.Startup.{limits_of}

abbrev file_settings : Config
file_settings = record seed {
  api_url = codes "wss://x";
  runner_key = codes "vrun_1";
  workspace_root = codes "w";
  max_concurrency = pos 2;
}

abbrev settings : Config
settings = record file_settings {
  log_level = codes "info";
  reconnect_max_backoff = pos 60;
  max_heavy_concurrency = pos 1;
  slot_acquire_timeout_seconds = pos 3;
  update_check_interval_seconds = pos 300;
  update_idle_seconds = pos 300;
  max_browser_sessions = pos 3;
  browser_idle_timeout_seconds = pos 300;
  browser_headless = some true;
  max_background_processes = pos 5;
  background_process_max_age_seconds = pos 3600;
  config_path = codes "c";
}

abbrev reads_file : Config → Text → Option Config
reads_file c bytes = some file_settings

abbrev absolute_path : Abs
absolute_path = some

abbrev shell_events : List Event
shell_events = command (codes "a") (codes "shell") ∷ act 0 attempt ∷ act 0 let_go ∷ []

abbrev shell_runs : System
shell_runs = get_or (run (limits_of settings) (new_client 7) shell_events) (new_client 7)
