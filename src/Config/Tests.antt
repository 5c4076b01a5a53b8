-- ===== src/Config/Tests.antt =====
-- The settings on small files, and the theorems there.
use vectrify_agent_runner.Base.{
  ◌≡◌, refl, true, Option, some, [], ◌∷◌, ◌++◌, Text, codes, arith, text_eq, pos, newline, split,
  join, has_prefix, trim_left,
}
use vectrify_agent_runner.Config.{
  Config, ok, Abs, apply_defaults, load, seed, is_valid_runner_key,
  derive_default_heavy_concurrency, default_log_level, default_backoff, default_concurrency,
  default_update_check, default_update_idle, default_slot_timeout, default_heavy, heavy_for,
  default_browser_sessions, default_browser_idle, default_headless, default_background_processes,
  default_background_age,
}
use vectrify_agent_runner.Config.Sane.{IsSane}
use vectrify_agent_runner.Config.Loading.{IsComplete, load-IsSane, load-ok}
use vectrify_agent_runner.Config.RunnerKey.{
  update_runner_key, rewrite_file, rewrite_lines, is_key_line, find_key_line, other_lines, key_line,
  update_runner_key-written,
}

-- The historical default.
default_ratio : derive_default_heavy_concurrency 32 ≡ 24
unfolding derive_default_heavy_concurrency
default_ratio = refl

abbrev minimal : Config
minimal = record seed {
  api_url = codes "wss://x";
  runner_key = codes "vrun_1";
  workspace_root = codes "w";
  max_concurrency = pos 4;
}

-- A customised limit derives a heavy limit below it, with no warning.
four_gives_three : (apply_defaults minimal).max_heavy_concurrency ≡ pos 3
unfolding apply_defaults default_log_level default_backoff default_concurrency default_update_check
    default_update_idle default_slot_timeout default_heavy heavy_for seed
    derive_default_heavy_concurrency default_browser_sessions default_browser_idle default_headless
    default_background_processes default_background_age
four_gives_three = refl

abbrev settled : Config
settled = record seed {
  log_level = codes "warn";
  reconnect_max_backoff = pos 60;
  max_concurrency = pos 4;
  max_heavy_concurrency = pos 2;
  slot_acquire_timeout_seconds = pos 3;
  update_check_interval_seconds = pos 300;
  update_idle_seconds = pos 300;
  max_browser_sessions = pos 3;
  browser_idle_timeout_seconds = pos 300;
  browser_headless = some true;
  max_background_processes = pos 5;
  background_process_max_age_seconds = pos 3600;
}

settled-IsSane : IsSane settled
unfolding text_eq
settled-IsSane = record {
  concurrency = omega arith;
  heavy = omega arith;
  reserved = omega arith;
  check_interval = omega arith;
  idle = omega arith;
  slot_timeout = omega arith;
  sessions = omega arith;
  browser_idle = omega arith;
  processes = omega arith;
  process_age = omega arith;
  backoff = refl;
  level = refl;
  headless = λ e. cc;
}

-- A parser that reads the same settings from every file, and the identity for absolute paths.
abbrev reads : Config → Text → Option Config
reads c bytes = some minimal

abbrev absolute : Abs
absolute = some

minimal-IsComplete : IsComplete minimal
unfolding is_valid_runner_key text_eq
minimal-IsComplete = record {
  url = λ e. ground arith;
  key_given = λ e. ground arith;
  key = refl;
  root = λ e. ground arith;
}

minimal_loads : (d : Config) × (load absolute reads (codes "c") (some []) ≡ ok d)
minimal_loads = load-ok absolute reads (codes "c") [] refl minimal-IsComplete refl

load-IsSane_example :
    IsSane minimal_loads.0
    × IsComplete minimal
    × (minimal_loads.0.runner_key ≡ codes "vrun_1")
    × (minimal_loads.0.allow_shell ≡ minimal.allow_shell)
    × (some (codes "w") ≡ some minimal_loads.0.workspace_root)
load-IsSane_example = load-IsSane absolute reads (codes "c") [] refl minimal_loads.1

abbrev located : Config
located = record minimal { config_path = codes "c" }

abbrev old_file : Text
old_file = codes "  runner_key: a" ++ newline ∷ codes "x: 1"

abbrev new_file : Text
new_file = codes "runner_key:            vrun_2" ++ newline ∷ codes "x: 1"

rewritten :
    update_runner_key located (codes "vrun_2") (some old_file) true
    ≡ ok (record located { runner_key = codes "vrun_2" }, new_file)
unfolding update_runner_key rewrite_file rewrite_lines is_key_line has_prefix trim_left split join
    text_eq
rewritten = refl

update_runner_key-written_example :
    (record located { runner_key = codes "vrun_2" }
      ≡ record located { runner_key = codes "vrun_2" })
    × (find_key_line (split newline new_file) ≡ some (key_line (codes "vrun_2")))
    × (other_lines (split newline new_file) ≡ other_lines (split newline old_file))
update_runner_key-written_example =
    update_runner_key-written located (codes "vrun_2") old_file true (ground arith) rewritten
