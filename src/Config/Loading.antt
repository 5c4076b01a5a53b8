-- ===== src/Config/Loading.antt =====
-- config/config.go, `Load`: what a configuration that was loaded satisfies, and when one is loaded.
use vectrify_agent_runner.Base.{
  ◌≡◌, ◌≢◌, refl, subst, inl, inr, true, Option, some, [], Text, arith, text_eq_iff, Option-cases,
}
use vectrify_agent_runner.Config.{
  Config, ok, Abs, validate, rooted, apply_defaults, finish_load, parsed, load, seed, path_or,
  Result-cases, is_valid_runner_key, default_log_level, default_backoff, default_concurrency,
  default_update_check, default_update_idle, default_slot_timeout, default_heavy,
  default_browser_sessions, default_browser_idle, default_headless, default_background_processes,
  default_background_age,
}
use vectrify_agent_runner.Config.Sane.{IsSane, apply_defaults-IsSane}

-- What validation demands of the settings as they stand in the file.
pub record IsComplete (c : Config) : Type 0 where
  pub url : c.api_url ≢ []
  pub key_given : c.runner_key ≢ []
  pub key : is_valid_runner_key c.runner_key ≡ true
  pub root : c.workspace_root ≢ []

validate-ok :
    (abs : Abs) (c : Config) (r : Text)
    → IsComplete c
    → abs c.workspace_root ≡ some r
    → validate abs c ≡ ok (record c { workspace_root = r })
unfolding validate rooted
validate-ok abs c r v e =
    ground (
      arith,
      text_eq_iff c.api_url [],
      text_eq_iff c.runner_key [],
      text_eq_iff c.workspace_root [],
    )

validate-IsComplete :
    (abs : Abs) (c : Config) {d : Config}
    → validate abs c ≡ ok d
    → IsComplete c
      × (r : Text) × (abs c.workspace_root ≡ some r)
      × (d ≡ record c { workspace_root = r })
unfolding validate rooted
validate-IsComplete abs c e = elim (Option-cases (abs c.workspace_root)) [
  | inl gone ↦ absurd (ground arith)
  | inr (r, q) ↦ (
    ground (
      arith,
      text_eq_iff c.api_url [],
      text_eq_iff c.runner_key [],
      text_eq_iff c.workspace_root [],
    ),
    r,
    q,
    ground arith,
  )
]

apply_defaults-kept :
    (c : Config)
    → ((apply_defaults c).api_url ≡ c.api_url)
      × ((apply_defaults c).runner_key ≡ c.runner_key)
      × ((apply_defaults c).workspace_root ≡ c.workspace_root)
      × ((apply_defaults c).allow_shell ≡ c.allow_shell)
unfolding apply_defaults default_log_level default_backoff default_concurrency default_update_check
    default_update_idle default_slot_timeout default_heavy default_browser_sessions
    default_browser_idle default_headless default_background_processes default_background_age
apply_defaults-kept c = (refl, refl, refl, refl)

IsSane-config_path : (c : Config) (p : Text) → IsSane c → IsSane (record c { config_path = p })
IsSane-config_path c p v = record {
  concurrency = v.concurrency;
  heavy = v.heavy;
  reserved = v.reserved;
  check_interval = v.check_interval;
  idle = v.idle;
  slot_timeout = v.slot_timeout;
  sessions = v.sessions;
  browser_idle = v.browser_idle;
  processes = v.processes;
  process_age = v.process_age;
  backoff = v.backoff;
  level = v.level;
  headless = v.headless;
}

loaded-ok :
    (abs : Abs) (path : Text) (c : Config) {d : Config}
    → finish_load abs path (validate abs c) ≡ ok d
    → IsSane d
      × IsComplete c
      × (d.runner_key ≡ c.runner_key)
      × (d.allow_shell ≡ c.allow_shell)
      × (abs c.workspace_root ≡ some d.workspace_root)
unfolding finish_load
loaded-ok abs path c {d} e = elim (Result-cases (validate abs c)) [
  | inl (x, q) ↦ absurd (ground arith)
  | inr (v, q) ↦
      let (complete, r, rooted, same) = validate-IsComplete abs c q in
      let kept = apply_defaults-kept v in
      (
        subst IsSane (ground arith) (
            IsSane-config_path (apply_defaults v) (path_or (abs path) path)
              (apply_defaults-IsSane v)),
        complete,
        ground arith,
        ground arith,
        ground arith,
      )
]

module _ (abs : Abs) (unmarshal : Config → Text → Option Config) (path bytes : Text) where
  -- Whatever the YAML library makes of the file: settings that `Load` returns are in range, those
  -- of the file named an API address and a valid runner key, which `Load` kept with the shell
  -- permission, and the workspace root is the absolute path of the file's.
  pub load-IsSane :
      {c d : Config}
      → unmarshal seed bytes ≡ some c
      → load abs unmarshal path (some bytes) ≡ ok d
      → IsSane d
        × IsComplete c
        × (d.runner_key ≡ c.runner_key)
        × (d.allow_shell ≡ c.allow_shell)
        × (abs c.workspace_root ≡ some d.workspace_root)
  unfolding load parsed
  load-IsSane {c} {d} u e = loaded-ok abs path c (ground arith)

  -- `Load` succeeds on every file that can be read and parsed and is complete, if the workspace
  -- root has an absolute path: no number in it makes the runner refuse to start.
  pub load-ok :
      {c : Config} {r : Text}
      → unmarshal seed bytes ≡ some c
      → IsComplete c
      → abs c.workspace_root ≡ some r
      → (d : Config) × (load abs unmarshal path (some bytes) ≡ ok d)
  unfolding load parsed finish_load
  load-ok {c} {r} u v e = (
    record (apply_defaults (record c { workspace_root = r })) {
      config_path = path_or (abs path) path;
    },
    ground (arith, validate-ok abs c r v e),
  )
