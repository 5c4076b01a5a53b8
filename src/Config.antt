-- ===== src/Config.antt =====
-- config/config.go: the settings, their validation and defaults. `int` fields are integers.
pub mod Sane
pub mod Loading
pub mod RunnerKey
mod Tests
use vectrify_agent_runner.Base.{
  ℕ, ◌+◌, ◌-◌, ◌*◌, ◌/◌, ◌≡◌, refl, ◌⊎◌, inl, inr, Bool, true, false, ◌&&◌, Option, none, some,
  List, [], ◌∷◌, ◌++◌, Text, codes, not, pos_part, take, text_eq, ltb, leb, ◌==◌, if◌then◌else◌, ℤ,
  pos, negsuc, not_positive, has_prefix, length,
}

-- The YAML key that a warning names.
pub data Key : Type 0 where
  max_concurrency update_check_interval_seconds update_idle_seconds slot_acquire_timeout_seconds
        max_browser_sessions browser_idle_timeout_seconds max_background_processes
        background_process_max_age_seconds :
      Key

-- One constructor for each format string of the warnings.
pub data Warning : Type 0 where
  -- the key, the value of the file, and the ceiling that replaces it
  exceeds : Key → ℤ → ℕ → Warning
  below_minimum : Key → ℤ → ℕ → Warning
  -- max_heavy_concurrency, max_concurrency, and the value that replaces the former
  heavy_clamped : ℤ → ℕ → ℕ → Warning

pub record Config : Type 0 where
  pub api_url : Text
  pub runner_key : Text
  pub workspace_root : Text
  pub allow_shell : Bool
  pub log_level : Text
  pub reconnect_max_backoff : ℤ
  pub log_file : Text
  pub max_concurrency : ℤ
  pub max_heavy_concurrency : ℤ
  pub slot_acquire_timeout_seconds : ℤ
  pub update_check_interval_seconds : ℤ
  pub update_idle_seconds : ℤ
  pub max_browser_sessions : ℤ
  pub browser_idle_timeout_seconds : ℤ
  pub browser_headless : Option Bool
  pub max_background_processes : ℤ
  pub background_process_max_age_seconds : ℤ
  pub config_path : Text
  pub warnings : List Warning

-- The shape `if x <= 0 { x = default } else if x > max { warn; x = max }` of most defaults.
abbrev pub clamped : ℤ → ℕ → ℕ → ℤ
clamped (pos n) default max = if n == 0 then pos default else if ltb max n then pos max else pos n
clamped (negsuc n) default max = pos default

abbrev pub warned : Key → ℤ → ℕ → List Warning → List Warning
warned key (pos n) max ws = if ltb max n then ws ++ exceeds key (pos n) max ∷ [] else ws
warned key (negsuc n) max ws = ws

unfoldable pub default_log_level : Config → Config
default_log_level c = record c {
  log_level = if text_eq c.log_level [] then codes "info" else c.log_level;
}

unfoldable pub default_backoff : Config → Config
default_backoff c = record c {
  reconnect_max_backoff =
      if not_positive c.reconnect_max_backoff then pos 60 else c.reconnect_max_backoff;
}

unfoldable pub default_concurrency : Config → Config
default_concurrency c = record c {
  max_concurrency = clamped c.max_concurrency 32 1000;
  warnings = warned max_concurrency c.max_concurrency 1000 c.warnings;
}

-- This knob has a floor of 30 as well.
abbrev pub floored : ℤ → ℕ → ℕ → ℕ → ℤ
floored (pos n) default min max =
    if n == 0
    then pos default
    else if ltb n min
    then pos min
    else if ltb max n
    then pos max
    else pos n
floored (negsuc n) default min max = pos default

abbrev pub floor_warned : Key → ℤ → ℕ → ℕ → List Warning → List Warning
floor_warned key (pos n) min max ws =
    if n == 0
    then ws
    else if ltb n min
    then ws ++ below_minimum key (pos n) min ∷ []
    else if ltb max n
    then ws ++ exceeds key (pos n) max ∷ []
    else ws
floor_warned key (negsuc n) min max ws = ws

unfoldable pub default_update_check : Config → Config
default_update_check c = record c {
  update_check_interval_seconds = floored c.update_check_interval_seconds 300 30 86400;
  warnings =
      floor_warned update_check_interval_seconds c.update_check_interval_seconds 30 86400
        c.warnings;
}

unfoldable pub default_update_idle : Config → Config
default_update_idle c = record c {
  update_idle_seconds = clamped c.update_idle_seconds 300 86400;
  warnings = warned update_idle_seconds c.update_idle_seconds 86400 c.warnings;
}

unfoldable pub default_slot_timeout : Config → Config
default_slot_timeout c = record c {
  slot_acquire_timeout_seconds = clamped c.slot_acquire_timeout_seconds 3 300;
  warnings = warned slot_acquire_timeout_seconds c.slot_acquire_timeout_seconds 300 c.warnings;
}

unfoldable pub derive_default_heavy_concurrency : ℕ → ℕ
derive_default_heavy_concurrency global =
    let derived = global * 24 / 32 in
    let capped = if leb global derived then global - 1 else derived in
    if ltb capped 1 then 1 else capped

-- `max_concurrency` is positive here: its own default comes first.
unfoldable pub clamped_heavy : ℕ → ℕ
clamped_heavy global = if ltb (global - 1) 1 then global else global - 1

unfoldable pub heavy_for : ℕ → ℤ → ℕ
heavy_for global (pos n) =
    if n == 0
    then derive_default_heavy_concurrency global
    else if leb global n
    then clamped_heavy global
    else n
heavy_for global (negsuc n) = derive_default_heavy_concurrency global

unfoldable pub heavy_warned : ℕ → ℤ → List Warning → List Warning
heavy_warned global (pos n) ws =
    if n == 0
    then ws
    else if leb global n
    then ws ++ heavy_clamped (pos n) global (clamped_heavy global) ∷ []
    else ws
heavy_warned global (negsuc n) ws = ws

unfoldable pub default_heavy : Config → Config
default_heavy c =
    let global = pos_part c.max_concurrency in
    record c {
      max_heavy_concurrency = pos (heavy_for global c.max_heavy_concurrency);
      warnings = heavy_warned global c.max_heavy_concurrency c.warnings;
    }

unfoldable pub default_browser_sessions : Config → Config
default_browser_sessions c = record c {
  max_browser_sessions = clamped c.max_browser_sessions 3 20;
  warnings = warned max_browser_sessions c.max_browser_sessions 20 c.warnings;
}

unfoldable pub default_browser_idle : Config → Config
default_browser_idle c = record c {
  browser_idle_timeout_seconds = clamped c.browser_idle_timeout_seconds 300 3600;
  warnings = warned browser_idle_timeout_seconds c.browser_idle_timeout_seconds 3600 c.warnings;
}

abbrev headless_or_true : Option Bool → Option Bool
headless_or_true none = some true
headless_or_true (some b) = some b

unfoldable pub default_headless : Config → Config
default_headless c = record c { browser_headless = headless_or_true c.browser_headless }

unfoldable pub default_background_processes : Config → Config
default_background_processes c = record c {
  max_background_processes = clamped c.max_background_processes 5 20;
  warnings = warned max_background_processes c.max_background_processes 20 c.warnings;
}

unfoldable pub default_background_age : Config → Config
default_background_age c = record c {
  background_process_max_age_seconds = clamped c.background_process_max_age_seconds 3600 86400;
  warnings =
      warned background_process_max_age_seconds c.background_process_max_age_seconds 86400
        c.warnings;
}

unfoldable pub apply_defaults : Config → Config
apply_defaults c0 =
    let c = default_log_level c0 in
    let c = default_backoff c in
    let c = default_concurrency c in
    let c = default_update_check c in
    let c = default_update_idle c in
    let c = default_slot_timeout c in
    let c = default_heavy c in
    let c = default_browser_sessions c in
    let c = default_browser_idle c in
    let c = default_headless c in let c = default_background_processes c in default_background_age c

pub data Error : Type 0 where
  api_url_required runner_key_required bad_runner_key workspace_root_required bad_workspace_root
        unreadable unparsable config_path_unknown unwritable :
      Error

pub data Result {ℓ} (A : Type ℓ) : Type ℓ where
  ok : A → Result A
  err : Error → Result A

pub Result-cases {ℓ} :
    {A : Type ℓ} (r : Result A) → ((e : Error) × (r ≡ err e)) ⊎ ((a : A) × (r ≡ ok a))
Result-cases (err e) = inl (e, refl)
Result-cases (ok a) = inr (a, refl)

-- len(k) > 5 && k[:5] == "vrun_"
unfoldable pub is_valid_runner_key : Text → Bool
is_valid_runner_key k = ltb 5 (length k) && text_eq (take 5 k) (codes "vrun_")

-- `filepath.Abs`: it asks the operating system for the working directory, and may fail.
abbrev pub Abs : Type 0
Abs = Text → Option Text

unfoldable pub rooted : Config → Option Text → Result Config
rooted c none = err bad_workspace_root
rooted c (some abs) = ok (record c { workspace_root = abs })

unfoldable pub validate : Abs → Config → Result Config
unfolding rooted
validate abs c =
    if text_eq c.api_url []
    then err api_url_required
    else if text_eq c.runner_key []
    then err runner_key_required
    else if not (is_valid_runner_key c.runner_key)
    then err bad_runner_key
    else if text_eq c.workspace_root []
    then err workspace_root_required
    else rooted c (abs c.workspace_root)

-- The zero `Config` with `allow_shell` seeded.
unfoldable pub seed : Config
seed = record {
  api_url = [];
  runner_key = [];
  workspace_root = [];
  allow_shell = true;
  log_level = [];
  reconnect_max_backoff = pos 0;
  log_file = [];
  max_concurrency = pos 0;
  max_heavy_concurrency = pos 0;
  slot_acquire_timeout_seconds = pos 0;
  update_check_interval_seconds = pos 0;
  update_idle_seconds = pos 0;
  max_browser_sessions = pos 0;
  browser_idle_timeout_seconds = pos 0;
  browser_headless = none;
  max_background_processes = pos 0;
  background_process_max_age_seconds = pos 0;
  config_path = [];
  warnings = [];
}

abbrev pub path_or : Option Text → Text → Text
path_or (some abs) path = abs
path_or none path = path

unfoldable pub finish_load : Abs → Text → Result Config → Result Config
finish_load abs path (err e) = err e
finish_load abs path (ok c) =
    ok (record (apply_defaults c) { config_path = path_or (abs path) path })

unfoldable pub parsed : Abs → Text → Option Config → Result Config
unfolding finish_load
parsed abs path none = err unparsable
parsed abs path (some c) = finish_load abs path (validate abs c)

-- `Load`. `yaml.Unmarshal` into a record, and the bytes of the file (`none`: it cannot be read),
-- are arguments.
unfoldable pub load : Abs → (Config → Text → Option Config) → Text → Option Text → Result Config
unfolding parsed
load abs unmarshal path none = err unreadable
load abs unmarshal path (some bytes) = parsed abs path (unmarshal seed bytes)
