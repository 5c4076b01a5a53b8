-- ===== src/Updater/Tests.antt =====
-- One check of the updater on a machine where all goes well, and on one where it does not.
use vectrify_agent_runner.Base.{
  ◌-◌, ◌≡◌, refl, ◌↔◌, Bool, true, false, none, some, [], ◌∷◌, Text, codes, text_eq, lookup, pos,
}
use vectrify_agent_runner.Base.Sort.{StrictOrder}
use vectrify_agent_runner.Updater.Gate.{
  minute, Reading, evaluate, evaluate_reason, reset, busy_reason,
}
use vectrify_agent_runner.Updater.Version.{Version, is_newer, strip_v, is_newer-StrictOrder}
use vectrify_agent_runner.Updater.Apply.{
  World, asset_name, manifest_name, asset_url, verified, apply, fetch_binary, downloaded, installed,
  download, drain, swap_binary, spawn_watchdog, release_lock, restore_previous, before_exit, exited,
}
use vectrify_agent_runner.Updater.Check.{
  Checker, Cycle, applied, acquired, check_and_apply, with_release, with_path, gated, with_lock,
  after_apply, still_ok, is_bad_version, note_success,
}
use vectrify_agent_runner.Updater.Check.Once.{swaps}
use vectrify_agent_runner.Updater.Check.Installs.{IsInstallable, check_and_apply-IsInstallable}

-- A reading of `d.d.d`.
abbrev scan_digits : Text → Version
scan_digits (a ∷ b ∷ c ∷ d ∷ e ∷ rest) = record {
  major = pos (a - 48);
  minor = pos (c - 48);
  patch = pos (e - 48);
}
scan_digits other = record { major = pos 0; minor = pos 0; patch = pos 0 }

abbrev checker : Checker
checker = record {
  version = codes "1.2.3";
  failures = 2;
  gate = record {
    opts = record { check_interval = pos minute; idle_window = pos minute };
    deferred_since = none;
    last_reminder = none;
  };
}

abbrev quiet : Reading
quiet = record { activity = none; seen = 5; now = 6 }

abbrev world : Bool → World
world starts = record {
  downloads = λ url. true;
  manifest = λ url. some ((asset_name, codes "abcd") ∷ []);
  has_sum = λ expected. text_eq expected (codes "abcd");
  smoke_test = true;
  is_service = true;
  policy_ok = false;
  swaps = true;
  watchdog_starts = starts;
}

abbrev cycle : Bool → Cycle
cycle starts = record {
  fetched = some (record {
    tag_name = codes "v1.3.0";
    assets = (manifest_name, codes "m") ∷ (asset_name, codes "u") ∷ [];
  });
  exe_path = some (codes "runner.exe");
  bad_version = some (codes "1.2.9");
  reading = quiet;
  lock = acquired;
  world = world starts;
  later = quiet;
}

newer : is_newer scan_digits (codes "1.2.3") (codes "1.3.0") ≡ true
unfolding is_newer text_eq
newer = refl

updates : check_and_apply scan_digits checker (cycle true) ≡ (
  record checker { failures = 0 },
  download ∷ drain ∷ swap_binary ∷ spawn_watchdog ∷ release_lock ∷ before_exit ∷ [],
  applied (exited 1),
)
unfolding check_and_apply with_release with_path gated with_lock after_apply apply fetch_binary
    downloaded installed verified asset_url is_newer strip_v is_bad_version evaluate evaluate_reason
    reset busy_reason still_ok note_success text_eq lookup
updates = refl

-- Without a restart policy and without a watchdog the update is undone, and the lock released twice.
undone :
    (check_and_apply scan_digits checker (cycle false)).1
    ≡ download ∷ drain ∷ swap_binary ∷ spawn_watchdog ∷ restore_previous ∷ release_lock
      ∷ release_lock ∷ []
unfolding check_and_apply with_release with_path gated with_lock after_apply apply fetch_binary
    downloaded installed verified asset_url is_newer strip_v is_bad_version evaluate evaluate_reason
    reset busy_reason still_ok note_success text_eq lookup
undone = refl

is_newer-StrictOrder_example : StrictOrder Text (is_newer scan_digits)
is_newer-StrictOrder_example = is_newer-StrictOrder scan_digits

check_and_apply-IsInstallable_example :
    (swaps (check_and_apply scan_digits checker (cycle true)).1 ≡ 1)
    ↔ IsInstallable scan_digits checker (cycle true)
check_and_apply-IsInstallable_example =
    check_and_apply-IsInstallable scan_digits checker (cycle true)
