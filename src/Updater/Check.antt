-- ===== src/Updater/Check.antt =====
-- updater/updater.go, `checkAndApply`, with the failure counter of updater/release.go.
pub mod Once
pub mod Installs
pub mod Traces
use vectrify_agent_runner.Base.{
  ℕ, zero, suc, ◌+◌, ◌≡◌, ◌==◌, ◌%◌, refl, Bool, true, false, not, ◌&&◌, ◌||◌, Option, none, some,
  List, [], ◌∷◌, ◌++◌, Text, text_eq, if◌then◌else◌, arith,
}
use vectrify_agent_runner.Updater.Gate.{
  Gate, Reading, Activity, Reason, idle, in_flight, recent, Verdict, evaluate, reset, busy_reason,
}
use vectrify_agent_runner.Updater.Version.{Version, is_newer, strip_v}
use vectrify_agent_runner.Updater.Apply.{
  Assets, Effect, release_lock, Outcome, failed, deferred, exited, World, apply,
}

pub record Release : Type 0 where
  pub tag_name : Text
  pub assets : Assets

pub record Checker : Type 0 where
  pub version : Text
  pub failures : ℕ
  pub gate : Gate

pub data Lock : Type 0 where
  acquired held unavailable : Lock

-- What one check reads: the answer of `fetch`, the path of the binary, the version in the bad-version
-- file with its space trimmed, the activity and clock for `evaluate`, the lock, the world of `apply`,
-- and the activity and clock when `stillOK` is asked.
pub record Cycle : Type 0 where
  pub fetched : Option Release
  pub exe_path : Option Text
  pub bad_version : Option Text
  pub reading : Reading
  pub lock : Lock
  pub world : World
  pub later : Reading

-- `noteFailure`: the new counter, and whether it warns.
unfoldable pub note_failure : ℕ → ℕ × Bool
note_failure failures = (failures + 1, (failures + 1 == 1) || ((failures + 1) % 12 == 0))

-- `noteSuccess`: the new counter, and whether it announces a recovery.
unfoldable pub note_success : ℕ → ℕ × Bool
note_success zero = (0, false)
note_success (suc n) = (0, true)

-- `isBadVersion`
unfoldable pub is_bad_version : Option Text → Text → Bool
is_bad_version none version = false
is_bad_version (some bad) version = text_eq bad version

pub data Ended : Type 0 where
  fetch_failed up_to_date no_path bad postponed lock_failed lock_held : Ended
  applied : Outcome → Ended

abbrev pub is_idle : Reason → Bool
is_idle idle = true
is_idle in_flight = false
is_idle recent = false

-- `stillOK`
unfoldable pub still_ok : Gate → Bool → Reading → Bool
still_ok g forced later = forced || is_idle (busy_reason g.opts later.seen later.activity)

-- The lock is released by the caller too where `apply` returns an error.
unfoldable pub after_apply : List Effect × Outcome → List Effect × Ended
after_apply (effects, failed) = (effects ++ release_lock ∷ [], applied failed)
after_apply (effects, deferred) = (effects ++ release_lock ∷ [], applied deferred)
after_apply (effects, exited code) = (effects, applied (exited code))

unfoldable pub with_lock : Cycle → Assets → Bool → Lock → List Effect × Ended
unfolding apply after_apply
with_lock cycle assets ok acquired = after_apply (apply cycle.world assets ok)
with_lock cycle assets ok held = ([], lock_held)
with_lock cycle assets ok unavailable = ([], lock_failed)

-- From the idle gate on.
unfoldable pub gated : Checker → Cycle → Assets → Verdict → Checker × List Effect × Ended
unfolding with_lock still_ok
gated c cycle assets v =
    let c' = record c { gate = v.gate } in
    let (effects, ended) =
      with_lock cycle assets (still_ok v.gate v.forced cycle.later) cycle.lock in
    if v.proceed then (c', effects, ended) else (c', [], postponed)

unfoldable pub with_path : Checker → Cycle → Release → Option Text → Checker × List Effect × Ended
unfolding gated evaluate is_bad_version reset strip_v
with_path c cycle rel none = (c, [], no_path)
with_path c cycle rel (some path) =
    if is_bad_version cycle.bad_version (strip_v rel.tag_name)
    then (record c { gate = reset c.gate }, [], bad)
    else gated c cycle rel.assets (evaluate c.gate cycle.reading)

unfoldable pub with_release :
    (Text → Version) → Checker → Cycle → Option Release → Checker × List Effect × Ended
unfolding with_path note_failure note_success is_newer
with_release scan c cycle none =
    (record c { failures = (note_failure c.failures).0 }, [], fetch_failed)
with_release scan c cycle (some rel) =
    let c' = record c { failures = (note_success c.failures).0 } in
    if is_newer scan c.version (strip_v rel.tag_name)
    then with_path c' cycle rel cycle.exe_path
    else (record c' { gate = reset c.gate }, [], up_to_date)

unfoldable pub check_and_apply : (Text → Version) → Checker → Cycle → Checker × List Effect × Ended
unfolding with_release
check_and_apply scan c cycle = with_release scan c cycle cycle.fetched
