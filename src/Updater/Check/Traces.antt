-- ===== src/Updater/Check/Traces.antt =====
-- What one check of the updater on Windows leaves behind: the lock, the order of drain and swap, and the
-- count of failures.
use vectrify_agent_runner.Base.{
  ℕ, zero, suc, ◌+◌, ◌≡◌, ◌≤◌, ◌/◌, ◌↔◌, Bool, true, false, not, ◌&&◌, ◌||◌, List, [], ◌∷◌,
  if◌then◌else◌, sum, arith,
}
use vectrify_agent_runner.Updater.Version.{Version}
use vectrify_agent_runner.Updater.Apply.{
  Effect, drain, swap_binary, restore_previous, release_lock, Outcome, failed, deferred, exited,
}
use vectrify_agent_runner.Updater.Check.{Ended, applied, note_failure, note_success}

abbrev release_unit : Effect → ℕ
release_unit release_lock = 1
release_unit other = 0

abbrev restore_unit : Effect → ℕ
restore_unit restore_previous = 1
restore_unit other = 0

abbrev pub releases : List Effect → ℕ
releases = sum release_unit

abbrev pub restores : List Effect → ℕ
restores = sum restore_unit

abbrev is_drain : Effect → Bool
is_drain drain = true
is_drain other = false

abbrev is_swap : Effect → Bool
is_swap swap_binary = true
is_swap other = false

-- Every swap of a list stands behind a drain.
abbrev pub is_drained_first : Bool → List Effect → Bool
is_drained_first drained [] = true
is_drained_first drained (e ∷ es) =
    (drained || not (is_swap e)) && is_drained_first (drained || is_drain e) es

-- The checks that hold the lock for a while.
abbrev pub takes : Ended → ℕ
takes (applied outcome) = 1
takes other = 0

-- The lock is released once, and once more for an update that is undone; `drain` is called before a
-- swap.
abbrev pub IsClean : List Effect → ℕ → Type 0
IsClean es taken = (releases es ≡ taken + restores es) × (is_drained_first false es ≡ true)

abbrev released_by : Outcome → ℕ
released_by failed = 0
released_by deferred = 0
released_by (exited code) = 1

IsReleased : List Effect × Outcome → Type 0
IsReleased r = (releases r.0 ≡ released_by r.1 + restores r.0) × (is_drained_first false r.0 ≡ true)

-- After a series of failed checks the counter has warned of the first and of every twelfth.
abbrev pub warnings : ℕ → ℕ
warnings zero = 0
warnings (suc n) = warnings n + (if (note_failure n).1 then 1 else 0)

-- In a series of failed checks, of which there has been one, the warnings are one for the first and
-- one for every twelve; whatever the count, a successful check sets it to 0 and announces the
-- recovery exactly if there was a failure.
pub warnings_lem :
    (n : ℕ)
    → (warnings (suc n) ≡ 1 + suc n / 12)
      × ((note_success n).0 ≡ 0)
      × (((note_success n).1 ≡ true) ↔ (1 ≤ n))
unfolding note_failure note_success
warnings_lem zero = ground arith
warnings_lem (suc n) = ground (arith, warnings_lem n)
