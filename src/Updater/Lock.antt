-- ===== src/Updater/Lock.antt =====
-- updater/lock.go: the lock file that the processes of one machine update under. Each call of the
-- operating system is a step of its own, and the processes' steps interleave in any order.
pub mod Exclusion
mod Tests
use vectrify_agent_runner.Base.{
  ℕ, zero, suc, ◌+◌, ◌*◌, ◌≡◌, refl, Bool, true, false, not, Option, none, some, List, [], ◌∷◌,
  if◌then◌else◌, ltb, get_elem?, set, arith,
}

abbrev pub stale_lock_age : ℕ
stale_lock_age = 900000000000

-- Where a process stands: not updating, having found the lock taken, having judged it stale, having
-- removed it, holding it, or having released it in `apply` for an update that was undone, after which
-- `checkAndApply` releases it again.
pub data Phase : Type 0 where
  out found reclaiming removed holding abandoning : Phase

-- The calls, with those that fail, and the end of the process by a crash. `create` is `tryCreateLock`,
-- `judge` is `lockIsStale`, and `abandon` the release in `apply` where the update is undone.
pub data Action : Type 0 where
  create create_fails judge remove remove_fails abandon release crash : Action

-- A lock file is there from its time of modification on; one that is not there is stale.
unfoldable pub lock_is_stale : ℕ → Option ℕ → Bool
lock_is_stale now none = true
lock_is_stale now (some modified) = ltb (modified + stale_lock_age) now

unfoldable pub try_create_lock : ℕ → Option ℕ → Phase → Option ℕ × Phase
try_create_lock now none refused = (some now, holding)
try_create_lock now (some modified) refused = (some modified, refused)

-- `acquireUpdateLock` of one process and its calls of `release`, from call to call: the file and the
-- phase.
unfoldable pub advance : ℕ → Option ℕ → Phase → Action → Option (Option ℕ × Phase)
unfolding lock_is_stale try_create_lock
advance now file out create = some (try_create_lock now file found)
advance now file out create_fails = some (file, out)
advance now file found judge = some (file, if lock_is_stale now file then reclaiming else out)
advance now file reclaiming remove = some (none, removed)
advance now file reclaiming remove_fails = some (file, removed)
advance now file removed create = some (try_create_lock now file out)
advance now file removed create_fails = some (file, out)
advance now file holding release = some (none, out)
advance now file holding abandon = some (none, abandoning)
advance now file abandoning release = some (none, out)
advance now file phase crash = some (file, out)
advance now file phase other = none

pub record Machine : Type 0 where
  pub file : Option ℕ
  pub now : ℕ
  pub processes : List Phase

pub data Event : Type 0 where
  act : ℕ → Action → Event
  tick : ℕ → Event

moved : Machine → ℕ → Option (Option ℕ × Phase) → Option Machine
moved m i none = none
moved m i (some (file, phase)) =
    some (record m { file = file; processes = set m.processes i phase })

acted : Machine → ℕ → Action → Option Phase → Option Machine
unfolding moved
acted m i a none = none
acted m i a (some phase) = moved m i (advance m.now m.file phase a)

unfoldable pub step : Machine → Event → Option Machine
unfolding advance acted
step m (act i a) = acted m i a (get_elem? m.processes i)
step m (tick d) = some (record m { now = m.now + d })

unfoldable pub run : Machine → List Event → Option Machine
unfolding step
run m [] = some m
run m (e ∷ es) = elim (step m e) [ none ↦ none | some n ↦ run n es ]
