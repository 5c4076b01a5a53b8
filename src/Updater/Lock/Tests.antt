-- ===== src/Updater/Lock/Tests.antt =====
-- The lock among three processes.
use vectrify_agent_runner.Base.{◌+◌, ℕ, ◌≤◌, ◌≡◌, refl, none, some, [], ◌∷◌}
use vectrify_agent_runner.Updater.Lock.{
  out, found, abandoning, release, holding, create, act, Machine, run, step, advance,
  try_create_lock,
}
use vectrify_agent_runner.Updater.Lock.Exclusion.{
  Orderly, begin, next, holders, Orderly-excludes, stray_removal-shares,
}

abbrev idle_machine : Machine
idle_machine = record { file = none; now = 7; processes = out ∷ out ∷ [] }

abbrev first_holds : Machine
first_holds = record { file = some 7; now = 7; processes = holding ∷ out ∷ [] }

abbrev second_finds : Machine
second_finds = record { file = some 7; now = 7; processes = holding ∷ found ∷ [] }

second_finds-Orderly : Orderly second_finds
unfolding step advance try_create_lock
second_finds-Orderly =
    next (act 1 create)
      (next (act 0 create) {m = idle_machine} {n = first_holds}
        (begin idle_machine refl (refl, (refl, tt))) refl refl)
      refl refl

Orderly-excludes_example :
    (holders second_finds ≤ 1)
    × (holders second_finds ≡ 1 → (modified : ℕ) × (second_finds.file ≡ some modified))
Orderly-excludes_example = Orderly-excludes second_finds second_finds-Orderly

abbrev undone : Machine
undone = record { file = some 9; now = 9; processes = abandoning ∷ holding ∷ out ∷ [] }

stray_removal-shares_example :
    (n : Machine) × (run undone (act 0 release ∷ act 2 create ∷ []) ≡ some n)
    × (holders n ≡ holders undone + 1)
stray_removal-shares_example = stray_removal-shares undone 0 2 abandoning release refl tt refl refl
