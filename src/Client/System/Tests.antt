-- ===== src/Client/System/Tests.antt =====
-- Runs of the dispatch system, and its theorems at one of their states.
use mathlib.Core.Option
use mathlib.Core.Option.{get_or}
use vectrify_agent_runner.Base.{
  ◌≤◌, ◌≡◌, refl, true, false, some, List, [], ◌∷◌, ◌++◌, codes, arith, All, get_elem?,
}
use vectrify_agent_runner.Client.Registry.{Limit, count}
use vectrify_agent_runner.Client.Registry.Counts.{active, active_heavy}
use vectrify_agent_runner.Client.Waiters.{Limits}
use vectrify_agent_runner.Client.System.{
  Phase, waiting, asleep, running, done, Task, System, Event, command, act, tick, attempt, let_go,
  finish, leave, wake, time_out, reply, Reach, here, run, run-Reach, new_client, activity,
}
use vectrify_agent_runner.Client.System.Invariant.{waiting_tasks, flying_tasks}
use vectrify_agent_runner.Client.System.Guarantees.{
  Reach-counted, idle-IsPast, IsPast, asleep-limit,
}
use vectrify_agent_runner.Client.System.Liveness.{Runs, Reach-quiesces}
use vectrify_agent_runner.Client.System.Races.{drained, drained-misses}

abbrev two : Limits
two = record { max_concurrency = 2; max_heavy_concurrency = 1 }

-- A shell command runs, and a second one is asleep on the heavy limit.
abbrev crowd : List Event
crowd =
    command (codes "a") (codes "shell")
    ∷ act 0 attempt
    ∷ act 0 let_go
    ∷ tick 5
    ∷ command (codes "b") (codes "browser")
    ∷ act 1 attempt
    ∷ []

abbrev after : List Event → System
after es = get_or (run two (new_client 7) es) (new_client 7)

crowd-Reach : Reach two 7 (after crowd)
unfolding run
crowd-Reach = run-Reach two 7 (new_client 7) crowd here refl

crowd_asleep :
    Option.map (λ t. t.phase) (get_elem? (after crowd).tasks 1) ≡ some (asleep Limit.heavy 1 1 0)
unfolding run
crowd_asleep = refl

-- The first command ends, and the second one is woken, wins the slot and runs.
abbrev rest : List Event
rest = act 0 finish ∷ act 0 leave ∷ act 1 wake ∷ act 1 attempt ∷ act 1 let_go ∷ []

rest_runs : Option.map (λ t. t.phase) (get_elem? (after (crowd ++ rest)).tasks 1) ≡ some running
unfolding run
rest_runs = refl

Reach-counted_example :
    let c = after crowd in
    (count c.shared.inflight ≡ flying_tasks c.tasks)
    × (count c.shared.inflight ≤ 2)
    × (active_heavy c.shared.inflight ≤ 1)
    × (c.shared.pending_waiters ≡ waiting_tasks c.tasks)
    × (c.shared.pending_waiters ≤ 64)
Reach-counted_example = Reach-counted two 7 crowd-Reach

-- Both commands have ended.
abbrev ended : List Event
ended = crowd ++ act 0 finish ∷ act 0 leave ∷ act 1 time_out ∷ act 1 let_go ∷ act 1 reply ∷ []

ended-Reach : Reach two 7 (after ended)
unfolding run
ended-Reach = run-Reach two 7 (new_client 7) ended here refl

ended_idle : (activity (after ended).shared).0 ≡ false
unfolding run
ended_idle = refl

idle-IsPast_example : All (λ t. IsPast t.phase) (after ended).tasks
idle-IsPast_example = idle-IsPast two 7 ended-Reach ended_idle

second : Task
second = record { cmd_id = codes "b"; cmd_type = codes "browser"; phase = asleep Limit.heavy 1 1 0 }

second_found : get_elem? (after crowd).tasks 1 ≡ some second
unfolding run second
second_found = refl

asleep-limit_example :
    (Limit.heavy ≡ Limit.heavy → 1 ≤ active_heavy (after crowd).shared.inflight)
    × (Limit.heavy ≡ Limit.global → 2 ≤ active (after crowd).shared.inflight)
unfolding run second
asleep-limit_example = asleep-limit two 7 1 crowd-Reach second_found refl refl

Reach-quiesces_example :
    (d : System) × Runs two (after crowd) d
    × All (λ t. t.phase ≡ done) d.tasks
    × (count d.shared.inflight ≡ 0)
    × (d.shared.pending_waiters ≡ 0)
Reach-quiesces_example = Reach-quiesces two 7 crowd-Reach

abbrev lone : List Event
lone = command (codes "a") (codes "shell") ∷ []

lone-Reach : Reach two 7 (after lone)
unfolding run
lone-Reach = run-Reach two 7 (new_client 7) lone here refl

abbrev lone_task : Phase → Task
lone_task p = record { cmd_id = codes "a"; cmd_type = codes "shell"; phase = p }

drained-misses_example :
    (d : System) × Reach two 7 d
    × (drained (after lone).shared d.shared ≡ true)
    × (get_elem? d.tasks 0 ≡ some (lone_task running))
unfolding run
drained-misses_example =
    drained-misses two 7 lone-Reach 0 {t = lone_task waiting} refl refl refl refl (omega arith)
      (omega arith)

abbrev alone : List Event
alone = lone ++ act 0 attempt ∷ act 0 let_go ∷ tick 600 ∷ []

alone-Reach : Reach two 7 (after alone)
unfolding run
alone-Reach = run-Reach two 7 (new_client 7) alone here refl
