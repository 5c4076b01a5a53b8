-- ===== src/Executor/Shell/Tests.antt =====
-- Shell commands that end in different ways.
use vectrify_agent_runner.Base.{◌≡◌, ◌⊎◌, ◌≤◌, refl, true, false, List, [], ◌∷◌, codes, pos, sum}
use vectrify_agent_runner.Executor.Processes.{clean_exit}
use vectrify_agent_runner.Executor.Shell.{
  stdout, output, Ready, from_out, out_closed, from_cmd_done, from_ctx_done, new_loop, on_ctx_done,
  iterate, turn, loop,
}
use vectrify_agent_runner.Executor.Shell.Ending.{signal, EndsByClock, loop-ends}

abbrev hello : List Ready
hello = from_out stdout (codes "hello") ∷ from_cmd_done clean_exit ∷ out_closed ∷ []

abbrev stuck : List Ready
stuck = from_out stdout (codes "x") ∷ from_ctx_done ∷ []

loop-ends_example :
    (sum signal stuck ≤ 3)
    × (((on_ctx_done (record (new_loop (pos 60)) { sent = output stdout (codes "x") ∷ [] })).left
          ≡ true)
        ⊎ (((on_ctx_done
                (record (new_loop (pos 60)) { sent = output stdout (codes "x") ∷ [] })).left
              ≡ false)
            × EndsByClock (
                on_ctx_done
                  (record (new_loop (pos 60)) { sent = output stdout (codes "x") ∷ [] }))))
unfolding loop turn iterate new_loop on_ctx_done
loop-ends_example =
    loop-ends (pos 60) stuck
      (on_ctx_done (record (new_loop (pos 60)) { sent = output stdout (codes "x") ∷ [] })) refl
