-- ===== src/Updater/Swap/Tests.antt =====
-- A swap and the way back on a directory of two files.
use vectrify_agent_runner.Base.{refl, true, false, [], ◌∷◌, codes, text_eq, lookup}
use vectrify_agent_runner.Updater.Swap.{
  Files, SwapAnswers, RestoreAnswers, swap_binary, restore_previous,
}
use vectrify_agent_runner.Updater.Swap.Binary.{IsSwap, swap_binary-IsSwap}
use vectrify_agent_runner.Updater.Swap.Restore.{IsRestore, restore_previous-IsRestore}

abbrev directory : Files
directory = (codes "run", codes "v1") ∷ (codes "run.new", codes "v2") ∷ []

abbrev updated : Files
updated = (codes "run", codes "v2") ∷ (codes "run.old", codes "v1") ∷ []

abbrev answers : SwapAnswers
answers = record {
  removes_old = true;
  removes_other = true;
  moves_aside = true;
  installs = false;
  rolls_back = true;
  other_path = codes "run.old.7";
}

abbrev willing : RestoreAnswers
willing = record { moves_bad = true; restores = true; undoes = true; bad_path = codes "run.bad.1" }

swap_binary-IsSwap_example :
    IsSwap
      (codes "run")
      (codes "v1")
      (codes "v2")
      true
      (swap_binary directory (codes "run") (codes "run.new") answers)
unfolding lookup text_eq
swap_binary-IsSwap_example =
    swap_binary-IsSwap (codes "run") (codes "run.new") (codes "v1") (codes "v2") answers refl
      directory ((refl, tt), (tt, tt)) refl refl refl refl refl refl

restore_previous-IsRestore_example :
    IsRestore
      (codes "run")
      (codes "v1")
      (codes "v2")
      willing
      (restore_previous updated (codes "run") (codes "run.old") willing)
unfolding lookup text_eq
restore_previous-IsRestore_example =
    restore_previous-IsRestore (codes "run") (codes "run.old") (codes "v1") (codes "v2") willing
      refl updated ((refl, tt), (tt, tt)) refl refl refl refl
