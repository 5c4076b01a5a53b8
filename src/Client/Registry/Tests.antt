-- ===== src/Client/Registry/Tests.antt =====
-- The registry on small inputs, and its theorems there.
use vectrify_agent_runner.Base.{
  ◌≤◌, Bool, ℕ, ◌≡◌, refl, true, false, [], ◌∷◌, codes, text_eq, lookup, insert, arith,
}
use vectrify_agent_runner.Client.Classify.{heavy, classify_command}
use vectrify_agent_runner.Client.Registry.{
  Limit, Entry, Registry, admitted, blocked, try_acquire, counts_locked,
}
use vectrify_agent_runner.Client.Registry.Laws.{IsValid}
use vectrify_agent_runner.Client.Registry.Capacity.{
  is_admitted, HasRoom, IsAdmission, try_acquire-IsAdmission,
}
use vectrify_agent_runner.Client.Registry.Counts.{active, active_heavy}

abbrev shell_entry : ℕ → Entry
shell_entry n = record {
  cmd_type = codes "shell";
  class = heavy;
  start = 3;
  ref_count = n;
  warned_stale = false;
}

abbrev one_shell : Registry
one_shell = record { entries = (codes "a", shell_entry 1) ∷ []; wait_ch = 0 }

abbrev two_shells : Registry
two_shells = record { entries = (codes "a", shell_entry 2) ∷ []; wait_ch = 0 }

one_shell-IsValid : IsValid one_shell
unfolding classify_command text_eq
one_shell-IsValid = record {
  keyed = (tt, tt);
  tracked = (record { counted = omega arith; classified = refl }, tt);
}

-- A duplicate joins the entry that is there.
joined : try_acquire one_shell 9 (codes "a") (codes "git") 4 2 ≡ admitted true two_shells
unfolding try_acquire counts_locked lookup insert text_eq
joined = refl

-- And it is held to the class of that entry.
refused_duplicate : is_admitted (try_acquire one_shell 9 (codes "a") (codes "git") 4 1) ≡ false
unfolding try_acquire counts_locked lookup text_eq
refused_duplicate = refl

try_acquire-IsAdmission_example :
    (HasRoom one_shell (codes "a") (codes "git") 4 1
      → (d : Bool) × (r' : Registry) × (try_acquire one_shell 9 (codes "a") (codes "git") 4 1
          ≡ admitted d r')
        × IsAdmission one_shell 9 (codes "a") (codes "git") d r')
    × (¬ HasRoom one_shell (codes "a") (codes "git") 4 1
        → (by : Limit) × (try_acquire one_shell 9 (codes "a") (codes "git") 4 1
            ≡ blocked by (active one_shell) (active_heavy one_shell) one_shell.wait_ch)
          × (by ≡ Limit.heavy → 1 ≤ active_heavy one_shell)
          × (by ≡ Limit.global → 4 ≤ active one_shell))
try_acquire-IsAdmission_example = try_acquire-IsAdmission one_shell 9 (codes "a") (codes "git") 4 1
