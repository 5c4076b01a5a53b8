-- ===== src/Executor/Paths/Tests.antt =====
-- The guard on paths below, beside and above a workspace.
use vectrify_agent_runner.Base.{
  ◌≡◌, ◌⊎◌, refl, none, some, codes, text_eq, split, join, has_prefix, All,
}
use vectrify_agent_runner.Executor.Paths.{
  render, clean, clean_components, clean_step, parent, components, absolute, guard_path, check_root,
  inside, refused, outside_root,
}
use vectrify_agent_runner.Executor.Paths.Containment.{IsNormal, Extends, guard_path-contains}

below :
    guard_path (codes "/home/w") (some (codes "/home/w/x")) (codes "../a/./b")
    ≡ inside (codes "/home/w/a/b")
unfolding guard_path absolute check_root clean render components clean_components clean_step parent
    text_eq split join has_prefix
below = refl

-- A sibling whose name begins with that of the root.
beside : guard_path (codes "/home/w") none (codes "/home/w2/a") ≡ refused outside_root
unfolding guard_path absolute check_root clean render components clean_components clean_step parent
    text_eq split join has_prefix
beside = refl

guard_path-contains_example :
    All IsNormal (components (codes "/w/../../w/a"))
    × ((Extends (components (codes "/w/../../w/a")) (components (codes "/w/"))
          × (guard_path (clean (codes "/w/")) none (codes "/w/../../w/a")
              ≡ inside (clean (codes "/w/../../w/a"))))
        ⊎ ((¬ Extends (components (codes "/w/../../w/a")) (components (codes "/w/")))
            × (guard_path (clean (codes "/w/")) none (codes "/w/../../w/a")
                ≡ refused outside_root)))
unfolding text_eq absolute has_prefix components clean_components clean_step split
guard_path-contains_example =
    guard_path-contains (codes "/w/") (codes "/w/../../w/a") (codes "/w/../../w/a") none refl refl
      (λ e. cc)
