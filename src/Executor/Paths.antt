-- ===== src/Executor/Paths.antt =====
-- executor/file_ops.go, `guardPath`, and the same test in executor/file_transfer.go. filepath.Clean and
-- filepath.Abs are those of Unix, for a path that is made absolute; the working directory is an
-- argument, `none` where it cannot be read.
pub mod Containment
mod Tests
use vectrify_agent_runner.Base.{
  ℕ, ◌≡◌, Bool, true, false, not, ◌&&◌, ◌||◌, Option, none, some, List, [], ◌∷◌, ◌++◌, Text, codes,
  text_eq, if◌then◌else◌, split, join, has_prefix,
}

abbrev pub slash : ℕ
slash = 47

-- The path of the given components.
unfoldable pub render : List Text → Text
render cs = slash ∷ join slash cs

-- The components without the last one.
unfoldable pub parent : List Text → List Text
parent [] = []
parent (c ∷ []) = []
parent (c ∷ d ∷ cs) = c ∷ parent (d ∷ cs)

-- A round of the loop of filepath.Clean: an empty component and `.` are dropped, and `..` takes the
-- one before it along, if there is one.
unfoldable pub clean_step : List Text → Text → List Text
unfolding parent
clean_step done c =
    if text_eq c [] || text_eq c (codes ".")
    then done
    else if text_eq c (codes "..")
    then parent done
    else done ++ c ∷ []

unfoldable pub clean_components : List Text → List Text → List Text
unfolding clean_step
clean_components done [] = done
clean_components done (c ∷ cs) = clean_components (clean_step done c) cs

-- The components of an absolute path.
unfoldable pub components : Text → List Text
unfolding clean_components
components path = clean_components [] (split slash path)

-- filepath.Clean of an absolute path.
unfoldable pub clean : Text → Text
unfolding components render
clean path = render (components path)

in_directory : Option Text → Text → Option Text
in_directory none path = none
in_directory (some cwd) path = some (cwd ++ slash ∷ path)

-- filepath.Abs, before the Clean at its end.
unfoldable pub absolute : Option Text → Text → Option Text
unfolding in_directory
absolute cwd path = if has_prefix path (slash ∷ []) then some path else in_directory cwd path

pub data PathError : Type 0 where
  path_required invalid_path outside_root : PathError

pub data Guarded : Type 0 where
  inside : Text → Guarded
  refused : PathError → Guarded

-- The test of `guardPath` on a clean path.
unfoldable pub check_root : Text → Text → Guarded
check_root root path =
    if not (text_eq path root) && not (has_prefix path (root ++ slash ∷ []))
    then refused outside_root
    else inside path

guard_absolute : Text → Option Text → Guarded
unfolding check_root
guard_absolute root none = refused invalid_path
guard_absolute root (some path) = check_root root (clean path)

-- `guardPath`, for the root that `NewFileOps` has cleaned.
unfoldable pub guard_path : Text → Option Text → Text → Guarded
unfolding guard_absolute absolute clean
guard_path root cwd path =
    if text_eq path [] then refused path_required else guard_absolute root (absolute cwd path)
