-- ===== src/Updater/Apply.antt =====
-- updater/apply_windows.go, `apply`: the guards between a download and the end of the process, as the
-- list of the effects that it has. What the network, the candidate binary, the service manager and
-- the renames of updater/swap.go answer is an argument.
use vectrify_agent_runner.Base.{
  ℕ, Bool, true, false, not, ◌&&◌, Option, none, some, List, [], ◌∷◌, Text, codes, if◌then◌else◌,
  lookup,
}

-- The assets of a release, and the lines of a checksum manifest: a name with its URL or its sum.
abbrev pub Assets : Type 0
Assets = List (Text × Text)

unfoldable pub asset_url : Assets → Text → Option Text
unfolding lookup
asset_url assets name = lookup name assets

abbrev pub asset_name : Text
asset_name = codes "vectrify-runner-windows-amd64.exe"

abbrev pub manifest_name : Text
manifest_name = codes "checksums.txt"

pub data Effect : Type 0 where
  download remove_temp drain swap_binary spawn_watchdog restore_previous release_lock before_exit :
      Effect

pub data Outcome : Type 0 where
  failed deferred : Outcome
  exited : ℕ → Outcome

pub record World : Type 0 where
  pub downloads : Text → Bool
  pub manifest : Text → Option Assets
  pub has_sum : Text → Bool
  pub smoke_test : Bool
  pub is_service : Bool
  pub policy_ok : Bool
  pub swaps : Bool
  pub watchdog_starts : Bool

sum_matches : World → Option Text → Bool
sum_matches w none = false
sum_matches w (some expected) = w.has_sum expected

manifest_matches : World → Option Assets → Bool
unfolding sum_matches lookup
manifest_matches w none = false
manifest_matches w (some sums) = sum_matches w (lookup asset_name sums)

fetched_matches : World → Option Text → Bool
unfolding manifest_matches
fetched_matches w none = false
fetched_matches w (some url) = manifest_matches w (w.manifest url)

-- The checks of the file that was downloaded; every one that fails removes it.
unfoldable pub verified : World → Assets → Bool
unfolding fetched_matches asset_url
verified w assets = fetched_matches w (asset_url assets manifest_name) && w.smoke_test

-- From the swap on.
unfoldable pub installed : World → List Effect × Outcome
installed w =
    if not w.swaps
    then (swap_binary ∷ remove_temp ∷ [], failed)
    else if w.is_service && not w.watchdog_starts && not w.policy_ok
    then (swap_binary ∷ spawn_watchdog ∷ restore_previous ∷ release_lock ∷ [], failed)
    else if w.is_service
    then (swap_binary ∷ spawn_watchdog ∷ release_lock ∷ before_exit ∷ [], exited 1)
    else (swap_binary ∷ release_lock ∷ before_exit ∷ [], exited 0)

unfoldable pub downloaded : World → Assets → Bool → Bool → List Effect × Outcome
unfolding verified installed
downloaded w assets still_ok false = ([], failed)
downloaded w assets still_ok true =
    if not (verified w assets)
    then (download ∷ remove_temp ∷ [], failed)
    else if not still_ok
    then (download ∷ remove_temp ∷ [], deferred)
    else (download ∷ drain ∷ (installed w).0, (installed w).1)

unfoldable pub fetch_binary : World → Assets → Bool → Option Text → List Effect × Outcome
unfolding downloaded
fetch_binary w assets still_ok none = ([], failed)
fetch_binary w assets still_ok (some url) = downloaded w assets still_ok (w.downloads url)

-- `still_ok` is what the callback of that name answers when it is asked.
unfoldable pub apply : World → Assets → Bool → List Effect × Outcome
unfolding fetch_binary asset_url
apply w assets still_ok = fetch_binary w assets still_ok (asset_url assets asset_name)
