-- ===== src/Updater/Check/Once.antt =====
-- The guards that one check of the updater passes before a swap.
use vectrify_agent_runner.Base.{
  ℕ, ◌≡◌, ◌↔◌, refl, Bool, true, false, ◌&&◌, Option, none, some, List, [], ◌∷◌, Text,
  if◌then◌else◌, sum, sum-append, arith,
}
use vectrify_agent_runner.Updater.Gate.{
  Gate, Reading, Reason, idle, in_flight, recent, evaluate, evaluate_reason, reset, defer_update,
  busy_reason,
}
use vectrify_agent_runner.Updater.Version.{Version, is_newer, strip_v}
use vectrify_agent_runner.Updater.Apply.{
  Assets, asset_url, asset_name, Effect, swap_binary, release_lock, Outcome, failed, deferred,
  exited, World, verified, installed, downloaded, fetch_binary, apply,
}
use vectrify_agent_runner.Updater.Check.{
  Release, Checker, Lock, acquired, held, unavailable, Cycle, is_bad_version, still_ok, after_apply,
  with_lock, gated, with_path, with_release, check_and_apply, note_success,
}

abbrev swap_unit : Effect → ℕ
swap_unit swap_binary = 1
swap_unit other = 0

abbrev pub swaps : List Effect → ℕ
swaps = sum swap_unit

installed-swaps : (w : World) → swaps (installed w).0 ≡ 1
unfolding installed
installed-swaps w = ground arith

downloaded-swaps :
    (w : World) (assets : Assets) (ok received : Bool)
    → swaps (downloaded w assets ok received).0
      ≡ (if received && verified w assets && ok then 1 else 0)
unfolding downloaded
downloaded-swaps w assets ok false = refl
downloaded-swaps w assets ok true = ground (arith, installed-swaps w)

after_apply-swaps : (r : List Effect × Outcome) → swaps (after_apply r).0 ≡ swaps r.0
unfolding after_apply
after_apply-swaps (es, failed) = omega (arith, sum-append swap_unit es (release_lock ∷ []))
after_apply-swaps (es, deferred) = omega (arith, sum-append swap_unit es (release_lock ∷ []))
after_apply-swaps (es, exited code) = refl

-- The binary of the release is offered, received and verified, and nothing came in between.
abbrev pub Fetches : World → Assets → Bool → Option Text → Type 0
Fetches w assets ok none = ⊥
Fetches w assets ok (some url) = (w.downloads url ≡ true) × (verified w assets ≡ true) × (ok ≡ true)

-- The release is not a bad one, the gate lets it through, and the lock is free.
abbrev pub Located : Checker → Cycle → Release → Option Text → Type 0
Located c cycle rel none = ⊥
Located c cycle rel (some path) =
    let v = evaluate c.gate cycle.reading in
    (is_bad_version cycle.bad_version (strip_v rel.tag_name) ≡ false)
    × (v.proceed ≡ true)
    × (cycle.lock ≡ acquired)
    × Fetches cycle.world rel.assets (still_ok c.gate v.forced cycle.later)
        (asset_url rel.assets asset_name)

-- Everything that a swap of the binary waits for.
abbrev pub Installs : (Text → Version) → Checker → Cycle → Option Release → Type 0
Installs scan c cycle none = ⊥
Installs scan c cycle (some rel) =
    (is_newer scan c.version (strip_v rel.tag_name) ≡ true) × Located c cycle rel cycle.exe_path

fetch_binary-swaps :
    (w : World) (assets : Assets) (ok : Bool) (url : Option Text)
    → (swaps (fetch_binary w assets ok url).0 ≡ 1) ↔ Fetches w assets ok url
unfolding fetch_binary
fetch_binary-swaps w assets ok none = ground arith
fetch_binary-swaps w assets ok (some url) =
    ground (arith, downloaded-swaps w assets ok (w.downloads url))

with_lock-swaps :
    (cycle : Cycle) (assets : Assets) (ok : Bool) (lock : Lock)
    → (swaps (with_lock cycle assets ok lock).0 ≡ 1)
      ↔ ((lock ≡ acquired) × Fetches cycle.world assets ok (asset_url assets asset_name))
unfolding with_lock apply
with_lock-swaps cycle assets ok acquired = ground (
  arith,
  after_apply-swaps (apply cycle.world assets ok),
  fetch_binary-swaps cycle.world assets ok (asset_url assets asset_name),
)
with_lock-swaps cycle assets ok held = ground arith
with_lock-swaps cycle assets ok unavailable = ground arith

defer_update-opts : (g : Gate) (now : ℕ) (t : Option ℕ) → (defer_update g now t).gate.opts ≡ g.opts
unfolding defer_update
defer_update-opts g now none = refl
defer_update-opts g now (some t) = ground arith

evaluate_reason-opts :
    (g : Gate) (now : ℕ) (b : Reason) → (evaluate_reason g now b).gate.opts ≡ g.opts
unfolding evaluate_reason reset
evaluate_reason-opts g now idle = refl
evaluate_reason-opts g now in_flight = defer_update-opts g now g.deferred_since
evaluate_reason-opts g now recent = defer_update-opts g now g.deferred_since

still_ok-evaluate :
    (g : Gate) (r later : Reading) (forced : Bool)
    → still_ok (evaluate g r).gate forced later ≡ still_ok g forced later
unfolding still_ok evaluate
still_ok-evaluate g r later forced =
    rw (evaluate_reason-opts g r.now (busy_reason g.opts r.seen r.activity)) refl

with_path-swaps :
    (c : Checker) (cycle : Cycle) (rel : Release) (path : Option Text)
    → (swaps (with_path c cycle rel path).1 ≡ 1) ↔ Located c cycle rel path
unfolding with_path gated
with_path-swaps c cycle rel none = ground arith
with_path-swaps c cycle rel (some path) =
    let v = evaluate c.gate cycle.reading in
    ground (
      arith,
      with_lock-swaps cycle rel.assets (still_ok v.gate v.forced cycle.later) cycle.lock,
      still_ok-evaluate c.gate cycle.reading cycle.later v.forced,
    )

with_release-swaps :
    (scan : Text → Version) (c : Checker) (cycle : Cycle) (rel : Option Release)
    → (swaps (with_release scan c cycle rel).1 ≡ 1) ↔ Installs scan c cycle rel
unfolding with_release
with_release-swaps scan c cycle none = ground arith
with_release-swaps scan c cycle (some rel) = ground (
  arith,
  with_path-swaps (record c { failures = (note_success c.failures).0 }) cycle rel cycle.exe_path,
)

-- The guards of a check, in the terms of the code.
pub check_and_apply-swaps :
    (scan : Text → Version) (c : Checker) (cycle : Cycle)
    → (swaps (check_and_apply scan c cycle).1 ≡ 1) ↔ Installs scan c cycle cycle.fetched
unfolding check_and_apply
check_and_apply-swaps scan c cycle = with_release-swaps scan c cycle cycle.fetched
