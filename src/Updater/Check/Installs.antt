-- ===== src/Updater/Check/Installs.antt =====
-- When a check on Windows goes as far as to swap the binary, in terms of what it reads.
use vectrify_agent_runner.Base.{
  text_eq, sym, ap, ◌∙◌, ℕ, ◌≡◌, ◌↔◌, ◌⊎◌, inl, inr, refl, Bool, true, false, ◌||◌, Option, none,
  some, Text, pos, sub_ℕ, int_lt, int_le, int_eq, lookup, Bool-cases, Option-cases, arith,
}
use vectrify_agent_runner.Updater.Gate.{
  Options, Gate, Reading, Activity, Reason, idle, in_flight, recent, max_deferral, busy_reason,
  quiet_since, evaluate, evaluate_reason, defer_update, elapsed,
}
use vectrify_agent_runner.Updater.Version.{Version, is_newer-version_lt, version_lt, strip_v}
use vectrify_agent_runner.Updater.Apply.{
  Assets, asset_url, asset_name, manifest_name, World, verified,
}
use vectrify_agent_runner.Updater.Check.{
  Release, Checker, acquired, Cycle, is_bad_version, still_ok, is_idle, check_and_apply,
}
use vectrify_agent_runner.Updater.Check.Once.{
  swaps, Installs, Located, Fetches, check_and_apply-swaps,
}

-- The three numbers of the one version are below those of the other, read from the left.
abbrev pub IsBelow : Version → Version → Type 0
IsBelow u v =
    (int_lt u.major v.major ≡ true)
    ⊎ ((int_eq v.major u.major ≡ true)
        × ((int_lt u.minor v.minor ≡ true)
            ⊎ ((int_eq v.minor u.minor ≡ true) × (int_lt u.patch v.patch ≡ true))))

-- The value is there, and has the property.
abbrev pub ThereIs {ℓ} : {A : Type ℓ} → Option A → (A → Type 0) → Type 0
ThereIs none P = ⊥
ThereIs (some a) P = P a

-- The last activity is the idle window ago.
abbrev pub IsLongAgo : Options → ℕ → Option ℕ → Type 0
IsLongAgo o seen none = Unit
IsLongAgo o seen (some last) = int_lt (sub_ℕ seen last) o.idle_window ≡ false

-- Nothing is in flight, and there was no activity for the idle window.
abbrev pub IsQuiet : Options → ℕ → Option Activity → Type 0
IsQuiet o seen none = Unit
IsQuiet o seen (some a) = (a.busy ≡ false) × IsLongAgo o seen a.last_active

-- The runner is quiet at the check and again after the download, or it is not quiet at the check and the
-- update has been put off for the longest time.
abbrev pub IsAllowed : Gate → Reading → Reading → Type 0
IsAllowed g first later =
    (IsQuiet g.opts first.seen first.activity × IsQuiet g.opts later.seen later.activity)
    ⊎ ((¬ IsQuiet g.opts first.seen first.activity)
        × ThereIs g.deferred_since
            (λ since. int_le (pos max_deferral) (sub_ℕ first.now since) ≡ true))

-- The checksum manifest of the release is there and names the sum that the file has, and the file runs.
abbrev pub IsVerified : World → Assets → Type 0
IsVerified w assets = ThereIs (lookup manifest_name assets) (λ url.
    ThereIs (w.manifest url) (λ sums.
      ThereIs (lookup asset_name sums)
        (λ expected. (w.has_sum expected ≡ true) × (w.smoke_test ≡ true))))

abbrev pub IsOther : Option Text → Text → Type 0
IsOther none version = Unit
IsOther (some bad) version = text_eq bad version ≡ false

abbrev pub IsInstallable : (Text → Version) → Checker → Cycle → Type 0
IsInstallable scan c cycle = ThereIs cycle.fetched (λ rel.
    IsBelow (scan c.version) (scan (strip_v rel.tag_name))
    × ThereIs cycle.exe_path (λ path. Unit)
    × IsOther cycle.bad_version (strip_v rel.tag_name)
    × (cycle.lock ≡ acquired)
    × ThereIs (lookup asset_name rel.assets) (λ url. cycle.world.downloads url ≡ true)
    × IsVerified cycle.world rel.assets
    × IsAllowed c.gate cycle.reading cycle.later)

version_lt-IsBelow : (u v : Version) → (version_lt u v ≡ true) ↔ IsBelow u v
version_lt-IsBelow u v = ground arith

quiet_since-IsLongAgo :
    (o : Options) (seen : ℕ) (last : Option ℕ)
    → (is_idle (quiet_since o seen last) ≡ true) ↔ IsLongAgo o seen last
quiet_since-IsLongAgo o seen none = (λ e. tt, λ f. refl)
quiet_since-IsLongAgo o seen (some t) = ground arith

busy_reason-IsQuiet :
    (o : Options) (seen : ℕ) (a : Option Activity)
    → (is_idle (busy_reason o seen a) ≡ true) ↔ IsQuiet o seen a
unfolding busy_reason
busy_reason-IsQuiet o seen none = (λ e. tt, λ f. refl)
busy_reason-IsQuiet o seen (some a) = elim (Bool-cases a.busy) [
  | inl e ↦ rw e (λ f. cc, λ f. cc)
  | inr e ↦ rw e (
    λ f. (refl, (quiet_since-IsLongAgo o seen a.last_active).0 f),
    λ f. (quiet_since-IsLongAgo o seen a.last_active).1 f.1,
  )
]

verified-IsVerified :
    (w : World) (assets : Assets) → (verified w assets ≡ true) ↔ IsVerified w assets
unfolding verified asset_url
verified-IsVerified w assets = elim (Option-cases (lookup manifest_name assets)) [
  | inl e ↦ rw e (ground arith)
  | inr (url, e) ↦ elim (Option-cases (w.manifest url)) [
    | inl f ↦ rw (e, f) (ground arith)
    | inr (sums, f) ↦ elim (Option-cases (lookup asset_name sums)) [
      | inl g ↦ rw (e, f, g) (ground arith)
      | inr (expected, g) ↦ rw (e, f, g) (ground arith)
    ]
  ]
]

is_bad_version-IsOther :
    (bad : Option Text) (version : Text)
    → (is_bad_version bad version ≡ false) ↔ IsOther bad version
unfolding is_bad_version
is_bad_version-IsOther none version = (λ e. tt, λ f. refl)
is_bad_version-IsOther (some bad) version = (λ e. e, λ f. f)

defer_update-lem :
    (g : Gate) (now : ℕ) (since : Option ℕ) (b : Bool)
    → (((defer_update g now since).proceed ≡ true)
        × (((defer_update g now since).forced || b) ≡ true))
      ↔ ThereIs since (λ t. int_le (pos max_deferral) (sub_ℕ now t) ≡ true)
unfolding defer_update elapsed
defer_update-lem g now none b = ground arith
defer_update-lem g now (some t) b = ground arith

true-ne-false : true ≡ false → ⊥
true-ne-false e = cc

busy-IsAllowed :
    (g : Gate) (first later : Reading)
    → is_idle (busy_reason g.opts first.seen first.activity) ≡ false
    → (((defer_update g first.now g.deferred_since).proceed ≡ true)
        × (still_ok g (defer_update g first.now g.deferred_since).forced later ≡ true))
      ↔ IsAllowed g first later
unfolding still_ok
busy-IsAllowed g first later e =
    let b = is_idle (busy_reason g.opts later.seen later.activity) in
    let deferred = defer_update-lem g first.now g.deferred_since b in
    let loud : ¬ IsQuiet g.opts first.seen first.activity =
      λ q. true-ne-false (sym ((busy_reason-IsQuiet g.opts first.seen first.activity).1 q) ∙ e) in
    (
      λ p. inr (loud, deferred.0 p),
      λ q. elim q [ inl x ↦ absurd (loud x.0) | inr x ↦ deferred.1 x.1 ],
    )

-- From the reason that the gate found at the check.
reason-IsAllowed :
    (g : Gate) (first later : Reading) (b : Reason)
    → busy_reason g.opts first.seen first.activity ≡ b
    → (((evaluate_reason g first.now b).proceed ≡ true)
        × (still_ok g (evaluate_reason g first.now b).forced later ≡ true))
      ↔ IsAllowed g first later
unfolding evaluate_reason still_ok
reason-IsAllowed g first later idle e =
    let quiet = (busy_reason-IsQuiet g.opts first.seen first.activity).0 (ap is_idle e) in
    (
      λ p. inl (quiet, (busy_reason-IsQuiet g.opts later.seen later.activity).0 p.1),
      λ q. elim q [
        | inl x ↦ (refl, (busy_reason-IsQuiet g.opts later.seen later.activity).1 x.1)
        | inr x ↦ absurd (x.0 quiet)
      ],
    )
reason-IsAllowed g first later in_flight e = busy-IsAllowed g first later (ap is_idle e)
reason-IsAllowed g first later recent e = busy-IsAllowed g first later (ap is_idle e)

gate-IsAllowed :
    (g : Gate) (first later : Reading)
    → (((evaluate g first).proceed ≡ true) × (still_ok g (evaluate g first).forced later ≡ true))
      ↔ IsAllowed g first later
unfolding evaluate
gate-IsAllowed g first later =
    reason-IsAllowed g first later (busy_reason g.opts first.seen first.activity) refl

Fetches-lem :
    (w : World) (assets : Assets) (ok : Bool) (url : Option Text)
    → Fetches w assets ok url
      ↔ (ThereIs url (λ u. w.downloads u ≡ true) × IsVerified w assets × (ok ≡ true))
Fetches-lem w assets ok none = (λ f. absurd f, λ f. absurd f.0)
Fetches-lem w assets ok (some u) = (
  λ f. (f.0, (verified-IsVerified w assets).0 f.1, f.2),
  λ f. (f.0, (verified-IsVerified w assets).1 f.1, f.2),
)

Located-lem :
    (c : Checker) (cycle : Cycle) (rel : Release) (path : Option Text)
    → Located c cycle rel path ↔ (
        ThereIs path (λ p. Unit)
        × IsOther cycle.bad_version (strip_v rel.tag_name)
        × (cycle.lock ≡ acquired)
        × ThereIs (lookup asset_name rel.assets) (λ u. cycle.world.downloads u ≡ true)
        × IsVerified cycle.world rel.assets
        × IsAllowed c.gate cycle.reading cycle.later)
unfolding asset_url
Located-lem c cycle rel none = (λ f. absurd f, λ f. absurd f.0)
Located-lem c cycle rel (some path) =
    let v = evaluate c.gate cycle.reading in
    let fetches =
      Fetches-lem cycle.world rel.assets (still_ok c.gate v.forced cycle.later)
        (lookup asset_name rel.assets) in
    let gate = gate-IsAllowed c.gate cycle.reading cycle.later in
    let other = is_bad_version-IsOther cycle.bad_version (strip_v rel.tag_name) in
    (
      λ f. let (a, b, ok) = fetches.0 f.3 in (tt, other.0 f.0, f.2, a, b, gate.0 (f.1, ok)),
      λ f. let (proceed, ok) = gate.1 f.5 in (other.1 f.1, proceed, f.2, fetches.1 (f.3, f.4, ok)),
    )

Installs-lem :
    (scan : Text → Version) (c : Checker) (cycle : Cycle) (found : Option Release)
    → Installs scan c cycle found
      ↔ ThereIs found (λ rel.
        IsBelow (scan c.version) (scan (strip_v rel.tag_name))
        × ThereIs cycle.exe_path (λ path. Unit)
        × IsOther cycle.bad_version (strip_v rel.tag_name)
        × (cycle.lock ≡ acquired)
        × ThereIs (lookup asset_name rel.assets) (λ url. cycle.world.downloads url ≡ true)
        × IsVerified cycle.world rel.assets
        × IsAllowed c.gate cycle.reading cycle.later)
Installs-lem scan c cycle none = (λ f. f, λ f. f)
Installs-lem scan c cycle (some rel) =
    let at = Located-lem c cycle rel cycle.exe_path in
    let below = version_lt-IsBelow (scan c.version) (scan (strip_v rel.tag_name)) in
    let newer = is_newer-version_lt scan c.version (strip_v rel.tag_name) in
    (
      λ f.
          let (path, other, lock, asset, sums, gate) = at.0 f.1 in
          (below.0 (sym newer ∙ f.0), path, other, lock, asset, sums, gate),
      λ f. (newer ∙ below.1 f.0, at.1 (f.1, f.2, f.3, f.4, f.5, f.6)),
    )

-- On Windows a check goes as far as to attempt the swap of the binary exactly when it found a release
-- whose version is above this one, the path of the binary is known, the release is not the one that is
-- known as bad, the lock is free, the asset is offered and received, the checksum manifest names the sum
-- that it has, it passes the smoke test, and either the runner is quiet at the check and again after the
-- download, or it is not quiet at the check and the update has been put off for 6 hours.
pub check_and_apply-IsInstallable :
    (scan : Text → Version) (c : Checker) (cycle : Cycle)
    → (swaps (check_and_apply scan c cycle).1 ≡ 1) ↔ IsInstallable scan c cycle
check_and_apply-IsInstallable scan c cycle =
    let a = check_and_apply-swaps scan c cycle in
    let b = Installs-lem scan c cycle cycle.fetched in (λ e. b.0 (a.0 e), λ f. a.1 (b.1 f))
