-- ===== src/Updater/Gate/Deferral.antt =====
-- The deferral of an update over the checks of the updater.
use mathlib.Core.Option.{some-injective}
use vectrify_agent_runner.Base.{
  ℕ, ◌+◌, ◌*◌, ◌≤◌, ◌<◌, ◌≡◌, refl, ◌⊎◌, ◌↔◌, inl, inr, not, ◌&&◌, ◌||◌, leb, Bool, true, false,
  Bool-cases, Option, none, some, subst, List, [], ◌∷◌, if◌then◌else◌, ℤ, pos, negsuc, pos_part,
  not_positive, arith,
}
use vectrify_agent_runner.Updater.Gate.{
  minute, max_deferral, defer_reminder_every, Activity, Options, with_defaults, Gate, new_gate,
  Reading, Reason, idle, in_flight, recent, busy_reason, quiet_since, Note, deferring, Verdict,
  elapsed, defer_update, evaluate_reason, reset, evaluate,
}

-- The window that the options ask for.
abbrev pub window : Options → ℕ
window o = if not_positive o.idle_window then 5 * minute else pos_part o.idle_window

-- A time that, if there was one, is at least the given duration ago.
abbrev pub IsPastBy : ℕ → ℕ → Option ℕ → Type 0
IsPastBy wanted seen none = Unit
IsPastBy wanted seen (some last) = last + wanted ≤ seen

-- The runner is quiet, and has been for the whole window.
abbrev pub IsQuietFor : ℕ → ℕ → Option Activity → Type 0
IsQuietFor wanted seen none = Unit
IsQuietFor wanted seen (some a) = (a.busy ≡ false) × IsPastBy wanted seen a.last_active

-- One for a line at INFO.
abbrev pub announced : Note → ℕ
announced Note.silent = 0
announced Note.deferring = 1
announced Note.capped = 0
announced Note.reminder = 1
announced Note.debug = 0

-- Checks that each find the update pending and defer it: the gate afterwards, and how often the
-- deferral was announced, on from `n`. `none` if one of them let the update through.
unfoldable pub deferrals : Gate → ℕ → List Reading → Option (Gate × ℕ)
deferrals g n [] = some (g, n)
deferrals g n (r ∷ rs) =
    let v = evaluate g r in
    let rest = deferrals v.gate (n + announced v.note) rs in if v.proceed then none else rest

abbrev is_idle : Reason → Bool
is_idle idle = true
is_idle in_flight = false
is_idle recent = false

window_pos :
    (i : ℤ)
    → (if not_positive i then pos (5 * minute) else i)
      ≡ pos (if not_positive i then 5 * minute else pos_part i)
window_pos (pos n) = ground arith
window_pos (negsuc n) = refl

window-positive : (o : Options) → (with_defaults o).idle_window ≡ pos (window o)
unfolding with_defaults
window-positive o = window_pos o.idle_window

past_lem :
    (o : Options) (seen : ℕ) (t : Option ℕ)
    → ((is_idle (quiet_since (with_defaults o) seen t) ≡ true) × IsPastBy (window o) seen t)
      ⊎ ((is_idle (quiet_since (with_defaults o) seen t) ≡ false) × ¬ IsPastBy (window o) seen t)
past_lem o seen none = inl (refl, tt)
past_lem o seen (some last) = ground (arith, window-positive o)

quiet_lem :
    (o : Options) (seen : ℕ) (a : Option Activity)
    → ((is_idle (busy_reason (with_defaults o) seen a) ≡ true) × IsQuietFor (window o) seen a)
      ⊎ ((is_idle (busy_reason (with_defaults o) seen a) ≡ false) × ¬ IsQuietFor (window o) seen a)
unfolding busy_reason
quiet_lem o seen none = inl (refl, tt)
quiet_lem o seen (some a) = ground (arith, past_lem o seen a.last_active)

-- The last announcement of a deferral that began at `since` and was announced `n` times.
abbrev Reminded : ℕ → ℕ → Option ℕ → Type 0
Reminded since n none = ⊥
Reminded since n (some last) =
    (since + n * defer_reminder_every ≤ last + defer_reminder_every) × (last < since + max_deferral)

abbrev Deferring : Options → ℕ → ℕ → Gate → Type 0
Deferring o since n g =
    (g.opts ≡ with_defaults o) × (g.deferred_since ≡ some since) × Reminded since n g.last_reminder

defer_update-Deferring :
    (o : Options) (since n now : ℕ) (opts : Options) (started last : Option ℕ)
    → opts ≡ with_defaults o
    → started ≡ some since
    → Reminded since n last
    → let v =
        defer_update
          (record { opts = opts; deferred_since = started; last_reminder = last })
          now
          started in
      v.proceed ≡ false → Deferring o since (n + announced v.note) v.gate
unfolding defer_update elapsed
defer_update-Deferring o since n now opts started none k s l e = elim l [ ]
defer_update-Deferring o since n now opts none (some last) k s l e = ground arith
defer_update-Deferring o since n now opts (some t) (some last) k s l e = ground arith

evaluate_reason-Deferring :
    (o : Options) (since n now : ℕ) (g : Gate) (b : Reason)
    → Deferring o since n g
    → (evaluate_reason g now b).proceed ≡ false
    → Deferring o since
        (n + announced (evaluate_reason g now b).note)
        (evaluate_reason g now b).gate
unfolding evaluate_reason reset
evaluate_reason-Deferring o since n now g idle d e = ground arith
evaluate_reason-Deferring o since n now g in_flight d e =
    defer_update-Deferring o since n now g.opts g.deferred_since g.last_reminder d.0 d.1 d.2 e
evaluate_reason-Deferring o since n now g recent d e =
    defer_update-Deferring o since n now g.opts g.deferred_since g.last_reminder d.0 d.1 d.2 e

deferrals-Deferring :
    (o : Options) (since n k : ℕ) (g h : Gate) (rs : List Reading)
    → Deferring o since n g
    → deferrals g n rs ≡ some (h, k)
    → Deferring o since k h
unfolding deferrals evaluate
deferrals-Deferring o since n k g h [] d e =
    let p = some-injective _ _ e in subst (λ q. Deferring o since q.1 q.0) p d
deferrals-Deferring o since n k g h (r ∷ rs) d e = elim (Bool-cases (evaluate g r).proceed) [
  | inl through ↦ ground arith
  | inr deferred ↦
      deferrals-Deferring o since (n + announced (evaluate g r).note) k (evaluate g r).gate h rs
        (evaluate_reason-Deferring o since n r.now g (busy_reason g.opts r.seen r.activity) d
          deferred)
        (ground arith)
]

first-Deferring :
    (o : Options) (now : ℕ) (b : Reason)
    → (evaluate_reason (new_gate o) now b).proceed ≡ false
    → Deferring o now 1 (evaluate_reason (new_gate o) now b).gate
      × ((evaluate_reason (new_gate o) now b).note ≡ deferring)
unfolding evaluate_reason defer_update reset new_gate
first-Deferring o now idle e = ground arith
first-Deferring o now in_flight e = ground arith
first-Deferring o now recent e = ground arith

-- The verdict of a check while a deferral lasts.
record Decides (since now : ℕ) (quiet : Bool) (g : Gate) (v : Verdict) : Type 0 where
  proceeds : v.proceed ≡ quiet || leb (since + max_deferral) now
  forces : v.forced ≡ not quiet && leb (since + max_deferral) now
  resets :
      quiet ≡ true → v.gate ≡ record { opts = g.opts; deferred_since = none; last_reminder = none }

defer_update-Decides :
    (since now : ℕ) (g : Gate)
    → g.deferred_since ≡ some since
    → Decides since now false g (defer_update g now g.deferred_since)
unfolding defer_update elapsed
defer_update-Decides since now g s =
    rw s record { proceeds = ground arith; forces = ground arith; resets = λ e. ground arith }

evaluate_reason-Decides :
    (since now : ℕ) (g : Gate) (b : Reason)
    → g.deferred_since ≡ some since
    → Decides since now (is_idle b) g (evaluate_reason g now b)
unfolding evaluate_reason reset
evaluate_reason-Decides since now g idle s = record {
  proceeds = refl;
  forces = refl;
  resets = λ e. refl;
}
evaluate_reason-Decides since now g in_flight s = defer_update-Decides since now g s
evaluate_reason-Decides since now g recent s = defer_update-Decides since now g s

deferrals-first :
    (o : Options) (first : Reading) (rs : List Reading) (g : Gate) (n : ℕ)
    → deferrals (new_gate o) 0 (first ∷ rs) ≡ some (g, n)
    → Deferring o first.now n g
unfolding deferrals evaluate
deferrals-first o first rs g n e = elim (Bool-cases (evaluate (new_gate o) first).proceed) [
  | inl through ↦ ground arith
  | inr deferred ↦
      let (d, a) =
        first-Deferring o first.now (busy_reason (new_gate o).opts first.seen first.activity)
          deferred in
      deferrals-Deferring o first.now 1 n (evaluate (new_gate o) first).gate g rs d
        (ground (arith, a))
]

Reminded-bound : (since n : ℕ) (last : Option ℕ) → Reminded since n last → n ≤ 6
Reminded-bound since n none h = elim h [ ]
Reminded-bound since n (some last) h = omega (arith, h.0, h.1)

quiet_kept :
    (o : Options) (seen : ℕ) (a : Option Activity) (opts : Options)
    → opts ≡ with_defaults o
    → ((is_idle (busy_reason opts seen a) ≡ true) × IsQuietFor (window o) seen a)
      ⊎ ((is_idle (busy_reason opts seen a) ≡ false) × ¬ IsQuietFor (window o) seen a)
quiet_kept o seen a opts k = rw k (quiet_lem o seen a)

-- While an update is pending and every check since the first has deferred it, the next check lets it
-- through exactly when the runner is quiet and has been for the whole idle window, or 6 hours have
-- passed since the first of these checks; it overrides activity only after those 6 hours; a check
-- that finds the runner quiet leaves the gate as new, and the deferral has been announced at INFO at
-- most 6 times.
pub deferrals-bounded :
    (o : Options) (first last : Reading) (rs : List Reading) (g : Gate) (n : ℕ)
    → deferrals (new_gate o) 0 (first ∷ rs) ≡ some (g, n)
    → let v = evaluate g last in
      let IsQuiet = IsQuietFor (window o) last.seen last.activity in
      ((v.proceed ≡ true) ↔ (IsQuiet ⊎ (first.now + max_deferral ≤ last.now)))
      × ((v.forced ≡ true) ↔ ((¬ IsQuiet) × (first.now + max_deferral ≤ last.now)))
      × (IsQuiet → v.gate ≡ new_gate o)
      × (n ≤ 6)
unfolding evaluate new_gate
deferrals-bounded o first last rs g n e =
    let d = deferrals-first o first rs g n e in
    let v =
      evaluate_reason-Decides first.now last.now g (busy_reason g.opts last.seen last.activity)
        d.1 in
    elim (quiet_kept o last.seen last.activity g.opts d.0) [
      | inl (e', q) ↦ (
        ground (arith, v.proceeds),
        ground (arith, v.forces),
        ground (arith, v.resets),
        Reminded-bound first.now n g.last_reminder d.2,
      )
      | inr (e', q) ↦ (
        ground (arith, v.proceeds),
        ground (arith, v.forces),
        ground (arith, v.resets),
        Reminded-bound first.now n g.last_reminder d.2,
      )
    ]
