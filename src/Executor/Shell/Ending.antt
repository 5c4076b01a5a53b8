-- ===== src/Executor/Shell/Ending.antt =====
-- executor/shell.go, `Run`: the loop ends, whatever the command and its descendants do.
use vectrify_agent_runner.Base.{
  ℕ, ◌+◌, ◌≤◌, ◌≡◌, ◌⊎◌, inl, inr, refl, ap, ◌∙◌, subst, Bool, true, false, not, Option, none, some,
  List, [], ◌∷◌, if◌then◌else◌, length, All, Bool-cases, arith, ℤ, sum,
}
use vectrify_agent_runner.Executor.Shell.{
  Ready, from_out, out_closed, from_cmd_done, from_ctx_done, from_grace, Loop, new_loop,
  on_cmd_done, on_ctx_done, iterate, turn, loop,
}

-- Whether a case is another than a chunk of output.
abbrev pub signal : Ready → ℕ
signal (from_out stream bytes) = 0
signal out_closed = 1
signal (from_cmd_done err) = 1
signal from_ctx_done = 1
signal from_grace = 1

-- The cases that the clock brings.
abbrev pub IsTimer : Ready → Type 0
IsTimer (from_out stream bytes) = ⊥
IsTimer out_closed = ⊥
IsTimer (from_cmd_done err) = ⊥
IsTimer from_ctx_done = Unit
IsTimer from_grace = Unit

flag : Bool → ℕ
flag true = 1
flag false = 0

-- How many signals the loop can still take.
budget : Loop → ℕ
unfolding flag
budget l = flag l.cmd_done + flag l.ctx_done + flag (not l.left)

IsArmed : Loop → Type 0
IsArmed l = (l.grace ≡ true) ⊎ (l.ctx_done ≡ true)

-- What an iteration leaves, if it can be taken.
abbrev IsSpent : ℕ → ℕ → Option Loop → Type 0
IsSpent cost before none = Unit
IsSpent cost before (some k) = (cost + budget k ≤ before) × IsArmed k

iterate-IsSpent :
    (l : Loop) (r : Ready)
    → l.left ≡ false
    → IsArmed l
    → IsSpent (signal r) (budget l) (iterate l r)
unfolding iterate on_cmd_done on_ctx_done budget flag IsArmed
iterate-IsSpent l (from_out stream bytes) n a = (ground arith, a)
iterate-IsSpent l out_closed n a = (ground (arith, n), a)
iterate-IsSpent l (from_cmd_done err) n a = elim (Bool-cases l.cmd_done) [
  | inl t ↦ rw t (ground (arith, t), inl refl)
  | inr t ↦ rw t tt
]
iterate-IsSpent l from_ctx_done n a = elim (Bool-cases l.ctx_done) [
  | inl t ↦ rw t (ground (arith, t), inl refl)
  | inr t ↦ rw t tt
]
iterate-IsSpent l from_grace n a = elim (Bool-cases l.grace) [
  | inl t ↦ rw t (ground (arith, n), inl refl)
  | inr t ↦ rw t tt
]

unless-IsSpent :
    (b : Bool) (cost before : ℕ) (o : Option Loop)
    → ((b ≡ false) → IsSpent cost before o)
    → IsSpent cost before (if b then none else o)
unless-IsSpent true cost before o h = tt
unless-IsSpent false cost before o h = h refl

turn-IsSpent : (l : Loop) (r : Ready) → IsArmed l → IsSpent (signal r) (budget l) (turn l r)
unfolding turn
turn-IsSpent l r a =
    unless-IsSpent l.left (signal r) (budget l) (iterate l r) (λ e. iterate-IsSpent l r e a)

more-IsSpent :
    (cost more before spent : ℕ) (o : Option Loop)
    → cost + spent ≤ before
    → IsSpent more spent o
    → IsSpent (cost + more) before o
more-IsSpent cost more before spent none h s = tt
more-IsSpent cost more before spent (some k) h s = (ground (arith, h, s.0), s.1)

loop-IsSpent :
    (o : Option Loop) (rs : List Ready) (cost before : ℕ)
    → IsSpent cost before o
    → IsSpent (cost + sum signal rs) before (loop o rs)
unfolding loop
loop-IsSpent none rs cost before s = tt
loop-IsSpent (some l) [] cost before s = (ground (arith, s.0), s.1)
loop-IsSpent (some l) (r ∷ rs) cost before s =
    let h =
      loop-IsSpent (turn l r) rs (cost + signal r) before
        (more-IsSpent cost (signal r) before (budget l) (turn l r) s.0 (turn-IsSpent l r s.1)) in
    let q : cost + signal r + sum signal rs ≡ cost + sum signal (r ∷ rs) = omega arith in
    subst (λ n. IsSpent n before (loop (turn l r) rs)) q h

grace-turn :
    (l : Loop)
    → l.left ≡ false
    → l.grace ≡ true
    → turn l from_grace ≡ some (record l { force_killed = true; left = true })
unfolding turn iterate
grace-turn l n g = rw (n, g) refl

ctx_done-turn :
    (l : Loop) → l.left ≡ false → l.ctx_done ≡ true → turn l from_ctx_done ≡ some (on_ctx_done l)
unfolding turn iterate
ctx_done-turn l n c = rw (n, c) refl

-- The clock alone ends the loop from here, with two cases at most.
abbrev pub EndsByClock : Loop → Type 0
EndsByClock l =
    (timers : List Ready) × (k : Loop) × All IsTimer timers
    × (length timers ≤ 2)
    × (loop (some l) timers ≡ some k)
    × (k.left ≡ true)

armed-ends : (l : Loop) → l.left ≡ false → IsArmed l → EndsByClock l
unfolding IsArmed loop on_ctx_done
armed-ends l n (inl g) = (
  from_grace ∷ [],
  record l { force_killed = true; left = true },
  (tt, tt),
  ground arith,
  ap (λ o. loop o []) (grace-turn l n g),
  refl,
)
armed-ends l n (inr c) = (
  from_ctx_done ∷ from_grace ∷ [],
  record (on_ctx_done l) { force_killed = true; left = true },
  (tt, (tt, tt)),
  ground arith,
  ap (λ o. loop o (from_grace ∷ [])) (ctx_done-turn l n c)
      ∙ ap (λ o. loop o []) (grace-turn (on_ctx_done l) n refl),
  refl,
)

-- After any cases of the loop: at most three of them were no chunk of output, and either the loop has
-- been left, or what the clock alone brings, the deadline and the end of the grace period, makes it end.
pub loop-ends :
    (timeout_secs : ℤ) (rs : List Ready) (l : Loop)
    → loop (some (new_loop timeout_secs)) rs ≡ some l
    → (sum signal rs ≤ 3) × ((l.left ≡ true) ⊎ ((l.left ≡ false) × EndsByClock l))
unfolding new_loop budget flag IsArmed
loop-ends timeout_secs rs l e =
    let s =
      subst (IsSpent (0 + sum signal rs) 3) e
        (loop-IsSpent (some (new_loop timeout_secs)) rs 0 3 (ground arith, inr refl)) in
    (
      ground (arith, s.0),
      elim (Bool-cases l.left) [ inl t ↦ inl t | inr t ↦ inr (t, armed-ends l t s.1) ],
    )
