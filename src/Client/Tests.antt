-- ===== src/Client/Tests.antt =====
-- The reconnect loop on the default limit of 60 s.
use vectrify_agent_runner.Base.{
  ℕ, suc, ◌≤◌, ◌≡◌, refl, [], ◌∷◌, ◌++◌, ◌*◌, ◌^◌, min, max, pos, negsuc, arith,
}
use vectrify_agent_runner.Client.Reconnect.{
  second, backoff, backoff_secs, backoff_halves, lost, clean, reconnect, run_forever,
  backoff_bounds, run_forever_counts,
}

capped : backoff 9 60 ≡ pos (60 * second)
unfolding backoff backoff_secs backoff_halves
capped = refl

-- A limit this large overflows: a pause of negative length.
overflows : backoff 35 10000000000 ≡ negsuc 8446744073709551615
unfolding backoff backoff_secs backoff_halves
overflows = refl

backoff_bounds_example :
    (secs : ℕ) × (backoff 4 60 ≡ pos (secs * second))
    × (1 ≤ secs)
    × (secs ≤ max 1 60)
    × (1 ≤ 60 → (n : ℕ) → 4 ≡ suc n → secs ≡ min (2 ^ n) 60)
backoff_bounds_example = backoff_bounds 4 60 (omega arith)

run_forever_counts_example :
    (run_forever 60 3 ((lost 5 ∷ []) ++ lost (40 * second) ∷ lost 2 ∷ lost 3 ∷ []) ≡ 2)
    × (run_forever 60 3 ((lost 5 ∷ []) ++ clean 7 ∷ lost 2 ∷ lost 3 ∷ []) ≡ 2)
    × (reconnect 60 (run_forever 60 3 (lost 5 ∷ [])) (lost (40 * second)) ≡ (0, pos second))
    × (reconnect 60 (run_forever 60 3 (lost 5 ∷ [])) (clean 7) ≡ (0, pos (2 * second)))
run_forever_counts_example =
    run_forever_counts 60 3 (lost 5 ∷ []) (lost 2 ∷ lost 3 ∷ []) (40 * second) 7 (omega arith)
      ((2, refl, omega arith), ((3, refl, omega arith), tt))
