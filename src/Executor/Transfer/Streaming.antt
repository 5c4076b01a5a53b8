-- ===== src/Executor/Transfer/Streaming.antt =====
-- executor/file_transfer.go, `streamWithLimit`: it returns, with what was read, within the limit.
use mathlib.Core.List.{append-nil, append_assoc}
use vectrify_agent_runner.Base.{
  ℕ, ◌+◌, ◌≤◌, ◌<◌, ◌≡◌, ◌⊎◌, inl, inr, refl, sym, ap, ◌∙◌, subst, ◌==◌, Bool, true, false, not,
  Option, none, some, List, [], ◌∷◌, ◌++◌, Text, if◌then◌else◌, ltb, length, length-append, All,
  Bool-cases, arith,
}
use vectrify_agent_runner.Executor.Transfer.{
  too_large, write_failed, read_failed, ReadEnd, more, eof, broken, Read, Streamed, goes_on,
  returns, round_end, round, stream_from, stream_with_limit,
}

-- Whether a read is the last.
abbrev pub ends : ReadEnd → Bool
ends more = false
ends eof = true
ends broken = true

-- The bytes up to the last read.
unfoldable pub body : List Read → Text
body [] = []
body (r ∷ rs) = if ends r.read_end then r.bytes else r.bytes ++ body rs

-- Some read is the last.
abbrev pub HasEnd : List Read → Type 0
HasEnd [] = ⊥
HasEnd (r ∷ rs) = (ends r.read_end ≡ true) ⊎ HasEnd rs

abbrev pub IsUnbroken : ReadEnd → Type 0
IsUnbroken more = Unit
IsUnbroken eof = Unit
IsUnbroken broken = ⊥

-- What the loop returns, when `pre` has been written before the reads.
abbrev pub IsCopy : ℕ → Text → List Read → Streamed → Type 0
IsCopy limit pre rs t =
    (length t.written ≤ limit)
    × (((t.error ≡ none) × (t.written ≡ pre ++ body rs) × (t.total ≡ length t.written))
        ⊎ ((t.error ≡ some too_large) × (limit < length (pre ++ body rs)))
        ⊎ ((t.error ≡ some write_failed) × (¬ All (λ r. r.writable ≡ true) rs))
        ⊎ ((t.error ≡ some read_failed) × (¬ All (λ r. IsUnbroken r.read_end) rs)))

-- The state between two rounds.
abbrev IsCounted : ℕ → Streamed → Type 0
IsCounted limit s = (s.error ≡ none) × (s.total ≡ length s.written) × (length s.written ≤ limit)

abbrev Returns : ℕ → Text → List Read → Option Streamed → Type 0
Returns limit pre rs o = (t : Streamed) × (o ≡ some t) × IsCopy limit pre rs t

nil_bytes : (b : Text) → (length b == 0) ≡ true → b ≡ []
nil_bytes [] e = refl
nil_bytes (c ∷ b) e = ground (arith, e)

body_more :
    (r : Read) (rs : List Read) (pre written : Text)
    → r.read_end ≡ more
    → written ≡ pre ++ r.bytes
    → written ++ body rs ≡ pre ++ body (r ∷ rs)
unfolding body
body_more r rs pre written q w =
    ap (λ x. x ++ body rs) w
    ∙ append_assoc pre r.bytes (body rs)
    ∙ ap (λ e. pre ++ (if ends e then r.bytes else r.bytes ++ body rs)) (sym q)

-- What holds of the reads that follow holds of all of them.
before-IsCopy :
    (limit : ℕ) (pre written : Text) (r : Read) (rs : List Read) (t : Streamed)
    → written ++ body rs ≡ pre ++ body (r ∷ rs)
    → IsCopy limit written rs t
    → IsCopy limit pre (r ∷ rs) t
before-IsCopy limit pre written r rs t w (l, inl (a, b, c)) = (l, inl (a, b ∙ w, c))
before-IsCopy limit pre written r rs t w (l, inr (inl (a, b))) =
    (l, inr (inl (a, subst (λ x. limit < length x) w b)))
before-IsCopy limit pre written r rs t w (l, inr (inr (inl (a, b)))) =
    (l, inr (inr (inl (a, λ u. b u.1))))
before-IsCopy limit pre written r rs t w (l, inr (inr (inr (a, b)))) =
    (l, inr (inr (inr (a, λ u. b u.1))))

HasEnd-more : (r : Read) (rs : List Read) → r.read_end ≡ more → HasEnd (r ∷ rs) → HasEnd rs
HasEnd-more r rs q (inl e) = ground (arith, sym (ap ends q) ∙ e)
HasEnd-more r rs q (inr h) = h

-- The end of a round in which `s` is the new state, given what the reads that follow come to.
end-Returns :
    (limit : ℕ) (s : Streamed) (r : Read) (rs : List Read) (pre : Text)
    → IsCounted limit s
    → s.written ≡ pre ++ r.bytes
    → HasEnd (r ∷ rs)
    → (HasEnd rs → Returns limit s.written rs (stream_from limit (goes_on s) rs))
    → (e : ReadEnd) → r.read_end ≡ e
    → Returns limit pre (r ∷ rs) (stream_from limit (round_end s e) rs)
unfolding round_end stream_from body
end-Returns limit s r rs pre c w h next eof q = (
  s,
  refl,
  (
    c.2,
    inl (c.0, w ∙ ap (λ e. pre ++ (if ends e then r.bytes else r.bytes ++ body rs)) (sym q), c.1),
  ),
)
end-Returns limit s r rs pre c w h next broken q = (
  record s { error = some read_failed },
  refl,
  (c.2, inr (inr (inr (refl, λ u. subst IsUnbroken q u.0)))),
)
end-Returns limit s r rs pre c w h next more q =
    let (t, e, k) = next (HasEnd-more r rs q h) in
    (t, e, before-IsCopy limit pre s.written r rs t (body_more r rs pre s.written q w) k)

-- A read that goes beyond the limit.
body_long :
    (r : Read) (rs : List Read) (pre : Text)
    → length pre + length r.bytes ≤ length (pre ++ body (r ∷ rs))
unfolding body
body_long r rs pre = ground (
  arith,
  length-append pre (body (r ∷ rs)),
  length-append r.bytes (body rs),
  length-append pre r.bytes,
  length-append pre (r.bytes ++ body rs),
)

write-Returns :
    (limit : ℕ) (s : Streamed) (r : Read) (rs : List Read)
    → IsCounted limit s
    → s.total + length r.bytes ≤ limit
    → HasEnd (r ∷ rs)
    → ((k : Streamed)
        → IsCounted limit k
        → HasEnd rs
        → Returns limit k.written rs (stream_from limit (goes_on k) rs))
    → (b : Bool) → r.writable ≡ b
    → Returns limit s.written (r ∷ rs) (
        stream_from limit
          (if not b
            then returns (record s { total = s.total + length r.bytes; error = some write_failed })
            else round_end
                (record s { total = s.total + length r.bytes; written = s.written ++ r.bytes })
                r.read_end)
          rs)
unfolding stream_from
write-Returns limit s r rs c f h next false g = (
  record s { total = s.total + length r.bytes; error = some write_failed },
  refl,
  (c.2, inr (inr (inl (refl, λ u. ground (arith, g, u.0))))),
)
write-Returns limit s r rs c f h next true g =
    let k : Streamed = record s {
      total = s.total + length r.bytes;
      written = s.written ++ r.bytes;
    } in
    let kc : IsCounted limit k = (
      c.0,
      ground (arith, c.1, length-append s.written r.bytes),
      ground (arith, f, c.1, length-append s.written r.bytes),
    ) in
    end-Returns limit k r rs s.written kc refl h (next k kc) r.read_end refl

round-Returns :
    (limit : ℕ) (s : Streamed) (r : Read) (rs : List Read)
    → IsCounted limit s
    → HasEnd (r ∷ rs)
    → ((k : Streamed)
        → IsCounted limit k
        → HasEnd rs
        → Returns limit k.written rs (stream_from limit (goes_on k) rs))
    → Returns limit s.written (r ∷ rs) (stream_from limit (round limit s r) rs)
unfolding round stream_from
round-Returns limit s r rs c h next = elim (Bool-cases (length r.bytes == 0)) [
  | inl e ↦ rw e (
      end-Returns limit s r rs s.written c
        (sym (append-nil s.written) ∙ ap (λ x. s.written ++ x) (sym (nil_bytes r.bytes e))) h
        (next s c) r.read_end refl)
  | inr e ↦ elim (Bool-cases (ltb limit (s.total + length r.bytes))) [
    | inl f ↦
        rw (e, f)
          (
            record s { total = s.total + length r.bytes; error = some too_large },
            refl,
            (c.2, inr (inl (refl, ground (arith, f, c.1, body_long r rs s.written)))),
          )
    | inr f ↦ rw (e, f) (write-Returns limit s r rs c (ground (arith, f)) h next r.writable refl)
  ]
]

stream_from-Returns :
    (limit : ℕ) (s : Streamed) (rs : List Read)
    → IsCounted limit s
    → HasEnd rs
    → Returns limit s.written rs (stream_from limit (goes_on s) rs)
unfolding stream_from
stream_from-Returns limit s [] c h = absurd h
stream_from-Returns limit s (r ∷ rs) c h =
    round-Returns limit s r rs c h (λ k kc kh. stream_from-Returns limit k rs kc kh)

-- If some read is the last, the loop returns, and has written at most `limit` bytes. Either there is no
-- error, and the bytes written are those of the body, all of them counted; or the body is longer than
-- the limit; or some bytes could not be written; or some read failed.
pub stream_with_limit-IsCopy :
    (limit : ℕ) (rs : List Read)
    → HasEnd rs
    → (t : Streamed) × (stream_with_limit limit rs ≡ some t) × IsCopy limit [] rs t
unfolding stream_with_limit
stream_with_limit-IsCopy limit rs h =
    stream_from-Returns limit (record { total = 0; written = []; error = none }) rs
      (refl, refl, ground arith) h
