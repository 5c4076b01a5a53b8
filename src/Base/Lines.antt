-- ===== src/Base/Lines.antt =====
-- strings.Split and strings.Join at a one-byte separator, and the prefix tests of the source.
use Prim.Native.Nat.{ℕ}
use mathlib.Core.Path.{◌≡◌, refl, sym, ap, ◌∙◌}
use mathlib.Core.Logic.{inl, inr, ◌≢◌}
use mathlib.Core.Bool.{Bool, true, false, ◌&&◌, ◌||◌}
use mathlib.Core.List.{List, [], ◌∷◌, ◌++◌, append_assoc}
use native.Mathlib.Omega.{arith}
use vectrify_agent_runner.Base.Tests.{◌==◌, if◌then◌else◌, Bool-cases}
use vectrify_agent_runner.Base.Lists.{All}
use vectrify_agent_runner.Base.Strings.{Text}

abbrev pub newline : ℕ
newline = 10

abbrev pub cons_head : ℕ → List Text → List Text
cons_head c [] = (c ∷ []) ∷ []
cons_head c (l ∷ ls) = (c ∷ l) ∷ ls

unfoldable pub split : ℕ → Text → List Text
split sep [] = [] ∷ []
split sep (c ∷ cs) = let rest = split sep cs in if c == sep then [] ∷ rest else cons_head c rest

unfoldable pub join : ℕ → List Text → Text
join sep [] = []
join sep (l ∷ []) = l
join sep (l ∷ m ∷ ls) = l ++ sep ∷ join sep (m ∷ ls)

-- No byte of the text is the separator.
abbrev pub Free : ℕ → Text → Type 0
Free sep = All (λ c. (c == sep) ≡ false)

split_cons : (sep : ℕ) (s : Text) → split sep s ≢ []
unfolding split
split_cons sep [] = λ e. ground arith
split_cons sep (c ∷ cs) = λ e. ground (arith, split_cons sep cs)

join-cons_head :
    (sep c : ℕ) (ls : List Text) → ls ≢ [] → join sep (cons_head c ls) ≡ c ∷ join sep ls
unfolding join
join-cons_head sep c [] h = absurd (h refl)
join-cons_head sep c (l ∷ []) h = refl
join-cons_head sep c (l ∷ m ∷ ls) h = refl

join_nil : (sep : ℕ) (ls : List Text) → ls ≢ [] → join sep ([] ∷ ls) ≡ sep ∷ join sep ls
unfolding join
join_nil sep [] h = absurd (h refl)
join_nil sep (l ∷ ls) h = refl

pub join-split : (sep : ℕ) (s : Text) → join sep (split sep s) ≡ s
unfolding split
join-split sep [] = unfold join in refl
join-split sep (c ∷ cs) = ground (
  arith,
  join-split sep cs,
  split_cons sep cs,
  join_nil sep (split sep cs),
  join-cons_head sep c (split sep cs),
)

pub split_one : (sep : ℕ) (l : Text) → Free sep l → split sep l ≡ l ∷ []
unfolding split
split_one sep [] h = refl
split_one sep (c ∷ cs) h = ground (arith, split_one sep cs h.1)

split_append : (sep : ℕ) (l s : Text) → Free sep l → split sep (l ++ sep ∷ s) ≡ l ∷ split sep s
unfolding split
split_append sep [] s h = ground arith
split_append sep (c ∷ cs) s h = ground (arith, split_append sep cs s h.1)

cons_head-append :
    (c : ℕ) (ls ms : List Text) → ls ≢ [] → cons_head c (ls ++ ms) ≡ cons_head c ls ++ ms
cons_head-append c [] ms h = absurd (h refl)
cons_head-append c (l ∷ ls) ms h = refl

pub split_append_all :
    (sep : ℕ) (l s : Text) → split sep (l ++ sep ∷ s) ≡ split sep l ++ split sep s
unfolding split
split_append_all sep [] s = ground arith
split_append_all sep (c ∷ cs) s = ground (
  arith,
  split_append_all sep cs s,
  split_cons sep cs,
  cons_head-append c (split sep cs) (split sep s),
)

pub split-join :
    (sep : ℕ) (l : Text) (ls : List Text)
    → All (Free sep) (l ∷ ls)
    → split sep (join sep (l ∷ ls)) ≡ l ∷ ls
unfolding join
split-join sep l [] h = split_one sep l h.0
split-join sep l (m ∷ ls) h =
    ground (arith, split_append sep l (join sep (m ∷ ls)) h.0, split-join sep m ls h.1)

cons_head-Free :
    (sep c : ℕ) (ls : List Text)
    → (c == sep) ≡ false
    → All (Free sep) ls
    → All (Free sep) (cons_head c ls)
cons_head-Free sep c [] n h = ((n, tt), tt)
cons_head-Free sep c (l ∷ ls) n h = ((n, h.0), h.1)

pub split-Free : (sep : ℕ) (s : Text) → All (Free sep) (split sep s)
unfolding split
split-Free sep [] = (tt, tt)
split-Free sep (c ∷ cs) = elim (Bool-cases (c == sep)) [
  | inl e ↦ rw e (tt, split-Free sep cs)
  | inr n ↦ rw n (cons_head-Free sep c (split sep cs) n (split-Free sep cs))
]

-- strings.HasPrefix
unfoldable pub has_prefix : Text → Text → Bool
has_prefix s [] = true
has_prefix [] (p ∷ ps) = false
has_prefix (c ∷ cs) (p ∷ ps) = (c == p) && has_prefix cs ps

-- strings.TrimLeft(s, " \t")
unfoldable pub trim_left : Text → Text
trim_left [] = []
trim_left (c ∷ cs) = let rest = trim_left cs in if c == b' ' || c == 9 then rest else c ∷ cs

pub has_prefix-append : (p s : Text) → has_prefix (p ++ s) p ≡ true
unfolding has_prefix
has_prefix-append [] s = refl
has_prefix-append (c ∷ p) s = ground (arith, has_prefix-append p s)

pub split-join_append :
    (sep : ℕ) (l : Text) (ls : List Text) (s : Text)
    → All (Free sep) (l ∷ ls)
    → split sep (join sep (l ∷ ls) ++ sep ∷ s) ≡ (l ∷ ls) ++ split sep s
unfolding join
split-join_append sep l [] s h = split_append sep l s h.0
split-join_append sep l (m ∷ ls) s h = rw (append_assoc l (sep ∷ join sep (m ∷ ls)) (sep ∷ s)) (
    split_append sep l (join sep (m ∷ ls) ++ sep ∷ s) h.0
    ∙ ap (λ q. l ∷ q) (split-join_append sep m ls s h.1))

pub join-append :
    (sep : ℕ) (l : Text) (ls : List Text) (m : Text) (ms : List Text)
    → join sep ((l ∷ ls) ++ m ∷ ms) ≡ join sep (l ∷ ls) ++ sep ∷ join sep (m ∷ ms)
unfolding join
join-append sep l [] m ms = refl
join-append sep l (k ∷ ls) m ms =
    ap (λ q. l ++ sep ∷ q) (join-append sep k ls m ms)
    ∙ sym (append_assoc l (sep ∷ join sep (k ∷ ls)) (sep ∷ join sep (m ∷ ms)))

-- What a prefix leaves.
pub has_prefix_rest : (s p : Text) → has_prefix s p ≡ true → (t : Text) × (s ≡ p ++ t)
unfolding has_prefix
has_prefix_rest s [] h = (s, refl)
has_prefix_rest [] (p ∷ ps) h = cc
has_prefix_rest (c ∷ cs) (p ∷ ps) h =
    let (t, e) = has_prefix_rest cs ps (ground arith) in (t, ground (arith, e))
