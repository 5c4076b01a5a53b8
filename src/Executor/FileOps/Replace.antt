-- ===== src/Executor/FileOps/Replace.antt =====
-- executor/file_ops.go: `StrReplace` against occurrences in a text.
use mathlib.Core.List.{append-nil, append_assoc}
use vectrify_agent_runner.Base.{
  ℕ, zero, suc, ◌+◌, ◌-◌, ◌≤◌, ◌<◌, ◌≡◌, ◌⊎◌, inl, inr, refl, sym, ap, ◌∙◌, true, false, ◌==◌, some,
  [], ◌∷◌, ◌++◌, Text, text_eq, ltb, length, length-append, drop, has_prefix, has_prefix_rest,
  has_prefix-append, lookup, insert, Bool-cases, arith,
}
use vectrify_agent_runner.Executor.FileOps.Bytes.{normalize, count, count_skip, replace_first}
use vectrify_agent_runner.Executor.FileOps.{
  complete, written, Disk, Reply, done, failed, text_not_found, not_unique, write, str_replace,
  str_replace_found, replace_in,
}

drop-append : (a b : Text) → drop (length a) (a ++ b) ≡ b
drop-append [] b = refl
drop-append (c ∷ a) b = drop-append a b

count_skip-drop : (k : ℕ) (sub s : Text) → count_skip k sub s ≡ count_skip 0 sub (drop k s)
unfolding count_skip
count_skip-drop zero sub s = refl
count_skip-drop (suc k) sub [] = refl
count_skip-drop (suc k) sub (c ∷ cs) = count_skip-drop k sub cs

-- A text that stands in `s`.
abbrev pub Occurs : Text → Text → Text → Text → Type 0
Occurs s sub pre post = s ≡ pre ++ sub ++ post

count_zero :
    (o : ℕ) (os s pre post : Text) → count_skip 0 (o ∷ os) s ≡ 0 → ¬ Occurs s (o ∷ os) pre post
unfolding count_skip
count_zero o os [] [] post h e = cc
count_zero o os [] (p ∷ pre) post h e = cc
count_zero o os (c ∷ cs) [] post h e =
    let q : has_prefix (c ∷ cs) (o ∷ os) ≡ true = rw e (has_prefix-append (o ∷ os) post) in
    ground (arith, h, q)
count_zero o os (c ∷ cs) (p ∷ pre) post h e = count_zero o os cs pre post (ground (arith, h)) (cc)

-- The first occurrence: what `replace_first` does to it, and what is left to count after it.
IsFirst : ℕ → Text → Text → Text → Type 0
IsFirst o os new s =
    (pre : Text) × (post : Text) × Occurs s (o ∷ os) pre post
    × (replace_first (o ∷ os) new s ≡ pre ++ new ++ post)
    × (count_skip 0 (o ∷ os) s ≡ 1 + count_skip 0 (o ∷ os) post)
    × ((pre2 post2 : Text) → Occurs s (o ∷ os) pre2 post2 → length pre ≤ length pre2)

suc_sub_one : (n : ℕ) → suc n - 1 ≡ n
suc_sub_one n = omega arith

IsFirst-here :
    (o : ℕ) (os new : Text) (c : ℕ) (cs : Text)
    → has_prefix (c ∷ cs) (o ∷ os) ≡ true
    → IsFirst o os new (c ∷ cs)
unfolding IsFirst replace_first count_skip
IsFirst-here o os new c cs h =
    let (post, e) = has_prefix_rest (c ∷ cs) (o ∷ os) h in
    let q : cs ≡ os ++ post = cc in
    let p : drop (length os) cs ≡ post = ap (drop (length os)) q ∙ drop-append os post in
    (
      [],
      post,
      e,
      rw (h, p) refl,
      rw (h, suc_sub_one (length os))
          (ap (λ n. 1 + n)
            (count_skip-drop (length os) (o ∷ os) cs ∙ ap (count_skip 0 (o ∷ os)) p)),
      λ pre2 post2 e2. ground arith,
    )

later-le :
    (o : ℕ) (os : Text) (c : ℕ) (cs pre pre2 post2 : Text)
    → has_prefix (c ∷ cs) (o ∷ os) ≡ false
    → Occurs (c ∷ cs) (o ∷ os) pre2 post2
    → ((p : Text) → Occurs cs (o ∷ os) p post2 → length pre ≤ length p)
    → suc (length pre) ≤ length pre2
later-le o os c cs pre [] post2 h e m =
    let q : has_prefix (c ∷ cs) (o ∷ os) ≡ true = rw e (has_prefix-append (o ∷ os) post2) in
    ground (arith, h, q)
later-le o os c cs pre (p ∷ pre2) post2 h e m = ground (arith, m pre2 (cc))

IsFirst-later :
    (o : ℕ) (os new : Text) (c : ℕ) (cs : Text)
    → has_prefix (c ∷ cs) (o ∷ os) ≡ false
    → IsFirst o os new cs
    → IsFirst o os new (c ∷ cs)
unfolding IsFirst replace_first count_skip
IsFirst-later o os new c cs h (pre, post, e, r, k, m) = (
  c ∷ pre,
  post,
  ap (λ x. c ∷ x) e,
  rw h (ap (λ x. c ∷ x) r),
  rw h k,
  λ pre2 post2 e2. later-le o os c cs pre pre2 post2 h e2 (λ p e3. m p post2 e3),
)

count_suc : (o : ℕ) (os new s : Text) → 1 ≤ count_skip 0 (o ∷ os) s → IsFirst o os new s
unfolding count_skip
count_suc o os new [] h = ground (arith, h)
count_suc o os new (c ∷ cs) h = elim (Bool-cases (has_prefix (c ∷ cs) (o ∷ os))) [
  | inl e ↦ IsFirst-here o os new c cs e
  | inr e ↦ IsFirst-later o os new c cs e (count_suc o os new cs (ground (arith, h, e)))
]

-- An occurrence that begins behind a prefix is one in the rest.
behind : (a x b y : Text) → a ++ x ≡ b ++ y → length a ≤ length b → (t : Text) × (x ≡ t ++ y)
behind [] x b y e h = (b, e)
behind (c ∷ a) x [] y e h = ground (arith, h)
behind (c ∷ a) x (d ∷ b) y e h = behind a x b y (cc) (ground (arith, h))

-- One text put in place of another that stands there once: every other occurrence overlaps the first.
abbrev pub IsReplaced : Text → Text → Text → Text → Type 0
IsReplaced s old new t =
    (pre : Text) × (post : Text) × Occurs s old pre post
    × (t ≡ pre ++ new ++ post)
    × ((pre2 post2 : Text)
        → Occurs s old pre2 post2
        → (pre2 ≡ pre) ⊎ ((length pre < length pre2) × (length pre2 < length pre + length old)))

-- Two occurrences that do not overlap.
abbrev pub OccursTwice : Text → Text → Type 0
OccursTwice s old =
    (pre : Text) × (mid : Text) × (post : Text) × Occurs s old pre (mid ++ old ++ post)

same-length : (a x b y : Text) → a ++ x ≡ b ++ y → length a ≡ length b → b ≡ a
same-length [] x [] y e h = refl
same-length [] x (d ∷ b) y e h = ground (arith, h)
same-length (c ∷ a) x [] y e h = ground (arith, h)
same-length (c ∷ a) x (d ∷ b) y e h =
    let q : length a ≡ length b = ground (arith, h) in
    let r : a ++ x ≡ b ++ y = cc in let t = same-length a x b y r q in cc

-- Nothing can be found behind the only occurrence that is counted.
none-behind :
    (o : ℕ) (os s pre post pre2 post2 : Text)
    → Occurs s (o ∷ os) pre post
    → count_skip 0 (o ∷ os) post ≡ 0
    → Occurs s (o ∷ os) pre2 post2
    → length pre2 < length pre + length (o ∷ os)
none-behind o os s pre post pre2 post2 e k e2 =
    elim (Bool-cases (ltb (length pre2) (length pre + length (o ∷ os)))) [
      | inl t ↦ ground (arith, t)
      | inr t ↦
          let q : length (pre ++ o ∷ os) ≤ length pre2 =
            ground (arith, t, length-append pre (o ∷ os)) in
          let (mid, r) =
            behind (pre ++ o ∷ os) post pre2 (o ∷ os ++ post2)
              (sym e ∙ e2 ∙ append_assoc pre2 (o ∷ os) post2) q in
          absurd (count_zero o os post mid post2 k (r ∙ sym (append_assoc mid (o ∷ os) post2)))
    ]

first-IsReplaced :
    (o : ℕ) (os new s : Text)
    → count_skip 0 (o ∷ os) s ≡ 1
    → IsReplaced s (o ∷ os) new (replace_first (o ∷ os) new s)
unfolding IsFirst
first-IsReplaced o os new s h =
    let (pre, post, e, r, k, m) = count_suc o os new s (ground (arith, h)) in
    (
      pre,
      post,
      e,
      r,
      λ pre2 post2 e2. elim (Bool-cases (ltb (length pre) (length pre2))) [
        | inl t ↦
            inr (
              ground (arith, t),
              none-behind o os s pre post pre2 post2 e (ground (arith, h, k)) e2,
            )
        | inr t ↦ inl (
            same-length pre ((o ∷ os) ++ post) pre2 ((o ∷ os) ++ post2)
              (sym (append_assoc pre (o ∷ os) post) ∙ sym e ∙ e2 ∙ append_assoc pre2 (o ∷ os) post2)
              (ground (arith, t, m pre2 post2 e2)))
      ],
    )

first-OccursTwice : (o : ℕ) (os s : Text) → 1 < count_skip 0 (o ∷ os) s → OccursTwice s (o ∷ os)
unfolding IsFirst
first-OccursTwice o os s h =
    let (pre, post, e, r, k, m) = count_suc o os [] s (ground (arith, h)) in
    let (pre2, post2, e2, r2, k2, m2) = count_suc o os [] post (ground (arith, h, k)) in
    (pre, pre2, post2, e ∙ ap (λ x. pre ++ (o ∷ os) ++ x) e2)

-- What a replacement in a text can come to.
abbrev pub IsReplacement : Disk → Text → Text → Text → Text → Disk × Reply → Type 0
IsReplacement d path old new s r =
    ((r ≡ (d, failed text_not_found)) × ((pre post : Text) → ¬ Occurs s old pre post))
    ⊎ ((r ≡ (d, failed not_unique)) × OccursTwice s old)
    ⊎ ((t : Text) × (r ≡ (record d { files = insert path t d.files }, done))
        × IsReplaced s old new t)

nil-Occurs : (pre post : Text) → Occurs [] [] pre post → pre ≡ []
nil-Occurs [] post e = refl
nil-Occurs (c ∷ pre) post e = cc

nil-IsReplaced : (new : Text) → IsReplaced [] [] new new
nil-IsReplaced new =
    ([], [], refl, sym (append-nil new), λ pre2 post2 e. inl (nil-Occurs pre2 post2 e))

-- An empty text stands twice in every text but the empty one.
replace_nil-IsReplacement :
    (d : Disk) (path new s : Text)
    → d.write_end path ≡ complete
    → IsReplacement d path [] new s (replace_in d path [] new s)
unfolding replace_in write written count replace_first text_eq
replace_nil-IsReplacement d path new [] w = rw w (inr (inr (new, refl, nil-IsReplaced new)))
replace_nil-IsReplacement d path new (c ∷ cs) w =
    let a : (suc (length cs) + 1 == 0) ≡ false = ground arith in
    let b : ltb 1 (suc (length cs) + 1) ≡ true = ground arith in
    rw (a, b) (inr (inl (refl, ([], [], c ∷ cs, refl))))

replace_cons-IsReplacement :
    (d : Disk) (path : Text) (o : ℕ) (os new s : Text)
    → d.write_end path ≡ complete
    → IsReplacement d path (o ∷ os) new s (replace_in d path (o ∷ os) new s)
unfolding replace_in write written count
replace_cons-IsReplacement d path o os new s w = elim (Bool-cases (count_skip 0 (o ∷ os) s == 0)) [
  | inl e ↦ rw e (inl (refl, λ pre post. count_zero o os s pre post (ground (arith, e))))
  | inr e ↦ elim (Bool-cases (ltb 1 (count_skip 0 (o ∷ os) s))) [
    | inl f ↦ rw (e, f) (inr (inl (refl, first-OccursTwice o os s (ground (arith, f)))))
    | inr f ↦
        rw (e, f, w)
          (inr (
            inr (
              replace_first (o ∷ os) new s,
              refl,
              first-IsReplaced o os new s (ground (arith, e, f)),
            )))
  ]
]

replace_in-IsReplacement :
    (d : Disk) (path old new s : Text)
    → d.write_end path ≡ complete
    → IsReplacement d path old new s (replace_in d path old new s)
replace_in-IsReplacement d path [] new s w = replace_nil-IsReplacement d path new s w
replace_in-IsReplacement d path (o ∷ os) new s w = replace_cons-IsReplacement d path o os new s w

-- In a file that is there and can be written, with CRLF made LF in the file and in both texts: either
-- the text was not found, and it does not occur in the file; or it was not unique, and it occurs twice
-- without overlap; or the file is now what stood before an occurrence, the new text, and what stood
-- behind it, and any other occurrence began within that one. Where the replacement is refused the disk
-- is as it was.
pub str_replace-IsReplacement :
    (d : Disk) (path old new bytes : Text)
    → lookup path d.files ≡ some bytes
    → d.write_end path ≡ complete
    → IsReplacement d path
        (normalize old)
        (normalize new)
        (normalize bytes)
        (str_replace d path old new)
unfolding str_replace str_replace_found
str_replace-IsReplacement d path old new bytes l w =
    rw l (replace_in-IsReplacement d path (normalize old) (normalize new) (normalize bytes) w)
