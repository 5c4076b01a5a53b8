-- ===== src/Executor/Paths/Containment.antt =====
-- What the prefix test of the guard means for the components of a path.
use mathlib.Core.List.{append-nil, append_assoc}
use vectrify_agent_runner.Base.{
  ℕ, ◌≡◌, ◌≢◌, ◌⊎◌, inl, inr, refl, sym, ap, ◌∙◌, subst, true, false, Option, none, some, List, [],
  ◌∷◌, ◌++◌, Text, codes, text_eq, text_eq_iff, text_eq_refl, split, join, has_prefix,
  has_prefix_rest, has_prefix-append, Free, split-Free, split-join, split-join_append, join-append,
  All, All-append, Bool-cases, arith,
}
use vectrify_agent_runner.Executor.Paths.{
  slash, render, parent, clean_step, clean_components, components, clean, absolute, PathError,
  outside_root, Guarded, inside, refused, check_root, guard_path, guard_absolute,
}

-- A component of a clean path.
abbrev pub IsNormal : Text → Type 0
IsNormal c =
    Free slash c
    × (text_eq c [] ≡ false)
    × (text_eq c (codes ".") ≡ false)
    × (text_eq c (codes "..") ≡ false)

parent-IsNormal : (cs : List Text) → All IsNormal cs → All IsNormal (parent cs)
unfolding parent
parent-IsNormal [] h = tt
parent-IsNormal (c ∷ []) h = tt
parent-IsNormal (c ∷ d ∷ cs) h = (h.0, parent-IsNormal (d ∷ cs) h.1)

clean_step-IsNormal :
    (done : List Text) (c : Text)
    → All IsNormal done
    → Free slash c
    → All IsNormal (clean_step done c)
unfolding clean_step
clean_step-IsNormal done c h f =
    ground (
      arith,
      parent-IsNormal done h,
      λ (a : IsNormal c). All-append IsNormal done (c ∷ []) h (a, tt),
    )

clean_components-IsNormal :
    (done cs : List Text)
    → All IsNormal done
    → All (Free slash) cs
    → All IsNormal (clean_components done cs)
unfolding clean_components
clean_components-IsNormal done [] h f = h
clean_components-IsNormal done (c ∷ cs) h f =
    clean_components-IsNormal (clean_step done c) cs (clean_step-IsNormal done c h f.0) f.1

pub components-IsNormal : (path : Text) → All IsNormal (components path)
unfolding components
components-IsNormal path =
    clean_components-IsNormal [] (split slash path) tt (split-Free slash path)

Normal-Free : (cs : List Text) → All IsNormal cs → All (Free slash) cs
Normal-Free [] h = tt
Normal-Free (c ∷ cs) h = (h.0.0, Normal-Free cs h.1)

-- A path with a component is not that of the root.
join_cons-ne-nil : (c : Text) (cs : List Text) → text_eq c [] ≡ false → join slash (c ∷ cs) ≢ []
unfolding join text_eq
join_cons-ne-nil [] cs h e = cc
join_cons-ne-nil (x ∷ c) [] h e = ground arith
join_cons-ne-nil (x ∷ c) (d ∷ cs) h e = ground arith

-- The components determine the path, and back.
join-injective :
    (cs ds : List Text)
    → All IsNormal cs
    → All IsNormal ds
    → join slash cs ≡ join slash ds
    → cs ≡ ds
join-injective [] [] h k e = refl
join-injective [] (d ∷ ds) h k e =
    absurd (join_cons-ne-nil d ds k.0.1 (sym e ∙ unfold join in refl))
join-injective (c ∷ cs) [] h k e = absurd (join_cons-ne-nil c cs h.0.1 (e ∙ unfold join in refl))
join-injective (c ∷ cs) (d ∷ ds) h k e =
    sym (split-join slash c cs (Normal-Free (c ∷ cs) h))
    ∙ ap (split slash) e
    ∙ split-join slash d ds (Normal-Free (d ∷ ds) k)

append_cons-ne-nil : (a : Text) (x : ℕ) (t : Text) → a ++ x ∷ t ≢ []
append_cons-ne-nil [] x t e = cc
append_cons-ne-nil (y ∷ a) x t e = cc

-- A path whose text begins with another and a slash has that one's components first.
prefix_components :
    (r : Text) (rs cs : List Text) (t : Text)
    → All IsNormal (r ∷ rs)
    → All IsNormal cs
    → join slash cs ≡ join slash (r ∷ rs) ++ slash ∷ t
    → cs ≡ (r ∷ rs) ++ split slash t
prefix_components r rs [] t h k e =
    absurd (append_cons-ne-nil (join slash (r ∷ rs)) slash t (sym e ∙ unfold join in refl))
prefix_components r rs (c ∷ cs) t h k e =
    sym (split-join slash c cs (Normal-Free (c ∷ cs) k))
    ∙ ap (split slash) e
    ∙ split-join_append slash r rs t (Normal-Free (r ∷ rs) h)

cons_tail : {x y : ℕ} {xs ys : Text} → x ∷ xs ≡ y ∷ ys → xs ≡ ys
cons_tail e = cc

abbrev pub Extends : List Text → List Text → Type 0
Extends cs rs = (rest : List Text) × (cs ≡ rs ++ rest)

render-injective :
    (cs ds : List Text) → All IsNormal cs → All IsNormal ds → render cs ≡ render ds → cs ≡ ds
unfolding render
render-injective cs ds h k e = join-injective cs ds h k (cc)

has_prefix-Extends :
    (r : Text) (rs cs : List Text)
    → All IsNormal (r ∷ rs)
    → All IsNormal cs
    → has_prefix (render cs) (render (r ∷ rs) ++ slash ∷ []) ≡ true
    → Extends cs (r ∷ rs)
unfolding render
has_prefix-Extends r rs cs h k e =
    let (t, q) = has_prefix_rest (render cs) (render (r ∷ rs) ++ slash ∷ []) e in
    (
      split slash t,
      prefix_components r rs cs t h k
          (cons_tail q ∙ append_assoc (join slash (r ∷ rs)) (slash ∷ []) t),
    )

accepted-Extends :
    (r : Text) (rs cs : List Text)
    → All IsNormal (r ∷ rs)
    → All IsNormal cs
    → check_root (render (r ∷ rs)) (render cs) ≡ inside (render cs)
    → Extends cs (r ∷ rs)
unfolding check_root
accepted-Extends r rs cs h k e = elim (Bool-cases (text_eq (render cs) (render (r ∷ rs)))) [
  | inl same ↦
      ([], render-injective cs (r ∷ rs) k h ((text_eq_iff _ _).0 same) ∙ sym (append-nil (r ∷ rs)))
  | inr other ↦ has_prefix-Extends r rs cs h k (ground (arith, other, e))
]

render-append :
    (r : Text) (rs : List Text) (m : Text) (ms : List Text)
    → render ((r ∷ rs) ++ m ∷ ms) ≡ (render (r ∷ rs) ++ slash ∷ []) ++ join slash (m ∷ ms)
unfolding render
render-append r rs m ms =
    ap (λ q. slash ∷ q)
      (join-append slash r rs m ms
        ∙ sym (append_assoc (join slash (r ∷ rs)) (slash ∷ []) (join slash (m ∷ ms))))

Extends-accepted :
    (r : Text) (rs rest : List Text)
    → check_root (render (r ∷ rs)) (render ((r ∷ rs) ++ rest)) ≡ inside (render ((r ∷ rs) ++ rest))
unfolding check_root render
Extends-accepted r rs [] = ground (arith, text_eq_refl (render (r ∷ rs)), append-nil rs)
Extends-accepted r rs (m ∷ ms) =
    let p : has_prefix (render ((r ∷ rs) ++ m ∷ ms)) (render (r ∷ rs) ++ slash ∷ []) ≡ true =
      rw (render-append r rs m ms)
        (has_prefix-append (render (r ∷ rs) ++ slash ∷ []) (join slash (m ∷ ms))) in
    ground (arith, p)

check_root-cases :
    (root path : Text)
    → (check_root root path ≡ inside path) ⊎ (check_root root path ≡ refused outside_root)
unfolding check_root
check_root-cases root path = ground arith

refused-ne-inside : {e : PathError} {p : Text} {g : Guarded} → g ≡ inside p → g ≡ refused e → ⊥
refused-ne-inside a b = cc

check_root-root :
    (cs : List Text)
    → All IsNormal cs
    → cs ≢ []
    → check_root (render []) (render cs) ≡ refused outside_root
unfolding check_root render join text_eq has_prefix
check_root-root [] k n = absurd (n refl)
check_root-root ([] ∷ cs) k n = ground (arith, k.0.1)
check_root-root ((x ∷ c) ∷ []) k n = ground (arith, k.0.0.0)
check_root-root ((x ∷ c) ∷ d ∷ cs) k n = ground (arith, k.0.0.0)

Decides : List Text → List Text → Guarded → Type 0
Decides cs rs g =
    (Extends cs rs × (g ≡ inside (render cs))) ⊎ ((¬ Extends cs rs) × (g ≡ refused outside_root))

check_root-Decides :
    (rs cs : List Text)
    → All IsNormal rs
    → All IsNormal cs
    → rs ≢ []
    → Decides cs rs (check_root (render rs) (render cs))
unfolding Decides
check_root-Decides [] cs h k n = absurd (n refl)
check_root-Decides (r ∷ rs) cs h k n = elim (check_root-cases (render (r ∷ rs)) (render cs)) [
  | inl yes' ↦ inl (accepted-Extends r rs cs h k yes', yes')
  | inr no' ↦ inr (
    λ x.
        refused-ne-inside
          (subst (λ q. check_root (render (r ∷ rs)) (render q) ≡ inside (render q)) (sym x.1)
            (Extends-accepted r rs x.0))
          no',
    no',
  )
]

-- For a workspace root other than the root of the file system, and a path that is not empty and can
-- be made absolute: the guard returns the clean path if its components are those of the root and
-- possibly more, none of which is empty, `.` or `..`, and otherwise refuses it as outside the root.
pub guard_path-contains :
    (workspace path full : Text) (cwd : Option Text)
    → text_eq path [] ≡ false
    → absolute cwd path ≡ some full
    → components workspace ≢ []
    → All IsNormal (components full)
      × ((Extends (components full) (components workspace)
            × (guard_path (clean workspace) cwd path ≡ inside (clean full)))
          ⊎ ((¬ Extends (components full) (components workspace))
              × (guard_path (clean workspace) cwd path ≡ refused outside_root)))
unfolding guard_path clean Decides
guard_path-contains workspace path full cwd p a n = (
  components-IsNormal full,
  rw (p, a)
      (check_root-Decides (components workspace) (components full) (components-IsNormal workspace)
        (components-IsNormal full) n),
)

-- With the root of the file system as the workspace root nothing but that directory itself is
-- accepted: no path begins with two slashes once it is clean.
pub guard_path-root :
    (workspace path full : Text) (cwd : Option Text)
    → text_eq path [] ≡ false
    → absolute cwd path ≡ some full
    → components workspace ≡ []
    → components full ≢ []
    → guard_path (clean workspace) cwd path ≡ refused outside_root
unfolding guard_path clean
guard_path-root workspace path full cwd p a n f =
    rw (p, a, n) (check_root-root (components full) (components-IsNormal full) f)

-- A path of the workspace: its components are those of the workspace, and then further ones, none of
-- them empty, `.` or `..`.
abbrev pub IsBelow : Text → Text → Type 0
IsBelow workspace q =
    (cs : List Text) × (q ≡ render cs) × All IsNormal cs × Extends cs (components workspace)

guard_absolute-IsBelow :
    (workspace : Text) (full : Option Text) {p : Text}
    → components workspace ≢ []
    → guard_absolute (clean workspace) full ≡ inside p
    → IsBelow workspace p
unfolding guard_absolute clean Decides
guard_absolute-IsBelow workspace none n e = cc
guard_absolute-IsBelow workspace (some full) n e =
    elim (check_root-Decides (components workspace) (components full)
      (components-IsNormal workspace) (components-IsNormal full) n) [
        | inl (x, q) ↦ (components full, cc, components-IsNormal full, x)
        | inr (x, q) ↦ absurd (refused-ne-inside e q)
      ]

pub guard_path-IsBelow :
    (workspace path : Text) (cwd : Option Text) {p : Text}
    → components workspace ≢ []
    → guard_path (clean workspace) cwd path ≡ inside p
    → IsBelow workspace p
unfolding guard_path
guard_path-IsBelow workspace path cwd n e = elim (Bool-cases (text_eq path [])) [
  | inl t ↦ ground (arith, t, e)
  | inr t ↦ guard_absolute-IsBelow workspace (absolute cwd path) n (ground (arith, t, e))
]
