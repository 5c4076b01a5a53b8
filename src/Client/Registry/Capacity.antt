-- ===== src/Client/Registry/Capacity.antt =====
-- client/inflight.go, `acquire`: which commands are admitted, and what the limits guarantee.
use mathlib.Core.Option.{some-injective}
use vectrify_agent_runner.Base.{
  text_eq, text_eq_refl, lookup-insert, insert, subst, sym, ap, ◌∙◌, Option, some, ℕ, ◌+◌, ◌≤◌, ◌<◌,
  ◌≡◌, refl, Bool, true, false, none, Text, arith, lookup,
}
use vectrify_agent_runner.Client.Classify.{CommandClass, heavy, is_heavy, classify_command, light}
use vectrify_agent_runner.Client.Registry.{
  Limit, Entry, effective_class, Registry, Attempt, admitted, blocked, admit, try_acquire,
}
use vectrify_agent_runner.Client.Registry.Counts.{active, active_heavy, active_light, active_split}
use vectrify_agent_runner.Client.Registry.Laws.{
  Admits, IsValid, admit-IsValid, admit-active, try_acquire-Admits_of, try_acquire-admitted,
  try_acquire-blocked,
}

abbrev one_more : Entry → Entry
one_more e = record e { ref_count = e.ref_count + 1 }

abbrev new_entry : ℕ → Text → Entry
new_entry now cmd_type = record {
  cmd_type = cmd_type;
  class = classify_command cmd_type;
  start = now;
  ref_count = 1;
  warned_stale = false;
}

abbrev pub is_admitted : Attempt → Bool
is_admitted (admitted d r) = true
is_admitted (blocked by g h w) = false

module _ (r : Registry) (now : ℕ) (id cmd_type : Text) (max_global max_heavy : ℕ) where
  pub Admits-try_acquire :
      Admits r id cmd_type max_global max_heavy
      → is_admitted (try_acquire r now id cmd_type max_global max_heavy) ≡ true
  unfolding admit
  Admits-try_acquire a =
      ground (arith, try_acquire-Admits_of r now id cmd_type max_global max_heavy a)

  try_acquire-Admits :
      (t : Attempt)
      → try_acquire r now id cmd_type max_global max_heavy ≡ t
      → is_admitted t ≡ true
      → Admits r id cmd_type max_global max_heavy
  try_acquire-Admits (admitted d r') e h =
      (try_acquire-admitted r now id cmd_type max_global max_heavy e).0
  try_acquire-Admits (blocked by g w c) e h = cc

  -- A round that reserves a slot takes exactly one unit, keeps the registry well formed, and keeps
  -- both sums within their limits.
  try_acquire-bounded :
      {d : Bool} {r' : Registry}
      → IsValid r
      → active_heavy r ≤ max_heavy
      → try_acquire r now id cmd_type max_global max_heavy ≡ admitted d r'
      → IsValid r'
        × (active r' ≡ active r + 1)
        × (active r' ≤ max_global)
        × (active_heavy r' ≤ max_heavy)
  try_acquire-bounded v h e =
      let (a, p) = try_acquire-admitted r now id cmd_type max_global max_heavy e in
      (
        admit-IsValid r now id cmd_type _ refl p v,
        (admit-active r now id cmd_type _ refl p).0,
        ground (arith, admit-active r now id cmd_type _ refl p),
        ground (arith, admit-active r now id cmd_type _ refl p),
      )

  -- The reservation: while the light commands hold fewer units than the heavy limit leaves of the
  -- global one, a new light command gets a slot at once, however many heavy commands are running.
  light_reserved :
      lookup id r.entries ≡ none
      → classify_command cmd_type ≡ light
      → active_heavy r ≤ max_heavy
      → active_light r + max_heavy < max_global
      → is_admitted (try_acquire r now id cmd_type max_global max_heavy) ≡ true
  light_reserved n c h room = Admits-try_acquire (ground (arith, active_split r))

-- There is a slot: all units are below the global limit, and those of heavy commands are below theirs if
-- the entry that a duplicate joins is heavy, or if there is no entry and the type of the command is.
pub record HasRoom (r : Registry) (id cmd_type : Text) (max_global max_heavy : ℕ) : Type 0 where
  pub below_global : active r < max_global
  pub joins :
      (e : Entry) → lookup id r.entries ≡ some e → e.class ≡ heavy → active_heavy r < max_heavy
  pub opens :
      lookup id r.entries ≡ none → classify_command cmd_type ≡ heavy → active_heavy r < max_heavy

-- What the registry is after a slot was given: a duplicate has one more unit and keeps all else that its
-- entry says, a new command has an entry of its own, and no other identifier is touched.
pub record IsAdmission (r : Registry) (now : ℕ) (id cmd_type : Text) (duplicate : Bool)
    (r' : Registry) : Type 0 where
  pub joined :
      (e : Entry)
      → lookup id r.entries ≡ some e
      → (duplicate ≡ true)
        × (lookup id r'.entries ≡ some (record e { ref_count = e.ref_count + 1 }))
  pub opened :
      lookup id r.entries ≡ none
      → (duplicate ≡ false)
        × (lookup id r'.entries
            ≡ some (record {
              cmd_type = cmd_type;
              class = classify_command cmd_type;
              start = now;
              ref_count = 1;
              warned_stale = false;
            }))
  pub others : (j : Text) → text_eq id j ≡ false → lookup j r'.entries ≡ lookup j r.entries
  pub same_channel : r'.wait_ch ≡ r.wait_ch

is_heavy-heavy : (c : CommandClass) → is_heavy c ≡ true → c ≡ heavy
is_heavy-heavy heavy e = refl
is_heavy-heavy light e = cc

heavy-is_heavy : (c : CommandClass) → c ≡ heavy → is_heavy c ≡ true
heavy-is_heavy c e = ap is_heavy e

module _ (r : Registry) (now : ℕ) (id cmd_type : Text) (max_global max_heavy : ℕ) where
  HasRoom-Admits :
      (o : Option Entry)
      → lookup id r.entries ≡ o
      → HasRoom r id cmd_type max_global max_heavy
      → Admits r id cmd_type max_global max_heavy
  HasRoom-Admits none l h = record {
    global_room = h.below_global;
    heavy_room = λ e. h.opens l (
        is_heavy-heavy (classify_command cmd_type)
          (subst (λ x. is_heavy (effective_class x cmd_type) ≡ true) l e));
  }
  HasRoom-Admits (some x) l h = record {
    global_room = h.below_global;
    heavy_room = λ e.
        h.joins x l
          (is_heavy-heavy x.class (subst (λ x. is_heavy (effective_class x cmd_type) ≡ true) l e));
  }

  Admits-HasRoom :
      Admits r id cmd_type max_global max_heavy → HasRoom r id cmd_type max_global max_heavy
  Admits-HasRoom a = record {
    below_global = a.global_room;
    joins = λ e l c. a.heavy_room (
        subst (λ x. is_heavy (effective_class x cmd_type) ≡ true) (sym l)
          (heavy-is_heavy e.class c));
    opens = λ l c. a.heavy_room (
        subst (λ x. is_heavy (effective_class x cmd_type) ≡ true) (sym l)
          (heavy-is_heavy (classify_command cmd_type) c));
  }

  admit-IsAdmission :
      (o : Option Entry)
      → lookup id r.entries ≡ o
      → (d : Bool) × (r' : Registry) × (admit r now id cmd_type o ≡ admitted d r')
        × IsAdmission r now id cmd_type d r'
  unfolding admit
  admit-IsAdmission none l = (
    false,
    record r { entries = insert id (new_entry now cmd_type) r.entries },
    refl,
    record {
      joined = λ e f. cc;
      opened = λ f. (
        refl,
        lookup-insert id id (new_entry now cmd_type) r.entries ∙ rw (text_eq_refl id) refl,
      );
      others = λ j n. lookup-insert id j (new_entry now cmd_type) r.entries ∙ rw n refl;
      same_channel = refl;
    },
  )
  admit-IsAdmission (some x) l =
      let y : Entry = record x { ref_count = x.ref_count + 1 } in
      (
        true,
        record r { entries = insert id y r.entries },
        refl,
        record {
          joined = λ e f. (
            refl,
            lookup-insert id id y r.entries
                ∙ (rw (text_eq_refl id)
                    (ap (λ z. some (one_more z)) (some-injective _ _ (sym l ∙ f)))),
          );
          opened = λ f. cc;
          others = λ j n. lookup-insert id j y r.entries ∙ rw n refl;
          same_channel = refl;
        },
      )

  blocked-counts :
      (t : Attempt)
      → try_acquire r now id cmd_type max_global max_heavy ≡ t
      → ¬ Admits r id cmd_type max_global max_heavy
      → (by : Limit) × (try_acquire r now id cmd_type max_global max_heavy
          ≡ blocked by (active r) (active_heavy r) r.wait_ch)
        × (by ≡ Limit.heavy → max_heavy ≤ active_heavy r)
        × (by ≡ Limit.global → max_global ≤ active r)
  blocked-counts (admitted d r') e n =
      absurd (n (try_acquire-admitted r now id cmd_type max_global max_heavy e).0)
  blocked-counts (blocked by g h w) e n =
      let (p, q, u, x, y) = try_acquire-blocked r now id cmd_type max_global max_heavy e in
      (
        by,
        e ∙ rw (p, q, u) refl,
        λ f. subst (λ z. max_heavy ≤ z) q (x f),
        λ f. subst (λ z. max_global ≤ z) p (y f),
      )

  -- A round of `acquire` gives a slot where the units of all commands are below the global limit, and,
  -- if the entry that the command joins is heavy, or there is none and the command's type is heavy,
  -- those of the heavy ones are below the heavy limit. A duplicate then has one more unit, a new
  -- command an entry with one, and nothing else changes. In every other case the caller is told the
  -- two sums, the channel to wait on, and a limit that is reached.
  pub try_acquire-IsAdmission :
      (HasRoom r id cmd_type max_global max_heavy
        → (d : Bool) × (r' : Registry) × (try_acquire r now id cmd_type max_global max_heavy
            ≡ admitted d r')
          × IsAdmission r now id cmd_type d r')
      × (¬ HasRoom r id cmd_type max_global max_heavy
          → (by : Limit) × (try_acquire r now id cmd_type max_global max_heavy
              ≡ blocked by (active r) (active_heavy r) r.wait_ch)
            × (by ≡ Limit.heavy → max_heavy ≤ active_heavy r)
            × (by ≡ Limit.global → max_global ≤ active r))
  try_acquire-IsAdmission = (
    λ h.
        let a = HasRoom-Admits (lookup id r.entries) refl h in
        let (d, r', e, s) = admit-IsAdmission (lookup id r.entries) refl in
        (d, r', try_acquire-Admits_of r now id cmd_type max_global max_heavy a ∙ e, s),
    λ n. blocked-counts _ refl (λ a. n (Admits-HasRoom a)),
  )
