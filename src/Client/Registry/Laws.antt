-- ===== src/Client/Registry/Laws.antt =====
-- What one call of the registry does to it: its entries, its counts and its channel.
use vectrify_agent_runner.Base.{
  ℕ, suc, ◌+◌, ◌-◌, ◌≤◌, ◌<◌, ◌≡◌, inl, inr, Bool, true, false, Option, none, some, Text, text_eq,
  text_eq_iff, subst, sym, leb, arith, lookup, insert, lookup-insert, lookup-erase, IsDict,
  AllValues, insert-IsDict, erase-IsDict, insert-AllValues, erase-AllValues, lookup-AllValues,
  total-insert, total-erase, weight, Bool-cases,
}
use vectrify_agent_runner.Client.Classify.{classify_command, is_heavy}
use vectrify_agent_runner.Client.Registry.{
  Entry, Registry, admitted, blocked, Limit, admit, effective_class, try_acquire, release, remove,
  new_registry,
}
use vectrify_agent_runner.Client.Registry.Counts.{
  units, heavy_units, active, active_heavy, counts_locked-active,
}

-- The reference count under an id, 0 if there is no entry.
abbrev pub refs : Text → Registry → ℕ
refs id r = weight units (lookup id r.entries)

-- An entry holds at least one unit, and its class is that of its type.
pub record IsTracked (e : Entry) : Type 0 where
  pub counted : 0 < e.ref_count
  pub classified : e.class ≡ classify_command e.cmd_type

pub record IsValid (r : Registry) : Type 0 where
  pub keyed : IsDict r.entries
  pub tracked : AllValues IsTracked r.entries

pub new_registry-IsValid : IsValid new_registry
unfolding new_registry
new_registry-IsValid = record { keyed = tt; tracked = tt }

-- The counts that `try_acquire` sees.
pub record Admits (r : Registry) (id cmd_type : Text) (max_global max_heavy : ℕ) : Type 0 where
  pub global_room : active r < max_global
  pub heavy_room :
      is_heavy (effective_class (lookup id r.entries) cmd_type) ≡ true → active_heavy r < max_heavy

module _ (r : Registry) (now : ℕ) (id cmd_type : Text) (max_global max_heavy : ℕ) where
  -- The guard of `acquire` in terms of the sums.
  pub try_acquire-Admits_of :
      Admits r id cmd_type max_global max_heavy
      → try_acquire r now id cmd_type max_global max_heavy
        ≡ admit r now id cmd_type (lookup id r.entries)
  unfolding try_acquire
  try_acquire-Admits_of a = rw (counts_locked-active r) (ground arith)

  pub try_acquire-admitted :
      {d : Bool} {r' : Registry}
      → try_acquire r now id cmd_type max_global max_heavy ≡ admitted d r'
      → Admits r id cmd_type max_global max_heavy
        × (admit r now id cmd_type (lookup id r.entries) ≡ admitted d r')
  unfolding try_acquire
  try_acquire-admitted e = ground (arith, counts_locked-active r)

  pub try_acquire-blocked :
      {by : Limit} {g h w : ℕ}
      → try_acquire r now id cmd_type max_global max_heavy ≡ blocked by g h w
      → (g ≡ active r)
        × (h ≡ active_heavy r)
        × (w ≡ r.wait_ch)
        × (by ≡ Limit.heavy → max_heavy ≤ h)
        × (by ≡ Limit.global → max_global ≤ g)
  unfolding try_acquire
  try_acquire-blocked e = ground (arith, counts_locked-active r)

-- One unit if the test holds.
abbrev pub one_if : Bool → ℕ
one_if true = 1
one_if false = 0

-- The entry that `acquire` writes.
abbrev admitted_entry : ℕ → Text → Option Entry → Entry
admitted_entry now cmd_type none = record {
  cmd_type = cmd_type;
  class = classify_command cmd_type;
  start = now;
  ref_count = 1;
  warned_stale = false;
}
admitted_entry now cmd_type (some e) = record e { ref_count = e.ref_count + 1 }

admitted_entry-IsTracked :
    (r : Registry) (now : ℕ) (id cmd_type : Text) (o : Option Entry)
    → lookup id r.entries ≡ o
    → AllValues IsTracked r.entries
    → IsTracked (admitted_entry now cmd_type o)
admitted_entry-IsTracked r now id cmd_type none o t = ground arith
admitted_entry-IsTracked r now id cmd_type (some x) o t =
    ground (arith, lookup-AllValues IsTracked id r.entries t o)

module _ (r : Registry) (now : ℕ) (id cmd_type : Text) {d : Bool} {r' : Registry} where
  admit-entries :
      (o : Option Entry)
      → admit r now id cmd_type o ≡ admitted d r'
      → r' ≡ record r { entries = insert id (admitted_entry now cmd_type o) r.entries }
  unfolding admit
  admit-entries none e = cc
  admit-entries (some x) e = cc

  pub admit-active :
      (o : Option Entry)
      → lookup id r.entries ≡ o
      → admit r now id cmd_type o ≡ admitted d r'
      → (active r' ≡ active r + 1)
        × (active_heavy r' ≡ active_heavy r + one_if (is_heavy (effective_class o cmd_type)))
        × (r'.wait_ch ≡ r.wait_ch)
  admit-active none o e = ground (
    arith,
    admit-entries none e,
    total-insert units id (admitted_entry now cmd_type none) r.entries,
    total-insert heavy_units id (admitted_entry now cmd_type none) r.entries,
  )
  admit-active (some x) o e = ground (
    arith,
    admit-entries (some x) e,
    total-insert units id (admitted_entry now cmd_type (some x)) r.entries,
    total-insert heavy_units id (admitted_entry now cmd_type (some x)) r.entries,
  )

  pub admit-refs :
      (o : Option Entry)
      → lookup id r.entries ≡ o
      → admit r now id cmd_type o ≡ admitted d r'
      → (j : Text) → refs j r' ≡ refs j r + one_if (text_eq id j)
  admit-refs none o e j = ground (
    arith,
    admit-entries none e,
    lookup-insert id j (admitted_entry now cmd_type none) r.entries,
    text_eq_iff id j,
  )
  admit-refs (some x) o e j = ground (
    arith,
    admit-entries (some x) e,
    lookup-insert id j (admitted_entry now cmd_type (some x)) r.entries,
    text_eq_iff id j,
  )

  pub admit-IsValid :
      (o : Option Entry)
      → lookup id r.entries ≡ o
      → admit r now id cmd_type o ≡ admitted d r'
      → IsValid r
      → IsValid r'
  admit-IsValid o l e v = subst IsValid (sym (admit-entries o e)) (record {
    keyed = insert-IsDict id _ r.entries v.keyed;
    tracked =
        insert-AllValues IsTracked id _ r.entries
          (admitted_entry-IsTracked r now id cmd_type o l v.tracked) v.tracked;
  })

-- `remove` of an id that is not tracked is a no-op.
pub remove_missing : (r : Registry) (id : Text) → lookup id r.entries ≡ none → remove r id ≡ r
unfolding remove
remove_missing r id e = ground arith

module _ (r : Registry) (id : Text) (v : IsValid r) {e : Entry}
    (l : lookup id r.entries ≡ some e) where
  pub remove-release : remove r id ≡ release r id e
  unfolding remove
  remove-release = rw (l, remove)

  entry-IsTracked : IsTracked e
  entry-IsTracked = lookup-AllValues IsTracked id r.entries v.tracked l

  -- A tracked id gives back one unit, and every sleeper is woken.
  pub remove-active :
      (active (remove r id) + 1 ≡ active r)
      × (active_heavy (remove r id) + one_if (is_heavy e.class) ≡ active_heavy r)
      × ((remove r id).wait_ch ≡ suc r.wait_ch)
  unfolding release
  remove-active = rw remove-release (
      ground (
        arith,
        l,
        entry-IsTracked,
        total-erase units id r.entries,
        total-erase heavy_units id r.entries,
        total-insert units id (record e { ref_count = e.ref_count - 1 }) r.entries,
        total-insert heavy_units id (record e { ref_count = e.ref_count - 1 }) r.entries,
      ))

  pub remove-refs : (j : Text) → refs j (remove r id) + one_if (text_eq id j) ≡ refs j r
  unfolding release
  remove-refs j = rw remove-release (
      ground (
        arith,
        l,
        entry-IsTracked,
        text_eq_iff id j,
        lookup-erase id j r.entries v.keyed,
        lookup-insert id j (record e { ref_count = e.ref_count - 1 }) r.entries,
      ))

  pub remove-IsValid : IsValid (remove r id)
  unfolding release
  remove-IsValid = rw remove-release elim (Bool-cases (leb (e.ref_count - 1) 0)) [
    | inl last ↦ rw last (record {
      keyed = erase-IsDict id r.entries v.keyed;
      tracked = erase-AllValues IsTracked id r.entries v.tracked;
    })
    | inr more ↦ rw more (record {
      keyed = insert-IsDict id _ r.entries v.keyed;
      tracked =
          insert-AllValues IsTracked id _ r.entries (ground (arith, entry-IsTracked)) v.tracked;
    })
  ]
