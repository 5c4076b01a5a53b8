-- ===== src/Client/Registry/Counts.antt =====
-- What the counting loops of the registry compute: sums of the reference counts.
use vectrify_agent_runner.Base.{ℕ, ◌+◌, ◌≡◌, [], ◌∷◌, if◌then◌else◌, arith, total}
use vectrify_agent_runner.Client.Classify.{is_heavy}
use vectrify_agent_runner.Client.Registry.{
  Entry, Entries, Registry, counts_from, counts_locked, count_from, count,
}

-- The units of all commands, and of the heavy ones.
abbrev pub units : Entry → ℕ
units e = e.ref_count

abbrev pub heavy_units : Entry → ℕ
heavy_units e = if is_heavy e.class then e.ref_count else 0

abbrev pub light_units : Entry → ℕ
light_units e = if is_heavy e.class then 0 else e.ref_count

abbrev pub active : Registry → ℕ
active r = total units r.entries

abbrev pub active_heavy : Registry → ℕ
active_heavy r = total heavy_units r.entries

abbrev pub active_light : Registry → ℕ
active_light r = total light_units r.entries

counts_from-total :
    (g h : ℕ) (es : Entries) → counts_from g h es ≡ (g + total units es, h + total heavy_units es)
unfolding counts_from
counts_from-total g h [] = ground arith
counts_from-total g h ((id, e) ∷ es) = ground (
  arith,
  counts_from-total (g + e.ref_count) h es,
  counts_from-total (g + e.ref_count) (h + e.ref_count) es,
)

pub counts_locked-active : (r : Registry) → counts_locked r ≡ (active r, active_heavy r)
unfolding counts_locked
counts_locked-active r = ground (arith, counts_from-total 0 0 r.entries)

count_from-total : (n : ℕ) (es : Entries) → count_from n es ≡ n + total units es
unfolding count_from
count_from-total n [] = ground arith
count_from-total n ((id, e) ∷ es) = ground (arith, count_from-total (n + e.ref_count) es)

pub count-active : (r : Registry) → count r ≡ active r
unfolding count
count-active r = ground (arith, count_from-total 0 r.entries)

split_from : (es : Entries) → total units es ≡ total heavy_units es + total light_units es
split_from [] = omega arith
split_from ((id, e) ∷ es) = ground (arith, split_from es)

-- Every unit is either heavy or light.
pub active_split : (r : Registry) → active r ≡ active_heavy r + active_light r
active_split r = split_from r.entries
