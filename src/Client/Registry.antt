-- ===== src/Client/Registry.antt =====
-- client/inflight.go: the registry of commands in flight. Each function is the body of a method
-- between `mu.Lock` and `mu.Unlock`. Times are nanoseconds of the registry's clock, and the channel
-- `waitCh` is the number of times it has been replaced.
pub mod Counts
pub mod Capacity
pub mod Laws
mod Tests
use vectrify_agent_runner.Base.{
  ℕ, suc, ◌+◌, ◌-◌, ◌≡◌, Bool, true, false, ◌&&◌, ◌||◌, not, Option, none, some, List, [], ◌∷◌,
  Text, leb, ltb, if◌then◌else◌, lookup, insert, erase,
}
use vectrify_agent_runner.Client.Classify.{CommandClass, classify_command, is_heavy}

pub record Entry : Type 0 where
  pub cmd_type : Text
  pub class : CommandClass
  pub start : ℕ
  pub ref_count : ℕ
  pub warned_stale : Bool

abbrev pub Entries : Type 0
Entries = List (Text × Entry)

pub record Registry : Type 0 where
  pub entries : Entries
  pub wait_ch : ℕ

unfoldable pub new_registry : Registry
new_registry = record { entries = []; wait_ch = 0 }

-- The loop of `countsLocked`.
unfoldable pub counts_from : ℕ → ℕ → Entries → ℕ × ℕ
counts_from global heavy [] = (global, heavy)
counts_from global heavy ((id, e) ∷ es) =
    counts_from (global + e.ref_count) (if is_heavy e.class then heavy + e.ref_count else heavy) es

unfoldable pub counts_locked : Registry → ℕ × ℕ
unfolding counts_from
counts_locked r = counts_from 0 0 r.entries

-- The loop of `count`.
unfoldable pub count_from : ℕ → Entries → ℕ
count_from n [] = n
count_from n ((id, e) ∷ es) = count_from (n + e.ref_count) es

unfoldable pub count : Registry → ℕ
unfolding count_from
count r = count_from 0 r.entries

-- `BlockedBy`: the two strings "global" and "heavy".
pub data Limit : Type 0 where
  global heavy : Limit

-- One round of the loop of `acquire`: a slot (and whether the id was a duplicate), or the reason,
-- the counts and the channel with which the caller goes to sleep.
pub data Attempt : Type 0 where
  admitted : Bool → Registry → Attempt
  blocked : Limit → ℕ → ℕ → ℕ → Attempt

abbrev pub effective_class : Option Entry → Text → CommandClass
effective_class none cmd_type = classify_command cmd_type
effective_class (some existing) cmd_type = existing.class

-- The writes of `acquire` once there is capacity.
unfoldable pub admit : Registry → ℕ → Text → Text → Option Entry → Attempt
admit r now id cmd_type (some existing) = admitted true (record r {
  entries = insert id (record existing { ref_count = existing.ref_count + 1 }) r.entries;
})
admit r now id cmd_type none = admitted false (record r {
  entries =
      insert id
        (record {
          cmd_type = cmd_type;
          class = classify_command cmd_type;
          start = now;
          ref_count = 1;
          warned_stale = false;
        })
        r.entries;
})

abbrev pub global_full : ℕ × ℕ → ℕ → Bool
global_full counts max_global = leb max_global counts.0

abbrev pub heavy_full : ℕ × ℕ → CommandClass → ℕ → Bool
heavy_full counts class max_heavy = is_heavy class && leb max_heavy counts.1

unfoldable pub try_acquire : Registry → ℕ → Text → Text → ℕ → ℕ → Attempt
unfolding admit
try_acquire r now id cmd_type max_global max_heavy =
    let existing = lookup id r.entries in
    let class = effective_class existing cmd_type in
    let counts = counts_locked r in
    if not (global_full counts max_global) && not (heavy_full counts class max_heavy)
    then admit r now id cmd_type existing
    else blocked (if heavy_full counts class max_heavy then Limit.heavy else Limit.global) counts.0
        counts.1 r.wait_ch

-- The part of `remove` behind its guard.
unfoldable pub release : Registry → Text → Entry → Registry
release r id e =
    let refs = e.ref_count - 1 in
    record {
      entries =
          if leb refs 0
          then erase id r.entries
          else insert id (record e { ref_count = refs }) r.entries;
      wait_ch = suc r.wait_ch;
    }

unfoldable pub remove : Registry → Text → Registry
unfolding release
remove r id = elim (lookup id r.entries) [ none ↦ r | some e ↦ release r id e ]
