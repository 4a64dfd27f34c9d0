-- ===== src/Cache.antt =====
-- packages/cache/src/memory.ts: the cache held in the process. Expiry is lazy.
pub mod Reads
pub mod Through
pub mod Alike
pub mod Refinement
use btravstack.Common.{
  ℕ, ◌+◌, String, Bool, true, false, Option, none, some, List, [], get, set, delete, leb,
  if◌then◌else◌, string_eq,
}

pub record Entry (V : Type 0) : Type 0 where
  pub value : V
  pub expires_at : Option ℕ

-- `clock.now() >= entry.expiresAt`.
abbrev pub is_over : ℕ → Option ℕ → Bool
is_over now none = false
is_over now (some at) = leb at now

module _ {V : Type 0} where
  pub read_entry :
      String → ℕ → List (String × Entry V) → Option (Entry V) → Option V × List (String × Entry V)
  read_entry key now entries none = (none, entries)
  read_entry key now entries (some entry) =
      if is_over now entry.expires_at
      then (none, delete key entries)
      else (some entry.value, entries)

  pub read : String → ℕ → List (String × Entry V) → Option V × List (String × Entry V)
  read key now entries = read_entry key now entries (get key entries)

  abbrev pub entry_of : V → Option ℕ → ℕ → Entry V
  entry_of value ttl_ms now = record {
    value = value;
    expires_at = elim ttl_ms [ none ↦ none | some ttl ↦ some (now + ttl) ];
  }

  pub write : String → V → Option ℕ → ℕ → List (String × Entry V) → List (String × Entry V)
  write key value ttl_ms now entries = set key (entry_of value ttl_ms now) entries

  pub remove : String → List (String × Entry V) → List (String × Entry V)
  remove key entries = delete key entries
