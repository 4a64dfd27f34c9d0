-- ===== src/Cache/Through.antt =====
-- packages/cache/src/cache.ts: `readThrough`, which derives `getOrSet` from any backend and reads a
-- time to live one way. A number is given as `Math.round` leaves it.
use btravstack.Common.{
  ℕ, ◌&&◌, String, Option, none, some, List, leb, if◌then◌else◌, Result, ok, fail,
}
use btravstack.Config.{Number, whole, broken, pos, negsuc}
use btravstack.Cache.{Entry, read, write, remove}

-- A backend over a state; each call is given the time, and may find the backend unavailable.
pub record Backend (S V : Type 0) : Type 0 where
  pub find : String → ℕ → S → Result (Unit {0}) (Option V) × S
  pub store : String → V → Option ℕ → ℕ → S → Result (Unit {0}) (Unit {0}) × S
  pub drop : String → S → Result (Unit {0}) (Unit {0}) × S

-- `wholeMs`, of a time to live that is given.
unfoldable pub whole_ms : Number → Option ℕ
whole_ms (whole (pos ms)) = if leb 1 ms && leb ms 9007199254740991 then some ms else none
whole_ms (whole (negsuc n)) = none
whole_ms (broken tag) = none

module _ {S V : Type 0} (backend : Backend S V) where
  unfoldable pub store_for : String → V → Option ℕ → ℕ → S → Result (Unit {0}) (Unit {0}) × S
  store_for key value none now state = (ok tt, state)
  store_for key value (some ms) now state = backend.store key value (some ms) now state

  -- A time to live that is not a millisecond at least stores nothing.
  unfoldable pub store_through :
      String → V → Option Number → ℕ → S → Result (Unit {0}) (Unit {0}) × S
  store_through key value none now state = backend.store key value none now state
  store_through key value (some ttl) now state = store_for key value (whole_ms ttl) now state

  unfoldable pub load_through :
      {E : Type 0} → String → Result E V → Option Number → ℕ → S → Result E V × S
  load_through key (fail error) ttl now state = (fail error, state)
  load_through key (ok value) ttl now state = (ok value, (store_through key value ttl now state).1)

  -- An unavailable backend is a miss, and a failed write leaves the loaded value.
  unfoldable pub after_find :
      {E : Type 0}
      → String
      → Result E V
      → Option Number
      → ℕ
      → Result (Unit {0}) (Option V)
      → S
      → Result E V × S
  after_find key loaded ttl now (ok (some value)) state = (ok value, state)
  after_find key loaded ttl now (ok none) state = load_through key loaded ttl now state
  after_find key loaded ttl now (fail unavailable) state = load_through key loaded ttl now state

  unfoldable pub get_or_set :
      {E : Type 0} → String → Result E V → Option Number → ℕ → S → Result E V × S
  get_or_set key loaded ttl now state =
      let found = backend.find key now state in after_find key loaded ttl now found.0 found.1

-- `memoryCacheBackend`, which is always there.
abbrev pub memory_backend : {V : Type 0} → Backend (List (String × Entry V)) V
memory_backend = record {
  find = λ key now entries. (ok (read key now entries).0, (read key now entries).1);
  store = λ key value ttl_ms now entries. (ok tt, write key value ttl_ms now entries);
  drop = λ key entries. (ok tt, remove key entries);
}
