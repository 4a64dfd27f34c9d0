-- ===== src/Cache/Reads.antt =====
-- What a read of the in-process cache answers.
use btravstack.Common.{
  ℕ, ◌+◌, ◌≡◌, ◌≢◌, String, Bool, true, false, Option, none, some, List, get-set, get-delete, leb,
  if◌then◌else◌, string_eq, arith,
}
use btravstack.Cache.{Entry, entry_of, read, read_entry, write, remove}

abbrev pub still : ℕ → Option ℕ → ℕ → Bool
still later none now = true
still later (some ttl) now = if leb (now + ttl) later then false else true

module _ {V : Type 0} where
  -- A value that was written at `now` is read back later exactly while its time to live has not run
  -- out; a removed key is not found, and a write changes no
  -- other key's read.
  pub read-write :
      (key : String) (value : V) (ttl_ms : Option ℕ) (now later : ℕ)
      (entries : List (String × Entry V))
      → ((read key later (write key value ttl_ms now entries)).0
          ≡ (if still later ttl_ms now then some value else none))
        × ((read key later (remove key entries)).0 ≡ none)
        × ((other : String)
            → other ≢ key
            → (read other later (write key value ttl_ms now entries)).0
              ≡ (read other later entries).0)
  unfolding read read_entry write remove
  read-write key value ttl_ms now later entries = (
    ground (arith, get-set key key (entry_of value ttl_ms now) entries, string_eq.beq_iff key key),
    ground (arith, get-delete key key entries, string_eq.beq_iff key key),
    λ other differs.
        ground (
          arith,
          get-set key other (entry_of value ttl_ms now) entries,
          string_eq.beq_iff key other,
        ),
  )
