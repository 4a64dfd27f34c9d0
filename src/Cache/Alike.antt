-- ===== src/Cache/Alike.antt =====
-- When the in-process cache shows what a cache that forgets nothing shows, and that each call of it
-- leaves the two so.
use btravstack.Common.{
  ◌≡◌, refl, sym, ap, subst, ◌∙◌, ℕ, ◌≤◌, String, true, Option, none, some, List, get, delete,
  get-set, get-delete, if◌then◌else◌, string_eq, ◌==◌, Bool-cases, eq_of_beq, inl, inr, arith,
}
use btravstack.Config.{Number}
use btravstack.Cache.{Entry, is_over, entry_of, read, read_entry, write, remove}
use btravstack.Cache.Through.{whole_ms, store_for, store_through, memory_backend}

is_over-later :
    (at : Option ℕ) (now later : ℕ) → now ≤ later → is_over now at ≡ true → is_over later at ≡ true
is_over-later none now later after over = over
is_over-later (some at) now later after over = ground arith

module _ {V : Type 0} where
  -- What is seen of an entry at a time.
  unfoldable pub visible : Option (Entry V) → ℕ → Option V
  visible none now = none
  visible (some entry) now = if is_over now entry.expires_at then none else some entry.value

  abbrev pub put :
      String → Option (Entry V) → (String → Option (Entry V)) → String → Option (Entry V)
  put key cell cells other = if key == other then cell else cells other

  -- What a store leaves of a time to live: the value forever, for a time, or nothing.
  abbrev pub put_for :
      String → V → Option ℕ → ℕ → (String → Option (Entry V)) → String → Option (Entry V)
  put_for key value none now cells = cells
  put_for key value (some ms) now cells = put key (some (entry_of value (some ms) now)) cells

  abbrev pub put_through :
      String → V → Option Number → ℕ → (String → Option (Entry V)) → String → Option (Entry V)
  put_through key value none now cells = put key (some (entry_of value none now)) cells
  put_through key value (some ttl) now cells = put_for key value (whole_ms ttl) now cells

  -- From a time on, the two show the same under every key.
  abbrev pub IsAlike : ℕ → List (String × Entry V) → (String → Option (Entry V)) → Type 0
  IsAlike now entries cells =
      (key : String) (later : ℕ)
      → now ≤ later
      → visible (get key entries) later ≡ visible (cells key) later

  visible-later :
      (cell : Option (Entry V)) (now later : ℕ)
      → now ≤ later
      → visible cell now ≡ none
      → visible cell later ≡ none
  unfolding visible
  visible-later none now later after e = refl
  visible-later (some entry) now later after e =
      ground (arith, e, is_over-later entry.expires_at now later after)

  -- An entry that ran out may be forgotten.
  gone-IsAlike :
      (key : String) (now : ℕ) (entries : List (String × Entry V))
      (cells : String → Option (Entry V))
      → visible (get key entries) now ≡ none
      → IsAlike now entries cells
      → IsAlike now (delete key entries) cells
  unfolding visible
  gone-IsAlike key now entries cells gone alike other later after =
      ap (λ cell. visible cell later) (get-delete key other entries)
      ∙ elim (Bool-cases (key == other)) [
        | inl e ↦ rw e (
            sym (visible-later (get key entries) now later after gone)
            ∙ subst (λ k. visible (get key entries) later ≡ visible (cells k) later)
                (eq_of_beq key other e) (alike key later after))
        | inr e ↦ rw e (alike other later after)
      ]

  entry-IsAlike :
      (key : String) (now : ℕ) (entries : List (String × Entry V))
      (cells : String → Option (Entry V)) (found : Option (Entry V))
      → get key entries ≡ found
      → IsAlike now entries cells
      → ((read_entry key now entries found).0 ≡ visible found now)
        × IsAlike now (read_entry key now entries found).1 cells
  unfolding read_entry visible
  entry-IsAlike key now entries cells none is alike = (refl, alike)
  entry-IsAlike key now entries cells (some entry) is alike =
      elim (Bool-cases (is_over now entry.expires_at)) [
        | inl over ↦ rw over (
          refl,
          gone-IsAlike key now entries cells (ap (λ cell. visible cell now) is ∙ rw over refl)
              alike,
        )
        | inr lasts ↦ rw lasts (refl, alike)
      ]

  pub read-IsAlike :
      (key : String) (now : ℕ) (entries : List (String × Entry V))
      (cells : String → Option (Entry V))
      → IsAlike now entries cells
      → ((read key now entries).0 ≡ visible (cells key) now)
        × IsAlike now (read key now entries).1 cells
  unfolding read
  read-IsAlike key now entries cells alike =
      let (answer, rest) = entry-IsAlike key now entries cells (get key entries) refl alike in
      (answer ∙ alike key now (omega arith), rest)

  pub write-IsAlike :
      (key : String) (value : V) (ttl : Option ℕ) (now : ℕ) (entries : List (String × Entry V))
      (cells : String → Option (Entry V))
      → IsAlike now entries cells
      → IsAlike now
          (write key value ttl now entries)
          (put key (some (entry_of value ttl now)) cells)
  unfolding write
  write-IsAlike key value ttl now entries cells alike other later after =
      ground (arith, get-set key other (entry_of value ttl now) entries, alike other later after)

  pub remove-IsAlike :
      (key : String) (now : ℕ) (entries : List (String × Entry V))
      (cells : String → Option (Entry V))
      → IsAlike now entries cells
      → IsAlike now (remove key entries) (put key none cells)
  unfolding remove
  remove-IsAlike key now entries cells alike other later after =
      ground (arith, get-delete key other entries, alike other later after)

  store_for-IsAlike :
      (key : String) (value : V) (ms : Option ℕ) (now : ℕ) (entries : List (String × Entry V))
      (cells : String → Option (Entry V))
      → IsAlike now entries cells
      → IsAlike now
          (store_for memory_backend key value ms now entries).1
          (put_for key value ms now cells)
  unfolding store_for
  store_for-IsAlike key value none now entries cells alike = alike
  store_for-IsAlike key value (some ms) now entries cells alike =
      write-IsAlike key value (some ms) now entries cells alike

  pub store_through-IsAlike :
      (key : String) (value : V) (ttl : Option Number) (now : ℕ) (entries : List (String × Entry V))
      (cells : String → Option (Entry V))
      → IsAlike now entries cells
      → IsAlike now
          (store_through memory_backend key value ttl now entries).1
          (put_through key value ttl now cells)
  unfolding store_through
  store_through-IsAlike key value none now entries cells alike =
      write-IsAlike key value none now entries cells alike
  store_through-IsAlike key value (some ttl) now entries cells alike =
      store_for-IsAlike key value (whole_ms ttl) now entries cells alike
