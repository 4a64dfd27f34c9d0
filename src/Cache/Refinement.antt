-- ===== src/Cache/Refinement.antt =====
-- The in-process cache behind `readThrough` against a cache that forgets nothing: a function from keys
-- to what was written last, of which a read sees what has not run out.
use btravstack.Common.{
  ◌≡◌, refl, ap, subst, ℕ, ◌≤◌, String, Option, none, some, List, [], ◌∷◌, get, string_eq, arith,
  Result, ok, fail,
}
use btravstack.Config.{Number}
use btravstack.Cache.{Entry, read, remove}
use btravstack.Cache.Through.{store_through, load_through, after_find, get_or_set, memory_backend}
use btravstack.Cache.Alike.{
  visible, put, put_through, IsAlike, read-IsAlike, remove-IsAlike, store_through-IsAlike,
}

-- A call: its key, and for a load what the load would answer.
pub data Op (E V : Type 0) : Type 0 where
  find drop : String → Op E V
  store : String → V → Option Number → Op E V
  load : String → Result E V → Option Number → Op E V

pub data Reply (E V : Type 0) : Type 0 where
  found : Option V → Reply E V
  done : Reply E V
  loaded : Result E V → Reply E V

module _ {E V : Type 0} where
  -- One call of the cache, at a time.
  unfoldable pub call : Op E V → ℕ → List (String × Entry V) → Reply E V × List (String × Entry V)
  call (find key) now entries = (found (read key now entries).0, (read key now entries).1)
  call (drop key) now entries = (done, remove key entries)
  call (store key value ttl) now entries =
      (done, (store_through memory_backend key value ttl now entries).1)
  call (load key result ttl) now entries =
      let after = get_or_set memory_backend key result ttl now entries in (loaded after.0, after.1)

  unfoldable pub call_all : List (Op E V × ℕ) → List (String × Entry V) → List (Reply E V)
  call_all [] entries = []
  call_all ((op, now) ∷ ops) entries =
      let after = call op now entries in after.0 ∷ call_all ops after.1

  abbrev put_loaded :
      String
      → Option V
      → Result E V
      → Option Number
      → ℕ
      → (String → Option (Entry V))
      → Reply E V × (String → Option (Entry V))
  put_loaded key (some value) result ttl now cells = (loaded (ok value), cells)
  put_loaded key none (fail error) ttl now cells = (loaded (fail error), cells)
  put_loaded key none (ok value) ttl now cells =
      (loaded (ok value), put_through key value ttl now cells)

  -- The same call of the cache that forgets nothing.
  unfoldable pub ideal_call :
      Op E V → ℕ → (String → Option (Entry V)) → Reply E V × (String → Option (Entry V))
  ideal_call (find key) now cells = (found (visible (cells key) now), cells)
  ideal_call (drop key) now cells = (done, put key none cells)
  ideal_call (store key value ttl) now cells = (done, put_through key value ttl now cells)
  ideal_call (load key result ttl) now cells =
      put_loaded key (visible (cells key) now) result ttl now cells

  unfoldable pub ideal_all : List (Op E V × ℕ) → (String → Option (Entry V)) → List (Reply E V)
  ideal_all [] cells = []
  ideal_all ((op, now) ∷ ops) cells =
      let after = ideal_call op now cells in after.0 ∷ ideal_all ops after.1

  -- The times of the calls do not fall.
  abbrev pub IsTimed : ℕ → List (Op E V × ℕ) → Type 0
  IsTimed from [] = Unit
  IsTimed from ((op, now) ∷ ops) = (from ≤ now) × IsTimed now ops

  abbrev IsMatched :
      ℕ → Reply E V × List (String × Entry V) → Reply E V × (String → Option (Entry V)) → Type 0
  IsMatched now real ideal = (real.0 ≡ ideal.0) × IsAlike now real.1 ideal.1

  after_find-IsMatched :
      (key : String) (result : Result E V) (ttl : Option Number) (now : ℕ) (hit : Option V)
      (entries : List (String × Entry V)) (cells : String → Option (Entry V))
      → IsAlike now entries cells
      → IsMatched now
          (let after = after_find memory_backend key result ttl now (ok hit) entries in
            (loaded after.0, after.1))
          (put_loaded key hit result ttl now cells)
  unfolding after_find load_through
  after_find-IsMatched key result ttl now (some value) entries cells alike = (refl, alike)
  after_find-IsMatched key (fail error) ttl now none entries cells alike = (refl, alike)
  after_find-IsMatched key (ok value) ttl now none entries cells alike =
      (refl, store_through-IsAlike key value ttl now entries cells alike)

  call-IsMatched :
      (op : Op E V) (now : ℕ) (entries : List (String × Entry V))
      (cells : String → Option (Entry V))
      → IsAlike now entries cells
      → IsMatched now (call op now entries) (ideal_call op now cells)
  unfolding call ideal_call get_or_set
  call-IsMatched (find key) now entries cells alike =
      let (answer, rest) = read-IsAlike key now entries cells alike in
      (ap (λ hit. found hit) answer, rest)
  call-IsMatched (drop key) now entries cells alike =
      (refl, remove-IsAlike key now entries cells alike)
  call-IsMatched (store key value ttl) now entries cells alike =
      (refl, store_through-IsAlike key value ttl now entries cells alike)
  call-IsMatched (load key result ttl) now entries cells alike =
      let (answer, rest) = read-IsAlike key now entries cells alike in
      subst
        (λ hit.
          IsMatched now
            (let after =
                after_find memory_backend key result ttl now (ok (read key now entries).0)
                  (read key now entries).1 in
              (loaded after.0, after.1))
            (put_loaded key hit result ttl now cells))
        answer
        (after_find-IsMatched key result ttl now (read key now entries).0 (read key now entries).1
          cells rest)

  calls-alike :
      (from : ℕ) (ops : List (Op E V × ℕ)) (entries : List (String × Entry V))
      (cells : String → Option (Entry V))
      → IsTimed from ops
      → IsAlike from entries cells
      → call_all ops entries ≡ ideal_all ops cells
  unfolding call_all ideal_all
  calls-alike from [] entries cells timed alike = refl
  calls-alike from ((op, now) ∷ ops) entries cells (after, timed) alike =
      let (reply, rest) =
        call-IsMatched op now entries cells
          (λ key later past. alike key later (omega (arith, after, past))) in
      cc (reply, calls-alike now ops (call op now entries).1 (ideal_call op now cells).1 timed rest)

  -- At times that do not fall, every sequence of finds, stores, removals and loads through the cache in
  -- the process, which drops what ran out as it is read, is answered exactly as by a cache that forgets
  -- nothing.
  pub call_all-refines :
      (from : ℕ) (ops : List (Op E V × ℕ))
      → IsTimed from ops
      → call_all ops [] ≡ ideal_all ops (λ key. none)
  unfolding get
  call_all-refines from ops timed =
      calls-alike from ops [] (λ key. none) timed (λ key later past. refl)
