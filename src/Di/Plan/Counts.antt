-- ===== src/Di/Plan/Counts.antt =====
-- What the planner's two maps count: providers by port id.
use btravstack.Common.{
  ℕ, ◌+◌, ◌<◌, ◌≡◌, refl, String, Bool, true, false, not, some, List, [], ◌∷◌, ◌++◌, ok, get,
  get-set, if◌then◌else◌, ◌==◌, string_eq, keep, arith,
}
use btravstack.Di.{Port, Provider}
use btravstack.Di.Flatten.{id_of}
use btravstack.Di.Plan.{count_of, bump, count_providers, bump_all, is_satisfied}

module _ {V E : Type 0} where
  -- How many of the providers are for the port.
  unfoldable pub count : String → List (Provider V E) → ℕ
  count id [] = 0
  count id (p ∷ ps) = (if id_of p == id then 1 else 0) + count id ps

  pub count-append :
      (id : String) (xs ys : List (Provider V E)) → count id (xs ++ ys) ≡ count id xs + count id ys
  unfolding count
  count-append id [] ys = omega arith
  count-append id (x ∷ xs) ys = omega (arith, count-append id xs ys)

  pub count-keep :
      (id : String) (f : Provider V E → Bool) (xs : List (Provider V E))
      → count id (keep f xs) + count id (keep (λ x. not (f x)) xs) ≡ count id xs
  unfolding count
  count-keep id f [] = refl
  count-keep id f (x ∷ xs) = ground (arith, count-keep id f xs)

pub count_of-bump :
    (k j : String) (m : List (String × ℕ))
    → count_of j (bump k m) ≡ (if k == j then 1 else 0) + count_of j m
count_of-bump k j m = ground (arith, get-set k j (count_of k m + 1) m, string_eq.beq_iff k j)

-- Every count that is there is positive.
abbrev pub IsPositive : List (String × ℕ) → Type 0
IsPositive m = (id : String) (n : ℕ) → get id m ≡ some n → 0 < n

bump-IsPositive : (k : String) (m : List (String × ℕ)) → IsPositive m → IsPositive (bump k m)
bump-IsPositive k m pos j n h = ground (arith, get-set k j (count_of k m + 1) m, pos j n)

pub nil-IsPositive : IsPositive []
unfolding get
nil-IsPositive id n h = cc

module _ {V E : Type 0} where
  pub count_of-bump_all :
      (id : String) (ps : List (Provider V E)) (m : List (String × ℕ))
      → count_of id (bump_all ps m) ≡ count id ps + count_of id m
  unfolding bump_all count
  count_of-bump_all id [] m = omega arith
  count_of-bump_all id (p ∷ ps) m =
      omega (arith, count_of-bump_all id ps (bump (id_of p) m), count_of-bump (id_of p) id m)

  -- The first pass counts the providers of each port.
  pub count_of-count_providers :
      (id : String) (ps : List (Provider V E)) (m totals : List (String × ℕ))
      → count_providers m ps ≡ ok totals
      → count_of id totals ≡ count id ps + count_of id m
  unfolding count_providers count
  count_of-count_providers id [] m totals h = ground arith
  count_of-count_providers id (p ∷ ps) m totals h = ground (
    arith,
    count_of-count_providers id ps (bump (id_of p) m) totals,
    count_of-bump (id_of p) id m,
  )

  pub count_providers-IsPositive :
      (ps : List (Provider V E)) (m totals : List (String × ℕ))
      → count_providers m ps ≡ ok totals
      → IsPositive m
      → IsPositive totals
  unfolding count_providers
  count_providers-IsPositive [] m totals h pos = let e : m ≡ totals = ground arith in rw (← e) pos
  count_providers-IsPositive (p ∷ ps) m totals h pos =
      count_providers-IsPositive ps (bump (id_of p) m) totals (ground arith)
        (bump-IsPositive (id_of p) m pos)

-- The planner's test says that no provider for the port is left to place.
pub is_satisfied-left :
    (totals counts : List (String × ℕ)) (d : Port) (left : ℕ)
    → count_of d.port_id totals ≡ count_of d.port_id counts + left
    → is_satisfied totals counts d ≡ true
    → left ≡ 0
is_satisfied-left totals counts d left e h = ground arith

pub not-is_satisfied-left :
    (totals counts : List (String × ℕ)) (d : Port) (left : ℕ)
    → IsPositive totals
    → count_of d.port_id totals ≡ count_of d.port_id counts + left
    → is_satisfied totals counts d ≡ false
    → 0 < left
not-is_satisfied-left totals counts d left pos e h =
    ground (arith, pos d.port_id (count_of d.port_id totals))
