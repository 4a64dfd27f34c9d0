-- ===== src/Di/Plan/Checks.antt =====
-- What the checks of `plan` establish, each for the list of resolved providers.
use btravstack.Common.{
  ℕ, ◌<◌, ◌≡◌, ◌≢◌, refl, ap, ◌∙◌, String, Bool, true, false, ◌⊎◌, inl, inr, none, some, List, [],
  ◌∷◌, ok, >>=-eq-ok, get, get-set, if◌then◌else◌, ◌==◌, nat_eq, string_eq, elem, arith, All,
  beq_refl,
}
use btravstack.Di.{Port, Provider}
use btravstack.Di.Flatten.{id_of, IsDistinct}
use btravstack.Di.Plan.{
  scope_id, count_of, bump, same_class, note_port, note_ports, is_supplied, check_deps,
  count_providers, check_all_deps,
}
use btravstack.Di.Plan.Counts.{
  count, nil-IsPositive, count_of-count_providers, count_providers-IsPositive, count_of-bump,
}
use btravstack.Di.Plan.Rounds.{IsRound, nil-IsFresh}

-- One class for each id: ports that share an id are the same class.
abbrev pub HasOneClass : List Port → Type 0
HasOneClass [] = Unit
HasOneClass (p ∷ ps) =
    All (λ q. p.port_id ≡ q.port_id → p.class_ref ≡ q.class_ref) ps × HasOneClass ps

get-note_port :
    (q : Port) (j : String) (m m' : List (String × ℕ))
    → note_port q m ≡ ok m'
    → (get j m' ≡ (if q.port_id == j then some q.class_ref else get j m))
      × (same_class (get q.port_id m) q.class_ref ≡ true)
get-note_port q j m m' h = ground (arith, get-set q.port_id j q.class_ref m)

noted_same :
    (id : String) (c : ℕ) (ports : List Port) (class_of noted : List (String × ℕ))
    → note_ports ports class_of ≡ ok noted
    → get id class_of ≡ some c
    → All (λ q. id ≡ q.port_id → c ≡ q.class_ref) ports
unfolding note_ports
noted_same id c [] class_of noted h g = tt
noted_same id c (q ∷ ports) class_of noted h g =
    let (class_of', one, rest) = >>=-eq-ok (note_port q class_of) _ h in
    (
      λ e. ground (arith, ap (λ i. get i class_of) e, get-note_port q id class_of class_of' one),
      noted_same id c ports class_of' noted rest (
          ground (
            arith,
            get-note_port q id class_of class_of' one,
            λ (e : q.port_id ≡ id). ap (λ i. get i class_of) e,
            string_eq.beq_iff q.port_id id,
          )),
    )

pub note_ports-HasOneClass :
    (ports : List Port) (class_of noted : List (String × ℕ))
    → note_ports ports class_of ≡ ok noted
    → HasOneClass ports
unfolding note_ports
note_ports-HasOneClass [] class_of noted h = tt
note_ports-HasOneClass (p ∷ ports) class_of noted h =
    let (class_of', one, rest) = >>=-eq-ok (note_port p class_of) _ h in
    (
      noted_same p.port_id p.class_ref ports class_of' noted rest
          ((get-note_port p p.port_id class_of class_of' one).0 ∙ rw (beq_refl p.port_id) refl),
      note_ports-HasOneClass ports class_of' noted rest,
    )

get-nil : (id : String) → get {V = ℕ} id [] ≡ none
unfolding get
get-nil id = refl

pub count_of-nil : (id : String) → count_of id [] ≡ 0
count_of-nil id = ground (arith, get-nil id)

module _ {V E : Type 0} where
  -- After `seen`, no provider is for `Scope`, and no ordinary port gets a second provider.
  abbrev pub IsUnique : List (Provider V E) → List (Provider V E) → Type 0
  IsUnique seen [] = Unit
  IsUnique seen (p ∷ ps) =
      (id_of p ≢ scope_id)
      × ((p.port.many ≡ true) ⊎ (count (id_of p) seen ≡ 0))
      × IsUnique (p ∷ seen) ps

  pub count_providers-IsUnique :
      (seen ps : List (Provider V E)) (m totals : List (String × ℕ))
      → count_providers m ps ≡ ok totals
      → ((id : String) → count_of id m ≡ count id seen)
      → IsUnique seen ps
  unfolding count_providers count
  count_providers-IsUnique seen [] m totals h same = tt
  count_providers-IsUnique seen (p ∷ ps) m totals h same = (
    λ e. ground (arith, string_eq.beq_iff (id_of p) scope_id),
    unique p.port.many refl,
    count_providers-IsUnique (p ∷ seen) ps (bump (id_of p) m) totals (ground arith)
        (λ id. omega (arith, count_of-bump (id_of p) id m, same id)),
  )
    where
      unique : (b : Bool) → p.port.many ≡ b → (p.port.many ≡ true) ⊎ (count (id_of p) seen ≡ 0)
      unique true e = inl e
      unique false e = inr (ground (arith, same (id_of p)))

  -- Every dependency has a provider here or a seed.
  abbrev pub IsSupplied : List String → List (Provider V E) → Port → Type 0
  IsSupplied seed_keys ps d = (0 < count d.port_id ps) ⊎ (elem d.port_id seed_keys ≡ true)

  IsSupplied-of_has :
      (seed_keys : List String) (ps : List (Provider V E)) (totals : List (String × ℕ)) (d : Port)
      → count_providers [] ps ≡ ok totals
      → is_supplied totals seed_keys d ≡ true
      → IsSupplied seed_keys ps d
  IsSupplied-of_has seed_keys ps totals d h s = ground (
    arith,
    count_of-count_providers d.port_id ps [] totals h,
    count_providers-IsPositive ps [] totals h nil-IsPositive d.port_id (count_of d.port_id totals),
    get-nil d.port_id,
  )

  check_deps-IsSupplied :
      (seed_keys : List String) (ps : List (Provider V E)) (totals : List (String × ℕ))
      (by : String) (deps : List Port)
      → count_providers [] ps ≡ ok totals
      → check_deps totals seed_keys by deps ≡ ok tt
      → All (IsSupplied seed_keys ps) deps
  unfolding check_deps
  check_deps-IsSupplied seed_keys ps totals by [] h e = tt
  check_deps-IsSupplied seed_keys ps totals by (d ∷ deps) h e = (
    IsSupplied-of_has seed_keys ps totals d h (ground arith),
    check_deps-IsSupplied seed_keys ps totals by deps h (ground arith),
  )

  pub check_all_deps-IsSupplied :
      (seed_keys : List String) (ps qs : List (Provider V E)) (totals : List (String × ℕ))
      → count_providers [] ps ≡ ok totals
      → check_all_deps totals seed_keys qs ≡ ok tt
      → All (λ p. All (IsSupplied seed_keys ps) p.deps) qs
  unfolding check_all_deps
  check_all_deps-IsSupplied seed_keys ps [] totals h e = tt
  check_all_deps-IsSupplied seed_keys ps (q ∷ qs) totals h e = (
    check_deps-IsSupplied seed_keys ps totals (id_of q) q.deps h (ground arith),
    check_all_deps-IsSupplied seed_keys ps qs totals h (ground arith),
  )

  pub first-IsRound :
      (ps : List (Provider V E)) (totals : List (String × ℕ))
      → IsDistinct ps
      → count_providers [] ps ≡ ok totals
      → IsRound totals [] [] ps
  first-IsRound ps totals d h = record {
    distinct = d;
    fresh = nil-IsFresh ps;
    positive = count_providers-IsPositive ps [] totals h nil-IsPositive;
    counted = λ id. omega (arith, count_of-count_providers id ps [] totals h, count_of-nil id);
  }
