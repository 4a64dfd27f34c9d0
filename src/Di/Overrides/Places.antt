-- ===== src/Di/Overrides/Places.antt =====
-- Overriding keeps the ports in declaration order and leaves no override out.
use mathlib.Core.Path.{ap₂}
use btravstack.Common.{
  ◌≡◌, refl, sym, ap, ap, ◌∙◌, String, true, false, not, inl, inr, some, List, [], ◌∷◌, map, ok,
  get, set, get-set, ◌==◌, nat_eq, string_eq, keep, any, elem, arith, subst, keep-true, keep-false,
  >>=-eq-ok, Bool-cases, beq_refl, eq_of_beq, All,
}
use btravstack.Di.{Provider}
use btravstack.Di.Flatten.{id_of, refs}
use btravstack.Di.Overrides.{
  is_base_of, check_overrides, override_map, substitute, overrides_of, resolve_overrides,
}
use btravstack.Di.Overrides.Laws.{substitute-cases, overrides-mem}

module _ {V E : Type 0} where
  -- The providers that are no overrides.
  abbrev pub bases_of : List (Provider V E) → List (Provider V E)
  bases_of = keep (λ p. not p.is_override)

  substitute-ids :
      (m : List (String × Provider V E)) (sub : List String) (ps : List (Provider V E))
      → ((i : String) (o : Provider V E) → get i m ≡ some o → id_of o ≡ i)
      → map id_of (substitute m sub ps) ≡ map id_of (bases_of ps)
  unfolding substitute
  substitute-ids m sub [] own = refl
  substitute-ids m sub (p ∷ ps) own = elim (substitute-cases m sub p ps) [
    | inl (h, e) ↦
        ap (map id_of) e
        ∙ substitute-ids m sub ps own
        ∙ sym (ap (map id_of) (keep-false _ p ps (ap not h)))
    | inr (inl (h, _, e)) ↦
        ap (map id_of) e
        ∙ ap (◌∷◌ (id_of p)) (substitute-ids m sub ps own)
        ∙ sym (ap (map id_of) (keep-true _ p ps (ap not h)))
    | inr (inr (h, (o, g, _, e))) ↦
        ap (map id_of) e
        ∙ ap₂ ◌∷◌ (own (id_of p) o g) (substitute-ids m (id_of p ∷ sub) ps own)
        ∙ sym (ap (map id_of) (keep-true _ p ps (ap not h)))
  ]

  substitute-places :
      (m : List (String × Provider V E)) (sub : List String) (ps : List (Provider V E))
      (id : String) (o : Provider V E)
      → get id m ≡ some o
      → elem id sub ≡ false
      → any (is_base_of id) ps ≡ true
      → elem o.ref (refs (substitute m sub ps)) ≡ true
  unfolding substitute
  substitute-places m sub [] id o g new h = cc
  substitute-places m sub (p ∷ ps) id o g new h = elim (substitute-cases m sub p ps) [
    | inl (over, e) ↦ rw e (substitute-places m sub ps id o g new (ground arith))
    | inr (inl (base, kept, e)) ↦
        rw e (ground (arith, string_eq.beq_iff (id_of p) id, substitute-places m sub ps id o g new))
    | inr (inr (base, (q, found, fresh, e))) ↦ rw e (elim (Bool-cases (id_of p == id)) [
      | inl same ↦
          let q-o : q ≡ o = cc (found, g, ap (λ i. get i m) (eq_of_beq (id_of p) id same)) in
          rw q-o (rw (beq_refl o.ref) refl)
      | inr other ↦ ground (arith, substitute-places m (id_of p ∷ sub) ps id o g)
    ])
  ]

  -- The ids that the overrides check has passed are new, and each has a base.
  abbrev IsChecked : List (Provider V E) → List String → List (Provider V E) → Type 0
  IsChecked given seen [] = Unit
  IsChecked given seen (o ∷ os) =
      (elem (id_of o) seen ≡ false)
      × (any (is_base_of (id_of o)) given ≡ true)
      × IsChecked given (id_of o ∷ seen) os

  check_overrides-IsChecked :
      (given : List (Provider V E)) (seen : List String) (os : List (Provider V E))
      → check_overrides given seen os ≡ ok tt
      → IsChecked given seen os
  unfolding check_overrides
  check_overrides-IsChecked given seen [] h = tt
  check_overrides-IsChecked given seen (o ∷ os) h = (
    ground arith,
    ground arith,
    check_overrides-IsChecked given (id_of o ∷ seen) os (ground arith),
  )

  get-override_map_seen :
      (given : List (Provider V E)) (id : String) (seen : List String)
      (m : List (String × Provider V E)) (os : List (Provider V E))
      → IsChecked given seen os
      → elem id seen ≡ true
      → get id (override_map m os) ≡ get id m
  unfolding override_map
  get-override_map_seen given id seen m [] c h = refl
  get-override_map_seen given id seen m (o ∷ os) (new, _, c) h = ground (
    arith,
    get-override_map_seen given id (id_of o ∷ seen) (set (id_of o) o m) os c,
    get-set (id_of o) id o m,
    string_eq.beq_iff (id_of o) id,
  )

  All-placed :
      (given : List (Provider V E)) (full m : List (String × Provider V E)) (seen : List String)
      (os : List (Provider V E))
      → IsChecked given seen os
      → override_map m os ≡ full
      → All (λ o. elem o.ref (refs (substitute full [] given)) ≡ true) os
  unfolding override_map
  All-placed given full m seen [] c e = tt
  All-placed given full m seen (o ∷ os) (new, base, c) e = (
    substitute-places full [] given (id_of o) o
        (subst (λ (n : List (String × Provider V E)). get (id_of o) n ≡ some o) e
          (get-override_map_seen given (id_of o) (id_of o ∷ seen) (set (id_of o) o m) os c
              (rw (beq_refl (id_of o)) refl)
            ∙ get-set (id_of o) (id_of o) o m
            ∙ rw (beq_refl (id_of o)) refl))
        refl base,
    All-placed given full (set (id_of o) o m) (id_of o ∷ seen) os c e,
  )

  -- Where the overrides resolve, the result has one provider for each that is no override, for the
  -- same ports in the same order, and every override given is among them.
  pub resolve_overrides-places :
      (given resolved : List (Provider V E))
      → resolve_overrides given ≡ ok resolved
      → (map id_of resolved ≡ map id_of (bases_of given))
        × All (λ o. elem o.ref (refs resolved) ≡ true) (overrides_of given)
  unfolding resolve_overrides
  resolve_overrides-places given resolved e =
      let m = override_map [] (overrides_of given) in
      let (_, checked, done) = >>=-eq-ok (check_overrides given [] (overrides_of given)) _ e in
      let same : substitute m [] given ≡ resolved = ground arith in
      (
        subst (λ (ps : List (Provider V E)). map id_of ps ≡ map id_of (bases_of given)) same
            (substitute-ids m [] given (λ i o g. (overrides-mem i o given g).2)),
        subst
            (λ (ps : List (Provider V E)).
              All (λ o. elem o.ref (refs ps) ≡ true) (overrides_of given))
            same
            (All-placed given m [] [] (overrides_of given)
              (check_overrides-IsChecked given [] (overrides_of given) (ground arith)) refl),
      )
