-- ===== src/Di/Build/Reads.antt =====
-- The fold over the levels of a plan: every factory finds the services it reads.
use mathlib.Core.List.{append-nil, append_assoc, Perm, map-append}
use mathlib.Core.List.Perm
use btravstack.Common.{
  ℕ, ◌<◌, ◌≡◌, refl, sym, ap, ◌∙◌, subst, ◌⊎◌, inl, inr, String, Bool, true, ◌||◌, ◌==◌, string_eq,
  List, [], ◌∷◌, ◌++◌, map, flatten, ok, fail, length, All, All-map, All-append_left,
  All-append_right, any, has, arith, Bool-cases, suc,
}
use btravstack.Di.{Port, Failure, failed, Outcome, BuildOutcome, Provider}
use btravstack.Di.Context.{Context, unsafe_add_all}
use btravstack.Di.Context.Laws.{has-unsafe_add_all, is_some-lookup}
use btravstack.Di.Flatten.{refs, id_of}
use btravstack.Di.Scope.{Scope, constructs}
use btravstack.Di.Plan.Counts.{count, count-append}
use btravstack.Di.Plan.Order.{IsOrdered, IsFree}
use btravstack.Di.Lifecycle.Outcomes.{IsLevel, IsBuiltUp, stops, goes_on, succeeded-IsLevel}
use btravstack.Di.Lifecycle.Levels.{IsConstructed, after_level, construct_level-IsConstructed}
use btravstack.Di.Lifecycle.{
  Settling, ConstructedLevel, constructed_of, construct_level, succeeded, zip_values, finalisers_of,
  all_finalisers_of,
}
use btravstack.Di.Lifecycle.Laws.{Resolves, succeeded-map_ok, map_fst-zip}
use btravstack.Di.Build.{then_levels, run_levels}

length-map_ok :
    {V : Type 0} (E : Type 0) (vs : List V)
    → length (map (λ v. let r : Outcome E V = ok v in r) vs) ≡ length vs
length-map_ok E [] = refl
length-map_ok E (v ∷ vs) = ap suc (length-map_ok E vs)

module _ {V E : Type 0} where
  -- A dependency has a provider among `ps` or a service in the context.
  abbrev pub IsReadable : Context V → List (Provider V E) → Port → Type 0
  IsReadable ctx ps d = (0 < count d.port_id ps) ⊎ (has d.port_id ctx ≡ true)

  -- A port has a provider among `ps`.
  abbrev pub is_provided : String → List (Provider V E) → Bool
  is_provided id ps = any (λ p. id_of p == id) ps

  is_provided_of_count :
      (id : String) (ps : List (Provider V E)) → 0 < count id ps → is_provided id ps ≡ true
  unfolding count
  is_provided_of_count id [] h = absurd (omega arith)
  is_provided_of_count id (p ∷ ps) h = ground (arith, is_provided_of_count id ps)

  is_provided-append :
      (id : String) (xs ys : List (Provider V E))
      → is_provided id (xs ++ ys) ≡ (is_provided id xs || is_provided id ys)
  is_provided-append id [] ys = refl
  is_provided-append id (x ∷ xs) ys = ground (arith, is_provided-append id xs ys)

  built-is_provided :
      (id : String) (ps : List (Provider V E)) (vs : List V)
      → length vs ≡ length ps
      → any {A = Port × V} (λ b. b.0.port_id == id) (map (λ x. (x.0.port, x.1)) (zip_values ps vs))
        ≡ is_provided id ps
  built-is_provided id [] [] e = refl
  built-is_provided id [] (v ∷ vs) e = refl
  built-is_provided id (p ∷ ps) [] e = absurd (omega arith)
  built-is_provided id (p ∷ ps) (v ∷ vs) e =
      ap (λ b. (id_of p == id) || b) (built-is_provided id ps vs (omega arith))

  level-Resolves :
      (ctx : Context V) (later : List (Provider V E)) (ds : List Port)
      → All (λ d. count d.port_id later ≡ 0) ds
      → All (IsReadable ctx later) ds
      → Resolves ctx ds
  level-Resolves ctx later [] h k = tt
  level-Resolves ctx later (d ∷ ds) (free, h) (inl some_later, k) = absurd (omega arith)
  level-Resolves ctx later (d ∷ ds) (free, h) (inr here, k) =
      (is_some-lookup ctx d here, level-Resolves ctx later ds h k)

  All-level-Resolves :
      (ctx : Context V) (later ps : List (Provider V E))
      → All (IsFree later) ps
      → All (λ p. All (IsReadable ctx later) p.deps) ps
      → All (λ p. Resolves ctx p.deps) ps
  All-level-Resolves ctx later [] h k = tt
  All-level-Resolves ctx later (p ∷ ps) (free, h) (readable, k) =
      (level-Resolves ctx later p.deps free readable, All-level-Resolves ctx later ps h k)

  -- What is readable stays so once a level has been built.
  next-IsReadable :
      (ctx ctx' : Context V) (level later : List (Provider V E))
      → ((id : String) → has id ctx' ≡ (is_provided id level || has id ctx))
      → (d : Port) → IsReadable ctx (level ++ later) d
      → IsReadable ctx' later d
  next-IsReadable ctx ctx' level later has' d (inr here) = inr (ground (arith, has' d.port_id))
  next-IsReadable ctx ctx' level later has' d (inl h) =
      elim (Bool-cases (is_provided d.port_id level)) [
        | inl built ↦ inr (ground (arith, has' d.port_id))
        | inr not_built ↦ inl (
            ground
              (arith, count-append d.port_id level later, is_provided_of_count d.port_id level))
      ]

  pub values-length :
      (level : List (Provider V E)) (outcomes : List (Outcome E V)) (values : List V)
      → length outcomes ≡ length level
      → outcomes ≡ map ok values
      → length values ≡ length level
  values-length level outcomes values same e =
      omega (arith, ap (λ (os : List (Outcome E V)). length os) e, length-map_ok E values)

module _ {V E : Type 0} (settling : Settling V E) where
  open settling use {arrive, arrive_perm}

  -- What the fold over the levels leaves behind.
  pub record IsBuilt (levels : List (List (Provider V E))) (ctx : Context V) (scope : Scope)
      (r : BuildOutcome E (Context V × List (Provider V E × V)) × Scope) : Type 0 where
    pub called : List ℕ
    pub groups : List (List (Provider V E × V))
    pub acquired : List (Provider V E × V)
    pub built_up : IsBuiltUp levels called groups
    pub arrived : acquired ≡ flatten (map arrive groups)
    pub closed : r.1.closed ≡ scope.closed
    pub logged : r.1.log ≡ scope.log ++ map constructs called
    pub registered : r.1.finalisers ≡ scope.finalisers ++ all_finalisers_of acquired
    pub result :
        ((f : Failure E) × (r.0 ≡ fail (failed f)))
        ⊎ ((ctx' : Context V) × (started : List (Provider V E × V)) × (r.0 ≡ ok (ctx', started))
            × (called ≡ refs (flatten levels))
            × Perm (map (λ x. x.0) acquired) (flatten levels)
            × ((id : String) → has id ctx' ≡ (is_provided id (flatten levels) || has id ctx)))

  all_finalisers-append :
      (xs ys : List (Provider V E × V))
      → all_finalisers_of (xs ++ ys) ≡ all_finalisers_of xs ++ all_finalisers_of ys
  all_finalisers-append [] ys = refl
  all_finalisers-append (x ∷ xs) ys =
      ap (λ fs. finalisers_of x ++ fs) (all_finalisers-append xs ys)
      ∙ sym (append_assoc (finalisers_of x) (all_finalisers_of xs) (all_finalisers_of ys))

  acquired-perm :
      (level : List (Provider V E)) (outcomes : List (Outcome E V)) (values : List V)
      → length outcomes ≡ length level
      → outcomes ≡ map ok values
      → Perm (map (λ x. x.0) (arrive (succeeded level outcomes))) level
  acquired-perm level outcomes values same e =
      Perm.trans (Perm.map (λ x. x.0) (arrive_perm (succeeded level outcomes))) (
        subst (λ ps. Perm ps level)
          (sym (
            ap (λ os. map (λ x. x.0) (succeeded level os)) e
            ∙ ap (map (λ x. x.0)) (succeeded-map_ok level values)
            ∙ map_fst-zip level values (values-length level outcomes values same e)))
          (Perm.refl level))

  -- A level that succeeded, and what the rest of the fold leaves behind.
  join_levels :
      (level : List (Provider V E)) (levels : List (List (Provider V E))) (c ctx ctx' : Context V)
      (scope s : Scope) (r : BuildOutcome E (Context V × List (Provider V E × V)) × Scope)
      (outcomes : List (Outcome E V)) (values : List V)
      → s ≡ after_level settling level outcomes scope
      → length outcomes ≡ length level
      → IsLevel c level (succeeded level outcomes)
      → outcomes ≡ map ok values
      → ((id : String) → has id ctx' ≡ (is_provided id level || has id ctx))
      → IsBuilt levels ctx' s r
      → IsBuilt (level ∷ levels) ctx scope r
  unfolding flatten
  join_levels level levels c ctx ctx' scope s r outcomes values after one_each gained outs has' b =
      record {
        called = refs level ++ b.called;
        groups = succeeded level outcomes ∷ b.groups;
        acquired = arrive (succeeded level outcomes) ++ b.acquired;
        built_up = goes_on c gained b.built_up;
        arrived = ap (◌++◌ (arrive (succeeded level outcomes))) b.arrived;
        closed = b.closed ∙ ap (λ (x : Scope). x.closed) after;
        logged =
            b.logged
            ∙ ap (λ (x : Scope). x.log ++ map constructs b.called) after
            ∙ append_assoc scope.log (map constructs (refs level)) (map constructs b.called)
            ∙ ap (◌++◌ scope.log) (sym (map-append constructs (refs level) b.called));
        registered =
            b.registered
            ∙ ap (λ (x : Scope). x.finalisers ++ all_finalisers_of b.acquired) after
            ∙ append_assoc scope.finalisers _ (all_finalisers_of b.acquired)
            ∙ ap (◌++◌ scope.finalisers)
                (sym (all_finalisers-append (arrive (succeeded level outcomes)) b.acquired));
        result = join_results b.result;
      }
    where
      join_results :
          ((f : Failure E) × (r.0 ≡ fail (failed f)))
            ⊎ ((c : Context V) × (started : List (Provider V E × V)) × (r.0 ≡ ok (c, started))
                × (b.called ≡ refs (flatten levels))
                × Perm (map (λ x. x.0) b.acquired) (flatten levels)
                × ((id : String) → has id c ≡ (is_provided id (flatten levels) || has id ctx')))
          → ((f : Failure E) × (r.0 ≡ fail (failed f)))
            ⊎ ((c : Context V) × (started : List (Provider V E × V)) × (r.0 ≡ ok (c, started))
                × (refs level ++ b.called ≡ refs (flatten (level ∷ levels)))
                × Perm
                    (map (λ x. x.0) (arrive (succeeded level outcomes) ++ b.acquired))
                    (flatten (level ∷ levels))
                × ((id : String)
                    → has id c ≡ (is_provided id (flatten (level ∷ levels)) || has id ctx)))
      join_results (inl (f, e)) = inl (f, e)
      join_results (inr (c, started, e, called, perm, has'')) = inr (
        c,
        started,
        e,
        ap (◌++◌ (refs level)) called ∙ sym (map-append (λ p. p.ref) level (flatten levels)),
        subst (λ ps. Perm ps (level ++ flatten levels))
            (sym (map-append (λ x. x.0) (arrive (succeeded level outcomes)) b.acquired))
            (Perm.append (acquired-perm level outcomes values one_each outs) perm),
        λ id. ground (arith, has'' id, has' id, is_provided-append id level (flatten levels)),
      )

  -- A level that failed ends the fold; one that succeeded is followed by the rest.
  then_levels-IsBuilt :
      (level : List (Provider V E)) (levels : List (List (Provider V E))) (ctx : Context V)
      (started : List (Provider V E × V)) (scope : Scope)
      (r : BuildOutcome E (ConstructedLevel V E) × Scope)
      → IsConstructed settling level scope r
      → ((ctx' : Context V) (started' : List (Provider V E × V)) (scope' : Scope)
          → ((id : String) → has id ctx' ≡ (is_provided id level || has id ctx))
          → IsBuilt levels ctx' scope' (run_levels settling levels ctx' started' scope'))
      → IsBuilt
          (level ∷ levels)
          ctx
          scope
          (then_levels settling (run_levels settling levels) ctx started r)
  unfolding flatten
  then_levels-IsBuilt level levels ctx started scope (fail f, s) c later = record {
    called = refs level ++ [];
    groups = succeeded level c.outcomes ∷ [];
    acquired = arrive (succeeded level c.outcomes);
    built_up = goes_on c.context (succeeded-IsLevel c.context level c.outcomes c.answered) stops;
    arrived = sym (append-nil _);
    closed = ap (λ (x : Scope). x.closed) c.after;
    logged =
        ap (λ (x : Scope). x.log) c.after
        ∙ ap (λ refs. scope.log ++ map constructs refs) (sym (append-nil (refs level)));
    registered = ap (λ (x : Scope). x.finalisers) c.after;
    result = elim c.result [ inl (f', e) ↦ inl (f', cc e) | inr (values, outs, e) ↦ cc e ];
  }
  then_levels-IsBuilt level levels ctx started scope (ok done, s) c later = elim c.result [
    | inl (f, e) ↦ cc e
    | inr (values, outs, e) ↦
        let same : done ≡ constructed_of level values = cc e in
        join_levels level levels c.context ctx (unsafe_add_all ctx done.built) scope s
          (run_levels settling levels (unsafe_add_all ctx done.built) (started ++ done.started) s)
          c.outcomes values c.after c.one_each
          (succeeded-IsLevel c.context level c.outcomes c.answered) outs
          (has_built values same (values-length level c.outcomes values c.one_each outs))
          (later (unsafe_add_all ctx done.built) (started ++ done.started) s
            (has_built values same (values-length level c.outcomes values c.one_each outs)))
  ]
    where
      has_built :
          (values : List V)
          → done ≡ constructed_of level values
          → length values ≡ length level
          → (id : String)
          → has id (unsafe_add_all ctx done.built) ≡ (is_provided id level || has id ctx)
      has_built values same n id =
          has-unsafe_add_all id done.built ctx
          ∙ ap
              (λ (bs : List (Port × V)).
                any {A = Port × V} (λ b. b.0.port_id == id) bs || has id ctx)
              (ap (λ (d : ConstructedLevel V E). d.built) same)
          ∙ ap (λ b. b || has id ctx) (built-is_provided id level values n)

  pub run_levels-IsBuilt :
      (levels : List (List (Provider V E))) (ctx : Context V) (started : List (Provider V E × V))
      (scope : Scope)
      → IsOrdered levels
      → All (λ p. All (IsReadable ctx (flatten levels)) p.deps) (flatten levels)
      → IsBuilt levels ctx scope (run_levels settling levels ctx started scope)
  unfolding run_levels flatten
  run_levels-IsBuilt [] ctx started scope o h = record {
    called = [];
    groups = [];
    acquired = [];
    built_up = stops;
    arrived = refl;
    closed = refl;
    logged = sym (append-nil _);
    registered = sym (append-nil _);
    result = inr (ctx, started, refl, refl, Perm.refl [], λ id. refl);
  }
  run_levels-IsBuilt (level ∷ levels) ctx started scope (free, o) h =
      then_levels-IsBuilt level levels ctx started scope (construct_level settling level ctx scope)
        (construct_level-IsConstructed settling level ctx scope (
          All-level-Resolves ctx (level ++ flatten levels) level free
            (All-append_left _ level (flatten levels) h)))
        (λ ctx' started' scope' has'. run_levels-IsBuilt levels ctx' started' scope' o (
          All-map
            (λ p readable.
              All-map (next-IsReadable ctx ctx' level (flatten levels) has') p.deps readable)
            (flatten levels) (All-append_right _ level (flatten levels) h)))
