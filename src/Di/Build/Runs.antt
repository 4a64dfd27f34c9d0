-- ===== src/Di/Build/Runs.antt =====
-- What `run` leaves behind, over the providers of a module: what was called, and what is registered.
use mathlib.Core.List.{Perm, Permᴰ, append-nil}
use mathlib.Core.List.Perm
use mathlib.Core.Logic.{∥∥₁_elim}
use btravstack.Common.{
  ℕ, ◌≡◌, ◌≢◌, refl, ap, ◌∙◌, ◌⊎◌, inl, inr, String, Bool, true, false, ◌||◌, ◌==◌, string_eq, List,
  [], ◌∷◌, ◌++◌, map, flatten, subst, ok, fail, All, All-of_all, all-perm, all_of_All, ltb, lt→ltb,
  ltb→lt, All-map, all, has, arith, Bool-cases, Result-cases,
}
use btravstack.Di.{Port, unregistered, BuildOutcome, WiringDefect, Provider}
use btravstack.Di.Context.{Context, unsafe_keys}
use btravstack.Di.Context.Laws.{has-keys}
use btravstack.Di.Flatten.{id_of, IsDistinct}
use btravstack.Di.Overrides.{resolve_overrides}
use btravstack.Di.Scope.{Scope, Event, starts, emit, create_scope}
use btravstack.Di.Scope.Laws.{is_work, constructed, constructed-append, Ran-cases}
use btravstack.Di.Lifecycle.Outcomes.{IsBuiltUp, stops, constructed-constructs}
use btravstack.Di.Plan.{plan}
use btravstack.Di.Plan.Counts.{count}
use btravstack.Di.Plan.Sound.{plan-IsSound}
use btravstack.Di.Plan.Checks.{IsSupplied}
use btravstack.Di.Lifecycle.{Settling, run_hook, run_start_hooks, all_finalisers_of}
use btravstack.Di.Lifecycle.Laws.{all_work-constructs}
use btravstack.Di.Build.{start_built, keep_context, run_providers}
use btravstack.Di.Build.Reads.{IsReadable, IsBuilt, run_levels-IsBuilt}

all-append :
    {A : Type 0} (p : A → Bool) (xs ys : List A)
    → all p xs ≡ true
    → all p ys ≡ true
    → all p (xs ++ ys) ≡ true
all-append p [] ys h k = k
all-append p (x ∷ xs) ys h k = ground (arith, all-append p xs ys)

module _ {V E : Type 0} where
  -- Only work is logged, and what is registered belongs to what was acquired.
  pub record IsWork (called : List ℕ) (acquired : List (Provider V E × V)) (s : Scope)
      : Type 0 where
    pub open_still : s.closed ≡ false
    pub quiet : all is_work s.log ≡ true
    pub calls : constructed s.log ≡ called
    pub registered : s.finalisers ≡ all_finalisers_of acquired

  pub emit-IsWork :
      {called : List ℕ} (acquired : List (Provider V E × V)) (event : Event) (s : Scope)
      → is_work event ≡ true
      → constructed (event ∷ []) ≡ []
      → IsWork called acquired s
      → IsWork called acquired (emit event s)
  unfolding emit
  emit-IsWork acquired event s h idle w = record {
    open_still = w.open_still;
    quiet = all-append is_work s.log (event ∷ []) w.quiet (rw h refl);
    calls =
        constructed-append s.log (event ∷ [])
        ∙ (ap (λ refs. constructed s.log ++ refs) idle ∙ (append-nil _ ∙ w.calls));
    registered = w.registered;
  }

  run_start_hooks-IsWork :
      {called : List ℕ} (acquired entries : List (Provider V E × V)) (s : Scope)
      → IsWork called acquired s
      → IsWork called acquired (run_start_hooks entries s).1
  unfolding run_start_hooks constructed
  run_start_hooks-IsWork acquired [] s w = w
  run_start_hooks-IsWork acquired ((p, service) ∷ entries) s w =
      elim (Ran-cases (run_hook p.on_start service)) [
        | inl e ↦
            rw (e, run_start_hooks)
              (run_start_hooks-IsWork acquired entries (emit (starts p.ref) s)
                (emit-IsWork acquired (starts p.ref) s refl refl w))
        | inr (cause, e) ↦
            rw (e, run_start_hooks) (emit-IsWork acquired (starts p.ref) s refl refl w)
      ]

  run_start_hooks-ne-unregistered :
      (entries : List (Provider V E × V)) (s : Scope) (id : String)
      → (run_start_hooks entries s).0 ≢ fail (unregistered id)
  unfolding run_start_hooks
  run_start_hooks-ne-unregistered [] s id e = cc
  run_start_hooks-ne-unregistered ((p, service) ∷ entries) s id e =
      elim (Ran-cases (run_hook p.on_start service)) [
        | inl h ↦
            run_start_hooks-ne-unregistered entries (emit (starts p.ref) s) id
              (rw (h, run_start_hooks) at e)
        | inr (cause, h) ↦ cc (rw (h, run_start_hooks) at e)
      ]

  count-permᴰ :
      (id : String) {xs ys : List (Provider V E)} → Permᴰ xs ys → count id xs ≡ count id ys
  unfolding count
  count-permᴰ id Permᴰ.nil = refl
  count-permᴰ id (Permᴰ.cons {a} {b} e p) =
      ground (arith, count-permᴰ id p, ap (λ (q : Provider V E). id_of q == id) e)
  count-permᴰ id (Permᴰ.swap {a} {b} e₁ e₂) = ground (
    arith,
    ap (λ (q : Provider V E). id_of q == id) e₁,
    ap (λ (q : Provider V E). id_of q == id) e₂,
  )
  count-permᴰ id (Permᴰ.trans p q) = count-permᴰ id p ∙ count-permᴰ id q

  count-perm : (id : String) {xs ys : List (Provider V E)} → Perm xs ys → count id xs ≡ count id ys
  count-perm id d = ∥∥₁_elim d (hlevel) (count-permᴰ id)

  abbrev is_readable : Context V → List (Provider V E) → Port → Bool
  is_readable ctx ps d = ltb 0 (count d.port_id ps) || has d.port_id ctx

  abbrev all_readable : Context V → List (Provider V E) → Provider V E → Bool
  all_readable ctx ps p = all (is_readable ctx ps) p.deps

  readable_of_supplied :
      (ctx : Context V) (resolved ps : List (Provider V E)) (d : Port)
      → Perm ps resolved
      → IsSupplied (unsafe_keys ctx) resolved d
      → is_readable ctx ps d ≡ true
  readable_of_supplied ctx resolved ps d perm (inl h) =
      ground (arith, count-perm d.port_id perm, lt→ltb 0 (count d.port_id ps))
  readable_of_supplied ctx resolved ps d perm (inr h) = ground (arith, has-keys d.port_id ctx)

  IsReadable-of_test :
      (ctx : Context V) (ps : List (Provider V E)) (d : Port)
      → is_readable ctx ps d ≡ true
      → IsReadable ctx ps d
  IsReadable-of_test ctx ps d h = elim (Bool-cases (ltb 0 (count d.port_id ps))) [
    | inl e ↦ inl (ltb→lt 0 (count d.port_id ps) e)
    | inr e ↦ inr (ground arith)
  ]

  -- What a sound plan supplies, its levels provide.
  All-IsReadable :
      (ctx : Context V) (resolved ps : List (Provider V E))
      → Perm ps resolved
      → All (λ p. All (IsSupplied (unsafe_keys ctx) resolved) p.deps) resolved
      → All (λ p. All (IsReadable ctx ps) p.deps) ps
  All-IsReadable ctx resolved ps perm supplied =
      All-of_all _ (all_readable ctx ps) ps
        (λ p h. All-of_all _ (is_readable ctx ps) p.deps (IsReadable-of_test ctx ps) h)
        (all-perm (all_readable ctx ps) perm
          ∙ all_of_All (all_readable ctx ps) resolved (
              All-map
                (λ p h.
                  all_of_All (is_readable ctx ps) p.deps
                    (All-map (λ d k. readable_of_supplied ctx resolved ps d perm k) p.deps h))
                resolved supplied))

  -- What was called and gained belongs to the levels of the plan, or nothing was.
  pub record IsPlanned (given : List (Provider V E)) (seed : Context V) (called : List ℕ)
      (groups : List (List (Provider V E × V))) : Type 0 where
    pub levels : List (List (Provider V E))
    pub built_up : IsBuiltUp levels called groups
    pub is_plan :
        (plan given (unsafe_keys seed) ≡ ok levels)
        ⊎ ((defect : WiringDefect) × (plan given (unsafe_keys seed) ≡ fail defect) × (levels ≡ []))

  -- `run` over the providers of a module.
  pub record IsRun (settling : Settling V E) (given : List (Provider V E)) (seed : Context V)
      (r : BuildOutcome E (Context V) × Scope) : Type 0 where
    pub called : List ℕ
    pub groups : List (List (Provider V E × V))
    pub planned : IsPlanned given seed called groups
    pub work : IsWork called (flatten (map (Settling.arrive settling) groups)) r.1
    pub never : (id : String) → r.0 ≢ fail (unregistered id)
    pub complete :
        (ctx : Context V)
        → r.0 ≡ ok ctx
        → (resolved : List (Provider V E)) × (resolve_overrides given ≡ ok resolved)
          × Perm (map (λ x. x.0) (flatten (map (Settling.arrive settling) groups))) resolved

  module _ (settling : Settling V E) (given : List (Provider V E)) (seed : Context V) where
    open settling use {arrive}

    keep_context-IsRun :
        (ctx : Context V) (r : BuildOutcome E (Unit {0}) × Scope) (called : List ℕ)
        (groups : List (List (Provider V E × V)))
        → IsPlanned given seed called groups
        → IsWork called (flatten (map arrive groups)) r.1
        → ((id : String) → r.0 ≢ fail (unregistered id))
        → (resolved : List (Provider V E)) → resolve_overrides given ≡ ok resolved
        → Perm (map (λ x. x.0) (flatten (map arrive groups))) resolved
        → IsRun settling given seed (keep_context settling ctx r)
    keep_context-IsRun ctx (fail f, s) called groups planned w never resolved e perm = record {
      called = called;
      groups = groups;
      planned = planned;
      work = w;
      never = λ id h. never id (cc h);
      complete = λ c h. cc h;
    }
    keep_context-IsRun ctx (ok u, s) called groups planned w never resolved e perm = record {
      called = called;
      groups = groups;
      planned = planned;
      work = w;
      never = λ id h. cc h;
      complete = λ c h. (resolved, e, perm);
    }

    built-IsWork :
        (levels : List (List (Provider V E)))
        (r : BuildOutcome E (Context V × List (Provider V E × V)) × Scope)
        (b : IsBuilt settling levels seed create_scope r)
        → IsWork b.called (flatten (map arrive b.groups)) r.1
    unfolding create_scope
    built-IsWork levels r b = record {
      open_still = b.closed;
      quiet = ap (all is_work) b.logged ∙ all_work-constructs b.called;
      calls = ap constructed b.logged ∙ constructed-constructs b.called;
      registered = b.registered ∙ ap all_finalisers_of b.arrived;
    }

    start_built-IsRun :
        (levels : List (List (Provider V E)))
        (r : BuildOutcome E (Context V × List (Provider V E × V)) × Scope)
        → plan given (unsafe_keys seed) ≡ ok levels
        → IsBuilt settling levels seed create_scope r
        → (resolved : List (Provider V E)) → resolve_overrides given ≡ ok resolved
        → Perm (flatten levels) resolved
        → IsRun settling given seed (start_built settling r)
    unfolding start_built
    start_built-IsRun levels (fail f, s) plans b resolved e perm = record {
      called = b.called;
      groups = b.groups;
      planned = record { levels = levels; built_up = b.built_up; is_plan = inl plans };
      work = built-IsWork levels (fail f, s) b;
      never = λ id h. elim b.result [
        | inl (f', k) ↦ cc
        | inr (c, started, k, called, acquired_all, has') ↦ cc k
      ];
      complete = λ c h. cc h;
    }
    start_built-IsRun levels (ok (c, started), s) plans b resolved e perm = elim b.result [
      | inl (f, k) ↦ cc k
      | inr (c', started', k, called, acquired_all, has') ↦
          keep_context-IsRun c (run_start_hooks started s) b.called b.groups
            (record { levels = levels; built_up = b.built_up; is_plan = inl plans })
            (run_start_hooks-IsWork (flatten (map arrive b.groups)) started s
              (built-IsWork levels (ok (c, started), s) b))
            (run_start_hooks-ne-unregistered started s) resolved e
            (subst (λ xs. Perm (map (λ x. x.0) xs) resolved) b.arrived
              (Perm.trans acquired_all perm))
    ]

    pub run_providers-IsRun :
        IsDistinct given
        → IsRun settling given seed (run_providers settling given create_scope seed)
    unfolding run_providers create_scope constructed flatten
    run_providers-IsRun d = elim (Result-cases (plan given (unsafe_keys seed))) [
      | inl (w, e) ↦
          rw (e, run_providers)
            (record {
              called = [];
              groups = [];
              planned = record { levels = []; built_up = stops; is_plan = inr (w, e, refl) };
              work = record { open_still = refl; quiet = refl; calls = refl; registered = refl };
              never = λ id h. cc h;
              complete = λ c h. cc h;
            })
      | inr (levels, e) ↦
          let (resolved, resolves, sound) = plan-IsSound given (unsafe_keys seed) levels d e in
          rw (e, run_providers)
            (start_built-IsRun levels _ e
              (run_levels-IsBuilt settling levels seed [] create_scope sound.ordered
                (All-IsReadable seed resolved (flatten levels) sound.once sound.supplied))
              resolved resolves sound.once)
    ]
