-- ===== src/Di/Plan/Sound.antt =====
-- The whole of `plan`: what it returns, and what its refusals mean.
use mathlib.Core.List.{Perm}
use btravstack.Common.{
  ℕ, ◌≡◌, ◌≢◌, refl, subst, String, true, inl, inr, List, [], flatten, Result, ok, fail, >>=-eq-ok,
  >>=-eq-fail, All, length,
}
use btravstack.Di.{Provider, WiringDefect, cycle, unfinished, is_looping}
use btravstack.Di.Flatten.{IsDistinct}
use btravstack.Di.Overrides.{resolve_overrides}
use btravstack.Di.Overrides.Laws.{resolve_overrides-IsDistinct}
use btravstack.Di.Plan.{count_providers, note_ports, named_ports, check_all_deps, rounds, plan}
use btravstack.Di.Plan.Checks.{
  HasOneClass, note_ports-HasOneClass, IsUnique, count_providers-IsUnique, IsSupplied, count_of-nil,
  check_all_deps-IsSupplied, first-IsRound,
}
use btravstack.Di.Plan.Counts.{count}
use btravstack.Di.Plan.Order.{IsOrdered, IsStuck, IsPlanned, rounds-IsPlanned}
use btravstack.Di.Plan.Refusals.{
  count_providers-not_looping, note_ports-not_looping, check_all_deps-not_looping,
}
use btravstack.Di.Overrides.Refusals.{resolve_overrides-not_looping}
use native.Mathlib.Nat.{le_refl}

module _ {V E : Type 0} where
  -- What a returned plan is, for the providers that the overrides resolve to.
  pub record IsSound (resolved : List (Provider V E)) (seed_keys : List String)
      (levels : List (List (Provider V E))) : Type 0 where
    pub once : Perm (flatten levels) resolved
    pub ordered : IsOrdered levels
    pub unique : IsUnique [] resolved
    pub one_class : HasOneClass (named_ports resolved)
    pub supplied : All (λ p. All (IsSupplied seed_keys resolved) p.deps) resolved

  -- The steps of `plan` before the rounds.
  record IsChecked (given : List (Provider V E)) (seed_keys : List String)
      (r : Result WiringDefect (List (List (Provider V E)))) : Type 0 where
    resolved : List (Provider V E)
    totals : List (String × ℕ)
    noted : List (String × ℕ)
    resolves : resolve_overrides given ≡ ok resolved
    counts : count_providers [] resolved ≡ ok totals
    notes : note_ports (named_ports resolved) [] ≡ ok noted
    supplies : check_all_deps totals seed_keys resolved ≡ ok tt
    returns : rounds (length resolved) totals [] [] resolved ≡ r

  IsChecked-of_ok :
      (given : List (Provider V E)) (seed_keys : List String) (levels : List (List (Provider V E)))
      → plan given seed_keys ≡ ok levels
      → IsChecked given seed_keys (ok levels)
  unfolding plan
  IsChecked-of_ok given seed_keys levels h =
      let (resolved, e, h₁) = >>=-eq-ok (resolve_overrides given) _ h in
      let (totals, f, h₂) = >>=-eq-ok (count_providers [] resolved) _ h₁ in
      let (noted, g, h₃) = >>=-eq-ok (note_ports (named_ports resolved) []) _ h₂ in
      let (_, k, h₄) = >>=-eq-ok (check_all_deps totals seed_keys resolved) _ h₃ in
      record {
        resolved = resolved;
        totals = totals;
        noted = noted;
        resolves = e;
        counts = f;
        notes = g;
        supplies = k;
        returns = h₄;
      }

  planned_of_checked :
      {given : List (Provider V E)} {seed_keys : List String}
      {r : Result WiringDefect (List (List (Provider V E)))}
      → IsDistinct given
      → (c : IsChecked given seed_keys r) → IsPlanned c.resolved r
  planned_of_checked {given} d c = subst (IsPlanned c.resolved) c.returns (
      rounds-IsPlanned (length c.resolved) c.totals [] [] c.resolved
        (first-IsRound c.resolved c.totals
          (resolve_overrides-IsDistinct given c.resolved d c.resolves) c.counts)
        (le_refl _))

  -- A plan that is returned for distinct providers places each provider that the overrides resolve to
  -- once, in a level behind all the providers of its dependencies; no provider is for `Scope`, no
  -- ordinary port has two, ports of one id are one class, and every dependency is provided or seeded.
  pub plan-IsSound :
      (given : List (Provider V E)) (seed_keys : List String) (levels : List (List (Provider V E)))
      → IsDistinct given
      → plan given seed_keys ≡ ok levels
      → (resolved : List (Provider V E)) × (resolve_overrides given ≡ ok resolved)
        × IsSound resolved seed_keys levels
  unfolding count
  plan-IsSound given seed_keys levels d h =
      let c = IsChecked-of_ok given seed_keys levels h in
      let planned = planned_of_checked d c in
      (
        c.resolved,
        c.resolves,
        record {
          once = planned.0;
          ordered = planned.2;
          unique = count_providers-IsUnique [] c.resolved [] c.totals c.counts count_of-nil;
          one_class = note_ports-HasOneClass (named_ports c.resolved) [] c.noted c.notes;
          supplied =
              check_all_deps-IsSupplied seed_keys c.resolved c.resolved c.totals c.counts
                c.supplies;
        },
      )

  -- A refusal that is not a check's comes from the rounds, after every check has passed.
  IsChecked-of_looping :
      (given : List (Provider V E)) (seed_keys : List String) (e : WiringDefect)
      → plan given seed_keys ≡ fail e
      → is_looping e ≡ true
      → IsChecked given seed_keys (fail e)
  unfolding plan
  IsChecked-of_looping given seed_keys e h loops =
      elim (>>=-eq-fail (resolve_overrides given) _ h) [
        | inl f ↦ cc (resolve_overrides-not_looping given e f)
        | inr (resolved, e₁, h₁) ↦ elim (>>=-eq-fail (count_providers [] resolved) _ h₁) [
          | inl f ↦ cc (count_providers-not_looping [] resolved e f)
          | inr (totals, e₂, h₂) ↦ elim (>>=-eq-fail (note_ports (named_ports resolved) []) _ h₂) [
            | inl f ↦ cc (note_ports-not_looping (named_ports resolved) [] e f)
            | inr (noted, e₃, h₃) ↦
                elim (>>=-eq-fail (check_all_deps totals seed_keys resolved) _ h₃) [
                  | inl f ↦ cc (check_all_deps-not_looping totals seed_keys resolved e f)
                  | inr (_, e₄, h₄) ↦ record {
                    resolved = resolved;
                    totals = totals;
                    noted = noted;
                    resolves = e₁;
                    counts = e₂;
                    notes = e₃;
                    supplies = e₄;
                    returns = h₄;
                  }
                ]
          ]
        ]
      ]

  -- A refusal for a cycle names providers that the overrides resolve to, at least one, each of which
  -- depends on a port with a provider among those named.
  pub plan-IsStuck :
      (given : List (Provider V E)) (seed_keys ids : List String)
      → IsDistinct given
      → plan given seed_keys ≡ fail (cycle ids)
      → (resolved : List (Provider V E)) × (resolve_overrides given ≡ ok resolved)
        × IsStuck resolved ids
  plan-IsStuck given seed_keys ids d h =
      let c = IsChecked-of_looping given seed_keys (cycle ids) h refl in
      (c.resolved, c.resolves, planned_of_checked d c)

  -- The rounds end for distinct providers: with one for each, `plan` returns a plan or a real refusal.
  pub plan-ne-unfinished :
      (given : List (Provider V E)) (seed_keys : List String)
      → IsDistinct given
      → plan given seed_keys ≢ fail unfinished
  plan-ne-unfinished given seed_keys d h =
      planned_of_checked d (IsChecked-of_looping given seed_keys unfinished h refl)
