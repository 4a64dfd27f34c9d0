-- ===== src/Di/Plan/Order.antt =====
-- What a plan is: every provider once, each behind the providers of all its dependencies; and what
-- a reported cycle is.
use mathlib.Core.List.{Perm, append_assoc, append-nil, perm_append_comm}
use mathlib.Core.List.Perm
use btravstack.Common.{
  ◌≢◌, ℕ, ◌≤◌, ◌≡◌, refl, ◌∙◌, String, Bool, true, false, inl, inr, List, [], ◌∷◌, ◌++◌, flatten,
  Result, any, ltb, lt→ltb, and-true, ok, fail, ◌>>=◌, nat_eq, map, all, keep, arith, Bool-cases,
  All, All-keep_test, All-map, length, keep-perm,
}
use btravstack.Di.{Port, Provider, WiringDefect, cycle}
use btravstack.Di.Flatten.{id_of}
use btravstack.Di.Plan.{is_satisfied, is_ready, rounds}
use btravstack.Di.Plan.Counts.{
  count, count-append, count-keep, is_satisfied-left, not-is_satisfied-left,
}
use btravstack.Di.Plan.Rounds.{IsRound, ready, unready, rounds_ind}

module _ {V E : Type 0} where
  -- No provider for a port that `p` depends on is among `later`.
  abbrev pub IsFree : List (Provider V E) → Provider V E → Type 0
  IsFree later p = All (λ d. count d.port_id later ≡ 0) p.deps

  -- In each level, every dependency's providers all stand in earlier levels.
  abbrev pub IsOrdered : List (List (Provider V E)) → Type 0
  IsOrdered [] = Unit
  IsOrdered (level ∷ levels) = All (IsFree (level ++ flatten levels)) level × IsOrdered levels

  -- `p` depends on a port of which a provider is itself among the stuck ones.
  abbrev pub IsWaiting : List (Provider V E) → Provider V E → Type 0
  IsWaiting stuck p = any (λ d. ltb 0 (count d.port_id stuck)) p.deps ≡ true

  -- What a reported cycle names: at least one of the providers, each waiting for one of them.
  pub record IsStuck (xs : List (Provider V E)) (ids : List String) : Type 0 where
    pub stuck : List (Provider V E)
    pub others : List (Provider V E)
    pub some_stuck : stuck ≢ []
    pub named : ids ≡ map id_of stuck
    pub parts : Perm (stuck ++ others) xs
    pub waiting : All (IsWaiting stuck) stuck

  abbrev pub IsPlanned :
      List (Provider V E) → Result WiringDefect (List (List (Provider V E))) → Type 0
  IsPlanned xs (ok levels) =
      Perm (flatten levels) xs
      × ((id : String) → count id (flatten levels) ≡ count id xs)
      × IsOrdered levels
  IsPlanned xs (fail (cycle ids)) = IsStuck xs ids
  IsPlanned xs (fail _) = ⊥

  all_satisfied :
      {totals counts : List (String × ℕ)} {placed : List ℕ} {xs : List (Provider V E)}
      → IsRound totals counts placed xs
      → (ports : List Port) → all (is_satisfied totals counts) ports ≡ true
      → All (λ d. count d.port_id xs ≡ 0) ports
  all_satisfied {totals} {counts} {xs} inv [] h = tt
  all_satisfied {totals} {counts} {xs} inv (d ∷ ds) h =
      let (here, later) = and-true _ _ h in
      (
        is_satisfied-left totals counts d (count d.port_id xs) (inv.counted d.port_id) here,
        all_satisfied inv ds later,
      )

  not_all_satisfied :
      {totals counts : List (String × ℕ)} {placed : List ℕ} {xs : List (Provider V E)}
      → IsRound totals counts placed xs
      → (ports : List Port) → all (is_satisfied totals counts) ports ≡ false
      → any (λ d. ltb 0 (count d.port_id xs)) ports ≡ true
  not_all_satisfied inv [] h = cc
  not_all_satisfied {totals} {counts} {xs} inv (d ∷ ds) h =
      elim (Bool-cases (is_satisfied totals counts d)) [
        | inl yes_d ↦ rw (not_all_satisfied inv ds (ground arith)) (ground arith)
        | inr no_d ↦
            rw
              (lt→ltb 0 _ (
                not-is_satisfied-left totals counts d (count d.port_id xs) inv.positive
                  (inv.counted d.port_id) no_d))
              refl
      ]

  All-waiting :
      (f : Provider V E → Bool) (P : Provider V E → Type 0) (xs : List (Provider V E))
      → keep f xs ≡ []
      → ((x : Provider V E) → f x ≡ false → P x)
      → All P xs
  All-waiting f P [] e h = tt
  All-waiting f P (x ∷ xs) e h = elim (Bool-cases (f x)) [
    | inl p ↦ ground arith
    | inr p ↦ (h x p, All-waiting f P xs (ground arith) h)
  ]

  done : IsPlanned [] (ok [])
  unfolding count flatten
  done = (Perm.refl [], λ id. refl, tt)

  module _ (totals counts : List (String × ℕ)) (placed : List ℕ) (xs : List (Provider V E))
      (inv : IsRound totals counts placed xs) where
    stuck :
        ready totals counts placed xs ≡ [] → xs ≢ [] → IsPlanned xs (fail (cycle (map id_of xs)))
    stuck none_ready some_left = record {
      some_stuck = some_left;
      stuck = xs;
      others = [];
      named = refl;
      parts = rw append-nil (Perm.refl xs);
      waiting =
          All-waiting (is_ready totals counts) (IsWaiting xs) xs none_ready
            (λ p. not_all_satisfied inv p.deps);
    }

    step_ok :
        (levels : List (List (Provider V E)))
        → IsPlanned (unready totals counts placed xs) (ok levels)
        → IsPlanned xs (ok (ready totals counts placed xs ∷ levels))
    unfolding flatten
    step_ok levels (perm, counts_same, ordered) = (
      Perm.trans (Perm.append (Perm.refl _) perm) (keep-perm (is_ready totals counts) xs),
      same,
      (
        All-keep_test _ (is_ready totals counts) xs
            (λ p is_rdy. counts_left p.deps (all_satisfied inv p.deps is_rdy)),
        ordered,
      ),
    )
      where
        same :
            (id : String) → count id (ready totals counts placed xs ++ flatten levels) ≡ count id xs
        same id = omega (
          arith,
          count-append id (ready totals counts placed xs) (flatten levels),
          counts_same id,
          count-keep id (is_ready totals counts) xs,
        )

        counts_left :
            (ports : List Port)
            → All (λ d. count d.port_id xs ≡ 0) ports
            → All (λ d. count d.port_id (ready totals counts placed xs ++ flatten levels) ≡ 0) ports
        counts_left ports = All-map (λ d e. same d.port_id ∙ e) ports

    step-IsStuck :
        (ids : List String) → IsStuck (unready totals counts placed xs) ids → IsStuck xs ids
    step-IsStuck ids s = record {
      stuck = s.stuck;
      others = s.others ++ ready totals counts placed xs;
      some_stuck = s.some_stuck;
      named = s.named;
      parts = rw (← append_assoc) (
          Perm.trans (Perm.append s.parts (Perm.refl _)) (
            Perm.trans
              (perm_append_comm (unready totals counts placed xs) (ready totals counts placed xs))
              (keep-perm (is_ready totals counts) xs)));
      waiting = s.waiting;
    }

  step :
      (totals counts : List (String × ℕ)) (placed : List ℕ) (xs : List (Provider V E))
      (r : Result WiringDefect (List (List (Provider V E))))
      → IsRound totals counts placed xs
      → IsPlanned (unready totals counts placed xs) r
      → IsPlanned xs (r >>= λ levels. ok (ready totals counts placed xs ∷ levels))
  step totals counts placed xs (ok levels) inv p = step_ok totals counts placed xs inv levels p
  step totals counts placed xs (fail (cycle ids)) inv p =
      step-IsStuck totals counts placed xs inv ids p
  step totals counts placed xs (fail _) inv p = absurd p

  pub rounds-IsPlanned :
      (fuel : ℕ) (totals counts : List (String × ℕ)) (placed : List ℕ) (xs : List (Provider V E))
      → IsRound totals counts placed xs
      → length xs ≤ fuel
      → IsPlanned xs (rounds fuel totals counts placed xs)
  rounds-IsPlanned fuel totals counts placed xs inv h =
      rounds_ind {Q = IsPlanned} (record { done = done; stuck = stuck totals; step = step totals })
        fuel counts placed xs inv h
