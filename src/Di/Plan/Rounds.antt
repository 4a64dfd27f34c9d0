-- ===== src/Di/Plan/Rounds.antt =====
-- One round of the planner's loop: what it places leaves exactly the rest, and the loop ends.
use btravstack.Common.{
  ℕ, zero, suc, ◌+◌, ◌≤◌, ◌≡◌, ◌≢◌, refl, sym, ap, String, Bool, false, not, ◌⊎◌, inl, inr, List,
  [], ◌∷◌, ◌++◌, Result, ok, fail, ◌>>=◌, nat_eq, map, keep, elem, elem-append, arith, Bool-cases,
  List-cases, beq_refl, All, length, length-keep, subst, keep-true, keep-false,
}
use btravstack.Di.{Provider, WiringDefect, cycle}
use btravstack.Di.Flatten.{id_of, refs, IsDistinct}
use btravstack.Di.Plan.{count_of, is_ready, bump_all, place, rounds}
use btravstack.Di.Plan.Counts.{count, IsPositive, count_of-bump_all, count-keep}

module _ {V E : Type 0} where
  -- None of the providers has been placed.
  abbrev pub IsFresh : List ℕ → List (Provider V E) → Type 0
  IsFresh placed = All (λ p. elem p.ref placed ≡ false)

  elem-refs-keep :
      (a : ℕ) (f : Provider V E → Bool) (xs : List (Provider V E))
      → elem a (refs xs) ≡ false
      → elem a (refs (keep f xs)) ≡ false
  elem-refs-keep a f [] h = refl
  elem-refs-keep a f (x ∷ xs) h = ground (arith, elem-refs-keep a f xs)

  pub keep-IsDistinct :
      (f : Provider V E → Bool) (xs : List (Provider V E)) → IsDistinct xs → IsDistinct (keep f xs)
  keep-IsDistinct f [] h = tt
  keep-IsDistinct f (x ∷ xs) h = ground (arith, keep-IsDistinct f xs, elem-refs-keep x.ref f xs)

  All-elem-cons :
      (f : Provider V E → Bool) (r : ℕ) (rs : List ℕ) (xs : List (Provider V E))
      → elem r (refs xs) ≡ false
      → All (λ p. elem p.ref rs ≡ f p) xs
      → All (λ p. elem p.ref (r ∷ rs) ≡ f p) xs
  All-elem-cons f r rs [] h k = tt
  All-elem-cons f r rs (x ∷ xs) h (e, k) = (
    ground (arith, nat_eq.beq_iff r x.ref, nat_eq.beq_iff x.ref r),
    All-elem-cons f r rs xs (ground arith) k,
  )

  -- A provider is among the kept ones exactly if it passes the test.
  elem-keep :
      (f : Provider V E → Bool) (xs : List (Provider V E))
      → IsDistinct xs
      → All (λ p. elem p.ref (refs (keep f xs)) ≡ f p) xs
  elem-keep f [] d = tt
  elem-keep f (x ∷ xs) (new, d) = elim (Bool-cases (f x)) [
    | inl h ↦
        subst (λ l. All (λ p. elem p.ref (refs l) ≡ f p) (x ∷ xs)) (sym (keep-true f x xs h))
          (
            rw (beq_refl x.ref, h) refl,
            All-elem-cons f x.ref (refs (keep f xs)) xs new (elem-keep f xs d),
          )
    | inr h ↦
        subst (λ l. All (λ p. elem p.ref (refs l) ≡ f p) (x ∷ xs)) (sym (keep-false f x xs h))
          (rw h (elem-refs-keep x.ref f xs new), elem-keep f xs d)
  ]

  All-elem-append :
      (f : Provider V E → Bool) (rs placed : List ℕ) (xs : List (Provider V E))
      → All (λ p. elem p.ref rs ≡ f p) xs
      → IsFresh placed xs
      → All (λ p. elem p.ref (rs ++ placed) ≡ f p) xs
  All-elem-append f rs placed [] h k = tt
  All-elem-append f rs placed (x ∷ xs) (e, h) (n, k) =
      (ground (arith, elem-append x.ref rs placed), All-elem-append f rs placed xs h k)

  keep-of_elem :
      (f : Provider V E → Bool) (s : List ℕ) (xs : List (Provider V E))
      → All (λ p. elem p.ref s ≡ f p) xs
      → keep (λ p. not (elem p.ref s)) xs ≡ keep (λ p. not (f p)) xs
  keep-of_elem f s [] h = refl
  keep-of_elem f s (x ∷ xs) (e, h) = rw (e, keep-of_elem f s xs h)

  -- Taking out what has been placed is taking out what was ready.
  pub keep-not_placed :
      (f : Provider V E → Bool) (placed : List ℕ) (xs : List (Provider V E))
      → IsDistinct xs
      → IsFresh placed xs
      → keep (λ p. not (elem p.ref (refs (keep f xs) ++ placed))) xs ≡ keep (λ p. not (f p)) xs
  keep-not_placed f placed xs d fresh =
      keep-of_elem f (refs (keep f xs) ++ placed) xs
        (All-elem-append f (refs (keep f xs)) placed xs (elem-keep f xs d) fresh)

  -- What is left is still unplaced.
  pub keep-IsFresh :
      (s : List ℕ) (xs : List (Provider V E)) → IsFresh s (keep (λ p. not (elem p.ref s)) xs)
  keep-IsFresh s [] = tt
  keep-IsFresh s (x ∷ xs) = ground (arith, keep-IsFresh s xs)

  pub nil-IsFresh : (xs : List (Provider V E)) → IsFresh [] xs
  nil-IsFresh [] = tt
  nil-IsFresh (x ∷ xs) = (refl, nil-IsFresh xs)

  -- What holds before each round: the two maps count the placed providers and all of them, and
  -- those that are left are distinct and unplaced.
  pub record IsRound (totals counts : List (String × ℕ)) (placed : List ℕ)
      (xs : List (Provider V E)) : Type 0 where
    pub distinct : IsDistinct xs
    pub fresh : IsFresh placed xs
    pub positive : IsPositive totals
    pub counted : (id : String) → count_of id totals ≡ count_of id counts + count id xs

  module _ (totals counts : List (String × ℕ)) (placed : List ℕ) (xs : List (Provider V E)) where
    abbrev pub ready : List (Provider V E)
    ready = keep (is_ready totals counts) xs

    abbrev pub left : List (Provider V E)
    left = keep (λ q. not (elem q.ref (refs ready ++ placed))) xs

    abbrev pub unready : List (Provider V E)
    unready = keep (λ q. not (is_ready totals counts q)) xs

  module _ {totals counts : List (String × ℕ)} {placed : List ℕ} {xs : List (Provider V E)}
      (inv : IsRound totals counts placed xs) where
    pub left-eq-unready : left totals counts placed xs ≡ unready totals counts placed xs
    left-eq-unready = keep-not_placed (is_ready totals counts) placed xs inv.distinct inv.fresh

    pub next-IsRound :
        IsRound totals
          (bump_all (ready totals counts placed xs) counts)
          (refs (ready totals counts placed xs) ++ placed)
          (left totals counts placed xs)
    next-IsRound = record {
      distinct = keep-IsDistinct _ xs inv.distinct;
      fresh = keep-IsFresh _ xs;
      positive = inv.positive;
      counted = λ id. rw left-eq-unready (
          omega (
            arith,
            inv.counted id,
            count_of-bump_all id (keep (is_ready totals counts) xs) counts,
            count-keep id (is_ready totals counts) xs,
          ));
    }

  place-cases :
      (remaining : List (Provider V E))
      (continue : List (Provider V E) → Result WiringDefect (List (List (Provider V E))))
      (level : List (Provider V E))
      → ((level ≡ []) × (place remaining continue level ≡ fail (cycle (map id_of remaining))))
        ⊎ ((level ≢ [])
            × (place remaining continue level ≡ (continue level >>= λ levels. ok (level ∷ levels))))
  unfolding place
  place-cases remaining continue [] = inl (refl, refl)
  place-cases remaining continue (r ∷ rs) = inr (λ e. cc, refl)

  -- The loop's two ends: nothing is ready, or a level is placed.
  pub rounds-cases :
      (fuel : ℕ) (totals counts : List (String × ℕ)) (placed : List ℕ) (x : Provider V E)
      (xs : List (Provider V E))
      → let all_left = x ∷ xs in
        let level = ready totals counts placed all_left in
        ((level ≡ [])
          × (rounds (suc fuel) totals counts placed all_left ≡ fail (cycle (map id_of all_left))))
        ⊎ ((level ≢ [])
            × (rounds (suc fuel) totals counts placed all_left ≡ (
                rounds fuel totals
                  (bump_all level counts)
                  (refs level ++ placed)
                  (left totals counts placed all_left)
                >>= λ levels. ok (level ∷ levels))))
  unfolding rounds
  rounds-cases fuel totals counts placed x xs =
      place-cases (x ∷ xs) _ (ready totals counts placed (x ∷ xs))

  length-left :
      {totals counts : List (String × ℕ)} {placed : List ℕ} {xs : List (Provider V E)} (n : ℕ)
      → IsRound totals counts placed xs
      → ready totals counts placed xs ≢ []
      → length xs ≤ suc n
      → length (left totals counts placed xs) ≤ n
  length-left {totals} {counts} {placed} {xs} n inv some_ready h =
      elim (List-cases (ready totals counts placed xs)) [
        | inl e ↦ absurd (some_ready e)
        | inr (y, ys, e) ↦
            rw (left-eq-unready inv)
              (omega (arith, length-keep (is_ready totals counts) xs, ap length e))
      ]

  -- What holds at the loop's ends, and is kept when a level is put in front, holds of the result.
  pub record IsRule {ℓ} (totals : List (String × ℕ))
      (Q : List (Provider V E) → Result WiringDefect (List (List (Provider V E))) → Type ℓ)
      : Type ℓ where
    pub done : Q [] (ok [])
    pub stuck :
        (counts : List (String × ℕ)) (placed : List ℕ) (xs : List (Provider V E))
        → IsRound totals counts placed xs
        → ready totals counts placed xs ≡ []
        → xs ≢ []
        → Q xs (fail (cycle (map id_of xs)))
    pub step :
        (counts : List (String × ℕ)) (placed : List ℕ) (xs : List (Provider V E))
        (r : Result WiringDefect (List (List (Provider V E))))
        → IsRound totals counts placed xs
        → Q (unready totals counts placed xs) r
        → Q xs (r >>= λ levels. ok (ready totals counts placed xs ∷ levels))

  pub rounds_ind {ℓ} :
      {totals : List (String × ℕ)}
      {Q : List (Provider V E) → Result WiringDefect (List (List (Provider V E))) → Type ℓ}
      → IsRule totals Q
      → (fuel : ℕ) (counts : List (String × ℕ)) (placed : List ℕ) (xs : List (Provider V E))
      → IsRound totals counts placed xs
      → length xs ≤ fuel
      → Q xs (rounds fuel totals counts placed xs)
  unfolding rounds
  rounds_ind rule fuel counts placed [] inv h = rule.done
  rounds_ind rule zero counts placed (x ∷ xs) inv h = absurd (omega arith)
  rounds_ind {totals} {Q} rule (suc fuel) counts placed (x ∷ xs) inv h =
      elim (rounds-cases fuel totals counts placed x xs) [
        | inl (none_ready, e) ↦
            subst (Q (x ∷ xs)) (sym e) (rule.stuck counts placed (x ∷ xs) inv none_ready (λ e'. cc))
        | inr (some_ready, e) ↦
            let level = ready totals counts placed (x ∷ xs) in
            let counts' = bump_all level counts in
            let placed' = refs level ++ placed in
            let rest = left totals counts placed (x ∷ xs) in
            let later =
              rounds_ind rule fuel counts' placed' rest (next-IsRound inv)
                (length-left fuel inv some_ready h) in
            subst (Q (x ∷ xs)) (sym e) (
              rule.step counts placed (x ∷ xs) (rounds fuel totals counts' placed' rest) inv (
                subst (λ ys. Q ys (rounds fuel totals counts' placed' rest)) (left-eq-unready inv)
                  later))
      ]
