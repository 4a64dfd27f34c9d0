-- ===== src/Di/Flatten/Laws.antt =====
-- A flattened tree holds no provider twice, and every provider of the tree.
use btravstack.Common.{
  ℕ, ◌≡◌, refl, true, false, ◌||◌, inl, inr, List, [], ◌∷◌, ◌++◌, ◌==◌, nat_eq, elem, arith,
  Bool-cases, All, beq_refl,
}
use btravstack.Di.{Provider, Module, Modules, node, nil, cons}
use btravstack.Di.Flatten.{refs, add, add_all, walk, walk_imports, flatten_module, IsDistinct}

module _ {V E : Type 0} where
  elem-refs-append :
      (r : ℕ) (xs : List (Provider V E)) (p : Provider V E)
      → elem r (refs (xs ++ p ∷ [])) ≡ (elem r (refs xs) || (p.ref == r))
  elem-refs-append r [] p = ground arith
  elem-refs-append r (x ∷ xs) p = ground (arith, elem-refs-append r xs p)

  append-IsDistinct :
      (xs : List (Provider V E)) (p : Provider V E)
      → IsDistinct xs
      → elem p.ref (refs xs) ≡ false
      → IsDistinct (xs ++ p ∷ [])
  append-IsDistinct [] p d h = (refl, tt)
  append-IsDistinct (x ∷ xs) p (new, d) h = (
    ground (
      arith,
      elem-refs-append x.ref xs p,
      nat_eq.beq_iff x.ref p.ref,
      nat_eq.beq_iff p.ref x.ref,
    ),
    append-IsDistinct xs p d (ground arith),
  )

  add-IsDistinct :
      (p : Provider V E) (out : List (Provider V E)) → IsDistinct out → IsDistinct (add p out)
  unfolding add
  add-IsDistinct p out d = elim (Bool-cases (elem p.ref (refs out))) [
    | inl old ↦ rw old d
    | inr new ↦ rw new (append-IsDistinct out p d new)
  ]

  elem-add_self :
      (p : Provider V E) (out : List (Provider V E)) → elem p.ref (refs (add p out)) ≡ true
  unfolding add
  elem-add_self p out = elim (Bool-cases (elem p.ref (refs out))) [
    | inl old ↦ rw (old, old) refl
    | inr new ↦ rw (new, elem-refs-append p.ref out p, beq_refl p.ref, new) refl
  ]

  elem-add :
      (r : ℕ) (p : Provider V E) (out : List (Provider V E))
      → elem r (refs out) ≡ true
      → elem r (refs (add p out)) ≡ true
  unfolding add
  elem-add r p out h = ground (arith, elem-refs-append r out p)

  add_all-IsDistinct : (ps out : List (Provider V E)) → IsDistinct out → IsDistinct (add_all ps out)
  unfolding add_all
  add_all-IsDistinct [] out d = d
  add_all-IsDistinct (p ∷ ps) out d = add_all-IsDistinct ps (add p out) (add-IsDistinct p out d)

  elem-add_all :
      (r : ℕ) (ps out : List (Provider V E))
      → elem r (refs out) ≡ true
      → elem r (refs (add_all ps out)) ≡ true
  unfolding add_all
  elem-add_all r [] out h = h
  elem-add_all r (p ∷ ps) out h = elem-add_all r ps (add p out) (elem-add r p out h)

  All-add_all :
      (ps out : List (Provider V E)) → All (λ p. elem p.ref (refs (add_all ps out)) ≡ true) ps
  unfolding add_all
  All-add_all [] out = tt
  All-add_all (p ∷ ps) out =
      (elem-add_all p.ref ps (add p out) (elem-add_self p out), All-add_all ps (add p out))

  mutual
    unfolding walk

    walk-IsDistinct :
        (m : Module V E) (out : List (Provider V E)) → IsDistinct out → IsDistinct (walk m out)
    walk-IsDistinct (node imports provides) out d =
        add_all-IsDistinct provides (walk_imports imports out)
          (walk_imports-IsDistinct imports out d)

    walk_imports-IsDistinct :
        (ms : Modules V E) (out : List (Provider V E))
        → IsDistinct out
        → IsDistinct (walk_imports ms out)
    walk_imports-IsDistinct nil out d = d
    walk_imports-IsDistinct (cons m ms) out d =
        walk_imports-IsDistinct ms (walk m out) (walk-IsDistinct m out d)

  mutual
    unfolding walk

    elem-walk :
        (r : ℕ) (m : Module V E) (out : List (Provider V E))
        → elem r (refs out) ≡ true
        → elem r (refs (walk m out)) ≡ true
    elem-walk r (node imports provides) out h =
        elem-add_all r provides (walk_imports imports out) (elem-walk_imports r imports out h)

    elem-walk_imports :
        (r : ℕ) (ms : Modules V E) (out : List (Provider V E))
        → elem r (refs out) ≡ true
        → elem r (refs (walk_imports ms out)) ≡ true
    elem-walk_imports r nil out h = h
    elem-walk_imports r (cons m ms) out h =
        elem-walk_imports r ms (walk m out) (elem-walk r m out h)

  -- Every provider that a module or one of its imports lists is in `out`.
  mutual
    pub Holds : List (Provider V E) → Module V E → Type 0
    Holds out (node imports provides) =
        HoldsAll out imports × All (λ p. elem p.ref (refs out) ≡ true) provides

    pub HoldsAll : List (Provider V E) → Modules V E → Type 0
    HoldsAll out nil = Unit
    HoldsAll out (cons m ms) = Holds out m × HoldsAll out ms

  -- All of `out` is in `final`.
  abbrev IsWithin : List (Provider V E) → List (Provider V E) → Type 0
  IsWithin out final = (r : ℕ) → elem r (refs out) ≡ true → elem r (refs final) ≡ true

  All-IsWithin :
      (ps out final : List (Provider V E))
      → IsWithin out final
      → All (λ p. elem p.ref (refs out) ≡ true) ps
      → All (λ p. elem p.ref (refs final) ≡ true) ps
  All-IsWithin [] out final w h = tt
  All-IsWithin (p ∷ ps) out final w (q, h) = (w p.ref q, All-IsWithin ps out final w h)

  mutual
    unfolding walk Holds

    walk-Holds :
        (m : Module V E) (out final : List (Provider V E))
        → IsWithin (walk m out) final
        → Holds final m
    walk-Holds (node imports provides) out final w = (
      walk_imports-HoldsAll imports out final
          (λ r h. w r (elem-add_all r provides (walk_imports imports out) h)),
      All-IsWithin provides (add_all provides (walk_imports imports out)) final w
          (All-add_all provides (walk_imports imports out)),
    )

    walk_imports-HoldsAll :
        (ms : Modules V E) (out final : List (Provider V E))
        → IsWithin (walk_imports ms out) final
        → HoldsAll final ms
    walk_imports-HoldsAll nil out final w = tt
    walk_imports-HoldsAll (cons m ms) out final w = (
      walk-Holds m out final (λ r h. w r (elem-walk_imports r ms (walk m out) h)),
      walk_imports-HoldsAll ms (walk m out) final w,
    )

  -- Whatever the tree, also where imports meet in a diamond, flattening lists each provider object
  -- once and leaves out none that a module of the tree provides.
  pub flatten_module_lem :
      (m : Module V E) → IsDistinct (flatten_module m) × Holds (flatten_module m) m
  unfolding flatten_module
  flatten_module_lem m = (walk-IsDistinct m [] tt, walk-Holds m [] (walk m []) (λ r h. h))
