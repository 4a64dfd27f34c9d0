-- ===== src/Entity/Aggregate/Folds.antt =====
-- Folding events in parts, and where the first event of a kind stands in a list of them.
use btravstack.Common.{
  ◌≡◌, refl, ap, ℕ, suc, ◌+◌, String, Bool, true, false, Option, none, some, List, [], ◌∷◌, ◌++◌,
  get, has, any, All, length, is_some, arith, if◌then◌else◌, string_eq, Bool-cases, Option-cases,
  Result, ok, ok-inj, >>=-eq-ok, inl, inr,
}
use btravstack.Entity.{InvalidEntity, Combine}
use btravstack.Entity.Aggregate.{Aggregate, find_index, cut_short, handled, fold}
use btravstack.Entity.Issues.{Issue}

abbrev pub shifted : ℕ → Option ℕ → Option ℕ
shifted n none = none
shifted n (some m) = some (n + m)

module _ {ℓ} {A : Type ℓ} (p : A → Bool) where
  abbrev first_of : Bool → Option ℕ → Option ℕ
  first_of here later = if here then some 0 else elim later [ none ↦ none | some n ↦ some (suc n) ]

  first_of-none :
      (here : Bool) (later : Option ℕ)
      → first_of here later ≡ none
      → (here ≡ false) × (later ≡ none)
  first_of-none true later e = absurd (cc)
  first_of-none false none e = (refl, refl)
  first_of-none false (some n) e = absurd (cc)

  pub find_index-append :
      (xs ys : List A)
      → find_index p xs ≡ none
      → find_index p (xs ++ ys) ≡ shifted (length xs) (find_index p ys)
  unfolding find_index
  find_index-append [] ys absent = elim (Option-cases (find_index p ys)) [
    | inl e ↦ rw e refl
    | inr (n, e) ↦ rw e (ap some (omega arith))
  ]
  find_index-append (x ∷ xs) ys absent =
      let (here, later) = first_of-none (p x) (find_index p xs) absent in
      rw (here, find_index-append xs ys later)
        (elim (Option-cases (find_index p ys)) [
          | inl e ↦ rw e refl
          | inr (n, e) ↦ rw e (ap some (omega arith))
        ])

  pub any-find_index : (xs : List A) → any p xs ≡ is_some (find_index p xs)
  unfolding find_index
  any-find_index [] = refl
  any-find_index (x ∷ xs) = elim (Bool-cases (p x)) [
    | inl e ↦ rw e refl
    | inr e ↦
        rw (e, any-find_index xs)
          (elim (Option-cases (find_index p xs)) [ inl f ↦ rw f refl | inr (n, f) ↦ rw f refl ])
  ]

  pub find_index-none : (xs : List A) → All (λ x. p x ≡ false) xs → find_index p xs ≡ none
  unfolding find_index
  find_index-none [] h = refl
  find_index-none (x ∷ xs) (here, later) = rw (here, find_index-none xs later) refl

-- What is not cut short behind a list without an end is not cut short as a whole.
pub cut_short-shifted :
    (n count : ℕ) (end : Option ℕ)
    → cut_short end count ≡ false
    → cut_short (shifted n end) (n + count) ≡ false
unfolding cut_short
cut_short-shifted n count none h = refl
cut_short-shifted n count (some m) h = ground (arith, h)

pub is_some-shifted : (n : ℕ) (end : Option ℕ) → is_some (shifted n end) ≡ is_some end
is_some-shifted n none = refl
is_some-shifted n (some m) = refl

module _ {Raw Ev V : Type 0} (aggregate : Aggregate Raw Ev V) (all_events : Combine (List Issue) Ev)
    (all_fields : Combine InvalidEntity (String × Option V)) where
  pub fold-append :
      (first : List (String × Option V)) (xs ys : List Ev) {middle : List (String × Option V)}
      → fold aggregate all_events all_fields first xs ≡ ok middle
      → fold aggregate all_events all_fields first (xs ++ ys)
        ≡ fold aggregate all_events all_fields middle ys
  unfolding fold
  fold-append first [] ys done = ap (λ r. fold aggregate all_events all_fields r ys) (ok-inj done)
  fold-append first (x ∷ xs) ys done =
      let (next, e, later) =
        >>=-eq-ok
          (handled aggregate all_events all_fields (get (aggregate.kind x) aggregate.evolve) first
            x)
          _ done in
      rw e (fold-append next xs ys later)

  -- Events that fold have folders.
  pub fold-has :
      (first : List (String × Option V)) (xs : List Ev) {last : List (String × Option V)}
      → fold aggregate all_events all_fields first xs ≡ ok last
      → All (λ x. has (aggregate.kind x) aggregate.evolve ≡ true) xs
  unfolding fold handled
  fold-has first [] done = tt
  fold-has first (x ∷ xs) done =
      let (next, e, later) =
        >>=-eq-ok
          (handled aggregate all_events all_fields (get (aggregate.kind x) aggregate.evolve) first
            x)
          _ done in
      (handled-has (get (aggregate.kind x) aggregate.evolve) first x e, fold-has next xs later)
    where
      handled-has :
          (handler : Option (List (String × Option V) → Ev → Result ℕ (List (String × Option V))))
          (current : List (String × Option V)) (event : Ev) {next : List (String × Option V)}
          → handled aggregate all_events all_fields handler current event ≡ ok next
          → is_some handler ≡ true
      handled-has none current event e = absurd (cc)
      handled-has (some h) current event e = refl
