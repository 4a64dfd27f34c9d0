-- ===== src/Contract/Pagination/Windows.antt =====
-- What a page shows of the rows that the store answered.
use btravstack.Common.{
  ℕ, suc, ◌≤◌, ◌<◌, ◌≡◌, refl, sym, ap, ◌∙◌, true, List, [], ◌∷◌, map, reverse, length, take,
  length-take, length-reverse, take_all, ltb, is_some, if◌then◌else◌, arith, Bool-cases, inl, inr,
  ltb→lt, lt→ltb, min,
}
use btravstack.Contract.Pagination.{Keyset, trim, seen_of, edge, fold_page, page, first, last}

length-map : {A B : Type 0} (f : A → B) (xs : List A) → length (map f xs) ≡ length xs
length-map f [] = refl
length-map f (x ∷ xs) = ap suc (length-map f xs)

pub trim-take : {T : Type 0} (limit : ℕ) (rows : List T) → trim limit rows ≡ take limit rows
trim-take limit rows = elim (Bool-cases (ltb limit (length rows))) [
  | inl e ↦ rw e refl
  | inr e ↦ rw e (sym (take_all limit rows (ground (arith, lt→ltb limit (length rows)))))
]

module _ {C T : Type 0} where
  seen-take :
      (k : Keyset C) (rows : List T)
      → seen_of k rows ≡ (if k.backward then reverse (take k.limit rows) else take k.limit rows)
  seen-take k rows = rw (trim-take k.limit rows) refl

  seen-length : (k : Keyset C) (rows : List T) → length (seen_of k rows) ≡ min k.limit (length rows)
  seen-length k rows = elim (Bool-cases k.backward) [
    | inl e ↦
        rw (e, trim-take k.limit rows)
          (length-reverse (take k.limit rows) ∙ length-take k.limit rows)
    | inr e ↦ rw (e, trim-take k.limit rows) (length-take k.limit rows)
  ]

  first-edge :
      (k : Keyset C) (cursor_of : T → C) (xs : List T)
      → 0 < length xs
      → is_some (edge k cursor_of (first xs)) ≡ true
  first-edge k cursor_of [] h = absurd (omega arith)
  first-edge k cursor_of (x ∷ xs) h = refl

  last-edge :
      (k : Keyset C) (cursor_of : T → C) (xs : List T)
      → 0 < length xs
      → is_some (edge k cursor_of (last xs)) ≡ true
  last-edge k cursor_of [] h = absurd (omega arith)
  last-edge k cursor_of (x ∷ []) h = refl
  last-edge k cursor_of (x ∷ y ∷ xs) h = last-edge k cursor_of (y ∷ xs) (omega arith)

  -- A page holds at most `limit` rows, the first the store answered, read in ascending order both
  -- ways; and, for a page size of one or more, it says there is a page beyond exactly if the store
  -- answered more than `limit` rows.
  pub fold_page-IsWindow :
      {U : Type 0} (k : Keyset C) (rows : List T) (cursor_of : T → C) (item : T → U)
      → let p = fold_page k rows cursor_of item in
        (p.items ≡ map item (if k.backward then reverse (take k.limit rows) else take k.limit rows))
        × (length p.items ≤ k.limit)
        × (0 < k.limit
            → (if k.backward then is_some p.previous_cursor else is_some p.next_cursor)
              ≡ ltb k.limit (length rows))
  unfolding fold_page page
  fold_page-IsWindow k rows cursor_of item = (
    ap (map item) (seen-take k rows),
    omega (
      arith,
      length-map item (seen_of k rows),
      ap length (seen-take k rows),
      length-reverse (take k.limit rows),
      length-take k.limit rows,
      seen-length k rows,
    ),
    λ positive. elim (Bool-cases k.backward) [
      | inl e ↦ ground (
        arith,
        seen-length k rows,
        first-edge k cursor_of (seen_of k rows),
        ltb→lt k.limit (length rows),
      )
      | inr e ↦ ground (
        arith,
        seen-length k rows,
        last-edge k cursor_of (seen_of k rows),
        ltb→lt k.limit (length rows),
      )
    ],
  )
