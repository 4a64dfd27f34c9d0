-- ===== src/Contract/Pagination/Walk.antt =====
-- Paging through a whole listing, from the first page, by the cursors that the pages hand out.
use mathlib.Core.List.{append_assoc}
use btravstack.Common.{
  ℕ, zero, suc, ◌<◌, ◌≡◌, refl, sym, ap, ◌∙◌, subst, false, Option, none, some, List, [], ◌∷◌, ◌++◌,
  map, length, take, length-take, length-append, take_all, ltb, if◌then◌else◌, arith, Bool-cases,
  inl, inr, ltb→lt, lt→ltb,
}
use btravstack.Contract.Pagination.{
  Text, text_beq, Page, PageRequest, keyset, take_of, trim, edge, fold_page, page, last,
}
use btravstack.Contract.Pagination.Cursors.{text_beq_refl}
use btravstack.Contract.Pagination.Windows.{trim-take}

abbrev pub forward : ℕ → Option Text → PageRequest
forward limit cursor = record { limit = limit; after = cursor; before = none; sort = none }

abbrev pub behind : {U : Type 0} → List U → Option (List U) → Option (List U)
behind items none = none
behind items (some others) = some (items ++ others)

abbrev pub follow : {U : Type 0} → (Option Text → Option (List U)) → Page U → Option (List U)
follow rest p = elim p.next_cursor [ none ↦ some p.items | some c ↦ behind p.items (rest (some c)) ]

module _ {T : Type 0} (cursor_of : T → Text) where
  -- What a store answers to a forward seek: the rows behind the one with the cursor, or all.
  pub rows_behind : Text → List T → List T
  rows_behind c [] = []
  rows_behind c (row ∷ rows) =
      let rest = rows_behind c rows in if text_beq (cursor_of row) c then rows else rest

  abbrev pub seek : Option Text → List T → List T
  seek none rows = rows
  seek (some c) rows = rows_behind c rows

  -- The page that an adapter answers a forward request with.
  abbrev pub page_at : {U : Type 0} → (T → U) → List T → ℕ → Option Text → Page U
  page_at item rows limit cursor =
      let k = keyset (forward limit cursor) in
      fold_page k (take (take_of k) (seek k.cursor rows)) cursor_of item

  -- A caller that follows the next cursor of each page, until a page has none; `none`
  -- where that takes more pages than the fuel.
  pub walk : {U : Type 0} → (T → U) → List T → ℕ → ℕ → Option Text → Option (List U)
  walk item rows limit zero cursor = none
  walk item rows limit (suc fuel) cursor =
      follow (walk item rows limit fuel) (page_at item rows limit cursor)

  abbrev Differs : Text → List T → Type 0
  Differs c [] = Unit
  Differs c (r ∷ rs) = (text_beq c (cursor_of r) ≡ false) × Differs c rs

  -- No row has the cursor of a row behind it.
  abbrev pub IsDistinguished : List T → Type 0
  IsDistinguished [] = Unit
  IsDistinguished (row ∷ rows) = Differs (cursor_of row) rows × IsDistinguished rows

  Differs-middle :
      (c : Text) (pre : List T) (x : T) (post : List T)
      → Differs c (pre ++ x ∷ post)
      → text_beq c (cursor_of x) ≡ false
  Differs-middle c [] x post (here, _) = here
  Differs-middle c (r ∷ pre) x post (_, later) = Differs-middle c pre x post later

  rows_behind-middle :
      (pre : List T) (x : T) (post : List T)
      → IsDistinguished (pre ++ x ∷ post)
      → rows_behind (cursor_of x) (pre ++ x ∷ post) ≡ post
  unfolding rows_behind
  rows_behind-middle [] x post h = rw (text_beq_refl (cursor_of x)) refl
  rows_behind-middle (r ∷ pre) x post (here, later) =
      rw (Differs-middle (cursor_of r) pre x post here) (rows_behind-middle pre x post later)

last-snoc : {T : Type 0} (xs : List T) (x : T) → last (xs ++ x ∷ []) ≡ some x
last-snoc [] x = refl
last-snoc (y ∷ []) x = refl
last-snoc (y ∷ z ∷ xs) x = last-snoc (z ∷ xs) x

take-take : {T : Type 0} (n : ℕ) (xs : List T) → take n (take (suc n) xs) ≡ take n xs
take-take zero xs = refl
take-take (suc n) [] = refl
take-take (suc n) (x ∷ xs) = ap (◌∷◌ x) (take-take n xs)

-- A list that is longer than `n`, cut behind its row `n`.
record Cut {T : Type 0} (n : ℕ) (xs : List T) : Type 0 where
  pre : List T
  row : T
  post : List T
  whole : xs ≡ pre ++ row ∷ post
  taken : take (suc n) xs ≡ pre ++ row ∷ []

cut : {T : Type 0} (n : ℕ) (xs : List T) → n < length xs → Cut n xs
cut n [] h = absurd (omega arith)
cut zero (x ∷ xs) h = record { pre = []; row = x; post = xs; whole = refl; taken = refl }
cut (suc n) (x ∷ xs) h =
    let c = cut n xs (omega arith) in
    record {
      pre = x ∷ c.pre;
      row = c.row;
      post = c.post;
      whole = ap (◌∷◌ x) c.whole;
      taken = ap (◌∷◌ x) c.taken;
    }

map-append' : {T U : Type 0} (f : T → U) (xs ys : List T) → map f (xs ++ ys) ≡ map f xs ++ map f ys
map-append' f [] ys = refl
map-append' f (x ∷ xs) ys = ap (◌∷◌ (f x)) (map-append' f xs ys)

follow-eq :
    {U : Type 0} (rest : Option Text → Option (List U)) (p : Page U) (c : Text)
    → p.next_cursor ≡ some c
    → follow rest p ≡ behind p.items (rest (some c))
follow-eq rest p c e = rw e refl

follow-none :
    {U : Type 0} (rest : Option Text → Option (List U)) (p : Page U)
    → p.next_cursor ≡ none
    → follow rest p ≡ some p.items
follow-none rest p e = rw e refl

module _ {T U : Type 0} (cursor_of : T → Text) (item : T → U) where
  minted : Option T → Option Text
  minted none = none
  minted (some row) = some (cursor_of row)

  edge-minted :
      (limit : ℕ) (cursor : Option Text) (o : Option T)
      → edge (keyset (forward limit cursor)) cursor_of o ≡ minted o
  unfolding keyset minted
  edge-minted limit cursor none = refl
  edge-minted limit cursor (some row) = refl

  over-fetch :
      (limit : ℕ) (rest : List T)
      → ltb limit (length (take (suc limit) rest)) ≡ ltb limit (length rest)
  over-fetch limit rest = ground (arith, length-take (suc limit) rest)

  page_at-eq :
      (rows rest : List T) (limit : ℕ) (cursor : Option Text)
      → seek cursor_of cursor rows ≡ rest
      → ((page_at cursor_of item rows limit cursor).items ≡ map item (take limit rest))
        × ((page_at cursor_of item rows limit cursor).next_cursor
            ≡ (if ltb limit (length rest) then minted (last (take limit rest)) else none))
  unfolding fold_page page keyset minted
  page_at-eq rows rest limit cursor e = (
    ap (map item) (trimmed ∙ ap (take limit) e),
    λ i.
        if (ap (λ rs. ltb limit (length (take (suc limit) rs))) e ∙ over-fetch limit rest) i
        then (edge-minted limit cursor
                (last (trim limit (take (suc limit) (seek cursor_of cursor rows))))
              ∙ ap (λ rs. minted (last rs)) (trimmed ∙ ap (take limit) e))
            i
        else none,
  )
    where
      trimmed :
          trim limit (take (suc limit) (seek cursor_of cursor rows))
          ≡ take limit (seek cursor_of cursor rows)
      trimmed =
          trim-take limit (take (suc limit) (seek cursor_of cursor rows))
          ∙ take-take limit (seek cursor_of cursor rows)

  walk-rest :
      (rows seen rest : List T) (limit fuel : ℕ) (cursor : Option Text)
      → IsDistinguished cursor_of rows
      → rows ≡ seen ++ rest
      → seek cursor_of cursor rows ≡ rest
      → length rest < fuel
      → walk cursor_of item rows (suc limit) fuel cursor ≡ some (map item rest)
  unfolding walk minted
  walk-rest rows seen rest limit zero cursor d e sought h = absurd (omega arith)
  walk-rest rows seen rest limit (suc fuel) cursor d e sought h =
      let (items, next) = page_at-eq rows rest (suc limit) cursor sought in
      elim (Bool-cases (ltb (suc limit) (length rest))) [
        | inl more ↦
            let c = cut limit rest (omega (arith, ltb→lt (suc limit) (length rest) more)) in
            follow-eq (walk cursor_of item rows (suc limit) fuel)
              (page_at cursor_of item rows (suc limit) cursor) (cursor_of c.row)
              (next
                ∙ rw more (ap (λ rs. minted (last rs)) c.taken ∙ ap minted (last-snoc c.pre c.row)))
            ∙ ap
                (λ us.
                  behind us (walk cursor_of item rows (suc limit) fuel (some (cursor_of c.row))))
                (items ∙ ap (map item) c.taken)
            ∙ ap (behind (map item (c.pre ++ c.row ∷ []))) (
                walk-rest rows (seen ++ (c.pre ++ c.row ∷ [])) c.post limit fuel
                  (some (cursor_of c.row)) d
                  (e
                    ∙ ap (◌++◌ seen) (whole_again c)
                    ∙ sym (append_assoc seen (c.pre ++ c.row ∷ []) c.post))
                  (sought_next c)
                  (omega (
                    arith,
                    h,
                    ap (λ (rs : List T). length rs) c.whole,
                    length-append c.pre (c.row ∷ c.post),
                  )))
            ∙ ap some (
                sym (map-append' item (c.pre ++ c.row ∷ []) c.post)
                ∙ ap (map item) (sym (whole_again c)))
        | inr last_page ↦
            follow-none (walk cursor_of item rows (suc limit) fuel)
              (page_at cursor_of item rows (suc limit) cursor) (next ∙ rw last_page refl)
            ∙ ap some (
                items
                ∙ ap (map item)
                    (take_all (suc limit) rest (ground (arith, lt→ltb (suc limit) (length rest)))))
      ]
    where
      cut_whole : (c : Cut limit rest) → rows ≡ (seen ++ c.pre) ++ c.row ∷ c.post
      cut_whole c = e ∙ ap (◌++◌ seen) c.whole ∙ sym (append_assoc seen c.pre (c.row ∷ c.post))

      sought_next : (c : Cut limit rest) → rows_behind cursor_of (cursor_of c.row) rows ≡ c.post
      sought_next c =
          ap (rows_behind cursor_of (cursor_of c.row)) (cut_whole c)
          ∙ rows_behind-middle cursor_of (seen ++ c.pre) c.row c.post
              (subst (IsDistinguished cursor_of) (cut_whole c) d)

      whole_again : (c : Cut limit rest) → rest ≡ (c.pre ++ c.row ∷ []) ++ c.post
      whole_again c = c.whole ∙ sym (append_assoc c.pre (c.row ∷ []) c.post)

  -- A caller that starts at the first page and follows the next cursors, with a page size of one
  -- or more and rows whose cursors differ, comes to a page without a next cursor within as many pages
  -- as there are rows and one, and is then shown every row of the listing once and in order.
  pub walk-eq :
      (rows : List T) (limit : ℕ)
      → IsDistinguished cursor_of rows
      → walk cursor_of item rows (suc limit) (suc (length rows)) none ≡ some (map item rows)
  walk-eq rows limit d =
      walk-rest rows [] rows limit (suc (length rows)) none d refl refl (omega arith)
