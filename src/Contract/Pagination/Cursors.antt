-- ===== src/Contract/Pagination/Cursors.antt =====
-- Sorted cursors: `headOf`, `shapeOf` and the sorted branch of `keyset`.
use btravstack.Common.{
  ℕ, ◌≡◌, refl, sym, ap, ◌∙◌, Bool, true, false, ◌||◌, Option, none, some, List, [], ◌∷◌, ◌++◌,
  elem, elem-append, ◌⊎◌, ◌≢◌, is_some, if◌then◌else◌, ◌==◌, nat_eq, Result, ok, fail, Bool-cases,
  inl, inr, arith,
}
use btravstack.Contract.Pagination.{
  Text, text_beq, Direction, asc, desc, Sort, PageRequest, Keyset, given_cursor,
}

-- JavaScript's `encodeURIComponent` and `decodeURIComponent`; `none` is the throw. What the first
-- returns has neither `|` nor `:`, and the second undoes it.
pub record Uri : Type 0 where
  pub encode : Text → Text
  pub decode : Text → Option Text
  pub decode-encode : (t : Text) → decode (encode t) ≡ some t
  pub encode-plain : (t : Text) → (elem 124 (encode t) ≡ false) × (elem 58 (encode t) ≡ false)

abbrev direction_text : Direction → Text
direction_text asc = 97 ∷ 115 ∷ 99 ∷ []
direction_text desc = 100 ∷ 101 ∷ 115 ∷ 99 ∷ []

-- `text.split(separator)`: the part up to the separator is put before the parts of the rest.
abbrev grow_first : ℕ → List Text → List Text
grow_first c [] = (c ∷ []) ∷ []
grow_first c (part ∷ parts) = (c ∷ part) ∷ parts

pub split : ℕ → Text → List Text
split separator [] = [] ∷ []
split separator (c ∷ text) =
    let rest = split separator text in if c == separator then [] ∷ rest else grow_first c rest

-- The text before the first separator, and the text after it.
pub break_at : ℕ → Text → Option (Text × Text)
break_at separator [] = none
break_at separator (c ∷ text) =
    let rest = break_at separator text in
    if c == separator
    then some ([], text)
    else elim rest [ none ↦ none | some (l, r) ↦ some (c ∷ l, r) ]

-- `HEAD_PATTERN` on a head that is broken at its first colon, with the part before it.
abbrev head_parts : Option (Text × Text) → Option Text
head_parts none = none
head_parts (some (l, r)) =
    if text_beq r (direction_text asc) || text_beq r (direction_text desc) then some l else none

abbrev head_field : Text → Option Text
head_field head = head_parts (break_at 58 head)

pub record Shape : Type 0 where
  pub head : Text
  pub sort_value : Text
  pub key : Text

pub data RefusalReason : Type 0 where
  malformed sort_mismatch : RefusalReason

pub record CursorRefused : Type 0 where
  pub refused_cursor : Text
  pub reason : RefusalReason

module _ (uri : Uri) where
  open uri use {encode, decode}

  unfoldable pub head_of : Sort → Text
  head_of sort = encode sort.field ++ 58 ∷ direction_text sort.direction

  abbrev decoded_shape : Text → Option Text → Option Text → Option Text → Option Shape
  decoded_shape head (some field) (some value) (some tiebreak) =
      some (record { head = head; sort_value = value; key = tiebreak })
  decoded_shape head _ _ _ = none

  abbrev shape_under : (head sort_value key : Text) → Option Text → Option Shape
  shape_under head sort_value key none = none
  shape_under head sort_value key (some field) =
      decoded_shape head (decode field) (decode sort_value) (decode key)

  abbrev shape_of_parts : List Text → Option Shape
  shape_of_parts (head ∷ sort_value ∷ key ∷ []) = shape_under head sort_value key (head_field head)
  shape_of_parts _ = none

  pub shape_of : Text → Option Shape
  shape_of cursor = shape_of_parts (split 124 cursor)

  -- The sorted cursor of a row: its head, sort value and key, joined by `|`.
  pub mint : Sort → Text × Text → Text
  mint sort (value, key) = head_of sort ++ (124 ∷ (encode value ++ (124 ∷ encode key)))

  abbrev pub sorted_over : PageRequest → Sort → Option (Text × Text) → Keyset (Text × Text)
  sorted_over request sort cursor = record {
    limit = request.limit;
    backward = is_some request.before;
    cursor = cursor;
    encode = mint sort;
  }

  abbrev check_head :
      PageRequest → Sort → Text → Option Shape → Result CursorRefused (Keyset (Text × Text))
  check_head request sort given none = fail (record { refused_cursor = given; reason = malformed })
  check_head request sort given (some shape) =
      if text_beq shape.head (head_of sort)
      then ok (sorted_over request sort (some (shape.sort_value, shape.key)))
      else fail (record { refused_cursor = given; reason = sort_mismatch })

  abbrev resume_from :
      PageRequest → Sort → Option Text → Result CursorRefused (Keyset (Text × Text))
  resume_from request sort none = ok (sorted_over request sort none)
  resume_from request sort (some given) = check_head request sort given (shape_of given)

  -- `keyset` of a request that has a sort.
  pub sorted_keyset : PageRequest → Sort → Result CursorRefused (Keyset (Text × Text))
  sorted_keyset request sort = resume_from request sort (given_cursor request)

split-skip : (xs ys : Text) → elem 124 xs ≡ false → split 124 (xs ++ 124 ∷ ys) ≡ xs ∷ split 124 ys
unfolding split
split-skip [] ys h = refl
split-skip (x ∷ xs) ys h = ground (arith, split-skip xs ys)

split-plain : (xs : Text) → elem 124 xs ≡ false → split 124 xs ≡ xs ∷ []
unfolding split
split-plain [] h = refl
split-plain (x ∷ xs) h = ground (arith, split-plain xs)

break_at-skip : (xs ys : Text) → elem 58 xs ≡ false → break_at 58 (xs ++ 58 ∷ ys) ≡ some (xs, ys)
unfolding break_at
break_at-skip [] ys h = refl
break_at-skip (x ∷ xs) ys h = ground (arith, break_at-skip xs ys)

pub text_beq_refl : (t : Text) → text_beq t t ≡ true
text_beq_refl [] = refl
text_beq_refl (x ∷ xs) = ground (arith, text_beq_refl xs)

eq_of_text_beq : (s t : Text) → text_beq s t ≡ true → s ≡ t
eq_of_text_beq [] [] h = refl
eq_of_text_beq [] (y ∷ ys) h = cc
eq_of_text_beq (x ∷ xs) [] h = cc
eq_of_text_beq (x ∷ xs) (y ∷ ys) h = ground (arith, eq_of_text_beq xs ys)

direction_plain : (d : Direction) → elem 124 (direction_text d) ≡ false
direction_plain asc = refl
direction_plain desc = refl

direction_known :
    (d : Direction)
    → (text_beq (direction_text d) (direction_text asc)
        || text_beq (direction_text d) (direction_text desc))
      ≡ true
direction_known asc = refl
direction_known desc = refl

direction_of_text : (c d : Direction) → direction_text c ≡ direction_text d → c ≡ d
direction_of_text asc asc e = refl
direction_of_text desc desc e = refl
direction_of_text asc desc e = ground arith
direction_of_text desc asc e = ground arith

abbrev left_of : Option (Text × Text) → Text
left_of none = []
left_of (some (l, r)) = l

abbrev right_of : Option (Text × Text) → Text
right_of none = []
right_of (some (l, r)) = r

some_injective : {s t : Text} → some s ≡ some t → s ≡ t
some_injective {s} e = ap (λ o. elim o [ none ↦ s | some x ↦ x ]) e

module _ (uri : Uri) where
  open uri use {encode, decode, decode-encode, encode-plain}

  head_field-head_of : (sort : Sort) → head_field (head_of uri sort) ≡ some (encode sort.field)
  unfolding head_of
  head_field-head_of sort =
      ap head_parts (
        break_at-skip (encode sort.field) (direction_text sort.direction)
          (encode-plain sort.field).1)
      ∙ ap (λ (known : Bool). if known then some (encode sort.field) else none)
          (direction_known sort.direction)

  head_of-plain : (sort : Sort) → elem 124 (head_of uri sort) ≡ false
  unfolding head_of
  head_of-plain sort = ground (
    arith,
    elem-append 124 (encode sort.field) (58 ∷ direction_text sort.direction),
    encode-plain sort.field,
    direction_plain sort.direction,
  )

  shape_of-mint :
      (sort : Sort) (value key : Text)
      → shape_of uri (mint uri sort (value, key))
        ≡ some (record { head = head_of uri sort; sort_value = value; key = key })
  unfolding shape_of mint
  shape_of-mint sort value key =
      ap (shape_of_parts uri) (
        split-skip (head_of uri sort) (encode value ++ 124 ∷ encode key) (head_of-plain sort)
        ∙ ap (◌∷◌ (head_of uri sort)) (
            split-skip (encode value) (encode key) (encode-plain value).0
            ∙ ap (◌∷◌ (encode value)) (split-plain (encode key) (encode-plain key).0)))
      ∙ ap (shape_under uri (head_of uri sort) (encode value) (encode key))
          (head_field-head_of sort)
      ∙ (λ i.
          decoded_shape uri (head_of uri sort) (decode-encode sort.field i) (decode-encode value i)
            (decode-encode key i))

  head_of-injective : (s t : Sort) → head_of uri s ≡ head_of uri t → s ≡ t
  unfolding head_of
  head_of-injective s t e =
      let parts : some (encode s.field, direction_text s.direction)
          ≡ some (encode t.field, direction_text t.direction) =
        sym (break_at-skip (encode s.field) (direction_text s.direction) (encode-plain s.field).1)
        ∙ ap (break_at 58) e
        ∙ break_at-skip (encode t.field) (direction_text t.direction) (encode-plain t.field).1 in
      let fields : s.field ≡ t.field =
        some_injective
          (sym (decode-encode s.field) ∙ ap decode (ap left_of parts) ∙ decode-encode t.field) in
      λ i. record {
        field = fields i;
        direction = direction_of_text s.direction t.direction (ap right_of parts) i;
      }

  -- A cursor that was minted under `minted` for a row's sort value and key, and comes back under
  -- `sort`: it resumes from exactly that value and key if the two sorts are the same, and is refused
  -- as a mismatch if they are not.
  pub sorted_keyset-mint :
      (request : PageRequest) (minted sort : Sort) (value key : Text)
      → given_cursor request ≡ some (mint uri minted (value, key))
      → ((minted ≡ sort)
          × (sorted_keyset uri request sort
              ≡ ok (sorted_over uri request sort (some (value, key)))))
        ⊎ ((minted ≢ sort)
            × (sorted_keyset uri request sort
                ≡ fail (record {
                  refused_cursor = mint uri minted (value, key);
                  reason = sort_mismatch;
                })))
  unfolding sorted_keyset
  sorted_keyset-mint request minted sort value key e =
      elim (Bool-cases (text_beq (head_of uri minted) (head_of uri sort))) [
        | inl same ↦ inl (
          head_of-injective minted sort (eq_of_text_beq _ _ same),
          ap (resume_from uri request sort) e
              ∙ ap (check_head uri request sort _) (shape_of-mint minted value key)
              ∙ rw same refl,
        )
        | inr other ↦ inr (
          λ same. ground (arith, ap (head_of uri) same, text_beq_refl (head_of uri sort)),
          ap (resume_from uri request sort) e
              ∙ ap (check_head uri request sort _) (shape_of-mint minted value key)
              ∙ rw other refl,
        )
      ]
