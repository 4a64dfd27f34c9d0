-- ===== src/Contract/Pagination.antt =====
-- packages/contract/src/pagination.ts: pages, keysets and cursors. A string is a list of code points.
pub mod Cursors
pub mod Windows
pub mod Walk
use btravstack.Common.{
  ℕ, suc, ◌+◌, ◌≡◌, String, Bool, true, false, not, ◌&&◌, ◌||◌, Option, none, some, List, [], ◌∷◌,
  ◌++◌, map, reverse, length, take, ltb, all, any, is_some, if◌then◌else◌, ◌==◌, nat_eq, Eq,
  nat_beq,
}

abbrev pub Text : Type 0
Text = List ℕ

abbrev pub text_beq : Text → Text → Bool
text_beq [] [] = true
text_beq (a ∷ text) (b ∷ other) = (a == b) && text_beq text other
text_beq _ _ = false

-- A page: a cursor is there exactly where `hasPreviousPage` or `hasNextPage` is true.
pub record Page (T : Type 0) : Type 0 where
  pub items : List T
  pub previous_cursor : Option Text
  pub next_cursor : Option Text

pub data Direction : Type 0 where
  asc desc : Direction

pub record Sort : Type 0 where
  pub field : Text
  pub direction : Direction

pub record PageRequest : Type 0 where
  pub limit : ℕ
  pub after : Option Text
  pub before : Option Text
  pub sort : Option Sort

unfoldable pub page : {T : Type 0} → List T → (previous next : Option Text) → Page T
page items previous next = record { items = items; previous_cursor = previous; next_cursor = next }

-- A validated query carries at most one cursor on; `before` wins.
unfoldable pub page_request : PageRequest → PageRequest
page_request query = elim query.before [ some c ↦ record query { after = none } | none ↦ query ]

-- `request.before ?? request.after`.
abbrev pub given_cursor : PageRequest → Option Text
given_cursor request = elim request.before [ some c ↦ some c | none ↦ request.after ]

abbrev pub first : {T : Type 0} → List T → Option T
first [] = none
first (x ∷ xs) = some x

-- `seen.at(-1)`.
abbrev pub last : {T : Type 0} → List T → Option T
last [] = none
last (x ∷ []) = some x
last (x ∷ y ∷ xs) = last (y ∷ xs)

pub record Keyset (C : Type 0) : Type 0 where
  pub limit : ℕ
  pub backward : Bool
  pub cursor : Option C
  pub encode : C → Text

abbrev pub trim : {T : Type 0} → ℕ → List T → List T
trim limit rows = if ltb limit (length rows) then take limit rows else rows

module _ {C : Type 0} where
  -- One more row than the page, which says whether there is another page.
  abbrev pub take_of : Keyset C → ℕ
  take_of k = suc k.limit

  module _ {T : Type 0} where
    abbrev pub seen_of : Keyset C → List T → List T
    seen_of k rows = if k.backward then reverse (trim k.limit rows) else trim k.limit rows

    abbrev pub edge : Keyset C → (T → C) → Option T → Option Text
    edge k cursor_of none = none
    edge k cursor_of (some row) = some (k.encode (cursor_of row))

    unfoldable pub fold_page : {U : Type 0} → Keyset C → List T → (T → C) → (T → U) → Page U
    fold_page k rows cursor_of item =
        page (map item (seen_of k rows))
          (if (if k.backward then ltb k.limit (length rows) else is_some k.cursor)
            then edge k cursor_of (first (seen_of k rows))
            else none)
          (if k.backward || ltb k.limit (length rows)
            then edge k cursor_of (last (seen_of k rows))
            else none)

-- `keyset` of a request with no sort.
unfoldable pub keyset : PageRequest → Keyset Text
keyset request = record {
  limit = request.limit;
  backward = is_some request.before;
  cursor = given_cursor request;
  encode = λ c. c;
}
