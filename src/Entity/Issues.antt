-- ===== src/Entity/Issues.antt =====
-- packages/entity/src/issues.ts and errors.ts: what a refused value is told, and how a nested
-- entity's issues are raised again by the parse of its parent.
use btravstack.Common.{◌≡◌, refl, ap, ℕ, String, Option, none, some, List, [], ◌∷◌, map}

-- A property key; symbols are left out.
pub data Key : Type 0 where
  name : String → Key
  index : ℕ → Key

-- A segment of an issue's path, bare or in a `{ key }` wrapper.
pub data Segment : Type 0 where
  bare : Key → Segment
  wrapped : Key → Segment

-- The text of an issue: a schema's or a rule's own, one of `make` and `update`, or one of `replay`.
pub data Message : Type 0 where
  said : String → Message
  not_rehydrated immutable_field computed_field : Message
  unknown_field_for : String → Message
  not_a_stream : Message
  not_opened : List String → Message
  reopened : Message
  not_last : Message

-- `params`, of which anything may be there: no object, an object with no text for a code, or a code.
pub data Params : Type 0 where
  absent shapeless : Params
  coded : String → Params

pub record Issue : Type 0 where
  pub message : Message
  pub path : Option (List Segment)
  pub params : Params

unfoldable pub key_of : Segment → Key
key_of (bare key) = key
key_of (wrapped key) = key

unfoldable pub keys_of : Issue → List Key
keys_of issue = elim issue.path [ none ↦ [] | some segments ↦ map key_of segments ]

unfoldable pub code_of : Issue → Option String
code_of issue = elim issue.params [ coded code ↦ some code | _ ↦ none ]

-- `toZodIssue`: what zod's `addIssue` is given.
unfoldable pub to_zod_issue : Issue → Issue
to_zod_issue issue = record {
  message = issue.message;
  path = some (map bare (keys_of issue));
  params = elim (code_of issue) [ none ↦ absent | some code ↦ coded code ];
}

-- An issue found at a key of its parent.
unfoldable pub issue_under : Key → Issue → Issue
issue_under key issue = record {
  message = issue.message;
  path = some (map bare (key ∷ keys_of issue));
  params = absent;
}

map-key_of : (keys : List Key) → map key_of (map bare keys) ≡ keys
unfolding key_of
map-key_of [] = refl
map-key_of (key ∷ keys) = ap (◌∷◌ key) (map-key_of keys)

-- An issue that is raised again for zod keeps its message, its keys and its code.
pub to_zod_issue-keeps :
    (issue : Issue)
    → ((to_zod_issue issue).message ≡ issue.message)
      × (keys_of (to_zod_issue issue) ≡ keys_of issue)
      × (code_of (to_zod_issue issue) ≡ code_of issue)
unfolding to_zod_issue keys_of code_of
to_zod_issue-keeps issue = (refl, map-key_of (keys_of issue), code_lem (code_of issue))
  where
    code_lem :
        (code : Option String)
        → code_of (record {
          message = issue.message;
          path = none;
          params = elim code [ none ↦ absent | some c ↦ coded c ];
        })
          ≡ code
    code_lem none = refl
    code_lem (some code) = refl
