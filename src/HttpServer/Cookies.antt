-- ===== src/HttpServer/Cookies.antt =====
-- packages/http-server/src/cookie.ts: reading and writing a cookie, and the check of a request that
-- another site made a browser send. `URL.parse(...).host` is a parameter.
pub mod Laws
use btravstack.Common.{
  ℕ, Bool, true, false, not, ◌&&◌, ◌||◌, Option, none, some, List, [], ◌∷◌, ◌++◌, map, elem, any,
  if◌then◌else◌, ◌==◌, nat_eq, text_eq, Text, trim, split, lower, print_number,
}

-- `[part.slice(0, at), part.slice(at + 1)]` at the first separator.
unfoldable pub cut : ℕ → Text → Option (Text × Text)
cut separator [] = none
cut separator (c ∷ cs) =
    let rest = cut separator cs in
    if c == separator
    then some ([], cs)
    else elim rest [ none ↦ none | some halves ↦ some (c ∷ halves.0, halves.1) ]

unfoldable pub value_under : Text → Option (Text × Text) → Option Text
value_under name none = none
value_under name (some (key, value)) = if trim key == name then some (trim value) else none

unfoldable pub or_later : {A : Type 0} → Option A → Option A → Option A
or_later none later = later
or_later (some found) later = some found

unfoldable pub first_value : Text → List Text → Option Text
first_value name [] = none
first_value name (part ∷ parts) = or_later (value_under name (cut 61 part)) (first_value name parts)

unfoldable pub cookie_value : Option Text → Text → Option Text
cookie_value none name = none
cookie_value (some header) name = first_value name (split 59 header)

-- "; Path=/; Secure; HttpOnly; SameSite=Lax; Max-Age="
abbrev pub attributes : Text
attributes =
    59 ∷ 32 ∷ 80 ∷ 97 ∷ 116 ∷ 104 ∷ 61 ∷ 47 ∷ 59 ∷ 32 ∷ 83 ∷ 101 ∷ 99 ∷ 117 ∷ 114 ∷ 101 ∷ 59 ∷ 32
    ∷ 72 ∷ 116 ∷ 116 ∷ 112 ∷ 79 ∷ 110 ∷ 108 ∷ 121 ∷ 59 ∷ 32 ∷ 83 ∷ 97 ∷ 109 ∷ 101 ∷ 83 ∷ 105 ∷ 116
    ∷ 101 ∷ 61 ∷ 76 ∷ 97 ∷ 120 ∷ 59 ∷ 32 ∷ 77 ∷ 97 ∷ 120 ∷ 45 ∷ 65 ∷ 103 ∷ 101 ∷ 61 ∷ []

unfoldable pub set_cookie : Text → Text → ℕ → Text
set_cookie name value max_age = name ++ (61 ∷ (value ++ (attributes ++ print_number max_age)))

unfoldable pub clear_cookie : Text → Text
clear_cookie name = set_cookie name [] 0

-- `csrf`, when it is not set, is on where a surface reads a cookie.
unfoldable pub csrf_on : Option Bool → List Bool → Bool
csrf_on none schemes = any (λ reads. reads) schemes
csrf_on (some option) schemes = option

-- A header that may be absent, or repeated and then no text.
pub data Header : Type 0 where
  missing repeated : Header
  one : Text → Header

pub record Request : Type 0 where
  pub method : Text
  pub cookie : Option Text
  pub fetch_site : Header
  pub origin : Option Text
  pub host : Option Text

abbrev pub state_changing : List Text
state_changing =
    (80 ∷ 79 ∷ 83 ∷ 84 ∷ [])
    ∷ (80 ∷ 85 ∷ 84 ∷ [])
    ∷ (80 ∷ 65 ∷ 84 ∷ 67 ∷ 72 ∷ [])
    ∷ (68 ∷ 69 ∷ 76 ∷ 69 ∷ 84 ∷ 69 ∷ [])
    ∷ []

abbrev pub same_origin : Text
same_origin = 115 ∷ 97 ∷ 109 ∷ 101 ∷ 45 ∷ 111 ∷ 114 ∷ 105 ∷ 103 ∷ 105 ∷ 110 ∷ []

abbrev pub same_site : Text
same_site = 115 ∷ 97 ∷ 109 ∷ 101 ∷ 45 ∷ 115 ∷ 105 ∷ 116 ∷ 101 ∷ []

-- The host that `Origin` names, against the request's own.
unfoldable pub is_foreign : Option Text → Option Text → Bool
is_foreign none host = true
is_foreign (some origin) none = true
is_foreign (some origin) (some host) = not (origin == host)

abbrev origin_of : Option Text → Text
origin_of none = []
origin_of (some origin) = origin

unfoldable pub cross_site : (Text → Option Text) → Request → Bool
cross_site host_of request =
    if not (elem request.method state_changing) then false else elim request.cookie [
      | none ↦ false
      | some cookie ↦ elim request.fetch_site [
        | one site ↦ not (map lower site == same_origin) && not (map lower site == same_site)
        | _ ↦ is_foreign (host_of (origin_of request.origin)) request.host
      ]
    ]
