-- ===== src/HttpServer/Redirects.antt =====
-- packages/http-server/src/redirect.ts: where a browser may be sent back to. `encodeURIComponent` of
-- one character is a parameter; a character is a code point.
use btravstack.Common.{
  ◌≡◌, refl, sym, subst, eq_of_beq, ℕ, Bool, true, false, not, ◌&&◌, ◌||◌, Option, none, some, [],
  ◌∷◌, ◌++◌, elem, all, all-append, leb, if◌then◌else◌, ◌==◌, nat_eq, Text, Bool-cases, inl, inr,
  and-true,
}

-- A path of this site, or `/`.
unfoldable pub local : Text → Text
local [] = 47 ∷ []
local (c ∷ []) = 47 ∷ []
local (c ∷ d ∷ cs) = if c == 47 && not (d == 47) && not (d == 92) then c ∷ d ∷ cs else 47 ∷ []

unfoldable pub return_to : Option Text → Text
return_to none = 47 ∷ []
return_to (some value) = local value

-- `[A-Za-z0-9\-._~:/?#[\]@!$&'()*+,;=%]`.
unfoldable pub is_uri : ℕ → Bool
is_uri c =
    (leb 65 c && leb c 90)
    || (leb 97 c && leb c 122)
    || (leb 48 c && leb c 57)
    || elem c (
        45 ∷ 46 ∷ 95 ∷ 126 ∷ 58 ∷ 47 ∷ 63 ∷ 35 ∷ 91 ∷ 93 ∷ 64 ∷ 33 ∷ 36 ∷ 38 ∷ 39 ∷ 40 ∷ 41 ∷ 42
        ∷ 43 ∷ 44 ∷ 59 ∷ 61 ∷ 37 ∷ [])

unfoldable pub for_location : (ℕ → Text) → Text → Text
for_location encode [] = []
for_location encode (c ∷ cs) =
    let rest = for_location encode cs in if is_uri c then c ∷ rest else encode c ++ rest

-- A path that no parser takes for another site's: it starts with `/`, and no `/` or `\` comes next.
unfoldable pub is_local : Text → Bool
is_local [] = false
is_local (c ∷ []) = c == 47
is_local (c ∷ d ∷ cs) = c == 47 && not (d == 47) && not (d == 92)

local_lem : (value : Text) → is_local (local value) ≡ true
unfolding is_local local
local_lem [] = refl
local_lem (c ∷ []) = refl
local_lem (c ∷ d ∷ cs) = elim (Bool-cases (c == 47 && not (d == 47) && not (d == 92))) [
  | inl e ↦ rw e e
  | inr e ↦ rw e refl
]

return_to_lem : (value : Option Text) → is_local (return_to value) ≡ true
unfolding return_to is_local
return_to_lem none = refl
return_to_lem (some value) = local_lem value

module _ (encode : ℕ → Text) where
  -- `encodeURIComponent` writes a character that no URI carries as `%` and characters that one does.
  unfoldable pub IsPercent : Type 0
  IsPercent =
      (c : ℕ) → is_uri c ≡ false → (rest : Text) × (encode c ≡ 37 ∷ rest) × (all is_uri rest ≡ true)

  all-for_location : IsPercent → (cs : Text) → all is_uri (for_location encode cs) ≡ true
  unfolding IsPercent for_location is_uri
  all-for_location percent [] = refl
  all-for_location percent (c ∷ cs) = elim (Bool-cases (is_uri c)) [
    | inl e ↦ rw (e, e, all-for_location percent cs) refl
    | inr e ↦
        let (rest, written, plain) = percent c e in
        rw
          (
            e,
            written,
            all-append is_uri rest (for_location encode cs) plain (all-for_location percent cs),
          )
          refl
  ]

  for_location-plain : (cs : Text) → all is_uri cs ≡ true → for_location encode cs ≡ cs
  unfolding for_location
  for_location-plain [] h = refl
  for_location-plain (c ∷ cs) h =
      let (here, later) = and-true (is_uri c) (all is_uri cs) h in
      rw (here, for_location-plain cs later) refl

  is_local-for_location :
      IsPercent → (cs : Text) → is_local cs ≡ true → is_local (for_location encode cs) ≡ true
  unfolding IsPercent for_location is_local is_uri
  is_local-for_location percent [] h = h
  is_local-for_location percent (c ∷ []) h =
      subst (λ k. is_local (for_location encode (k ∷ [])) ≡ true) (sym (eq_of_beq c 47 h)) refl
  is_local-for_location percent (c ∷ d ∷ cs) h =
      let (slash, plain) = and-true (c == 47 && not (d == 47)) (not (d == 92)) h in
      let (first, second) = and-true (c == 47) (not (d == 47)) slash in
      subst (λ k. is_local (for_location encode (k ∷ d ∷ cs)) ≡ true) (sym (eq_of_beq c 47 first))
        (elim (Bool-cases (is_uri d)) [
          | inl e ↦ rw (e, second, plain) refl
          | inr e ↦ let (rest, written, uri) = percent d e in rw (e, written) refl
        ])

  -- What a `Location` header is given: a path of this site, in characters that a URI carries, which a
  -- second pass leaves as it is.
  pub record IsLocation (path : Text) : Type 0 where
    pub stays : is_local path ≡ true
    pub is_plain : all is_uri path ≡ true
    pub is_fixed : for_location encode path ≡ path

  -- However a browser names where to return to, the `Location` it is sent back to is a path of this
  -- site in characters that a URI carries, and encoding it again changes nothing.
  pub for_location-IsLocation :
      IsPercent → (value : Option Text) → IsLocation (for_location encode (return_to value))
  for_location-IsLocation percent value =
      let path = for_location encode (return_to value) in
      let plain = all-for_location percent (return_to value) in
      record {
        stays = is_local-for_location percent (return_to value) (return_to_lem value);
        is_plain = plain;
        is_fixed = for_location-plain path plain;
      }
