-- ===== src/HttpServer/Cookies/Laws.antt =====
-- What `cookieValue` of packages/http-server/src/cookie.ts finds in the header a browser sends.
use btravstack.Common.{
  ◌≡◌, refl, sym, ap, ◌∙◌, ℕ, Bool, true, false, not, none, some, List, [], ◌∷◌, ◌++◌, get, all,
  all-append, All, and-true, if◌then◌else◌, ◌==◌, nat_eq, text_eq, Text, trim, trim_start, trim_end,
  is_space, split, Bool-cases, inl, inr, beq_refl, not-true,
}
use mathlib.Core.List.{append_assoc}
use btravstack.HttpServer.Cookies.{cut, value_under, or_later, first_value, cookie_value}

-- No unit of a text is a given one.
abbrev pub lacks : ℕ → Text → Bool
lacks separator cs = all (λ c. not (c == separator)) cs

split-lacks : (separator : ℕ) (cs : Text) → lacks separator cs ≡ true → split separator cs ≡ cs ∷ []
unfolding split
split-lacks separator [] h = refl
split-lacks separator (c ∷ cs) h =
    let (here, later) = and-true (not (c == separator)) (lacks separator cs) h in
    rw (not-true (c == separator) here, split-lacks separator cs later) refl

split-append :
    (separator : ℕ) (cs ds : Text)
    → lacks separator cs ≡ true
    → split separator (cs ++ (separator ∷ ds)) ≡ cs ∷ split separator ds
unfolding split
split-append separator [] ds h = rw (beq_refl separator) refl
split-append separator (c ∷ cs) ds h =
    let (here, later) = and-true (not (c == separator)) (lacks separator cs) h in
    rw (not-true (c == separator) here, split-append separator cs ds later) refl

pub cut-append :
    (separator : ℕ) (cs ds : Text)
    → lacks separator cs ≡ true
    → cut separator (cs ++ (separator ∷ ds)) ≡ some (cs, ds)
unfolding cut
cut-append separator [] ds h = rw (beq_refl separator) refl
cut-append separator (c ∷ cs) ds h =
    let (here, later) = and-true (not (c == separator)) (lacks separator cs) h in
    rw (not-true (c == separator) here, cut-append separator cs ds later) refl

-- A cookie that a header can carry: no `;`, no `=` in its name, and neither part in white space.
pub record IsCookie (cookie : Text × Text) : Type 0 where
  pub name_whole : lacks 59 cookie.0 ≡ true
  pub value_whole : lacks 59 cookie.1 ≡ true
  pub name_plain : lacks 61 cookie.0 ≡ true
  pub name_trimmed : trim cookie.0 ≡ cookie.0
  pub value_trimmed : trim cookie.1 ≡ cookie.1

-- The header a browser sends for its cookies: `a=1; b=2`.
unfoldable pub header_of : List (Text × Text) → Text
header_of [] = []
header_of ((name, value) ∷ []) = name ++ (61 ∷ value)
header_of ((name, value) ∷ cookie ∷ cookies) =
    let rest = header_of (cookie ∷ cookies) in (name ++ (61 ∷ value)) ++ (59 ∷ 32 ∷ rest)

abbrev lead_of : Bool → Text
lead_of true = []
lead_of false = 32 ∷ []

trim-lead : (first : Bool) (cs : Text) → trim (lead_of first ++ cs) ≡ trim cs
unfolding trim trim_start is_space
trim-lead true cs = refl
trim-lead false cs = refl

lacks-lead :
    (first : Bool) (separator : ℕ) (cs : Text)
    → (32 == separator) ≡ false
    → lacks separator cs ≡ true
    → lacks separator (lead_of first ++ cs) ≡ true
lacks-lead true separator cs other h = h
lacks-lead false separator cs other h = rw (other, h) refl

value_under-part :
    (first : Bool) (wanted name value : Text)
    → IsCookie (name, value)
    → value_under wanted (cut 61 (lead_of first ++ (name ++ (61 ∷ value))))
      ≡ (if name == wanted then some value else none)
unfolding value_under
value_under-part first wanted name value clean =
    rw
      (
        sym (append_assoc (lead_of first) name (61 ∷ value)),
        cut-append 61 (lead_of first ++ name) value
            (lacks-lead first 61 name refl clean.name_plain),
        trim-lead first name,
        clean.name_trimmed,
        clean.value_trimmed,
      )
      refl

first_value-part :
    (first : Bool) (wanted name value : Text) (parts : List Text)
    → IsCookie (name, value)
    → first_value wanted ((lead_of first ++ (name ++ (61 ∷ value))) ∷ parts)
      ≡ (if name == wanted then some value else first_value wanted parts)
unfolding first_value or_later
first_value-part first wanted name value parts clean =
    rw (value_under-part first wanted name value clean)
      (elim (Bool-cases (name == wanted)) [ inl e ↦ rw e refl | inr e ↦ rw e refl ])

lacks-part : (name value : Text) → IsCookie (name, value) → lacks 59 (name ++ (61 ∷ value)) ≡ true
lacks-part name value clean =
    all-append (λ c. not (c == 59)) name (61 ∷ value) clean.name_whole (rw clean.value_whole refl)

split-parts :
    (first : Bool) (name value rest : Text)
    → IsCookie (name, value)
    → split 59 (lead_of first ++ ((name ++ (61 ∷ value)) ++ (59 ∷ 32 ∷ rest)))
      ≡ (lead_of first ++ (name ++ (61 ∷ value))) ∷ split 59 (32 ∷ rest)
split-parts first name value rest clean =
    rw (sym (append_assoc (lead_of first) (name ++ (61 ∷ value)) (59 ∷ 32 ∷ rest))) (
      split-append 59 (lead_of first ++ (name ++ (61 ∷ value))) (32 ∷ rest)
        (lacks-lead first 59 (name ++ (61 ∷ value)) refl (lacks-part name value clean)))

first_value-header_of :
    (first : Bool) (wanted : Text) (cookies : List (Text × Text))
    → All IsCookie cookies
    → first_value wanted (split 59 (lead_of first ++ header_of cookies)) ≡ get wanted cookies
unfolding header_of get split cut value_under trim trim_start trim_end is_space first_value or_later
first_value-header_of first wanted [] clean = nothing_in first
  where
    nothing_in : (early : Bool) → first_value wanted (split 59 (lead_of early ++ [])) ≡ none
    nothing_in true = refl
    nothing_in false = refl
first_value-header_of first wanted ((name, value) ∷ []) (here, later) =
    rw
      (split-lacks 59 (lead_of first ++ (name ++ (61 ∷ value)))
        (lacks-lead first 59 (name ++ (61 ∷ value)) refl (lacks-part name value here)))
      (first_value-part first wanted name value [] here)
first_value-header_of first wanted ((name, value) ∷ cookie ∷ cookies) (here, later) =
    ap (first_value wanted) (split-parts first name value (header_of (cookie ∷ cookies)) here)
    ∙ (first_value-part first wanted name value (split 59 (32 ∷ header_of (cookie ∷ cookies))) here
        ∙ ap (λ o. if name == wanted then some value else o)
            (first_value-header_of false wanted (cookie ∷ cookies) later))

-- In the header that a browser sends for its cookies, a name finds the first cookie of exactly that
-- name, with its value whole, or none.
pub cookie_value-header_of :
    (wanted : Text) (cookies : List (Text × Text))
    → All IsCookie cookies
    → cookie_value (some (header_of cookies)) wanted ≡ get wanted cookies
unfolding cookie_value
cookie_value-header_of wanted cookies clean = first_value-header_of true wanted cookies clean
