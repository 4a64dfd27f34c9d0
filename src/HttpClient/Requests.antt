-- ===== src/HttpClient/Requests.antt =====
-- `createHttpClient` of packages/http-client/src/client.ts and `privateOrigins` of private-origins.ts:
-- what a policy must be, and what a request must be to leave. `new URL`, `isIP` and the validation of
-- headers are parameters; client certificates are left out.
pub mod Approvals
pub mod Permits
use btravstack.Common.{
  ◌≡◌, refl, sym, ap, ◌∙◌, ℕ, ◌+◌, Bool, true, false, not, ◌&&◌, ◌||◌, String, Option, none, some,
  List, [], ◌∷◌, ◌++◌, map, all, any, elem, get, has, set, leb, ltb, is_nil, is_some, if◌then◌else◌,
  string_eq, nat_eq, text_eq, ◌==◌, Text, split, lower, is_digit, read_digits, Result, ok, fail,
  ◌>>=◌, >>=-eq-ok, Bool-cases, inl, inr, and-true,
}
use btravstack.HttpClient.{Url, HttpFailure, rejected, destination_forbidden}
use btravstack.HttpClient.Ranges.{Address, allowed_address, is_approvable, in_cidr}
use btravstack.HttpClient.Ranges.Private.{in_any_cidr}

-- The platform's parsers: a URL of a text, and the address of a host or of a CIDR.
pub record Platform : Type 0 where
  pub parse_url : String → Option Url
  pub address_of : String → Option Address
  pub address_in : Text → Option Address

-- What is wrong with a policy.
pub data PolicyField : Type 0 where
  max_response_bytes deadline_ms origins private_origins : PolicyField

pub record PrivateOrigin : Type 0 where
  pub origin : String
  pub cidrs : List Text

pub record Policy : Type 0 where
  pub max_response_bytes : ℕ
  pub deadline_ms : ℕ
  pub origins : List String
  pub private_origins : List PrivateOrigin

pub record Request : Type 0 where
  pub url : String
  pub method : Option String
  pub headers : List Text

-- `/^(0|[1-9]\d*)$/`.
unfoldable pub prefix_of : Text → Option ℕ
prefix_of [] = none
prefix_of (c ∷ cs) =
    if all is_digit (c ∷ cs) && (not (c == 48) || is_nil cs)
    then some (read_digits 0 (c ∷ cs))
    else none

unfoldable pub cidr_from : Option Address → Option ℕ → Option (Address × ℕ)
cidr_from none prefix = none
cidr_from (some base) none = none
cidr_from (some base) (some prefix) =
    if is_approvable base prefix then some (base, prefix) else none

module _ (platform : Platform) where
  unfoldable pub cidr_of : List Text → Option (Address × ℕ)
  cidr_of (address ∷ bits ∷ []) = cidr_from (platform.address_in address) (prefix_of bits)
  cidr_of pieces = none

  unfoldable pub add_cidr :
      Option (Address × ℕ)
      → Result PolicyField (List (Address × ℕ))
      → Result PolicyField (List (Address × ℕ))
  add_cidr none rest = fail private_origins
  add_cidr (some cidr) (fail field) = fail field
  add_cidr (some cidr) (ok cidrs) = ok (cidr ∷ cidrs)

  unfoldable pub cidrs_of : List Text → Result PolicyField (List (Address × ℕ))
  cidrs_of [] = ok []
  cidrs_of (cidr ∷ cidrs) = add_cidr (cidr_of (split 47 cidr)) (cidrs_of cidrs)

  unfoldable pub approved_url :
      List String → List (String × List (Address × ℕ)) → Option Url → Option String
  approved_url allowed approvals none = none
  approved_url allowed approvals (some url) =
      if url.is_origin_alone && elem url.origin allowed && not (has url.origin approvals)
      then some url.origin
      else none

  unfoldable pub approve :
      Option String
      → List Text
      → List (String × List (Address × ℕ))
      → Result PolicyField (List (String × List (Address × ℕ)))
  approve none cidrs approvals = fail private_origins
  approve (some origin) [] approvals = fail private_origins
  approve (some origin) (cidr ∷ cidrs) approvals =
      cidrs_of (cidr ∷ cidrs) >>= λ networks. ok (set origin networks approvals)

  unfoldable pub approve_all :
      List String
      → List PrivateOrigin
      → List (String × List (Address × ℕ))
      → Result PolicyField (List (String × List (Address × ℕ)))
  approve_all allowed [] approvals = ok approvals
  approve_all allowed (binding ∷ bindings) approvals =
      approve (approved_url allowed approvals (platform.parse_url binding.origin)) binding.cidrs
        approvals
      >>= approve_all allowed bindings

  -- `destination`: where a URL may not lead, and why.
  unfoldable pub leads_astray : List (Address × ℕ) → Option Address → Bool
  leads_astray cidrs none = false
  leads_astray cidrs (some address) = not (allowed_address address (in_any_cidr cidrs))

  abbrev pub cidrs_in : Option (List (Address × ℕ)) → List (Address × ℕ)
  cidrs_in none = []
  cidrs_in (some cidrs) = cidrs

  unfoldable pub destination : Url → Option (List (Address × ℕ)) → Option HttpFailure
  destination url approved =
      if not (url.protocol == "https:")
      then some (rejected "scheme")
      else if not (url.username == "") || not (url.password == "")
      then some (rejected "credentials")
      else if leads_astray (cidrs_in approved) (platform.address_of url.hostname)
      then some destination_forbidden
      else none

  unfoldable pub is_limit : ℕ → Bool
  is_limit n = leb 1 n && leb n 2147483647

  unfoldable pub policy_origin : Option Url → Option String
  policy_origin none = none
  policy_origin (some url) =
      if url.protocol == "https:"
        && url.username == ""
        && url.password == ""
        && url.pathname == "/"
        && url.search == ""
        && url.hash == ""
      then some url.origin
      else none

  abbrev add_origin :
      Option String → Result PolicyField (List String) → Result PolicyField (List String)
  add_origin none rest = fail origins
  add_origin (some origin) (fail field) = fail field
  add_origin (some origin) (ok others) = ok (origin ∷ others)

  unfoldable pub policy_origins : List String → Result PolicyField (List String)
  policy_origins [] = ok []
  policy_origins (origin ∷ rest) =
      add_origin (policy_origin (platform.parse_url origin)) (policy_origins rest)

  unfoldable pub is_open : List (String × List (Address × ℕ)) → String → Option Url → Bool
  is_open approvals origin none = false
  is_open approvals origin (some url) = not (is_some (destination url (get origin approvals)))

  -- What a client holds of its policy: the origins, what is approved for each, and the limits.
  pub record Client : Type 0 where
    pub allowed : List String
    pub approvals : List (String × List (Address × ℕ))
    pub max_bytes : ℕ
    pub deadline : ℕ

  unfoldable pub with_approvals :
      Policy → List String → List (String × List (Address × ℕ)) → Result PolicyField Client
  with_approvals policy allowed approvals =
      if all (λ origin. is_open approvals origin (platform.parse_url origin)) allowed
      then ok (record {
        allowed = allowed;
        approvals = approvals;
        max_bytes = policy.max_response_bytes;
        deadline = policy.deadline_ms;
      })
      else fail origins

  unfoldable pub with_origins : Policy → List String → Result PolicyField Client
  with_origins policy [] = fail origins
  with_origins policy (origin ∷ rest) =
      approve_all (origin ∷ rest) policy.private_origins []
      >>= with_approvals policy (origin ∷ rest)

  unfoldable pub create_http_client : Policy → Result PolicyField Client
  create_http_client policy =
      if not (is_limit policy.max_response_bytes)
      then fail max_response_bytes
      else if not (is_limit policy.deadline_ms)
      then fail deadline_ms
      else policy_origins policy.origins >>= with_origins policy

  abbrev pub methods : List String
  methods = "GET" ∷ "HEAD" ∷ "POST" ∷ "PUT" ∷ "PATCH" ∷ "DELETE" ∷ "OPTIONS" ∷ []

  -- host, connection, transfer-encoding, content-length, trailer, te, upgrade
  abbrev pub forbidden_headers : List Text
  forbidden_headers =
      (104 ∷ 111 ∷ 115 ∷ 116 ∷ [])
      ∷ (99 ∷ 111 ∷ 110 ∷ 110 ∷ 101 ∷ 99 ∷ 116 ∷ 105 ∷ 111 ∷ 110 ∷ [])
      ∷ (116 ∷ 114 ∷ 97 ∷ 110 ∷ 115 ∷ 102 ∷ 101 ∷ 114 ∷ 45 ∷ 101 ∷ 110 ∷ 99 ∷ 111 ∷ 100 ∷ 105 ∷ 110
          ∷ 103 ∷ [])
      ∷ (99 ∷ 111 ∷ 110 ∷ 116 ∷ 101 ∷ 110 ∷ 116 ∷ 45 ∷ 108 ∷ 101 ∷ 110 ∷ 103 ∷ 116 ∷ 104 ∷ [])
      ∷ (116 ∷ 114 ∷ 97 ∷ 105 ∷ 108 ∷ 101 ∷ 114 ∷ [])
      ∷ (116 ∷ 101 ∷ [])
      ∷ (117 ∷ 112 ∷ 103 ∷ 114 ∷ 97 ∷ 100 ∷ 101 ∷ [])
      ∷ []

  unfoldable pub is_supported : Option String → Bool
  is_supported none = true
  is_supported (some method) = elem method methods

  unfoldable pub refuse_or : Option HttpFailure → Result HttpFailure Url → Result HttpFailure Url
  refuse_or none later = later
  refuse_or (some failure) later = fail failure

  unfoldable pub permit_url :
      (List Text → Bool) → Client → List Text → Option Url → Result HttpFailure Url
  permit_url valid_headers client headers none = fail (rejected "url")
  permit_url valid_headers client headers (some url) =
      refuse_or (destination url (get url.origin client.approvals)) (
        if not (elem url.origin client.allowed)
        then fail (rejected "origin")
        else if any (λ header. elem (map lower header) forbidden_headers) headers
        then fail (rejected "headers")
        else if valid_headers headers
        then ok url
        else fail (rejected "headers"))

  -- The checks of a request, in the code's order; the URL that is exchanged with.
  unfoldable pub permit : (List Text → Bool) → Client → Request → Result HttpFailure Url
  permit valid_headers client request =
      if is_supported request.method
      then permit_url valid_headers client request.headers (platform.parse_url request.url)
      else fail (rejected "request")
