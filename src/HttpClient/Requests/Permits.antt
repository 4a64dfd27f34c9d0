-- ===== src/HttpClient/Requests/Permits.antt =====
-- What a client of packages/http-client/src/client.ts lets leave.
use btravstack.Common.{
  ◌≡◌, refl, subst, ℕ, Bool, true, false, not, ◌||◌, Option, none, some, List, map, any, elem, get,
  lower, if◌then◌else◌, string_eq, text_eq, ◌==◌, Text, Result, ok, fail, ok-inj, >>=-eq-ok,
  Bool-cases, inl, inr,
}
use btravstack.HttpClient.{Url, HttpFailure, rejected, destination_forbidden}
use btravstack.HttpClient.Ranges.{Address, allowed_address}
use btravstack.HttpClient.Ranges.Private.{in_any_cidr}
use btravstack.HttpClient.Requests.{
  Platform, Policy, Request, leads_astray, cidrs_in, destination, is_limit, Client,
  create_http_client, policy_origins, forbidden_headers, is_supported, refuse_or, permit_url,
  permit,
}
use btravstack.HttpClient.Requests.Approvals.{
  all_approvable, IsApproved, get-IsApproved, with_origins-IsApproved,
}

module _ (platform : Platform) where
  create-IsApproved :
      (policy : Policy) (client : Client platform)
      → create_http_client platform policy ≡ ok client
      → IsApproved platform client.approvals
  unfolding create_http_client
  create-IsApproved policy client made =
      elim (Bool-cases (not (is_limit platform policy.max_response_bytes))) [
        | inl e ↦ absurd (cc (rw e at made))
        | inr e ↦ elim (Bool-cases (not (is_limit platform policy.deadline_ms))) [
          | inl f ↦ absurd (cc (rw (e, f) at made))
          | inr f ↦
              let (allowed, parsed, later) =
                >>=-eq-ok (policy_origins platform policy.origins) _ (rw (e, f) at made) in
              with_origins-IsApproved platform policy allowed client later
        ]
      ]

  -- A URL that a request may be exchanged with: the one it names, over TLS and without credentials, of
  -- an origin of the policy; a host that is an address is allowed, whatever private networks are
  -- approved for the origin; and no header takes the transport's place.
  pub record IsPermitted (client : Client platform) (request : Request) (url : Url) : Type 0 where
    pub has_method : is_supported platform request.method ≡ true
    pub is_named : platform.parse_url request.url ≡ some url
    pub is_secure : (url.protocol == "https:") ≡ true
    pub no_username : (url.username == "") ≡ true
    pub no_password : (url.password == "") ≡ true
    pub is_listed : elem url.origin client.allowed ≡ true
    pub headers_clean :
        any (λ header. elem (map lower header) (forbidden_headers platform)) request.headers ≡ false
    pub may_reach :
        (address : Address)
        → platform.address_of url.hostname ≡ some address
        → allowed_address address
            (in_any_cidr (cidrs_in platform (get url.origin client.approvals)))
          ≡ true
    pub approvable : all_approvable (cidrs_in platform (get url.origin client.approvals)) ≡ true

  -- Where `destination` finds nothing wrong.
  destination-none :
      (url : Url) (approved : Option (List (Address × ℕ)))
      → destination platform url approved ≡ none
      → ((url.protocol == "https:") ≡ true)
        × ((url.username == "") ≡ true)
        × ((url.password == "") ≡ true)
        × (leads_astray platform (cidrs_in platform approved) (platform.address_of url.hostname)
            ≡ false)
  unfolding destination
  destination-none url approved e =
      clear (url.protocol == "https:") (url.username == "") (url.password == "")
        (leads_astray platform (cidrs_in platform approved) (platform.address_of url.hostname)) e
    where
      clear :
          (secure no_name no_word astray : Bool)
          → (if not secure
              then some (rejected "scheme")
              else if not no_name || not no_word
              then some (rejected "credentials")
              else if astray
              then some destination_forbidden
              else none)
            ≡ none
          → (secure ≡ true) × (no_name ≡ true) × (no_word ≡ true) × (astray ≡ false)
      clear false no_name no_word astray f = absurd (cc)
      clear true false no_word astray f = absurd (cc)
      clear true true false astray f = absurd (cc)
      clear true true true true f = absurd (cc)
      clear true true true false f = (refl, refl, refl, refl)

  refuse_or-ok :
      (refusal : Option HttpFailure) (later : Result HttpFailure Url) (url : Url)
      → refuse_or platform refusal later ≡ ok url
      → (refusal ≡ none) × (later ≡ ok url)
  unfolding refuse_or
  refuse_or-ok none later url e = (refl, e)
  refuse_or-ok (some failure) later url e = absurd (cc)

  checks-ok :
      (foreign dirty valid : Bool) (given url : Url)
      → ◌≡◌ {A = Result HttpFailure Url}
          (if foreign
            then fail (rejected "origin")
            else if dirty
            then fail (rejected "headers")
            else if valid
            then ok given
            else fail (rejected "headers"))
          (ok url)
      → (foreign ≡ false) × (dirty ≡ false) × (given ≡ url)
  checks-ok true dirty valid given url e = absurd (cc)
  checks-ok false true valid given url e = absurd (cc)
  checks-ok false false false given url e = absurd (cc)
  checks-ok false false true given url e = (refl, refl, ok-inj e)

  not-false : (b : Bool) → not b ≡ false → b ≡ true
  not-false true e = refl
  not-false false e = absurd (cc)

  permitted :
      (valid_headers : List Text → Bool) (client : Client platform) (request : Request)
      (parsed : Option Url) (url : Url)
      → IsApproved platform client.approvals
      → is_supported platform request.method ≡ true
      → platform.parse_url request.url ≡ parsed
      → permit_url platform valid_headers client request.headers parsed ≡ ok url
      → IsPermitted client request url
  unfolding permit_url leads_astray
  permitted valid_headers client request none url good has_method named e = absurd (cc)
  permitted valid_headers client request (some given) url good has_method named e =
      let (clear, checked) =
        refuse_or-ok (destination platform given (get given.origin client.approvals)) _ url e in
      let (own, clean, same) =
        checks-ok (not (elem given.origin client.allowed)) _ _ given url checked in
      let (secure, no_name, no_word, straight) =
        destination-none given (get given.origin client.approvals) clear in
      subst (IsPermitted client request) same (record {
        has_method = has_method;
        is_named = named;
        is_secure = secure;
        no_username = no_name;
        no_password = no_word;
        is_listed = not-false (elem given.origin client.allowed) own;
        headers_clean = clean;
        may_reach = λ address found.
            not-false
              (allowed_address address
                (in_any_cidr (cidrs_in platform (get given.origin client.approvals))))
              (subst
                (λ o.
                  leads_astray platform (cidrs_in platform (get given.origin client.approvals)) o
                  ≡ false)
                found straight);
        approvable = get-IsApproved platform given.origin client.approvals good;
      })

  -- A request that a client made of a policy exchanges has a supported method and none of the headers
  -- that the client keeps to itself, and its URL is an https one without credentials, of an origin of
  -- the client, whose host, where it is an address, is public or in a private network approved for that
  -- origin; every network so approved is private.
  pub permit-IsPermitted :
      (valid_headers : List Text → Bool) (policy : Policy) (client : Client platform)
      (request : Request) (url : Url)
      → create_http_client platform policy ≡ ok client
      → permit platform valid_headers client request ≡ ok url
      → IsPermitted client request url
  unfolding permit
  permit-IsPermitted valid_headers policy client request url made e =
      elim (Bool-cases (is_supported platform request.method)) [
        | inl has_method ↦
            permitted valid_headers client request (platform.parse_url request.url) url
              (create-IsApproved policy client made) has_method refl (rw has_method at e)
        | inr no_method ↦ absurd (cc (rw no_method at e))
      ]
