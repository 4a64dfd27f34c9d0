-- ===== src/HttpClient/Requests/Approvals.antt =====
-- What a client of packages/http-client/src/private-origins.ts takes for approved.
use btravstack.Common.{
  ◌≡◌, refl, subst, ℕ, Bool, true, false, String, Option, none, some, List, [], ◌∷◌, all, All, get,
  set, if◌then◌else◌, string_eq, nat_eq, text_eq, ◌==◌, Text, split, Result, ok, fail, ok-inj,
  >>=-eq-ok, if_passes-ok, Bool-cases, inl, inr,
}
use btravstack.HttpClient.Ranges.{Address, is_approvable}
use btravstack.HttpClient.Requests.{
  Platform, PolicyField, origins, PrivateOrigin, Policy, cidr_from, cidr_of, add_cidr, cidrs_of,
  approved_url, approve, approve_all, cidrs_in, Client, with_approvals, with_origins, prefix_of,
}

abbrev pub all_approvable : List (Address × ℕ) → Bool
all_approvable cidrs = all (λ cidr. is_approvable cidr.0 cidr.1) cidrs

module _ (platform : Platform) where
  cidr_from-approvable :
      (base : Option Address) (prefix : Option ℕ) (cidr : Address × ℕ)
      → cidr_from base prefix ≡ some cidr
      → is_approvable cidr.0 cidr.1 ≡ true
  unfolding cidr_from
  cidr_from-approvable none prefix cidr e = absurd (cc)
  cidr_from-approvable (some base) none cidr e = absurd (cc)
  cidr_from-approvable (some base) (some prefix) cidr e = passed (is_approvable base prefix) refl e
    where
      passed :
          (approvable : Bool)
          → is_approvable base prefix ≡ approvable
          → (if approvable then some (base, prefix) else none) ≡ some cidr
          → is_approvable cidr.0 cidr.1 ≡ true
      passed false e' f = absurd (cc)
      passed true e' f = subst (λ c. is_approvable c.0 c.1 ≡ true) (some-inj f) e'
        where
          some-inj : {a b : Address × ℕ} → some a ≡ some b → a ≡ b
          some-inj g = cc

  cidr_of-approvable :
      (pieces : List Text) (cidr : Address × ℕ)
      → cidr_of platform pieces ≡ some cidr
      → is_approvable cidr.0 cidr.1 ≡ true
  unfolding cidr_of
  cidr_of-approvable [] cidr e = absurd (cc)
  cidr_of-approvable (address ∷ []) cidr e = absurd (cc)
  cidr_of-approvable (address ∷ bits ∷ []) cidr e =
      cidr_from-approvable (platform.address_in address) (prefix_of bits) cidr e
  cidr_of-approvable (address ∷ bits ∷ extra ∷ more) cidr e = absurd (cc)

  add_cidr-ok :
      (first : Option (Address × ℕ)) (rest : Result PolicyField (List (Address × ℕ)))
      (cidrs : List (Address × ℕ))
      → add_cidr platform first rest ≡ ok cidrs
      → (cidr : Address × ℕ) × (others : List (Address × ℕ)) × (first ≡ some cidr)
        × (rest ≡ ok others)
        × (cidr ∷ others ≡ cidrs)
  unfolding add_cidr
  add_cidr-ok none rest cidrs e = absurd (cc)
  add_cidr-ok (some cidr) (fail field) cidrs e = absurd (cc)
  add_cidr-ok (some cidr) (ok others) cidrs e = (cidr, others, refl, refl, ok-inj e)

  cidrs_of-approvable :
      (texts : List Text) (cidrs : List (Address × ℕ))
      → cidrs_of platform texts ≡ ok cidrs
      → all_approvable cidrs ≡ true
  unfolding cidrs_of
  cidrs_of-approvable [] cidrs e = subst (λ c. all_approvable c ≡ true) (ok-inj e) refl
  cidrs_of-approvable (first ∷ texts) cidrs e =
      let (cidr, others, is_first, is_rest, same) =
        add_cidr-ok (cidr_of platform (split 47 first)) (cidrs_of platform texts) cidrs e in
      subst (λ c. all_approvable c ≡ true) same
        (rw
          (
            cidr_of-approvable (split 47 first) cidr is_first,
            cidrs_of-approvable texts others is_rest,
          )
          refl)

  -- Every network that is approved for an origin may be.
  pub IsApproved : List (String × List (Address × ℕ)) → Type 0
  IsApproved approvals = All (λ entry. all_approvable entry.1 ≡ true) approvals

  set-IsApproved :
      (origin : String) (cidrs : List (Address × ℕ))
      (approvals : List (String × List (Address × ℕ)))
      → all_approvable cidrs ≡ true
      → IsApproved approvals
      → IsApproved (set origin cidrs approvals)
  unfolding IsApproved set
  set-IsApproved origin cidrs [] good earlier = (good, tt)
  set-IsApproved origin cidrs ((other, old) ∷ approvals) good (here, later) =
      elim (Bool-cases (other == origin)) [
        | inl e ↦ rw e (good, later)
        | inr e ↦ rw e (here, set-IsApproved origin cidrs approvals good later)
      ]

  approve-IsApproved :
      (origin : Option String) (texts : List Text)
      (approvals next : List (String × List (Address × ℕ)))
      → IsApproved approvals
      → approve platform origin texts approvals ≡ ok next
      → IsApproved next
  unfolding approve
  approve-IsApproved none texts approvals next earlier e = absurd (cc)
  approve-IsApproved (some origin) [] approvals next earlier e = absurd (cc)
  approve-IsApproved (some origin) (text ∷ texts) approvals next earlier e =
      let (networks, read, same) = >>=-eq-ok (cidrs_of platform (text ∷ texts)) _ e in
      subst IsApproved (ok-inj same) (
        set-IsApproved origin networks approvals (cidrs_of-approvable (text ∷ texts) networks read)
          earlier)

  approve_all-IsApproved :
      (allowed : List String) (bindings : List PrivateOrigin)
      (approvals final : List (String × List (Address × ℕ)))
      → IsApproved approvals
      → approve_all platform allowed bindings approvals ≡ ok final
      → IsApproved final
  unfolding approve_all
  approve_all-IsApproved allowed [] approvals final earlier e = subst IsApproved (ok-inj e) earlier
  approve_all-IsApproved allowed (binding ∷ bindings) approvals final earlier e =
      let (next, first, later) =
        >>=-eq-ok
          (approve platform
            (approved_url platform allowed approvals (platform.parse_url binding.origin))
            binding.cidrs approvals)
          _ e in
      approve_all-IsApproved allowed bindings next final
        (approve-IsApproved _ binding.cidrs approvals next earlier first) later

  pub get-IsApproved :
      (origin : String) (approvals : List (String × List (Address × ℕ)))
      → IsApproved approvals
      → all_approvable (cidrs_in platform (get origin approvals)) ≡ true
  unfolding IsApproved get
  get-IsApproved origin [] earlier = refl
  get-IsApproved origin ((other, cidrs) ∷ approvals) (here, later) =
      elim (Bool-cases (other == origin)) [
        | inl e ↦ rw e here
        | inr e ↦ rw e (get-IsApproved origin approvals later)
      ]

  pub with_origins-IsApproved :
      (policy : Policy) (allowed : List String) (client : Client platform)
      → with_origins platform policy allowed ≡ ok client
      → IsApproved client.approvals
  unfolding with_origins with_approvals IsApproved
  with_origins-IsApproved policy [] client e = absurd (cc)
  with_origins-IsApproved policy (origin ∷ rest) client e =
      let (approvals, approved, made) =
        >>=-eq-ok (approve_all platform (origin ∷ rest) policy.private_origins []) _ e in
      let (opens, same) = if_passes-ok _ origins _ made in
      subst (λ c. IsApproved c.approvals) same
        (approve_all-IsApproved (origin ∷ rest) policy.private_origins [] approvals empty approved)
    where
      empty : IsApproved []
      empty = tt
