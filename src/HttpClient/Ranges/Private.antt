-- ===== src/HttpClient/Ranges/Private.antt =====
-- Which addresses a request of packages/http-client may reach.
use native.Mathlib.Nat.{pow-suc, div-div-eq-div-mul}
use btravstack.Common.{
  ◌≡◌, refl, sym, ap, subst, ◌∙◌, ℕ, zero, suc, ◌+◌, ◌-◌, ◌/◌, ◌^◌, ◌≤◌, Bool, true, false, ◌||◌,
  leb, nat_eq, List, [], ◌∷◌, all, any, Bool-cases, inl, inr, arith, eq_of_beq, and-true,
}
use btravstack.HttpClient.Ranges.{
  Address, v4, v6, in_network, in_any, public_address, private_range, width_of, allowed_address,
  is_approvable, in_cidr,
}

-- Numbers that agree in their first bits agree in fewer of them.
fewer : (n b j e : ℕ) → n / 2 ^ j ≡ b / 2 ^ j → n / 2 ^ (j + e) ≡ b / 2 ^ (j + e)
fewer n b j zero same = subst (λ k. n / 2 ^ k ≡ b / 2 ^ k) (omega arith) same
fewer n b j (suc e) same =
    subst (λ k. n / 2 ^ k ≡ b / 2 ^ k) (omega arith)
      (halve n (j + e) ∙ (ap (λ q. q / 2) (fewer n b j e same) ∙ sym (halve b (j + e))))
  where
    halve : (m k : ℕ) → m / 2 ^ suc k ≡ m / 2 ^ k / 2
    halve m k = ap (λ d. m / d) (pow-suc 2 k) ∙ sym (div-div-eq-div-mul m (2 ^ k) 2)

at_width :
    (n b width prefix bits : ℕ)
    → bits ≤ prefix
    → prefix ≤ width
    → n / 2 ^ (width - prefix) ≡ b / 2 ^ (width - prefix)
    → n / 2 ^ (width - bits) ≡ b / 2 ^ (width - bits)
at_width n b width prefix bits fits within same =
    subst (λ k. n / 2 ^ k ≡ b / 2 ^ k) (omega (arith, fits, within))
      (fewer n b (width - prefix) (prefix - bits) same)

private_v4 :
    (n base prefix : ℕ)
    → prefix ≤ 32
    → n / 2 ^ (32 - prefix) ≡ base / 2 ^ (32 - prefix)
    → private_range (v4 base) prefix ≡ true
    → private_range (v4 n) 32 ≡ true
unfolding private_range
private_v4 n base prefix within same is_private =
    let eight = λ (fits : 8 ≤ prefix). at_width n base 32 prefix 8 fits within same in
    let twelve = λ (fits : 12 ≤ prefix). at_width n base 32 prefix 12 fits within same in
    let sixteen = λ (fits : 16 ≤ prefix). at_width n base 32 prefix 16 fits within same in
    ground (arith, is_private, eight, twelve, sixteen)

private_v6 :
    (n base prefix : ℕ)
    → prefix ≤ 128
    → n / 2 ^ (128 - prefix) ≡ base / 2 ^ (128 - prefix)
    → private_range (v6 base) prefix ≡ true
    → private_range (v6 n) 128 ≡ true
unfolding private_range
private_v6 n base prefix within same is_private =
    let seven = λ (fits : 7 ≤ prefix). at_width n base 128 prefix 7 fits within same in
    let here = div-div-eq-div-mul n (2 ^ 112) 512 in
    let there = div-div-eq-div-mul base (2 ^ 112) 512 in
    ground (arith, is_private, seven, here, there)

-- Every address of a CIDR that may be approved is private.
in_cidr-private :
    (base address : Address) (prefix : ℕ)
    → is_approvable base prefix ≡ true
    → in_cidr base prefix address ≡ true
    → private_range address (width_of address) ≡ true
unfolding in_cidr in_network is_approvable
in_cidr-private (v4 base) (v4 n) prefix approvable inside =
    let (fits, is_private) = and-true (leb prefix 32) (private_range (v4 base) prefix) approvable in
    private_v4 n base prefix (ground (arith, fits))
      (eq_of_beq (n / 2 ^ (32 - prefix)) (base / 2 ^ (32 - prefix)) inside) is_private
in_cidr-private (v6 base) (v6 n) prefix approvable inside =
    let (fits, is_private) =
      and-true (leb prefix 128) (private_range (v6 base) prefix) approvable in
    private_v6 n base prefix (ground (arith, fits))
      (eq_of_beq (n / 2 ^ (128 - prefix)) (base / 2 ^ (128 - prefix)) inside) is_private
in_cidr-private (v4 base) (v6 n) prefix approvable inside = absurd (cc)
in_cidr-private (v6 base) (v4 n) prefix approvable inside = absurd (cc)

pub in_any_cidr : List (Address × ℕ) → Address → Bool
in_any_cidr cidrs address = any (λ cidr. in_cidr cidr.0 cidr.1 address) cidrs

any-private :
    (cidrs : List (Address × ℕ)) (address : Address)
    → all (λ cidr. is_approvable cidr.0 cidr.1) cidrs ≡ true
    → in_any_cidr cidrs address ≡ true
    → private_range address (width_of address) ≡ true
unfolding in_any_cidr
any-private [] address approvable inside = absurd (cc)
any-private ((base, prefix) ∷ cidrs) address approvable inside =
    let (here, later) =
      and-true (is_approvable base prefix) (all (λ cidr. is_approvable cidr.0 cidr.1) cidrs)
        approvable in
    elim (Bool-cases (in_cidr base prefix address)) [
      | inl e ↦ in_cidr-private base address prefix here e
      | inr e ↦
          any-private cidrs address later
            (subst (λ b. (b || in_any_cidr cidrs address) ≡ true) e inside)
    ]

private-not_public :
    (address : Address)
    → private_range address (width_of address) ≡ true
    → public_address address ≡ false
unfolding private_range public_address in_any in_network
private-not_public (v4 n) is_private = ground (arith, is_private)
private-not_public (v6 n) is_private =
    ground (arith, is_private, div-div-eq-div-mul n (2 ^ 105) 128)

-- Whatever CIDRs are approved, as long as each may be: every address in one of them is private, a
-- private address is allowed exactly if one of them holds it, and any other exactly if it is public.
pub allowed_address-approved :
    (cidrs : List (Address × ℕ)) (address : Address)
    → all (λ cidr. is_approvable cidr.0 cidr.1) cidrs ≡ true
    → (in_any_cidr cidrs address ≡ true → private_range address (width_of address) ≡ true)
      × (private_range address (width_of address) ≡ true
          → allowed_address address (in_any_cidr cidrs) ≡ in_any_cidr cidrs address)
      × (private_range address (width_of address) ≡ false
          → allowed_address address (in_any_cidr cidrs) ≡ public_address address)
unfolding allowed_address
allowed_address-approved cidrs address approvable = (
  any-private cidrs address approvable,
  λ is_private. rw (private-not_public address is_private, is_private) refl,
  λ other. rw other (or-false_right (public_address address)),
)
  where
    or-false_right : (b : Bool) → (b || false) ≡ b
    or-false_right true = refl
    or-false_right false = refl
