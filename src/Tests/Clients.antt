-- ===== src/Tests/Clients.antt =====
-- Outgoing requests and derived keys at concrete inputs.
use btravstack.Common.{
  ◌≡◌, refl, ℕ, Bool, true, false, none, some, List, [], ◌∷◌, all, get, set, if◌then◌else◌,
  string_eq, nat_eq, text_eq, ◌==◌, Text, ok, split, read_digits, is_digit, lower, leb,
}
use btravstack.HttpClient.{Url}
use btravstack.HttpClient.Exchanges.{responded, received, ended}
use btravstack.HttpClient.Exchanges.Laws.{IsSettled, run-IsSettled}
use btravstack.HttpClient.Ranges.{
  Address, v4, private_range, allowed_address, public_address, is_approvable,
}
use btravstack.HttpClient.Ranges.Private.{in_any_cidr, allowed_address-approved}
use btravstack.HttpClient.Requests.{
  Platform, Policy, Request, Client, create_http_client, permit, permit_url, refuse_or, destination,
  leads_astray, is_limit, policy_origins, policy_origin, with_origins, with_approvals, approve_all,
  approve, approved_url, cidrs_of, add_cidr, cidr_of, cidr_from, prefix_of, is_open, is_supported,
}
use btravstack.HttpClient.Requests.Permits.{IsPermitted, permit-IsPermitted}
use btravstack.Keys.{
  KeyPurpose, is_purpose, is_segment, is_segment_unit, is_version, info_of, derive_key,
  IsSamePurpose, derive_key-inj,
}

abbrev below_ten : ℕ → Bool
below_ten address = leb address 9

run-IsSettled_example :
    IsSettled below_ten 3 (responded 200 none ∷ received (1 ∷ 2 ∷ []) ∷ ended ∷ [])
run-IsSettled_example =
    run-IsSettled below_ten 3 (responded 200 none ∷ received (1 ∷ 2 ∷ []) ∷ ended ∷ [])

-- 10.0.0.0/8 is approved; 10.1.2.3 is asked for.
abbrev ten_slash_eight : List (Address × ℕ)
ten_slash_eight = (v4 167772160, 8) ∷ []

ten_approvable : all (λ cidr. is_approvable cidr.0 cidr.1) ten_slash_eight ≡ true
unfolding is_approvable private_range
ten_approvable = refl

allowed_address-approved_example :
    (in_any_cidr ten_slash_eight (v4 167838211) ≡ true → private_range (v4 167838211) 32 ≡ true)
    × (private_range (v4 167838211) 32 ≡ true
        → allowed_address (v4 167838211) (in_any_cidr ten_slash_eight)
          ≡ in_any_cidr ten_slash_eight (v4 167838211))
    × (private_range (v4 167838211) 32 ≡ false
        → allowed_address (v4 167838211) (in_any_cidr ten_slash_eight)
          ≡ public_address (v4 167838211))
allowed_address-approved_example =
    allowed_address-approved ten_slash_eight (v4 167838211) ten_approvable

abbrev shop : Url
shop = record {
  protocol = "https:";
  username = "";
  password = "";
  hostname = "shop.example";
  origin = "https://shop.example";
  pathname = "/";
  search = "";
  hash = "";
  is_origin_alone = true;
}

abbrev one_site : Platform
one_site = record {
  parse_url = λ text. if text == "https://shop.example" then some shop else none;
  address_of = λ host. none;
  address_in = λ text. if text == (49 ∷ []) then some (v4 167772160) else none;
}

-- The approved network is spelt `1/8` for this platform.
abbrev shop_policy : Policy
shop_policy = record {
  max_response_bytes = 1000;
  deadline_ms = 500;
  origins = "https://shop.example" ∷ [];
  private_origins =
      record { origin = "https://shop.example"; cidrs = (49 ∷ 47 ∷ 56 ∷ []) ∷ [] } ∷ [];
}

abbrev shop_client : Client one_site
shop_client = record {
  allowed = "https://shop.example" ∷ [];
  approvals = ("https://shop.example", ten_slash_eight) ∷ [];
  max_bytes = 1000;
  deadline = 500;
}

client_made : create_http_client one_site shop_policy ≡ ok shop_client
unfolding create_http_client is_limit policy_origins policy_origin with_origins with_approvals
    approve_all approve approved_url cidrs_of add_cidr cidr_of cidr_from prefix_of is_open
    destination leads_astray is_approvable private_range get set split read_digits is_digit
client_made = refl

abbrev shop_request : Request
shop_request = record {
  url = "https://shop.example";
  method = some "POST";
  headers = (120 ∷ []) ∷ [];
}

request_permitted : permit one_site (λ headers. true) shop_client shop_request ≡ ok shop
unfolding permit permit_url is_supported refuse_or destination leads_astray lower get
request_permitted = refl

permit-IsPermitted_example : IsPermitted one_site shop_client shop_request shop
permit-IsPermitted_example =
    permit-IsPermitted one_site (λ headers. true) shop_policy shop_client shop_request shop
      client_made request_permitted

-- a/b/v3
abbrev sealing : KeyPurpose
sealing = record { namespace = 97 ∷ []; purpose = 98 ∷ []; version = 3 }

abbrev own_text : Text → Text → Text
own_text root text = text

sealing_derived : derive_key own_text [] sealing ≡ ok (info_of sealing)
unfolding derive_key is_purpose is_segment is_segment_unit is_version
sealing_derived = refl

derive_key-inj_example : IsSamePurpose sealing sealing
derive_key-inj_example =
    derive_key-inj own_text [] sealing sealing (info_of sealing) (λ one other same. same)
      sealing_derived sealing_derived
