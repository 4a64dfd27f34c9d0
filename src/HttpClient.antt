-- ===== src/HttpClient.antt =====
-- packages/http-client/src: requests that leave the application, under a policy that is fixed once.
-- URLs are parsed by the platform: a parsed one is a record of what the code reads of it.
pub mod Ranges
pub mod Exchanges
pub mod Requests
use btravstack.Common.{ℕ, Bool, String}

pub record Url : Type 0 where
  pub protocol : String
  pub username : String
  pub password : String
  pub hostname : String
  pub origin : String
  pub pathname : String
  pub search : String
  pub hash : String
  -- `url.href === url.origin + "/"`
  pub is_origin_alone : Bool

-- Why a request was not answered.
pub data HttpFailure : Type 0 where
  rejected : String → HttpFailure
  destination_forbidden cancelled deadline_exceeded unavailable encoding_refused : HttpFailure
  redirect_refused response_too_large : ℕ → HttpFailure
