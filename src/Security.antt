-- ===== src/Security.antt =====
-- core/security.py: the verification of bearer tokens of the external identity provider, with its
-- cached key set. jose, httpx and the values of JSON claims are parameters. Times are in
-- microseconds; a clock that has been set back gives the difference 0, which is within the lifetime
-- as a negative one is.
pub mod Keys
pub mod Access
mod Tests
use awa_platform.Prelude.{
  ℕ, String, ◌-◌, Option, none, some, List, [], Bool, true, false, ltb, if◌then◌else◌, str_eq, map,
}
use awa_platform.Prelude.Lists.{any}
use awa_platform.Exceptions.{value_error}
use awa_platform.Auth.Base.{seconds}
use awa_platform.Api.{Reply, reply, http_exception, unhandled}

-- `_jwks_cache`
pub record JwksCache (Jwks : Type 0) : Type 0 where
  pub keys : Option Jwks
  pub fetched_at : ℕ

abbrev pub initial_cache : {Jwks : Type 0} → JwksCache Jwks
initial_cache = record { keys = none; fetched_at = 0 }

-- How the request for the key set ends: the JSON of the answer, an `httpx.HTTPError` (an error
-- status among them), or an answer that is no JSON.
pub data Fetched (Jwks : Type 0) : Type 0 where
  fetched : Jwks → Fetched Jwks
  http_error not_json : Fetched Jwks

-- The settings of the identity provider.
pub record Idp : Type 0 where
  pub auth_jwt_algorithms : List String
  pub auth_audience : String
  pub auth_issuer : String

-- The claims that the code reads, as values of JSON.
pub record IdpClaims (Value : Type 0) : Type 0 where
  pub sub : Option Value
  pub roles : Option Value

-- `jwt.decode` with its checks of expiry, audience and issuer, at a time, with `none` for a
-- JOSEError; `str`; and the elements of a list.
pub record Jose (Jwks Value : Type 0) : Type 0 where
  pub decode :
      (token : String)
      → Jwks
      → (algorithms : List String) → (audience issuer : String) → (now : ℕ)
      → Option (IdpClaims Value)
  pub str : Value → String
  pub list_of : Value → Option (List Value)

pub record CurrentUser (Value : Type 0) : Type 0 where
  pub subject : String
  pub roles : List String
  pub raw_claims : IdpClaims Value

unfoldable pub has_role : {Value : Type 0} → CurrentUser Value → String → Bool
has_role user role = any (λ r. str_eq r role) user.roles

abbrev pub jwks_ttl_seconds : ℕ
jwks_ttl_seconds = 3600

module _ {Jwks : Type 0} where
  -- The keys of the cache that are younger than the lifetime.
  unfoldable pub cached_keys : (now : ℕ) → JwksCache Jwks → Option Jwks
  cached_keys now c = if ltb (now - c.fetched_at) (seconds jwks_ttl_seconds) then c.keys else none

  -- The two assignments after an answer to a request that began at `now`.
  abbrev pub store_keys : (now : ℕ) → Jwks → JwksCache Jwks → JwksCache Jwks
  store_keys now keys c = record { keys = some keys; fetched_at = now }

  abbrev pub fetch_keys : (now : ℕ) → Fetched Jwks → JwksCache Jwks → Fetched Jwks × JwksCache Jwks
  fetch_keys now (fetched keys) c = (fetched keys, store_keys now keys c)
  fetch_keys now http_error c = (http_error, c)
  fetch_keys now not_json c = (not_json, c)

  -- `answer` is how a request for the keys would end.
  abbrev pub keys_or_fetch :
      Option Jwks
      → (now : ℕ) → (answer : Fetched Jwks) → JwksCache Jwks
      → Fetched Jwks × JwksCache Jwks
  keys_or_fetch (some keys) now answer c = (fetched keys, c)
  keys_or_fetch none now answer c = fetch_keys now answer c

  unfoldable pub get_jwks :
      (now : ℕ) → (answer : Fetched Jwks) → JwksCache Jwks → Fetched Jwks × JwksCache Jwks
  get_jwks now answer c = keys_or_fetch (cached_keys now c) now answer c

module _ {Jwks Value : Type 0} (jose : Jose Jwks Value) (idp : Idp) where
  abbrev pub or_unauthorized : Option (IdpClaims Value) → Reply (IdpClaims Value)
  or_unauthorized none = http_exception 401
  or_unauthorized (some claims) = reply claims

  -- The claims of a token under the keys, where there are keys.
  unfoldable pub verify_under :
      (token : String) → (now : ℕ) → Fetched Jwks → Reply (IdpClaims Value)
  verify_under token now (fetched keys) =
      or_unauthorized
        (jose.decode token keys idp.auth_jwt_algorithms idp.auth_audience idp.auth_issuer now)
  verify_under token now http_error = http_exception 503
  verify_under token now not_json = unhandled value_error

  unfoldable pub decode_token :
      (token : String)
      → (now : ℕ) → (answer : Fetched Jwks) → JwksCache Jwks
      → Reply (IdpClaims Value) × JwksCache Jwks
  unfolding verify_under
  decode_token token now answer c =
      let (keys, c') = get_jwks now answer c in (verify_under token now keys, c')

  -- `str(claims.get("sub", ""))`
  abbrev pub subject_of : Option Value → String
  subject_of none = ""
  subject_of (some v) = jose.str v

  abbrev pub strings : Option (List Value) → List String
  strings none = []
  strings (some vs) = map jose.str vs

  -- The roles of a claim that is a list, and none otherwise.
  abbrev pub roles_of : Option Value → List String
  roles_of none = []
  roles_of (some v) = strings (jose.list_of v)

  unfoldable pub user_of : Reply (IdpClaims Value) → Reply (CurrentUser Value)
  user_of (reply claims) =
      if str_eq (subject_of claims.sub) ""
      then http_exception 401
      else reply (record {
        subject = subject_of claims.sub;
        roles = roles_of claims.roles;
        raw_claims = claims;
      })
  user_of (http_exception status) = http_exception status
  user_of (unhandled e) = unhandled e

  unfoldable pub get_current_user :
      Option String
      → (now : ℕ) → (answer : Fetched Jwks) → JwksCache Jwks
      → Reply (CurrentUser Value) × JwksCache Jwks
  unfolding decode_token user_of
  get_current_user none now answer c = (http_exception 401, c)
  get_current_user (some token) now answer c =
      let (r, c') = decode_token token now answer c in
      if str_eq token "" then (http_exception 401, c) else (user_of r, c')

  abbrev pub with_role : String → Reply (CurrentUser Value) → Reply (CurrentUser Value)
  with_role role (reply user) = if has_role user role then reply user else http_exception 403
  with_role role (http_exception status) = http_exception status
  with_role role (unhandled e) = unhandled e

  unfoldable pub require_role :
      String
      → Option String
      → (now : ℕ) → (answer : Fetched Jwks) → JwksCache Jwks
      → Reply (CurrentUser Value) × JwksCache Jwks
  require_role role credentials now answer c =
      let (r, c') = get_current_user credentials now answer c in (with_role role r, c')
