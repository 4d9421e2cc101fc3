-- ===== src/Security/Tests.antt =====
-- A provider whose only key verifies the token with the same letters.
use awa_platform.Prelude.{
  ℕ, String, ◌+◌, ◌<◌, ◌≡◌, refl, false, true, none, some, [], ◌∷◌, str_eq, if◌then◌else◌,
}
use awa_platform.Prelude.Lists.{any}
use mathlib.Core.List.{Memᴰ}
use awa_platform.Auth.Base.{seconds}
use awa_platform.Security.{
  initial_cache, Fetched, fetched, http_error, Idp, Jose, CurrentUser, has_role, jwks_ttl_seconds,
  cached_keys, get_jwks, verify_under, decode_token, user_of, get_current_user, require_role,
  roles_of,
}
use awa_platform.Security.Keys.{quiet, ask, answer, Reach, begin, next, cached_keys-received}
use awa_platform.Security.Access.{Uses, require_role_checked}

abbrev jose : Jose String String
jose = record {
  decode = λ token k algorithms audience issuer now.
      if str_eq token k then some (record { sub = some "u"; roles = some "Buyer" }) else none;
  str = λ v. v;
  list_of = λ v. some (v ∷ []);
}

abbrev idp : Idp
idp = record { auth_jwt_algorithms = "RS256" ∷ []; auth_audience = "awa"; auth_issuer = "idp" }

abbrev buyer_user : CurrentUser String
buyer_user = record {
  subject = "u";
  roles = "Buyer" ∷ [];
  raw_claims = record { sub = some "u"; roles = some "Buyer" };
}

abbrev down : Fetched String
down = http_error

abbrev late : ℕ
late = 7200000000

-- The keys were asked for at the time `late`, and have come.
answered : Reach {Jwks = String} (record {
  cache = record { keys = some "k"; fetched_at = late };
  pending = [];
  received = (late, "k") ∷ [];
})
unfolding cached_keys
answered =
    next (next begin (ask quiet late refl))
      (answer (record quiet { pending = late ∷ [] }) [] [] late "k" refl)

cached_keys-received_example :
    (t : ℕ) × Memᴰ {A = ℕ × String} (t, "k") ((late, "k") ∷ [])
    × (late + 5 < t + seconds jwks_ttl_seconds)
unfolding cached_keys
cached_keys-received_example = cached_keys-received (late + 5) "k" answered refl

require_role_checked_example :
    (token : String) × (k : String) × (some "k" ≡ some token)
    × Uses late (fetched "k") initial_cache k
    × (jose.decode token k idp.auth_jwt_algorithms idp.auth_audience idp.auth_issuer late
        ≡ some buyer_user.raw_claims)
    × (str_eq buyer_user.subject "" ≡ false)
    × (any (λ r. str_eq r "Buyer") (roles_of jose idp buyer_user.raw_claims.roles) ≡ true)
unfolding require_role get_current_user decode_token get_jwks cached_keys verify_under user_of
    has_role
require_role_checked_example =
    require_role_checked jose idp "Buyer" (some "k") late (fetched "k") initial_cache buyer_user
      refl
