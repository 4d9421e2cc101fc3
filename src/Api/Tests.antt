-- ===== src/Api/Tests.antt =====
-- The dependencies and the role endpoints on a concrete administrator.
use awa_platform.Prelude.{
  ◌≡◌, refl, true, none, some, [], ◌∷◌, str_eq, if◌then◌else◌, ◌&&◌, leb, arith,
}
use awa_platform.Models.User.{User}
use awa_platform.Session.{Db, Session, empty_db}
use awa_platform.Roles.{Collation, meets, get_user_roles}
use awa_platform.Api.{
  Verifier, check_claims, decode_access_token, user_of_claims, get_current_local_user, check_role,
  require_local_role, reply, http_exception, guarded, handled, revoke_user_role,
}
use awa_platform.Auth.Base.{Settings, get_user_by_id, create_access_token}
use awa_platform.Auth.Tokens.{issue_token_pair, insert_refresh_token}
use awa_platform.Api.Issued.{
  IsPaired, claims_of, named_roles, issue_token_pair-get_current_local_user,
}
use awa_platform.Auth.Tests.{plain, at}

abbrev pub unsorted : Collation
unsorted = record { by_name = λ roles. roles; any-by_name = λ p roles. refl }

abbrev pub admin : User
admin = record {
  id = 3;
  email = "";
  password_hash = "";
  first_name = "";
  last_name = "";
  phone = none;
  primary_role_id = 1;
  is_active = true;
  is_email_verified = true;
  failed_login_attempts = 0;
  locked_until = none;
  last_login_at = none;
}

abbrev pub before : Db
before = record empty_db {
  users = admin ∷ [];
  roles =
      record { id = 1; name = "Admin"; description = none; is_active = true }
      ∷ record { id = 2; name = "Buyer"; description = none; is_active = true }
      ∷ [];
  user_roles = record { id = 10; user_id = 3; role_id = 1; assigned_at = 0 } ∷ [];
}

-- Without the role nothing happens.
forbidden :
    handled (revoke_user_role unsorted (http_exception 403) 3 "Admin") before
    ≡ (http_exception 403, before)
unfolding revoke_user_role guarded
forbidden = refl

abbrev pub settings : Settings
settings = record {
  auth_jwt_secret = "";
  auth_local_issuer = "awa";
  auth_access_token_ttl_seconds = 900;
  auth_refresh_token_ttl_seconds = 1209600;
  auth_password_reset_ttl_seconds = 1800;
  auth_email_verification_ttl_seconds = 86400;
  auth_max_failed_logins = 2;
  auth_lockout_seconds = 900;
}

-- One token is known, and it expires at 50.
abbrev pub jose : Verifier
jose = record {
  jwt_decode = λ token secret issuer now.
      if str_eq token "good" && leb now 50
      then some (record { sub = some "3"; token_type = some "access"; roles = [] })
      else none;
  uuid = λ s. if str_eq s "3" then some 3 else none;
}

expired : get_current_local_user jose settings 51 (some "good") before ≡ http_exception 401
unfolding get_current_local_user decode_access_token check_claims user_of_claims get_user_by_id
expired = refl

not_held :
    require_local_role jose unsorted settings ("Manager" ∷ []) 40 (some "good") before
    ≡ http_exception 403
unfolding require_local_role check_role get_current_local_user decode_access_token check_claims
    user_of_claims get_user_by_id meets get_user_roles
not_held = refl

-- What `plain` encodes is read until 900.
abbrev reads_plain : Verifier
reads_plain = record {
  jwt_decode = λ token secret issuer now.
      if str_eq token "jwt" && leb now 900
      then some (record { sub = some "3"; token_type = some "access"; roles = "Admin" ∷ [] })
      else none;
  uuid = jose.uuid;
}

abbrev open_session : Session
open_session = record { working = before; stored = before }

paired :
    IsPaired plain reads_plain ""
      (claims_of settings (at 400 "v1" 40) admin (named_roles unsorted admin open_session))
unfolding get_user_roles
paired = record {
  id_text = "3";
  id_given = refl;
  id_read = refl;
  token_given = refl;
  decode_encode = λ now early. let known : leb now 900 ≡ true = ground arith in rw known refl;
}

issue_token_pair-get_current_local_user_example :
    get_current_local_user reads_plain settings 40 (some "jwt") before ≡ reply admin
unfolding issue_token_pair create_access_token insert_refresh_token get_user_by_id
issue_token_pair-get_current_local_user_example =
    issue_token_pair-get_current_local_user plain reads_plain unsorted settings (at 400 "v1" 40) 40
      admin open_session (record { access_token = "jwt"; refresh_token = "v1"; expires_in = 900 })
      before paired refl refl refl (omega arith)
