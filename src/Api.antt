-- ===== src/Api.antt =====
-- core/access_tokens.decode_access_token, the dependencies of api/deps.py and the role endpoints of
-- api/v1/users.py.
pub mod Reads
pub mod Guard
pub mod Keeps
pub mod Issued
pub mod Tests
use awa_platform.Prelude.{
  ℕ, String, ◌≡◌, ◌≢◌, ◌≤◌, Bool, true, false, not, Option, none, some, List, [], ◌∷◌,
  if◌then◌else◌, str_eq,
}
use awa_platform.Exceptions.{
  Exception, Result, ok, raise, role_not_found_error, last_role_removal_error,
}
use awa_platform.Models.User.{User}
use awa_platform.Models.Role.{Role, UserRole}
use awa_platform.Session.{Db, Session, commit}
use awa_platform.Roles.{Collation, meets, get_user_roles, role_names, assign_role, revoke_role}
use awa_platform.Auth.Base.{Library, AccessClaims, Settings, get_user_by_id}

-- The claims of a token that jose has verified, with those that may be missing.
pub record Claims : Type 0 where
  pub sub : Option String
  pub token_type : Option String
  pub roles : List String

-- `jwt.decode` at a time, with `none` for a JOSEError, and `uuid.UUID`, with `none` for a ValueError.
pub record Verifier : Type 0 where
  pub jwt_decode : (token secret issuer : String) → (now : ℕ) → Option Claims
  pub uuid : String → Option ℕ

pub record AccessTokenClaims : Type 0 where
  pub subject : String
  pub roles : List String

-- How a request ends: a result, an HTTPException with its status, or an exception that no handler
-- translates.
pub data Reply (A : Type 0) : Type 0 where
  reply : A → Reply A
  http_exception : (status : ℕ) → Reply A
  unhandled : Exception → Reply A

-- `str(claims.get("sub", ""))` that is not empty.
abbrev pub with_subject : Option String → List String → Option AccessTokenClaims
with_subject none roles = none
with_subject (some sub) roles =
    if str_eq sub "" then none else some (record { subject = sub; roles = roles })

-- `claims.get("type") != _TOKEN_TYPE`
abbrev pub is_access : Option String → Bool
is_access none = false
is_access (some kind) = str_eq kind "access"

unfoldable pub check_claims : Option Claims → Option AccessTokenClaims
check_claims none = none
check_claims (some c) = if is_access c.token_type then with_subject c.sub c.roles else none

module _ (jose : Verifier) where
  unfoldable pub decode_access_token : Settings → (now : ℕ) → String → Option AccessTokenClaims
  decode_access_token settings now token =
      check_claims (jose.jwt_decode token settings.auth_jwt_secret settings.auth_local_issuer now)

  abbrev pub if_active : Option User → Reply User
  if_active none = http_exception 401
  if_active (some user) = if user.is_active then reply user else http_exception 401

  abbrev pub user_with_id : Option ℕ → Db → Reply User
  user_with_id none db = http_exception 401
  user_with_id (some user_id) db = if_active (get_user_by_id user_id db)

  unfoldable pub user_of_claims : Option AccessTokenClaims → Db → Reply User
  user_of_claims none db = http_exception 401
  user_of_claims (some claims) db = user_with_id (jose.uuid claims.subject) db

  -- The credentials of the header, with `none` where there are none.
  unfoldable pub get_current_local_user : Settings → (now : ℕ) → Option String → Db → Reply User
  unfolding user_of_claims
  get_current_local_user settings now none db = http_exception 401
  get_current_local_user settings now (some token) db =
      if str_eq token ""
      then http_exception 401
      else user_of_claims (decode_access_token settings now token) db

  unfoldable pub check_role : Collation → List String → Reply User → Db → Reply User
  check_role col names (reply user) db =
      if meets (role_names (get_user_roles col user.id db)) names
      then reply user
      else http_exception 403
  check_role col names (http_exception status) db = http_exception status
  check_role col names (unhandled e) db = unhandled e

  unfoldable pub require_local_role :
      Collation → Settings → List String → (now : ℕ) → Option String → Db → Reply User
  unfolding check_role
  require_local_role col settings names now credentials db =
      check_role col names (get_current_local_user settings now credentials db) db

-- The handlers of `RoleNotFoundError` and `LastRoleRemovalError`.
abbrev pub translated : {A : Type 0} → Exception → Reply A
translated (role_not_found_error name) = http_exception 404
translated (last_role_removal_error user_id) = http_exception 409
translated e = unhandled e

-- What follows the call of the service: the commit and the roles of the user.
unfoldable pub finish_roles :
    {A : Type 0} → Collation → User → Result A × Session → Reply (List Role) × Session
finish_roles col user (raise e, s) = (translated e, s)
finish_roles col user (ok a, s) = (reply (get_user_roles col user.id s.working), (commit s).1)

unfoldable pub assign_for :
    Collation
    → (id assigned_at : ℕ) → (name : String) (is_primary : Bool) → Option User
    → Session
    → Reply (List Role) × Session
unfolding finish_roles
assign_for col id t name is_primary none s = (http_exception 404, s)
assign_for col id t name is_primary (some user) s =
    finish_roles col user (assign_role id t user name is_primary s)

unfoldable pub revoke_for :
    Collation → (name : String) → Option User → Session → Reply (List Role) × Session
unfolding finish_roles
revoke_for col name none s = (http_exception 404, s)
revoke_for col name (some user) s = finish_roles col user (revoke_role user name s)

-- A body that runs once the dependency has returned a user.
unfoldable pub guarded :
    {A : Type 0} → Reply User → (Session → Reply A × Session) → Session → Reply A × Session
guarded (reply admin) body s = body s
guarded (http_exception status) body s = (http_exception status, s)
guarded (unhandled e) body s = (unhandled e, s)

-- The body of a request, and what is committed when it has ended.
abbrev pub handled : {A : Type 0} → (Session → Reply A × Session) → Db → Reply A × Db
handled body db = let (r, s) = body (record { working = db; stored = db }) in (r, s.stored)

-- The endpoints: `admin` is what `require_local_role("Admin")` has returned.
unfoldable pub assign_user_role :
    Collation
    → (admin : Reply User) → (id assigned_at user_id : ℕ) → (name : String) (is_primary : Bool)
    → Session
    → Reply (List Role) × Session
assign_user_role col admin id t user_id name is_primary s =
    guarded admin (assign_for col id t name is_primary (get_user_by_id user_id s.working)) s

unfoldable pub revoke_user_role :
    Collation
    → (admin : Reply User) (user_id : ℕ) (name : String) → Session
    → Reply (List Role) × Session
revoke_user_role col admin user_id name s =
    guarded admin (revoke_for col name (get_user_by_id user_id s.working)) s
