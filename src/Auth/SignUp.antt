-- ===== src/Auth/SignUp.antt =====
-- auth_service.sign_up.
use awa_platform.Prelude.{
  String, ◌+◌, true, false, ◌||◌, Option, none, some, ◌∷◌, ◌==◌, if◌then◌else◌, str_eq, is_some,
}
use awa_platform.Prelude.Lists.{any}
use awa_platform.Exceptions.{Result, ok, raise, email_already_registered_error, integrity_error}
use awa_platform.Models.User.{User, EmailVerificationToken}
use awa_platform.Models.Role.{Role, UserRole}
use awa_platform.Session.{Session, Exec, commit}
use awa_platform.Roles.{get_role_by_name, assign_role}
use awa_platform.Auth.Base.{
  Library, Settings, Chance, seconds, normalize_email, hash_token, hash_password, get_user_by_email,
}

pub record SignUpRequest : Type 0 where
  pub email : String
  pub password : String
  pub first_name : String
  pub last_name : String
  pub phone : Option String

pub record SignUpResult : Type 0 where
  pub user : User
  pub verification_token : String

-- `data.phone.strip() if data.phone else None`
abbrev pub strip_phone : Library → Option String → Option String
strip_phone lib none = none
strip_phone lib (some p) = if str_eq p "" then none else some (lib.strip p)

abbrev pub new_user : Library → Chance → SignUpRequest → Role → User
new_user lib ch form buyer_role = record {
  id = ch.user_id;
  email = normalize_email lib form.email;
  password_hash = hash_password lib ch.salt form.password;
  first_name = lib.strip form.first_name;
  last_name = lib.strip form.last_name;
  phone = strip_phone lib form.phone;
  primary_role_id = buyer_role.id;
  is_active = true;
  is_email_verified = false;
  failed_login_attempts = 0;
  locked_until = none;
  last_login_at = none;
}

-- `_issue_email_verification` and the commit; the hash and the id are unique columns.
unfoldable pub finish_sign_up :
    Library → Settings → Chance → User → Result UserRole × Session → Result SignUpResult × Session
finish_sign_up lib settings ch user (raise e, s) = (raise e, s)
finish_sign_up lib settings ch user (ok row, s) =
    let new : EmailVerificationToken = record {
      id = ch.row_id;
      user_id = user.id;
      token_hash = hash_token lib ch.opaque_token;
      expires_at = ch.now 8 + seconds settings.auth_email_verification_ttl_seconds;
      used_at = none;
    } in
    if any (λ (t : EmailVerificationToken). t.id == new.id || str_eq t.token_hash new.token_hash)
      s.working.email_verification_tokens
    then (raise integrity_error, s)
    else (
      ok (record { user = user; verification_token = ch.opaque_token }),
      (commit (record s {
        working = record s.working {
          email_verification_tokens = new ∷ s.working.email_verification_tokens;
        };
      })).1,
    )

-- The flush of the new row of `users`: its id and its address are unique columns.
unfoldable pub add_user :
    Library → Settings → Chance → SignUpRequest → Result Role → Exec SignUpResult
unfolding finish_sign_up
add_user lib settings ch form (raise e) s = (raise e, s)
add_user lib settings ch form (ok buyer_role) s =
    let user = new_user lib ch form buyer_role in
    let added = record s { working = record s.working { users = user ∷ s.working.users } } in
    if any (λ (u : User). u.id == user.id || str_eq u.email user.email) s.working.users
    then (raise integrity_error, s)
    else finish_sign_up lib settings ch user
        (assign_role ch.role_row_id (ch.now 0) user "Buyer" true added)

unfoldable pub sign_up : Library → Settings → Chance → SignUpRequest → Exec SignUpResult
unfolding add_user
sign_up lib settings ch form s =
    let email = normalize_email lib form.email in
    if is_some (get_user_by_email lib email s.working)
    then (raise (email_already_registered_error email), s)
    else add_user lib settings ch form (get_role_by_name "Buyer" s.working) s
