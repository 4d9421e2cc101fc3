-- ===== src/Auth/Tests.antt =====
-- Sign-in, rotation and reset on a concrete account.
use awa_platform.Prelude.{
  ℕ, String, ◌<◌, ◌≡◌, refl, true, none, some, [], ◌∷◌, arith, if◌then◌else◌, str_eq, eq_iff,
  is_some,
}
use awa_platform.Prelude.Lists.{find}
use awa_platform.Exceptions.{Result, raise, invalid_token_error, account_locked_error}
use awa_platform.Models.User.{User, RefreshToken, PasswordResetToken}
use awa_platform.Session.{Db, empty_db, request}
use awa_platform.Roles.{Collation, get_user_roles}
use awa_platform.Auth.Base.{
  matches, mismatch, Library, Settings, Chance, TokenPair, normalize_email, hash_token,
  verify_password, create_access_token, get_user_by_email, get_user_by_id, retry_after_seconds,
}
use awa_platform.Auth.Tokens.{
  sign_out, primary_role_name, insert_refresh_token, issue_token_pair, commit_pair,
  get_active_refresh_token, rotate, refresh_with, refresh,
}
use awa_platform.Auth.Reset.{find_reset_token, reset_for, reset_with, reset_password}
use awa_platform.Auth.Registered.{sign_up-sign_in}
use awa_platform.Auth.Verify.{verify_email}
use awa_platform.Auth.Verified.{sign_up-verify_email}
use awa_platform.Auth.SignUp.{
  SignUpRequest, SignUpResult, new_user, finish_sign_up, add_user, sign_up,
}
use awa_platform.Roles.{find_role, get_role_by_name, or_raise, assign_role, assign_found, grant}
use awa_platform.Auth.SignIn.{sign_in}
use awa_platform.Auth.Base.{hash_password}
use awa_platform.Exceptions.{ok}
use awa_platform.Auth.Lockout.{attempt, attempts, lockout}
use awa_platform.Auth.Rotation.{has_hash, refresh_rotates}
use awa_platform.Auth.SignOut.{sign_out_ends_session}
use awa_platform.Auth.Sessions.{reset_password_ends_sessions}

-- A library whose hashes are the texts themselves.
abbrev pub plain : Library
plain = record {
  strip = λ s. s;
  lower = λ s. s;
  sha256 = λ s. s;
  argon2_hash = λ salt p. p;
  argon2_verify = λ h p. if str_eq h p then matches else mismatch;
  argon2_needs_rehash = λ h. none;
  jwt_encode = λ claims secret. "jwt";
  normalize_idem = λ e. refl;
  verify_hash = λ salt p. rw ((eq_iff p p).1 refl) refl;
}

abbrev pub unsorted : Collation
unsorted = record { by_name = λ roles. roles; any-by_name = λ p roles. refl }

abbrev pub settings : Settings
settings = record {
  auth_jwt_secret = "";
  auth_local_issuer = "awa";
  auth_access_token_ttl_seconds = 900;
  auth_refresh_token_ttl_seconds = 1209600;
  auth_password_reset_ttl_seconds = 1800;
  auth_email_verification_ttl_seconds = 86400;
  auth_max_failed_logins = 2;
  auth_lockout_seconds = 900;
}

-- A request at a time, and the token that it draws.
abbrev pub at : ℕ → String → ℕ → Chance
at t token id = record {
  now = λ n. t;
  opaque_token = token;
  row_id = id;
  user_id = 4;
  role_row_id = 11;
  salt = 0;
  jti = "";
}

abbrev pub seller : User
seller = record {
  id = 3;
  email = "seller@example.com";
  password_hash = "secret";
  first_name = "";
  last_name = "";
  phone = none;
  primary_role_id = 1;
  is_active = true;
  is_email_verified = true;
  failed_login_attempts = 0;
  locked_until = none;
  last_login_at = none;
}

abbrev session_token : RefreshToken
session_token = record {
  id = 20;
  user_id = 3;
  token_hash = "r1";
  expires_at = 5000;
  revoked_at = none;
}

abbrev reset_token : PasswordResetToken
reset_token = record { id = 30; user_id = 3; token_hash = "p1"; expires_at = 5000; used_at = none }

abbrev pub before : Db
before = record empty_db {
  users = seller ∷ [];
  roles = record { id = 1; name = "Seller"; description = none; is_active = true } ∷ [];
  user_roles = record { id = 10; user_id = 3; role_id = 1; assigned_at = 0 } ∷ [];
  refresh_tokens = session_token ∷ [];
  password_reset_tokens = reset_token ∷ [];
}

lockout_example :
    let tries =
      attempts plain unsorted settings "seller@example.com" ((at 100 "" 0, "guess") ∷ []) before in
    let db' =
      (attempt plain unsorted settings "seller@example.com" (at 101 "" 0, "guess") tries).1 in
    attempt plain unsorted settings "seller@example.com" (at 102 "r2" 21, "secret") db'
    ≡ (raise (account_locked_error (retry_after_seconds (some 900000101) 102)), db')
unfolding get_user_by_email normalize_email verify_password
lockout_example =
    lockout plain unsorted settings "seller@example.com" ((at 100 "" 0, "guess") ∷ [])
      (at 101 "" 0, "guess") before seller (at 102 "r2" 21, "secret") refl refl ((refl, refl), tt)
      (refl, refl) refl (omega arith)

abbrev rotated : Result TokenPair × Db
rotated = request (refresh plain unsorted settings (at 200 "r2" 21) "r1") before

refresh_rotates_example :
    ((again : Chance)
      → request (refresh plain unsorted settings again "r1") rotated.1
        ≡ (raise invalid_token_error, rotated.1))
    × ((now : ℕ)
        → now < 1209600000200
        → is_some (get_active_refresh_token plain now "r2" rotated.1) ≡ true)
unfolding refresh refresh_with rotate issue_token_pair insert_refresh_token commit_pair
    get_active_refresh_token get_user_by_id hash_token create_access_token get_user_roles
    primary_role_name
refresh_rotates_example =
    refresh_rotates plain unsorted settings (at 200 "r2" 21) "r1" before
      (record { access_token = "jwt"; refresh_token = "r2"; expires_in = 900 }) refl

abbrev reset : Result (Unit {0}) × Db
reset = request (reset_password plain (at 300 "" 0) "p1" "changed") before

reset_password_ends_sessions_example :
    (t : PasswordResetToken) × (find_reset_token plain "p1" before ≡ some t)
    × ((again : Chance) (other : String)
        → request (reset_password plain again "p1" other) reset.1
          ≡ (raise invalid_token_error, reset.1))
    × ((again : Chance) (token : String) (row : RefreshToken)
        → find (has_hash (hash_token plain token)) reset.1.refresh_tokens ≡ some row
        → row.user_id ≡ t.user_id
        → request (refresh plain unsorted settings again token) reset.1
          ≡ (raise invalid_token_error, reset.1))
unfolding reset_password reset_with reset_for find_reset_token get_user_by_id hash_token
reset_password_ends_sessions_example =
    reset_password_ends_sessions plain unsorted settings (at 300 "" 0) "p1" "changed" before refl

abbrev signed_out : Db
signed_out = (request (sign_out plain (at 250 "" 0) "r1") before).1

sign_out_ends_session_example :
    request (refresh plain unsorted settings (at 260 "r3" 22) "r1") signed_out
    ≡ (raise invalid_token_error, signed_out)
sign_out_ends_session_example =
    sign_out_ends_session plain "r1" unsorted settings (at 250 "" 0) (at 260 "r3" 22) before
      (omega arith)

-- Before anyone has signed up.
abbrev opened : Db
opened = record empty_db {
  roles = record { id = 2; name = "Buyer"; description = none; is_active = true } ∷ [];
}

abbrev form : SignUpRequest
form = record {
  email = "new@example.com";
  password = "secret12";
  first_name = "N";
  last_name = "B";
  phone = none;
}

abbrev signed_up : Result SignUpResult × Db
signed_up = request (sign_up plain settings (at 400 "v1" 40) form) opened

sign_up-sign_in_example :
    (pair : TokenPair) × ((request
        (sign_in plain unsorted settings (at 500 "r9" 41) "new@example.com" "secret12")
        signed_up.1).0
      ≡ ok pair)
    × (pair.refresh_token ≡ "r9")
unfolding sign_up add_user finish_sign_up get_user_by_email normalize_email get_role_by_name
    find_role or_raise assign_role assign_found grant hash_token hash_password
sign_up-sign_in_example =
    sign_up-sign_in plain unsorted settings (at 400 "v1" 40) (at 500 "r9" 41) form "new@example.com"
      opened
      (record {
        user =
            new_user plain (at 400 "v1" 40) form
              (record { id = 2; name = "Buyer"; description = none; is_active = true });
        verification_token = "v1";
      })
      refl refl refl

sign_up-verify_email_example :
    ((request (verify_email plain (at 500 "" 41) "v1") signed_up.1).0 ≡ ok tt)
    × ((u : User) × (get_user_by_email plain "new@example.com"
            (request (verify_email plain (at 500 "" 41) "v1") signed_up.1).1
          ≡ some u)
        × (u.is_email_verified ≡ true))
    × ((request
          (verify_email plain (at 600 "" 42) "v1")
          (request (verify_email plain (at 500 "" 41) "v1") signed_up.1).1).0
        ≡ raise invalid_token_error)
unfolding sign_up add_user finish_sign_up get_user_by_email normalize_email get_role_by_name
    find_role or_raise assign_role assign_found grant hash_token hash_password
sign_up-verify_email_example =
    sign_up-verify_email plain settings (at 400 "v1" 40) (at 500 "" 41) (at 600 "" 42) form opened
      (record {
        user =
            new_user plain (at 400 "v1" 40) form
              (record { id = 2; name = "Buyer"; description = none; is_active = true });
        verification_token = "v1";
      })
      refl (omega arith)
