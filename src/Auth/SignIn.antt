-- ===== src/Auth/SignIn.antt =====
-- auth_service.sign_in with the failed-login counter.
use awa_platform.Prelude.{ℕ, String, ◌+◌, not, Option, none, some, leb, if◌then◌else◌}
use awa_platform.Exceptions.{
  raise, invalid_credentials_error, account_locked_error, account_inactive_error,
}
use awa_platform.Models.User.{User}
use awa_platform.Session.{Exec, commit}
use awa_platform.Roles.{Collation, set_user}
use awa_platform.Auth.Base.{
  Library, Settings, Chance, TokenPair, seconds, hash_password, verify_password, needs_rehash,
  get_user_by_email, later_than, retry_after_seconds,
}
use awa_platform.Auth.Tokens.{issue_token_pair, commit_pair}

-- `_register_failed_login` on the user's row.
unfoldable pub register_failed_login : Settings → ℕ → User → User
register_failed_login settings now u =
    let n = u.failed_login_attempts + 1 in
    if leb settings.auth_max_failed_logins n
    then record u {
      failed_login_attempts = 0;
      locked_until = some (now + seconds settings.auth_lockout_seconds);
    }
    else record u { failed_login_attempts = n }

-- What a successful sign-in writes on the row.
unfoldable pub signed_in : Library → Chance → String → User → User
signed_in lib ch password u =
    let cleared = record u {
      failed_login_attempts = 0;
      locked_until = none;
      last_login_at = some (ch.now 3);
    } in
    if needs_rehash lib u.password_hash
    then record cleared { password_hash = hash_password lib ch.salt password }
    else cleared

unfoldable pub sign_in_user :
    Library → Collation → Settings → Chance → String → Option User → Exec TokenPair
unfolding commit_pair
sign_in_user lib col settings ch password none s = (raise invalid_credentials_error, s)
sign_in_user lib col settings ch password (some user) s =
    let failed = record s {
      working = set_user user.id (register_failed_login settings (ch.now 2)) s.working;
    } in
    let welcome = record s { working = set_user user.id (signed_in lib ch password) s.working } in
    if later_than (ch.now 0) user.locked_until
    then (raise (account_locked_error (retry_after_seconds user.locked_until (ch.now 1))), s)
    else if not user.is_active
    then (raise account_inactive_error, s)
    else if not (verify_password lib password user.password_hash)
    then (raise invalid_credentials_error, (commit failed).1)
    else commit_pair (issue_token_pair lib col settings ch user welcome)

unfoldable pub sign_in :
    Library → Collation → Settings → Chance → (email password : String) → Exec TokenPair
unfolding sign_in_user
sign_in lib col settings ch email password s =
    sign_in_user lib col settings ch password (get_user_by_email lib email s.working) s
