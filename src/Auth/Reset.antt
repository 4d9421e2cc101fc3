-- ===== src/Auth/Reset.antt =====
-- auth_service: the password-reset token, and the new password.
use awa_platform.Prelude.{
  ℕ, String, ◌+◌, Bool, not, ◌&&◌, ◌||◌, Option, none, some, ◌∷◌, ltb, ◌==◌, if◌then◌else◌, str_eq,
}
use awa_platform.Prelude.Lists.{find, any, update}
use awa_platform.Exceptions.{ok, raise, invalid_token_error, integrity_error}
use awa_platform.Models.User.{User, RefreshToken, PasswordResetToken}
use awa_platform.Session.{Db, Exec, commit}
use awa_platform.Roles.{set_user}
use awa_platform.Auth.Base.{
  Library, Settings, Chance, seconds, hash_token, hash_password, get_user_by_email, get_user_by_id,
  unset,
}
use awa_platform.Auth.Tokens.{revoke_where}

unfoldable pub issue_reset : Library → Settings → Chance → Option User → Exec (Option String)
issue_reset lib settings ch none s = (ok none, s)
issue_reset lib settings ch (some user) s =
    let new : PasswordResetToken = record {
      id = ch.row_id;
      user_id = user.id;
      token_hash = hash_token lib ch.opaque_token;
      expires_at = ch.now 8 + seconds settings.auth_password_reset_ttl_seconds;
      used_at = none;
    } in
    if not user.is_active
    then (ok none, s)
    else if any (λ (t : PasswordResetToken). t.id == new.id || str_eq t.token_hash new.token_hash)
        s.working.password_reset_tokens
    then (raise integrity_error, s)
    else (
      ok (some ch.opaque_token),
      (commit (record s {
        working = record s.working {
          password_reset_tokens = new ∷ s.working.password_reset_tokens;
        };
      })).1,
    )

unfoldable pub request_password_reset : Library → Settings → Chance → String → Exec (Option String)
unfolding issue_reset
request_password_reset lib settings ch email s =
    issue_reset lib settings ch (get_user_by_email lib email s.working) s

unfoldable pub find_reset_token : Library → String → Db → Option PasswordResetToken
find_reset_token lib raw_token db =
    find (λ (t : PasswordResetToken). str_eq t.token_hash (hash_token lib raw_token))
      db.password_reset_tokens

-- `_revoke_all_refresh_tokens`
abbrev pub revoke_all : ℕ → ℕ → Db → Db
revoke_all user_id = revoke_where (λ (t : RefreshToken). t.user_id == user_id && unset t.revoked_at)

abbrev pub use_reset_token : ℕ → ℕ → Db → Db
use_reset_token id now db = record db {
  password_reset_tokens =
      update (λ (t : PasswordResetToken). t.id == id) (λ t. record t { used_at = some now })
        db.password_reset_tokens;
}

abbrev pub after_reset : Library → Chance → String → PasswordResetToken → User → Db → Db
after_reset lib ch new_password token_row user db = revoke_all user.id (ch.now 2) (
    use_reset_token token_row.id (ch.now 1) (
      set_user user.id (λ u. record u { password_hash = hash_password lib ch.salt new_password })
        db))

unfoldable pub reset_for : Library → Chance → String → PasswordResetToken → Option User → Exec Unit
reset_for lib ch new_password token_row none s = (raise invalid_token_error, s)
reset_for lib ch new_password token_row (some user) s =
    commit (record s { working = after_reset lib ch new_password token_row user s.working })

-- `used_at is not None or expires_at <= now`
abbrev pub spent : ℕ → Option ℕ → ℕ → Bool
spent now used_at expires_at = not (unset used_at) || not (ltb now expires_at)

unfoldable pub reset_with : Library → Chance → String → Option PasswordResetToken → Exec Unit
unfolding reset_for
reset_with lib ch new_password none s = (raise invalid_token_error, s)
reset_with lib ch new_password (some token_row) s =
    if spent (ch.now 0) token_row.used_at token_row.expires_at
    then (raise invalid_token_error, s)
    else reset_for lib ch new_password token_row (get_user_by_id token_row.user_id s.working) s

unfoldable pub reset_password : Library → Chance → (raw_token new_password : String) → Exec Unit
unfolding reset_with
reset_password lib ch raw_token new_password s =
    reset_with lib ch new_password (find_reset_token lib raw_token s.working) s
