-- ===== src/Auth/Verify.antt =====
-- auth_service.verify_email.
use awa_platform.Prelude.{ℕ, String, true, Option, none, some, ◌==◌, if◌then◌else◌, str_eq}
use awa_platform.Prelude.Lists.{find, update}
use awa_platform.Exceptions.{raise, invalid_token_error}
use awa_platform.Models.User.{User, EmailVerificationToken}
use awa_platform.Session.{Db, Exec, commit}
use awa_platform.Roles.{set_user}
use awa_platform.Auth.Base.{Library, Chance, hash_token, get_user_by_id}
use awa_platform.Auth.Reset.{spent}

abbrev pub use_verification_token : ℕ → ℕ → Db → Db
use_verification_token id now db = record db {
  email_verification_tokens =
      update (λ (t : EmailVerificationToken). t.id == id) (λ t. record t { used_at = some now })
        db.email_verification_tokens;
}

unfoldable pub verify_for : Chance → EmailVerificationToken → Option User → Exec Unit
verify_for ch token_row none s = (raise invalid_token_error, s)
verify_for ch token_row (some user) s = commit (record s {
  working =
      use_verification_token token_row.id (ch.now 1)
        (set_user user.id (λ u. record u { is_email_verified = true }) s.working);
})

unfoldable pub find_verification_token : Library → String → Db → Option EmailVerificationToken
find_verification_token lib raw_token db =
    find (λ (t : EmailVerificationToken). str_eq t.token_hash (hash_token lib raw_token))
      db.email_verification_tokens

unfoldable pub verify_with : Chance → Option EmailVerificationToken → Exec Unit
unfolding verify_for
verify_with ch none s = (raise invalid_token_error, s)
verify_with ch (some token_row) s =
    if spent (ch.now 0) token_row.used_at token_row.expires_at
    then (raise invalid_token_error, s)
    else verify_for ch token_row (get_user_by_id token_row.user_id s.working) s

unfoldable pub verify_email : Library → Chance → (raw_token : String) → Exec Unit
unfolding verify_with
verify_email lib ch raw_token s = verify_with ch (find_verification_token lib raw_token s.working) s
