-- ===== src/Rest/Hides.antt =====
-- The answers of the sign-in form and of the password reset do not tell whether an account exists.
use awa_platform.Prelude.{
  String, ◌≡◌, refl, sym, ap, ◌∙◌, true, false, not, arith, Bool-cases, inl, inr, Bool, ◌||◌,
  Option, none, some, ◌==◌, str_eq,
}
use awa_platform.Prelude.Lists.{any}
use awa_platform.Exceptions.{Result, ok, raise}
use awa_platform.Models.User.{User, PasswordResetToken}
use awa_platform.Session.{Db, Session}
use awa_platform.Roles.{Collation}
use awa_platform.Auth.Base.{Library, Settings, Chance, TokenPair, get_user_by_email, hash_token}
use awa_platform.Auth.SignIn.{sign_in_user, sign_in}
use awa_platform.Auth.Lockout.{IsWrong, attempt_wrong}
use awa_platform.Auth.Reset.{issue_reset, request_password_reset}
use awa_platform.Api.{handled, Reply, reply, http_exception, unhandled}
use awa_platform.Rest.{answer, message, sign_in_error, sign_in_endpoint, forgot_password_endpoint}

module _ (lib : Library) (col : Collation) (settings : Settings) (ch : Chance) (db : Db) where
  abbrev start : Session
  start = record { working = db; stored = db }

  abbrev reply_of : Result TokenPair → Reply TokenPair
  reply_of (ok pair) = reply pair
  reply_of (raise e) = sign_in_error e

  sign_in_reply :
      (r : Result TokenPair × Session)
      → (answer (λ pair t. reply pair) sign_in_error r).0 ≡ reply_of r.0
  sign_in_reply (ok pair, s) = refl
  sign_in_reply (raise e, s) = refl

  unknown_account :
      (email password : String)
      → get_user_by_email lib email db ≡ none
      → (handled (sign_in_endpoint lib col settings ch email password) db).0 ≡ http_exception 401
  unfolding sign_in_endpoint sign_in sign_in_user
  unknown_account email password none_found =
      sign_in_reply (sign_in lib col settings ch email password start)
      ∙ ap (λ o. reply_of (sign_in_user lib col settings ch password o start).0) none_found

  wrong_password :
      (email password : String) (u : User)
      → get_user_by_email lib email db ≡ some u
      → u.is_active ≡ true
      → IsWrong lib col settings email u (ch, password)
      → (handled (sign_in_endpoint lib col settings ch email password) db).0 ≡ http_exception 401
  unfolding sign_in_endpoint
  wrong_password email password u found active wrong =
      sign_in_reply (sign_in lib col settings ch email password start)
      ∙ ap reply_of (attempt_wrong lib col settings email (ch, password) db u found active wrong).0

  -- The drawn token is new to the table.
  abbrev pub is_new_token : Bool
  is_new_token = not (
      any
        (λ (t : PasswordResetToken).
          t.id == ch.row_id || str_eq t.token_hash (hash_token lib ch.opaque_token))
        db.password_reset_tokens)

  abbrev pub sent_message : String
  sent_message = "If an account exists for that email, a reset link has been sent."

  abbrev sent_reply : Result (Option String) × Session → Reply String
  sent_reply r = (answer (message sent_message) unhandled r).0

  issue_reply :
      (o : Option User)
      → is_new_token ≡ true
      → sent_reply (issue_reset lib settings ch o start) ≡ reply sent_message
  unfolding issue_reset
  issue_reply none new = refl
  issue_reply (some user) new =
      let fresh = not_true new in
      elim (Bool-cases user.is_active) [ inl i ↦ rw (fresh, i) refl | inr i ↦ rw (fresh, i) refl ]
    where
      not_true : {b : Bool} → not b ≡ true → b ≡ false
      not_true {b} h = ground arith

  -- The reply to a forgotten password is one message, for every address.
  forgot_reply :
      (email : String)
      → is_new_token ≡ true
      → (handled (forgot_password_endpoint lib col settings ch email) db).0 ≡ reply sent_message
  unfolding forgot_password_endpoint request_password_reset
  forgot_reply email new = issue_reply (get_user_by_email lib email db) new

  -- Signing in to an account that does not exist is answered exactly as a wrong password on an account
  -- that is active and not locked, and, where the drawn token is new, a password reset is answered the
  -- same for any two addresses whatever.
  pub accounts_hidden :
      (email other password guess forgotten another : String) (u : User)
      → get_user_by_email lib email db ≡ none
      → get_user_by_email lib other db ≡ some u
      → u.is_active ≡ true
      → IsWrong lib col settings other u (ch, guess)
      → is_new_token ≡ true
      → ((handled (sign_in_endpoint lib col settings ch email password) db).0
          ≡ (handled (sign_in_endpoint lib col settings ch other guess) db).0)
        × ((handled (forgot_password_endpoint lib col settings ch forgotten) db).0
            ≡ (handled (forgot_password_endpoint lib col settings ch another) db).0)
  accounts_hidden email other password guess forgotten another u absent found active wrong new = (
    unknown_account email password absent ∙ sym (wrong_password other guess u found active wrong),
    forgot_reply forgotten new ∙ sym (forgot_reply another new),
  )
