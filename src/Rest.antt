-- ===== src/Rest.antt =====
-- The REST endpoints of api/v1/auth.py and api/v1/auctions.py: the service's exceptions as status
-- codes, and what is committed when the request ends. A request that returns is a `reply`, whatever
-- its code; the message of an HTTPException is fixed by its endpoint and its status.
pub mod Bidding
pub mod Passwords
pub mod Answers
pub mod Hides
mod Tests
use awa_platform.Prelude.{ℕ, String, Bool, Option, none, some, List}
use awa_platform.Exceptions.{
  Exception, Result, ok, raise, email_already_registered_error, account_locked_error,
  account_inactive_error, invalid_credentials_error, invalid_token_error,
}
use awa_platform.Models.User.{User}
use awa_platform.Session.{Db, Session}
use awa_platform.Roles.{Collation, get_user_roles, role_names}
use awa_platform.Auth.Base.{Library, Settings, Chance, TokenPair}
use awa_platform.Auth.Tokens.{or_primary, primary_role_name, refresh, sign_out}
use awa_platform.Auth.SignUp.{SignUpRequest, SignUpResult, sign_up}
use awa_platform.Auth.SignIn.{sign_in}
use awa_platform.Auth.Reset.{request_password_reset, reset_password}
use awa_platform.Auth.Verify.{verify_email}
use awa_platform.Api.{Reply, reply, http_exception, unhandled, get_current_local_user, Verifier}

pub record UserRead : Type 0 where
  pub id : ℕ
  pub email : String
  pub first_name : String
  pub last_name : String
  pub phone : Option String
  pub role : String
  pub roles : List String
  pub is_email_verified : Bool

unfoldable pub to_user_read : Collation → User → Db → UserRead
to_user_read col user db = record {
  id = user.id;
  email = user.email;
  first_name = user.first_name;
  last_name = user.last_name;
  phone = user.phone;
  role = primary_role_name user db;
  roles = or_primary (role_names (get_user_roles col user.id db)) (primary_role_name user db);
  is_email_verified = user.is_email_verified;
}

module _ {A B : Type 0} where
  -- `try: ... except ...` around the call of a service, and what is returned after it.
  abbrev pub answer :
      (A → Session → Reply B) → (Exception → Reply B) → Result A × Session → Reply B × Session
  answer f handler (ok a, s) = (f a s, s)
  answer f handler (raise e, s) = (handler e, s)

abbrev pub sign_up_error : {A : Type 0} → Exception → Reply A
sign_up_error (email_already_registered_error email) = http_exception 409
sign_up_error e = unhandled e

abbrev pub sign_in_error : {A : Type 0} → Exception → Reply A
sign_in_error (account_locked_error retry_after) = http_exception 429
sign_in_error account_inactive_error = http_exception 403
sign_in_error invalid_credentials_error = http_exception 401
sign_in_error e = unhandled e

-- `except InvalidTokenError`
abbrev pub token_error : {A : Type 0} → (status : ℕ) → Exception → Reply A
token_error status invalid_token_error = http_exception status
token_error status e = unhandled e

abbrev pub message : {A : Type 0} → String → A → Session → Reply String
message text a s = reply text

module _ (lib : Library) (col : Collation) (settings : Settings) (ch : Chance) where
  unfoldable pub sign_up_endpoint : SignUpRequest → Session → Reply UserRead × Session
  sign_up_endpoint payload s =
      answer (λ (r : SignUpResult) t. reply (to_user_read col r.user t.working)) sign_up_error
        (sign_up lib settings ch payload s)

  unfoldable pub sign_in_endpoint : (email password : String) → Session → Reply TokenPair × Session
  sign_in_endpoint email password s =
      answer (λ pair t. reply pair) sign_in_error (sign_in lib col settings ch email password s)

  unfoldable pub refresh_endpoint : String → Session → Reply TokenPair × Session
  refresh_endpoint refresh_token s =
      answer (λ pair t. reply pair) (token_error 401) (refresh lib col settings ch refresh_token s)

  unfoldable pub sign_out_endpoint : String → Session → Reply (Unit {0}) × Session
  sign_out_endpoint refresh_token s =
      answer (λ u t. reply tt) unhandled (sign_out lib ch refresh_token s)

  -- The message does not say whether a token was issued.
  unfoldable pub forgot_password_endpoint : (email : String) → Session → Reply String × Session
  forgot_password_endpoint email s =
      answer (message "If an account exists for that email, a reset link has been sent.") unhandled
        (request_password_reset lib settings ch email s)

  unfoldable pub reset_password_endpoint :
      (token new_password : String) → Session → Reply String × Session
  reset_password_endpoint token new_password s =
      answer (message "Your password has been reset. You can now sign in.") (token_error 400)
        (reset_password lib ch token new_password s)

  unfoldable pub verify_email_endpoint : (token : String) → Session → Reply String × Session
  verify_email_endpoint token s =
      answer (message "Your email has been verified.") (token_error 400)
        (verify_email lib ch token s)

unfoldable pub get_me_endpoint :
    Verifier → Collation → Settings → (now : ℕ) → Option String → Db → Reply UserRead
get_me_endpoint jose col settings now credentials db =
    read_user (get_current_local_user jose settings now credentials db)
  where
    read_user : Reply User → Reply UserRead
    read_user (reply user) = reply (to_user_read col user db)
    read_user (http_exception status) = http_exception status
    read_user (unhandled e) = unhandled e
