-- ===== src/Auth/Base.antt =====
-- The libraries, the clock and the random values of a request, and the small helpers.
use awa_platform.Prelude.{
  ℕ, String, ◌+◌, ◌-◌, ◌*◌, ◌/◌, ◌≡◌, Bool, true, false, Option, none, some, List, ltb, leb, ◌==◌,
  if◌then◌else◌, str_eq,
}
use awa_platform.Prelude.Lists.{find}
use awa_platform.Models.User.{User}
use awa_platform.Session.{Db}

-- How `PasswordHasher.verify` ends.
pub data Verified : Type 0 where
  matches mismatch invalid_hash : Verified

-- The claims of an access token.
pub record AccessClaims : Type 0 where
  pub sub : ℕ
  pub roles : List String
  pub token_type : String
  pub iss : String
  pub iat : ℕ
  pub exp : ℕ
  pub jti : String

-- Functions of Python, argon2, hashlib and jose that the services call, with the laws that they
-- rely on: a normalised address stays as it is, and a hash verifies the password that it is of.
pub record Library : Type 0 where
  pub strip : String → String
  pub lower : String → String
  pub sha256 : String → String
  pub argon2_hash : (salt : ℕ) → String → String
  pub argon2_verify : (hash password : String) → Verified
  pub argon2_needs_rehash : String → Option Bool
  pub jwt_encode : AccessClaims → (secret : String) → String
  pub normalize_idem : (e : String) → lower (strip (lower (strip e))) ≡ lower (strip e)
  pub verify_hash : (salt : ℕ) (p : String) → argon2_verify (argon2_hash salt p) p ≡ matches

pub record Settings : Type 0 where
  pub auth_jwt_secret : String
  pub auth_local_issuer : String
  pub auth_access_token_ttl_seconds : ℕ
  pub auth_refresh_token_ttl_seconds : ℕ
  pub auth_password_reset_ttl_seconds : ℕ
  pub auth_email_verification_ttl_seconds : ℕ
  pub auth_max_failed_logins : ℕ
  pub auth_lockout_seconds : ℕ

-- What a request draws: the n-th reading of the clock in microseconds, and random values.
pub record Chance : Type 0 where
  pub now : ℕ → ℕ
  pub opaque_token : String
  pub row_id : ℕ
  pub user_id : ℕ
  pub role_row_id : ℕ
  pub salt : ℕ
  pub jti : String

-- `timedelta(seconds=n)`
abbrev pub seconds : ℕ → ℕ
seconds n = n * 1000000

pub record TokenPair : Type 0 where
  pub access_token : String
  pub refresh_token : String
  pub expires_in : ℕ

module _ (lib : Library) where
  unfoldable pub normalize_email : String → String
  normalize_email email = lib.lower (lib.strip email)

  unfoldable pub hash_token : String → String
  hash_token raw_token = lib.sha256 raw_token

  unfoldable pub hash_password : ℕ → String → String
  hash_password salt plain_password = lib.argon2_hash salt plain_password

  -- A mismatch and a malformed hash are both False.
  unfoldable pub verify_password : String → String → Bool
  verify_password plain_password password_hash =
      elim (lib.argon2_verify password_hash plain_password) [ matches ↦ true | _ ↦ false ]

  unfoldable pub needs_rehash : String → Bool
  needs_rehash password_hash = elim (lib.argon2_needs_rehash password_hash) [
    | none ↦ false
    | some b ↦ b
  ]

  -- The token and its lifetime; `time.time()` is in seconds.
  unfoldable pub create_access_token : Settings → Chance → ℕ → List String → String × ℕ
  create_access_token settings ch user_id roles =
      let now = ch.now 9 / 1000000 in
      let expires_in = settings.auth_access_token_ttl_seconds in
      (
        lib.jwt_encode
            (record {
              sub = user_id;
              roles = roles;
              token_type = "access";
              iss = settings.auth_local_issuer;
              iat = now;
              exp = now + expires_in;
              jti = ch.jti;
            })
            settings.auth_jwt_secret,
        expires_in,
      )

abbrev pub has_email : String → User → Bool
has_email email u = str_eq u.email email

unfoldable pub get_user_by_email : Library → String → Db → Option User
unfolding normalize_email
get_user_by_email lib email db = find (has_email (normalize_email lib email)) db.users

-- `db.get(User, user_id)`
unfoldable pub get_user_by_id : ℕ → Db → Option User
get_user_by_id user_id db = find (λ (u : User). u.id == user_id) db.users

-- Whether `t` is set and later than `now`.
abbrev pub later_than : ℕ → Option ℕ → Bool
later_than now none = false
later_than now (some t) = ltb now t

-- `max(int((locked_until - now).total_seconds()), 1)`: a difference below zero counts as zero here,
-- and both are raised to 1.
unfoldable pub retry_after_seconds : Option ℕ → ℕ → ℕ
retry_after_seconds none now = 1
retry_after_seconds (some t) now = let s = (t - now) / 1000000 in if leb s 1 then 1 else s

-- `str | None`
abbrev pub unset : Option ℕ → Bool
unset none = true
unset (some t) = false
