-- ===== src/Api/Issued.antt =====
-- The access token of a pair that has been issued admits its user.
use awa_platform.Prelude.{
  ℕ, String, ◌+◌, ◌/◌, ◌≤◌, ◌≡◌, ◌∷◌, refl, subst, true, false, some, List, str_eq, Bool,
  if◌then◌else◌,
}
use awa_platform.Exceptions.{Exception, Result, ok, raise, integrity_error}
use awa_platform.Models.User.{User, RefreshToken}
use awa_platform.Session.{Db, Session}
use awa_platform.Roles.{Collation, role_names, get_user_roles}
use awa_platform.Auth.Base.{
  Library, AccessClaims, Settings, Chance, TokenPair, create_access_token, get_user_by_id,
}
use awa_platform.Auth.Tokens.{
  or_primary, primary_role_name, token_clash, new_refresh_token, insert_refresh_token,
  issue_token_pair,
}
use awa_platform.Api.{
  Verifier, reply, check_claims, decode_access_token, user_of_claims, get_current_local_user,
}

-- jose reads these claims out of what it has written, under the same secret and issuer, until they
-- expire, and uuid reads the user's id out of what str has written of it; neither text is empty.
pub record IsPaired (lib : Library) (jose : Verifier) (secret : String) (c : AccessClaims)
    : Type 0 where
  pub id_text : String
  pub id_given : str_eq id_text "" ≡ false
  pub id_read : jose.uuid id_text ≡ some c.sub
  pub token_given : str_eq (lib.jwt_encode c secret) "" ≡ false
  pub decode_encode :
      (now : ℕ)
      → now ≤ c.exp
      → jose.jwt_decode (lib.jwt_encode c secret) secret c.iss now
        ≡ some (record { sub = some id_text; token_type = some c.token_type; roles = c.roles })

-- The claims of a user's access token with these roles.
abbrev pub claims_of : Settings → Chance → User → List String → AccessClaims
claims_of settings ch user roles = record {
  sub = user.id;
  roles = roles;
  token_type = "access";
  iss = settings.auth_local_issuer;
  iat = ch.now 9 / 1000000;
  exp = ch.now 9 / 1000000 + settings.auth_access_token_ttl_seconds;
  jti = ch.jti;
}

-- The roles that a pair's claims name.
abbrev pub named_roles : Collation → User → Session → List String
named_roles col user s =
    or_primary (role_names (get_user_roles col user.id s.working))
      (primary_role_name user s.working)

-- A token that has been created for an active user of the database, with whatever roles, admits that
-- user until it expires.
created_admits :
    (lib : Library) (jose : Verifier) (settings : Settings) (ch : Chance) (now : ℕ)
    (roles : List String) (user : User) (db : Db)
    → IsPaired lib jose settings.auth_jwt_secret (claims_of settings ch user roles)
    → get_user_by_id user.id db ≡ some user
    → user.is_active ≡ true
    → now ≤ ch.now 9 / 1000000 + settings.auth_access_token_ttl_seconds
    → get_current_local_user jose settings now
        (some (create_access_token lib settings ch user.id roles).0)
        db
      ≡ reply user
unfolding create_access_token get_current_local_user decode_access_token check_claims user_of_claims
created_admits lib jose settings ch now roles user db paired known active early =
    rw
      (
        paired.token_given,
        paired.decode_encode now early,
        paired.id_given,
        paired.id_read,
        known,
        active,
      )
      refl

unless_clash :
    {A : Type 0} (t : Bool) (e : Exception) (a given : A) (s s' : Session)
    → let r : Result A × Session = if t then (raise e, s) else (ok a, s') in
      (r.0 ≡ ok given) → a ≡ given
unless_clash true e a given s s' made = absurd (cc)
unless_clash false e a given s s' made = cc

inserted_pair :
    (row : RefreshToken) (pair given : TokenPair) (s : Session)
    → (insert_refresh_token row pair s).0 ≡ ok given
    → pair ≡ given
unfolding insert_refresh_token
inserted_pair row pair given s made =
    unless_clash (token_clash row s.working.refresh_tokens) integrity_error pair given s
      (record s { working = record s.working { refresh_tokens = row ∷ s.working.refresh_tokens } })
      made

-- If jose and uuid read back the claims that were written, the access token of a pair that has been
-- issued to a user admits that user until it expires, in any later database that still has the user
-- as it was, and active.
pub issue_token_pair-get_current_local_user :
    (lib : Library) (jose : Verifier) (col : Collation) (settings : Settings) (ch : Chance)
    (now : ℕ) (user : User) (s : Session) (pair : TokenPair) (db : Db)
    → IsPaired lib jose settings.auth_jwt_secret
        (claims_of settings ch user (named_roles col user s))
    → (issue_token_pair lib col settings ch user s).0 ≡ ok pair
    → get_user_by_id user.id db ≡ some user
    → user.is_active ≡ true
    → now ≤ ch.now 9 / 1000000 + settings.auth_access_token_ttl_seconds
    → get_current_local_user jose settings now (some pair.access_token) db ≡ reply user
unfolding issue_token_pair
issue_token_pair-get_current_local_user lib jose col settings ch now user s pair db paired made
      known active early =
    let names = named_roles col user s in
    let (access_token, expires_in) = create_access_token lib settings ch user.id names in
    let issued =
      inserted_pair (new_refresh_token lib settings ch user.id)
        (record {
          access_token = access_token;
          refresh_token = ch.opaque_token;
          expires_in = expires_in;
        })
        pair s made in
    subst
      (λ (p : TokenPair).
        get_current_local_user jose settings now (some p.access_token) db ≡ reply user)
      issued (created_admits lib jose settings ch now names user db paired known active early)
