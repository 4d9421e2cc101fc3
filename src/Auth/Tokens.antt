-- ===== src/Auth/Tokens.antt =====
-- auth_service: the pair of tokens, the rotation of refresh tokens, and signing out.
use awa_platform.Prelude.{
  ℕ, String, ◌+◌, Bool, ◌&&◌, ◌||◌, Option, none, some, List, [], ◌∷◌, ltb, ◌==◌, if◌then◌else◌,
  str_eq,
}
use awa_platform.Prelude.Lists.{find, any, update}
use awa_platform.Exceptions.{Result, ok, raise, invalid_token_error, integrity_error}
use awa_platform.Models.User.{User, RefreshToken}
use awa_platform.Models.Role.{Role}
use awa_platform.Session.{Db, Session, Exec, commit}
use awa_platform.Roles.{Collation, get_user_roles, role_names}
use awa_platform.Auth.Base.{
  Library, Settings, Chance, TokenPair, seconds, hash_token, create_access_token, get_user_by_id,
  unset,
}

-- `[...] or [user.primary_role.name]`
abbrev pub or_primary : List String → String → List String
or_primary [] primary = primary ∷ []
or_primary (n ∷ names) primary = n ∷ names

-- `user.primary_role.name`; the foreign key leaves no user without the role.
unfoldable pub primary_role_name : User → Db → String
primary_role_name user db = elim (find (λ (r : Role). r.id == user.primary_role_id) db.roles) [
  | none ↦ ""
  | some r ↦ r.name
]

-- The unique columns of `refresh_tokens`.
abbrev pub token_clash : RefreshToken → List RefreshToken → Bool
token_clash new rows =
    any (λ (t : RefreshToken). t.id == new.id || str_eq t.token_hash new.token_hash) rows

-- A clash is raised by the flush, before the commit.
unfoldable pub insert_refresh_token : RefreshToken → TokenPair → Exec TokenPair
insert_refresh_token new pair s =
    if token_clash new s.working.refresh_tokens then (raise integrity_error, s) else (
      ok pair,
      record s { working = record s.working { refresh_tokens = new ∷ s.working.refresh_tokens } },
    )

abbrev pub new_refresh_token : Library → Settings → Chance → ℕ → RefreshToken
new_refresh_token lib settings ch user_id = record {
  id = ch.row_id;
  user_id = user_id;
  token_hash = hash_token lib ch.opaque_token;
  expires_at = ch.now 8 + seconds settings.auth_refresh_token_ttl_seconds;
  revoked_at = none;
}

-- `_issue_token_pair`
unfoldable pub issue_token_pair : Library → Collation → Settings → Chance → User → Exec TokenPair
unfolding insert_refresh_token
issue_token_pair lib col settings ch user s =
    let names =
      or_primary (role_names (get_user_roles col user.id s.working))
        (primary_role_name user s.working) in
    let (access_token, expires_in) = create_access_token lib settings ch user.id names in
    insert_refresh_token (new_refresh_token lib settings ch user.id)
      (record {
        access_token = access_token;
        refresh_token = ch.opaque_token;
        expires_in = expires_in;
      })
      s

-- The commit at the end of a flow that may have raised.
unfoldable pub commit_pair : Result TokenPair × Session → Result TokenPair × Session
commit_pair (raise e, s) = (raise e, s)
commit_pair (ok pair, s) = (ok pair, (commit s).1)

-- Not revoked, and not expired at this time.
abbrev pub active_at : ℕ → RefreshToken → Bool
active_at now t = unset t.revoked_at && ltb now t.expires_at

abbrev pub if_active : ℕ → Option RefreshToken → Option RefreshToken
if_active now none = none
if_active now (some t) = if active_at now t then some t else none

-- `_get_active_refresh_token`
unfoldable pub get_active_refresh_token : Library → ℕ → String → Db → Option RefreshToken
get_active_refresh_token lib now raw_token db =
    if_active now (
      find (λ (t : RefreshToken). str_eq t.token_hash (hash_token lib raw_token)) db.refresh_tokens)

abbrev pub revoke_where : (RefreshToken → Bool) → ℕ → Db → Db
revoke_where p now db = record db {
  refresh_tokens = update p (λ t. record t { revoked_at = some now }) db.refresh_tokens;
}

-- `user is None or not user.is_active`
unfoldable pub rotate :
    Library → Collation → Settings → Chance → RefreshToken → Option User → Exec TokenPair
unfolding issue_token_pair commit_pair
rotate lib col settings ch token_row none s = (raise invalid_token_error, s)
rotate lib col settings ch token_row (some user) s =
    let revoked = record s {
      working = revoke_where (λ (t : RefreshToken). t.id == token_row.id) (ch.now 1) s.working;
    } in
    if user.is_active
    then commit_pair (issue_token_pair lib col settings ch user revoked)
    else (raise invalid_token_error, s)

unfoldable pub refresh_with :
    Library → Collation → Settings → Chance → Option RefreshToken → Exec TokenPair
unfolding rotate
refresh_with lib col settings ch none s = (raise invalid_token_error, s)
refresh_with lib col settings ch (some token_row) s =
    rotate lib col settings ch token_row (get_user_by_id token_row.user_id s.working) s

-- The presented token is revoked, and a new pair is issued.
unfoldable pub refresh : Library → Collation → Settings → Chance → String → Exec TokenPair
unfolding refresh_with
refresh lib col settings ch raw_refresh_token s =
    refresh_with lib col settings ch
      (get_active_refresh_token lib (ch.now 0) raw_refresh_token s.working) s

unfoldable pub sign_out_with : Chance → Option RefreshToken → Exec Unit
sign_out_with ch none s = (ok tt, s)
sign_out_with ch (some token_row) s = commit (record s {
  working = revoke_where (λ (t : RefreshToken). t.id == token_row.id) (ch.now 1) s.working;
})

unfoldable pub sign_out : Library → Chance → String → Exec Unit
unfolding sign_out_with
sign_out lib ch raw_refresh_token s =
    sign_out_with ch (get_active_refresh_token lib (ch.now 0) raw_refresh_token s.working) s
