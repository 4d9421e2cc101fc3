-- ===== src/Auth/Sessions.antt =====
-- What a password reset ends: the reset token, and every session of the account.
use awa_platform.Prelude.{
  ℕ, String, ◌≡◌, refl, ap, subst, ◌∙◌, true, false, ◌&&◌, Option, none, some, List, [], ◌∷◌, arith,
  ◌==◌, ==_iff, if_intro, str_eq,
}
use awa_platform.Prelude.Lists.{All, All-find, find, update, change, find-update, find_test}
use awa_platform.Exceptions.{ok, raise, invalid_token_error}
use awa_platform.Models.User.{User, RefreshToken, PasswordResetToken}
use awa_platform.Session.{Db, request}
use awa_platform.Roles.{Collation}
use awa_platform.Auth.Base.{Library, Settings, Chance, hash_token, get_user_by_id, unset}
use awa_platform.Auth.Tokens.{refresh}
use awa_platform.Auth.Reset.{
  find_reset_token, use_reset_token, after_reset, reset_for, reset_with, reset_password, spent,
}
use awa_platform.Auth.Rotation.{has_hash, refresh_revoked}

-- Every refresh token of the user is revoked.
abbrev pub IsSignedOut : ℕ → List RefreshToken → Type 0
IsSignedOut uid = All (λ (t : RefreshToken). t.user_id ≡ uid → unset t.revoked_at ≡ false)

IsSignedOut-revoke :
    (uid now : ℕ) (rows : List RefreshToken)
    → IsSignedOut uid (
        update
          (λ (t : RefreshToken). t.user_id == uid && unset t.revoked_at)
          (λ t. record t { revoked_at = some now })
          rows)
IsSignedOut-revoke uid now [] = tt
IsSignedOut-revoke uid now (t ∷ rows) = (ground arith, IsSignedOut-revoke uid now rows)

module _ (lib : Library) where
  reset_token_used :
      (raw : String) (id now : ℕ) (db : Db) (t : PasswordResetToken)
      → find_reset_token lib raw db ≡ some t
      → t.id ≡ id
      → find_reset_token lib raw (use_reset_token id now db)
        ≡ some (record t { used_at = some now })
  unfolding find_reset_token
  reset_token_used raw id now db t found same =
      find-update (λ (r : PasswordResetToken). str_eq r.token_hash (hash_token lib raw))
        (λ (r : PasswordResetToken). r.id == id) (λ r. record r { used_at = some now })
        db.password_reset_tokens (λ x. refl)
      ∙ ap (change (λ (r : PasswordResetToken). r.id == id) (λ r. record r { used_at = some now }))
          found
      ∙ ground arith

  reset_spent :
      (ch : Chance) (raw password : String) (db : Db) (t : PasswordResetToken)
      → find_reset_token lib raw db ≡ some t
      → spent (ch.now 0) t.used_at t.expires_at ≡ true
      → request (reset_password lib ch raw password) db ≡ (raise invalid_token_error, db)
  unfolding reset_password
  reset_spent ch raw password db t found h =
      ap
        (λ o.
          let r = reset_with lib ch password o (record { working = db; stored = db }) in
          (r.0, r.1.stored))
        found
      ∙ simp h

  -- What a reset leaves behind: the token is refused from now on, and every session of the user is
  -- over.
  abbrev ResetDone : String → ℕ → Db → Type 0
  ResetDone raw uid db' =
      ((again : Chance) (password : String)
        → request (reset_password lib again raw password) db' ≡ (raise invalid_token_error, db'))
      × IsSignedOut uid db'.refresh_tokens

  after_reset-ResetDone :
      (ch : Chance) (raw password : String) (t : PasswordResetToken) (user : User) (db : Db)
      → find_reset_token lib raw db ≡ some t
      → ResetDone raw user.id (after_reset lib ch password t user db)
  after_reset-ResetDone ch raw password t user db found = (
    λ again other.
        reset_spent again raw other (after_reset lib ch password t user db)
          (record t { used_at = some (ch.now 1) })
          (unfold find_reset_token in reset_token_used raw t.id (ch.now 1) db t found refl) refl,
    IsSignedOut-revoke user.id (ch.now 2) db.refresh_tokens,
  )

  reset_for_ok :
      (ch : Chance) (raw password : String) (t : PasswordResetToken) (o : Option User) (db : Db)
      → find_reset_token lib raw db ≡ some t
      → get_user_by_id t.user_id db ≡ o
      → let r = reset_for lib ch password t o (record { working = db; stored = db }) in
        r.0 ≡ ok tt → ResetDone raw t.user_id r.1.stored
  unfolding reset_for get_user_by_id
  reset_for_ok ch raw password t none db found e = λ h. absurd (cc)
  reset_for_ok ch raw password t (some user) db found e = λ _.
      let same : user.id ≡ t.user_id =
        (==_iff user.id t.user_id).0 (find_test (λ (u : User). u.id == t.user_id) db.users e) in
      subst (λ uid. ResetDone raw uid (after_reset lib ch password t user db)) same
        (after_reset-ResetDone ch raw password t user db found)

  reset_with_ok :
      (ch : Chance) (raw password : String) (o : Option PasswordResetToken) (db : Db)
      → find_reset_token lib raw db ≡ o
      → let r = reset_with lib ch password o (record { working = db; stored = db }) in
        r.0 ≡ ok tt → (t : PasswordResetToken) × (o ≡ some t) × ResetDone raw t.user_id r.1.stored
  unfolding reset_with
  reset_with_ok ch raw password none db found = λ h. absurd (cc)
  reset_with_ok ch raw password (some t) db found =
      if_intro
        (λ r.
          r.0 ≡ ok tt
          → (t' : PasswordResetToken) × (some t ≡ some t') × ResetDone raw t'.user_id r.1.stored)
        (spent (ch.now 0) t.used_at t.expires_at)
        (raise invalid_token_error, record { working = db; stored = db })
        (reset_for lib ch password t (get_user_by_id t.user_id db)
          (record { working = db; stored = db }))
        (λ h. absurd (cc))
        (λ h.
          (t, refl, reset_for_ok ch raw password t (get_user_by_id t.user_id db) db found refl h))

  -- A reset that returns has consumed its token, which is refused from then on, whatever the time
  -- and the new password; and afterwards every refresh token of the account is refused.
  pub reset_password_ends_sessions :
      (col : Collation) (settings : Settings) (ch : Chance) (raw password : String) (db : Db)
      → (request (reset_password lib ch raw password) db).0 ≡ ok tt
      → let db' = (request (reset_password lib ch raw password) db).1 in
        (t : PasswordResetToken) × (find_reset_token lib raw db ≡ some t)
        × ((again : Chance) (other : String)
            → request (reset_password lib again raw other) db' ≡ (raise invalid_token_error, db'))
        × ((again : Chance) (token : String) (row : RefreshToken)
            → find (has_hash (hash_token lib token)) db'.refresh_tokens ≡ some row
            → row.user_id ≡ t.user_id
            → request (refresh lib col settings again token) db' ≡ (raise invalid_token_error, db'))
  unfolding reset_password
  reset_password_ends_sessions col settings ch raw password db h =
      let (t, found, done) =
        reset_with_ok ch raw password (find_reset_token lib raw db) db refl h in
      let db' = (request (reset_password lib ch raw password) db).1 in
      (
        t,
        found,
        done.0,
        λ again token row e same. refresh_revoked lib col settings again token db' row e (
            All-find (λ (r : RefreshToken). r.user_id ≡ t.user_id → unset r.revoked_at ≡ false)
              (has_hash (hash_token lib token)) db'.refresh_tokens done.1 e same),
      )
