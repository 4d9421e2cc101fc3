-- ===== src/Auth/SignOut.antt =====
-- What signing out ends.
use awa_platform.Prelude.{
  ℕ, String, ◌≡◌, ◌≤◌, refl, ap, ◌∙◌, false, Option, none, some, arith, ◌==◌, if_split,
}
use awa_platform.Prelude.Lists.{find, change, find-update}
use awa_platform.Exceptions.{raise, invalid_token_error}
use awa_platform.Models.User.{RefreshToken}
use awa_platform.Session.{Db, request}
use awa_platform.Roles.{Collation}
use awa_platform.Auth.Base.{Library, Settings, Chance, hash_token}
use awa_platform.Auth.Tokens.{
  active_at, if_active, get_active_refresh_token, refresh_with, refresh, sign_out_with, sign_out,
}
use awa_platform.Auth.Rotation.{has_hash}

-- A token that is not active stays so.
expired_later :
    (now later : ℕ) (t : RefreshToken)
    → now ≤ later
    → active_at now t ≡ false
    → active_at later t ≡ false
expired_later now later t h e = ground arith

inactive :
    (later : ℕ) (t : RefreshToken) → active_at later t ≡ false → if_active later (some t) ≡ none
inactive later t h = ground arith

revoked_inactive :
    (later now : ℕ) (t : RefreshToken)
    → if_active later (
        change
          (λ (r : RefreshToken). r.id == t.id)
          (λ r. record r { revoked_at = some now })
          (some t))
      ≡ none
revoked_inactive later now t = ground arith

module _ (lib : Library) (raw : String) where
  abbrev found : Db → Option RefreshToken
  found db = find (has_hash (hash_token lib raw)) db.refresh_tokens

  abbrev after_sign_out : Chance → Option RefreshToken → Db → Db
  after_sign_out ch o db =
      (sign_out_with ch (if_active (ch.now 0) o) (record { working = db; stored = db })).1.stored

  after_sign_out_inactive :
      (ch : Chance) (later : ℕ) (o : Option RefreshToken) (db : Db)
      → ch.now 0 ≤ later
      → found db ≡ o
      → if_active later (found (after_sign_out ch o db)) ≡ none
  unfolding sign_out_with
  after_sign_out_inactive ch later none db h e = ap (if_active later) e
  after_sign_out_inactive ch later (some t) db h e =
      if_split
        (λ o.
          let s = sign_out_with ch o (record { working = db; stored = db }) in
          if_active later (found s.1.stored) ≡ none)
        (active_at (ch.now 0) t) (some t) none
        (λ a.
          ap (if_active later) (
            find-update (has_hash (hash_token lib raw)) (λ (r : RefreshToken). r.id == t.id)
              (λ r. record r { revoked_at = some (ch.now 1) }) db.refresh_tokens (λ x. refl)
            ∙ ap
                (change (λ (r : RefreshToken). r.id == t.id)
                  (λ r. record r { revoked_at = some (ch.now 1) }))
                e)
          ∙ revoked_inactive later (ch.now 1) t)
        (λ i. ap (if_active later) e ∙ inactive later t (expired_later (ch.now 0) later t h i))

  -- After signing out, the refresh token that was presented is refused at every later time, whether
  -- it was active, had been revoked, had expired or was never issued; and the refusal changes
  -- nothing.
  pub sign_out_ends_session :
      (col : Collation) (settings : Settings) (ch again : Chance) (db : Db)
      → ch.now 0 ≤ again.now 0
      → let db' = (request (sign_out lib ch raw) db).1 in
        request (refresh lib col settings again raw) db' ≡ (raise invalid_token_error, db')
  unfolding sign_out refresh refresh_with get_active_refresh_token
  sign_out_ends_session col settings ch again db h =
      let db' = (request (sign_out lib ch raw) db).1 in
      ap
        (λ o.
          let r = refresh_with lib col settings again o (record { working = db'; stored = db' }) in
          (r.0, r.1.stored))
        (after_sign_out_inactive ch (again.now 0) (found db) db h refl)
