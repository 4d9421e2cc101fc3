-- ===== src/Auth/Rotation.antt =====
-- Rotation of refresh tokens: the presented one is spent, the issued one is good.
use awa_platform.Prelude.{
  ℕ, String, ◌+◌, ◌<◌, ◌≡◌, refl, sym, ap, subst₂, ◌∙◌, Bool, true, false, Option, none, some, List,
  [], ◌∷◌, arith, ◌==◌, str_eq, eq_iff, if_intro, is_some, Bool-cases, inl, inr,
}
use awa_platform.Prelude.Lists.{find, change, find-update}
use awa_platform.Exceptions.{Result, ok, raise, invalid_token_error, integrity_error}
use awa_platform.Models.User.{User, RefreshToken}
use awa_platform.Session.{Db, Session, request}
use awa_platform.Roles.{Collation}
use awa_platform.Auth.Base.{
  Library, Settings, Chance, TokenPair, seconds, hash_token, get_user_by_id, unset,
}
use awa_platform.Auth.Tokens.{
  token_clash, new_refresh_token, issue_token_pair, commit_pair, if_active,
  get_active_refresh_token, revoke_where, rotate, refresh_with, refresh,
}

abbrev pub has_hash : String → RefreshToken → Bool
has_hash h t = str_eq t.token_hash h

-- Without a clash the new row has another hash than every row there is.
find-no_clash :
    (new t : RefreshToken) (rows : List RefreshToken) (h : String)
    → token_clash new rows ≡ false
    → find (has_hash h) rows ≡ some t
    → str_eq new.token_hash h ≡ false
find-no_clash new t [] h c e = absurd (cc)
find-no_clash new t (r ∷ rows) h c e = ground (
  arith,
  eq_iff r.token_hash h,
  eq_iff r.token_hash new.token_hash,
  eq_iff new.token_hash h,
  find-no_clash new t rows h,
)

absurd_pair : {pair : TokenPair} → raise integrity_error ≡ ok pair → ⊥
absurd_pair h = cc

absurd_invalid : {pair : TokenPair} → raise invalid_token_error ≡ ok pair → ⊥
absurd_invalid h = cc

abbrev refresh_of : Result TokenPair → String
refresh_of (ok pair) = pair.refresh_token
refresh_of (raise e) = ""

module _ (lib : Library) (col : Collation) (settings : Settings) where
  -- A pair that has been issued: its refresh token stands in the table, and there was no clash.
  issued :
      (ch : Chance) (user : User) (s : Session) (pair : TokenPair)
      → (commit_pair (issue_token_pair lib col settings ch user s)).0 ≡ ok pair
      → let new = new_refresh_token lib settings ch user.id in
        (token_clash new s.working.refresh_tokens ≡ false)
        × (pair.refresh_token ≡ ch.opaque_token)
        × ((commit_pair (issue_token_pair lib col settings ch user s)).1.stored
            ≡ record s.working { refresh_tokens = new ∷ s.working.refresh_tokens })
  unfolding issue_token_pair commit_pair
  issued ch user s pair h =
      elim (Bool-cases
        (token_clash (new_refresh_token lib settings ch user.id) s.working.refresh_tokens)) [
          | inl clash ↦ absurd (absurd_pair (simp clash at h))
          | inr free ↦ (free, sym (ap refresh_of (simp free at h)), simp free)
        ]

  abbrev pub hashed : String → String
  hashed raw = hash_token lib raw

  -- The row that was presented, once it has been revoked and a new row has been put before it.
  find_revoked :
      (new t : RefreshToken) (raw : String) (now : ℕ) (db : Db)
      → find (has_hash (hashed raw)) db.refresh_tokens ≡ some t
      → let db' = revoke_where (λ (r : RefreshToken). r.id == t.id) now db in
        token_clash new db'.refresh_tokens ≡ false
        → find (has_hash (hashed raw)) (new ∷ db'.refresh_tokens)
          ≡ some (record t { revoked_at = some now })
  find_revoked new t raw now db e free =
      let db' = revoke_where (λ (r : RefreshToken). r.id == t.id) now db in
      let found =
        find-update (has_hash (hashed raw)) (λ (r : RefreshToken). r.id == t.id)
          (λ r. record r { revoked_at = some now }) db.refresh_tokens (λ x. refl)
        ∙ ap (change (λ (r : RefreshToken). r.id == t.id) (λ r. record r { revoked_at = some now }))
            e in
      let found' : find (has_hash (hashed raw)) db'.refresh_tokens
          ≡ some (record t { revoked_at = some now }) =
        found ∙ ground arith in
      simp
        (find-no_clash new (record t { revoked_at = some now }) db'.refresh_tokens (hashed raw) free
          found')
        found'

  -- A token whose row is revoked is refused, and nothing changes.
  pub refresh_revoked :
      (ch : Chance) (raw : String) (db : Db) (t : RefreshToken)
      → find (has_hash (hashed raw)) db.refresh_tokens ≡ some t
      → unset t.revoked_at ≡ false
      → request (refresh lib col settings ch raw) db ≡ (raise invalid_token_error, db)
  unfolding refresh get_active_refresh_token
  refresh_revoked ch raw db t e h =
      let inactive : get_active_refresh_token lib (ch.now 0) raw db ≡ none =
        ap (if_active (ch.now 0)) e ∙ simp h in
      ap
        (λ o.
          let r = refresh_with lib col settings ch o (record { working = db; stored = db }) in
          (r.0, r.1.stored))
        inactive

  abbrev after_rotation : Chance → RefreshToken → ℕ → Db → Db
  after_rotation ch t uid db =
      let db' = revoke_where (λ (r : RefreshToken). r.id == t.id) (ch.now 1) db in
      record db' { refresh_tokens = new_refresh_token lib settings ch uid ∷ db'.refresh_tokens }

  -- What a rotation that returns has done to the session it began in.
  abbrev Rotated : Chance → RefreshToken → TokenPair → Session → Result TokenPair × Session → Type 0
  Rotated ch t pair s r =
      (uid : ℕ) × (token_clash (new_refresh_token lib settings ch uid)
          (revoke_where (λ (r : RefreshToken). r.id == t.id) (ch.now 1) s.working).refresh_tokens
        ≡ false)
      × (pair.refresh_token ≡ ch.opaque_token)
      × (r.1.stored ≡ after_rotation ch t uid s.working)

  rotate_ok :
      (ch : Chance) (t : RefreshToken) (o : Option User) (s : Session) (pair : TokenPair)
      → (rotate lib col settings ch t o s).0 ≡ ok pair
      → Rotated ch t pair s (rotate lib col settings ch t o s)
  unfolding rotate
  rotate_ok ch t none s pair = λ h. absurd (cc)
  rotate_ok ch t (some user) s pair =
      if_intro (λ r. r.0 ≡ ok pair → Rotated ch t pair s r) user.is_active _ _
        (λ h.
          let revoked = record s {
            working = revoke_where (λ (r : RefreshToken). r.id == t.id) (ch.now 1) s.working;
          } in
          let (free, same, stored) = issued ch user revoked pair h in (user.id, free, same, stored))
        (λ h. absurd (absurd_invalid h))

  refresh_with_ok :
      (ch : Chance) (o : Option RefreshToken) (s : Session) (pair : TokenPair)
      → (refresh_with lib col settings ch o s).0 ≡ ok pair
      → (t : RefreshToken) × (o ≡ some t)
        × Rotated ch t pair s (refresh_with lib col settings ch o s)
  unfolding refresh_with
  refresh_with_ok ch none s pair h = absurd (cc)
  refresh_with_ok ch (some t) s pair h =
      (t, refl, rotate_ok ch t (get_user_by_id t.user_id s.working) s pair h)

  if_active-some :
      (now : ℕ) (o : Option RefreshToken) (t : RefreshToken) → if_active now o ≡ some t → o ≡ some t
  if_active-some now none t h = absurd (cc)
  if_active-some now (some r) t h = ground arith

  -- What the theorem below says of the database after the refresh.
  SpentAndIssued : Chance → String → String → Db → Type 0
  SpentAndIssued ch raw issued_token db' =
      ((again : Chance)
        → request (refresh lib col settings again raw) db' ≡ (raise invalid_token_error, db'))
      × ((now : ℕ)
          → now < ch.now 8 + seconds settings.auth_refresh_token_ttl_seconds
          → is_some (get_active_refresh_token lib now issued_token db') ≡ true)

  after_rotation-SpentAndIssued :
      (ch : Chance) (raw : String) (t : RefreshToken) (uid : ℕ) (db : Db)
      → find (has_hash (hashed raw)) db.refresh_tokens ≡ some t
      → token_clash
          (new_refresh_token lib settings ch uid)
          (revoke_where (λ (r : RefreshToken). r.id == t.id) (ch.now 1) db).refresh_tokens
        ≡ false
      → SpentAndIssued ch raw ch.opaque_token (after_rotation ch t uid db)
  unfolding SpentAndIssued get_active_refresh_token
  after_rotation-SpentAndIssued ch raw t uid db found free = (
    λ again.
        refresh_revoked again raw (after_rotation ch t uid db)
          (record t { revoked_at = some (ch.now 1) })
          (find_revoked (new_refresh_token lib settings ch uid) t raw (ch.now 1) db found free)
          refl,
    λ now soon.
        simp ((eq_iff (hashed ch.opaque_token) (hashed ch.opaque_token)).1 refl) (ground arith),
  )

  -- A refresh that returns spends the token that it was given: whenever and by whomever that token
  -- is presented again, it is refused and nothing changes. The refresh token that it has issued
  -- counts as active until its time to live is over.
  pub refresh_rotates :
      (ch : Chance) (raw : String) (db : Db) (pair : TokenPair)
      → (request (refresh lib col settings ch raw) db).0 ≡ ok pair
      → let db' = (request (refresh lib col settings ch raw) db).1 in
        ((again : Chance)
          → request (refresh lib col settings again raw) db' ≡ (raise invalid_token_error, db'))
        × ((now : ℕ)
            → now < ch.now 8 + seconds settings.auth_refresh_token_ttl_seconds
            → is_some (get_active_refresh_token lib now pair.refresh_token db') ≡ true)
  unfolding refresh SpentAndIssued
  refresh_rotates ch raw db pair h =
      let s : Session = record { working = db; stored = db } in
      let (t, presented, rotated) =
        refresh_with_ok ch (get_active_refresh_token lib (ch.now 0) raw db) s pair h in
      let (uid, free, same, stored) = rotated in
      let found =
        if_active-some (ch.now 0) (find (has_hash (hashed raw)) db.refresh_tokens) t
          (unfold get_active_refresh_token in presented) in
      subst₂ (λ token d. SpentAndIssued ch raw token d) (sym same) (sym stored)
        (after_rotation-SpentAndIssued ch raw t uid db found free)
