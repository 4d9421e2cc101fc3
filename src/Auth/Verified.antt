-- ===== src/Auth/Verified.antt =====
-- Whoever has signed up can verify the address once.
use awa_platform.Prelude.{
  String, ◌+◌, ◌<◌, ◌≡◌, refl, ap, ◌∙◌, subst, Bool, true, false, ◌||◌, none, some, List, ◌∷◌, ◌==◌,
  ==_iff, str_eq, eq_iff, is_some, if◌then◌else◌, arith, ltb,
}
use awa_platform.Prelude.Lists.{any, find-update}
use awa_platform.Exceptions.{
  Exception, Result, ok, raise, email_already_registered_error, integrity_error,
  invalid_token_error,
}
use awa_platform.Models.User.{User, RefreshToken, EmailVerificationToken}
use awa_platform.Models.Role.{Role, UserRole}
use awa_platform.Session.{Db, Session, request, commit}
use awa_platform.Roles.{get_role_by_name, assign_role, set_user}
use awa_platform.Auth.Base.{
  seconds, hash_token, Library, Settings, Chance, has_email, normalize_email, get_user_by_email,
  get_user_by_id,
}
use awa_platform.Auth.SignUp.{
  SignUpRequest, SignUpResult, new_user, finish_sign_up, add_user, sign_up,
}
use awa_platform.Auth.Registered.Kept.{AfterOk, IsRegistered, sign_up-Registers}
use awa_platform.Auth.Verify.{
  use_verification_token, verify_for, find_verification_token, verify_with, verify_email,
}

-- What holds of the result and of the session after a flow that has not raised.
abbrev After : {A : Type 0} → (A → Session → Type 0) → Result A × Session → Type 0
After P (ok a, s) = P a s
After P (raise e, s) = Unit

unless_raised :
    {A : Type 0} (P : A → Session → Type 0) (t : Bool) (e : Exception) (s : Session)
    (r : Result A × Session)
    → After P r
    → After P (if t then (raise e, s) else r)
unless_raised P true e s r h = tt
unless_raised P false e s r h = h

module _ (lib : Library) (settings : Settings) (ch : Chance) (form : SignUpRequest) where
  -- The row that signing up adds.
  abbrev issued : EmailVerificationToken
  issued = record {
    id = ch.row_id;
    user_id = ch.user_id;
    token_hash = hash_token lib ch.opaque_token;
    expires_at = ch.now 8 + seconds settings.auth_email_verification_ttl_seconds;
    used_at = none;
  }

  -- The token that is returned finds that row.
  abbrev HasToken : SignUpResult → Session → Type 0
  HasToken result s = find_verification_token lib result.verification_token s.stored ≡ some issued

  finish-HasToken :
      (role : Role) (r : Result UserRole × Session)
      → After HasToken (finish_sign_up lib settings ch (new_user lib ch form role) r)
  unfolding finish_sign_up find_verification_token
  finish-HasToken role (raise e, s) = tt
  finish-HasToken role (ok row, s) =
      unless_raised {A = SignUpResult} HasToken
        (any
          (λ (t : EmailVerificationToken).
            t.id == ch.row_id || str_eq t.token_hash (hash_token lib ch.opaque_token))
          s.working.email_verification_tokens)
        integrity_error s
        (
          ok (record { user = new_user lib ch form role; verification_token = ch.opaque_token }),
          (commit (record s {
            working = record s.working {
              email_verification_tokens = issued ∷ s.working.email_verification_tokens;
            };
          })).1,
        )
        (rw ((eq_iff (hash_token lib ch.opaque_token) (hash_token lib ch.opaque_token)).1 refl)
          refl)

  add-HasToken :
      (role : Result Role) (s : Session) → After HasToken (add_user lib settings ch form role s)
  unfolding add_user
  add-HasToken (raise e) s = tt
  add-HasToken (ok role) s =
      let user = new_user lib ch form role in
      let added = record s { working = record s.working { users = user ∷ s.working.users } } in
      unless_raised HasToken
        (any (λ (u : User). u.id == user.id || str_eq u.email user.email) s.working.users)
        integrity_error s _
        (finish-HasToken role (assign_role ch.role_row_id (ch.now 0) user "Buyer" true added))

  sign_up-HasToken : (s : Session) → After HasToken (sign_up lib settings ch form s)
  unfolding sign_up
  sign_up-HasToken s =
      let email = normalize_email lib form.email in
      unless_raised HasToken (is_some (get_user_by_email lib email s.working))
        (email_already_registered_error email) s _
        (add-HasToken (get_role_by_name "Buyer" s.working) s)

module _ (lib : Library) (raw_token : String) where
  -- What a verification writes.
  abbrev verified : Chance → EmailVerificationToken → User → Db → Db
  verified ch t user db =
      use_verification_token t.id (ch.now 1)
        (set_user user.id (λ u. record u { is_email_verified = true }) db)

  verifies :
      (ch : Chance) (t : EmailVerificationToken) (user : User) (db : Db)
      → find_verification_token lib raw_token db ≡ some t
      → t.used_at ≡ none
      → ch.now 0 < t.expires_at
      → get_user_by_id t.user_id db ≡ some user
      → request (verify_email lib ch raw_token) db ≡ (ok tt, verified ch t user db)
  unfolding verify_email verify_with verify_for
  verifies ch t user db found unused early known =
      let now : ltb (ch.now 0) t.expires_at ≡ true = ground arith in
      rw (found, unused, now, known) refl

  -- A token that has been used is refused.
  refuses :
      (ch again : Chance) (t : EmailVerificationToken) (user : User) (db : Db)
      → find_verification_token lib raw_token db ≡ some t
      → (request (verify_email lib again raw_token) (verified ch t user db)).0
        ≡ raise invalid_token_error
  unfolding verify_email verify_with find_verification_token
  refuses ch again t user db found =
      rw
        (
          find-update
              (λ (x : EmailVerificationToken). str_eq x.token_hash (hash_token lib raw_token))
              (λ (x : EmailVerificationToken). x.id == t.id)
              (λ x. record x { used_at = some (ch.now 1) }) db.email_verification_tokens
              (λ x. refl),
          found,
          (==_iff t.id t.id).1 refl,
        )
        refl

sign_up-IsRegistered :
    (lib : Library) (settings : Settings) (ch : Chance) (form : SignUpRequest)
    (tokens : List RefreshToken) (result : SignUpResult) (r : Result SignUpResult × Session)
    → r.0 ≡ ok result
    → AfterOk (λ t. IsRegistered lib settings ch form tokens t.stored) r
    → IsRegistered lib settings ch form tokens r.1.stored
sign_up-IsRegistered lib settings ch form tokens result (ok a, t) e h = h
sign_up-IsRegistered lib settings ch form tokens result (raise x, t) e h = absurd (cc)

sign_up-token :
    (lib : Library) (settings : Settings) (ch : Chance) (form : SignUpRequest)
    (result : SignUpResult) (r : Result SignUpResult × Session)
    → r.0 ≡ ok result
    → After (HasToken lib settings ch form) r
    → HasToken lib settings ch form result r.1
sign_up-token lib settings ch form result (ok a, t) e h =
    let same : a ≡ result = cc in subst (λ x. HasToken lib settings ch form x t) same h
sign_up-token lib settings ch form result (raise x, t) e h = absurd (cc)

-- After signing up, the token that was returned verifies the address of the account, if it is used
-- before it expires; used again, at any time, it is refused.
pub sign_up-verify_email :
    (lib : Library) (settings : Settings) (ch later again : Chance) (form : SignUpRequest) (db : Db)
    (result : SignUpResult)
    → (request (sign_up lib settings ch form) db).0 ≡ ok result
    → later.now 0 < ch.now 8 + seconds settings.auth_email_verification_ttl_seconds
    → let verify = λ (c : Chance). request (verify_email lib c result.verification_token) in
      let done = verify later (request (sign_up lib settings ch form) db).1 in
      (done.0 ≡ ok tt)
      × ((u : User) × (get_user_by_email lib form.email done.1 ≡ some u)
          × (u.is_email_verified ≡ true))
      × ((verify again done.1).0 ≡ raise invalid_token_error)
unfolding get_user_by_email get_user_by_id
sign_up-verify_email lib settings ch later again form db result signed early =
    let s : Session = record { working = db; stored = db } in
    let h =
      sign_up-IsRegistered lib settings ch form db.refresh_tokens result
        (sign_up lib settings ch form s) signed
        (sign_up-Registers lib settings ch form db.refresh_tokens s refl) in
    let db' = (sign_up lib settings ch form s).1.stored in
    let t = issued lib settings ch form in
    let found =
      sign_up-token lib settings ch form result (sign_up lib settings ch form s) signed
        (sign_up-HasToken lib settings ch form s) in
    let runs = verifies lib result.verification_token later t h.user db' found refl early h.by_id in
    rw runs (
      ap (λ (r : Result Unit × Db). r.0) runs,
      (
        record h.user { is_email_verified = true },
        find-update (has_email (normalize_email lib form.email)) (λ (u : User). u.id == h.user.id)
              (λ u. record u { is_email_verified = true }) db'.users (λ u. refl)
            ∙ rw (h.found, (==_iff h.user.id h.user.id).1 refl) refl,
        refl,
      ),
      refuses lib result.verification_token later again t h.user db' found,
    )
