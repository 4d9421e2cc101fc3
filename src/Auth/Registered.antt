-- ===== src/Auth/Registered.antt =====
-- Whoever has signed up can sign in.
pub mod Kept
use awa_platform.Prelude.{
  ℕ, String, ◌≡◌, Bool, ◌+◌, refl, ap, ◌∙◌, true, false, ◌||◌, ◌&&◌, Option, none, some, List, ◌∷◌,
  ◌==◌, str_eq, eq_iff, if_intro, is_some, if◌then◌else◌,
}
use awa_platform.Prelude.Lists.{find, any, find-update}
use awa_platform.Exceptions.{
  Exception, Result, ok, raise, email_already_registered_error, integrity_error,
}
use awa_platform.Models.User.{User, RefreshToken, EmailVerificationToken}
use awa_platform.Models.Role.{Role, UserRole}
use awa_platform.Session.{Db, Session, request, commit}
use awa_platform.Roles.{Collation, get_role_by_name, set_user, grant, assign_found, assign_role}
use awa_platform.Auth.Base.{
  seconds, hash_token, matches, Verified, Library, Settings, Chance, TokenPair, has_email,
  normalize_email, hash_password, verify_password, get_user_by_email,
}
use awa_platform.Auth.Tokens.{
  token_clash, new_refresh_token, insert_refresh_token, issue_token_pair, commit_pair,
}
use awa_platform.Auth.SignUp.{
  SignUpRequest, SignUpResult, new_user, finish_sign_up, add_user, sign_up,
}
use awa_platform.Auth.SignIn.{signed_in, sign_in_user, sign_in}
use awa_platform.Auth.Registered.Kept.{AfterOk, IsRegistered, sign_up-Registers}

hashed-verifies :
    (lib : Library) (salt : ℕ) (p : String)
    → verify_password lib p (hash_password lib salt p) ≡ true
unfolding verify_password hash_password
hashed-verifies lib salt p =
    ap (λ (v : Verified). elim v [ matches ↦ true | _ ↦ false ]) (lib.verify_hash salt p)

module _ (lib : Library) (col : Collation) (settings : Settings) (ch : Chance) where
  -- Issuing a pair whose token is new to the table.
  issues :
      (user : User) (s : Session)
      → token_clash (new_refresh_token lib settings ch user.id) s.working.refresh_tokens ≡ false
      → (pair : TokenPair) × ((commit_pair (issue_token_pair lib col settings ch user s)).0
          ≡ ok pair)
        × (pair.refresh_token ≡ ch.opaque_token)
  unfolding issue_token_pair insert_refresh_token commit_pair
  issues user s h = rw h (_, refl, refl)

  welcomes :
      (password : String) (user : User) (s : Session)
      → user.is_active ≡ true
      → user.locked_until ≡ none
      → verify_password lib password user.password_hash ≡ true
      → sign_in_user lib col settings ch password (some user) s
        ≡ commit_pair (
            issue_token_pair lib col settings ch user
              (record s { working = set_user user.id (signed_in lib ch password) s.working }))
  unfolding sign_in_user
  welcomes password user s active unlocked verified = simp (active, unlocked, verified)

-- Signing up and then signing in, with any spelling of the address that is normalised to the same one
-- and with the password of the form, gives a pair of tokens, if the drawn refresh token is new to the
-- table; whatever else is in the database.
pub sign_up-sign_in :
    (lib : Library) (col : Collation) (settings : Settings) (ch later : Chance)
    (form : SignUpRequest) (email : String) (db : Db) (result : SignUpResult)
    → (request (sign_up lib settings ch form) db).0 ≡ ok result
    → normalize_email lib email ≡ normalize_email lib form.email
    → token_clash (new_refresh_token lib settings later ch.user_id) db.refresh_tokens ≡ false
    → let db' = (request (sign_up lib settings ch form) db).1 in
      (pair : TokenPair) × ((request (sign_in lib col settings later email form.password) db').0
        ≡ ok pair)
      × (pair.refresh_token ≡ later.opaque_token)
unfolding sign_in get_user_by_email
sign_up-sign_in lib col settings ch later form email db result done same fresh =
    let s : Session = record { working = db; stored = db } in
    let h =
      registered (sign_up lib settings ch form s) done
        (sign_up-Registers lib settings ch form db.refresh_tokens s refl) in
    let db' = (sign_up lib settings ch form s).1.stored in
    let s' : Session = record { working = db'; stored = db' } in
    let found : get_user_by_email lib email db' ≡ some h.user =
      ap (λ e. find (has_email e) db'.users) same ∙ h.found in
    let signed = record s' {
      working = set_user h.user.id (signed_in lib later form.password) db';
    } in
    let (pair, issued, drawn) =
      issues lib col settings later h.user signed
        (ap (token_clash (new_refresh_token lib settings later h.user.id)) h.same_tokens ∙ fresh) in
    (
      pair,
      ap (λ o. (sign_in_user lib col settings later form.password o s').0) found
          ∙ ap (λ r. r.0)
              (welcomes lib col settings later form.password h.user s' h.active h.unlocked (
                ap (verify_password lib form.password) h.hashed
                ∙ hashed-verifies lib ch.salt form.password))
          ∙ issued,
      drawn,
    )
  where
    registered :
        (r : Result SignUpResult × Session)
        → r.0 ≡ ok result
        → AfterOk (λ t. IsRegistered lib settings ch form db.refresh_tokens t.stored) r
        → IsRegistered lib settings ch form db.refresh_tokens r.1.stored
    registered (ok a, t) e h = h
    registered (raise x, t) e h = absurd (cc)
