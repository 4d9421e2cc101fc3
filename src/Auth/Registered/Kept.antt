-- ===== src/Auth/Registered/Kept.antt =====
-- What signing up leaves in the database.
use awa_platform.Prelude.{
  ℕ, ◌≡◌, Bool, ◌+◌, refl, ◌∙◌, true, false, ◌||◌, ◌&&◌, Option, none, some, List, ◌∷◌, ◌==◌,
  ==_iff, str_eq, eq_iff, if_intro, is_some, if◌then◌else◌,
}
use awa_platform.Prelude.Lists.{find, any, find-update}
use awa_platform.Exceptions.{
  Exception, Result, ok, raise, email_already_registered_error, integrity_error,
}
use awa_platform.Models.User.{User, RefreshToken, EmailVerificationToken}
use awa_platform.Models.Role.{Role, UserRole}
use awa_platform.Session.{Db, Session, commit}
use awa_platform.Roles.{get_role_by_name, set_user, grant, assign_found, assign_role}
use awa_platform.Auth.Base.{
  seconds, hash_token, Library, Settings, Chance, has_email, normalize_email, hash_password,
  get_user_by_email,
}
use awa_platform.Auth.SignUp.{
  SignUpRequest, SignUpResult, new_user, finish_sign_up, add_user, sign_up,
}

-- What holds of the transaction after a flow that has not raised.
abbrev pub AfterOk : {A : Type 0} → (Session → Type 0) → Result A × Session → Type 0
AfterOk P (ok a, s) = P s
AfterOk P (raise e, s) = Unit

unless_refused :
    {A : Type 0} (P : Session → Type 0) (t : Bool) (e : Exception) (s : Session)
    (r : Result A × Session)
    → AfterOk P r
    → AfterOk P (if t then (raise e, s) else r)
unless_refused P true e s r h = tt
unless_refused P false e s r h = h

module _ (lib : Library) (settings : Settings) (ch : Chance) (form : SignUpRequest)
    (tokens : List RefreshToken) where
  -- The account of the form is found under its address, and no refresh token has come or gone.
  pub record IsRegistered (db : Db) : Type 0 where
    pub user : User
    pub found : find (has_email (normalize_email lib form.email)) db.users ≡ some user
    pub by_id : find (λ (u : User). u.id == ch.user_id) db.users ≡ some user
    pub id : user.id ≡ ch.user_id
    pub active : user.is_active ≡ true
    pub unlocked : user.locked_until ≡ none
    pub hashed : user.password_hash ≡ hash_password lib ch.salt form.password
    pub same_tokens : db.refresh_tokens ≡ tokens

  set_primary-IsRegistered :
      (uid rid : ℕ) (db : Db)
      → IsRegistered db
      → IsRegistered (set_user uid (λ u. record u { primary_role_id = rid }) db)
  set_primary-IsRegistered uid rid db h = record {
    user = if h.user.id == uid then record h.user { primary_role_id = rid } else h.user;
    found =
        find-update (has_email (normalize_email lib form.email)) (λ (u : User). u.id == uid)
          (λ u. record u { primary_role_id = rid }) db.users (λ u. refl)
        ∙ rw h.found refl;
    by_id =
        find-update (λ (u : User). u.id == ch.user_id) (λ (u : User). u.id == uid)
          (λ u. record u { primary_role_id = rid }) db.users (λ u. refl)
        ∙ rw h.by_id refl;
    id =
        if_intro (λ (u : User). u.id ≡ ch.user_id) (h.user.id == uid)
          (record h.user { primary_role_id = rid }) h.user h.id h.id;
    active =
        if_intro (λ (u : User). u.is_active ≡ true) (h.user.id == uid)
          (record h.user { primary_role_id = rid }) h.user h.active h.active;
    unlocked =
        if_intro (λ (u : User). u.locked_until ≡ none) (h.user.id == uid)
          (record h.user { primary_role_id = rid }) h.user h.unlocked h.unlocked;
    hashed =
        if_intro (λ (u : User). u.password_hash ≡ hash_password lib ch.salt form.password)
          (h.user.id == uid) (record h.user { primary_role_id = rid }) h.user h.hashed h.hashed;
    same_tokens = h.same_tokens;
  }

  abbrev Registers : Session → Type 0
  Registers s = IsRegistered s.working

  grant-Registers :
      (user : User) (role : Role) (new : UserRole) (row : Option UserRole) (s : Session)
      → Registers s
      → AfterOk Registers (grant user role true new row s)
  unfolding grant
  grant-Registers user role new none s h =
      set_primary-IsRegistered user.id role.id
        (record s.working { user_roles = new ∷ s.working.user_roles })
        (record {
          user = h.user;
          found = h.found;
          by_id = h.by_id;
          id = h.id;
          active = h.active;
          unlocked = h.unlocked;
          hashed = h.hashed;
          same_tokens = h.same_tokens;
        })
  grant-Registers user role new (some row) s h =
      set_primary-IsRegistered user.id role.id s.working h

  assign-Registers :
      (id t : ℕ) (user : User) (role : Result Role) (s : Session)
      → Registers s
      → AfterOk Registers (assign_found id t user true role s)
  unfolding assign_found
  assign-Registers id t user (raise e) s h = tt
  assign-Registers id t user (ok role) s h =
      grant-Registers user role
        (record { id = id; user_id = user.id; role_id = role.id; assigned_at = t })
        (find (λ (r : UserRole). r.user_id == user.id && r.role_id == role.id) s.working.user_roles)
        s h

  finish-Registers :
      (user : User) (r : Result UserRole × Session)
      → AfterOk Registers r
      → AfterOk (λ s. IsRegistered s.stored) (finish_sign_up lib settings ch user r)
  unfolding finish_sign_up
  finish-Registers user (raise e, s) h = tt
  finish-Registers user (ok row, s) h =
      let new : EmailVerificationToken = record {
        id = ch.row_id;
        user_id = user.id;
        token_hash = hash_token lib ch.opaque_token;
        expires_at = ch.now 8 + seconds settings.auth_email_verification_ttl_seconds;
        used_at = none;
      } in
      let after = record s {
        working = record s.working {
          email_verification_tokens = new ∷ s.working.email_verification_tokens;
        };
      } in
      unless_refused {A = SignUpResult} (λ s'. IsRegistered s'.stored)
        (any (λ (t : EmailVerificationToken). t.id == new.id || str_eq t.token_hash new.token_hash)
          s.working.email_verification_tokens)
        integrity_error s
        (ok (record { user = user; verification_token = ch.opaque_token }), (commit after).1)
        (record {
          user = h.user;
          found = h.found;
          by_id = h.by_id;
          id = h.id;
          active = h.active;
          unlocked = h.unlocked;
          hashed = h.hashed;
          same_tokens = h.same_tokens;
        })

  add-Registers :
      (role : Result Role) (s : Session)
      → s.working.refresh_tokens ≡ tokens
      → AfterOk (λ s'. IsRegistered s'.stored) (add_user lib settings ch form role s)
  unfolding add_user assign_role
  add-Registers (raise e) s same = tt
  add-Registers (ok role) s same =
      let user = new_user lib ch form role in
      let added = record s { working = record s.working { users = user ∷ s.working.users } } in
      let assigned = assign_role ch.role_row_id (ch.now 0) user "Buyer" true added in
      unless_refused (λ s'. IsRegistered s'.stored)
        (any (λ (u : User). u.id == user.id || str_eq u.email user.email) s.working.users)
        integrity_error s (finish_sign_up lib settings ch user assigned)
        (finish-Registers user assigned (
          assign-Registers ch.role_row_id (ch.now 0) user (get_role_by_name "Buyer" added.working)
            added
            (record {
              user = user;
              found =
                  rw
                    ((eq_iff (normalize_email lib form.email) (normalize_email lib form.email)).1
                      refl)
                    refl;
              by_id = rw ((==_iff ch.user_id ch.user_id).1 refl) refl;
              id = refl;
              active = refl;
              unlocked = refl;
              hashed = refl;
              same_tokens = same;
            })))

  pub sign_up-Registers :
      (s : Session)
      → s.working.refresh_tokens ≡ tokens
      → AfterOk (λ s'. IsRegistered s'.stored) (sign_up lib settings ch form s)
  unfolding sign_up
  sign_up-Registers s same =
      let email = normalize_email lib form.email in
      unless_refused (λ s'. IsRegistered s'.stored)
        (is_some (get_user_by_email lib email s.working)) (email_already_registered_error email) s
        (add_user lib settings ch form (get_role_by_name "Buyer" s.working) s)
        (add-Registers (get_role_by_name "Buyer" s.working) s same)
