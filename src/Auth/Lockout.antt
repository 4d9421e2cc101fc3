-- ===== src/Auth/Lockout.antt =====
-- The lockout after too many failed sign-ins.
use awa_platform.Prelude.{
  ℕ, String, ◌+◌, ◌<◌, ◌≡◌, ap, ◌∙◌, true, false, some, List, [], ◌∷◌, arith, ◌==◌, str_eq,
}
use awa_platform.Prelude.Lists.{All, length, find-update}
use awa_platform.Exceptions.{Result, raise, account_locked_error, invalid_credentials_error}
use awa_platform.Models.User.{User}
use awa_platform.Session.{Db, Session, request}
use awa_platform.Roles.{Collation, set_user}
use awa_platform.Auth.Base.{
  Library, Settings, Chance, TokenPair, seconds, has_email, normalize_email, verify_password,
  get_user_by_email, later_than, retry_after_seconds,
}
use awa_platform.Auth.SignIn.{register_failed_login, sign_in_user, sign_in}

-- An attempt to sign in: its draws of the clock, and the password that is tried.
abbrev pub Attempt : Type 0
Attempt = Chance × String

module _ (lib : Library) (col : Collation) (settings : Settings) (email : String) where
  abbrev pub attempt : Attempt → Db → Result TokenPair × Db
  attempt (ch, password) db = request (sign_in lib col settings ch email password) db

  unfoldable pub attempts : List Attempt → Db → Db
  attempts [] db = db
  attempts (a ∷ rest) db = attempts rest (attempt a db).1

  -- The password is wrong, and the account is not locked at the time.
  abbrev pub IsWrong : User → Attempt → Type 0
  IsWrong u (ch, password) =
      (verify_password lib password u.password_hash ≡ false)
      × (later_than (ch.now 0) u.locked_until ≡ false)

  abbrev counted : Chance → User → Db → Db
  counted ch u db = set_user u.id (register_failed_login settings (ch.now 2)) db

  wrong_step :
      (ch : Chance) (password : String) (db : Db) (u : User)
      → u.is_active ≡ true
      → IsWrong u (ch, password)
      → sign_in_user lib col settings ch password (some u) (record { working = db; stored = db })
        ≡ (
          raise invalid_credentials_error,
          record { working = counted ch u db; stored = counted ch u db },
        )
  unfolding sign_in_user
  wrong_step ch password db u active wrong = simp (wrong.1, active, wrong.0)

  email-register : (now : ℕ) (u : User) → (register_failed_login settings now u).email ≡ u.email
  unfolding register_failed_login
  email-register now u = ground arith

  -- The row that the search by address finds after the count.
  found_counted :
      (ch : Chance) (db : Db) (u : User)
      → get_user_by_email lib email db ≡ some u
      → get_user_by_email lib email (counted ch u db)
        ≡ some (register_failed_login settings (ch.now 2) u)
  unfolding get_user_by_email
  found_counted ch db u found =
      find-update (has_email (normalize_email lib email)) (λ (x : User). x.id == u.id)
        (register_failed_login settings (ch.now 2)) db.users
        (λ x. ap (λ e. str_eq e (normalize_email lib email)) (email-register (ch.now 2) x))
      ∙ rw found (ground arith)

  -- A sign-in with a wrong password, to an active account that is not locked, raises, and its failure
  -- is counted on the committed row all the same.
  pub attempt_wrong :
      (a : Attempt) (db : Db) (u : User)
      → get_user_by_email lib email db ≡ some u
      → u.is_active ≡ true
      → IsWrong u a
      → ((attempt a db).0 ≡ raise invalid_credentials_error)
        × (get_user_by_email lib email (attempt a db).1
            ≡ some (register_failed_login settings (a.0.now 2) u))
  unfolding sign_in
  attempt_wrong (ch, password) db u found active wrong =
      let step =
        ap (λ o. sign_in_user lib col settings ch password o (record { working = db; stored = db }))
          found
        ∙ wrong_step ch password db u active wrong in
      (
        ap (λ r. r.0) step,
        ap (λ r. get_user_by_email lib email r.1.stored) step ∙ found_counted ch db u found,
      )

  abbrev with_failures : ℕ → User → User
  with_failures n u = record u { failed_login_attempts = u.failed_login_attempts + n }

  register_below :
      (now : ℕ) (u : User)
      → u.failed_login_attempts + 1 < settings.auth_max_failed_logins
      → register_failed_login settings now u ≡ with_failures 1 u
  unfolding register_failed_login
  register_below now u h = ground arith

  register_last :
      (now : ℕ) (u : User)
      → u.failed_login_attempts + 1 ≡ settings.auth_max_failed_logins
      → register_failed_login settings now u ≡ record u {
        failed_login_attempts = 0;
        locked_until = some (now + seconds settings.auth_lockout_seconds);
      }
  unfolding register_failed_login
  register_last now u h = ground arith

  -- Failures below the limit only count.
  attempts_below :
      (tries : List Attempt) (db : Db) (u : User)
      → get_user_by_email lib email db ≡ some u
      → u.is_active ≡ true
      → All (IsWrong u) tries
      → u.failed_login_attempts + length tries < settings.auth_max_failed_logins
      → get_user_by_email lib email (attempts tries db) ≡ some (with_failures (length tries) u)
  unfolding attempts
  attempts_below [] db u found active wrong h = found ∙ ap some (ground arith)
  attempts_below (a ∷ rest) db u found active wrong h =
      let next =
        (attempt_wrong a db u found active wrong.0).1
        ∙ ap some (register_below (a.0.now 2) u (omega arith)) in
      attempts_below rest (attempt a db).1 (with_failures 1 u) next active wrong.1 (omega arith)
      ∙ ap some (ground arith)

  locked_step :
      (ch : Chance) (password : String) (s : Session) (u : User)
      → later_than (ch.now 0) u.locked_until ≡ true
      → sign_in_user lib col settings ch password (some u) s
        ≡ (raise (account_locked_error (retry_after_seconds u.locked_until (ch.now 1))), s)
  unfolding sign_in_user
  locked_step ch password s u h = simp h

  -- On an active account that is not locked: after as many wrong passwords as the limit, counted from a row with `failed_login_attempts`
  -- earlier ones, every sign-in within the lockout window is refused as locked and changes nothing,
  -- with the right password too.
  pub lockout :
      (tries : List Attempt) (last : Attempt) (db : Db) (u : User) (later : Attempt)
      → get_user_by_email lib email db ≡ some u
      → u.is_active ≡ true
      → All (IsWrong u) tries
      → IsWrong u last
      → u.failed_login_attempts + length tries + 1 ≡ settings.auth_max_failed_logins
      → later.0.now 0 < last.0.now 2 + seconds settings.auth_lockout_seconds
      → let until = some (last.0.now 2 + seconds settings.auth_lockout_seconds) in
        let db' = (attempt last (attempts tries db)).1 in
        attempt later db'
        ≡ (raise (account_locked_error (retry_after_seconds until (later.0.now 1))), db')
  unfolding sign_in
  lockout tries last db u later found active wrong wrong_last h soon =
      let counted_tries = attempts_below tries db u found active wrong (omega arith) in
      let u' = with_failures (length tries) u in
      let locked =
        (attempt_wrong last (attempts tries db) u' counted_tries active wrong_last).1
        ∙ ap some (register_last (last.0.now 2) u' h) in
      let db' = (attempt last (attempts tries db)).1 in
      let s : Session = record { working = db'; stored = db' } in
      ap (λ o. let r = sign_in_user lib col settings later.0 later.1 o s in (r.0, r.1.stored))
        locked
      ∙ ap (λ r. (r.0, r.1.stored)) (locked_step later.0 later.1 s _ (ground arith))
