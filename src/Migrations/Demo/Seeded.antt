-- ===== src/Migrations/Demo/Seeded.antt =====
-- The demo accounts keep every user's primary role among the roles that the user holds.
use awa_platform.Prelude.{
  ℕ, String, ◌+◌, ◌≡◌, refl, Bool, false, Option, none, some, List, [], ◌∷◌, if_split, Bool-cases,
  inl, inr, arith, ==_iff,
}
use awa_platform.Prelude.Lists.{any, select}
use awa_platform.Exceptions.{Result, ok, raise, ◌>>=◌, Ensures, Ensures-bind}
use awa_platform.Models.User.{User}
use awa_platform.Models.Role.{Role}
use awa_platform.Session.{Db}
use awa_platform.Roles.{holds}
use awa_platform.Roles.Grant.{IsRoled, cons-IsRoled}
use awa_platform.Migrations.Roles.Names.{str_eq_refl}
use awa_platform.Migrations.Demo.Accounts.{demo_users}
use awa_platform.Migrations.Demo.{
  at_email, insert_demo_user, insert_demo_role, scalar_one, demo_user, role_id_of, add_second_role,
  seed_demo_user, seed_each, upgrade_demo_users, run_migrations,
}

insert_demo_role-IsRoled :
    (id now user_id role_id : ℕ) (db : Db)
    → IsRoled db
    → IsRoled (insert_demo_role id now user_id role_id db)
unfolding insert_demo_role
insert_demo_role-IsRoled id now user_id role_id db h =
    if_split IsRoled (holds user_id role_id db.user_roles) db _ (λ e. h)
      (λ e.
        cons-IsRoled (record { id = id; user_id = user_id; role_id = role_id; assigned_at = now })
          db h)

-- A new account, once its first row is there.
new-IsRoled :
    (id now : ℕ) (new : User) (db : Db)
    → IsRoled db
    → IsRoled
        (insert_demo_role id now new.id new.primary_role_id (record db { users = new ∷ db.users }))
unfolding insert_demo_role
new-IsRoled id now new db h =
    if_split IsRoled (holds new.id new.primary_role_id db.user_roles)
      (record db { users = new ∷ db.users }) _ (λ e. (e, h))
      (λ e. (
        rw ((==_iff new.id new.id).1 refl, (==_iff new.primary_role_id new.primary_role_id).1 refl)
            refl,
        cons-IsRoled
            (record { id = id; user_id = new.id; role_id = new.primary_role_id; assigned_at = now })
            db h,
      ))

Ensures-any : (r : Result ℕ) → Ensures (λ x. Unit {0}) r
Ensures-any (ok x) = tt
Ensures-any (raise e) = tt

add_second_role-IsRoled :
    (id now user_id : ℕ) (roles : List Role) (second : Option String) (db : Db)
    → IsRoled db
    → Ensures IsRoled (add_second_role id now user_id roles second db)
unfolding add_second_role
add_second_role-IsRoled id now user_id roles none db h = h
add_second_role-IsRoled id now user_id roles (some name) db h =
    Ensures-bind (λ r. Unit {0}) IsRoled (role_id_of roles name) _
      (Ensures-any (role_id_of roles name))
      (λ role_id k. insert_demo_role-IsRoled id now user_id role_id db h)

select_absent : (p : User → Bool) (users : List User) → any p users ≡ false → select p users ≡ []
select_absent p [] h = refl
select_absent p (u ∷ users) h = ground (arith, select_absent p users)

module _ (strip : String → String) (password_hash : String) (now : ℕ) (uuid : ℕ → ℕ → ℕ)
    (roles : List Role) where
  -- What follows the insertion of an account, for the account that the address finds.
  abbrev after_insert : (k role_id : ℕ) → Option String → Db → Result User → Result Db
  after_insert k role_id second added found = found >>= λ u.
      add_second_role (uuid k 2) now u.id roles second
        (insert_demo_role (uuid k 1) now u.id role_id added)

  after_old :
      (k role_id : ℕ) (second : Option String) (db : Db) (found : Result User)
      → IsRoled db
      → Ensures IsRoled (after_insert k role_id second db found)
  after_old k role_id second db (ok u) h =
      add_second_role-IsRoled (uuid k 2) now u.id roles second
        (insert_demo_role (uuid k 1) now u.id role_id db)
        (insert_demo_role-IsRoled (uuid k 1) now u.id role_id db h)
  after_old k role_id second db (raise e) h = tt

  seed_one :
      (k role_id : ℕ) (email full_name : String) (second : Option String) (db : Db)
      → IsRoled db
      → let new = demo_user strip password_hash (uuid k 0) role_id email full_name in
        let added = insert_demo_user new db in
        Ensures IsRoled
          (after_insert k role_id second added (scalar_one (select (at_email email) added.users)))
  unfolding insert_demo_user scalar_one
  seed_one k role_id email full_name second db h =
      elim (Bool-cases (any (at_email email) db.users)) [
        | inl e ↦
            rw e (after_old k role_id second db (scalar_one (select (at_email email) db.users)) h)
        | inr e ↦
            let new = demo_user strip password_hash (uuid k 0) role_id email full_name in
            rw (e, str_eq_refl email, select_absent (at_email email) db.users e)
              (add_second_role-IsRoled (uuid k 2) now (uuid k 0) roles second _
                (new-IsRoled (uuid k 1) now new db h))
      ]

  seed_demo_user-IsRoled :
      (k : ℕ) (account : String × String × String × Option String) (db : Db)
      → IsRoled db
      → Ensures IsRoled (seed_demo_user strip password_hash now uuid roles k account db)
  unfolding seed_demo_user
  seed_demo_user-IsRoled k (email, role_name, full_name, second) db h =
      Ensures-bind (λ r. Unit {0}) IsRoled (role_id_of roles role_name) _
        (Ensures-any (role_id_of roles role_name))
        (λ role_id u. seed_one k role_id email full_name second db h)

  seed_each-IsRoled :
      (k : ℕ) (accounts : List (String × String × String × Option String)) (db : Db)
      → IsRoled db
      → Ensures IsRoled (seed_each strip password_hash now uuid roles k accounts db)
  unfolding seed_each
  seed_each-IsRoled k [] db h = h
  seed_each-IsRoled k (account ∷ rest) db h =
      Ensures-bind IsRoled IsRoled (seed_demo_user strip password_hash now uuid roles k account db)
        _ (seed_demo_user-IsRoled k account db h)
        (λ after r. seed_each-IsRoled (k + 1) rest after r)

committed :
    (db : Db) (r : Result Db)
    → IsRoled db
    → Ensures IsRoled r
    → IsRoled (elim r [ ok after ↦ after | raise e ↦ db ])
committed db (ok after) h k = k
committed db (raise e) h k = h

-- The revision with the demo accounts, committed or rolled back, keeps every user's primary role among
-- the roles that the user holds, also for accounts that were there before.
pub upgrade_demo_users-IsRoled :
    (strip : String → String) (password_hash : String) (now : ℕ) (uuid : ℕ → ℕ → ℕ) (db : Db)
    → IsRoled db
    → IsRoled (run_migrations (upgrade_demo_users strip password_hash now uuid) db)
unfolding run_migrations upgrade_demo_users
upgrade_demo_users-IsRoled strip password_hash now uuid db h =
    committed db _ h (seed_each-IsRoled strip password_hash now uuid db.roles 0 demo_users db h)
