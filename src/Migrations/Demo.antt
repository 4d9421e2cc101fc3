-- ===== src/Migrations/Demo.antt =====
-- alembic/versions/0031_seed_role_demo_users.py: the demo accounts and their roles. `strip` is that of
-- str, `password_hash` the hash of the demo password, `now` the time of the revision, and `uuid k j`
-- the id that uuid4 returns for the j-th row of the k-th account.
pub mod Accounts
pub mod Seeded
use Prim.Native.Char.{code}
use Prim.Native.String.{[] as empty, ◌∷◌ as push}
use awa_platform.Prelude.{
  ℕ, String, ◌+◌, Bool, true, false, Option, none, some, List, [], ◌∷◌, ◌==◌, if◌then◌else◌, str_eq,
}
use awa_platform.Prelude.Lists.{any, select}
use awa_platform.Exceptions.{
  Exception, Result, ok, raise, ◌>>=◌, key_error, no_result_found, multiple_results_found,
}
use awa_platform.Models.User.{User}
use awa_platform.Models.Role.{Role, UserRole}
use awa_platform.Session.{Db}
use awa_platform.Roles.{holds, or_raise}
use awa_platform.Migrations.Roles.{role_ids}
use awa_platform.Migrations.Demo.Accounts.{demo_users}

-- `split(" ", 1)`, with an empty second part where there is no space.
unfoldable pub split_space : String → String × String
split_space empty = (empty, empty)
split_space (push c s) =
    let (first, last) = split_space s in if code c == 32 then (empty, s) else (push c first, last)

unfoldable pub split_name : (strip : String → String) → String → String × String
split_name strip name = split_space (strip name)

abbrev pub at_email : String → User → Bool
at_email email u = str_eq u.email email

-- INSERT INTO users ... WHERE NOT EXISTS
unfoldable pub insert_demo_user : User → Db → Db
insert_demo_user new db =
    if any (at_email new.email) db.users then db else record db { users = new ∷ db.users }

-- INSERT INTO user_roles ... WHERE NOT EXISTS
unfoldable pub insert_demo_role : (id now user_id role_id : ℕ) → Db → Db
insert_demo_role id now user_id role_id db =
    if holds user_id role_id db.user_roles then db else record db {
      user_roles =
          record { id = id; user_id = user_id; role_id = role_id; assigned_at = now }
          ∷ db.user_roles;
    }

-- `scalar_one`
unfoldable pub scalar_one : List User → Result User
scalar_one [] = raise no_result_found
scalar_one (u ∷ []) = ok u
scalar_one (u ∷ v ∷ users) = raise multiple_results_found

abbrev pub demo_user :
    (strip : String → String) (password_hash : String) (id role_id : ℕ) (email name : String) → User
demo_user strip password_hash id role_id email name = record {
  id = id;
  email = email;
  password_hash = password_hash;
  first_name = (split_name strip name).0;
  last_name = (split_name strip name).1;
  phone = none;
  primary_role_id = role_id;
  is_active = true;
  is_email_verified = true;
  failed_login_attempts = 0;
  locked_until = none;
  last_login_at = none;
}

-- `role_ids[name]`
unfoldable pub role_id_of : List Role → String → Result ℕ
role_id_of roles name = or_raise key_error (role_ids roles name)

unfoldable pub add_second_role : (id now user_id : ℕ) → List Role → Option String → Db → Result Db
add_second_role id now user_id roles none db = ok db
add_second_role id now user_id roles (some name) db =
    role_id_of roles name >>= λ role_id. ok (insert_demo_role id now user_id role_id db)

module _ (strip : String → String) (password_hash : String) (now : ℕ) (uuid : ℕ → ℕ → ℕ)
    (roles : List Role) where
  -- The body of the loop.
  unfoldable pub seed_demo_user :
      (k : ℕ) → String × String × String × Option String → Db → Result Db
  seed_demo_user k (email, role_name, full_name, second) db =
      role_id_of roles role_name >>= λ role_id.
      let added =
        insert_demo_user (demo_user strip password_hash (uuid k 0) role_id email full_name) db in
      scalar_one (select (at_email email) added.users) >>= λ u.
      add_second_role (uuid k 2) now u.id roles second
        (insert_demo_role (uuid k 1) now u.id role_id added)

  unfoldable pub seed_each :
      (k : ℕ) → List (String × String × String × Option String) → Db → Result Db
  seed_each k [] db = ok db
  seed_each k (account ∷ rest) db = seed_demo_user k account db >>= seed_each (k + 1) rest

unfoldable pub upgrade_demo_users :
    (strip : String → String) (password_hash : String) (now : ℕ) (uuid : ℕ → ℕ → ℕ) → Db → Result Db
upgrade_demo_users strip password_hash now uuid db =
    seed_each strip password_hash now uuid db.roles 0 demo_users db

-- `context.begin_transaction()` of alembic/env.py: a revision that raises leaves nothing.
unfoldable pub run_migrations : (Db → Result Db) → Db → Db
run_migrations revision db = elim (revision db) [ ok after ↦ after | raise e ↦ db ]
