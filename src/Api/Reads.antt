-- ===== src/Api/Reads.antt =====
-- api/v1/users.py: the endpoints that only read roles.
use awa_platform.Prelude.{ℕ, Option, none, some, List}
use awa_platform.Models.User.{User}
use awa_platform.Models.Role.{Role}
use awa_platform.Session.{Db}
use awa_platform.Roles.{Collation, get_user_roles}
use awa_platform.Auth.Base.{get_user_by_id}
use awa_platform.Api.{Reply, reply, http_exception, unhandled}

-- The roles of the signed-in user.
unfoldable pub get_my_roles : Collation → Reply User → Db → Reply (List Role)
get_my_roles col (reply user) db = reply (get_user_roles col user.id db)
get_my_roles col (http_exception status) db = http_exception status
get_my_roles col (unhandled e) db = unhandled e

abbrev pub or_404 : Option User → Reply User
or_404 none = http_exception 404
or_404 (some user) = reply user

-- The roles of another user, for an administrator.
unfoldable pub roles_of_user :
    Collation → (admin : Reply User) (user_id : ℕ) → Db → Reply (List Role)
unfolding get_my_roles
roles_of_user col (reply admin) user_id db =
    get_my_roles col (or_404 (get_user_by_id user_id db)) db
roles_of_user col (http_exception status) user_id db = http_exception status
roles_of_user col (unhandled e) user_id db = unhandled e
