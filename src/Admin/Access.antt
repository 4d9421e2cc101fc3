-- ===== src/Admin/Access.antt =====
-- api/v1/admin.py: the endpoints of the chrome, and the access of the staff to its sections.
use Prim.Native.Char.{code}
use Prim.Native.String.{[] as empty, ◌∷◌ as push}
use text.Mathlib.Text.{starts_with}
use awa_platform.Prelude.{
  ℕ, zero, suc, String, Bool, true, Option, none, some, List, ◌==◌, if◌then◌else◌,
}
use awa_platform.Prelude.Lists.{select}
use awa_platform.Models.User.{User}
use awa_platform.Session.{Db}
use awa_platform.Roles.{
  Collation, staff_roles, section_role_requirements, meets, get_user_roles, role_names,
}
use awa_platform.Auth.Base.{Settings}
use awa_platform.Api.{Verifier, Reply, reply, http_exception, unhandled, require_local_role}
use awa_platform.Content.{Sql, Lang, or_none}
use awa_platform.Admin.{
  AdminNavItemRead, VehicleStatusMetricRead, AdminDashboardCardRead, AdminUserCountsRead, Chrome,
  get_admin_nav, get_vehicle_status_metrics, get_admin_dashboard_cards, get_admin_user_counts,
}

-- `s[n:]`
unfoldable pub after : ℕ → String → String
after zero s = s
after (suc n) empty = empty
after (suc n) (push c s) = after n s

-- `s.split("/")[0]`
unfoldable pub before_slash : String → String
before_slash empty = empty
before_slash (push c s) = let rest = before_slash s in if code c == 47 then empty else push c rest

-- The length of the prefix is 7.
unfoldable pub section_key_from_url : String → Option String
section_key_from_url url =
    if starts_with url "/admin/" then or_none (before_slash (after 7 url)) else none

-- What a section requires beyond being staff, against the roles that are held.
abbrev pub meets_required : List String → Option (List String) → Bool
meets_required held none = true
meets_required held (some required) = meets held required

abbrev pub held_names : Collation → User → Db → List String
held_names col user db = role_names (get_user_roles col user.id db)

unfoldable pub ensure_section_access : Collation → User → Db → (section : String) → Reply (Unit {0})
ensure_section_access col user db section =
    if meets_required (held_names col user db) (section_role_requirements section)
    then reply tt
    else http_exception 403

-- The condition of the filter of the navigation.
abbrev pub is_open : List String → Option String → Bool
is_open held none = true
is_open held (some section) = meets_required held (section_role_requirements section)

-- What an endpoint does for a user of the staff, or the exception of its dependency.
abbrev pub for_staff : {A : Type 0} → Reply User → (User → Reply A) → Reply A
for_staff (reply user) f = f user
for_staff (http_exception status) f = http_exception status
for_staff (unhandled e) f = unhandled e

abbrev pub once_open : {A : Type 0} → Reply (Unit {0}) → A → Reply A
once_open (reply tt) a = reply a
once_open (http_exception status) a = http_exception status
once_open (unhandled e) a = unhandled e

unfoldable pub require_staff :
    Verifier → Collation → Settings → (now : ℕ) → (credentials : Option String) → Db → Reply User
require_staff jose col settings now credentials db =
    require_local_role jose col settings staff_roles now credentials db

module _ (jose : Verifier) (col : Collation) (settings : Settings) (sql : Sql) (now : ℕ)
    (credentials : Option String) (db : Db) (chrome : Chrome) where
  unfoldable pub nav_endpoint : Lang → Reply (List AdminNavItemRead)
  nav_endpoint lang = for_staff (require_staff jose col settings now credentials db) λ user. reply (
      select
        (λ (item : AdminNavItemRead).
          is_open (held_names col user db) (section_key_from_url item.url))
        (get_admin_nav sql lang chrome.nav_items))

  unfoldable pub cards_endpoint : (section : String) → Lang → Reply (List AdminDashboardCardRead)
  cards_endpoint section lang =
      for_staff (require_staff jose col settings now credentials db) λ user.
        once_open (ensure_section_access col user db section)
          (get_admin_dashboard_cards sql lang section chrome.cards)

  unfoldable pub counts_endpoint : Reply AdminUserCountsRead
  counts_endpoint =
      for_staff (require_staff jose col settings now credentials db)
        λ user. reply (get_admin_user_counts db)

  unfoldable pub metrics_endpoint : (group : String) → Lang → Reply (List VehicleStatusMetricRead)
  metrics_endpoint group lang =
      for_staff (require_staff jose col settings now credentials db) λ user.
        once_open (ensure_section_access col user db group)
          (get_vehicle_status_metrics sql lang group chrome.metrics)
