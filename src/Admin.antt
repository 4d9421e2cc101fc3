-- ===== src/Admin.antt =====
-- services/admin_service.py and models/admin.py: the navigation, the cards and the headcounts of the
-- back office. Who of the staff may see what is in Admin.Access, and the reports on payments that the
-- same router serves are in Admin.Reports.
pub mod Access
pub mod Reports
pub mod Nav
pub mod Counts
mod Tests
use Prim.Native.Char.{code}
use Prim.Native.String.{[] as empty, ◌∷◌ as push}
use text.Mathlib.Text.{starts_with}
use awa_platform.Prelude.{
  ℕ, zero, suc, String, Bool, true, not, ◌&&◌, Option, none, some, List, [], ◌∷◌, ◌==◌,
  if◌then◌else◌, str_eq, map,
}
use awa_platform.Prelude.Int.{ℤ}
use awa_platform.Prelude.Lists.{length, select, any}
use awa_platform.Models.User.{User}
use awa_platform.Models.Role.{Role, UserRole}
use awa_platform.Session.{Db}
use awa_platform.Roles.{
  Collation, staff_roles, section_role_requirements, meets, get_user_roles, role_names,
}
use awa_platform.Auth.Base.{Settings}
use awa_platform.Api.{Verifier, Reply, reply, http_exception, unhandled, require_local_role}
use awa_platform.Content.{Sql, Lang, or_none, pick}

pub record AdminNavItem : Type 0 where
  pub id : ℕ
  pub parent_id : Option ℕ
  pub label_en : String
  pub label_ar : String
  pub icon_class : Option String
  pub url : String
  pub sort_order : ℤ
  pub is_active : Bool

pub record VehicleStatusMetric : Type 0 where
  pub id : ℕ
  pub group_key : String
  pub stat_key : String
  pub label_en : String
  pub label_ar : String
  pub icon_class : Option String
  pub image_url : Option String
  pub color_class : Option String
  pub sort_order : ℤ
  pub is_active : Bool

pub record AdminDashboardCard : Type 0 where
  pub id : ℕ
  pub section_key : String
  pub label_en : String
  pub label_ar : String
  pub description_en : Option String
  pub description_ar : Option String
  pub icon_class : Option String
  pub url : String
  pub image_url : Option String
  pub sort_order : ℤ
  pub is_active : Bool

pub record AdminNavItemRead : Type 0 where
  pub id : ℕ
  pub parent_id : Option ℕ
  pub label : String
  pub icon_class : Option String
  pub url : String
  pub sort_order : ℤ

pub record VehicleStatusMetricRead : Type 0 where
  pub id : ℕ
  pub group_key : String
  pub stat_key : String
  pub label : String
  pub icon_class : Option String
  pub image_url : Option String
  pub color_class : Option String
  pub sort_order : ℤ

pub record AdminDashboardCardRead : Type 0 where
  pub id : ℕ
  pub section_key : String
  pub label : String
  pub description : Option String
  pub icon_class : Option String
  pub url : String
  pub image_url : Option String
  pub sort_order : ℤ

pub record AdminUserCountsRead : Type 0 where
  pub total : ℕ
  pub sellers : ℕ
  pub buyers : ℕ
  pub staff : ℕ

-- The tables of the chrome.
pub record Chrome : Type 0 where
  pub nav_items : List AdminNavItem
  pub metrics : List VehicleStatusMetric
  pub cards : List AdminDashboardCard

module _ (sql : Sql) (lang : Lang) where
  abbrev pub nav_item_read : AdminNavItem → AdminNavItemRead
  nav_item_read row = record {
    id = row.id;
    parent_id = row.parent_id;
    label = pick (some row.label_en) (some row.label_ar) lang;
    icon_class = row.icon_class;
    url = row.url;
    sort_order = row.sort_order;
  }

  unfoldable pub get_admin_nav : List AdminNavItem → List AdminNavItemRead
  get_admin_nav rows = map nav_item_read (
      sql.order_by (λ (r : AdminNavItem). r.sort_order ∷ [])
        (select (λ (r : AdminNavItem). r.is_active) rows))

  unfoldable pub get_vehicle_status_metrics :
      String → List VehicleStatusMetric → List VehicleStatusMetricRead
  get_vehicle_status_metrics group_key rows =
      map
        (λ (row : VehicleStatusMetric). record {
          id = row.id;
          group_key = row.group_key;
          stat_key = row.stat_key;
          label = pick (some row.label_en) (some row.label_ar) lang;
          icon_class = row.icon_class;
          image_url = row.image_url;
          color_class = row.color_class;
          sort_order = row.sort_order;
        })
        (sql.order_by (λ (r : VehicleStatusMetric). r.sort_order ∷ [])
          (select (λ (r : VehicleStatusMetric). r.is_active && sql.text_eq r.group_key group_key)
            rows))

  unfoldable pub get_admin_dashboard_cards :
      String → List AdminDashboardCard → List AdminDashboardCardRead
  get_admin_dashboard_cards section_key rows =
      map
        (λ (row : AdminDashboardCard). record {
          id = row.id;
          section_key = row.section_key;
          label = pick (some row.label_en) (some row.label_ar) lang;
          description = or_none (pick row.description_en row.description_ar lang);
          icon_class = row.icon_class;
          url = row.url;
          image_url = row.image_url;
          sort_order = row.sort_order;
        })
        (sql.order_by (λ (r : AdminDashboardCard). r.sort_order ∷ [])
          (select (λ (r : AdminDashboardCard). r.is_active && sql.text_eq r.section_key section_key)
            rows))

-- `count(distinct(...))`
unfoldable pub distinct : List ℕ → List ℕ
distinct [] = []
distinct (i ∷ ids) = let rest = distinct ids in if any (λ j. i == j) rest then rest else i ∷ rest

-- The join of a row of `user_roles` with a role of one of the names.
abbrev pub joins : List String → List Role → UserRole → Bool
joins names roles r =
    any (λ (q : Role). r.role_id == q.id && any (λ n. str_eq q.name n) names) roles

unfoldable pub count_users_with_roles : List String → Db → ℕ
count_users_with_roles names db =
    length
      (distinct (map (λ (r : UserRole). r.user_id) (select (joins names db.roles) db.user_roles)))

unfoldable pub get_admin_user_counts : Db → AdminUserCountsRead
get_admin_user_counts db = record {
  total = length db.users;
  sellers = count_users_with_roles ("Seller" ∷ []) db;
  buyers = count_users_with_roles ("Buyer" ∷ []) db;
  staff = count_users_with_roles staff_roles db;
}
