-- ===== src/Migrations/Dashboard.antt =====
-- alembic/versions/0010 to 0017, 0024 to 0026 and 0032: the rows of `admin_nav_items`,
-- `admin_dashboard_cards` and `vehicle_status_metrics`. `quote` is that of urllib.parse, and `uuid n`
-- is the id that the n-th call of uuid4 in a revision returns.
pub mod Operations
pub mod Sections
pub mod Seeds
pub mod Tiles
pub mod Overview
pub mod Undo
pub mod Sellers
use Prim.Native.String.{◌++◌ as join}
use awa_platform.Prelude.{
  ℕ, String, ◌+◌, Bool, true, false, not, ◌&&◌, Option, none, some, List, [], ◌∷◌, ◌++◌, map,
  if◌then◌else◌, str_eq,
}
use awa_platform.Prelude.Int.{pos}
use awa_platform.Prelude.Lists.{select, update}
use awa_platform.Admin.{AdminNavItem, AdminDashboardCard, VehicleStatusMetric, Chrome}
use awa_platform.Migrations.Dashboard.Operations.{operations_cards}
use awa_platform.Migrations.Dashboard.Sections.{
  management_cards, accountant_cards, reports_cards, admin_cards,
}
use awa_platform.Migrations.Dashboard.Seeds.{
  nav_seeds, submenu_seeds, dashboard_section, sellers_section, dashboard_cards,
}
use awa_platform.Migrations.Dashboard.Tiles.{
  seller_card_images, seller_icon_classes, realtime_tiles, mtd_tiles, payment_summary_tiles,
}

-- Rows of the navigation from the n-th id on, numbered from the order on.
unfoldable pub nav_rows :
    (uuid : ℕ → ℕ) (parent_id : Option ℕ) (n order : ℕ)
    → List (String × String × Option String × String)
    → List AdminNavItem
nav_rows uuid parent_id n order [] = []
nav_rows uuid parent_id n order ((label_en, label_ar, icon_class, url) ∷ rest) =
    record {
      id = uuid n;
      parent_id = parent_id;
      label_en = label_en;
      label_ar = label_ar;
      icon_class = icon_class;
      url = url;
      sort_order = pos order;
      is_active = true;
    }
    ∷ nav_rows uuid parent_id (n + 1) (order + 1) rest

-- Rows of cards with descriptions, as in 0010 and 0011.
unfoldable pub described_rows :
    (uuid : ℕ → ℕ) (section_key : String) (n order : ℕ)
    → List (String × String × String × String × String × String)
    → List AdminDashboardCard
described_rows uuid section_key n order [] = []
described_rows uuid section_key n order
      ((label_en, label_ar, description_en, description_ar, icon_class, url) ∷ rest) =
    record {
      id = uuid n;
      section_key = section_key;
      label_en = label_en;
      label_ar = label_ar;
      description_en = some description_en;
      description_ar = some description_ar;
      icon_class = some icon_class;
      url = url;
      image_url = none;
      sort_order = pos order;
      is_active = true;
    }
    ∷ described_rows uuid section_key (n + 1) (order + 1) rest

-- `upgrade` of 0010: the tables are new, with the seven entries and the thirteen cards.
unfoldable pub upgrade_admin_dashboard : (uuid : ℕ → ℕ) → Chrome
upgrade_admin_dashboard uuid = record {
  nav_items = nav_rows uuid none 0 1 nav_seeds;
  metrics = [];
  cards =
      described_rows uuid "dashboard" 7 1 dashboard_section
      ++ described_rows uuid "sellers" 9 1 sellers_section;
}

-- DELETE FROM admin_dashboard_cards WHERE section_key = ...
abbrev pub delete_section : String → List AdminDashboardCard → List AdminDashboardCard
delete_section section cards =
    select (λ (c : AdminDashboardCard). not (str_eq c.section_key section)) cards

unfoldable pub add_submenus : (uuid : ℕ → ℕ) → Chrome → List AdminNavItem → Option Chrome
add_submenus uuid chrome [] = none
add_submenus uuid chrome (admin ∷ []) = some (record chrome {
  nav_items = chrome.nav_items ++ nav_rows uuid (some admin.id) 0 1 submenu_seeds;
  cards =
      delete_section "dashboard" chrome.cards
      ++ described_rows uuid "dashboard" 2 1 dashboard_cards;
})
add_submenus uuid chrome (admin ∷ next ∷ rest) = none

-- `upgrade` of 0011: `scalar_one` raises, here `none`, unless one entry is labelled Admin.
unfoldable pub upgrade_submenus : (uuid : ℕ → ℕ) → Chrome → Option Chrome
upgrade_submenus uuid chrome =
    add_submenus uuid chrome
      (select (λ (i : AdminNavItem). str_eq i.label_en "Admin") chrome.nav_items)

abbrev pub image_base : String
image_base = "https://uat-alwataneya.et.ae/PA_AdminDashboard/resource/images/"

abbrev pub image : (quote : String → String) → String → String
image quote filename = join image_base (quote filename)

unfoldable pub section_rows :
    (quote : String → String) (uuid : ℕ → ℕ) (section_key prefix : String) (n : ℕ)
    → List (String × String × String × String)
    → List AdminDashboardCard
section_rows quote uuid section_key prefix n [] = []
section_rows quote uuid section_key prefix n ((slug, label_en, label_ar, filename) ∷ rest) =
    record {
      id = uuid n;
      section_key = section_key;
      label_en = label_en;
      label_ar = label_ar;
      description_en = none;
      description_ar = none;
      icon_class = none;
      url = join prefix slug;
      image_url = some (image quote filename);
      sort_order = pos (n + 1);
      is_active = true;
    }
    ∷ section_rows quote uuid section_key prefix (n + 1) rest

abbrev pub without_image : AdminDashboardCard → AdminDashboardCard
without_image c = record c { image_url = none }

module _ (quote : String → String) (uuid : ℕ → ℕ) (cards : List AdminDashboardCard) where
  -- 0012 adds the column of the images, which is NULL in the rows that are there.
  unfoldable pub upgrade_operations : List AdminDashboardCard
  upgrade_operations =
      map without_image cards
      ++ section_rows quote uuid "operations" "/admin/operations/" 0 operations_cards

  unfoldable pub upgrade_management : List AdminDashboardCard
  upgrade_management =
      cards ++ section_rows quote uuid "management" "/admin/management/" 0 management_cards

  unfoldable pub upgrade_accountant : List AdminDashboardCard
  upgrade_accountant =
      cards ++ section_rows quote uuid "accountant" "/admin/accountant/" 0 accountant_cards

  unfoldable pub upgrade_reports : List AdminDashboardCard
  upgrade_reports = cards ++ section_rows quote uuid "reports" "/admin/reports/" 0 reports_cards

  unfoldable pub upgrade_home : List AdminDashboardCard
  upgrade_home = cards ++ section_rows quote uuid "admin" "/admin/" 0 admin_cards

unfoldable pub downgrade_operations : List AdminDashboardCard → List AdminDashboardCard
downgrade_operations cards = map without_image (delete_section "operations" cards)

unfoldable pub downgrade_management : List AdminDashboardCard → List AdminDashboardCard
downgrade_management cards = delete_section "management" cards

unfoldable pub downgrade_accountant : List AdminDashboardCard → List AdminDashboardCard
downgrade_accountant cards = delete_section "accountant" cards

unfoldable pub downgrade_reports : List AdminDashboardCard → List AdminDashboardCard
downgrade_reports cards = delete_section "reports" cards

unfoldable pub downgrade_home : List AdminDashboardCard → List AdminDashboardCard
downgrade_home cards = delete_section "admin" cards

-- A card of the sellers with this address.
abbrev pub is_seller_card : String → AdminDashboardCard → Bool
is_seller_card url c = str_eq c.section_key "sellers" && str_eq c.url url

-- One UPDATE for each pair.
unfoldable pub update_sellers :
    (String → AdminDashboardCard → AdminDashboardCard)
    → List (String × String)
    → List AdminDashboardCard
    → List AdminDashboardCard
update_sellers set [] cards = cards
update_sellers set ((url, value) ∷ rest) cards =
    update_sellers set rest (update (is_seller_card url) (set value) cards)

unfoldable pub upgrade_seller_images :
    (quote : String → String) → List AdminDashboardCard → List AdminDashboardCard
upgrade_seller_images quote cards =
    update_sellers (λ filename c. record c { image_url = some (image quote filename) })
      seller_card_images cards

unfoldable pub downgrade_seller_images : List AdminDashboardCard → List AdminDashboardCard
downgrade_seller_images cards =
    update_sellers (λ filename c. record c { image_url = none }) seller_card_images cards

unfoldable pub upgrade_seller_icons : List AdminDashboardCard → List AdminDashboardCard
upgrade_seller_icons cards =
    update (λ (c : AdminDashboardCard). str_eq c.section_key "sellers")
      (λ c. record c { icon_class = none }) cards

unfoldable pub downgrade_seller_icons : List AdminDashboardCard → List AdminDashboardCard
downgrade_seller_icons cards =
    update_sellers (λ icon c. record c { icon_class = some icon }) seller_icon_classes cards
