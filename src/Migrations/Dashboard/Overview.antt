-- ===== src/Migrations/Dashboard/Overview.antt =====
-- alembic/versions/0017, 0026 and 0032, and the downgrade of 0011: the tiles of the vehicle status,
-- and the entries of the navigation and their icons.
pub mod Upsert
pub mod Linked
use awa_platform.Prelude.{
  ℕ, String, ◌+◌, Bool, true, false, not, ◌||◌, Option, none, some, List, [], ◌∷◌, ◌++◌, map, ◌==◌,
  if◌then◌else◌, str_eq,
}
use awa_platform.Prelude.Int.{ℤ, pos}
use awa_platform.Prelude.Lists.{length, select, find, update}
use awa_platform.Admin.{AdminNavItem, VehicleStatusMetric, Chrome}
use awa_platform.Migrations.Dashboard.{delete_section, image}
use awa_platform.Migrations.Dashboard.Tiles.{realtime_tiles, mtd_tiles, payment_summary_tiles}

-- `_image` of 0017: an empty or missing name gives no image.
unfoldable pub tile_image : (quote : String → String) → Option String → Option String
tile_image quote none = none
tile_image quote (some filename) = if str_eq filename "" then none else some (image quote filename)

unfoldable pub tile_rows :
    (quote : String → String) (uuid : ℕ → ℕ) (group_key : String) (n order : ℕ)
    → List (String × String × String × Option String × Option String × Option String)
    → List VehicleStatusMetric
tile_rows quote uuid group_key n order [] = []
tile_rows quote uuid group_key n order
      ((stat_key, label_en, label_ar, icon_class, filename, color_class) ∷ rest) =
    record {
      id = uuid n;
      group_key = group_key;
      stat_key = stat_key;
      label_en = label_en;
      label_ar = label_ar;
      icon_class = icon_class;
      image_url = tile_image quote filename;
      color_class = color_class;
      sort_order = pos order;
      is_active = true;
    }
    ∷ tile_rows quote uuid group_key (n + 1) (order + 1) rest

-- `upgrade` of 0017: the table is new.
unfoldable pub upgrade_metrics : (quote : String → String) (uuid : ℕ → ℕ) → Chrome → Chrome
upgrade_metrics quote uuid chrome = record chrome {
  metrics =
      tile_rows quote uuid "realtime" 0 1 realtime_tiles
      ++ tile_rows quote uuid "mtd" (length realtime_tiles) 1 mtd_tiles
      ++ tile_rows quote uuid "payment_summary" (length realtime_tiles + length mtd_tiles) 1
          payment_summary_tiles;
}

-- `downgrade` of 0011. The placeholder cards that its upgrade has deleted do not come back.
unfoldable pub downgrade_submenus : Chrome → Chrome
downgrade_submenus chrome = record chrome {
  nav_items =
      map (λ (i : AdminNavItem). record i { parent_id = none })
        (select
          (λ (i : AdminNavItem).
            not (str_eq i.label_en "Dashboard" || str_eq i.label_en "In Store"))
          chrome.nav_items);
  cards = delete_section "dashboard" chrome.cards;
}

abbrev pub has_url : String → AdminNavItem → Bool
has_url url i = str_eq i.url url

abbrev pub admin_label_ar : String
admin_label_ar =
    "\u{627}\u{644}\u{625}\u{62f}\u{627}\u{631}\u{629} \u{627}\u{644}\u{639}\u{627}\u{645}\u{629}"

-- `upgrade` of 0026 with `none`, and its `downgrade` with the icon.
unfoldable pub relabel_admin : (icon_class : Option String) → List AdminNavItem → List AdminNavItem
relabel_admin icon_class items =
    update (has_url "/admin")
      (λ i. record i { label_en = "Admin"; label_ar = admin_label_ar; icon_class = icon_class })
      items

-- SELECT id ... WHERE url = ..., then INSERT where there is none, and UPDATE ... WHERE id = ... else.
unfoldable pub insert_or_update :
    Option AdminNavItem
    → AdminNavItem
    → (AdminNavItem → AdminNavItem)
    → List AdminNavItem
    → List AdminNavItem
insert_or_update none new set items = items ++ new ∷ []
insert_or_update (some row) new set items = update (λ (i : AdminNavItem). i.id == row.id) set items

abbrev pub admin_icon : String
admin_icon = "fa-solid fa-border-all"

abbrev pub admin_row : (id : ℕ) → AdminNavItem
admin_row id = record {
  id = id;
  parent_id = none;
  label_en = "Admin";
  label_ar = admin_label_ar;
  icon_class = some admin_icon;
  url = "/admin";
  sort_order = pos 7;
  is_active = true;
}

unfoldable pub place_admin : (new_id : ℕ) → List AdminNavItem → List AdminNavItem
place_admin new_id items =
    insert_or_update (find (has_url "/admin") items) (admin_row new_id)
      (λ i. record i { icon_class = some admin_icon; is_active = true }) items

-- `admin_id` after the first step.
unfoldable pub admin_id_of : (new_id : ℕ) → List AdminNavItem → ℕ
admin_id_of new_id items = elim (find (has_url "/admin") items) [ none ↦ new_id | some i ↦ i.id ]

-- A row of `_CHILD_ITEMS`.
pub record Child : Type 0 where
  pub label_en : String
  pub label_ar : String
  pub icon_class : String
  pub url : String
  pub sort_order : ℤ

abbrev pub dashboard_child : Child
dashboard_child = record {
  label_en = "Dashboard";
  label_ar = "\u{644}\u{648}\u{62d}\u{629} \u{627}\u{644}\u{62a}\u{62d}\u{643}\u{645}";
  icon_class = "fa-solid fa-gauge-high";
  url = "/admin/dashboard";
  sort_order = pos 1;
}

abbrev pub in_store_child : Child
in_store_child = record {
  label_en = "In Store";
  label_ar = "\u{62f}\u{627}\u{62e}\u{644} \u{627}\u{644}\u{645}\u{62a}\u{62c}\u{631}";
  icon_class = "fa-solid fa-store";
  url = "/admin/instore";
  sort_order = pos 2;
}

abbrev pub child_row : (id admin_id : ℕ) → Child → AdminNavItem
child_row id admin_id c = record {
  id = id;
  parent_id = some admin_id;
  label_en = c.label_en;
  label_ar = c.label_ar;
  icon_class = some c.icon_class;
  url = c.url;
  sort_order = c.sort_order;
  is_active = true;
}

-- The same columns, set in a row that keeps its id and its address.
abbrev pub set_child : (admin_id : ℕ) → Child → AdminNavItem → AdminNavItem
set_child admin_id c i = record i {
  parent_id = some admin_id;
  label_en = c.label_en;
  label_ar = c.label_ar;
  icon_class = some c.icon_class;
  sort_order = c.sort_order;
  is_active = true;
}

unfoldable pub place_child : (new_id admin_id : ℕ) → Child → List AdminNavItem → List AdminNavItem
place_child new_id admin_id c items =
    insert_or_update (find (has_url c.url) items) (child_row new_id admin_id c)
      (set_child admin_id c) items

-- `upgrade` of 0032.
unfoldable pub upgrade_overview : (uuid : ℕ → ℕ) → List AdminNavItem → List AdminNavItem
upgrade_overview uuid items =
    let admin_id = admin_id_of (uuid 0) items in
    place_child (uuid 2) admin_id in_store_child
      (place_child (uuid 1) admin_id dashboard_child (place_admin (uuid 0) items))
