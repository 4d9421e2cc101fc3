-- ===== src/Migrations/Dashboard/Overview/Linked.antt =====
-- What the revision 0032 leaves of the navigation.
use awa_platform.Prelude.{
  ℕ, String, ◌≡◌, refl, ◌∙◌, true, false, some, List, ◌==◌, str_eq, Option-cases, inl, inr,
}
use awa_platform.Prelude.Lists.{find}
use awa_platform.Admin.{AdminNavItem}
use awa_platform.Migrations.Roles.{unique}
use awa_platform.Migrations.Dashboard.Overview.{
  has_url, admin_icon, admin_row, place_admin, admin_id_of, Child, dashboard_child, in_store_child,
  child_row, set_child, place_child, upgrade_overview,
}
use awa_platform.Migrations.Dashboard.Overview.Upsert.{
  same_id, has_id, unique-step, has_id-step, find-step, find-step_other,
}

-- The entry has the icon, is active, and stands below this one.
abbrev pub IsChild : ℕ → Child → AdminNavItem → Type 0
IsChild admin_id c i =
    (i.parent_id ≡ some admin_id) × (i.icon_class ≡ some c.icon_class) × (i.is_active ≡ true)

-- The address has an entry, whose id is that of the entry of Admin.
abbrev pub IsOverview : List AdminNavItem → Type 0
IsOverview items =
    (admin : AdminNavItem) × (dashboard : AdminNavItem) × (store : AdminNavItem) × (find
        (has_url "/admin") items
      ≡ some admin)
    × (find (has_url "/admin/dashboard") items ≡ some dashboard)
    × (find (has_url "/admin/instore") items ≡ some store)
    × (admin.icon_class ≡ some admin_icon)
    × (admin.is_active ≡ true)
    × IsChild admin.id dashboard_child dashboard
    × IsChild admin.id in_store_child store

-- The ids that the revision makes are new, and no two are the same.
abbrev pub AreFresh : (uuid : ℕ → ℕ) → List AdminNavItem → Type 0
AreFresh uuid items =
    (has_id (uuid 0) items ≡ false)
    × (has_id (uuid 1) items ≡ false)
    × (has_id (uuid 2) items ≡ false)
    × ((uuid 1 == uuid 0) ≡ false)
    × ((uuid 2 == uuid 0) ≡ false)
    × ((uuid 2 == uuid 1) ≡ false)

module _ (new_id : ℕ) (items : List AdminNavItem) (ids : unique same_id items ≡ true) where
  abbrev set_admin : AdminNavItem → AdminNavItem
  set_admin i = record i { icon_class = some admin_icon; is_active = true }

  unique-place_admin :
      has_id new_id items ≡ false → unique same_id (place_admin new_id items) ≡ true
  unfolding place_admin
  unique-place_admin =
      unique-step "/admin" (admin_row new_id) set_admin (λ i. refl) (λ i. refl) items ids

  has_id-place_admin :
      (id : ℕ)
      → has_id id items ≡ false
      → (id == new_id) ≡ false
      → has_id id (place_admin new_id items) ≡ false
  unfolding place_admin
  has_id-place_admin =
      has_id-step "/admin" (admin_row new_id) set_admin (λ i. refl) (λ i. refl) items ids

  placed_admin :
      (admin : AdminNavItem) × (find (has_url "/admin") (place_admin new_id items) ≡ some admin)
      × (admin.id ≡ admin_id_of new_id items)
      × (admin.icon_class ≡ some admin_icon)
      × (admin.is_active ≡ true)
  unfolding place_admin admin_id_of
  placed_admin =
      let there =
        find-step "/admin" (admin_row new_id) set_admin (λ i. refl) (λ i. refl) items ids refl in
      elim (Option-cases (find (has_url "/admin") items)) [
        | inl e ↦ (admin_row new_id, there ∙ rw e refl, rw (admin_id_of, e) refl, refl, refl)
        | inr (row, e) ↦ (set_admin row, there ∙ rw e refl, rw (admin_id_of, e) refl, refl, refl)
      ]

module _ (new_id admin_id : ℕ) (c : Child) (items : List AdminNavItem)
    (ids : unique same_id items ≡ true) where
  unique-place_child :
      has_id new_id items ≡ false → unique same_id (place_child new_id admin_id c items) ≡ true
  unfolding place_child
  unique-place_child =
      unique-step c.url (child_row new_id admin_id c) (set_child admin_id c) (λ i. refl) (λ i. refl)
        items ids

  has_id-place_child :
      (id : ℕ)
      → has_id id items ≡ false
      → (id == new_id) ≡ false
      → has_id id (place_child new_id admin_id c items) ≡ false
  unfolding place_child
  has_id-place_child =
      has_id-step c.url (child_row new_id admin_id c) (set_child admin_id c) (λ i. refl) (λ i. refl)
        items ids

  find_other-place_child :
      (other : String)
      → str_eq c.url other ≡ false
      → find (has_url other) (place_child new_id admin_id c items) ≡ find (has_url other) items
  unfolding place_child
  find_other-place_child other h =
      find-step_other c.url (child_row new_id admin_id c) (set_child admin_id c) (λ i. refl)
        (λ i. refl) items ids other h h

  placed-IsChild :
      str_eq c.url c.url ≡ true
      → (i : AdminNavItem) × (find (has_url c.url) (place_child new_id admin_id c items) ≡ some i)
        × IsChild admin_id c i
  unfolding place_child
  placed-IsChild same =
      let there =
        find-step c.url (child_row new_id admin_id c) (set_child admin_id c) (λ i. refl) (λ i. refl)
          items ids same in
      elim (Option-cases (find (has_url c.url) items)) [
        | inl e ↦ (child_row new_id admin_id c, there ∙ rw e refl, (refl, refl, refl))
        | inr (row, e) ↦ (set_child admin_id c row, there ∙ rw e refl, (refl, refl, refl))
      ]

-- After the revision the entries of Admin, Dashboard and In Store exist and are active with their
-- icons, and the last two stand below the first, whatever the navigation had of them before.
pub upgrade_overview-IsOverview :
    (uuid : ℕ → ℕ) (items : List AdminNavItem)
    → unique same_id items ≡ true
    → AreFresh uuid items
    → IsOverview (upgrade_overview uuid items)
unfolding upgrade_overview
upgrade_overview-IsOverview uuid items ids (f0, f1, f2, d10, d20, d21) =
    let one = place_admin (uuid 0) items in
    let ids1 = unique-place_admin (uuid 0) items ids f0 in
    let (admin, a, a_id, icon, active) = placed_admin (uuid 0) items ids in
    let admin_id = admin_id_of (uuid 0) items in
    let two = place_child (uuid 1) admin_id dashboard_child one in
    let ids2 =
      unique-place_child (uuid 1) admin_id dashboard_child one ids1
        (has_id-place_admin (uuid 0) items ids (uuid 1) f1 d10) in
    let (dashboard, d, is_d) = placed-IsChild (uuid 1) admin_id dashboard_child one ids1 refl in
    let (store, s, is_s) = placed-IsChild (uuid 2) admin_id in_store_child two ids2 refl in
    (
      admin,
      dashboard,
      store,
      find_other-place_child (uuid 2) admin_id in_store_child two ids2 "/admin" refl
          ∙ find_other-place_child (uuid 1) admin_id dashboard_child one ids1 "/admin" refl
          ∙ a,
      find_other-place_child (uuid 2) admin_id in_store_child two ids2 "/admin/dashboard" refl ∙ d,
      s,
      icon,
      active,
      rw a_id is_d,
      rw a_id is_s,
    )
