-- ===== src/Migrations/Dashboard/Undo.antt =====
-- The revisions of the cards and back again.
use awa_platform.Prelude.{
  ℕ, String, ◌+◌, ◌≡◌, refl, sym, ap, ◌∙◌, Bool, true, false, none, List, [], ◌∷◌, ◌++◌, map,
  str_eq, arith,
}
use awa_platform.Prelude.Lists.{All, any}
use awa_platform.Admin.{AdminDashboardCard}
use awa_platform.Migrations.Roles.Names.{any-append}
use awa_platform.Migrations.Dashboard.Operations.{operations_cards}
use awa_platform.Migrations.Dashboard.Sections.{
  management_cards, accountant_cards, reports_cards, admin_cards,
}
use awa_platform.Migrations.Dashboard.{
  delete_section, section_rows, without_image, upgrade_operations, upgrade_management,
  upgrade_accountant, upgrade_reports, upgrade_home, downgrade_operations, downgrade_management,
  downgrade_accountant, downgrade_reports, downgrade_home,
}

-- Whether a section has a card.
abbrev pub has_section : String → List AdminDashboardCard → Bool
has_section section cards = any (λ (c : AdminDashboardCard). str_eq c.section_key section) cards

delete-append :
    (section : String) (xs ys : List AdminDashboardCard)
    → delete_section section (xs ++ ys) ≡ delete_section section xs ++ delete_section section ys
delete-append section [] ys = refl
delete-append section (x ∷ xs) ys = ground (arith, delete-append section xs ys)

delete_absent :
    (section : String) (cards : List AdminDashboardCard)
    → has_section section cards ≡ false
    → delete_section section cards ≡ cards
delete_absent section [] h = refl
delete_absent section (c ∷ cards) h = ground (arith, delete_absent section cards)

append_nothing : {A : Type 0} (xs : List A) → xs ++ [] ≡ xs
append_nothing [] = refl
append_nothing (x ∷ xs) = ap (◌∷◌ x) (append_nothing xs)

module _ (quote : String → String) (uuid : ℕ → ℕ) where
  delete_all :
      (section prefix : String) (n : ℕ) (rows : List (String × String × String × String))
      → str_eq section section ≡ true
      → delete_section section (section_rows quote uuid section prefix n rows) ≡ []
  unfolding section_rows
  delete_all section prefix n [] e = refl
  delete_all section prefix n ((slug, en, ar, file) ∷ rows) e =
      rw e (delete_all section prefix (n + 1) rows e)

  -- Rows of one section are in no other.
  has_other :
      (section other prefix : String) (n : ℕ) (rows : List (String × String × String × String))
      → str_eq section other ≡ false
      → has_section other (section_rows quote uuid section prefix n rows) ≡ false
  unfolding section_rows
  has_other section other prefix n [] e = refl
  has_other section other prefix n ((slug, en, ar, file) ∷ rows) e =
      rw e (has_other section other prefix (n + 1) rows e)

  -- What was inserted is deleted, where the section was empty.
  delete_seeded :
      (section prefix : String) (rows : List (String × String × String × String))
      (cards : List AdminDashboardCard)
      → str_eq section section ≡ true
      → has_section section cards ≡ false
      → delete_section section (cards ++ section_rows quote uuid section prefix 0 rows) ≡ cards
  delete_seeded section prefix rows cards e h =
      delete-append section cards (section_rows quote uuid section prefix 0 rows)
      ∙ rw (delete_absent section cards h, delete_all section prefix 0 rows e)
          (append_nothing cards)

  has-seeded :
      (section other prefix : String) (rows : List (String × String × String × String))
      (cards : List AdminDashboardCard)
      → str_eq section other ≡ false
      → has_section other (cards ++ section_rows quote uuid section prefix 0 rows)
        ≡ has_section other cards
  has-seeded section other prefix rows cards e =
      any-append (λ (c : AdminDashboardCard). str_eq c.section_key other) cards
        (section_rows quote uuid section prefix 0 rows)
      ∙ rw (has_other section other prefix 0 rows e) (ground arith)

no_images :
    (cards : List AdminDashboardCard)
    → All (λ (c : AdminDashboardCard). c.image_url ≡ none) cards
    → map without_image cards ≡ cards
no_images [] h = refl
no_images (c ∷ cards) (h, hs) =
    rw (no_images cards hs) (ap (λ x. record c { image_url = x } ∷ cards) (sym h))

-- The revisions 0012 to 0016, where `ids r` are the ids that the revision `r` makes.
module _ (quote : String → String) (ids : ℕ → ℕ → ℕ) where
  abbrev pub upgrade_sections : List AdminDashboardCard → List AdminDashboardCard
  upgrade_sections cards = upgrade_home quote (ids 16) (
      upgrade_reports quote (ids 15) (
        upgrade_accountant quote (ids 14)
          (upgrade_management quote (ids 13) (upgrade_operations quote (ids 12) cards))))

  abbrev pub downgrade_sections : List AdminDashboardCard → List AdminDashboardCard
  downgrade_sections cards =
      downgrade_operations
        (downgrade_management (downgrade_accountant (downgrade_reports (downgrade_home cards))))

  -- None of the five sections has a card.
  abbrev pub IsVacant : List AdminDashboardCard → Type 0
  IsVacant cards =
      (has_section "operations" cards ≡ false)
      × (has_section "management" cards ≡ false)
      × (has_section "accountant" cards ≡ false)
      × (has_section "reports" cards ≡ false)
      × (has_section "admin" cards ≡ false)

  -- What the upgrades up to each revision leave of another section.
  module _ (cards : List AdminDashboardCard)
      (plain : All (λ (c : AdminDashboardCard). c.image_url ≡ none) cards) (other : String) where
    after_operations :
        str_eq "operations" other ≡ false
        → has_section other (upgrade_operations quote (ids 12) cards) ≡ has_section other cards
    unfolding upgrade_operations
    after_operations e =
        has-seeded quote (ids 12) "operations" other "/admin/operations/" operations_cards
          (map without_image cards) e
        ∙ ap (has_section other) (no_images cards plain)

  after_management :
      (other : String) (cards : List AdminDashboardCard)
      → str_eq "management" other ≡ false
      → has_section other (upgrade_management quote (ids 13) cards) ≡ has_section other cards
  unfolding upgrade_management
  after_management other =
      has-seeded quote (ids 13) "management" other "/admin/management/" management_cards

  after_accountant :
      (other : String) (cards : List AdminDashboardCard)
      → str_eq "accountant" other ≡ false
      → has_section other (upgrade_accountant quote (ids 14) cards) ≡ has_section other cards
  unfolding upgrade_accountant
  after_accountant other =
      has-seeded quote (ids 14) "accountant" other "/admin/accountant/" accountant_cards

  after_reports :
      (other : String) (cards : List AdminDashboardCard)
      → str_eq "reports" other ≡ false
      → has_section other (upgrade_reports quote (ids 15) cards) ≡ has_section other cards
  unfolding upgrade_reports
  after_reports other = has-seeded quote (ids 15) "reports" other "/admin/reports/" reports_cards

  undo_operations :
      (cards : List AdminDashboardCard)
      → All (λ (c : AdminDashboardCard). c.image_url ≡ none) cards
      → has_section "operations" cards ≡ false
      → downgrade_operations (upgrade_operations quote (ids 12) cards) ≡ cards
  unfolding upgrade_operations downgrade_operations
  undo_operations cards plain h =
      let same = no_images cards plain in
      ap (map without_image) (
        delete_seeded quote (ids 12) "operations" "/admin/operations/" operations_cards
          (map without_image cards) refl (ap (has_section "operations") same ∙ h))
      ∙ ap (map without_image) same
      ∙ same

  undo_management :
      (cards : List AdminDashboardCard)
      → has_section "management" cards ≡ false
      → downgrade_management (upgrade_management quote (ids 13) cards) ≡ cards
  unfolding upgrade_management downgrade_management
  undo_management cards h =
      delete_seeded quote (ids 13) "management" "/admin/management/" management_cards cards refl h

  undo_accountant :
      (cards : List AdminDashboardCard)
      → has_section "accountant" cards ≡ false
      → downgrade_accountant (upgrade_accountant quote (ids 14) cards) ≡ cards
  unfolding upgrade_accountant downgrade_accountant
  undo_accountant cards h =
      delete_seeded quote (ids 14) "accountant" "/admin/accountant/" accountant_cards cards refl h

  undo_reports :
      (cards : List AdminDashboardCard)
      → has_section "reports" cards ≡ false
      → downgrade_reports (upgrade_reports quote (ids 15) cards) ≡ cards
  unfolding upgrade_reports downgrade_reports
  undo_reports cards h =
      delete_seeded quote (ids 15) "reports" "/admin/reports/" reports_cards cards refl h

  undo_home :
      (cards : List AdminDashboardCard)
      → has_section "admin" cards ≡ false
      → downgrade_home (upgrade_home quote (ids 16) cards) ≡ cards
  unfolding upgrade_home downgrade_home
  undo_home cards h = delete_seeded quote (ids 16) "admin" "/admin/" admin_cards cards refl h

  -- Where no card has an image and the five sections are empty, the downgrades of 0016 to 0012 undo
  -- the upgrades of 0012 to 0016.
  pub sections_undone :
      (cards : List AdminDashboardCard)
      → All (λ (c : AdminDashboardCard). c.image_url ≡ none) cards
      → IsVacant cards
      → downgrade_sections (upgrade_sections cards) ≡ cards
  sections_undone cards plain (o, m, a, r, h) =
      let c1 = upgrade_operations quote (ids 12) cards in
      let c2 = upgrade_management quote (ids 13) c1 in
      let c3 = upgrade_accountant quote (ids 14) c2 in
      let c4 = upgrade_reports quote (ids 15) c3 in
      rw
        (
          undo_home c4 (
              after_reports "admin" c3 refl
              ∙ after_accountant "admin" c2 refl
              ∙ after_management "admin" c1 refl
              ∙ after_operations cards plain "admin" refl
              ∙ h),
          undo_reports c3 (
              after_accountant "reports" c2 refl
              ∙ after_management "reports" c1 refl
              ∙ after_operations cards plain "reports" refl
              ∙ r),
          undo_accountant c2 (
              after_management "accountant" c1 refl
              ∙ after_operations cards plain "accountant" refl
              ∙ a),
          undo_management c1 (after_operations cards plain "management" refl ∙ m),
        )
        (undo_operations cards plain o)
