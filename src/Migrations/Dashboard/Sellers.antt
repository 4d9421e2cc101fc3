-- ===== src/Migrations/Dashboard/Sellers.antt =====
-- The images and icons of the cards of the sellers, set and reset.
pub mod Updates
use awa_platform.Prelude.{
  String, ◌≡◌, refl, sym, ap, subst, ◌∙◌, Bool, true, false, ◌&&◌, Option, none, some, List, [],
  ◌∷◌, map, if◌then◌else◌, str_eq, arith, Bool-cases, inl, inr, if_split,
}
use awa_platform.Prelude.Lists.{All, All-map, any, update}
use awa_platform.Admin.{AdminDashboardCard}
use awa_platform.Migrations.Dashboard.Tiles.{seller_card_images, seller_icon_classes}
use awa_platform.Migrations.Dashboard.Sellers.Updates.{
  last_set, in_sellers, image_column, icon_column, after_all, updates-each, last_set_elsewhere,
  last_reset_set,
}
use awa_platform.Migrations.Dashboard.{
  is_seller_card, update_sellers, image, upgrade_seller_images, downgrade_seller_images,
  upgrade_seller_icons, downgrade_seller_icons,
}

map_back :
    {A : Type 0} (f g : A → A) (xs : List A) → All (λ x. g (f x) ≡ x) xs → map g (map f xs) ≡ xs
map_back f g [] h = refl
map_back f g (x ∷ xs) (h, hs) = rw (h, map_back f g xs hs) refl

-- The card has no image, and a card of the sellers the icon that is listed for its address.
abbrev pub IsPlain : AdminDashboardCard → Type 0
IsPlain c =
    (c.image_url ≡ none)
    × (str_eq c.section_key "sellers" ≡ true
        → c.icon_class ≡ last_set some seller_icon_classes true c.url none)

update_as_map :
    {A : Type 0} (p : A → Bool) (f : A → A) (xs : List A)
    → update p f xs ≡ map (λ x. if p x then f x else x) xs
update_as_map p f [] = refl
update_as_map p f (x ∷ xs) = ap (◌∷◌ (if p x then f x else x)) (update_as_map p f xs)

image_back :
    (g : String → Option String) (c : AdminDashboardCard)
    → c.image_url ≡ none
    → after_all image_column
        (λ v. none)
        seller_card_images
        (after_all image_column g seller_card_images c)
      ≡ c
image_back g c plain =
    ap
      (λ x. record c {
        image_url =
            last_set (λ v. none) seller_card_images (in_sellers c) c.url
              (last_set g seller_card_images (in_sellers c) c.url x);
      })
      plain
    ∙ ap (λ x. record c { image_url = x })
        (last_reset_set g seller_card_images (in_sellers c) c.url ∙ sym plain)

icon_back :
    (c : AdminDashboardCard)
    → (in_sellers c ≡ true → c.icon_class ≡ last_set some seller_icon_classes true c.url none)
    → after_all icon_column some seller_icon_classes
        (if in_sellers c then record c { icon_class = none } else c)
      ≡ c
icon_back c icon =
    if_split (λ (d : AdminDashboardCard). after_all icon_column some seller_icon_classes d ≡ c)
      (in_sellers c) (record c { icon_class = none }) c
      (λ e.
        ap (λ s. record c { icon_class = last_set some seller_icon_classes s c.url none }) e
        ∙ ap (λ x. record c { icon_class = x }) (sym (icon e)))
      (λ e.
        ap (λ s. record c { icon_class = last_set some seller_icon_classes s c.url c.icon_class }) e
        ∙ ap (λ x. record c { icon_class = x })
            (last_set_elsewhere some seller_icon_classes c.url c.icon_class))

module _ (quote : String → String) (cards : List AdminDashboardCard) (h : All IsPlain cards) where
  -- The downgrade of 0024 undoes its upgrade.
  images_undone : downgrade_seller_images (upgrade_seller_images quote cards) ≡ cards
  unfolding upgrade_seller_images downgrade_seller_images
  images_undone =
      ap (update_sellers (λ v c. record c { image_url = none }) seller_card_images)
        (updates-each image_column (λ v. some (image quote v)) seller_card_images cards)
      ∙ updates-each image_column (λ v. none) seller_card_images _
      ∙ map_back _ _ cards (
          All-map IsPlain _ cards
            (λ c (plain, icon). image_back (λ v. some (image quote v)) c plain) h)

  -- The downgrade of 0025 undoes its upgrade.
  icons_undone : downgrade_seller_icons (upgrade_seller_icons cards) ≡ cards
  unfolding upgrade_seller_icons downgrade_seller_icons
  icons_undone =
      ap downgrade_seller_icons
        (update_as_map in_sellers (λ c. record c { icon_class = none }) cards)
      ∙ updates-each icon_column some seller_icon_classes _
      ∙ map_back _ _ cards (All-map IsPlain _ cards (λ c (plain, icon). icon_back c icon) h)

-- On cards without an image, where those of the sellers have the icons that 0025 lists, the
-- downgrades of 0024 and 0025 each undo their upgrade.
pub seller_cards_undone :
    (quote : String → String) (cards : List AdminDashboardCard)
    → All IsPlain cards
    → (downgrade_seller_images (upgrade_seller_images quote cards) ≡ cards)
      × (downgrade_seller_icons (upgrade_seller_icons cards) ≡ cards)
seller_cards_undone quote cards h = (images_undone quote cards h, icons_undone quote cards h)
