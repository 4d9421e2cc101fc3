-- ===== src/Content/Tests.antt =====
-- A small home page.
use awa_platform.Prelude.{
  ℕ, String, ◌≡◌, refl, true, false, ◌&&◌, Option, none, some, List, [], ◌∷◌, str_eq,
}
use awa_platform.Prelude.Int.{pos}
use awa_platform.Prelude.Lists.{any}
use awa_platform.Models.Auction.{Auction}
use awa_platform.Content.{Sql, en, ar, pick, MenuItem, FeaturedAuction, PublicListing}
use awa_platform.Content.Menu.{collect, active_children, menu_item_to_schema, is_top, get_menu}
use awa_platform.Content.Levels.{raises, OnlyLazyLoad, has_child, get_menu-raises_iff}
use awa_platform.Content.Featured.{items_of, get_featured_auction_items}

-- No order, and `=` as equality.
abbrev pub sql : Sql
sql = record {
  order_by = λ columns rows. rows;
  text_eq = str_eq;
  any-order_by = λ p columns rows. refl;
}

abbrev entry : ℕ → Option ℕ → MenuItem
entry id parent = record {
  id = id;
  parent_id = parent;
  label_en = "Cars";
  label_ar = "";
  url = "/";
  icon_class = none;
  item_type = "";
  visibility = "all";
  opens_new_tab = false;
  sort_order = pos 0;
  is_active = true;
}

-- The Arabic label is not set.
falls_back : pick (some "Cars") (some "") ar ≡ "Cars"
unfolding pick
falls_back = refl

abbrev deep : List MenuItem
deep = entry 1 none ∷ entry 2 (some 1) ∷ entry 3 (some 2) ∷ []

deep_menu_raises : raises (get_menu sql deep en) ≡ true
unfolding get_menu collect menu_item_to_schema active_children
deep_menu_raises = refl

get_menu-raises_iff_example :
    (raises (get_menu sql deep en)
      ≡ any
          (λ a. is_top sql deep en a && has_child sql deep en (has_child sql deep en (λ c. true)) a)
          deep)
    × OnlyLazyLoad (get_menu sql deep en)
get_menu-raises_iff_example = get_menu-raises_iff sql deep en

abbrev featured : ℕ → String → FeaturedAuction
featured id key = record {
  id = id;
  auction_id = some 7;
  vehicle_listing_id = some 1;
  badge_en = none;
  badge_ar = none;
  category_key = key;
  category_label_en = "Sedans";
  category_label_ar = "";
  visibility = "all";
  category_sort_order = pos 0;
  sort_order = pos 0;
  is_active = true;
  created_at = pos 0;
}

abbrev sedan : PublicListing
sedan = record {
  id = 1;
  title_en = "Sedan";
  title_ar = "";
  image_url = none;
  detail_url = "/1";
  lot_number = none;
  mileage = none;
  location_en = none;
  location_ar = none;
  bid_amount = none;
  countdown_label = none;
  is_active = true;
}

abbrev sale : Auction
sale = record {
  id = 7;
  vehicle_id = 1;
  status = "live";
  starting_price = pos 100;
  reserve_price = none;
  starts_at = 0;
  ends_at = 10;
}

abbrev placements : List FeaturedAuction
placements = featured 1 "sedans" ∷ featured 2 "" ∷ featured 3 "sedans" ∷ []

-- The tab of the rows without a category has no items.
no_items : get_featured_auction_items sql (sale ∷ []) (sedan ∷ []) en "newly_listed" placements ≡ []
unfolding get_featured_auction_items items_of
no_items = refl
