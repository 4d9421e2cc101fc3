-- ===== src/Content/Featured.antt =====
-- services/content_service.py: the tabs of the featured auctions and the items of a tab.
use awa_platform.Prelude.{
  ℕ, String, ◌&&◌, Bool, false, Option, none, some, List, [], ◌∷◌, ◌==◌, is_some, if◌then◌else◌,
  str_eq, ◌++◌,
}
use awa_platform.Prelude.Int.{ℤ}
use awa_platform.Prelude.Lists.{select, any, find}
use awa_platform.Models.Auction.{Auction}
use awa_platform.Content.{Sql, Lang, or_else, or_none, pick, FeaturedAuction, PublicListing}

pub record FeaturedAuctionTabRead : Type 0 where
  pub id : ℕ
  pub category_key : String
  pub category_label : String
  pub visibility : String
  pub sort_order : ℤ

pub record FeaturedAuctionItemRead : Type 0 where
  pub id : ℕ
  pub auction_id : Option ℕ
  pub vehicle_listing_id : Option ℕ
  pub title : String
  pub image_url : Option String
  pub badge : Option String
  pub category_key : String
  pub category_label : String
  pub visibility : String
  pub detail_url : String
  pub lot_number : Option String
  pub mileage : Option String
  pub location : Option String
  pub bid_amount : Option String
  pub countdown_label : Option String
  pub category_sort_order : ℤ
  pub status : Option String
  pub starting_price : Option ℤ

-- `row.category_key or "newly_listed"`
abbrev pub key_of : FeaturedAuction → String
key_of row = or_else (some row.category_key) "newly_listed"

abbrev pub label_of : Lang → FeaturedAuction → String
label_of lang row = pick (some row.category_label_en) (some row.category_label_ar) lang

-- `key in tabs_by_key`
abbrev pub has_tab : String → List FeaturedAuctionTabRead → Bool
has_tab key = any λ (t : FeaturedAuctionTabRead). str_eq t.category_key key

abbrev pub tab_of : Lang → FeaturedAuction → FeaturedAuctionTabRead
tab_of lang row = record {
  id = row.id;
  category_key = key_of row;
  category_label = label_of lang row;
  visibility = or_else (some row.visibility) "all";
  sort_order = row.category_sort_order;
}

-- One round of the loop: the dict keeps the order in which its keys were inserted.
abbrev pub add_tab :
    Lang → FeaturedAuction → List FeaturedAuctionTabRead → List FeaturedAuctionTabRead
add_tab lang row tabs = if has_tab (key_of row) tabs then tabs else tabs ++ (tab_of lang row ∷ [])

unfoldable pub collect_tabs :
    Lang → List FeaturedAuction → List FeaturedAuctionTabRead → List FeaturedAuctionTabRead
collect_tabs lang [] tabs = tabs
collect_tabs lang (row ∷ rows) tabs = collect_tabs lang rows (add_tab lang row tabs)

abbrev pub linked : {A : Type 0} → (ℕ → A → Bool) → Option ℕ → List A → Option A
linked has_id none rows = none
linked has_id (some id) rows = find (has_id id) rows

abbrev pub has_auction_id : ℕ → Auction → Bool
has_auction_id id a = a.id == id

abbrev pub has_listing_id : ℕ → PublicListing → Bool
has_listing_id id v = v.id == id

-- `auction.vehicle_id != row.vehicle_listing_id` drops the auction.
unfoldable pub agreeing : Option ℕ → Option Auction → Option Auction
agreeing listing none = none
agreeing none (some a) = none
agreeing (some id) (some a) = if a.vehicle_id == id then some a else none

abbrev pub live_status : Option Auction → Option String
live_status none = none
live_status (some a) = some a.status

abbrev pub starting_price_of : Option Auction → Option ℤ
starting_price_of none = none
starting_price_of (some a) = some a.starting_price

module _ (auctions : List Auction) (listings : List PublicListing) (lang : Lang) where
  -- The relationships of a row.
  abbrev pub auction : FeaturedAuction → Option Auction
  auction row = linked has_auction_id row.auction_id auctions

  abbrev pub vehicle_listing : FeaturedAuction → Option PublicListing
  vehicle_listing row = linked has_listing_id row.vehicle_listing_id listings

  abbrev pub item_with : FeaturedAuction → PublicListing → Option Auction → FeaturedAuctionItemRead
  item_with row vehicle live = record {
    id = row.id;
    auction_id = row.auction_id;
    vehicle_listing_id = row.vehicle_listing_id;
    title = pick (some vehicle.title_en) (some vehicle.title_ar) lang;
    image_url = vehicle.image_url;
    badge = or_none (pick row.badge_en row.badge_ar lang);
    category_key = key_of row;
    category_label = label_of lang row;
    visibility = or_else (some row.visibility) "all";
    detail_url = vehicle.detail_url;
    lot_number = vehicle.lot_number;
    mileage = vehicle.mileage;
    location = or_none (pick vehicle.location_en vehicle.location_ar lang);
    bid_amount = vehicle.bid_amount;
    countdown_label = vehicle.countdown_label;
    category_sort_order = row.category_sort_order;
    status = live_status live;
    starting_price = starting_price_of live;
  }

  abbrev pub item_of_vehicle :
      FeaturedAuction → Option PublicListing → Option FeaturedAuctionItemRead
  item_of_vehicle row none = none
  item_of_vehicle row (some vehicle) =
      some (item_with row vehicle (agreeing row.vehicle_listing_id (auction row)))

  unfoldable pub featured_auction_item_to_schema : FeaturedAuction → Option FeaturedAuctionItemRead
  featured_auction_item_to_schema row = item_of_vehicle row (vehicle_listing row)

  -- `vehicle is None or not vehicle.is_active` skips the row.
  abbrev pub is_on_show : Option PublicListing → Bool
  is_on_show none = false
  is_on_show (some vehicle) = vehicle.is_active

  abbrev pub and_item :
      Option FeaturedAuctionItemRead → List FeaturedAuctionItemRead → List FeaturedAuctionItemRead
  and_item none items = items
  and_item (some item) items = item ∷ items

  unfoldable pub items_of : List FeaturedAuction → List FeaturedAuctionItemRead
  items_of [] = []
  items_of (row ∷ rows) =
      let rest = items_of rows in
      if is_on_show (vehicle_listing row)
      then and_item (featured_auction_item_to_schema row) rest
      else rest

module _ (sql : Sql) where
  -- The query of the tabs.
  abbrev pub featured_rows : List FeaturedAuction → List FeaturedAuction
  featured_rows rows =
      sql.order_by (λ (r : FeaturedAuction). r.category_sort_order ∷ r.sort_order ∷ [])
        (select (λ (r : FeaturedAuction). r.is_active) rows)

  unfoldable pub get_featured_auction_tabs :
      Lang → List FeaturedAuction → List FeaturedAuctionTabRead
  get_featured_auction_tabs lang rows = collect_tabs lang (featured_rows rows) []

  -- The condition of the query of the items.
  abbrev pub in_tab : String → FeaturedAuction → Bool
  in_tab key row =
      row.is_active && (sql.text_eq row.category_key key && is_some row.vehicle_listing_id)

  unfoldable pub get_featured_auction_items :
      List Auction
      → List PublicListing
      → Lang
      → (category_key : String) → List FeaturedAuction
      → List FeaturedAuctionItemRead
  get_featured_auction_items auctions listings lang category_key rows =
      items_of auctions listings lang (
        sql.order_by (λ (r : FeaturedAuction). r.sort_order ∷ r.created_at ∷ [])
          (select (in_tab category_key) rows))
