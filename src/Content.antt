-- ===== src/Content.antt =====
-- models/content.py and schemas/content.py: the rows of the home page and what the API shows of
-- them, with the choice of the language. The row of a listing carries the columns that the home
-- page reads. ORDER BY and the `=` of the collation are parameters.
pub mod Menu
pub mod Featured
pub mod Sections
pub mod Levels
pub mod Tabs
pub mod Items
pub mod Tests
use awa_platform.Prelude.{ℕ, String, ◌≡◌, Bool, Option, none, some, List, if◌then◌else◌, str_eq}
use awa_platform.Prelude.Int.{ℤ}
use awa_platform.Prelude.Lists.{any}

-- `.order_by(...)` with some columns, which keeps the rows, and `==` on a text column.
pub record Sql : Type 1 where
  pub order_by : {A : Type 0} → (A → List ℤ) → List A → List A
  pub text_eq : String → String → Bool
  pub any-order_by :
      {A : Type 0} (p : A → Bool) (columns : A → List ℤ) (rows : List A)
      → any p (order_by columns rows) ≡ any p rows

pub data Lang : Type 0 where
  en ar : Lang

-- `x or default` of a string that may be None.
abbrev pub or_else : Option String → String → String
or_else none default = default
or_else (some s) default = if str_eq s "" then default else s

-- `x or None`
abbrev pub or_none : String → Option String
or_none s = if str_eq s "" then none else some s

-- The localised string; English where the Arabic one is not set.
unfoldable pub pick : Option String → Option String → Lang → String
pick text_en text_ar en = or_else text_en ""
pick text_en text_ar ar = or_else text_ar (or_else text_en "")

pub record MenuItem : Type 0 where
  pub id : ℕ
  pub parent_id : Option ℕ
  pub label_en : String
  pub label_ar : String
  pub url : String
  pub icon_class : Option String
  pub item_type : String
  pub visibility : String
  pub opens_new_tab : Bool
  pub sort_order : ℤ
  pub is_active : Bool

pub record AuctionCategory : Type 0 where
  pub id : ℕ
  pub name_en : String
  pub name_ar : String
  pub slug : String
  pub icon_url : Option String
  pub link_url : String
  pub sort_order : ℤ
  pub is_active : Bool

pub record FeaturedAuction : Type 0 where
  pub id : ℕ
  pub auction_id : Option ℕ
  pub vehicle_listing_id : Option ℕ
  pub badge_en : Option String
  pub badge_ar : Option String
  pub category_key : String
  pub category_label_en : String
  pub category_label_ar : String
  pub visibility : String
  pub category_sort_order : ℤ
  pub sort_order : ℤ
  pub is_active : Bool
  pub created_at : ℤ

pub record PublicListing : Type 0 where
  pub id : ℕ
  pub title_en : String
  pub title_ar : String
  pub image_url : Option String
  pub detail_url : String
  pub lot_number : Option String
  pub mileage : Option String
  pub location_en : Option String
  pub location_ar : Option String
  pub bid_amount : Option String
  pub countdown_label : Option String
  pub is_active : Bool

pub record HowItWorksStep : Type 0 where
  pub id : ℕ
  pub step_number : ℤ
  pub title_en : String
  pub title_ar : String
  pub description_en : String
  pub description_ar : String
  pub icon_url : Option String
  pub sort_order : ℤ
  pub is_active : Bool

pub record ValueAddedService : Type 0 where
  pub id : ℕ
  pub name_en : String
  pub name_ar : String
  pub description_en : Option String
  pub description_ar : Option String
  pub icon_url : Option String
  pub link_url : String
  pub sort_order : ℤ
  pub is_active : Bool

pub record FooterSettings : Type 0 where
  pub id : ℕ
  pub about_text_en : String
  pub about_text_ar : String
  pub copyright_en : String
  pub copyright_ar : String
  pub support_phone : Option String
  pub support_email : Option String
  pub facebook_url : Option String
  pub instagram_url : Option String
  pub youtube_url : Option String
  pub app_store_url : Option String
  pub google_play_url : Option String

pub record FooterLink : Type 0 where
  pub id : ℕ
  pub section : String
  pub label_en : String
  pub label_ar : String
  pub url : String
  pub sort_order : ℤ
  pub is_active : Bool
