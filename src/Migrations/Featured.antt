-- ===== src/Migrations/Featured.antt =====
-- alembic/versions/0006_vehicle_listings.py and 0007_remove_featured_auction_card_columns.py: the
-- cards of the featured auctions move to a table of listings.
pub mod Split
use awa_platform.Prelude.{
  ℕ, String, ◌+◌, Bool, true, false, not, Option, none, some, List, [], ◌∷◌, ◌++◌, map, ◌==◌,
  str_eq, is_some, if◌then◌else◌,
}
use awa_platform.Prelude.Lists.{select, update}

-- The columns of a card, CARD_COLUMNS of 0007.
pub record Card : Type 0 where
  pub title_en : String
  pub title_ar : String
  pub image_url : Option String
  pub detail_url : Option String
  pub lot_number : Option String
  pub mileage : Option String
  pub location_en : Option String
  pub location_ar : Option String
  pub bid_amount : Option String
  pub countdown_label : Option String

-- A row of `featured_auctions` before 0006, where `columns` are the columns that stay as they are.
pub record Placed (Columns : Type 0) : Type 0 where
  pub id : ℕ
  pub card : Card
  pub columns : Columns

-- The same row with the new column.
pub record Placement (Columns : Type 0) : Type 0 where
  pub id : ℕ
  pub card : Card
  pub vehicle_listing_id : Option ℕ
  pub columns : Columns

pub record Listing : Type 0 where
  pub id : ℕ
  pub title_en : String
  pub title_ar : String
  pub image_url : Option String
  pub detail_url : String
  pub lot_number : Option String
  pub mileage : Option String
  pub location_en : Option String
  pub location_ar : Option String
  pub bid_amount : Option String
  pub countdown_label : Option String
  pub is_active : Bool

-- `row["detail_url"] or "#"`
abbrev pub or_hash : Option String → String
or_hash none = "#"
or_hash (some url) = if str_eq url "" then "#" else url

-- INSERT INTO vehicle_listings
abbrev pub listing_of : ℕ → Card → Listing
listing_of id c = record {
  id = id;
  title_en = c.title_en;
  title_ar = c.title_ar;
  image_url = c.image_url;
  detail_url = or_hash c.detail_url;
  lot_number = c.lot_number;
  mileage = c.mileage;
  location_en = c.location_en;
  location_ar = c.location_ar;
  bid_amount = c.bid_amount;
  countdown_label = c.countdown_label;
  is_active = true;
}

module _ {C : Type 0} where
  -- UPDATE featured_auctions SET vehicle_listing_id = ... WHERE id = ...
  abbrev pub link_placement : (listing_id : ℕ) → Placement C → Placement C
  link_placement listing_id p = record p { vehicle_listing_id = some listing_id }

  -- The loop of `_backfill_vehicle_listings`; `uuid n` is what the n-th call of uuid4 returns.
  unfoldable pub backfill_rows :
      (uuid : ℕ → ℕ) (n : ℕ)
      → (featured_rows : List (Placement C)) → List Listing
      → List (Placement C)
      → List Listing × List (Placement C)
  backfill_rows uuid n [] listings placements = (listings, placements)
  backfill_rows uuid n (row ∷ rest) listings placements =
      backfill_rows uuid (n + 1) rest (listings ++ listing_of (uuid n) row.card ∷ [])
        (update (λ (p : Placement C). p.id == row.id) (link_placement (uuid n)) placements)

  abbrev pub unlinked : Placed C → Placement C
  unlinked p = record { id = p.id; card = p.card; vehicle_listing_id = none; columns = p.columns }

  -- `upgrade` of 0006: the table is new, and the new column is NULL.
  unfoldable pub upgrade_listings :
      (uuid : ℕ → ℕ) → List (Placed C) → List Listing × List (Placement C)
  upgrade_listings uuid rows =
      let placements = map unlinked rows in
      backfill_rows uuid 0
        (select (λ (p : Placement C). not (is_some p.vehicle_listing_id)) placements) [] placements

-- A row without the columns of the card.
pub record Slot (Columns : Type 0) : Type 0 where
  pub id : ℕ
  pub vehicle_listing_id : Option ℕ
  pub columns : Columns

-- `upgrade` of 0007.
unfoldable pub drop_card_columns : {C : Type 0} → List (Placement C) → List (Slot C)
drop_card_columns [] = []
drop_card_columns (p ∷ placements) =
    record { id = p.id; vehicle_listing_id = p.vehicle_listing_id; columns = p.columns }
    ∷ drop_card_columns placements
