-- ===== src/Content/Items.antt =====
-- Which featured auctions are on show under a tab, and where their live data come from.
use awa_platform.Prelude.{
  ℕ, String, ◌≡◌, refl, sym, ap, subst, ◌∙◌, Bool, false, ◌&&◌, ◌||◌, Option, none, some, List, [],
  ◌∷◌, arith, Bool-cases, inl, inr, ==_iff, ◌==◌,
}
use awa_platform.Prelude.Int.{ℤ}
use awa_platform.Prelude.Lists.{any, select, any-select}
use awa_platform.Models.Auction.{Auction}
use awa_platform.Content.{Sql, Lang, FeaturedAuction, PublicListing}
use awa_platform.Content.Featured.{
  FeaturedAuctionItemRead, agreeing, auction, vehicle_listing, item_of_vehicle, item_with,
  featured_auction_item_to_schema, is_on_show, and_item, items_of, in_tab,
  get_featured_auction_items,
}

abbrev pub holds_of : {A : Type 0} → (A → Bool) → Option A → Bool
holds_of p none = false
holds_of p (some a) = p a

some_inj : {A : Type 0} {a b : A} → some a ≡ some b → a ≡ b
some_inj h = cc

module _ (auctions : List Auction) (listings : List PublicListing) (lang : Lang) where
  -- The row has an active vehicle, and its item passes the test.
  abbrev pub shows : (FeaturedAuctionItemRead → Bool) → FeaturedAuction → Bool
  shows p row =
      is_on_show auctions listings lang (vehicle_listing auctions listings lang row)
      && holds_of p (featured_auction_item_to_schema auctions listings lang row)

  any-and_item :
      (p : FeaturedAuctionItemRead → Bool) (o : Option FeaturedAuctionItemRead)
      (items : List FeaturedAuctionItemRead)
      → any p (and_item auctions listings lang o items) ≡ (holds_of p o || any p items)
  any-and_item p none items = refl
  any-and_item p (some i) items = refl

  any-items_of :
      (p : FeaturedAuctionItemRead → Bool) (rows : List FeaturedAuction)
      → any p (items_of auctions listings lang rows) ≡ any (shows p) rows
  unfolding items_of
  any-items_of p [] = refl
  any-items_of p (row ∷ rows) = ground (
    arith,
    any-and_item p (featured_auction_item_to_schema auctions listings lang row)
        (items_of auctions listings lang rows),
    any-items_of p rows,
  )

  -- The items of a tab are exactly those of the active rows of its category that are linked to an
  -- active vehicle: any test on items is passed by one of the answer exactly if it is passed by the
  -- item of one of these rows.
  featured_items_exact :
      (sql : Sql) (key : String) (rows : List FeaturedAuction) (p : FeaturedAuctionItemRead → Bool)
      → any p (get_featured_auction_items sql auctions listings lang key rows)
        ≡ any (λ row. in_tab sql key row && shows p row) rows
  unfolding get_featured_auction_items
  featured_items_exact sql key rows p =
      any-items_of p (
        sql.order_by (λ (r : FeaturedAuction). r.sort_order ∷ r.created_at ∷ [])
          (select (in_tab sql key) rows))
      ∙ sql.any-order_by (shows p) (λ (r : FeaturedAuction). r.sort_order ∷ r.created_at ∷ [])
          (select (in_tab sql key) rows)
      ∙ any-select (shows p) (in_tab sql key) rows

  -- The auction whose live data an item shows: that of its row, for the row's own vehicle.
  pub data Live (row : FeaturedAuction) : Option String → Option ℤ → Type 0 where
    not_live : Live row none none
    live :
        (a : Auction)
        → auction auctions listings lang row ≡ some a
        → row.vehicle_listing_id ≡ some a.vehicle_id
        → Live row (some a.status) (some a.starting_price)

  Live-with :
      (row : FeaturedAuction) (vehicle : PublicListing) (o : Option Auction) (listing : Option ℕ)
      → auction auctions listings lang row ≡ o
      → row.vehicle_listing_id ≡ listing
      → let item = item_with auctions listings lang row vehicle (agreeing listing o) in
        Live row item.status item.starting_price
  unfolding agreeing
  Live-with row vehicle none listing e f = not_live
  Live-with row vehicle (some a) none e f = not_live
  Live-with row vehicle (some a) (some id) e f = elim (Bool-cases (a.vehicle_id == id)) [
    | inl i ↦ rw i (live a e (f ∙ ap some (sym ((==_iff a.vehicle_id id).0 i))))
    | inr i ↦ rw i not_live
  ]

  item-Live :
      (row : FeaturedAuction) (o : Option PublicListing) (item : FeaturedAuctionItemRead)
      → item_of_vehicle auctions listings lang row o ≡ some item
      → Live row item.status item.starting_price
  item-Live row none item h = absurd (cc)
  item-Live row (some vehicle) item h =
      subst (λ (i : FeaturedAuctionItemRead). Live row i.status i.starting_price) (some_inj h)
        (Live-with row vehicle (auction auctions listings lang row) row.vehicle_listing_id refl
          refl)

  -- An item shows a status and a starting price only from the auction that its row is linked to, and
  -- only if that auction is for the vehicle of the row.
  featured_item-Live :
      (row : FeaturedAuction) (item : FeaturedAuctionItemRead)
      → featured_auction_item_to_schema auctions listings lang row ≡ some item
      → Live row item.status item.starting_price
  unfolding featured_auction_item_to_schema
  featured_item-Live row item h = item-Live row (vehicle_listing auctions listings lang row) item h
