-- ===== src/Content/Sections.antt =====
-- services/content_service.py and api/v1/content.py: the other sections of the home page, and the
-- footer.
use awa_platform.Prelude.{ℕ, String, Option, none, some, List, [], ◌∷◌, map}
use awa_platform.Prelude.Int.{ℤ}
use awa_platform.Prelude.Lists.{select}
use awa_platform.Api.{Reply, reply, http_exception}
use awa_platform.Content.{
  Sql, Lang, or_none, pick, AuctionCategory, FeaturedAuction, HowItWorksStep, ValueAddedService,
  FooterSettings, FooterLink,
}
use awa_platform.Content.Featured.{FeaturedAuctionTabRead, get_featured_auction_tabs}

pub record AuctionCategoryRead : Type 0 where
  pub id : ℕ
  pub name : String
  pub slug : String
  pub icon_url : Option String
  pub link_url : String

pub record HowItWorksStepRead : Type 0 where
  pub id : ℕ
  pub step_number : ℤ
  pub title : String
  pub description : String
  pub icon_url : Option String

pub record ValueAddedServiceRead : Type 0 where
  pub id : ℕ
  pub name : String
  pub description : Option String
  pub icon_url : Option String
  pub link_url : String

pub record FooterLinkRead : Type 0 where
  pub id : ℕ
  pub section : String
  pub label : String
  pub url : String

pub record FooterRead : Type 0 where
  pub about_text : String
  pub copyright : String
  pub support_phone : Option String
  pub support_email : Option String
  pub facebook_url : Option String
  pub instagram_url : Option String
  pub youtube_url : Option String
  pub app_store_url : Option String
  pub google_play_url : Option String
  pub links : List FooterLinkRead

pub record HomeContentRead : Type 0 where
  pub auction_categories : List AuctionCategoryRead
  pub featured_auctions : List FeaturedAuctionTabRead
  pub how_it_works : List HowItWorksStepRead
  pub value_added_services : List ValueAddedServiceRead

-- The tables that the pages read.
pub record Site : Type 0 where
  pub auction_categories : List AuctionCategory
  pub featured_auctions : List FeaturedAuction
  pub how_it_works_steps : List HowItWorksStep
  pub value_added_services : List ValueAddedService
  pub footer_settings : List FooterSettings
  pub footer_links : List FooterLink

module _ (sql : Sql) (lang : Lang) where
  unfoldable pub get_auction_categories : List AuctionCategory → List AuctionCategoryRead
  get_auction_categories rows =
      map
        (λ (r : AuctionCategory). record {
          id = r.id;
          name = pick (some r.name_en) (some r.name_ar) lang;
          slug = r.slug;
          icon_url = r.icon_url;
          link_url = r.link_url;
        })
        (sql.order_by (λ (r : AuctionCategory). r.sort_order ∷ [])
          (select (λ (r : AuctionCategory). r.is_active) rows))

  unfoldable pub get_how_it_works : List HowItWorksStep → List HowItWorksStepRead
  get_how_it_works rows =
      map
        (λ (r : HowItWorksStep). record {
          id = r.id;
          step_number = r.step_number;
          title = pick (some r.title_en) (some r.title_ar) lang;
          description = pick (some r.description_en) (some r.description_ar) lang;
          icon_url = r.icon_url;
        })
        (sql.order_by (λ (r : HowItWorksStep). r.sort_order ∷ [])
          (select (λ (r : HowItWorksStep). r.is_active) rows))

  unfoldable pub get_value_added_services : List ValueAddedService → List ValueAddedServiceRead
  get_value_added_services rows =
      map
        (λ (r : ValueAddedService). record {
          id = r.id;
          name = pick (some r.name_en) (some r.name_ar) lang;
          description = or_none (pick r.description_en r.description_ar lang);
          icon_url = r.icon_url;
          link_url = r.link_url;
        })
        (sql.order_by (λ (r : ValueAddedService). r.sort_order ∷ [])
          (select (λ (r : ValueAddedService). r.is_active) rows))

  abbrev pub footer_link : FooterLink → FooterLinkRead
  footer_link r = record {
    id = r.id;
    section = r.section;
    label = pick (some r.label_en) (some r.label_ar) lang;
    url = r.url;
  }

  -- `select(FooterSettings).limit(1)`: a row of the table, or none.
  abbrev pub first_row : List FooterSettings → Option FooterSettings
  first_row [] = none
  first_row (row ∷ rows) = some row

  abbrev pub footer_with : Option FooterSettings → List FooterLink → Option FooterRead
  footer_with none links = none
  footer_with (some s) links = some (record {
    about_text = pick (some s.about_text_en) (some s.about_text_ar) lang;
    copyright = pick (some s.copyright_en) (some s.copyright_ar) lang;
    support_phone = s.support_phone;
    support_email = s.support_email;
    facebook_url = s.facebook_url;
    instagram_url = s.instagram_url;
    youtube_url = s.youtube_url;
    app_store_url = s.app_store_url;
    google_play_url = s.google_play_url;
    links = map footer_link (
        sql.order_by (λ (r : FooterLink). r.sort_order ∷ [])
          (select (λ (r : FooterLink). r.is_active) links));
  })

  unfoldable pub get_footer : List FooterSettings → List FooterLink → Option FooterRead
  get_footer settings links = footer_with (first_row settings) links

  -- The endpoint answers 404 without settings.
  abbrev pub found_footer : Option FooterRead → Reply FooterRead
  found_footer none = http_exception 404
  found_footer (some footer) = reply footer

  unfoldable pub footer_endpoint : Site → Reply FooterRead
  footer_endpoint site = found_footer (get_footer site.footer_settings site.footer_links)

  unfoldable pub get_home : Site → HomeContentRead
  get_home site = record {
    auction_categories = get_auction_categories site.auction_categories;
    featured_auctions = get_featured_auction_tabs sql lang site.featured_auctions;
    how_it_works = get_how_it_works site.how_it_works_steps;
    value_added_services = get_value_added_services site.value_added_services;
  }
