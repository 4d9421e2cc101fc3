-- ===== src/Intake/Form.antt =====
-- A form that has been filled in from its drop-downs and searches.
pub mod Offered
use awa_platform.Prelude.{
  ℕ, String, ◌≡◌, refl, sym, ap, ◌∙◌, Bool, true, false, ◌&&◌, Option, none, some, List, [], ◌∷◌,
  ◌==◌, arith, is_some, zero, suc, if_split, subst,
}
use awa_platform.Prelude.Int.{pos}
use awa_platform.Prelude.Lists.{select, take, find, any, any-select, any-map}
use awa_platform.Exceptions.{Result, ok, raise, duplicate_chassis_number_error}
use awa_platform.Models.User.{User}
use awa_platform.Content.{Sql, Lang}
use awa_platform.Roles.{or_raise}
use awa_platform.Intake.{
  Lookup, VehicleModel, SubSeller, VehicleListing, Yard, Text, is_seller, get_active,
  get_active_model, user_exists, is_sub_seller_of_client, listing_clash,
}
use awa_platform.Intake.Create.{
  VehicleSubmissionCreate, lookup_exists, require, if_given, check_submission, new_listing,
  add_listing, or_duplicate, create_checked, create_vehicle_submission,
}
use awa_platform.Intake.Options.{
  LookupOptionRead, UserLookupRead, SubSellerRead, Search, option_of, active_lookup_options,
  get_models, get_makes, get_branches, get_colors, get_key_options, get_fuel_types,
  get_bidding_models, matches_client, client_read, search_clients, matches_name, search_sub_sellers,
}
use awa_platform.Intake.Form.Offered.{
  offers_id, offers_optional, option-active, model-active, bidding_model-given, finds_client,
  finds_sub_seller, client-exists, sub_seller-given,
}

-- Every id of the form is one that its drop-downs and searches have offered; `q` and `r` are the texts
-- of the two searches.
pub record IsFilled (sql : Sql) (lang : Lang) (text : Text) (search : Search) (q r : String)
    (p : VehicleSubmissionCreate) (y : Yard) : Type 0 where
  pub make : offers_id p.make_id (get_makes sql lang y) ≡ true
  pub model : offers_id p.model_id (get_models sql lang p.make_id y.models) ≡ true
  pub branch : offers_id p.branch_id (get_branches sql lang y) ≡ true
  pub color : offers_id p.color_id (get_colors sql lang y) ≡ true
  pub keys_option : offers_id p.keys_option_id (get_key_options sql lang y) ≡ true
  pub fuel_type : offers_id p.fuel_type_id (get_fuel_types sql lang y) ≡ true
  pub bidding_model : offers_optional p.bidding_model_id (get_bidding_models sql lang y) ≡ true
  pub client : finds_client text search p.client_id q y ≡ true
  pub sub_seller : finds_sub_seller text search p.sub_seller_id p.client_id r y ≡ true

-- Either a listing is added, or the chassis number is taken.
pub data Submitted (text : Text) (id created_by_id : ℕ) (p : VehicleSubmissionCreate) (y : Yard)
    : Result VehicleListing × Yard → Type 0 where
  created :
      (rows : Lookup × VehicleModel × Lookup)
      → listing_clash (new_listing text id created_by_id p rows) y.listings ≡ false
      → Submitted text id created_by_id p y (
        ok (new_listing text id created_by_id p rows),
        record y { listings = new_listing text id created_by_id p rows ∷ y.listings },
      )
  duplicate :
      (rows : Lookup × VehicleModel × Lookup)
      → listing_clash (new_listing text id created_by_id p rows) y.listings ≡ true
      → Submitted text id created_by_id p y
          (raise (duplicate_chassis_number_error p.chassis_number), y)

the_row : {A : Type 0} (o : Option A) → is_some o ≡ true → (a : A) × (o ≡ some a)
the_row none h = absurd (cc)
the_row (some a) h = (a, refl)

module _ (sql : Sql) (lang : Lang) (text : Text) (search : Search) (q r : String)
    (p : VehicleSubmissionCreate) (y : Yard) where
  checks_pass :
      IsFilled sql lang text search q r p y
      → (rows : Lookup × VehicleModel × Lookup) × (check_submission p y ≡ ok rows)
  unfolding check_submission or_raise
  checks_pass f =
      let (make, e) =
        the_row (get_active p.make_id y.makes) (option-active sql lang p.make_id y.makes f.make) in
      let (model, m) =
        the_row (get_active_model p.model_id y.models)
          (model-active sql lang p.make_id p.model_id y.models f.model) in
      let (branch, b) =
        the_row (get_active p.branch_id y.branches)
          (option-active sql lang p.branch_id y.branches f.branch) in
      let color = option-active sql lang p.color_id y.colors f.color in
      let keys = option-active sql lang p.keys_option_id y.key_options f.keys_option in
      let fuel = option-active sql lang p.fuel_type_id y.fuel_types f.fuel_type in
      let bidding =
        bidding_model-given sql lang p.bidding_model_id y.bidding_models "bidding_model_id"
          f.bidding_model in
      let known = client-exists text search p.client_id q y f.client in
      let sub =
        sub_seller-given text search p.sub_seller_id p.client_id r y "sub_seller_id" f.sub_seller in
      ((make, model, branch), simp (e, m, b, color, keys, fuel, bidding, known, sub))

  -- A form whose ids all come from its drop-downs and searches is never refused for one of them: it
  -- becomes a listing, unless its chassis number or the drawn id is taken, and then nothing changes.
  form-Submitted :
      (id created_by_id : ℕ)
      → IsFilled sql lang text search q r p y
      → Submitted text id created_by_id p y (create_vehicle_submission text id created_by_id p y)
  unfolding create_vehicle_submission create_checked add_listing
  form-Submitted id created_by_id f =
      let (rows, passed) = checks_pass f in
      let l = new_listing text id created_by_id p rows in
      subst (λ c. Submitted text id created_by_id p y (create_checked text id created_by_id p c y))
        (sym passed)
        (if_split (λ o. Submitted text id created_by_id p y (or_duplicate p.chassis_number l y o))
          (listing_clash l y.listings) none (some (record y { listings = l ∷ y.listings }))
          (duplicate rows) (created rows))
