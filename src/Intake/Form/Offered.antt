-- ===== src/Intake/Form/Offered.antt =====
-- What the drop-downs and searches of the form offer passes its checks.
use awa_platform.Prelude.{
  ℕ, String, ◌≡◌, refl, sym, ap, ◌∙◌, Bool, true, ◌&&◌, Option, none, some, List, [], ◌∷◌, ◌==◌,
  arith, is_some, zero, suc,
}
use awa_platform.Prelude.Int.{pos}
use awa_platform.Prelude.Lists.{select, take, find, any, any-select, any-map}
use awa_platform.Exceptions.{ok}
use awa_platform.Models.User.{User}
use awa_platform.Content.{Sql, Lang}
use awa_platform.Intake.{
  Lookup, VehicleModel, SubSeller, Yard, Text, is_seller, get_active, get_active_model, user_exists,
  is_sub_seller_of_client,
}
use awa_platform.Intake.Create.{lookup_exists, require, if_given}
use awa_platform.Intake.Options.{
  LookupOptionRead, UserLookupRead, SubSellerRead, Search, option_of, active_lookup_options,
  get_models, matches_client, client_read, search_clients, matches_name, search_sub_sellers,
}

module _ {ℓ} {A : Type ℓ} where
  any-take : (p : A → Bool) (n : ℕ) (xs : List A) → any p (take n xs) ≡ true → any p xs ≡ true
  any-take p zero xs h = absurd (cc)
  any-take p (suc n) [] h = absurd (cc)
  any-take p (suc n) (x ∷ xs) h = ground (arith, any-take p n xs)

  any_mono :
      (p q : A → Bool) (xs : List A)
      → ((x : A) → p x ≡ true → q x ≡ true)
      → any p xs ≡ true
      → any q xs ≡ true
  any_mono p q [] f h = absurd (cc)
  any_mono p q (x ∷ xs) f h = ground (arith, f x, any_mono p q xs f)

  any_found : (p : A → Bool) (xs : List A) → any p xs ≡ true → is_some (find p xs) ≡ true
  any_found p [] h = absurd (cc)
  any_found p (x ∷ xs) h = ground (arith, any_found p xs)

-- The id is that of one of the options.
abbrev pub offers_id : ℕ → List LookupOptionRead → Bool
offers_id id = any λ (o : LookupOptionRead). o.id == id

-- None is always offered.
abbrev pub offers_optional : Option ℕ → List LookupOptionRead → Bool
offers_optional none options = true
offers_optional (some id) options = offers_id id options

module _ (sql : Sql) (lang : Lang) where
  pub option-active :
      (id : ℕ) (rows : List Lookup)
      → offers_id id (active_lookup_options sql lang rows) ≡ true
      → is_some (get_active id rows) ≡ true
  unfolding active_lookup_options get_active
  option-active id rows h =
      any_found (λ (r : Lookup). r.id == id && r.is_active) rows
        (any_mono (λ (r : Lookup). r.is_active && r.id == id)
          (λ (r : Lookup). r.id == id && r.is_active) rows (λ r e. ground arith)
          (sym (
              any-map (λ (o : LookupOptionRead). o.id == id) (option_of lang)
                (sql.order_by (λ (r : Lookup). pos r.sort_order ∷ [])
                  (select (λ (r : Lookup). r.is_active) rows))
              ∙ sql.any-order_by (λ (r : Lookup). r.id == id)
                  (λ (r : Lookup). pos r.sort_order ∷ [])
                  (select (λ (r : Lookup). r.is_active) rows)
              ∙ any-select (λ (r : Lookup). r.id == id) (λ (r : Lookup). r.is_active) rows)
            ∙ h))

  pub model-active :
      (make_id id : ℕ) (rows : List VehicleModel)
      → offers_id id (get_models sql lang make_id rows) ≡ true
      → is_some (get_active_model id rows) ≡ true
  unfolding get_models get_active_model
  model-active make_id id rows h =
      let q : VehicleModel → Bool = λ r. r.lookup.is_active && r.make_id == make_id in
      any_found (λ (r : VehicleModel). r.lookup.id == id && r.lookup.is_active) rows
        (any_mono (λ (r : VehicleModel). q r && r.lookup.id == id)
          (λ (r : VehicleModel). r.lookup.id == id && r.lookup.is_active) rows (λ r e. ground arith)
          (sym (
              any-map (λ (o : LookupOptionRead). o.id == id)
                (λ (r : VehicleModel). option_of lang r.lookup)
                (sql.order_by (λ (r : VehicleModel). pos r.lookup.sort_order ∷ []) (select q rows))
              ∙ sql.any-order_by (λ (r : VehicleModel). r.lookup.id == id)
                  (λ (r : VehicleModel). pos r.lookup.sort_order ∷ []) (select q rows)
              ∙ any-select (λ (r : VehicleModel). r.lookup.id == id) q rows)
            ∙ h))

  pub bidding_model-given :
      (o : Option ℕ) (rows : List Lookup) (field : String)
      → offers_optional o (active_lookup_options sql lang rows) ≡ true
      → if_given (lookup_exists rows) o field ≡ ok tt
  bidding_model-given none rows field h = refl
  bidding_model-given (some id) rows field h =
      ap (λ b. require b field id) (option-active id rows h)

module _ (text : Text) (search : Search) where
  -- The id is that of a client, or of a sub-seller, that a search has found.
  abbrev pub finds_client : ℕ → String → Yard → Bool
  finds_client id q y = any (λ (c : UserLookupRead). c.id == id) (search_clients text search q y)

  abbrev pub finds_sub_seller : Option ℕ → (client_id : ℕ) → String → Yard → Bool
  finds_sub_seller none client_id q y = true
  finds_sub_seller (some id) client_id q y =
      any (λ (s : SubSellerRead). s.id == id) (search_sub_sellers text search client_id q y)

  pub client-exists :
      (id : ℕ) (q : String) (y : Yard) → finds_client id q y ≡ true → user_exists id y ≡ true
  unfolding search_clients user_exists
  client-exists id q y h =
      let found : User → Bool =
        λ u. u.is_active && (is_seller text y u && matches_client text search q u) in
      any_mono (λ (u : User). found u && u.id == id) (λ (u : User). u.id == id && u.is_active)
        y.users (λ u e. ground arith)
        (sym (
            search.any-by_first_name (λ (u : User). u.id == id) (select found y.users)
            ∙ any-select (λ (u : User). u.id == id) found y.users)
          ∙ any-take (λ (u : User). u.id == id) 20 (search.by_first_name (select found y.users))
              (sym (
                  any-map (λ (c : UserLookupRead). c.id == id) (client_read text search)
                    (take 20 (search.by_first_name (select found y.users))))
                ∙ h))

  pub sub_seller-given :
      (o : Option ℕ) (client_id : ℕ) (q : String) (y : Yard) (field : String)
      → finds_sub_seller o client_id q y ≡ true
      → if_given (λ id. is_sub_seller_of_client id client_id y) o field ≡ ok tt
  unfolding search_sub_sellers is_sub_seller_of_client
  sub_seller-given none client_id q y field h = refl
  sub_seller-given (some id) client_id q y field h =
      let found : SubSeller → Bool =
        λ s. s.is_active && (s.seller_id == client_id && matches_name text search q s) in
      let wanted : SubSeller → Bool = λ s. s.id == id in
      ap (λ b. require b field id)
        (any_mono (λ (s : SubSeller). found s && s.id == id)
          (λ (s : SubSeller). s.id == id && (s.is_active && s.seller_id == client_id)) y.sub_sellers
          (λ s e. ground arith)
          (sym (
              search.any-by_name wanted (select found y.sub_sellers)
              ∙ any-select wanted found y.sub_sellers)
            ∙ any-take wanted 20 (search.by_name (select found y.sub_sellers)) (
                sym (
                  any-map (λ (s : SubSellerRead). s.id == id)
                    (λ (s : SubSeller). record { id = s.id; name = s.name })
                    (take 20 (search.by_name (select found y.sub_sellers))))
                ∙ h)))
