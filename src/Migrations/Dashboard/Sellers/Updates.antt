-- ===== src/Migrations/Dashboard/Sellers/Updates.antt =====
-- The updates of the cards of the sellers, one for each pair of an address and a value.
use awa_platform.Prelude.{
  String, ◌≡◌, refl, sym, ap, subst, ◌∙◌, Bool, true, false, ◌&&◌, Option, none, List, [], ◌∷◌, map,
  if◌then◌else◌, str_eq, arith, Bool-cases, inl, inr, if_split,
}
use awa_platform.Prelude.Lists.{any, update}
use awa_platform.Admin.{AdminDashboardCard}
use awa_platform.Migrations.Dashboard.{is_seller_card, update_sellers}

-- The column after the updates: the last pair with the address counts, and only in this section.
abbrev pub last_set :
    (String → Option String)
    → List (String × String)
    → Bool
    → String
    → Option String
    → Option String
last_set g [] seller url old = old
last_set g ((u, v) ∷ rest) seller url old =
    last_set g rest seller url (if seller && str_eq url u then g v else old)

abbrev pub in_sellers : AdminDashboardCard → Bool
in_sellers c = str_eq c.section_key "sellers"

-- A column that the updates set: what it holds, and a card with another value in it.
pub record CardColumn : Type 0 where
  pub col : AdminDashboardCard → Option String
  pub put : AdminDashboardCard → Option String → AdminDashboardCard
  pub col-put : (c : AdminDashboardCard) (x : Option String) → col (put c x) ≡ x
  pub put-put : (c : AdminDashboardCard) (x y : Option String) → put (put c x) y ≡ put c y
  pub put-col : (c : AdminDashboardCard) → put c (col c) ≡ c
  pub keeps_section :
      (c : AdminDashboardCard) (x : Option String) → (put c x).section_key ≡ c.section_key
  pub keeps_url : (c : AdminDashboardCard) (x : Option String) → (put c x).url ≡ c.url

abbrev pub image_column : CardColumn
image_column = record {
  col = λ c. c.image_url;
  put = λ c x. record c { image_url = x };
  col-put = λ c x. refl;
  put-put = λ c x y. refl;
  put-col = λ c. refl;
  keeps_section = λ c x. refl;
  keeps_url = λ c x. refl;
}

abbrev pub icon_column : CardColumn
icon_column = record {
  col = λ c. c.icon_class;
  put = λ c x. record c { icon_class = x };
  col-put = λ c x. refl;
  put-put = λ c x y. refl;
  put-col = λ c. refl;
  keeps_section = λ c x. refl;
  keeps_url = λ c x. refl;
}

module _ (k : CardColumn) (g : String → Option String) where
  abbrev pub after_all : List (String × String) → AdminDashboardCard → AdminDashboardCard
  after_all pairs c = k.put c (last_set g pairs (in_sellers c) c.url (k.col c))

  after_one :
      (u v : String) (rest : List (String × String)) (c : AdminDashboardCard)
      → after_all rest (if is_seller_card u c then k.put c (g v) else c)
        ≡ after_all ((u, v) ∷ rest) c
  after_one u v rest c = elim (Bool-cases (is_seller_card u c)) [
    | inl e ↦
        subst
          (λ t.
            after_all rest (if t then k.put c (g v) else c)
            ≡ k.put c (last_set g rest (in_sellers c) c.url (if t then g v else k.col c)))
          (sym e) written
    | inr e ↦
        subst
          (λ t.
            after_all rest (if t then k.put c (g v) else c)
            ≡ k.put c (last_set g rest (in_sellers c) c.url (if t then g v else k.col c)))
          (sym e) refl
  ]
    where
      written :
          after_all rest (k.put c (g v)) ≡ k.put c (last_set g rest (in_sellers c) c.url (g v))
      written =
          k.put-put c (g v) _
          ∙ ap
              (λ s.
                k.put c (
                  last_set g rest (str_eq s "sellers") (k.put c (g v)).url (k.col (k.put c (g v)))))
              (k.keeps_section c (g v))
          ∙ ap (λ url. k.put c (last_set g rest (in_sellers c) url (k.col (k.put c (g v)))))
              (k.keeps_url c (g v))
          ∙ ap (λ x. k.put c (last_set g rest (in_sellers c) c.url x)) (k.col-put c (g v))

  after_update :
      (u v : String) (rest : List (String × String)) (cards : List AdminDashboardCard)
      → map (after_all rest) (update (is_seller_card u) (λ c. k.put c (g v)) cards)
        ≡ map (after_all ((u, v) ∷ rest)) cards
  after_update u v rest [] = refl
  after_update u v rest (c ∷ cards) =
      rw (after_update u v rest cards)
        (ap (λ d. d ∷ map (after_all ((u, v) ∷ rest)) cards) (after_one u v rest c))

  put_nothing : (cards : List AdminDashboardCard) → cards ≡ map (λ c. k.put c (k.col c)) cards
  put_nothing [] = refl
  put_nothing (c ∷ cards) = rw (← put_nothing cards) (ap (λ d. d ∷ cards) (sym (k.put-col c)))

  -- The updates treat each card on its own.
  pub updates-each :
      (pairs : List (String × String)) (cards : List AdminDashboardCard)
      → update_sellers (λ v c. k.put c (g v)) pairs cards ≡ map (after_all pairs) cards
  unfolding update_sellers
  updates-each [] cards = put_nothing cards
  updates-each ((u, v) ∷ rest) cards =
      updates-each rest (update (is_seller_card u) (λ c. k.put c (g v)) cards)
      ∙ after_update u v rest cards

pub last_set_elsewhere :
    (g : String → Option String) (pairs : List (String × String)) (url : String)
    (old : Option String)
    → last_set g pairs false url old ≡ old
last_set_elsewhere g [] url old = refl
last_set_elsewhere g ((u, v) ∷ rest) url old = last_set_elsewhere g rest url old

last_reset :
    (pairs : List (String × String)) (seller : Bool) (url : String)
    → last_set (λ v. none) pairs seller url none ≡ none
last_reset [] seller url = refl
last_reset ((u, v) ∷ rest) seller url =
    if_split (λ x. last_set (λ v. none) rest seller url x ≡ none) (seller && str_eq url u) none none
      (λ e. last_reset rest seller url) (λ e. last_reset rest seller url)

abbrev pub listed : List (String × String) → Bool → String → Bool
listed pairs seller url = any (λ (p : String × String). seller && str_eq url p.0) pairs

last_set_unlisted :
    (g : String → Option String) (pairs : List (String × String)) (seller : Bool) (url : String)
    (old : Option String)
    → listed pairs seller url ≡ false
    → last_set g pairs seller url old ≡ old
last_set_unlisted g [] seller url old h = refl
last_set_unlisted g ((u, v) ∷ rest) seller url old h =
    let first : (seller && str_eq url u) ≡ false = ground arith in
    rw first (last_set_unlisted g rest seller url old (ground arith))

last_reset_listed :
    (pairs : List (String × String)) (seller : Bool) (url : String) (old : Option String)
    → listed pairs seller url ≡ true
    → last_set (λ v. none) pairs seller url old ≡ none
last_reset_listed [] seller url old h = absurd (cc)
last_reset_listed ((u, v) ∷ rest) seller url old h =
    if_split (λ x. last_set (λ v. none) rest seller url x ≡ none) (seller && str_eq url u) none old
      (λ e. last_reset rest seller url) (λ e. last_reset_listed rest seller url old (ground arith))

-- Resetting the pairs empties a column that only they have filled.
pub last_reset_set :
    (g : String → Option String) (pairs : List (String × String)) (seller : Bool) (url : String)
    → last_set (λ v. none) pairs seller url (last_set g pairs seller url none) ≡ none
last_reset_set g pairs seller url = elim (Bool-cases (listed pairs seller url)) [
  | inl e ↦ last_reset_listed pairs seller url (last_set g pairs seller url none) e
  | inr e ↦
      last_set_unlisted (λ v. none) pairs seller url (last_set g pairs seller url none) e
      ∙ last_set_unlisted g pairs seller url none e
]
