-- ===== src/Migrations/Featured/Split.antt =====
-- Each featured auction shows the same card before and after the revisions 0006 and 0007.
use awa_platform.Prelude.{
  ℕ, suc, ◌+◌, ◌≤◌, ◌≡◌, refl, sym, ap, ◌∙◌, subst, Bool, true, false, not, ◌||◌, Option, none,
  some, List, [], ◌∷◌, ◌++◌, map, ◌==◌, ==_iff, arith, Bool-cases, inl, inr, is_some,
}
use awa_platform.Prelude.Lists.{any, find, select, update}
use awa_platform.Migrations.Roles.{unique}
use awa_platform.Migrations.Featured.{
  Card, Placed, Placement, Listing, or_hash, listing_of, link_placement, backfill_rows, unlinked,
  upgrade_listings, Slot, drop_card_columns,
}

append_assoc :
    {A : Type 0} (xs : List A) (y : A) (zs : List A) → (xs ++ y ∷ []) ++ zs ≡ xs ++ y ∷ zs
append_assoc [] y zs = refl
append_assoc (x ∷ xs) y zs = ap (◌∷◌ x) (append_assoc xs y zs)

append_nothing : {A : Type 0} (xs : List A) → xs ++ [] ≡ xs
append_nothing [] = refl
append_nothing (x ∷ xs) = ap (◌∷◌ x) (append_nothing xs)

module _ {C : Type 0} where
  abbrev has_row : ℕ → List (Placement C) → Bool
  has_row id rows = any (λ (p : Placement C). id == p.id) rows

  abbrev pub AreDistinct : List (Placement C) → Type 0
  AreDistinct rows = unique (λ (p q : Placement C). p.id == q.id) rows ≡ true

  -- The rows of the new table, and the rows that refer to them.
  abbrev listings_from : (uuid : ℕ → ℕ) (n : ℕ) → List (Placement C) → List Listing
  listings_from uuid n [] = []
  listings_from uuid n (p ∷ rows) = listing_of (uuid n) p.card ∷ listings_from uuid (n + 1) rows

  abbrev linked_from : (uuid : ℕ → ℕ) (n : ℕ) → List (Placement C) → List (Placement C)
  linked_from uuid n [] = []
  linked_from uuid n (p ∷ rows) = link_placement (uuid n) p ∷ linked_from uuid (n + 1) rows

  update_absent :
      (id : ℕ) (f : Placement C → Placement C) (rows : List (Placement C))
      → has_row id rows ≡ false
      → update (λ (p : Placement C). p.id == id) f rows ≡ rows
  update_absent id f [] h = refl
  update_absent id f (p ∷ rows) h = ground (arith, update_absent id f rows)

  -- The update reaches the one row with the id.
  update_at :
      (f : Placement C → Placement C) (done : List (Placement C)) (row : Placement C)
      (rest : List (Placement C))
      → has_row row.id done ≡ false
      → has_row row.id rest ≡ false
      → update (λ (p : Placement C). p.id == row.id) f (done ++ row ∷ rest) ≡ done ++ f row ∷ rest
  update_at f [] row rest h k =
      rw ((==_iff row.id row.id).1 refl, update_absent row.id f rest k) refl
  update_at f (p ∷ done) row rest h k = ground (arith, update_at f done row rest)

  -- None of the rows to come is among those that are done.
  abbrev AreApart : List (Placement C) → List (Placement C) → Type 0
  AreApart [] done = Unit
  AreApart (p ∷ rows) done = (has_row p.id done ≡ false) × AreApart rows done

  has_row-append :
      (id : ℕ) (rows : List (Placement C)) (p : Placement C)
      → has_row id (rows ++ p ∷ []) ≡ (has_row id rows || id == p.id)
  has_row-append id [] p = ground arith
  has_row-append id (q ∷ rows) p = ground (arith, has_row-append id rows p)

  apart_next :
      (f : Placement C) (row : Placement C) (rows done : List (Placement C))
      → f.id ≡ row.id
      → has_row row.id rows ≡ false
      → AreApart rows done
      → AreApart rows (done ++ f ∷ [])
  apart_next f row [] done e h k = tt
  apart_next f row (p ∷ rows) done e h (k, ks) =
      (ground (arith, has_row-append p.id done f), apart_next f row rows done e (ground arith) ks)

  backfilled :
      (uuid : ℕ → ℕ) (n : ℕ) (todo done : List (Placement C)) (listings : List Listing)
      → AreDistinct todo
      → AreApart todo done
      → backfill_rows uuid n todo listings (done ++ todo)
        ≡ (listings ++ listings_from uuid n todo, done ++ linked_from uuid n todo)
  unfolding backfill_rows
  backfilled uuid n [] done listings h k =
      ap (λ (ls : List Listing). (ls, done ++ [])) (sym (append_nothing listings))
  backfilled uuid n (row ∷ rest) done listings h (k, ks) =
      let fresh : has_row row.id rest ≡ false = ground arith in
      let more : AreDistinct rest = ground arith in
      let row' = link_placement (uuid n) row in
      ap (backfill_rows uuid (n + 1) rest (listings ++ listing_of (uuid n) row.card ∷ [])) (
        update_at (link_placement (uuid n)) done row rest k fresh
        ∙ sym (append_assoc done row' rest))
      ∙ backfilled uuid (n + 1) rest (done ++ row' ∷ [])
          (listings ++ listing_of (uuid n) row.card ∷ []) more
          (apart_next row' row rest done refl fresh ks)
      ∙ ap (λ (ls : List Listing). (ls, (done ++ row' ∷ []) ++ linked_from uuid (n + 1) rest))
          (append_assoc listings (listing_of (uuid n) row.card) (listings_from uuid (n + 1) rest))
      ∙ ap (λ (ps : List (Placement C)). (listings ++ listings_from uuid n (row ∷ rest), ps))
          (append_assoc done row' (linked_from uuid (n + 1) rest))

-- The card of a listing, and the card of a placement with the address that stands for none.
abbrev pub card_of : Listing → Card
card_of l = record {
  title_en = l.title_en;
  title_ar = l.title_ar;
  image_url = l.image_url;
  detail_url = some l.detail_url;
  lot_number = l.lot_number;
  mileage = l.mileage;
  location_en = l.location_en;
  location_ar = l.location_ar;
  bid_amount = l.bid_amount;
  countdown_label = l.countdown_label;
}

abbrev pub with_detail : Card → Card
with_detail c = record c { detail_url = some (or_hash c.detail_url) }

abbrev card_or_none : Option Listing → Option Card
card_or_none none = none
card_or_none (some l) = some (card_of l)

abbrev card_at : List Listing → Option ℕ → Option Card
card_at listings none = none
card_at listings (some id) = card_or_none (find (λ (l : Listing). id == l.id) listings)

abbrev has_listing : ℕ → List Listing → Bool
has_listing id listings = any (λ (l : Listing). id == l.id) listings

find_there :
    (id : ℕ) (before : List Listing) (l : Listing) (rest : List Listing)
    → has_listing id before ≡ false
    → (id == l.id) ≡ true
    → find (λ (x : Listing). id == x.id) (before ++ l ∷ rest) ≡ some l
find_there id [] l rest h e = rw e refl
find_there id (x ∷ before) l rest h e = ground (arith, find_there id before l rest)

has_listing-append :
    (id : ℕ) (before : List Listing) (l : Listing)
    → has_listing id (before ++ l ∷ []) ≡ (has_listing id before || id == l.id)
has_listing-append id [] l = ground arith
has_listing-append id (x ∷ before) l = ground (arith, has_listing-append id before l)

apart_ids :
    (uuid : ℕ → ℕ)
    → ((i j : ℕ) → uuid i ≡ uuid j → i ≡ j)
    → (m n : ℕ) → suc n ≤ m
    → (uuid m == uuid n) ≡ false
apart_ids uuid inj m n h = elim (Bool-cases (uuid m == uuid n)) [
  | inl e ↦ let same : m ≡ n = inj m n ((==_iff (uuid m) (uuid n)).0 e) in absurd (omega arith)
  | inr e ↦ e
]

module _ {C : Type 0} where
  -- What a reader sees of a row: its own columns, and the card of its listing.
  abbrev pub seen : List Listing → Slot C → ℕ × C × Option Card
  seen listings s = (s.id, s.columns, card_at listings s.vehicle_listing_id)

  -- The same of a row before the revisions.
  abbrev pub seen_placed : Placed C → ℕ × C × Option Card
  seen_placed p = (p.id, p.columns, some (with_detail p.card))

  abbrev seen_placement : Placement C → ℕ × C × Option Card
  seen_placement p = (p.id, p.columns, some (with_detail p.card))

  module _ (uuid : ℕ → ℕ) (inj : (i j : ℕ) → uuid i ≡ uuid j → i ≡ j) where
    seen_linked :
        (n : ℕ) (todo : List (Placement C)) (listings : List Listing)
        → ((m : ℕ) → n ≤ m → has_listing (uuid m) listings ≡ false)
        → map
            (seen (listings ++ listings_from uuid n todo))
            (drop_card_columns (linked_from uuid n todo))
          ≡ map seen_placement todo
    unfolding drop_card_columns
    seen_linked n [] listings h = refl
    seen_linked n (p ∷ todo) listings h =
        let l = listing_of (uuid n) p.card in
        let rest = listings_from uuid (n + 1) todo in
        rw
          (find_there (uuid n) listings l rest (h n (omega arith))
            ((==_iff (uuid n) (uuid n)).1 refl))
          (ap (◌∷◌ (seen_placement p)) (
            subst
              (λ ls.
                map (seen ls) (drop_card_columns (linked_from uuid (n + 1) todo))
                ≡ map seen_placement todo)
              (append_assoc listings l rest)
              (seen_linked (n + 1) todo (listings ++ l ∷ []) (λ m k.
                rw
                  (
                    has_listing-append (uuid m) listings l,
                    h m (omega arith),
                    apart_ids uuid inj m n (omega arith),
                  )
                  refl))))

  select-unlinked :
      (rows : List (Placed C))
      → select (λ (p : Placement C). not (is_some p.vehicle_listing_id)) (map unlinked rows)
        ≡ map unlinked rows
  select-unlinked [] = refl
  select-unlinked (r ∷ rows) = ap (◌∷◌ (unlinked r)) (select-unlinked rows)

  apart_nothing : (rows : List (Placement C)) → AreApart rows []
  apart_nothing [] = tt
  apart_nothing (p ∷ rows) = (refl, apart_nothing rows)

  seen_before :
      (rows : List (Placed C)) → map seen_placement (map unlinked rows) ≡ map seen_placed rows
  seen_before [] = refl
  seen_before (r ∷ rows) = ap (◌∷◌ (seen_placed r)) (seen_before rows)

  -- Where no id repeats, each row that 0006 and 0007 leave has its id, its other columns, and by its
  -- listing the card that it had, with "#" for a missing address.
  pub split_keeps_cards :
      (uuid : ℕ → ℕ) (rows : List (Placed C))
      → ((i j : ℕ) → uuid i ≡ uuid j → i ≡ j)
      → AreDistinct (map unlinked rows)
      → map (seen (upgrade_listings uuid rows).0) (drop_card_columns (upgrade_listings uuid rows).1)
        ≡ map seen_placed rows
  unfolding upgrade_listings
  split_keeps_cards uuid rows inj h =
      rw
        (
          select-unlinked rows,
          backfilled uuid 0 (map unlinked rows) [] [] h (apart_nothing (map unlinked rows)),
        )
        (seen_linked uuid inj 0 (map unlinked rows) [] (λ m k. refl) ∙ seen_before rows)
