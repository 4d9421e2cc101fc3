-- ===== src/Content/Tabs.antt =====
-- The tabs of the featured auctions, and what is on show under them.
use awa_platform.Prelude.{
  String, ◌≡◌, refl, sym, ap, subst, ◌∙◌, Bool, true, false, ◌||◌, Option, none, some, List, [],
  ◌∷◌, ◌++◌, arith, if◌then◌else◌, if_split, Bool-cases, inl, inr, str_eq, eq_iff,
}
use awa_platform.Prelude.Lists.{any, find}
use awa_platform.Content.{Sql, Lang, FeaturedAuction}
use awa_platform.Content.Featured.{
  FeaturedAuctionTabRead, key_of, has_tab, tab_of, add_tab, collect_tabs, featured_rows,
  get_featured_auction_tabs,
}

module _ {A : Type 0} where
  abbrev or_first : Option A → Option A → Option A
  or_first none o = o
  or_first (some a) o = some a

  or_first-none : (o : Option A) → or_first o none ≡ o
  or_first-none none = refl
  or_first-none (some a) = refl

  or_first_assoc : (a b c : Option A) → or_first (or_first a b) c ≡ or_first a (or_first b c)
  or_first_assoc none b c = refl
  or_first_assoc (some x) b c = refl

  find-append :
      (p : A → Bool) (xs ys : List A) → find p (xs ++ ys) ≡ or_first (find p xs) (find p ys)
  find-append p [] ys = refl
  find-append p (x ∷ xs) ys = ground (arith, find-append p xs ys)

  any-append : (p : A → Bool) (xs ys : List A) → any p (xs ++ ys) ≡ (any p xs || any p ys)
  any-append p [] ys = refl
  any-append p (x ∷ xs) ys = ground (arith, any-append p xs ys)

  found_stays :
      (p : A → Bool) (xs : List A) (o : Option A)
      → any p xs ≡ true
      → or_first (find p xs) o ≡ find p xs
  found_stays p [] o h = absurd (cc)
  found_stays p (x ∷ xs) o h = ground (arith, found_stays p xs o)

abbrev pub with_key : String → FeaturedAuctionTabRead → Bool
with_key key t = str_eq t.category_key key

abbrev pub row_with_key : String → FeaturedAuction → Bool
row_with_key key row = str_eq (key_of row) key

-- No two tabs have the same key.
abbrev pub AreDistinct : List FeaturedAuctionTabRead → Type 0
AreDistinct [] = Unit
AreDistinct (t ∷ ts) = (has_tab t.category_key ts ≡ false) × AreDistinct ts

-- The tab that a row would make.
abbrev pub tab_made : Lang → Option FeaturedAuction → Option FeaturedAuctionTabRead
tab_made lang none = none
tab_made lang (some row) = some (tab_of lang row)

module _ (lang : Lang) where
  find-add_tab :
      (key : String) (row : FeaturedAuction) (tabs : List FeaturedAuctionTabRead)
      → find (with_key key) (add_tab lang row tabs)
        ≡ or_first
            (find (with_key key) tabs)
            (if row_with_key key row then some (tab_of lang row) else none)
  find-add_tab key row tabs =
      if_split
        (λ t.
          find (with_key key) t
          ≡ or_first (find (with_key key) tabs)
              (if row_with_key key row then some (tab_of lang row) else none))
        (has_tab (key_of row) tabs) tabs (tabs ++ (tab_of lang row ∷ []))
        (λ e. elim (Bool-cases (row_with_key key row)) [
          | inl i ↦ sym (
              found_stays (with_key key) tabs
                (if row_with_key key row then some (tab_of lang row) else none)
                (subst (λ k. has_tab k tabs ≡ true) ((eq_iff (key_of row) key).0 i) e))
          | inr i ↦ rw i (sym (or_first-none (find (with_key key) tabs)))
        ])
        (λ e. find-append (with_key key) tabs (tab_of lang row ∷ []))

  find-collect_tabs :
      (key : String) (rows : List FeaturedAuction) (tabs : List FeaturedAuctionTabRead)
      → find (with_key key) (collect_tabs lang rows tabs)
        ≡ or_first (find (with_key key) tabs) (tab_made lang (find (row_with_key key) rows))
  unfolding collect_tabs
  find-collect_tabs key [] tabs = sym (or_first-none (find (with_key key) tabs))
  find-collect_tabs key (row ∷ rows) tabs =
      find-collect_tabs key rows (add_tab lang row tabs)
      ∙ ap (λ o. or_first o (tab_made lang (find (row_with_key key) rows)))
          (find-add_tab key row tabs)
      ∙ or_first_assoc (find (with_key key) tabs)
          (if row_with_key key row then some (tab_of lang row) else none)
          (tab_made lang (find (row_with_key key) rows))
      ∙ ap (or_first (find (with_key key) tabs)) (ground arith)

  append-AreDistinct :
      (ts : List FeaturedAuctionTabRead) (t : FeaturedAuctionTabRead)
      → has_tab t.category_key ts ≡ false
      → AreDistinct ts
      → AreDistinct (ts ++ (t ∷ []))
  append-AreDistinct [] t h d = (refl, tt)
  append-AreDistinct (u ∷ ts) t h (d, ds) = (
    any-append (with_key u.category_key) ts (t ∷ [])
        ∙ ground
            (arith, eq_iff t.category_key u.category_key, eq_iff u.category_key t.category_key),
    append-AreDistinct ts t (ground arith) ds,
  )

  collect_tabs-AreDistinct :
      (rows : List FeaturedAuction) (tabs : List FeaturedAuctionTabRead)
      → AreDistinct tabs
      → AreDistinct (collect_tabs lang rows tabs)
  unfolding collect_tabs
  collect_tabs-AreDistinct [] tabs d = d
  collect_tabs-AreDistinct (row ∷ rows) tabs d =
      collect_tabs-AreDistinct rows (add_tab lang row tabs) (
        if_split AreDistinct (has_tab (key_of row) tabs) tabs (tabs ++ (tab_of lang row ∷ []))
          (λ e. d) (λ e. append-AreDistinct tabs (tab_of lang row) e d))

  -- There is one tab for each category of the active rows, made from the first row of the category in
  -- the order of the query, and none for another key.
  featured_tabs_exact :
      (sql : Sql) (rows : List FeaturedAuction) (key : String)
      → AreDistinct (get_featured_auction_tabs sql lang rows)
        × (find (with_key key) (get_featured_auction_tabs sql lang rows)
            ≡ tab_made lang (find (row_with_key key) (featured_rows sql rows)))
  unfolding get_featured_auction_tabs
  featured_tabs_exact sql rows key = (
    collect_tabs-AreDistinct (featured_rows sql rows) [] tt,
    find-collect_tabs key (featured_rows sql rows) [],
  )
