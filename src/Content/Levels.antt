-- ===== src/Content/Levels.antt =====
-- How deep the menu may be.
use awa_platform.Prelude.{
  ℕ, zero, suc, ◌≡◌, refl, ap, ◌∙◌, Bool, true, false, ◌&&◌, ◌||◌, List, [], ◌∷◌,
}
use awa_platform.Prelude.Lists.{select, any, any-select, any_ext}
use awa_platform.Exceptions.{Result, ok, raise, missing_greenlet}
use awa_platform.Content.{Sql, Lang, MenuItem}
use awa_platform.Content.Menu.{
  MenuItemRead, Submenu, then_rest, collect, child_of, active_children, shown_item,
  menu_item_to_schema, is_top, get_menu,
}

abbrev pub raises : {A : Type 0} → Result A → Bool
raises (ok a) = false
raises (raise e) = true

-- The only exception that may leave is that of a lazy load.
abbrev pub OnlyLazyLoad : {A : Type 0} → Result A → Type 0
OnlyLazyLoad (ok a) = Unit
OnlyLazyLoad (raise e) = e ≡ missing_greenlet

then_rest-OnlyLazyLoad :
    (r : Result MenuItemRead) (rest : Result Submenu)
    → OnlyLazyLoad r
    → OnlyLazyLoad rest
    → OnlyLazyLoad (then_rest r rest)
then_rest-OnlyLazyLoad (ok first) (ok rest) h k = tt
then_rest-OnlyLazyLoad (ok first) (raise e) h k = k
then_rest-OnlyLazyLoad (raise e) rest h k = h

collect-OnlyLazyLoad :
    (f : MenuItem → Result MenuItemRead) (rows : List MenuItem)
    → ((row : MenuItem) → OnlyLazyLoad (f row))
    → OnlyLazyLoad (collect f rows)
unfolding collect
collect-OnlyLazyLoad f [] h = tt
collect-OnlyLazyLoad f (row ∷ rows) h =
    then_rest-OnlyLazyLoad (f row) (collect f rows) (h row) (collect-OnlyLazyLoad f rows h)

raises-then_rest :
    (r : Result MenuItemRead) (rest : Result Submenu)
    → raises (then_rest r rest) ≡ (raises r || raises rest)
raises-then_rest (ok first) (ok rest) = refl
raises-then_rest (ok first) (raise e) = refl
raises-then_rest (raise e) rest = refl

raises-collect :
    (f : MenuItem → Result MenuItemRead) (rows : List MenuItem)
    → raises (collect f rows) ≡ any (λ r. raises (f r)) rows
unfolding collect
raises-collect f [] = refl
raises-collect f (row ∷ rows) =
    raises-then_rest (f row) (collect f rows)
    ∙ ap (λ b. raises (f row) || b) (raises-collect f rows)

module _ (sql : Sql) (table : List MenuItem) (lang : Lang) where
  -- Whether an active child of the item passes the test.
  abbrev pub has_child : (MenuItem → Bool) → MenuItem → Bool
  has_child p row =
      any (λ (c : MenuItem). child_of sql table lang row.id c && (c.is_active && p c)) table

  raises-shown_item :
      (row : MenuItem) (r : Result Submenu) → raises (shown_item sql table lang row r) ≡ raises r
  raises-shown_item row (ok children) = refl
  raises-shown_item row (raise e) = refl

  shown_item-OnlyLazyLoad :
      (row : MenuItem) (r : Result Submenu)
      → OnlyLazyLoad r
      → OnlyLazyLoad (shown_item sql table lang row r)
  shown_item-OnlyLazyLoad row (ok children) h = tt
  shown_item-OnlyLazyLoad row (raise e) h = h

  schema-OnlyLazyLoad :
      (n : ℕ) (row : MenuItem) → OnlyLazyLoad (menu_item_to_schema sql table lang n row)
  unfolding menu_item_to_schema
  schema-OnlyLazyLoad zero row = refl
  schema-OnlyLazyLoad (suc n) row =
      shown_item-OnlyLazyLoad row
        (collect (menu_item_to_schema sql table lang n) (active_children sql table lang row))
        (collect-OnlyLazyLoad (menu_item_to_schema sql table lang n)
          (active_children sql table lang row) (schema-OnlyLazyLoad n))

  any-active_children :
      (p : MenuItem → Bool) (row : MenuItem)
      → any p (active_children sql table lang row) ≡ has_child p row
  unfolding active_children
  any-active_children p row =
      any-select p (λ (c : MenuItem). c.is_active)
        (sql.order_by (λ (c : MenuItem). c.sort_order ∷ [])
          (select (child_of sql table lang row.id) table))
      ∙ sql.any-order_by (λ (c : MenuItem). c.is_active && p c)
          (λ (c : MenuItem). c.sort_order ∷ []) (select (child_of sql table lang row.id) table)
      ∙ any-select (λ (c : MenuItem). c.is_active && p c) (child_of sql table lang row.id) table

  schema_raises :
      (n : ℕ) (row : MenuItem)
      → raises (menu_item_to_schema sql table lang (suc n) row)
        ≡ has_child (λ c. raises (menu_item_to_schema sql table lang n c)) row
  unfolding menu_item_to_schema
  schema_raises n row =
      raises-shown_item row
        (collect (menu_item_to_schema sql table lang n) (active_children sql table lang row))
      ∙ raises-collect (menu_item_to_schema sql table lang n) (active_children sql table lang row)
      ∙ any-active_children (λ c. raises (menu_item_to_schema sql table lang n c)) row

  -- Two levels below the top.
  two_levels :
      (row : MenuItem)
      → raises (menu_item_to_schema sql table lang 2 row) ≡ has_child (has_child (λ c. true)) row
  unfolding menu_item_to_schema
  two_levels row =
      schema_raises 1 row
      ∙ any_ext
          (λ (c : MenuItem).
            child_of sql table lang row.id c
            && (c.is_active && raises (menu_item_to_schema sql table lang 1 c)))
          (λ (c : MenuItem).
            child_of sql table lang row.id c && (c.is_active && has_child (λ d. true) c))
          table
          (λ c.
            ap (λ b. child_of sql table lang row.id c && (c.is_active && b)) (schema_raises 0 c))

  get_menu-raises :
      raises (get_menu sql table lang)
      ≡ any (λ a. is_top sql table lang a && has_child (has_child (λ c. true)) a) table
  unfolding get_menu
  get_menu-raises =
      raises-collect (menu_item_to_schema sql table lang 2)
        (sql.order_by (λ (r : MenuItem). r.sort_order ∷ []) (select (is_top sql table lang) table))
      ∙ sql.any-order_by (λ r. raises (menu_item_to_schema sql table lang 2 r))
          (λ (r : MenuItem). r.sort_order ∷ []) (select (is_top sql table lang) table)
      ∙ any-select (λ r. raises (menu_item_to_schema sql table lang 2 r)) (is_top sql table lang)
          table
      ∙ any_ext (λ r. is_top sql table lang r && raises (menu_item_to_schema sql table lang 2 r))
          (λ r. is_top sql table lang r && has_child (has_child (λ c. true)) r) table
          (λ r. ap (λ b. is_top sql table lang r && b) (two_levels r))

  -- The menu is refused exactly if some active item of the top has an active child that has an active
  -- child of its own, and the exception is then that of a lazy load, MissingGreenlet.
  pub get_menu-raises_iff :
      (raises (get_menu sql table lang)
        ≡ any (λ a. is_top sql table lang a && has_child (has_child (λ c. true)) a) table)
      × OnlyLazyLoad (get_menu sql table lang)
  unfolding get_menu
  get_menu-raises_iff = (
    get_menu-raises,
    collect-OnlyLazyLoad (menu_item_to_schema sql table lang 2)
        (sql.order_by (λ (r : MenuItem). r.sort_order ∷ []) (select (is_top sql table lang) table))
        (schema-OnlyLazyLoad 2),
  )
