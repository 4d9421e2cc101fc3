-- ===== src/Content/Menu.antt =====
-- services/content_service.get_menu: the tree of the menu, as deep as it has been loaded.
use awa_platform.Prelude.{
  ℕ, zero, suc, String, ◌&&◌, Bool, Option, none, some, List, [], ◌∷◌, ◌==◌, is_some, not, false,
}
use awa_platform.Prelude.Lists.{select}
use awa_platform.Exceptions.{Result, ok, raise, missing_greenlet}
use awa_platform.Content.{Sql, Lang, or_else, pick, MenuItem}

mutual
  pub data MenuItemRead : Type 0 where
    item :
        (id : ℕ) (label url : String) (icon_class : Option String) (item_type visibility : String)
        (opens_new_tab : Bool) (children : Submenu)
        → MenuItemRead

  -- `list[MenuItemRead]`
  pub data Submenu : Type 0 where
    no_items : Submenu
    more : MenuItemRead → Submenu → Submenu

abbrev pub and_more : MenuItemRead → Result Submenu → Result Submenu
and_more first (ok rest) = ok (more first rest)
and_more first (raise e) = raise e

abbrev pub then_rest : Result MenuItemRead → Result Submenu → Result Submenu
then_rest (ok first) rest = and_more first rest
then_rest (raise e) rest = raise e

-- A list comprehension whose element may raise.
unfoldable pub collect : (MenuItem → Result MenuItemRead) → List MenuItem → Result Submenu
collect f [] = ok no_items
collect f (row ∷ rows) = let rest = collect f rows in then_rest (f row) rest

module _ (sql : Sql) (table : List MenuItem) (lang : Lang) where
  abbrev pub child_of : ℕ → MenuItem → Bool
  child_of id row = elim row.parent_id [ none ↦ false | some parent ↦ parent == id ]

  -- The relationship `children`, ordered by `sort_order`, with those that are shown.
  unfoldable pub active_children : MenuItem → List MenuItem
  active_children row =
      select (λ (c : MenuItem). c.is_active)
        (sql.order_by (λ (c : MenuItem). c.sort_order ∷ []) (select (child_of row.id) table))

  abbrev pub shown_item : MenuItem → Result Submenu → Result MenuItemRead
  shown_item row (ok children) = ok (
      item row.id (pick (some row.label_en) (some row.label_ar) lang) row.url row.icon_class
        (or_else (some row.item_type) "link") (or_else (some row.visibility) "all")
        row.opens_new_tab children)
  shown_item row (raise e) = raise e

  -- `loaded` is the number of levels of children that the query has loaded below the item; reading
  -- `children` of an item where they have not been loaded is a lazy load, which an asynchronous
  -- session refuses.
  unfoldable pub menu_item_to_schema : (loaded : ℕ) → MenuItem → Result MenuItemRead
  menu_item_to_schema zero row = raise missing_greenlet
  menu_item_to_schema (suc n) row =
      shown_item row (collect (menu_item_to_schema n) (active_children row))

  abbrev pub is_top : MenuItem → Bool
  is_top row = not (is_some row.parent_id) && row.is_active

  -- Two levels of children are loaded with the items of the top.
  unfoldable pub get_menu : Result Submenu
  get_menu =
      collect (menu_item_to_schema 2)
        (sql.order_by (λ (r : MenuItem). r.sort_order ∷ []) (select is_top table))
