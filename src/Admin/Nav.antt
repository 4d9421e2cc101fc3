-- ===== src/Admin/Nav.antt =====
-- The navigation of the back office shows the sections that the user can open.
use awa_platform.Prelude.{
  ℕ, String, ◌≡◌, refl, sym, ap, ◌∙◌, Bool, true, false, ◌&&◌, Option, none, some, List, [], ◌∷◌,
  if◌then◌else◌,
}
use awa_platform.Prelude.Lists.{any, select, any-select, any_ext, any-map}
use awa_platform.Models.User.{User}
use awa_platform.Session.{Db}
use awa_platform.Roles.{Collation, section_role_requirements}
use awa_platform.Auth.Base.{Settings}
use awa_platform.Api.{Verifier, Reply, reply, http_exception, unhandled}
use awa_platform.Content.{Sql, Lang}
use awa_platform.Admin.{AdminNavItem, AdminNavItemRead, Chrome, nav_item_read, get_admin_nav}
use awa_platform.Admin.Access.{
  section_key_from_url, meets_required, held_names, ensure_section_access, is_open, require_staff,
  nav_endpoint,
}

abbrev is_reply : {A : Type 0} → Reply A → Bool
is_reply (reply a) = true
is_reply (http_exception status) = false
is_reply (unhandled e) = false

-- Whether the check of the section behind a url lets the user in; a url without a section is open.
abbrev pub lets_in : Collation → User → Db → Option String → Bool
lets_in col user db none = true
lets_in col user db (some section) = is_reply (ensure_section_access col user db section)

is_reply-if : (b : Bool) → is_reply (if b then reply tt else http_exception 403) ≡ b
is_reply-if true = refl
is_reply-if false = refl

open-lets_in :
    (col : Collation) (user : User) (db : Db) (section : Option String)
    → is_open (held_names col user db) section ≡ lets_in col user db section
unfolding ensure_section_access
open-lets_in col user db none = refl
open-lets_in col user db (some section) =
    sym (is_reply-if (meets_required (held_names col user db) (section_role_requirements section)))

module _ (jose : Verifier) (col : Collation) (settings : Settings) (sql : Sql) (now : ℕ)
    (credentials : Option String) (db : Db) (chrome : Chrome) where
  -- For a user of the staff the navigation is answered, and consists of exactly the active entries
  -- whose section the user can open: any test on entries is passed by one of the answer exactly if it
  -- is passed by an active row for whose section `_ensure_section_access` raises nothing.
  pub nav_shows_open :
      (lang : Lang) (user : User)
      → require_staff jose col settings now credentials db ≡ reply user
      → (items : List AdminNavItemRead) × (nav_endpoint jose col settings sql now credentials db
            chrome lang
          ≡ reply items)
        × ((p : AdminNavItemRead → Bool)
            → any p items
              ≡ any
                  (λ (row : AdminNavItem).
                    row.is_active
                    && (lets_in col user db (section_key_from_url row.url)
                        && p (nav_item_read sql lang row)))
                  chrome.nav_items)
  unfolding nav_endpoint get_admin_nav
  nav_shows_open lang user h =
      let opens : AdminNavItemRead → Bool =
        λ item. is_open (held_names col user db) (section_key_from_url item.url) in
      let active : AdminNavItem → Bool = λ r. r.is_active in
      (
        select opens (get_admin_nav sql lang chrome.nav_items),
        rw h refl,
        λ p.
            any-select p opens (get_admin_nav sql lang chrome.nav_items)
            ∙ any-map (λ item. opens item && p item) (nav_item_read sql lang)
                (sql.order_by (λ (r : AdminNavItem). r.sort_order ∷ [])
                  (select active chrome.nav_items))
            ∙ sql.any-order_by
                (λ r. opens (nav_item_read sql lang r) && p (nav_item_read sql lang r))
                (λ (r : AdminNavItem). r.sort_order ∷ []) (select active chrome.nav_items)
            ∙ any-select (λ r. opens (nav_item_read sql lang r) && p (nav_item_read sql lang r))
                active chrome.nav_items
            ∙ any_ext
                (λ (r : AdminNavItem).
                  r.is_active && (opens (nav_item_read sql lang r) && p (nav_item_read sql lang r)))
                (λ (r : AdminNavItem).
                  r.is_active
                  && (lets_in col user db (section_key_from_url r.url)
                      && p (nav_item_read sql lang r)))
                chrome.nav_items
                (λ r.
                  ap (λ b. r.is_active && (b && p (nav_item_read sql lang r)))
                    (open-lets_in col user db (section_key_from_url r.url))),
      )
