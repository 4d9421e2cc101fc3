-- ===== src/Admin/Tests.antt =====
-- The back office of one administrator.
use awa_platform.Prelude.{ℕ, String, ◌≡◌, refl, Bool, true, ◌&&◌, none, some, List, [], ◌∷◌}
use awa_platform.Prelude.Int.{pos}
use awa_platform.Prelude.Lists.{any, length, select}
use awa_platform.Models.User.{User}
use awa_platform.Session.{Db}
use awa_platform.Roles.{staff_roles, section_role_requirements, meets, get_user_roles, role_names}
use awa_platform.Auth.Base.{get_user_by_id}
use awa_platform.Api.{
  reply, http_exception, check_claims, decode_access_token, user_of_claims, get_current_local_user,
  check_role, require_local_role,
}
use awa_platform.Api.Tests.{unsorted, admin, before, settings, jose}
use awa_platform.Content.{en}
use awa_platform.Content.Tests.{sql}
use awa_platform.Admin.{
  AdminNavItem, AdminNavItemRead, Chrome, nav_item_read, count_users_with_roles,
}
use awa_platform.Admin.Access.{
  after, before_slash, section_key_from_url, ensure_section_access, require_staff, nav_endpoint,
}
use awa_platform.Admin.Nav.{lets_in, nav_shows_open}
use awa_platform.Admin.Counts.{headcount_exact}

abbrev link : ℕ → String → AdminNavItem
link id url = record {
  id = id;
  parent_id = none;
  label_en = "";
  label_ar = "";
  icon_class = none;
  url = url;
  sort_order = pos 0;
  is_active = true;
}

abbrev chrome : Chrome
chrome = record {
  nav_items = link 1 "/admin/management/x" ∷ link 2 "/admin" ∷ link 3 "/admin/accountant" ∷ [];
  metrics = [];
  cards = [];
}

section_of_url : section_key_from_url "/admin/management/x" ≡ some "management"
unfolding section_key_from_url after before_slash
section_of_url = refl

no_section : section_key_from_url "/admin/" ≡ none
unfolding section_key_from_url after before_slash
no_section = refl

-- A manager cannot open the section of the accountants.
abbrev managed : Db
managed = record before {
  roles = record { id = 1; name = "Manager"; description = none; is_active = true } ∷ [];
}

not_for_managers : ensure_section_access unsorted admin managed "accountant" ≡ http_exception 403
unfolding ensure_section_access section_role_requirements get_user_roles meets
not_for_managers = refl

nav_shows_open_example :
    (items : List AdminNavItemRead) × (nav_endpoint jose unsorted settings sql 40
        (some "good")
        before
        chrome
        en
      ≡ reply items)
    × ((p : AdminNavItemRead → Bool)
        → any p items
          ≡ any
              (λ (row : AdminNavItem).
                row.is_active
                && (lets_in unsorted admin before (section_key_from_url row.url)
                    && p (nav_item_read sql en row)))
              chrome.nav_items)
unfolding require_staff require_local_role check_role get_current_local_user decode_access_token
    check_claims user_of_claims get_user_by_id meets get_user_roles
nav_shows_open_example =
    nav_shows_open jose unsorted settings sql 40 (some "good") before chrome en admin refl

headcount_exact_example :
    count_users_with_roles staff_roles before
    ≡ length (
        select
          (λ (u : User). meets (role_names (get_user_roles unsorted u.id before)) staff_roles)
          before.users)
headcount_exact_example = headcount_exact unsorted staff_roles before (refl, tt) (refl, tt)
