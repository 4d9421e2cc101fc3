-- ===== src/Roles/Revoke.antt =====
-- Revoking a role: what is deleted, who is promoted, and what every user keeps.
pub mod Left
use awa_platform.Prelude.{
  ℕ, String, ◌≡◌, ◌≢◌, refl, true, not, ◌&&◌, Option, none, some, List, [], ◌∷◌, ◌==◌, arith, leb,
  if◌then◌else◌, ==_iff, if_intro, if_split, Bool-cases, inl, inr, ap, subst, sym, ◌∙◌,
}
use awa_platform.Prelude.Lists.{All, find, select, length, find_test}
use awa_platform.Models.User.{User}
use awa_platform.Models.Role.{Role, UserRole}
use awa_platform.Session.{Db, Session}
use awa_platform.Exceptions.{Result, ok, raise, last_role_removal_error}
use awa_platform.Roles.{
  get_role_by_name, holds, point_primary, delete_row, longest_held, set_promoted, promote,
  revoke_target, revoke_found, revoke_role,
}
use awa_platform.Roles.Rows.{
  any-select, find-select, All-map, All-select_of, All-zip, All-update, HasUniqueIds, found_unique,
}
use awa_platform.Roles.Grant.{IsRoled, holds-cons}
use awa_platform.Roles.Revoke.Left.{delete_keeps, longest_held_all, left, of_user, remaining_held}

-- The user object of the session is the user's row.
abbrev pub IsRowOf : User → Db → Type 0
IsRowOf user db =
    All (λ (u : User). u.id ≡ user.id → u.primary_role_id ≡ user.primary_role_id) db.users

-- What deleting the row leaves: every user but the one in question keeps the primary role.
abbrev OthersRoled : ℕ → Db → Type 0
OthersRoled uid db =
    All (λ (u : User). u.id ≢ uid → holds u.id u.primary_role_id db.user_roles ≡ true) db.users

module _ (user : User) (db : Db) (t : UserRole) (mine : t.user_id ≡ user.id)
    (unique : All (λ (q : UserRole). q.id ≡ t.id → q ≡ t) db.user_roles) (roled : IsRoled db) where
  delete-OthersRoled : OthersRoled user.id (delete_row t.id db)
  delete-OthersRoled =
      All-map (λ (u : User). holds u.id u.primary_role_id db.user_roles ≡ true)
        (λ (u : User).
          u.id ≢ user.id → holds u.id u.primary_role_id (left t.id db.user_roles) ≡ true)
        db.users
        (λ u h ne.
          delete_keeps u.id u.primary_role_id t db.user_roles unique (λ e. absurd (ne (e ∙ mine)))
            h)
        roled

  -- If the revoked role was not the primary one, nothing else is needed.
  delete-IsRoled : IsRowOf user db → user.primary_role_id ≢ t.role_id → IsRoled (delete_row t.id db)
  delete-IsRoled row ne =
      All-zip (λ (u : User). holds u.id u.primary_role_id db.user_roles ≡ true)
        (λ (u : User). u.id ≡ user.id → u.primary_role_id ≡ user.primary_role_id)
        (λ (u : User). holds u.id u.primary_role_id (left t.id db.user_roles) ≡ true) db.users
        (λ u h same.
          delete_keeps u.id u.primary_role_id t db.user_roles unique
            (λ e p. ne (sym (same (e ∙ mine)) ∙ p)) h)
        roled row

-- A user who is given a primary role that the user holds makes up for the rest.
set_primary_others :
    (uid rid : ℕ) (db : Db)
    → OthersRoled uid db
    → holds uid rid db.user_roles ≡ true
    → IsRoled (point_primary true uid rid db)
set_primary_others uid rid db h held =
    All-update (λ (u : User). u.id ≢ uid → holds u.id u.primary_role_id db.user_roles ≡ true)
      (λ (u : User). holds u.id u.primary_role_id db.user_roles ≡ true) (λ u. u.id == uid)
      (λ u. record u { primary_role_id = rid }) db.users
      (λ u k e. let same : u.id ≡ uid = (==_iff u.id uid).0 e in rw same held)
      (λ u k e. k (λ same. ground arith)) h

set_promoted-IsRoled :
    (user : User) (rid : ℕ) (o : Option Role) (s : Session)
    → OthersRoled user.id s.working
    → holds user.id rid s.working.user_roles ≡ true
    → ((role : Role) → o ≡ some role → role.id ≡ rid)
    → (set_promoted user o s).0 ≡ ok tt
    → IsRoled (set_promoted user o s).1.working
unfolding set_promoted
set_promoted-IsRoled user rid none s h held id_of ok_eq = absurd (cc)
set_promoted-IsRoled user rid (some role) s h held id_of ok_eq =
    rw (id_of role refl) (set_primary_others user.id rid s.working h held)

promote-IsRoled :
    (user : User) (rows : List UserRole) (s : Session)
    → OthersRoled user.id s.working
    → All (λ (x : UserRole). holds user.id x.role_id s.working.user_roles ≡ true) rows
    → (promote user rows s).0 ≡ ok tt
    → IsRoled (promote user rows s).1.working
unfolding promote
promote-IsRoled user [] s h held ok_eq = absurd (cc)
promote-IsRoled user (r ∷ rows) s h held ok_eq =
    let rid = (longest_held r rows).role_id in
    set_promoted-IsRoled user rid (find (λ (q : Role). q.id == rid) s.working.roles) s h
      (longest_held_all (λ (x : UserRole). holds user.id x.role_id s.working.user_roles ≡ true) r
        rows held.0 held.1)
      (λ role e. (==_iff role.id rid).0 (find_test (λ (q : Role). q.id == rid) s.working.roles e))
      ok_eq

find_and :
    (uid rid : ℕ) (rows : List UserRole) {t : UserRole}
    → find (λ (r : UserRole). r.role_id == rid) (of_user uid rows) ≡ some t
    → (find (λ (r : UserRole). r.user_id == uid && r.role_id == rid) rows ≡ some t)
      × (t.user_id ≡ uid)
      × (t.role_id ≡ rid)
find_and uid rid rows {t} e =
    let found : find (λ (r : UserRole). r.user_id == uid && r.role_id == rid) rows ≡ some t =
      rw find-select at e in
    let both : (t.user_id == uid && t.role_id == rid) ≡ true =
      find_test (λ (r : UserRole). r.user_id == uid && r.role_id == rid) rows found in
    (found, ground arith, ground arith)

-- A call that returns leaves every user with the primary role among the roles held.
abbrev KeepsRoles : Result (Unit {0}) × Session → Type 0
KeepsRoles r = r.0 ≡ ok tt → IsRoled r.1.working

revoke_target-IsRoled :
    (user : User) (role : Role) (o : Option UserRole) (s : Session)
    → find (λ (r : UserRole). r.role_id == role.id) (of_user user.id s.working.user_roles) ≡ o
    → IsRoled s.working
    → IsRowOf user s.working
    → HasUniqueIds s.working.user_roles
    → KeepsRoles (revoke_target user role (of_user user.id s.working.user_roles) o s)
unfolding revoke_target
revoke_target-IsRoled user role none s e h row u = λ _. h
revoke_target-IsRoled user role (some t) s e h row u =
    let db = s.working in
    let (found, mine, role_of) = find_and user.id role.id db.user_roles e in
    let unique =
      found_unique t (λ (r : UserRole). r.user_id == user.id && r.role_id == role.id) db.user_roles
        u found in
    let deleted = record s { working = delete_row t.id db } in
    let current = of_user user.id db.user_roles in
    if_intro KeepsRoles (length current == 1) (raise (last_role_removal_error user.id), s)
      (if user.primary_role_id == role.id
        then promote user (left t.id current) deleted
        else (ok tt, deleted))
      (λ c. absurd (cc))
      (if_split KeepsRoles (user.primary_role_id == role.id)
        (promote user (left t.id current) deleted) (ok tt, deleted)
        (λ _.
          promote-IsRoled user (left t.id current) deleted
            (delete-OthersRoled user db t mine unique h)
            (remaining_held user.id t.id db.user_roles))
        (λ was_primary _.
          delete-IsRoled user db t mine unique h row (λ p. ground (arith, role_of))))

revoke_found-IsRoled :
    (user : User) (r : Result Role) (s : Session)
    → IsRoled s.working
    → IsRowOf user s.working
    → HasUniqueIds s.working.user_roles
    → KeepsRoles (revoke_found user r s)
unfolding revoke_found
revoke_found-IsRoled user (raise e) s h row u = λ c. absurd (cc)
revoke_found-IsRoled user (ok role) s h row u = revoke_target-IsRoled user role _ s refl h row u

-- A revocation that returns leaves every user with a primary role that is among the roles held;
-- the primary key of `user_roles` is unique, and the user object is the user's row.
pub revoke_role-IsRoled :
    (user : User) (name : String) (s : Session)
    → IsRoled s.working
    → IsRowOf user s.working
    → HasUniqueIds s.working.user_roles
    → (revoke_role user name s).0 ≡ ok tt
    → IsRoled (revoke_role user name s).1.working
unfolding revoke_role
revoke_role-IsRoled user name s h row u =
    revoke_found-IsRoled user (get_role_by_name name s.working) s h row u
