-- ===== src/Api/Keeps.antt =====
-- What the role endpoints leave committed.
use awa_platform.Prelude.{
  not, Bool-cases, inl, inr, ℕ, String, ◌≡◌, ◌≢◌, refl, sym, ap, subst, ◌∙◌, Bool, Option, none,
  some, List, [], ◌∷◌, ◌==◌, if◌then◌else◌, if_intro, arith,
}
use awa_platform.Prelude.Lists.{All, All-find, find, length, select}
use awa_platform.Exceptions.{Result, ok, raise}
use awa_platform.Models.User.{User}
use awa_platform.Models.Role.{Role, UserRole}
use awa_platform.Session.{Db, Session}
use awa_platform.Auth.Base.{get_user_by_id}
use awa_platform.Roles.{
  Collation, get_role_by_name, grant, assign_found, assign_role, set_promoted, promote,
  revoke_target, revoke_found, revoke_role, delete_row,
}
use awa_platform.Roles.Rows.{HasUniqueIds}
use awa_platform.Roles.Grant.{IsRoled, assign_role-IsRoled}
use awa_platform.Roles.Revoke.{revoke_role-IsRoled}
use awa_platform.Api.{
  Reply, reply, http_exception, unhandled, finish_roles, assign_for, revoke_for, guarded, handled,
  assign_user_role, revoke_user_role,
}

-- The services of roles leave the commit to the endpoint.
stored-grant :
    (user : User) (role : Role) (p : Bool) (new : UserRole) (o : Option UserRole) (s : Session)
    → (grant user role p new o s).1.stored ≡ s.stored
unfolding grant
stored-grant user role p new none s = refl
stored-grant user role p new (some row) s = refl

stored-assign_found :
    (id t : ℕ) (user : User) (p : Bool) (r : Result Role) (s : Session)
    → (assign_found id t user p r s).1.stored ≡ s.stored
unfolding assign_found
stored-assign_found id t user p (raise e) s = refl
stored-assign_found id t user p (ok role) s = stored-grant user role p _ _ s

stored-assign_role :
    (id t : ℕ) (user : User) (name : String) (p : Bool) (s : Session)
    → (assign_role id t user name p s).1.stored ≡ s.stored
unfolding assign_role
stored-assign_role id t user name p s =
    stored-assign_found id t user p (get_role_by_name name s.working) s

stored-set_promoted :
    (user : User) (o : Option Role) (s : Session) → (set_promoted user o s).1.stored ≡ s.stored
unfolding set_promoted
stored-set_promoted user none s = refl
stored-set_promoted user (some role) s = refl

stored-promote :
    (user : User) (rows : List UserRole) (s : Session) → (promote user rows s).1.stored ≡ s.stored
unfolding promote
stored-promote user [] s = refl
stored-promote user (r ∷ rows) s = stored-set_promoted user _ s

stored-revoke_target :
    (user : User) (role : Role) (current : List UserRole) (o : Option UserRole) (s : Session)
    → (revoke_target user role current o s).1.stored ≡ s.stored
unfolding revoke_target
stored-revoke_target user role current none s = refl
stored-revoke_target user role current (some t) s =
    let deleted = record s { working = delete_row t.id s.working } in
    let left = select (λ (r : UserRole). not (r.id == t.id)) current in
    if_intro (λ r. r.1.stored ≡ s.stored) (length current == 1) _
      (if user.primary_role_id == role.id then promote user left deleted else (ok tt, deleted)) refl
      (if_intro (λ r. r.1.stored ≡ s.stored) (user.primary_role_id == role.id)
        (promote user left deleted) (ok tt, deleted) (stored-promote user left deleted) refl)

stored-revoke_found :
    (user : User) (r : Result Role) (s : Session) → (revoke_found user r s).1.stored ≡ s.stored
unfolding revoke_found
stored-revoke_found user (raise e) s = refl
stored-revoke_found user (ok role) s =
    let current = select (λ (r : UserRole). r.user_id == user.id) s.working.user_roles in
    stored-revoke_target user role current (find (λ (r : UserRole). r.role_id == role.id) current) s

stored-revoke_role :
    (user : User) (name : String) (s : Session) → (revoke_role user name s).1.stored ≡ s.stored
unfolding revoke_role
stored-revoke_role user name s = stored-revoke_found user (get_role_by_name name s.working) s

-- The endpoint commits what the service has left, or nothing.
finish-IsRoled :
    {A : Type 0} (col : Collation) (user : User) (r : Result A × Session)
    → IsRoled r.1.stored
    → ((a : A) → r.0 ≡ ok a → IsRoled r.1.working)
    → IsRoled (finish_roles col user r).1.stored
unfolding finish_roles
finish-IsRoled col user (raise e, s) h k = h
finish-IsRoled col user (ok a, s) h k = k a refl

guarded-IsRoled :
    {A : Type 0} (admin : Reply User) (body : Session → Reply A × Session) (db : Db)
    → IsRoled db
    → IsRoled (handled body db).1
    → IsRoled (handled (guarded admin body) db).1
unfolding guarded
guarded-IsRoled (reply a) body db h k = k
guarded-IsRoled (http_exception status) body db h k = h
guarded-IsRoled (unhandled e) body db h k = h

assign_for-IsRoled :
    (col : Collation) (id t : ℕ) (name : String) (p : Bool) (o : Option User) (db : Db)
    → IsRoled db
    → IsRoled (handled (assign_for col id t name p o) db).1
unfolding assign_for
assign_for-IsRoled col id t name p none db h = h
assign_for-IsRoled col id t name p (some user) db h =
    let s : Session = record { working = db; stored = db } in
    finish-IsRoled col user (assign_role id t user name p s)
      (subst IsRoled (sym (stored-assign_role id t user name p s)) h)
      (λ a e. assign_role-IsRoled id t user name p s h)

-- Whoever calls the endpoint that grants a role, with whatever arguments: if every user's primary
-- role is among the roles held, it still is in what the request has committed.
assign_user_role-IsRoled :
    (col : Collation) (admin : Reply User) (id t user_id : ℕ) (name : String) (p : Bool) (db : Db)
    → IsRoled db
    → IsRoled (handled (assign_user_role col admin id t user_id name p) db).1
unfolding assign_user_role
assign_user_role-IsRoled col admin id t user_id name p db h =
    guarded-IsRoled admin (assign_for col id t name p (get_user_by_id user_id db)) db h
      (assign_for-IsRoled col id t name p (get_user_by_id user_id db) db h)

-- The ids of the users are unique.
abbrev pub HasUniqueUsers : List User → Type 0
HasUniqueUsers [] = Unit
HasUniqueUsers (u ∷ us) = All (λ (v : User). v.id ≢ u.id) us × HasUniqueUsers us

no_row :
    (us : List User) (i : ℕ) (user : User)
    → All (λ (v : User). v.id ≢ i) us
    → user.id ≡ i
    → All (λ (v : User). v.id ≡ user.id → v.primary_role_id ≡ user.primary_role_id) us
no_row [] i user h e = tt
no_row (v ∷ us) i user h e = ((λ same. absurd (h.0 (same ∙ e))), no_row us i user h.1 e)

-- A user that has been found by id is the only row with it.
found-IsRow :
    (us : List User) (user_id : ℕ) (user : User)
    → HasUniqueUsers us
    → find (λ (v : User). v.id == user_id) us ≡ some user
    → All (λ (v : User). v.id ≡ user.id → v.primary_role_id ≡ user.primary_role_id) us
found-IsRow [] user_id user h e = tt
found-IsRow (v ∷ us) user_id user h e = elim (Bool-cases (v.id == user_id)) [
  | inl t ↦
      let same : v ≡ user = ground arith in
      (
        (λ _. ap (λ (x : User). x.primary_role_id) same),
        no_row us v.id user h.0 (ap (λ (x : User). x.id) (sym same)),
      )
  | inr t ↦
      let later : find (λ (v : User). v.id == user_id) us ≡ some user = rw t at e in
      (
        (λ i. absurd (
            All-find (λ (w : User). w.id ≢ v.id) (λ (w : User). w.id == user_id) us h.0 later
              (sym i))),
        found-IsRow us user_id user h.1 later,
      )
]

revoke_for-IsRoled :
    (col : Collation) (user_id : ℕ) (name : String) (o : Option User) (db : Db)
    → get_user_by_id user_id db ≡ o
    → IsRoled db
    → HasUniqueUsers db.users
    → HasUniqueIds db.user_roles
    → IsRoled (handled (revoke_for col name o) db).1
unfolding revoke_for get_user_by_id
revoke_for-IsRoled col user_id name none db found h users rows = h
revoke_for-IsRoled col user_id name (some user) db found h users rows =
    let s : Session = record { working = db; stored = db } in
    finish-IsRoled col user (revoke_role user name s)
      (subst IsRoled (sym (stored-revoke_role user name s)) h)
      (λ a e.
        revoke_role-IsRoled user name s h (found-IsRow db.users user_id user users found) rows e)

-- Whoever calls the endpoint that revokes a role, with whatever arguments, and however the request
-- ends: if every user's primary role is among the roles held, it still is in what the request has
-- committed. The primary keys of `users` and `user_roles` are unique.
revoke_user_role-IsRoled :
    (col : Collation) (admin : Reply User) (user_id : ℕ) (name : String) (db : Db)
    → IsRoled db
    → HasUniqueUsers db.users
    → HasUniqueIds db.user_roles
    → IsRoled (handled (revoke_user_role col admin user_id name) db).1
unfolding revoke_user_role
revoke_user_role-IsRoled col admin user_id name db h users rows =
    guarded-IsRoled admin (revoke_for col name (get_user_by_id user_id db)) db h
      (revoke_for-IsRoled col user_id name (get_user_by_id user_id db) db refl h users rows)
