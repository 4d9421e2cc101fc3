-- ===== src/Api/Guard.antt =====
-- Who passes the dependencies of the endpoints.
use awa_platform.Prelude.{ℕ, String, ◌≡◌, sym, ap, ◌∙◌, true, Option, List, Bool-cases, inl, inr}
use awa_platform.Models.User.{User}
use awa_platform.Session.{Db}
use awa_platform.Roles.{Collation, meets, get_user_roles, role_names}
use awa_platform.Auth.Base.{Settings}
use awa_platform.Api.{
  Verifier, Reply, reply, http_exception, unhandled, get_current_local_user, check_role,
  require_local_role,
}

pub reply_inj : {A : Type 0} {a b : A} → reply a ≡ reply b → a ≡ b
reply_inj h = cc

pub refused_not_reply : {A : Type 0} {status : ℕ} {a : A} → http_exception status ≡ reply a → ⊥
refused_not_reply h = cc

module _ (jose : Verifier) (col : Collation) (settings : Settings) where
  role_checked :
      (names : List String) (r : Reply User) (user : User) (db : Db)
      → check_role jose col names r db ≡ reply user
      → (r ≡ reply user) × (meets (role_names (get_user_roles col user.id db)) names ≡ true)
  unfolding check_role
  role_checked names (reply u) user db h =
      elim (Bool-cases (meets (role_names (get_user_roles col u.id db)) names)) [
        | inl e ↦
            let same : u ≡ user = reply_inj (rw e at h) in
            (
              ap reply same,
              ap (λ (v : User). meets (role_names (get_user_roles col v.id db)) names) (sym same)
                  ∙ e,
            )
        | inr e ↦ absurd (refused_not_reply (rw e at h))
      ]
  role_checked names (http_exception status) user db h = absurd (cc)
  role_checked names (unhandled e) user db h = absurd (cc)

  -- Whoever passes the dependency on some roles is the user of the presented token and holds one of
  -- the roles.
  require_local_role_checked :
      (names : List String) (now : ℕ) (credentials : Option String) (user : User) (db : Db)
      → require_local_role jose col settings names now credentials db ≡ reply user
      → (get_current_local_user jose settings now credentials db ≡ reply user)
        × (meets (role_names (get_user_roles col user.id db)) names ≡ true)
  unfolding require_local_role
  require_local_role_checked names now credentials user db h =
      role_checked names (get_current_local_user jose settings now credentials db) user db h
