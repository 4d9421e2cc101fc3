-- ===== src/Models/Role.antt =====
-- models/role.py: roles, and which user holds which.
use awa_platform.Prelude.{ℕ, String, Bool, Option}

pub record Role : Type 0 where
  pub id : ℕ
  pub name : String
  pub description : Option String
  pub is_active : Bool

pub record UserRole : Type 0 where
  pub id : ℕ
  pub user_id : ℕ
  pub role_id : ℕ
  pub assigned_at : ℕ
