-- ===== src/Migrations.antt =====
-- alembic/versions: the revisions of the database.
pub mod Roles
pub mod PrimaryRole
pub mod Featured
pub mod Demo
pub mod Lookups
pub mod Dashboard
mod Tests
