-- ===== src/Models.antt =====
-- The tables of models/: one record for each, and the columns that the services read or write.
-- The server-side timestamps (`created_at`, `updated_at`) and the ORM's relationships, which are
-- queries, have no field. A UUID is a number, since ids are only compared; a datetime is a number
-- of microseconds; a Numeric(12, 2) amount is an integer number of hundredths.
pub mod Auction
pub mod User
pub mod Role
