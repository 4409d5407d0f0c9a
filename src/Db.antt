-- ===== src/Db.antt =====
-- The tables of the spine (db/migrations/0001_init.sql, 0003_tags.sql) and their rows, and a
-- transaction: what `async with pool.connection() as conn` encloses.
-- Ids are UUIDs and are only compared: numbers, which the caller of an INSERT supplies, since
-- `gen_random_uuid()` is the database's. Times are microseconds; `now()` is constant in a
-- transaction, so each takes it as an argument. Costs are in units of numeric(10, 4).
mod Rows
mod Transactions
mod Statements
mod Inversion
pub mod Actions
pub use Rows.*
unfoldable pub use Transactions.*
unfoldable pub use Statements.*
pub use Inversion.*
