-- ===== src/Store.antt =====
-- The database that the services share, and the statements that they run on it. The rows are
-- those that row-level security shows to one organization's transactions (WithOrgScope in
-- internal/models/db.go), so the organization_id column and the filters on it are left out.
-- Identifiers are only compared, so they are numbers; they come from a source that the model
-- does not choose, and a primary key that is taken refuses the row.
pub mod Rows
pub mod Monad
pub mod Keeps
pub mod Yields
pub mod Gives
unfoldable pub use Rows.*
unfoldable pub use Monad.*
